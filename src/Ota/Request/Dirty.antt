-- ===== src/Ota/Request/Dirty.antt =====
-- How far `handle_req` of src/lib/ota.c dirties the partition: at most the bytes that
-- `part_bytes_written` counts.
use vedruino.Base.{
  ℕ, zero, suc, ◌+◌, ◌≤◌, ◌<◌, ◌≡◌, refl, ap, ◌∙◌, ◌>>=◌, inl, inr, Bool, true, false, ◌&&◌, not,
  Option, none, some, List, [], ◌∷◌, arith, ltb, ltb→lt, text_eq, Bool-cases, length, M, Returns,
  bind-Returns,
}
use vedruino.Ip.Stream.{pk_tcp_recv, pk_tcp_recvn}
use vedruino.Ip.Stream.Keeps.{pk_tcp_recvn-keeps}
use vedruino.Ota.Platform.{Platform, Header, State}
use vedruino.Ota.Flash.{erased, IsFlash}
use vedruino.Ota.Rules.{io_bind-Returns}
use vedruino.Ota.Hex.{md5_size}
use vedruino.Ota.Request.{
  Received, all_received, broken_off, firmware_buf_size, after_write, write_block, firmware_next,
  firmware_loop, finish_firmware, receive_firmware, with_buffer, read_md5, check_size, read_size,
  after_magic, read_magic, handle_req, u32_bytes, magic, magic_size,
}

module _ (p : Platform) (fl : IsFlash p) (size : ℕ) where
  -- Above the bytes counted so far, every cell of the partition is erased.
  pub record IsDirty (st : State p) : Type 0 where
    pub part : st.upd_part_size ≡ size
    pub above : (i : ℕ) → st.part_bytes_written ≤ i → i < size → fl.cell st.world i ≡ erased

  -- Between two requests: nothing is counted, and every cell of the partition is erased.
  pub record IsWaiting (st : State p) : Type 0 where
    pub part : st.upd_part_size ≡ size
    pub nothing : st.part_bytes_written ≡ 0
    pub all_erased : (i : ℕ) → i < size → fl.cell st.world i ≡ erased

  abbrev pub Same : p.World → p.World → Type 0
  Same w v = (i : ℕ) → fl.cell v i ≡ fl.cell w i

  -- A change of the world that keeps the cells, and of the header, keeps what is known of them.
  pub IsDirty-Same :
      (st : State p) (w : p.World) (h : Header)
      → IsDirty st
      → Same st.world w
      → IsDirty (record st { world = w; header = h })
  IsDirty-Same st w h d same = record { part = d.part; above = λ i a b. same i ∙ d.above i a b }

  pub IsWaiting-Same :
      (st : State p) (w : p.World) (h : Header)
      → IsWaiting st
      → Same st.world w
      → IsWaiting (record st { world = w; header = h })
  IsWaiting-Same st w h d same = record {
    part = d.part;
    nothing = d.nothing;
    all_erased = λ i b. same i ∙ d.all_erased i b;
  }

  pub IsDirty-of_IsWaiting : (st : State p) → IsWaiting st → IsDirty st
  IsDirty-of_IsWaiting st d = record { part = d.part; above = λ i a b. d.all_erased i b }

  module _ (conf : Bool) where
    after_write-IsDirty :
        (rest : M (State p) (Received p.Md5)) (ok : Bool) (st : State p)
        → IsDirty st
        → Returns (λ _ v. IsDirty v) (rest st)
        → Returns (λ _ v. IsDirty v) (after_write p conf rest ok st)
    unfolding after_write
    after_write-IsDirty rest true st d next = next
    after_write-IsDirty rest false st d next = d

    write_block-IsDirty :
        (rest : M (State p) (Received p.Md5)) (b : ℕ) (bs : List ℕ) (st : State p)
        → IsDirty st
        → ((st' : State p)
            → IsDirty st'
            → st'.header ≡ st.header
            → st.part_bytes_written < st'.part_bytes_written
            → Returns (λ _ v. IsDirty v) (rest st'))
        → Returns (λ _ v. IsDirty v) (write_block p conf rest (b ∷ bs) st)
    unfolding write_block
    write_block-IsDirty rest b bs st d next =
        after_write-IsDirty rest (p.partition_write_raw st.part_bytes_written (b ∷ bs) st.world).0
          st' d' (next st' d' refl (omega arith))
      where
        st' : State p
        st' = record st {
          world = (p.partition_write_raw st.part_bytes_written (b ∷ bs) st.world).1;
          part_bytes_written = st.part_bytes_written + length (b ∷ bs);
        }

        d' : IsDirty st'
        d' = record {
          part = d.part;
          above = λ i a lt.
              fl.write_frame st.part_bytes_written i (b ∷ bs) st.world (inr a)
              ∙ d.above i (omega arith) lt;
        }

    firmware_next-IsDirty :
        (rest : p.Md5 → M (State p) (Received p.Md5)) (ctx : p.Md5) (r : Option (List ℕ))
        (st : State p)
        → IsDirty st
        → ((ctx' : p.Md5) (st' : State p)
            → IsDirty st'
            → st'.header ≡ st.header
            → st.part_bytes_written < st'.part_bytes_written
            → Returns (λ _ v. IsDirty v) (rest ctx' st'))
        → Returns (λ _ v. IsDirty v) (firmware_next p conf rest ctx r st)
    unfolding firmware_next
    firmware_next-IsDirty rest ctx none st d next = d
    firmware_next-IsDirty rest ctx (some []) st d next = d
    firmware_next-IsDirty rest ctx (some (b ∷ bs)) st d next =
        write_block-IsDirty (rest _) b bs st d (next _)

    firmware_loop-IsDirty :
        (chd f : ℕ) (ctx : p.Md5) (st : State p)
        → 0 < f
        → st.header.size < f + st.part_bytes_written
        → IsDirty st
        → Returns (λ _ v. IsDirty v) (firmware_loop p conf chd f ctx st)
    unfolding firmware_loop pk_tcp_recv
    firmware_loop-IsDirty chd zero ctx st pos fuel d = absurd (omega arith)
    firmware_loop-IsDirty chd (suc f) ctx st pos fuel d =
        elim (Bool-cases (ltb st.part_bytes_written st.header.size)) [
          | inr over ↦ rw (over, Returns) d
          | inl more ↦
              rw (more, Returns)
                (firmware_next-IsDirty (firmware_loop p conf chd f) ctx
                  (p.read chd firmware_buf_size st.world).0
                  (record st { world = (p.read chd firmware_buf_size st.world).1 })
                  (IsDirty-Same st _ st.header d (fl.read_same chd firmware_buf_size st.world))
                  (λ ctx' st' d' same lt.
                    firmware_loop-IsDirty chd f ctx' st' (omega (arith, ltb→lt _ _ more))
                      (omega (arith, ap (λ (h : Header). h.size) same)) d'))
        ]

    finish_firmware-IsDirty :
        (r : Received p.Md5) (st : State p)
        → IsDirty st
        → Returns (λ _ v. IsDirty v) (finish_firmware p conf r st)
    unfolding finish_firmware
    finish_firmware-IsDirty (broken_off resp) st d = d
    finish_firmware-IsDirty (all_received ctx) st d =
        elim (Bool-cases (conf && not (text_eq (p.md5_finish ctx) st.header.md5))) [
          | inl bad ↦ rw (bad, Returns) d
          | inr good ↦
              rw (good, Returns) (IsDirty-Same st _ st.header d (fl.set_boot_same st.world))
        ]

    receive_firmware-IsDirty :
        (chd buf : ℕ) (st : State p)
        → IsWaiting st
        → Returns (λ _ v. IsDirty v) (receive_firmware p conf chd buf st)
    unfolding receive_firmware
    receive_firmware-IsDirty chd buf st d =
        bind-Returns (λ _ v. IsDirty v) (λ _ v. IsDirty v)
          ((firmware_loop p conf chd (suc st.header.size) p.md5_init >>= finish_firmware p conf)
            st')
          _
          (bind-Returns (λ _ v. IsDirty v) (λ _ v. IsDirty v)
            (firmware_loop p conf chd (suc st.header.size) p.md5_init st') _
            (firmware_loop-IsDirty chd (suc st.header.size) p.md5_init st' (omega arith)
              (omega arith) d')
            (finish_firmware-IsDirty))
          (λ resp v dv. IsDirty-Same v _ v.header dv (fl.free_same buf v.world))
      where
        st' : State p
        st' = record st { part_bytes_written = 0 }

        d' : IsDirty st'
        d' = record { part = d.part; above = λ i a lt. d.all_erased i lt }

    with_buffer-IsDirty :
        (chd : ℕ) (buf : Option ℕ) (st : State p)
        → IsWaiting st
        → Returns (λ _ v. IsDirty v) (with_buffer p conf chd buf st)
    unfolding with_buffer
    with_buffer-IsDirty chd none st d = IsDirty-of_IsWaiting st d
    with_buffer-IsDirty chd (some buf) st d = receive_firmware-IsDirty chd buf st d

    -- What a read of the header leaves: only the world has changed, and not the cells.
    pub recvn-Same :
        (chd n : ℕ) (buf : List ℕ) (w : p.World)
        → Returns (λ _ v. Same w v) (pk_tcp_recvn p.sockets chd buf n w)
    recvn-Same chd n buf w =
        pk_tcp_recvn-keeps p.sockets (Same w) chd (λ m v s i. fl.read_same chd m v i ∙ s i) n buf w
          (λ i. refl)

    read_md5-IsDirty :
        (chd : ℕ) (r : Bool × List ℕ) (st : State p)
        → IsWaiting st
        → Returns (λ _ v. IsDirty v) (read_md5 p conf chd r st)
    unfolding read_md5
    read_md5-IsDirty chd (false, bs) st d =
        IsDirty-of_IsWaiting _ (IsWaiting-Same st _ _ d (λ i. refl))
    read_md5-IsDirty chd (true, bs) st d =
        with_buffer-IsDirty chd (p.malloc firmware_buf_size st.world).0 _
          (IsWaiting-Same st _ _ d (fl.malloc_same firmware_buf_size st.world))

    check_size-IsDirty :
        (chd : ℕ) (st : State p)
        → IsWaiting st
        → Returns (λ _ v. IsDirty v) (check_size p conf chd st)
    unfolding check_size
    check_size-IsDirty chd st d = elim (Bool-cases (ltb st.upd_part_size st.header.size)) [
      | inl big ↦ rw (big, Returns) (IsDirty-of_IsWaiting st d)
      | inr fits ↦
          rw (fits, Returns)
            (io_bind-Returns p (λ _ v. Same st.world v) (λ _ v. IsDirty v)
              (pk_tcp_recvn p.sockets chd st.header.md5 md5_size) (read_md5 p conf chd) st
              (recvn-Same chd md5_size st.header.md5 st.world)
              (λ r w same. read_md5-IsDirty chd r _ (IsWaiting-Same st w st.header d same)))
    ]

    read_size-IsDirty :
        (chd : ℕ) (r : Bool × List ℕ) (st : State p)
        → IsWaiting st
        → Returns (λ _ v. IsDirty v) (read_size p conf chd r st)
    unfolding read_size
    read_size-IsDirty chd (false, bs) st d =
        IsDirty-of_IsWaiting _ (IsWaiting-Same st _ _ d (λ i. refl))
    read_size-IsDirty chd (true, bs) st d =
        check_size-IsDirty chd _ (IsWaiting-Same st _ _ d (λ i. refl))

    after_magic-IsDirty :
        (chd : ℕ) (ok : Bool) (st : State p)
        → IsWaiting st
        → Returns (λ _ v. IsDirty v) (after_magic p conf chd ok st)
    unfolding after_magic
    after_magic-IsDirty chd false st d = IsDirty-of_IsWaiting st d
    after_magic-IsDirty chd true st d =
        io_bind-Returns p (λ _ v. Same st.world v) (λ _ v. IsDirty v)
          (pk_tcp_recvn p.sockets chd (u32_bytes st.header.size) 4) (read_size p conf chd) st
          (recvn-Same chd 4 (u32_bytes st.header.size) st.world)
          (λ r w same. read_size-IsDirty chd r _ (IsWaiting-Same st w st.header d same))

    -- Begun with nothing counted as written and the whole partition erased, `handle_req` returns,
    -- with or without an error, and then every cell of the partition from the first
    -- `part_bytes_written` bytes on is still erased.
    pub handle_req-IsDirty :
        (chd : ℕ) (st : State p)
        → IsWaiting st
        → Returns (λ _ v. IsDirty v) (handle_req p conf chd st)
    unfolding handle_req read_magic
    handle_req-IsDirty chd st d =
        io_bind-Returns p (λ _ v. Same st.world v) (λ _ v. IsDirty v)
          (pk_tcp_recvn p.sockets chd st.header.magic magic_size) (read_magic p conf chd) st
          (recvn-Same chd magic_size st.header.magic st.world)
          (λ (ok, bs) w same.
            after_magic-IsDirty chd (ok && text_eq bs magic) _ (IsWaiting-Same st w _ d same))
