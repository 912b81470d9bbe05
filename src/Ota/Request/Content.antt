-- ===== src/Ota/Request/Content.antt =====
-- What `handle_req` of src/lib/ota.c has stored when it reports success.
use mathlib.Core.List.{append_assoc}
use mathlib.Core.Path.{subst}
use vedruino.Base.{
  ℕ, suc, ◌+◌, ◌<◌, ◌≡◌, ◌≢◌, refl, sym, ap, ◌∙◌, inl, inr, Bool, true, false, not, ◌&&◌, Option,
  none, some, List, [], ◌++◌, arith, ltb, Bool-cases, text_eq, length, length-append, get_elem?, M,
  pure, ◌>>=◌, ◌>>◌, call, Returns, Ends, Ends-Returns, Returns-mono, Returns-Ends, bind-Ends,
}
use vedruino.Ip.Sockets.{IsStream}
use vedruino.Ip.Stream.{pk_tcp_recvn}
use vedruino.Ip.Stream.Recv.{joined, RecvN, pk_tcp_recvn-RecvN}
use vedruino.Ota.Platform.{Platform, State, io}
use vedruino.Ota.Flash.{IsFlash, IsQuiet}
use vedruino.Ota.Rules.{io_bind-Ends}
use vedruino.Ota.Hex.{md5_size, md5str}
use vedruino.Ota.Request.{
  OtaResp, resp_ok, magic, magic_size, firmware_buf_size, u32_bytes, Received, all_received,
  broken_off, firmware_loop, finish_firmware, receive_firmware, with_buffer, read_md5, check_size,
  read_size, after_magic, read_magic, handle_req,
}
use vedruino.Ota.Request.Dirty.{IsDirty, IsWaiting, Same, IsWaiting-Same, recvn-Same}
use vedruino.Ota.Request.Complete.{Then, Then-mono, Complete}
use vedruino.Ota.Request.Parsed.{Parsed, handle_req-Parsed}
use vedruino.Ota.Request.Pieces.{digest, TookAll, firmware_loop-Took}

module _ (p : Platform) (fl : IsFlash p) (str : IsStream p.sockets) (quiet : IsQuiet p str)
    (conf : Bool) (chd size : ℕ) where
  -- Of the stream `stream`, a request that is answered with success has taken `n` bytes of header and
  -- the pieces of the firmware, and has stored these from the beginning of the partition on.
  abbrev pub Stored : ℕ → List ℕ → OtaResp → State p → Type 0
  Stored n stream r st' =
      r ≡ resp_ok
      → (front : List ℕ) × (cs : List (List ℕ)) × (stream
          ≡ front ++ (joined cs ++ str.inbox st'.world chd))
        × (length front ≡ n)
        × (length (joined cs) ≡ st'.part_bytes_written)
        × ((i b : ℕ) → i < size → get_elem? (joined cs) i ≡ some b → fl.cell st'.world i ≡ b)
        × (conf ≡ true → text_eq (p.md5_finish (digest p p.md5_init cs)) st'.header.md5 ≡ true)

  and_not : (a b : Bool) → (a && not b) ≡ false → a ≡ true → b ≡ true
  and_not true true e z = refl
  and_not true false e z = cc
  and_not false b e z = cc

  finish_firmware-Stored :
      (st : State p)
      → st.part_bytes_written ≡ 0
      → (r : Received p.Md5) (v : State p) → TookAll p fl str quiet conf chd size st p.md5_init r v
      → Then p conf (Stored 0 (str.inbox st.world chd)) (finish_firmware p conf r v)
  unfolding finish_firmware
  finish_firmware-Stored st zero_count (broken_off resp) v h = λ e. absurd (h e)
  finish_firmware-Stored st zero_count (all_received ctx) v (cs, (read, count, held, same), dig) =
      elim (Bool-cases (conf && not (text_eq (p.md5_finish ctx) v.header.md5))) [
        | inl mismatch ↦ rw (mismatch, Ends) (λ e. cc)
        | inr match ↦
            rw (match, Ends)
              (λ e. (
                [],
                cs,
                read ∙ ap (◌++◌ (joined cs)) (sym (quiet.set_boot_inbox chd v.world)),
                refl,
                omega (arith, count, zero_count),
                (λ i b lt at. fl.set_boot_same v.world i ∙ from_start i b lt at),
                λ z.
                    subst (λ c. text_eq (p.md5_finish c) v.header.md5 ≡ true) (dig z)
                      (and_not conf (text_eq (p.md5_finish ctx) v.header.md5) match z),
              ))
      ]
    where
      from_start : (i b : ℕ) → i < size → get_elem? (joined cs) i ≡ some b → fl.cell v.world i ≡ b
      from_start i b lt at =
          let here : i ≡ st.part_bytes_written + i = omega (arith, zero_count) in
          subst (λ k. fl.cell v.world k ≡ b) (sym here)
            (held i b (subst (λ k. k < size) here lt) at)

  receive_firmware-Stored :
      (buf : ℕ) (st : State p)
      → IsWaiting p fl size st
      → Then p conf (Stored 0 (str.inbox st.world chd)) (receive_firmware p conf chd buf st)
  unfolding receive_firmware
  receive_firmware-Stored buf st d =
      bind-Ends (Stored 0 (str.inbox st.world chd)) (Stored 0 (str.inbox st.world chd))
        (λ _ _. Unit {0})
        ((firmware_loop p conf chd (suc st.header.size) p.md5_init >>= finish_firmware p conf) st')
        (λ resp. io p (call (p.free buf)) >> pure resp)
        (bind-Ends (TookAll p fl str quiet conf chd size st' p.md5_init)
          (Stored 0 (str.inbox st.world chd)) (λ _ _. Unit {0})
          (firmware_loop p conf chd (suc st.header.size) p.md5_init st') (finish_firmware p conf)
          (firmware_loop-Took p fl str quiet conf chd size (suc st.header.size) p.md5_init st'
            dirty)
          (finish_firmware-Stored st' refl))
        freed
    where
      st' : State p
      st' = record st { part_bytes_written = 0 }

      dirty : IsDirty p fl size st'
      dirty = record { part = d.part; above = λ i a lt. d.all_erased i lt }

      freed :
          (r : OtaResp) (v : State p)
          → Stored 0 (str.inbox st.world chd) r v
          → Stored 0 (str.inbox st.world chd) r (record v { world = (p.free buf v.world).1 })
      freed r v h e =
          let (front, cs, read, n, count, held, dig) = h e in
          (
            front,
            cs,
            read ∙ ap (λ t. front ++ (joined cs ++ t)) (sym (quiet.free_inbox buf chd v.world)),
            n,
            count,
            (λ i b lt at. fl.free_same buf v.world i ∙ held i b lt at),
            dig,
          )

  with_buffer-Stored :
      (buf : Option ℕ) (st : State p)
      → IsWaiting p fl size st
      → Then p conf (Stored 0 (str.inbox st.world chd)) (with_buffer p conf chd buf st)
  unfolding with_buffer
  with_buffer-Stored none st d = λ e. cc
  with_buffer-Stored (some buf) st d = receive_firmware-Stored buf st d

  read_md5-Stored :
      (bs : List ℕ) (st : State p)
      → IsWaiting p fl size st
      → Then p conf (Stored 0 (str.inbox st.world chd)) (read_md5 p conf chd (true, bs) st)
  unfolding read_md5
  read_md5-Stored bs st d =
      subst
        (λ t.
          Then p conf (Stored 0 t)
            (with_buffer p conf chd (p.malloc firmware_buf_size st.world).0 st'))
        (quiet.malloc_inbox firmware_buf_size chd st.world)
        (with_buffer-Stored (p.malloc firmware_buf_size st.world).0 st'
          (IsWaiting-Same p fl size st _ _ d (fl.malloc_same firmware_buf_size st.world)))
    where
      st' : State p
      st' = record st {
        world = (p.malloc firmware_buf_size st.world).1;
        header = record st.header { md5 = bs; md5str = md5str bs };
      }

  -- `k` bytes were read for the header.
  recvn-Stored :
      (k n : ℕ) (buf : List ℕ) (m : Bool × List ℕ → M (State p) OtaResp) (st : State p)
      → IsWaiting p fl size st
      → ((bs : List ℕ) (w : p.World)
          → Then p conf (λ r _. r ≢ resp_ok) (m (false, bs) (record st { world = w })))
      → ((bs : List ℕ) (w : p.World)
          → IsWaiting p fl size (record st { world = w })
          → Then p conf (Stored n (str.inbox w chd)) (m (true, bs) (record st { world = w })))
      → Then p conf
          (Stored (k + n) (str.inbox st.world chd))
          ((io p (pk_tcp_recvn p.sockets chd buf k) >>= m) st)
  recvn-Stored k n buf m st d failed got =
      io_bind-Ends p
        (λ r w. RecvN p.sockets str chd k 0 buf st.world r w × Same p fl size st.world w)
        (Stored (k + n) (str.inbox st.world chd)) (λ _ _. Unit {0})
        (pk_tcp_recvn p.sockets chd buf k) m st
        (Returns-Ends (RecvN p.sockets str chd k 0 buf st.world) (λ _ w. Same p fl size st.world w)
          (λ _ _. Unit {0}) (pk_tcp_recvn p.sockets chd buf k st.world)
          (pk_tcp_recvn-RecvN p.sockets str chd k buf st.world)
          (Ends-Returns (λ _ w. Same p fl size st.world w) (λ _ _. Unit {0})
            (pk_tcp_recvn p.sockets chd buf k st.world)
            (recvn-Same p fl size conf chd k buf st.world)))
        next
    where
      next :
          (r : Bool × List ℕ) (w : p.World)
          → RecvN p.sockets str chd k 0 buf st.world r w × Same p fl size st.world w
          → Then p conf (Stored (k + n) (str.inbox st.world chd)) (m r (record st { world = w }))
      next (false, bs) w h =
          Then-mono p conf (λ r _. r ≢ resp_ok) (Stored (k + n) (str.inbox st.world chd))
            (m (false, bs) (record st { world = w })) (failed bs w) (λ r v bad e. absurd (bad e))
      next (true, bs) w ((cs, read, le, filled, whole, _), same) =
          Then-mono p conf (Stored n (str.inbox w chd)) (Stored (k + n) (str.inbox st.world chd))
            (m (true, bs) (record st { world = w }))
            (got bs w (IsWaiting-Same p fl size st w st.header d same))
            (λ r v h e.
              let (front, ps, read', n', count, held, dig) = h e in
              (
                joined cs ++ front,
                ps,
                read ∙ ap (◌++◌ (joined cs)) read' ∙ sym (append_assoc (joined cs) front _),
                omega (arith, whole.0 refl, n', length-append (joined cs) front),
                count,
                held,
                dig,
              ))

  check_size-Stored :
      (st : State p)
      → IsWaiting p fl size st
      → Then p conf (Stored 16 (str.inbox st.world chd)) (check_size p conf chd st)
  unfolding check_size read_md5
  check_size-Stored st d = elim (Bool-cases (ltb st.upd_part_size st.header.size)) [
    | inl big ↦ rw (big, Ends) (λ e. cc)
    | inr fits ↦
        rw (fits, Ends)
          (recvn-Stored md5_size 0 st.header.md5 (read_md5 p conf chd) st d (λ bs w e. cc)
            (λ bs w. read_md5-Stored bs (record st { world = w })))
  ]

  after_magic-Stored :
      (ok : Bool) (st : State p)
      → IsWaiting p fl size st
      → Then p conf (Stored 20 (str.inbox st.world chd)) (after_magic p conf chd ok st)
  unfolding after_magic read_size
  after_magic-Stored false st d = λ e. cc
  after_magic-Stored true st d =
      recvn-Stored 4 16 (u32_bytes st.header.size) (read_size p conf chd) st d (λ bs w e. cc)
        (λ bs w d'. check_size-Stored _ (IsWaiting-Same p fl size _ w _ d' (λ i. refl)))

  handle_req-Then :
      (st : State p)
      → IsWaiting p fl size st
      → Then p conf (Stored 33 (str.inbox st.world chd)) (handle_req p conf chd st)
  unfolding handle_req read_magic after_magic
  handle_req-Then st d =
      recvn-Stored magic_size 20 st.header.magic (read_magic p conf chd) st d (λ bs w e. cc)
        (λ bs w d'.
          after_magic-Stored (text_eq bs magic) _ (IsWaiting-Same p fl size _ w _ d' (λ i. refl)))

  -- Begun with nothing counted as written and the whole partition erased, `handle_req` returns. If it
  -- reports success, it has taken 33 bytes from the front of the stream, and behind them the pieces
  -- `cs` of the firmware, which are in all the counted number of bytes and not fewer than the header
  -- gives. From its beginning on the partition holds these pieces, one behind the other, as far as
  -- it reaches; and where the check is compiled in, the digest of the pieces, each passed to
  -- `mbedtls_md5_update` in turn, is the one in the header.
  pub handle_req-Stored :
      (st : State p)
      → IsWaiting p fl size st
      → Returns
          (λ r st'. Complete p conf r st' × Stored 33 (str.inbox st.world chd) r st')
          (handle_req p conf chd st)
  handle_req-Stored st d =
      Returns-mono _ _ (handle_req p conf chd st)
        (Returns-Ends (λ r st'. r ≡ resp_ok → Parsed p str conf chd st st')
          (Stored 33 (str.inbox st.world chd)) (λ _ _. Unit {0}) (handle_req p conf chd st)
          (handle_req-Parsed p str conf chd fl size st d) (handle_req-Then st d))
        (λ r v (a, b). ((λ e. (a e).complete), b))
