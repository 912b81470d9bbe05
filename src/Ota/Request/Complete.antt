-- ===== src/Ota/Request/Complete.antt =====
-- What has come before `handle_req` of src/lib/ota.c reports success, from the buffer of the firmware on.
use vedruino.Base.{
  ℕ, zero, suc, ◌+◌, ◌≤◌, ◌≡◌, ◌≢◌, inl, inr, Bool, true, false, not, ◌&&◌, Option, none, some,
  List, [], ◌∷◌, ltb, ltb_false→le, Bool-cases, text_eq, if◌then◌else◌, length, M, pure, Outcome,
  done, halt, ◌>>=◌, ◌>>◌, call, modify, Ends, bind-Ends,
}
use vedruino.Ip.Stream.{pk_tcp_recv}
use vedruino.Ota.Platform.{Platform, Header, State, io}
use vedruino.Ota.Request.{
  OtaResp, resp_ok, magic, firmware_buf_size, Received, all_received, broken_off, after_write,
  write_block, firmware_next, firmware_loop, finish_firmware, receive_firmware, with_buffer,
}

module _ (p : Platform) (conf : Bool) where
  abbrev pub Then : {A : Type 0} → (A → State p → Type 0) → Outcome (State p) A → Type 0
  Then P = Ends P (λ _ _. Unit {0})

  pub Then-mono :
      {A : Type 0} (P Q : A → State p → Type 0) (r : Outcome (State p) A)
      → Then P r
      → ((a : A) (v : State p) → P a v → Q a v)
      → Then Q r
  Then-mono P Q (done a w) h f = f a w h
  Then-mono P Q (halt s w) h f = tt

  abbrev pub IsComplete : State p → Type 0
  IsComplete st =
      (text_eq st.header.magic magic ≡ true)
      × (st.header.size ≤ st.upd_part_size)
      × (st.header.size ≤ st.part_bytes_written)

  abbrev pub Complete : OtaResp → State p → Type 0
  Complete r st = r ≡ resp_ok → IsComplete st

  io-Then :
      {A B : Type 0} (P : B → State p → Type 0) (m : M p.World A) (k : A → M (State p) B)
      (st : State p)
      → ((a : A) (w : p.World) → Then P (k a (record st { world = w })))
      → Then P ((io p m >>= k) st)
  io-Then {A} {B} P m k st next = go (m st.world)
    where
      go : (r : Outcome p.World A) → Then P ((io p (λ _. r) >>= k) st)
      go (done a w) = next a w
      go (halt h w) = tt

  module _ (hd : Header) where
    -- The header is `hd`, and is accepted.
    abbrev pub Accepted : State p → Type 0
    Accepted st =
        (text_eq st.header.magic magic ≡ true)
        × (st.header.size ≤ st.upd_part_size)
        × (st.header ≡ hd)

    -- The header is still `hd` when success is reported.
    abbrev pub CompleteWith : OtaResp → State p → Type 0
    CompleteWith r st = r ≡ resp_ok → IsComplete st × (st.header ≡ hd)

    -- The whole firmware has come, or the answer is an error.
    abbrev Whole : Received p.Md5 → State p → Type 0
    Whole (all_received ctx) st = st.header.size ≤ st.part_bytes_written
    Whole (broken_off resp) st = resp ≢ resp_ok

    abbrev AllReceived : Received p.Md5 → State p → Type 0
    AllReceived r st = Accepted st × Whole r st

    after_write-Then :
        (rest : M (State p) (Received p.Md5)) (ok : Bool) (st : State p)
        → Accepted st
        → Then AllReceived (rest st)
        → Then AllReceived (after_write p conf rest ok st)
    unfolding after_write
    after_write-Then rest true st a h = h
    after_write-Then rest false st a h = (a, λ e. cc)

    firmware_next-Then :
        (rest : p.Md5 → M (State p) (Received p.Md5)) (ctx : p.Md5) (r : Option (List ℕ))
        (st : State p)
        → Accepted st
        → ((c : p.Md5) (st' : State p) → Accepted st' → Then AllReceived (rest c st'))
        → Then AllReceived (firmware_next p conf rest ctx r st)
    unfolding firmware_next write_block
    firmware_next-Then rest ctx none st a next = (a, λ e. cc)
    firmware_next-Then rest ctx (some []) st a next = (a, λ e. cc)
    firmware_next-Then rest ctx (some (b ∷ bs)) st a next =
        io-Then AllReceived (call (p.partition_write_raw st.part_bytes_written (b ∷ bs))) store st
          (λ ok w. after_write-Then (rest ctx') ok (stored w) a (next ctx' (stored w) a))
      where
        ctx' : p.Md5
        ctx' = if conf then p.md5_update ctx (b ∷ bs) else ctx

        store : Bool → M (State p) (Received p.Md5)
        store ok =
            modify
              (λ st'. record st' { part_bytes_written = st'.part_bytes_written + length (b ∷ bs) })
            >> after_write p conf (rest ctx') ok

        stored : p.World → State p
        stored w = record st {
          world = w;
          part_bytes_written = st.part_bytes_written + length (b ∷ bs);
        }

    firmware_loop-Then :
        (chd f : ℕ) (ctx : p.Md5) (st : State p)
        → Accepted st
        → Then AllReceived (firmware_loop p conf chd f ctx st)
    unfolding firmware_loop
    firmware_loop-Then chd zero ctx st a = tt
    firmware_loop-Then chd (suc f) ctx st a =
        elim (Bool-cases (ltb st.part_bytes_written st.header.size)) [
          | inr over ↦ rw (over, Ends) (a, ltb_false→le _ _ over)
          | inl more ↦
              rw (more, Ends)
                (io-Then AllReceived (pk_tcp_recv p.sockets chd firmware_buf_size)
                  (firmware_next p conf (firmware_loop p conf chd f) ctx) st
                  (λ r w.
                    firmware_next-Then (firmware_loop p conf chd f) ctx r (record st { world = w })
                      a (firmware_loop-Then chd f)))
        ]

    finish_firmware-Then :
        (r : Received p.Md5) (st : State p)
        → AllReceived r st
        → Then CompleteWith (finish_firmware p conf r st)
    unfolding finish_firmware
    finish_firmware-Then (broken_off resp) st (a, h) = λ e. absurd (h e)
    finish_firmware-Then (all_received ctx) st (a, h) =
        elim (Bool-cases (conf && not (text_eq (p.md5_finish ctx) st.header.md5))) [
          | inl mismatch ↦ rw (mismatch, Ends) (λ e. cc)
          | inr match ↦ rw (match, Ends) (λ e. ((a.0, a.1, h), a.2))
        ]

    bind-Then :
        {A B : Type 0} (P : A → State p → Type 0) (Q : B → State p → Type 0)
        (r : Outcome (State p) A) (k : A → M (State p) B)
        → Then P r
        → ((a : A) (st : State p) → P a st → Then Q (k a st))
        → Then Q (elim r [ done a w ↦ k a w | halt h w ↦ halt h w ])
    bind-Then P Q r k h next = bind-Ends P Q (λ _ _. Unit {0}) r k h next

    receive_firmware-Then :
        (chd buf : ℕ) (st : State p)
        → Accepted st
        → Then CompleteWith (receive_firmware p conf chd buf st)
    unfolding receive_firmware
    receive_firmware-Then chd buf st a =
        bind-Then CompleteWith CompleteWith
          ((firmware_loop p conf chd (suc st.header.size) p.md5_init >>= finish_firmware p conf)
            st')
          (λ resp. io p (call (p.free buf)) >> pure resp)
          (bind-Then AllReceived CompleteWith
            (firmware_loop p conf chd (suc st.header.size) p.md5_init st') (finish_firmware p conf)
            (firmware_loop-Then chd (suc st.header.size) p.md5_init st' a) finish_firmware-Then)
          (λ resp v c. c)
      where
        st' : State p
        st' = record st { part_bytes_written = 0 }

    pub with_buffer-Then :
        (chd : ℕ) (buf : Option ℕ) (st : State p)
        → Accepted st
        → Then CompleteWith (with_buffer p conf chd buf st)
    unfolding with_buffer
    with_buffer-Then chd none st a = λ e. cc
    with_buffer-Then chd (some buf) st a = receive_firmware-Then chd buf st a
