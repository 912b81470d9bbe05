-- ===== src/Ota/Server/Clean.antt =====
-- The server of src/lib/ota.c never waits for a request over a partition that is not erased.
use vedruino.Base.{
  ℕ, zero, suc, ◌<◌, ◌≡◌, refl, ◌∙◌, ◌⊎◌, inl, inr, Bool, true, false, Option, none, some, List, [],
  ◌∷◌, arith, ◌==◌, ==_iff, Bool-cases, Option-cases, length, Halt, Returns, Ends, bind-Ends,
  Ends-Returns,
}
use vedruino.Ip.Addr.{IpAddr}
use vedruino.Ip.Sockets.{Progresses}
use vedruino.Ip.Handles.{pk_tcp_accept, pk_sock_close}
use vedruino.Ip.Stream.{pk_tcp_sendn}
use vedruino.Ip.Stream.Keeps.{pk_tcp_sendn-keeps}
use vedruino.Ota.Platform.{Platform, State}
use vedruino.Ota.Flash.{erased, IsFlash}
use vedruino.Ota.Rules.{io_bind-Returns, io_bind-Ends}
use vedruino.Ota.Partition.{erase_upd_part}
use vedruino.Ota.Partition.Erase.{erase_upd_part-erased}
use vedruino.Ota.Request.{OtaResp, handle_req}
use vedruino.Ota.Request.Dirty.{
  IsDirty, IsWaiting, Same, IsDirty-Same, IsWaiting-Same, handle_req-IsDirty,
}
use vedruino.Ota.Server.{
  after_erase, erase_written, reply_ok, reply_err, reply_failed, reply, serve_client, server_round,
  server_loop, err_msg, server_task_high_priority,
}

-- The task ends for one of these reasons: the board restarts with a new firmware, or the server is
-- shut down after an error that it cannot mend.
abbrev pub Stops : {W : Type 0} → Halt → W → Type 0
Stops h w = (h ≡ Halt.restarted) ⊎ (h ≡ Halt.task_deleted)

module _ (p : Platform) (fl : IsFlash p) (progresses : Progresses p.sockets) (size : ℕ)
    (conf : Bool) where
  sendn-Same :
      (chd : ℕ) (buf : List ℕ) (w : p.World)
      → Returns (λ _ v. Same p fl size w v) (pk_tcp_sendn p.sockets chd buf (length buf) w)
  sendn-Same chd buf w =
      pk_tcp_sendn-keeps p.sockets (Same p fl size w) chd
        (λ bs v s i. fl.write_same chd bs v i ∙ s i) progresses buf (length buf) (omega arith) w
        (λ i. refl)

  close-Same :
      (hd : ℕ) (w : p.World) → Returns (λ _ v. Same p fl size w v) (pk_sock_close p.sockets hd w)
  unfolding pk_sock_close
  close-Same hd w = fl.close_same hd w

  accept-Same :
      (shd : ℕ) (w : p.World) → Returns (λ _ v. Same p fl size w v) (pk_tcp_accept p.sockets shd w)
  unfolding pk_tcp_accept
  accept-Same shd w = elim (Option-cases (p.accept shd w).0) [
    | inl e ↦ rw (e, Returns) (fl.accept_same shd w)
    | inr ((chd, a), e) ↦ rw (e, Returns) (fl.accept_same shd w)
  ]

  after_erase-IsWaiting :
      (shd : ℕ) (ok : Bool) (st : State p)
      → st.upd_part_size ≡ size
      → (ok ≡ true → (i : ℕ) → i < size → fl.cell st.world i ≡ erased)
      → Ends (λ _ v. IsWaiting p fl size v) Stops (after_erase p conf shd ok st)
  unfolding after_erase pk_sock_close
  after_erase-IsWaiting shd true st part clean = record {
    part = part;
    nothing = refl;
    all_erased = clean refl;
  }
  after_erase-IsWaiting shd false st part clean = inr refl

  erase_written-IsWaiting :
      (shd : ℕ) (st : State p)
      → IsDirty p fl size st
      → Ends (λ _ v. IsWaiting p fl size v) Stops (erase_written p conf shd st)
  unfolding erase_written
  erase_written-IsWaiting shd st d = elim (Bool-cases (st.part_bytes_written == 0)) [
    | inl zero_written ↦
        rw (zero_written, Ends)
          (record {
            part = d.part;
            nothing = (==_iff _ _).0 zero_written;
            all_erased = λ i lt. d.above i (omega (arith, (==_iff _ _).0 zero_written)) lt;
          })
    | inr some_written ↦
        rw (some_written, Ends)
          (io_bind-Ends p (λ ok v. ok ≡ true → (i : ℕ) → i < size → fl.cell v i ≡ erased)
            (λ _ v. IsWaiting p fl size v) Stops
            (erase_upd_part p st.upd_part_size st.part_bytes_written) (after_erase p conf shd) st
            (rw d.part (erase_upd_part-erased p fl size st.part_bytes_written st.world d.above))
            (λ ok w clean. after_erase-IsWaiting shd ok (record st { world = w }) d.part clean))
  ]

  reply_err-IsDirty :
      (chd : ℕ) (msg : List ℕ) (st : State p)
      → IsDirty p fl size st
      → Returns (λ _ v. IsDirty p fl size v) (reply_err p conf chd msg st)
  unfolding reply_err
  reply_err-IsDirty chd msg st d =
      io_bind-Returns p (λ _ v. Same p fl size st.world v) (λ _ v. IsDirty p fl size v)
        (pk_tcp_sendn p.sockets chd (b'-' ∷ []) 1) _ st (sendn-Same chd (b'-' ∷ []) st.world)
        λ _ w1 s1.
          io_bind-Returns p (λ _ v. Same p fl size w1 v) (λ _ v. IsDirty p fl size v)
            (pk_tcp_sendn p.sockets chd msg (length msg)) _ (record st { world = w1 })
            (sendn-Same chd msg w1)
            λ _ w2 s2.
              io_bind-Returns p (λ _ v. Same p fl size w2 v) (λ _ v. IsDirty p fl size v)
                (pk_sock_close p.sockets chd) _ (record st { world = w2 }) (close-Same chd w2)
                λ _ w3 s3. IsDirty-Same p fl size st w3 st.header d (λ i. s3 i ∙ s2 i ∙ s1 i)

  reply_failed-IsWaiting :
      (shd chd : ℕ) (resp : OtaResp) (st : State p)
      → IsDirty p fl size st
      → Ends (λ _ v. IsWaiting p fl size v) Stops (reply_failed p conf shd chd resp st)
  unfolding reply_failed
  reply_failed-IsWaiting shd chd resp st d =
      bind-Ends (λ _ v. IsDirty p fl size v) (λ _ v. IsWaiting p fl size v) Stops
        (reply_err p conf chd (err_msg resp) st) _
        (Ends-Returns (λ _ v. IsDirty p fl size v) Stops (reply_err p conf chd (err_msg resp) st)
          (reply_err-IsDirty chd (err_msg resp) st d))
        λ _ v dv.
          bind-Ends (λ _ u. IsWaiting p fl size u) (λ _ u. IsWaiting p fl size u) Stops
            (erase_written p conf shd v) _ (erase_written-IsWaiting shd v dv)
            λ _ u du. IsWaiting-Same p fl size u _ u.header du (fl.priority_same _ u.world)

  reply_ok-Stops :
      (chd : ℕ) (st : State p) → Ends (λ _ v. IsWaiting p fl size v) Stops (reply_ok p conf chd st)
  unfolding reply_ok
  reply_ok-Stops chd st =
      io_bind-Ends p (λ _ v. Same p fl size st.world v) (λ _ v. IsWaiting p fl size v) Stops
        (pk_tcp_sendn p.sockets chd (b'+' ∷ []) 1) _ st (sendn-Same chd (b'+' ∷ []) st.world)
        λ _ w1 s1.
          io_bind-Ends p (λ _ v. Same p fl size w1 v) (λ _ v. IsWaiting p fl size v) Stops
            (pk_sock_close p.sockets chd) _ (record st { world = w1 }) (close-Same chd w1)
            λ _ w2 s2. inl refl

  reply-IsWaiting :
      (shd chd : ℕ) (resp : OtaResp) (st : State p)
      → IsDirty p fl size st
      → Ends (λ _ v. IsWaiting p fl size v) Stops (reply p conf shd chd resp st)
  unfolding reply
  reply-IsWaiting shd chd OtaResp.resp_ok st d = reply_ok-Stops chd st
  reply-IsWaiting shd chd other st d = reply_failed-IsWaiting shd chd other st d

  serve_client-IsWaiting :
      (shd : ℕ) (r : Option (ℕ × IpAddr)) (st : State p)
      → IsWaiting p fl size st
      → Ends (λ _ v. IsWaiting p fl size v) Stops (serve_client p conf shd r st)
  unfolding serve_client
  serve_client-IsWaiting shd none st d = d
  serve_client-IsWaiting shd (some (chd, addr)) st d =
      bind-Ends (λ _ v. IsDirty p fl size v) (λ _ v. IsWaiting p fl size v) Stops
        (handle_req p conf chd st') _
        (Ends-Returns (λ _ v. IsDirty p fl size v) Stops (handle_req p conf chd st')
          (handle_req-IsDirty p fl size conf chd st' d'))
        (λ resp v dv. reply-IsWaiting shd chd resp v dv)
    where
      st' : State p
      st' = record st { world = (p.task_priority_set server_task_high_priority st.world).1 }

      d' : IsWaiting p fl size st'
      d' = IsWaiting-Same p fl size st _ st.header d (fl.priority_same _ st.world)

  -- One round of the server, begun with nothing counted as written and the whole partition erased,
  -- where every `write` of a buffer that is not empty takes a byte or fails: it ends so again, or
  -- the board is restarted or the task deletes itself. It does not run for ever.
  pub server_round-IsWaiting :
      (shd : ℕ) (st : State p)
      → IsWaiting p fl size st
      → Ends (λ _ v. IsWaiting p fl size v) Stops (server_round p conf shd st)
  unfolding server_round
  server_round-IsWaiting shd st d =
      io_bind-Ends p (λ _ v. Same p fl size st.world v) (λ _ v. IsWaiting p fl size v) Stops
        (pk_tcp_accept p.sockets shd) (serve_client p conf shd) st (accept-Same shd st.world)
        λ r w same. serve_client-IsWaiting shd r _ (IsWaiting-Same p fl size st w st.header d same)

  -- So after any number of rounds.
  pub server_loop-IsWaiting :
      (shd rounds : ℕ) (st : State p)
      → IsWaiting p fl size st
      → Ends (λ _ v. IsWaiting p fl size v) Stops (server_loop p conf shd rounds st)
  unfolding server_loop
  server_loop-IsWaiting shd zero st d = d
  server_loop-IsWaiting shd (suc rounds) st d =
      bind-Ends (λ _ v. IsWaiting p fl size v) (λ _ v. IsWaiting p fl size v) Stops
        (server_round p conf shd st) _ (server_round-IsWaiting shd st d)
        (λ _ v dv. server_loop-IsWaiting shd rounds v dv)
