-- ===== src/Netlog/Server/Kept.antt =====
-- `ctl_server_task` of src/lib/netlog.c keeps the invariant, and how it can stop.
use vedruino.Base.{
  ℕ, zero, suc, ◌<◌, ◌≡◌, refl, Option, none, some, List, [], ◌∷◌, M, pure, ◌>>◌, Halt, Returns,
  bind-Returns, Ends, bind-Ends, Ends-Returns,
}
use vedruino.Ip.Addr.{IpAddr, ip_bcast_addr}
use vedruino.Ip.Handles.{pk_tcp_accept, pk_sock_close}
use vedruino.Ip.Handles.Keeps.{pk_tcp_accept-Returns, pk_sock_close-Returns}
use vedruino.Ip.Stream.{pk_tcp_send, pk_udp_send}
use vedruino.Netlog.Platform.{Platform, State, io}
use vedruino.Netlog.Rules.{
  Any, io-Returns, io_bind-Returns, pk_tcp_send-Returns, pk_udp_send-Returns,
}
use vedruino.Netlog.Follows.{IsServer, Follows, IsServer-Follows, IsServer-world}
use vedruino.Netlog.Flush.{print_all}
use vedruino.Netlog.Flush.Keeps.{print_all-Follows}
use vedruino.Netlog.Control.{
  NetlogResp, netlog_ok, ok_ignored, err_internal, err_malformed_req, err_clients_limit,
  err_tcp_connect, ctl_handle_req,
}
use vedruino.Netlog.Control.Req.{ctl_handle_req-IsServer}
use vedruino.Netlog.Server.{
  bcast_boot_port, err_msg, reply_ok, reply_err, reply, count_sent, bcast_loop, serve_ctl,
  ctl_round,
}

module _ (p : Platform) (max buf_size : ℕ) where
  abbrev pub Kept : {A : Type 0} → A → State p → Type 0
  Kept a st' = IsServer p max buf_size st'

  pub io-Kept :
      {A : Type 0} (m : M p.World A) (st : State p)
      → IsServer p max buf_size st
      → Returns (Any p.sockets) (m st.world)
      → Returns Kept (io p m st)
  io-Kept m st v h =
      io-Returns p (Any p.sockets) Kept m st h (λ a w _. IsServer-world p max buf_size st w v)

  seq-Kept :
      {A B : Type 0} (m : M (State p) A) (k : M (State p) B) (st : State p)
      → Returns Kept (m st)
      → ((st' : State p) → IsServer p max buf_size st' → Returns Kept (k st'))
      → Returns Kept ((m >> k) st)
  seq-Kept m k st h next = bind-Returns Kept Kept (m st) (λ _. k) h (λ _ st' v. next st' v)

  send-Kept :
      (hd : ℕ) (bs : List ℕ) (st : State p)
      → IsServer p max buf_size st
      → Returns Kept (io p (pk_tcp_send p.sockets hd bs) st)
  send-Kept hd bs st v =
      io-Kept (pk_tcp_send p.sockets hd bs) st v (pk_tcp_send-Returns p.sockets hd bs st.world)

  pub close-Kept :
      (hd : ℕ) (st : State p)
      → IsServer p max buf_size st
      → Returns Kept (io p (pk_sock_close p.sockets hd) st)
  close-Kept hd st v =
      io-Kept (pk_sock_close p.sockets hd) st v (pk_sock_close-Returns p.sockets hd st.world)

  reply_ok-Kept :
      (hd : ℕ) (st : State p) → IsServer p max buf_size st → Returns Kept (reply_ok p hd st)
  unfolding reply_ok
  reply_ok-Kept hd st v =
      seq-Kept
        (io p (pk_tcp_send p.sockets hd (b'+' ∷ []))
          >> io p (pk_tcp_send p.sockets hd st.mac_addr)
          >> io p (pk_tcp_send p.sockets hd st.session_id)
          >> io p (pk_sock_close p.sockets hd))
        (pure tt) st
        (seq-Kept
          (io p (pk_tcp_send p.sockets hd (b'+' ∷ []))
            >> io p (pk_tcp_send p.sockets hd st.mac_addr)
            >> io p (pk_tcp_send p.sockets hd st.session_id))
          (io p (pk_sock_close p.sockets hd)) st
          (seq-Kept
            (io p (pk_tcp_send p.sockets hd (b'+' ∷ []))
              >> io p (pk_tcp_send p.sockets hd st.mac_addr))
            (io p (pk_tcp_send p.sockets hd st.session_id)) st
            (seq-Kept (io p (pk_tcp_send p.sockets hd (b'+' ∷ [])))
              (io p (pk_tcp_send p.sockets hd st.mac_addr)) st (send-Kept hd (b'+' ∷ []) st v)
              (send-Kept hd st.mac_addr))
            (send-Kept hd st.session_id))
          (close-Kept hd))
        (λ st' v'. v')

  reply_err-Kept :
      (hd : ℕ) (msg : List ℕ) (st : State p)
      → IsServer p max buf_size st
      → Returns Kept (reply_err p hd msg st)
  unfolding reply_err
  reply_err-Kept hd msg st v =
      seq-Kept
        (io p (pk_tcp_send p.sockets hd (b'-' ∷ []))
          >> io p (pk_tcp_send p.sockets hd msg)
          >> io p (pk_sock_close p.sockets hd))
        (pure tt) st
        (seq-Kept
          (io p (pk_tcp_send p.sockets hd (b'-' ∷ [])) >> io p (pk_tcp_send p.sockets hd msg))
          (io p (pk_sock_close p.sockets hd)) st
          (seq-Kept (io p (pk_tcp_send p.sockets hd (b'-' ∷ [])))
            (io p (pk_tcp_send p.sockets hd msg)) st (send-Kept hd (b'-' ∷ []) st v)
            (send-Kept hd msg))
          (close-Kept hd))
        (λ st' v'. v')

  reply-Kept :
      (hd : ℕ) (r : NetlogResp) (st : State p)
      → IsServer p max buf_size st
      → Returns Kept (reply p hd r st)
  unfolding reply
  reply-Kept hd netlog_ok st v = reply_ok-Kept hd st v
  reply-Kept hd ok_ignored st v = reply_ok-Kept hd st v
  reply-Kept hd err_internal st v = reply_err-Kept hd (err_msg err_internal) st v
  reply-Kept hd err_malformed_req st v = reply_err-Kept hd (err_msg err_malformed_req) st v
  reply-Kept hd err_clients_limit st v = reply_err-Kept hd (err_msg err_clients_limit) st v
  reply-Kept hd err_tcp_connect st v = reply_err-Kept hd (err_msg err_tcp_connect) st v

  module _ (junk : ℕ → List ℕ) (pos : 0 < buf_size) where
    -- A round stops only where it reads what has no value.
    abbrev pub ReadsUndefined : Halt → State p → Type 0
    ReadsUndefined h st' = h ≡ Halt.undefined_read

    served-Kept :
        (printed : ℕ → List (List ℕ)) (hd : ℕ) (r : NetlogResp) (st : State p)
        → IsServer p max buf_size st
        → Returns Kept ((print_all p buf_size (printed 2) >> reply p hd r) st)
    served-Kept printed hd r st v =
        bind-Returns (λ _ u. Follows p max buf_size st u) Kept (print_all p buf_size (printed 2) st)
          (λ _. reply p hd r) (print_all-Follows p max buf_size (printed 2) st pos v)
          (λ _ u f. reply-Kept hd r u (IsServer-Follows p max buf_size st u v f))

    serve_ctl-Kept :
        (printed : ℕ → List (List ℕ)) (hd : ℕ) (a : IpAddr) (st : State p)
        → IsServer p max buf_size st
        → Returns Kept (serve_ctl p max buf_size junk printed (some (hd, a)) st)
    unfolding serve_ctl
    serve_ctl-Kept printed hd a st v =
        bind-Returns Kept Kept (ctl_handle_req p max buf_size printed junk hd a st) _
          (ctl_handle_req-IsServer p max buf_size printed pos junk hd a st v)
          (λ r st' v'. served-Kept printed hd r st' v')

    -- The task reads what has no value, just where `accept` has failed.
    abbrev pub AcceptFailed : (shd : ℕ) → State p → Halt → State p → Type 0
    AcceptFailed shd st h st' =
        (h ≡ Halt.undefined_read) × ((p.sockets.accept shd st.world).0 ≡ none)

    serve_ctl-Ends :
        (printed : ℕ → List (List ℕ)) (shd : ℕ) (st : State p) (r : Option (ℕ × IpAddr))
        (st' : State p)
        → IsServer p max buf_size st' × (r ≡ none → (p.sockets.accept shd st.world).0 ≡ none)
        → Ends Kept (AcceptFailed shd st) (serve_ctl p max buf_size junk printed r st')
    unfolding serve_ctl
    serve_ctl-Ends printed shd st none st' (v, failed) = (refl, failed refl)
    serve_ctl-Ends printed shd st (some (hd, a)) st' (v, failed) =
        Ends-Returns Kept (AcceptFailed shd st)
          (serve_ctl p max buf_size junk printed (some (hd, a)) st')
          (serve_ctl-Kept printed hd a st' v)

    -- A round of `ctl_server_task`, begun with the invariant of the server and where a packet holds
    -- a byte besides its first, ends with the invariant, whatever the peer sends and whatever other
    -- tasks print meanwhile; or `accept` has failed, and then the task reads a variable that was
    -- never given a value.
    pub ctl_round-Kept :
        (printed : ℕ → List (List ℕ)) (shd : ℕ) (st : State p)
        → IsServer p max buf_size st
        → Ends Kept (AcceptFailed shd st) (ctl_round p max buf_size junk printed shd st)
    unfolding ctl_round
    ctl_round-Kept printed shd st v =
        bind-Ends Accepted Kept (AcceptFailed shd st) (io p (pk_tcp_accept p.sockets shd) st)
          (serve_ctl p max buf_size junk printed)
          (Ends-Returns Accepted (AcceptFailed shd st) (io p (pk_tcp_accept p.sockets shd) st) (
            io-Returns p (λ r _. r ≡ none → (p.sockets.accept shd st.world).0 ≡ none) Accepted
              (pk_tcp_accept p.sockets shd) st (pk_tcp_accept-Returns p.sockets shd st.world)
              (λ r w failed. (IsServer-world p max buf_size st w v, failed))))
          (serve_ctl-Ends printed shd st)
      where
        Accepted : Option (ℕ × IpAddr) → State p → Type 0
        Accepted r st' =
            IsServer p max buf_size st' × (r ≡ none → (p.sockets.accept shd st.world).0 ≡ none)

  count_sent-Kept :
      (rest : ℕ → M (State p) ℕ) (ok_cnt : ℕ) (r : Option ℕ) (st : State p)
      → ((n : ℕ) → Returns Kept (rest n st))
      → Returns Kept (count_sent p rest ok_cnt r st)
  unfolding count_sent
  count_sent-Kept rest ok_cnt none st h = h ok_cnt
  count_sent-Kept rest ok_cnt (some n) st h = h (suc ok_cnt)

  pub bcast_loop-Kept :
      (chd : ℕ) (pack : List ℕ) (n ok_cnt : ℕ) (st : State p)
      → IsServer p max buf_size st
      → Returns Kept (bcast_loop p chd pack n ok_cnt st)
  unfolding bcast_loop
  bcast_loop-Kept chd pack zero ok_cnt st v = v
  bcast_loop-Kept chd pack (suc n) ok_cnt st v =
      io_bind-Returns p Kept
        (pk_udp_send p.sockets chd (record { addr = ip_bcast_addr; port = bcast_boot_port }) pack)
        (count_sent p (bcast_loop p chd pack n) ok_cnt) st
        (pk_udp_send-Returns p.sockets chd (record { addr = ip_bcast_addr; port = bcast_boot_port })
          pack st.world)
        (λ r w.
          count_sent-Kept (bcast_loop p chd pack n) ok_cnt r (record st { world = w })
            (λ m.
              bcast_loop-Kept chd pack n m (record st { world = w })
                (IsServer-world p max buf_size st w v)))
