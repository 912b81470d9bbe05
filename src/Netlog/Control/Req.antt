-- ===== src/Netlog/Control/Req.antt =====
-- `ctl_handle_req` of src/lib/netlog.c.
use vedruino.Base.{
  ℕ, ◌<◌, Bool, true, false, ◌&&◌, List, [], ◌∷◌, text_eq, M, ◌>>=◌, ◌>>◌, Returns, bind-Returns,
  Returns-mono,
}
use vedruino.Ip.Addr.{IpAddr, pk_ip_addr2str, htons}
use vedruino.Ip.Stream.{pk_tcp_recvn}
use vedruino.Ip.Stream.Keeps.{pk_tcp_recvn-keeps}
use vedruino.Netlog.Platform.{Platform, State, io}
use vedruino.Netlog.Rules.{io_bind-Returns}
use vedruino.Netlog.Follows.{IsServer, Follows, IsServer-Follows, IsServer-world}
use vedruino.Netlog.Flush.Keeps.{print_all-Follows}
use vedruino.Netlog.Control.{
  NetlogResp, others, magic, magic_size, proto_size, ctl_sub, ctl_unsub, u16_of_bytes, run_op,
  read_op, read_port, read_proto, after_magic, ctl_handle_req,
}
use vedruino.Netlog.Control.Sub.{Added, IsServer-Added, ctl_sub-Added}
use vedruino.Netlog.Control.Unsub.{Gone, ctl_unsub-Gone}

module _ (p : Platform) (max buf_size : ℕ) (printed : ℕ → List (List ℕ)) (pos : 0 < buf_size)
    (junk : ℕ → List ℕ) where
  abbrev pub Kept : {A : Type 0} → A → State p → Type 0
  Kept a st' = IsServer p max buf_size st'

  -- Behind what other tasks print before the first critical section.
  others-IsServer :
      (k : M (State p) NetlogResp) (st : State p)
      → IsServer p max buf_size st
      → ((st' : State p) → IsServer p max buf_size st' → Returns Kept (k st'))
      → Returns Kept ((others p max buf_size printed 3 >> k) st)
  others-IsServer k st v next =
      bind-Returns (λ _ u. Follows p max buf_size st u) Kept (others p max buf_size printed 3 st)
        (λ _. k) (print_all-Follows p max buf_size (printed 3) st pos v)
        (λ _ u f. next u (IsServer-Follows p max buf_size st u v f))

  run_op-IsServer :
      (a : IpAddr) (proto : List ℕ) (is_sub is_unsub : Bool) (st : State p)
      → IsServer p max buf_size st
      → Returns Kept (run_op p max buf_size printed junk a proto is_sub is_unsub st)
  unfolding run_op
  run_op-IsServer a proto true is_unsub st v =
      others-IsServer (ctl_sub p max buf_size printed proto a (pk_ip_addr2str a)) st v (λ u v'.
        Returns-mono (Added p max buf_size (pk_ip_addr2str a) u) Kept
          (ctl_sub p max buf_size printed proto a (pk_ip_addr2str a) u)
          (ctl_sub-Added p max buf_size (pk_ip_addr2str a) printed a pos proto u v')
          (λ r st' g. IsServer-Added p max buf_size (pk_ip_addr2str a) u st' r v' g))
  run_op-IsServer a proto false true st v =
      others-IsServer (ctl_unsub p max buf_size printed (pk_ip_addr2str a)) st v (λ u v'.
        Returns-mono (Gone p max buf_size printed (pk_ip_addr2str a) u) Kept
          (ctl_unsub p max buf_size printed (pk_ip_addr2str a) u)
          (ctl_unsub-Gone p max buf_size printed (pk_ip_addr2str a) u v')
          (λ r st' g. IsServer-Follows p max buf_size u st' v' g.1))
  run_op-IsServer a proto false false st v = v

  -- Behind a read of a part of the request.
  recvn-IsServer :
      (chd n : ℕ) (k : Bool × List ℕ → M (State p) NetlogResp) (st : State p)
      → IsServer p max buf_size st
      → ((r : Bool × List ℕ) (st' : State p) → IsServer p max buf_size st' → Returns Kept (k r st'))
      → Returns Kept ((io p (pk_tcp_recvn p.sockets chd (junk n) n) >>= k) st)
  recvn-IsServer chd n k st v next =
      io_bind-Returns p Kept (pk_tcp_recvn p.sockets chd (junk n) n) k st
        (pk_tcp_recvn-keeps p.sockets (λ w. Unit {0}) chd (λ m w u. tt) n (junk n) st.world tt)
        (λ r w. next r _ (IsServer-world p max buf_size st w v))

  read_op-IsServer :
      (a : IpAddr) (proto : List ℕ) (r : Bool × List ℕ) (st : State p)
      → IsServer p max buf_size st
      → Returns Kept (read_op p max buf_size printed junk a proto r st)
  unfolding read_op
  read_op-IsServer a proto (false, op) st v = v
  read_op-IsServer a proto (true, op) st v =
      run_op-IsServer a proto (text_eq op (b'S' ∷ [])) (text_eq op (b'U' ∷ [])) st v

  read_port-IsServer :
      (chd : ℕ) (a : IpAddr) (proto : List ℕ) (r : Bool × List ℕ) (st : State p)
      → IsServer p max buf_size st
      → Returns Kept (read_port p max buf_size printed junk chd a proto r st)
  unfolding read_port
  read_port-IsServer chd a proto (false, port) st v = v
  read_port-IsServer chd a proto (true, port) st v =
      recvn-IsServer chd 1 _ st v
        (read_op-IsServer (record { addr = a.addr; port = htons (u16_of_bytes port) }) proto)

  read_proto-IsServer :
      (chd : ℕ) (a : IpAddr) (r : Bool × List ℕ) (st : State p)
      → IsServer p max buf_size st
      → Returns Kept (read_proto p max buf_size printed junk chd a r st)
  unfolding read_proto
  read_proto-IsServer chd a (false, proto) st v = v
  read_proto-IsServer chd a (true, proto) st v =
      recvn-IsServer chd 2 _ st v (read_port-IsServer chd a proto)

  after_magic-IsServer :
      (chd : ℕ) (a : IpAddr) (ok : Bool) (st : State p)
      → IsServer p max buf_size st
      → Returns Kept (after_magic p max buf_size printed junk chd a ok st)
  unfolding after_magic
  after_magic-IsServer chd a false st v = v
  after_magic-IsServer chd a true st v =
      recvn-IsServer chd proto_size _ st v (read_proto-IsServer chd a)

  -- Begun with the invariant of the server, and where a packet holds a byte besides its first,
  -- `ctl_handle_req` returns and keeps the invariant, whatever the peer sends, whichever call fails
  -- and whatever other tasks print meanwhile.
  pub ctl_handle_req-IsServer :
      (chd : ℕ) (a : IpAddr) (st : State p)
      → IsServer p max buf_size st
      → Returns Kept (ctl_handle_req p max buf_size printed junk chd a st)
  unfolding ctl_handle_req
  ctl_handle_req-IsServer chd a st v =
      recvn-IsServer chd magic_size _ st v
        (λ (ok, bs) st' v'. after_magic-IsServer chd a (ok && text_eq bs magic) st' v')
