-- ===== src/Netlog/Control.antt =====
-- The requests of src/lib/netlog.c: `ctl_sub`, `ctl_unsub` and `ctl_handle_req`. They run in the task of
-- the server; what other tasks print between two of their critical sections, or before the first one
-- (`printed k` for the place numbered k), is flushed just before the later one. Log messages of this task
-- are among what is printed.
pub mod Sub
pub mod Unsub
pub mod Req
use vedruino.Base.{
  ℕ, zero, suc, ◌+◌, ◌*◌, Bool, true, false, ◌&&◌, Option, none, some, List, [], ◌∷◌, text_eq, M,
  pure, stop, ◌>>=◌, ◌>>◌, Halt,
}
use vedruino.Ip.Addr.{IpAddr, pk_ip_addr2str, htons}
use vedruino.Ip.Handles.{pk_tcp_client, pk_udp_client, pk_tcp_connect}
use vedruino.Ip.Stream.{pk_tcp_recvn}
use vedruino.Netlog.Table.{
  Client, get_client_idx_by_addr_str, get_free_idx_in_clients, store_client,
}
use vedruino.Netlog.Platform.{Platform, State, io}
use vedruino.Netlog.Flush.{set_table, with_client, del_client, print_all}

-- `pkNetlogResp_t`
pub data NetlogResp : Type 0 where
  netlog_ok : NetlogResp
  ok_ignored : NetlogResp
  err_internal : NetlogResp
  err_malformed_req : NetlogResp
  err_clients_limit : NetlogResp
  err_tcp_connect : NetlogResp

-- The characters of "2720NETLOG".
abbrev pub magic : List ℕ
magic = b'2' ∷ b'7' ∷ b'2' ∷ b'0' ∷ b'N' ∷ b'E' ∷ b'T' ∷ b'L' ∷ b'O' ∷ b'G' ∷ []

abbrev pub magic_size : ℕ
magic_size = 10

abbrev pub proto_size : ℕ
proto_size = 3

abbrev pub proto_udp : List ℕ
proto_udp = b'u' ∷ b'd' ∷ b'p' ∷ []

abbrev pub proto_tcp : List ℕ
proto_tcp = b't' ∷ b'c' ∷ b'p' ∷ []

-- A `uint16_t` in the memory of the board, the low byte first.
abbrev u16_of_bytes : List ℕ → ℕ
u16_of_bytes [] = 0
u16_of_bytes (b ∷ bs) = b + 256 * u16_of_bytes bs

module _ (p : Platform) (max_clients buf_size : ℕ) (printed : ℕ → List (List ℕ)) where
  abbrev pub others : (k : ℕ) → M (State p) (Unit {0})
  others k = print_all p buf_size (printed k)

  -- The third critical section of `ctl_sub`, where `PK_ASSERT(i >= 0)` stands.
  add_client : IpAddr → List ℕ → (is_udp : Bool) → (log_chd : ℕ) → Option ℕ → M (State p) NetlogResp
  add_client log_addr log_addr_str is_udp log_chd none = stop Halt.assert_failed
  add_client log_addr log_addr_str is_udp log_chd (some i) =
      with_client p i (λ old. set_table p (store_client i log_chd is_udp log_addr log_addr_str old))
      >> pure NetlogResp.netlog_ok

  subscribe : IpAddr → List ℕ → (is_udp : Bool) → (log_chd : ℕ) → M (State p) NetlogResp
  unfolding add_client get_free_idx_in_clients
  subscribe log_addr log_addr_str is_udp log_chd = others 1 >> λ st.
      add_client log_addr log_addr_str is_udp log_chd (get_free_idx_in_clients max_clients st.table)
        st

  open_udp : IpAddr → List ℕ → Option ℕ → M (State p) NetlogResp
  unfolding subscribe
  open_udp log_addr log_addr_str none = pure NetlogResp.err_internal
  open_udp log_addr log_addr_str (some log_chd) = subscribe log_addr log_addr_str true log_chd

  connected : IpAddr → List ℕ → (log_chd : ℕ) → Bool → M (State p) NetlogResp
  unfolding subscribe
  connected log_addr log_addr_str log_chd true = subscribe log_addr log_addr_str false log_chd
  connected log_addr log_addr_str log_chd false = pure NetlogResp.err_tcp_connect

  open_tcp : IpAddr → List ℕ → Option ℕ → M (State p) NetlogResp
  unfolding connected pk_tcp_connect
  open_tcp log_addr log_addr_str none = pure NetlogResp.err_internal
  open_tcp log_addr log_addr_str (some log_chd) =
      io p (pk_tcp_connect p.sockets log_chd log_addr) >>= connected log_addr log_addr_str log_chd

  -- Neither protocol is a malformed request.
  open_client : IpAddr → List ℕ → (is_udp is_tcp : Bool) → M (State p) NetlogResp
  unfolding open_udp open_tcp pk_udp_client pk_tcp_client
  open_client log_addr log_addr_str true is_tcp =
      io p (pk_udp_client p.sockets) >>= open_udp log_addr log_addr_str
  open_client log_addr log_addr_str false true =
      io p (pk_tcp_client p.sockets) >>= open_tcp log_addr log_addr_str
  open_client log_addr log_addr_str false false = pure NetlogResp.err_malformed_req

  with_free : (proto : List ℕ) → IpAddr → List ℕ → Option ℕ → M (State p) NetlogResp
  unfolding open_client
  with_free proto log_addr log_addr_str none = pure NetlogResp.err_clients_limit
  with_free proto log_addr log_addr_str (some i) =
      open_client log_addr log_addr_str (text_eq proto proto_udp) (text_eq proto proto_tcp)

  if_new : (proto : List ℕ) → IpAddr → List ℕ → Option ℕ → M (State p) NetlogResp
  unfolding with_free get_free_idx_in_clients
  if_new proto log_addr log_addr_str (some i) = pure NetlogResp.ok_ignored
  if_new proto log_addr log_addr_str none = others 0 >> λ st.
      with_free proto log_addr log_addr_str (get_free_idx_in_clients max_clients st.table) st

  unfoldable pub ctl_sub : (proto : List ℕ) → IpAddr → List ℕ → M (State p) NetlogResp
  unfolding if_new get_client_idx_by_addr_str
  ctl_sub proto log_addr log_addr_str st =
      if_new proto log_addr log_addr_str (get_client_idx_by_addr_str log_addr_str st.table) st

  if_known : Option ℕ → M (State p) NetlogResp
  unfolding del_client
  if_known none = pure NetlogResp.ok_ignored
  if_known (some i) = del_client p i >> pure NetlogResp.netlog_ok

  unfoldable pub ctl_unsub : List ℕ → M (State p) NetlogResp
  unfolding if_known get_client_idx_by_addr_str
  ctl_unsub log_addr_str st = if_known (get_client_idx_by_addr_str log_addr_str st.table) st

  -- `junk n` is what a buffer of n bytes holds before it is written.
  module _ (junk : ℕ → List ℕ) where
    abbrev recvn : (ctl_hd n : ℕ) → M (State p) (Bool × List ℕ)
    recvn ctl_hd n = io p (pk_tcp_recvn p.sockets ctl_hd (junk n) n)

    run_op : IpAddr → (proto : List ℕ) → (is_sub is_unsub : Bool) → M (State p) NetlogResp
    unfolding ctl_sub ctl_unsub pk_ip_addr2str
    run_op log_addr proto true is_unsub =
        others 3 >> ctl_sub proto log_addr (pk_ip_addr2str log_addr)
    run_op log_addr proto false true = others 3 >> ctl_unsub (pk_ip_addr2str log_addr)
    run_op log_addr proto false false = pure NetlogResp.err_malformed_req

    read_op : IpAddr → (proto : List ℕ) → Bool × List ℕ → M (State p) NetlogResp
    unfolding run_op
    read_op log_addr proto (false, op) = pure NetlogResp.err_malformed_req
    read_op log_addr proto (true, op) =
        run_op log_addr proto (text_eq op (b'S' ∷ [])) (text_eq op (b'U' ∷ []))

    read_port : (ctl_hd : ℕ) → IpAddr → (proto : List ℕ) → Bool × List ℕ → M (State p) NetlogResp
    unfolding read_op
    read_port ctl_hd ctl_addr proto (false, port) = pure NetlogResp.err_malformed_req
    read_port ctl_hd ctl_addr proto (true, port) =
        recvn ctl_hd 1
        >>= read_op (record { addr = ctl_addr.addr; port = htons (u16_of_bytes port) }) proto

    read_proto : (ctl_hd : ℕ) → IpAddr → Bool × List ℕ → M (State p) NetlogResp
    unfolding read_port
    read_proto ctl_hd ctl_addr (false, proto) = pure NetlogResp.err_malformed_req
    read_proto ctl_hd ctl_addr (true, proto) = recvn ctl_hd 2 >>= read_port ctl_hd ctl_addr proto

    after_magic : (ctl_hd : ℕ) → IpAddr → Bool → M (State p) NetlogResp
    unfolding read_proto
    after_magic ctl_hd ctl_addr false = pure NetlogResp.err_malformed_req
    after_magic ctl_hd ctl_addr true = recvn ctl_hd proto_size >>= read_proto ctl_hd ctl_addr

    unfoldable pub ctl_handle_req : (ctl_hd : ℕ) → IpAddr → M (State p) NetlogResp
    unfolding after_magic
    ctl_handle_req ctl_hd ctl_addr =
        recvn ctl_hd magic_size >>= λ (ok, bs). after_magic ctl_hd ctl_addr (ok && text_eq bs magic)
