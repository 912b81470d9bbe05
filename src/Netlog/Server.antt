-- ===== src/Netlog/Server.antt =====
-- `ctl_server_task` of src/lib/netlog.c and the messages that it sends when it starts. The endless loop
-- is given a number of rounds to run; `printed n k` is what other tasks print in round `n` at place `k`.
pub mod Kept
pub mod Task
use Prim.Native.Char.{code}
use Prim.Native.String.{String}
use vedruino.Base.{
  ℕ, zero, suc, ◌/◌, Bool, true, false, Option, none, some, List, [], ◌∷◌, ◌++◌, leb, M, pure, stop,
  ◌>>=◌, ◌>>◌, get, pk_assert, Halt,
}
use vedruino.Ip.Addr.{IpAddr, ip_bcast_addr}
use vedruino.Ip.Handles.{pk_tcp_server, pk_tcp_accept, pk_udp_client, pk_sock_close}
use vedruino.Ip.Stream.{pk_tcp_send, pk_udp_send}
use vedruino.Netlog.Platform.{Platform, State, io}
use vedruino.Netlog.Flush.{print_all}
use vedruino.Netlog.Control.{NetlogResp, ok_ignored, netlog_ok, magic, ctl_handle_req}

abbrev pub ctl_server_port : ℕ
ctl_server_port = 8419

abbrev pub bcast_boot_port : ℕ
bcast_boot_port = 8419

abbrev pub bcast_boot_notifies : ℕ
bcast_boot_notifies = 5

-- The characters of an ASCII text.
abbrev codes : String → List ℕ
codes String.[] = []
codes (String.◌∷◌ c s) = code c ∷ codes s

-- There is no message where the request did not fail.
err_msg : NetlogResp → List ℕ
err_msg NetlogResp.err_internal = codes "internal error"
err_msg NetlogResp.err_malformed_req = codes "malformed request"
err_msg NetlogResp.err_clients_limit = codes "clients limit"
err_msg NetlogResp.err_tcp_connect = codes "tcp connect error"
err_msg _ = []

module _ (p : Platform) where
  reply_ok : (ctl_hd : ℕ) → M (State p) (Unit {0})
  reply_ok ctl_hd st =
      (io p (pk_tcp_send p.sockets ctl_hd (b'+' ∷ []))
          >> io p (pk_tcp_send p.sockets ctl_hd st.mac_addr)
          >> io p (pk_tcp_send p.sockets ctl_hd st.session_id)
          >> io p (pk_sock_close p.sockets ctl_hd)
          >> pure tt)
        st

  reply_err : (ctl_hd : ℕ) → List ℕ → M (State p) (Unit {0})
  reply_err ctl_hd msg =
      io p (pk_tcp_send p.sockets ctl_hd (b'-' ∷ []))
      >> io p (pk_tcp_send p.sockets ctl_hd msg)
      >> io p (pk_sock_close p.sockets ctl_hd)
      >> pure tt

  reply : (ctl_hd : ℕ) → NetlogResp → M (State p) (Unit {0})
  unfolding reply_ok reply_err err_msg
  reply ctl_hd netlog_ok = reply_ok ctl_hd
  reply ctl_hd ok_ignored = reply_ok ctl_hd
  reply ctl_hd resp = reply_err ctl_hd (err_msg resp)

  count_sent : (ℕ → M (State p) ℕ) → (ok_cnt : ℕ) → Option ℕ → M (State p) ℕ
  count_sent rest ok_cnt none = rest ok_cnt
  count_sent rest ok_cnt (some sent) = rest (suc ok_cnt)

  -- `n` messages are still to be sent. The result is `ok_cnt`.
  pub bcast_loop : (chd : ℕ) → List ℕ → (n ok_cnt : ℕ) → M (State p) ℕ
  unfolding count_sent
  bcast_loop chd pack zero ok_cnt = pure ok_cnt
  bcast_loop chd pack (suc n) ok_cnt =
      io p
        (pk_udp_send p.sockets chd (record { addr = ip_bcast_addr; port = bcast_boot_port }) pack)
      >>= count_sent (bcast_loop chd pack n) ok_cnt

  bcast_on : Option ℕ → M (State p) (Unit {0})
  unfolding bcast_loop
  bcast_on none st = stop Halt.assert_failed st
  bcast_on (some chd) st =
      (bcast_loop chd (magic ++ (st.mac_addr ++ st.session_id)) bcast_boot_notifies 0
          >>= (λ ok_cnt. pk_assert (leb (bcast_boot_notifies / 3) ok_cnt))
          >> io p (pk_sock_close p.sockets chd)
          >> pure tt)
        st

  unfoldable pub bcast_boot_notify : M (State p) (Unit {0})
  unfolding bcast_on
  bcast_boot_notify = io p (pk_udp_client p.sockets) >>= bcast_on

  module _ (max_clients buf_size : ℕ) (junk : ℕ → List ℕ) where
    -- Where `pk_tcp_accept` fails, the handler of errors prints `cl_addr_str`, which has no value.
    serve_ctl : (printed : ℕ → List (List ℕ)) → Option (ℕ × IpAddr) → M (State p) (Unit {0})
    unfolding reply ctl_handle_req
    serve_ctl printed none = stop Halt.undefined_read
    serve_ctl printed (some (ctl_hd, ctl_addr)) =
        ctl_handle_req p max_clients buf_size printed junk ctl_hd ctl_addr >>= λ resp.
        print_all p buf_size (printed 2) >> reply ctl_hd resp

    -- One round of `while (1)`.
    unfoldable pub ctl_round : (printed : ℕ → List (List ℕ)) → (shd : ℕ) → M (State p) (Unit {0})
    unfolding serve_ctl
    ctl_round printed shd = io p (pk_tcp_accept p.sockets shd) >>= serve_ctl printed

    ctl_loop : (printed : ℕ → ℕ → List (List ℕ)) → (shd rounds : ℕ) → M (State p) (Unit {0})
    unfolding ctl_round
    ctl_loop printed shd zero = pure tt
    ctl_loop printed shd (suc rounds) =
        ctl_round (printed rounds) shd >> ctl_loop printed shd rounds

    with_server :
        (printed : ℕ → ℕ → List (List ℕ)) → (rounds : ℕ) → Option ℕ → M (State p) (Unit {0})
    unfolding ctl_loop bcast_boot_notify
    with_server printed rounds none = stop Halt.assert_failed
    with_server printed rounds (some shd) = bcast_boot_notify >> ctl_loop printed shd rounds

    unfoldable pub ctl_server_task :
        (printed : ℕ → ℕ → List (List ℕ)) → (rounds : ℕ) → M (State p) (Unit {0})
    unfolding with_server
    ctl_server_task printed rounds =
        io p (pk_tcp_server p.sockets ctl_server_port 1) >>= with_server printed rounds
