-- ===== src/Netlog/Tests.antt =====
-- The theorems on src/lib/netlog.c at concrete inputs.
use vedruino.Base.{
  ℕ, ◌≡◌, refl, true, false, List, [], ◌∷◌, arith, length, replicate, some, Bool, ◌>>◌, Returns,
  Ends,
}
use vedruino.Ip.Addr.{IpAddr, SockAddr, get_sockaddr}
use vedruino.Ip.Net.{net}
use vedruino.Netlog.Platform.{Platform, State}
use vedruino.Netlog.Follows.{IsServer}
use vedruino.Netlog.Flush.{stdout_flush}
use vedruino.Netlog.Flush.Keeps.{Flushed, stdout_flush-Flushed}
use vedruino.Netlog.Flush.Served.{Sending}
use vedruino.Netlog.Flush.Delivered.{Delivered}
use vedruino.Netlog.Recorder.{recorder}
use vedruino.Netlog.Control.{proto_udp, ctl_sub, ctl_unsub, ctl_handle_req}
use vedruino.Netlog.Control.Sub.{Added, ctl_sub-Added}
use vedruino.Netlog.Control.Unsub.{Gone, ctl_unsub-Gone}
use vedruino.Netlog.Control.Req.{ctl_handle_req-IsServer}
use vedruino.Netlog.Server.{ctl_round, ctl_server_task}
use vedruino.Netlog.Server.Kept.{Kept, AcceptFailed, ctl_round-Kept}
use vedruino.Netlog.Server.Task.{Stops, ctl_server_task-EndsKept}
use vedruino.Netlog.Init.{Boot, pk_netlog_init}
use vedruino.Netlog.Init.Runs.{IsUnset, pk_netlog_init-EndsKept}
use vedruino.Netlog.Table.{Client, Table, remove_client, store_client}
use vedruino.Netlog.Table.Remove.{active, remove_at, active-remove_client}
use vedruino.Netlog.Table.Clients.{udp_count}
use vedruino.Netlog.Table.Invariant.{IsTable, store_client-IsTable}

abbrev peer : IpAddr
peer = record { addr = 0xc0a8_0105; port = 5005 }

abbrev udp_client : Client
udp_client = record {
  hd = 4;
  addr_str = b'1' ∷ [];
  udp_flag = true;
  pack_cnt = 127;
  addr_port = peer;
}

abbrev tcp_client : Client
tcp_client = record {
  hd = 5;
  addr_str = b'1' ∷ b'2' ∷ [];
  udp_flag = false;
  pack_cnt = 3;
  addr_port = peer;
}

-- Two of three slots are in use.
abbrev two_clients : Table
two_clients = record {
  clients = udp_client ∷ tcp_client ∷ udp_client ∷ [];
  clients_num = 2;
  udp_clients_num = 1;
}

two_clients-IsTable : IsTable 3 two_clients
unfolding udp_count
two_clients-IsTable = record {
  slots = refl;
  in_use = omega arith;
  udp = refl;
  distinct = ((λ e. cc, tt), (tt, tt));
  counters = (omega arith, (omega arith, (omega arith, tt)));
}

active-remove_client_example :
    (active (remove_client 0 udp_client two_clients) ≡ remove_at 0 (active two_clients))
    × (length (remove_client 0 udp_client two_clients).clients ≡ 3)
active-remove_client_example =
    active-remove_client 0 udp_client two_clients (omega arith) (omega arith)

store_client-IsTable_example :
    IsTable 3 (store_client 2 6 true peer (b'1' ∷ b'2' ∷ b'3' ∷ []) udp_client two_clients)
store_client-IsTable_example =
    store_client-IsTable 3 6 true peer (b'1' ∷ b'2' ∷ b'3' ∷ []) udp_client two_clients
      two_clients-IsTable (omega arith) refl (λ e. cc, (λ e. cc, tt))

abbrev board : Platform
board = record { sockets = net; uart_write = λ bs w. (tt, w) }

abbrev running : State board
running = record {
  world = record { incoming = (b'2' ∷ b'7' ∷ []) ∷ []; sent = []; next_handle = 6 };
  table = two_clients;
  udpbuf = 0 ∷ 0 ∷ 0 ∷ 0 ∷ 0 ∷ [];
  to_netlog = true;
  mac_addr = 1 ∷ 2 ∷ 3 ∷ 4 ∷ 5 ∷ 6 ∷ [];
  session_id = 9 ∷ 9 ∷ [];
}

running-IsServer : IsServer board 3 4 running
running-IsServer = record { table = two_clients-IsTable; udpbuf = refl }

-- Seven bytes, in packets of four.
abbrev text : List ℕ
text = b'v' ∷ b'e' ∷ b'd' ∷ b'r' ∷ b'u' ∷ b'i' ∷ b'n' ∷ []

abbrev printed : ℕ → List (List ℕ)
printed k = text ∷ []

abbrev zeros : ℕ → List ℕ
zeros n = replicate n 0

stdout_flush-Flushed_example :
    Returns (λ n st'. (n ≡ 7) × Flushed board 3 4 running n st') (stdout_flush board 4 text running)
stdout_flush-Flushed_example =
    stdout_flush-Flushed board 3 4 text running (omega arith) running-IsServer

ctl_sub-Added_example :
    Returns
      (Added board 3 4 (b'3' ∷ []) running)
      (ctl_sub board 3 4 printed proto_udp peer (b'3' ∷ []) running)
ctl_sub-Added_example =
    ctl_sub-Added board 3 4 (b'3' ∷ []) printed peer (omega arith) proto_udp running
      running-IsServer

ctl_unsub-Gone_example :
    Returns
      (Gone board 3 4 printed (b'1' ∷ []) running)
      (ctl_unsub board 3 4 printed (b'1' ∷ []) running)
ctl_unsub-Gone_example = ctl_unsub-Gone board 3 4 printed (b'1' ∷ []) running running-IsServer

ctl_handle_req-IsServer_example :
    Returns
      (λ _ st'. IsServer board 3 4 st')
      (ctl_handle_req board 3 4 printed zeros 8 peer running)
ctl_handle_req-IsServer_example =
    ctl_handle_req-IsServer board 3 4 printed (omega arith) zeros 8 peer running running-IsServer

ctl_round-Kept_example :
    Ends
      (Kept board 3 4)
      (AcceptFailed board 3 4 zeros (omega arith) 7 running)
      (ctl_round board 3 4 zeros printed 7 running)
ctl_round-Kept_example =
    ctl_round-Kept board 3 4 zeros (omega arith) printed 7 running running-IsServer

ctl_server_task-EndsKept_example :
    Ends
      (Kept board 3 4)
      (Stops board 3 4)
      (ctl_server_task board 3 4 zeros (λ n. printed) 2 running)
ctl_server_task-EndsKept_example =
    ctl_server_task-EndsKept board 3 4 zeros (omega arith) (λ n. printed) 2 running running-IsServer

abbrev recording : State recorder
recording = record {
  world = record { log = []; uart = [] };
  table = two_clients;
  udpbuf = 0 ∷ 0 ∷ 0 ∷ 0 ∷ 0 ∷ [];
  to_netlog = true;
  mac_addr = [];
  session_id = [];
}

-- 192.168.1.5:5005, as the little-endian board holds the bytes of the network.
abbrev peer_sockaddr : SockAddr
peer_sockaddr = record { sin_port = 0x8d13; s_addr = 0x0501_a8c0 }

recorded :
    Returns
      (λ _ st'.
        st'.world.log
        ≡ Sending.by_sendto 4 peer_sockaddr (127 ∷ b'v' ∷ b'e' ∷ b'd' ∷ b'r' ∷ [])
          ∷ Sending.by_write 5 (b'v' ∷ b'e' ∷ b'd' ∷ b'r' ∷ [])
          ∷ Sending.by_sendto 4 peer_sockaddr (0 ∷ b'u' ∷ b'i' ∷ b'n' ∷ [])
          ∷ Sending.by_write 5 (b'u' ∷ b'i' ∷ b'n' ∷ [])
          ∷ [])
      (stdout_flush recorder 4 text recording)
unfolding stdout_flush get_sockaddr
recorded = refl

abbrev succeeds : board.World → Bool × board.World
succeeds w = (true, w)

abbrev boot : Boot board
boot = record {
  base_mac_addr_get = λ w. (some (1 ∷ 2 ∷ 3 ∷ 4 ∷ 5 ∷ 6 ∷ []), w);
  fill_random = λ n w. (zeros n, w);
  mutex_create = succeeds;
  fwopen = succeeds;
  set_line_buffer = λ size. succeeds;
  task_create = succeeds;
}

abbrev unset : State board
unset = record running {
  table = record { clients = two_clients.clients; clients_num = 0; udp_clients_num = 0 };
  to_netlog = false;
}

unset-IsUnset : IsUnset 3 4 board unset
unset-IsUnset = record {
  no_clients = refl;
  no_udp_clients = refl;
  slots = refl;
  counters = (omega arith, (omega arith, (omega arith, tt)));
  udpbuf = refl;
}

pk_netlog_init-EndsKept_example :
    Ends
      (Kept board 3 4)
      (Stops board 3 4)
      ((pk_netlog_init board boot 4 >> ctl_server_task board 3 4 zeros (λ n. printed) 2) unset)
pk_netlog_init-EndsKept_example =
    pk_netlog_init-EndsKept board 3 4 boot zeros (λ n. printed) 2 unset (omega arith) unset-IsUnset
