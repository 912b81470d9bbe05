-- ===== src/Ip/Tests.antt =====
-- The theorems on src/lib/ip.c at concrete inputs, and runs of its functions.
use Prim.Native.String.{String}
use Prim.Native.Char.{code}
use vedruino.Base.{ℕ, ◌≤◌, ◌≡◌, refl, true, some, List, [], ◌∷◌, arith, length, take, done, Returns}
use vedruino.Ip.Addr.{IpAddr, pk_ip_addr2str}
use vedruino.Ip.Addr.Text.{read_addr, read_addr-pk_ip_addr2str}
use vedruino.Ip.Net.{Net, net, net-IsStream, net-Progresses}
use vedruino.Ip.Stream.{pk_tcp_send, pk_tcp_sendn, pk_tcp_recvn}
use vedruino.Ip.Stream.Send.{Sent, SentN, pk_tcp_send-Sent, pk_tcp_sendn-SentN}
use vedruino.Ip.Stream.Recv.{RecvN, pk_tcp_recvn-RecvN}
use vedruino.Ip.Stream.Fragments.{pk_tcp_recvn_whole, pk_tcp_recvn_split}

abbrev codes : String → List ℕ
codes String.[] = []
codes (String.◌∷◌ c s) = code c ∷ codes s

abbrev home : IpAddr
home = record { addr = 0xc0a8_0117; port = 8419 }

home_text : pk_ip_addr2str home ≡ codes "192.168.1.23:8419"
unfolding pk_ip_addr2str
home_text = refl

read_addr-pk_ip_addr2str_example :
    (length (pk_ip_addr2str home) ≤ 21) × (read_addr (pk_ip_addr2str home) ≡ some home)
read_addr-pk_ip_addr2str_example = read_addr-pk_ip_addr2str home (omega arith)

abbrev quiet : Net
quiet = record { incoming = []; sent = []; next_handle = 3 }

-- Two pieces wait to be read.
abbrev split : Net
split = record { incoming = (1 ∷ 2 ∷ []) ∷ (3 ∷ []) ∷ []; sent = []; next_handle = 3 }

pk_tcp_send-Sent_example :
    Returns (Sent net net-IsStream 4 (7 ∷ 8 ∷ []) quiet) (pk_tcp_send net 4 (7 ∷ 8 ∷ []) quiet)
pk_tcp_send-Sent_example = pk_tcp_send-Sent net net-IsStream 4 (7 ∷ 8 ∷ []) quiet

pk_tcp_sendn-SentN_example :
    Returns
      (SentN net net-IsStream 4 (1 ∷ 2 ∷ 3 ∷ 4 ∷ 5 ∷ []) 5 quiet)
      (pk_tcp_sendn net 4 (1 ∷ 2 ∷ 3 ∷ 4 ∷ 5 ∷ []) 5 quiet)
pk_tcp_sendn-SentN_example =
    pk_tcp_sendn-SentN net net-IsStream net-Progresses 4 (1 ∷ 2 ∷ 3 ∷ 4 ∷ 5 ∷ []) 5 (omega arith)
      quiet

pk_tcp_sendn_run :
    Returns
      (λ ok w. (ok ≡ true) × (w.sent ≡ 1 ∷ 2 ∷ 3 ∷ 4 ∷ 5 ∷ []))
      (pk_tcp_sendn net 4 (1 ∷ 2 ∷ 3 ∷ 4 ∷ 5 ∷ []) 5 quiet)
unfolding pk_tcp_sendn pk_tcp_send
pk_tcp_sendn_run = (refl, refl)

pk_tcp_recvn-RecvN_example :
    Returns
      (RecvN net net-IsStream 4 3 0 (0 ∷ 0 ∷ 0 ∷ []) split)
      (pk_tcp_recvn net 4 (0 ∷ 0 ∷ 0 ∷ []) 3 split)
pk_tcp_recvn-RecvN_example = pk_tcp_recvn-RecvN net net-IsStream 4 3 (0 ∷ 0 ∷ 0 ∷ []) split

pk_tcp_recvn_whole_example :
    pk_tcp_recvn net 4 (0 ∷ 0 ∷ 0 ∷ []) 2 split
    ≡ done (true, 1 ∷ 2 ∷ 0 ∷ []) (record split { incoming = (3 ∷ []) ∷ [] })
pk_tcp_recvn_whole_example =
    pk_tcp_recvn_whole net 4 2 (0 ∷ 0 ∷ 0 ∷ []) (1 ∷ 2 ∷ []) split (omega arith) refl refl

-- The message 1, 2, 3 comes as 1, 2 and 3: the buffer then holds 3, 2, 0.
pk_tcp_recvn_split_example :
    Returns
      (λ (ok, b) _. (ok ≡ true) × (take 1 b ≡ 3 ∷ []))
      (pk_tcp_recvn net 4 (0 ∷ 0 ∷ 0 ∷ []) 3 split)
pk_tcp_recvn_split_example =
    pk_tcp_recvn_split net 4 3 (0 ∷ 0 ∷ 0 ∷ []) (1 ∷ 2 ∷ []) (3 ∷ []) split (omega arith)
      (omega arith) refl refl refl
