-- ===== src/Ip/Stream.antt =====
-- src/lib/ip.c: the calls that send and receive. `none` stands for PK_SOCKERR, and log messages are
-- left out. `while` loops run on fuel; the theorems below this file say that it is enough.
pub mod Send
pub mod Recv
pub mod Fragments
pub mod Keeps
use vedruino.Base.{
  ℕ, zero, suc, ◌+◌, ◌-◌, Bool, true, false, Option, none, some, List, [], ◌∷◌, ◌++◌, ltb, ◌==◌,
  if◌then◌else◌, length, take, drop, M, pure, stop, ◌>>=◌, call, Halt,
}
use vedruino.Ip.Addr.{IpAddr, get_sockaddr}
use vedruino.Ip.Sockets.{Sockets, Written, wrote, enomem, failed}

-- `MAX_RETRIES_ON_ENOMEM`
abbrev pub max_retries_on_enomem : ℕ
max_retries_on_enomem = 100

-- `pkSendStatus_t`
pub data SendStatus : Type 0 where
  send_retry send_err send_ok : SendStatus

-- The status, and `*retries` after the call: it is counted up only where `errno` is ENOMEM.
pub handle_send : ℕ → Written → SendStatus × ℕ
handle_send retries (wrote n) = (SendStatus.send_ok, retries)
handle_send retries enomem =
    if ltb retries max_retries_on_enomem
    then (SendStatus.send_retry, suc retries)
    else (SendStatus.send_err, suc retries)
handle_send retries failed = (SendStatus.send_err, retries)

-- `st == SEND_OK ? written : PK_SOCKERR`
abbrev bytes_written : Written → Option ℕ
bytes_written (wrote n) = some n
bytes_written _ = none

-- What a status leads to: another round with the new count, or the end of the loop.
after_send : {W : Type 0} → (ℕ → M W (Option ℕ)) → Written → SendStatus × ℕ → M W (Option ℕ)
after_send again written (SendStatus.send_retry, retries) = again retries
after_send again written (SendStatus.send_err, retries) = pure none
after_send again written (SendStatus.send_ok, retries) = pure (bytes_written written)

-- The `while (1)` of `pk_tcp_send` and `pk_udp_send`, over the call that each of them makes.
pub send_loop : {W : Type 0} → (W → Written × W) → (fuel retries : ℕ) → M W (Option ℕ)
unfolding handle_send after_send
send_loop op zero retries = stop Halt.out_of_fuel
send_loop op (suc f) retries = do
  written ← call op
  after_send (send_loop op f) written (handle_send retries written)

-- `handle_n_func`
abbrev handle_n_func : (processed exp : ℕ) → Bool
handle_n_func processed exp = processed == exp

-- The bytes of a read stand at the beginning of the buffer that it was given.
abbrev pub fill : List ℕ → List ℕ → List ℕ
fill buf bs = bs ++ drop (length bs) buf

module _ (s : Sockets) where
  unfoldable pub pk_tcp_send : (chd : ℕ) → List ℕ → M s.World (Option ℕ)
  unfolding send_loop
  pk_tcp_send chd buf = send_loop (s.write chd buf) (suc max_retries_on_enomem) 0

  unfoldable pub pk_udp_send : (hd : ℕ) → IpAddr → List ℕ → M s.World (Option ℕ)
  unfolding send_loop get_sockaddr
  pk_udp_send hd addr buf =
      send_loop (s.sendto hd buf (get_sockaddr addr)) (suc max_retries_on_enomem) 0

  sendn_next : (ℕ → M s.World Bool) → (total_sent : ℕ) → Option ℕ → M s.World Bool
  sendn_next rest total_sent none = pure false
  sendn_next rest total_sent (some sent) = rest (total_sent + sent)

  -- The rest of the buffer is `buf + total_sent`, of `n - total_sent` bytes.
  sendn_loop : (chd : ℕ) → List ℕ → (n fuel total_sent : ℕ) → M s.World Bool
  unfolding sendn_next
  sendn_loop chd buf n zero total_sent = stop Halt.out_of_fuel
  sendn_loop chd buf n (suc f) total_sent = elim (ltb total_sent n) [
    | false ↦ pure (handle_n_func total_sent n)
    | true ↦
        pk_tcp_send chd (take (n - total_sent) (drop total_sent buf))
        >>= sendn_next (sendn_loop chd buf n f) total_sent
  ]

  unfoldable pub pk_tcp_sendn : (chd : ℕ) → List ℕ → (n : ℕ) → M s.World Bool
  unfolding sendn_loop
  pk_tcp_sendn chd buf n = sendn_loop chd buf n (suc n) 0

  unfoldable pub pk_udp_sendn : (hd : ℕ) → IpAddr → List ℕ → M s.World Bool
  unfolding pk_udp_send
  pk_udp_sendn hd addr buf = do
    sent ← pk_udp_send hd addr buf
    elim sent [ none ↦ pure false | some k ↦ pure (handle_n_func k (length buf)) ]

  unfoldable pub pk_tcp_recv : (chd max_n : ℕ) → M s.World (Option (List ℕ))
  pk_tcp_recv chd max_n = call (s.read chd max_n)

  unfoldable pub pk_udp_recv : (hd max_n : ℕ) → M s.World (Option (List ℕ))
  pk_udp_recv hd max_n = call (s.recvfrom hd max_n)

  -- An error ends the call, the end of the stream ends the loop, and bytes are stored.
  recvn_next :
      (ℕ → List ℕ → M s.World (Bool × List ℕ))
      → (n total_rcv : ℕ) → List ℕ
      → Option (List ℕ)
      → M s.World (Bool × List ℕ)
  recvn_next rest n total_rcv buf none = pure (false, buf)
  recvn_next rest n total_rcv buf (some []) = pure (handle_n_func total_rcv n, buf)
  recvn_next rest n total_rcv buf (some (b ∷ bs)) =
      rest (total_rcv + length (b ∷ bs)) (fill buf (b ∷ bs))

  -- Each round reads to the beginning of `buf`, as the source does.
  recvn_loop : (chd n fuel total_rcv : ℕ) → List ℕ → M s.World (Bool × List ℕ)
  unfolding pk_tcp_recv recvn_next
  recvn_loop chd n zero total_rcv buf = stop Halt.out_of_fuel
  recvn_loop chd n (suc f) total_rcv buf = elim (ltb total_rcv n) [
    | false ↦ pure (handle_n_func total_rcv n, buf)
    | true ↦ pk_tcp_recv chd (n - total_rcv) >>= recvn_next (recvn_loop chd n f) n total_rcv buf
  ]

  -- The result, and the buffer behind the call.
  unfoldable pub pk_tcp_recvn : (chd : ℕ) → List ℕ → (n : ℕ) → M s.World (Bool × List ℕ)
  unfolding recvn_loop
  pk_tcp_recvn chd buf n = recvn_loop chd n (suc n) 0 buf

  unfoldable pub pk_udp_recvn : (hd : ℕ) → List ℕ → (n : ℕ) → M s.World (Bool × List ℕ)
  unfolding pk_udp_recv
  pk_udp_recvn hd buf n = do
    rcv ← pk_udp_recv hd n
    elim rcv [
      | none ↦ pure (false, buf)
      | some bs ↦ pure (handle_n_func (length bs) n, fill buf bs)
    ]
