-- ===== src/Ip/Stream/Fragments.antt =====
-- `pk_tcp_recvn` of src/lib/ip.c on a message that comes in one piece, and in two. The source passes
-- `buf` and not `buf + total_rcv` to each read, so the second piece overwrites the first.
use vedruino.Base.{
  ℕ, zero, suc, ◌+◌, ◌-◌, ◌≤◌, ◌<◌, ◌≡◌, refl, ap, ◌∙◌, true, some, List, [], ◌∷◌, arith, lt→ltb,
  length, take, take-append, done, Returns,
}
use vedruino.Ip.Sockets.{Sockets}
use vedruino.Ip.Stream.{fill, recvn_next, recvn_loop, pk_tcp_recvn}

module _ (s : Sockets) (fd n : ℕ) where
  recvn_loop_round :
      (f total : ℕ) (buf bs : List ℕ) (w : s.World)
      → total < n
      → 0 < length bs
      → (s.read fd (n - total) w).0 ≡ some bs
      → recvn_loop s fd n (suc f) total buf w
        ≡ recvn_loop s fd n f (total + length bs) (fill buf bs) (s.read fd (n - total) w).1
  unfolding recvn_loop recvn_next
  recvn_loop_round f total buf [] w lt pos e = absurd (omega arith)
  recvn_loop_round f total buf (b ∷ bs) w lt pos e =
      rw (lt→ltb total n lt, recvn_loop) (rw (e, recvn_next))

  recvn_loop_full :
      (f : ℕ) (buf : List ℕ) (w : s.World)
      → 0 < f
      → recvn_loop s fd n f n buf w ≡ done (true, buf) w
  unfolding recvn_loop
  recvn_loop_full zero buf w h = absurd (omega arith)
  recvn_loop_full (suc f) buf w h = ground arith

  from_start :
      (buf : List ℕ) (w : s.World) → pk_tcp_recvn s fd buf n w ≡ recvn_loop s fd n (suc n) 0 buf w
  unfolding pk_tcp_recvn
  from_start buf w = refl

  -- The first read of the call is of `n` bytes.
  first_round :
      (buf bs : List ℕ) (w : s.World)
      → 0 < length bs
      → length bs ≤ n
      → (s.read fd n w).0 ≡ some bs
      → pk_tcp_recvn s fd buf n w ≡ recvn_loop s fd n n (length bs) (fill buf bs) (s.read fd n w).1
  first_round buf bs w pos le e =
      let all : n - 0 ≡ n = omega arith in
      let count : 0 + length bs ≡ length bs = omega arith in
      let round = recvn_loop_round n 0 buf bs w (omega arith) pos (rw all e) in
      from_start buf w ∙ (rw (all, count) at round)

  -- Where `n` is not 0 and the first read delivers all `n` bytes, `pk_tcp_recvn` returns true after
  -- that one read, and the bytes stand at the beginning of the buffer.
  pub pk_tcp_recvn_whole :
      (buf bs : List ℕ) (w : s.World)
      → 0 < n
      → length bs ≡ n
      → (s.read fd n w).0 ≡ some bs
      → pk_tcp_recvn s fd buf n w ≡ done (true, fill buf bs) (s.read fd n w).1
  pk_tcp_recvn_whole buf bs w pos len e =
      first_round buf bs w (omega arith) (omega arith) e
      ∙ ap (λ t. recvn_loop s fd n n t (fill buf bs) (s.read fd n w).1) len
      ∙ recvn_loop_full n (fill buf bs) (s.read fd n w).1 pos

  -- Where `n` bytes come in two reads, neither of them empty, `pk_tcp_recvn` returns true, and the
  -- buffer begins with the bytes of the second read.
  pub pk_tcp_recvn_split :
      (buf bs cs : List ℕ) (w : s.World)
      → 0 < length bs
      → 0 < length cs
      → length bs + length cs ≡ n
      → (s.read fd n w).0 ≡ some bs
      → (s.read fd (n - length bs) (s.read fd n w).1).0 ≡ some cs
      → Returns (λ (ok, b) _. (ok ≡ true) × (take (length cs) b ≡ cs)) (pk_tcp_recvn s fd buf n w)
  pk_tcp_recvn_split buf bs cs w posb posc len e e' =
      let round =
        recvn_loop_round (n - 1) (length bs) (fill buf bs) cs (s.read fd n w).1 (omega arith) posc
          e' in
      let fuel : suc (n - 1) ≡ n = omega arith in
      rw (first_round buf bs w posb (omega arith) e ∙ (rw fuel at round), len)
        (rw (recvn_loop_full (n - 1) (fill (fill buf bs) cs) _ (omega arith))
          (refl, take-append cs _))
