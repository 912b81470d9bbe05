-- ===== src/Ip/Stream/Keeps.antt =====
-- What each read or write keeps, the calls of src/lib/ip.c that are made of these keep too; and they
-- return.
use vedruino.Base.{
  ℕ, zero, suc, ◌+◌, ◌-◌, ◌≤◌, ◌<◌, ◌≡◌, refl, ap, inl, inr, Bool, Option, none, some, List, [],
  ◌∷◌, arith, ltb, ltb→lt, Bool-cases, length, take, drop, length-take, length-drop, M, Returns,
  bind-Returns,
}
use vedruino.Ip.Sockets.{Sockets, Progresses}
use vedruino.Ip.Stream.{
  max_retries_on_enomem, pk_tcp_send, sendn_next, sendn_loop, pk_tcp_sendn, recvn_next, recvn_loop,
  pk_tcp_recvn,
}
use vedruino.Ip.Stream.Send.{send_loop-Returns}

module _ (s : Sockets) (I : s.World → Type 0) (fd : ℕ) where
  module _ (read_keeps : (n : ℕ) (w : s.World) → I w → I (s.read fd n w).1) (n : ℕ) where
    recvn_next-keeps :
        (total : ℕ) (buf : List ℕ) (w : s.World) (rest : ℕ → List ℕ → M s.World (Bool × List ℕ))
        → ((t : ℕ) (b : List ℕ) → total < t → Returns (λ _ v. I v) (rest t b w))
        → (r : Option (List ℕ)) → I w
        → Returns (λ _ v. I v) (recvn_next s rest n total buf r w)
    unfolding recvn_next
    recvn_next-keeps total buf w rest again none i = i
    recvn_next-keeps total buf w rest again (some []) i = i
    recvn_next-keeps total buf w rest again (some (b ∷ bs)) i = again _ _ (omega arith)

    recvn_loop-keeps :
        (f total : ℕ) (buf : List ℕ) (w : s.World)
        → 0 < f
        → n < f + total
        → I w
        → Returns (λ _ v. I v) (recvn_loop s fd n f total buf w)
    unfolding recvn_loop
    recvn_loop-keeps zero total buf w pos fuel i = absurd (omega arith)
    recvn_loop-keeps (suc f) total buf w pos fuel i = elim (Bool-cases (ltb total n)) [
      | inr over ↦ rw (over, Returns) i
      | inl more ↦
          rw (more, Returns)
            (recvn_next-keeps total buf (s.read fd (n - total) w).1 (recvn_loop s fd n f)
              (λ t b lt.
                recvn_loop-keeps f t b (s.read fd (n - total) w).1
                  (omega (arith, ltb→lt total n more)) (omega arith) (read_keeps (n - total) w i))
              (s.read fd (n - total) w).0 (read_keeps (n - total) w i))
    ]

    -- `pk_tcp_recvn` returns, and keeps what every read keeps.
    pub pk_tcp_recvn-keeps :
        (buf : List ℕ) (w : s.World) → I w → Returns (λ _ v. I v) (pk_tcp_recvn s fd buf n w)
    unfolding pk_tcp_recvn
    pk_tcp_recvn-keeps buf w i = recvn_loop-keeps (suc n) 0 buf w (omega arith) (omega arith) i

  module _ (write_keeps : (bs : List ℕ) (w : s.World) → I w → I (s.write fd bs w).1)
      (progresses : Progresses s) where
    -- Some bytes have gone out of a buffer that is not empty.
    abbrev IsProgress : List ℕ → Option ℕ → Type 0
    IsProgress buf r = r ≡ some 0 → buf ≡ []

    pk_tcp_send-keeps :
        (buf : List ℕ) (w : s.World)
        → I w
        → Returns (λ r v. I v × IsProgress buf r) (pk_tcp_send s fd buf w)
    unfolding pk_tcp_send
    pk_tcp_send-keeps buf w i =
        send_loop-Returns (s.write fd buf) I (λ r v. I v × IsProgress buf r)
          (λ v k i e. (write_keeps buf v i, λ z. progresses fd buf v (cc)))
          (λ v i e. write_keeps buf v i) (λ v i e. write_keeps buf v i) (λ v i. (i, λ z. cc))
          (suc max_retries_on_enomem) 0 w (omega arith) (omega arith) i

    module _ (buf : List ℕ) (n : ℕ) (n_le : n ≤ length buf) where
      sendn_next-keeps :
          (total : ℕ) (rest : ℕ → M s.World Bool)
          → total < n
          → ((t : ℕ) (v : s.World) → total < t → I v → Returns (λ _ v'. I v') (rest t v))
          → (r : Option ℕ) (v : s.World) → I v × IsProgress (take (n - total) (drop total buf)) r
          → Returns (λ _ v'. I v') (sendn_next s rest total r v)
      unfolding sendn_next
      sendn_next-keeps total rest lt again none v p = p.0
      sendn_next-keeps total rest lt again (some zero) v p = absurd (
          omega (
            arith,
            length-take (n - total) (drop total buf),
            length-drop total buf,
            ap length (p.1 refl),
          ))
      sendn_next-keeps total rest lt again (some (suc k)) v p =
          again (total + suc k) v (omega arith) p.0

      sendn_loop-keeps :
          (f total : ℕ) (w : s.World)
          → 0 < f
          → n < f + total
          → I w
          → Returns (λ _ v. I v) (sendn_loop s fd buf n f total w)
      unfolding sendn_loop
      sendn_loop-keeps zero total w pos fuel i = absurd (omega arith)
      sendn_loop-keeps (suc f) total w pos fuel i = elim (Bool-cases (ltb total n)) [
        | inr over ↦ rw (over, Returns) i
        | inl more ↦
            rw (more, Returns)
              (bind-Returns _ (λ _ v. I v) (pk_tcp_send s fd (take (n - total) (drop total buf)) w)
                _ (pk_tcp_send-keeps (take (n - total) (drop total buf)) w i)
                (sendn_next-keeps total (sendn_loop s fd buf n f) (ltb→lt _ _ more) (λ t v lt.
                  sendn_loop-keeps f t v (omega (arith, ltb→lt total n more)) (omega arith))))
      ]

      -- `pk_tcp_sendn` returns where `write` makes progress, and keeps what every write keeps.
      pub pk_tcp_sendn-keeps :
          (w : s.World) → I w → Returns (λ _ v. I v) (pk_tcp_sendn s fd buf n w)
      unfolding pk_tcp_sendn
      pk_tcp_sendn-keeps w i = sendn_loop-keeps (suc n) 0 w (omega arith) (omega arith) i
