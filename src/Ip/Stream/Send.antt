-- ===== src/Ip/Stream/Send.antt =====
-- What `pk_tcp_send` and `pk_tcp_sendn` of src/lib/ip.c put into the stream, and that they return.
use mathlib.Core.List.{append_assoc, append-nil}
use vedruino.Base.{
  ℕ, zero, suc, ◌+◌, ◌-◌, ◌≤◌, ◌<◌, ◌≡◌, refl, ◌∙◌, ◌↔◌, ◌⊎◌, inl, inr, Bool, true, Option, none,
  some, List, ◌++◌, arith, ltb, Bool-cases, length, take, drop, take-drop, length-drop, length-take,
  take-take, [], sym, ap, ltb→lt, M, done, Returns, bind-Returns,
}
use vedruino.Ip.Addr.{IpAddr, get_sockaddr}
use vedruino.Ip.Sockets.{Sockets, IsStream, Progresses, Written, wrote, enomem, failed}
use vedruino.Ip.Stream.{
  max_retries_on_enomem, handle_send, after_send, send_loop, pk_tcp_send, pk_udp_send, sendn_next,
  sendn_loop, pk_tcp_sendn,
}

Written-cases : (r : Written) → ((k : ℕ) × (r ≡ wrote k)) ⊎ ((r ≡ enomem) ⊎ (r ≡ failed))
Written-cases (wrote k) = inl (k, refl)
Written-cases enomem = inr (inl refl)
Written-cases failed = inr (inr refl)

-- The rule of the retry loop: `I` holds before each call of `op`, and `P` of what is returned.
module _ {W : Type 0} (op : W → Written × W) (I : W → Type 0) (P : Option ℕ → W → Type 0)
    (on_wrote : (w : W) (k : ℕ) → I w → (op w).0 ≡ wrote k → P (some k) (op w).1)
    (on_enomem : (w : W) → I w → (op w).0 ≡ enomem → I (op w).1)
    (on_failed : (w : W) → I w → (op w).0 ≡ failed → I (op w).1)
    (gives_up : (w : W) → I w → P none w) where
  after_send-Returns :
      (f retries : ℕ) (w : W) (r : Written)
      → (op w).0 ≡ r
      → ((retries' : ℕ)
          → retries' ≤ max_retries_on_enomem
          → retries' ≡ suc retries
          → I (op w).1
          → Returns P (send_loop op f retries' (op w).1))
      → I w
      → Returns P (after_send (send_loop op f) r (handle_send retries r) (op w).1)
  unfolding after_send handle_send
  after_send-Returns f retries w (wrote k) e again i = on_wrote w k i e
  after_send-Returns f retries w failed e again i = gives_up (op w).1 (on_failed w i e)
  after_send-Returns f retries w enomem e again i =
      elim (Bool-cases (ltb retries max_retries_on_enomem)) [
        | inl more ↦
            rw (more, Returns) (again (suc retries) (ltb→lt _ _ more) refl (on_enomem w i e))
        | inr over ↦ rw (over, Returns) (gives_up (op w).1 (on_enomem w i e))
      ]

  pub send_loop-Returns :
      (f retries : ℕ) (w : W)
      → max_retries_on_enomem < f + retries
      → retries ≤ max_retries_on_enomem
      → I w
      → Returns P (send_loop op f retries w)
  unfolding send_loop
  send_loop-Returns zero retries w h r i = absurd (omega arith)
  send_loop-Returns (suc f) retries w h r i =
      after_send-Returns f retries w (op w).0 refl
        (λ r' le e. send_loop-Returns f r' (op w).1 (omega arith) le) i

-- A send whose first try is taken.
send_loop-wrote :
    {W : Type 0} (op : W → Written × W) (f n : ℕ) (w : W)
    → (op w).0 ≡ wrote n
    → send_loop op (suc f) 0 w ≡ done (some n) (op w).1
unfolding send_loop handle_send after_send
send_loop-wrote op f n w e = rw e refl

module _ (s : Sockets) where
  pub pk_tcp_send-wrote :
      (fd : ℕ) (bs : List ℕ) (n : ℕ) (w : s.World)
      → (s.write fd bs w).0 ≡ wrote n
      → pk_tcp_send s fd bs w ≡ done (some n) (s.write fd bs w).1
  unfolding pk_tcp_send
  pk_tcp_send-wrote fd bs n w e = send_loop-wrote (s.write fd bs) max_retries_on_enomem n w e

  pub pk_udp_send-wrote :
      (hd : ℕ) (a : IpAddr) (bs : List ℕ) (n : ℕ) (w : s.World)
      → (s.sendto hd bs (get_sockaddr a) w).0 ≡ wrote n
      → pk_udp_send s hd a bs w ≡ done (some n) (s.sendto hd bs (get_sockaddr a) w).1
  unfolding pk_udp_send
  pk_udp_send-wrote hd a bs n w e =
      send_loop-wrote (s.sendto hd bs (get_sockaddr a)) max_retries_on_enomem n w e

module _ (s : Sockets) (st : IsStream s) where
  -- What a call that sends the whole buffer or a part of it has done to the stream.
  abbrev pub Sent : (fd : ℕ) → List ℕ → s.World → Option ℕ → s.World → Type 0
  Sent fd buf w none w' = st.outbox w' fd ≡ st.outbox w fd
  Sent fd buf w (some k) w' = (k ≤ length buf) × (st.outbox w' fd ≡ st.outbox w fd ++ take k buf)

  -- `pk_tcp_send` returns, after at most MAX_RETRIES_ON_ENOMEM + 1 calls of `write`: with a number of
  -- bytes, and then just these bytes of the buffer, from its beginning, have been added to the stream,
  -- or with PK_SOCKERR, and then nothing has been added.
  pub pk_tcp_send-Sent :
      (fd : ℕ) (buf : List ℕ) (w : s.World) → Returns (Sent fd buf w) (pk_tcp_send s fd buf w)
  unfolding pk_tcp_send
  pk_tcp_send-Sent fd buf w =
      send_loop-Returns (s.write fd buf) (λ v. st.outbox v fd ≡ st.outbox w fd) (Sent fd buf w)
        (λ v k i e. rw (← i) (st.write_wrote fd k buf v e))
        (λ v i e. st.write_enomem fd buf v e ∙ i) (λ v i e. st.write_failed fd buf v e ∙ i)
        (λ v i. i) (suc max_retries_on_enomem) 0 w (omega arith) (omega arith) refl

  -- Bytes of a buffer that is not empty, where the stream makes progress.
  pk_tcp_send-progress :
      Progresses s
      → (fd : ℕ) (buf : List ℕ) (w : s.World)
      → Returns (λ r w'. Sent fd buf w r w' × (r ≡ some 0 → buf ≡ [])) (pk_tcp_send s fd buf w)
  unfolding pk_tcp_send
  pk_tcp_send-progress progresses fd buf w =
      send_loop-Returns (s.write fd buf) (λ v. st.outbox v fd ≡ st.outbox w fd)
        (λ r w'. Sent fd buf w r w' × (r ≡ some 0 → buf ≡ []))
        (λ v k i e. (rw (← i) (st.write_wrote fd k buf v e), λ z. progresses fd buf v (cc)))
        (λ v i e. st.write_enomem fd buf v e ∙ i) (λ v i e. st.write_failed fd buf v e ∙ i)
        (λ v i. (i, λ z. cc)) (suc max_retries_on_enomem) 0 w (omega arith) (omega arith) refl

  -- What `pk_tcp_sendn` has done: some number of bytes has gone out, all of them if it says so.
  abbrev pub SentN : (fd : ℕ) → List ℕ → ℕ → s.World → Bool → s.World → Type 0
  SentN fd buf n w ok w' =
      (k : ℕ) × (k ≤ n) × (st.outbox w' fd ≡ st.outbox w fd ++ take k buf) × ((ok ≡ true) ↔ (k ≡ n))

  module _ (progresses : Progresses s) (fd : ℕ) (buf : List ℕ) (n : ℕ) (n_le : n ≤ length buf)
      (w : s.World) where
    -- The loop's invariant: the first `total` bytes have gone out, and the fuel lasts.
    abbrev SentSoFar : ℕ → ℕ → s.World → Type 0
    SentSoFar f total v =
        (total ≤ n) × (n < f + total) × (st.outbox v fd ≡ st.outbox w fd ++ take total buf)

    sendn_next-SentN :
        (f total : ℕ) (v : s.World) (rest : ℕ → M s.World Bool)
        → SentSoFar (suc f) total v
        → total < n
        → ((t : ℕ) (v' : s.World) → SentSoFar f t v' → Returns (SentN fd buf n w) (rest t v'))
        → let chunk = take (n - total) (drop total buf) in
          (r : Option ℕ) (v' : s.World)
          → Sent fd chunk v r v' × (r ≡ some 0 → chunk ≡ [])
          → Returns (SentN fd buf n w) (sendn_next s rest total r v')
    unfolding sendn_next
    sendn_next-SentN f total v rest (le, fuel, e) lt again none v' p =
        (total, le, p.0 ∙ e, ((λ z. cc), λ z. absurd (omega arith)))
    sendn_next-SentN f total v rest (le, fuel, e) lt again (some k) v' ((k_le, sent), p) =
        again (total + k) v' (
          omega (arith, length-chunk),
          omega (arith, length-chunk, positive k p),
          rw (sent, e, append_assoc)
              (ap (◌++◌ (st.outbox w fd)) (
                rw (take-take k (n - total) (drop total buf) (omega (arith, length-chunk)))
                  (take-drop total k buf))),
        )
      where
        chunk : List ℕ
        chunk = take (n - total) (drop total buf)

        length-chunk : length chunk ≡ n - total
        length-chunk =
            omega (arith, length-take (n - total) (drop total buf), length-drop total buf)

        positive : (j : ℕ) → (some j ≡ some 0 → chunk ≡ []) → 0 < j
        positive zero empty = absurd (omega (arith, length-chunk, ap length (empty refl)))
        positive (suc j) empty = omega arith

    sendn_loop-SentN :
        (f total : ℕ) (v : s.World)
        → SentSoFar f total v
        → Returns (SentN fd buf n w) (sendn_loop s fd buf n f total v)
    unfolding sendn_loop
    sendn_loop-SentN zero total v (le, fuel, e) = absurd (omega arith)
    sendn_loop-SentN (suc f) total v inv = elim (Bool-cases (ltb total n)) [
      | inr over ↦ rw (over, Returns) (total, inv.0, inv.2, ground arith)
      | inl more ↦
          rw (more, Returns)
            (bind-Returns _ (SentN fd buf n w)
              (pk_tcp_send s fd (take (n - total) (drop total buf)) v) _
              (pk_tcp_send-progress progresses fd (take (n - total) (drop total buf)) v)
              (sendn_next-SentN f total v (sendn_loop s fd buf n f) inv (ltb→lt _ _ more)
                (sendn_loop-SentN f)))
    ]

    -- `pk_tcp_sendn`, for a buffer of at least `n` bytes and where every `write` of a buffer that
    -- is not empty takes a byte or fails: the call returns, the bytes that have gone out are a
    -- prefix of the first `n` bytes of the buffer, and it returns true exactly if these are all of
    -- the `n` bytes.
    pub pk_tcp_sendn-SentN : Returns (SentN fd buf n w) (pk_tcp_sendn s fd buf n w)
    unfolding pk_tcp_sendn
    pk_tcp_sendn-SentN =
        sendn_loop-SentN (suc n) 0 w (omega arith, omega arith, sym (append-nil (st.outbox w fd)))
