-- ===== src/Ip/Stream/Recv.antt =====
-- What `pk_tcp_recvn` of src/lib/ip.c takes from the stream, and what it leaves in the buffer.
use mathlib.Core.List.{append_assoc}
use vedruino.Base.{
  ℕ, zero, suc, ◌+◌, ◌-◌, ◌≤◌, ◌<◌, ◌≡◌, ◌≢◌, refl, sym, ap, ◌∙◌, ◌↔◌, ◌⊎◌, inl, inr, Bool, true,
  Option, none, some, List, [], ◌∷◌, ◌++◌, arith, ltb, ltb→lt, Bool-cases, length, length-append, M,
  Returns, Returns-mono,
}
use vedruino.Ip.Sockets.{Sockets, IsStream}
use vedruino.Ip.Stream.{fill, recvn_next, recvn_loop, pk_tcp_recvn}

-- The bytes that a row of reads delivers.
unfoldable pub joined : List (List ℕ) → List ℕ
joined [] = []
joined (c ∷ cs) = c ++ joined cs

-- The buffer after each of them was stored at its beginning.
pub overlay : List ℕ → List (List ℕ) → List ℕ
overlay buf [] = buf
overlay buf (c ∷ cs) = overlay (fill buf c) cs

module _ (s : Sockets) (fd n : ℕ) where
  -- What a read gives where the loop stops: it fails, or the peer has closed the connection.
  abbrev pub IsLast : Option (List ℕ) → Type 0
  IsLast r = (r ≡ none) ⊎ (r ≡ some [])

  -- The loop with `total` bytes received reads from `w` on exactly the pieces `cs`, and ends in `w'`: each
  -- read asks for the bytes that are missing, and none follows once no byte is missing or a read was the
  -- last.
  abbrev pub Reads : (total : ℕ) → s.World → List (List ℕ) → s.World → Type 0
  Reads total w [] w' =
      ((n ≤ total) × (w' ≡ w))
      ⊎ ((total < n) × IsLast (s.read fd (n - total) w).0 × (w' ≡ (s.read fd (n - total) w).1))
  Reads total w (c ∷ cs) w' =
      (total < n)
      × (c ≢ [])
      × ((s.read fd (n - total) w).0 ≡ some c)
      × Reads (total + length c) (s.read fd (n - total) w).1 cs w'

module _ (s : Sockets) (st : IsStream s) (fd n : ℕ) where
  -- A loop that began with `total` bytes received has read the pieces `cs`.
  abbrev pub RecvN : (total : ℕ) → List ℕ → s.World → Bool × List ℕ → s.World → Type 0
  RecvN total buf w (ok, buf') w' =
      (cs : List (List ℕ)) × (st.inbox w fd ≡ joined cs ++ st.inbox w' fd)
      × (total + length (joined cs) ≤ n)
      × (buf' ≡ overlay buf cs)
      × ((ok ≡ true) ↔ (total + length (joined cs) ≡ n))
      × Reads s fd n total w cs w'

  recvn_next-RecvN :
      (total : ℕ) (buf : List ℕ) (w : s.World) (rest : ℕ → List ℕ → M s.World (Bool × List ℕ))
      → total < n
      → ((t : ℕ) (b : List ℕ) (v : s.World)
          → total < t
          → t ≤ n
          → Returns (RecvN t b v) (rest t b v))
      → (r : Option (List ℕ)) → (s.read fd (n - total) w).0 ≡ r
      → Returns (RecvN total buf w) (recvn_next s rest n total buf r (s.read fd (n - total) w).1)
  unfolding recvn_next joined overlay
  recvn_next-RecvN total buf w rest lt again none e = (
    [],
    sym (st.read_none fd (n - total) w e),
    omega arith,
    refl,
    ((λ z. cc), λ z. absurd (omega arith)),
    inr (lt, inl e, refl),
  )
  recvn_next-RecvN total buf w rest lt again (some []) e = (
    [],
    (st.read_some fd (n - total) [] w e).1,
    omega arith,
    refl,
    ground arith,
    inr (lt, inr e, refl),
  )
  recvn_next-RecvN total buf w rest lt again (some (b ∷ bs)) e =
      Returns-mono (RecvN (total + length (b ∷ bs)) (fill buf (b ∷ bs)) v) (RecvN total buf w)
        (rest (total + length (b ∷ bs)) (fill buf (b ∷ bs)) v)
        (again (total + length (b ∷ bs)) (fill buf (b ∷ bs)) v (omega arith) (omega (arith, got.0)))
        (λ (ok, buf') w' (cs, read, le, filled, complete, reads). (
          (b ∷ bs) ∷ cs,
          got.1 ∙ ap (◌++◌ (b ∷ bs)) read ∙ sym (append_assoc (b ∷ bs) (joined cs) _),
          omega (arith, le, length-append (b ∷ bs) (joined cs)),
          filled,
          (
            (λ z. omega (arith, complete.0 z, length-append (b ∷ bs) (joined cs))),
            λ z. complete.1 (omega (arith, z, length-append (b ∷ bs) (joined cs))),
          ),
          (lt, (λ z. cc), e, reads),
        ))
    where
      v : s.World
      v = (s.read fd (n - total) w).1

      got : (length (b ∷ bs) ≤ n - total) × (st.inbox w fd ≡ (b ∷ bs) ++ st.inbox v fd)
      got = st.read_some fd (n - total) (b ∷ bs) w e

  recvn_loop-RecvN :
      (f total : ℕ) (buf : List ℕ) (w : s.World)
      → total ≤ n
      → n < f + total
      → Returns (RecvN total buf w) (recvn_loop s fd n f total buf w)
  unfolding recvn_loop joined overlay
  recvn_loop-RecvN zero total buf w le fuel = absurd (omega arith)
  recvn_loop-RecvN (suc f) total buf w le fuel = elim (Bool-cases (ltb total n)) [
    | inr over ↦
        rw (over, Returns)
          ([], refl, omega arith, refl, ground arith, inl (ground (arith, over), refl))
    | inl more ↦
        rw (more, Returns)
          (recvn_next-RecvN total buf w (recvn_loop s fd n f) (ltb→lt _ _ more)
            (λ t b v lt le. recvn_loop-RecvN f t b v le (omega arith)) (s.read fd (n - total) w).0
            refl)
  ]

  -- `pk_tcp_recvn` returns. The pieces that its reads gave are not empty, and lie one behind the other at
  -- the front of the stream; each read asked for the bytes that were missing, and the reads stopped once
  -- there were `n` bytes, or one failed or gave nothing. True is returned exactly if there are `n` bytes.
  -- The buffer is what it was, with the piece of each read written over its beginning in turn.
  pub pk_tcp_recvn-RecvN :
      (buf : List ℕ) (w : s.World) → Returns (RecvN 0 buf w) (pk_tcp_recvn s fd buf n w)
  unfolding pk_tcp_recvn
  pk_tcp_recvn-RecvN buf w = recvn_loop-RecvN (suc n) 0 buf w (omega arith) (omega arith)
