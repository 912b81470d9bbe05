-- ===== src/Misc/Size.antt =====
-- What `pk_hum_size` of src/lib/misc.c gives.
use vedruino.Base.{
  ℕ, zero, suc, ◌+◌, ◌≤◌, ◌<◌, ◌≡◌, refl, ap, ◌∙◌, ◌⊎◌, inl, inr, true, false, Bool-cases, Option,
  some, [], ◌∷◌, arith, ltb, ltb→lt, ltb_false→le, get_elem?, get_elem?-some,
}
use vedruino.Misc.{Float, sufs, last_suf, hum_loop, scale, suffix, pk_hum_size}

module _ (float : Float) where
  -- `i` divisions by 1024.
  abbrev pub divided : ℕ → float.Value → float.Value
  divided zero size = size
  divided (suc i) size = divided i (float.div_1024 size)

  -- The number of divisions is the least that makes the size at most 1024 (or a NaN), or it is 8 and no
  -- less would do.
  abbrev pub IsScaled : float.Value → ℕ → Type 0
  IsScaled size i =
      (i ≤ last_suf)
      × ((j : ℕ) → j < i → float.above_1024 (divided j size) ≡ true)
      × ((float.above_1024 (divided i size) ≡ false) ⊎ (i ≡ last_suf))

  abbrev ScaledFrom : (k : ℕ) → float.Value → Option (float.Value × ℕ) → Type 0
  ScaledFrom k size r =
      (i : ℕ) × (k + i ≤ last_suf)
      × ((j : ℕ) → j < i → float.above_1024 (divided j size) ≡ true)
      × ((float.above_1024 (divided i size) ≡ false) ⊎ (k + i ≡ last_suf))
      × (r ≡ some (divided i size, k + i))

  hum_loop-ScaledFrom :
      (fuel k : ℕ) (size : float.Value)
      → fuel + k ≡ suc last_suf
      → k ≤ last_suf
      → ScaledFrom k size (hum_loop float fuel size k)
  unfolding hum_loop
  hum_loop-ScaledFrom zero k size e le = absurd (omega (arith, e, le))
  hum_loop-ScaledFrom (suc fuel) k size e le = elim (Bool-cases (float.above_1024 size)) [
    | inr small ↦ (
      0,
      omega (arith, le),
      (λ j lt. absurd (omega (arith, lt))),
      inl small,
      rw small (let z : k ≡ k + 0 = omega arith in ap (λ n. some (size, n)) z),
    )
    | inl above ↦ elim (Bool-cases (ltb k last_suf)) [
      | inr last ↦ (
        0,
        omega (arith, le),
        (λ j lt. absurd (omega (arith, lt))),
        inr (omega (arith, le, ltb_false→le k last_suf last)),
        rw (above, last) (let z : k ≡ k + 0 = omega arith in ap (λ n. some (size, n)) z),
      )
      | inl before ↦
          let (i, le', more, small, f) =
            hum_loop-ScaledFrom fuel (suc k) (float.div_1024 size) (omega (arith, e))
              (omega (arith, ltb→lt k last_suf before)) in
          (
            suc i,
            omega (arith, le'),
            earlier above i more,
            elim small [ inl s ↦ inl s | inr n ↦ inr (omega (arith, n)) ],
            rw (above, before)
                (f
                  ∙ (let z : suc k + i ≡ k + suc i = omega arith in
                      ap (λ n. some (divided i (float.div_1024 size), n)) z)),
          )
    ]
  ]
    where
      earlier :
          float.above_1024 size ≡ true
          → (i : ℕ) → ((j : ℕ) → j < i → float.above_1024 (divided j (float.div_1024 size)) ≡ true)
          → (j : ℕ) → j < suc i
          → float.above_1024 (divided j size) ≡ true
      earlier above i more zero lt = above
      earlier above i more (suc j) lt = more j (omega (arith, lt))

  suffix-some :
      (v : float.Value) (n c : ℕ)
      → get_elem? sufs n ≡ some c
      → suffix float (some (v, n)) ≡ some (v, c ∷ b'i' ∷ 0 ∷ [])
  unfolding suffix
  suffix-some v n c e = rw (e, suffix) refl

  -- What the loop gives, with its suffix.
  abbrev WithSuffix : float.Value → Option (float.Value × ℕ) → Type 0
  WithSuffix size r =
      (i : ℕ) × (c : ℕ) × IsScaled size i
      × (get_elem? sufs i ≡ some c)
      × (suffix float r ≡ some (divided i size, c ∷ b'i' ∷ 0 ∷ []))

  ScaledFrom-WithSuffix :
      (size : float.Value) (r : Option (float.Value × ℕ)) → ScaledFrom 0 size r → WithSuffix size r
  ScaledFrom-WithSuffix size r (i, le, more, small, e) =
      let (c, at) = get_elem?-some sufs i (omega (arith, le)) in
      let z : 0 + i ≡ i = omega arith in
      (
        i,
        c,
        (omega (arith, le), more, elim small [ inl s ↦ inl s | inr n ↦ inr (omega (arith, n)) ]),
        at,
        ap (suffix float) (e ∙ ap (λ n. some (divided i size, n)) z)
            ∙ suffix-some (divided i size) i c at,
      )

  -- `pk_hum_size` returns for every size. An infinite size is given back with the suffix that stands for
  -- bytes. Else the result is the size divided by 1024 as often as `IsScaled` says, and the suffix is the
  -- one of that power, read inside `sufs`, with 'i' and a NUL.
  pub pk_hum_size-IsScaled :
      (size : float.Value)
      → ((float.is_infinite size ≡ true)
          × (pk_hum_size float size ≡ some (size, 0 ∷ b'i' ∷ 0 ∷ [])))
        ⊎ ((i : ℕ) × (c : ℕ) × IsScaled size i
            × (get_elem? sufs i ≡ some c)
            × (pk_hum_size float size ≡ some (divided i size, c ∷ b'i' ∷ 0 ∷ [])))
  unfolding pk_hum_size scale suffix
  pk_hum_size-IsScaled size = elim (Bool-cases (float.is_infinite size)) [
    | inl infinite ↦ inl (infinite, rw infinite refl)
    | inr finite ↦
        let (i, c, scaled, at, e) =
          ScaledFrom-WithSuffix size (hum_loop float (suc last_suf) size 0)
            (hum_loop-ScaledFrom (suc last_suf) 0 size (omega arith) (omega arith)) in
        inr (i, c, scaled, at, rw finite e)
  ]
