-- ===== src/Misc.antt =====
-- src/lib/misc.c, and src/lib/mdns.c.
pub mod Size
pub mod Mdns
pub mod Labels
pub mod Tests
use vedruino.Base.{
  ℕ, zero, suc, ◌+◌, ◌<◌, ◌≡◌, refl, Bool, true, false, not, ◌&&◌, Option, none, some, List, [],
  ◌∷◌, ltb, get_elem?, if◌then◌else◌,
}

-- The operations on `float` that `pk_hum_size` uses: the tests `size > 1024.f` and `size == INFINITY`, and
-- the division by 1024. A NaN is neither.
pub record Float : Type 1 where
  pub Value : Type 0
  pub above_1024 : Value → Bool
  pub is_infinite : Value → Bool
  pub div_1024 : Value → Value

-- `sufs`, with the zero that closes the literal.
abbrev pub sufs : List ℕ
sufs = 0 ∷ b'K' ∷ b'M' ∷ b'G' ∷ b'T' ∷ b'P' ∷ b'E' ∷ b'Z' ∷ b'Y' ∷ 0 ∷ []

-- `sizeof(sufs) - 2`
abbrev pub last_suf : ℕ
last_suf = 8

module _ (float : Float) where
  -- The loop, with fuel for its rounds; `none` where the fuel is used up.
  hum_loop : (fuel : ℕ) → float.Value → (suf_i : ℕ) → Option (float.Value × ℕ)
  hum_loop zero size suf_i = none
  hum_loop (suc fuel) size suf_i =
      let rest = hum_loop fuel (float.div_1024 size) (suc suf_i) in
      if float.above_1024 size && ltb suf_i last_suf then rest else some (size, suf_i)

  scale : Bool → float.Value → Option (float.Value × ℕ)
  unfolding hum_loop
  scale true size = some (size, 0)
  scale false size = hum_loop (suc last_suf) size 0

  suffix : Option (float.Value × ℕ) → Option (float.Value × List ℕ)
  suffix none = none
  suffix (some (size, suf_i)) = elim (get_elem? sufs suf_i) [
    | none ↦ none
    | some c ↦ some (size, c ∷ b'i' ∷ 0 ∷ [])
  ]

  -- The test `size != NAN` always holds, since a NaN is equal to nothing. The result is `*out_f` and
  -- `out_suf`; a read of `sufs` out of bounds would be `none`.
  unfoldable pub pk_hum_size : float.Value → Option (float.Value × List ℕ)
  unfolding scale suffix
  pk_hum_size size = suffix (scale (float.is_infinite size) size)
