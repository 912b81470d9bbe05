-- ===== src/Mqtt/Topic.antt =====
-- The topics of src/lib/mqtt.c and mqtt.h, their order, and the calls of the C library that sort and
-- search them, as a parameter.
use Prim.Native.Nat.{compare, Ordering}
use mathlib.Core.List.{Mem, Perm}
use vedruino.Base.{ℕ, ◌≡◌, refl, ◌≢◌, Option, none, some, List, [], ◌∷◌, arith}

-- `pkTopic_t`: `none` is the callback NULL.
pub record Topic : Type 0 where
  pub name : List ℕ
  pub callback : Option ℕ
  pub qos : ℕ

-- The sign of `strcmp`, on texts without the closing NUL.
unfoldable pub strcmp : List ℕ → List ℕ → Ordering
strcmp [] [] = Ordering.eq
strcmp [] (y ∷ ys) = Ordering.lt
strcmp (x ∷ xs) [] = Ordering.gt
strcmp (x ∷ xs) (y ∷ ys) = elim (compare x y) [
  | Ordering.lt ↦ Ordering.lt
  | Ordering.gt ↦ Ordering.gt
  | Ordering.eq ↦ strcmp xs ys
]

unfoldable pub topic_pair_cmp : Topic → Topic → Ordering
unfolding strcmp
topic_pair_cmp a b = strcmp a.name b.name

-- In the order of `topic_pair_cmp`, each element against the next one.
abbrev pub IsSorted : List Topic → Type 0
IsSorted [] = Unit {0}
IsSorted (a ∷ []) = Unit {0}
IsSorted (a ∷ b ∷ ts) = (topic_pair_cmp a b ≢ Ordering.gt) × IsSorted (b ∷ ts)

-- `qsort` and `bsearch` with `topic_pair_cmp`, as the C standard describes them: the array is sorted and
-- holds the same elements, and an element that compares equal is found if the array is sorted and has
-- one.
pub record Sorting : Type 0 where
  pub qsort : List Topic → List Topic
  pub bsearch : Topic → List Topic → Option Topic
  pub qsort_perm : (ts : List Topic) → Perm (qsort ts) ts
  pub qsort_sorted : (ts : List Topic) → IsSorted (qsort ts)
  pub bsearch_some :
      (key t : Topic) (ts : List Topic)
      → bsearch key ts ≡ some t
      → Mem t ts × (topic_pair_cmp key t ≡ Ordering.eq)
  pub bsearch_none :
      (key t : Topic) (ts : List Topic)
      → IsSorted ts
      → bsearch key ts ≡ none
      → Mem t ts
      → topic_pair_cmp key t ≢ Ordering.eq

pub strcmp-eq : (xs ys : List ℕ) → strcmp xs ys ≡ Ordering.eq → xs ≡ ys
unfolding strcmp
strcmp-eq [] [] e = refl
strcmp-eq [] (y ∷ ys) e = cc
strcmp-eq (x ∷ xs) [] e = cc
strcmp-eq (x ∷ xs) (y ∷ ys) e = ground (arith, e, strcmp-eq xs ys)

pub strcmp_refl : (xs : List ℕ) → strcmp xs xs ≡ Ordering.eq
unfolding strcmp
strcmp_refl [] = refl
strcmp_refl (x ∷ xs) = ground (arith, strcmp_refl xs)

-- What compares as greater compares as less the other way round.
pub strcmp-gt : (xs ys : List ℕ) → strcmp xs ys ≡ Ordering.gt → strcmp ys xs ≢ Ordering.gt
unfolding strcmp
strcmp-gt [] [] e = cc
strcmp-gt [] (y ∷ ys) e = cc
strcmp-gt (x ∷ xs) [] e = λ z. cc
strcmp-gt (x ∷ xs) (y ∷ ys) e = ground (arith, e, strcmp-gt xs ys)
