-- ===== src/Mqtt/Network.antt =====
-- A small platform for the tests: topics are sorted by insertion and searched one after the other, and
-- every call of ESP-IDF and FreeRTOS succeeds. It shows that the laws of `qsort` and `bsearch` can hold.
use Prim.Native.Nat.{Ordering}
use mathlib.Core.List.{
  Mem, Perm, mem-cons_self, mem-cons_of_mem, not-mem-nil, eq-or-mem_of_mem-cons,
}
use mathlib.Core.List.Perm
use mathlib.Core.Path.{subst}
use mathlib.Core.HLevel.{⊥_prop}
use mathlib.Core.Logic.Or
use mathlib.Core.Option.{some-injective, none-ne-some}
use vedruino.Base.{
  ℕ, suc, ℤ, ◌≡◌, refl, sym, ◌∙◌, ◌≢◌, ◌⊎◌, inl, inr, Bool, true, false, Option, none, some, List,
  [], ◌∷◌,
}
use vedruino.Mqtt.Topic.{Topic, topic_pair_cmp, IsSorted, Sorting, strcmp-gt}
use vedruino.Mqtt.Platform.{Platform}

abbrev is_gt : Ordering → Bool
is_gt Ordering.gt = true
is_gt _ = false

abbrev is_eq : Ordering → Bool
is_eq Ordering.eq = true
is_eq _ = false

insert : Topic → List Topic → List Topic
insert t [] = t ∷ []
insert t (u ∷ us) =
    let rest = insert t us in elim (topic_pair_cmp t u) [ Ordering.gt ↦ u ∷ rest | _ ↦ t ∷ u ∷ us ]

pub insertion_sort : List Topic → List Topic
unfolding insert
insertion_sort [] = []
insertion_sort (t ∷ ts) = insert t (insertion_sort ts)

pub linear_search : Topic → List Topic → Option Topic
linear_search key [] = none
linear_search key (t ∷ ts) =
    let rest = linear_search key ts in
    elim (topic_pair_cmp key t) [ Ordering.eq ↦ some t | _ ↦ rest ]

Ordering-cases : (o : Ordering) → (o ≡ Ordering.lt) ⊎ ((o ≡ Ordering.eq) ⊎ (o ≡ Ordering.gt))
Ordering-cases Ordering.lt = inl refl
Ordering-cases Ordering.eq = inr (inl refl)
Ordering-cases Ordering.gt = inr (inr refl)

insert-Perm : (t : Topic) (us : List Topic) → Perm (insert t us) (t ∷ us)
unfolding insert
insert-Perm t [] = Perm.refl (t ∷ [])
insert-Perm t (u ∷ us) = elim (Ordering-cases (topic_pair_cmp t u)) [
  | inl lt ↦ rw (lt, insert) (Perm.refl (t ∷ u ∷ us))
  | inr (inl eq) ↦ rw (eq, insert) (Perm.refl (t ∷ u ∷ us))
  | inr (inr gt) ↦ rw (gt, insert) (Perm.trans (Perm.cons u (insert-Perm t us)) (Perm.swap t u us))
]

pub insertion_sort-Perm : (ts : List Topic) → Perm (insertion_sort ts) ts
unfolding insertion_sort
insertion_sort-Perm [] = Perm.refl []
insertion_sort-Perm (t ∷ ts) =
    Perm.trans (insert-Perm t (insertion_sort ts)) (Perm.cons t (insertion_sort-Perm ts))

behind : (t v : Topic) → topic_pair_cmp t v ≡ Ordering.gt → topic_pair_cmp v t ≢ Ordering.gt
unfolding topic_pair_cmp
behind t v gt = strcmp-gt t.name v.name gt

-- An element that is not before the first one goes in behind it.
insert_behind :
    (u t : Topic) (us : List Topic)
    → IsSorted (u ∷ us)
    → topic_pair_cmp u t ≢ Ordering.gt
    → IsSorted (u ∷ insert t us)
unfolding insert
insert_behind u t [] s le = (le, tt)
insert_behind u t (v ∷ vs) s le = elim (Ordering-cases (topic_pair_cmp t v)) [
  | inl lt ↦ rw (lt, IsSorted, insert) (le, ((λ e. cc), s.1))
  | inr (inl eq) ↦ rw (eq, IsSorted, insert) (le, ((λ e. cc), s.1))
  | inr (inr gt) ↦ rw (gt, IsSorted, insert) (s.0, insert_behind v t vs s.1 (behind t v gt))
]

insert-IsSorted : (t : Topic) (us : List Topic) → IsSorted us → IsSorted (insert t us)
unfolding insert
insert-IsSorted t [] s = tt
insert-IsSorted t (u ∷ us) s = elim (Ordering-cases (topic_pair_cmp t u)) [
  | inl lt ↦ rw (lt, IsSorted, insert) ((λ e. cc), s)
  | inr (inl eq) ↦ rw (eq, IsSorted, insert) ((λ e. cc), s)
  | inr (inr gt) ↦ rw (gt, IsSorted, insert) (insert_behind u t us s (behind t u gt))
]

pub insertion_sort-IsSorted : (ts : List Topic) → IsSorted (insertion_sort ts)
unfolding insertion_sort
insertion_sort-IsSorted [] = tt
insertion_sort-IsSorted (t ∷ ts) =
    insert-IsSorted t (insertion_sort ts) (insertion_sort-IsSorted ts)

search_here :
    (key u : Topic) (us : List Topic)
    → topic_pair_cmp key u ≡ Ordering.eq
    → linear_search key (u ∷ us) ≡ some u
unfolding linear_search
search_here key u us eq = rw (eq, linear_search)

search_on :
    (key u : Topic) (us : List Topic)
    → topic_pair_cmp key u ≢ Ordering.eq
    → linear_search key (u ∷ us) ≡ linear_search key us
unfolding linear_search
search_on key u us ne = elim (Ordering-cases (topic_pair_cmp key u)) [
  | inl lt ↦ rw (lt, linear_search)
  | inr (inl eq) ↦ absurd (ne eq)
  | inr (inr gt) ↦ rw (gt, linear_search)
]

-- Whether two topics compare as equal.
eq-cases :
    (key u : Topic) → (topic_pair_cmp key u ≡ Ordering.eq) ⊎ (topic_pair_cmp key u ≢ Ordering.eq)
eq-cases key u = elim (Ordering-cases (topic_pair_cmp key u)) [
  | inl lt ↦ inr (λ e. absurd (lt-ne (sym lt ∙ e)))
  | inr (inl eq) ↦ inl eq
  | inr (inr gt) ↦ inr (λ e. absurd (gt-ne (sym gt ∙ e)))
]
  where
    lt-ne : Ordering.lt ≢ Ordering.eq
    lt-ne e = cc

    gt-ne : Ordering.gt ≢ Ordering.eq
    gt-ne e = cc

pub linear_search-some :
    (key t : Topic) (ts : List Topic)
    → linear_search key ts ≡ some t
    → Mem t ts × (topic_pair_cmp key t ≡ Ordering.eq)
unfolding linear_search
linear_search-some key t [] e = absurd (none-ne-some t e)
linear_search-some key t (u ∷ us) e = elim (eq-cases key u) [
  | inl here ↦
      let same : u ≡ t = some-injective _ _ (sym (search_here key u us here) ∙ e) in
      (
        subst (λ x. Mem x (u ∷ us)) same mem-cons_self,
        subst (λ x. topic_pair_cmp key x ≡ Ordering.eq) same here,
      )
  | inr on ↦
      let (m, q) = linear_search-some key t us (sym (search_on key u us on) ∙ e) in
      (mem-cons_of_mem u m, q)
]

pub linear_search-none :
    (key t : Topic) (ts : List Topic)
    → linear_search key ts ≡ none
    → Mem t ts
    → topic_pair_cmp key t ≢ Ordering.eq
linear_search-none key t [] e m q = absurd (not-mem-nil m)
linear_search-none key t (u ∷ us) e m q = elim (eq-cases key u) [
  | inl here ↦ absurd (none-ne-some u (sym e ∙ search_here key u us here))
  | inr on ↦
      Or.elim ⊥_prop (eq-or-mem_of_mem-cons m)
        (λ same. on (subst (λ x. topic_pair_cmp key x ≡ Ordering.eq) same q))
        (λ later. linear_search-none key t us (sym (search_on key u us on) ∙ e) later q)
]

abbrev pub sorting : Sorting
sorting = record {
  qsort = insertion_sort;
  bsearch = linear_search;
  qsort_perm = insertion_sort-Perm;
  qsort_sorted = insertion_sort-IsSorted;
  bsearch_some = linear_search-some;
  bsearch_none = λ key t ts s. linear_search-none key t ts;
}

-- The number of calls so far is the world.
abbrev ok : ℕ → Bool × ℕ
ok w = (true, suc w)

abbrev pub network : Platform
network = record {
  World = ℕ;
  sorting = sorting;
  unsubscribe = λ c name w. (ℤ.pos w, suc w);
  subscribe = λ c name qos w. (ℤ.pos w, suc w);
  publish = λ c topic bytes size qos retain w. (ℤ.pos w, suc w);
  take_mutex = ok;
  give_mutex = λ w. (tt, suc w);
  has_memory = λ size. ok;
  queue_create = ok;
  task_create = ok;
  mutex_create = ok;
  group_create = ok;
  client_init = λ w. (some 1, suc w);
  client_register_event = λ c. ok;
  client_start = λ c. ok;
  client_stop = λ c. ok;
  client_disconnect = λ c. ok;
  client_destroy = λ c. ok;
}
