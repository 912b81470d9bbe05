-- ===== src/Netlog/Table/Remove.antt =====
-- The table of src/lib/netlog.c as a list of clients: what the operations do to the slots in use.
use mathlib.Core.List.{append_assoc, append-nil}
use mathlib.Core.Path.{ap₂}
use vedruino.Base.{
  ℕ, zero, suc, ◌+◌, ◌-◌, ◌≤◌, ◌<◌, ◌≡◌, refl, sym, ap, ◌∙◌, inl, inr, List, [], ◌∷◌, ◌++◌, arith,
  ◌==◌, ==_iff, Bool-cases, length, take, drop, length-append, length-take, length-drop,
  take-append, take-take, drop_of_le,
}
use vedruino.Netlog.Table.{Client, Table, memmove, remove_client}

-- The clients that the table holds, in the order of their slots.
abbrev pub active : Table → List Client
active t = take t.clients_num t.clients

-- The list without its element `i`, if it has one.
unfoldable pub remove_at {ℓ} : {A : Type ℓ} → ℕ → List A → List A
remove_at i [] = []
remove_at zero (x ∷ xs) = xs
remove_at (suc i) (x ∷ xs) = x ∷ remove_at i xs

remove_at-take-drop {ℓ} :
    {A : Type ℓ} (i : ℕ) (xs : List A) → remove_at i xs ≡ take i xs ++ drop (i + 1) xs
unfolding remove_at
remove_at-take-drop zero [] = refl
remove_at-take-drop (suc i) [] = let e : suc i + 1 ≡ suc (i + 1) = omega arith in rw e
remove_at-take-drop zero (x ∷ xs) = refl
remove_at-take-drop (suc i) (x ∷ xs) =
    let e : suc i + 1 ≡ suc (i + 1) = omega arith in rw (e, remove_at-take-drop i xs)

take_of_append {ℓ} : {A : Type ℓ} (xs ys : List A) (n : ℕ) → length xs ≡ n → take n (xs ++ ys) ≡ xs
take_of_append xs ys n e = rw (← e) (take-append xs ys)

take-nil {ℓ} : {A : Type ℓ} (n : ℕ) → take {A = A} n [] ≡ []
take-nil zero = refl
take-nil (suc n) = refl

drop-take {ℓ} : {A : Type ℓ} (m n : ℕ) (xs : List A) → drop m (take (m + n) xs) ≡ take n (drop m xs)
drop-take zero n xs = let e : 0 + n ≡ n = omega arith in rw e
drop-take (suc m) n [] = let e : suc m + n ≡ suc (m + n) = omega arith in rw e (sym (take-nil n))
drop-take (suc m) n (x ∷ xs) =
    let e : suc m + n ≡ suc (m + n) = omega arith in rw e (drop-take m n xs)

-- Moving the elements behind `i` one place to the front removes element `i`.
memmove_lem {ℓ} :
    {A : Type ℓ} (xs : List A) (i n : ℕ)
    → i < n
    → n ≤ length xs
    → take (n - 1) (memmove xs i (i + 1) (n - i - 1)) ≡ remove_at i (take n xs)
memmove_lem {A} xs i n lt le =
    ap (take (n - 1)) (sym (append_assoc (take i xs) (take k (drop (i + 1) xs)) (drop (i + k) xs)))
    ∙ take_of_append (take i xs ++ take k (drop (i + 1) xs)) (drop (i + k) xs) (n - 1) len
    ∙ ap₂ ◌++◌ (sym (take-take i n xs (omega arith))) (sym behind)
    ∙ sym (remove_at-take-drop i (take n xs))
  where
    k : ℕ
    k = n - i - 1

    len : length (take i xs ++ take k (drop (i + 1) xs)) ≡ n - 1
    len = omega (
      arith,
      length-append (take i xs) (take k (drop (i + 1) xs)),
      length-take i xs,
      length-take k (drop (i + 1) xs),
      length-drop (i + 1) xs,
    )

    all : i + 1 + k ≡ n
    all = omega arith

    behind : drop (i + 1) (take n xs) ≡ take k (drop (i + 1) xs)
    behind = ap (λ m. drop (i + 1) (take m xs)) (sym all) ∙ drop-take (i + 1) k xs

length-memmove {ℓ} :
    {A : Type ℓ} (xs : List A) (i k : ℕ)
    → i + 1 + k ≤ length xs
    → length (memmove xs i (i + 1) k) ≡ length xs
length-memmove xs i k le = omega (
  arith,
  length-append (take i xs) (take k (drop (i + 1) xs) ++ drop (i + k) xs),
  length-append (take k (drop (i + 1) xs)) (drop (i + k) xs),
  length-take i xs,
  length-take k (drop (i + 1) xs),
  length-drop (i + 1) xs,
  length-drop (i + k) xs,
)

-- The last of `n` elements.
remove_last {ℓ} :
    {A : Type ℓ} (xs : List A) (i n : ℕ)
    → n ≡ i + 1
    → n ≤ length xs
    → take (n - 1) xs ≡ remove_at i (take n xs)
remove_last xs i n e le =
    let less : n - 1 ≡ i = omega arith in
    rw
      (
        remove_at-take-drop i (take n xs),
        drop_of_le (i + 1) (take n xs) (omega (arith, length-take n xs)),
        append-nil,
        less,
      )
      (sym (take-take i n xs (omega arith)))

-- Where slot `i` is in use and no more slots are in use than the array has, what `del_client` does
-- to the table takes the client in slot `i`, and no other, out of the list of clients; the others
-- keep their order, and the array keeps its size.
pub active-remove_client :
    (i : ℕ) (c : Client) (t : Table)
    → i < t.clients_num
    → t.clients_num ≤ length t.clients
    → (active (remove_client i c t) ≡ remove_at i (active t))
      × (length (remove_client i c t).clients ≡ length t.clients)
unfolding remove_client
active-remove_client i c t lt le = elim (Bool-cases (i == t.clients_num - 1)) [
  | inl last ↦
      rw last (remove_last t.clients i t.clients_num (omega (arith, (==_iff _ _).0 last)) le, refl)
  | inr inner ↦ rw inner (
    memmove_lem t.clients i t.clients_num lt le,
    length-memmove t.clients i (t.clients_num - i - 1) (omega arith),
  )
]
