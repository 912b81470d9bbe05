-- ===== src/Netlog/Table/Lookup.antt =====
-- What the searches in the table of src/lib/netlog.c find.
use vedruino.Base.{
  ℕ, zero, suc, ◌+◌, ◌≤◌, ◌<◌, ◌≡◌, refl, sym, ◌∙◌, ◌≢◌, inl, inr, true, false, none, some, List,
  [], ◌∷◌, arith, Bool-cases, text_eq, text_eq_refl, eq_of_text_eq, take, get_elem?, All,
}
use vedruino.Netlog.Table.{
  Client, Table, find_from, get_client_idx_by_addr_str, get_free_idx_in_clients,
}
use vedruino.Netlog.Table.Remove.{remove_at}
use vedruino.Netlog.Table.Clients.{Distinct, All-get_elem?}
use vedruino.Netlog.Table.Shrunk.{Absent}

find_from-none :
    (s : List ℕ) (cs : List Client) (n i : ℕ)
    → find_from s cs n i ≡ none
    → All (λ (d : Client). d.addr_str ≢ s) (take n cs)
unfolding find_from
find_from-none s cs zero i e = tt
find_from-none s [] (suc n) i e = tt
find_from-none s (c ∷ cs) (suc n) i e = elim (Bool-cases (text_eq s c.addr_str)) [
  | inl same ↦ absurd (let found : some i ≡ none = sym (rw same refl) ∙ e in cc)
  | inr other ↦ (
    λ same. absurd (
        let again : text_eq s s ≡ false = rw same at other in
        let t : text_eq s s ≡ true = text_eq_refl s in cc),
    find_from-none s cs n (suc i) (rw other at e),
  )
]

-- An index that `find_from` gives, counted from its first slot.
abbrev Found : List ℕ → List Client → (n i j : ℕ) → Type 0
Found s cs n i j =
    (k : ℕ) × (c : Client) × (j ≡ i + k) × (k < n) × (get_elem? cs k ≡ some c) × (c.addr_str ≡ s)

find_from-some :
    (s : List ℕ) (cs : List Client) (n i j : ℕ) → find_from s cs n i ≡ some j → Found s cs n i j
unfolding find_from
find_from-some s cs zero i j e = cc
find_from-some s [] (suc n) i j e = cc
find_from-some s (c ∷ cs) (suc n) i j e = elim (Bool-cases (text_eq s c.addr_str)) [
  | inl same ↦
      let at_i : some i ≡ some j = rw same at e in
      let ij : i ≡ j = cc in
      (0, c, omega arith, omega arith, refl, sym (eq_of_text_eq s c.addr_str same))
  | inr other ↦
      let (k, d, at, lt, there, same) = find_from-some s cs n (suc i) j (rw other at e) in
      (suc k, d, omega (arith, at), omega (arith, lt), there, same)
]

pub get_client_idx-none :
    (s : List ℕ) (t : Table) → get_client_idx_by_addr_str s t ≡ none → Absent s t
unfolding get_client_idx_by_addr_str
get_client_idx-none s t e = find_from-none s t.clients t.clients_num 0 e

pub get_client_idx-some :
    (s : List ℕ) (t : Table) (i : ℕ)
    → get_client_idx_by_addr_str s t ≡ some i
    → (c : Client) × (i < t.clients_num) × (get_elem? t.clients i ≡ some c) × (c.addr_str ≡ s)
unfolding get_client_idx_by_addr_str
get_client_idx-some s t i e =
    let (k, c, at, lt, there, same) = find_from-some s t.clients t.clients_num 0 i e in
    let ik : i ≡ k = omega (arith, at) in (c, omega (arith, lt), rw ik there, same)

pub get_free_idx-some :
    (max i : ℕ) (t : Table)
    → get_free_idx_in_clients max t ≡ some i
    → t.clients_num ≤ max
    → (i ≡ t.clients_num) × (t.clients_num < max)
unfolding get_free_idx_in_clients
get_free_idx-some max i t e le = ground (arith, e, le)

pub get_free_idx-below :
    (max : ℕ) (t : Table) → t.clients_num < max → get_free_idx_in_clients max t ≡ some t.clients_num
unfolding get_free_idx_in_clients
get_free_idx-below max t lt = ground (arith, lt)

-- The client at `i` is the only one with its address.
pub Absent-remove_at :
    (i : ℕ) (c : Client) (cs : List Client)
    → Distinct cs
    → get_elem? cs i ≡ some c
    → All (λ (d : Client). d.addr_str ≢ c.addr_str) (remove_at i cs)
unfolding remove_at
Absent-remove_at i c [] h e = tt
Absent-remove_at zero c (x ∷ cs) h e = let same : c ≡ x = cc in rw same h.0
Absent-remove_at (suc i) c (x ∷ cs) h e = (
  λ same. All-get_elem? (λ (d : Client). d.addr_str ≢ x.addr_str) cs i c h.0 e (sym same),
  Absent-remove_at i c cs h.1 e,
)
