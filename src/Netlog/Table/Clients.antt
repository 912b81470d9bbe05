-- ===== src/Netlog/Table/Clients.antt =====
-- Lists of the clients of src/lib/netlog.c: the count of UDP clients, distinct addresses, and what the
-- changes of one slot keep.
use vedruino.Base.{
  ℕ, zero, suc, ◌+◌, ◌<◌, ◌≡◌, refl, sym, ap, ◌≢◌, some, List, [], ◌∷◌, ◌++◌, arith, if◌then◌else◌,
  length, take, drop, set, get_elem?, All, All-append,
}
use vedruino.Netlog.Table.{Client}
use vedruino.Netlog.Table.Remove.{remove_at}

unfoldable pub udp_count : List Client → ℕ
udp_count [] = 0
udp_count (c ∷ cs) = (if c.udp_flag then 1 else 0) + udp_count cs

-- No two clients have one address.
abbrev pub Distinct : List Client → Type 0
Distinct [] = Unit {0}
Distinct (c ∷ cs) = All (λ (d : Client). d.addr_str ≢ c.addr_str) cs × Distinct cs

abbrev pub InSevenBits : Client → Type 0
InSevenBits c = c.pack_cnt < 128

pub udp_count-remove_at :
    (i : ℕ) (c : Client) (cs : List Client)
    → get_elem? cs i ≡ some c
    → udp_count cs ≡ udp_count (remove_at i cs) + (if c.udp_flag then 1 else 0)
unfolding udp_count remove_at
udp_count-remove_at i c [] e = cc
udp_count-remove_at zero c (x ∷ cs) e = ground arith
udp_count-remove_at (suc i) c (x ∷ cs) e = omega (arith, udp_count-remove_at i c cs e)

pub All-remove_at :
    (P : Client → Type 0) (i : ℕ) (cs : List Client) → All P cs → All P (remove_at i cs)
unfolding remove_at
All-remove_at P i [] h = h
All-remove_at P zero (x ∷ cs) h = h.1
All-remove_at P (suc i) (x ∷ cs) h = (h.0, All-remove_at P i cs h.1)

pub Distinct-remove_at : (i : ℕ) (cs : List Client) → Distinct cs → Distinct (remove_at i cs)
unfolding remove_at
Distinct-remove_at i [] h = h
Distinct-remove_at zero (x ∷ cs) h = h.1
Distinct-remove_at (suc i) (x ∷ cs) h = (All-remove_at _ i cs h.0, Distinct-remove_at i cs h.1)

pub get_elem?-take : (n i : ℕ) (cs : List Client) → i < n → get_elem? (take n cs) i ≡ get_elem? cs i
get_elem?-take zero i cs h = absurd (omega arith)
get_elem?-take (suc n) i [] h = refl
get_elem?-take (suc n) zero (c ∷ cs) h = refl
get_elem?-take (suc n) (suc i) (c ∷ cs) h = get_elem?-take n i cs (omega arith)

pub All-take : (P : Client → Type 0) (n : ℕ) (cs : List Client) → All P cs → All P (take n cs)
All-take P zero cs h = tt
All-take P (suc n) [] h = h
All-take P (suc n) (c ∷ cs) h = (h.0, All-take P n cs h.1)

pub All-drop : (P : Client → Type 0) (n : ℕ) (cs : List Client) → All P cs → All P (drop n cs)
All-drop P zero cs h = h
All-drop P (suc n) [] h = h
All-drop P (suc n) (c ∷ cs) h = All-drop P n cs h.1

pub take-set_end :
    (n : ℕ) (cs : List Client) (v : Client)
    → n < length cs
    → take (suc n) (set cs n v) ≡ take n cs ++ v ∷ []
take-set_end n [] v h = absurd (omega arith)
take-set_end zero (c ∷ cs) v h = refl
take-set_end (suc n) (c ∷ cs) v h = ap (◌∷◌ c) (take-set_end n cs v (omega arith))

pub take-set : (n i : ℕ) (cs : List Client) (v : Client) → take n (set cs i v) ≡ set (take n cs) i v
take-set zero i cs v = refl
take-set (suc n) i [] v = refl
take-set (suc n) zero (c ∷ cs) v = refl
take-set (suc n) (suc i) (c ∷ cs) v = ap (◌∷◌ c) (take-set n i cs v)

pub udp_count-append : (cs ds : List Client) → udp_count (cs ++ ds) ≡ udp_count cs + udp_count ds
unfolding udp_count
udp_count-append [] ds = omega arith
udp_count-append (c ∷ cs) ds = omega (arith, udp_count-append cs ds)

pub Distinct-append :
    (cs : List Client) (v : Client)
    → Distinct cs
    → All (λ (d : Client). d.addr_str ≢ v.addr_str) cs
    → Distinct (cs ++ v ∷ [])
Distinct-append [] v h a = (tt, tt)
Distinct-append (c ∷ cs) v h a =
    (All-append _ cs (v ∷ []) h.0 ((λ e. a.0 (sym e)), tt), Distinct-append cs v h.1 a.1)

-- What `set` keeps, where the new client has the flag and the address of the old one.
pub udp_count-set :
    (cs : List Client) (i : ℕ) (c v : Client)
    → get_elem? cs i ≡ some c
    → v.udp_flag ≡ c.udp_flag
    → udp_count (set cs i v) ≡ udp_count cs
unfolding udp_count
udp_count-set [] i c v e f = refl
udp_count-set (x ∷ cs) zero c v e f = ground arith
udp_count-set (x ∷ cs) (suc i) c v e f = omega (arith, udp_count-set cs i c v e f)

pub All-set :
    (P : Client → Type 0) (cs : List Client) (i : ℕ) (v : Client)
    → All P cs
    → P v
    → All P (set cs i v)
All-set P [] i v h p = h
All-set P (x ∷ cs) zero v h p = (p, h.1)
All-set P (x ∷ cs) (suc i) v h p = (h.0, All-set P cs i v h.1 p)

pub All-get_elem? :
    (P : Client → Type 0) (cs : List Client) (i : ℕ) (c : Client)
    → All P cs
    → get_elem? cs i ≡ some c
    → P c
All-get_elem? P [] i c h e = cc
All-get_elem? P (x ∷ cs) zero c h e = let same : c ≡ x = cc in rw same h.0
All-get_elem? P (x ∷ cs) (suc i) c h e = All-get_elem? P cs i c h.1 e

pub Distinct-set :
    (cs : List Client) (i : ℕ) (c v : Client)
    → get_elem? cs i ≡ some c
    → v.addr_str ≡ c.addr_str
    → Distinct cs
    → Distinct (set cs i v)
Distinct-set [] i c v e a h = h
Distinct-set (x ∷ cs) zero c v e a h = let same : v.addr_str ≡ x.addr_str = cc in (rw same h.0, h.1)
Distinct-set (x ∷ cs) (suc i) c v e a h = (
  All-set (λ (d : Client). d.addr_str ≢ x.addr_str) cs i v h.0
      (rw a (All-get_elem? (λ (d : Client). d.addr_str ≢ x.addr_str) cs i c h.0 e)),
  Distinct-set cs i c v e a h.1,
)
