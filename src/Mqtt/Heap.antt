-- ===== src/Mqtt/Heap.antt =====
-- The blocks that src/lib/mqtt.c takes with `malloc` and gives back with `free`.
use vedruino.Base.{
  ℕ, suc, ◌≡◌, refl, ◌≢◌, Option, none, some, List, [], ◌∷◌, arith, ◌==◌, if◌then◌else◌, length,
}

-- A block in use: its address, and its bytes.
pub record Block : Type 0 where
  pub address : ℕ
  pub bytes : List ℕ

-- Addresses are given out one after the other, none twice.
pub record Heap : Type 0 where
  pub next : ℕ
  pub live : List Block

abbrev pub lookup : ℕ → List Block → Option (List ℕ)
lookup a [] = none
lookup a (b ∷ bs) = if b.address == a then some b.bytes else lookup a bs

abbrev pub remove : ℕ → List Block → List Block
remove a [] = []
remove a (b ∷ bs) = if b.address == a then bs else b ∷ remove a bs

abbrev pub write : ℕ → List ℕ → List Block → List Block
write a v [] = []
write a v (b ∷ bs) = if b.address == a then record b { bytes = v } ∷ bs else b ∷ write a v bs

-- The memory of a new block has no value yet: it is the empty list here, and is written before it is
-- read.
abbrev pub alloc : Heap → Heap
alloc h = record { next = suc h.next; live = record { address = h.next; bytes = [] } ∷ h.live }

pub lookup-remove : (a b : ℕ) (bs : List Block) → a ≢ b → lookup a (remove b bs) ≡ lookup a bs
lookup-remove a b [] ne = refl
lookup-remove a b (c ∷ bs) ne = ground (arith, ne, lookup-remove a b bs)

pub lookup-write :
    (a b : ℕ) (v : List ℕ) (bs : List Block) → a ≢ b → lookup a (write b v bs) ≡ lookup a bs
lookup-write a b v [] ne = refl
lookup-write a b v (c ∷ bs) ne = ground (arith, ne, lookup-write a b v bs)

pub lookup-write_same :
    (a : ℕ) (v w : List ℕ) (bs : List Block)
    → lookup a bs ≡ some w
    → lookup a (write a v bs) ≡ some v
lookup-write_same a v w [] e = cc
lookup-write_same a v w (c ∷ bs) e = ground (arith, e, lookup-write_same a v w bs)

pub length-write : (a : ℕ) (v : List ℕ) (bs : List Block) → length (write a v bs) ≡ length bs
length-write a v [] = refl
length-write a v (c ∷ bs) = ground (arith, length-write a v bs)

pub length-remove :
    (a : ℕ) (v : List ℕ) (bs : List Block)
    → lookup a bs ≡ some v
    → suc (length (remove a bs)) ≡ length bs
length-remove a v [] e = cc
length-remove a v (c ∷ bs) e = ground (arith, e, length-remove a v bs)
