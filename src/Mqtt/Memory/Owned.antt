-- ===== src/Mqtt/Memory/Owned.antt =====
-- Which blocks the queue of src/lib/mqtt.c owns, and what changes of the heap keep.
use vedruino.Base.{
  ℕ, suc, ◌+◌, ◌*◌, ◌≤◌, ◌<◌, ◌≡◌, refl, sym, ◌∙◌, ◌≢◌, some, List, [], ◌∷◌, ◌++◌, arith, length,
  length-append, All, All-append,
}
use vedruino.Mqtt.Heap.{
  Block, Heap, lookup, remove, write, alloc, lookup-remove, lookup-write, length-write,
  length-remove,
}
use vedruino.Mqtt.Platform.{Item, Message}
use vedruino.Mqtt.Memory.{cb_task_queue_length}

-- The addresses that the items hold.
abbrev pub pointers : List Item → List ℕ
pointers [] = []
pointers (i ∷ is) = i.topic ∷ i.bytes ∷ pointers is

-- The item points to what the message says.
abbrev pub Holds : List Block → Item → Message → Type 0
Holds bs i m =
    (lookup i.topic bs ≡ some m.topic)
    × (lookup i.bytes bs ≡ some m.bytes)
    × (i.callback ≡ m.callback)
    × (i.data_size ≡ m.data_size)

abbrev pub Represents : List Block → List Item → List Message → Type 0
Represents bs [] [] = Unit {0}
Represents bs [] (m ∷ ms) = ⊥
Represents bs (i ∷ is) [] = ⊥
Represents bs (i ∷ is) (m ∷ ms) = Holds bs i m × Represents bs is ms

abbrev pub Apart : ℕ → List ℕ → Type 0
Apart a ps = All (λ b. b ≢ a) ps

abbrev pub Distinct : List ℕ → Type 0
Distinct [] = Unit {0}
Distinct (a ∷ ps) = Apart a ps × Distinct ps

-- The items point to different blocks, which hold the messages, and `n` more blocks are in use.
pub record Owned (n : ℕ) (items : List Item) (ms : List Message) (h : Heap) : Type 0 where
  pub holds : Represents h.live items ms
  pub distinct : Distinct (pointers items)
  pub below : All (λ a. a < h.next) (pointers items)
  pub count : length h.live ≡ 2 * length items + n
  pub limit : length items ≤ cb_task_queue_length

Represents-frame :
    (bs cs : List Block) (items : List Item) (ms : List Message)
    → All (λ a. lookup a cs ≡ lookup a bs) (pointers items)
    → Represents bs items ms
    → Represents cs items ms
Represents-frame bs cs [] [] f h = tt
Represents-frame bs cs [] (m ∷ ms) f h = h
Represents-frame bs cs (i ∷ is) [] f h = h
Represents-frame bs cs (i ∷ is) (m ∷ ms) f h =
    ((f.0 ∙ h.0.0, f.1.0 ∙ h.0.1, h.0.2, h.0.3), Represents-frame bs cs is ms f.1.1 h.1)

All-imp : {P Q : ℕ → Type 0} (ps : List ℕ) → ((a : ℕ) → P a → Q a) → All P ps → All Q ps
All-imp [] f h = tt
All-imp (a ∷ ps) f h = (f a h.0, All-imp ps f h.1)

-- A new block is not one of those in the queue.
pub Apart-next :
    (n : ℕ) (items : List Item) (ms : List Message) (h : Heap)
    → Owned n items ms h
    → Apart h.next (pointers items)
Apart-next n items ms h o =
    All-imp (pointers items) (λ a lt e. absurd (omega (arith, lt, e))) o.below

pub lookup-alloc_old : (h : Heap) (a : ℕ) → a < h.next → lookup a (alloc h).live ≡ lookup a h.live
lookup-alloc_old h a lt = ground (arith, lt)

pub Owned-alloc :
    (n : ℕ) (items : List Item) (ms : List Message) (h : Heap)
    → Owned n items ms h
    → Owned (suc n) items ms (alloc h)
Owned-alloc n items ms h o = record {
  holds =
      Represents-frame h.live (alloc h).live items ms
        (All-imp (pointers items) (λ a lt. lookup-alloc_old h a lt) o.below) o.holds;
  distinct = o.distinct;
  below = All-imp (pointers items) (λ a lt. omega (arith, lt)) o.below;
  count = omega (arith, o.count);
  limit = o.limit;
}

pub lookup-alloc : (h : Heap) → lookup h.next (alloc h).live ≡ some []
lookup-alloc h = ground arith

pub Owned-write :
    (n a : ℕ) (v : List ℕ) (items : List Item) (ms : List Message) (h : Heap)
    → Owned n items ms h
    → Apart a (pointers items)
    → Owned n items ms (record h { live = write a v h.live })
Owned-write n a v items ms h o apart = record {
  holds =
      Represents-frame h.live (write a v h.live) items ms
        (All-imp (pointers items) (λ b ne. lookup-write b a v h.live ne) apart) o.holds;
  distinct = o.distinct;
  below = o.below;
  count = length-write a v h.live ∙ o.count;
  limit = o.limit;
}

pub Owned-remove :
    (n a : ℕ) (v : List ℕ) (items : List Item) (ms : List Message) (h : Heap)
    → Owned (suc n) items ms h
    → Apart a (pointers items)
    → lookup a h.live ≡ some v
    → Owned n items ms (record h { live = remove a h.live })
Owned-remove n a v items ms h o apart e = record {
  holds =
      Represents-frame h.live (remove a h.live) items ms
        (All-imp (pointers items) (λ b ne. lookup-remove b a h.live ne) apart) o.holds;
  distinct = o.distinct;
  below = o.below;
  count = omega (arith, o.count, length-remove a v h.live e);
  limit = o.limit;
}

pointers-append : (is js : List Item) → pointers (is ++ js) ≡ pointers is ++ pointers js
pointers-append [] js = refl
pointers-append (i ∷ is) js = rw (pointers-append is js)

Represents-append :
    (bs : List Block) (is : List Item) (ms : List Message) (i : Item) (m : Message)
    → Represents bs is ms
    → Holds bs i m
    → Represents bs (is ++ i ∷ []) (ms ++ m ∷ [])
Represents-append bs [] [] i m h e = (e, tt)
Represents-append bs [] (x ∷ ms) i m h e = absurd h
Represents-append bs (j ∷ is) [] i m h e = absurd h
Represents-append bs (j ∷ is) (x ∷ ms) i m h e = (h.0, Represents-append bs is ms i m h.1 e)

Distinct-append :
    (ps : List ℕ) (a b : ℕ)
    → Distinct ps
    → Apart a ps
    → Apart b ps
    → b ≢ a
    → Distinct (ps ++ a ∷ b ∷ [])
Distinct-append [] a b d x y ne = ((ne, tt), (tt, tt))
Distinct-append (c ∷ ps) a b d x y ne = (
  All-append _ ps (a ∷ b ∷ []) d.0 ((λ e. x.0 (sym e)), ((λ e. y.0 (sym e)), tt)),
  Distinct-append ps a b d.1 x.1 y.1 ne,
)

-- Two blocks that were in use besides pass into the queue.
pub Owned-append :
    (n : ℕ) (items : List Item) (ms : List Message) (h : Heap) (i : Item) (m : Message)
    → Owned (suc (suc n)) items ms h
    → Apart i.topic (pointers items)
    → Apart i.bytes (pointers items)
    → i.bytes ≢ i.topic
    → i.topic < h.next
    → i.bytes < h.next
    → Holds h.live i m
    → length items < cb_task_queue_length
    → Owned n (items ++ i ∷ []) (ms ++ m ∷ []) h
Owned-append n items ms h i m o x y ne lt lt' e room = record {
  holds = Represents-append h.live items ms i m o.holds e;
  distinct =
      rw (pointers-append items (i ∷ []))
        (Distinct-append (pointers items) i.topic i.bytes o.distinct x y ne);
  below =
      rw (pointers-append items (i ∷ []))
        (All-append _ (pointers items) (i.topic ∷ i.bytes ∷ []) o.below (lt, (lt', tt)));
  count = omega (arith, o.count, length-append items (i ∷ []));
  limit = omega (arith, room, length-append items (i ∷ []));
}

-- The first item leaves the queue, and its blocks are in use besides.
pub Owned-take :
    (n : ℕ) (i : Item) (items : List Item) (m : Message) (ms : List Message) (h : Heap)
    → Owned n (i ∷ items) (m ∷ ms) h
    → Owned (suc (suc n)) items ms h
Owned-take n i items m ms h o = record {
  holds = o.holds.1;
  distinct = o.distinct.1.1;
  below = o.below.1.1;
  count = omega (arith, o.count);
  limit = omega (arith, o.limit);
}
