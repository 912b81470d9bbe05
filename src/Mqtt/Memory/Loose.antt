-- ===== src/Mqtt/Memory/Loose.antt =====
-- The blocks of src/lib/mqtt.c that a function holds in its variables, beside those of the queue.
use vedruino.Base.{
  ℕ, suc, ◌≤◌, ◌<◌, ◌≡◌, sym, ◌∙◌, ◌≢◌, some, List, [], ◌∷◌, ◌++◌, arith, length, All,
}
use vedruino.Mqtt.Heap.{
  Block, Heap, lookup, remove, write, alloc, lookup-remove, lookup-write, lookup-write_same,
}
use vedruino.Mqtt.Platform.{Item, Message}
use vedruino.Mqtt.Memory.{cb_task_queue_length}
use vedruino.Mqtt.Memory.Owned.{
  pointers, Apart, Distinct, Owned, Apart-next, Owned-alloc, lookup-alloc, lookup-alloc_old,
  Owned-write, Owned-remove, Owned-append, Owned-take,
}

abbrev pub addresses : List Block → List ℕ
addresses [] = []
addresses (b ∷ bs) = b.address ∷ addresses bs

-- The block is in use, and the queue does not hold it.
abbrev pub IsLoose : List Item → Heap → Block → Type 0
IsLoose items h b =
    Apart b.address (pointers items)
    × (b.address < h.next)
    × (lookup b.address h.live ≡ some b.bytes)

-- The number of blocks that are held, and `n` more.
abbrev pub more : List Block → ℕ → ℕ
more [] n = n
more (b ∷ held) n = suc (more held n)

-- The queue owns its blocks, the blocks `held` are in use besides and different, and so are `n` more.
pub record Holding (n : ℕ) (held : List Block) (items : List Item) (ms : List Message) (h : Heap)
    : Type 0 where
  pub owned : Owned (more held n) items ms h
  pub loose : All (IsLoose items h) held
  pub distinct : Distinct (addresses held)

module _ (items : List Item) (h : Heap) where
  -- What a change of other blocks keeps.
  IsLoose-frame :
      (h' : Heap) (a : ℕ) (held : List Block)
      → h.next ≤ h'.next
      → ((b : ℕ) → b < h.next → b ≢ a → lookup b h'.live ≡ lookup b h.live)
      → Apart a (addresses held)
      → All (IsLoose items h) held
      → All (IsLoose items h') held
  IsLoose-frame h' a [] le same x l = tt
  IsLoose-frame h' a (b ∷ held) le same x l = (
    (l.0.0, omega (arith, le, l.0.1), same b.address l.0.1 x.0 ∙ l.0.2),
    IsLoose-frame h' a held le same x.1 l.1,
  )

  next-Apart : (held : List Block) → All (IsLoose items h) held → Apart h.next (addresses held)
  next-Apart [] l = tt
  next-Apart (b ∷ held) l = (
    (λ e. absurd (let lt : b.address < h.next = l.0.1 in omega (arith, lt, e))),
    next-Apart held l.1,
  )

-- A block of the item that leaves is apart from what is held.
held-Apart :
    (h : Heap) (a : ℕ) (held : List Block) (is : List Item)
    → ((c : ℕ) → Apart c (pointers is) → a ≢ c)
    → All (IsLoose is h) held
    → Apart a (addresses held)
held-Apart h a [] is f l = tt
held-Apart h a (b ∷ held) is f l = ((λ e. f b.address l.0.0 (sym e)), held-Apart h a held is f l.1)

IsLoose-tail :
    (items : List Item) (h : Heap) (i : Item) (held : List Block)
    → All (IsLoose (i ∷ items) h) held
    → All (IsLoose items h) held
IsLoose-tail items h i [] l = tt
IsLoose-tail items h i (b ∷ held) l = ((l.0.0.1.1, l.0.1, l.0.2), IsLoose-tail items h i held l.1)

module _ (n : ℕ) (items : List Item) (ms : List Message) (h : Heap) where
  pub Holding-alloc :
      (held : List Block)
      → Holding n held items ms h
      → Holding n (record { address = h.next; bytes = [] } ∷ held) items ms (alloc h)
  Holding-alloc held o = record {
    owned = Owned-alloc (more held n) items ms h o.owned;
    loose = (
      (Apart-next (more held n) items ms h o.owned, omega arith, lookup-alloc h),
      IsLoose-frame items h (alloc h) h.next held (omega arith) (λ b lt ne. lookup-alloc_old h b lt)
          (next-Apart items h held o.loose) o.loose,
    );
    distinct = (next-Apart items h held o.loose, o.distinct);
  }

  pub Holding-write :
      (b : Block) (v : List ℕ) (held : List Block)
      → Holding n (b ∷ held) items ms h
      → Holding n
          (record { address = b.address; bytes = v } ∷ held)
          items
          ms
          (record h { live = write b.address v h.live })
  Holding-write b v held o = record {
    owned = Owned-write (suc (more held n)) b.address v items ms h o.owned o.loose.0.0;
    loose = (
      (o.loose.0.0, o.loose.0.1, lookup-write_same b.address v b.bytes h.live o.loose.0.2),
      IsLoose-frame items h (record h { live = write b.address v h.live }) b.address held
          (omega arith) (λ c lt ne. lookup-write c b.address v h.live ne) o.distinct.0 o.loose.1,
    );
    distinct = o.distinct;
  }

  pub Holding-remove :
      (b : Block) (held : List Block)
      → Holding n (b ∷ held) items ms h
      → Holding n held items ms (record h { live = remove b.address h.live })
  Holding-remove b held o = record {
    owned = Owned-remove (more held n) b.address b.bytes items ms h o.owned o.loose.0.0 o.loose.0.2;
    loose =
        IsLoose-frame items h (record h { live = remove b.address h.live }) b.address held
          (omega arith) (λ c lt ne. lookup-remove c b.address h.live ne) o.distinct.0 o.loose.1;
    distinct = o.distinct.1;
  }

  -- The block is forgotten without being freed.
  pub Holding-leak : (b : Block) → Holding n (b ∷ []) items ms h → Holding (suc n) [] items ms h
  Holding-leak b o = record { owned = o.owned; loose = tt; distinct = tt }

  pub Holding-append :
      (i : Item) (m : Message)
      → Holding n
          (record { address = i.bytes; bytes = m.bytes }
            ∷ record { address = i.topic; bytes = m.topic }
            ∷ [])
          items
          ms
          h
      → i.callback ≡ m.callback
      → i.data_size ≡ m.data_size
      → length items < cb_task_queue_length
      → Holding n [] (items ++ i ∷ []) (ms ++ m ∷ []) h
  Holding-append i m o c s room = record {
    owned =
        Owned-append n items ms h i m o.owned o.loose.1.0.0 o.loose.0.0
          (λ e. o.distinct.0.0 (sym e)) o.loose.1.0.1 o.loose.0.1 (o.loose.1.0.2, o.loose.0.2, c, s)
          room;
    loose = tt;
    distinct = tt;
  }

  pub Holding-take :
      (i : Item) (m : Message) (held : List Block)
      → Holding n held (i ∷ items) (m ∷ ms) h
      → Holding n
          (record { address = i.bytes; bytes = m.bytes }
            ∷ record { address = i.topic; bytes = m.topic }
            ∷ held)
          items
          ms
          h
  Holding-take i m held o = record {
    owned = Owned-take (more held n) i items m ms h o.owned;
    loose = (
      (own.distinct.1.0, own.below.1.0, own.holds.0.1),
      ((own.distinct.0.1, own.below.0, own.holds.0.0), IsLoose-tail items h i held o.loose),
    );
    distinct = (
      (
        (λ e. own.distinct.0.0 (sym e)),
        held-Apart h i.bytes held (i ∷ items) (λ c x e. x.1.0 e) o.loose,
      ),
      (held-Apart h i.topic held (i ∷ items) (λ c x e. x.0 e) o.loose, o.distinct),
    );
  }
    where
      own : Owned (more held n) (i ∷ items) (m ∷ ms) h
      own = o.owned
