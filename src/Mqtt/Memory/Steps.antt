-- ===== src/Mqtt/Memory/Steps.antt =====
-- The steps of src/lib/mqtt.c on memory and queue: they return, and every block has one owner.
use vedruino.Base.{
  ℕ, ◌≡◌, refl, ◌∙◌, Bool, true, false, Option, none, some, List, [], ◌∷◌, ◌++◌, ◌>>◌, Returns,
  bind-Returns, Returns-mono,
}
use vedruino.Mqtt.Heap.{Block}
use vedruino.Mqtt.Platform.{Platform, State, Bits, Item, Message}
use vedruino.Mqtt.Memory.{allocate, malloc, free, store, run_callback, receive}
use vedruino.Mqtt.Memory.Owned.{Holds}
use vedruino.Mqtt.Memory.Loose.{Holding, Holding-alloc, Holding-write, Holding-remove, Holding-take}

module _ (p : Platform) where
  -- The queue has the items, which stand for the messages `ms`; the function holds the blocks `held`;
  -- `n` blocks have been lost; the event group and the mutex are there.
  pub record Has (n : ℕ) (held : List Block) (items : List Item) (ms : List Message) (st : State p)
      : Type 0 where
    pub queue : st.queue ≡ some items
    pub holding : Holding n held items ms st.heap
    pub bits : Bits
    pub group : st.event_group ≡ some bits
    pub mutex : st.topics_mutex ≡ true

  -- Some `malloc` has failed.
  abbrev pub NoMemory : Type 0
  NoMemory = (size : ℕ) × (w : p.World) × ((p.has_memory size w).0 ≡ false)

  module _ (n : ℕ) (items : List Item) (ms : List Message) where
    abbrev pub Allocated : (held : List Block) → State p → Option ℕ → State p → Type 0
    Allocated held st none st' = Has n held items ms st' × (st'.calls ≡ st.calls) × NoMemory
    Allocated held st (some a) st' =
        Has n (record { address = a; bytes = [] } ∷ held) items ms st' × (st'.calls ≡ st.calls)

    allocate-Allocated :
        (held : List Block) (st : State p) (size : ℕ) (ok : Bool) (w : p.World)
        → Has n held items ms st
        → (p.has_memory size st.world).0 ≡ ok
        → Returns (Allocated held st) (allocate p ok (record st { world = w }))
    unfolding allocate
    allocate-Allocated held st size false w h e = (
      record {
        queue = h.queue;
        holding = h.holding;
        bits = h.bits;
        group = h.group;
        mutex = h.mutex;
      },
      refl,
      (size, st.world, e),
    )
    allocate-Allocated held st size true w h e = (
      record {
        queue = h.queue;
        holding = Holding-alloc n items ms st.heap held h.holding;
        bits = h.bits;
        group = h.group;
        mutex = h.mutex;
      },
      refl,
    )

    pub malloc-Allocated :
        (held : List Block) (st : State p) (size : ℕ)
        → Has n held items ms st
        → Returns (Allocated held st) (malloc p size st)
    unfolding malloc
    malloc-Allocated held st size h =
        allocate-Allocated held st size (p.has_memory size st.world).0
          (p.has_memory size st.world).1 h refl

    -- The first block that is held is written, or freed.
    pub store-Has :
        (b : Block) (v : List ℕ) (held : List Block) (st : State p)
        → Has n (b ∷ held) items ms st
        → Returns
            (λ _ st'.
              Has n (record { address = b.address; bytes = v } ∷ held) items ms st'
              × (st'.calls ≡ st.calls))
            (store p b.address v st)
    unfolding store
    store-Has b v held st h =
        rw (h.holding.loose.0.2, Returns)
          (
            record {
              queue = h.queue;
              holding = Holding-write n items ms st.heap b v held h.holding;
              bits = h.bits;
              group = h.group;
              mutex = h.mutex;
            },
            refl,
          )

    pub free-Has :
        (b : Block) (held : List Block) (st : State p)
        → Has n (b ∷ held) items ms st
        → Returns (λ _ st'. Has n held items ms st' × (st'.calls ≡ st.calls)) (free p b.address st)
    unfolding free
    free-Has b held st h =
        rw (h.holding.loose.0.2, Returns)
          (
            record {
              queue = h.queue;
              holding = Holding-remove n items ms st.heap b held h.holding;
              bits = h.bits;
              group = h.group;
              mutex = h.mutex;
            },
            refl,
          )

    -- The last two blocks that are held are freed.
    pub free_both-Has :
        (b c : Block) (st : State p)
        → Has n (b ∷ c ∷ []) items ms st
        → Returns
            (λ _ st'. Has n [] items ms st' × (st'.calls ≡ st.calls))
            ((free p b.address >> free p c.address) st)
    free_both-Has b c st h =
        bind-Returns (λ _ u. Has n (c ∷ []) items ms u × (u.calls ≡ st.calls))
          (λ _ u. Has n [] items ms u × (u.calls ≡ st.calls)) (free p b.address st)
          (λ _. free p c.address) (free-Has b (c ∷ []) st h)
          (λ _ u (hu, e).
            Returns-mono (λ _ v. Has n [] items ms v × (v.calls ≡ u.calls))
              (λ _ v. Has n [] items ms v × (v.calls ≡ st.calls)) (free p c.address u)
              (free-Has c [] u hu) (λ _ v (hv, f). (hv, f ∙ e)))

    run_callback-calls :
        (i : Item) (m : Message) (st : State p)
        → Holds st.heap.live i m
        → Returns (λ _ st'. st' ≡ record st { calls = st.calls ++ m ∷ [] }) (run_callback p i st)
    unfolding run_callback
    run_callback-calls i m st h = rw (h.0, h.1, h.2, h.3, Returns) refl

    -- The callback task takes the first item: it runs the callback with the message, and frees the copies.
    pub receive-Has :
        (held : List Block) (i : Item) (m : Message) (st : State p)
        → Has n held (i ∷ items) (m ∷ ms) st
        → Returns
            (λ _ st'. Has n held items ms st' × (st'.calls ≡ st.calls ++ m ∷ []))
            (receive p i items st)
    unfolding receive
    receive-Has held i m st h =
        bind-Returns (λ _ u. Has n (topic ∷ held) items ms u × (u.calls ≡ st.calls ++ m ∷ []))
          (λ _ st'. Has n held items ms st' × (st'.calls ≡ st.calls ++ m ∷ []))
          ((run_callback p i >> free p i.bytes) st') (λ _. free p i.topic)
          (bind-Returns (λ _ u. u ≡ record st' { calls = st'.calls ++ m ∷ [] })
            (λ _ u. Has n (topic ∷ held) items ms u × (u.calls ≡ st.calls ++ m ∷ []))
            (run_callback p i st') (λ _. free p i.bytes)
            (run_callback-calls i m st' h.holding.owned.holds.0)
            (λ _ u e. rw e (
              free-Has bytes (topic ∷ held) (record st' { calls = st'.calls ++ m ∷ [] })
                (record {
                  queue = refl;
                  holding = Holding-take n items ms st.heap i m held h.holding;
                  bits = h.bits;
                  group = h.group;
                  mutex = h.mutex;
                }))))
          (λ _ u (hu, e).
            Returns-mono (λ _ v. Has n held items ms v × (v.calls ≡ u.calls))
              (λ _ v. Has n held items ms v × (v.calls ≡ st.calls ++ m ∷ [])) (free p i.topic u)
              (free-Has topic held u hu) (λ _ v (hv, f). (hv, f ∙ e)))
      where
        st' : State p
        st' = record st { queue = some items }

        topic : Block
        topic = record { address = i.topic; bytes = m.topic }

        bytes : Block
        bytes = record { address = i.bytes; bytes = m.bytes }
