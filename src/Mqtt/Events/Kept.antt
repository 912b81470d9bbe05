-- ===== src/Mqtt/Events/Kept.antt =====
-- What the calls in `mqtt_event_handler` of src/lib/mqtt.c leave as it is.
use vedruino.Base.{
  ℕ, suc, ◌≡◌, refl, sym, ap, ◌∙◌, ◌⊎◌, inl, inr, true, Bool-cases, List, [], ◌∷◌, ◌++◌, ltb,
  length, Returns, Returns-mono,
}
use mathlib.Core.List.{append-nil}
use vedruino.Mqtt.Heap.{Block}
use vedruino.Mqtt.Platform.{Platform, State, Bits, Item, Message}
use vedruino.Mqtt.Topics.{find_callback}
use vedruino.Mqtt.Topics.Lookup.{Same, find_callback-Same}
use vedruino.Mqtt.Memory.{free, store}
use vedruino.Mqtt.Memory.Steps.{Has, NoMemory, store-Has, free-Has}
use vedruino.Mqtt.Events.{Event, set_bits, count_retry}

-- What the handling of an event may put into the queue: nothing, or a message with the event's topic and
-- data, each with a NUL behind it, and the size of the data.
abbrev pub Sent : Event → List Message → Type 0
Sent e [] = Unit {0}
Sent (Event.event_data topic bytes) (m ∷ []) =
    (m.topic ≡ topic ++ 0 ∷ []) × (m.bytes ≡ bytes ++ 0 ∷ []) × (m.data_size ≡ length bytes)
Sent _ (m ∷ ms) = ⊥

module _ (p : Platform) (n : ℕ) (items : List Item) (ms calls : List Message) where
  -- The queue and the calls are those of before, and the function holds some blocks.
  abbrev pub Kept : List Block → {A : Type 0} → A → State p → Type 0
  Kept held _ st = Has p n held items ms st × (st.calls ≡ calls)

  -- The function holds no block. The messages that were delivered and those that wait are, in this order,
  -- those of before and `new`; a block may have been lost, and then a `malloc` failed.
  abbrev pub Handled : Event → {A : Type 0} → A → State p → Type 0
  Handled e _ st =
      (items' : List Item) × (ms' : List Message) × (new : List Message) × (n' : ℕ) × Has p n' []
        items' ms' st
      × (st.calls ++ ms' ≡ (calls ++ ms) ++ new)
      × Sent e new
      × ((n' ≡ n) ⊎ ((n' ≡ suc n) × NoMemory p))

  pub Kept-Handled : (e : Event) {A : Type 0} (a : A) (st : State p) → Kept [] a st → Handled e a st
  Kept-Handled e a st (h, c) =
      (items, ms, [], n, h, ap (λ x. x ++ ms) c ∙ sym (append-nil (calls ++ ms)), tt, inl refl)

  pub set_bits-Kept :
      (f : Bits → Bits) (held : List Block) (st : State p)
      → Kept held tt st
      → Returns (Kept held) (set_bits p f st)
  set_bits-Kept f held st (h, c) =
      rw (h.group, Returns)
        (
          record {
            queue = h.queue;
            holding = h.holding;
            bits = f h.bits;
            group = refl;
            mutex = h.mutex;
          },
          c,
        )

  pub find_callback-Kept :
      (name : List ℕ) (held : List Block) (st : State p)
      → Kept held tt st
      → Returns (Kept held) (find_callback p name st)
  find_callback-Kept name held st (h, c) =
      Returns-mono (λ _ u. Same p st u) (Kept held) (find_callback p name st)
        (find_callback-Same p name st h.mutex)
        (λ _ u e. (rw e (world u.world), ap (λ (s : State p). s.calls) e ∙ c))
    where
      world : (w : p.World) → Has p n held items ms (record st { world = w })
      world w = record {
        queue = h.queue;
        holding = h.holding;
        bits = h.bits;
        group = h.group;
        mutex = h.mutex;
      }

  pub only_bits :
      (e : Event) (f : Bits → Bits) (st : State p)
      → Kept [] tt st
      → Returns (Handled e) (set_bits p f st)
  only_bits e f st k =
      Returns-mono (Kept []) (Handled e) (set_bits p f st) (set_bits-Kept f [] st k)
        (Kept-Handled e)

  pub count_retry-Kept :
      (conf_retry : ℕ) (st : State p)
      → Kept [] tt st
      → Returns (Kept []) (count_retry p conf_retry st)
  unfolding count_retry
  count_retry-Kept conf_retry st (h, c) = elim (Bool-cases (ltb st.retry conf_retry)) [
    | inl again ↦
        rw (again, Returns)
          (
            record {
              queue = h.queue;
              holding = h.holding;
              bits = h.bits;
              group = h.group;
              mutex = h.mutex;
            },
            c,
          )
    | inr spent ↦ rw (spent, Returns) (set_bits-Kept (λ b. record b { fail = true }) [] st (h, c))
  ]

  pub free-Kept :
      (b : Block) (held : List Block) (st : State p)
      → Kept (b ∷ held) tt st
      → Returns (Kept held) (free p b.address st)
  free-Kept b held st (h, c) =
      Returns-mono (λ _ u. Has p n held items ms u × (u.calls ≡ st.calls)) (Kept held)
        (free p b.address st) (free-Has p n items ms b held st h) (λ _ u (hu, e). (hu, e ∙ c))

  pub store-Kept :
      (b : Block) (v : List ℕ) (held : List Block) (st : State p)
      → Kept (b ∷ held) tt st
      → Returns (Kept (record { address = b.address; bytes = v } ∷ held)) (store p b.address v st)
  store-Kept b v held st (h, c) =
      Returns-mono
        (λ _ u.
          Has p n (record { address = b.address; bytes = v } ∷ held) items ms u
          × (u.calls ≡ st.calls))
        (Kept (record { address = b.address; bytes = v } ∷ held)) (store p b.address v st)
        (store-Has p n items ms b v held st h) (λ _ u (hu, e). (hu, e ∙ c))

  -- Freeing the last block that is held.
  pub free-Handled :
      (e : Event) (b : Block) (st : State p)
      → Kept (b ∷ []) tt st
      → Returns (Handled e) (free p b.address st)
  free-Handled e b st k =
      Returns-mono (Kept []) (Handled e) (free p b.address st) (free-Kept b [] st k)
        (Kept-Handled e)
