-- ===== src/Mqtt/Memory/Queue.antt =====
-- `mqtt_callback_task` and `xQueueSend` of src/lib/mqtt.c: what has been accepted is delivered in order.
use mathlib.Core.List.{append_assoc}
use vedruino.Base.{
  ℕ, ◌≤◌, ◌<◌, ◌≡◌, refl, sym, ap, ◌∙◌, inl, inr, Bool, true, false, some, List, [], ◌∷◌, ◌++◌,
  arith, leb, leb→le, Bool-cases, length, ◌>>◌, Returns, bind-Returns, Returns-mono,
}
use vedruino.Mqtt.Heap.{Block}
use vedruino.Mqtt.Platform.{Platform, State, Item, Message}
use vedruino.Mqtt.Memory.{
  cb_task_queue_length, receive, take_item, callback_round, put_item, send_to, queue_send,
}
use vedruino.Mqtt.Memory.Loose.{Holding-append}
use vedruino.Mqtt.Memory.Steps.{Has, receive-Has}

module _ (p : Platform) (n : ℕ) where
  abbrev pub Rounded :
      List Block → (ms : List Message) → State p → {A : Type 0} → A → State p → Type 0
  Rounded held ms st _ st' =
      (items' : List Item) × (ms' : List Message) × Has p n held items' ms' st'
      × (st'.calls ++ ms' ≡ st.calls ++ ms)

  delivered : (calls ms : List Message) (m : Message) → (calls ++ m ∷ []) ++ ms ≡ calls ++ m ∷ ms
  delivered calls ms m = append_assoc calls (m ∷ []) ms

  pub callback_round-Has :
      (held : List Block) (i : Item) (items : List Item) (m : Message) (ms : List Message)
      (st : State p)
      → Has p n held (i ∷ items) (m ∷ ms) st
      → Returns
          (λ _ st'. Has p n held items ms st' × (st'.calls ≡ st.calls ++ m ∷ []))
          (callback_round p st)
  unfolding callback_round take_item
  callback_round-Has held i items m ms st h =
      simp (h.queue) (receive-Has p n items ms held i m st h)

  take_item-Rounded :
      (held : List Block) (items : List Item) (ms : List Message) (st : State p)
      → Has p n held items ms st
      → Returns (Rounded held ms st) (take_item p (some items) st)
  unfolding take_item
  take_item-Rounded held [] ms st h = ([], ms, h, refl)
  take_item-Rounded held (i ∷ items) [] st h = absurd h.holding.owned.holds
  take_item-Rounded held (i ∷ items) (m ∷ ms) st h =
      Returns-mono (λ _ st'. Has p n held items ms st' × (st'.calls ≡ st.calls ++ m ∷ []))
        (Rounded held (m ∷ ms) st) (receive p i items st) (receive-Has p n items ms held i m st h)
        (λ _ st' (h', e). (items, ms, h', ap (λ c. c ++ ms) e ∙ delivered st.calls ms m))

  -- A round of the callback task keeps the order of the messages, and every block has one owner.
  pub callback_round-Rounded :
      (held : List Block) (items : List Item) (ms : List Message) (st : State p)
      → Has p n held items ms st
      → Returns (Rounded held ms st) (callback_round p st)
  unfolding callback_round
  callback_round-Rounded held items ms st h = simp (h.queue) (take_item-Rounded held items ms st h)

  module _ (i : Item) (m : Message) (same_callback : i.callback ≡ m.callback)
      (same_size : i.data_size ≡ m.data_size) where
    -- The blocks of the item to send.
    abbrev pub to_send : List Block
    to_send =
        record { address = i.bytes; bytes = m.bytes }
        ∷ record { address = i.topic; bytes = m.topic }
        ∷ []

    -- Sent, the item has passed its blocks to the queue; else the function still holds them.
    abbrev pub Queued : (ms : List Message) → State p → Bool → State p → Type 0
    Queued ms st true st' =
        (items' : List Item) × (ms' : List Message) × Has p n [] items' ms' st'
        × (st'.calls ++ ms' ≡ (st.calls ++ ms) ++ m ∷ [])
    Queued ms st false st' =
        (items' : List Item) × (ms' : List Message) × Has p n to_send items' ms' st'
        × (st'.calls ++ ms' ≡ st.calls ++ ms)

    put_item-Queued :
        (items : List Item) (ms : List Message) (st : State p)
        → Has p n to_send items ms st
        → length items < cb_task_queue_length
        → Returns (Queued ms st) (put_item p i (some items) st)
    unfolding put_item
    put_item-Queued items ms st h room = (
      items ++ i ∷ [],
      ms ++ m ∷ [],
      record {
        queue = refl;
        holding = Holding-append n items ms st.heap i m h.holding same_callback same_size room;
        bits = h.bits;
        group = h.group;
        mutex = h.mutex;
      },
      sym (append_assoc st.calls ms (m ∷ [])),
    )

    -- Where the queue is full and the task takes the first item.
    receive-Queued :
        (items : List Item) (ms : List Message) (st : State p)
        → Has p n to_send items ms st
        → cb_task_queue_length ≤ length items
        → Returns (Queued ms st) ((callback_round p >> λ st'. put_item p i st'.queue st') st)
    receive-Queued [] ms st h full = absurd (omega arith)
    receive-Queued (j ∷ items) [] st h full = absurd h.holding.owned.holds
    receive-Queued (j ∷ items) (x ∷ ms) st h full =
        bind-Returns (λ _ u. Has p n to_send items ms u × (u.calls ≡ st.calls ++ x ∷ []))
          (Queued (x ∷ ms) st) (callback_round p st) _
          (callback_round-Has to_send j items x ms st h)
          (λ _ u (hu, e). simp (hu.queue) (
            Returns-mono (Queued ms u) (Queued (x ∷ ms) st) (put_item p i (some items) u)
              (put_item-Queued items ms u hu (omega (arith, h.holding.owned.limit))) (moved u e)))
      where
        moved :
            (u : State p)
            → u.calls ≡ st.calls ++ x ∷ []
            → (ok : Bool) (v : State p) → Queued ms u ok v
            → Queued (x ∷ ms) st ok v
        moved u e true v (is, ms', h', f) = (
          is,
          ms',
          h',
          f ∙ ap (λ c. (c ++ ms) ++ m ∷ []) e ∙ ap (λ c. c ++ m ∷ []) (delivered st.calls ms x),
        )
        moved u e false v (is, ms', h', f) =
            (is, ms', h', f ∙ ap (λ c. c ++ ms) e ∙ delivered st.calls ms x)

    send_to-Queued :
        (drained : Bool) (items : List Item) (ms : List Message) (st : State p)
        → Has p n to_send items ms st
        → Returns (Queued ms st) (send_to p drained i (some items) st)
    unfolding send_to
    send_to-Queued drained items ms st h =
        elim (Bool-cases (leb cb_task_queue_length (length items))) [
          | inr room ↦ rw (room, Returns) (put_item-Queued items ms st h (ground (arith, room)))
          | inl full ↦ elim (Bool-cases drained) [
            | inl waits ↦ rw (full, waits, Returns) (receive-Queued items ms st h (leb→le _ _ full))
            | inr fails ↦ rw (full, fails, Returns) (items, ms, h, refl)
          ]
        ]

    -- `xQueueSend` returns. The item is behind all that wait, or it is not in the queue.
    pub queue_send-Queued :
        (drained : Bool) (items : List Item) (ms : List Message) (st : State p)
        → Has p n to_send items ms st
        → Returns (Queued ms st) (queue_send p drained i st)
    unfolding queue_send
    queue_send-Queued drained items ms st h = simp (h.queue) (send_to-Queued drained items ms st h)
