-- ===== src/Mqtt/Memory/Accept.antt =====
-- When `xQueueSend` accepts an item in src/lib/mqtt.c, that rounds of `mqtt_callback_task` empty the queue,
-- and that the memory leaves the table of topics alone.
use vedruino.Base.{
  ℕ, ◌≤◌, ◌<◌, ◌≡◌, refl, ◌⊎◌, inl, inr, Bool, true, false, Bool-cases, Option, none, some,
  Option-cases, List, [], arith, leb, leb→le, length, Outcome, done, halt, Returns, Ends, bind-Ends,
}
use vedruino.Mqtt.Heap.{lookup}
use vedruino.Mqtt.Topic.{Topic}
use vedruino.Mqtt.Platform.{Platform, State, Item}
use vedruino.Mqtt.Memory.{
  cb_task_queue_length, malloc, allocate, store, callback_round, take_item, put_item, send_to,
  queue_send,
}

module _ (p : Platform) where
  -- The call does not return, or what it returns satisfies P.
  abbrev pub Gives : {A : Type 0} → (A → State p → Type 0) → Outcome (State p) A → Type 0
  Gives P = Ends P (λ _ _. Unit {0})

  any_end : {A : Type 0} (r : Outcome (State p) A) → Gives (λ _ _. Unit {0}) r
  any_end (done a w) = tt
  any_end (halt h w) = tt

  -- There is room in the queue, or an item is taken out of it in time.
  abbrev pub Accepts : (items : List Item) → (drained : Bool) → Type 0
  Accepts items drained = (length items < cb_task_queue_length) ⊎ (drained ≡ true)

  put_item-true :
      (i : Item) (q : Option (List Item)) (st : State p)
      → Gives (λ ok _. ok ≡ true) (put_item p i q st)
  unfolding put_item
  put_item-true i none st = tt
  put_item-true i (some items) st = refl

  send_to-true :
      (drained : Bool) (i : Item) (items : List Item) (st : State p)
      → Accepts items drained
      → Gives (λ ok _. ok ≡ true) (send_to p drained i (some items) st)
  unfolding send_to
  send_to-true drained i items st accepts =
      elim (Bool-cases (leb cb_task_queue_length (length items))) [
        | inr room ↦ rw (room, Ends) (put_item-true i (some items) st)
        | inl full ↦
            rw (full, waits accepts full, Ends)
              (bind-Ends (λ _ _. Unit {0}) (λ ok _. ok ≡ true) (λ _ _. Unit {0})
                (callback_round p st) (λ _ u. put_item p i u.queue u)
                (any_end (callback_round p st)) (λ _ u _. put_item-true i u.queue u))
      ]
    where
      waits :
          Accepts items drained → leb cb_task_queue_length (length items) ≡ true → drained ≡ true
      waits (inl room) full =
          let le : cb_task_queue_length ≤ length items = leb→le _ _ full in absurd (omega arith)
      waits (inr e) full = e

  pub queue_send-true :
      (drained : Bool) (i : Item) (items : List Item) (st : State p)
      → st.queue ≡ some items
      → Accepts items drained
      → Gives (λ ok _. ok ≡ true) (queue_send p drained i st)
  unfolding queue_send
  queue_send-true drained i items st e accepts = simp e (send_to-true drained i items st accepts)

  -- A round waits while the queue is empty.
  pub callback_round-nothing :
      (st : State p) → st.queue ≡ some [] → Returns (λ _ st'. st' ≡ st) (callback_round p st)
  unfolding callback_round take_item
  callback_round-nothing st e = simp e refl

  -- The memory and the topics.
  abbrev pub Known : List Topic → {A : Type 0} → A → State p → Type 0
  Known ts _ st = st.pairs ≡ ts

  allocate-Known :
      (ts : List Topic) (ok : Bool) (st : State p)
      → st.pairs ≡ ts
      → Gives (Known ts) (allocate p ok st)
  unfolding allocate
  allocate-Known ts false st e = e
  allocate-Known ts true st e = e

  pub malloc-Known :
      (ts : List Topic) (size : ℕ) (st : State p)
      → st.pairs ≡ ts
      → Gives (Known ts) (malloc p size st)
  unfolding malloc
  malloc-Known ts size st e =
      allocate-Known ts (p.has_memory size st.world).0
        (record st { world = (p.has_memory size st.world).1 }) e

  pub store-Known :
      (ts : List Topic) (a : ℕ) (v : List ℕ) (st : State p)
      → st.pairs ≡ ts
      → Gives (Known ts) (store p a v st)
  unfolding store
  store-Known ts a v st e = elim (Option-cases (lookup a st.heap.live)) [
    | inl none_there ↦ rw (none_there, Ends) tt
    | inr (w, there) ↦ rw (there, Ends) e
  ]
