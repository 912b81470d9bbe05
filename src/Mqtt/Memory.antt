-- ===== src/Mqtt/Memory.antt =====
-- The memory and the queue of src/lib/mqtt.c as steps on its state, and `mqtt_callback_task`.
pub mod Owned
pub mod Loose
pub mod Steps
pub mod Queue
pub mod Frame
pub mod Accept
use vedruino.Base.{
  ℕ, zero, suc, Bool, true, false, Option, none, some, List, [], ◌∷◌, ◌++◌, leb, length, M, pure,
  stop, ◌>>=◌, ◌>>◌, modify, Halt,
}
use vedruino.Mqtt.Heap.{Heap, lookup, remove, write, alloc}
use vedruino.Mqtt.Platform.{Platform, State, Item, Message, io}

-- `CB_TASK_QUEUE_LENGTH`
abbrev pub cb_task_queue_length : ℕ
cb_task_queue_length = 10

module _ (p : Platform) where
  -- Where `a` is not the address of a block in use, an access has no defined meaning.
  abbrev pub at_block : {A : Type 0} → (a : ℕ) → (List ℕ → M (State p) A) → M (State p) A
  at_block a f st = elim (lookup a st.heap.live) [
    | none ↦ stop Halt.undefined_read st
    | some v ↦ f v st
  ]

  abbrev pub set_heap : (Heap → Heap) → M (State p) (Unit {0})
  set_heap f = modify (λ st. record st { heap = f st.heap })

  allocate : Bool → M (State p) (Option ℕ)
  allocate false st = pure none st
  allocate true st = (set_heap alloc >> pure (some st.heap.next)) st

  unfoldable pub malloc : (size : ℕ) → M (State p) (Option ℕ)
  unfolding allocate
  malloc size = io p (p.has_memory size) >>= allocate

  unfoldable pub free : (a : ℕ) → M (State p) (Unit {0})
  free a = at_block a (λ _. set_heap (λ h. record h { live = remove a h.live }))

  unfoldable pub store : (a : ℕ) → List ℕ → M (State p) (Unit {0})
  store a v = at_block a (λ _. set_heap (λ h. record h { live = write a v h.live }))

  -- The callback runs and sees what its arguments point to.
  run_callback : Item → M (State p) (Unit {0})
  run_callback args = at_block args.topic λ topic. at_block args.bytes λ bytes. modify λ st.
      record st {
        calls =
            st.calls
            ++ record {
              callback = args.callback;
              topic = topic;
              bytes = bytes;
              data_size = args.data_size;
            }
              ∷ [];
      }

  pub receive : Item → List Item → M (State p) (Unit {0})
  unfolding run_callback free
  receive args rest =
      modify (λ st. record st { queue = some rest })
      >> run_callback args
      >> free args.bytes
      >> free args.topic

  take_item : Option (List Item) → M (State p) (Unit {0})
  unfolding receive
  take_item none = stop Halt.undefined_read
  take_item (some []) = pure tt
  take_item (some (args ∷ rest)) = receive args rest

  -- One round of the loop of `mqtt_callback_task`. It waits while the queue is empty.
  unfoldable pub callback_round : M (State p) (Unit {0})
  unfolding take_item
  callback_round st = take_item st.queue st

  put_item : Item → Option (List Item) → M (State p) Bool
  put_item args none = stop Halt.undefined_read
  put_item args (some items) =
      modify (λ st. record st { queue = some (items ++ args ∷ []) }) >> pure true

  send_to : (drained : Bool) → Item → Option (List Item) → M (State p) Bool
  unfolding put_item callback_round
  send_to drained args none st = stop Halt.undefined_read st
  send_to drained args (some items) st = elim (leb cb_task_queue_length (length items)) [
    | false ↦ put_item args (some items) st
    | true ↦ elim drained [
      | true ↦ (callback_round >> λ st'. put_item args st'.queue st') st
      | false ↦ pure false st
    ]
  ]

  -- The documented behaviour of `xQueueSend` on the queue of the source, which holds the items of this file.
  -- Where the queue is full it waits, and `drained` says whether the task takes an item out of it in time.
  unfoldable pub queue_send : (drained : Bool) → Item → M (State p) Bool
  unfolding send_to
  queue_send drained args st = send_to drained args st.queue st
