-- ===== src/Mqtt/Memory/Frame.antt =====
-- What the memory and the queue of src/lib/mqtt.c leave alone: the count of retries, the fail bit, and the
-- handles of the task and of the client.
use vedruino.Base.{
  ℕ, ◌≡◌, refl, ◌∙◌, inl, inr, Bool, true, false, Bool-cases, Option, none, some, Option-cases,
  List, [], ◌∷◌, leb, length, M, Outcome, done, halt, ◌>>=◌, Ends, bind-Ends, ap, Ends-Returns,
  Returns-mono,
}
use vedruino.Mqtt.Heap.{lookup}
use vedruino.Mqtt.Platform.{Platform, State, Bits, Item, io}
use vedruino.Mqtt.Topics.{find_callback}
use vedruino.Mqtt.Topics.Lookup.{Same, find_callback-Same, find_callback-no_mutex}
use vedruino.Mqtt.Memory.{
  cb_task_queue_length, at_block, allocate, malloc, free, store, run_callback, receive, take_item,
  callback_round, put_item, send_to, queue_send,
}

-- The fail bit, where there is an event group.
abbrev pub fail_of : Option Bits → Option Bool
fail_of none = none
fail_of (some bits) = some bits.fail

module _ (p : Platform) where
  -- The handles of the task and of the client are the same.
  abbrev pub Handles : State p → State p → Type 0
  Handles st st' = (st'.task ≡ st.task) × (st'.client ≡ st.client)

  abbrev pub Frame : State p → State p → Type 0
  Frame st st' =
      (st'.retry ≡ st.retry) × (fail_of st'.event_group ≡ fail_of st.event_group) × Handles st st'

  -- However the call ends, it has left them alone.
  abbrev pub Keeps : {A : Type 0} → M (State p) A → Type 0
  Keeps m = (st : State p) → Ends (λ _ u. Frame st u) (λ _ u. Frame st u) (m st)

  pub Ends-Frame :
      {A : Type 0} (st u : State p) (m : M (State p) A)
      → Frame st u
      → Keeps m
      → Ends (λ _ v. Frame st v) (λ _ v. Frame st v) (m u)
  Ends-Frame {A} st u m (e, f, (g, h)) keeps = along (m u) (keeps u)
    where
      along :
          (r : Outcome (State p) A)
          → Ends (λ _ v. Frame u v) (λ _ v. Frame u v) r
          → Ends (λ _ v. Frame st v) (λ _ v. Frame st v) r
      along (done a v) (x, y, (z, t)) = (x ∙ e, y ∙ f, (z ∙ g, t ∙ h))
      along (halt end v) (x, y, (z, t)) = (x ∙ e, y ∙ f, (z ∙ g, t ∙ h))

  pub bind-Keeps :
      {A B : Type 0} (m : M (State p) A) (k : A → M (State p) B)
      → Keeps m
      → ((a : A) → Keeps (k a))
      → Keeps (m >>= k)
  bind-Keeps m k x y st =
      bind-Ends (λ _ u. Frame st u) (λ _ u. Frame st u) (λ _ u. Frame st u) (m st) k (x st)
        (λ a u f. Ends-Frame st u (k a) f (y a))

  pub at_block-Keeps :
      {A : Type 0} (a : ℕ) (f : List ℕ → M (State p) A)
      → ((v : List ℕ) → Keeps (f v))
      → Keeps (at_block p a f)
  at_block-Keeps a f h st = elim (Option-cases (lookup a st.heap.live)) [
    | inl none_there ↦ rw (none_there, Ends) (refl, refl, (refl, refl))
    | inr (v, there) ↦ rw (there, Ends) (h v st)
  ]

  allocate-Keeps : (ok : Bool) → Keeps (allocate p ok)
  unfolding allocate
  allocate-Keeps false st = (refl, refl, (refl, refl))
  allocate-Keeps true st = (refl, refl, (refl, refl))

  pub malloc-Keeps : (size : ℕ) → Keeps (malloc p size)
  unfolding malloc
  malloc-Keeps size =
      bind-Keeps (io p (p.has_memory size)) (allocate p) (λ st. (refl, refl, (refl, refl)))
        allocate-Keeps

  pub free-Keeps : (a : ℕ) → Keeps (free p a)
  unfolding free
  free-Keeps a = at_block-Keeps a _ (λ _ st. (refl, refl, (refl, refl)))

  pub store-Keeps : (a : ℕ) (v : List ℕ) → Keeps (store p a v)
  unfolding store
  store-Keeps a v = at_block-Keeps a _ (λ _ st. (refl, refl, (refl, refl)))

  run_callback-Keeps : (i : Item) → Keeps (run_callback p i)
  unfolding run_callback
  run_callback-Keeps i =
      at_block-Keeps i.topic _
        (λ topic. at_block-Keeps i.bytes _ (λ bytes st. (refl, refl, (refl, refl))))

  take_item-Keeps : (items : Option (List Item)) → Keeps (take_item p items)
  unfolding take_item receive
  take_item-Keeps none st = (refl, refl, (refl, refl))
  take_item-Keeps (some []) st = (refl, refl, (refl, refl))
  take_item-Keeps (some (i ∷ rest)) st =
      bind-Keeps _ (λ _. free p i.topic)
        (bind-Keeps _ (λ _. free p i.bytes)
          (bind-Keeps (λ st. done tt (record st { queue = some rest })) (λ _. run_callback p i)
            (λ st. (refl, refl, (refl, refl))) (λ _. run_callback-Keeps i))
          (λ _. free-Keeps i.bytes))
        (λ _. free-Keeps i.topic) st

  pub callback_round-Keeps : Keeps (callback_round p)
  unfolding callback_round
  callback_round-Keeps st = take_item-Keeps st.queue st

  put_item-Keeps : (i : Item) (items : Option (List Item)) → Keeps (put_item p i items)
  unfolding put_item
  put_item-Keeps i none st = (refl, refl, (refl, refl))
  put_item-Keeps i (some items) st = (refl, refl, (refl, refl))

  send_to-Keeps :
      (drained : Bool) (i : Item) (items : Option (List Item)) → Keeps (send_to p drained i items)
  unfolding send_to
  send_to-Keeps drained i none st = (refl, refl, (refl, refl))
  send_to-Keeps drained i (some items) st =
      elim (Bool-cases (leb cb_task_queue_length (length items))) [
        | inr room ↦ rw (room, Ends) (put_item-Keeps i (some items) st)
        | inl full ↦ elim (Bool-cases drained) [
          | inl waits ↦
              rw (full, waits, Ends)
                (bind-Keeps (callback_round p) (λ _ u. put_item p i u.queue u) callback_round-Keeps
                  (λ _ u. put_item-Keeps i u.queue u) st)
          | inr fails ↦ rw (full, fails, Ends) (refl, refl, (refl, refl))
        ]
      ]

  pub queue_send-Keeps : (drained : Bool) (i : Item) → Keeps (queue_send p drained i)
  unfolding queue_send
  queue_send-Keeps drained i st = send_to-Keeps drained i st.queue st

  pub find_callback-Keeps : (name : List ℕ) → Keeps (find_callback p name)
  find_callback-Keeps name st = elim (Bool-cases st.topics_mutex) [
    | inl there ↦
        Ends-Returns (λ _ u. Frame st u) (λ _ u. Frame st u) (find_callback p name st)
          (Returns-mono (λ _ u. Same p st u) (λ _ u. Frame st u) (find_callback p name st)
            (find_callback-Same p name st there)
            (λ _ u e. (
              ap (λ (s : State p). s.retry) e,
              ap (λ (s : State p). fail_of s.event_group) e,
              (ap (λ (s : State p). s.task) e, ap (λ (s : State p). s.client) e),
            )))
    | inr none_there ↦
        rw (find_callback-no_mutex p name st none_there, Ends) (refl, refl, (refl, refl))
  ]
