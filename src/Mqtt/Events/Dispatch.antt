-- ===== src/Mqtt/Events/Dispatch.antt =====
-- The event MQTT_EVENT_DATA in `mqtt_event_handler` of src/lib/mqtt.c, where memory and the mutex can be
-- had and the queue takes an item: which callback the message is for.
use mathlib.Core.List.{append-nil}
use vedruino.Base.{
  ℕ, suc, ◌≡◌, ◌≢◌, refl, sym, ap, ◌∙◌, inl, inr, Bool, true, false, Option, none, some,
  Option-cases, List, [], ◌∷◌, ◌++◌, All, length, arith, ◌>>◌, Returns, Ends, bind-Returns,
  bind-Ends, Ends-Returns, Returns-mono, Returns-Ends,
}
use vedruino.Mqtt.Heap.{Block}
use vedruino.Mqtt.Topic.{Topic}
use vedruino.Mqtt.Platform.{Platform, State, Bits, Item, Message}
use vedruino.Mqtt.Topics.{c_string, find_callback, search_tmp_topic}
use vedruino.Mqtt.Topics.Lookup.{Found, find_callback-pairs, Found-by_bsearch}
use vedruino.Mqtt.Memory.{at_block, malloc, free, store, queue_send}
use vedruino.Mqtt.Memory.Steps.{Has, Allocated, malloc-Allocated}
use vedruino.Mqtt.Memory.Accept.{Gives, Accepts, queue_send-true, malloc-Known, store-Known}
use vedruino.Mqtt.Events.{
  set_bits, after_send, with_data, with_callback, with_pair, with_topic, on_data,
}
use vedruino.Mqtt.Events.Data.{topic_block, item, Tried, send-Tried}
use vedruino.Mqtt.Events.Kept.{Kept, set_bits-Kept, find_callback-Kept, store-Kept, free-Kept}

-- A text without NUL is read back whole.
c_string-text : (t : List ℕ) → All (λ b. b ≢ 0) t → c_string (t ++ 0 ∷ []) ≡ t
c_string-text [] h = refl
c_string-text (b ∷ t) h = ground (arith, h.0, c_string-text t h.1)

-- What a topic that was found is due: a call of its callback with the topic and the data, each with a NUL
-- behind it, and the size of the data; or nothing, if its callback is NULL.
abbrev pub due_to : (topic bytes : List ℕ) → Option ℕ → List Message
due_to topic bytes none = []
due_to topic bytes (some callback) =
    record {
      callback = callback;
      topic = topic ++ 0 ∷ [];
      bytes = bytes ++ 0 ∷ [];
      data_size = length bytes;
    }
    ∷ []

abbrev pub due : (topic bytes : List ℕ) → Option Topic → List Message
due topic bytes none = []
due topic bytes (some t) = due_to topic bytes t.callback

module _ (p : Platform) (n : ℕ) (items : List Item) (ms calls : List Message) (topic bytes : List ℕ)
    (drained : Bool) (memory : (size : ℕ) (w : p.World) → (p.has_memory size w).0 ≡ true)
    (accepts : Accepts p items drained) where
  -- The messages delivered and waiting are those of before, and then `new`. No block is lost.
  abbrev pub Gained : List Message → {A : Type 0} → A → State p → Type 0
  Gained new _ st =
      (items' : List Item) × (ms' : List Message) × Has p n [] items' ms' st
      × (st.calls ++ ms' ≡ (calls ++ ms) ++ new)

  abbrev blk : ℕ → Block
  blk t = topic_block p n items ms calls topic bytes drained t

  after_send-Gained :
      (t callback d : ℕ) (ok : Bool) (u : State p)
      → Tried p n items ms calls topic bytes drained t callback d ok u
      → ok ≡ true
      → Returns (Gained (due_to topic bytes (some callback))) (
          after_send p topic bytes drained
            (item p n items ms calls topic bytes drained t callback d)
            ok
            u)
  unfolding after_send
  after_send-Gained t callback d false u h e = cc
  after_send-Gained t callback d true u (v, c, (is, ms', h, f)) e =
      (is, ms', h, f ∙ ap (λ x. (x ++ ms) ++ due_to topic bytes (some callback)) c)

  send-true :
      (t callback d : ℕ) (u : State p)
      → Kept p n items ms calls (record { address = d; bytes = [] } ∷ blk t ∷ []) tt u
      → Gives p
          (λ ok _. ok ≡ true)
          ((store p d (bytes ++ 0 ∷ [])
              >> queue_send p drained (item p n items ms calls topic bytes drained t callback d))
            u)
  send-true t callback d u k =
      bind-Ends (Kept p n items ms calls blocks) (λ ok _. ok ≡ true) (λ _ _. Unit {0})
        (store p d (bytes ++ 0 ∷ []) u)
        (λ _. queue_send p drained (item p n items ms calls topic bytes drained t callback d))
        (Ends-Returns (Kept p n items ms calls blocks) (λ _ _. Unit {0})
          (store p d (bytes ++ 0 ∷ []) u)
          (store-Kept p n items ms calls (record { address = d; bytes = [] }) (bytes ++ 0 ∷ [])
            (blk t ∷ []) u k))
        (λ _ v (h, _).
          queue_send-true p drained (item p n items ms calls topic bytes drained t callback d) items
            v h.queue accepts)
    where
      blocks : List Block
      blocks = record { address = d; bytes = bytes ++ 0 ∷ [] } ∷ blk t ∷ []

  no_loss : {A : Type 0} → (size : ℕ) × (w : p.World) × ((p.has_memory size w).0 ≡ false) → A
  no_loss (size, w, e) = absurd (true-false (sym (memory size w) ∙ e))
    where
      true-false : true ≢ false
      true-false e = cc

  with_data-Gained :
      (t callback : ℕ) (st : State p) (r : Option ℕ) (u : State p)
      → st.calls ≡ calls
      → Allocated p n items ms (blk t ∷ []) st r u
      → Returns
          (Gained (due_to topic bytes (some callback)))
          (with_data p topic bytes drained t callback r u)
  unfolding with_data
  with_data-Gained t callback st none u c (h, e, none_left) = no_loss none_left
  with_data-Gained t callback st (some d) u c (h, e) =
      bind-Returns
        (λ ok w. Tried p n items ms calls topic bytes drained t callback d ok w × (ok ≡ true))
        (Gained (due_to topic bytes (some callback)))
        ((store p d (bytes ++ 0 ∷ []) >> queue_send p drained args) u)
        (after_send p topic bytes drained args)
        (Returns-Ends (Tried p n items ms calls topic bytes drained t callback d)
          (λ ok _. ok ≡ true) (λ _ _. Unit {0})
          ((store p d (bytes ++ 0 ∷ []) >> queue_send p drained args) u)
          (send-Tried p n items ms calls topic bytes drained t callback d u (h, e ∙ c))
          (send-true t callback d u (h, e ∙ c)))
        (λ ok w (tried, sent). after_send-Gained t callback d ok w tried sent)
    where
      args : Item
      args = item p n items ms calls topic bytes drained t callback d

  -- Nothing is due: the copy of the topic is freed.
  free-Gained :
      (t : ℕ) (st : State p)
      → Kept p n items ms calls (blk t ∷ []) tt st
      → Returns (Gained []) (free p t st)
  free-Gained t st k =
      Returns-mono (Kept p n items ms calls []) (Gained []) (free p t st)
        (free-Kept p n items ms calls (blk t) [] st k)
        (λ _ v (h, c). (items, ms, h, ap (λ x. x ++ ms) c ∙ sym (append-nil (calls ++ ms))))

  with_callback-Gained :
      (t : ℕ) (callback : Option ℕ) (st : State p)
      → Kept p n items ms calls (blk t ∷ []) tt st
      → Returns
          (Gained (due_to topic bytes callback))
          (with_callback p topic bytes drained t callback st)
  unfolding with_callback
  with_callback-Gained t none st k = free-Gained t st k
  with_callback-Gained t (some callback) st (h, c) =
      bind-Returns (Allocated p n items ms (blk t ∷ []) st)
        (Gained (due_to topic bytes (some callback))) (malloc p (suc (length bytes)) st)
        (with_data p topic bytes drained t callback)
        (malloc-Allocated p n items ms (blk t ∷ []) st (suc (length bytes)) h)
        (λ r u. with_data-Gained t callback st r u c)

  with_pair-Gained :
      (t : ℕ) (pair : Option Topic) (st : State p)
      → Kept p n items ms calls (blk t ∷ []) tt st
      → Returns (Gained (due topic bytes pair)) (with_pair p topic bytes drained t pair st)
  unfolding with_pair
  with_pair-Gained t none st k = free-Gained t st k
  with_pair-Gained t (some pair) st k = with_callback-Gained t pair.callback st k

  module _ (ts : List Topic) (taken : (w : p.World) → (p.take_mutex w).0 ≡ true)
      (no_nul : All (λ b. b ≢ 0) topic) where
    -- The topics are the given ones, sorted.
    abbrev Sorted : State p → Type 0
    Sorted st = st.pairs ≡ p.qsort ts

    -- What the search gives is due.
    abbrev pub Dispatched : {A : Type 0} → A → State p → Type 0
    Dispatched a st = (r : Option Topic) × Found p ts topic r × Gained (due topic bytes r) a st

    find-Found :
        (t : ℕ) (st : State p)
        → Kept p n items ms calls (blk t ∷ []) tt st
        → Sorted st
        → Returns
            (λ r v. Found p ts topic r × Kept p n items ms calls (blk t ∷ []) tt v)
            (at_block p t (λ v. find_callback p (c_string v)) st)
    find-Found t st (h, c) sorted =
        rw (h.holding.loose.0.2, c_string-text topic no_nul, Returns)
          (Returns-mono
            (λ r v.
              (r ≡ p.bsearch (search_tmp_topic p topic) st.pairs)
              × Kept p n items ms calls (blk t ∷ []) tt v)
            (λ r v. Found p ts topic r × Kept p n items ms calls (blk t ∷ []) tt v)
            (find_callback p topic st)
            (Returns-Ends (λ r _. r ≡ p.bsearch (search_tmp_topic p topic) st.pairs)
              (λ _ v. Kept p n items ms calls (blk t ∷ []) tt v) (λ _ _. Unit {0})
              (find_callback p topic st) (find_callback-pairs p topic st taken h.mutex)
              (Ends-Returns (λ _ v. Kept p n items ms calls (blk t ∷ []) tt v) (λ _ _. Unit {0})
                (find_callback p topic st)
                (find_callback-Kept p n items ms calls topic (blk t ∷ []) st (h, c))))
            (λ r v (at, k). (
              Found-by_bsearch p ts topic r
                  (sym (at ∙ ap (p.bsearch (search_tmp_topic p topic)) sorted)),
              k,
            )))

    with_topic-Dispatched :
        (st : State p) (r : Option ℕ) (u : State p)
        → st.calls ≡ calls
        → Allocated p n items ms [] st r u
        → Sorted u
        → Returns Dispatched (with_topic p topic bytes drained r u)
    unfolding with_topic
    with_topic-Dispatched st none u c (h, e, none_left) sorted = no_loss none_left
    with_topic-Dispatched st (some t) u c (h, e) sorted =
        bind-Returns (λ r v. Found p ts topic r × Kept p n items ms calls (blk t ∷ []) tt v)
          Dispatched
          ((store p t (topic ++ 0 ∷ []) >> at_block p t (λ v. find_callback p (c_string v))) u)
          (with_pair p topic bytes drained t)
          (bind-Returns (λ _ v. Kept p n items ms calls (blk t ∷ []) tt v × Sorted v)
            (λ r v. Found p ts topic r × Kept p n items ms calls (blk t ∷ []) tt v)
            (store p t (topic ++ 0 ∷ []) u) (λ _. at_block p t (λ v. find_callback p (c_string v)))
            (Returns-Ends (λ _ v. Kept p n items ms calls (blk t ∷ []) tt v) (λ _ v. Sorted v)
              (λ _ _. Unit {0}) (store p t (topic ++ 0 ∷ []) u)
              (store-Kept p n items ms calls (record { address = t; bytes = [] }) (topic ++ 0 ∷ [])
                [] u (h, e ∙ c))
              (store-Known p (p.qsort ts) t (topic ++ 0 ∷ []) u sorted))
            (λ _ v (k, s). find-Found t v k s))
          (λ r v (found, k).
            Returns-mono (Gained (due topic bytes r)) Dispatched
              (with_pair p topic bytes drained t r v) (with_pair-Gained t r v k)
              (λ _ w g. (r, found, g)))

    set_bits-Known :
        (f : Bits → Bits) (st : State p) → Sorted st → Gives p (λ _ v. Sorted v) (set_bits p f st)
    set_bits-Known f st e = elim (Option-cases st.event_group) [
      | inl none_there ↦ rw (none_there, Ends) tt
      | inr (b, there) ↦ rw (there, Ends) e
    ]

    pub on_data-Dispatched :
        (st : State p)
        → Kept p n items ms calls [] tt st
        → Sorted st
        → Returns Dispatched (on_data p topic bytes drained st)
    unfolding on_data
    on_data-Dispatched st k sorted =
        bind-Returns Copied Dispatched ((set_bits p with_bit >> malloc p (suc (length topic))) st)
          (with_topic p topic bytes drained)
          (bind-Returns (λ _ v. Kept p n items ms calls [] tt v × Sorted v) Copied
            (set_bits p with_bit st) (λ _. malloc p (suc (length topic)))
            (Returns-Ends (λ _ v. Kept p n items ms calls [] tt v) (λ _ v. Sorted v)
              (λ _ _. Unit {0}) (set_bits p with_bit st)
              (set_bits-Kept p n items ms calls with_bit [] st k)
              (set_bits-Known with_bit st sorted))
            (λ _ u ((h, c), s).
              Returns-mono (λ r v. Allocated p n items ms [] u r v × Sorted v) Copied
                (malloc p (suc (length topic)) u)
                (Returns-Ends (Allocated p n items ms [] u) (λ _ v. Sorted v) (λ _ _. Unit {0})
                  (malloc p (suc (length topic)) u)
                  (malloc-Allocated p n items ms [] u (suc (length topic)) h)
                  (malloc-Known p (p.qsort ts) (suc (length topic)) u s))
                (λ _ _ (a, s'). (u, c, a, s'))))
          (λ r v (u, c, a, s). with_topic-Dispatched u r v c a s)
      where
        with_bit : Bits → Bits
        with_bit b = record b { data_bit = true }

        Copied : Option ℕ → State p → Type 0
        Copied r v = (u : State p) × (u.calls ≡ calls) × Allocated p n items ms [] u r v × Sorted v
