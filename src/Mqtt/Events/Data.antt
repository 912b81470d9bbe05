-- ===== src/Mqtt/Events/Data.antt =====
-- The event MQTT_EVENT_DATA in `mqtt_event_handler` of src/lib/mqtt.c.
use vedruino.Base.{
  ℕ, suc, ◌≡◌, refl, sym, ap, ◌∙◌, inl, inr, Bool, true, false, Option, none, some, List, [], ◌∷◌,
  ◌++◌, length, ◌>>◌, Returns, bind-Returns, Returns-mono,
}
use mathlib.Core.List.{append-nil}
use vedruino.Mqtt.Heap.{Block}
use vedruino.Mqtt.Topic.{Topic}
use vedruino.Mqtt.Platform.{Platform, State, Item, Message}
use vedruino.Mqtt.Topics.{c_string, find_callback}
use vedruino.Mqtt.Memory.{at_block, malloc, free, store, queue_send}
use vedruino.Mqtt.Memory.Loose.{Holding-leak}
use vedruino.Mqtt.Memory.Steps.{Has, Allocated, malloc-Allocated, free_both-Has}
use vedruino.Mqtt.Memory.Queue.{Queued, queue_send-Queued}
use vedruino.Mqtt.Events.{
  Event, set_bits, after_send, with_data, with_callback, with_pair, with_topic, on_data,
}
use vedruino.Mqtt.Events.Kept.{
  Kept, Handled, Kept-Handled, set_bits-Kept, find_callback-Kept, store-Kept, free-Handled,
}

module _ (p : Platform) (n : ℕ) (items : List Item) (ms calls : List Message) where
  module _ (topic bytes : List ℕ) (drained : Bool) where
    abbrev data_event : Event
    data_event = Event.event_data topic bytes

    abbrev pub topic_block : ℕ → Block
    topic_block t = record { address = t; bytes = topic ++ 0 ∷ [] }

    abbrev pub item : (t callback d : ℕ) → Item
    item t callback d = record {
      callback = callback;
      topic = t;
      bytes = d;
      data_size = length bytes;
    }

    abbrev message : (callback : ℕ) → Message
    message callback = record {
      callback = callback;
      topic = topic ++ 0 ∷ [];
      bytes = bytes ++ 0 ∷ [];
      data_size = length bytes;
    }

    after_send-Handled :
        (t callback d : ℕ) (st : State p)
        → st.calls ≡ calls
        → (ok : Bool) (u : State p)
        → Queued p n (item t callback d) (message callback) refl refl ms st ok u
        → Returns
            (Handled p n items ms calls data_event)
            (after_send p topic bytes drained (item t callback d) ok u)
    unfolding after_send
    after_send-Handled t callback d st c true u (is, ms', h, e) = (
      is,
      ms',
      message callback ∷ [],
      n,
      h,
      e ∙ ap (λ x. (x ++ ms) ++ message callback ∷ []) c,
      (refl, refl, refl),
      inl refl,
    )
    after_send-Handled t callback d st c false u (is, ms', h, e) =
        Returns-mono (λ _ v. Has p n [] is ms' v × (v.calls ≡ u.calls))
          (Handled p n items ms calls data_event) ((free p d >> free p t) u)
          (free_both-Has p n is ms' (record { address = d; bytes = bytes ++ 0 ∷ [] })
            (topic_block t) u h)
          (λ _ v (hv, f). (
            is,
            ms',
            [],
            n,
            hv,
            ap (λ x. x ++ ms') f ∙ e ∙ ap (λ x. x ++ ms) c ∙ sym (append-nil (calls ++ ms)),
            tt,
            inl refl,
          ))

    -- The copies are complete and `xQueueSend` has been called.
    abbrev pub Tried : (t callback d : ℕ) → Bool → State p → Type 0
    Tried t callback d ok w =
        (v : State p) × (v.calls ≡ calls)
        × Queued p n (item t callback d) (message callback) refl refl ms v ok w

    pub send-Tried :
        (t callback d : ℕ) (u : State p)
        → Kept p n items ms calls (record { address = d; bytes = [] } ∷ topic_block t ∷ []) tt u
        → Returns
            (Tried t callback d)
            ((store p d (bytes ++ 0 ∷ []) >> queue_send p drained (item t callback d)) u)
    send-Tried t callback d u k =
        bind-Returns (Kept p n items ms calls blocks) (Tried t callback d)
          (store p d (bytes ++ 0 ∷ []) u) (λ _. queue_send p drained (item t callback d))
          (store-Kept p n items ms calls (record { address = d; bytes = [] }) (bytes ++ 0 ∷ [])
            (topic_block t ∷ []) u k)
          (λ _ v (hv, f).
            Returns-mono (Queued p n (item t callback d) (message callback) refl refl ms v)
              (Tried t callback d) (queue_send p drained (item t callback d) v)
              (queue_send-Queued p n (item t callback d) (message callback) refl refl drained items
                ms v hv)
              (λ _ _ q. (v, f, q)))
      where
        blocks : List Block
        blocks = record { address = d; bytes = bytes ++ 0 ∷ [] } ∷ topic_block t ∷ []

    with_data-Handled :
        (t callback : ℕ) (st : State p) (r : Option ℕ) (u : State p)
        → st.calls ≡ calls
        → Allocated p n items ms (topic_block t ∷ []) st r u
        → Returns
            (Handled p n items ms calls data_event)
            (with_data p topic bytes drained t callback r u)
    unfolding with_data
    with_data-Handled t callback st none u c (h, e, no_memory) = (
      items,
      ms,
      [],
      suc n,
      record {
        queue = h.queue;
        holding = Holding-leak n items ms u.heap (topic_block t) h.holding;
        bits = h.bits;
        group = h.group;
        mutex = h.mutex;
      },
      ap (λ x. x ++ ms) (e ∙ c) ∙ sym (append-nil (calls ++ ms)),
      tt,
      inr (refl, no_memory),
    )
    with_data-Handled t callback st (some d) u c (h, e) =
        bind-Returns (Tried t callback d) (Handled p n items ms calls data_event)
          ((store p d (bytes ++ 0 ∷ []) >> queue_send p drained (item t callback d)) u)
          (after_send p topic bytes drained (item t callback d))
          (send-Tried t callback d u (h, e ∙ c))
          (λ ok w (v, f, q). after_send-Handled t callback d v f ok w q)

    with_callback-Handled :
        (t : ℕ) (callback : Option ℕ) (st : State p)
        → Kept p n items ms calls (topic_block t ∷ []) tt st
        → Returns
            (Handled p n items ms calls data_event)
            (with_callback p topic bytes drained t callback st)
    unfolding with_callback
    with_callback-Handled t none st k =
        free-Handled p n items ms calls data_event (topic_block t) st k
    with_callback-Handled t (some callback) st (h, c) =
        bind-Returns (Allocated p n items ms (topic_block t ∷ []) st)
          (Handled p n items ms calls data_event) (malloc p (suc (length bytes)) st)
          (with_data p topic bytes drained t callback)
          (malloc-Allocated p n items ms (topic_block t ∷ []) st (suc (length bytes)) h)
          (λ r u. with_data-Handled t callback st r u c)

    with_pair-Handled :
        (t : ℕ) (pair : Option Topic) (st : State p)
        → Kept p n items ms calls (topic_block t ∷ []) tt st
        → Returns
            (Handled p n items ms calls data_event)
            (with_pair p topic bytes drained t pair st)
    unfolding with_pair
    with_pair-Handled t none st k = free-Handled p n items ms calls data_event (topic_block t) st k
    with_pair-Handled t (some pair) st k = with_callback-Handled t pair.callback st k

    find-Kept :
        (t : ℕ) (st : State p)
        → Kept p n items ms calls (topic_block t ∷ []) tt st
        → Returns
            (Kept p n items ms calls (topic_block t ∷ []))
            (at_block p t (λ v. find_callback p (c_string v)) st)
    find-Kept t st (h, c) =
        rw (h.holding.loose.0.2, Returns)
          (find_callback-Kept p n items ms calls (c_string (topic ++ 0 ∷ [])) (topic_block t ∷ [])
            st (h, c))

    with_topic-Handled :
        (st : State p) (r : Option ℕ) (u : State p)
        → st.calls ≡ calls
        → Allocated p n items ms [] st r u
        → Returns (Handled p n items ms calls data_event) (with_topic p topic bytes drained r u)
    unfolding with_topic
    with_topic-Handled st none u c (h, e, _) =
        Kept-Handled p n items ms calls data_event tt u (h, e ∙ c)
    with_topic-Handled st (some t) u c (h, e) =
        bind-Returns (Kept p n items ms calls (topic_block t ∷ []))
          (Handled p n items ms calls data_event)
          ((store p t (topic ++ 0 ∷ []) >> at_block p t (λ v. find_callback p (c_string v))) u)
          (with_pair p topic bytes drained t)
          (bind-Returns (Kept p n items ms calls (topic_block t ∷ []))
            (Kept p n items ms calls (topic_block t ∷ [])) (store p t (topic ++ 0 ∷ []) u)
            (λ _. at_block p t (λ v. find_callback p (c_string v)))
            (store-Kept p n items ms calls (record { address = t; bytes = [] }) (topic ++ 0 ∷ []) []
              u (h, e ∙ c))
            (λ _ v. find-Kept t v))
          (λ pair v. with_pair-Handled t pair v)

    pub on_data-Handled :
        (st : State p)
        → Kept p n items ms calls [] tt st
        → Returns (Handled p n items ms calls data_event) (on_data p topic bytes drained st)
    unfolding on_data
    on_data-Handled st k =
        bind-Returns Copied (Handled p n items ms calls data_event)
          ((set_bits p (λ b. record b { data_bit = true }) >> malloc p (suc (length topic))) st)
          (with_topic p topic bytes drained)
          (bind-Returns (Kept p n items ms calls []) Copied
            (set_bits p (λ b. record b { data_bit = true }) st) (λ _. malloc p (suc (length topic)))
            (set_bits-Kept p n items ms calls (λ b. record b { data_bit = true }) [] st k)
            (λ _ u (h, c).
              Returns-mono (Allocated p n items ms [] u) Copied (malloc p (suc (length topic)) u)
                (malloc-Allocated p n items ms [] u (suc (length topic)) h) (λ _ _ a. (u, c, a))))
          (λ r v (u, c, a). with_topic-Handled u r v c a)
      where
        Copied : Option ℕ → State p → Type 0
        Copied r v = (u : State p) × (u.calls ≡ calls) × Allocated p n items ms [] u r v
