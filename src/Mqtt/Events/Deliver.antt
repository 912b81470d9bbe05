-- ===== src/Mqtt/Events/Deliver.antt =====
-- From `pk_mqtt_set_subscribed_topics` over `mqtt_event_handler` to `mqtt_callback_task` of src/lib/mqtt.c:
-- which callback is called with the data of an event.
use mathlib.Core.List.{append-nil, append_assoc}
use vedruino.Base.{
  ℕ, zero, suc, ◌≤◌, ◌≡◌, ◌≢◌, sym, ap, ◌∙◌, Bool, true, Option, some, List, [], ◌∷◌, ◌++◌, All,
  length, replicate, arith, ◌>>◌, Returns, bind-Returns, Returns-mono,
}
use vedruino.Mqtt.Topic.{Topic}
use vedruino.Mqtt.Platform.{Platform, State, Item, Message}
use vedruino.Mqtt.Topics.{pk_mqtt_set_subscribed_topics}
use vedruino.Mqtt.Topics.Lookup.{Found, Replaced, set_subscribed_topics-Replaced}
use vedruino.Mqtt.Memory.{cb_task_queue_length, callback_round}
use vedruino.Mqtt.Memory.Steps.{Has}
use vedruino.Mqtt.Memory.Queue.{callback_round-Has}
use vedruino.Mqtt.Memory.Accept.{Accepts, callback_round-nothing}
use vedruino.Mqtt.Events.{Event, Action, mqtt_event_handler, run}
use vedruino.Mqtt.Events.Dispatch.{due, Dispatched, on_data-Dispatched}

module _ (p : Platform) (n : ℕ) where
  -- All that waited has been delivered, in its order.
  abbrev Emptied : List Message → State p → {A : Type 0} → A → State p → Type 0
  Emptied ms st _ st' = Has p n [] [] [] st' × (st'.calls ≡ st.calls ++ ms)

  -- As many rounds as items wait, or more, empty the queue.
  rounds-Emptied :
      (conf_retry k : ℕ) (items : List Item) (ms : List Message) (st : State p)
      → Has p n [] items ms st
      → length items ≤ k
      → Returns (Emptied ms st) (run p conf_retry (replicate k Action.round) st)
  unfolding run
  rounds-Emptied conf_retry k [] (m ∷ ms) st h le = absurd h.holding.owned.holds
  rounds-Emptied conf_retry k (i ∷ items) [] st h le = absurd h.holding.owned.holds
  rounds-Emptied conf_retry zero [] [] st h le = (h, sym (append-nil st.calls))
  rounds-Emptied conf_retry zero (i ∷ items) (m ∷ ms) st h le = absurd (omega arith)
  rounds-Emptied conf_retry (suc k) [] [] st h le =
      bind-Returns (λ _ v. v ≡ st) (Emptied [] st) (callback_round p st)
        (λ _. run p conf_retry (replicate k Action.round)) (callback_round-nothing p st h.queue)
        (λ _ v e. rw e (rounds-Emptied conf_retry k [] [] st h (omega arith)))
  rounds-Emptied conf_retry (suc k) (i ∷ items) (m ∷ ms) st h le =
      bind-Returns (λ _ v. Has p n [] items ms v × (v.calls ≡ st.calls ++ m ∷ []))
        (Emptied (m ∷ ms) st) (callback_round p st)
        (λ _. run p conf_retry (replicate k Action.round))
        (callback_round-Has p n [] i items m ms st h)
        (λ _ v (hv, e).
          Returns-mono (Emptied ms v) (Emptied (m ∷ ms) st)
            (run p conf_retry (replicate k Action.round) v)
            (rounds-Emptied conf_retry k items ms v hv (omega arith))
            (λ _ w (hw, f). (hw, f ∙ ap (λ c. c ++ ms) e ∙ append_assoc st.calls (m ∷ []) ms)))

  -- The callback that is due has been called behind those of the messages `ms`. The queue is empty, and
  -- no block of the heap is in use but the `n` of before.
  abbrev pub Called :
      (ts : List Topic) (topic bytes : List ℕ) (ms : List Message)
      → State p
      → {A : Type 0} → A
      → State p
      → Type 0
  Called ts topic bytes ms st _ st' =
      (r : Option Topic) × Found p ts topic r
      × (st'.calls ≡ (st.calls ++ ms) ++ due topic bytes r)
      × (st'.queue ≡ some [])
      × (length st'.heap.live ≡ n)

  module _ (items : List Item) (ms : List Message) (topic bytes : List ℕ) (drained : Bool)
      (ts : List Topic) (taken : (w : p.World) → (p.take_mutex w).0 ≡ true)
      (memory : (size : ℕ) (w : p.World) → (p.has_memory size w).0 ≡ true)
      (accepts : Accepts p items drained) (no_nul : All (λ b. b ≢ 0) topic) where
    Replaced-Has :
        (st v : State p) → Has p n [] items ms st → Replaced p ts st tt v → Has p n [] items ms v
    Replaced-Has st v h e = rw e record {
      queue = h.queue;
      holding = h.holding;
      bits = h.bits;
      group = h.group;
      mutex = h.mutex;
    }

    handler-Dispatched :
        (conf_retry : ℕ) (calls : List Message) (st : State p)
        → st.calls ≡ calls
        → Has p n [] items ms st
        → st.pairs ≡ p.qsort ts
        → Returns
            (Dispatched p n items ms calls topic bytes drained memory accepts ts taken no_nul)
            (mqtt_event_handler p conf_retry drained (Event.event_data topic bytes) st)
    unfolding mqtt_event_handler
    handler-Dispatched conf_retry calls st c h sorted =
        on_data-Dispatched p n items ms calls topic bytes drained memory accepts ts taken no_nul st
          (h, c) sorted

    run-Called :
        (conf_retry k : ℕ) (st v : State p)
        → cb_task_queue_length ≤ k
        → Dispatched p n items ms st.calls topic bytes drained memory accepts ts taken no_nul tt v
        → Returns (Called ts topic bytes ms st) (run p conf_retry (replicate k Action.round) v)
    run-Called conf_retry k st v le (r, found, (is, ms', h, e)) =
        Returns-mono (Emptied ms' v) (Called ts topic bytes ms st)
          (run p conf_retry (replicate k Action.round) v)
          (rounds-Emptied conf_retry k is ms' v h (omega (arith, le, h.holding.owned.limit)))
          (λ _ w (hw, f). (r, found, f ∙ e, hw.queue, omega (arith, hw.holding.owned.count)))

    -- Where the mutex can always be taken in time and `malloc` never fails, the topic of the event has no
    -- NUL in it, and the queue has room or an item is taken out of it in time:
    -- `pk_mqtt_set_subscribed_topics` for the topics `ts`, then `mqtt_event_handler` on the data of
    -- an event, and then ten or more rounds of `mqtt_callback_task` return. First the callbacks of the
    -- messages that waited have been called, in their order; then that of a topic of `ts` that has
    -- the name in the event, once, with the topic and the data of the event, or none, where no
    -- topic of `ts` has the name or its callback is NULL. The queue is empty, and no block of the heap
    -- is in use but those that were lost before.
    pub set_subscribed_topics-Called :
        (conf_retry k : ℕ) (st : State p)
        → Has p n [] items ms st
        → cb_task_queue_length ≤ k
        → Returns (Called ts topic bytes ms st) (
            (pk_mqtt_set_subscribed_topics p ts
                >> mqtt_event_handler p conf_retry drained (Event.event_data topic bytes)
                >> run p conf_retry (replicate k Action.round))
              st)
    set_subscribed_topics-Called conf_retry k st h le =
        bind-Returns
          (Dispatched p n items ms st.calls topic bytes drained memory accepts ts taken no_nul)
          (Called ts topic bytes ms st)
          ((pk_mqtt_set_subscribed_topics p ts
              >> mqtt_event_handler p conf_retry drained (Event.event_data topic bytes))
            st)
          (λ _. run p conf_retry (replicate k Action.round))
          (bind-Returns (Replaced p ts st)
            (Dispatched p n items ms st.calls topic bytes drained memory accepts ts taken no_nul)
            (pk_mqtt_set_subscribed_topics p ts st)
            (λ _. mqtt_event_handler p conf_retry drained (Event.event_data topic bytes))
            (set_subscribed_topics-Replaced p ts st taken h.mutex)
            (λ _ v e.
              handler-Dispatched conf_retry st.calls v (ap (λ (s : State p). s.calls) e)
                (Replaced-Has st v h e) (ap (λ (s : State p). s.pairs) e)))
          (λ _ v d. run-Called conf_retry k st v le d)
