-- ===== src/Mqtt/Events.antt =====
-- `mqtt_event_handler` of src/lib/mqtt.c, and runs of it beside `mqtt_callback_task`.
pub mod Kept
pub mod Data
pub mod Dispatch
pub mod Deliver
pub mod Handler
pub mod Frame
pub mod Runs
pub mod Retry
use vedruino.Base.{
  ℕ, zero, suc, ◌+◌, Bool, true, false, Option, none, some, List, [], ◌∷◌, ◌++◌, ltb, length, M,
  done, pure, stop, ◌>>=◌, ◌>>◌, modify, Halt,
}
use vedruino.Mqtt.Topic.{Topic}
use vedruino.Mqtt.Platform.{Platform, State, Bits, Item}
use vedruino.Mqtt.Topics.{c_string, find_callback}
use vedruino.Mqtt.Memory.{at_block, malloc, free, store, queue_send, callback_round}

-- `event->event_id`, with the fields that the handler reads.
pub data Event : Type 0 where
  event_connected : Event
  event_disconnected : Event
  event_subscribed : Event
  event_unsubscribed : Event
  event_published : Event
  event_data : (topic bytes : List ℕ) → Event
  event_error : Event
  event_other : Event

-- What may happen next: an event comes, or the callback task makes a round.
pub data Action : Type 0 where
  event : Event → (drained : Bool) → Action
  round : Action

module _ (p : Platform) where
  -- `xEventGroupSetBits`. The group has to be there.
  abbrev pub set_bits : (Bits → Bits) → M (State p) (Unit {0})
  set_bits f st = elim st.event_group [
    | none ↦ stop Halt.undefined_read st
    | some bits ↦ done tt (record st { event_group = some (f bits) })
  ]

  pub count_retry : (conf_retry : ℕ) → M (State p) (Unit {0})
  count_retry conf_retry st = elim (ltb st.retry conf_retry) [
    | true ↦ done tt (record st { retry = st.retry + 1 })
    | false ↦ set_bits (λ b. record b { fail = true }) st
  ]

  module _ (topic bytes : List ℕ) (drained : Bool) where
    after_send : Item → Bool → M (State p) (Unit {0})
    unfolding free
    after_send args true = pure tt
    after_send args false = free p args.bytes >> free p args.topic

    -- Where there is no memory for the data, the copy of the topic is not freed.
    with_data : (topic_copy callback : ℕ) → Option ℕ → M (State p) (Unit {0})
    unfolding store queue_send after_send
    with_data topic_copy callback none = pure tt
    with_data topic_copy callback (some data_copy) =
        store p data_copy (bytes ++ 0 ∷ [])
        >> queue_send p drained (record {
          callback = callback;
          topic = topic_copy;
          bytes = data_copy;
          data_size = length bytes;
        })
        >>= after_send (record {
          callback = callback;
          topic = topic_copy;
          bytes = data_copy;
          data_size = length bytes;
        })

    with_callback : (topic_copy : ℕ) → Option ℕ → M (State p) (Unit {0})
    unfolding with_data malloc free
    with_callback topic_copy none = free p topic_copy
    with_callback topic_copy (some callback) =
        malloc p (suc (length bytes)) >>= with_data topic_copy callback

    with_pair : (topic_copy : ℕ) → Option Topic → M (State p) (Unit {0})
    unfolding with_callback free
    with_pair topic_copy none = free p topic_copy
    with_pair topic_copy (some pair) = with_callback topic_copy pair.callback

    with_topic : Option ℕ → M (State p) (Unit {0})
    unfolding with_pair store find_callback
    with_topic none = pure tt
    with_topic (some topic_copy) =
        store p topic_copy (topic ++ 0 ∷ [])
        >> at_block p topic_copy (λ v. find_callback p (c_string v))
        >>= with_pair topic_copy

    pub on_data : M (State p) (Unit {0})
    unfolding with_topic malloc
    on_data =
        set_bits (λ b. record b { data_bit = true }) >> malloc p (suc (length topic)) >>= with_topic

  unfoldable pub mqtt_event_handler :
      (conf_retry : ℕ) → (drained : Bool) → Event → M (State p) (Unit {0})
  unfolding count_retry on_data
  mqtt_event_handler conf_retry drained Event.event_connected =
      set_bits (λ b. record b { connected = true })
  mqtt_event_handler conf_retry drained Event.event_disconnected =
      set_bits (λ b. record b { disconnected = true }) >> count_retry conf_retry
  mqtt_event_handler conf_retry drained Event.event_subscribed =
      set_bits (λ b. record b { subscribed = true })
  mqtt_event_handler conf_retry drained Event.event_unsubscribed =
      set_bits (λ b. record b { unsubscribed = true })
  mqtt_event_handler conf_retry drained Event.event_published =
      set_bits (λ b. record b { published = true })
  mqtt_event_handler conf_retry drained (Event.event_data topic bytes) = on_data topic bytes drained
  mqtt_event_handler conf_retry drained Event.event_error = pure tt
  mqtt_event_handler conf_retry drained Event.event_other = pure tt

  abbrev pub act : (conf_retry : ℕ) → Action → M (State p) (Unit {0})
  act conf_retry (Action.event e drained) = mqtt_event_handler conf_retry drained e
  act conf_retry Action.round = callback_round p

  unfoldable pub run : (conf_retry : ℕ) → List Action → M (State p) (Unit {0})
  run conf_retry [] = pure tt
  run conf_retry (a ∷ more) = act conf_retry a >> run conf_retry more
