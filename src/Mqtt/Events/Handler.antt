-- ===== src/Mqtt/Events/Handler.antt =====
-- `mqtt_event_handler` of src/lib/mqtt.c returns on every event, and what becomes of the data it is given.
use vedruino.Base.{ℕ, Bool, true, List, [], Returns, bind-Returns, Returns-mono}
use vedruino.Mqtt.Platform.{Platform, State, Item, Message}
use vedruino.Mqtt.Events.{Event, set_bits, count_retry, mqtt_event_handler}
use vedruino.Mqtt.Events.Kept.{
  Kept, Handled, Kept-Handled, set_bits-Kept, count_retry-Kept, only_bits,
}
use vedruino.Mqtt.Events.Data.{on_data-Handled}

module _ (p : Platform) (n : ℕ) (items : List Item) (ms calls : List Message) where
  -- The handler on one event, in a state where `Has` holds.
  pub mqtt_event_handler-Handled :
      (conf_retry : ℕ) (drained : Bool) (e : Event) (st : State p)
      → Kept p n items ms calls [] tt st
      → Returns (Handled p n items ms calls e) (mqtt_event_handler p conf_retry drained e st)
  unfolding mqtt_event_handler
  mqtt_event_handler-Handled conf_retry drained Event.event_connected st k =
      only_bits p n items ms calls Event.event_connected (λ b. record b { connected = true }) st k
  mqtt_event_handler-Handled conf_retry drained Event.event_disconnected st k =
      bind-Returns (Kept p n items ms calls [])
        (Handled p n items ms calls Event.event_disconnected)
        (set_bits p (λ b. record b { disconnected = true }) st) (λ _. count_retry p conf_retry)
        (set_bits-Kept p n items ms calls (λ b. record b { disconnected = true }) [] st k)
        (λ _ u ku.
          Returns-mono (Kept p n items ms calls [])
            (Handled p n items ms calls Event.event_disconnected) (count_retry p conf_retry u)
            (count_retry-Kept p n items ms calls conf_retry u ku)
            (Kept-Handled p n items ms calls Event.event_disconnected))
  mqtt_event_handler-Handled conf_retry drained Event.event_subscribed st k =
      only_bits p n items ms calls Event.event_subscribed (λ b. record b { subscribed = true }) st k
  mqtt_event_handler-Handled conf_retry drained Event.event_unsubscribed st k =
      only_bits p n items ms calls Event.event_unsubscribed (λ b. record b { unsubscribed = true })
        st k
  mqtt_event_handler-Handled conf_retry drained Event.event_published st k =
      only_bits p n items ms calls Event.event_published (λ b. record b { published = true }) st k
  mqtt_event_handler-Handled conf_retry drained (Event.event_data topic bytes) st k =
      on_data-Handled p n items ms calls topic bytes drained st k
  mqtt_event_handler-Handled conf_retry drained Event.event_error st k =
      Kept-Handled p n items ms calls Event.event_error tt st k
  mqtt_event_handler-Handled conf_retry drained Event.event_other st k =
      Kept-Handled p n items ms calls Event.event_other tt st k
