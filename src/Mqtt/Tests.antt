-- ===== src/Mqtt/Tests.antt =====
-- The theorems on src/lib/mqtt.c at concrete inputs.
use vedruino.Base.{
  refl, inl, inr, replicate, true, false, some, List, [], ◌∷◌, arith, Returns, ◌>>◌,
}
use vedruino.Mqtt.Topic.{Topic}
use vedruino.Mqtt.Platform.{State}
use vedruino.Mqtt.Network.{network}
use vedruino.Mqtt.Topics.{pk_mqtt_set_subscribed_topics, find_callback}
use vedruino.Mqtt.Topics.Lookup.{Found, find_callback-set_subscribed_topics}
use vedruino.Mqtt.Memory.Steps.{Has}
use vedruino.Mqtt.Events.{Event, Action, mqtt_event_handler, run}
use vedruino.Mqtt.Events.Deliver.{Called, set_subscribed_topics-Called}
use vedruino.Mqtt.Events.Runs.{Ran, run-Ran}
use vedruino.Mqtt.Events.Retry.{Counted, run-Counted}
use vedruino.Mqtt.Connect.{no_bits, pk_mqtt_connect}
use vedruino.Mqtt.Connect.Ends.{Tried, pk_mqtt_connect-Tried}

abbrev topics : List Topic
topics =
    record { name = b'b' ∷ []; callback = some 2; qos = 0 }
    ∷ record { name = b'a' ∷ b'b' ∷ []; callback = some 1; qos = 1 }
    ∷ []

abbrev online : State network
online = record {
  world = 0;
  client = some 1;
  event_group = some no_bits;
  topics_mutex = true;
  pairs = topics;
  retry = 0;
  queue = some [];
  task = true;
  heap = record { next = 1; live = [] };
  calls = [];
}

abbrev online-Has : Has network 0 [] [] [] online
online-Has = record {
  queue = refl;
  holding = record {
    owned = record { holds = tt; distinct = tt; below = tt; count = refl; limit = omega arith };
    loose = tt;
    distinct = tt;
  };
  bits = no_bits;
  group = refl;
  mutex = refl;
}

-- Two messages for a topic with a callback, one for a topic without, and two losses of the connection.
abbrev actions : List Action
actions =
    Action.event (Event.event_data (b'b' ∷ []) (b'1' ∷ [])) false
    ∷ Action.event Event.event_disconnected false
    ∷ Action.event (Event.event_data (b'c' ∷ []) (b'2' ∷ [])) false
    ∷ Action.round
    ∷ Action.event Event.event_disconnected false
    ∷ Action.event (Event.event_data (b'b' ∷ []) (b'3' ∷ [])) false
    ∷ []

find_callback-set_subscribed_topics_example :
    Returns
      (λ r _. Found network topics (b'b' ∷ []) r)
      ((pk_mqtt_set_subscribed_topics network topics >> find_callback network (b'b' ∷ [])) online)
find_callback-set_subscribed_topics_example =
    find_callback-set_subscribed_topics network topics (b'b' ∷ []) online (λ w. refl) refl

run-Ran_example : Returns (Ran network 0 [] [] actions) (run network 3 actions online)
run-Ran_example = run-Ran network 3 0 [] [] actions online online-Has

run-Counted_example : Returns (λ _ u. Counted network 1 0 false 2 u) (run network 1 actions online)
run-Counted_example =
    run-Counted network 1 0 [] [] false actions online online-Has (omega arith) refl

pk_mqtt_connect-Tried_example :
    Returns (Tried network online) (pk_mqtt_connect network 1 actions online)
pk_mqtt_connect-Tried_example =
    pk_mqtt_connect-Tried network 1 online actions (omega arith) (inr (omega arith)) (λ w. refl)
      (λ w. refl)

set_subscribed_topics-Called_example :
    Returns (Called network 0 topics (b'a' ∷ b'b' ∷ []) (b'7' ∷ []) [] online) (
      (pk_mqtt_set_subscribed_topics network topics
          >> mqtt_event_handler network 3 false (Event.event_data (b'a' ∷ b'b' ∷ []) (b'7' ∷ []))
          >> run network 3 (replicate 10 Action.round))
        online)
set_subscribed_topics-Called_example =
    set_subscribed_topics-Called network 0 [] [] (b'a' ∷ b'b' ∷ []) (b'7' ∷ []) false topics
      (λ w. refl) (λ size w. refl) (inl (omega arith))
      ((λ e. omega (arith, e)), ((λ e. omega (arith, e)), tt)) 3 10 online online-Has (omega arith)
