-- ===== src/Mqtt/Connect.antt =====
-- `pk_mqtt_connect`, `pk_mqtt_delete`, `pk_mqtt_stop` and `pk_mqtt_resume` of src/lib/mqtt.c.
pub mod Wait
pub mod Ends
use vedruino.Base.{
  ℕ, Bool, true, false, ◌||◌, Option, none, some, List, [], ◌∷◌, M, pure, stop, ◌>>=◌, ◌>>◌, modify,
  Halt, if◌then◌else◌,
}
use vedruino.Mqtt.Platform.{Platform, State, Bits, Item, io}
use vedruino.Mqtt.Events.{Action, act}

-- `xEventGroupCreate`: no bit is set.
abbrev pub no_bits : Bits
no_bits = record {
  connected = false;
  disconnected = false;
  published = false;
  subscribed = false;
  unsubscribed = false;
  data_bit = false;
  fail = false;
}

-- `bits & (PK_MQTT_CONNECTED_BIT | PK_MQTT_FAIL_BIT)`
abbrev pub decided : Bits → Bool
decided bits = bits.connected || bits.fail

module _ (p : Platform) where
  -- An object that is deleted has to be there; `vTaskDelete(NULL)` deletes the task that calls it. The
  -- handle is not changed by the call.
  delete_task : Bool → M (State p) (Unit {0})
  delete_task true = pure tt
  delete_task false = stop Halt.task_deleted

  delete_queue : Option (List Item) → M (State p) (Unit {0})
  delete_queue (some items) = pure tt
  delete_queue none = stop Halt.undefined_read

  delete_group : Option Bits → M (State p) (Unit {0})
  delete_group (some bits) = pure tt
  delete_group none = stop Halt.undefined_read

  delete_mutex : Bool → M (State p) (Unit {0})
  delete_mutex true = pure tt
  delete_mutex false = stop Halt.undefined_read

  -- The results of the first two calls are logged. The handles are set to NULL once all objects are deleted.
  unfoldable pub pk_mqtt_delete : M (State p) Bool
  unfolding delete_task delete_queue delete_group delete_mutex
  pk_mqtt_delete st =
      (io p (p.client_disconnect st.client)
          >> io p (p.client_destroy st.client)
          >> delete_task st.task
          >> delete_queue st.queue
          >> delete_group st.event_group
          >> delete_mutex st.topics_mutex
          >> modify (λ st'. record st' {
            client = none;
            queue = none;
            event_group = none;
            topics_mutex = false;
            task = false;
          })
          >> pure true)
        st

  unfoldable pub pk_mqtt_stop : M (State p) Bool
  pk_mqtt_stop st = elim st.client [ none ↦ pure false st | some c ↦ io p (p.client_stop c) st ]

  unfoldable pub pk_mqtt_resume : M (State p) Bool
  pk_mqtt_resume st = elim st.client [ none ↦ pure false st | some c ↦ io p (p.client_start c) st ]

  module _ (conf_retry : ℕ) where
    -- `xEventGroupWaitBits` without a limit of time, while the actions happen one after another.
    unfoldable pub wait_bits : List Action → M (State p) Bits
    wait_bits [] st = elim st.event_group [
      | none ↦ stop Halt.undefined_read st
      | some bits ↦ if decided bits then pure bits st else stop Halt.blocked st
    ]
    wait_bits (a ∷ actions) st =
        let rest = (act p conf_retry a >> wait_bits actions) st in
        elim st.event_group [
          | none ↦ stop Halt.undefined_read st
          | some bits ↦ if decided bits then pure bits st else rest
        ]

    after_wait : Bits → M (State p) Bool
    unfolding pk_mqtt_delete
    after_wait bits =
        if bits.connected
        then pure true
        else if bits.fail
        then pk_mqtt_delete >> pure false
        else pure true

    after_start : List Action → Bool → M (State p) Bool
    unfolding wait_bits after_wait
    after_start actions false = pure false
    after_start actions true = wait_bits actions >>= after_wait

    after_register : List Action → (client : ℕ) → Bool → M (State p) Bool
    unfolding after_start
    after_register actions client false = pure false
    after_register actions client true = io p (p.client_start client) >>= after_start actions

    after_init : List Action → Option ℕ → M (State p) Bool
    unfolding after_register
    after_init actions none = pure false
    after_init actions (some client) =
        io p (p.client_register_event client) >>= after_register actions client

    create_objects : M (State p) (Unit {0})
    create_objects =
        (io p p.mutex_create >>= λ ok. modify (λ st. record st { topics_mutex = ok }))
        >> io p p.group_create
        >>= λ ok. modify (λ st. record st { event_group = if ok then some no_bits else none })

    create_client : M (State p) (Option ℕ)
    create_client = io p p.client_init >>= λ r. modify (λ st. record st { client = r }) >> pure r

    after_task : List Action → Bool → M (State p) Bool
    unfolding after_init create_objects create_client
    after_task actions false = pure false
    after_task actions true =
        modify (λ st. record st { task = true })
        >> create_objects
        >> create_client
        >>= after_init actions

    after_queue : List Action → Bool → M (State p) Bool
    unfolding after_task
    after_queue actions false = pure false
    after_queue actions true = io p p.task_create >>= after_task actions

    -- `pk_mqtt_connect`, while the actions happen once it waits.
    unfoldable pub pk_mqtt_connect : List Action → M (State p) Bool
    unfolding after_queue
    pk_mqtt_connect actions = io p p.queue_create >>= λ ok.
        modify (λ st. record st { queue = if ok then some [] else none }) >> after_queue actions ok
