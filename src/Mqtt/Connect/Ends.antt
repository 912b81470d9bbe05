-- ===== src/Mqtt/Connect/Ends.antt =====
-- How `pk_mqtt_connect` and `pk_mqtt_delete` of src/lib/mqtt.c end.
use vedruino.Base.{
  ℕ, ◌≤◌, ◌≡◌, refl, ◌∙◌, ◌⊎◌, inl, inr, Bool, true, false, Bool-cases, Option, none, some, List,
  [], arith, length, Returns, bind-Returns,
}
use vedruino.Mqtt.Platform.{Platform, State, Bits}
use vedruino.Mqtt.Events.{Action}
use vedruino.Mqtt.Connect.{
  no_bits, decided, delete_task, delete_queue, delete_group, delete_mutex, pk_mqtt_delete,
  wait_bits, after_wait, after_start, after_register, after_init, create_objects, create_client,
  after_task, after_queue, pk_mqtt_connect,
}
use vedruino.Mqtt.Connect.Wait.{IsDecisive, InOrder, Waited, wait_bits-Waited}

module _ (p : Platform) where
  -- All handles are NULL.
  abbrev pub Deleted : State p → Type 0
  Deleted u =
      (u.client ≡ none)
      × (u.task ≡ false)
      × (u.queue ≡ none)
      × (u.event_group ≡ none)
      × (u.topics_mutex ≡ false)

  -- No block has been freed by the call.
  pk_mqtt_delete-Deleted :
      (bits : Bits) (st : State p)
      → InOrder p bits st
      → st.task ≡ true
      → Returns (λ r u. (r ≡ true) × Deleted u × (u.heap ≡ st.heap)) (pk_mqtt_delete p st)
  unfolding pk_mqtt_delete delete_task delete_queue delete_group delete_mutex
  pk_mqtt_delete-Deleted bits st (n, items, ms, h, _) t =
      rw (t, h.queue, h.group, h.mutex, Returns) (refl, (refl, refl, refl, refl, refl), refl)

  -- The client runs, and the bit says that it is connected.
  abbrev pub IsRunning : State p → Type 0
  IsRunning u =
      (bits : Bits) × (bits.connected ≡ true)
      × InOrder p bits u
      × (u.task ≡ true)
      × (c : ℕ) × (u.client ≡ some c)

  -- No event has come and no callback was called.
  abbrev pub Unchanged : State p → State p → Type 0
  Unchanged st u = (u.retry ≡ st.retry) × (u.heap ≡ st.heap) × (u.calls ≡ st.calls)

  abbrev pub Tried : State p → Bool → State p → Type 0
  Tried st true u = IsRunning u
  Tried st false u = Deleted u ⊎ Unchanged st u

  module _ (conf_retry : ℕ) (st : State p) where
    after_wait-Tried :
        (c : ℕ) (bits : Bits) (u : State p)
        → decided bits ≡ true
        → InOrder p bits u
        → u.task ≡ true
        → u.client ≡ some c
        → Returns (Tried st) (after_wait p conf_retry bits u)
    unfolding after_wait
    after_wait-Tried c bits u d o t e = elim (Bool-cases bits.connected) [
      | inl yet ↦ rw (yet, Returns) (bits, yet, o, t, c, e)
      | inr never ↦
          rw (never, failed never)
            (bind-Returns (λ r v. (r ≡ true) × Deleted v × (v.heap ≡ u.heap)) (Tried st)
              (pk_mqtt_delete p u) _ (pk_mqtt_delete-Deleted bits u o t)
              (λ _ v (_, gone, _). inl gone))
    ]
      where
        failed : bits.connected ≡ false → bits.fail ≡ true
        failed never = ground (arith, d, never)

    -- The objects of a new client: nothing waits and no bit is set.
    abbrev Made : State p → Type 0
    Made u =
        Unchanged st u
        × (u.task ≡ true)
        × (u.topics_mutex ≡ true)
        × (u.event_group ≡ some no_bits)
        × (u.queue ≡ some [])

    Made-InOrder : (u : State p) → Made u → InOrder p no_bits u
    Made-InOrder u (_, _, mutex, group, queue) = (
      length u.heap.live,
      [],
      [],
      record {
        queue = queue;
        holding = record {
          owned = record {
            holds = tt;
            distinct = tt;
            below = tt;
            count = omega arith;
            limit = omega arith;
          };
          loose = tt;
          distinct = tt;
        };
        bits = no_bits;
        group = group;
        mutex = mutex;
      },
      refl,
    )

    module _ (actions : List Action) (le : st.retry ≤ conf_retry)
        (decisive : IsDecisive conf_retry st.retry actions) where
      after_start-Tried :
          (c : ℕ) (ok : Bool) (u : State p)
          → Made u
          → u.client ≡ some c
          → Returns (Tried st) (after_start p conf_retry actions ok u)
      unfolding after_start
      after_start-Tried c false u m e = inr m.0
      after_start-Tried c true u m e =
          bind-Returns (Waited p conf_retry u) (Tried st) (wait_bits p conf_retry actions u)
            (after_wait p conf_retry)
            (wait_bits-Waited p conf_retry no_bits actions u (Made-InOrder u m) (rw (m.0.0) le)
              (inr (rw (m.0.0) decisive)))
            (λ bits v (d, o, k). after_wait-Tried c bits v d o (k.0 ∙ m.1) (k.1 ∙ e))

      after_init-Tried :
          (r : Option ℕ) (u : State p)
          → Made u
          → u.client ≡ r
          → Returns (Tried st) (after_init p conf_retry actions r u)
      unfolding after_init after_register
      after_init-Tried none u m e = inr m.0
      after_init-Tried (some c) u m e = elim (Bool-cases (p.client_register_event c u.world).0) [
        | inl ok ↦
            let w = (p.client_register_event c u.world).1 in
            let s = p.client_start c w in
            rw ok (after_start-Tried c s.0 (record u { world = s.1 }) m e)
        | inr fails ↦ rw fails (inr m.0)
      ]

      module _ (mutex_made : (w : p.World) → (p.mutex_create w).0 ≡ true)
          (group_made : (w : p.World) → (p.group_create w).0 ≡ true) where
        after_task-Tried :
            (ok : Bool) (u : State p)
            → Unchanged st u
            → u.queue ≡ some []
            → Returns (Tried st) (after_task p conf_retry actions ok u)
        unfolding after_task create_objects create_client
        after_task-Tried false u m e = inr m
        after_task-Tried true u m e =
            let w = (p.mutex_create u.world).1 in
            let w' = (p.group_create w).1 in
            let c = p.client_init w' in
            rw (mutex_made u.world, group_made w)
              (after_init-Tried c.0
                (record u {
                  world = c.1;
                  task = true;
                  topics_mutex = true;
                  event_group = some no_bits;
                  client = c.0;
                })
                (m, refl, refl, refl, e) refl)

        -- Where the mutex and the event group can be created, the retries so far are at most
        -- `CONF_LIB_MQTT_RETRY`, and the actions connect or lose the connection too often,
        -- `pk_mqtt_connect` returns. It returns true with a client that is connected, a callback task, and
        -- queue and memory in order; or false, and then all handles are NULL, or the count of retries, the
        -- blocks and the calls of callbacks are those of before.
        pub pk_mqtt_connect-Tried : Returns (Tried st) (pk_mqtt_connect p conf_retry actions st)
        unfolding pk_mqtt_connect after_queue
        pk_mqtt_connect-Tried = elim (Bool-cases (p.queue_create st.world).0) [
          | inl ok ↦
              let w = (p.queue_create st.world).1 in
              let t = p.task_create w in
              rw ok (
                after_task-Tried t.0 (record st { world = t.1; queue = some [] }) (refl, refl, refl)
                  refl)
          | inr fails ↦ rw fails (inr (refl, refl, refl))
        ]
