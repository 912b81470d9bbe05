-- ===== src/Mqtt/Events/Retry.antt =====
-- The count of retries of `mqtt_event_handler` in src/lib/mqtt.c, over a run.
use vedruino.Base.{
  ℕ, ◌+◌, ◌≤◌, ◌≡◌, refl, ap, ◌∙◌, inl, inr, Bool, true, ◌||◌, Bool-cases, some, Option-cases, List,
  [], ◌∷◌, arith, ltb, min, done, halt, pure, Outcome, M, ◌>>◌, Ends, bind-Ends, Returns,
  Returns-mono, Returns-Ends, ltb→lt, ltb_false→le,
}
use vedruino.Mqtt.Platform.{Platform, State, Bits, Item, Message}
use vedruino.Mqtt.Memory.{callback_round}
use vedruino.Mqtt.Memory.Steps.{Has}
use vedruino.Mqtt.Memory.Frame.{fail_of, Handles, Frame, Keeps, callback_round-Keeps}
use vedruino.Mqtt.Events.{
  Event, Action, set_bits, count_retry, on_data, mqtt_event_handler, act, run,
}
use vedruino.Mqtt.Events.Runs.{Ran, run-Ran}
use vedruino.Mqtt.Events.Frame.{set_bits-Keeps, on_data-Keeps}

-- Whether an action is a loss of the connection, as a number.
abbrev pub loss : Action → ℕ
loss (Action.event Event.event_disconnected drained) = 1
loss _ = 0

abbrev pub losses : List Action → ℕ
losses [] = 0
losses (a ∷ actions) = loss a + losses actions

module _ (p : Platform) where
  -- The count of retries and the fail bit after `d` losses, from `r` retries and the fail bit `f`.
  abbrev pub Counted : (conf_retry r : ℕ) → (f : Bool) → (d : ℕ) → State p → Type 0
  Counted conf_retry r f d st =
      (st.retry ≡ min (r + d) conf_retry)
      × (fail_of st.event_group ≡ some (f || ltb conf_retry (r + d)))

  module _ (conf_retry : ℕ) where
    abbrev pub Counts : (d : ℕ) {A : Type 0} → M (State p) A → Type 0
    Counts d m =
        (f : Bool) (st : State p)
        → st.retry ≤ conf_retry
        → fail_of st.event_group ≡ some f
        → Ends (λ _ u. Counted conf_retry st.retry f d u × Handles p st u) (λ _ u. Unit {0}) (m st)

    Keeps-Counts : {A : Type 0} (m : M (State p) A) → Keeps p m → Counts 0 m
    Keeps-Counts {A} m keeps f st le at = along (m st) (keeps st)
      where
        along :
            (r : Outcome (State p) A)
            → Ends (λ _ u. Frame p st u) (λ _ u. Frame p st u) r
            → Ends (λ _ u. Counted conf_retry st.retry f 0 u × Handles p st u) (λ _ u. Unit {0}) r
        along (done a u) (x, y, z) =
            ((x ∙ omega (arith, le), y ∙ at ∙ ap some (ground (arith, le))), z)
        along (halt h u) _ = tt

    bits_Counts : (f : Bits → Bits) → ((b : Bits) → (f b).fail ≡ b.fail) → Counts 0 (set_bits p f)
    bits_Counts f same = Keeps-Counts (set_bits p f) (set_bits-Keeps p f same)

    count_retry-Counts : Counts 1 (count_retry p conf_retry)
    unfolding count_retry
    count_retry-Counts f st le at = elim (Bool-cases (ltb st.retry conf_retry)) [
      | inl again ↦
          rw (again, Ends)
            (
              (omega (arith, ltb→lt _ _ again), at ∙ ap some (ground (arith, ltb→lt _ _ again))),
              (refl, refl),
            )
      | inr spent ↦ elim (Option-cases st.event_group) [
        | inl none_there ↦ rw (spent, none_there, Ends) tt
        | inr (b, there) ↦
            rw (spent, there, Ends)
              (
                (
                  omega (arith, le, ltb_false→le _ _ spent),
                  ap some (ground (arith, le, ltb_false→le _ _ spent)),
                ),
                (refl, refl),
              )
      ]
    ]

    Ends-any :
        (st : State p) {A : Type 0} (r : Outcome (State p) A)
        → Ends (λ _ u. Frame p st u) (λ _ u. Frame p st u) r
        → Ends (λ _ u. Frame p st u) (λ _ u. Unit {0}) r
    Ends-any st (done a u) e = e
    Ends-any st (halt h u) e = tt

    disconnected-Counts :
        Counts 1 (set_bits p (λ b. record b { disconnected = true }) >> count_retry p conf_retry)
    disconnected-Counts f st le at =
        bind-Ends (λ _ u. Frame p st u) (λ _ u. Counted conf_retry st.retry f 1 u × Handles p st u)
          (λ _ u. Unit {0}) (set_bits p (λ b. record b { disconnected = true }) st)
          (λ _. count_retry p conf_retry)
          (Ends-any st (set_bits p (λ b. record b { disconnected = true }) st)
            (set_bits-Keeps p (λ b. record b { disconnected = true }) (λ b. refl) st))
          (λ _ u (x, y, z).
            disconnected_twice u (count_retry p conf_retry u) x z
              (count_retry-Counts f u (rw x le) (y ∙ at)))
      where
        disconnected_twice :
            (u : State p) (r : Outcome (State p) (Unit {0}))
            → u.retry ≡ st.retry
            → Handles p st u
            → Ends (λ _ v. Counted conf_retry u.retry f 1 v × Handles p u v) (λ _ v. Unit {0}) r
            → Ends (λ _ v. Counted conf_retry st.retry f 1 v × Handles p st v) (λ _ v. Unit {0}) r
        disconnected_twice u (done _ v) x z (c, y) = (
          (
            c.0 ∙ ap (λ n. min (n + 1) conf_retry) x,
            c.1 ∙ ap (λ n. some (f || ltb conf_retry (n + 1))) x,
          ),
          (y.0 ∙ z.0, y.1 ∙ z.1),
        )
        disconnected_twice u (halt e v) x z _ = tt

    pub act-Counts : (a : Action) → Counts (loss a) (act p conf_retry a)
    unfolding mqtt_event_handler
    act-Counts (Action.event Event.event_connected drained) =
        bits_Counts (λ b. record b { connected = true }) (λ b. refl)
    act-Counts (Action.event Event.event_disconnected drained) = disconnected-Counts
    act-Counts (Action.event Event.event_subscribed drained) =
        bits_Counts (λ b. record b { subscribed = true }) (λ b. refl)
    act-Counts (Action.event Event.event_unsubscribed drained) =
        bits_Counts (λ b. record b { unsubscribed = true }) (λ b. refl)
    act-Counts (Action.event Event.event_published drained) =
        bits_Counts (λ b. record b { published = true }) (λ b. refl)
    act-Counts (Action.event (Event.event_data topic bytes) drained) =
        Keeps-Counts (on_data p topic bytes drained) (on_data-Keeps p topic bytes drained)
    act-Counts (Action.event Event.event_error drained) =
        Keeps-Counts (pure tt) (λ st. (refl, refl, (refl, refl)))
    act-Counts (Action.event Event.event_other drained) =
        Keeps-Counts (pure tt) (λ st. (refl, refl, (refl, refl)))
    act-Counts Action.round = Keeps-Counts (callback_round p) (callback_round-Keeps p)

    -- Two losses of connection after another.
    join_tests :
        (f : Bool) (r s k d : ℕ)
        → s ≡ min (r + k) conf_retry
        → ((f || ltb conf_retry (r + k)) || ltb conf_retry (s + d))
          ≡ (f || ltb conf_retry (r + (k + d)))
    join_tests f r s k d e = ground (arith, e)

    run-Counts : (actions : List Action) → Counts (losses actions) (run p conf_retry actions)
    unfolding run
    run-Counts [] f st le at = Keeps-Counts (pure tt) (λ st'. (refl, refl, (refl, refl))) f st le at
    run-Counts (a ∷ actions) f st le at =
        bind-Ends (λ _ u. Counted conf_retry st.retry f (loss a) u × Handles p st u)
          (λ _ u. Counted conf_retry st.retry f (losses (a ∷ actions)) u × Handles p st u)
          (λ _ u. Unit {0}) (act p conf_retry a st) (λ _. run p conf_retry actions)
          (act-Counts a f st le at)
          (λ _ u ((x, y), z).
            more a u (run p conf_retry actions u) x z
              (run-Counts actions (f || ltb conf_retry (st.retry + loss a)) u (omega (arith, x)) y))
      where
        more :
            (a : Action) (u : State p) (r : Outcome (State p) (Unit {0}))
            → u.retry ≡ min (st.retry + loss a) conf_retry
            → Handles p st u
            → Ends
                (λ _ v.
                  Counted conf_retry u.retry
                    (f || ltb conf_retry (st.retry + loss a))
                    (losses actions)
                    v
                  × Handles p u v)
                (λ _ v. Unit {0})
                r
            → Ends
                (λ _ v. Counted conf_retry st.retry f (losses (a ∷ actions)) v × Handles p st v)
                (λ _ v. Unit {0})
                r
        more a u (done _ v) x z ((e, g), y) = (
          (
            omega (arith, e, x),
            g ∙ ap some (join_tests f st.retry u.retry (loss a) (losses actions) x),
          ),
          (y.0 ∙ z.0, y.1 ∙ z.1),
        )
        more a u (halt h v) x z _ = tt

  -- A run from a state in which the queue and the memory are in order, the count of retries is at most
  -- `CONF_LIB_MQTT_RETRY`, and the fail bit is `f`: it returns. The count is then the number of retries of
  -- before and of connections lost, at most `CONF_LIB_MQTT_RETRY`; the fail bit is set just where it was
  -- before or these two numbers make more than `CONF_LIB_MQTT_RETRY`, whatever else has happened between.
  pub run-Counted :
      (conf_retry n : ℕ) (items : List Item) (ms : List Message) (f : Bool) (actions : List Action)
      (st : State p)
      → Has p n [] items ms st
      → st.retry ≤ conf_retry
      → fail_of st.event_group ≡ some f
      → Returns
          (λ _ u. Counted conf_retry st.retry f (losses actions) u)
          (run p conf_retry actions st)
  run-Counted conf_retry n items ms f actions st h le at =
      Returns-mono
        (λ a u.
          Ran p n st.calls ms actions a u
          × (Counted conf_retry st.retry f (losses actions) u × Handles p st u))
        (λ _ u. Counted conf_retry st.retry f (losses actions) u) (run p conf_retry actions st)
        (Returns-Ends (Ran p n st.calls ms actions)
          (λ _ u. Counted conf_retry st.retry f (losses actions) u × Handles p st u)
          (λ _ u. Unit {0}) (run p conf_retry actions st)
          (run-Ran p conf_retry n items ms actions st h) (run-Counts conf_retry actions f st le at))
        (λ _ u (_, c). c.0)
