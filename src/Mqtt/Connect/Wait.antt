-- ===== src/Mqtt/Connect/Wait.antt =====
-- When the wait in `pk_mqtt_connect` of src/lib/mqtt.c ends.
use mathlib.Core.Option.{some-injective}
use vedruino.Base.{
  ℕ, ◌+◌, ◌≤◌, ◌<◌, ◌≡◌, refl, sym, ap, ◌∙◌, ◌⊎◌, inl, inr, Bool, true, false, Bool-cases, Option,
  none, some, Option-cases, List, [], ◌∷◌, arith, ltb, ltb_false→le, min, Outcome, done, halt, ◌>>◌,
  Ends, Returns, bind-Returns, Returns-mono, Returns-Ends,
}
use vedruino.Mqtt.Platform.{Platform, State, Bits, Item, Message}
use vedruino.Mqtt.Memory.Steps.{Has}
use vedruino.Mqtt.Memory.Frame.{fail_of, Handles}
use vedruino.Mqtt.Events.{Event, Action, mqtt_event_handler, act}
use vedruino.Mqtt.Events.Runs.{Acted, act-Acted}
use vedruino.Mqtt.Events.Retry.{loss, losses, Counted, act-Counts}
use vedruino.Mqtt.Connect.{decided, wait_bits}

-- Whether an action is the event that the connection is there, as a number.
abbrev pub connect : Action → ℕ
connect (Action.event Event.event_connected drained) = 1
connect _ = 0

abbrev pub connects : List Action → ℕ
connects [] = 0
connects (a ∷ actions) = connect a + connects actions

-- The actions connect, or with the retries so far they lose the connection too often.
abbrev pub IsDecisive : (conf_retry r : ℕ) → List Action → Type 0
IsDecisive conf_retry r actions = (0 < connects actions) ⊎ (conf_retry < r + losses actions)

module _ (p : Platform) where
  -- The queue and the memory are in order, and the bits are `bits`.
  abbrev pub InOrder : Bits → State p → Type 0
  InOrder bits st =
      (n : ℕ) × (items : List Item) × (ms : List Message) × (h : Has p n [] items ms st) × (h.bits
        ≡ bits)

module _ (p : Platform) (conf_retry : ℕ) where
  group_of : (bits : Bits) (st : State p) → InOrder p bits st → st.event_group ≡ some bits
  group_of bits st (n, items, ms, h, at) = h.group ∙ ap some at

  abbrev connected_of : Option Bits → Option Bool
  connected_of none = none
  connected_of (some bits) = some bits.connected

  -- After the event that the connection is there its bit is set.
  abbrev Connected : Action → Option Bits → Type 0
  Connected a group = (connect a ≡ 0) ⊎ (connected_of group ≡ some true)

  otherwise :
      (a : Action)
      → connect a ≡ 0
      → (r : Outcome (State p) (Unit {0}))
      → Ends (λ _ u. Connected a u.event_group) (λ _ u. Unit {0}) r
  otherwise a e (done _ u) = inl e
  otherwise a e (halt h u) = tt

  act-Connected :
      (a : Action) (st : State p)
      → Ends (λ _ u. Connected a u.event_group) (λ _ u. Unit {0}) (act p conf_retry a st)
  unfolding mqtt_event_handler
  act-Connected (Action.event Event.event_connected drained) st =
      elim (Option-cases st.event_group) [
        | inl none_there ↦ rw (none_there, Ends) tt
        | inr (bits, there) ↦ rw (there, Ends) (inr refl)
      ]
  act-Connected (Action.event Event.event_disconnected drained) st =
      otherwise (Action.event Event.event_disconnected drained) refl
        (act p conf_retry (Action.event Event.event_disconnected drained) st)
  act-Connected (Action.event Event.event_subscribed drained) st =
      otherwise (Action.event Event.event_subscribed drained) refl
        (act p conf_retry (Action.event Event.event_subscribed drained) st)
  act-Connected (Action.event Event.event_unsubscribed drained) st =
      otherwise (Action.event Event.event_unsubscribed drained) refl
        (act p conf_retry (Action.event Event.event_unsubscribed drained) st)
  act-Connected (Action.event Event.event_published drained) st =
      otherwise (Action.event Event.event_published drained) refl
        (act p conf_retry (Action.event Event.event_published drained) st)
  act-Connected (Action.event (Event.event_data topic bytes) drained) st =
      otherwise (Action.event (Event.event_data topic bytes) drained) refl
        (act p conf_retry (Action.event (Event.event_data topic bytes) drained) st)
  act-Connected (Action.event Event.event_error drained) st =
      otherwise (Action.event Event.event_error drained) refl
        (act p conf_retry (Action.event Event.event_error drained) st)
  act-Connected (Action.event Event.event_other drained) st =
      otherwise (Action.event Event.event_other drained) refl
        (act p conf_retry (Action.event Event.event_other drained) st)
  act-Connected Action.round st = otherwise Action.round refl (act p conf_retry Action.round st)

  -- What an action leaves behind where no bit had decided yet.
  abbrev Stepped : Action → State p → Unit {0} → State p → Type 0
  Stepped a st _ u =
      (bits : Bits) × InOrder p bits u
      × (u.retry ≡ min (st.retry + loss a) conf_retry)
      × (bits.fail ≡ ltb conf_retry (st.retry + loss a))
      × ((connect a ≡ 0) ⊎ (bits.connected ≡ true))
      × Handles p st u

  act-Stepped :
      (bits : Bits) (a : Action) (st : State p)
      → InOrder p bits st
      → st.retry ≤ conf_retry
      → decided bits ≡ false
      → Returns (Stepped a st) (act p conf_retry a st)
  act-Stepped bits a st (n, items, ms, h, at) le undecided =
      Returns-mono
        (λ a' u.
          Acted p n st.calls ms a a' u
          × (Connected a u.event_group
              × (Counted p conf_retry st.retry false (loss a) u × Handles p st u)))
        (Stepped a st) (act p conf_retry a st)
        (Returns-Ends (Acted p n st.calls ms a)
          (λ _ u.
            Connected a u.event_group
            × (Counted p conf_retry st.retry false (loss a) u × Handles p st u))
          (λ _ u. Unit {0}) (act p conf_retry a st) (act-Acted p conf_retry n items ms a st h)
          (both (act p conf_retry a st) (act-Connected a st)
            (act-Counts p conf_retry a false st le (ap fail_of h.group ∙ ap some not_failed))))
        (λ _ u ((is, ms', new, n', h', _, _, _), (c, ((r, f), k))). (
          h'.bits,
          (n', is, ms', h', refl),
          r,
          some-injective _ _ (sym (ap fail_of h'.group) ∙ f),
          elim c [
            | inl no_event ↦ inl no_event
            | inr set ↦ inr (some-injective _ _ (sym (ap connected_of h'.group) ∙ set))
          ],
          k,
        ))
    where
      not_failed : h.bits.fail ≡ false
      not_failed = ground (arith, at, undecided)

      both :
          (r : Outcome (State p) (Unit {0}))
          → Ends (λ _ u. Connected a u.event_group) (λ _ u. Unit {0}) r
          → Ends
              (λ _ u. Counted p conf_retry st.retry false (loss a) u × Handles p st u)
              (λ _ u. Unit {0})
              r
          → Ends
              (λ _ u.
                Connected a u.event_group
                × (Counted p conf_retry st.retry false (loss a) u × Handles p st u))
              (λ _ u. Unit {0})
              r
      both (done _ u) x y = (x, y)
      both (halt e u) x y = tt

  abbrev pub Waited : State p → Bits → State p → Type 0
  Waited st bits u = (decided bits ≡ true) × InOrder p bits u × Handles p st u

  -- An action leaves the wait over, or as sure to end as before.
  still-IsDecisive :
      (a : Action) (actions : List Action) (st u : State p) (bits : Bits)
      → st.retry ≤ conf_retry
      → u.retry ≡ min (st.retry + loss a) conf_retry
      → bits.fail ≡ ltb conf_retry (st.retry + loss a)
      → (connect a ≡ 0) ⊎ (bits.connected ≡ true)
      → IsDecisive conf_retry st.retry (a ∷ actions)
      → (decided bits ≡ true) ⊎ IsDecisive conf_retry u.retry actions
  still-IsDecisive a actions st u bits le r f (inl no_event) (inl lt) =
      inr (inl (omega (arith, lt, no_event)))
  still-IsDecisive a actions st u bits le r f (inr set) (inl lt) = inl (ground (arith, set))
  still-IsDecisive a actions st u bits le r f c (inr lt) =
      elim (Bool-cases (ltb conf_retry (st.retry + loss a))) [
        | inl over ↦ inl (ground (arith, f, over))
        | inr under ↦
            inr (inr (omega (arith, lt, r, ltb_false→le conf_retry (st.retry + loss a) under)))
      ]

  wait_over :
      (bits : Bits) (actions : List Action) (st : State p)
      → InOrder p bits st
      → decided bits ≡ true
      → wait_bits p conf_retry actions st ≡ done bits st
  unfolding wait_bits
  wait_over bits [] st o yet = rw (group_of bits st o, yet)
  wait_over bits (a ∷ actions) st o yet = rw (group_of bits st o, yet)

  wait_on :
      (bits : Bits) (a : Action) (actions : List Action) (st : State p)
      → InOrder p bits st
      → decided bits ≡ false
      → wait_bits p conf_retry (a ∷ actions) st
        ≡ (act p conf_retry a >> wait_bits p conf_retry actions) st
  unfolding wait_bits
  wait_on bits a actions st o undecided = rw (group_of bits st o, undecided)

  -- The wait ends once a bit has decided.
  pub wait_bits-Waited :
      (bits : Bits) (actions : List Action) (st : State p)
      → InOrder p bits st
      → st.retry ≤ conf_retry
      → (decided bits ≡ true) ⊎ IsDecisive conf_retry st.retry actions
      → Returns (Waited st) (wait_bits p conf_retry actions st)
  wait_bits-Waited bits [] st o le decisive = elim (Bool-cases (decided bits)) [
    | inl yet ↦ rw (wait_over bits _ st o yet) (yet, o, (refl, refl))
    | inr undecided ↦ elim decisive [
      | inl yet ↦ absurd (ground (arith, yet, undecided))
      | inr (inl lt) ↦ absurd (omega (arith, lt))
      | inr (inr lt) ↦ absurd (omega (arith, le, lt))
    ]
  ]
  wait_bits-Waited bits (a ∷ actions) st o le decisive = elim (Bool-cases (decided bits)) [
    | inl yet ↦ rw (wait_over bits _ st o yet) (yet, o, (refl, refl))
    | inr undecided ↦ rw (wait_on bits a actions st o undecided) (
        bind-Returns (Stepped a st) (Waited st) (act p conf_retry a st) _
          (act-Stepped bits a st o le undecided)
          (λ _ u (bits', o', r, f, c, k).
            Returns-mono (Waited u) (Waited st) (wait_bits p conf_retry actions u)
              (wait_bits-Waited bits' actions u o' (omega (arith, r)) (elim decisive [
                | inl yet ↦ absurd (ground (arith, yet, undecided))
                | inr d ↦ still-IsDecisive a actions st u bits' le r f c d
              ]))
              (λ _ v (d, o2, k2). (d, o2, (k2.0 ∙ k.0, k2.1 ∙ k.1)))))
  ]
