-- ===== src/Mqtt/Events/Runs.antt =====
-- Runs of `mqtt_event_handler` and `mqtt_callback_task` of src/lib/mqtt.c, in any order.
use mathlib.Core.List.{append_assoc, append-nil}
use vedruino.Base.{
  ℕ, ◌<◌, ◌≡◌, refl, sym, ap, ◌∙◌, ◌⊎◌, inl, inr, List, [], ◌∷◌, ◌++◌, arith, Returns, bind-Returns,
  Returns-mono,
}
use vedruino.Mqtt.Platform.{Platform, State, Item, Message}
use vedruino.Mqtt.Memory.{callback_round}
use vedruino.Mqtt.Memory.Steps.{Has, NoMemory}
use vedruino.Mqtt.Memory.Queue.{Rounded, callback_round-Rounded}
use vedruino.Mqtt.Events.{Action, mqtt_event_handler, act, run}
use vedruino.Mqtt.Events.Kept.{Sent, Handled}
use vedruino.Mqtt.Events.Handler.{mqtt_event_handler-Handled}

-- The messages that an action may put into the queue.
abbrev pub By : Action → List Message → Type 0
By (Action.event e drained) new = Sent e new
By Action.round new = new ≡ []

-- The messages that the events of a run put into the queue, in the order of the events.
pub data Accepted : List Action → List Message → Type 0 where
  nothing : Accepted [] []
  next :
      {a : Action} {actions : List Action} (new rest : List Message)
      → By a new
      → Accepted actions rest
      → Accepted (a ∷ actions) (new ++ rest)

module _ (p : Platform) where
  -- Blocks have been lost only where a `malloc` failed.
  abbrev pub Lost : (n n' : ℕ) → Type 0
  Lost n n' = (n' ≡ n) ⊎ ((n < n') × NoMemory p)

  Lost-trans : (a b c : ℕ) → Lost a b → Lost b c → Lost a c
  Lost-trans a b c (inl e) (inl f) = inl (f ∙ e)
  Lost-trans a b c (inl e) (inr (lt, m)) = inr (omega (arith, e, lt), m)
  Lost-trans a b c (inr (lt, m)) (inl f) = inr (omega (arith, f, lt), m)
  Lost-trans a b c (inr (lt, m)) (inr (lt', m')) = inr (omega (arith, lt, lt'), m)

  -- How a run may end that began with `calls` delivered and `ms` waiting.
  abbrev pub Ran : ℕ → (calls ms : List Message) → List Action → Unit {0} → State p → Type 0
  Ran n calls ms actions _ st =
      (items' : List Item) × (ms' : List Message) × (new : List Message) × (n' : ℕ) × Has p n' []
        items' ms' st
      × (st.calls ++ ms' ≡ (calls ++ ms) ++ new)
      × Accepted actions new
      × Lost n n'

  abbrev pub Acted : ℕ → (calls ms : List Message) → Action → Unit {0} → State p → Type 0
  Acted n calls ms a _ st =
      (items' : List Item) × (ms' : List Message) × (new : List Message) × (n' : ℕ) × Has p n' []
        items' ms' st
      × (st.calls ++ ms' ≡ (calls ++ ms) ++ new)
      × By a new
      × Lost n n'

  pub act-Acted :
      (conf_retry n : ℕ) (items : List Item) (ms : List Message) (a : Action) (st : State p)
      → Has p n [] items ms st
      → Returns (Acted n st.calls ms a) (act p conf_retry a st)
  act-Acted conf_retry n items ms (Action.event e drained) st h =
      Returns-mono (Handled p n items ms st.calls e) (Acted n st.calls ms (Action.event e drained))
        (mqtt_event_handler p conf_retry drained e st)
        (mqtt_event_handler-Handled p n items ms st.calls conf_retry drained e st (h, refl))
        (λ _ u (is, ms', new, n', h', eq, sent, lost). (
          is,
          ms',
          new,
          n',
          h',
          eq,
          sent,
          elim lost [ inl same ↦ inl same | inr (more, m) ↦ inr (omega (arith, more), m) ],
        ))
  act-Acted conf_retry n items ms Action.round st h =
      Returns-mono (Rounded p n [] ms st) (Acted n st.calls ms Action.round) (callback_round p st)
        (callback_round-Rounded p n [] items ms st h)
        (λ _ u (is, ms', h', eq).
          (is, ms', [], n, h', eq ∙ sym (append-nil (st.calls ++ ms)), refl, inl refl))

  -- Events and rounds of the callback task in any order, from a state in which the queue and the memory
  -- are in order: all of them return. At the end the messages delivered and those that wait are, in this
  -- order, those of the beginning and the ones the events put in. An event puts in at most one message,
  -- with its topic and data, and only an event of data does. The blocks in use are those of the waiting
  -- messages and those lost, and blocks are lost only where a `malloc` fails.
  pub run-Ran :
      (conf_retry n : ℕ) (items : List Item) (ms : List Message) (actions : List Action)
      (st : State p)
      → Has p n [] items ms st
      → Returns (Ran n st.calls ms actions) (run p conf_retry actions st)
  unfolding run
  run-Ran conf_retry n items ms [] st h =
      (items, ms, [], n, h, sym (append-nil (st.calls ++ ms)), Accepted.nothing, inl refl)
  run-Ran conf_retry n items ms (a ∷ actions) st h =
      bind-Returns (Acted n st.calls ms a) (Ran n st.calls ms (a ∷ actions)) (act p conf_retry a st)
        (λ _. run p conf_retry actions) (act-Acted conf_retry n items ms a st h)
        (λ _ u (is, ms', new, n', h', eq, by, lost).
          Returns-mono (Ran n' u.calls ms' actions) (Ran n st.calls ms (a ∷ actions))
            (run p conf_retry actions u) (run-Ran conf_retry n' is ms' actions u h')
            (λ _ v (is2, ms2, rest, n2, h2, eq2, accepted, lost2). (
              is2,
              ms2,
              new ++ rest,
              n2,
              h2,
              eq2 ∙ ap (λ x. x ++ rest) eq ∙ append_assoc (st.calls ++ ms) new rest,
              Accepted.next new rest by accepted,
              Lost-trans n n' n2 lost lost2,
            )))
