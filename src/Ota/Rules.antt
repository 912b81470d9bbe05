-- ===== src/Ota/Rules.antt =====
-- Rules for the calls that change the world alone (`io` of Ota/Platform.antt).
use vedruino.Base.{M, Outcome, Halt, done, halt, ◌>>=◌, Returns, Ends}
use vedruino.Ota.Platform.{Platform, State, io}

module _ (p : Platform) {A B : Type 0} where
  -- The call has ended with `r`, and `k` follows.
  abbrev continue : Outcome p.World A → (A → M (State p) B) → M (State p) B
  continue r k = io p (λ _. r) >>= k

  continue-Returns :
      (P : A → p.World → Type 0) (Q : B → State p → Type 0) (r : Outcome p.World A)
      (k : A → M (State p) B) (st : State p)
      → Returns P r
      → ((a : A) (w : p.World) → P a w → Returns Q (k a (record st { world = w })))
      → Returns Q (continue r k st)
  continue-Returns P Q (done a w) k st h next = next a w h
  continue-Returns P Q (halt s w) k st h next = absurd h

  continue-Ends :
      (P : A → p.World → Type 0) (Q : B → State p → Type 0) (H : Halt → State p → Type 0)
      (r : Outcome p.World A) (k : A → M (State p) B) (st : State p)
      → Returns P r
      → ((a : A) (w : p.World) → P a w → Ends Q H (k a (record st { world = w })))
      → Ends Q H (continue r k st)
  continue-Ends P Q H (done a w) k st h next = next a w h
  continue-Ends P Q H (halt s w) k st h next = absurd h

  pub io_bind-Returns :
      (P : A → p.World → Type 0) (Q : B → State p → Type 0) (m : M p.World A)
      (k : A → M (State p) B) (st : State p)
      → Returns P (m st.world)
      → ((a : A) (w : p.World) → P a w → Returns Q (k a (record st { world = w })))
      → Returns Q ((io p m >>= k) st)
  io_bind-Returns P Q m k st = continue-Returns P Q (m st.world) k st

  pub io_bind-Ends :
      (P : A → p.World → Type 0) (Q : B → State p → Type 0) (H : Halt → State p → Type 0)
      (m : M p.World A) (k : A → M (State p) B) (st : State p)
      → Returns P (m st.world)
      → ((a : A) (w : p.World) → P a w → Ends Q H (k a (record st { world = w })))
      → Ends Q H ((io p m >>= k) st)
  io_bind-Ends P Q H m k st = continue-Ends P Q H (m st.world) k st
