-- ===== src/Base/Outcomes.antt =====
-- A C call as a function of the state: it returns a value, or the task stops. Loops run on fuel, and
-- a loop that has used it up stops with `out_of_fuel`, so that a theorem on what a call returns also
-- says that the fuel was enough.
use mathlib.Core.Bool.{Bool, true, false}

-- Why a call does not return: the model's fuel is used up, a `PK_ASSERT` failed, `esp_restart()` or
-- `vTaskDelete(NULL)` was called, the C code reads an object that was never given a value or uses memory
-- or a handle that is not there, or it waits for something that does not come.
pub data Halt : Type 0 where
  out_of_fuel assert_failed restarted task_deleted undefined_read blocked : Halt

pub data Outcome (W A : Type 0) : Type 0 where
  done : A → W → Outcome W A
  halt : Halt → W → Outcome W A

abbrev pub M : Type 0 → Type 0 → Type 0
M W A = W → Outcome W A

abbrev pub pure : {W A : Type 0} → A → M W A
pure a w = done a w

abbrev pub stop : {W A : Type 0} → Halt → M W A
stop h w = halt h w

infixl 5 ◌>>=◌ ◌>>◌
abbrev pub ◌>>=◌ : {W A B : Type 0} → M W A → (A → M W B) → M W B
◌>>=◌ m f w = elim (m w) [ done a w' ↦ f a w' | halt h w' ↦ halt h w' ]

abbrev pub ◌>>◌ : {W A B : Type 0} → M W A → M W B → M W B
m >> k = m >>= λ _. k

abbrev pub get : {W : Type 0} → M W W
get w = done w w

abbrev pub put : {W : Type 0} → W → M W (Unit {0})
put v w = done tt v

abbrev pub modify : {W : Type 0} → (W → W) → M W (Unit {0})
modify f w = done tt (f w)

-- A call of a function that is not modelled: it returns a value and a new state.
abbrev pub call : {W A : Type 0} → (W → A × W) → M W A
call f w = let (a, w') = f w in done a w'

-- `PK_ASSERT(b)`
abbrev pub pk_assert : {W : Type 0} → Bool → M W (Unit {0})
pk_assert true w = done tt w
pk_assert false w = halt Halt.assert_failed w

-- The call returns, and what it returns satisfies P.
abbrev pub Returns : {W A : Type 0} → (A → W → Type 0) → Outcome W A → Type 0
Returns P (done a w) = P a w
Returns P (halt h w) = ⊥

-- The call returns or the task stops, and either way the predicate holds of how it ended.
abbrev pub Ends : {W A : Type 0} → (A → W → Type 0) → (Halt → W → Type 0) → Outcome W A → Type 0
Ends P Q (done a w) = P a w
Ends P Q (halt h w) = Q h w

module _ {W A B : Type 0} where
  pub bind-Returns :
      (P : A → W → Type 0) (Q : B → W → Type 0) (r : Outcome W A) (k : A → M W B)
      → Returns P r
      → ((a : A) (w : W) → P a w → Returns Q (k a w))
      → Returns Q (elim r [ done a w' ↦ k a w' | halt h w' ↦ halt h w' ])
  bind-Returns P Q (done a w) k p next = next a w p
  bind-Returns P Q (halt h w) k p next = absurd p

  pub bind-Ends :
      (P : A → W → Type 0) (Q : B → W → Type 0) (H : Halt → W → Type 0) (r : Outcome W A)
      (k : A → M W B)
      → Ends P H r
      → ((a : A) (w : W) → P a w → Ends Q H (k a w))
      → Ends Q H (elim r [ done a w' ↦ k a w' | halt h w' ↦ halt h w' ])
  bind-Ends P Q H (done a w) k p next = next a w p
  bind-Ends P Q H (halt h w) k p next = p

module _ {W A : Type 0} where
  pub Ends-Returns :
      (P : A → W → Type 0) (H : Halt → W → Type 0) (r : Outcome W A) → Returns P r → Ends P H r
  Ends-Returns P H (done a w) p = p
  Ends-Returns P H (halt h w) p = absurd p

  pub Returns-mono :
      (P Q : A → W → Type 0) (r : Outcome W A)
      → Returns P r
      → ((a : A) (w : W) → P a w → Q a w)
      → Returns Q r
  Returns-mono P Q (done a w) p f = f a w p
  Returns-mono P Q (halt h w) p f = absurd p

  -- What holds of every end holds where the call returns.
  pub Returns-Ends :
      (P Q : A → W → Type 0) (H : Halt → W → Type 0) (r : Outcome W A)
      → Returns P r
      → Ends Q H r
      → Returns (λ a w. P a w × Q a w) r
  Returns-Ends P Q H (done a w) p q = (p, q)
  Returns-Ends P Q H (halt h w) p q = absurd p
