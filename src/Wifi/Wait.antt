-- ===== src/Wifi/Wait.antt =====
-- When the wait for the bits in `pk_wifi_connect` of src/lib/wifi.c ends.
use mathlib.Core.Path.{subst}
use vedruino.Base.{
  ℕ, suc, ◌+◌, ◌≤◌, ◌<◌, ◌≡◌, refl, sym, Bool, true, false, Bool-cases, inl, inr, ◌||◌, some, List,
  [], ◌∷◌, arith, leb, ltb, ltb→lt, ltb_false→le, if◌then◌else◌, done, Outcome, ◌>>◌, Halt, blocked,
  Ends,
}
use vedruino.Wifi.{
  Platform, State, Bits, Event, sta_start, sta_disconnected, got_ip, other_event, decided, set_bits,
  on_disconnected, event_handler, wait_bits,
}

-- Whether the events decide the connection, where `n` retries have been counted: an address is got, or
-- the connection is lost once more than there are retries left.
abbrev pub decides : (conf_retry n : ℕ) → List Event → Bool
decides conf_retry n [] = false
decides conf_retry n (sta_start ∷ es) = decides conf_retry n es
decides conf_retry n (sta_disconnected ∷ es) =
    let rest = decides conf_retry (suc n) es in if leb conf_retry n then true else rest
decides conf_retry n (got_ip ∷ es) = true
decides conf_retry n (other_event ∷ es) = decides conf_retry n es

module _ (p : Platform) (conf_retry : ℕ) where
  -- The events decide, or the task waits for ever.
  abbrev pub Decided : (n : ℕ) → List Event → Bits → State p → Type 0
  Decided n es bits st = decides conf_retry n es ≡ true

  abbrev pub Waits : (n : ℕ) → List Event → Halt → State p → Type 0
  Waits n es h st = (h ≡ blocked) × (decides conf_retry n es ≡ false)

  -- Once a bit is set, the wait ends.
  wait_bits-decided :
      (es : List Event) (bits : Bits) (st : State p)
      → st.event_group ≡ some bits
      → decided bits ≡ true
      → wait_bits p conf_retry es st ≡ done bits st
  unfolding wait_bits
  wait_bits-decided [] bits st e d = rw (e, d) refl
  wait_bits-decided (ev ∷ es) bits st e d = rw (e, d) refl

  wait_bits-step :
      (ev : Event) (es : List Event) (bits : Bits) (st : State p)
      → st.event_group ≡ some bits
      → decided bits ≡ false
      → wait_bits p conf_retry (ev ∷ es) st
        ≡ (event_handler p conf_retry ev >> wait_bits p conf_retry es) st
  unfolding wait_bits
  wait_bits-step ev es bits st e d = rw (e, d) refl

  set_bits-done :
      (f : Bits → Bits) (bits : Bits) (st : State p)
      → st.event_group ≡ some bits
      → set_bits p f st ≡ done tt (record st { event_group = some (f bits) })
  unfolding set_bits
  set_bits-done f bits st e = rw e refl

  -- The handler sets a bit, and the wait ends.
  set_then_wait :
      (n : ℕ) (ev : Event) (es : List Event) (f : Bits → Bits) (bits : Bits) (st : State p)
      → st.event_group ≡ some bits
      → decided (f bits) ≡ true
      → decides conf_retry n (ev ∷ es) ≡ true
      → Ends
          (Decided n (ev ∷ es))
          (Waits n (ev ∷ es))
          ((set_bits p f >> wait_bits p conf_retry es) st)
  set_then_wait n ev es f bits st e d sure =
      rw
        (
          set_bits-done f bits st e,
          wait_bits-decided es (f bits) (record st { event_group = some (f bits) }) refl d,
          Ends,
        )
        sure

  or_true : (b : Bool) → (b || true) ≡ true
  or_true true = refl
  or_true false = refl

  decides-retry :
      (n : ℕ) (es : List Event)
      → n < conf_retry
      → decides conf_retry n (sta_disconnected ∷ es) ≡ decides conf_retry (suc n) es
  decides-retry n es lt = let e : leb conf_retry n ≡ false = ground arith in rw e refl

  -- What is known of the end, for a list that decides or does not.
  abbrev pub WaitEnds : Bool → Outcome (State p) Bits → Type 0
  WaitEnds b r = Ends (λ _ _. b ≡ true) (λ h _. (h ≡ blocked) × (b ≡ false)) r

  event_then_wait :
      (ev : Event) (es : List Event) (n : ℕ) (bits : Bits) (st : State p)
      → st.event_group ≡ some bits
      → decided bits ≡ false
      → st.retry_num ≡ n
      → ((m : ℕ) (v : State p)
          → v.event_group ≡ some bits
          → v.retry_num ≡ m
          → WaitEnds (decides conf_retry m es) (wait_bits p conf_retry es v))
      → WaitEnds
          (decides conf_retry n (ev ∷ es))
          ((event_handler p conf_retry ev >> wait_bits p conf_retry es) st)
  unfolding event_handler on_disconnected
  event_then_wait sta_start es n bits st e d r again =
      again n (record st { world = (p.wifi_connect st.world).1 }) e r
  event_then_wait other_event es n bits st e d r again = again n st e r
  event_then_wait got_ip es n bits st e d r again =
      set_then_wait n got_ip es (λ b. record b { connected = true }) bits
        (record st { retry_num = 0 }) e refl refl
  event_then_wait sta_disconnected es n bits st e d r again =
      elim (Bool-cases (ltb st.retry_num conf_retry)) [
        | inl left ↦
            rw (left, Ends)
              (subst
                (λ b. WaitEnds b (
                  wait_bits p conf_retry es (record st {
                    world = (p.wifi_connect st.world).1;
                    retry_num = st.retry_num + 1;
                  })))
                (sym (
                  decides-retry n es
                    (let lt : st.retry_num < conf_retry = ltb→lt _ _ left in omega (arith, r))))
                (again (suc n) _ e (omega (arith, r))))
        | inr spent ↦
            rw (spent, Ends)
              (set_then_wait n sta_disconnected es (λ b. record b { fail = true }) bits st e
                (or_true bits.connected)
                (let le : conf_retry ≤ st.retry_num = ltb_false→le _ _ spent in
                  let le' : leb conf_retry n ≡ true = ground (arith, le, r) in rw le' refl))
      ]

  pub wait_bits-Decided :
      (es : List Event) (n : ℕ) (bits : Bits) (st : State p)
      → st.event_group ≡ some bits
      → decided bits ≡ false
      → st.retry_num ≡ n
      → WaitEnds (decides conf_retry n es) (wait_bits p conf_retry es st)
  unfolding wait_bits
  wait_bits-Decided [] n bits st e d r = rw (e, d, Ends) (refl, refl)
  wait_bits-Decided (ev ∷ es) n bits st e d r =
      subst (WaitEnds (decides conf_retry n (ev ∷ es))) (sym (wait_bits-step ev es bits st e d))
        (event_then_wait ev es n bits st e d r (λ m v e' r'. wait_bits-Decided es m bits v e' d r'))
