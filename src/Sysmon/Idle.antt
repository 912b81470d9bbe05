-- ===== src/Sysmon/Idle.antt =====
-- `idle_hook` and `log_and_reset_cpu_load` of src/lib/sysmon.c in any order: every tick is in one load.
use mathlib.Core.List.{append_assoc, append-nil, map-append}
use mathlib.Core.Path.{subst}
use vedruino.Base.{
  ℕ, zero, suc, ◌+◌, ◌<◌, ◌≡◌, ◌≢◌, refl, sym, ap, ◌∙◌, inl, inr, true, false, Bool-cases, some,
  List, [], ◌∷◌, ◌++◌, map, arith, ◌==◌, ==_iff, if◌then◌else◌, length, get_elem?, get_elem?-some,
  set, length-set, All, M, pure, ◌>>◌, Returns, bind-Returns, Returns-mono,
}
use vedruino.Sysmon.{
  Platform, State, Conf, Line, cpu_load, heap_stat, task, load_of, locked, with_ticks, set_ticks,
  idle_hook, log_and_reset_cpu_load,
}

-- What may happen: the idle task of a core runs its hook, or the log task prints the load of a core.
pub data Step : Type 0 where
  hook : (core : ℕ) → Step
  log : (core : ℕ) → Step

abbrev pub core_of : Step → ℕ
core_of (hook k) = k
core_of (log k) = k

-- How often the hook of a core has run.
abbrev pub hooks : (core : ℕ) → List Step → ℕ
hooks c [] = 0
hooks c (hook k ∷ steps) = (if k == c then 1 else 0) + hooks c steps
hooks c (log k ∷ steps) = hooks c steps

abbrev pub total : List ℕ → ℕ
total [] = 0
total (n ∷ ns) = n + total ns

total-append : (ns ms : List ℕ) → total (ns ++ ms) ≡ total ns + total ms
total-append [] ms = omega arith
total-append (n ∷ ns) ms = omega (arith, total-append ns ms)

get_elem?-set_same : (xs : List ℕ) (i v : ℕ) → i < length xs → get_elem? (set xs i v) i ≡ some v
get_elem?-set_same [] i v lt = absurd (omega arith)
get_elem?-set_same (x ∷ xs) zero v lt = refl
get_elem?-set_same (x ∷ xs) (suc i) v lt = get_elem?-set_same xs i v (omega arith)

get_elem?-set_other : (xs : List ℕ) (i j v : ℕ) → i ≢ j → get_elem? (set xs i v) j ≡ get_elem? xs j
get_elem?-set_other [] i j v ne = refl
get_elem?-set_other (x ∷ xs) zero zero v ne = absurd (ne refl)
get_elem?-set_other (x ∷ xs) zero (suc j) v ne = refl
get_elem?-set_other (x ∷ xs) (suc i) zero v ne = refl
get_elem?-set_other (x ∷ xs) (suc i) (suc j) v ne =
    get_elem?-set_other xs i j v (λ e. ne (ap suc e))

module _ (p : Platform) (conf : Conf) where
  step : Step → M (State p) (Unit {0})
  step (hook k) = idle_hook p k >> pure tt
  step (log k) = log_and_reset_cpu_load p conf k

  pub run : List Step → M (State p) (Unit {0})
  unfolding step
  run [] = pure tt
  run (s ∷ steps) = step s >> run steps

  -- The loads of a core among what was printed.
  abbrev pub loads : (core : ℕ) → List (Line p.float.Value) → List p.float.Value
  loads c [] = []
  loads c (cpu_load k v ∷ ls) = let rest = loads c ls in if k == c then v ∷ rest else rest
  loads c (heap_stat used of usage ∷ ls) = loads c ls
  loads c (task name s state priority ∷ ls) = loads c ls

  loads-append :
      (c : ℕ) (ls ms : List (Line p.float.Value)) → loads c (ls ++ ms) ≡ loads c ls ++ loads c ms
  loads-append c [] ms = refl
  loads-append c (cpu_load k v ∷ ls) ms = elim (Bool-cases (k == c)) [
    | inl e ↦ rw e (ap (◌∷◌ v) (loads-append c ls ms))
    | inr e ↦ rw e (loads-append c ls ms)
  ]
  loads-append c (heap_stat used of usage ∷ ls) ms = loads-append c ls ms
  loads-append c (task name s state priority ∷ ls) ms = loads-append c ls ms

  module _ (c : ℕ) (taken : (core : ℕ) (w : p.World) → (p.take_mutex core w).0 ≡ true) where
    -- Begun with `n` ticks of the core waiting and `steps` hooks of it run: the loads that were printed
    -- stand for `counts`, and these and the ticks that wait are all of them.
    abbrev pub Accounted : (n k : ℕ) → State p → {A : Type 0} → A → State p → Type 0
    Accounted n k st _ u =
        (counts : List ℕ) × (m : ℕ) × (get_elem? u.idle_ticks c ≡ some m)
        × (loads c u.printed ≡ loads c st.printed ++ map (load_of p conf.log_ticks) counts)
        × (total counts + m ≡ n + k)
        × (length u.idle_ticks ≡ length st.idle_ticks)

    -- The slot of the core after slot `k`, which held `x`, was set to `v`.
    same_value :
        (k x n : ℕ) (st : State p)
        → (k == c) ≡ true
        → get_elem? st.idle_ticks k ≡ some x
        → get_elem? st.idle_ticks c ≡ some n
        → x ≡ n
    same_value k x n st e at e' =
        let same : some x ≡ some n =
          sym at ∙ ap (get_elem? st.idle_ticks) ((==_iff k c).0 e) ∙ e' in
        cc

    set_here :
        (k v : ℕ) (st : State p)
        → (k == c) ≡ true
        → k < length st.idle_ticks
        → get_elem? (set st.idle_ticks k v) c ≡ some v
    set_here k v st e lt =
        ap (get_elem? (set st.idle_ticks k v)) (sym ((==_iff k c).0 e))
        ∙ get_elem?-set_same st.idle_ticks k v lt

    set_there :
        (k v n : ℕ) (st : State p)
        → (k == c) ≡ false
        → get_elem? st.idle_ticks c ≡ some n
        → get_elem? (set st.idle_ticks k v) c ≡ some n
    set_there k v n st e at =
        get_elem?-set_other st.idle_ticks k c v (λ same. ground (arith, same, e)) ∙ at

    hooked :
        (k x n : ℕ) (st : State p)
        → k < length st.idle_ticks
        → get_elem? st.idle_ticks k ≡ some x
        → get_elem? st.idle_ticks c ≡ some n
        → Accounted n
            (hooks c (hook k ∷ []))
            st
            tt
            (record st { idle_ticks = set st.idle_ticks k (suc x) })
    hooked k x n st lt at e = elim (Bool-cases (k == c)) [
      | inl here ↦ (
        [],
        suc x,
        set_here k (suc x) st here lt,
        sym (append-nil (loads c st.printed)),
        (let same : x ≡ n = same_value k x n st here at e in rw here (omega (arith, same))),
        length-set st.idle_ticks k (suc x),
      )
      | inr there ↦ (
        [],
        n,
        set_there k (suc x) n st there e,
        sym (append-nil (loads c st.printed)),
        rw there (omega arith),
        length-set st.idle_ticks k (suc x),
      )
    ]

    logged :
        (k x n : ℕ) (st : State p)
        → k < length st.idle_ticks
        → get_elem? st.idle_ticks k ≡ some x
        → get_elem? st.idle_ticks c ≡ some n
        → Accounted n 0 st tt (record st {
          idle_ticks = set st.idle_ticks k 0;
          printed = st.printed ++ cpu_load k (load_of p conf.log_ticks x) ∷ [];
        })
    logged k x n st lt at e = elim (Bool-cases (k == c)) [
      | inl here ↦ (
        x ∷ [],
        0,
        set_here k 0 st here lt,
        loads-append c st.printed (cpu_load k (load_of p conf.log_ticks x) ∷ []) ∙ rw here refl,
        (let same : x ≡ n = same_value k x n st here at e in omega (arith, same)),
        length-set st.idle_ticks k 0,
      )
      | inr there ↦ (
        [],
        n,
        set_there k 0 n st there e,
        loads-append c st.printed (cpu_load k (load_of p conf.log_ticks x) ∷ []) ∙ rw there refl,
        omega arith,
        length-set st.idle_ticks k 0,
      )
    ]

    step-Accounted :
        (s : Step) (n : ℕ) (st : State p)
        → core_of s < length st.idle_ticks
        → get_elem? st.idle_ticks c ≡ some n
        → Returns (Accounted n (hooks c (s ∷ [])) st) (step s st)
    unfolding step idle_hook log_and_reset_cpu_load locked with_ticks set_ticks
    step-Accounted (hook k) n st lt e =
        let (x, at) = get_elem?-some st.idle_ticks k lt in
        rw (taken k st.world, at, Returns) (hooked k x n st lt at e)
    step-Accounted (log k) n st lt e =
        let (x, at) = get_elem?-some st.idle_ticks k lt in
        rw (taken k st.world, at, Returns) (logged k x n st lt at e)

    hooks-∷ :
        (s : Step) (steps : List Step) → hooks c (s ∷ []) + hooks c steps ≡ hooks c (s ∷ steps)
    hooks-∷ (hook k) steps = omega arith
    hooks-∷ (log k) steps = omega arith

    then_Accounted :
        (n k k' m : ℕ) (st v u : State p) (counts : List ℕ)
        → (loads c v.printed ≡ loads c st.printed ++ map (load_of p conf.log_ticks) counts)
        → (total counts + m ≡ n + k)
        → (length v.idle_ticks ≡ length st.idle_ticks)
        → Accounted m k' v tt u
        → Accounted n (k + k') st tt u
    then_Accounted n k k' m st v u counts printed sum len (more, m', at', printed', sum', len') = (
      counts ++ more,
      m',
      at',
      printed'
          ∙ ap (λ l. l ++ map (load_of p conf.log_ticks) more) printed
          ∙ append_assoc (loads c st.printed) (map (load_of p conf.log_ticks) counts) _
          ∙ ap (◌++◌ (loads c st.printed))
              (sym (map-append (load_of p conf.log_ticks) counts more)),
      omega (arith, sum, sum', total-append counts more),
      len' ∙ len,
    )

    All-length :
        (steps : List Step) (k k' : ℕ)
        → k' ≡ k
        → All (λ s. core_of s < k) steps
        → All (λ s. core_of s < k') steps
    All-length [] k k' e h = tt
    All-length (s ∷ steps) k k' e h = (omega (arith, e, h.0), All-length steps k k' e h.1)

    -- Where a mutex can always be taken, any run of hooks and of prints on the cores that there are returns.
    -- The loads of a core that it has printed stand for numbers of ticks, and these and the number
    -- that waits are together the number that waited before and one for each run of the hook: none is
    -- lost, and none is in two loads.
    pub run-Accounted :
        (steps : List Step) (n : ℕ) (st : State p)
        → All (λ s. core_of s < length st.idle_ticks) steps
        → get_elem? st.idle_ticks c ≡ some n
        → Returns (Accounted n (hooks c steps) st) (run steps st)
    unfolding run
    run-Accounted [] n st h e = ([], n, e, sym (append-nil (loads c st.printed)), omega arith, refl)
    run-Accounted (s ∷ steps) n st h e =
        bind-Returns (Accounted n (hooks c (s ∷ [])) st) (Accounted n (hooks c (s ∷ steps)) st)
          (step s st) (λ _. run steps) (step-Accounted s n st h.0 e)
          (λ _ v (counts, m, at, printed, sum, len).
            Returns-mono (Accounted m (hooks c steps) v) (Accounted n (hooks c (s ∷ steps)) st)
              (run steps v) (run-Accounted steps m v (All-length steps _ _ len h.1) at)
              (λ _ u a.
                subst (λ k. Accounted n k st tt u) (hooks-∷ s steps)
                  (then_Accounted n (hooks c (s ∷ [])) (hooks c steps) m st v u counts printed sum
                    len a)))
