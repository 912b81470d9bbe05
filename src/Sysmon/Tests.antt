-- ===== src/Sysmon/Tests.antt =====
-- The theorem on src/lib/sysmon.c at a concrete input.
use vedruino.Base.{
  ℕ, suc, ◌*◌, ◌-◌, ◌/◌, refl, Bool, true, false, none, List, [], ◌∷◌, arith, ltb, min, Returns,
}
use vedruino.Misc.{Float}
use vedruino.Sysmon.{Platform, State, Conf, ready}
use vedruino.Sysmon.Idle.{Step, hook, log, run, Accounted, run-Accounted}

-- Whole numbers in place of floating-point ones.
abbrev whole : Float
whole = record {
  Value = ℕ;
  above_1024 = λ n. ltb 1024 n;
  is_infinite = λ n. false;
  div_1024 = λ n. n / 1024;
}

abbrev ok : ℕ → Bool × ℕ
ok w = (true, suc w)

abbrev chip : Platform
chip = record {
  World = ℕ;
  float = whole;
  of_nat = λ n. n;
  div = λ a b. a / b;
  mul = λ a b. a * b;
  sub = λ a b. a - b;
  fmin = λ a b. min a b;
  heap_total = λ w. (4096, w);
  heap_free = λ w. (1024, w);
  mutex_create = ok;
  register_idle_hook = λ core. ok;
  task_create = ok;
  take_mutex = λ core. ok;
  give_mutex = λ core w. (tt, suc w);
  number_of_tasks = λ w. (0, w);
  has_memory = λ tasks. ok;
  snapshot_all = λ max w. ([], w);
  task_name = λ handle w. ([], w);
  task_state = λ handle w. (ready, w);
  task_priority = λ handle w. (1, w);
}

abbrev conf : Conf
conf = record {
  monitor_cpu = true;
  monitor_heap = false;
  monitor_tasks = false;
  dualcore = true;
  log_ticks = 4;
}

abbrev measuring : State chip
measuring = record {
  world = 0;
  total_heap = 4096;
  log_task = none;
  idle_ticks = 2 ∷ 0 ∷ [];
  blocks = 0;
  printed = [];
}

abbrev steps : List Step
steps = hook 0 ∷ hook 1 ∷ log 0 ∷ hook 0 ∷ log 1 ∷ []

run-Accounted_example :
    Returns (Accounted chip conf 0 (λ core w. refl) 2 2 measuring) (run chip conf steps measuring)
run-Accounted_example =
    run-Accounted chip conf 0 (λ core w. refl) steps 2 measuring
      (omega arith, (omega arith, (omega arith, (omega arith, (omega arith, tt))))) refl
