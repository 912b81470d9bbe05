-- ===== src/Sysmon.antt =====
-- src/lib/sysmon.c, which an #if 0 takes out of the build, as it stands there. What is printed on the
-- level of information is in the state; the other messages, and the tasks for tests, are left out.
pub mod Idle
mod Tests
use Prim.Native.String.{String}
use vedruino.Base.{
  ℕ, zero, suc, ◌+◌, ◌-◌, ◌%◌, ◌^◌, Bool, true, false, not, ◌&&◌, ◌||◌, Option, none, some, List,
  [], ◌∷◌, ◌++◌, if◌then◌else◌, get_elem?, set, M, done, halt, pure, stop, ◌>>=◌, ◌>>◌, modify,
  Halt,
}
use vedruino.Misc.{Float, pk_hum_size}

-- The macros CONF_SYSMON_*, and the ticks between two rounds of the log task.
pub record Conf : Type 0 where
  pub monitor_cpu : Bool
  pub monitor_heap : Bool
  pub monitor_tasks : Bool
  pub dualcore : Bool
  pub log_ticks : ℕ

-- `eTaskGetState`
pub data TaskState : Type 0 where
  ready running blocked_state suspended deleted invalid : TaskState

state_text : TaskState → String
state_text ready = "READY"
state_text running = "RUN"
state_text blocked_state = "BLOCK"
state_text suspended = "SUSP"
state_text deleted = "DEL"
state_text invalid = "INV"

pub record Snapshot : Type 0 where
  pub handle : ℕ
  pub stack_end : ℕ
  pub stack_top : ℕ

-- The calls of ESP-IDF and FreeRTOS, and the operations on float; `false` is an error or NULL.
-- `take_mutex` is `xSemaphoreTake` without waiting, on the mutex of a core.
pub record Platform : Type 1 where
  pub World : Type 0
  pub float : Float
  pub of_nat : ℕ → float.Value
  pub div : float.Value → float.Value → float.Value
  pub mul : float.Value → float.Value → float.Value
  pub sub : float.Value → float.Value → float.Value
  pub fmin : float.Value → float.Value → float.Value
  pub heap_total : World → ℕ × World
  pub heap_free : World → ℕ × World
  pub mutex_create : World → Bool × World
  pub register_idle_hook : (core : ℕ) → World → Bool × World
  pub task_create : World → Bool × World
  pub take_mutex : (core : ℕ) → World → Bool × World
  pub give_mutex : (core : ℕ) → World → Unit {0} × World
  pub number_of_tasks : World → ℕ × World
  pub has_memory : (tasks : ℕ) → World → Bool × World
  pub snapshot_all : (max : ℕ) → World → List Snapshot × World
  pub task_name : (handle : ℕ) → World → List ℕ × World
  pub task_state : (handle : ℕ) → World → TaskState × World
  pub task_priority : (handle : ℕ) → World → ℕ × World

-- A line that is printed.
pub data Line (Value : Type 0) : Type 0 where
  cpu_load : (core : ℕ) → (load : Value) → Line Value
  heap_stat : (used total : Value × List ℕ) → (mem_usage : Value) → Line Value
  task : (name : List ℕ) → Snapshot → (state : String) → (priority : ℕ) → Line Value

-- The static variables, where `log_task` is whether the task is suspended, or `none` before it is there;
-- the number of blocks that `malloc` gave; and what was printed.
pub record State (p : Platform) : Type 0 where
  pub world : p.World
  pub total_heap : ℕ
  pub log_task : Option Bool
  pub idle_ticks : List ℕ
  pub blocks : ℕ
  pub printed : List (Line p.float.Value)

module _ (p : Platform) where
  abbrev pub io : {A : Type 0} → (p.World → A × p.World) → M (State p) A
  io f st = let (a, w) = f st.world in done a (record st { world = w })

  abbrev pub print : Line p.float.Value → M (State p) (Unit {0})
  print line = modify (λ st. record st { printed = st.printed ++ line ∷ [] })

  -- A call after whose error the function returns; it is left out where it is not compiled in.
  required : (compiled : Bool) → (p.World → Bool × p.World) → M (State p) Bool → M (State p) Bool
  required false f next = next
  required true f next = io f >>= λ ok. elim ok [ true ↦ next | false ↦ pure false ]

  -- The result is whether it is 0.
  unfoldable pub sysmon_start : Conf → M (State p) Bool
  unfolding required
  sysmon_start conf =
      (io p.heap_total >>= λ total. modify (λ st. record st { total_heap = total }))
      >> (if conf.monitor_cpu || (conf.monitor_heap || conf.monitor_tasks)
          then (modify (λ st. record st {
            idle_ticks =
                if conf.monitor_cpu
                then 0 ∷ (if conf.dualcore then 0 ∷ [] else [])
                else st.idle_ticks;
          })
              >> required conf.monitor_cpu p.mutex_create (
                  required (conf.monitor_cpu && conf.dualcore) p.mutex_create (
                    required conf.monitor_cpu (p.register_idle_hook 0) (
                      required (conf.monitor_cpu && conf.dualcore) (p.register_idle_hook 1) (
                        required true p.task_create
                          (modify (λ st. record st { log_task = some false }) >> pure true))))))
          else pure true)

  -- `none` would be a read of `sufs` out of bounds in `pk_hum_size`.
  hum_size : ℕ → M (State p) (p.float.Value × List ℕ)
  hum_size n st = elim (pk_hum_size p.float (p.of_nat n)) [
    | none ↦ stop Halt.undefined_read st
    | some r ↦ pure r st
  ]

  unfoldable pub sysmon_dump_heap_stat : M (State p) (Unit {0})
  unfolding hum_size
  sysmon_dump_heap_stat st =
      (io p.heap_free >>= λ free. hum_size st.total_heap >>= λ total.
      hum_size ((st.total_heap + 2 ^ 32 - free) % 2 ^ 32) >>= λ used.
      print (heap_stat used total (p.div (p.mul (p.of_nat 100) used.0) total.0)))
        st

  dump_task : Snapshot → M (State p) (Unit {0})
  unfolding state_text
  dump_task s = io (p.task_name s.handle) >>= λ name. io (p.task_state s.handle) >>= λ state.
      io (p.task_priority s.handle) >>= λ priority. print (task name s (state_text state) priority)

  dump_each : List Snapshot → M (State p) (Unit {0})
  unfolding dump_task
  dump_each [] = pure tt
  dump_each (s ∷ ss) = dump_task s >> dump_each ss

  -- Where no task is found, the snapshots are not freed.
  dump_snapshots : List Snapshot → M (State p) (Unit {0})
  unfolding dump_each
  dump_snapshots [] = pure tt
  dump_snapshots (s ∷ ss) =
      dump_each (s ∷ ss) >> modify (λ st. record st { blocks = st.blocks - 1 })

  with_snapshots : (tasks_num : ℕ) → Bool → M (State p) (Unit {0})
  unfolding dump_snapshots
  with_snapshots tasks_num false = pure tt
  with_snapshots tasks_num true =
      modify (λ st. record st { blocks = st.blocks + 1 })
      >> io (p.snapshot_all tasks_num)
      >>= dump_snapshots

  unfoldable pub sysmon_dump_tasks : M (State p) (Unit {0})
  unfolding with_snapshots
  sysmon_dump_tasks =
      io p.number_of_tasks >>= λ tasks_num. io (p.has_memory tasks_num) >>= with_snapshots tasks_num

  -- A task that is not there is NULL, and `vTaskSuspend(NULL)` would suspend the caller.
  set_suspended : Bool → M (State p) (Unit {0})
  set_suspended suspend st = elim st.log_task [
    | none ↦ stop Halt.undefined_read st
    | some was ↦ done tt (record st { log_task = some suspend })
  ]

  unfoldable pub sysmon_pause : Conf → M (State p) (Unit {0})
  unfolding set_suspended
  sysmon_pause conf =
      if conf.monitor_cpu || (conf.monitor_heap || conf.monitor_tasks)
      then set_suspended true
      else pure tt

  unfoldable pub sysmon_resume : Conf → M (State p) (Unit {0})
  unfolding set_suspended
  sysmon_resume conf =
      if conf.monitor_cpu || (conf.monitor_heap || conf.monitor_tasks)
      then set_suspended false
      else pure tt

  -- The ticks of a core; there is none outside the array.
  with_ticks : (core : ℕ) → (ℕ → M (State p) (Unit {0})) → M (State p) (Unit {0})
  with_ticks core f st = elim (get_elem? st.idle_ticks core) [
    | none ↦ stop Halt.undefined_read st
    | some n ↦ f n st
  ]

  set_ticks : (core n : ℕ) → M (State p) (Unit {0})
  set_ticks core n = modify (λ st. record st { idle_ticks = set st.idle_ticks core n })

  locked : (core : ℕ) → M (State p) (Unit {0}) → M (State p) (Unit {0})
  locked core body = io (p.take_mutex core) >>= λ taken. elim taken [
    | true ↦ body >> io (p.give_mutex core)
    | false ↦ pure tt
  ]

  -- `core` is the one that the hook runs on. The source counts in an `int`, which the log task sets back to 0;
  -- the model counts without a bound, and so agrees with it for less than 2 ^ 31 ticks in between.
  unfoldable pub idle_hook : (core : ℕ) → M (State p) Bool
  unfolding locked with_ticks set_ticks
  idle_hook core = locked core (with_ticks core (λ n. set_ticks core (suc n))) >> pure true

  -- The load of a core, from the ticks it was idle for.
  abbrev pub load_of : (log_ticks idle : ℕ) → p.float.Value
  load_of log_ticks idle =
      p.mul (p.sub (p.of_nat 1) (p.fmin (p.div (p.of_nat idle) (p.of_nat log_ticks)) (p.of_nat 1)))
        (p.of_nat 100)

  unfoldable pub log_and_reset_cpu_load : Conf → (core : ℕ) → M (State p) (Unit {0})
  unfolding locked with_ticks set_ticks
  log_and_reset_cpu_load conf core =
      locked core (
        with_ticks core (λ n. print (cpu_load core (load_of conf.log_ticks n)) >> set_ticks core 0))

  when : Bool → M (State p) (Unit {0}) → M (State p) (Unit {0})
  when false m = pure tt
  when true m = m

  -- One round of the endless loop of `log_task`, behind its delay.
  unfoldable pub log_round : Conf → M (State p) (Unit {0})
  unfolding when sysmon_dump_heap_stat sysmon_dump_tasks log_and_reset_cpu_load
  log_round conf =
      when conf.monitor_heap sysmon_dump_heap_stat
      >> when conf.monitor_tasks sysmon_dump_tasks
      >> when conf.monitor_cpu (log_and_reset_cpu_load conf 0)
      >> when (conf.monitor_cpu && conf.dualcore) (log_and_reset_cpu_load conf 1)
