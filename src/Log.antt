-- ===== src/Log.antt =====
-- src/lib/log.c: the start of the log, and the dump of the stack of the running task. `out` is the text
-- that was printed to the stream so far.
pub mod Format
pub mod Trace
mod Tests
use vedruino.Base.{
  ℕ, zero, suc, ◌+◌, ◌-◌, ◌%◌, ◌^◌, Bool, true, false, List, [], ◌∷◌, ◌++◌, ◌==◌, M, pure, stop,
  ◌>>=◌, ◌>>◌, call, modify, pk_assert, Halt,
}
use vedruino.Log.Format.{hex8}

-- `load` reads the `uint32_t` at an address, `process_stack_pc` is `esp_cpu_process_stack_pc`, and
-- `btrace_get_start` is the one of btrace.S, with `pc`, `sp` and `next_pc`.
pub record Machine : Type 0 where
  pub load : ℕ → ℕ
  pub process_stack_pc : ℕ → ℕ
  pub btrace_get_start : ℕ × ℕ × ℕ

-- An address below another one, in 32 bits.
abbrev pub below : (address offs : ℕ) → ℕ
below address offs = (address + 2 ^ 32 - offs) % 2 ^ 32

-- The characters of "PKBTRACE START\n", "PKBTRACE END\n", "PKBTRACE 0x" and ":0x".
abbrev pub start_line : List ℕ
start_line =
    b'P' ∷ b'K' ∷ b'B' ∷ b'T' ∷ b'R' ∷ b'A' ∷ b'C' ∷ b'E' ∷ b' ' ∷ b'S' ∷ b'T' ∷ b'A' ∷ b'R' ∷ b'T'
    ∷ 10 ∷ []

abbrev pub end_line : List ℕ
end_line =
    b'P' ∷ b'K' ∷ b'B' ∷ b'T' ∷ b'R' ∷ b'A' ∷ b'C' ∷ b'E' ∷ b' ' ∷ b'E' ∷ b'N' ∷ b'D' ∷ 10 ∷ []

abbrev pub entry_line : (pc sp : ℕ) → List ℕ
entry_line pc sp =
    (b'P' ∷ b'K' ∷ b'B' ∷ b'T' ∷ b'R' ∷ b'A' ∷ b'C' ∷ b'E' ∷ b' ' ∷ b'0' ∷ b'x' ∷ [])
    ++ (hex8 pc ++ ((b':' ∷ b'0' ∷ b'x' ∷ []) ++ (hex8 sp ++ 10 ∷ [])))

abbrev pub print : List ℕ → M (List ℕ) (Unit {0})
print text = modify (λ out. out ++ text)

module _ (m : Machine) where
  -- `while (pc != 0)`
  pub btrace_loop : (fuel pc sp next_pc : ℕ) → M (List ℕ) (Unit {0})
  btrace_loop zero pc sp next_pc out = stop Halt.out_of_fuel out
  btrace_loop (suc f) pc sp next_pc out = elim (pc == 0) [
    | true ↦ pure tt out
    | false ↦
        (print (entry_line (m.process_stack_pc pc) sp)
            >> btrace_loop f next_pc (m.load (below sp 12)) (m.load (below sp 16)))
          out
  ]

  unfoldable pub pk_log_btrace : (fuel : ℕ) → M (List ℕ) (Unit {0})
  unfolding btrace_loop
  pk_log_btrace fuel =
      let (pc, sp, next_pc) = m.btrace_get_start in
      print start_line >> btrace_loop fuel pc sp next_pc >> print end_line

-- What `pk_log_init` sets: whether `pk_log_uartout` is the stream that `stdout` was, and whether
-- `pk_btrace_mutex` is there.
pub record LogState : Type 0 where
  pub stdout : ℕ
  pub uartout : ℕ
  pub btrace_mutex : Bool

-- `created` is the result of `xSemaphoreCreateMutexStatic`.
pub pk_log_init : (created : Bool) → M LogState (Unit {0})
pk_log_init created =
    modify (λ st. record st { uartout = st.stdout; btrace_mutex = created }) >> pk_assert created
