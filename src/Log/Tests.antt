-- ===== src/Log/Tests.antt =====
-- The theorem on the dump of the stack in src/lib/log.c at a concrete stack.
use vedruino.Base.{
  ℕ, ◌-◌, ◌%◌, ◌^◌, ◌≡◌, refl, List, [], ◌∷◌, ◌++◌, arith, ◌==◌, if◌then◌else◌, Returns,
}
use vedruino.Log.{Machine, pk_log_btrace}
use vedruino.Log.Trace.{Frame, Is32Bits, IsChain, read_btrace, pk_log_btrace-IsRead}

-- Two frames; below the first stack pointer lie the next one and the closing 0.
abbrev machine : Machine
machine = record {
  load = λ a. if a == 0x3ffb0000 then 0 else 0x3ffb0040;
  process_stack_pc = λ pc. (pc - 3) % 2 ^ 32;
  btrace_get_start = (0x400d1237, 0x3ffb0010, 0x400d5678);
}

abbrev frames : List Frame
frames = (0x400d1234, 0x3ffb0010) ∷ (0x400d5675, 0x3ffb0040) ∷ []

machine-Is32Bits : Is32Bits machine
machine-Is32Bits = ((λ a. ground arith), (λ a. omega arith), omega arith)

frames-IsChain : IsChain machine frames 0x400d1237 0x3ffb0010 0x400d5678
frames-IsChain = ((λ e. omega (arith, e)), refl, refl, ((λ e. omega (arith, e)), refl, refl, refl))

pk_log_btrace-IsRead_example :
    Returns
      (λ _ out'. (text : List ℕ) × (out' ≡ [] ++ text) × (read_btrace 3 text ≡ frames))
      (pk_log_btrace machine 3 [])
pk_log_btrace-IsRead_example =
    pk_log_btrace-IsRead machine frames 3 [] machine-Is32Bits frames-IsChain (omega arith)
