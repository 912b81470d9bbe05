-- ===== src/Log/Trace.antt =====
-- What `pk_log_btrace` of src/lib/log.c prints, and how a reader of its lines gets the frames back.
use mathlib.Core.List.{append_assoc}
use vedruino.Base.{
  ℕ, zero, suc, ◌^◌, ◌<◌, ◌≡◌, ◌≢◌, refl, sym, ap, ◌∙◌, inl, inr, Bool, true, false, none, some,
  List, [], ◌∷◌, ◌++◌, arith, ◌==◌, ==_iff, Bool-cases, if◌then◌else◌, length, take, drop,
  get_elem?, All, Returns, bind-Returns, Returns-mono,
}
use vedruino.Log.Format.{hex8, read_digits, read_digits-hex8}
use vedruino.Log.{
  Machine, below, start_line, end_line, entry_line, print, btrace_loop, pk_log_btrace,
}

-- A frame as it is printed: its address in the program, and its stack pointer.
abbrev pub Frame : Type 0
Frame = ℕ × ℕ

-- The frames of a stack, from three registers on: the caller of a frame is found in the 16 bytes below
-- its stack pointer, and the last one has the address 0.
abbrev pub IsChain : Machine → List Frame → (pc sp next_pc : ℕ) → Type 0
IsChain m [] pc sp next_pc = pc ≡ 0
IsChain m ((c, s) ∷ fs) pc sp next_pc =
    (pc ≢ 0)
    × (c ≡ m.process_stack_pc pc)
    × (s ≡ sp)
    × IsChain m fs next_pc (m.load (below sp 12)) (m.load (below sp 16))

-- Registers and memory have 32 bits.
abbrev pub Is32Bits : Machine → Type 0
Is32Bits m =
    ((a : ℕ) → m.load a < 2 ^ 32)
    × ((a : ℕ) → m.process_stack_pc a < 2 ^ 32)
    × (m.btrace_get_start.1 < 2 ^ 32)

-- An independent reader: behind the first line, every line whose tenth character is 0 is an entry of two
-- numbers of eight digits, and another one ends the dump.
abbrev is_entry : List ℕ → Bool
is_entry text = elim (get_elem? text 9) [ none ↦ false | some c ↦ c == b'0' ]

abbrev read_entries : (max : ℕ) → List ℕ → List Frame
read_entries zero text = []
read_entries (suc k) text =
    let rest = read_entries k (drop 31 text) in
    if is_entry text
    then (read_digits 0 (take 8 (drop 11 text)), read_digits 0 (take 8 (drop 22 text))) ∷ rest
    else []

abbrev pub read_btrace : (max : ℕ) → List ℕ → List Frame
read_btrace max text = read_entries max (drop 15 text)

abbrev lines : List Frame → List ℕ
lines [] = end_line
lines ((c, s) ∷ fs) = entry_line c s ++ lines fs

read_entries-lines :
    (fs : List Frame) (k : ℕ)
    → All (λ (c, s). (c < 2 ^ 32) × (s < 2 ^ 32)) fs
    → length fs < k
    → read_entries k (lines fs) ≡ fs
read_entries-lines fs zero h lt = absurd (omega arith)
read_entries-lines [] (suc k) h lt = refl
read_entries-lines ((c, s) ∷ fs) (suc k) h lt =
    ap (λ (x : ℕ). (x, read_digits 0 (hex8 s)) ∷ read_entries k (lines fs))
      (read_digits-hex8 c h.0.0)
    ∙ ap (λ (x : ℕ). (c, x) ∷ read_entries k (lines fs)) (read_digits-hex8 s h.0.1)
    ∙ ap (◌∷◌ (c, s)) (read_entries-lines fs k h.1 (omega arith))

module _ (m : Machine) where
  IsChain-bounds :
      (fs : List Frame) (pc sp next_pc : ℕ)
      → Is32Bits m
      → sp < 2 ^ 32
      → IsChain m fs pc sp next_pc
      → All (λ (c, s). (c < 2 ^ 32) × (s < 2 ^ 32)) fs
  IsChain-bounds [] pc sp next_pc b lt ch = tt
  IsChain-bounds ((c, s) ∷ fs) pc sp next_pc b lt (ne, ec, es, ch) = (
    (rw ec (b.1 pc), rw es lt),
    IsChain-bounds fs next_pc (m.load (below sp 12)) (m.load (below sp 16)) b (b.0 (below sp 12))
        ch,
  )

  not_zero : (pc : ℕ) → pc ≢ 0 → (pc == 0) ≡ false
  not_zero pc ne = elim (Bool-cases (pc == 0)) [
    | inl z ↦ absurd (ne ((==_iff pc 0).0 z))
    | inr e ↦ e
  ]

  -- The loop prints the lines of the frames but for the closing one.
  btrace_loop-lines :
      (fs : List Frame) (f pc sp next_pc : ℕ) (out : List ℕ)
      → IsChain m fs pc sp next_pc
      → length fs < f
      → Returns (λ _ out'. out' ++ end_line ≡ out ++ lines fs) (btrace_loop m f pc sp next_pc out)
  unfolding btrace_loop
  btrace_loop-lines fs zero pc sp next_pc out ch lt = absurd (omega arith)
  btrace_loop-lines [] (suc f) pc sp next_pc out ch lt =
      let zero_pc : (pc == 0) ≡ true = (==_iff pc 0).1 ch in rw (zero_pc, Returns) refl
  btrace_loop-lines ((c, s) ∷ fs) (suc f) pc sp next_pc out (ne, ec, es, ch) lt =
      rw (not_zero pc ne, Returns)
        (Returns-mono (λ _ out'. out' ++ end_line ≡ (out ++ line) ++ lines fs)
          (λ _ out'. out' ++ end_line ≡ out ++ lines ((c, s) ∷ fs))
          (btrace_loop m f next_pc (m.load (below sp 12)) (m.load (below sp 16)) (out ++ line))
          (btrace_loop-lines fs f next_pc (m.load (below sp 12)) (m.load (below sp 16))
            (out ++ line) ch (omega arith))
          (λ _ out' e.
            e ∙ append_assoc out line (lines fs) ∙ ap (λ l. out ++ (l ++ lines fs)) same))
    where
      line : List ℕ
      line = entry_line (m.process_stack_pc pc) sp

      same : line ≡ entry_line c s
      same = ap (λ x. entry_line x sp) (sym ec) ∙ ap (entry_line c) (sym es)

  -- Where registers and memory have 32 bits and the stack of the running task is a chain of the frames
  -- `fs` that ends with the address 0, `pk_log_btrace` returns with as much fuel as there are frames,
  -- and one more. It has printed a text behind what was printed before, from which the frames can
  -- be read back, all of them and in their order.
  pub pk_log_btrace-IsRead :
      (fs : List Frame) (fuel : ℕ) (out : List ℕ)
      → Is32Bits m
      → IsChain m fs m.btrace_get_start.0 m.btrace_get_start.1 m.btrace_get_start.2
      → length fs < fuel
      → Returns
          (λ _ out'. (text : List ℕ) × (out' ≡ out ++ text) × (read_btrace fuel text ≡ fs))
          (pk_log_btrace m fuel out)
  unfolding pk_log_btrace
  pk_log_btrace-IsRead fs fuel out b ch lt =
      bind-Returns (λ _ v. v ++ end_line ≡ (out ++ start_line) ++ lines fs)
        (λ _ out'. (text : List ℕ) × (out' ≡ out ++ text) × (read_btrace fuel text ≡ fs))
        (btrace_loop m fuel pc sp next_pc (out ++ start_line)) (λ _. print end_line)
        (btrace_loop-lines fs fuel pc sp next_pc (out ++ start_line) ch lt)
        (λ _ v e. (
          start_line ++ lines fs,
          e ∙ append_assoc out start_line (lines fs),
          read_entries-lines fs fuel (IsChain-bounds fs pc sp next_pc b b.2 ch) lt,
        ))
    where
      pc : ℕ
      pc = m.btrace_get_start.0

      sp : ℕ
      sp = m.btrace_get_start.1

      next_pc : ℕ
      next_pc = m.btrace_get_start.2
