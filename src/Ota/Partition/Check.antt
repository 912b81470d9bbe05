-- ===== src/Ota/Partition/Check.antt =====
-- `check_upd_part` of src/lib/ota.c: what its answers say of the partition.
use vedruino.Base.{
  ℕ, zero, suc, ◌+◌, ◌-◌, ◌%◌, ◌<◌, ◌≡◌, ◌≢◌, refl, sym, ap, ◌∙◌, inl, inr, true, false, Option,
  none, some, List, [], ◌∷◌, arith, ◌==◌, ltb, ltb→lt, ltb_false→le, Bool-cases, Option-cases,
  length, get_elem?, M, Returns,
}
use vedruino.Ota.Platform.{Platform}
use vedruino.Ota.Flash.{erased, IsFlash}
use vedruino.Ota.Partition.{
  firmware_blk_size, PartStatus, part_clean, part_need_erase, is_clean, check_block, check_loop,
  check_upd_part,
}

is_clean-true : (bs : List ℕ) (i b : ℕ) → is_clean bs ≡ true → get_elem? bs i ≡ some b → b ≡ erased
is_clean-true [] i b h e = cc
is_clean-true (x ∷ bs) zero b h e = ground arith
is_clean-true (x ∷ bs) (suc i) b h e = ground (arith, is_clean-true bs i b)

-- The first byte that is not erased.
is_clean-false :
    (bs : List ℕ)
    → is_clean bs ≡ false
    → (i b : ℕ) × (i < length bs) × (get_elem? bs i ≡ some b) × (b ≢ erased)
is_clean-false [] h = cc
is_clean-false (x ∷ bs) h = elim (Bool-cases (x == 0xff)) [
  | inr dirty ↦ (0, x, omega arith, refl, ground arith)
  | inl clean ↦
      let (i, b, lt, e, ne) = is_clean-false bs (ground arith) in (suc i, b, omega arith, e, ne)
]

module _ (p : Platform) (fl : IsFlash p) (size : ℕ) (w : p.World) where
  -- What a status says of the partition as it was before the call; the call changes no cell.
  pub record Checked (r : PartStatus) (v : p.World) : Type 0 where
    pub same : (i : ℕ) → fl.cell v i ≡ fl.cell w i
    pub clean : r ≡ part_clean → (i : ℕ) → i < size → fl.cell w i ≡ erased
    pub dirty : r ≡ part_need_erase → (i : ℕ) × (i < size) × (fl.cell w i ≢ erased)

  record IsChecking (offs : ℕ) (v : p.World) : Type 0 where
    same : (i : ℕ) → fl.cell v i ≡ fl.cell w i
    below : (i : ℕ) → i < offs → fl.cell w i ≡ erased
    aligned : offs % firmware_blk_size ≡ 0

  -- The block at `offs`, as it was before the call.
  abbrev IsBlock : ℕ → List ℕ → Type 0
  IsBlock offs bs =
      (length bs ≡ firmware_blk_size)
      × ((i : ℕ) → i < firmware_blk_size → get_elem? bs i ≡ some (fl.cell w (offs + i)))

  clean_block :
      (offs : ℕ) (bs : List ℕ) (v v' : p.World)
      → IsChecking offs v
      → ((i : ℕ) → fl.cell v' i ≡ fl.cell v i)
      → IsBlock offs bs
      → is_clean bs ≡ true
      → IsChecking (offs + firmware_blk_size) v'
  clean_block offs bs v v' c keeps (len, cells) clean = record {
    same = λ i. keeps i ∙ c.same i;
    below = λ i lt. elim (Bool-cases (ltb i offs)) [
      | inl old ↦ c.below i (ltb→lt i offs old)
      | inr new ↦
          let at : offs + (i - offs) ≡ i = omega (arith, ltb_false→le i offs new) in
          rw at at (
            is_clean-true bs (i - offs) (fl.cell w (offs + (i - offs))) clean
              (cells (i - offs) (omega (arith, ltb_false→le i offs new))))
    ];
    aligned = omega (arith, c.aligned);
  }

  dirty_block :
      (offs : ℕ) (bs : List ℕ)
      → size % firmware_blk_size ≡ 0
      → offs % firmware_blk_size ≡ 0
      → offs < size
      → IsBlock offs bs
      → is_clean bs ≡ false
      → (i : ℕ) × (i < size) × (fl.cell w i ≢ erased)
  dirty_block offs bs whole aligned lt (len, cells) dirty =
      let (i, b, i_lt, e, ne) = is_clean-false bs dirty in
      let found : some b ≡ some (fl.cell w (offs + i)) = sym e ∙ cells i (omega arith) in
      (offs + i, omega arith, λ z. ne (cc))

  module _ (whole : size % firmware_blk_size ≡ 0) where
    check_block-Checked :
        (buf offs : ℕ) (rest : M p.World PartStatus) (v v' : p.World)
        → ((i : ℕ) → fl.cell v' i ≡ fl.cell v i)
        → IsChecking offs v
        → offs < size
        → (IsChecking (offs + firmware_blk_size) v' → Returns Checked (rest v'))
        → (r : Option (List ℕ)) → ((bs : List ℕ) → r ≡ some bs → IsBlock offs bs)
        → Returns Checked (check_block p buf rest r v')
    unfolding check_block
    check_block-Checked buf offs rest v v' keeps c lt next none got = record {
      same = λ i. fl.free_same buf v' i ∙ keeps i ∙ c.same i;
      clean = λ e. cc;
      dirty = λ e. cc;
    }
    check_block-Checked buf offs rest v v' keeps c lt next (some bs) got =
        elim (Bool-cases (is_clean bs)) [
          | inl clean ↦
              rw (clean, Returns) (next (clean_block offs bs v v' c keeps (got bs refl) clean))
          | inr dirty ↦
              rw (dirty, Returns)
                (record {
                  same = λ i. fl.free_same buf v' i ∙ keeps i ∙ c.same i;
                  clean = λ e. cc;
                  dirty = λ e. dirty_block offs bs whole c.aligned lt (got bs refl) dirty;
                })
        ]

    -- The cells have not changed since the call began, so the block is what it was then.
    IsBlock-read :
        (offs : ℕ) (v : p.World)
        → IsChecking offs v
        → (bs : List ℕ) → (p.partition_read offs firmware_blk_size v).0 ≡ some bs
        → IsBlock offs bs
    IsBlock-read offs v c bs e =
        let (len, cells) = fl.read_cells offs firmware_blk_size bs v e in
        (len, λ i lt. cells i lt ∙ ap some (c.same (offs + i)))

    check_loop-Checked :
        (buf f offs : ℕ) (v : p.World)
        → 0 < f
        → size < f + offs
        → IsChecking offs v
        → Returns Checked (check_loop p size buf f offs v)
    unfolding check_loop
    check_loop-Checked buf zero offs v pos fuel c = absurd (omega arith)
    check_loop-Checked buf (suc f) offs v pos fuel c = elim (Bool-cases (ltb offs size)) [
      | inr over ↦
          rw (over, Returns)
            (record {
              same = λ i. fl.free_same buf v i ∙ c.same i;
              clean = λ e i lt. c.below i (omega (arith, ltb_false→le offs size over));
              dirty = λ e. cc;
            })
      | inl more ↦
          rw (more, Returns)
            (check_block-Checked buf offs (check_loop p size buf f (offs + firmware_blk_size)) v
              (p.partition_read offs firmware_blk_size v).1
              (fl.partition_read_same offs firmware_blk_size v) c (ltb→lt offs size more)
              (check_loop-Checked buf f (offs + firmware_blk_size)
                (p.partition_read offs firmware_blk_size v).1 (omega (arith, ltb→lt offs size more))
                (omega arith))
              (p.partition_read offs firmware_blk_size v).0 (IsBlock-read offs v c))
    ]

    -- `check_upd_part`, of a partition of whole blocks, returns and changes no cell. It answers that the
    -- partition is clean only if every cell is erased, and that it needs to be erased only if some cell
    -- is not.
    pub check_upd_part-Checked : Returns Checked (check_upd_part p size w)
    unfolding check_upd_part
    check_upd_part-Checked = elim (Option-cases (p.malloc firmware_blk_size w).0) [
      | inl e ↦
          rw (e, Returns)
            (record { same = fl.malloc_same firmware_blk_size w; clean = λ e. cc; dirty = λ e. cc })
      | inr (buf, e) ↦
          rw (e, Returns)
            (check_loop-Checked buf (suc size) 0 (p.malloc firmware_blk_size w).1 (omega arith)
              (omega arith)
              (record {
                same = fl.malloc_same firmware_blk_size w;
                below = λ i lt. absurd (omega arith);
                aligned = omega arith;
              }))
    ]
