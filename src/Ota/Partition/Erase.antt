-- ===== src/Ota/Partition/Erase.antt =====
-- `erase_upd_part` of src/lib/ota.c: what it erases.
use vedruino.Base.{
  ℕ, ◌%◌, ◌≤◌, ◌<◌, ◌≡◌, ◌∙◌, inl, inr, true, arith, min, ltb, ltb→lt, ltb_false→le, Bool-cases,
  Returns,
}
use vedruino.Ota.Platform.{Platform}
use vedruino.Ota.Flash.{erased, IsFlash}
use vedruino.Ota.Partition.{firmware_blk_size, erase_size, erase_upd_part}

-- Of a partition of whole blocks, `erase_upd_part` erases whole blocks that lie in the partition and
-- hold at least the given number of bytes, or all of the partition where it is smaller.
pub erase_size_bounds :
    (size bytes : ℕ)
    → size % firmware_blk_size ≡ 0
    → (min bytes size ≤ erase_size size bytes)
      × (erase_size size bytes ≤ size)
      × (erase_size size bytes % firmware_blk_size ≡ 0)
unfolding erase_size
erase_size_bounds size bytes h = ground arith

erase_size_covers : (size bytes : ℕ) → min bytes size ≤ erase_size size bytes
unfolding erase_size
erase_size_covers size bytes = ground arith

module _ (p : Platform) (fl : IsFlash p) where
  -- Where every cell of the partition from the first `bytes` bytes on is erased, `erase_upd_part`
  -- returns, and if it reports success the whole partition is erased.
  pub erase_upd_part-erased :
      (size bytes : ℕ) (w : p.World)
      → ((i : ℕ) → bytes ≤ i → i < size → fl.cell w i ≡ erased)
      → Returns
          (λ ok v. ok ≡ true → (i : ℕ) → i < size → fl.cell v i ≡ erased)
          (erase_upd_part p size bytes w)
  unfolding erase_upd_part
  erase_upd_part-erased size bytes w above =
      erased_cells (erase_size size bytes) (erase_size_covers size bytes)
    where
      erased_cells :
          (n : ℕ)
          → min bytes size ≤ n
          → (p.partition_erase_range 0 n w).0 ≡ true
          → (i : ℕ) → i < size
          → fl.cell (p.partition_erase_range 0 n w).1 i ≡ erased
      erased_cells n covers ok i lt = elim (Bool-cases (ltb i n)) [
        | inl inside ↦ fl.erase_erased 0 n i w ok (omega arith) (omega (arith, ltb→lt i n inside))
        | inr outside ↦
            let le : n ≤ i = ltb_false→le i n outside in
            fl.erase_frame 0 n i w (inr (omega arith)) ∙ above i (omega arith) lt
      ]
