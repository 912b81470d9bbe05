-- ===== src/Ota/Partition.antt =====
-- src/lib/ota.c: the check and the erasure of the update partition.
pub mod Check
pub mod Erase
use vedruino.Base.{
  ℕ, zero, suc, ◌+◌, ◌*◌, ◌/◌, ◌%◌, Bool, true, false, ◌&&◌, Option, none, some, List, [], ◌∷◌, ltb,
  ◌==◌, if◌then◌else◌, M, pure, stop, ◌>>=◌, ◌>>◌, call, get, Halt,
}
use vedruino.Ota.Platform.{Platform, State, io}

-- `FIRMWARE_BLK_SIZE`
abbrev pub firmware_blk_size : ℕ
firmware_blk_size = 4096

-- `pkOtaPartStatus_t`
pub data PartStatus : Type 0 where
  part_clean part_need_erase part_err : PartStatus

-- The loop over `buf[i]`.
abbrev pub is_clean : List ℕ → Bool
is_clean [] = true
is_clean (b ∷ bs) = (b == 0xff) && is_clean bs

-- The bytes to erase, in whole blocks.
unfoldable pub erase_size : (size bytes : ℕ) → ℕ
erase_size size bytes =
    let n = if ltb size bytes then size else bytes in
    (if n % firmware_blk_size == 0 then n / firmware_blk_size else n / firmware_blk_size + 1)
    * firmware_blk_size

module _ (p : Platform) where
  -- What a block that was read leads to; the buffer is freed before each return.
  check_block : (buf : ℕ) → M p.World PartStatus → Option (List ℕ) → M p.World PartStatus
  check_block buf rest none = call (p.free buf) >> pure PartStatus.part_err
  check_block buf rest (some bs) = elim (is_clean bs) [
    | true ↦ rest
    | false ↦ call (p.free buf) >> pure PartStatus.part_need_erase
  ]

  -- `for (offs = 0; offs < upd_part->size; offs += FIRMWARE_BLK_SIZE)`
  check_loop : (size buf fuel offs : ℕ) → M p.World PartStatus
  unfolding check_block
  check_loop size buf zero offs = stop Halt.out_of_fuel
  check_loop size buf (suc f) offs = elim (ltb offs size) [
    | false ↦ call (p.free buf) >> pure PartStatus.part_clean
    | true ↦
        call (p.partition_read offs firmware_blk_size)
        >>= check_block buf (check_loop size buf f (offs + firmware_blk_size))
  ]

  unfoldable pub check_upd_part : (size : ℕ) → M p.World PartStatus
  unfolding check_loop
  check_upd_part size = call (p.malloc firmware_blk_size) >>= λ buf. elim buf [
    | none ↦ pure PartStatus.part_err
    | some b ↦ check_loop size b (suc size) 0
  ]

  unfoldable pub erase_upd_part : (size bytes : ℕ) → M p.World Bool
  unfolding erase_size
  erase_upd_part size bytes = call (p.partition_erase_range 0 (erase_size size bytes))
