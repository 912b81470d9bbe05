-- ===== src/Ota/Flash.antt =====
-- What the theorems on src/lib/ota.c assume of the calls behind `Platform`: the documented behaviour
-- of the flash partition, and that no other call writes to it.
use vedruino.Base.{ℕ, ◌+◌, ◌≤◌, ◌<◌, ◌≡◌, ◌⊎◌, true, some, List, length, get_elem?}
use vedruino.Ip.Addr.{SockAddr}
use vedruino.Ip.Sockets.{SockType, IsStream}
use vedruino.Ota.Platform.{Platform}

-- The value of an erased cell.
abbrev pub erased : ℕ
erased = 0xff

-- `cell w i` is byte `i` of the update partition.
pub record IsFlash (p : Platform) : Type 0 where
  pub cell : p.World → ℕ → ℕ
  pub write_frame :
      (offs i : ℕ) (bs : List ℕ) (w : p.World)
      → (i < offs) ⊎ (offs + length bs ≤ i)
      → cell (p.partition_write_raw offs bs w).1 i ≡ cell w i
  pub write_stored :
      (offs i b : ℕ) (bs : List ℕ) (w : p.World)
      → (p.partition_write_raw offs bs w).0 ≡ true
      → get_elem? bs i ≡ some b
      → cell w (offs + i) ≡ erased
      → cell (p.partition_write_raw offs bs w).1 (offs + i) ≡ b
  pub erase_frame :
      (offs n i : ℕ) (w : p.World)
      → (i < offs) ⊎ (offs + n ≤ i)
      → cell (p.partition_erase_range offs n w).1 i ≡ cell w i
  pub erase_erased :
      (offs n i : ℕ) (w : p.World)
      → (p.partition_erase_range offs n w).0 ≡ true
      → offs ≤ i
      → i < offs + n
      → cell (p.partition_erase_range offs n w).1 i ≡ erased
  pub read_cells :
      (offs n : ℕ) (bs : List ℕ) (w : p.World)
      → (p.partition_read offs n w).0 ≡ some bs
      → (length bs ≡ n) × ((i : ℕ) → i < n → get_elem? bs i ≡ some (cell w (offs + i)))
  pub partition_read_same :
      (offs n : ℕ) (w : p.World) (i : ℕ) → cell (p.partition_read offs n w).1 i ≡ cell w i
  pub set_boot_same : (w : p.World) (i : ℕ) → cell (p.set_boot_partition w).1 i ≡ cell w i
  pub malloc_same : (n : ℕ) (w : p.World) (i : ℕ) → cell (p.malloc n w).1 i ≡ cell w i
  pub free_same : (buf : ℕ) (w : p.World) (i : ℕ) → cell (p.free buf w).1 i ≡ cell w i
  pub priority_same : (n : ℕ) (w : p.World) (i : ℕ) → cell (p.task_priority_set n w).1 i ≡ cell w i
  pub socket_same : (t : SockType) (w : p.World) (i : ℕ) → cell (p.socket t w).1 i ≡ cell w i
  pub bind_same :
      (fd : ℕ) (a : SockAddr) (w : p.World) (i : ℕ) → cell (p.bind fd a w).1 i ≡ cell w i
  pub listen_same : (fd n : ℕ) (w : p.World) (i : ℕ) → cell (p.listen fd n w).1 i ≡ cell w i
  pub accept_same : (fd : ℕ) (w : p.World) (i : ℕ) → cell (p.accept fd w).1 i ≡ cell w i
  pub close_same : (fd : ℕ) (w : p.World) (i : ℕ) → cell (p.close fd w).1 i ≡ cell w i
  pub read_same : (fd n : ℕ) (w : p.World) (i : ℕ) → cell (p.read fd n w).1 i ≡ cell w i
  pub write_same :
      (fd : ℕ) (bs : List ℕ) (w : p.World) (i : ℕ) → cell (p.write fd bs w).1 i ≡ cell w i

-- The calls that `handle_req` makes besides reading take nothing from a stream.
pub record IsQuiet (p : Platform) (str : IsStream p.sockets) : Type 0 where
  pub write_raw_inbox :
      (offs fd : ℕ) (bs : List ℕ) (w : p.World)
      → str.inbox (p.partition_write_raw offs bs w).1 fd ≡ str.inbox w fd
  pub set_boot_inbox :
      (fd : ℕ) (w : p.World) → str.inbox (p.set_boot_partition w).1 fd ≡ str.inbox w fd
  pub malloc_inbox : (n fd : ℕ) (w : p.World) → str.inbox (p.malloc n w).1 fd ≡ str.inbox w fd
  pub free_inbox : (buf fd : ℕ) (w : p.World) → str.inbox (p.free buf w).1 fd ≡ str.inbox w fd
