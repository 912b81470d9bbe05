-- ===== src/Ota/Platform.antt =====
-- The calls of ESP-IDF, FreeRTOS and mbedtls that src/lib/ota.c makes, as a parameter, and the state
-- that its functions share.
use vedruino.Base.{ℕ, Bool, Option, List, M, done, halt}
use vedruino.Ip.Sockets.{Sockets}

-- What `esp_ota_set_boot_partition` returns: ESP_OK, ESP_ERR_OTA_VALIDATE_FAILED or another error.
pub data BootResult : Type 0 where
  boot_ok validate_failed boot_error : BootResult

-- `none` is NULL or an error, `false` an error. `next_partition` gives the size of the partition.
-- An MD5 context is begun by `mbedtls_md5_init`.
pub record Platform : Type 1 where
  pub sockets : Sockets
  pub open sockets use *
  pub next_partition : World → Option ℕ × World
  pub partition_read : (offs n : ℕ) → World → Option (List ℕ) × World
  pub partition_write_raw : (offs : ℕ) → List ℕ → World → Bool × World
  pub partition_erase_range : (offs n : ℕ) → World → Bool × World
  pub set_boot_partition : World → BootResult × World
  pub malloc : ℕ → World → Option ℕ × World
  pub free : ℕ → World → Unit {0} × World
  pub task_priority_set : ℕ → World → Unit {0} × World
  pub Md5 : Type 0
  pub md5_init : Md5
  pub md5_update : Md5 → List ℕ → Md5
  pub md5_finish : Md5 → List ℕ

-- The static `header`.
pub record Header : Type 0 where
  pub magic : List ℕ
  pub md5 : List ℕ
  pub md5str : List ℕ
  pub size : ℕ

-- The static variables, with the world that the calls act on. Of `upd_part` only the size is read.
pub record State (p : Platform) : Type 0 where
  pub world : p.World
  pub upd_part_size : ℕ
  pub part_bytes_written : ℕ
  pub header : Header

-- A call that changes the world and none of the static variables.
abbrev pub io : (p : Platform) {A : Type 0} → M p.World A → M (State p) A
io p m st = elim (m st.world) [
  | done a w ↦ done a (record st { world = w })
  | halt h w ↦ halt h (record st { world = w })
]
