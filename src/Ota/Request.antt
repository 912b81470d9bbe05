-- ===== src/Ota/Request.antt =====
-- `handle_req` of src/lib/ota.c, cut into one function for each part up to the next early return. Log
-- messages, and the floating-point speed that is only logged, are left out.
pub mod Dirty
pub mod Complete
pub mod Parsed
pub mod Pieces
pub mod Content
use Prim.Native.String.{String}
use vedruino.Base.{
  ℕ, zero, suc, ◌+◌, ◌*◌, ◌/◌, ◌%◌, ◌^◌, Bool, true, false, not, ◌&&◌, Option, none, some, List, [],
  ◌∷◌, ltb, text_eq, if◌then◌else◌, length, M, pure, stop, ◌>>=◌, ◌>>◌, call, get, modify, Halt,
}
use vedruino.Ip.Addr.{htonl}
use vedruino.Ip.Stream.{pk_tcp_recv, pk_tcp_recvn}
use vedruino.Ota.Platform.{
  BootResult, boot_ok, validate_failed, boot_error, Platform, Header, State, io,
}
use vedruino.Ota.Hex.{md5_size, md5str}

-- `pkOtaResp_t`
pub data OtaResp : Type 0 where
  resp_ok : OtaResp
  internal_err : OtaResp
  malformed_req : OtaResp
  firmware_unexpected_end : OtaResp
  firmware_too_big : OtaResp
  esp_verify_err : OtaResp
  md5_verify_err : OtaResp

-- The characters of "2720OTAUPDATE".
abbrev pub magic : List ℕ
magic =
    b'2' ∷ b'7' ∷ b'2' ∷ b'0' ∷ b'O' ∷ b'T' ∷ b'A' ∷ b'U' ∷ b'P' ∷ b'D' ∷ b'A' ∷ b'T' ∷ b'E' ∷ []

abbrev pub magic_size : ℕ
magic_size = 13

-- `FIRMWARE_BUF_SIZE`
abbrev pub firmware_buf_size : ℕ
firmware_buf_size = 4096

-- A `uint32_t` in the memory of the board, the low byte first.
abbrev pub u32_bytes : ℕ → List ℕ
u32_bytes x = x % 256 ∷ x / 2 ^ 8 % 256 ∷ x / 2 ^ 16 % 256 ∷ x / 2 ^ 24 % 256 ∷ []

abbrev pub u32_of_bytes : List ℕ → ℕ
u32_of_bytes [] = 0
u32_of_bytes (b ∷ bs) = b + 256 * u32_of_bytes bs

-- How the loop over the firmware ends: with the MD5 context, or at `goto end`.
pub data Received (Md5 : Type 0) : Type 0 where
  all_received : Md5 → Received Md5
  broken_off : OtaResp → Received Md5

module _ (p : Platform) (conf_ota_verify_md5 : Bool) where
  abbrev pub set_header : (Header → Header) → M (State p) (Unit {0})
  set_header f = modify (λ st. record st { header = f st.header })

  after_write : M (State p) (Received p.Md5) → Bool → M (State p) (Received p.Md5)
  after_write rest true = rest
  after_write rest false = pure (broken_off OtaResp.internal_err)

  -- `esp_partition_write_raw` at the bytes written so far. They are counted before its error is seen.
  write_block : M (State p) (Received p.Md5) → List ℕ → M (State p) (Received p.Md5)
  unfolding after_write
  write_block rest bs st =
      (io p (call (p.partition_write_raw st.part_bytes_written bs)) >>= λ ok.
      modify (λ st'. record st' { part_bytes_written = st'.part_bytes_written + length bs })
      >> after_write rest ok)
        st

  firmware_next :
      (p.Md5 → M (State p) (Received p.Md5))
      → p.Md5
      → Option (List ℕ)
      → M (State p) (Received p.Md5)
  unfolding write_block
  firmware_next rest ctx none = pure (broken_off OtaResp.internal_err)
  firmware_next rest ctx (some []) = pure (broken_off OtaResp.firmware_unexpected_end)
  firmware_next rest ctx (some (b ∷ bs)) =
      write_block (rest (if conf_ota_verify_md5 then p.md5_update ctx (b ∷ bs) else ctx)) (b ∷ bs)

  -- `while (part_bytes_written < header.size)`
  pub firmware_loop : (chd fuel : ℕ) → p.Md5 → M (State p) (Received p.Md5)
  unfolding firmware_next
  firmware_loop chd zero ctx st = stop Halt.out_of_fuel st
  firmware_loop chd (suc f) ctx st = elim (ltb st.part_bytes_written st.header.size) [
    | false ↦ pure (all_received ctx) st
    | true ↦
        (io p (pk_tcp_recv p.sockets chd firmware_buf_size)
            >>= firmware_next (firmware_loop chd f) ctx)
          st
  ]

  boot_resp : BootResult → OtaResp
  boot_resp boot_ok = OtaResp.resp_ok
  boot_resp validate_failed = OtaResp.esp_verify_err
  boot_resp boot_error = OtaResp.internal_err

  -- The MD5 check, if it is compiled in, and `esp_ota_set_boot_partition`.
  finish_firmware : Received p.Md5 → M (State p) OtaResp
  unfolding boot_resp
  finish_firmware (broken_off resp) st = pure resp st
  finish_firmware (all_received ctx) st =
      elim (conf_ota_verify_md5 && not (text_eq (p.md5_finish ctx) st.header.md5)) [
        | true ↦ pure OtaResp.md5_verify_err st
        | false ↦ (io p (call p.set_boot_partition) >>= λ r. pure (boot_resp r)) st
      ]

  -- From `part_bytes_written = 0` to `free(buf)`. Each round of the loop counts at least one byte.
  receive_firmware : (chd buf : ℕ) → M (State p) OtaResp
  unfolding firmware_loop finish_firmware
  receive_firmware chd buf st =
      (modify (λ st'. record st' { part_bytes_written = 0 })
          >> firmware_loop chd (suc st.header.size) p.md5_init
          >>= finish_firmware
          >>= λ resp. io p (call (p.free buf)) >> pure resp)
        st

  pub with_buffer : (chd : ℕ) → Option ℕ → M (State p) OtaResp
  unfolding receive_firmware
  with_buffer chd none = pure OtaResp.internal_err
  with_buffer chd (some buf) = receive_firmware chd buf

  read_md5 : (chd : ℕ) → Bool × List ℕ → M (State p) OtaResp
  unfolding with_buffer md5str
  read_md5 chd (false, bs) = set_header (λ h. record h { md5 = bs }) >> pure OtaResp.malformed_req
  read_md5 chd (true, bs) =
      set_header (λ h. record h { md5 = bs; md5str = md5str bs })
      >> io p (call (p.malloc firmware_buf_size))
      >>= with_buffer chd

  check_size : (chd : ℕ) → M (State p) OtaResp
  unfolding read_md5
  check_size chd st = elim (ltb st.upd_part_size st.header.size) [
    | true ↦ pure OtaResp.firmware_too_big st
    | false ↦ (io p (pk_tcp_recvn p.sockets chd st.header.md5 md5_size) >>= read_md5 chd) st
  ]

  read_size : (chd : ℕ) → Bool × List ℕ → M (State p) OtaResp
  unfolding check_size
  read_size chd (false, bs) =
      set_header (λ h. record h { size = u32_of_bytes bs }) >> pure OtaResp.malformed_req
  read_size chd (true, bs) =
      set_header (λ h. record h { size = htonl (u32_of_bytes bs) }) >> check_size chd

  after_magic : (chd : ℕ) → Bool → M (State p) OtaResp
  unfolding read_size
  after_magic chd false st = pure OtaResp.malformed_req st
  after_magic chd true st =
      (io p (pk_tcp_recvn p.sockets chd (u32_bytes st.header.size) 4) >>= read_size chd) st

  read_magic : (chd : ℕ) → Bool × List ℕ → M (State p) OtaResp
  unfolding after_magic
  read_magic chd (ok, bs) =
      set_header (λ h. record h { magic = bs }) >> after_magic chd (ok && text_eq bs magic)

  unfoldable pub handle_req : (chd : ℕ) → M (State p) OtaResp
  unfolding read_magic
  handle_req chd st =
      (io p (pk_tcp_recvn p.sockets chd st.header.magic magic_size) >>= read_magic chd) st
