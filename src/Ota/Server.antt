-- ===== src/Ota/Server.antt =====
-- `server_task` of src/lib/ota.c. The endless loop is given a number of rounds to run.
pub mod Clean
pub mod Start
use Prim.Native.Char.{code}
use Prim.Native.String.{String}
use vedruino.Base.{
  ℕ, zero, suc, ◌%◌, Bool, true, false, Option, none, some, List, [], ◌∷◌, length, ◌==◌, M, pure,
  stop, ◌>>=◌, ◌>>◌, call, modify, pk_assert, Halt,
}
use vedruino.Ip.Addr.{IpAddr}
use vedruino.Ip.Handles.{pk_tcp_server, pk_tcp_accept, pk_sock_close}
use vedruino.Ip.Stream.{pk_tcp_sendn}
use vedruino.Ota.Platform.{Platform, State, io}
use vedruino.Ota.Partition.{
  firmware_blk_size, PartStatus, part_clean, part_need_erase, part_err, check_upd_part,
  erase_upd_part,
}
use vedruino.Ota.Request.{OtaResp, resp_ok, handle_req}

abbrev pub server_port : ℕ
server_port = 5256

abbrev pub server_task_low_priority : ℕ
server_task_low_priority = 1

abbrev pub server_task_high_priority : ℕ
server_task_high_priority = 23

-- The characters of an ASCII text.
abbrev codes : String → List ℕ
codes String.[] = []
codes (String.◌∷◌ c s) = code c ∷ codes s

-- The message for a request that failed. There is none where it did not fail.
err_msg : OtaResp → List ℕ
err_msg OtaResp.resp_ok = []
err_msg OtaResp.internal_err = codes "internal error"
err_msg OtaResp.malformed_req = codes "malformed request"
err_msg OtaResp.esp_verify_err = codes "esp verification error"
err_msg OtaResp.firmware_too_big = codes "firmware is too big"
err_msg OtaResp.firmware_unexpected_end = codes "unexpected end of firmware in request"
err_msg OtaResp.md5_verify_err = codes "md5 verification error"

module _ (p : Platform) (conf_ota_verify_md5 : Bool) where
  abbrev set_written : ℕ → M (State p) (Unit {0})
  set_written n = modify (λ st. record st { part_bytes_written = n })

  -- `goto fatal_err`: the task deletes itself.
  after_erase : (shd : ℕ) → Bool → M (State p) (Unit {0})
  after_erase shd true = set_written 0
  after_erase shd false = io p (pk_sock_close p.sockets shd) >> stop Halt.task_deleted

  -- What was written of a firmware that failed is erased.
  erase_written : (shd : ℕ) → M (State p) (Unit {0})
  unfolding after_erase
  erase_written shd st = elim (st.part_bytes_written == 0) [
    | true ↦ pure tt st
    | false ↦
        (io p (erase_upd_part p st.upd_part_size st.part_bytes_written) >>= after_erase shd) st
  ]

  reply_ok : (chd : ℕ) → M (State p) (Unit {0})
  reply_ok chd = do
    io p (pk_tcp_sendn p.sockets chd (b'+' ∷ []) 1)
    io p (pk_sock_close p.sockets chd)
    stop Halt.restarted

  reply_err : (chd : ℕ) → List ℕ → M (State p) (Unit {0})
  reply_err chd msg = do
    io p (pk_tcp_sendn p.sockets chd (b'-' ∷ []) 1)
    io p (pk_tcp_sendn p.sockets chd msg (length msg))
    io p (pk_sock_close p.sockets chd)
    pure tt

  reply_failed : (shd chd : ℕ) → OtaResp → M (State p) (Unit {0})
  unfolding err_msg erase_written reply_err
  reply_failed shd chd resp = do
    reply_err chd (err_msg resp)
    erase_written shd
    io p (call (p.task_priority_set server_task_low_priority))

  reply : (shd chd : ℕ) → OtaResp → M (State p) (Unit {0})
  unfolding reply_ok reply_failed
  reply shd chd OtaResp.resp_ok = reply_ok chd
  reply shd chd resp = reply_failed shd chd resp

  serve_client : (shd : ℕ) → Option (ℕ × IpAddr) → M (State p) (Unit {0})
  unfolding reply handle_req
  serve_client shd none = pure tt
  serve_client shd (some (chd, cl_addr)) =
      io p (call (p.task_priority_set server_task_high_priority))
      >> handle_req p conf_ota_verify_md5 chd
      >>= reply shd chd

  -- One round of `while (1)`.
  unfoldable pub server_round : (shd : ℕ) → M (State p) (Unit {0})
  unfolding serve_client
  server_round shd = io p (pk_tcp_accept p.sockets shd) >>= serve_client shd

  unfoldable pub server_loop : (shd rounds : ℕ) → M (State p) (Unit {0})
  server_loop shd zero = pure tt
  server_loop shd (suc rounds) = server_round shd >> server_loop shd rounds

  listen : (rounds : ℕ) → Option ℕ → M (State p) (Unit {0})
  listen rounds none = stop Halt.task_deleted
  listen rounds (some shd) = server_loop shd rounds

  open_server : (rounds : ℕ) → M (State p) (Unit {0})
  unfolding listen
  open_server rounds = io p (pk_tcp_server p.sockets server_port 1) >>= listen rounds

  after_first_erase : (rounds : ℕ) → Bool → M (State p) (Unit {0})
  unfolding open_server
  after_first_erase rounds true = open_server rounds
  after_first_erase rounds false = stop Halt.task_deleted

  prepare : (rounds : ℕ) → PartStatus → M (State p) (Unit {0})
  unfolding after_first_erase
  prepare rounds part_clean st = open_server rounds st
  prepare rounds part_need_erase st =
      (io p (erase_upd_part p st.upd_part_size st.upd_part_size) >>= after_first_erase rounds) st
  prepare rounds part_err st = stop Halt.task_deleted st

  with_partition : (rounds : ℕ) → Option ℕ → M (State p) (Unit {0})
  unfolding prepare
  with_partition rounds none = stop Halt.task_deleted
  with_partition rounds (some size) = do
    modify (λ st. record st { upd_part_size = size })
    pk_assert (size % firmware_blk_size == 0)
    status ← io p (check_upd_part p size)
    prepare rounds status

  unfoldable pub server_task : (rounds : ℕ) → M (State p) (Unit {0})
  unfolding with_partition
  server_task rounds = io p (call p.next_partition) >>= with_partition rounds
