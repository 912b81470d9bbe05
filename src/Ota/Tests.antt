-- ===== src/Ota/Tests.antt =====
-- The theorems on src/lib/ota.c at concrete inputs.
use vedruino.Base.{
  ℕ, ◌≤◌, ◌%◌, ◌*◌, ◌<◌, ◌≡◌, refl, true, false, List, [], ◌∷◌, arith, min, length, Returns, Ends,
}
use vedruino.Ota.Platform.{Header, State}
use vedruino.Ota.Flash.{erased}
use vedruino.Ota.Hex.{md5str, read_hex, read_hex-md5str}
use vedruino.Ota.Board.{
  Board, board, board-IsFlash, board-IsStream, board-IsQuiet, cell-board, board-Progresses,
}
use vedruino.Ota.Partition.{check_upd_part, erase_size, erase_upd_part, firmware_blk_size}
use vedruino.Ota.Partition.Check.{Checked, check_upd_part-Checked}
use vedruino.Ota.Partition.Erase.{erase_size_bounds, erase_upd_part-erased}
use vedruino.Ip.Stream.{pk_tcp_recvn}
use vedruino.Ota.Request.{resp_ok, magic, handle_req}
use vedruino.Ota.Request.Dirty.{IsDirty, IsWaiting, handle_req-IsDirty}
use vedruino.Ota.Request.Complete.{Complete}
use vedruino.Ota.Request.Parsed.{Parsed, handle_req-Parsed}
use vedruino.Ota.Request.Content.{Stored, handle_req-Stored}
use vedruino.Ota.Server.{server_round, server_task}
use vedruino.Ota.Server.Clean.{Stops, server_round-IsWaiting}
use vedruino.Ota.Server.Start.{server_task-IsWaiting}

-- A partition of two blocks, where byte 5000 is not erased.
abbrev used : Board
used = record {
  network = record { incoming = (b'2' ∷ b'7' ∷ []) ∷ []; sent = []; next_handle = 3 };
  cell = λ i. 7;
  part_size = 8192;
}

abbrev fresh : Board
fresh = record used { cell = λ i. erased }

abbrev empty_header : Header
empty_header = record { magic = []; md5 = []; md5str = []; size = 0 }

abbrev waiting : State board
waiting = record {
  world = fresh;
  upd_part_size = 8192;
  part_bytes_written = 0;
  header = empty_header;
}

waiting-IsWaiting : IsWaiting board board-IsFlash 8192 waiting
waiting-IsWaiting = record { part = refl; nothing = refl; all_erased = λ i lt. cell-board fresh i }

read_hex-md5str_example :
    (length (md5str (0x3f ∷ 0xa0 ∷ [])) ≡ 2 * 2)
    × (read_hex (md5str (0x3f ∷ 0xa0 ∷ [])) ≡ 0x3f ∷ 0xa0 ∷ [])
read_hex-md5str_example = read_hex-md5str (0x3f ∷ 0xa0 ∷ []) (omega arith, (omega arith, tt))

erase_size_bounds_example :
    (min 5000 8192 ≤ erase_size 8192 5000)
    × (erase_size 8192 5000 ≤ 8192)
    × (erase_size 8192 5000 % firmware_blk_size ≡ 0)
erase_size_bounds_example = erase_size_bounds 8192 5000 refl

erase_upd_part-erased_example :
    Returns
      (λ ok v. ok ≡ true → (i : ℕ) → i < 8192 → board-IsFlash.cell v i ≡ erased)
      (erase_upd_part board 8192 8192 used)
erase_upd_part-erased_example =
    erase_upd_part-erased board board-IsFlash 8192 8192 used (λ i ge lt. absurd (omega arith))

check_upd_part-Checked_example :
    Returns (Checked board board-IsFlash 8192 used) (check_upd_part board 8192 used)
check_upd_part-Checked_example = check_upd_part-Checked board board-IsFlash 8192 used refl

handle_req-IsDirty_example :
    Returns (λ _ v. IsDirty board board-IsFlash 8192 v) (handle_req board true 4 waiting)
handle_req-IsDirty_example =
    handle_req-IsDirty board board-IsFlash 8192 true 4 waiting waiting-IsWaiting

server_round-IsWaiting_example :
    Ends (λ _ v. IsWaiting board board-IsFlash 8192 v) Stops (server_round board true 3 waiting)
server_round-IsWaiting_example =
    server_round-IsWaiting board board-IsFlash board-Progresses 8192 true 3 waiting
      waiting-IsWaiting

server_task-IsWaiting_example :
    Ends
      (λ _ v. IsWaiting board board-IsFlash 8192 v)
      Stops
      (server_task board false 2 (record waiting { world = used }))
server_task-IsWaiting_example =
    server_task-IsWaiting board board-IsFlash board-Progresses 8192 false 2
      (record waiting { world = used }) refl refl refl

-- A firmware of 16 bytes, which are their own digest on this board, comes behind its header.
abbrev firmware : List ℕ
firmware = 1 ∷ 2 ∷ 3 ∷ 4 ∷ 5 ∷ 6 ∷ 7 ∷ 8 ∷ 9 ∷ 10 ∷ 11 ∷ 12 ∷ 13 ∷ 14 ∷ 15 ∷ 16 ∷ []

abbrev upload : State board
upload = record waiting {
  world = record fresh {
    network = record {
      incoming = magic ∷ (0 ∷ 0 ∷ 0 ∷ 16 ∷ []) ∷ firmware ∷ firmware ∷ [];
      sent = [];
      next_handle = 3;
    };
  };
}

upload-IsWaiting : IsWaiting board board-IsFlash 8192 upload
upload-IsWaiting = record {
  part = refl;
  nothing = refl;
  all_erased = λ i lt. cell-board upload.world i;
}

upload_answer :
    Returns
      (λ r st'. (r ≡ resp_ok) × (st'.part_bytes_written ≡ 16))
      (handle_req board true 4 upload)
unfolding handle_req pk_tcp_recvn
upload_answer = (refl, refl)

handle_req-Parsed_example :
    Returns
      (λ r st'. r ≡ resp_ok → Parsed board board-IsStream true 4 upload st')
      (handle_req board true 4 upload)
handle_req-Parsed_example =
    handle_req-Parsed board board-IsStream true 4 board-IsFlash 8192 upload upload-IsWaiting

handle_req-Stored_example :
    Returns
      (λ r st'.
        Complete board true r st'
        × Stored board board-IsFlash board-IsStream board-IsQuiet true 4 8192 33
            (board-IsStream.inbox upload.world 4)
            r
            st')
      (handle_req board true 4 upload)
handle_req-Stored_example =
    handle_req-Stored board board-IsFlash board-IsStream board-IsQuiet true 4 8192 upload
      upload-IsWaiting
