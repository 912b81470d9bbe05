-- ===== src/Ota/Server/Start.antt =====
-- `server_task` of src/lib/ota.c as a whole: what holds whenever it waits for a request.
use vedruino.Base.{
  ℕ, ◌%◌, ◌≡◌, refl, ◌∙◌, inr, Bool, true, false, Option, none, some, arith, ==_iff, Outcome, Ends,
  ◌<◌,
}
use vedruino.Ip.Sockets.{Progresses}
use vedruino.Ip.Handles.{pk_tcp_server}
use vedruino.Ip.Handles.Keeps.{pk_tcp_server-keeps}
use vedruino.Ota.Platform.{Platform, State}
use vedruino.Ota.Flash.{erased, IsFlash}
use vedruino.Ota.Rules.{io_bind-Ends}
use vedruino.Ota.Partition.{
  firmware_blk_size, PartStatus, part_clean, part_need_erase, part_err, check_upd_part,
  erase_upd_part,
}
use vedruino.Ota.Partition.Check.{Checked, check_upd_part-Checked}
use vedruino.Ota.Partition.Erase.{erase_upd_part-erased}
use vedruino.Ota.Request.Dirty.{IsWaiting, IsWaiting-Same, Same}
use vedruino.Ota.Server.{
  server_port, listen, open_server, after_first_erase, prepare, with_partition, server_task,
}
use vedruino.Ota.Server.Clean.{Stops, server_loop-IsWaiting}

module _ (p : Platform) (fl : IsFlash p) (progresses : Progresses p.sockets) (size : ℕ)
    (conf : Bool) (rounds : ℕ) where
  abbrev EndsWaiting : Outcome (State p) (Unit {0}) → Type 0
  EndsWaiting = Ends (λ _ v. IsWaiting p fl size v) Stops

  listen-IsWaiting :
      (r : Option ℕ) (st : State p)
      → IsWaiting p fl size st
      → EndsWaiting (listen p conf rounds r st)
  unfolding listen
  listen-IsWaiting none st d = inr refl
  listen-IsWaiting (some shd) st d = server_loop-IsWaiting p fl progresses size conf shd rounds st d

  open_server-IsWaiting :
      (st : State p) → IsWaiting p fl size st → EndsWaiting (open_server p conf rounds st)
  unfolding open_server
  open_server-IsWaiting st d =
      io_bind-Ends p (λ _ v. Same p fl size st.world v) (λ _ v. IsWaiting p fl size v) Stops
        (pk_tcp_server p.sockets server_port 1) (listen p conf rounds) st
        (pk_tcp_server-keeps p.sockets (Same p fl size st.world)
          (λ t v s i. fl.socket_same t v i ∙ s i) (λ fd a v s i. fl.bind_same fd a v i ∙ s i)
          (λ fd n v s i. fl.listen_same fd n v i ∙ s i) server_port 1 st.world (λ i. refl))
        λ r w same. listen-IsWaiting r _ (IsWaiting-Same p fl size st w st.header d same)

  -- Nothing has been written yet, and what is known of the cells depends on the status.
  record IsFresh (st : State p) : Type 0 where
    part : st.upd_part_size ≡ size
    nothing : st.part_bytes_written ≡ 0

  fresh_erased :
      (st : State p)
      → IsFresh st
      → ((i : ℕ) → i < size → fl.cell st.world i ≡ erased)
      → IsWaiting p fl size st
  fresh_erased st f e = record { part = f.part; nothing = f.nothing; all_erased = e }

  after_first_erase-IsWaiting :
      (ok : Bool) (st : State p)
      → IsFresh st
      → (ok ≡ true → (i : ℕ) → i < size → fl.cell st.world i ≡ erased)
      → EndsWaiting (after_first_erase p conf rounds ok st)
  unfolding after_first_erase
  after_first_erase-IsWaiting true st f e = open_server-IsWaiting st (fresh_erased st f (e refl))
  after_first_erase-IsWaiting false st f e = inr refl

  prepare-IsWaiting :
      (r : PartStatus) (st : State p)
      → IsFresh st
      → (r ≡ part_clean → (i : ℕ) → i < size → fl.cell st.world i ≡ erased)
      → EndsWaiting (prepare p conf rounds r st)
  unfolding prepare
  prepare-IsWaiting part_clean st f e = open_server-IsWaiting st (fresh_erased st f (e refl))
  prepare-IsWaiting part_err st f e = inr refl
  prepare-IsWaiting part_need_erase st f e =
      io_bind-Ends p (λ ok v. ok ≡ true → (i : ℕ) → i < size → fl.cell v i ≡ erased)
        (λ _ v. IsWaiting p fl size v) Stops (erase_upd_part p st.upd_part_size st.upd_part_size)
        (after_first_erase p conf rounds) st
        (rw f.part
          (erase_upd_part-erased p fl size size st.world (λ i le lt. absurd (omega arith))))
        λ ok w clean.
          after_first_erase-IsWaiting ok (record st { world = w })
            (record { part = f.part; nothing = f.nothing }) clean

  -- `server_task`, started with nothing counted as written on a partition of whole blocks, where
  -- every `write` of a buffer that is not empty takes a byte or fails: after any number of rounds,
  -- nothing is counted and every cell of the partition is erased, or before that the board was
  -- restarted or the task has deleted itself. So its assertion does not fail, and no round runs for
  -- ever.
  pub server_task-IsWaiting :
      (st : State p)
      → (p.next_partition st.world).0 ≡ some size
      → size % firmware_blk_size ≡ 0
      → st.part_bytes_written ≡ 0
      → EndsWaiting (server_task p conf rounds st)
  unfolding server_task with_partition
  server_task-IsWaiting st e whole nothing =
      rw (e, with_partition, (==_iff _ _).1 whole)
        (io_bind-Ends p (Checked p fl size w) (λ _ v. IsWaiting p fl size v) Stops
          (check_upd_part p size) (prepare p conf rounds) st'
          (check_upd_part-Checked p fl size w whole)
          (λ r v c.
            prepare-IsWaiting r (record st' { world = v })
              (record { part = refl; nothing = nothing }) (λ z i lt. c.same i ∙ c.clean z i lt)))
    where
      w : p.World
      w = (p.next_partition st.world).1

      st' : State p
      st' = record st { world = w; upd_part_size = size }
