-- ===== src/Netlog/Server/Task.antt =====
-- `ctl_server_task` of src/lib/netlog.c from its start.
use vedruino.Base.{
  ℕ, zero, suc, ◌/◌, ◌<◌, ◌≡◌, refl, ◌⊎◌, inl, inr, Bool, true, false, Option, none, some, List,
  ◌++◌, leb, M, pure, Outcome, done, halt, ◌>>=◌, ◌>>◌, pk_assert, Halt, Ends, bind-Ends,
  Ends-Returns,
}
use vedruino.Ip.Handles.{pk_tcp_server, pk_udp_client, pk_sock_close}
use vedruino.Ip.Handles.Keeps.{pk_tcp_server-keeps, pk_udp_client-Returns}
use vedruino.Netlog.Platform.{Platform, State, io}
use vedruino.Netlog.Follows.{IsServer}
use vedruino.Netlog.Control.{magic}
use vedruino.Netlog.Server.{
  ctl_server_port, bcast_boot_notifies, bcast_loop, bcast_on, bcast_boot_notify, ctl_round,
  ctl_loop, with_server, ctl_server_task,
}
use vedruino.Netlog.Server.Kept.{
  Kept, io-Kept, close-Kept, bcast_loop-Kept, ctl_round-Kept, AcceptFailed,
}

module _ (p : Platform) (max buf_size : ℕ) where
  -- A failed assertion or a variable without a value, never the fuel of the model.
  abbrev pub Stops : Halt → State p → Type 0
  Stops h st = (h ≡ Halt.assert_failed) ⊎ (h ≡ Halt.undefined_read)

  abbrev EndsKept : {A : Type 0} → Outcome (State p) A → Type 0
  EndsKept = Ends (Kept p max buf_size) Stops

  seq-EndsKept :
      {A B : Type 0} (r : Outcome (State p) A) (k : A → M (State p) B)
      → EndsKept r
      → ((a : A) (st' : State p) → IsServer p max buf_size st' → EndsKept (k a st'))
      → EndsKept (elim r [ done a w ↦ k a w | halt h w ↦ halt h w ])
  seq-EndsKept r k h next = bind-Ends (Kept p max buf_size) (Kept p max buf_size) Stops r k h next

  pk_assert-EndsKept :
      (b : Bool) (st : State p) → IsServer p max buf_size st → EndsKept (pk_assert b st)
  pk_assert-EndsKept true st v = v
  pk_assert-EndsKept false st v = inl refl

  bcast_on-EndsKept :
      (r : Option ℕ) (st : State p) → IsServer p max buf_size st → EndsKept (bcast_on p r st)
  unfolding bcast_on
  bcast_on-EndsKept none st v = inl refl
  bcast_on-EndsKept (some chd) st v =
      seq-EndsKept
        ((bcast_loop p chd pack bcast_boot_notifies 0
            >>= (λ ok_cnt. pk_assert (leb (bcast_boot_notifies / 3) ok_cnt))
            >> io p (pk_sock_close p.sockets chd))
          st)
        (λ _. pure tt)
        (seq-EndsKept
          ((bcast_loop p chd pack bcast_boot_notifies 0
              >>= (λ ok_cnt. pk_assert (leb (bcast_boot_notifies / 3) ok_cnt)))
            st)
          (λ _. io p (pk_sock_close p.sockets chd))
          (seq-EndsKept (bcast_loop p chd pack bcast_boot_notifies 0 st)
            (λ ok_cnt. pk_assert (leb (bcast_boot_notifies / 3) ok_cnt))
            (Ends-Returns (Kept p max buf_size) Stops
              (bcast_loop p chd pack bcast_boot_notifies 0 st)
              (bcast_loop-Kept p max buf_size chd pack bcast_boot_notifies 0 st v))
            (λ n st' v'. pk_assert-EndsKept (leb (bcast_boot_notifies / 3) n) st' v'))
          (λ _ st' v'.
            Ends-Returns (Kept p max buf_size) Stops (io p (pk_sock_close p.sockets chd) st')
              (close-Kept p max buf_size chd st' v')))
        (λ _ st' v'. v')
    where
      pack : List ℕ
      pack = magic ++ (st.mac_addr ++ st.session_id)

  bcast_boot_notify-EndsKept :
      (st : State p) → IsServer p max buf_size st → EndsKept (bcast_boot_notify p st)
  unfolding bcast_boot_notify
  bcast_boot_notify-EndsKept st v =
      seq-EndsKept (io p (pk_udp_client p.sockets) st) (bcast_on p)
        (Ends-Returns (Kept p max buf_size) Stops (io p (pk_udp_client p.sockets) st) (
          io-Kept p max buf_size (pk_udp_client p.sockets) st v
            (pk_udp_client-Returns p.sockets st.world)))
        bcast_on-EndsKept

  module _ (junk : ℕ → List ℕ) (pos : 0 < buf_size) (printed : ℕ → ℕ → List (List ℕ)) where
    stops_of_AcceptFailed :
        (shd : ℕ) (st : State p) (r : Outcome (State p) (Unit {0}))
        → Ends (Kept p max buf_size) (AcceptFailed p max buf_size junk pos shd st) r
        → EndsKept r
    stops_of_AcceptFailed shd st (done a w) h = h
    stops_of_AcceptFailed shd st (halt h w) (undefined, failed) = inr undefined

    ctl_loop-EndsKept :
        (shd rounds : ℕ) (st : State p)
        → IsServer p max buf_size st
        → EndsKept (ctl_loop p max buf_size junk printed shd rounds st)
    unfolding ctl_loop
    ctl_loop-EndsKept shd zero st v = v
    ctl_loop-EndsKept shd (suc rounds) st v =
        seq-EndsKept (ctl_round p max buf_size junk (printed rounds) shd st)
          (λ _. ctl_loop p max buf_size junk printed shd rounds)
          (stops_of_AcceptFailed shd st _
            (ctl_round-Kept p max buf_size junk pos (printed rounds) shd st v))
          (λ _ st' v'. ctl_loop-EndsKept shd rounds st' v')

    with_server-EndsKept :
        (rounds : ℕ) (r : Option ℕ) (st : State p)
        → IsServer p max buf_size st
        → EndsKept (with_server p max buf_size junk printed rounds r st)
    unfolding with_server
    with_server-EndsKept rounds none st v = inl refl
    with_server-EndsKept rounds (some shd) st v =
        seq-EndsKept (bcast_boot_notify p st) (λ _. ctl_loop p max buf_size junk printed shd rounds)
          (bcast_boot_notify-EndsKept st v) (λ _ st' v'. ctl_loop-EndsKept shd rounds st' v')

    -- `ctl_server_task`, begun with the invariant of the server and where a packet holds a byte
    -- besides its first, and run for any number of rounds while other tasks print, ends with the
    -- invariant, or it stops at a failed assertion or at a variable that was never given a value.
    -- No loop in it uses up its fuel.
    pub ctl_server_task-EndsKept :
        (rounds : ℕ) (st : State p)
        → IsServer p max buf_size st
        → EndsKept (ctl_server_task p max buf_size junk printed rounds st)
    unfolding ctl_server_task
    ctl_server_task-EndsKept rounds st v =
        seq-EndsKept (io p (pk_tcp_server p.sockets ctl_server_port 1) st)
          (with_server p max buf_size junk printed rounds)
          (Ends-Returns (Kept p max buf_size) Stops
            (io p (pk_tcp_server p.sockets ctl_server_port 1) st)
            (io-Kept p max buf_size (pk_tcp_server p.sockets ctl_server_port 1) st v (
              pk_tcp_server-keeps p.sockets (λ w. Unit {0}) (λ t w u. tt) (λ fd a w u. tt)
                (λ fd n w u. tt) ctl_server_port 1 st.world tt)))
          (with_server-EndsKept rounds)
