-- ===== src/Netlog/Init/Runs.antt =====
-- From `pk_netlog_init` to the rounds of `ctl_server_task` of src/lib/netlog.c.
use vedruino.Base.{
  ℕ, ◌+◌, ◌<◌, ◌≡◌, inl, assert_failed, List, All, length, Outcome, done, halt, ◌>>◌, Ends,
  bind-Ends,
}
use vedruino.Netlog.Table.Clients.{InSevenBits}
use vedruino.Netlog.Platform.{Platform, State}
use vedruino.Netlog.Server.{ctl_server_task}
use vedruino.Netlog.Server.Kept.{Kept}
use vedruino.Netlog.Server.Task.{Stops, ctl_server_task-EndsKept}
use vedruino.Netlog.Init.{Boot, pk_netlog_init, pk_netlog_init-IsServer}

-- The static variables before the program has run: no client is counted, and the arrays have their
-- size, whatever they hold.
pub record IsUnset (max buf_size : ℕ) (p : Platform) (st : State p) : Type 0 where
  pub no_clients : st.table.clients_num ≡ 0
  pub no_udp_clients : st.table.udp_clients_num ≡ 0
  pub slots : length st.table.clients ≡ max
  pub counters : All InSevenBits st.table.clients
  pub udpbuf : length st.udpbuf ≡ 1 + buf_size

module _ (p : Platform) (max buf_size : ℕ) where
  -- A failed assertion is one of the ways to stop.
  Ends-Failed :
      (r : Outcome (State p) (Unit {0}))
      → Ends (Kept p max buf_size) (λ h _. h ≡ assert_failed) r
      → Ends (Kept p max buf_size) (Stops p max buf_size) r
  Ends-Failed (done a w) h = h
  Ends-Failed (halt s w) e = inl e

  -- From the static variables of a program that has not run yet, and where a packet holds a byte besides
  -- its first, `pk_netlog_init` and then the task that it makes, `ctl_server_task`, run for any
  -- number of rounds while other tasks print, end with the invariant of the server: the table of
  -- clients is consistent and the packet buffer has its size. Else they have stopped at a failed
  -- assertion or at a variable that was never given a value.
  pub pk_netlog_init-EndsKept :
      (boot : Boot p) (junk : ℕ → List ℕ) (printed : ℕ → ℕ → List (List ℕ)) (rounds : ℕ)
      (st : State p)
      → 0 < buf_size
      → IsUnset max buf_size p st
      → Ends (Kept p max buf_size) (Stops p max buf_size) (
          (pk_netlog_init p boot buf_size >> ctl_server_task p max buf_size junk printed rounds) st)
  pk_netlog_init-EndsKept boot junk printed rounds st pos u =
      bind-Ends (Kept p max buf_size) (Kept p max buf_size) (Stops p max buf_size)
        (pk_netlog_init p boot buf_size st)
        (λ _. ctl_server_task p max buf_size junk printed rounds)
        (Ends-Failed (pk_netlog_init p boot buf_size st) (
          pk_netlog_init-IsServer p boot buf_size max st u.no_clients u.no_udp_clients u.slots
            u.counters u.udpbuf))
        (λ _ v k. ctl_server_task-EndsKept p max buf_size junk pos printed rounds v k)
