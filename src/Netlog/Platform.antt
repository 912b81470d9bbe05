-- ===== src/Netlog/Platform.antt =====
-- The calls outside the program that src/lib/netlog.c makes besides those of src/lib/ip.c, as a
-- parameter, and the state that its functions share.
use vedruino.Base.{ℕ, Bool, List, M, done, halt}
use vedruino.Ip.Sockets.{Sockets}
use vedruino.Netlog.Table.{Table}

-- `uart_write` is `write(0, …)`.
pub record Platform : Type 1 where
  pub sockets : Sockets
  pub open sockets use *
  pub uart_write : List ℕ → World → Unit {0} × World

-- The static variables. `to_netlog` says whether `stdout` is `netlogout`, and not the UART.
pub record State (p : Platform) : Type 0 where
  pub world : p.World
  pub table : Table
  pub udpbuf : List ℕ
  pub to_netlog : Bool
  pub mac_addr : List ℕ
  pub session_id : List ℕ

-- A call that changes the world and none of the static variables.
abbrev pub io : (p : Platform) {A : Type 0} → M p.World A → M (State p) A
io p m st = elim (m st.world) [
  | done a w ↦ done a (record st { world = w })
  | halt h w ↦ halt h (record st { world = w })
]
