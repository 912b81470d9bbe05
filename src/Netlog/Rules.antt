-- ===== src/Netlog/Rules.antt =====
-- Rules for the calls that change the world alone (`io` of Netlog/Platform.antt).
use vedruino.Base.{ℕ, suc, arith, M, Outcome, done, halt, List, Returns, ◌>>=◌}
use vedruino.Ip.Addr.{IpAddr, get_sockaddr}
use vedruino.Ip.Sockets.{Sockets}
use vedruino.Ip.Stream.{max_retries_on_enomem, pk_tcp_send, pk_udp_send}
use vedruino.Ip.Stream.Send.{send_loop-Returns}
use vedruino.Netlog.Platform.{Platform, State, io}

module _ (p : Platform) {A : Type 0} where
  continue-Returns :
      (P : A → p.World → Type 0) (Q : A → State p → Type 0) (r : Outcome p.World A) (st : State p)
      → Returns P r
      → ((a : A) (w : p.World) → P a w → Q a (record st { world = w }))
      → Returns Q (io p (λ _. r) st)
  continue-Returns P Q (done a w) st h next = next a w h
  continue-Returns P Q (halt s w) st h next = absurd h

  pub io-Returns :
      (P : A → p.World → Type 0) (Q : A → State p → Type 0) (m : M p.World A) (st : State p)
      → Returns P (m st.world)
      → ((a : A) (w : p.World) → P a w → Q a (record st { world = w }))
      → Returns Q (io p m st)
  io-Returns P Q m st = continue-Returns P Q (m st.world) st

module _ (p : Platform) {A B : Type 0} where
  then-Returns :
      (Q : B → State p → Type 0) (r : Outcome p.World A) (k : A → M (State p) B) (st : State p)
      → Returns (λ _ w. Unit {0}) r
      → ((a : A) (w : p.World) → Returns Q (k a (record st { world = w })))
      → Returns Q ((io p (λ _. r) >>= k) st)
  then-Returns Q (done a w) k st h next = next a w
  then-Returns Q (halt s w) k st h next = absurd h

  -- A call of which only is known that it returns, and what follows.
  pub io_bind-Returns :
      (Q : B → State p → Type 0) (m : M p.World A) (k : A → M (State p) B) (st : State p)
      → Returns (λ _ w. Unit {0}) (m st.world)
      → ((a : A) (w : p.World) → Returns Q (k a (record st { world = w })))
      → Returns Q ((io p m >>= k) st)
  io_bind-Returns Q m k st = then-Returns Q (m st.world) k st

-- The calls that send return.
module _ (s : Sockets) where
  abbrev pub Any : {A : Type 0} → A → s.World → Type 0
  Any a w = Unit {0}

  pub pk_tcp_send-Returns :
      (fd : ℕ) (buf : List ℕ) (w : s.World) → Returns Any (pk_tcp_send s fd buf w)
  unfolding pk_tcp_send
  pk_tcp_send-Returns fd buf w =
      send_loop-Returns (s.write fd buf) (λ v. Unit) Any (λ v k i e. tt) (λ v i e. tt) (λ v i e. tt)
        (λ v i. tt) (suc max_retries_on_enomem) 0 w (omega arith) (omega arith) tt

  pub pk_udp_send-Returns :
      (fd : ℕ) (addr : IpAddr) (buf : List ℕ) (w : s.World)
      → Returns Any (pk_udp_send s fd addr buf w)
  unfolding pk_udp_send
  pk_udp_send-Returns fd addr buf w =
      send_loop-Returns (s.sendto fd buf (get_sockaddr addr)) (λ v. Unit) Any (λ v k i e. tt)
        (λ v i e. tt) (λ v i e. tt) (λ v i. tt) (suc max_retries_on_enomem) 0 w (omega arith)
        (omega arith) tt
