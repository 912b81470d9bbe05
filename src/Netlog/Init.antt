-- ===== src/Netlog/Init.antt =====
-- `pk_netlog_init` of src/lib/netlog.c. The static counts of clients begin with 0; the other variables are
-- not set at the start of the program, and arrays have their size alone.
pub mod Runs
use vedruino.Base.{
  ℕ, ◌+◌, ◌≡◌, refl, Bool, true, false, Option, none, some, List, arith, length, All, bind-Ends,
  done, halt, M, Halt, assert_failed, Outcome, stop, ◌>>=◌, ◌>>◌, modify, pk_assert, call, Ends,
}
use vedruino.Netlog.Table.Clients.{udp_count, InSevenBits}
use vedruino.Netlog.Platform.{Platform, State, io}
use vedruino.Netlog.Follows.{IsServer}

abbrev pub session_id_size : ℕ
session_id_size = 32

-- The calls of ESP-IDF, FreeRTOS and the C library that `pk_netlog_init` makes. `none` is an error, `false`
-- an error or NULL. The task of the server is `ctl_server_task`.
pub record Boot (p : Platform) : Type 0 where
  pub base_mac_addr_get : p.World → Option (List ℕ) × p.World
  pub fill_random : (n : ℕ) → p.World → List ℕ × p.World
  pub mutex_create : p.World → Bool × p.World
  pub fwopen : p.World → Bool × p.World
  pub set_line_buffer : (size : ℕ) → p.World → Bool × p.World
  pub task_create : p.World → Bool × p.World

module _ (p : Platform) (boot : Boot p) (buf_size : ℕ) where
  store_mac : Option (List ℕ) → M (State p) (Unit {0})
  store_mac none st = stop Halt.assert_failed st
  store_mac (some mac) st = modify (λ st'. record st' { mac_addr = mac }) st

  -- A call that has to succeed.
  required : (p.World → Bool × p.World) → M (State p) (Unit {0})
  required f = io p (call f) >>= pk_assert

  unfoldable pub pk_netlog_init : M (State p) (Unit {0})
  unfolding store_mac required
  pk_netlog_init =
      io p (call boot.base_mac_addr_get)
      >>= store_mac
      >> io p (call (boot.fill_random session_id_size))
      >>= (λ id. modify (λ st. record st { session_id = id }))
      >> required boot.mutex_create
      >> required boot.mutex_create
      >> required boot.fwopen
      >> required (boot.set_line_buffer buf_size)
      >> modify (λ st. record st { to_netlog = true })
      >> required boot.task_create

  module _ (max : ℕ) where
    abbrev Failed : Halt → State p → Type 0
    Failed h st = h ≡ assert_failed

    abbrev Ready : {A : Type 0} → A → State p → Type 0
    Ready _ st = IsServer p max buf_size st

    pk_assert-Ready :
        (b : Bool) (st : State p) → IsServer p max buf_size st → Ends Ready Failed (pk_assert b st)
    pk_assert-Ready true st v = v
    pk_assert-Ready false st v = refl

    required-Ready :
        (f : p.World → Bool × p.World) (st : State p)
        → IsServer p max buf_size st
        → Ends Ready Failed (required f st)
    unfolding required
    required-Ready f st v =
        pk_assert-Ready (f st.world).0 (record st { world = (f st.world).1 })
          (record { table = v.table; udpbuf = v.udpbuf })

    store_mac-Ready :
        (mac : Option (List ℕ)) (st : State p)
        → IsServer p max buf_size st
        → Ends Ready Failed (store_mac mac st)
    unfolding store_mac
    store_mac-Ready none st v = refl
    store_mac-Ready (some mac) st v = record { table = v.table; udpbuf = v.udpbuf }

    then_Ready :
        {A B : Type 0} (r : Outcome (State p) A) (k : A → M (State p) B)
        → Ends Ready Failed r
        → ((a : A) (st : State p) → IsServer p max buf_size st → Ends Ready Failed (k a st))
        → Ends Ready Failed (elim r [ done a w ↦ k a w | halt h w ↦ halt h w ])
    then_Ready r k h next = bind-Ends Ready Ready Failed r k h next

    no_clients :
        (st : State p)
        → st.table.clients_num ≡ 0
        → st.table.udp_clients_num ≡ 0
        → length st.table.clients ≡ max
        → All InSevenBits st.table.clients
        → length st.udpbuf ≡ 1 + buf_size
        → IsServer p max buf_size st
    unfolding udp_count
    no_clients st n udp slots counters len = record {
      table = record {
        slots = slots;
        in_use = omega (arith, n);
        udp = rw n udp;
        distinct = rw n tt;
        counters = counters;
      };
      udpbuf = len;
    }

    -- Where no client is counted, as at the start of the program, and the arrays have their size,
    -- `pk_netlog_init` ends with the invariant of the server, or a `PK_ASSERT` fails.
    pub pk_netlog_init-IsServer :
        (st : State p)
        → st.table.clients_num ≡ 0
        → st.table.udp_clients_num ≡ 0
        → length st.table.clients ≡ max
        → All InSevenBits st.table.clients
        → length st.udpbuf ≡ 1 + buf_size
        → Ends Ready Failed (pk_netlog_init st)
    unfolding pk_netlog_init
    pk_netlog_init-IsServer st n udp slots counters len =
        then_Ready _ (λ _. required boot.task_create)
          (then_Ready _ (λ _. modify (λ st'. record st' { to_netlog = true }))
            (then_Ready _ (λ _. required (boot.set_line_buffer buf_size))
              (then_Ready _ (λ _. required boot.fwopen)
                (then_Ready _ (λ _. required boot.mutex_create)
                  (then_Ready _ (λ _. required boot.mutex_create)
                    (then_Ready _ (λ id. modify (λ st'. record st' { session_id = id }))
                      (then_Ready _ (λ _. io p (call (boot.fill_random session_id_size)))
                        (store_mac-Ready (boot.base_mac_addr_get st.world).0
                          (record st { world = (boot.base_mac_addr_get st.world).1 })
                          (no_clients (record st { world = (boot.base_mac_addr_get st.world).1 }) n
                            udp slots counters len))
                        (λ _ v r. record { table = r.table; udpbuf = r.udpbuf }))
                      (λ id v r. record { table = r.table; udpbuf = r.udpbuf }))
                    (λ _ v r. required-Ready boot.mutex_create v r))
                  (λ _ v r. required-Ready boot.mutex_create v r))
                (λ _ v r. required-Ready boot.fwopen v r))
              (λ _ v r. required-Ready (boot.set_line_buffer buf_size) v r))
            (λ _ v r. record { table = r.table; udpbuf = r.udpbuf }))
          (λ _ v r. required-Ready boot.task_create v r)
