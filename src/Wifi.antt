-- ===== src/Wifi.antt =====
-- src/lib/wifi.c, which an #if 0 takes out of the build, as it stands there: the handler of events, and
-- `pk_wifi_connect`, which waits for what the handler tells it. Log messages are left out.
pub mod Wait
pub mod Connect
mod Tests
use vedruino.Base.{
  ℕ, ◌+◌, Bool, true, false, ◌||◌, Option, none, some, List, [], ◌∷◌, leb, ltb, if◌then◌else◌,
  length, M, done, halt, pure, stop, ◌>>=◌, ◌>>◌, modify, Halt,
}

-- The calls of ESP-IDF and FreeRTOS; `false` is an error or NULL.
pub record Platform : Type 1 where
  pub World : Type 0
  pub wifi_connect : World → Bool × World
  pub group_create : World → Bool × World
  pub netif_init : World → Bool × World
  pub event_loop_create : World → Bool × World
  pub netif_create_sta : World → Bool × World
  pub wifi_init : World → Bool × World
  pub register_wifi_events : World → Bool × World
  pub register_got_ip : World → Bool × World
  pub set_mode : World → Bool × World
  pub set_config : (ssid password : List ℕ) → World → Bool × World
  pub wifi_start : World → Bool × World
  pub unregister_got_ip : World → Bool × World
  pub unregister_wifi_events : World → Bool × World
  pub set_power_save : World → Bool × World

-- `WIFI_CONNECTED_BIT` and `WIFI_FAIL_BIT`
pub record Bits : Type 0 where
  pub connected : Bool
  pub fail : Bool

-- `s_wifi_event_group`, where `none` is a handle that is NULL or deleted, and `s_retry_num`.
pub record State (p : Platform) : Type 0 where
  pub world : p.World
  pub event_group : Option Bits
  pub retry_num : ℕ

-- The events that `event_handler` tells apart.
pub data Event : Type 0 where
  sta_start sta_disconnected got_ip other_event : Event

abbrev pub no_bits : Bits
no_bits = record { connected = false; fail = false }

abbrev pub decided : Bits → Bool
decided bits = bits.connected || bits.fail

module _ (p : Platform) where
  -- A call that changes the world and none of the variables.
  abbrev pub io : (p.World → Bool × p.World) → M (State p) Bool
  io f st = let (ok, w) = f st.world in done ok (record st { world = w })

  set_bits : (Bits → Bits) → M (State p) (Unit {0})
  set_bits f st = elim st.event_group [
    | none ↦ stop Halt.undefined_read st
    | some bits ↦ done tt (record st { event_group = some (f bits) })
  ]

  -- An error of `esp_wifi_connect` is only logged.
  on_disconnected : (conf_retry : ℕ) → M (State p) (Unit {0})
  unfolding set_bits
  on_disconnected conf_retry st = elim (ltb st.retry_num conf_retry) [
    | true ↦ (io p.wifi_connect >> modify (λ st'. record st' { retry_num = st'.retry_num + 1 })) st
    | false ↦ set_bits (λ b. record b { fail = true }) st
  ]

  unfoldable pub event_handler : (conf_retry : ℕ) → Event → M (State p) (Unit {0})
  unfolding on_disconnected set_bits
  event_handler conf_retry sta_start = io p.wifi_connect >> pure tt
  event_handler conf_retry sta_disconnected = on_disconnected conf_retry
  event_handler conf_retry got_ip =
      modify (λ st. record st { retry_num = 0 }) >> set_bits (λ b. record b { connected = true })
  event_handler conf_retry other_event = pure tt

  -- A call after whose error the function returns.
  checked : (p.World → Bool × p.World) → M (State p) Bool → M (State p) Bool
  checked f next st = (io f >>= λ ok. elim ok [ true ↦ next | false ↦ pure false ]) st

  -- `xEventGroupWaitBits` without a limit of time, while the events come one after another.
  pub wait_bits : (conf_retry : ℕ) → List Event → M (State p) Bits
  unfolding event_handler
  wait_bits conf_retry [] st = elim st.event_group [
    | none ↦ stop Halt.undefined_read st
    | some bits ↦ if decided bits then pure bits st else stop Halt.blocked st
  ]
  wait_bits conf_retry (e ∷ events) st =
      let rest = (event_handler conf_retry e >> wait_bits conf_retry events) st in
      elim st.event_group [
        | none ↦ stop Halt.undefined_read st
        | some bits ↦ if decided bits then pure bits st else rest
      ]

  -- Which bit was set is only logged.
  after_wait : Bits → M (State p) Bool
  unfolding checked
  after_wait bits = checked p.unregister_got_ip (
      checked p.unregister_wifi_events
        (modify (λ st. record st { event_group = none }) >> checked p.set_power_save (pure true)))

  connect_sta : (conf_retry : ℕ) → (ssid password : List ℕ) → List Event → M (State p) Bool
  unfolding checked wait_bits after_wait
  connect_sta conf_retry ssid password events = checked p.netif_init (
      checked p.event_loop_create (
        checked p.netif_create_sta (
          checked p.wifi_init (
            checked p.register_wifi_events (
              checked p.register_got_ip (
                checked p.set_mode (
                  checked (p.set_config ssid password)
                    (checked p.wifi_start (wait_bits conf_retry events >>= after_wait)))))))))

  create_group : M (State p) (Unit {0})
  create_group st =
      (io p.group_create >>= λ ok.
      modify (λ st'. record st' { event_group = if ok then some no_bits else none }))
        st

  unfoldable pub pk_wifi_connect :
      (conf_retry : ℕ) → (ssid password : List ℕ) → List Event → M (State p) Bool
  unfolding create_group connect_sta
  pk_wifi_connect conf_retry ssid password events st =
      if leb 32 (length ssid)
      then pure false st
      else (if leb 64 (length password)
          then pure false st
          else (create_group >> connect_sta conf_retry ssid password events) st)
