-- ===== src/Wifi/Tests.antt =====
-- The theorem on src/lib/wifi.c at a concrete input.
use vedruino.Base.{ℕ, suc, ◌≡◌, refl, Bool, true, none, List, [], ◌∷◌, Ends, Returns}
use vedruino.Wifi.{Platform, State, Event, sta_start, sta_disconnected, got_ip, pk_wifi_connect}
use vedruino.Wifi.Wait.{Waits}
use vedruino.Wifi.Connect.{Succeeds, pk_wifi_connect-Connected}

-- Every call succeeds, and the number of calls so far is the world.
abbrev ok : ℕ → Bool × ℕ
ok w = (true, suc w)

abbrev access_point : Platform
access_point = record {
  World = ℕ;
  wifi_connect = ok;
  group_create = ok;
  netif_init = ok;
  event_loop_create = ok;
  netif_create_sta = ok;
  wifi_init = ok;
  register_wifi_events = ok;
  register_got_ip = ok;
  set_mode = ok;
  set_config = λ ssid password. ok;
  wifi_start = ok;
  unregister_got_ip = ok;
  unregister_wifi_events = ok;
  set_power_save = ok;
}

abbrev powered_on : State access_point
powered_on = record { world = 0; event_group = none; retry_num = 0 }

-- One loss of the connection, and an address after it.
abbrev events : List Event
events = sta_start ∷ sta_disconnected ∷ got_ip ∷ []

pk_wifi_connect-Connected_example :
    Ends
      (Succeeds access_point 2 0 events (b'a' ∷ []) (b'b' ∷ []))
      (Waits access_point 2 0 events)
      (pk_wifi_connect access_point 2 (b'a' ∷ []) (b'b' ∷ []) events powered_on)
pk_wifi_connect-Connected_example =
    pk_wifi_connect-Connected access_point 2 (b'a' ∷ []) (b'b' ∷ []) events powered_on (λ w. refl)

-- Without an address, and with no retry left, the function still reports success.
fails_with_success :
    Returns
      (λ r st'. r ≡ true)
      (pk_wifi_connect access_point 0 (b'a' ∷ []) (b'b' ∷ []) (sta_disconnected ∷ []) powered_on)
unfolding pk_wifi_connect
fails_with_success = refl
