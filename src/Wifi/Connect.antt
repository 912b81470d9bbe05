-- ===== src/Wifi/Connect.antt =====
-- When `pk_wifi_connect` of src/lib/wifi.c returns, and what success means.
use vedruino.Base.{
  ℕ, ◌<◌, ◌≡◌, refl, Bool, true, false, Bool-cases, inl, inr, none, some, List, arith, leb, length,
  M, Outcome, done, halt, pure, Ends, bind-Ends,
}
use vedruino.Wifi.{
  Platform, State, Bits, Event, no_bits, checked, wait_bits, after_wait, connect_sta, create_group,
  pk_wifi_connect,
}
use vedruino.Wifi.Wait.{decides, Waits, wait_bits-Decided}

module _ (p : Platform) (conf_retry : ℕ) where
  -- Success is reported only after the events have decided, and then the group of bits is deleted.
  abbrev pub Connected : (n : ℕ) → List Event → Bool → State p → Type 0
  Connected n es r st = r ≡ true → (decides conf_retry n es ≡ true) × (st.event_group ≡ none)

  module _ (n : ℕ) (es : List Event) where
    abbrev End : Outcome (State p) Bool → Type 0
    End r = Ends (Connected n es) (Waits p conf_retry n es) r

    no_success : (st : State p) → Connected n es false st
    no_success st e = cc

    checked-End :
        (f : p.World → Bool × p.World) (next : M (State p) Bool) (st : State p)
        → ((w : p.World) → End (next (record st { world = w })))
        → End (checked p f next st)
    unfolding checked
    checked-End f next st h = go (f st.world).0 (f st.world).1
      where
        go :
            (ok : Bool) (w : p.World)
            → End (
                elim ok as (λ _. M (State p) Bool) [ true ↦ next | false ↦ pure false ]
                  (record st { world = w }))
        go true w = h w
        go false w = no_success (record st { world = w })

    after_wait-End :
        (bits : Bits) (st : State p) → decides conf_retry n es ≡ true → End (after_wait p bits st)
    unfolding after_wait
    after_wait-End bits st d = checked-End p.unregister_got_ip _ st (λ w.
        checked-End p.unregister_wifi_events _ (record st { world = w })
          (λ v.
            checked-End p.set_power_save (pure true) (record st { world = v; event_group = none })
              (λ u e. (d, refl))))

    connect_sta-End :
        (ssid password : List ℕ) (st : State p)
        → st.event_group ≡ some no_bits
        → st.retry_num ≡ n
        → End (connect_sta p conf_retry ssid password es st)
    unfolding connect_sta
    connect_sta-End ssid password st e r = checked-End p.netif_init _ st (λ w1.
        checked-End p.event_loop_create _ (record st { world = w1 })
          (λ w2.
            checked-End p.netif_create_sta _ (record st { world = w2 })
              (λ w3.
                checked-End p.wifi_init _ (record st { world = w3 })
                  (λ w4.
                    checked-End p.register_wifi_events _ (record st { world = w4 })
                      (λ w5.
                        checked-End p.register_got_ip _ (record st { world = w5 })
                          (λ w6.
                            checked-End p.set_mode _ (record st { world = w6 })
                              (λ w7.
                                checked-End (p.set_config ssid password) _
                                  (record st { world = w7 })
                                  (λ w8.
                                    checked-End p.wifi_start _ (record st { world = w8 })
                                      (λ w9.
                                        bind-Ends (λ _ _. decides conf_retry n es ≡ true)
                                          (Connected n es) (Waits p conf_retry n es)
                                          (wait_bits p conf_retry es (record st { world = w9 }))
                                          (after_wait p)
                                          (wait_bits-Decided p conf_retry es n no_bits
                                            (record st { world = w9 }) e refl r)
                                          (λ bits v d. after_wait-End bits v d))))))))))

  -- The texts fit into the fields of `wifi_config_t`, with a NUL behind them.
  abbrev pub Fits : (ssid password : List ℕ) → Type 0
  Fits ssid password = (length ssid < 32) × (length password < 64)

  abbrev pub Succeeds : (n : ℕ) → List Event → (ssid password : List ℕ) → Bool → State p → Type 0
  Succeeds n es ssid password r st = Connected n es r st × (r ≡ true → Fits ssid password)

  End-Fits :
      (n : ℕ) (es : List Event) (ssid password : List ℕ) (r : Outcome (State p) Bool)
      → Fits ssid password
      → Ends (Connected n es) (Waits p conf_retry n es) r
      → Ends (Succeeds n es ssid password) (Waits p conf_retry n es) r
  End-Fits n es ssid password (done a w) fits h = (h, λ e. fits)
  End-Fits n es ssid password (halt s w) fits h = h

  refused :
      (n : ℕ) (es : List Event) (ssid password : List ℕ) (st : State p)
      → Succeeds n es ssid password false st
  refused n es ssid password st = (no_success n es st, λ e. cc)

  -- Where the group of bits can always be made, `pk_wifi_connect` never waits for ever if the events
  -- decide the connection: if an address is got, or the connection is lost once more than there
  -- are retries left of those that were counted before. If it reports success they have decided,
  -- though perhaps against the connection, the group of bits is deleted, and the SSID and the
  -- password have less than 32 and 64 characters.
  pub pk_wifi_connect-Connected :
      (ssid password : List ℕ) (es : List Event) (st : State p)
      → ((w : p.World) → (p.group_create w).0 ≡ true)
      → Ends
          (Succeeds st.retry_num es ssid password)
          (Waits p conf_retry st.retry_num es)
          (pk_wifi_connect p conf_retry ssid password es st)
  unfolding pk_wifi_connect create_group
  pk_wifi_connect-Connected ssid password es st made = elim (Bool-cases (leb 32 (length ssid))) [
    | inl long ↦ rw (long, Ends) (refused st.retry_num es ssid password st)
    | inr short ↦ elim (Bool-cases (leb 64 (length password))) [
      | inl long ↦ rw (short, long, Ends) (refused st.retry_num es ssid password st)
      | inr short' ↦
          rw (short, short', made st.world, Ends)
            (End-Fits st.retry_num es ssid password
              (connect_sta p conf_retry ssid password es start)
              (ground (arith, short), ground (arith, short'))
              (connect_sta-End st.retry_num es ssid password start refl refl))
    ]
  ]
    where
      start : State p
      start = record st { world = (p.group_create st.world).1; event_group = some no_bits }
