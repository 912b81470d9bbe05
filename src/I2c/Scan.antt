-- ===== src/I2c/Scan.antt =====
-- What `pk_i2c_scan` of src/lib/i2c_tools.cpp does with the lock and the line.
use mathlib.Core.Path.{subst}
use vedruino.Base.{
  ℕ, zero, suc, ◌+◌, ◌<◌, ◌≡◌, refl, ap, ◌∙◌, ℤ, Bool, true, false, some, [], ◌∷◌, ◌++◌, arith,
  ◌==◌, ◌>>◌, Returns, bind-Returns, Returns-mono, if◌then◌else◌,
}
use vedruino.I2c.{
  Switcher, Platform, State, channel_of, pk_i2c_lock, pk_i2c_unlock, pk_i2c_get_line, pk_i2c_switch,
  scan_addresses, pk_i2c_scan_current_line, scan_lines, scan_all_lines, scan_with, pk_i2c_scan,
}
use vedruino.I2c.Lines.{
  At, CanLock, locked, answer, Changed, Switched, Switching, lock-At, unlock-At, get_line-At,
  pk_i2c_switch-Switched,
}

abbrev pub has_hub : Switcher → Bool
has_hub Switcher.sw_none = false
has_hub _ = true

-- Whether a switch to `line` keeps the mutex, as a number.
abbrev pub kept : (cur line : ℕ) → ℕ
kept cur line = if cur == line then 1 else 0

-- How often more the mutex is held after a scan, with the line `c` selected.
abbrev pub held : Switcher → (c : ℕ) → ℕ
held Switcher.sw_none c = 0
held _ c = kept 7 c + kept c 3

module _ (p : Platform) where
  -- The multiplexer, if there is one, acknowledges that it is addressed and sent the byte of a line. Nothing
  -- is said of the other addresses.
  abbrev pub HubAcknowledges : Switcher → Type 0
  HubAcknowledges s = has_hub s ≡ true → (line : ℕ) (w : p.World) → line < 8 → answer p s line w ≡ 0

  hub-Switched :
      (s : Switcher) (d : ℕ) (cur line : ℤ) (w : p.World) (u : State p)
      → has_hub s ≡ true
      → Switching p s d cur line w u
      → Switched p s d cur line (channel_of line) w u
  hub-Switched Switcher.sw_none d cur line w u hub h = cc
  hub-Switched Switcher.sw_pca9547 d cur line w u hub h = h
  hub-Switched Switcher.sw_pw548a d cur line w u hub h = h
  hub-Switched Switcher.sw_other d cur line w u hub h = h

  -- A line in the range is selected where the multiplexer acknowledges.
  Switched-line :
      (s : Switcher) (d c line : ℕ) (w : p.World) (u : State p)
      → answer p s line (locked p d w) ≡ 0
      → line < 8
      → Switched p s d (ℤ.pos c) (ℤ.pos line) (channel_of (ℤ.pos line)) w u
      → At p s (kept c line + d) (ℤ.pos line) u
  Switched-line s d c line w u ack lt h = by_test (c == line) refl
    where
      in_hub : channel_of (ℤ.pos line) ≡ some line
      in_hub = ground (arith, lt)

      Sent : ℕ → Type 0
      Sent res = Changed p s res d (ℤ.pos c) (ℤ.pos line) u

      Tested : Bool → Type 0
      Tested b = if b then At p s (suc d) (ℤ.pos c) u else Sent (answer p s line (locked p d w))

      at : Tested (c == line)
      at = subst (λ o. Switched p s d (ℤ.pos c) (ℤ.pos line) o w u) in_hub h

      by_test : (b : Bool) → (c == line) ≡ b → At p s (kept c line + d) (ℤ.pos line) u
      by_test true e =
          let n : suc d ≡ kept c line + d = ground (arith, e) in
          let same : c ≡ line = ground (arith, e) in
          subst (λ m. At p s m (ℤ.pos line) u) n
            (subst (λ m. At p s (suc d) (ℤ.pos m) u) same (subst Tested e at))
      by_test false e =
          let n : d ≡ kept c line + d = ground (arith, e) in
          subst (λ m. At p s m (ℤ.pos line) u) n (subst Sent ack (subst Tested e at))

  At-eq :
      {s : Switcher} {d e k l : ℕ} {u : State p}
      → d ≡ e
      → k ≡ l
      → At p s d (ℤ.pos k) u
      → At p s e (ℤ.pos l) u
  At-eq {s} {u = u} x y h = record {
    switcher = h.switcher;
    mutex = h.mutex ∙ ap some x;
    queue = h.queue ∙ ap (λ l. some (some (ℤ.pos l))) y;
  }

  module _ (s : Switcher) (free : CanLock p) where
    scan_addresses-At :
        (n address devs_num d : ℕ) (line : ℤ) (st : State p)
        → At p s d line st
        → Returns (λ _ u. At p s d line u) (scan_addresses p n address devs_num st)
    unfolding scan_addresses
    scan_addresses-At zero address devs_num d line st h = h
    scan_addresses-At (suc n) address devs_num d line st h =
        let r = p.end_transmission (p.begin_transmission address st.world).1 in
        scan_addresses-At n (suc address) (if r.0 == 0 then suc devs_num else devs_num) d line
          (record st { world = r.1 })
          (record { switcher = h.switcher; mutex = h.mutex; queue = h.queue })

    scan_current-At :
        (d : ℕ) (line : ℤ) (st : State p)
        → At p s d line st
        → Returns (λ _ u. At p s d line u) (pk_i2c_scan_current_line p st)
    unfolding pk_i2c_scan_current_line
    scan_current-At d line st h =
        bind-Returns (λ _ u. At p s (suc d) line u) (λ _ u. At p s d line u) (pk_i2c_lock p st) _
          (lock-At p s d line st free h)
          (λ _ u hu.
            bind-Returns (λ _ v. At p s (suc d) line v) (λ _ v. At p s d line v)
              (scan_addresses p 119 8 0 u) _ (scan_addresses-At 119 8 0 (suc d) line u hu)
              (λ n v hv.
                unlock-At p s d line (record v { logged = v.logged ++ n ∷ [] })
                  (record { switcher = hv.switcher; mutex = hv.mutex; queue = hv.queue })))

    module _ (hub : has_hub s ≡ true) (ack : HubAcknowledges s) where
      switch-At :
          (d c line : ℕ) (st : State p)
          → line < 8
          → At p s d (ℤ.pos c) st
          → Returns
              (λ _ u. At p s (kept c line + d) (ℤ.pos line) u)
              (pk_i2c_switch p (ℤ.pos line) st)
      switch-At d c line st lt h =
          Returns-mono (λ _ u. Switching p s d (ℤ.pos c) (ℤ.pos line) st.world u)
            (λ _ u. At p s (kept c line + d) (ℤ.pos line) u) (pk_i2c_switch p (ℤ.pos line) st)
            (pk_i2c_switch-Switched p s d (ℤ.pos c) (ℤ.pos line) st free h)
            (λ _ u v.
              Switched-line s d c line st.world u (ack hub line (locked p d st.world) lt) lt
                (hub-Switched s d (ℤ.pos c) (ℤ.pos line) st.world u hub v))

      -- One line of the loop.
      line-At :
          (d c line : ℕ) (st : State p)
          → line < 8
          → At p s d (ℤ.pos c) st
          → Returns
              (λ _ u. At p s (kept c line + d) (ℤ.pos line) u)
              ((pk_i2c_switch p (ℤ.pos line) >> pk_i2c_scan_current_line p) st)
      line-At d c line st lt h =
          bind-Returns (λ _ u. At p s (kept c line + d) (ℤ.pos line) u)
            (λ _ u. At p s (kept c line + d) (ℤ.pos line) u) (pk_i2c_switch p (ℤ.pos line) st)
            (λ _. pk_i2c_scan_current_line p) (switch-At d c line st lt h)
            (λ _ u hu. scan_current-At (kept c line + d) (ℤ.pos line) u hu)

      scan_lines-At :
          (n line d c : ℕ) (st : State p)
          → line + n < 8
          → At p s d (ℤ.pos c) st
          → Returns
              (λ _ u. At p s (kept c line + d) (ℤ.pos (line + n)) u)
              (scan_lines p (suc n) line st)
      unfolding scan_lines
      scan_lines-At zero line d c st lt h =
          bind-Returns (λ _ u. At p s (kept c line + d) (ℤ.pos line) u)
            (λ _ u. At p s (kept c line + d) (ℤ.pos (line + 0)) u)
            ((pk_i2c_switch p (ℤ.pos line) >> pk_i2c_scan_current_line p) st) _
            (line-At d c line st (omega (arith, lt)) h)
            (λ _ v hv.
              let e : line ≡ line + 0 = omega arith in
              subst (λ m. At p s (kept c line + d) (ℤ.pos m) v) e hv)
      scan_lines-At (suc n) line d c st lt h =
          bind-Returns (λ _ u. At p s (kept c line + d) (ℤ.pos line) u)
            (λ _ u. At p s (kept c line + d) (ℤ.pos (line + suc n)) u)
            ((pk_i2c_switch p (ℤ.pos line) >> pk_i2c_scan_current_line p) st)
            (λ _. scan_lines p (suc n) (suc line)) (line-At d c line st (omega (arith, lt)) h)
            (λ _ v hv.
              Returns-mono
                (λ _ u. At p s (kept line (suc line) + (kept c line + d)) (ℤ.pos (suc line + n)) u)
                (λ _ u. At p s (kept c line + d) (ℤ.pos (line + suc n)) u)
                (scan_lines p (suc n) (suc line) v)
                (scan_lines-At n (suc line) (kept c line + d) line v (omega (arith, lt)) hv)
                (λ _ u hu. At-eq (ground arith) (omega arith) hu))

      scan_all_lines-At :
          (d c : ℕ) (st : State p)
          → c < 8
          → At p s d (ℤ.pos c) st
          → Returns (λ _ u. At p s (kept 7 c + (kept c 3 + d)) (ℤ.pos c) u) (scan_all_lines p st)
      unfolding scan_all_lines
      scan_all_lines-At d c st lt h =
          bind-Returns (λ r u. (r ≡ ℤ.pos c) × At p s d (ℤ.pos c) u × (u.world ≡ st.world))
            (λ _ u. At p s (kept 7 c + (kept c 3 + d)) (ℤ.pos c) u) (pk_i2c_get_line p st) _
            (get_line-At p s d (ℤ.pos c) st h)
            (λ r u (e, hu, _).
              bind-Returns (λ _ v. At p s (kept c 3 + d) (ℤ.pos 7) v)
                (λ _ v. At p s (kept 7 c + (kept c 3 + d)) (ℤ.pos c) v) (scan_lines p 5 3 u)
                (λ _. pk_i2c_switch p r) (scan_lines-At 4 3 d c u (omega arith) hu)
                (λ _ v hv. rw e (switch-At (kept c 3 + d) 7 c v lt hv)))

  hub_scan :
      (s : Switcher) (d c : ℕ) (st : State p)
      → CanLock p
      → HubAcknowledges s
      → has_hub s ≡ true
      → c < 8
      → At p s d (ℤ.pos c) st
      → Returns (λ _ u. At p s (kept 7 c + kept c 3 + d) (ℤ.pos c) u) (scan_all_lines p st)
  hub_scan s d c st free ack hub lt h =
      Returns-mono (λ _ u. At p s (kept 7 c + (kept c 3 + d)) (ℤ.pos c) u)
        (λ _ u. At p s (kept 7 c + kept c 3 + d) (ℤ.pos c) u) (scan_all_lines p st)
        (scan_all_lines-At s free hub ack d c st lt h) (λ _ u hu. At-eq (omega arith) refl hu)

  scan_with-At :
      (s : Switcher) (d c : ℕ) (st : State p)
      → CanLock p
      → HubAcknowledges s
      → c < 8
      → At p s d (ℤ.pos c) st
      → Returns (λ _ u. At p s (held s c + d) (ℤ.pos c) u) (scan_with p s st)
  unfolding scan_with
  scan_with-At Switcher.sw_none d c st free ack lt h =
      Returns-mono (λ _ u. At p Switcher.sw_none d (ℤ.pos c) u)
        (λ _ u. At p Switcher.sw_none (0 + d) (ℤ.pos c) u) (pk_i2c_scan_current_line p st)
        (scan_current-At Switcher.sw_none free d (ℤ.pos c) st h)
        (λ _ u hu. At-eq (omega arith) refl hu)
  scan_with-At Switcher.sw_pca9547 d c st free ack lt h =
      hub_scan Switcher.sw_pca9547 d c st free ack refl lt h
  scan_with-At Switcher.sw_pw548a d c st free ack lt h =
      hub_scan Switcher.sw_pw548a d c st free ack refl lt h
  scan_with-At Switcher.sw_other d c st free ack lt h =
      hub_scan Switcher.sw_other d c st free ack refl lt h

  -- `pk_i2c_scan`, where the mutex can be taken, the multiplexer, if there is one, acknowledges each switch,
  -- whether or not there is a device at the addresses that are probed, and the line `c` from 0 to 7 is
  -- selected: it returns, and the line `c` is selected again. Without a multiplexer the mutex is held
  -- as often as before; with one, it is held once more where `c` is 3 or 7.
  pub pk_i2c_scan-At :
      (s : Switcher) (d c : ℕ) (st : State p)
      → CanLock p
      → HubAcknowledges s
      → c < 8
      → At p s d (ℤ.pos c) st
      → Returns (λ _ u. At p s (held s c + d) (ℤ.pos c) u) (pk_i2c_scan p st)
  unfolding pk_i2c_scan
  pk_i2c_scan-At s d c st free ack lt h =
      bind-Returns (λ _ u. At p s (suc d) (ℤ.pos c) u) (λ _ u. At p s (held s c + d) (ℤ.pos c) u)
        (pk_i2c_lock p st) _ (lock-At p s d (ℤ.pos c) st free h)
        (λ _ u hu.
          bind-Returns (λ _ v. At p s (held s c + suc d) (ℤ.pos c) v)
            (λ _ v. At p s (held s c + d) (ℤ.pos c) v) (scan_with p u.switcher u)
            (λ _. pk_i2c_unlock p) (simp (hu.switcher) (scan_with-At s (suc d) c u free ack lt hu))
            (λ _ v hv. unlock-At p s (held s c + d) (ℤ.pos c) v (At-eq (omega arith) refl hv)))
