-- ===== src/I2c/Lines.antt =====
-- What `pk_i2c_switch` of src/lib/i2c_tools.cpp does with the lock and the line.
use mathlib.Core.Path.{subst}
use vedruino.Base.{
  ℕ, zero, suc, ◌^◌, ◌≡◌, refl, sym, ap, ◌∙◌, ◌⊎◌, inl, inr, ℤ, int_eq, true, false, Bool-cases,
  Option, none, some, ◌>>=◌, ◌>>◌, pure, pk_assert, Returns, bind-Returns, Returns-mono,
  if◌then◌else◌,
}
use Prim.Native.Nat.{bit_or}
use vedruino.I2c.{
  Switcher, Platform, State, i2c_hub_addr, en_mask, channel_of, io, take_bus, give_bus, pk_i2c_lock,
  pk_i2c_unlock, peek, pk_i2c_get_line, receive, receive_line, send, after_receive, pk_i2c_set_line,
  write_channel, after_transmission, transmit, select, in_range, switch_with, pk_i2c_switch,
}

module _ (p : Platform) where
  -- The switcher is `s`, this task holds the mutex `d` times, and the queue holds the line.
  pub record At (s : Switcher) (d : ℕ) (line : ℤ) (st : State p) : Type 0 where
    pub switcher : st.switcher ≡ s
    pub mutex : st.mutex ≡ some d
    pub queue : st.line_queue ≡ some (some line)

  abbrev pub CanLock : Type 0
  CanLock = (w : p.World) → (p.take_mutex w).0 ≡ true

  -- The world once the mutex is taken; no call of the platform takes it again.
  abbrev pub locked : (d : ℕ) → p.World → p.World
  locked zero w = (p.take_mutex w).1
  locked (suc d) w = w

  -- The state after `Wire.beginTransmission`, and after a byte is written.
  abbrev begun : State p → State p
  begun st = record st { world = (p.begin_transmission i2c_hub_addr st.world).1 }

  abbrev wrote : ℕ → State p → State p
  wrote byte st = record st { world = (p.write byte (begun st).world).1 }

  -- The world once the multiplexer is addressed and, where its kind is known, was sent the byte that selects
  -- the channel.
  abbrev addressed : Switcher → (channel : ℕ) → p.World → p.World
  addressed Switcher.sw_none channel w = (p.begin_transmission i2c_hub_addr w).1
  addressed Switcher.sw_pca9547 channel w =
      (p.write (bit_or channel en_mask) (p.begin_transmission i2c_hub_addr w).1).1
  addressed Switcher.sw_pw548a channel w =
      (p.write (2 ^ channel) (p.begin_transmission i2c_hub_addr w).1).1
  addressed Switcher.sw_other channel w = (p.begin_transmission i2c_hub_addr w).1

  -- What `Wire.endTransmission` gives for that; 0 is an acknowledgement.
  abbrev pub answer : Switcher → (channel : ℕ) → p.World → ℕ
  answer s channel w = (p.end_transmission (addressed s channel w)).0

  module _ (s : Switcher) where
    begun-At : {d : ℕ} {line : ℤ} {st : State p} → At s d line st → At s d line (begun st)
    begun-At h = record { switcher = h.switcher; mutex = h.mutex; queue = h.queue }

    wrote-At :
        (byte : ℕ) {d : ℕ} {line : ℤ} {st : State p} → At s d line st → At s d line (wrote byte st)
    wrote-At byte h = record { switcher = h.switcher; mutex = h.mutex; queue = h.queue }

    -- A call that changes the world alone.
    pub io-At :
        {A : Type 0} (d : ℕ) (line : ℤ) (f : p.World → A × p.World) (st : State p)
        → At s d line st
        → Returns (λ _ u. At s d line u) (io p f st)
    io-At d line f st h = record { switcher = h.switcher; mutex = h.mutex; queue = h.queue }

    take_bus-At :
        (d : ℕ) (line : ℤ) (st : State p)
        → CanLock
        → At s d line st
        → Returns
            (λ _ u. At s (suc d) line u × (u.world ≡ locked d st.world))
            (take_bus p (some d) st)
    unfolding take_bus
    take_bus-At zero line st free h =
        rw (free st.world, pk_assert, Returns)
          (record { switcher = h.switcher; mutex = refl; queue = h.queue }, refl)
    take_bus-At (suc d) line st free h =
        (record { switcher = h.switcher; mutex = refl; queue = h.queue }, refl)

    lock-Locked :
        (d : ℕ) (line : ℤ) (st : State p)
        → CanLock
        → At s d line st
        → Returns (λ _ u. At s (suc d) line u × (u.world ≡ locked d st.world)) (pk_i2c_lock p st)
    unfolding pk_i2c_lock
    lock-Locked d line st free h = simp (h.mutex) (take_bus-At d line st free h)

    pub lock-At :
        (d : ℕ) (line : ℤ) (st : State p)
        → CanLock
        → At s d line st
        → Returns (λ _ u. At s (suc d) line u) (pk_i2c_lock p st)
    lock-At d line st free h =
        Returns-mono (λ _ u. At s (suc d) line u × (u.world ≡ locked d st.world))
          (λ _ u. At s (suc d) line u) (pk_i2c_lock p st) (lock-Locked d line st free h)
          (λ _ u hu. hu.0)

    give_bus-At :
        (d : ℕ) (line : ℤ) (st : State p)
        → At s (suc d) line st
        → Returns (λ _ u. At s d line u) (give_bus p (some (suc d)) st)
    unfolding give_bus
    give_bus-At d line st h = record { switcher = h.switcher; mutex = refl; queue = h.queue }

    pub unlock-At :
        (d : ℕ) (line : ℤ) (st : State p)
        → At s (suc d) line st
        → Returns (λ _ u. At s d line u) (pk_i2c_unlock p st)
    unfolding pk_i2c_unlock
    unlock-At d line st h = simp (h.mutex) (give_bus-At d line st h)

    pub get_line-At :
        (d : ℕ) (line : ℤ) (st : State p)
        → At s d line st
        → Returns (λ r u. (r ≡ line) × At s d line u × (u.world ≡ st.world)) (pk_i2c_get_line p st)
    unfolding pk_i2c_get_line peek
    get_line-At d line st h = simp (h.queue) (refl, h, refl)

    -- The old line out of the queue, and the new one in.
    swap-At :
        (d : ℕ) (old line : ℤ) (st : State p)
        → At s (suc d) old st
        → Returns (λ _ u. At s d line u) ((receive_line p >>= after_receive p line) st)
    unfolding receive after_receive send
    swap-At d old line st h = rw (h.queue) (
        unlock-At d line (record st { line_queue = some (some line) })
          (record { switcher = h.switcher; mutex = h.mutex; queue = refl }))

    pub set_line-At :
        (d : ℕ) (old line : ℤ) (st : State p)
        → CanLock
        → At s d old st
        → Returns (λ _ u. At s d line u) (pk_i2c_set_line p line st)
    unfolding pk_i2c_set_line
    set_line-At d old line st free h =
        bind-Returns (λ _ u. At s (suc d) old u) (λ _ u. At s d line u) (pk_i2c_lock p st) _
          (lock-At d old st free h) (λ _ u. swap-At d old line u)

    -- After a transmission with the result `res`: where it was acknowledged, the line is the new one, else
    -- it is the old one.
    abbrev pub Changed : (res d : ℕ) (cur line : ℤ) → State p → Type 0
    Changed zero d cur line u = At s d line u
    Changed (suc res) d cur line u = At s d cur u

    after_transmission-Changed :
        (d : ℕ) (cur line : ℤ) (res : ℕ) (st : State p)
        → CanLock
        → At s (suc d) cur st
        → Returns
            (λ _ u. Changed res d cur line u)
            ((after_transmission p line res >> pk_i2c_unlock p) st)
    unfolding after_transmission
    after_transmission-Changed d cur line zero st free h =
        bind-Returns (λ _ u. At s (suc d) line u) (λ _ u. At s d line u) (pk_i2c_set_line p line st)
          (λ _. pk_i2c_unlock p) (set_line-At (suc d) cur line st free h)
          (λ _ u hu. unlock-At d line u hu)
    after_transmission-Changed d cur line (suc res) st free h = unlock-At d cur st h

    end-Changed :
        (d : ℕ) (cur line : ℤ) (st : State p)
        → CanLock
        → At s (suc d) cur st
        → Returns
            (λ _ u. Changed (p.end_transmission st.world).0 d cur line u)
            ((io p p.end_transmission >>= λ res. after_transmission p line res >> pk_i2c_unlock p)
              st)
    end-Changed d cur line st free h =
        after_transmission-Changed d cur line (p.end_transmission st.world).0
          (record st { world = (p.end_transmission st.world).1 }) free
          (record { switcher = h.switcher; mutex = h.mutex; queue = h.queue })

    transmit-Changed :
        (t : Switcher) (channel d : ℕ) (cur line : ℤ) (st : State p)
        → CanLock
        → At s (suc d) cur st
        → Returns
            (λ _ u. Changed (answer t channel st.world) d cur line u)
            (transmit p t line channel st)
    unfolding transmit write_channel
    transmit-Changed Switcher.sw_none channel d cur line st free h =
        end-Changed d cur line (begun st) free (begun-At h)
    transmit-Changed Switcher.sw_pca9547 channel d cur line st free h =
        end-Changed d cur line (wrote (bit_or channel en_mask) st) free
          (wrote-At (bit_or channel en_mask) h)
    transmit-Changed Switcher.sw_pw548a channel d cur line st free h =
        end-Changed d cur line (wrote (2 ^ channel) st) free (wrote-At (2 ^ channel) h)
    transmit-Changed Switcher.sw_other channel d cur line st free h =
        end-Changed d cur line (begun st) free (begun-At h)

    -- How the call leaves the lock and the line, where a multiplexer is there and `w` is the world before:
    -- out of range as they were; on the line that is selected, the mutex is held once more; else as `Changed`
    -- says for the answer of the multiplexer.
    abbrev pub Switched : (d : ℕ) (cur line : ℤ) → Option ℕ → p.World → State p → Type 0
    Switched d cur line none w u = At s d cur u
    Switched d cur line (some channel) w u =
        if int_eq cur line
        then At s (suc d) cur u
        else Changed (answer s channel (locked d w)) d cur line u

    in_range-Switched :
        (d : ℕ) (cur line : ℤ) (channel : Option ℕ) (st : State p)
        → CanLock
        → At s d cur st
        → Returns (λ _ u. Switched d cur line channel st.world u) (in_range p s line channel st)
    unfolding in_range select
    in_range-Switched d cur line none st free h = h
    in_range-Switched d cur line (some channel) st free h =
        bind-Returns (λ _ u. At s (suc d) cur u × (u.world ≡ locked d st.world)) After
          (pk_i2c_lock p st) _ (lock-Locked d cur st free h)
          (λ _ u (hu, e).
            bind-Returns (λ r v. (r ≡ cur) × At s (suc d) cur v × (v.world ≡ u.world)) After
              (pk_i2c_get_line p u) _ (get_line-At (suc d) cur u hu)
              (λ r v (same, hv, e'). chosen r v same hv (e' ∙ e) (Bool-cases (int_eq cur line))))
      where
        After : Unit {0} → State p → Type 0
        After _ u = Switched d cur line (some channel) st.world u

        chosen :
            (r : ℤ) (v : State p)
            → r ≡ cur
            → At s (suc d) cur v
            → v.world ≡ locked d st.world
            → (int_eq cur line ≡ true) ⊎ (int_eq cur line ≡ false)
            → Returns After ((if int_eq r line then pure tt else transmit p s line channel) v)
        chosen r v e hv at (inl same) = rw (ap (λ x. int_eq x line) e ∙ same, same, Returns) hv
        chosen r v e hv at (inr other) = rw (ap (λ x. int_eq x line) e ∙ other) (
            Returns-mono (λ _ u. Sent v.world u) After (transmit p s line channel v)
              (transmit-Changed s channel d cur line v free hv)
              (λ _ u c.
                subst (λ b. if b then At s (suc d) cur u else Sent (locked d st.world) u)
                  (sym other) (subst (λ w. Sent w u) at c)))
          where
            Sent : p.World → State p → Type 0
            Sent w u = Changed (answer s channel w) d cur line u

  abbrev pub Switching : (s : Switcher) (d : ℕ) (cur line : ℤ) → p.World → State p → Type 0
  Switching Switcher.sw_none d cur line w u = At Switcher.sw_none d cur u
  Switching Switcher.sw_pca9547 d cur line w u =
      Switched Switcher.sw_pca9547 d cur line (channel_of line) w u
  Switching Switcher.sw_pw548a d cur line w u =
      Switched Switcher.sw_pw548a d cur line (channel_of line) w u
  Switching Switcher.sw_other d cur line w u =
      Switched Switcher.sw_other d cur line (channel_of line) w u

  switch_with-Switching :
      (s : Switcher) (d : ℕ) (cur line : ℤ) (st : State p)
      → CanLock
      → At s d cur st
      → Returns (λ _ u. Switching s d cur line st.world u) (switch_with p s line st)
  unfolding switch_with
  switch_with-Switching Switcher.sw_none d cur line st free h = h
  switch_with-Switching Switcher.sw_pca9547 d cur line st free h =
      in_range-Switched Switcher.sw_pca9547 d cur line (channel_of line) st free h
  switch_with-Switching Switcher.sw_pw548a d cur line st free h =
      in_range-Switched Switcher.sw_pw548a d cur line (channel_of line) st free h
  switch_with-Switching Switcher.sw_other d cur line st free h =
      in_range-Switched Switcher.sw_other d cur line (channel_of line) st free h

  -- `pk_i2c_switch` returns where the mutex can be taken and the queue holds a line. Without a multiplexer
  -- the mutex and the line stay as they are. With one, so they do for a line out of the range 0 to 7; for the
  -- line that is selected already the mutex stays held once more; for another line the mutex is held as
  -- often as before, and the line is the new one if the transmission that addresses the multiplexer and,
  -- where its kind is known, sends the byte of the line is acknowledged, the old one if it fails.
  pub pk_i2c_switch-Switched :
      (s : Switcher) (d : ℕ) (cur line : ℤ) (st : State p)
      → CanLock
      → At s d cur st
      → Returns (λ _ u. Switching s d cur line st.world u) (pk_i2c_switch p line st)
  unfolding pk_i2c_switch
  pk_i2c_switch-Switched s d cur line st free h =
      simp (h.switcher) (switch_with-Switching s d cur line st free h)
