-- ===== src/I2c/Begin.antt =====
-- `pk_i2c_begin` of src/lib/i2c_tools.cpp.
use vedruino.Base.{◌≡◌, refl, ℤ, true, some, Returns}
use vedruino.I2c.{Switcher, Platform, State, send, first_switch, pk_i2c_begin}
use vedruino.I2c.Lines.{At, CanLock, locked, answer, Changed, pk_i2c_switch-Switched}

module _ (p : Platform) where
  -- The world once mutex and queue are created and `Wire.begin` was called.
  abbrev pub opened : p.World → p.World
  opened w = (p.wire_begin (p.queue_create (p.mutex_create w).1).1).1

  -- The mutex is free. Without a multiplexer no line was selected and the world is `w`. With one, the line is 0
  -- where the multiplexer answers from `w` on with an acknowledgement, else none was selected.
  abbrev pub Begun : Switcher → p.World → State p → Type 0
  Begun Switcher.sw_none w u = At p Switcher.sw_none 0 (ℤ.negsuc 0) u × (u.world ≡ w)
  Begun Switcher.sw_pca9547 w u =
      Changed p Switcher.sw_pca9547 (answer p Switcher.sw_pca9547 0 (locked p 0 w)) 0 (ℤ.negsuc 0)
        (ℤ.pos 0) u
  Begun Switcher.sw_pw548a w u =
      Changed p Switcher.sw_pw548a (answer p Switcher.sw_pw548a 0 (locked p 0 w)) 0 (ℤ.negsuc 0)
        (ℤ.pos 0) u
  Begun Switcher.sw_other w u =
      Changed p Switcher.sw_other (answer p Switcher.sw_other 0 (locked p 0 w)) 0 (ℤ.negsuc 0)
        (ℤ.pos 0) u

  first_switch-Begun :
      (s : Switcher) (st : State p)
      → CanLock p
      → At p s 0 (ℤ.negsuc 0) st
      → Returns (λ _ u. Begun s st.world u) (first_switch p s st)
  unfolding first_switch
  first_switch-Begun Switcher.sw_none st free h = (h, refl)
  first_switch-Begun Switcher.sw_pca9547 st free h =
      pk_i2c_switch-Switched p Switcher.sw_pca9547 0 (ℤ.negsuc 0) (ℤ.pos 0) st free h
  first_switch-Begun Switcher.sw_pw548a st free h =
      pk_i2c_switch-Switched p Switcher.sw_pw548a 0 (ℤ.negsuc 0) (ℤ.pos 0) st free h
  first_switch-Begun Switcher.sw_other st free h =
      pk_i2c_switch-Switched p Switcher.sw_other 0 (ℤ.negsuc 0) (ℤ.pos 0) st free h

  -- `pk_i2c_begin`, where mutex and queue can be created and the mutex can be taken, returns from any state
  -- with the mutex free. Without a multiplexer the queue holds -1, and the world is the one that `Wire.begin`
  -- left. With one, the queue holds the line 0 if the first transmission behind that, which addresses the
  -- multiplexer and, where its kind is known, sends the byte of the line 0, is acknowledged, and -1 if it
  -- fails.
  pub pk_i2c_begin-Begun :
      (s : Switcher) (st : State p)
      → CanLock p
      → ((w : p.World) → (p.mutex_create w).0 ≡ true)
      → ((w : p.World) → (p.queue_create w).0 ≡ true)
      → Returns (λ _ u. Begun s (opened st.world) u) (pk_i2c_begin p s st)
  unfolding pk_i2c_begin send
  pk_i2c_begin-Begun s st free mutex_made queue_made =
      let w = (p.mutex_create st.world).1 in
      rw (mutex_made st.world, queue_made w)
        (first_switch-Begun s
          (record st {
            world = opened st.world;
            switcher = s;
            mutex = some 0;
            line_queue = some (some (ℤ.negsuc 0));
          })
          free (record { switcher = refl; mutex = refl; queue = refl }))
