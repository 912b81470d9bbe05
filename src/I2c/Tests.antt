-- ===== src/I2c/Tests.antt =====
-- The theorems on src/lib/i2c_tools.cpp at concrete inputs.
use vedruino.Base.{ℕ, ◌==◌, if◌then◌else◌, refl, ℤ, true, some, [], arith, Returns}
use vedruino.I2c.{Switcher, Platform, State, i2c_hub_addr, pk_i2c_switch, pk_i2c_scan, pk_i2c_begin}
use vedruino.I2c.Lines.{At, Switching, pk_i2c_switch-Switched}
use vedruino.I2c.Scan.{pk_i2c_scan-At}
use vedruino.I2c.Begin.{pk_i2c_begin-Begun}

-- A bus with the multiplexer and no other device; the address of the last transmission is the world.
abbrev bus : Platform
bus = record {
  World = ℕ;
  mutex_create = λ w. (true, w);
  queue_create = λ w. (true, w);
  take_mutex = λ w. (true, w);
  wire_begin = λ w. (tt, w);
  begin_transmission = λ address w. (tt, address);
  write = λ byte w. (tt, w);
  end_transmission = λ w. (if w == i2c_hub_addr then 0 else 2, w);
}

abbrev on_line_3 : State bus
on_line_3 = record {
  world = 0;
  switcher = Switcher.sw_pca9547;
  mutex = some 0;
  line_queue = some (some (ℤ.pos 3));
  logged = [];
}

pk_i2c_switch-Switched_example :
    Returns
      (λ _ u. Switching bus Switcher.sw_pca9547 0 (ℤ.pos 3) (ℤ.pos 5) 0 u)
      (pk_i2c_switch bus (ℤ.pos 5) on_line_3)
pk_i2c_switch-Switched_example =
    pk_i2c_switch-Switched bus Switcher.sw_pca9547 0 (ℤ.pos 3) (ℤ.pos 5) on_line_3 (λ w. refl)
      (record { switcher = refl; mutex = refl; queue = refl })

-- After this scan the mutex is still held.
pk_i2c_scan-At_example :
    Returns (λ _ u. At bus Switcher.sw_pca9547 1 (ℤ.pos 3) u) (pk_i2c_scan bus on_line_3)
pk_i2c_scan-At_example =
    pk_i2c_scan-At bus Switcher.sw_pca9547 0 3 on_line_3 (λ w. refl) (λ hub line w lt. refl)
      (omega arith) (record { switcher = refl; mutex = refl; queue = refl })

pk_i2c_begin-Begun_example :
    Returns
      (λ _ u. At bus Switcher.sw_pw548a 0 (ℤ.pos 0) u)
      (pk_i2c_begin bus Switcher.sw_pw548a on_line_3)
pk_i2c_begin-Begun_example =
    pk_i2c_begin-Begun bus Switcher.sw_pw548a on_line_3 (λ w. refl) (λ w. refl) (λ w. refl)
