-- ===== src/I2c.antt =====
-- src/lib/i2c_tools.cpp: the lock of the I2C bus, the multiplexer, and the scan for devices, as one task
-- runs them.
pub mod Lines
pub mod Scan
pub mod Begin
pub mod Tests
use Prim.Native.Nat.{bit_or}
use vedruino.Base.{
  ℕ, zero, suc, ◌+◌, ◌^◌, ℤ, is_negative, int_eq, Bool, true, false, ◌&&◌, ◌||◌, Option, none, some,
  List, [], ◌∷◌, ◌++◌, ◌==◌, leb, M, done, pure, stop, ◌>>=◌, ◌>>◌, call, modify, pk_assert, Halt,
  if◌then◌else◌,
}

-- `pkI2cSwitcher_t`, and a value that is none of its names.
pub data Switcher : Type 0 where
  sw_none sw_pca9547 sw_pw548a sw_other : Switcher

-- The calls of FreeRTOS, and of the library Wire. `take_mutex` is the recursive mutex while this task does
-- not hold it. `end_transmission` gives the number of its result.
pub record Platform : Type 1 where
  pub World : Type 0
  pub mutex_create : World → Bool × World
  pub queue_create : World → Bool × World
  pub take_mutex : World → Bool × World
  pub wire_begin : World → Unit {0} × World
  pub begin_transmission : (address : ℕ) → World → Unit {0} × World
  pub write : (byte : ℕ) → World → Unit {0} × World
  pub end_transmission : World → ℕ × World

-- `mutex` is how often this task holds the recursive mutex, `line_queue` what is in the queue of length 1;
-- `none` is a handle that is NULL. `logged` are the numbers of devices that scans have logged.
pub record State (p : Platform) : Type 0 where
  pub world : p.World
  pub switcher : Switcher
  pub mutex : Option ℕ
  pub line_queue : Option (Option ℤ)
  pub logged : List ℕ

abbrev pub i2c_hub_addr : ℕ
i2c_hub_addr = 0x70

abbrev pub en_mask : ℕ
en_mask = 0x08

-- The channel of a line in the range from 0 to 7.
abbrev pub channel_of : ℤ → Option ℕ
channel_of (ℤ.pos n) = if leb 8 n then none else some n
channel_of (ℤ.negsuc n) = none

module _ (p : Platform) where
  abbrev pub io : {A : Type 0} → (p.World → A × p.World) → M (State p) A
  io f st = let (a, w) = f st.world in done a (record st { world = w })

  pub take_bus : Option ℕ → M (State p) (Unit {0})
  take_bus none = stop Halt.undefined_read
  take_bus (some zero) =
      io p.take_mutex >>= pk_assert >> modify (λ st. record st { mutex = some 1 })
  take_bus (some (suc d)) = modify (λ st. record st { mutex = some (suc (suc d)) })

  unfoldable pub pk_i2c_lock : M (State p) (Unit {0})
  unfolding take_bus
  pk_i2c_lock st = take_bus st.mutex st

  pub give_bus : Option ℕ → M (State p) (Unit {0})
  give_bus none = stop Halt.undefined_read
  give_bus (some zero) = pk_assert false
  give_bus (some (suc d)) = modify (λ st. record st { mutex = some d })

  unfoldable pub pk_i2c_unlock : M (State p) (Unit {0})
  unfolding give_bus
  pk_i2c_unlock st = give_bus st.mutex st

  pub peek : Option (Option ℤ) → M (State p) ℤ
  peek none = stop Halt.undefined_read
  peek (some none) = pure (ℤ.negsuc 0)
  peek (some (some line)) = pure line

  pub pk_i2c_get_line : M (State p) ℤ
  unfolding peek
  pk_i2c_get_line st = peek st.line_queue st

  -- `xQueueReceive`
  pub receive : Option (Option ℤ) → M (State p) Bool
  receive none = stop Halt.undefined_read
  receive (some none) = pure false
  receive (some (some line)) = modify (λ st. record st { line_queue = some none }) >> pure true

  -- `xQueueSend`
  pub send : ℤ → Option (Option ℤ) → M (State p) Bool
  send line none = stop Halt.undefined_read
  send line (some none) = modify (λ st. record st { line_queue = some (some line) }) >> pure true
  send line (some (some other)) = pure false

  abbrev pub receive_line : M (State p) Bool
  receive_line st = receive st.line_queue st

  abbrev pub send_line : ℤ → M (State p) Bool
  send_line line st = send line st.line_queue st

  pub after_receive : ℤ → Bool → M (State p) (Unit {0})
  unfolding pk_i2c_unlock
  after_receive line false = pk_i2c_unlock
  after_receive line true =
      send_line line >>= λ ok. elim ok [ true ↦ pk_i2c_unlock | false ↦ pk_i2c_unlock ]

  pub pk_i2c_set_line : ℤ → M (State p) (Unit {0})
  unfolding pk_i2c_lock after_receive receive send
  pk_i2c_set_line line = pk_i2c_lock >> (receive_line >>= after_receive line)

  pub write_channel : Switcher → (channel : ℕ) → M (State p) (Unit {0})
  write_channel Switcher.sw_pca9547 channel = io (p.write (bit_or channel en_mask))
  write_channel Switcher.sw_pw548a channel = io (p.write (2 ^ channel))
  write_channel Switcher.sw_none channel = pure tt
  write_channel Switcher.sw_other channel = pure tt

  pub after_transmission : ℤ → (res : ℕ) → M (State p) (Unit {0})
  unfolding pk_i2c_set_line
  after_transmission line zero = pk_i2c_set_line line
  after_transmission line (suc res) = pure tt

  pub transmit : Switcher → ℤ → (channel : ℕ) → M (State p) (Unit {0})
  unfolding write_channel after_transmission pk_i2c_unlock
  transmit switcher line channel =
      io (p.begin_transmission i2c_hub_addr)
      >> write_channel switcher channel
      >> io p.end_transmission
      >>= λ res. after_transmission line res >> pk_i2c_unlock

  -- Where the line is selected already, the function returns without `pk_i2c_unlock`.
  pub select : Switcher → ℤ → (channel : ℕ) → M (State p) (Unit {0})
  unfolding transmit pk_i2c_get_line pk_i2c_lock
  select switcher line channel =
      pk_i2c_lock
      >> (pk_i2c_get_line >>= λ current.
          if int_eq current line then pure tt else transmit switcher line channel)

  pub in_range : Switcher → ℤ → Option ℕ → M (State p) (Unit {0})
  unfolding select
  in_range s line none = pure tt
  in_range s line (some channel) = select s line channel

  pub switch_with : Switcher → ℤ → M (State p) (Unit {0})
  unfolding in_range
  switch_with Switcher.sw_none line = pure tt
  switch_with Switcher.sw_pca9547 line = in_range Switcher.sw_pca9547 line (channel_of line)
  switch_with Switcher.sw_pw548a line = in_range Switcher.sw_pw548a line (channel_of line)
  switch_with Switcher.sw_other line = in_range Switcher.sw_other line (channel_of line)

  unfoldable pub pk_i2c_switch : ℤ → M (State p) (Unit {0})
  unfolding switch_with
  pk_i2c_switch line st = switch_with st.switcher line st

  -- The loop over `n` addresses from `address` on.
  pub scan_addresses : (n address devs_num : ℕ) → M (State p) ℕ
  scan_addresses zero address devs_num st = pure devs_num st
  scan_addresses (suc n) address devs_num st =
      (io (p.begin_transmission address) >> io p.end_transmission >>= λ res.
      scan_addresses n (suc address) (if res == 0 then suc devs_num else devs_num))
        st

  pub pk_i2c_scan_current_line : M (State p) (Unit {0})
  unfolding pk_i2c_lock pk_i2c_unlock scan_addresses
  pk_i2c_scan_current_line =
      pk_i2c_lock
      >> (scan_addresses 119 8 0 >>= λ devs_num.
          modify (λ st. record st { logged = st.logged ++ devs_num ∷ [] }) >> pk_i2c_unlock)

  -- The loop over `n` lines from `line` on.
  pub scan_lines : (n line : ℕ) → M (State p) (Unit {0})
  unfolding pk_i2c_switch pk_i2c_scan_current_line
  scan_lines zero line = pure tt
  scan_lines (suc n) line =
      pk_i2c_switch (ℤ.pos line) >> pk_i2c_scan_current_line >> scan_lines n (suc line)

  pub scan_all_lines : M (State p) (Unit {0})
  unfolding scan_lines
  scan_all_lines = pk_i2c_get_line >>= λ last_line. scan_lines 5 3 >> pk_i2c_switch last_line

  pub scan_with : Switcher → M (State p) (Unit {0})
  unfolding scan_all_lines
  scan_with Switcher.sw_none = pk_i2c_scan_current_line
  scan_with _ = scan_all_lines

  unfoldable pub pk_i2c_scan : M (State p) (Unit {0})
  unfolding scan_with
  pk_i2c_scan = pk_i2c_lock >> ((λ st. scan_with st.switcher st) >> pk_i2c_unlock)

  pub first_switch : Switcher → M (State p) (Unit {0})
  unfolding pk_i2c_switch
  first_switch Switcher.sw_none = pure tt
  first_switch _ = pk_i2c_switch (ℤ.pos 0)

  unfoldable pub pk_i2c_begin : Switcher → M (State p) (Unit {0})
  unfolding first_switch
  pk_i2c_begin switcher =
      modify (λ st. record st { switcher = switcher })
      >> (io p.mutex_create >>= λ ok.
          modify (λ st. record st { mutex = if ok then some 0 else none }) >> pure ok)
      >>= λ mutex_ok. io p.queue_create >>= λ queue_ok.
          modify (λ st. record st { line_queue = if queue_ok then some none else none })
          >> pk_assert (mutex_ok && queue_ok)
          >> (send_line (ℤ.negsuc 0) >>= pk_assert)
          >> io p.wire_begin
          >> first_switch switcher
