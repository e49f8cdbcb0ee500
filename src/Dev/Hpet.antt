-- ===== src/Dev/Hpet.antt =====
-- src/dev/hpet.rs: the registers of the high precision timer, each 64 bits, and its timers.
pub mod Routing
use os_test.Prelude.{
  ℕ, ◌+◌, ◌-◌, ◌*◌, ◌/◌, ◌%◌, ◌^◌, Bool, not, Option, none, some, ◌==◌, ltb, leb, if◌then◌else◌,
  ◌>>>◌, ◌<<<◌, bit_and, bit_or,
}
use os_test.Prelude.Outcome.{Outcome, done, panic, ◌>>=◌, ◌>>◌, assert}
use os_test.Dev.Registers.{Registers}
use os_test.Dev.IoApic.{TriggerMode, level_sensitive, edge_sensitive}

abbrev pub general_capabilities_register : ℕ
general_capabilities_register = 0

abbrev pub general_configuration_register : ℕ
general_configuration_register = 0x10

abbrev pub main_counter_val_register : ℕ
main_counter_val_register = 0xf0

abbrev pub leg_rt_cnf : ℕ
leg_rt_cnf = 2

abbrev pub enable_cnf : ℕ
enable_cnf = 1

-- The 64 bits other than these.
abbrev pub without_bits : ℕ → ℕ
without_bits bits = 2 ^ 64 - 1 - bits

module _ {S : Type 0} (device : Registers S) where
  unfoldable pub fs_per_tick : S → Outcome ℕ
  fs_per_tick s = do
    let fs = device.load s general_capabilities_register >>> 32
    assert (leb fs 0x05F5E100)
    done fs

  -- The division panics on 0.
  unfoldable pub tick_rate_ms : S → Outcome ℕ
  unfolding fs_per_tick
  tick_rate_ms s = do fs ← fs_per_tick s; if fs == 0 then panic else done (10 ^ 12 / fs)

  unfoldable pub num_timers : S → ℕ
  num_timers s = bit_and (device.load s general_capabilities_register >>> 8) 0xf + 1

  unfoldable pub is_using_legacy_mapping : S → Bool
  is_using_legacy_mapping s =
      not (bit_and (device.load s general_configuration_register >>> 1) 1 == 0)

  unfoldable pub enable_legacy_mapping : S → S
  enable_legacy_mapping s =
      let old = device.load s general_configuration_register in
      device.store s general_configuration_register (bit_or old leg_rt_cnf)

  unfoldable pub disable_legacy_mapping : S → S
  disable_legacy_mapping s =
      let old = device.load s general_configuration_register in
      device.store s general_configuration_register (bit_and old (without_bits leg_rt_cnf))

  pub is_enabled : S → Bool
  is_enabled s = not (bit_and (device.load s general_configuration_register) enable_cnf == 0)

  unfoldable pub is_disabled : S → Bool
  unfolding is_enabled
  is_disabled s = not (is_enabled s)

  pub enable : S → S
  enable s =
      let old = device.load s general_configuration_register in
      device.store s general_configuration_register (bit_or old enable_cnf)

  unfoldable pub disable : S → S
  disable s =
      let old = device.load s general_configuration_register in
      device.store s general_configuration_register (bit_and old (without_bits enable_cnf))

  pub set_main_counter_raw_unchecked : S → ℕ → S
  set_main_counter_raw_unchecked s val = device.store s main_counter_val_register val

  pub set_main_counter_raw : S → ℕ → Outcome S
  unfolding is_enabled set_main_counter_raw_unchecked
  set_main_counter_raw s val =
      if is_enabled s then panic else done (set_main_counter_raw_unchecked s val)

  -- The register has 64 bits.
  unfoldable pub read_main_counter : S → ℕ
  read_main_counter s = device.load s main_counter_val_register % 2 ^ 64

  -- A timer is its number.
  unfoldable pub timer : S → ℕ → Outcome ℕ
  unfolding num_timers
  timer s num = assert (ltb num (num_timers s)) >> done num

-- The registers of a timer.
abbrev pub general_capabilities_reg_num : ℕ → ℕ
general_capabilities_reg_num num = 0x100 + 0x20 * num

abbrev pub comparator_value_reg_num : ℕ → ℕ
comparator_value_reg_num num = 0x108 + 0x20 * num

-- The operations of `Timer`.
module _ {S : Type 0} (device : Registers S) (num : ℕ) where
  -- The shift panics from 64 on.
  unfoldable pub can_route_irq_to : S → ℕ → Outcome Bool
  can_route_irq_to s irq =
      if ltb irq 64
      then done
          (not (bit_and (device.load s (general_capabilities_reg_num num) >>> 32) (2 ^ irq) == 0))
      else panic

  pub route_irq_to : S → ℕ → Outcome (S × Option ℕ)
  unfolding can_route_irq_to
  route_irq_to s irq = do
    can ← can_route_irq_to s irq
    if can
        then (do
          assert (leb irq 23)
          let old = device.load s (general_capabilities_reg_num num)
          done (
            device.store s (general_capabilities_reg_num num) (bit_or old (irq <<< 9)),
            some irq,
          ))
        else done (s, none)

  unfoldable pub trigger_mode : S → TriggerMode
  trigger_mode s =
      if bit_and (device.load s (general_capabilities_reg_num num) >>> 1) 1 == 0
      then edge_sensitive
      else level_sensitive

  unfoldable pub enable_timer : S → S
  enable_timer s =
      let old = device.load s (general_capabilities_reg_num num) in
      device.store s (general_capabilities_reg_num num) (bit_or old 4)

  unfoldable pub disable_timer : S → S
  disable_timer s =
      let old = device.load s (general_capabilities_reg_num num) in
      device.store s (general_capabilities_reg_num num) (bit_and old (without_bits 4))

  unfoldable pub set_counter_raw : S → ℕ → S
  set_counter_raw s val = device.store s (comparator_value_reg_num num) val

  unfoldable pub read_counter : S → ℕ
  read_counter s = device.load s (comparator_value_reg_num num) % 2 ^ 64
