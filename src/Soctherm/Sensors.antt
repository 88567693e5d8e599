-- ===== src/Soctherm/Sensors.antt =====
-- soctherm.cpp: how the sensors are started and read.
pub mod Starts
pub mod Temps
use horizon_oc.Prelude.{
  ◌==◌, ◌||◌, not, if◌then◌else◌, truthy, ℤ, pos, neg_ℤ, negsuc, ℕ, suc, ◌+◌, ◌-◌, ◌*◌, ◌/◌, ◌^◌,
  bit_and, bit_or, Bool, true, false, List, [], ◌∷◌, Option, none, some,
}
use horizon_oc.Soctherm.Tables.{
  TSensor, erista_t_sensors, mariko_t_sensors, erista_mem0, erista_mem1, tfuse, sensor_temp1,
  sensor_temp2,
}
use horizon_oc.Soctherm.Calibration.{
  Registers, calc_shared_cal, calc_t_sensor_calib, TSensorSharedCalib,
}

pub record TSensorTemps : Type 0 where
  pub cpu : ℤ
  pub gpu : ℤ
  pub mem : ℤ
  pub pllx : ℤ

-- The globals of soctherm.cpp, with the registers that they point at.
pub record Soctherm : Type 0 where
  pub soctherm : Registers
  pub car : Registers
  pub calib : ℕ → ℕ
  pub is_mariko : Bool

abbrev pub write_reg : Registers → ℕ → ℕ → Registers
write_reg r offset value a = if a == offset then value else r a

abbrev pub set_bits : Registers → ℕ → ℕ → Registers
set_bits r offset mask = write_reg r offset (bit_or (r offset) mask)

unfoldable pub is_disabled_through_sleep : Registers → Bool
is_disabled_through_sleep car =
    truthy (bit_and (car 0xC) (2 ^ 14)) || not (truthy (bit_and (car 0x18) (2 ^ 14)))

abbrev pub is_sensor_enabled : Registers → Bool
is_sensor_enabled r = truthy (r 0x1DC)

-- The word for SENSOR_CONFIG1.
abbrev pub config1 : TSensor → ℕ
config1 s =
    bit_or
      (bit_or (bit_or (s.config.tsample - 1) (s.config.tiddq_en * 2 ^ 15))
        (s.config.ten_count * 2 ^ 24))
      (2 ^ 31)

unfoldable pub enable_sensor : TSensor → ℕ → Registers → Registers
enable_sensor s calibration r =
    write_reg (write_reg (write_reg r s.base (s.config.tall * 2 ^ 8)) (s.base + 4) (config1 s))
      (s.base + 8) calibration

-- The loop over a table, from the index `i` on.
unfoldable pub enable_sensors : List TSensor → ℕ → (ℕ → ℕ) → Registers → Registers
unfolding enable_sensor
enable_sensors [] i calib r = r
enable_sensors (s ∷ ss) i calib r = enable_sensors ss (suc i) calib (enable_sensor s (calib i) r)

abbrev pub sensor_pdiv : ℕ
sensor_pdiv = 0x1c0

abbrev pub sensor_hotspot_off : ℕ
sensor_hotspot_off = 0x1c4

-- The writes at the end of `StartSensors`, with the masks and the rate of the chip.
unfoldable pub finish_start : ℕ → ℕ → ℕ → Registers → Registers → Registers
finish_start pdiv_mask pdiv_rate hotspot_mask before r =
    let pdiv = bit_or (bit_and (before sensor_pdiv) pdiv_mask) pdiv_rate in
    let hotspot = bit_or (bit_and (before sensor_hotspot_off) hotspot_mask) 0xA0500 in
    write_reg (write_reg (write_reg r sensor_pdiv pdiv) sensor_hotspot_off hotspot) 0x1DC 225

unfoldable pub start_sensors : Bool → (ℕ → ℕ) → Registers → Registers
unfolding enable_sensors finish_start
start_sensors true calib r =
    let enabled = enable_sensors mariko_t_sensors 0 calib r in
    finish_start 0xFFFF00F0 0xCC0C 0xFF0000FF enabled enabled
start_sensors false calib r =
    let enabled = enable_sensors erista_t_sensors 0 calib r in
    finish_start 0xFFFF0000 0x8888 0xFF000000 enabled
      (enable_sensor erista_mem1 (calib 7) (enable_sensor erista_mem0 (calib 6) enabled))

-- `val` is a `u16`.
unfoldable pub translate_temp : ℕ → ℤ
translate_temp val =
    let whole = bit_and val 0xff00 / 2 ^ 8 * 1000 in
    let t = if truthy (bit_and val (2 ^ 7)) then whole + 500 else whole in
    if truthy (bit_and val 1) then neg_ℤ (pos t) else pos t

-- The chip is an argument of its own: here the code asks the board.
unfoldable pub read_sensors : Bool → Soctherm → TSensorTemps → Soctherm × TSensorTemps
unfolding start_sensors translate_temp is_disabled_through_sleep
read_sensors is_erista t temps =
    let r =
      if is_sensor_enabled t.soctherm
      then t.soctherm
      else start_sensors t.is_mariko t.calib t.soctherm in
    if is_disabled_through_sleep t.car then (t, temps) else (
      record t { soctherm = r },
      record {
        cpu = translate_temp (r sensor_temp1 / 2 ^ 16);
        gpu = translate_temp (bit_and (r sensor_temp1) 0xffff);
        mem = if is_erista then translate_temp (r sensor_temp2 / 2 ^ 16) else negsuc 0;
        pllx = translate_temp (bit_and (r sensor_temp2) 0xffff);
      },
    )

-- The loop that calibrates the sensors of a table, from the index `i` on.
unfoldable pub calibrate : List TSensor → ℕ → TSensorSharedCalib → Registers → (ℕ → ℕ) → ℕ → ℕ
unfolding calc_t_sensor_calib
calibrate [] i shared fuse calib = calib
calibrate (s ∷ ss) i shared fuse calib =
    let here = calc_t_sensor_calib s.config shared s.fuse_corr s.calib_fuse_offset fuse in
    calibrate ss (suc i) shared fuse (write_reg calib i here)

-- `Initialize`, with the registers that `QueryMemoryMapping` maps, or `none` where it fails.
unfoldable pub initialize_soctherm :
    Bool → Option (Registers × Registers × Registers) → Soctherm → Soctherm
unfolding calibrate calc_shared_cal start_sensors
initialize_soctherm is_mariko none t = record t { is_mariko = is_mariko }
initialize_soctherm is_mariko (some (soctherm, fuse, car)) t =
    let shared = calc_shared_cal tfuse fuse in
    let sensors = if is_mariko then mariko_t_sensors else erista_t_sensors in
    let calib = calibrate sensors 0 shared fuse t.calib in
    record {
      soctherm = start_sensors is_mariko calib soctherm;
      car = set_bits (write_reg car 0x3B8 0x8000005E) 0x360 0x10;
      calib = calib;
      is_mariko = is_mariko;
    }
