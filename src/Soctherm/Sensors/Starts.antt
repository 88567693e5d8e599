-- ===== src/Soctherm/Sensors/Starts.antt =====
-- What the registers hold after the start.
use horizon_oc.Prelude.{
  ℕ, suc, ◌+◌, ◌-◌, ◌*◌, ◌/◌, ◌%◌, ◌^◌, ◌≤◌, ◌<◌, ◌≡◌, refl, ◌∙◌, ◌⊎◌, Bool, true, false, ltb, leb,
  ◌&&◌, if◌then◌else◌, bit_and, bit_or, List, [], ◌∷◌, All, arith,
}
use horizon_oc.Prelude.Bits.Masks.{field-write, field-keep}
use horizon_oc.Soctherm.Tables.{
  TSensor, TSensorConfig, TSensorGroup, group_cpu, group_gpu, group_pll, erista_group_mem,
  erista_t_sensors, mariko_t_sensors, erista_conf, mariko_conf, erista_mem0, erista_mem1,
}
use horizon_oc.Soctherm.Calibration.{Registers}
use horizon_oc.Soctherm.Sensors.{
  enable_sensor, enable_sensors, finish_start, config1, sensor_pdiv, sensor_hotspot_off,
  start_sensors,
}

-- A sensor has its configuration, field by field, and its calibration.
pub record IsEnabled (r : Registers) (s : TSensor) (calibration : ℕ) : Type 0 where
  pub tall : r s.base ≡ s.config.tall * 256
  pub tsample : r (s.base + 4) % 2 ^ 10 + 1 ≡ s.config.tsample
  pub tiddq_en : r (s.base + 4) / 2 ^ 15 % 2 ^ 6 ≡ s.config.tiddq_en
  pub ten_count : r (s.base + 4) / 2 ^ 24 % 2 ^ 6 ≡ s.config.ten_count
  pub temp_enable : r (s.base + 4) / 2 ^ 31 ≡ 1
  pub calib : r (s.base + 8) ≡ calibration

abbrev pub AllEnabled : Registers → List TSensor → ℕ → (ℕ → ℕ) → Type 0
AllEnabled r [] i calib = Unit
AllEnabled r (s ∷ ss) i calib = IsEnabled r s (calib i) × AllEnabled r ss (suc i) calib

-- The fields of a group hold the divider of its sensors and its distance from the PLL sensor: a
-- field's value, times its mask at position 0, is the value times its mask.
pub record HasFields (r : Registers) (config : TSensorConfig) (g : TSensorGroup) : Type 0 where
  pub pdiv : bit_and (r sensor_pdiv) g.pdiv_mask * 0xf ≡ config.pdiv * g.pdiv_mask
  pub hotspot :
      bit_and (r sensor_hotspot_off) g.pllx_hotspot_mask * 0xff
      ≡ g.pllx_hotspot_diff * g.pllx_hotspot_mask

pub record Started (mariko : Bool) (calib : ℕ → ℕ) (old r : Registers) : Type 0 where
  pub sensors : AllEnabled r (if mariko then mariko_t_sensors else erista_t_sensors) 0 calib
  pub groups :
      All
        (HasFields r (if mariko then mariko_conf else erista_conf))
        (group_cpu ∷ group_gpu ∷ group_pll ∷ (if mariko then [] else erista_group_mem ∷ []))
  pub kept_pdiv : bit_and (r sensor_pdiv) 0xFFFF0000 ≡ bit_and (old sensor_pdiv) 0xFFFF0000
  pub kept_hotspot :
      bit_and (r sensor_hotspot_off) 0xFF000000 ≡ bit_and (old sensor_hotspot_off) 0xFF000000
  pub clock : r 0x1DC ≡ 225
  pub rest : (a : ℕ) → (a < 0xc0) ⊎ (0x1DC < a) → r a ≡ old a

abbrev fits : TSensorConfig → Bool
fits c = ltb 0 c.tsample && leb c.tsample 1024 && ltb c.tiddq_en 64 && ltb c.ten_count 64

sensor_on :
    (r : Registers) (s : TSensor) (calibration : ℕ)
    → fits s.config ≡ true
    → r s.base ≡ s.config.tall * 256
    → r (s.base + 4) ≡ config1 s
    → config1 s
      ≡ s.config.tsample
        - 1
        + 32768 * s.config.tiddq_en
        + 16777216 * s.config.ten_count
        + 2147483648
    → r (s.base + 8) ≡ calibration
    → IsEnabled r s calibration
sensor_on r s c fit t e word k =
    let parts = e ∙ word in
    let bounds : (0 < s.config.tsample)
        × (s.config.tsample ≤ 1024)
        × (s.config.tiddq_en < 64)
        × (s.config.ten_count < 64) =
      (ground (arith, fit), ground (arith, fit), ground (arith, fit), ground (arith, fit)) in
    record {
      tall = t;
      tsample = omega (arith, parts, bounds);
      tiddq_en = omega (arith, parts, bounds);
      ten_count = omega (arith, parts, bounds);
      temp_enable = omega (arith, parts, bounds);
      calib = k;
    }

-- The fields of a group, after both words have been written.
set_fields :
    (r : Registers) (c : TSensorConfig) (g : TSensorGroup)
    (old_pdiv pdiv_mask rate old_hot hot_mask hot : ℕ)
    → r sensor_pdiv ≡ bit_or (bit_and old_pdiv pdiv_mask) rate
    → r sensor_hotspot_off ≡ bit_or (bit_and old_hot hot_mask) hot
    → bit_and pdiv_mask g.pdiv_mask ≡ 0
    → bit_and hot_mask g.pllx_hotspot_mask ≡ 0
    → bit_and rate g.pdiv_mask * 0xf ≡ c.pdiv * g.pdiv_mask
    → bit_and hot g.pllx_hotspot_mask * 0xff ≡ g.pllx_hotspot_diff * g.pllx_hotspot_mask
    → HasFields r c g
set_fields r c g old_pdiv pdiv_mask rate old_hot hot_mask hot p h out_p out_h is_p is_h = record {
  pdiv = rw (p, field-write old_pdiv pdiv_mask rate g.pdiv_mask out_p) is_p;
  hotspot = rw (h, field-write old_hot hot_mask hot g.pllx_hotspot_mask out_h) is_h;
}

-- A register outside those of a sensor stays.
enable_sensor-other :
    (s : TSensor) (c : ℕ) (r : Registers) (a : ℕ)
    → (a < 0xc0) ⊎ (0x1DC < a)
    → 0xc0 ≤ s.base
    → s.base ≤ 0x1a0
    → enable_sensor s c r a ≡ r a
unfolding enable_sensor
enable_sensor-other s c r a far lo hi = ground (arith, far)

enable_sensors-other :
    (ss : List TSensor) (i : ℕ) (calib : ℕ → ℕ) (r : Registers) (a : ℕ)
    → (a < 0xc0) ⊎ (0x1DC < a)
    → All (λ s. (0xc0 ≤ s.base) × (s.base ≤ 0x1a0)) ss
    → enable_sensors ss i calib r a ≡ r a
unfolding enable_sensors
enable_sensors-other [] i calib r a far all = refl
enable_sensors-other (s ∷ ss) i calib r a far ((lo, hi), all) =
    enable_sensors-other ss (suc i) calib (enable_sensor s (calib i) r) a far all
    ∙ enable_sensor-other s (calib i) r a far lo hi

finish_start-other :
    (pdiv_mask rate hotspot_mask : ℕ) (before r : Registers) (a : ℕ)
    → (a < 0xc0) ⊎ (0x1DC < a)
    → finish_start pdiv_mask rate hotspot_mask before r a ≡ r a
unfolding finish_start
finish_start-other pdiv_mask rate hotspot_mask before r a far = ground (arith, far)

start_mariko :
    (calib : ℕ → ℕ) (old : Registers) → Started true calib old (start_sensors true calib old)
unfolding start_sensors
start_mariko calib old =
    let all = enable_sensors mariko_t_sensors 0 calib old in
    record {
      sensors = (
        sensor_on _ _ _ refl refl refl refl refl,
        (
          sensor_on _ _ _ refl refl refl refl refl,
          (
            sensor_on _ _ _ refl refl refl refl refl,
            (
              sensor_on _ _ _ refl refl refl refl refl,
              (
                sensor_on _ _ _ refl refl refl refl refl,
                (sensor_on _ _ _ refl refl refl refl refl, tt),
              ),
            ),
          ),
        ),
      );
      groups = (
        set_fields _ mariko_conf group_cpu (old sensor_pdiv) 0xFFFF00F0 0xCC0C
            (old sensor_hotspot_off) 0xFF0000FF 0xA0500 refl refl refl refl refl refl,
        (
          set_fields _ mariko_conf group_gpu (old sensor_pdiv) 0xFFFF00F0 0xCC0C
              (old sensor_hotspot_off) 0xFF0000FF 0xA0500 refl refl refl refl refl refl,
          (
            set_fields _ mariko_conf group_pll (old sensor_pdiv) 0xFFFF00F0 0xCC0C
                (old sensor_hotspot_off) 0xFF0000FF 0xA0500 refl refl refl refl refl refl,
            tt,
          ),
        ),
      );
      kept_pdiv = field-keep (old sensor_pdiv) 0xFFFF00F0 0xCC0C 0xFFFF0000 refl refl;
      kept_hotspot = field-keep (old sensor_hotspot_off) 0xFF0000FF 0xA0500 0xFF000000 refl refl;
      clock = refl;
      rest = λ a far.
          finish_start-other 0xFFFF00F0 0xCC0C 0xFF0000FF all all a far
          ∙ enable_sensors-other mariko_t_sensors 0 calib old a far (omega arith);
    }

start_erista :
    (calib : ℕ → ℕ) (old : Registers) → Started false calib old (start_sensors false calib old)
unfolding start_sensors
start_erista calib old =
    let all = enable_sensors erista_t_sensors 0 calib old in
    let first = enable_sensor erista_mem0 (calib 6) all in
    let last = enable_sensor erista_mem1 (calib 7) first in
    record {
      sensors = (
        sensor_on _ _ _ refl refl refl refl refl,
        (
          sensor_on _ _ _ refl refl refl refl refl,
          (
            sensor_on _ _ _ refl refl refl refl refl,
            (
              sensor_on _ _ _ refl refl refl refl refl,
              (
                sensor_on _ _ _ refl refl refl refl refl,
                (
                  sensor_on _ _ _ refl refl refl refl refl,
                  (
                    sensor_on _ _ _ refl refl refl refl refl,
                    (sensor_on _ _ _ refl refl refl refl refl, tt),
                  ),
                ),
              ),
            ),
          ),
        ),
      );
      groups = (
        set_fields _ erista_conf group_cpu (old sensor_pdiv) 0xFFFF0000 0x8888
            (old sensor_hotspot_off) 0xFF000000 0xA0500 refl refl refl refl refl refl,
        (
          set_fields _ erista_conf group_gpu (old sensor_pdiv) 0xFFFF0000 0x8888
              (old sensor_hotspot_off) 0xFF000000 0xA0500 refl refl refl refl refl refl,
          (
            set_fields _ erista_conf group_pll (old sensor_pdiv) 0xFFFF0000 0x8888
                (old sensor_hotspot_off) 0xFF000000 0xA0500 refl refl refl refl refl refl,
            (
              set_fields _ erista_conf erista_group_mem (old sensor_pdiv) 0xFFFF0000 0x8888
                  (old sensor_hotspot_off) 0xFF000000 0xA0500 refl refl refl refl refl refl,
              tt,
            ),
          ),
        ),
      );
      kept_pdiv = field-keep (old sensor_pdiv) 0xFFFF0000 0x8888 0xFFFF0000 refl refl;
      kept_hotspot = field-keep (old sensor_hotspot_off) 0xFF000000 0xA0500 0xFF000000 refl refl;
      clock = refl;
      rest = λ a far.
          finish_start-other 0xFFFF0000 0x8888 0xFF000000 all last a far
          ∙ enable_sensor-other erista_mem1 (calib 7) first a far (omega arith) (omega arith)
          ∙ enable_sensor-other erista_mem0 (calib 6) all a far (omega arith) (omega arith)
          ∙ enable_sensors-other erista_t_sensors 0 calib old a far (omega arith);
    }

-- `StartSensors` gives every sensor of the chip its configuration and its calibration, puts the
-- divider of the sensors and the distances from the PLL sensor where the masks of the groups say,
-- keeps the other half of both words, starts the clock, and leaves the registers outside those of
-- the sensors as they were.
pub start_sensors-Started :
    (mariko : Bool) (calib : ℕ → ℕ) (old : Registers)
    → Started mariko calib old (start_sensors mariko calib old)
start_sensors-Started true calib old = start_mariko calib old
start_sensors-Started false calib old = start_erista calib old
