-- ===== src/Soctherm/Sensors/Temps.antt =====
-- The temperatures that are read.
use horizon_oc.Prelude.{
  ℕ, ◌+◌, ◌*◌, ◌/◌, ◌%◌, ◌<◌, ◌≡◌, refl, ap, ◌∙◌, ℤ, pos, negsuc, neg_ℤ, Bool, true, false, ◌==◌,
  if◌then◌else◌, bit_and, arith, Bool-cases, inl, inr,
}
use horizon_oc.Prelude.Bits.{bit_and_one}
use horizon_oc.Prelude.Bits.Masks.{bit_and-ones, bit_and-field}
use horizon_oc.Soctherm.Tables.{sensor_temp1, sensor_temp2}
use horizon_oc.Soctherm.Calibration.{Registers}
use horizon_oc.Soctherm.Sensors.{
  Soctherm, TSensorTemps, translate_temp, read_sensors, start_sensors, is_disabled_through_sleep,
  is_sensor_enabled,
}

-- A temperature in half degrees, and what stands for it in the half of a register.
pub record Reading : Type 0 where
  pub halves : ℕ
  pub below_zero : Bool
  pub small : halves < 512

abbrev pub code : Reading → ℕ
code t = t.halves / 2 * 256 + t.halves % 2 * 128 + (if t.below_zero then 1 else 0)

abbrev pub millis : Reading → ℤ
millis t = if t.below_zero then neg_ℤ (pos (500 * t.halves)) else pos (500 * t.halves)

-- The parts of the word, without its masks.
translate_temp-parts :
    (val : ℕ)
    → val < 65536
    → translate_temp val ≡ (
        let whole = 1000 * (val / 256) + 500 * (val / 128 % 2) in
        if val % 2 == 1 then neg_ℤ (pos whole) else pos whole)
unfolding translate_temp
translate_temp-parts val small =
    let high : bit_and val 0xff00 ≡ val / 256 % 256 * 256 = bit_and-field 8 8 val in
    let half : bit_and val 128 ≡ val / 128 % 2 * 128 = bit_and-field 7 1 val in
    rw (high, half, bit_and_one val) (ground arith)

code-small : (t : Reading) → code t < 65536
code-small t = ground (arith, t.small)

module _ (h : ℕ) (small : h < 512) where
  parts_code :
      (below : Bool) (val : ℕ)
      → val ≡ h / 2 * 256 + h % 2 * 128 + (if below then 1 else 0)
      → (let whole = 1000 * (val / 256) + 500 * (val / 128 % 2) in
          if val % 2 == 1 then neg_ℤ (pos whole) else pos whole)
        ≡ (if below then neg_ℤ (pos (500 * h)) else pos (500 * h))
  parts_code true val e =
      let odd : val % 2 ≡ 1 = omega arith in
      let same : 1000 * (val / 256) + 500 * (val / 128 % 2) ≡ 500 * h = omega arith in
      rw (odd, same) refl
  parts_code false val e =
      let even : val % 2 ≡ 0 = omega arith in
      let same : 1000 * (val / 256) + 500 * (val / 128 % 2) ≡ 500 * h = omega arith in
      rw (even, same) refl

translate_temp-code : (t : Reading) → translate_temp (code t) ≡ millis t
translate_temp-code t =
    translate_temp-parts (code t) (code-small t)
    ∙ parts_code t.halves t.small t.below_zero (code t) refl

-- The registers hold what the sensors of the chip have measured.
pub record Holds (r : Registers) (cpu gpu mem pllx : Reading) : Type 0 where
  pub temp1 : r sensor_temp1 ≡ code cpu * 65536 + code gpu
  pub temp2 : r sensor_temp2 ≡ code mem * 65536 + code pllx

upper : (a b w : ℕ) → w ≡ a * 65536 + b → b < 65536 → w / 65536 ≡ a
upper a b w e h = omega arith

lower : (a b w : ℕ) → w ≡ a * 65536 + b → b < 65536 → bit_and w 0xffff ≡ b
lower a b w e h = bit_and-ones 16 w ∙ omega arith

-- The registers that `ReadSensors` reads: those it found, or those after a start.
read_from : Soctherm → Registers
read_from t =
    if is_sensor_enabled t.soctherm
    then t.soctherm
    else start_sensors t.is_mariko t.calib t.soctherm

read_from-keeps :
    (t : Soctherm)
    → (read_from t sensor_temp1 ≡ t.soctherm sensor_temp1)
      × (read_from t sensor_temp2 ≡ t.soctherm sensor_temp2)
      × (is_sensor_enabled (read_from t) ≡ true)
unfolding read_from start_sensors
read_from-keeps t = elim (Bool-cases (is_sensor_enabled t.soctherm)) [
  | inl on ↦ rw on (refl, refl, on)
  | inr off ↦ elim (Bool-cases t.is_mariko) [
    | inl mariko ↦ rw (off, mariko) (refl, refl, refl)
    | inr erista ↦ rw (off, erista) (refl, refl, refl)
  ]
]

-- While the clock of the sensors runs, `ReadSensors` gives the four temperatures that the registers
-- hold, that of the memory on Erista only, and the sensors are enabled afterwards, whether they were
-- before or not.
pub read_sensors-millis :
    (is_erista : Bool) (t : Soctherm) (temps : TSensorTemps) (cpu gpu mem pllx : Reading)
    → is_disabled_through_sleep t.car ≡ false
    → Holds t.soctherm cpu gpu mem pllx
    → ((read_sensors is_erista t temps).1 ≡ record {
      cpu = millis cpu;
      gpu = millis gpu;
      mem = if is_erista then millis mem else negsuc 0;
      pllx = millis pllx;
    })
      × (is_sensor_enabled (read_sensors is_erista t temps).0.soctherm ≡ true)
unfolding read_sensors read_from
read_sensors-millis is_erista t temps cpu gpu mem pllx runs holds =
    let (keeps1, keeps2, on) = read_from-keeps t in
    let c =
      ap translate_temp (upper (code cpu) (code gpu) _ (keeps1 ∙ holds.temp1) (code-small gpu))
      ∙ translate_temp-code cpu in
    let g =
      ap translate_temp (lower (code cpu) (code gpu) _ (keeps1 ∙ holds.temp1) (code-small gpu))
      ∙ translate_temp-code gpu in
    let m =
      ap translate_temp (upper (code mem) (code pllx) _ (keeps2 ∙ holds.temp2) (code-small pllx))
      ∙ translate_temp-code mem in
    let p =
      ap translate_temp (lower (code mem) (code pllx) _ (keeps2 ∙ holds.temp2) (code-small pllx))
      ∙ translate_temp-code pllx in
    rw runs (rw (c, g, m, p) refl, on)
