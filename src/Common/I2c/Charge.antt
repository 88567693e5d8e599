-- ===== src/Common/I2c/Charge.antt =====
-- The charge current that the charger is set to.
use horizon_oc.Prelude.{
  ltb, leb, ℕ, ◌+◌, ◌-◌, ◌*◌, ◌/◌, ◌%◌, ◌≤◌, ◌<◌, ◌≡◌, refl, ap, ◌∙◌, ◌⊎◌, inl, inr, true, false,
  arith,
}
use horizon_oc.Prelude.Bits.{zero-bit_or, bit_and_one}
use horizon_oc.Config.Values.{battery_charge_current, valid_config_value}
use horizon_oc.Common.I2c.Convert.{convert_ma_raw, convert_raw_ma}

-- The number for a current from 500 mA on, in steps of four.
convert_ma_raw-steps :
    (ma : ℕ) → 500 ≤ ma → ma ≤ 4544 → convert_ma_raw ma ≡ (ma - ma % 100 - 448) / 64 * 4
unfolding convert_ma_raw
convert_ma_raw-steps ma lo hi =
    let capped : ltb 4544 ma ≡ false = ground arith in
    let whole : leb ma 448 ≡ false = ground arith in rw (capped, whole, zero-bit_or) (omega arith)

convert_raw_ma-steps : (k : ℕ) → convert_raw_ma (k * 4) ≡ 64 * k + 512
unfolding convert_raw_ma
convert_raw_ma-steps k =
    let even : k * 4 % 2 ≡ 0 = omega arith in rw (bit_and_one (k * 4), even) (omega arith)

-- The current that is read back lies within the hundred of the one asked for and 64 mA above.
pub convert-near :
    (ma : ℕ)
    → 500 ≤ ma
    → ma ≤ 4544
    → (ma < convert_raw_ma (convert_ma_raw ma) + 100)
      × (convert_raw_ma (convert_ma_raw ma) ≤ ma + 64)
convert-near ma lo hi =
    let k = (ma - ma % 100 - 448) / 64 in
    let back : convert_raw_ma (convert_ma_raw ma) ≡ 64 * k + 512 =
      ap convert_raw_ma (convert_ma_raw-steps ma lo hi) ∙ convert_raw_ma-steps k in
    (omega (arith, back), omega (arith, back))

-- A charge current that the configuration accepts is 0, or what the charger is then set to lies
-- less than 100 mA below it and at most 64 mA above.
pub charge_current-near :
    (ma : ℕ)
    → valid_config_value battery_charge_current ma ≡ true
    → (ma ≡ 0)
      ⊎ ((ma < convert_raw_ma (convert_ma_raw ma) + 100)
          × (convert_raw_ma (convert_ma_raw ma) ≤ ma + 64))
unfolding valid_config_value
charge_current-near ma h =
    let range : (ma ≡ 0) ⊎ ((500 ≤ ma) × (ma ≤ 4544)) = ground (arith, h) in
    elim range [ inl unset ↦ inl unset | inr (lo, hi) ↦ inr (convert-near ma lo hi) ]

-- A current of 449 to 499 mA becomes the highest, since the difference wraps.
pub convert_wraps : (ma : ℕ) → 448 < ma → ma < 500 → convert_raw_ma (convert_ma_raw ma) ≡ 4544
unfolding convert_ma_raw convert_raw_ma
convert_wraps ma lo hi =
    let capped : ltb 4544 ma ≡ false = ground arith in
    let whole : leb ma 448 ≡ false = ground arith in
    let hundreds : ma - ma % 100 ≡ 400 = omega arith in rw (capped, whole, hundreds) refl
