-- ===== src/Soctherm/Calibration.antt =====
-- soctherm.cpp: what a sensor is calibrated with, from the fuses of the chip.
pub mod Rounding
use horizon_oc.Prelude.{
  u32, if◌then◌else◌, truthy, ℤ, pos, negsuc, signed32, signed16, word16, word32, quot_ℤ, shr_ℤ,
  ◌+ℤ◌, ◌-ℤ◌, ◌*ℤ◌, ℕ, suc, ◌+◌, ◌-◌, ◌*◌, ◌/◌, ◌%◌, ◌^◌, bit_and, bit_or,
}
use horizon_oc.Soctherm.Tables.{TSensorConfig, FuseCorrCoeff, TSensorFuse}

-- What the registers hold at an offset.
abbrev pub Registers : Type 0
Registers = ℕ → ℕ

pub record TSensorSharedCalib : Type 0 where
  pub base_cp : ℕ
  pub base_ft : ℕ
  pub actual_temp_cp : ℕ
  pub actual_temp_ft : ℕ

unfoldable pub sign_extend32 : ℕ → ℕ → ℤ
sign_extend32 value index = shr_ℤ (signed32 (u32 (value * 2 ^ (31 - index)))) (31 - index)

-- What an `s32` or an `int` holds of a number.
abbrev pub wrap32 : ℤ → ℤ
wrap32 (pos n) = signed32 (u32 n)
wrap32 (negsuc n) = signed32 (2 ^ 32 - suc (n % 2 ^ 32))

-- The divisor `2 * b` has 32 bits. A division by 0 gives 0, as that of the processor does.
unfoldable pub div64_s64_precise : ℤ → ℤ → ℤ
unfolding ◌+ℤ◌ ◌*ℤ◌
div64_s64_precise a b =
    let al = a *ℤ pos (2 ^ 16) in shr_ℤ (quot_ℤ (al *ℤ pos 2 +ℤ pos 1) (wrap32 (pos 2 *ℤ b))) 16

unfoldable pub calc_shared_cal : TSensorFuse → Registers → TSensorSharedCalib
unfolding sign_extend32 ◌+ℤ◌
calc_shared_cal f fuse =
    let val = fuse 0xA80 in
    let shifted_ft =
      sign_extend32 (bit_and val f.fuse_shift_ft_mask / 2 ^ f.fuse_shift_ft_shift) 4 in
    let spare =
      if truthy f.fuse_spare_realignment then fuse (f.fuse_spare_realignment + 0x800) else val in
    record {
      base_cp = bit_and val f.fuse_base_cp_mask / 2 ^ f.fuse_base_cp_shift;
      base_ft = bit_and val f.fuse_base_ft_mask / 2 ^ f.fuse_base_ft_shift;
      actual_temp_cp = word32 (pos (2 * 25) +ℤ sign_extend32 spare 5);
      actual_temp_ft = word32 (pos (2 * 105) +ℤ shifted_ft);
    }

-- A result that is kept in an `s16`.
abbrev pub wrap16 : ℤ → ℤ
wrap16 x = signed16 (word16 x)

-- `actual_tsensor_cp` and `actual_tsensor_ft`, which are added up as a `u32`.
abbrev pub tsensor_sum : ℕ → ℕ → ℤ
tsensor_sum base val = signed32 (u32 (base + word32 (sign_extend32 val 12)))

-- THERMA and THERMB before the correction.
unfoldable pub raw_therm : TSensorConfig → TSensorSharedCalib → ℕ → ℤ × ℤ
unfolding sign_extend32 div64_s64_precise ◌-ℤ◌ ◌*ℤ◌
raw_therm cfg shared val =
    let cp = tsensor_sum (shared.base_cp * 64) val in
    let ft = tsensor_sum (shared.base_ft * 32) (bit_and val (0x1fff * 2 ^ 13) / 2 ^ 13) in
    let delta_sens = ft -ℤ cp in
    let delta_temp = signed32 (u32 (shared.actual_temp_ft + (2 ^ 32 - shared.actual_temp_cp))) in
    let mult = cfg.pdiv * cfg.tsample_ate in
    let div = cfg.tsample * cfg.pdiv_ate in
    (
      wrap16 (div64_s64_precise (delta_temp *ℤ pos (2 ^ 13) *ℤ pos mult) (delta_sens *ℤ pos div)),
      wrap16 (
          div64_s64_precise (ft *ℤ pos shared.actual_temp_cp -ℤ cp *ℤ pos shared.actual_temp_ft)
            delta_sens),
    )

unfoldable pub calc_t_sensor_calib :
    TSensorConfig → TSensorSharedCalib → FuseCorrCoeff → ℕ → Registers → ℕ
unfolding raw_therm div64_s64_precise ◌+ℤ◌ ◌*ℤ◌
calc_t_sensor_calib cfg shared corr offset fuse =
    let (a, b) = raw_therm cfg shared (fuse (offset + 0x800)) in
    let therma = wrap16 (div64_s64_precise (a *ℤ corr.alpha) (pos 1000000)) in
    let thermb = wrap16 (div64_s64_precise (b *ℤ corr.alpha +ℤ corr.beta) (pos 1000000)) in
    bit_or (word16 therma * 2 ^ 16) (word16 thermb)
