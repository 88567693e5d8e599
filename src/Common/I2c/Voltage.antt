-- ===== src/Common/I2c/Voltage.antt =====
-- The voltage that a regulator is set to, and what is read back.
use horizon_oc.Prelude.{ℕ, ◌-◌, ◌/◌, ◌^◌, ◌≤◌, ◌<◌, ◌≡◌, refl, All, bit_and, arith}
use horizon_oc.Common.I2c.Convert.{Domain, domains}

-- The range of a domain in its steps fits into its mask.
pub record IsDomain (d : Domain) : Type 0 where
  pub width : ℕ
  pub mask : d.volt_mask ≡ 2 ^ width - 1
  pub apart : bit_and (255 - d.volt_mask) d.volt_mask ≡ 0
  pub step : 0 < d.uv_step
  pub rises : d.uv_min ≤ d.uv_max
  pub small : d.uv_max < 4294967296
  pub fits : (d.uv_max - d.uv_min) / d.uv_step < 2 ^ width
  pub byte : 2 ^ width ≤ 256

in_width :
    (w : ℕ) (d : Domain)
    → d.volt_mask ≡ 2 ^ w - 1
    → bit_and (255 - d.volt_mask) d.volt_mask ≡ 0
    → (0 < d.uv_step)
      × (d.uv_min ≤ d.uv_max)
      × (d.uv_max < 4294967296)
      × ((d.uv_max - d.uv_min) / d.uv_step < 2 ^ w)
      × (2 ^ w ≤ 256)
    → IsDomain d
in_width w d mask apart (step, rises, small, fits, byte) = record {
  width = w;
  mask = mask;
  apart = apart;
  step = step;
  rises = rises;
  small = small;
  fits = fits;
  byte = byte;
}

pub domains-IsDomain : (cpu gpu pmic phases : ℕ) → All IsDomain (domains cpu gpu pmic phases)
domains-IsDomain cpu gpu pmic phases = (
  in_width 7 _ refl refl (omega arith),
  (
    in_width 7 _ refl refl (omega arith),
    (
      in_width 6 _ refl refl (omega arith),
      (
        in_width 7 _ refl refl (omega arith),
        (
          in_width 8 _ refl refl (omega arith),
          (
            in_width 8 _ refl refl (omega arith),
            (in_width 8 _ refl refl (omega arith), (in_width 7 _ refl refl (omega arith), tt)),
          ),
        ),
      ),
    ),
  ),
)
