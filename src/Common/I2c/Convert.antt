-- ===== src/Common/I2c/Convert.antt =====
-- common/src/i2c.cpp: the numbers that stand for voltages and currents in the registers.
use horizon_oc.Prelude.{
  truthy, ltb, leb, if◌then◌else◌, u8, u32, ℕ, ◌+◌, ◌-◌, ◌*◌, ◌/◌, ◌%◌, ◌^◌, bit_and, bit_or, List,
  [], ◌∷◌,
}

-- `I2c_BuckConverter_Domain`; a device is a number.
pub record Domain : Type 0 where
  pub device : ℕ
  pub reg : ℕ
  pub volt_mask : ℕ
  pub uv_step : ℕ
  pub uv_min : ℕ
  pub uv_max : ℕ
  pub por_val : ℕ

abbrev pub domain : ℕ → ℕ → ℕ → ℕ → ℕ → ℕ → ℕ → Domain
domain device reg mask step least most por = record {
  device = device;
  reg = reg;
  volt_mask = mask;
  uv_step = step;
  uv_min = least;
  uv_max = most;
  por_val = por;
}

-- The domains, for the numbers of the devices Max77621Cpu, Max77621Gpu, Max77620Pmic, Max77812_2.
abbrev pub domains : ℕ → ℕ → ℕ → ℕ → List Domain
domains cpu gpu pmic phases =
    domain cpu 0x00 0x7F 6250 606250 1400000 0
    ∷ domain gpu 0x00 0x7F 6250 606250 1400000 0
    ∷ domain pmic 0x17 0x3F 12500 600000 1250000 0
    ∷ domain pmic 0x23 0x7F 25000 800000 1325000 0
    ∷ domain phases 0x26 0xFF 5000 250000 1525000 0x78
    ∷ domain phases 0x23 0xFF 5000 250000 1525000 0x78
    ∷ domain phases 0x25 0xFF 5000 250000 700000 0x78
    ∷ domain pmic 0x17 0x7F 12500 600000 1250000 0
    ∷ []

unfoldable pub multiplier_to_mv_out : Domain → ℕ → ℕ
multiplier_to_mv_out d multiplier = u32 (d.uv_min + d.uv_step * multiplier) / 1000

unfoldable pub mv_out_to_multiplier : Domain → ℕ → ℕ
mv_out_to_multiplier d mvolt =
    let uvolt = u32 (mvolt * 1000) in
    let raised = if ltb uvolt d.uv_min then d.uv_min else uvolt in
    let lowered = if ltb d.uv_max raised then d.uv_max else raised in
    u8 ((lowered - d.uv_min) / d.uv_step)

-- The value of the register with the bits of the voltage replaced.
abbrev pub merged : Domain → ℕ → ℕ → ℕ
merged d val mvolt =
    bit_or (bit_and val (255 - d.volt_mask)) (bit_and (mv_out_to_multiplier d mvolt) d.volt_mask)

-- The lowest and the highest current that the charger takes.
abbrev pub ma_range_min : ℕ
ma_range_min = 512

abbrev pub ma_range_max : ℕ
ma_range_max = 4544

-- The difference wraps below 448 mA.
unfoldable pub convert_ma_raw : ℕ → ℕ
convert_ma_raw asked =
    let ma = if ltb ma_range_max asked then ma_range_max else asked in
    let pct20 = leb ma (ma_range_min - 64) in
    let scaled = if pct20 then ma * 5 else ma in
    let hundreds = scaled - scaled % 100 in
    let above = u32 (hundreds + (2 ^ 32 - (ma_range_min - 64))) in
    u8 (bit_or (if pct20 then 1 else 0) (u32 (above / 2 ^ 6 * 2 ^ 2)))

unfoldable pub convert_raw_ma : ℕ → ℕ
convert_raw_ma raw =
    let ma = raw / 2 ^ 2 * 2 ^ 6 + ma_range_min in
    if truthy (bit_and raw 1) then ma * 20 / 100 else ma
