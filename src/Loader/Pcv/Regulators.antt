-- ===== src/Loader/Pcv/Regulators.antt =====
-- The patches of the memory clock limit and of the memory voltages: `MemFreqPllmLimit` and
-- `MemVoltHandler` of oc/pcv/pcv.cpp, `EmcVddqVolt` of oc/pcv/pcv_mariko.cpp. The I2C service is a
-- parameter: whether a byte can be written to a register of the regulator.
pub mod InRange
use horizon_oc.Prelude.{
  ◌==◌, truthy, if◌then◌else◌, u8, u32, ℕ, ◌+◌, ◌-◌, ◌*◌, ◌/◌, ◌%◌, ◌^◌, Bool, ◌&&◌, ◌||◌, not,
}
use horizon_oc.Loader.Memory.{Memory, patch_offset}
use horizon_oc.Loader.Customize.{CustomizeTable}
use horizon_oc.Loader.Patcher.{
  PatcherFn, success, invalid_mem_pllm_entry, invalid_regulator_entry, i2c_failure,
}

-- `MemFreqPllmLimit` on a `clk_pll_param`, whose `vco_max` is word 6.
unfoldable pub mem_freq_pllm_limit : PatcherFn
mem_freq_pllm_limit ptr m =
    let max_clk = u32 (m ptr * 2) in
    if not (m ptr == m (ptr + 6))
    then (invalid_mem_pllm_entry, m)
    else (success, patch_offset (ptr + 6) max_clk (patch_offset ptr max_clk m))

-- The `validator` of `MemVoltHandler` on a regulator; its `id` has 64 bits.
abbrev pub is_mem_regulator : ℕ → Memory → Bool
is_mem_regulator entry m =
    (m entry == 1)
    && (m (entry + 1) == 0)
    && (m (entry + 4) == 1)
    && (m (entry + 5) == 0x17)
    && (m (entry + 6) == 12500)
    && (m (entry + 7) == 600000)

-- The voltage that `MemVoltHandler` writes, in steps of 12.5 mV.
abbrev pub mem_volt : CustomizeTable → ℕ
mem_volt c =
    let emc_uv = c.common_emc_mem_volt in
    if truthy (emc_uv % 12500) then emc_uv / 12500 * 12500 else emc_uv

-- `MemVoltHandler`: the pointer is `default_uv` or `max_uv` of the regulator.
unfoldable pub mem_volt_handler : CustomizeTable → PatcherFn
mem_volt_handler c ptr m =
    if not (is_mem_regulator (ptr - 8) m || is_mem_regulator (ptr - 9) m)
    then (invalid_regulator_entry, m)
    else if not (truthy c.common_emc_mem_volt)
    then (success, m)
    else (success, patch_offset ptr (mem_volt c) m)

-- The `validator` of `EmcVddqVolt`.
abbrev pub is_vddq_regulator : ℕ → Memory → Bool
is_vddq_regulator entry m =
    (m entry == 2)
    && (m (entry + 1) == 0)
    && (m (entry + 4) == 3)
    && (m (entry + 6) == 5000)
    && (m (entry + 8) == 250000)

-- The voltage that `EmcVddqVolt` writes, in steps of 5 mV.
abbrev pub vddq_volt : CustomizeTable → ℕ
vddq_volt c =
    let emc_uv = c.mariko_emc_vddq_volt in
    if truthy (emc_uv % 5000) then u32 (u32 (emc_uv + 5000 - 1) / 5000 * 5000) else emc_uv

-- The byte for the regulator.
abbrev pub vddq_step : CustomizeTable → ℕ
vddq_step c = u8 (u32 (vddq_volt c + 2 ^ 32 - 250000) / 5000)

-- `EmcVddqVolt`; the pointer is `default_uv` of the regulator.
unfoldable pub emc_vddq_volt : (ℕ → ℕ → Bool) → CustomizeTable → PatcherFn
emc_vddq_volt i2c_set_u8 c ptr m =
    if not (is_vddq_regulator (ptr - 11) m)
    then (invalid_regulator_entry, m)
    else if not (truthy c.mariko_emc_vddq_volt)
    then (success, m)
    else (
      if i2c_set_u8 0x25 (vddq_step c) then success else i2c_failure,
      patch_offset ptr (vddq_volt c) m,
    )
