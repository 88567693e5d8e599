-- ===== src/Loader/Pcv/Regulators/InRange.antt =====
-- The voltages that reach the memory regulators.
use horizon_oc.Prelude.{
  false, Bool, ◌↔◌, if◌then◌else◌, truthy, ℕ, ◌+◌, ◌-◌, ◌*◌, ◌%◌, ◌≤◌, ◌<◌, ==_iff, ◌≢◌, ◌≡◌, ◌⊎◌,
  inl, inr, refl, true, ◌||◌, not, Bool-cases, arith,
}
use horizon_oc.Loader.Memory.{Memory}
use horizon_oc.Loader.Customize.{CustomizeTable}
use horizon_oc.Loader.Patcher.{success, i2c_failure, succeeded}
use horizon_oc.Loader.Pcv.Safety.{safety_check}
use horizon_oc.Loader.Pcv.Safety.Bounds.{safety_check-IsSafe}
use horizon_oc.Loader.Pcv.Regulators.{
  emc_vddq_volt, is_vddq_regulator, mem_volt, mem_volt_handler, is_mem_regulator, vddq_volt,
  vddq_step,
}

-- A voltage in steps from 0, within bounds, at most one step below the setting.
pub record IsMemVolt (setting volt : ℕ) : Type 0 where
  pub steps : volt % 12500 ≡ 0
  pub low : 912500 ≤ volt
  pub high : volt ≤ 1350000
  pub below : volt ≤ setting
  pub near : setting < volt + 12500

mem_volt-IsMemVolt :
    (c : CustomizeTable)
    → 912500 ≤ c.common_emc_mem_volt
    → c.common_emc_mem_volt ≤ 1350000
    → IsMemVolt c.common_emc_mem_volt (mem_volt c)
mem_volt-IsMemVolt c lo hi = record {
  steps = ground arith;
  low = ground arith;
  high = ground arith;
  below = ground arith;
  near = ground arith;
}

-- With settings that pass `SafetyCheck`, `MemVoltHandler` leaves the memory as it is, or writes at
-- its pointer and nowhere else a voltage in steps of 12.5 mV, from 912.5 to 1350 mV, at most one
-- step below the setting.
pub mem_volt_handler-IsMemVolt :
    (c : CustomizeTable) (ptr : ℕ) (m : Memory)
    → safety_check c ≡ true
    → ((a : ℕ) → (mem_volt_handler c ptr m).1 a ≡ m a)
      ⊎ (IsMemVolt c.common_emc_mem_volt ((mem_volt_handler c ptr m).1 ptr)
          × ((a : ℕ) → a ≢ ptr → (mem_volt_handler c ptr m).1 a ≡ m a))
unfolding mem_volt_handler
mem_volt_handler-IsMemVolt c ptr m h =
    elim (Bool-cases (not (is_mem_regulator (ptr - 8) m || is_mem_regulator (ptr - 9) m))) [
      | inl other ↦ rw other (inl (λ a. refl))
      | inr here ↦ elim (safety_check-IsSafe c h).mem_volt [
        | inl unset ↦ rw (here, unset) (inl (λ a. refl))
        | inr (lo, hi) ↦
            let set : truthy c.common_emc_mem_volt ≡ true = ground arith in
            rw (here, set)
              (inr (
                rw ((==_iff ptr ptr).1 refl) (mem_volt-IsMemVolt c lo hi),
                λ a far. ground (arith, far),
              ))
      ]
    ]

-- A voltage in steps from 0, within bounds, less than one step above the setting, and the byte
-- that the regulator takes for it.
pub record IsVddqVolt (setting volt step : ℕ) : Type 0 where
  pub steps : volt % 5000 ≡ 0
  pub low : 250000 ≤ volt
  pub high : volt ≤ 700000
  pub above : setting ≤ volt
  pub near : volt < setting + 5000
  pub same : 250000 + 5000 * step ≡ volt

vddq_volt-IsVddqVolt :
    (c : CustomizeTable)
    → 250000 ≤ c.mariko_emc_vddq_volt
    → c.mariko_emc_vddq_volt ≤ 700000
    → IsVddqVolt c.mariko_emc_vddq_volt (vddq_volt c) (vddq_step c)
vddq_volt-IsVddqVolt c lo hi = record {
  steps = ground arith;
  low = ground arith;
  high = ground arith;
  above = ground arith;
  near = ground arith;
  same = ground arith;
}

i2c_result : (b : Bool) → (succeeded (if b then success else i2c_failure) ≡ true) ↔ (b ≡ true)
i2c_result true = (λ h. h, λ h. h)
i2c_result false = (λ h. h, λ h. h)

-- With settings that pass `SafetyCheck`, `EmcVddqVolt` leaves the memory as it is, or writes at its
-- pointer and nowhere else a voltage in steps of 5 mV, from 250 to 700 mV, less than one step above
-- the setting; it then succeeds exactly when the regulator takes the byte for this voltage.
pub emc_vddq_volt-IsVddqVolt :
    (i2c_set_u8 : ℕ → ℕ → Bool) (c : CustomizeTable) (ptr : ℕ) (m : Memory)
    → safety_check c ≡ true
    → ((a : ℕ) → (emc_vddq_volt i2c_set_u8 c ptr m).1 a ≡ m a)
      ⊎ (IsVddqVolt c.mariko_emc_vddq_volt ((emc_vddq_volt i2c_set_u8 c ptr m).1 ptr) (vddq_step c)
          × ((a : ℕ) → a ≢ ptr → (emc_vddq_volt i2c_set_u8 c ptr m).1 a ≡ m a)
          × ((succeeded (emc_vddq_volt i2c_set_u8 c ptr m).0 ≡ true)
              ↔ (i2c_set_u8 0x25 (vddq_step c) ≡ true)))
unfolding emc_vddq_volt
emc_vddq_volt-IsVddqVolt i2c_set_u8 c ptr m h =
    elim (Bool-cases (not (is_vddq_regulator (ptr - 11) m))) [
      | inl other ↦ rw other (inl (λ a. refl))
      | inr here ↦ elim (safety_check-IsSafe c h).vddq_volt [
        | inl unset ↦ rw (here, unset) (inl (λ a. refl))
        | inr (lo, hi) ↦
            let set : truthy c.mariko_emc_vddq_volt ≡ true = ground arith in
            rw (here, set)
              (inr (
                rw ((==_iff ptr ptr).1 refl) (vddq_volt-IsVddqVolt c lo hi),
                λ a far. ground (arith, far),
                i2c_result (i2c_set_u8 0x25 (vddq_step c)),
              ))
      ]
    ]
