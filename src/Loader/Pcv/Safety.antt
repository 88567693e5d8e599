-- ===== src/Loader/Pcv/Safety.antt =====
-- `SafetyCheck` of oc/pcv/pcv.cpp: the settings that may harm the hardware lie within bounds.
pub mod Bounds
use horizon_oc.Prelude.{
  ltb, truthy, not, ◌&&◌, if◌then◌else◌, ℕ, Bool, true, false, Option, none, some, List, [], ◌∷◌,
  max,
}
use horizon_oc.Loader.Customize.{CustomizeTable}
use horizon_oc.Loader.Patcher.{Result, success, safety_check_failure, succeeded}
use horizon_oc.Loader.Pcv.Tables.{last_freq, mariko_cpu_table, mariko_gpu_table, erista_gpu_table}

-- `sValidator`, less the colour of the panic.
pub record Validator : Type 0 where
  pub value : ℕ
  pub min : ℕ
  pub max : ℕ
  pub value_required : Bool

abbrev pub validator : ℕ → ℕ → ℕ → Bool → Validator
validator value least most required = record {
  value = value;
  min = least;
  max = most;
  value_required = required;
}

-- `check`.
unfoldable pub check : Validator → Result
check v =
    if not v.value_required && not (truthy v.value)
    then success
    else if truthy v.min && ltb v.value v.min
    then safety_check_failure
    else if truthy v.max && ltb v.max v.value
    then safety_check_failure
    else success

-- `GET_MAX_OF_ARR(erista::maxEmcClocks)`.
abbrev pub erista_max_emc_clock : CustomizeTable → ℕ
erista_max_emc_clock c =
    max (max c.erista_emc_max_clock2 c.erista_emc_max_clock1) c.erista_emc_max_clock

-- The list of `SafetyCheck`, from the last frequencies of the four tables.
unfoldable pub validator_list : CustomizeTable → (ℕ × ℕ) × (ℕ × ℕ) → List Validator
validator_list c ((erista_cpu, mariko_cpu), (erista_gpu, mariko_gpu)) =
    validator c.erista_cpu_boost_clock 1020000 2397000 true
    ∷ validator c.mariko_cpu_boost_clock 1020000 2703000 true
    ∷ validator c.erista_cpu_max_volt 1000 1260 false
    ∷ validator c.mariko_cpu_max_volt 1000 1200 false
    ∷ validator erista_cpu 1785000 2397000 false
    ∷ validator mariko_cpu 1785000 2703000 false
    ∷ validator c.common_emc_mem_volt 912500 1350000 false
    ∷ validator (erista_max_emc_clock c) 1600000 2600000 false
    ∷ validator c.mariko_emc_max_clock 1600000 3500000 false
    ∷ validator c.mariko_emc_vddq_volt 250000 700000 false
    ∷ validator erista_gpu 768000 1152000 false
    ∷ validator mariko_gpu 768000 1536000 false
    ∷ validator c.mariko_gpu_vmax 800 960 false
    ∷ []

-- Two reads, of which each can fail.
abbrev pub both {ℓ κ} : {A : Type ℓ} {B : Type κ} → Option A → Option B → Option (A × B)
both none b = none
both (some a) none = none
both (some a) (some b) = some (a, b)

-- The last frequencies; `none` is a read of the last entry of an empty table.
unfoldable pub last_freqs : CustomizeTable → Option ((ℕ × ℕ) × (ℕ × ℕ))
last_freqs c =
    both (both (last_freq c.erista_cpu_dvfs_table) (last_freq (mariko_cpu_table c)))
      (both (last_freq (erista_gpu_table c)) (last_freq (mariko_gpu_table c)))

-- The loop over the list.
abbrev pub all_pass : List Validator → Bool
all_pass [] = true
all_pass (v ∷ vs) = succeeded (check v) && all_pass vs

-- `SafetyCheck`: whether it returns.
unfoldable pub safety_check : CustomizeTable → Bool
unfolding check validator_list last_freqs
safety_check c = elim (last_freqs c) [
  | some freqs ↦ all_pass (validator_list c freqs)
  | none ↦ false
]
