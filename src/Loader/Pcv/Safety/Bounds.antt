-- ===== src/Loader/Pcv/Safety/Bounds.antt =====
-- What a passed `SafetyCheck` promises.
use horizon_oc.Prelude.{
  ℕ, ◌≤◌, ◌≡◌, ◌⊎◌, inl, inr, true, false, Option, none, some, List, [], ◌∷◌, arith, All,
  Option-cases, ap, ◌<◌, Bool-cases,
}
use mathlib.Core.Option.{some-injective, none-ne-some}
use horizon_oc.Loader.Customize.{CustomizeTable, CvbEntry}
use horizon_oc.Loader.Patcher.{succeeded}
use horizon_oc.Loader.Pcv.Tables.{last_freq, mariko_cpu_table, mariko_gpu_table, erista_gpu_table}
use horizon_oc.Loader.Pcv.Safety.{
  Validator, both, check, erista_max_emc_clock, validator, validator_list, last_freqs, all_pass,
  safety_check,
}

-- The value lies within the bounds, of which 0 is none, or is 0 and not required.
abbrev pub Accepts : Validator → Type 0
Accepts v =
    ((v.value_required ≡ false) × (v.value ≡ 0))
    ⊎ (((v.min ≡ 0) ⊎ (v.min ≤ v.value)) × ((v.max ≡ 0) ⊎ (v.value ≤ v.max)))

check-Accepts : (v : Validator) → succeeded (check v) ≡ true → Accepts v
unfolding check
check-Accepts v h = ground (arith, h)

all_pass-All : (vs : List Validator) → all_pass vs ≡ true → All Accepts vs
all_pass-All [] h = tt
all_pass-All (v ∷ vs) h = elim (Bool-cases (succeeded (check v))) [
  | inl ok ↦ (check-Accepts v ok, all_pass-All vs (rw ok at h))
  | inr bad ↦ ground (arith, h, bad)
]

-- 0, which leaves the default, or a value within bounds.
abbrev pub Within : ℕ → ℕ → ℕ → Type 0
Within low high value = (value ≡ 0) ⊎ ((low ≤ value) × (value ≤ high))

-- The table has a last entry, and its frequency in kHz lies within bounds.
abbrev pub EndsWithin : ℕ → ℕ → List CvbEntry → Type 0
EndsWithin low high table = (freq : ℕ) × (last_freq table ≡ some freq) × Within low high freq

-- Settings whose clocks (kHz) and voltages (mV or µV) lie within bounds.
pub record IsSafe (c : CustomizeTable) : Type 0 where
  pub erista_boost : (1020000 ≤ c.erista_cpu_boost_clock) × (c.erista_cpu_boost_clock ≤ 2397000)
  pub mariko_boost : (1020000 ≤ c.mariko_cpu_boost_clock) × (c.mariko_cpu_boost_clock ≤ 2703000)
  pub erista_cpu_volt : Within 1000 1260 c.erista_cpu_max_volt
  pub mariko_cpu_volt : Within 1000 1200 c.mariko_cpu_max_volt
  pub erista_cpu : EndsWithin 1785000 2397000 c.erista_cpu_dvfs_table
  pub mariko_cpu : EndsWithin 1785000 2703000 (mariko_cpu_table c)
  pub mem_volt : Within 912500 1350000 c.common_emc_mem_volt
  pub erista_emc : Within 1600000 2600000 (erista_max_emc_clock c)
  pub mariko_emc : Within 1600000 3500000 c.mariko_emc_max_clock
  pub vddq_volt : Within 250000 700000 c.mariko_emc_vddq_volt
  pub erista_gpu : EndsWithin 768000 1152000 (erista_gpu_table c)
  pub mariko_gpu : EndsWithin 768000 1536000 (mariko_gpu_table c)
  pub gpu_vmax : Within 800 960 c.mariko_gpu_vmax

-- The tables that have been read.
record AreLast (c : CustomizeTable) (freqs : (ℕ × ℕ) × (ℕ × ℕ)) : Type 0 where
  erista_cpu : last_freq c.erista_cpu_dvfs_table ≡ some freqs.0.0
  mariko_cpu : last_freq (mariko_cpu_table c) ≡ some freqs.0.1
  erista_gpu : last_freq (erista_gpu_table c) ≡ some freqs.1.0
  mariko_gpu : last_freq (mariko_gpu_table c) ≡ some freqs.1.1

both-some {ℓ κ} :
    {A : Type ℓ} {B : Type κ} (o : Option A) (p : Option B) (r : A × B)
    → both o p ≡ some r
    → (o ≡ some r.0) × (p ≡ some r.1)
both-some none p r e = absurd (none-ne-some r e)
both-some (some a) none r e = absurd (none-ne-some r e)
both-some (some a) (some b) r e =
    let same = some-injective (a, b) r e in (ap (λ x. some x.0) same, ap (λ x. some x.1) same)

last_freqs-AreLast :
    (c : CustomizeTable) (freqs : (ℕ × ℕ) × (ℕ × ℕ)) → last_freqs c ≡ some freqs → AreLast c freqs
unfolding last_freqs
last_freqs-AreLast c freqs e =
    let (cpu, gpu) = both-some _ _ freqs e in
    let (ec, mc) = both-some _ _ freqs.0 cpu in
    let (eg, mg) = both-some _ _ freqs.1 gpu in
    record { erista_cpu = ec; mariko_cpu = mc; erista_gpu = eg; mariko_gpu = mg }

-- Bounds that are not 0.
bounded :
    (value low high : ℕ)
    → 0 < low
    → low ≤ high
    → Accepts (validator value low high false)
    → Within low high value
bounded value low high h k a = omega (arith, a)

required :
    (value low high : ℕ)
    → 0 < low
    → low ≤ high
    → Accepts (validator value low high true)
    → (low ≤ value) × (value ≤ high)
required value low high h k (inl a) = ground (arith, a)
required value low high h k (inr a) = omega (arith, a)

safety_check-passed :
    (c : CustomizeTable) (freqs : (ℕ × ℕ) × (ℕ × ℕ))
    → safety_check c ≡ true
    → last_freqs c ≡ some freqs
    → all_pass (validator_list c freqs) ≡ true
unfolding safety_check
safety_check-passed c freqs h e = ground (arith, h, e)

-- If `SafetyCheck` returns, then every clock and voltage of the settings that it looks at lies
-- within its bounds, or is 0 where that leaves the default, and none of the tables is empty.
pub safety_check-IsSafe : (c : CustomizeTable) → safety_check c ≡ true → IsSafe c
unfolding safety_check validator_list
safety_check-IsSafe c h = elim (Option-cases (last_freqs c)) [
  | inl e ↦ ground (arith, h, e)
  | inr (freqs, e) ↦
      let last = last_freqs-AreLast c freqs e in
      let all : All Accepts (validator_list c freqs) =
        all_pass-All (validator_list c freqs) (safety_check-passed c freqs h e) in
      record {
        erista_boost = required _ _ _ (omega arith) (omega arith) all.0;
        mariko_boost = required _ _ _ (omega arith) (omega arith) all.1.0;
        erista_cpu_volt = bounded _ _ _ (omega arith) (omega arith) all.1.1.0;
        mariko_cpu_volt = bounded _ _ _ (omega arith) (omega arith) all.1.1.1.0;
        erista_cpu = (_, last.erista_cpu, bounded _ _ _ (omega arith) (omega arith) all.1.1.1.1.0);
        mariko_cpu =
            (_, last.mariko_cpu, bounded _ _ _ (omega arith) (omega arith) all.1.1.1.1.1.0);
        mem_volt = bounded _ _ _ (omega arith) (omega arith) all.1.1.1.1.1.1.0;
        erista_emc = bounded _ _ _ (omega arith) (omega arith) all.1.1.1.1.1.1.1.0;
        mariko_emc = bounded _ _ _ (omega arith) (omega arith) all.1.1.1.1.1.1.1.1.0;
        vddq_volt = bounded _ _ _ (omega arith) (omega arith) all.1.1.1.1.1.1.1.1.1.0;
        erista_gpu = (
          _,
          last.erista_gpu,
          bounded _ _ _ (omega arith) (omega arith) all.1.1.1.1.1.1.1.1.1.1.0,
        );
        mariko_gpu = (
          _,
          last.mariko_gpu,
          bounded _ _ _ (omega arith) (omega arith) all.1.1.1.1.1.1.1.1.1.1.1.0,
        );
        gpu_vmax = bounded _ _ _ (omega arith) (omega arith) all.1.1.1.1.1.1.1.1.1.1.1.1.0;
      }
]
