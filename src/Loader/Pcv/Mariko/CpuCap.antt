-- ===== src/Loader/Pcv/Mariko/CpuCap.antt =====
-- The cap of the CPU clock.
use horizon_oc.Prelude.{All, ℕ, ◌≤◌, ◌<◌, ◌≡◌, ◌⊎◌, arith, [], ◌∷◌, List}
use horizon_oc.Loader.Customize.{CustomizeTable}
use horizon_oc.Loader.Pcv.Mariko.{cap_loop, cap_cpu_clock, allowed_cpu_max_frequencies}

-- One of the allowed frequencies.
abbrev pub IsOneOf : ℕ → List ℕ → Type 0
IsOneOf freq [] = ⊥
IsOneOf freq (x ∷ xs) = (freq ≡ x) ⊎ IsOneOf freq xs

-- The cap is an allowed frequency: the highest that does not pass the setting, or the lowest of all
-- when the setting is below it.
pub cap_cpu_clock-IsHighest :
    (c : CustomizeTable)
    → IsOneOf (cap_cpu_clock c) allowed_cpu_max_frequencies
      × ((cap_cpu_clock c ≤ c.mariko_cpu_max_clock)
          ⊎ ((c.mariko_cpu_max_clock < 1963500) × (cap_cpu_clock c ≡ 1963500)))
      × All
          (λ freq. freq ≤ c.mariko_cpu_max_clock → freq ≤ cap_cpu_clock c)
          allowed_cpu_max_frequencies
unfolding cap_cpu_clock cap_loop
cap_cpu_clock-IsHighest c = ground arith
