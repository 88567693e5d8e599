-- ===== src/Board/Volt/Vmin.antt =====
-- The bounds and the monotony of `GetMinimumGpuVmin`.
use horizon_oc.Prelude.{◌<◌, ◌≡◌, ◌⊎◌, ℕ, ◌≤◌, List, [], ◌∷◌, arith}
use horizon_oc.Board.Volt.{vmin_loop, ram_table, gpu_volt_array, get_minimum_gpu_vmin}

-- Voltages in rising order, from `low` to 800.
abbrev IsScale : ℕ → List ℕ → Type 0
IsScale low [] = low ≤ 800
IsScale low (v ∷ vs) = (low ≤ v) × IsScale v vs

scale_top : (low : ℕ) (vs : List ℕ) → IsScale low vs → low ≤ 800
scale_top low [] h = h
scale_top low (v ∷ vs) h = omega (arith, h.0, scale_top v vs h.1)

loop_low : (low freq : ℕ) (fs vs : List ℕ) → IsScale low vs → low ≤ vmin_loop freq fs vs
unfolding vmin_loop
loop_low low freq [] vs h = scale_top low vs h
loop_low low freq (f ∷ fs) [] h = h
loop_low low freq (f ∷ fs) (v ∷ vs) h = ground (arith, h.0, loop_low v freq fs vs h.1)

loop_high : (low freq : ℕ) (fs vs : List ℕ) → IsScale low vs → vmin_loop freq fs vs ≤ 800
unfolding vmin_loop
loop_high low freq [] vs h = omega arith
loop_high low freq (f ∷ fs) [] h = omega arith
loop_high low freq (f ∷ fs) (v ∷ vs) h =
    ground (arith, scale_top v vs h.1, loop_high v freq fs vs h.1)

loop_mono :
    (low a b : ℕ) (fs vs : List ℕ) → IsScale low vs → a ≤ b → vmin_loop a fs vs ≤ vmin_loop b fs vs
unfolding vmin_loop
loop_mono low a b [] vs h le = omega arith
loop_mono low a b (f ∷ fs) [] h le = omega arith
loop_mono low a b (f ∷ fs) (v ∷ vs) h le =
    ground (arith, loop_low v b fs vs h.1, loop_mono v a b fs vs h.1 le)

volts-IsScale : IsScale 590 gpu_volt_array
unfolding gpu_volt_array
volts-IsScale = ground arith

-- The least voltage for a memory clock is 0 up to 1600 MHz and lies in 590 to 800 mV above, and it
-- does not fall when the clock rises, whatever the bracket of the chip.
pub get_minimum_gpu_vmin_mono :
    (a b bracket : ℕ)
    → a ≤ b
    → (get_minimum_gpu_vmin a bracket ≤ get_minimum_gpu_vmin b bracket)
      × ((get_minimum_gpu_vmin a bracket ≡ 0)
          ⊎ ((1600 < a)
              × (590 ≤ get_minimum_gpu_vmin a bracket)
              × (get_minimum_gpu_vmin a bracket ≤ 800)))
unfolding get_minimum_gpu_vmin
get_minimum_gpu_vmin_mono a b bracket le =
    let low = loop_low 590 a (ram_table bracket) gpu_volt_array volts-IsScale in
    let high = loop_high 590 a (ram_table bracket) gpu_volt_array volts-IsScale in
    let mono = loop_mono 590 a b (ram_table bracket) gpu_volt_array volts-IsScale le in
    (ground (arith, mono), ground (arith, low, high))
