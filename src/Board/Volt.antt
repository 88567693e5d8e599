-- ===== src/Board/Volt.antt =====
-- hoc-clk/sysmodule/src/board/board_volt.cpp and board_fuse.cpp: the voltage calculations.
pub mod Vmin
use horizon_oc.Prelude.{ℕ, suc, zero, List, [], ◌∷◌, leb, ◌==◌, if◌then◌else◌}
use horizon_oc.Board.Types.{SocType, erista, mariko}

unfoldable pub calculate_tbreak : SocType → ℕ → ℕ
calculate_tbreak erista table = 1581000000
calculate_tbreak mariko table = if table == 3 then 1683000000 else 1581000000

-- `SetGpuBracket`.
unfoldable pub gpu_bracket : ℕ → ℕ
gpu_bracket speedo =
    if leb speedo 1624 then 0 else if leb speedo 1689 then 1 else if leb speedo 1753 then 2 else 3

-- A row of `ramTable`; the bracket is at most 3.
unfoldable pub ram_table : ℕ → List ℕ
ram_table zero =
    2133 ∷ 2200 ∷ 2266 ∷ 2300 ∷ 2366 ∷ 2400 ∷ 2433 ∷ 2466 ∷ 2533 ∷ 2566 ∷ 2600 ∷ 2633 ∷ 2700 ∷ 2733
    ∷ 2766 ∷ 2833 ∷ 2866 ∷ 2900 ∷ 2933 ∷ 3033 ∷ 3066 ∷ 3100 ∷ []
ram_table (suc zero) =
    2300 ∷ 2366 ∷ 2433 ∷ 2466 ∷ 2533 ∷ 2566 ∷ 2633 ∷ 2700 ∷ 2733 ∷ 2800 ∷ 2833 ∷ 2900 ∷ 2933 ∷ 2966
    ∷ 3033 ∷ 3066 ∷ 3100 ∷ 3133 ∷ 3166 ∷ 3200 ∷ 3233 ∷ 3266 ∷ []
ram_table (suc (suc zero)) =
    2433 ∷ 2466 ∷ 2533 ∷ 2600 ∷ 2666 ∷ 2733 ∷ 2766 ∷ 2800 ∷ 2833 ∷ 2866 ∷ 2933 ∷ 2966 ∷ 3033 ∷ 3066
    ∷ 3100 ∷ 3133 ∷ 3166 ∷ 3200 ∷ 3233 ∷ 3300 ∷ 3333 ∷ 3366 ∷ []
ram_table (suc (suc (suc zero))) =
    2500 ∷ 2533 ∷ 2600 ∷ 2633 ∷ 2666 ∷ 2733 ∷ 2800 ∷ 2866 ∷ 2900 ∷ 2966 ∷ 3033 ∷ 3100 ∷ 3166 ∷ 3200
    ∷ 3233 ∷ 3266 ∷ 3300 ∷ 3333 ∷ 3366 ∷ 3400 ∷ 3400 ∷ 3400 ∷ []
ram_table (suc (suc (suc (suc n)))) = []

unfoldable pub gpu_volt_array : List ℕ
gpu_volt_array =
    590 ∷ 600 ∷ 610 ∷ 620 ∷ 630 ∷ 640 ∷ 650 ∷ 660 ∷ 670 ∷ 680 ∷ 690 ∷ 700 ∷ 710 ∷ 720 ∷ 730 ∷ 740
    ∷ 750 ∷ 760 ∷ 770 ∷ 780 ∷ 790 ∷ 800 ∷ []

-- The loop of `GetMinimumGpuVmin` over the two arrays; 800 is the last entry of `gpuVoltArray`.
unfoldable pub vmin_loop : ℕ → List ℕ → List ℕ → ℕ
vmin_loop freq (f ∷ fs) (v ∷ vs) = let rest = vmin_loop freq fs vs in if leb freq f then v else rest
vmin_loop freq _ _ = 800

unfoldable pub get_minimum_gpu_vmin : ℕ → ℕ → ℕ
unfolding vmin_loop ram_table gpu_volt_array
get_minimum_gpu_vmin freq_mhz bracket =
    if leb freq_mhz 1600 then 0 else vmin_loop freq_mhz (ram_table bracket) gpu_volt_array
