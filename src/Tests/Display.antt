-- ===== src/Tests/Display.antt =====
-- Examples for the refresh rates of the display.
use horizon_oc.Prelude.{◌==◌, ◌≤◌, ◌≡◌, ◌≢◌, refl, ◌⊎◌, true, false, some, arith}
use horizon_oc.Display.Timings.{Driver, Mode, docked_row}
use horizon_oc.Display.Docked.{Docked, rate_at, docked_index, set_docked_rate}
use horizon_oc.Display.Docked.Chosen.{Outcome, set_docked_rate-Outcome}
use horizon_oc.Display.Handheld.{handheld_rate}
use horizon_oc.Display.Plld.{Plld, refresh_rate_now, set_plld_rate}
use horizon_oc.Display.Plld.RoundTrip.{ReadsBack, set_plld_rate-ReadsBack}

-- A PLL near 60 Hz.
abbrev sixty_hz : Plld
sixty_hz = record { divm = 1; divn = 24; sdm_din = 0 }

set_plld_rate-ReadsBack_example :
    ((set_plld_rate true 20 sixty_hz).0 ≡ true)
    × (40 ≤ handheld_rate 3 20)
    × (handheld_rate 3 20 ≤ 80)
    × (((refresh_rate_now sixty_hz ≡ handheld_rate 3 20)
          × ((set_plld_rate true 20 sixty_hz).1 ≡ sixty_hz))
        ⊎ ((refresh_rate_now sixty_hz ≢ handheld_rate 3 20)
            × ReadsBack (handheld_rate 3 20) (set_plld_rate true 20 sixty_hz).1))
set_plld_rate-ReadsBack_example = set_plld_rate-ReadsBack 20 sixty_hz refl

-- A television at 60 Hz that takes up to 120 Hz.
abbrev full_hd_60 : Mode
full_hd_60 = record {
  h_active = 1920;
  v_active = 1080;
  timings = docked_row 88 44 148 4 5 36 148500;
}

abbrev television : Driver
television = record { get_mode = some full_hd_60; takes = λ m. m.timings.pclk_khz == 202860 }

abbrev in_dock : Docked
in_dock = record { is_lite = false; match_lowest = true; can_change = true; highest = 120 }

set_docked_rate-Outcome_example :
    ((set_docked_rate television in_dock 45).0 ≡ true)
    × (rate_at (docked_index in_dock 45) ≤ 120)
    × Outcome television full_hd_60
        (rate_at (docked_index in_dock 45))
        (set_docked_rate television in_dock 45).1
set_docked_rate-Outcome_example =
    set_docked_rate-Outcome television in_dock 45 full_hd_60 refl refl refl refl refl refl
      (omega arith)
