-- ===== src/Display/Timings.antt =====
-- board/display_refresh_rate.cpp: the modes of the display and the tables of timings.
use horizon_oc.Prelude.{u32, ℕ, ◌+◌, ◌*◌, ◌/◌, List, [], ◌∷◌, Bool, Option}

-- What the timings set: the porches, the widths of the syncs, and the pixel clock.
pub record Timings : Type 0 where
  pub h_front_porch : ℕ
  pub h_sync_width : ℕ
  pub h_back_porch : ℕ
  pub v_front_porch : ℕ
  pub v_sync_width : ℕ
  pub v_back_porch : ℕ
  pub pclk_khz : ℕ

-- `NvdcMode2`, less the flags and the format of the pixels.
pub record Mode : Type 0 where
  pub h_active : ℕ
  pub v_active : ℕ
  pub timings : Timings

abbrev pub h_total : Mode → ℕ
h_total m = m.h_active + m.timings.h_front_porch + m.timings.h_sync_width + m.timings.h_back_porch

abbrev pub v_total : Mode → ℕ
v_total m = m.v_active + m.timings.v_front_porch + m.timings.v_sync_width + m.timings.v_back_porch

-- The refresh rate that is read from a mode.
unfoldable pub mode_rate : Mode → ℕ
mode_rate m = u32 (m.timings.pclk_khz * 1000 + 999) / (h_total m * v_total m)

-- `refreshRateNow`, with totals of 32 bits.
abbrev pub rate_now : Mode → ℕ
rate_now m = u32 (m.timings.pclk_khz * 1000 + 999) / u32 (h_total m * v_total m)

-- The driver of a display: the mode if it opens and gives one, and the modes it takes.
pub record Driver : Type 0 where
  pub get_mode : Option Mode
  pub takes : Mode → Bool

-- A row of `g_dockedTimings1080p`: front porch, sync and back porch of both directions, and the clock.
abbrev pub docked_row : ℕ → ℕ → ℕ → ℕ → ℕ → ℕ → ℕ → Timings
docked_row hf hs hb vf vs vb pclk = record {
  h_front_porch = hf;
  h_sync_width = hs;
  h_back_porch = hb;
  v_front_porch = vf;
  v_sync_width = vs;
  v_back_porch = vb;
  pclk_khz = pclk;
}

abbrev pub docked_refresh_rates : List ℕ
docked_refresh_rates =
    40 ∷ 45 ∷ 50 ∷ 55 ∷ 60 ∷ 70 ∷ 72 ∷ 75 ∷ 80 ∷ 90 ∷ 95 ∷ 100 ∷ 110 ∷ 120 ∷ 130 ∷ 140 ∷ 144 ∷ 150
    ∷ 160 ∷ 165 ∷ 170 ∷ 180 ∷ 190 ∷ 200 ∷ 210 ∷ 220 ∷ 230 ∷ 240 ∷ []

abbrev pub docked_timings1080p : List Timings
docked_timings1080p =
    docked_row 8 32 40 7 8 6 88080
    ∷ docked_row 8 32 40 9 8 6 99270
    ∷ docked_row 528 44 148 4 5 36 148500
    ∷ docked_row 8 32 40 15 8 6 121990
    ∷ docked_row 88 44 148 4 5 36 148500
    ∷ docked_row 8 32 40 22 8 6 156240
    ∷ docked_row 8 32 40 23 8 6 160848
    ∷ docked_row 8 32 40 25 8 6 167850
    ∷ docked_row 8 32 40 28 8 6 179520
    ∷ docked_row 8 32 40 33 8 6 202860
    ∷ docked_row 8 32 40 36 8 6 214700
    ∷ docked_row 528 44 148 4 5 36 297000
    ∷ docked_row 8 32 40 44 8 6 250360
    ∷ docked_row 88 44 148 4 5 36 297000
    ∷ docked_row 8 32 40 55 8 6 298750
    ∷ docked_row 8 32 40 61 8 6 323400
    ∷ docked_row 8 32 40 63 8 6 333216
    ∷ docked_row 8 32 40 67 8 6 348300
    ∷ docked_row 8 32 40 72 8 6 373120
    ∷ docked_row 8 32 40 75 8 6 385770
    ∷ docked_row 8 32 40 78 8 6 398480
    ∷ docked_row 8 32 40 84 8 6 424080
    ∷ docked_row 8 32 40 90 8 6 449920
    ∷ docked_row 8 32 40 96 8 6 476000
    ∷ docked_row 8 32 40 102 8 6 502320
    ∷ docked_row 8 32 40 108 8 6 528880
    ∷ docked_row 8 32 40 114 8 6 555680
    ∷ docked_row 8 32 40 121 8 6 583200
    ∷ []

-- A row of `g_handheldTimingsRETRO`, in which the width of a sync stands first.
abbrev pub retro_row : ℕ → ℕ → ℕ → ℕ → ℕ → ℕ → ℕ → Timings
retro_row hs hf hb vs vf vb pclk = docked_row hf hs hb vf vs vb pclk

abbrev pub handheld_timings_retro : List Timings
handheld_timings_retro =
    retro_row 72 136 72 1 660 9 78000
    ∷ retro_row 72 136 72 1 612 9 77982
    ∷ retro_row 72 136 72 1 567 9 77994
    ∷ retro_row 72 136 72 1 524 9 78002
    ∷ retro_row 72 136 72 1 483 9 78012
    ∷ retro_row 72 136 72 1 443 9 77985
    ∷ retro_row 72 136 72 1 406 9 78016
    ∷ retro_row 72 136 72 1 370 9 78020
    ∷ retro_row 72 136 72 1 335 9 78000
    ∷ retro_row 72 136 72 1 302 9 78008
    ∷ retro_row 72 136 72 1 270 9 78000
    ∷ retro_row 72 136 72 1 239 9 77979
    ∷ retro_row 72 136 72 1 210 9 78000
    ∷ retro_row 72 136 72 1 182 9 78016
    ∷ retro_row 72 136 72 1 154 9 77976
    ∷ retro_row 72 136 72 1 128 9 77990
    ∷ retro_row 72 136 72 1 103 9 78008
    ∷ retro_row 72 136 72 1 78 9 77976
    ∷ retro_row 72 136 72 1 55 9 78010
    ∷ retro_row 72 136 72 1 32 9 77998
    ∷ retro_row 72 136 72 1 10 9 78000
    ∷ []
