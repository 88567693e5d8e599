-- ===== src/Display/Docked.antt =====
-- The refresh rate of the docked mode: `_setNvDispDockedRefreshRate`.
pub mod Chosen
use horizon_oc.Prelude.{
  ◌==◌, leb, ltb, ◌&&◌, ◌||◌, not, if◌then◌else◌, get_or, u32, ℕ, zero, suc, ◌*◌, ◌/◌, ◌%◌, Bool,
  true, false, Option, none, some, List, [], ◌∷◌,
}
use horizon_oc.Display.Timings.{
  Driver, rate_now, Mode, h_total, v_total, docked_refresh_rates, docked_timings1080p,
}

-- The settings and what is known of the docked display.
pub record Docked : Type 0 where
  pub is_lite : Bool
  pub match_lowest : Bool
  pub can_change : Bool
  pub highest : ℕ

-- A loop over the rates for the first that passes a test, from the index `i` on.
unfoldable pub find_rate : (ℕ → Bool) → ℕ → List ℕ → Option ℕ
find_rate test i [] = none
find_rate test i (rate ∷ rates) =
    let rest = find_rate test (suc i) rates in if test rate then some i else rest

-- The index of 60 Hz.
abbrev pub sixty : ℕ
sixty = 4

-- The choice before the limit of the display.
unfoldable pub wanted_index : Bool → ℕ → ℕ
unfolding find_rate
wanted_index match_lowest rate =
    let multiple = find_rate (λ val. val % rate == 0) 0 docked_refresh_rates in
    let higher = find_rate (λ val. ltb rate val) 0 docked_refresh_rates in
    let fallback = if not match_lowest then sixty else elim higher [ some i ↦ i | none ↦ sixty ] in
    if leb rate 60 && (60 % rate == 0)
    then sixty
    else elim multiple [ some i ↦ i | none ↦ fallback ]

abbrev pub rate_at : ℕ → ℕ
rate_at i = get_or docked_refresh_rates i 0

-- The loop down to the first rate that the display allows; without one the index stays.
unfoldable pub limit_index : ℕ → ℕ → ℕ → ℕ
limit_index highest start zero = if leb (rate_at zero) highest then zero else start
limit_index highest start (suc i) =
    let rest = limit_index highest start i in if leb (rate_at (suc i)) highest then suc i else rest

-- The index that is chosen.
unfoldable pub docked_index : Docked → ℕ → ℕ
unfolding wanted_index limit_index
docked_index d rate =
    let wanted = wanted_index d.match_lowest rate in
    if ltb d.highest (rate_at wanted) then limit_index d.highest wanted wanted else wanted

abbrev pub is_known_size : Mode → Bool
is_known_size m =
    ((m.v_active == 480) && (m.h_active == 720))
    || ((m.v_active == 720) && (m.h_active == 1280))
    || ((m.v_active == 1080) && (m.h_active == 1920))

-- The mode that is built for an index of the table.
unfoldable pub docked_mode : ℕ → Mode → Mode
docked_mode i m =
    let timings = get_or docked_timings1080p i m.timings in
    let pclk = u32 (u32 (h_total m * v_total m) * rate_at i) / 1000 in
    if m.v_active == 720
    then record m { timings = record m.timings { pclk_khz = pclk } }
    else record m { timings = timings }

-- What `_setNvDispDockedRefreshRate` returns, and the mode that it sets if it sets one.
unfoldable pub set_docked_rate : Driver → Docked → ℕ → Bool × Option Mode
unfolding docked_index docked_mode
set_docked_rate driver d rate =
    let index = docked_index d rate in
    if d.is_lite || not d.can_change then (false, none) else elim driver.get_mode [
      | none ↦ (false, none)
      | some m ↦
          if (m.timings.pclk_khz == 0) || not (is_known_size m)
          then (false, none)
          else if rate_now m == rate_at index
          then (true, none)
          else (
            true,
            if driver.takes (docked_mode index m) then some (docked_mode index m) else none,
          )
    ]
