-- ===== src/Display/Handheld.antt =====
-- The refresh rates of the handheld mode, and the timings of the Retro SUPER display.
pub mod Rates
use horizon_oc.Prelude.{
  ◌==◌, leb, ltb, ◌&&◌, ◌||◌, not, true, false, if◌then◌else◌, get_elem?, ◌>>=◌, u32, ℕ, zero, suc,
  ◌-◌, ◌*◌, ◌/◌, Bool, Option, none, some,
}
use horizon_oc.Display.Timings.{Mode, Driver, rate_now, handheld_timings_retro}

-- The loop for a multiple of the rate that passes a test, with the rounds that are left.
unfoldable pub find_multiple : (ℕ → Bool) → ℕ → ℕ → ℕ → Option ℕ
find_multiple test zero i rate = none
find_multiple test (suc n) i rate =
    let rest = find_multiple test n (suc i) rate in
    if test (u32 (rate * i)) then some (u32 (rate * i)) else rest

abbrev pub in_handheld_range : ℕ → Bool
in_handheld_range rate = leb 40 rate && leb rate 80

-- What the loop found, or another rate.
abbrev pub or_rate : Option ℕ → ℕ → ℕ
or_rate none rate = rate
or_rate (some found) rate = found

-- The rate that is set instead of one outside 40 to 80 Hz: a half, a third or a quarter of 60 Hz
-- becomes 60 Hz, and another low rate its first multiple in the range, of the factors from 2 on
-- that `factors` allows.
unfoldable pub handheld_rate : ℕ → ℕ → ℕ
unfolding find_multiple
handheld_rate factors rate =
    let multiple = find_multiple in_handheld_range factors 2 rate in
    let part = find_multiple (λ r. r == 60) 3 2 rate in
    if ltb 80 rate then 80 else if ltb rate 40 then or_rate part (or_rate multiple 60) else rate

-- The handheld mode that `_setNvDispHandheldRefreshRate` builds for a rate from 40 Hz on; `none`
-- is a read outside the table.
unfoldable pub retro_mode : ℕ → Mode → Option Mode
retro_mode rate mode =
    get_elem? handheld_timings_retro ((rate - 40) / 5) >>= λ t. some (record mode { timings = t })

abbrev pub is_retro_size : Mode → Bool
is_retro_size m = (m.v_active == 1280) && (m.h_active == 720)

-- What `_setNvDispHandheldRefreshRate` returns, and the mode that it sets if it sets one; `none` is
-- a read outside the table.
unfoldable pub set_retro_rate : Driver → Bool → ℕ → Option (Bool × Option Mode)
unfolding handheld_rate retro_mode
set_retro_rate driver is_retro rate =
    let new_rate = handheld_rate 20 rate in
    if not is_retro then some (false, none) else elim driver.get_mode [
      | none ↦ some (false, none)
      | some m ↦
          if (m.timings.pclk_khz == 0) || not (is_retro_size m)
          then some (false, none)
          else if new_rate == rate_now m
          then some (true, none)
          else retro_mode new_rate m >>= λ m'.
              some (true, if driver.takes m' then some m' else none)
    ]
