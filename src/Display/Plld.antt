-- ===== src/Display/Plld.antt =====
-- The PLL of the handheld display: `_setPLLDHandheldRefreshRate`, and what `GetRate` reads from it.
pub mod RoundTrip
use horizon_oc.Prelude.{
  word32, ◌==◌, ltb, ◌||◌, not, if◌then◌else◌, signed32, div_ℤ, u32, u64, ℕ, ◌+◌, ◌-◌, ◌*◌, ◌/◌,
  ◌%◌, ◌^◌, Bool, true, false,
}
use horizon_oc.Display.Handheld.{handheld_rate}

-- The fields of `PLLD_BASE` and `PLLD_MISC` that are used; `sdm_din` is the pattern of 16 bits.
pub record Plld : Type 0 where
  pub divm : ℕ
  pub divn : ℕ
  pub sdm_din : ℕ

-- The rate in whole steps, by which 0 and 80 stand for the docked mode.
abbrev pub coarse_rate : Plld → ℕ
coarse_rate p = p.divn / p.divm * 10 / 4

abbrev pub reads_docked : Plld → Bool
reads_docked p = (coarse_rate p == 0) || (coarse_rate p == 80)

-- `sdm_din` as the pattern of an `int`.
abbrev pub extended : ℕ → ℕ
extended w = if ltb w (2 ^ 15) then w else w + (2 ^ 32 - 2 ^ 16)

-- `(4096 * ((2 * PLLD_DIVN) + 1)) + PLLD_SDM_DIN`, an `int`, as its pattern.
abbrev pub multiplier : Plld → ℕ
multiplier p = u32 (4096 * (2 * p.divn + 1) + extended p.sdm_din)

-- `refreshRateNow`: the product with 9375 is an `int` here.
unfoldable pub refresh_rate_now : Plld → ℕ
refresh_rate_now p =
    word32 (div_ℤ (signed32 (u32 (9375 * multiplier p))) (8 * p.divm)) / 3900000 % 2 ^ 16

-- The PLL for a rate.
unfoldable pub plld_for : ℕ → Plld
plld_for rate =
    let base = (rate - rate % 5) % 2 ^ 8 in
    let divn = 4 * base / 10 % 2 ^ 8 in
    let clock = 234000000 * rate / 60 in
    record {
      divm = 1;
      divn = divn;
      sdm_din = u64 (8 * clock / 9375 + (2 ^ 64 - 4096 * (2 * divn + 1))) % 2 ^ 16;
    }

-- What `_setPLLDHandheldRefreshRate` returns, and the PLL after it. `panel` tells that the panel
-- answers as one of the handheld mode.
unfoldable pub set_plld_rate : Bool → ℕ → Plld → Bool × Plld
unfolding plld_for handheld_rate refresh_rate_now
set_plld_rate panel rate p =
    let new_rate = handheld_rate 3 rate in
    if not panel
    then (false, p)
    else if reads_docked p
    then (false, p)
    else if refresh_rate_now p == new_rate
    then (true, p)
    else (true, plld_for new_rate)

-- The rate that `GetRate` reads in the handheld mode: the product with 9375 has 64 bits here.
unfoldable pub handheld_hz : Plld → ℕ
handheld_hz p =
    let m = multiplier p in
    let wide = if ltb m (2 ^ 31) then m else m + (2 ^ 64 - 2 ^ 32) in
    u32 (u64 (9375 * wide) / (8 * p.divm)) / 3900000
