-- ===== src/Display/Plld/RoundTrip.antt =====
-- What is read from the PLL after it has been set.
use horizon_oc.Prelude.{
  every_below, from_forty, ==_iff, ◌==◌, ℕ, ◌+◌, ◌≤◌, ◌<◌, ◌≡◌, ◌≢◌, refl, Bool, true, false,
  Bool-cases, inl, inr, ◌⊎◌, arith, not,
}
use horizon_oc.Display.Handheld.{handheld_rate}
use horizon_oc.Display.Handheld.Rates.{handheld_rate-bounds}
use horizon_oc.Display.Plld.{
  Plld, reads_docked, refresh_rate_now, plld_for, set_plld_rate, handheld_hz,
}

-- Whether the rate is read back.
abbrev reads_back : ℕ → Bool
reads_back rate = handheld_hz (plld_for rate) == rate

-- Whether the PLL for a rate reads as one of the handheld mode.
abbrev reads_handheld : ℕ → Bool
reads_handheld rate = not (reads_docked (plld_for rate))

all_read_back : every_below 41 (λ i. reads_back (40 + i)) ≡ true
unfolding handheld_hz plld_for
all_read_back = refl

all_read_handheld : every_below 40 (λ i. reads_handheld (40 + i)) ≡ true
unfolding plld_for
all_read_handheld = refl

-- What is read from the PLL for a rate of 40 to 80 Hz.
pub record ReadsBack (rate : ℕ) (p : Plld) : Type 0 where
  pub hz : handheld_hz p ≡ rate
  pub handheld : rate < 80 → reads_docked p ≡ false
  pub docked : rate ≡ 80 → reads_docked p ≡ true

plld_for-ReadsBack : (rate : ℕ) → 40 ≤ rate → rate ≤ 80 → ReadsBack rate (plld_for rate)
plld_for-ReadsBack rate lo hi = record {
  hz = (==_iff _ _).0 (from_forty 41 reads_back rate all_read_back lo (omega arith));
  handheld =
      λ h. ground (arith, from_forty 40 reads_handheld rate all_read_handheld lo (omega arith));
  docked = λ h. rw h (unfold plld_for in refl);
}

-- When the panel answers and the PLL reads as one of the handheld mode,
-- `_setPLLDHandheldRefreshRate` succeeds for every rate, and the rate that it chooses lies within
-- 40 to 80 Hz. If the PLL has this rate already, it stays as it is; otherwise `GetRate` reads from
-- the new PLL exactly the rate that is set, and takes it for the handheld mode, but at 80 Hz for
-- the docked one.
pub set_plld_rate-ReadsBack :
    (rate : ℕ) (p : Plld)
    → reads_docked p ≡ false
    → ((set_plld_rate true rate p).0 ≡ true)
      × (40 ≤ handheld_rate 3 rate)
      × (handheld_rate 3 rate ≤ 80)
      × (((refresh_rate_now p ≡ handheld_rate 3 rate) × ((set_plld_rate true rate p).1 ≡ p))
          ⊎ ((refresh_rate_now p ≢ handheld_rate 3 rate)
              × ReadsBack (handheld_rate 3 rate) (set_plld_rate true rate p).1))
unfolding set_plld_rate
set_plld_rate-ReadsBack rate p on =
    let new_rate = handheld_rate 3 rate in
    let (lo, hi) = handheld_rate-bounds 3 rate in
    elim (Bool-cases (refresh_rate_now p == new_rate)) [
      | inl same ↦ rw (on, same) (refl, lo, hi, inl ((==_iff _ _).0 same, refl))
      | inr other ↦
          rw (on, other)
            (refl, lo, hi, inr ((λ e. ground (arith, other, e)), plld_for-ReadsBack new_rate lo hi))
    ]
