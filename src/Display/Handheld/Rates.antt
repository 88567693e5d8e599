-- ===== src/Display/Handheld/Rates.antt =====
-- The rates that the handheld mode takes.
use horizon_oc.Prelude.{
  u32, ◌||◌, not, if◌then◌else◌, Option-cases, every_below, from_forty, ==_iff, ◌==◌, ltb,
  get_elem?, ℕ, zero, suc, ◌+◌, ◌-◌, ◌*◌, ◌/◌, ◌≤◌, ◌≡◌, refl, Bool, true, false, Option, none,
  some, Bool-cases, inl, inr, ◌⊎◌, arith,
}
use horizon_oc.Display.Timings.{Driver, rate_now, Timings, Mode, mode_rate, handheld_timings_retro}
use horizon_oc.Display.Handheld.{
  is_retro_size, set_retro_rate, find_multiple, in_handheld_range, or_rate, handheld_rate,
  retro_mode,
}

-- What the loop finds passes its test.
find_multiple-passes :
    (test : ℕ → Bool) (n i rate other : ℕ)
    → test other ≡ true
    → test (or_rate (find_multiple test n i rate) other) ≡ true
unfolding find_multiple
find_multiple-passes test zero i rate other h = h
find_multiple-passes test (suc n) i rate other h = elim (Bool-cases (test (u32 (rate * i)))) [
  | inl yes_here ↦ rw yes_here yes_here
  | inr not_here ↦ rw not_here (find_multiple-passes test n (suc i) rate other h)
]

in_range : (rate : ℕ) → in_handheld_range rate ≡ true → (40 ≤ rate) × (rate ≤ 80)
in_range rate h = (ground (arith, h), ground (arith, h))

-- What the loop finds passes its test; without it the other rate stays.
found_rate :
    (test : ℕ → Bool) (n i rate other : ℕ)
    → (test (or_rate (find_multiple test n i rate) other) ≡ true)
      ⊎ (or_rate (find_multiple test n i rate) other ≡ other)
unfolding find_multiple
found_rate test zero i rate other = inr refl
found_rate test (suc n) i rate other = elim (Bool-cases (test (u32 (rate * i)))) [
  | inl here ↦ rw here (inl here)
  | inr not_here ↦ rw not_here (found_rate test n (suc i) rate other)
]

-- Whatever rate is asked for, the one that is set lies within 40 and 80 Hz.
pub handheld_rate-bounds :
    (factors rate : ℕ) → (40 ≤ handheld_rate factors rate) × (handheld_rate factors rate ≤ 80)
unfolding handheld_rate
handheld_rate-bounds factors rate =
    let multiple = or_rate (find_multiple in_handheld_range factors 2 rate) 60 in
    let (lo, hi) =
      in_range multiple (find_multiple-passes in_handheld_range factors 2 rate 60 refl) in
    let low = or_rate (find_multiple (λ r. r == 60) 3 2 rate) multiple in
    let sixty_or_low : (low ≡ 60) ⊎ (low ≡ multiple) =
      elim (found_rate (λ r. r == 60) 3 2 rate multiple) [
        | inl h ↦ inl ((==_iff low 60).0 h)
        | inr h ↦ inr h
      ] in
    elim (Bool-cases (ltb 80 rate)) [
      | inl high ↦ rw high (omega arith, omega arith)
      | inr fits ↦ elim (Bool-cases (ltb rate 40)) [
        | inl below ↦
            rw (fits, below)
              (omega (arith, lo, hi, sixty_or_low), omega (arith, lo, hi, sixty_or_low))
        | inr inside ↦ rw (fits, inside) (ground (arith, inside), ground (arith, fits))
      ]
    ]

-- Whether the timings for a rate are those of the row that the index picks.
abbrev reads_row : ℕ → Bool
reads_row rate = elim (get_elem? handheld_timings_retro ((rate - 40) / 5)) [
  | some t ↦
      mode_rate (record { h_active = 720; v_active = 1280; timings = t }) == 40 + (rate - 40) / 5
  | none ↦ false
]

all_read_row : every_below 41 (λ i. reads_row (40 + i)) ≡ true
unfolding mode_rate
all_read_row = refl

-- A row that reads a rate is there.
row_found :
    (o : Option Timings) (n : ℕ)
    → (elim o [
      | some t ↦ mode_rate (record { h_active = 720; v_active = 1280; timings = t }) == n
      | none ↦ false
    ])
      ≡ true
    → (t : Timings) × (o ≡ some t)
      × (mode_rate (record { h_active = 720; v_active = 1280; timings = t }) ≡ n)
row_found none n h = ground (arith, h)
row_found (some t) n h = (t, refl, (==_iff _ _).0 h)

-- Whatever rate is asked for on the Retro SUPER display, a row of the table is found; but
-- the table has a row for each rate from 40 Hz on, and the index counts steps of five: for a rate
-- of 40 + 5 n Hz the mode has the timings of 40 + n Hz.
pub retro_mode-slow :
    (asked : ℕ) (m : Mode)
    → m.h_active ≡ 720
    → m.v_active ≡ 1280
    → let rate = handheld_rate 20 asked in
      (m' : Mode) × (retro_mode rate m ≡ some m') × (mode_rate m' ≡ 40 + (rate - 40) / 5)
unfolding retro_mode mode_rate
retro_mode-slow asked m h v =
    let rate = handheld_rate 20 asked in
    let (lo, hi) = handheld_rate-bounds 20 asked in
    let reads = from_forty 41 reads_row rate all_read_row lo (omega arith) in
    let (t, row, slow) =
      row_found (get_elem? handheld_timings_retro ((rate - 40) / 5)) (40 + (rate - 40) / 5) reads in
    (record m { timings = t }, rw row refl, rw (h, v) slow)

-- `_setNvDispHandheldRefreshRate` reads inside its table for every mode and every rate.
pub set_retro_rate-inside :
    (driver : Driver) (is_retro : Bool) (asked : ℕ)
    → (r : Bool × Option Mode) × (set_retro_rate driver is_retro asked ≡ some r)
unfolding set_retro_rate
set_retro_rate-inside driver false asked = ((false, none), refl)
set_retro_rate-inside driver true asked = elim (Option-cases driver.get_mode) [
  | inl closed ↦ ((false, none), rw closed refl)
  | inr (m, there) ↦ elim (Bool-cases ((m.timings.pclk_khz == 0) || not (is_retro_size m))) [
    | inl other ↦ ((false, none), rw (there, other) refl)
    | inr known ↦
        let (m', found, slow) =
          retro_mode-slow asked m (ground (arith, known)) (ground (arith, known)) in
        elim (Bool-cases (handheld_rate 20 asked == rate_now m)) [
          | inl same ↦ ((true, none), rw (there, known, same) refl)
          | inr new ↦ (
            (true, if driver.takes m' then some m' else none),
            rw (there, known, new, found) refl,
          )
        ]
  ]
]
