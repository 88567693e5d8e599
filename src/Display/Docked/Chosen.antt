-- ===== src/Display/Docked/Chosen.antt =====
-- The rate that the docked mode takes.
use horizon_oc.Prelude.{
  every_below, at-every_below, get_or-any, ==_iff, ◌==◌, leb, ltb, ◌&&◌, if◌then◌else◌, get_or,
  length, ℕ, zero, suc, ◌+◌, ◌%◌, ◌≤◌, ◌<◌, ◌≡◌, refl, Bool, true, false, Option, none, some, List,
  [], ◌∷◌, Bool-cases, inl, inr, arith,
}
use horizon_oc.Display.Timings.{
  Driver, rate_now, Mode, docked_refresh_rates, docked_timings1080p, docked_row,
}
use horizon_oc.Display.Docked.{
  Docked, find_rate, sixty, wanted_index, rate_at, limit_index, docked_index, is_known_size,
  docked_mode, set_docked_rate,
}

-- What the search finds, or another index, stays below a bound.

find_rate-below :
    (test : ℕ → Bool) (i : ℕ) (rates : List ℕ) (d n : ℕ)
    → i + length rates ≤ n
    → d < n
    → (elim (find_rate test i rates) [ some k ↦ k | none ↦ d ]) < n
unfolding find_rate
find_rate-below test i [] d n h hd = hd
find_rate-below test i (rate ∷ rates) d n h hd = elim (Bool-cases (test rate)) [
  | inl here ↦ rw here (omega (arith, h))
  | inr later ↦ rw later (find_rate-below test (suc i) rates d n (omega (arith, h)) hd)
]

-- The index of the first multiple, or another one.
or_multiple : ℕ → ℕ → ℕ
or_multiple rate d = elim (find_rate (λ val. val % rate == 0) 0 docked_refresh_rates) [
  | some i ↦ i
  | none ↦ d
]

wanted-below :
    (rate d : ℕ)
    → d < 28
    → (if leb rate 60 && (60 % rate == 0) then sixty else or_multiple rate d) < 28
unfolding or_multiple
wanted-below rate d h = elim (Bool-cases (leb rate 60 && (60 % rate == 0))) [
  | inl part ↦ rw part (omega arith)
  | inr not_part ↦
      rw not_part
        (find_rate-below (λ val. val % rate == 0) 0 docked_refresh_rates d 28 (omega arith) h)
]

wanted_index-below : (lowest : Bool) (rate : ℕ) → wanted_index lowest rate < 28
unfolding wanted_index or_multiple
wanted_index-below true rate = wanted-below rate _ (
    find_rate-below (λ val. ltb rate val) 0 docked_refresh_rates sixty 28 (omega arith)
      (omega arith))
wanted_index-below false rate = wanted-below rate sixty (omega arith)

not_ltb : (a b : ℕ) → ltb a b ≡ false → b ≤ a
not_ltb a b h = ground (arith, h)

limit_index-fits :
    (highest start n : ℕ)
    → 40 ≤ highest
    → (rate_at (limit_index highest start n) ≤ highest) × (limit_index highest start n ≤ n)
unfolding limit_index
limit_index-fits highest start zero h =
    let fits : leb 40 highest ≡ true = ground arith in rw fits (h, omega arith)
limit_index-fits highest start (suc n) h =
    let (fits, below) = limit_index-fits highest start n h in
    elim (Bool-cases (leb (rate_at (suc n)) highest)) [
      | inl here ↦ rw here (ground (arith, here), omega arith)
      | inr lower ↦ rw lower (fits, omega arith)
    ]

-- When the display allows 40 Hz, the chosen rate stands in the table and the display allows it.
pub docked_index-fits :
    (d : Docked) (rate : ℕ)
    → 40 ≤ d.highest
    → (docked_index d rate < 28) × (rate_at (docked_index d rate) ≤ d.highest)
unfolding docked_index
docked_index-fits d rate h =
    let wanted = wanted_index d.match_lowest rate in
    let below = wanted_index-below d.match_lowest rate in
    let (fits, lower) = limit_index-fits d.highest wanted wanted h in
    elim (Bool-cases (ltb d.highest (rate_at wanted))) [
      | inl high ↦ rw high (omega arith, fits)
      | inr allowed ↦ rw allowed (below, not_ltb _ _ allowed)
    ]

-- The mode of 1920 x 1080 with the timings of a row.
abbrev full_hd : ℕ → Mode
full_hd i = record {
  h_active = 1920;
  v_active = 1080;
  timings = get_or docked_timings1080p i (docked_row 0 0 0 0 0 0 0);
}

all_full_hd : every_below 28 (λ i. rate_now (full_hd i) == rate_at i) ≡ true
all_full_hd = refl

docked_mode-reads :
    (i : ℕ) (m : Mode)
    → m.h_active ≡ 1920
    → m.v_active ≡ 1080
    → i < 28
    → rate_now (docked_mode i m) ≡ rate_at i
unfolding docked_mode
docked_mode-reads i m h v below =
    let row = get_or-any docked_timings1080p i m.timings (docked_row 0 0 0 0 0 0 0) below in
    rw (v, h, row)
      ((==_iff _ _).0
        (at-every_below 28 (λ k. rate_now (full_hd k) == rate_at k) all_full_hd i below))

-- What becomes of the mode of the display: it has the rate already, the driver refuses the new
-- mode, or the mode that is set has the rate.
pub data Outcome (driver : Driver) (m : Mode) (rate : ℕ) : Option Mode → Type 0 where
  kept : rate_now m ≡ rate → Outcome driver m rate none
  refused :
      (new : Mode) → driver.takes new ≡ false → rate_now new ≡ rate → Outcome driver m rate none
  set_mode :
      (new : Mode)
      → driver.takes new ≡ true
      → rate_now new ≡ rate
      → Outcome driver m rate (some new)

-- In the dock of a console that is not a Lite, when the rate may be changed and the driver gives a
-- mode of 1920 x 1080 with a pixel clock that is not 0, and for a display that allows 40 Hz, the
-- rate of `_setNvDispDockedRefreshRate` is one of its table that the display allows, and the
-- function succeeds: the mode has the rate already, or the driver is given one that reads as
-- exactly this rate. It succeeds also when the driver refuses it.
pub set_docked_rate-Outcome :
    (driver : Driver) (d : Docked) (rate : ℕ) (m : Mode)
    → d.is_lite ≡ false
    → d.can_change ≡ true
    → driver.get_mode ≡ some m
    → m.h_active ≡ 1920
    → m.v_active ≡ 1080
    → (m.timings.pclk_khz == 0) ≡ false
    → 40 ≤ d.highest
    → let chosen = rate_at (docked_index d rate) in
      ((set_docked_rate driver d rate).0 ≡ true)
      × (chosen ≤ d.highest)
      × Outcome driver m chosen (set_docked_rate driver d rate).1
unfolding set_docked_rate
set_docked_rate-Outcome driver d rate m full can there h v clock allows =
    let i = docked_index d rate in
    let (below, fits) = docked_index-fits d rate allows in
    let reads = docked_mode-reads i m h v below in
    let known : is_known_size m ≡ true = rw (h, v) refl in
    elim (Bool-cases (rate_now m == rate_at i)) [
      | inl same ↦
          rw (full, can, there, clock, known, same) (refl, fits, kept ((==_iff _ _).0 same))
      | inr other ↦ elim (Bool-cases (driver.takes (docked_mode i m))) [
        | inl taken ↦
            rw (full, can, there, clock, known, other, taken)
              (refl, fits, set_mode (docked_mode i m) taken reads)
        | inr not_taken ↦
            rw (full, can, there, clock, known, other, not_taken)
              (refl, fits, refused (docked_mode i m) not_taken reads)
      ]
    ]
