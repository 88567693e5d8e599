-- ===== src/Governor/Vrr/Rate.antt =====
-- The refresh rate for a frame rate, and the highest rate that the thread allows.
use horizon_oc.Prelude.{
  Bool-cases, if◌then◌else◌, u32, refl, sym, ◌∙◌, inl, inr, Bool, Option, ℕ, zero, suc, ◌+◌, ◌*◌,
  ◌%◌, ◌≤◌, ◌<◌, ◌≡◌, ◌⊎◌, true, false, some, arith,
}
use native.Mathlib.Decide.{dec_le}
use horizon_oc.Board.Types.{display, at}
use horizon_oc.Config.Store.{get_auto_clock_hz, find_clock_hz_from_profiles}
use horizon_oc.ClockManager.State.{Sys}
use horizon_oc.Governor.Handle.{resolve_target}
use horizon_oc.Governor.Vrr.{max_display, first_multiple, rate_for, within}

-- A multiple of the frame rate in the range, the first one from `i` on.
pub record IsFirst (lo hi fps i hz : ℕ) : Type 0 where
  pub least : lo ≤ hz
  pub most : hz ≤ hi
  pub factor : ℕ
  pub from : i ≤ factor
  pub multiple : hz ≡ fps * factor
  pub first : (j : ℕ) → i ≤ j → j < factor → within lo hi (fps * j) ≡ false

first_after :
    (lo hi fps i j k : ℕ)
    → within lo hi (fps * i) ≡ false
    → ((j : ℕ) → suc i ≤ j → j < k → within lo hi (fps * j) ≡ false)
    → i ≤ j
    → j < k
    → within lo hi (fps * j) ≡ false
first_after lo hi fps i j k miss later le lt = elim (dec_le (suc i) j) [
  | yes p ↦ later j p lt
  | no p ↦ let same : j ≡ i = omega arith in rw same miss
]

if_some :
    (b : Bool) (x hz : ℕ) (rest : Option ℕ)
    → (if b then some x else rest) ≡ some hz
    → ((b ≡ true) × (x ≡ hz)) ⊎ ((b ≡ false) × (rest ≡ some hz))
if_some true x hz rest e = inl (refl, cc)
if_some false x hz rest e = inr (refl, e)

product_small : (fps i : ℕ) → fps < 256 → i ≤ 10 → u32 (fps * i) ≡ fps * i
product_small fps i small le = let bound : fps * i ≤ fps * 10 = grind arith in omega arith

first_multiple-IsFirst :
    (lo hi fps rounds i hz : ℕ)
    → fps < 256
    → i + rounds ≤ 10
    → first_multiple lo hi fps rounds i ≡ some hz
    → IsFirst lo hi fps i hz
unfolding first_multiple
first_multiple-IsFirst lo hi fps zero i hz small le e = cc
first_multiple-IsFirst lo hi fps (suc rounds) i hz small le e =
    let same = product_small fps i small (omega arith) in
    elim (if_some (within lo hi (u32 (fps * i))) (u32 (fps * i)) hz
      (first_multiple lo hi fps rounds (suc i)) e) [
        | inl (hit, x) ↦ record {
          least = ground (arith, hit, x);
          most = ground (arith, hit, x);
          factor = i;
          from = omega arith;
          multiple = sym x ∙ same;
          first = λ j a b. absurd (omega arith);
        }
        | inr (miss, r) ↦
            let rest = first_multiple-IsFirst lo hi fps rounds (suc i) hz small (omega arith) r in
            record {
              least = rest.least;
              most = rest.most;
              factor = rest.factor;
              from = let f = rest.from in omega arith;
              multiple = rest.multiple;
              first =
                  λ j a b. first_after lo hi fps i j rest.factor (rw⁻¹ same miss) rest.first a b;
            }
      ]

first_multiple-finds :
    (lo hi fps rounds i k : ℕ)
    → fps < 256
    → i + rounds ≤ 10
    → i ≤ k
    → k < i + rounds
    → within lo hi (fps * k) ≡ true
    → (hz : ℕ) × (first_multiple lo hi fps rounds i ≡ some hz)
unfolding first_multiple
first_multiple-finds lo hi fps zero i k small le from lt hit = absurd (omega arith)
first_multiple-finds lo hi fps (suc rounds) i k small le from lt hit =
    let same = product_small fps i small (omega arith) in
    elim (Bool-cases (within lo hi (u32 (fps * i)))) [
      | inl yes_here ↦ (u32 (fps * i), rw yes_here)
      | inr miss ↦ elim (dec_le (suc i) k) [
        | yes later ↦
            let (hz, e) =
              first_multiple-finds lo hi fps rounds (suc i) k small (omega arith) later
                (omega arith) hit in
            (hz, rw miss e)
        | no here ↦
            let at_i : k ≡ i = omega arith in
            let hit_i : within lo hi (fps * i) ≡ true = rw⁻¹ at_i hit in
            let miss_i : within lo hi (fps * i) ≡ false = rw⁻¹ same miss in absurd cc
      ]
    ]

-- For a frame rate of eight bits: if one of its first ten multiples, from 0 times on, lies in the
-- allowed range, then a rate is set.
pub rate_for-finds :
    (lo hi fps k : ℕ)
    → fps < 256
    → k < 10
    → within lo hi (fps * k) ≡ true
    → (hz : ℕ) × (rate_for lo hi fps ≡ some hz)
unfolding rate_for
rate_for-finds lo hi fps k small lt hit = elim (Bool-cases (within lo hi fps)) [
  | inl self ↦ (fps, rw self)
  | inr other ↦
      let (hz, e) =
        first_multiple-finds lo hi fps 10 0 k small (omega arith) (omega arith) lt hit in
      (hz, rw other e)
]

-- For a frame rate of eight bits: the rate that is set for it lies in the allowed range, and is
-- the frame rate itself if that does, else the smallest multiple of it in the range.
pub rate_for-IsFirst :
    (lo hi fps hz : ℕ)
    → fps < 256
    → rate_for lo hi fps ≡ some hz
    → (within lo hi fps ≡ true → hz ≡ fps) × (within lo hi fps ≡ false → IsFirst lo hi fps 0 hz)
unfolding rate_for
rate_for-IsFirst lo hi fps hz small e =
    elim (if_some (within lo hi fps) fps hz (first_multiple lo hi fps 10 0) e) [
      | inl (hit, x) ↦ (λ h. sym x, λ h. cc)
      | inr (miss, r) ↦
          (λ h. cc, λ h. first_multiple-IsFirst lo hi fps 10 0 hz small (omega arith) r)
    ]

-- Without an override, the highest rate is 60 or a multiple of 64, whatever rate the profile
-- stands for: the rate has been taken for MHz, turned to Hz and cut to eight bits.
pub max_display-multiple :
    (s : Sys)
    → at s.context.override_freqs display ≡ 0
    → (max_display s ≡ 60) ⊎ (max_display s % 64 ≡ 0)
unfolding max_display resolve_target get_auto_clock_hz find_clock_hz_from_profiles
max_display-multiple s none_set = rw none_set (ground arith)
