-- ===== src/Governor/Ramp/Index.antt =====
-- The place of a clock in the table, and the clock for a load.
use horizon_oc.Prelude.{
  ◌*◌, ℕ, zero, suc, ◌+◌, ◌^◌, ◌≤◌, ◌<◌, ◌≡◌, some, ◌⊎◌, arith, inl, inr, Bool-cases, leb, leb→le,
}
use native.Mathlib.Decide.{dec_le}
use horizon_oc.ClockManager.State.{FreqTable}
use horizon_oc.ClockManager.Tables.{hz_at, IsTable, read-some}
use horizon_oc.Governor.Ramp.{index_loop, table_index_for_hz, schedutil_target_hz, step_util}

-- `j` is the first index from `i` on whose clock reaches the target, or the last of the table if
-- none does.
pub record IsCeiling (t : FreqTable) (target i j : ℕ) : Type 0 where
  pub inside : j < t.count
  pub first : (k : ℕ) → i ≤ k → k < j → hz_at t k < target
  pub reaches : (target ≤ hz_at t j) ⊎ ((suc j ≡ t.count) × (hz_at t j < target))

first_from :
    (t : FreqTable) (target i j k : ℕ)
    → hz_at t i < target
    → IsCeiling t target (suc i) j
    → i ≤ k
    → k < j
    → hz_at t k < target
first_from t target i j k p e le lt = elim (dec_le (suc i) k) [
  | yes later ↦ e.first k later lt
  | no here ↦ let same : k ≡ i = omega arith in rw same p
]

index_loop-IsCeiling :
    (t : FreqTable) (target rounds i : ℕ)
    → IsTable t
    → i + suc rounds ≡ t.count
    → (j : ℕ) × (index_loop t target (suc rounds) i ≡ some j) × IsCeiling t target i j
unfolding index_loop
index_loop-IsCeiling t target zero i h e =
    rw (read-some t i h (omega arith)) (elim (Bool-cases (leb target (hz_at t i))) [
      | inl hit ↦ (
        i,
        rw hit,
        record {
          inside = omega arith;
          first = λ k le lt. absurd (omega arith);
          reaches = inl (leb→le _ _ hit);
        },
      )
      | inr miss ↦ (
        i,
        rw miss (ground arith),
        record {
          inside = omega arith;
          first = λ k le lt. absurd (omega arith);
          reaches = inr (omega arith, ground (arith, miss));
        },
      )
    ])
index_loop-IsCeiling t target (suc rounds) i h e =
    let (j, eq, c) = index_loop-IsCeiling t target rounds (suc i) h (omega arith) in
    rw (read-some t i h (omega arith)) (elim (Bool-cases (leb target (hz_at t i))) [
      | inl hit ↦ (
        i,
        rw hit,
        record {
          inside = omega arith;
          first = λ k le lt. absurd (omega arith);
          reaches = inl (leb→le _ _ hit);
        },
      )
      | inr miss ↦ (
        j,
        rw miss eq,
        record {
          inside = c.inside;
          first = λ k le lt. first_from t target i j k (ground (arith, miss)) c le lt;
          reaches = c.reaches;
        },
      )
    ])

IsCeiling-from :
    (t : FreqTable) (target rounds : ℕ)
    → IsTable t
    → 0 < rounds
    → rounds ≡ t.count
    → (j : ℕ) × (index_loop t target rounds 0 ≡ some j) × IsCeiling t target 0 j
IsCeiling-from t target zero h pos e = absurd (omega arith)
IsCeiling-from t target (suc rounds) h pos e =
    index_loop-IsCeiling t target rounds 0 h (omega arith)

-- On a table that is in use, the index is that of the first clock which reaches the target, and
-- the last index where no clock does.
pub table_index_for_hz-IsCeiling :
    (t : FreqTable) (target : ℕ)
    → IsTable t
    → (j : ℕ) × (table_index_for_hz t target ≡ some j) × IsCeiling t target 0 j
unfolding table_index_for_hz
table_index_for_hz-IsCeiling t target h = IsCeiling-from t target t.count h h.used (omega arith)

mul_mono : (t a b : ℕ) → a ≤ b → t * a ≤ t * b
mul_mono t a b h = grind arith

-- The clock for a load is at most the table's maximum, is that maximum from a load of 90.0 % on,
-- and grows with the load; for a load of at most 100.0 % no product wraps.
pub schedutil_target_hz_bounds :
    (util util' table_max : ℕ)
    → util ≤ util'
    → util' ≤ 1000
    → table_max < 2 ^ 32
    → (schedutil_target_hz util table_max ≤ table_max)
      × (schedutil_target_hz util table_max ≤ schedutil_target_hz util' table_max)
      × (step_util ≤ util → schedutil_target_hz util table_max ≡ table_max)
unfolding schedutil_target_hz
schedutil_target_hz_bounds util util' table_max le small word =
    let grows = mul_mono table_max util util' le in
    let least = mul_mono table_max util 1000 (omega arith) in
    let most = mul_mono table_max util' 1000 small in
    (omega arith, omega arith, λ full. let top = mul_mono table_max 900 util full in omega arith)
