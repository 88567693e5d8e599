-- ===== src/ClockManager/Nearest/Loop.antt =====
-- Where the loop of `GetNearestHz` ends, and that it ends inside the table.
use horizon_oc.Prelude.{
  ℕ, zero, suc, ◌+◌, ◌-◌, ◌/◌, ◌%◌, ◌^◌, ◌≤◌, ◌<◌, ◌≡◌, refl, some, ◌⊎◌, arith, ltb, leb, inl, inr,
  ◌&&◌, Bool-cases, leb→le,
}
use native.Mathlib.Decide.{dec_le}
use horizon_oc.ClockManager.State.{FreqTable}
use horizon_oc.ClockManager.Tables.{hz_at, IsTable, read-some}
use horizon_oc.ClockManager.Nearest.{nearest_loop, get_nearest_hz}

-- `j` is the last index, or holds a frequency at the cap, or is nearer to the input than the next.
abbrev pub Stops : FreqTable → ℕ → ℕ → ℕ → Type 0
Stops t in_hz max_hz j =
    (suc j ≡ t.count)
    ⊎ ((0 < max_hz) × (max_hz ≤ hz_at t j))
    ⊎ ((suc j < t.count) × (in_hz ≤ (hz_at t j + hz_at t (suc j)) / 2))

-- The loop goes past `k` only below the cap and nearer to the entry after `k`.
abbrev pub Passed : FreqTable → ℕ → ℕ → ℕ → Type 0
Passed t in_hz max_hz k =
    ((max_hz ≡ 0) ⊎ (hz_at t k < max_hz)) × ((hz_at t k + hz_at t (suc k)) / 2 < in_hz)

-- The index `j` at which the loop that starts at `i` ends.
pub record Ends (t : FreqTable) (in_hz max_hz i j : ℕ) : Type 0 where
  pub from : i ≤ j
  pub inside : j < t.count
  pub stops : Stops t in_hz max_hz j
  pub passed : (k : ℕ) → i ≤ k → k < j → Passed t in_hz max_hz k

Passed-from :
    (t : FreqTable) (in_hz max_hz i j k : ℕ)
    → Passed t in_hz max_hz i
    → Ends t in_hz max_hz (suc i) j
    → i ≤ k
    → k < j
    → Passed t in_hz max_hz k
Passed-from t in_hz max_hz i j k p e le lt = elim (dec_le (suc i) k) [
  | yes later ↦ e.passed k later lt
  | no here ↦ let same : k ≡ i = omega arith in rw same p
]

Ends-next :
    (t : FreqTable) (in_hz max_hz i j : ℕ)
    → Passed t in_hz max_hz i
    → Ends t in_hz max_hz (suc i) j
    → Ends t in_hz max_hz i j
Ends-next t in_hz max_hz i j p e = record {
  from = let f = e.from in omega arith;
  inside = e.inside;
  stops = e.stops;
  passed = λ k le lt. Passed-from t in_hz max_hz i j k p e le lt;
}

Ends-here :
    (t : FreqTable) (in_hz max_hz i : ℕ)
    → i < t.count
    → Stops t in_hz max_hz i
    → Ends t in_hz max_hz i i
Ends-here t in_hz max_hz i lt s = record {
  from = omega arith;
  inside = lt;
  stops = s;
  passed = λ k le lt'. absurd (omega arith);
}

pub nearest_loop-Ends :
    (t : FreqTable) (in_hz max_hz rounds i : ℕ)
    → IsTable t
    → i + rounds + 1 ≡ t.count
    → (j : ℕ) × (nearest_loop t in_hz max_hz rounds i ≡ some j) × Ends t in_hz max_hz i j
unfolding nearest_loop
nearest_loop-Ends t in_hz max_hz zero i h e =
    (i, refl, Ends-here t in_hz max_hz i (omega arith) (inl (omega arith)))
nearest_loop-Ends t in_hz max_hz (suc rounds) i h e =
    let here = hz_at t i in
    let next = hz_at t (suc i) in
    let (j, eq, ends) = nearest_loop-Ends t in_hz max_hz rounds (suc i) h (omega arith) in
    rw (read-some t i h (omega arith), read-some t (suc i) h (omega arith))
      (elim (Bool-cases (ltb 0 max_hz && leb max_hz here)) [
        | inl cap ↦ (i, rw cap, Ends-here t in_hz max_hz i (omega arith) (ground (arith, cap)))
        | inr under ↦ elim (Bool-cases (leb in_hz ((here + next) / 2))) [
          | inl near ↦ (
            i,
            rw (under, near),
            Ends-here t in_hz max_hz i (omega arith) (inr (inr (omega arith, leb→le _ _ near))),
          )
          | inr far ↦ (
            j,
            rw (under, far) eq,
            Ends-next t in_hz max_hz i j (ground (arith, under, far)) ends,
          )
        ]
      ])

-- The search ends at an index of the table, and returns the entry there.
pub get_nearest_hz-Ends :
    (t : FreqTable) (in_hz max_hz : ℕ)
    → IsTable t
    → (j : ℕ) × (get_nearest_hz t in_hz max_hz ≡ some (hz_at t j)) × Ends t in_hz max_hz 0 j
unfolding get_nearest_hz
get_nearest_hz-Ends t in_hz max_hz h =
    let rounds = (t.count + 2 ^ 32 - 1) % 2 ^ 32 in
    let (j, eq, ends) = nearest_loop-Ends t in_hz max_hz rounds 0 h (omega arith) in
    (j, rw eq (read-some t j h ends.inside), ends)
