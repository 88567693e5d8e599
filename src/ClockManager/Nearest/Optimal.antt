-- ===== src/ClockManager/Nearest/Optimal.antt =====
-- What `GetNearestHz` finds in a rising table: the nearest entry below the cap.
use horizon_oc.Prelude.{ℕ, zero, suc, ◌≤◌, ◌<◌, ◌≡◌, some, ◌⊎◌, arith, inl, inr}
use native.Mathlib.Decide.{dec_le}
use horizon_oc.ClockManager.State.{FreqTable}
use horizon_oc.ClockManager.Tables.{hz_at, IsTable, Rises, Rises-mono, distance}
use horizon_oc.ClockManager.Nearest.{get_nearest_hz}
use horizon_oc.ClockManager.Nearest.Loop.{Ends, Stops, get_nearest_hz-Ends}

-- Each entry that the loop has passed is no nearer than the one at which it ends.
nearer_than_passed :
    (t : FreqTable) (in_hz max_hz j k : ℕ)
    → Rises t
    → Ends t in_hz max_hz 0 j
    → k ≤ j
    → distance in_hz (hz_at t j) ≤ distance in_hz (hz_at t k)
nearer_than_passed t in_hz max_hz zero k r e le =
    let same : k ≡ 0 = omega arith in rw same (omega arith)
nearer_than_passed t in_hz max_hz (suc j) k r e le = elim (dec_le k j) [
  | yes before ↦ omega (
    arith,
    (e.passed j (omega arith) (omega arith)).1,
    Rises-mono t k j r before (let f = e.inside in omega arith),
    r j e.inside,
  )
  | no here ↦ let same : k ≡ suc j = omega arith in rw same (omega arith)
]

-- An entry after the end of the loop is no nearer, or not below the cap.
nearer_than_later :
    (t : FreqTable) (in_hz max_hz j k : ℕ)
    → Rises t
    → Stops t in_hz max_hz j
    → j < k
    → k < t.count
    → (max_hz ≡ 0) ⊎ (hz_at t k < max_hz)
    → distance in_hz (hz_at t j) ≤ distance in_hz (hz_at t k)
nearer_than_later t in_hz max_hz j k r (inl last) lt inside below = absurd (omega arith)
nearer_than_later t in_hz max_hz j k r (inr (inl cap)) lt inside below =
    omega (arith, Rises-mono t j k r (omega arith) inside)
nearer_than_later t in_hz max_hz j k r (inr (inr near)) lt inside below =
    omega (arith, near.1, r j near.0, Rises-mono t (suc j) k r lt inside)

nearest_index :
    (t : FreqTable) (in_hz max_hz j k : ℕ)
    → Rises t
    → Ends t in_hz max_hz 0 j
    → k < t.count
    → (max_hz ≡ 0) ⊎ (hz_at t k < max_hz)
    → distance in_hz (hz_at t j) ≤ distance in_hz (hz_at t k)
nearest_index t in_hz max_hz j k r e inside below = elim (dec_le k j) [
  | yes before ↦ nearer_than_passed t in_hz max_hz j k r e before
  | no after ↦ nearer_than_later t in_hz max_hz j k r e.stops (omega arith) inside below
]

-- Nothing that the loop has passed reaches the cap, so the end is at most the first entry that does.
under_cap_index :
    (t : FreqTable) (in_hz max_hz j k : ℕ)
    → Rises t
    → Ends t in_hz max_hz 0 j
    → 0 < max_hz
    → k < t.count
    → max_hz ≤ hz_at t k
    → hz_at t j ≤ hz_at t k
under_cap_index t in_hz max_hz j k r e pos inside cap = elim (dec_le j k) [
  | yes before ↦ Rises-mono t j k r before inside
  | no after ↦ absurd (omega (arith, (e.passed k (omega arith) (omega arith)).0))
]

-- On a table that is in use and rises, the search returns an entry of the table, and no entry
-- that lies below the cap (or no entry at all, with the cap 0) is nearer to the requested clock.
pub get_nearest_hz-nearest :
    (t : FreqTable) (in_hz max_hz : ℕ)
    → IsTable t
    → Rises t
    → (j : ℕ) × (j < t.count)
      × (get_nearest_hz t in_hz max_hz ≡ some (hz_at t j))
      × ((k : ℕ)
          → k < t.count
          → (max_hz ≡ 0) ⊎ (hz_at t k < max_hz)
          → distance in_hz (hz_at t j) ≤ distance in_hz (hz_at t k))
get_nearest_hz-nearest t in_hz max_hz h r =
    let (j, eq, ends) = get_nearest_hz-Ends t in_hz max_hz h in
    (j, ends.inside, eq, λ k inside below. nearest_index t in_hz max_hz j k r ends inside below)

-- With a cap that is not 0, the result is at most every entry that reaches the cap: so where the
-- cap is itself an entry of the table, the result does not pass the cap.
pub get_nearest_hz-le-cap :
    (t : FreqTable) (in_hz max_hz k : ℕ)
    → IsTable t
    → Rises t
    → 0 < max_hz
    → k < t.count
    → max_hz ≤ hz_at t k
    → (hz : ℕ) × (get_nearest_hz t in_hz max_hz ≡ some hz) × (hz ≤ hz_at t k)
get_nearest_hz-le-cap t in_hz max_hz k h r pos inside cap =
    let (j, eq, ends) = get_nearest_hz-Ends t in_hz max_hz h in
    (hz_at t j, eq, under_cap_index t in_hz max_hz j k r ends pos inside cap)
