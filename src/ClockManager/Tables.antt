-- ===== src/ClockManager/Tables.antt =====
-- What the code needs of a frequency table: entries in use, inside the array, in rising order.
use horizon_oc.Prelude.{
  ℕ, zero, suc, ◌+◌, ◌-◌, ◌≤◌, ◌<◌, ◌≡◌, some, arith, length, get_or, get_elem?-get_or,
}
use native.Mathlib.Decide.{dec_le}
use horizon_oc.ClockManager.State.{FreqTable, read}

abbrev pub hz_at : FreqTable → ℕ → ℕ
hz_at t i = get_or t.list i 0

pub record IsTable (t : FreqTable) : Type 0 where
  pub used : 0 < t.count
  pub word : t.count < 4294967296
  pub fits : t.count ≤ length t.list

abbrev pub Rises : FreqTable → Type 0
Rises t = (i : ℕ) → suc i < t.count → hz_at t i ≤ hz_at t (suc i)

-- The distance of two frequencies.
abbrev pub distance : ℕ → ℕ → ℕ
distance a b = (a - b) + (b - a)

pub read-some : (t : FreqTable) (i : ℕ) → IsTable t → i < t.count → read t i ≡ some (hz_at t i)
read-some t i h lt = get_elem?-get_or t.list i 0 (omega arith)

pub Rises-mono : (t : FreqTable) (i j : ℕ) → Rises t → i ≤ j → j < t.count → hz_at t i ≤ hz_at t j
Rises-mono t i zero r le lt = let e : i ≡ 0 = omega arith in rw e (omega arith)
Rises-mono t i (suc j) r le lt = elim (dec_le i j) [
  | yes p ↦ omega (arith, Rises-mono t i j r p (omega arith), r j lt)
  | no p ↦ let e : i ≡ suc j = omega arith in rw e (omega arith)
]
