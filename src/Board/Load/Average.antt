-- ===== src/Board/Load/Average.antt =====
-- The GPU load is the average of the last eight samples.
use horizon_oc.Prelude.{
  get_or, length, take, All, u32, u64, signed32, div_ℤ, word32, ltb, ℕ, zero, suc, ◌+◌, ◌-◌, ◌*◌,
  ◌/◌, ◌%◌, ◌^◌, ◌≤◌, ◌<◌, ◌≡◌, ◌≢◌, refl, sym, ap, ◌∙◌, true, Option, none, some, List, [], ◌∷◌,
  arith,
}
use horizon_oc.Board.Load.{
  GpuLoadState, gpu_load_rounds, gpu_load_round, first_gpu_load, set_at, sum,
}

-- The samples among the answers of the driver.
abbrev pub samples : List (Option ℕ) → List ℕ
samples [] = []
samples (none ∷ os) = samples os
samples (some x ∷ os) = x ∷ samples os

length-set_at : (xs : List ℕ) (k v : ℕ) → length (set_at xs k v) ≡ length xs
length-set_at [] k v = refl
length-set_at (x ∷ xs) zero v = refl
length-set_at (x ∷ xs) (suc k) v = ap suc (length-set_at xs k v)

get_or-set_at : (xs : List ℕ) (k v : ℕ) → k < length xs → get_or (set_at xs k v) k 0 ≡ v
get_or-set_at [] k v h = elim h [ ]
get_or-set_at (x ∷ xs) zero v h = refl
get_or-set_at (x ∷ xs) (suc k) v h = get_or-set_at xs k v (omega arith)

get_or-other : (xs : List ℕ) (k j v : ℕ) → j ≢ k → get_or (set_at xs k v) j 0 ≡ get_or xs j 0
get_or-other [] k j v ne = refl
get_or-other (x ∷ xs) zero zero v ne = absurd (ne refl)
get_or-other (x ∷ xs) zero (suc j) v ne = refl
get_or-other (x ∷ xs) (suc k) zero v ne = refl
get_or-other (x ∷ xs) (suc k) (suc j) v ne = get_or-other xs k j v (λ e. ne (ap suc e))

sum-set_at :
    (xs : List ℕ) (k v : ℕ) → k < length xs → sum (set_at xs k v) + get_or xs k 0 ≡ sum xs + v
sum-set_at [] k v h = elim h [ ]
sum-set_at (x ∷ xs) zero v h = omega arith
sum-set_at (x ∷ xs) (suc k) v h = omega (arith, sum-set_at xs k v (omega arith))

sum-take : (xs : List ℕ) (n : ℕ) → sum (take (suc n) xs) ≡ sum (take n xs) + get_or xs n 0
sum-take [] zero = refl
sum-take [] (suc n) = refl
sum-take (x ∷ xs) zero = omega arith
sum-take (x ∷ xs) (suc n) = omega (arith, sum-take xs n)

-- The array holds the last samples, the newest below the index.
record Holds (xs : List ℕ) (s : GpuLoadState) : Type 0 where
  eight : length s.gpu_load_array ≡ 8
  newest : (k : ℕ) → k < 8 → get_or s.gpu_load_array ((s.i + 7 - k) % 8) 0 ≡ get_or xs k 0
  total : sum s.gpu_load_array ≡ sum (take 8 xs)

zeros_at : (xs : List ℕ) (k : ℕ) → All (λ x. x ≡ 0) xs → get_or xs k 0 ≡ 0
zeros_at [] k all = refl
zeros_at (x ∷ xs) zero all = all.0
zeros_at (x ∷ xs) (suc k) all = zeros_at xs k all.1

first-Holds : Holds [] first_gpu_load
first-Holds = record {
  eight = refl;
  newest = λ k h.
      zeros_at first_gpu_load.gpu_load_array ((0 + 7 - k) % 8)
        (refl, (refl, (refl, (refl, (refl, (refl, (refl, (refl, tt))))))));
  total = refl;
}

-- The sample under the index is the one before seven others.
oldest :
    (xs : List ℕ) (s : GpuLoadState)
    → Holds xs s
    → get_or s.gpu_load_array (s.i % 8) 0 ≡ get_or xs 7 0
oldest xs s h =
    let same : (s.i + 7 - 7) % 8 ≡ s.i % 8 = omega arith in
    ap (λ k. get_or s.gpu_load_array k 0) (sym same) ∙ h.newest 7 (omega arith)

newest_after :
    (xs : List ℕ) (x : ℕ) (s : GpuLoadState) (k : ℕ)
    → Holds xs s
    → k < 8
    → get_or (set_at s.gpu_load_array (s.i % 8) x) ((u64 (s.i + 1) + 7 - k) % 8) 0
      ≡ get_or (x ∷ xs) k 0
newest_after xs x s zero h small =
    let same : (u64 (s.i + 1) + 7 - 0) % 8 ≡ s.i % 8 = omega arith in
    ap (λ k. get_or (set_at s.gpu_load_array (s.i % 8) x) k 0) same
    ∙ get_or-set_at s.gpu_load_array (s.i % 8) x (omega (arith, h.eight))
newest_after xs x s (suc k) h small =
    let same : (u64 (s.i + 1) + 7 - suc k) % 8 ≡ (s.i + 7 - k) % 8 = omega arith in
    let other : (s.i + 7 - k) % 8 ≢ s.i % 8 = λ e. omega arith in
    ap (λ j. get_or (set_at s.gpu_load_array (s.i % 8) x) j 0) same
    ∙ get_or-other s.gpu_load_array (s.i % 8) ((s.i + 7 - k) % 8) x other
    ∙ h.newest k (omega arith)

round-Holds :
    (xs : List ℕ) (x : ℕ) (s : GpuLoadState)
    → Holds xs s
    → Holds (x ∷ xs) (gpu_load_round (some x) s)
unfolding gpu_load_round
round-Holds xs x s h = record {
  eight = length-set_at s.gpu_load_array (s.i % 8) x ∙ h.eight;
  newest = λ k small. newest_after xs x s k h small;
  total =
      let change = sum-set_at s.gpu_load_array (s.i % 8) x (omega (arith, h.eight)) in
      let last = oldest xs s h in
      let cut = sum-take xs 7 in omega (arith, change, last, cut, h.total);
}

rounds-Holds : (os : List (Option ℕ)) → Holds (samples os) (gpu_load_rounds os)
unfolding gpu_load_rounds gpu_load_round
rounds-Holds [] = first-Holds
rounds-Holds (none ∷ os) = rounds-Holds os
rounds-Holds (some x ∷ os) = round-Holds (samples os) x (gpu_load_rounds os) (rounds-Holds os)

sum_small : (xs : List ℕ) (n : ℕ) → All (λ x. x < 2 ^ 27) xs → sum (take n xs) ≤ n * 2 ^ 27
sum_small xs zero small = omega arith
sum_small [] (suc n) small = omega arith
sum_small (x ∷ xs) (suc n) small = omega (arith, small.0, sum_small xs n small.1)

-- Without the signed detour, for a sum that an `int` holds.
average : (n : ℕ) → n < 2 ^ 31 → word32 (div_ℤ (signed32 (u32 n)) 8) ≡ n / 8
average n small =
    let whole : u32 n ≡ n = omega arith in
    let sign : ltb n (2 ^ 31) ≡ true = ground arith in rw (whole, sign) refl

load_of :
    (os : List (Option ℕ))
    → (gpu_load_rounds os).gpu_load
      ≡ word32 (div_ℤ (signed32 (u32 (sum (gpu_load_rounds os).gpu_load_array))) 8)
unfolding gpu_load_rounds gpu_load_round
load_of [] = refl
load_of (none ∷ os) = load_of os
load_of (some x ∷ os) = refl

-- After any rounds of the thread, of which some may have given no sample, the GPU load is the
-- average of the last eight samples, rounded down, where missing ones count as 0; the samples
-- are below 2^27.
pub gpu_load_rounds-average :
    (os : List (Option ℕ))
    → All (λ x. x < 2 ^ 27) (samples os)
    → (gpu_load_rounds os).gpu_load ≡ sum (take 8 (samples os)) / 8
gpu_load_rounds-average os small =
    let bound = sum_small (samples os) 8 small in
    load_of os
    ∙ rw (rounds-Holds os).total (average (sum (take 8 (samples os))) (omega (arith, bound)))
