-- ===== src/Loader/Ptm/Patched.antt =====
-- What `Patch` makes of the sixteen entries of the table.
use horizon_oc.Prelude.{
  bind_some, inl, some, if◌then◌else◌, ℕ, zero, suc, ◌+◌, ◌*◌, ◌≡◌, ◌⊎◌, inr, refl, sym, ap, ◌∙◌,
  Bool, ◌<◌, ◌≤◌, arith,
}
use horizon_oc.Loader.Memory.{Memory, rounds}
use horizon_oc.Loader.Customize.{CustomizeTable}
use horizon_oc.Loader.Ptm.{
  patch_entries, find_conf_table, patch_ptm, check_counts, entry_cnt, ptm_start, PtmState,
}
use horizon_oc.Loader.Ptm.Entry.{
  patch_entry-Round, IsKnown, IsPatched, HasPatches, Round, boosts, new_cpu, new_emc,
}

-- Two memories agree on the eight words of an entry.
abbrev SameEntry : ℕ → Memory → Memory → Type 0
SameEntry entry m m' = (a : ℕ) → entry ≤ a → a < entry + 8 → m' a ≡ m a

module _ (entry : ℕ) (m m' : Memory) (same : SameEntry entry m m') where
  at-same : (k : ℕ) → k < 8 → m' (entry + k) ≡ m (entry + k)
  at-same k h = same (entry + k) (omega arith) (omega arith)

  IsKnown-same : IsKnown entry m → IsKnown entry m'
  IsKnown-same k = record {
    cpu_pair = rw (at-same 1 (omega arith), at-same 2 (omega arith)) k.cpu_pair;
    gpu_pair = rw (at-same 3 (omega arith), at-same 4 (omega arith)) k.gpu_pair;
    emc_pair = rw (at-same 5 (omega arith), at-same 6 (omega arith)) k.emc_pair;
    cpu_clock = rw (at-same 1 (omega arith)) k.cpu_clock;
    emc_clock = rw (at-same 5 (omega arith)) k.emc_clock;
  }

  module _ (is_mariko : Bool) (c : CustomizeTable) (n : Memory) where
    IsPatched-from : IsPatched is_mariko c entry m' n → IsPatched is_mariko c entry m n
    IsPatched-from p = record {
      conf_id = p.conf_id ∙ same entry (omega arith) (omega arith);
      cpu_freq_1 = p.cpu_freq_1 ∙ ap (new_cpu is_mariko c) (at-same 1 (omega arith));
      cpu_freq_2 = p.cpu_freq_2;
      gpu_freq_1 = p.gpu_freq_1 ∙ at-same 3 (omega arith);
      gpu_freq_2 = p.gpu_freq_2 ∙ at-same 4 (omega arith);
      emc_freq_1 = p.emc_freq_1 ∙ ap (new_emc is_mariko) (at-same 5 (omega arith));
      emc_freq_2 = p.emc_freq_2;
      padding = p.padding ∙ at-same 7 (omega arith);
    }

    IsPatched-to : IsPatched is_mariko c entry n m → IsPatched is_mariko c entry n m'
    IsPatched-to p = record {
      conf_id = same entry (omega arith) (omega arith) ∙ p.conf_id;
      cpu_freq_1 = at-same 1 (omega arith) ∙ p.cpu_freq_1;
      cpu_freq_2 = at-same 2 (omega arith) ∙ p.cpu_freq_2 ∙ sym (at-same 1 (omega arith));
      gpu_freq_1 = at-same 3 (omega arith) ∙ p.gpu_freq_1;
      gpu_freq_2 = at-same 4 (omega arith) ∙ p.gpu_freq_2;
      emc_freq_1 = at-same 5 (omega arith) ∙ p.emc_freq_1;
      emc_freq_2 = at-same 6 (omega arith) ∙ p.emc_freq_2 ∙ sym (at-same 5 (omega arith));
      padding = at-same 7 (omega arith) ∙ p.padding;
    }

-- The entries with the boost clock.
abbrev pub boost_count : ℕ → ℕ → Memory → ℕ
boost_count zero entry m = 0
boost_count (suc n) entry m = boosts (m (entry + 1)) + boost_count n (entry + 8) m

boost_count-same :
    (n entry : ℕ) (m m' : Memory)
    → ((a : ℕ) → entry ≤ a → m' a ≡ m a)
    → boost_count n entry m' ≡ boost_count n entry m
boost_count-same zero entry m m' same = refl
boost_count-same (suc n) entry m m' same = rw (same (entry + 1) (omega arith)) (
    ap (λ r. boosts (m (entry + 1)) + r)
      (boost_count-same n (entry + 8) m m' (λ a h. same a (omega arith))))

-- What the loop over `n` entries leaves of a state.
record Loop (is_mariko : Bool) (c : CustomizeTable) (n entry : ℕ) (s s' : PtmState) : Type 0 where
  patches : HasPatches is_mariko c s'
  patched : (i : ℕ) → i < n → IsPatched is_mariko c (entry + 8 * i) s.memory s'.memory
  outside : (a : ℕ) → (a < entry) ⊎ (entry + 8 * n ≤ a) → s'.memory a ≡ s.memory a
  cpu_count : s'.cpu_patch.patched_count ≡ s.cpu_patch.patched_count + boost_count n entry s.memory
  mem_count : s'.mem_patch.patched_count ≡ s.mem_patch.patched_count + (if is_mariko then n else 0)

Loop-next :
    (is_mariko : Bool) (c : CustomizeTable) (n entry : ℕ) (s t s' : PtmState)
    → Round is_mariko c entry s t
    → Loop is_mariko c n (entry + 8) t s'
    → Loop is_mariko c (suc n) entry s s'
Loop-next is_mariko c n entry s t s' r l = record {
  patches = l.patches;
  patched = each;
  outside = λ a far. l.outside a (omega arith) ∙ r.outside a (omega arith);
  cpu_count = omega (
    arith,
    l.cpu_count,
    r.cpu_count,
    boost_count-same n (entry + 8) s.memory t.memory (λ a h. r.outside a (inr h)),
  );
  mem_count = counts is_mariko _ _ _ l.mem_count r.mem_count;
}
  where
    each : (i : ℕ) → i < suc n → IsPatched is_mariko c (entry + 8 * i) s.memory s'.memory
    each zero h =
        let here : entry + 8 * 0 ≡ entry = omega arith in
        rw here (
          IsPatched-to entry t.memory s'.memory (λ a lo hi. l.outside a (inl hi)) is_mariko c
            s.memory r.patched)
    each (suc i) h =
        let there : entry + 8 * suc i ≡ entry + 8 + 8 * i = omega arith in
        rw there (
          IsPatched-from (entry + 8 + 8 * i) s.memory t.memory
            (λ a lo hi. r.outside a (inr (omega arith))) is_mariko c s'.memory
            (l.patched i (omega arith)))

    counts :
        (b : Bool) (x y z : ℕ)
        → z ≡ y + (if b then n else 0)
        → y ≡ x + (if b then 1 else 0)
        → z ≡ x + (if b then suc n else 0)
    counts b x y z h k = ground arith

patch_entries-Loop :
    (is_mariko : Bool) (c : CustomizeTable) (n entry : ℕ) (s : PtmState)
    → HasPatches is_mariko c s
    → ((i : ℕ) → i < n → IsKnown (entry + 8 * i) s.memory)
    → (s' : PtmState) × (patch_entries is_mariko n entry s ≡ some s')
      × Loop is_mariko c n entry s s'
unfolding patch_entries
patch_entries-Loop is_mariko c zero entry s p known = (
  s,
  refl,
  record {
    patches = p;
    patched = λ i h. absurd (omega arith);
    outside = λ a far. refl;
    cpu_count = omega arith;
    mem_count = ground arith;
  },
)
patch_entries-Loop is_mariko c (suc n) entry s p known =
    let here : entry + 8 * 0 ≡ entry = omega arith in
    let (t, e, r) = patch_entry-Round is_mariko c entry s p (rw here at (known 0 (omega arith))) in
    let later : (i : ℕ) → i < n → IsKnown (entry + 8 + 8 * i) t.memory = λ i h.
      let there : entry + 8 * suc i ≡ entry + 8 + 8 * i = omega arith in
      IsKnown-same (entry + 8 + 8 * i) s.memory t.memory
        (λ a lo hi. r.outside a (inr (omega arith))) (rw there at (known (suc i) (omega arith))) in
    let (s', e', l) = patch_entries-Loop is_mariko c n (entry + 8) t r.patches later in
    (s', bind_some _ _ _ e e', Loop-next is_mariko c n entry s t s' r l)

start-HasPatches :
    (is_mariko : Bool) (c : CustomizeTable) (m : Memory)
    → HasPatches is_mariko c (ptm_start is_mariko c m)
start-HasPatches is_mariko c m = record {
  cpu_fn = refl;
  cpu_max = refl;
  mem_fn = refl;
  mem_max = refl;
}

mem_fits : (is_mariko : Bool) (n : ℕ) → n ≡ 0 + (if is_mariko then 16 else 0) → n ≤ 16
mem_fits is_mariko n e = ground arith

-- Counts within the limits of the two patches pass the checks.
counts-pass :
    (is_mariko : Bool) (c : CustomizeTable) (s : PtmState)
    → HasPatches is_mariko c s
    → s.cpu_patch.patched_count ≤ 2
    → s.mem_patch.patched_count ≤ 16
    → check_counts is_mariko s ≡ some s.memory
counts-pass is_mariko c s p few fits = rw (p.cpu_max, p.mem_max) (ground arith)

-- If the search finds a table of sixteen known entries, of which two at most have the boost clock,
-- then `Patch` does not crash. In every entry the boost clock becomes the one of the settings,
-- when both of these are set, and on Mariko the memory clock becomes 1600 MHz; each pair stays
-- equal, no other field changes, and no word outside the table.
pub patch_ptm-IsPatched :
    (is_mariko : Bool) (c : CustomizeTable) (mapped_nso nso_size table : ℕ) (m : Memory)
    → find_conf_table (rounds nso_size (32 * entry_cnt)) mapped_nso m ≡ some table
    → ((i : ℕ) → i < entry_cnt → IsKnown (table + 8 * i) m)
    → boost_count entry_cnt table m ≤ 2
    → (m' : Memory) × (patch_ptm is_mariko c mapped_nso nso_size m ≡ some m')
      × ((i : ℕ) → i < entry_cnt → IsPatched is_mariko c (table + 8 * i) m m')
      × ((a : ℕ) → (a < table) ⊎ (table + 8 * entry_cnt ≤ a) → m' a ≡ m a)
unfolding patch_ptm
patch_ptm-IsPatched is_mariko c mapped_nso nso_size table m found known few =
    let (s', e, l) =
      patch_entries-Loop is_mariko c entry_cnt table (ptm_start is_mariko c m)
        (start-HasPatches is_mariko c m) known in
    (
      s'.memory,
      bind_some _ _ _ found (
          bind_some _ _ _ e (
            counts-pass is_mariko c s' l.patches (omega (arith, l.cpu_count))
              (mem_fits is_mariko _ l.mem_count))),
      l.patched,
      l.outside,
    )
