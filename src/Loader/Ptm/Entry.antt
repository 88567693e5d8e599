-- ===== src/Loader/Ptm/Entry.antt =====
-- What the loop of `Patch` does to one entry of the table.
use horizon_oc.Prelude.{
  bind_some, ◌==◌, truthy, if◌then◌else◌, ℕ, ◌+◌, ◌≡◌, ◌⊎◌, inl, inr, refl, Bool, true, false, sym,
  ap, ◌∙◌, Bool-cases, ◌≢◌, some, ◌&&◌, ◌<◌, ◌≤◌, arith,
}
use horizon_oc.Loader.Memory.{Memory}
use horizon_oc.Loader.Customize.{CustomizeTable}
use horizon_oc.Loader.Patcher.{success}
use horizon_oc.Loader.Ptm.{
  cpu_ptm_default, cpu_ptm_dev_oc, cpu_ptm_boost, mem_ptm_limit, mem_ptm_alt, mem_ptm_clamp,
  cpu_ptm_boost_new, apply_cpu_ptm_boost, mem_ptm, PtmState, ptm_entry_is_valid, apply_cpu_patch,
  apply_mem_patch, cpu_switch, mem_switch, patch_entry,
}

-- An entry as the module has it: equal pairs, and clocks that the loader knows.
pub record IsKnown (entry : ℕ) (m : Memory) : Type 0 where
  pub cpu_pair : m (entry + 1) ≡ m (entry + 2)
  pub gpu_pair : m (entry + 3) ≡ m (entry + 4)
  pub emc_pair : m (entry + 5) ≡ m (entry + 6)
  pub cpu_clock :
      (m (entry + 1) ≡ cpu_ptm_boost)
      ⊎ (m (entry + 1) ≡ cpu_ptm_default)
      ⊎ (m (entry + 1) ≡ cpu_ptm_dev_oc)
  pub emc_clock :
      (m (entry + 5) ≡ mem_ptm_limit)
      ⊎ (m (entry + 5) ≡ mem_ptm_alt)
      ⊎ (m (entry + 5) ≡ mem_ptm_clamp)

-- The CPU clock of a patched entry.
abbrev pub new_cpu : Bool → CustomizeTable → ℕ → ℕ
new_cpu is_mariko c freq =
    if (freq == cpu_ptm_boost) && truthy c.erista_cpu_boost_clock && truthy c.mariko_cpu_boost_clock
    then cpu_ptm_boost_new is_mariko c
    else freq

-- The memory clock of a patched entry.
abbrev pub new_emc : Bool → ℕ → ℕ
new_emc is_mariko freq = if is_mariko then mem_ptm_limit else freq

-- The entry of `m'` is the one of `m` with the new clocks, and with nothing else changed.
pub record IsPatched (is_mariko : Bool) (c : CustomizeTable) (entry : ℕ) (m m' : Memory)
    : Type 0 where
  pub conf_id : m' entry ≡ m entry
  pub cpu_freq_1 : m' (entry + 1) ≡ new_cpu is_mariko c (m (entry + 1))
  pub cpu_freq_2 : m' (entry + 2) ≡ m' (entry + 1)
  pub gpu_freq_1 : m' (entry + 3) ≡ m (entry + 3)
  pub gpu_freq_2 : m' (entry + 4) ≡ m (entry + 4)
  pub emc_freq_1 : m' (entry + 5) ≡ new_emc is_mariko (m (entry + 5))
  pub emc_freq_2 : m' (entry + 6) ≡ m' (entry + 5)
  pub padding : m' (entry + 7) ≡ m (entry + 7)

-- The two patches of the state are those of `Patch`.
pub record HasPatches (is_mariko : Bool) (c : CustomizeTable) (s : PtmState) : Type 0 where
  pub cpu_fn : s.cpu_patch.patcher_fn ≡ apply_cpu_ptm_boost is_mariko c
  pub cpu_max : s.cpu_patch.maximum_patched_count ≡ 2
  pub mem_fn : s.mem_patch.patcher_fn ≡ mem_ptm
  pub mem_max : s.mem_patch.maximum_patched_count ≡ 16

-- 1 at an entry with the boost clock.
abbrev pub boosts : ℕ → ℕ
boosts freq = if freq == cpu_ptm_boost then 1 else 0

-- What a round leaves of a state.
pub record Round (is_mariko : Bool) (c : CustomizeTable) (entry : ℕ) (s s' : PtmState)
    : Type 0 where
  pub patches : HasPatches is_mariko c s'
  pub patched : IsPatched is_mariko c entry s.memory s'.memory
  pub outside : (a : ℕ) → (a < entry) ⊎ (entry + 8 ≤ a) → s'.memory a ≡ s.memory a
  pub cpu_count :
      s'.cpu_patch.patched_count ≡ s.cpu_patch.patched_count + boosts (s.memory (entry + 1))
  pub mem_count :
      s'.mem_patch.patched_count ≡ s.mem_patch.patched_count + (if is_mariko then 1 else 0)

-- What the first `switch` leaves.
record CpuRound (is_mariko : Bool) (c : CustomizeTable) (entry : ℕ) (s s' : PtmState) : Type 0 where
  patches : HasPatches is_mariko c s'
  first : s'.memory (entry + 1) ≡ new_cpu is_mariko c (s.memory (entry + 1))
  second : s'.memory (entry + 2) ≡ s'.memory (entry + 1)
  others : (a : ℕ) → a ≢ entry + 1 → a ≢ entry + 2 → s'.memory a ≡ s.memory a
  count : s'.cpu_patch.patched_count ≡ s.cpu_patch.patched_count + boosts (s.memory (entry + 1))
  mem_count : s'.mem_patch.patched_count ≡ s.mem_patch.patched_count

-- What the second `switch` leaves.
record MemRound (is_mariko : Bool) (c : CustomizeTable) (entry : ℕ) (s s' : PtmState) : Type 0 where
  patches : HasPatches is_mariko c s'
  first : s'.memory (entry + 5) ≡ new_emc is_mariko (s.memory (entry + 5))
  second : s'.memory (entry + 6) ≡ s'.memory (entry + 5)
  others : (a : ℕ) → a ≢ entry + 5 → a ≢ entry + 6 → s'.memory a ≡ s.memory a
  count : s'.mem_patch.patched_count ≡ s.mem_patch.patched_count + (if is_mariko then 1 else 0)
  cpu_count : s'.cpu_patch.patched_count ≡ s.cpu_patch.patched_count

-- `CpuPtmBoost` on an entry with the boost clock.
record BoostApplied (is_mariko : Bool) (c : CustomizeTable) (entry : ℕ) (m m' : Memory)
    : Type 0 where
  first : m' (entry + 1) ≡ new_cpu is_mariko c (m (entry + 1))
  second : m' (entry + 2) ≡ m' (entry + 1)
  others : (a : ℕ) → a ≢ entry + 1 → a ≢ entry + 2 → m' a ≡ m a

apply_cpu_ptm_boost-BoostApplied :
    (is_mariko : Bool) (c : CustomizeTable) (entry : ℕ) (m : Memory)
    → m (entry + 1) ≡ cpu_ptm_boost
    → m (entry + 1) ≡ m (entry + 2)
    → ((apply_cpu_ptm_boost is_mariko c entry m).0 ≡ success)
      × BoostApplied is_mariko c entry m (apply_cpu_ptm_boost is_mariko c entry m).1
unfolding apply_cpu_ptm_boost
apply_cpu_ptm_boost-BoostApplied is_mariko c entry m boost pair =
    elim (Bool-cases (truthy c.erista_cpu_boost_clock)) [
      | inl e ↦ elim (Bool-cases (truthy c.mariko_cpu_boost_clock)) [
        | inl k ↦ (
          rw (e, k) refl,
          record {
            first = rw (e, k, boost) (ground arith);
            second = rw (e, k) (ground arith);
            others = λ a h h'. rw (e, k) (ground arith);
          },
        )
        | inr k ↦ (
          rw (e, k) refl,
          record {
            first = rw (e, k, boost) refl;
            second = rw (e, k) (sym pair);
            others = λ a h h'. rw (e, k) refl;
          },
        )
      ]
      | inr e ↦ (
        rw e refl,
        record {
          first = rw (e, boost) refl;
          second = rw e (sym pair);
          others = λ a h h'. rw e refl;
        },
      )
    ]

cpu_switch-CpuRound :
    (is_mariko : Bool) (c : CustomizeTable) (entry : ℕ) (s : PtmState)
    → HasPatches is_mariko c s
    → IsKnown entry s.memory
    → (s' : PtmState) × (cpu_switch entry s ≡ some s') × CpuRound is_mariko c entry s s'
unfolding cpu_switch
cpu_switch-CpuRound is_mariko c entry s p k = elim k.cpu_clock [
  | inl boost ↦
      let (ok, b) = apply_cpu_ptm_boost-BoostApplied is_mariko c entry s.memory boost k.cpu_pair in
      (
        apply_cpu_patch entry s,
        rw boost refl,
        record {
          patches = record {
            cpu_fn = rw (p.cpu_fn, ok) refl;
            cpu_max = rw (p.cpu_fn, ok) p.cpu_max;
            mem_fn = p.mem_fn;
            mem_max = p.mem_max;
          };
          first = rw p.cpu_fn b.first;
          second = rw p.cpu_fn b.second;
          others = rw p.cpu_fn b.others;
          count = rw (p.cpu_fn, ok, boost) (omega arith);
          mem_count = refl;
        },
      )
  | inr (inl default) ↦ (
    s,
    rw default refl,
    record {
      patches = p;
      first = rw default refl;
      second = sym k.cpu_pair;
      others = λ a h h'. refl;
      count = rw default (omega arith);
      mem_count = refl;
    },
  )
  | inr (inr dev) ↦ (
    s,
    rw dev refl,
    record {
      patches = p;
      first = rw dev refl;
      second = sym k.cpu_pair;
      others = λ a h h'. refl;
      count = rw dev (omega arith);
      mem_count = refl;
    },
  )
]

mem_switch-MemRound :
    (is_mariko : Bool) (c : CustomizeTable) (entry : ℕ) (s : PtmState)
    → HasPatches is_mariko c s
    → (s.memory (entry + 5) ≡ s.memory (entry + 6))
    → (s.memory (entry + 5) ≡ mem_ptm_limit)
      ⊎ (s.memory (entry + 5) ≡ mem_ptm_alt)
      ⊎ (s.memory (entry + 5) ≡ mem_ptm_clamp)
    → (s' : PtmState) × (mem_switch is_mariko entry s ≡ some s') × MemRound is_mariko c entry s s'
unfolding mem_switch mem_ptm
mem_switch-MemRound false c entry s p pair k = (
  s,
  ground (arith, k),
  record {
    patches = p;
    first = refl;
    second = sym pair;
    others = λ a h h'. refl;
    count = omega arith;
    cpu_count = refl;
  },
)
mem_switch-MemRound true c entry s p pair k = (
  apply_mem_patch entry s,
  ground (arith, k),
  record {
    patches = record {
      cpu_fn = p.cpu_fn;
      cpu_max = p.cpu_max;
      mem_fn = rw p.mem_fn refl;
      mem_max = rw p.mem_fn p.mem_max;
    };
    first = rw p.mem_fn (ground arith);
    second = rw p.mem_fn (ground arith);
    others = λ a h h'. rw p.mem_fn (ground arith);
    count = rw p.mem_fn (omega arith);
    cpu_count = refl;
  },
)

valid-IsKnown : (entry : ℕ) (m : Memory) → IsKnown entry m → ptm_entry_is_valid entry m ≡ true
valid-IsKnown entry m k = ground (arith, k.cpu_pair, k.gpu_pair, k.emc_pair)

-- A known entry is patched.
pub patch_entry-Round :
    (is_mariko : Bool) (c : CustomizeTable) (entry : ℕ) (s : PtmState)
    → HasPatches is_mariko c s
    → IsKnown entry s.memory
    → (s' : PtmState) × (patch_entry is_mariko entry s ≡ some s') × Round is_mariko c entry s s'
unfolding patch_entry
patch_entry-Round is_mariko c entry s p k =
    let (t, e, a) = cpu_switch-CpuRound is_mariko c entry s p k in
    let five = a.others (entry + 5) (omega arith) (omega arith) in
    let six = a.others (entry + 6) (omega arith) (omega arith) in
    let (s', e', b) =
      mem_switch-MemRound is_mariko c entry t a.patches (five ∙ k.emc_pair ∙ sym six)
        (rw five k.emc_clock) in
    let kept : (i : ℕ)
        → i ≢ entry + 1
        → i ≢ entry + 2
        → i ≢ entry + 5
        → i ≢ entry + 6
        → s'.memory i ≡ s.memory i =
      λ i h1 h2 h5 h6. b.others i h5 h6 ∙ a.others i h1 h2 in
    (
      s',
      rw (valid-IsKnown entry s.memory k) (bind_some _ _ _ e e'),
      record {
        patches = b.patches;
        patched = record {
          conf_id = kept entry (omega arith) (omega arith) (omega arith) (omega arith);
          cpu_freq_1 = b.others (entry + 1) (omega arith) (omega arith) ∙ a.first;
          cpu_freq_2 =
              b.others (entry + 2) (omega arith) (omega arith)
              ∙ a.second
              ∙ sym (b.others (entry + 1) (omega arith) (omega arith));
          gpu_freq_1 = kept (entry + 3) (omega arith) (omega arith) (omega arith) (omega arith);
          gpu_freq_2 = kept (entry + 4) (omega arith) (omega arith) (omega arith) (omega arith);
          emc_freq_1 = b.first ∙ ap (new_emc is_mariko) five;
          emc_freq_2 = b.second;
          padding = kept (entry + 7) (omega arith) (omega arith) (omega arith) (omega arith);
        };
        outside = λ i far. kept i (omega arith) (omega arith) (omega arith) (omega arith);
        cpu_count = b.cpu_count ∙ a.count;
        mem_count = omega (arith, b.count, a.mem_count);
      },
    )
