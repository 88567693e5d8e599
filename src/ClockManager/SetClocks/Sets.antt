-- ===== src/ClockManager/SetClocks/Sets.antt =====
-- The clock that `SetClocks` sets and records for a module.
use horizon_oc.Prelude.{
  ltb, ◌&&◌, List, [], ◌∷◌, ◌++◌, ap, ◌∙◌, Bool-cases, inl, inr, ◌⊎◌, ◌≢◌, ◌==◌, if◌then◌else◌,
  truthy, ==_iff, ℕ, ◌<◌, ◌≡◌, refl, sym, Bool, true, false, Option, some, arith,
}
use mathlib.Core.List.{append_assoc}
use horizon_oc.Config.Values.{live_cpu_uv}
use horizon_oc.Board.Types.{Module, at, put}
use horizon_oc.ClockManager.State.{Sys, Hw, Cmd, set_hz, issue, config_value, pcv_hijack_gpu_volts}
use horizon_oc.ClockManager.Tables.{IsTable, hz_at}
use horizon_oc.ClockManager.Limits.{get_max_allowed_hz, is_erista}
use horizon_oc.ClockManager.Nearest.{get_nearest_hz}
use horizon_oc.ClockManager.Nearest.Loop.{get_nearest_hz-Ends}
use horizon_oc.ClockManager.Resets.{
  dvfs_after_set, dvfs_before_set, handle_cpu_uv, nearest_gpu, retune_gpu, hijacks, after_vmin,
}
use horizon_oc.ClockManager.SetClocks.{
  is_mem, is_cpu, set_freq, set_nearest, change_clock, set_scaled,
}
use horizon_oc.ClockManager.Context.Agrees.{at-put, module_eq_self}
use horizon_oc.ClockManager.Tick.Total.{AllTables, AllTables-Same, set_nearest-tables}

-- A log with more commands at its end than another.
abbrev pub Extends : List Cmd → List Cmd → Type 0
Extends old new = (later : List Cmd) × (new ≡ later ++ old)

-- A log to which commands were added, with one among them that sets the clock of `m`.
abbrev pub Commands : Module → ℕ → List Cmd → List Cmd → Type 0
Commands m hz old new =
    (before : List Cmd) × Extends old before × Extends (set_hz m hz ∷ before) new

Extends-trans : (a b c : List Cmd) → Extends a b → Extends b c → Extends a c
Extends-trans a b c (xs, e) (ys, e') =
    (ys ++ xs, e' ∙ ap (λ l. ys ++ l) e ∙ sym (append_assoc ys xs a))

-- The step ends with the clock `hz` on record for `m`, after it was given to the board.
record Sets (m : Module) (hz : ℕ) (old : List Cmd) (o : Option Sys) : Type 0 where
  last : Sys
  runs : o ≡ some last
  freq : at last.context.freqs m ≡ hz
  given : Commands m hz old last.log

one_more : (c : Cmd) (old : List Cmd) → Extends old (c ∷ old)
one_more c old = (c ∷ [], refl)

if-Extends :
    (b : Bool) (old : List Cmd) (x y : Sys)
    → Extends old x.log
    → Extends old y.log
    → Extends old (if b then x else y).log
if-Extends true old x y h h' = h
if-Extends false old x y h h' = h'

cpu_uv-Extends : (hw : Hw) (s : Sys) → Extends s.log (handle_cpu_uv hw s).log
unfolding handle_cpu_uv
cpu_uv-Extends hw s =
    if-Extends (is_erista hw.soc_type) s.log _ _ (one_more _ s.log) (one_more _ s.log)

before-Extends : (hw : Hw) (target : ℕ) (s : Sys) → Extends s.log (dvfs_before_set hw target s).log
unfolding dvfs_before_set
before-Extends hw target s = if-Extends _ s.log _ _ (_ ∷ _ ∷ [], refl) (one_more _ s.log)

retune-Extends : (target nearest : ℕ) (s : Sys) → Extends s.log (retune_gpu target nearest s).log
unfolding retune_gpu
retune-Extends target nearest s =
    if-Extends (truthy target) s.log _ _ (_ ∷ _ ∷ [], refl) (_ ∷ _ ∷ [], refl)

set_nearest-Commands :
    (hw : Hw) (m : Module) (old target nearest : ℕ) (s : Sys)
    → Commands m nearest s.log (set_nearest hw m old target nearest s).log
unfolding set_nearest
set_nearest-Commands hw m old target nearest s =
    let a =
      if is_mem m && (ltb old target && hijacks hw s) then dvfs_before_set hw target s else s in
    let b = set_freq m nearest (issue a (set_hz m nearest)) in
    (
      a.log,
      if-Extends (is_mem m && (ltb old target && hijacks hw s)) s.log _ s
          (before-Extends hw target s) ([], refl),
      if-Extends (is_cpu m && truthy (config_value b live_cpu_uv)) b.log _ b (cpu_uv-Extends hw b)
          ([], refl),
    )

retune-freqs :
    (target nearest : ℕ) (s : Sys) → (retune_gpu target nearest s).context.freqs ≡ s.context.freqs
unfolding retune_gpu
retune-freqs target nearest s = ground arith

after-Sets :
    (hw : Hw) (m : Module) (hz target : ℕ) (old : List Cmd) (s : Sys)
    → IsTable s.tables.on_gpu
    → at s.context.freqs m ≡ hz
    → Commands m hz old s.log
    → Sets m hz old (dvfs_after_set hw target s)
unfolding dvfs_after_set nearest_gpu
after-Sets hw m hz target old s h e given =
    let (j, found, ends) =
      get_nearest_hz-Ends s.tables.on_gpu target
        (get_max_allowed_hz hw.soc_type s.config.values Module.gpu s.context.profile) h in
    let nearest = hz_at s.tables.on_gpu j in
    let first = issue s (pcv_hijack_gpu_volts (after_vmin hw target s)) in
    let (before, start, rest) = given in
    record {
      last = retune_gpu target nearest first;
      runs = rw found refl;
      freq = rw (retune-freqs target nearest first) e;
      given = (
        before,
        start,
        Extends-trans _ s.log _ rest (
            Extends-trans s.log first.log _ (one_more _ s.log)
              (retune-Extends target nearest first)),
      );
    }

set_nearest-freqs :
    (hw : Hw) (m : Module) (old target nearest : ℕ) (s : Sys)
    → (set_nearest hw m old target nearest s).context.freqs ≡ put s.context.freqs m nearest
unfolding set_nearest dvfs_before_set handle_cpu_uv
set_nearest-freqs hw m old target nearest s = ground arith

if-Sets :
    (m : Module) (hz : ℕ) (old : List Cmd) (b : Bool) (x y : Option Sys)
    → Sets m hz old x
    → Sets m hz old y
    → Sets m hz old (if b then x else y)
if-Sets m hz old true x y h h' = h
if-Sets m hz old false x y h h' = h'

change-Sets :
    (hw : Hw) (m : Module) (old target nearest : ℕ) (s : Sys)
    → AllTables s
    → Sets m nearest s.log (change_clock hw m old target nearest s)
unfolding change_clock
change-Sets hw m old target nearest s h =
    let c = set_nearest hw m old target nearest s in
    let same = set_nearest-tables hw m old target nearest s in
    let given = set_nearest-Commands hw m old target nearest s in
    let freq : at c.context.freqs m ≡ nearest = rw (
      set_nearest-freqs hw m old target nearest s,
      at-put s.context.freqs m m nearest,
      module_eq_self m,
    ) in
    if-Sets m nearest s.log _ _ _
      (after-Sets hw m nearest target s.log c (AllTables-Same s c same h).gpu_table freq given)
      (record { last = c; runs = refl; freq = freq; given = given })

-- What `SetClocks` does for a module: nothing if the clock is on record, and otherwise it gives the
-- clock to the board and puts it on record.
abbrev pub Gives : Module → ℕ → Sys → Sys → Type 0
Gives m hz s t =
    ((hz ≡ at s.context.freqs m) × (t ≡ s))
    ⊎ ((hz ≢ at s.context.freqs m) × Commands m hz s.log t.log × (at t.context.freqs m ≡ hz))

scaled-Gives :
    (hw : Hw) (m : Module) (old target hz : ℕ) (s : Sys)
    → AllTables s
    → (t : Sys) × ((if hz == at s.context.freqs m
          then some s
          else change_clock hw m old target hz s)
        ≡ some t)
      × Gives m hz s t
scaled-Gives hw m old target hz s all = elim (Bool-cases (hz == at s.context.freqs m)) [
  | inl same ↦ (s, rw same refl, inl ((==_iff _ _).0 same, refl))
  | inr other ↦
      let set = change-Sets hw m old target hz s all in
      (set.last, rw other set.runs, inr ((λ e. ground (arith, other, e)), set.given, set.freq))
]

-- For a module that no governor drives and a target that is not 0, on tables in use, the loop of
-- `SetClocks` finds the clock of `GetNearestHz` under the cap. If this clock is on record already,
-- nothing changes; otherwise the board is given the clock, and it is on record afterwards.
pub set_scaled-sets :
    (hw : Hw) (is_boost : Bool) (m : Module) (old target : ℕ) (s : Sys)
    → IsTable (at s.tables m)
    → AllTables s
    → 0 < target
    → (hz : ℕ) × (t : Sys) × (get_nearest_hz
          (at s.tables m)
          target
          (get_max_allowed_hz hw.soc_type s.config.values m s.context.profile)
        ≡ some hz)
      × (set_scaled hw is_boost m old target s ≡ some t)
      × Gives m hz s t
unfolding set_scaled
set_scaled-sets hw is_boost m old target s h all pos =
    let (j, found, ends) =
      get_nearest_hz-Ends (at s.tables m) target
        (get_max_allowed_hz hw.soc_type s.config.values m s.context.profile) h in
    let hz = hz_at (at s.tables m) j in
    let some_target : truthy target ≡ true = ground arith in
    let (t, runs, gives) = scaled-Gives hw m old target hz s all in
    (hz, t, found, rw (some_target, found) runs, gives)
