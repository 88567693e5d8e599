-- ===== src/ClockManager/Tick/Total.antt =====
-- Over tables in use, a round of the main loop neither aborts nor reads outside a table.
use horizon_oc.Prelude.{
  ap, if◌then◌else◌, ◌>>=◌, true, false, ℕ, ◌≡◌, refl, ◌∙◌, Bool, Option, some, List, [], ◌∷◌,
  arith,
}
use horizon_oc.Board.Types.{Module, cpu, gpu, mem, governor, display, PerModule, at, all_modules}
use horizon_oc.Config.Ini.{IniFile}
use horizon_oc.ClockManager.State.{Cmd, Sys, Hw, FreqTable, issue, reset_to_stock_mem}
use horizon_oc.ClockManager.Tables.{IsTable}
use horizon_oc.ClockManager.Nearest.{get_nearest_hz}
use horizon_oc.ClockManager.Nearest.Loop.{get_nearest_hz-Ends}
use horizon_oc.ClockManager.Resets.{
  handle_safety_features, handle_misc_features, reset_to_stock_clocks, live_uv, handle_cpu_uv,
  nearest_gpu, dvfs_after_set, dvfs_before_set, dvfs_reset, handle_freq_reset, retune_gpu,
}
use horizon_oc.ClockManager.SetClocks.{
  set_nearest, change_clock, set_scaled, set_display_rate, set_module, set_modules, set_clocks,
  keep_boost,
}
use horizon_oc.ClockManager.Context.{
  refresh_context, refresh_identity, restore_stock, refresh_clocks, refresh_clock, refresh_readings,
  refresh_display, wait_for_next_tick,
}
use horizon_oc.ClockManager.Tick.{tick, refresh_all}
use horizon_oc.Governor.Boost.{is_boost_mode}
use horizon_oc.Governor.Handle.{resolve_target, handle_governor, set_states, went_off}

-- The tables that `GetNearestHz` searches are in use.
pub record AllTables (s : Sys) : Type 0 where
  pub cpu_table : IsTable s.tables.on_cpu
  pub gpu_table : IsTable s.tables.on_gpu
  pub mem_table : IsTable s.tables.on_mem

-- A state with the same tables, that still runs if the other does.
abbrev kept : Sys → PerModule FreqTable × Bool
kept s = (s.tables, s.running)

abbrev Same : Sys → Sys → Type 0
Same s t = kept t ≡ kept s

-- The step ends, with the same tables.
record Ends (s : Sys) (o : Option Sys) : Type 0 where
  last : Sys
  runs : o ≡ some last
  same : Same s last

Ends-at : (s t : Sys) → Same s t → Ends s (some t)
Ends-at s t e = record { last = t; runs = refl; same = e }

Ends-if :
    (s : Sys) (b : Bool) (x y : Option Sys) → Ends s x → Ends s y → Ends s (if b then x else y)
Ends-if s true x y h h' = h
Ends-if s false x y h h' = h'

-- A search of a table that is in use.
Found : Option ℕ → Type 0
Found o = (hz : ℕ) × (o ≡ some hz)

Ends-Found :
    (s : Sys) (o : Option ℕ) (f : ℕ → Option Sys)
    → Found o
    → ((hz : ℕ) → Ends s (f hz))
    → Ends s (o >>= f)
unfolding Found
Ends-Found s o f (hz, e) h = rw e (h hz)

Ends-then :
    (s : Sys) (o : Option Sys) (f : Sys → Option Sys)
    → Ends s o
    → ((t : Sys) → Same s t → Ends t (f t))
    → Ends s (o >>= f)
Ends-then s o f h k =
    let rest = k h.last h.same in
    record { last = rest.last; runs = rw h.runs rest.runs; same = rest.same ∙ h.same }

Ends-from : (s t : Sys) (o : Option Sys) → Same s t → Ends t o → Ends s o
Ends-from s t o e h = record { last = h.last; runs = h.runs; same = h.same ∙ e }

found : (t : FreqTable) (target cap : ℕ) → IsTable t → Found (get_nearest_hz t target cap)
unfolding Found
found t target cap h = let (j, e, ends) = get_nearest_hz-Ends t target cap h in (_, e)

safety-Same : (hw : Hw) (s : Sys) → Same s (handle_safety_features hw s)
unfolding handle_safety_features reset_to_stock_clocks live_uv handle_cpu_uv
safety-Same hw s = ground arith

misc-Same : (s : Sys) → Same s (handle_misc_features s)
unfolding handle_misc_features
misc-Same s = ground arith

retune-Same : (target nearest : ℕ) (s : Sys) → Same s (retune_gpu target nearest s)
unfolding retune_gpu
retune-Same target nearest s = ground arith

before-Same : (hw : Hw) (target : ℕ) (s : Sys) → Same s (dvfs_before_set hw target s)
unfolding dvfs_before_set
before-Same hw target s = ground arith

governor-Same : (target : ℕ) (s : Sys) → Same s (handle_governor target s)
unfolding handle_governor set_states went_off
governor-Same target s = ground arith

restore-Same : (hw : Hw) (s : Sys) → Same s (restore_stock hw s)
unfolding restore_stock wait_for_next_tick
restore-Same hw s = ground arith

clock-Same : (hw : Hw) (m : Module) (r : Sys × Bool) → Same r.0 (refresh_clock hw m r).0
unfolding refresh_clock
clock-Same hw m (s, b) = refl

clocks-Same : (hw : Hw) (ms : List Module) (r : Sys × Bool) → Same r.0 (refresh_clocks hw ms r).0
unfolding refresh_clocks
clocks-Same hw [] r = refl
clocks-Same hw (m ∷ ms) r = clocks-Same hw ms (refresh_clock hw m r) ∙ clock-Same hw m r

readings-Same : (hw : Hw) (s : Sys) → Same s (refresh_readings hw s)
unfolding refresh_readings
readings-Same hw s = ground arith

display-Same : (hw : Hw) (s : Sys) → Same s (refresh_display hw s)
unfolding refresh_display
display-Same hw s = ground arith

Same-tables : (s t : Sys) → Same s t → t.tables ≡ s.tables
Same-tables s t e = ap (λ k. k.0) e

pub AllTables-Same : (s t : Sys) → t.tables ≡ s.tables → AllTables s → AllTables t
AllTables-Same s t e h = record {
  cpu_table = rw e h.cpu_table;
  gpu_table = rw e h.gpu_table;
  mem_table = rw e h.mem_table;
}

after-Ends : (hw : Hw) (target : ℕ) (s : Sys) → AllTables s → Ends s (dvfs_after_set hw target s)
unfolding dvfs_after_set nearest_gpu
after-Ends hw target s h =
    Ends-Found s _ _ (found s.tables.on_gpu target _ h.gpu_table)
      λ hz. Ends-at s _ (retune-Same target hz _)

reset-Ends : (hw : Hw) (s : Sys) → AllTables s → Ends s (dvfs_reset hw s)
unfolding dvfs_reset nearest_gpu
reset-Ends hw s h =
    let target = resolve_target s gpu false in
    Ends-if s _ _ _
      (Ends-Found s _ _ (found s.tables.on_gpu target _ h.gpu_table)
        λ hz. Ends-at s _ (retune-Same target hz _))
      (Ends-at s s refl)

freq_reset-Ends :
    (hw : Hw) (m : Module) (b : Bool) (s : Sys) → AllTables s → Ends s (handle_freq_reset hw m b s)
unfolding handle_freq_reset live_uv handle_cpu_uv
freq_reset-Ends hw cpu b s h = Ends-at s _ (ground arith)
freq_reset-Ends hw gpu b s h = Ends-at s _ refl
freq_reset-Ends hw mem b s h =
    let t = issue s reset_to_stock_mem in
    Ends-from s t _ refl (reset-Ends hw t (AllTables-Same s t refl h))
freq_reset-Ends hw governor b s h = Ends-at s s refl
freq_reset-Ends hw display b s h = Ends-at s _ (ground arith)

set_nearest-Same :
    (hw : Hw) (m : Module) (old target nearest : ℕ) (s : Sys)
    → Same s (set_nearest hw m old target nearest s)
unfolding set_nearest dvfs_before_set handle_cpu_uv
set_nearest-Same hw m old target nearest s = ground arith

change-Ends :
    (hw : Hw) (m : Module) (old target nearest : ℕ) (s : Sys)
    → AllTables s
    → Ends s (change_clock hw m old target nearest s)
unfolding change_clock
change-Ends hw m old target nearest s h =
    let c = set_nearest hw m old target nearest s in
    let e = set_nearest-Same hw m old target nearest s in
    Ends-from s c _ e (
      Ends-if c _ _ _ (after-Ends hw target c (AllTables-Same s c (Same-tables s c e) h))
        (Ends-at c c refl))

scaled-Ends :
    (hw : Hw) (b : Bool) (m : Module) (old target : ℕ) (s : Sys)
    → IsTable (at s.tables m)
    → AllTables s
    → Ends s (set_scaled hw b m old target s)
unfolding set_scaled
scaled-Ends hw b m old target s t h =
    Ends-if s _ _ _
      (Ends-Found s _ _ (found (at s.tables m) target _ t)
        λ hz. Ends-if s _ _ _ (Ends-at s s refl) (change-Ends hw m old target hz s h))
      (freq_reset-Ends hw m b s h)

rate-Ends :
    (hw : Hw) (b : Bool) (target : ℕ) (s : Sys)
    → AllTables s
    → Ends s (set_display_rate hw b target s)
unfolding set_display_rate
rate-Ends hw b target s h =
    Ends-if s _ _ _ (Ends-if s _ _ _ (Ends-at s _ refl) (freq_reset-Ends hw display b s h))
      (Ends-at s s refl)

module-Ends :
    (hw : Hw) (b : Bool) (m : Module) (s : Sys) → AllTables s → Ends s (set_module hw b m s)
unfolding set_module
module-Ends hw b cpu s h =
    Ends-if s s.flags.is_cpu_governor_enabled _ _ (Ends-at s s refl)
      (scaled-Ends hw b cpu (hw.get_hz s.log cpu) (resolve_target s cpu false) s h.cpu_table h)
module-Ends hw b gpu s h =
    Ends-if s s.flags.is_gpu_governor_enabled _ _ (Ends-at s s refl)
      (scaled-Ends hw b gpu (hw.get_hz s.log gpu) (resolve_target s gpu false) s h.gpu_table h)
module-Ends hw b mem s h = scaled-Ends hw b mem _ _ s h.mem_table h
module-Ends hw b governor s h = Ends-at s _ (governor-Same _ s)
module-Ends hw b display s h = rate-Ends hw b _ s h

modules-Ends :
    (hw : Hw) (b : Bool) (ms : List Module) (s : Sys) → AllTables s → Ends s (set_modules hw b ms s)
unfolding set_modules
modules-Ends hw b [] s h = Ends-at s s refl
modules-Ends hw b (m ∷ ms) s h =
    Ends-then s _ _ (module-Ends hw b m s h)
      λ t e. modules-Ends hw b ms t (AllTables-Same s t (Same-tables s t e) h)

clocks_set-Ends : (hw : Hw) (b : Bool) (s : Sys) → AllTables s → Ends s (set_clocks hw b s)
unfolding set_clocks keep_boost
clocks_set-Ends hw b s h =
    Ends-if s _ _ _ (Ends-at s _ (ground arith)) (modules-Ends hw b all_modules s h)

identity-Same : (hw : Hw) (s : Sys) → Same s (refresh_identity hw s).0
unfolding refresh_identity
identity-Same hw s = refl

kept-Same :
    (hw : Hw) (s a : Sys) (b : Bool) → Same s a → Same s (if b then restore_stock hw a else a)
kept-Same hw s a true e = restore-Same hw a ∙ e
kept-Same hw s a false e = e

context-Same : (hw : Hw) (s : Sys) → Same s (refresh_context hw s).0
unfolding refresh_context
context-Same hw s =
    let (a, changed) = refresh_identity hw s in
    let b = if changed then restore_stock hw a else a in
    let c = (refresh_clocks hw all_modules (b, changed)).0 in
    display-Same hw (refresh_readings hw c)
    ∙ readings-Same hw c
    ∙ clocks-Same hw all_modules (b, changed)
    ∙ kept-Same hw s a changed (identity-Same hw s)

all-Same : (hw : Hw) (file : IniFile) (s : Sys) → Same s (refresh_all hw file s).0
unfolding refresh_all
all-Same hw file s = ground (arith, context-Same hw s)

tick-Ends :
    (hw : Hw) (file : IniFile) (s : Sys)
    → AllTables s
    → ((log : List Cmd) → (mode : ℕ) × (hw.performance_configuration log ≡ some mode))
    → Ends s (tick hw file s)
unfolding tick
tick-Ends hw file s h answers =
    let r = handle_misc_features (handle_safety_features hw s) in
    let (b, changed) = refresh_all hw file r in
    let same = all-Same hw file r ∙ misc-Same (handle_safety_features hw s) ∙ safety-Same hw s in
    let ends =
      Ends-if b changed _ _
        (clocks_set-Ends hw (is_boost_mode (answers s.log).0) b
          (AllTables-Same s b (Same-tables s b same) h))
        (Ends-at b b refl) in
    record {
      last = ends.last;
      runs = rw ((answers s.log).1, (answers r.log).1) ends.runs;
      same = ends.same ∙ same;
    }

-- Such a tick does not stop the process.
pub tick-running :
    (hw : Hw) (file : IniFile) (s : Sys)
    → AllTables s
    → ((log : List Cmd) → (mode : ℕ) × (hw.performance_configuration log ≡ some mode))
    → (t : Sys) × (tick hw file s ≡ some t) × AllTables t × (t.running ≡ s.running)
tick-running hw file s h answers =
    let ends = tick-Ends hw file s h answers in
    (
      ends.last,
      ends.runs,
      AllTables-Same s ends.last (Same-tables s ends.last ends.same) h,
      ap (λ k. k.1) ends.same,
    )

pub set_nearest-tables :
    (hw : Hw) (m : Module) (old target nearest : ℕ) (s : Sys)
    → (set_nearest hw m old target nearest s).tables ≡ s.tables
set_nearest-tables hw m old target nearest s =
    Same-tables s (set_nearest hw m old target nearest s)
      (set_nearest-Same hw m old target nearest s)
