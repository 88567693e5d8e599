-- ===== src/ClockManager/Context/Agrees.antt =====
-- What `RefreshContext` has recorded of the clocks when its loop is over.
use horizon_oc.Prelude.{
  ◌==◌, Bool-cases, All, sym, ◌∙◌, inl, inr, true, false, not, ◌&&◌, [], ◌∷◌, arith, if◌then◌else◌,
  ℕ, ◌≡◌, refl, ◌≢◌, Bool, List,
}
use horizon_oc.Board.Types.{
  Module, cpu, gpu, mem, governor, display, PerModule, at, put, module_eq, all_modules,
}
use horizon_oc.Config.Store.{get_override_hz}
use horizon_oc.ClockManager.State.{Sys, Hw}
use horizon_oc.ClockManager.Context.{refresh_clock, refresh_clocks}

pub at-put :
    (t : PerModule ℕ) (m m' : Module) (v : ℕ)
    → at (put t m v) m' ≡ (if module_eq m m' then v else at t m')
at-put t cpu cpu v = refl
at-put t cpu m' v = refl
at-put t gpu cpu v = refl
at-put t gpu m' v = refl
at-put t mem cpu v = refl
at-put t mem m' v = refl
at-put t governor cpu v = refl
at-put t governor m' v = refl
at-put t display cpu v = refl
at-put t display m' v = refl

-- The recorded override is the configured one, and the recorded clock is that of the hardware,
-- unless that reads 0.
pub record Agrees (hw : Hw) (s : Sys) (m : Module) : Type 0 where
  pub override : at s.context.override_freqs m ≡ get_override_hz s.config m
  pub clock : hw.get_hz s.log m ≢ 0 → at s.context.freqs m ≡ hw.get_hz s.log m

pub module_eq_self : (m : Module) → module_eq m m ≡ true
module_eq_self cpu = refl
module_eq_self gpu = refl
module_eq_self mem = refl
module_eq_self governor = refl
module_eq_self display = refl

pub module_eq_sound : (m m' : Module) → module_eq m m' ≡ true → m ≡ m'
module_eq_sound cpu cpu e = refl
module_eq_sound cpu m' e = ground arith
module_eq_sound gpu gpu e = refl
module_eq_sound gpu m' e = ground arith
module_eq_sound mem mem e = refl
module_eq_sound mem m' e = ground arith
module_eq_sound governor governor e = refl
module_eq_sound governor m' e = ground arith
module_eq_sound display display e = refl
module_eq_sound display m' e = ground arith

-- A field that is written where it differs is the new value in the end.
written :
    (t : PerModule ℕ) (m : Module) (v : ℕ) (b : Bool)
    → (b ≡ false → v ≡ at t m)
    → at (if b then put t m v else t) m ≡ v
written t m v true same = rw (at-put t m m v, module_eq_self m)
written t m v false same = sym (same refl)

untouched :
    (t : PerModule ℕ) (m m' : Module) (v : ℕ) (b : Bool)
    → module_eq m m' ≡ false
    → at (if b then put t m v else t) m' ≡ at t m'
untouched t m m' v true ne = rw (at-put t m m' v, ne)
untouched t m m' v false ne = refl

clock_here : (hw : Hw) (m : Module) (r : Sys × Bool) → Agrees hw (refresh_clock hw m r).0 m
unfolding refresh_clock get_override_hz
clock_here hw m (s, b) =
    let hz = hw.get_hz s.log m in
    let over = at s.config.overrides m in
    record {
      override =
          written s.context.override_freqs m over (not (over == at s.context.override_freqs m))
            (ground arith);
      clock = λ nz.
          written s.context.freqs m hz (not (hz == 0) && not (hz == at s.context.freqs m))
            (ground arith);
    }

clock_other :
    (hw : Hw) (m m' : Module) (r : Sys × Bool)
    → Agrees hw r.0 m'
    → Agrees hw (refresh_clock hw m r).0 m'
unfolding refresh_clock get_override_hz
clock_other hw m m' (s, b) h = elim (Bool-cases (module_eq m m')) [
  | inl same ↦ let e : m ≡ m' = module_eq_sound m m' same in rw (← e) (clock_here hw m (s, b))
  | inr other ↦ record {
    override = untouched s.context.override_freqs m m' _ _ other ∙ h.override;
    clock = λ nz. untouched s.context.freqs m m' _ _ other ∙ h.clock nz;
  }
]

clocks_keep :
    (hw : Hw) (ms : List Module) (m : Module) (r : Sys × Bool)
    → Agrees hw r.0 m
    → Agrees hw (refresh_clocks hw ms r).0 m
unfolding refresh_clocks
clocks_keep hw [] m r h = h
clocks_keep hw (n ∷ ms) m r h = clocks_keep hw ms m (refresh_clock hw n r) (clock_other hw n m r h)

clocks-All :
    (hw : Hw) (ms : List Module) (r : Sys × Bool)
    → All (λ m. Agrees hw (refresh_clocks hw ms r).0 m) ms
unfolding refresh_clocks
clocks-All hw [] r = tt
clocks-All hw (m ∷ ms) r = (
  clocks_keep hw ms m (refresh_clock hw m r) (clock_here hw m r),
  clocks-All hw ms (refresh_clock hw m r),
)

-- After the loop of `RefreshContext` every module agrees with the hardware and the configuration:
-- its override is the configured one, and its clock the one that the hardware gives, unless that
-- is 0.
pub refresh_clocks-Agrees :
    (hw : Hw) (r : Sys × Bool) (m : Module) → Agrees hw (refresh_clocks hw all_modules r).0 m
refresh_clocks-Agrees hw r cpu = (clocks-All hw all_modules r).0
refresh_clocks-Agrees hw r gpu = (clocks-All hw all_modules r).1.0
refresh_clocks-Agrees hw r mem = (clocks-All hw all_modules r).1.1.0
refresh_clocks-Agrees hw r governor = (clocks-All hw all_modules r).1.1.1.0
refresh_clocks-Agrees hw r display = (clocks-All hw all_modules r).1.1.1.1.0
