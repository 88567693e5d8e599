-- ===== src/Display/Rate.antt =====
-- `SetRate` of board/display_refresh_rate.cpp, which chooses between the three ways to set a rate.
use horizon_oc.Prelude.{
  ◌==◌, ◌&&◌, ◌||◌, not, if◌then◌else◌, ◌>>=◌, ℕ, ◌≡◌, refl, Bool, true, false, Option, none, some,
}
use horizon_oc.Display.Timings.{Mode, Driver}
use horizon_oc.Display.Handheld.{set_retro_rate}
use horizon_oc.Display.Handheld.Rates.{set_retro_rate-inside}
use horizon_oc.Display.Docked.{Docked, set_docked_rate}
use horizon_oc.Display.Plld.{Plld, set_plld_rate}

-- What `SetRate` reads: the configuration, the devices, and the PLL. `panel` and `opens` tell
-- whether the handheld panel answers and whether the docked display opens and answers.
pub record Displays : Type 0 where
  pub initialized : Bool
  pub is_retro_super : Bool
  pub is_docked : Bool
  pub docked : Docked
  pub handheld_driver : Driver
  pub docked_driver : Driver
  pub panel : Bool
  pub opens : Bool
  pub answers : Bool
  pub plld : Plld

-- What `SetRate` returns, the PLL after it, and the mode that it sets if it sets one.
pub record RateSet : Type 0 where
  pub ok : Bool
  pub plld : Plld
  pub mode : Option Mode

abbrev pub by_plld : Displays → Bool × Plld → RateSet
by_plld d (ok, plld) = record { ok = ok; plld = plld; mode = none }

abbrev pub by_mode : Displays → Bool × Option Mode → RateSet
by_mode d (ok, mode) = record { ok = ok; plld = d.plld; mode = mode }

-- `none` is a read outside a table. After the PLL in the second branch the function runs to its
-- last line, which returns false.
unfoldable pub display_set_rate : Displays → ℕ → Option RateSet
unfolding set_retro_rate set_plld_rate set_docked_rate
display_set_rate d rate =
    let plld = set_plld_rate d.panel rate d.plld in
    let retro =
      set_retro_rate d.handheld_driver d.is_retro_super rate >>= λ r. some (by_mode d r) in
    let docked = set_docked_rate d.docked_driver d.docked rate in
    if (rate == 0) || not d.initialized
    then some (by_mode d (false, none))
    else if d.is_retro_super && not d.is_docked
    then retro
    else if ((not d.is_retro_super) && d.docked.is_lite) || not d.opens
    then some (by_plld d (false, plld.1))
    else if not d.answers
    then if not d.is_retro_super then some (by_plld d plld) else retro
    else if d.is_docked
    then some (by_mode d docked)
    else some (by_mode d (true, none))

retro-inside :
    (d : Displays) (rate : ℕ)
    → (r : RateSet) × ((set_retro_rate d.handheld_driver d.is_retro_super rate >>= λ x.
          some (by_mode d x))
        ≡ some r)
retro-inside d rate =
    let (x, found) = set_retro_rate-inside d.handheld_driver d.is_retro_super rate in
    (by_mode d x, rw found refl)

either-some :
    (b : Bool) (o p : Option RateSet)
    → (r : RateSet) × (o ≡ some r)
    → (r : RateSet) × (p ≡ some r)
    → (r : RateSet) × ((if b then o else p) ≡ some r)
either-some true o p here there = here
either-some false o p here there = there

-- `SetRate` returns for every rate, without a read outside a table.
pub display_set_rate-total :
    (d : Displays) (rate : ℕ) → (r : RateSet) × (display_set_rate d rate ≡ some r)
unfolding display_set_rate
display_set_rate-total d rate =
    let retro = retro-inside d rate in
    either-some ((rate == 0) || not d.initialized) _ _ (_, refl)
      (either-some (d.is_retro_super && not d.is_docked) _ _ retro (
        either-some (((not d.is_retro_super) && d.docked.is_lite) || not d.opens) _ _ (_, refl)
          (either-some (not d.answers) _ _ (either-some (not d.is_retro_super) _ _ (_, refl) retro)
            (either-some d.is_docked _ _ (_, refl) (_, refl)))))

-- With a console that has no dock, or whose docked display does not open, `SetRate` sets the PLL
-- but returns false, also when the PLL has the rate.
pub display_set_rate-plld :
    (d : Displays) (rate : ℕ)
    → (rate == 0) ≡ false
    → d.initialized ≡ true
    → d.is_retro_super ≡ false
    → (d.docked.is_lite || not d.opens) ≡ true
    → display_set_rate d rate
      ≡ some (record { ok = false; plld = (set_plld_rate d.panel rate d.plld).1; mode = none })
unfolding display_set_rate
display_set_rate-plld d rate some_rate on plain no_dock = rw (some_rate, on, plain, no_dock) refl
