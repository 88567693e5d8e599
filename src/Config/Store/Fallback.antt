-- ===== src/Config/Store/Fallback.antt =====
-- `GetAutoClockHz` against its specification: the first clock, in the order of the fallbacks, that
-- is set.
use horizon_oc.Prelude.{
  ◌==◌, if◌then◌else◌, ==_iff, Bool-cases, ℕ, ◌*◌, ◌%◌, ◌^◌, ◌<◌, ◌≡◌, refl, inl, inr, Bool, true,
  List, [], ◌∷◌, arith,
}
use horizon_oc.Board.Types.{
  Profile, handheld, handheld_charging, handheld_charging_usb, handheld_charging_official, docked,
  Module,
}
use horizon_oc.Config.Store.{
  Config, find_clock_mhz, first_mhz, find_clock_hz_from_profiles, fallbacks, get_auto_clock_hz,
}

-- `mhz` is the clock of the first profile of the list that has one, or 0 if none has.
pub data FirstOf (c : Config) (tid : ℕ) (m : Module) : List Profile → ℕ → Type 0 where
  nothing : FirstOf c tid m [] 0
  here :
      (p : Profile) (ps : List Profile)
      → 0 < find_clock_mhz c tid m p
      → FirstOf c tid m (p ∷ ps) (find_clock_mhz c tid m p)
  later :
      (p : Profile) (ps : List Profile) (mhz : ℕ)
      → find_clock_mhz c tid m p ≡ 0
      → FirstOf c tid m ps mhz
      → FirstOf c tid m (p ∷ ps) mhz

-- The profiles that are asked in turn: what charges falls back to charging in general, and this
-- to the handheld profile; charging in general prefers the profile for a USB charger.
abbrev pub order : Profile → List Profile
order p = elim p [
  | handheld ↦ handheld ∷ []
  | handheld_charging ↦ handheld_charging_usb ∷ handheld_charging ∷ handheld ∷ []
  | handheld_charging_usb ↦ handheld_charging_usb ∷ handheld_charging ∷ handheld ∷ []
  | handheld_charging_official ↦ handheld_charging_official ∷ handheld_charging ∷ handheld ∷ []
  | docked ↦ docked ∷ []
]

fallbacks-order : (p : Profile) → fallbacks p ≡ order p
unfolding fallbacks
fallbacks-order handheld = refl
fallbacks-order handheld_charging = refl
fallbacks-order handheld_charging_usb = refl
fallbacks-order handheld_charging_official = refl
fallbacks-order docked = refl

first_mhz-FirstOf :
    (c : Config) (tid : ℕ) (m : Module) (ps : List Profile)
    → FirstOf c tid m ps (first_mhz c tid m ps)
unfolding first_mhz
first_mhz-FirstOf c tid m [] = nothing
first_mhz-FirstOf c tid m (p ∷ ps) = elim (Bool-cases (find_clock_mhz c tid m p == 0)) [
  | inl e ↦ rw e (later p ps _ ((==_iff _ _).0 e) (first_mhz-FirstOf c tid m ps))
  | inr e ↦ rw e (here p ps (ground (arith, e)))
]

-- On a loaded configuration the automatic clock is, in MHz, that of the first profile in the order
-- of the fallbacks that has one for the title and the module, or 0 if none has. For a raw answer it
-- is that number, else it is in Hz; in both cases it wraps at 32 bits.
pub get_auto_clock_hz-FirstOf :
    (c : Config) (tid : ℕ) (m : Module) (p : Profile) (return_raw : Bool)
    → c.loaded ≡ true
    → (mhz : ℕ) × FirstOf c tid m (order p) mhz
      × (get_auto_clock_hz c tid m p return_raw
          ≡ (if return_raw then mhz % 2 ^ 32 else (mhz * 1000000) % 2 ^ 32))
unfolding get_auto_clock_hz find_clock_hz_from_profiles
get_auto_clock_hz-FirstOf c tid m p return_raw loaded = (
  first_mhz c tid m (fallbacks p),
  rw (← fallbacks-order p) (first_mhz-FirstOf c tid m (fallbacks p)),
  ground (arith, loaded),
)
