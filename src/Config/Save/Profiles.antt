-- ===== src/Config/Save/Profiles.antt =====
-- What the getters give back after `SetProfiles`.
use horizon_oc.Prelude.{none, some, ◌==◌, ◌≢◌, true, false, arith, ℕ, ◌≡◌, Option}
use horizon_oc.Prelude.Text.{format_tid}
use horizon_oc.Board.Types.{
  Profile, handheld, handheld_charging, handheld_charging_usb, handheld_charging_official, docked,
  Module, cpu, all_profiles,
}
use horizon_oc.Config.Ini.{IniFile, PutSection}
use horizon_oc.Config.Store.{Config, get_profiles, find_clock_mhz, or_zero}
use horizon_oc.Config.Save.{
  Profiles, set_profiles, write_profiles, write_modules, or_erase, on_write, profile_lines,
}

or_erase-zero : (n : ℕ) → or_zero (or_erase n) ≡ n
or_erase-zero n = ground arith

same_id : (t : ℕ) → (t == t) ≡ true
same_id t = ground arith

same_title :
    (mhz : Profiles) (tid : ℕ) (old : ℕ → Profile → Module → Option ℕ) (p : Profile) (m : Module)
    → or_zero (write_profiles mhz tid all_profiles old tid p m) ≡ mhz p m
unfolding write_profiles write_modules
same_title mhz tid old handheld cpu = rw (same_id tid) (or_erase-zero (mhz handheld cpu))
same_title mhz tid old handheld m = rw (same_id tid) (or_erase-zero (mhz handheld m))
same_title mhz tid old handheld_charging cpu =
    rw (same_id tid) (or_erase-zero (mhz handheld_charging cpu))
same_title mhz tid old handheld_charging m =
    rw (same_id tid) (or_erase-zero (mhz handheld_charging m))
same_title mhz tid old handheld_charging_usb cpu =
    rw (same_id tid) (or_erase-zero (mhz handheld_charging_usb cpu))
same_title mhz tid old handheld_charging_usb m =
    rw (same_id tid) (or_erase-zero (mhz handheld_charging_usb m))
same_title mhz tid old handheld_charging_official cpu =
    rw (same_id tid) (or_erase-zero (mhz handheld_charging_official cpu))
same_title mhz tid old handheld_charging_official m =
    rw (same_id tid) (or_erase-zero (mhz handheld_charging_official m))
same_title mhz tid old docked cpu = rw (same_id tid) (or_erase-zero (mhz docked cpu))
same_title mhz tid old docked m = rw (same_id tid) (or_erase-zero (mhz docked m))

other_title :
    (mhz : Profiles) (tid tid' : ℕ) (old : ℕ → Profile → Module → Option ℕ) (p : Profile)
    (m : Module)
    → tid ≢ tid'
    → write_profiles mhz tid all_profiles old tid' p m ≡ old tid' p m
unfolding write_profiles write_modules
other_title mhz tid tid' old handheld cpu ne = let e : (tid == tid') ≡ false = ground arith in rw e
other_title mhz tid tid' old p m ne = let e : (tid == tid') ≡ false = ground arith in rw e

-- What the getters read after a write that succeeds.
after_write :
    (P : Config → Type 0) (o : Option IniFile) (f : IniFile) (c d : Config)
    → (on_write o f c d).2 ≡ true
    → P d
    → P (on_write o f c d).1
after_write P none f c d ok h = cc
after_write P (some f') f c d ok h = h

-- After `SetProfiles` has succeeded with `immediate`, on a loaded configuration, each clock of the
-- title reads as it was given, and each clock of another title as before.
pub set_profiles-get_profiles :
    (put_section : PutSection) (tid tid' : ℕ) (mhz : Profiles) (f : IniFile) (c : Config)
    (p : Profile) (m : Module)
    → c.loaded ≡ true
    → (set_profiles put_section tid mhz true f c).2 ≡ true
    → let d = (set_profiles put_section tid mhz true f c).1 in
      (get_profiles d tid p m ≡ mhz p m)
      × (tid ≢ tid' → get_profiles d tid' p m ≡ get_profiles c tid' p m)
unfolding set_profiles get_profiles find_clock_mhz
set_profiles-get_profiles put_section tid tid' mhz f c p m loaded ok =
    after_write
      (λ d.
        (get_profiles d tid p m ≡ mhz p m)
        × (tid ≢ tid' → get_profiles d tid' p m ≡ get_profiles c tid' p m))
      (put_section (format_tid tid) (profile_lines mhz all_profiles) f) f c _ ok
      (
        rw loaded (same_title mhz tid c.profile_mhz p m),
        λ ne. rw (loaded, other_title mhz tid tid' c.profile_mhz p m ne),
      )
