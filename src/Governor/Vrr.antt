-- ===== src/Governor/Vrr.antt =====
-- `VRRThread` of governor.cpp, one round of its loop: the refresh rate of the display follows the
-- frame rate of the game.
pub mod Rate
use horizon_oc.Prelude.{
  ℕ, zero, suc, ◌+◌, ◌*◌, Bool, true, false, not, ◌&&◌, ◌||◌, Option, none, some, ltb, leb, ◌==◌,
  if◌then◌else◌, u8, u32, truthy,
}
use horizon_oc.Board.Types.{display, docked, ConsoleType, aula, profile_eq, put}
use horizon_oc.ClockManager.State.{Sys, Hw, set_hz, sleep_thread, reset_to_stock_display, issue}
use horizon_oc.Governor.Handle.{resolve_target}
use horizon_oc.Governor.Ramp.{poll_ns}

-- The two `u8` counters of the thread.
pub record VrrThread : Type 0 where
  pub tick : ℕ
  pub tick2 : ℕ

abbrev is_aula : ConsoleType → Bool
is_aula aula = true
is_aula _ = false

-- `u8 maxDisplay = targetHz`, or 60.
unfoldable pub max_display : Sys → ℕ
max_display s =
    let target = resolve_target s display false in if truthy target then u8 target else 60

unfoldable pub min_display : Hw → ℕ
min_display hw = if is_aula hw.console_type then 45 else 40

unfoldable pub set_rate : ℕ → Sys → Sys
set_rate hz s =
    let a = issue s (set_hz display hz) in
    record a {
      context = record a.context {
        freqs = put a.context.freqs display hz;
        real_freqs = put a.context.real_freqs display hz;
      };
    }

abbrev pub within : ℕ → ℕ → ℕ → Bool
within lo hi hz = leb lo hz && leb hz hi

-- `for (u32 i = 0; i < 10; i++)`, with the rounds that are left: the first multiple in the range.
unfoldable pub first_multiple : ℕ → ℕ → ℕ → ℕ → ℕ → Option ℕ
first_multiple lo hi fps zero i = none
first_multiple lo hi fps (suc rounds) i =
    let rest = first_multiple lo hi fps rounds (suc i) in
    if within lo hi (u32 (fps * i)) then some (u32 (fps * i)) else rest

-- The rate that is set for a frame rate, if any.
unfoldable pub rate_for : ℕ → ℕ → ℕ → Option ℕ
unfolding first_multiple
rate_for lo hi fps = if within lo hi fps then some fps else first_multiple lo hi fps 10 0

abbrev set_rate_if : Option ℕ → Sys → Sys
set_rate_if none s = s
set_rate_if (some hz) s = set_rate hz s

-- From the choice of the rate to the end of the round.
unfoldable pub vrr_apply : Hw → ℕ → VrrThread → Sys → VrrThread × Sys
unfolding rate_for
vrr_apply hw fps th s =
    let hi = max_display s in
    let lo = min_display hw in
    let a = set_rate_if (rate_for lo hi fps) s in
    let tick = u8 (th.tick + 1) in
    let forced = issue (issue a (set_hz display hi)) (sleep_thread 50000000) in
    if hi == lo
    then (th, s)
    else if ltb 50 tick
    then (record th { tick = 0 }, issue forced (sleep_thread poll_ns))
    else (record th { tick = tick }, issue a (sleep_thread poll_ns))

-- After the check of the focus. `~0ULL` stops the thread for good.
unfoldable pub vrr_follow : Hw → VrrThread → Sys → VrrThread × Sys
unfolding vrr_apply
vrr_follow hw th s =
    let fps = hw.salty_nx_fps s.log in
    if not s.context.is_salty_nx_installed
    then (th, issue s (sleep_thread 18446744073709551615))
    else if fps == 254
    then (th, issue s (sleep_thread poll_ns))
    else vrr_apply hw fps th s

vrr_focus : Hw → Option Bool → VrrThread → Sys → VrrThread × Sys
unfolding vrr_follow
vrr_focus hw none th s = (th, issue s (sleep_thread poll_ns))
vrr_focus hw (some true) th s = (th, issue (issue s reset_to_stock_display) (sleep_thread poll_ns))
vrr_focus hw (some false) th s = vrr_follow hw th s

unfoldable pub vrr_poll : Hw → VrrThread → Sys → VrrThread × Sys
unfolding vrr_focus
vrr_poll hw th s =
    let th' = record th { tick2 = u8 (th.tick2 + 1) } in
    if not s.running || (profile_eq s.context.profile docked || not s.flags.is_vrr_enabled)
    then (th, issue s (sleep_thread poll_ns))
    else if ltb 100 th'.tick2
    then vrr_focus hw (hw.is_application_out_of_focus s.log) th' s
    else vrr_follow hw th' s
