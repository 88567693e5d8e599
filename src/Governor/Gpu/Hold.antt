-- ===== src/Governor/Gpu/Hold.antt =====
-- The GPU governor over successive polls: up at once, down after the hold of ten polls.
use horizon_oc.Prelude.{ℕ, zero, suc, ◌≤◌, ◌<◌, ◌≡◌, arith, List, [], ◌∷◌, ◌++◌, All, length}
use horizon_oc.Board.Types.{gpu}
use horizon_oc.ClockManager.State.{Sys, set_hz, sleep_thread, issue}
use horizon_oc.ClockManager.Limits.{is_assignable_hz}
use horizon_oc.ClockManager.SetClocks.{set_freq}
use horizon_oc.Governor.Ramp.{poll_ns, RampState, going_down, next_hold, may_set}
use horizon_oc.Governor.Gpu.{gpu_apply}

-- Successive rounds of the thread, with the clock that the table gives in each.
unfoldable pub gpu_run : List ℕ → RampState → Sys → RampState × Sys
gpu_run [] r s = (r, s)
gpu_run (hz ∷ hzs) r s = let (r', s') = gpu_apply hz r s in gpu_run hzs r' s'

abbrev pub holding : ℕ → ℕ → RampState
holding hold last = record { down_hold_remaining = hold; last_hz = last }

-- A round that sets nothing.
abbrev pub idled : Sys → Sys
idled s = issue s (sleep_thread poll_ns)

-- A round that sets a clock.
abbrev pub moved : ℕ → Sys → Sys
moved hz s = issue (set_freq gpu hz (issue s (set_hz gpu hz))) (sleep_thread poll_ns)

pub idled_for : ℕ → Sys → Sys
idled_for zero s = s
idled_for (suc n) s = idled_for n (idled s)

-- A request that is not lower is set in the same round, and ends a hold.
pub up_at_once :
    (hz : ℕ) (r : RampState) (s : Sys)
    → r.last_hz ≤ hz
    → gpu_apply hz r s ≡ (holding 0 hz, moved hz s)
unfolding gpu_apply may_set next_hold going_down is_assignable_hz
up_at_once hz r s le = ground arith

arms :
    (hz last : ℕ) (s : Sys)
    → hz < last
    → gpu_apply hz (holding 0 last) s ≡ (holding 9 last, idled s)
unfolding gpu_apply may_set next_hold going_down is_assignable_hz
arms hz last s lower = ground arith

counts_down :
    (hz last k : ℕ) (s : Sys)
    → hz < last
    → gpu_apply hz (holding (suc (suc k)) last) s ≡ (holding (suc k) last, idled s)
unfolding gpu_apply may_set next_hold going_down is_assignable_hz
counts_down hz last k s lower = ground arith

lets_down :
    (hz last : ℕ) (s : Sys)
    → hz < last
    → gpu_apply hz (holding 1 last) s ≡ (holding 0 hz, moved hz s)
unfolding gpu_apply may_set next_hold going_down is_assignable_hz
lets_down hz last s lower = ground arith

-- While a hold lasts, lower requests only count it down; the request after it is set.
held_run :
    (hzs : List ℕ) (hz last : ℕ) (s : Sys)
    → All (λ h. h < last) hzs
    → hz < last
    → gpu_run (hzs ++ hz ∷ []) (holding (suc (length hzs)) last) s
      ≡ (holding 0 hz, moved hz (idled_for (length hzs) s))
unfolding gpu_run idled_for
held_run [] hz last s below lower = rw (lets_down hz last s lower)
held_run (h ∷ hzs) hz last s below lower =
    rw (counts_down h last (length hzs) s below.0, gpu_run)
      (held_run hzs hz last (idled s) below.1 lower)

held_for :
    (hzs : List ℕ) (hz last n : ℕ) (s : Sys)
    → All (λ h. h < last) hzs
    → hz < last
    → length hzs ≡ n
    → gpu_run (hzs ++ hz ∷ []) (holding (suc n) last) s ≡ (holding 0 hz, moved hz (idled_for n s))
held_for hzs hz last n s below lower e = rw (← e) (held_run hzs hz last s below lower)

-- From a clock that has been set and no hold, nine requests for lower clocks, in any order, set
-- nothing; the tenth is set, at its own clock.
pub down_after_hold :
    (h : ℕ) (hzs : List ℕ) (hz last : ℕ) (s : Sys)
    → All (λ x. x < last) (h ∷ hzs)
    → length (h ∷ hzs) ≡ 9
    → hz < last
    → gpu_run ((h ∷ hzs) ++ hz ∷ []) (holding 0 last) s ≡ (holding 0 hz, moved hz (idled_for 9 s))
unfolding gpu_run idled_for
down_after_hold h hzs hz last s below nine lower =
    rw (arms h last s below.0, gpu_run)
      (held_for hzs hz last 8 (idled s) below.1 lower (omega arith))
