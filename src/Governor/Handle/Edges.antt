-- ===== src/Governor/Handle/Edges.antt =====
-- `HandleGovernor` acts on changes alone.
use horizon_oc.Prelude.{◌==◌, true, if◌then◌else◌, Bool, not, ◌&&◌, List, ◌∷◌, arith, ℕ, ◌≡◌}
use horizon_oc.Board.Types.{governor}
use horizon_oc.ClockManager.State.{
  Sys, Cmd, sleep_thread, reset_to_stock_cpu, reset_to_stock_gpu, reset_to_stock_display,
}
use horizon_oc.Governor.State.{enabled, governor_state_cpu, governor_state_gpu, governor_state_vrr}
use horizon_oc.Governor.Handle.{
  set_states, handle_governor, resolve_target, resolve, went_off, bool_ne,
}

-- All flags follow the new states, and nothing else of the process changes but the commands given.
settled : Bool → Bool → Bool → Sys → List Cmd → Sys
settled c g v s log = record s {
  flags = record {
    is_cpu_governor_enabled = c;
    is_gpu_governor_enabled = g;
    is_vrr_enabled = v;
    last_cpu_governor_state = c;
    last_gpu_governor_state = g;
    last_vrr_governor_state = v;
  };
  log = log;
}

-- The commands for one governor: it has gone off if it was on at the last call.
unfoldable pub off_log : Bool → Bool → Cmd → List Cmd → List Cmd
off_log new last reset log = if not new && last then reset ∷ sleep_thread 100000000 ∷ log else log

set_states-settled :
    (c g v : Bool) (s : Sys)
    → let f = s.flags in
      set_states c g v s
      ≡ settled c g v s (
          off_log v f.last_vrr_governor_state reset_to_stock_display (
            off_log g f.last_gpu_governor_state reset_to_stock_gpu
              (off_log c f.last_cpu_governor_state reset_to_stock_cpu s.log)))
unfolding set_states settled off_log went_off bool_ne
set_states-settled c g v s = ground arith

settled_again :
    (c g v : Bool) (s : Sys) (log : List Cmd)
    → set_states c g v (settled c g v s log) ≡ settled c g v s log
unfolding set_states settled went_off bool_ne
settled_again c g v s log = ground arith

set_states_idempotent :
    (c g v : Bool) (s : Sys) → set_states c g v (set_states c g v s) ≡ set_states c g v s
set_states_idempotent c g v s = rw (set_states-settled c g v s) (settled_again c g v s _)

target_stays :
    (c g v : Bool) (s : Sys)
    → resolve_target (set_states c g v s) governor true ≡ resolve_target s governor true
unfolding resolve_target settled
target_stays c g v s = rw (set_states-settled c g v s)

-- A second call with the same word changes nothing and gives no command.
pub handle_governor_idempotent :
    (target : ℕ) (s : Sys)
    → handle_governor target (handle_governor target s) ≡ handle_governor target s
unfolding handle_governor
handle_governor_idempotent target s =
    let temp = resolve_target s governor true in
    let c = resolve (governor_state_cpu target) (governor_state_cpu temp) == enabled in
    let g = resolve (governor_state_gpu target) (governor_state_gpu temp) == enabled in
    let v = resolve (governor_state_vrr target) (governor_state_vrr temp) == enabled in
    rw (target_stays c g v s) (set_states_idempotent c g v s)
