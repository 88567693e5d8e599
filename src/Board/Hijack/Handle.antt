-- ===== src/Board/Hijack/Handle.antt =====
-- `GetPcvHandle` of hoc-clk/sysmodule/src/board/board_volt.cpp: the handle by which the process pcv
-- is debugged. A process stops while its handle is open. A call that fails leaves `handle` as it is.
pub mod Found
use horizon_oc.Prelude.{
  ◌==◌, if◌then◌else◌, ℕ, Bool, true, false, Option, none, some, List, [], ◌∷◌,
}

abbrev pub pcv_id : ℕ
pcv_id = 0x10000000000001a

-- The answers for a process and for a handle; `none` is a failure.
pub record Debugger : Type 0 where
  pub debug_active_process : ℕ → Option ℕ
  pub event_program_id : ℕ → Option ℕ

-- The handle that is returned, if any, and the handles that are open, newest first.
abbrev pub Handles : Type 0
Handles = Option ℕ × List ℕ

abbrev pub close_newest : Bool → List ℕ → List ℕ
close_newest true (h ∷ hs) = hs
close_newest true [] = []
close_newest false hs = hs

-- The loop over the processes; the flag says that `handle` is one that is open.
unfoldable pub pcv_loop : Debugger → List ℕ → Bool → List ℕ → Handles
pcv_loop d [] held open_handles = (none, open_handles)
pcv_loop d (pid ∷ pids) held open_handles =
    let closed = close_newest held open_handles in
    let next = pcv_loop d pids false closed in
    elim (d.debug_active_process pid) [
      | none ↦ next
      | some h ↦
          (let next_held = pcv_loop d pids true (h ∷ closed) in
            elim (d.event_program_id h) [
              | none ↦ next_held
              | some id ↦ if id == pcv_id then (some h, h ∷ closed) else next_held
            ])
    ]

-- The argument is the list of the processes, or `none` where it fails.
unfoldable pub get_pcv_handle : Debugger → Option (List ℕ) → List ℕ → Handles
get_pcv_handle d none open_handles = (none, open_handles)
get_pcv_handle d (some pids) open_handles = pcv_loop d pids false open_handles
