-- ===== src/Process.antt =====
-- hoc-clk/sysmodule/src/process_management.cpp: which application runs, and whether it is in focus.
-- What the services answer are parameters; a result is 0 on success.
pub mod Focus
use horizon_oc.Prelude.{
  truthy, ◌==◌, ◌&&◌, ◌||◌, if◌then◌else◌, ℕ, ◌+◌, ◌-◌, ◌*◌, ◌%◌, ◌^◌, Bool, Option, none, some,
  List, [], ◌∷◌,
}

-- `PdmPlayEvent`, as far as it is read.
pub record PlayEvent : Type 0 where
  pub is_applet : Bool
  pub applet_id : ℕ
  pub program_id_0 : ℕ
  pub program_id_1 : ℕ
  pub event_type : ℕ

pub record PlayServices : Type 0 where
  pub application_process_id : ℕ × ℕ
  pub program_id : ℕ → ℕ × ℕ
  pub play_event_range : ℕ × ℕ × ℕ  -- with the count of entries and the last index
  pub query_play_event : ℕ → ℕ × List PlayEvent  -- at most 16, from an index on

-- AppletId_application, and the two types of event that tell of a lost focus.
pub record AppletIds : Type 0 where
  pub application : ℕ
  pub out_of_focus : ℕ
  pub out_of_focus4 : ℕ

-- The statics of `isApplicationOutOfFocus`.
pub record FocusState : Type 0 where
  pub last_total_entries : ℕ
  pub is_out_of_focus : Bool

-- An event of the application whose id, less its 12 lowest bits, is given.
abbrev pub is_of : AppletIds → ℕ → PlayEvent → Bool
is_of ids tid e =
    e.is_applet
    && (e.applet_id == ids.application)
    && (e.program_id_1 + e.program_id_0 * 2 ^ 32 == tid - tid % 2 ^ 12)

-- The loop from the last event down to the first, for one of the application.
unfoldable pub last_of : AppletIds → ℕ → List PlayEvent → Option PlayEvent
last_of ids tid [] = none
last_of ids tid (e ∷ es) =
    let later = last_of ids tid es in
    elim later [ some found ↦ some found | none ↦ if is_of ids tid e then some e else none ]

abbrev pub tells_out_of_focus : AppletIds → PlayEvent → Bool
tells_out_of_focus ids e = (e.event_type == ids.out_of_focus) || (e.event_type == ids.out_of_focus4)

-- The result, what is written to `*outOfFocus` if anything is, and the statics.
abbrev pub Focus : Type 0
Focus = ℕ × Option Bool × FocusState

-- What follows the search: the answer that the event gives, if there is one.
abbrev pub answer_from : AppletIds → FocusState → Option PlayEvent → Focus
answer_from ids s none = (1, none, s)
answer_from ids s (some e) =
    (0, some (tells_out_of_focus ids e), record s { is_out_of_focus = tells_out_of_focus ids e })

-- The events of the query, from the last one down.
unfoldable pub from_events : AppletIds → ℕ → FocusState → List PlayEvent → Focus
from_events ids tid s [] = (1, none, s)
from_events ids tid s (e ∷ es) = answer_from ids s (last_of ids tid (e ∷ es))

unfoldable pub is_application_out_of_focus : AppletIds → PlayServices → FocusState → Focus
unfolding from_events
is_application_out_of_focus ids p s =
    let (pid_rc, pid) = p.application_process_id in
    let (tid_rc, tid) = p.program_id pid in
    let (range_rc, total, last) = p.play_event_range in
    let (query_rc, events) = p.query_play_event (last - 15) in
    let counted = record s { last_total_entries = total } in
    if truthy pid_rc
    then (pid_rc, none, s)
    else if truthy tid_rc
    then (tid_rc, none, s)
    else if truthy range_rc
    then (range_rc, none, s)
    else if total == s.last_total_entries
    then (0, some s.is_out_of_focus, s)
    else if truthy query_rc
    then (query_rc, none, counted)
    else from_events ids tid counted events

abbrev pub qlaunch : ℕ
qlaunch = 0x0100000000001000

-- The result that stands for the home menu.
abbrev pub is_qlaunch : ℕ
is_qlaunch = 0x20f

-- `none` is an abort.
unfoldable pub get_current_application_id : ℕ × ℕ → (ℕ → ℕ × ℕ) → Option ℕ
get_current_application_id (pid_rc, pid) program_id =
    let (rc, tid) = program_id pid in
    if pid_rc == is_qlaunch
    then some qlaunch
    else if truthy pid_rc
    then none
    else if rc == is_qlaunch
    then some qlaunch
    else if truthy rc
    then none
    else some tid
