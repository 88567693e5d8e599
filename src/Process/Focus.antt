-- ===== src/Process/Focus.antt =====
-- What is known of the focus after a call.
use horizon_oc.Prelude.{
  ne→==, eq→==, truthy, All, if◌then◌else◌, ℕ, ◌-◌, ◌≡◌, ◌≢◌, refl, ap, ◌∙◌, true, false, none,
  some, List, [], ◌∷◌, ◌++◌, arith,
}
use horizon_oc.Process.{
  PlayEvent, PlayServices, AppletIds, FocusState, answer_from, last_of, is_of, tells_out_of_focus,
  from_events, is_application_out_of_focus,
}

-- No event of the log is one of the application.
abbrev pub NoneOf : AppletIds → ℕ → List PlayEvent → Type 0
NoneOf ids tid = All (λ e. is_of ids tid e ≡ false)

-- The last event of the application in a log: what comes after it is not of it.
pub record IsLast (ids : AppletIds) (tid : ℕ) (log : List PlayEvent) (e : PlayEvent) : Type 0 where
  pub before : List PlayEvent
  pub after : List PlayEvent
  pub parts : log ≡ before ++ e ∷ after
  pub of_it : is_of ids tid e ≡ true
  pub rest : NoneOf ids tid after

-- The services answer, and the events have grown since the last call.
pub record HasNews (p : PlayServices) (s : FocusState) : Type 0 where
  pub pid_ok : p.application_process_id.0 ≡ 0
  pub tid_ok : (p.program_id p.application_process_id.1).0 ≡ 0
  pub range_ok : p.play_event_range.0 ≡ 0
  pub grown : p.play_event_range.1 ≢ s.last_total_entries

-- The query that a call makes.
abbrev pub queried : PlayServices → ℕ × List PlayEvent
queried p = p.query_play_event (p.play_event_range.2 - 15)

abbrev pub running_tid : PlayServices → ℕ
running_tid p = (p.program_id p.application_process_id.1).1

last_of-none :
    (ids : AppletIds) (tid : ℕ) (log : List PlayEvent)
    → NoneOf ids tid log
    → last_of ids tid log ≡ none
unfolding last_of
last_of-none ids tid [] none_of = refl
last_of-none ids tid (e ∷ es) (others, rest) = rw (last_of-none ids tid es rest, others) refl

last_of-before :
    (ids : AppletIds) (tid : ℕ) (before after : List PlayEvent) (e : PlayEvent)
    → is_of ids tid e ≡ true
    → NoneOf ids tid after
    → last_of ids tid (before ++ e ∷ after) ≡ some e
unfolding last_of
last_of-before ids tid [] after e of_it rest = rw (last_of-none ids tid after rest, of_it) refl
last_of-before ids tid (x ∷ before) after e of_it rest =
    rw (last_of-before ids tid before after e of_it rest) refl

last_of-IsLast :
    (ids : AppletIds) (tid : ℕ) (log : List PlayEvent) (e : PlayEvent)
    → IsLast ids tid log e
    → last_of ids tid log ≡ some e
last_of-IsLast ids tid log e l =
    rw l.parts (last_of-before ids tid l.before l.after e l.of_it l.rest)

nothing_last : (ids : AppletIds) (tid : ℕ) → last_of ids tid [] ≡ none
unfolding last_of
nothing_last ids tid = refl

from_found :
    (ids : AppletIds) (tid : ℕ) (s : FocusState) (log : List PlayEvent) (e : PlayEvent)
    → last_of ids tid log ≡ some e
    → from_events ids tid s log ≡ (
      0,
      some (tells_out_of_focus ids e),
      record s { is_out_of_focus = tells_out_of_focus ids e },
    )
unfolding from_events
from_found ids tid s [] e found = grind (arith, nothing_last ids tid)
from_found ids tid s (x ∷ log) e found = ap (answer_from ids s) found

-- A call with news depends on the query.
news :
    (ids : AppletIds) (p : PlayServices) (s : FocusState)
    → HasNews p s
    → let counted = record s { last_total_entries = p.play_event_range.1 } in
      is_application_out_of_focus ids p s ≡ (
        if truthy (queried p).0
        then ((queried p).0, none, counted)
        else from_events ids (running_tid p) counted (queried p).1)
unfolding is_application_out_of_focus
news ids p s n =
    rw (n.pid_ok, n.tid_ok, n.range_ok, ne→== p.play_event_range.1 s.last_total_entries n.grown)
      refl

-- A call without news gives the answer that is stored.
no_news :
    (ids : AppletIds) (p : PlayServices) (s : FocusState)
    → p.application_process_id.0 ≡ 0
    → (p.program_id p.application_process_id.1).0 ≡ 0
    → p.play_event_range.0 ≡ 0
    → p.play_event_range.1 ≡ s.last_total_entries
    → is_application_out_of_focus ids p s ≡ (0, some s.is_out_of_focus, s)
unfolding is_application_out_of_focus
no_news ids p s pid_ok tid_ok range_ok same =
    rw (pid_ok, tid_ok, range_ok, same, eq→== s.last_total_entries s.last_total_entries refl) refl

-- When the events have grown and the query gives one of the application, a call tells what the last
-- such event says. A second call while the events have not grown gives the same answer, whatever a
-- query would then give.
pub is_application_out_of_focus-IsLast :
    (ids : AppletIds) (p : PlayServices) (s : FocusState) (e : PlayEvent)
    (later : ℕ → ℕ × List PlayEvent)
    → HasNews p s
    → (queried p).0 ≡ 0
    → IsLast ids (running_tid p) (queried p).1 e
    → let out = tells_out_of_focus ids e in
      let told = record s { last_total_entries = p.play_event_range.1; is_out_of_focus = out } in
      (is_application_out_of_focus ids p s ≡ (0, some out, told))
      × (is_application_out_of_focus ids (record p { query_play_event = later }) told
          ≡ (0, some out, told))
is_application_out_of_focus-IsLast ids p s e later n query_ok l = (
  news ids p s n
      ∙ rw query_ok (
          from_found ids (running_tid p) (record s { last_total_entries = p.play_event_range.1 })
            (queried p).1 e (last_of-IsLast ids (running_tid p) (queried p).1 e l)),
  no_news ids (record p { query_play_event = later })
      (record s {
        last_total_entries = p.play_event_range.1;
        is_out_of_focus = tells_out_of_focus ids e;
      })
      n.pid_ok n.tid_ok n.range_ok refl,
)

-- After a query that fails, a second call succeeds with the answer that was known before the first.
pub out_of_focus_stale :
    (ids : AppletIds) (p : PlayServices) (s : FocusState)
    → HasNews p s
    → truthy (queried p).0 ≡ true
    → let counted = record s { last_total_entries = p.play_event_range.1 } in
      (is_application_out_of_focus ids p s ≡ ((queried p).0, none, counted))
      × (is_application_out_of_focus ids p counted ≡ (0, some s.is_out_of_focus, counted))
out_of_focus_stale ids p s n failed = (
  news ids p s n ∙ rw failed refl,
  no_news ids p (record s { last_total_entries = p.play_event_range.1 }) n.pid_ok n.tid_ok
      n.range_ok refl,
)
