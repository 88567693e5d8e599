-- ===== src/Board/Hijack/Handle/Found.antt =====
-- Which handle is returned, and which handles stay open.
use horizon_oc.Prelude.{
  ◌==◌, All, ℕ, ◌≡◌, ◌≢◌, refl, sym, ap, ◌∙◌, Bool, true, false, Option, none, some, List, [], ◌∷◌,
  arith, Bool-cases, inl, inr, Option-cases,
}
use mathlib.Core.Option.{some-injective, none-ne-some}
use horizon_oc.Board.Hijack.Handle.{
  Debugger, Handles, pcv_id, close_newest, pcv_loop, get_pcv_handle,
}

abbrev pub with_handle : List ℕ → Option ℕ → List ℕ
with_handle base none = base
with_handle base (some h) = h ∷ base

-- The open handles after a list of processes of which none is pcv: those from before, and the handle
-- of the last process if it could be debugged.
abbrev pub open_after : Debugger → List ℕ → List ℕ → List ℕ → List ℕ
open_after d base [] start = start
open_after d base (pid ∷ pids) start =
    open_after d base pids (with_handle base (d.debug_active_process pid))

abbrev pub IsPcv : Debugger → ℕ → Type 0
IsPcv d h = d.event_program_id h ≡ some pcv_id

-- No handle of the process is one of pcv.
abbrev pub NotPcv : Debugger → ℕ → Type 0
NotPcv d pid = (h : ℕ) → d.debug_active_process pid ≡ some h → ¬ IsPcv d h

pub data Searched (d : Debugger) (base pids start : List ℕ) : Handles → Type 0 where
  is_found : (h : ℕ) → IsPcv d h → Searched d base pids start (some h, h ∷ base)
  is_missing :
      (left : List ℕ)
      → All (NotPcv d) pids
      → left ≡ open_after d base pids start
      → Searched d base pids start (none, left)

other_id : (id : ℕ) → (id == pcv_id) ≡ false → id ≢ pcv_id
other_id id differs e = ground (arith, differs, e)

skipped :
    (d : Debugger) (base pids start : List ℕ) (pid : ℕ) (r : Handles)
    → NotPcv d pid
    → Searched d base pids (with_handle base (d.debug_active_process pid)) r
    → Searched d base (pid ∷ pids) start r
skipped d base pids start pid _ other (is_found h is) = is_found h is
skipped d base pids start pid _ other (is_missing left others e) = is_missing left (other, others) e

pcv_loop-Searched :
    (d : Debugger) (base pids : List ℕ) (held : Bool) (start : List ℕ)
    → close_newest held start ≡ base
    → Searched d base pids start (pcv_loop d pids held start)
unfolding pcv_loop
pcv_loop-Searched d base [] held start e = is_missing start tt refl
pcv_loop-Searched d base (pid ∷ pids) held start e =
    elim (Option-cases (d.debug_active_process pid)) [
      | inl fails ↦
          let rest =
            skipped d base pids start pid (pcv_loop d pids false base)
              (λ h opens. absurd (none-ne-some h (sym fails ∙ opens)))
              (rw fails (pcv_loop-Searched d base pids false base refl)) in
          rw (fails, pcv_loop, e) rest
      | inr (h, opens) ↦
          let next : ¬ IsPcv d h
              → Searched d base (pid ∷ pids) start (pcv_loop d pids true (h ∷ base)) =
            λ other.
              skipped d base pids start pid (pcv_loop d pids true (h ∷ base))
                (λ h' opens' is.
                  other (ap d.event_program_id (some-injective h h' (sym opens ∙ opens')) ∙ is))
                (rw opens (pcv_loop-Searched d base pids true (h ∷ base) refl)) in
          elim (Option-cases (d.event_program_id h)) [
            | inl no_event ↦
                rw (opens, pcv_loop, no_event, e)
                  (next (λ is. none-ne-some pcv_id (sym no_event ∙ is)))
            | inr (id, event) ↦ elim (Bool-cases (id == pcv_id)) [
              | inl same ↦
                  rw (opens, pcv_loop, event, same, e)
                    (is_found h (event ∙ ap some (ground (arith, same))))
              | inr differs ↦
                  rw (opens, pcv_loop, event, differs, e)
                    (next (λ is. other_id id differs (some-injective id pcv_id (sym event ∙ is))))
            ]
          ]
    ]

-- If GetPcvHandle gives a handle, it is one of pcv and the only one that it leaves open. Otherwise
-- no process that it could debug is pcv, and the handle of the last process stays open if there is
-- one.
pub get_pcv_handle-Searched :
    (d : Debugger) (pids open_handles : List ℕ)
    → Searched d open_handles pids open_handles (get_pcv_handle d (some pids) open_handles)
unfolding get_pcv_handle
get_pcv_handle-Searched d pids open_handles =
    pcv_loop-Searched d open_handles pids false open_handles refl
