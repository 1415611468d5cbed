-- ===== src/Drafts/Editing/Refines.antt =====
-- What useDraftEditing.ts sends follows what it shows: the sheet of a claim is the text shown for it
-- and the text that waits for the server.
use full_stack_resume.Common.{
  String, ◌≡◌, refl, sym, ap, ◌∙◌, Bool, true, false, Option, none, some, List, [], ◌∷◌, arith,
  first_of_two, all, lookup,
}
use full_stack_resume.Api.Documents.{ClaimPatch}
use full_stack_resume.Autosave.Buffer.{Change, edit, addition, claim_order, queue}
use full_stack_resume.Autosave.Buffer.Queue.{queue_replaces}
use full_stack_resume.Autosave.Machine.{Autosave, queued, step, queue_change, publish, mirror}
use full_stack_resume.Autosave.Machine.Intent.{pending_edit, leaves, step-pending_edit}
use full_stack_resume.Autosave.Machine.Consistent.{IsConsistent}
use full_stack_resume.Autosave.Machine.Invariant.{step-IsConsistent}
use full_stack_resume.History.Commands.{command_text, queued_text}
use full_stack_resume.History.{HistoryState, Command, queue_edit, queue_claim_order}
use full_stack_resume.History.Shown.{
  shown_text, difference, difference_self, edit-queued_text, undo-queued_text, redo-queued_text,
  move_claim-queued_text,
}
use full_stack_resume.Drafts.Editing.{
  Editing, edit_of, change_of, forward, UserAction, edits, moves, undoes, redoes, adds,
  history_after, added, EditingEvent, acts, removes, runs, rereads, discards, editing_step,
  editing_run,
}

abbrev patch_text : Option ClaimPatch → Option String
patch_text none = none
patch_text (some p) = p.text

-- The text of a claim that waits for the server, in the buffer or on its way.
abbrev pub waiting_text : String → Autosave → Option String
waiting_text id a = patch_text (pending_edit id a)

lookup_queued :
    (id : String) (c : Change) (a : Autosave)
    → lookup id (step (queued c) a).buffer.edits ≡ lookup id (queue c a.buffer).edits
unfolding step queue_change publish mirror
lookup_queued id c a = ground arith

queued_active : (c : Change) (a : Autosave) → (step (queued c) a).active ≡ a.active
unfolding step queue_change publish mirror
queued_active c a = ground arith

quiet-waiting_text :
    (id : String) (c : Change) (a : Autosave)
    → lookup id (queue c a.buffer).edits ≡ lookup id a.buffer.edits
    → waiting_text id (step (queued c) a) ≡ waiting_text id a
quiet-waiting_text id c a e = ground (arith, lookup_queued id c a, queued_active c a)

change-waiting_text :
    (id : String) (c : Command) (a : Autosave)
    → waiting_text id (step (queued (change_of c)) a)
      ≡ first_of_two (command_text id c) (waiting_text id a)
unfolding queue
change-waiting_text id (queue_edit claim text) a = ground (
  arith,
  lookup_queued id (edit (edit_of claim text)) a,
  queued_active (edit (edit_of claim text)) a,
  (queue_replaces (edit_of claim text) a.buffer id id).0,
)
change-waiting_text id (queue_claim_order section order) a =
    quiet-waiting_text id (claim_order section order) a refl

forward-waiting_text :
    (id : String) (cs : List Command) (a : Autosave)
    → waiting_text id (forward cs a) ≡ first_of_two (queued_text id cs) (waiting_text id a)
unfolding forward
forward-waiting_text id [] a = ground arith
forward-waiting_text id (c ∷ cs) a =
    forward-waiting_text id cs (step (queued (change_of c)) a)
    ∙ ground (arith, change-waiting_text id c a)

-- What waits for a claim after an action: the text that the claim is shown with, where the action
-- changed it, and what waited before otherwise. A move sends no text.
abbrev pub due : UserAction → String → HistoryState → HistoryState → Option String → Option String
due (moves section index offset now) id before after old = old
due _ id before after old =
    first_of_two (difference (shown_text id before) (shown_text id after)) old

added-waiting_text :
    (id : String) (action : UserAction) (a : Autosave)
    → waiting_text id (added action a) ≡ waiting_text id a
unfolding queue
added-waiting_text id (adds section text) a = quiet-waiting_text id (addition _) a refl
added-waiting_text id (edits claim text now) a = refl
added-waiting_text id (moves section index offset now) a = refl
added-waiting_text id undoes a = refl
added-waiting_text id redoes a = refl

action-queued_text :
    (id : String) (action : UserAction) (h : HistoryState) (old : Option String)
    → first_of_two (queued_text id (history_after action h).1) old
      ≡ due action id h (history_after action h).0 old
unfolding history_after
action-queued_text id (edits claim text now) h old =
    ap (λ t. first_of_two t old) (edit-queued_text id claim text now h)
action-queued_text id (moves section index offset now) h old =
    ap (λ t. first_of_two t old) (move_claim-queued_text id section index offset now h)
action-queued_text id undoes h old = ap (λ t. first_of_two t old) (undo-queued_text id h)
action-queued_text id redoes h old = ap (λ t. first_of_two t old) (redo-queued_text id h)
action-queued_text id (adds section text) h old =
    ap (λ t. first_of_two t old) (sym (difference_self (shown_text id h)))

-- One action of the user: what waits for a claim afterwards is what the action's effect on the screen
-- asks for, and what waited before otherwise.
pub action-waiting_text :
    (id : String) (action : UserAction) (e : Editing)
    → waiting_text id (editing_step (acts action) e).autosave
      ≡ due action id e.history (history_after action e.history).0 (waiting_text id e.autosave)
unfolding editing_step
action-waiting_text id action e =
    added-waiting_text id action (forward (history_after action e.history).1 e.autosave)
    ∙ forward-waiting_text id (history_after action e.history).1 e.autosave
    ∙ action-queued_text id action e.history (waiting_text id e.autosave)

-- The abstract editor: the history, and the text of one claim that the server is still to get.
pub record Sheet : Type 0 where
  pub history : HistoryState
  pub text : Option String

-- Its step: the user's actions, which change the history and what is due; nothing else changes it.
abbrev pub sheet_step : String → EditingEvent → Sheet → Sheet
sheet_step id (acts action) s =
    let next = (history_after action s.history).0 in
    record { history = next; text = due action id s.history next s.text }
sheet_step id _ s = s

abbrev pub sheet_run : String → List EditingEvent → Sheet → Sheet
sheet_run id [] s = s
sheet_run id (event ∷ es) s = sheet_run id es (sheet_step id event s)

abbrev pub sheet_of : String → Editing → Sheet
sheet_of id e = record { history = e.history; text = waiting_text id e.autosave }

-- The events in which the screen only edits: the user's actions, and those of the autosave that
-- neither discard, nor recover a stored buffer, nor take an accepting answer, nor edit or remove the
-- claim on their own.
abbrev pub is_editing : String → EditingEvent → Bool
is_editing id (acts action) = true
is_editing id (runs event) = leaves id event
is_editing id _ = false

forward-IsConsistent :
    (cs : List Command) (a : Autosave) → IsConsistent a → IsConsistent (forward cs a)
unfolding forward
forward-IsConsistent [] a h = h
forward-IsConsistent (c ∷ cs) a h =
    forward-IsConsistent cs (step (queued (change_of c)) a)
      (step-IsConsistent (queued (change_of c)) a h)

added-IsConsistent :
    (action : UserAction) (a : Autosave) → IsConsistent a → IsConsistent (added action a)
added-IsConsistent (adds section text) a h = step-IsConsistent (queued (addition _)) a h
added-IsConsistent (edits claim text now) a h = h
added-IsConsistent (moves section index offset now) a h = h
added-IsConsistent undoes a h = h
added-IsConsistent redoes a h = h

editing_step-IsConsistent :
    (id : String) (event : EditingEvent) (e : Editing)
    → is_editing id event ≡ true
    → IsConsistent e.autosave
    → IsConsistent (editing_step event e).autosave
unfolding editing_step
editing_step-IsConsistent id (acts action) e k h =
    added-IsConsistent action (forward (history_after action e.history).1 e.autosave)
      (forward-IsConsistent (history_after action e.history).1 e.autosave h)
editing_step-IsConsistent id (runs event) e k h = step-IsConsistent event e.autosave h
editing_step-IsConsistent id (removes claim draft) e k h = cc
editing_step-IsConsistent id (rereads draft key) e k h = cc
editing_step-IsConsistent id (discards draft key) e k h = cc

editing_step-refines :
    (id : String) (event : EditingEvent) (e : Editing)
    → is_editing id event ≡ true
    → IsConsistent e.autosave
    → sheet_of id (editing_step event e) ≡ sheet_step id event (sheet_of id e)
unfolding editing_step
editing_step-refines id (acts action) e k h = λ i. record {
  history = (history_after action e.history).0;
  text = action-waiting_text id action e i;
}
editing_step-refines id (runs event) e k h = λ i. record {
  history = e.history;
  text = patch_text (step-pending_edit id event e.autosave h k i);
}
editing_step-refines id (removes claim draft) e k h = cc
editing_step-refines id (rereads draft key) e k h = cc
editing_step-refines id (discards draft key) e k h = cc

-- The screen refines the abstract editor: from a consistent autosave, over any run of edits, moves,
-- undos, redos and additions, mixed with the timers, sends, refusals, conflicts and reapplications of
-- the autosave (no discarding, recovery, accepting answer, or removal), the history and the text that
-- waits for the claim are the abstract editor's.
pub editing_run-refines :
    (id : String) (es : List EditingEvent) (e : Editing)
    → IsConsistent e.autosave
    → all (is_editing id) es ≡ true
    → sheet_of id (editing_run es e) ≡ sheet_run id es (sheet_of id e)
editing_run-refines id [] e h k = refl
editing_run-refines id (event ∷ es) e h k =
    editing_run-refines id es (editing_step event e)
      (editing_step-IsConsistent id event e (ground arith) h) (ground arith)
    ∙ ap (sheet_run id es) (editing_step-refines id event e (ground arith) h)
