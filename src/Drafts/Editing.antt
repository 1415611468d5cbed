-- ===== src/Drafts/Editing.antt =====
-- The writes of the draft's screen (frontend/src/features/drafts/hooks/useDraftEditing.ts): the history
-- of useDraftHistory.ts with its commands forwarded to the autosave of useDraftAutosave.ts.
pub mod Refines
pub mod Agrees
use full_stack_resume.Common.{ℕ, String, Bool, not, ◌||◌, Option, none, some, List, [], ◌∷◌}
use full_stack_resume.Api.Documents.{DraftClaim, EditableDocument, ClaimPatch}
use full_stack_resume.Autosave.Buffer.{Change, edit, removal, addition, claim_order}
use full_stack_resume.Autosave.Machine.Dirty.{dirty}
use full_stack_resume.Autosave.Machine.{Autosave, Event, queued, discarded, step}
use full_stack_resume.History.Outline.{Offset}
use full_stack_resume.History.{
  HistoryState, Command, queue_edit, queue_claim_order, move_claim, undo, redo, rebase, opened,
}
use full_stack_resume.History.Shown.{undo_commands, redo_commands}
use full_stack_resume.History
use full_stack_resume.Drafts.Claims.{removability, patch, stays}

pub record Editing : Type 0 where
  pub autosave : Autosave
  pub history : HistoryState

-- `queueEdit` as the history calls it: the fact links are the claim's own
abbrev pub edit_of : DraftClaim → String → ClaimPatch
edit_of claim text = record {
  claim_id = claim.claim_id;
  fact_ids = claim.fact_ids;
  template_id = none;
  template_version = none;
  text = some text;
}

abbrev pub change_of : Command → Change
change_of (queue_edit claim text) = edit (edit_of claim text)
change_of (queue_claim_order section order) = claim_order section order

-- the commands in the order in which the history gives them
unfoldable pub forward : List Command → Autosave → Autosave
forward [] a = a
forward (c ∷ cs) a = forward cs (step (queued (change_of c)) a)

-- What the user does to the lines on the screen.
pub data UserAction : Type 0 where
  edits : (claim : DraftClaim) (text : String) (now : ℕ) → UserAction
  moves : (section : String) (index : ℕ) (offset : Offset) (now : ℕ) → UserAction
  undoes redoes : UserAction
  adds : (section text : String) → UserAction

-- the history after an action, and its commands
unfoldable pub history_after : UserAction → HistoryState → HistoryState × List Command
history_after (edits claim text now) h = History.edit claim text now h
history_after (moves section index offset now) h = move_claim section index offset now h
history_after undoes h = (undo h, undo_commands h)
history_after redoes h = (redo h, redo_commands h)
history_after (adds section text) h = (h, [])

-- `onAdd` queues an addition, and nothing else does
abbrev pub added : UserAction → Autosave → Autosave
added (adds section text) a = step (queued (addition (record { section = section; text = text }))) a
added _ a = a

-- What happens to the screen: an action of the user, a removal, an event of the autosave, a render
-- that finds another draft of the server, and `discardLocal`.
pub data EditingEvent : Type 0 where
  acts : UserAction → EditingEvent
  removes : (claim : DraftClaim) (draft : Option EditableDocument) → EditingEvent
  runs : Event → EditingEvent
  rereads discards : (draft : Option EditableDocument) (key : Option String) → EditingEvent

-- `removeClaim`
unfoldable pub remove_claim : DraftClaim → Option EditableDocument → Autosave → Autosave
remove_claim claim none a = a
remove_claim claim (some draft) a = elim (removability claim draft) [
  | patch ↦ step (queued (removal claim.claim_id)) a
  | stays reason ↦ a
]

unfoldable pub editing_step : EditingEvent → Editing → Editing
unfolding history_after forward remove_claim
editing_step (acts action) e =
    let next = history_after action e.history in
    record e { autosave = added action (forward next.1 e.autosave); history = next.0 }
editing_step (removes claim draft) e = record e { autosave = remove_claim claim draft e.autosave }
editing_step (runs event) e = record e { autosave = step event e.autosave }
editing_step (rereads draft key) e = record e { history = rebase draft key e.history }
editing_step (discards draft key) e = record e {
  autosave = step discarded e.autosave;
  history = opened draft key;
}

abbrev pub editing_run : List EditingEvent → Editing → Editing
editing_run [] e = e
editing_run (event ∷ es) e = editing_run es (editing_step event e)

-- `regenerationDisabled`
abbrev pub regeneration_disabled : Bool → Bool → Bool → Autosave → Bool
regeneration_disabled operation_live is_pending available a =
    operation_live || dirty a || is_pending || not available
