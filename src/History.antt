-- ===== src/History.antt =====
-- Undo and redo of the draft editor (frontend/src/features/drafts/hooks/useDraftHistory.ts). Both
-- stacks have their newest entry at the head, so `past.at(-1)` is the head and `slice(-LIMIT)` is
-- `take`. The key of the server's draft is the text that a render computes of it.
pub mod Outline
pub mod Linked
pub mod Inverse
pub mod Moves
pub mod Commands
pub mod Texts
pub mod Shown
mod Tests
use full_stack_resume.Common.{
  ℕ, ◌+◌, String, Bool, true, false, ◌&&◌, Option, none, some, List, [], ◌∷◌, ◌++◌, ◌==◌, leb,
  if◌then◌else◌, take, lookup,
}
use full_stack_resume.Api.Documents.{DraftClaim, DraftSection, DocumentOutline, EditableDocument}
use Outline.{
  claim_map, set_outline_text, move_in_outline, moved_ids, Offset, claim_ids, section_named,
}

unfoldable pub history_limit : ℕ
history_limit = 50

unfoldable pub typing_group_ms : ℕ
typing_group_ms = 900

pub record HistoryEntry : Type 0 where
  pub before : DocumentOutline
  pub after : DocumentOutline
  pub claim_id : Option String
  pub at : ℕ

pub record HistoryState : Type 0 where
  pub draft_id : Option String
  pub source_key : Option String
  pub outline : Option DocumentOutline
  pub past : List HistoryEntry
  pub future : List HistoryEntry

-- What the hook asks of the autosave.
pub data Command : Type 0 where
  queue_edit : (claim : DraftClaim) (text : String) → Command
  queue_claim_order : (section : String) (order : List String) → Command

-- the first state, and `reset`
unfoldable pub opened : Option EditableDocument → Option String → HistoryState
opened none key = record {
  draft_id = none;
  source_key = key;
  outline = none;
  past = [];
  future = [];
}
opened (some d) key = record {
  draft_id = some d.id;
  source_key = key;
  outline = some d.outline;
  past = [];
  future = [];
}

abbrev same_text : Option String → Option String → Bool
same_text none none = true
same_text (some a) (some b) = a == b
same_text _ _ = false

-- `stored.draftId === draft?.id`
abbrev same_draft : Option String → Option EditableDocument → Bool
same_draft (some id) (some d) = id == d.id
same_draft _ _ = false

-- what a render makes of the stored state when the draft read from the server has changed
unfoldable pub rebase : Option EditableDocument → Option String → HistoryState → HistoryState
unfolding opened
rebase draft key h =
    if same_text h.source_key key
    then h
    else if same_draft h.draft_id draft
    then record (opened draft key) { past = h.past; future = h.future }
    else opened draft key

-- whether a change joins the entry before it: both of one claim, within the typing group
unfoldable pub joins : Option String → ℕ → List HistoryEntry → Bool
joins (some c) now (e ∷ es) = same_text e.claim_id (some c) && leb now (e.at + typing_group_ms)
joins _ now _ = false

unfoldable pub with_entry : Bool → HistoryEntry → List HistoryEntry → List HistoryEntry
with_entry true entry (last ∷ es) = record last { after = entry.after; at = entry.at } ∷ es
with_entry _ entry es = take history_limit (entry ∷ es)

-- `record`
note_on : Option DocumentOutline → DocumentOutline → Option String → ℕ → HistoryState → HistoryState
unfolding joins with_entry
note_on none next claim_id now h = h
note_on (some current) next claim_id now h = record h {
  outline = some next;
  past =
      with_entry (joins claim_id now h.past)
        (record { before = current; after = next; claim_id = claim_id; at = now }) h.past;
  future = [];
}

unfoldable pub note_change : DocumentOutline → Option String → ℕ → HistoryState → HistoryState
unfolding note_on
note_change next claim_id now h = note_on h.outline next claim_id now h

-- `edit`, on the claim that the outline has under the id
edit_target :
    Option DraftClaim
    → DraftClaim
    → String
    → DocumentOutline
    → ℕ
    → HistoryState
    → HistoryState × List Command
unfolding note_change
edit_target none claim text current now h = (h, [])
edit_target (some target) claim text current now h = if target.text == text then (h, []) else (
  note_change (set_outline_text claim.claim_id text current) (some claim.claim_id) now h,
  queue_edit claim text ∷ [],
)

edit_on :
    Option DocumentOutline → DraftClaim → String → ℕ → HistoryState → HistoryState × List Command
unfolding edit_target
edit_on none claim text now h = (h, [])
edit_on (some current) claim text now h =
    edit_target (lookup claim.claim_id (claim_map current)) claim text current now h

unfoldable pub edit : DraftClaim → String → ℕ → HistoryState → HistoryState × List Command
unfolding edit_on
edit claim text now h = edit_on h.outline claim text now h

-- `moveClaim`, of a claim of the section
move_to_outline : Option DocumentOutline → String → ℕ → HistoryState → HistoryState × List Command
unfolding note_change
move_to_outline none section now h = (h, [])
move_to_outline (some next) section now h =
    (note_change next none now h, queue_claim_order section (moved_ids section next) ∷ [])

move_on :
    Option DocumentOutline → String → ℕ → Offset → ℕ → HistoryState → HistoryState × List Command
unfolding move_to_outline
move_on none section index offset now h = (h, [])
move_on (some current) section index offset now h =
    move_to_outline (move_in_outline section index offset current) section now h

unfoldable pub move_claim : String → ℕ → Offset → ℕ → HistoryState → HistoryState × List Command
unfolding move_on
move_claim section index offset now h = move_on h.outline section index offset now h

-- `undo` and `redo`, without the commands of `apply`
undo_past : List HistoryEntry → HistoryState → HistoryState
undo_past [] h = h
undo_past (e ∷ es) h = record h { outline = some e.before; past = es; future = e ∷ h.future }

unfoldable pub undo : HistoryState → HistoryState
unfolding undo_past
undo h = undo_past h.past h

redo_future : List HistoryEntry → HistoryState → HistoryState
redo_future [] h = h
redo_future (e ∷ es) h = record h {
  outline = some e.after;
  past = take history_limit (e ∷ h.past);
  future = es;
}

unfoldable pub redo : HistoryState → HistoryState
unfolding redo_future
redo h = redo_future h.future h

-- `apply`: the edits and orders that take the outline shown to the target. Ids are taken to be not
-- empty and to hold no NUL, so that joined ids are equal when the lists are.
edit_for : Option DraftClaim → DraftClaim → List Command
edit_for none claim = []
edit_for (some previous) claim =
    if previous.text == claim.text then [] else queue_edit previous claim.text ∷ []

edits_to : List (String × DraftClaim) → List (String × DraftClaim) → List Command
unfolding edit_for
edits_to current [] = []
edits_to current ((id, claim) ∷ m) =
    edit_for (lookup claim.claim_id current) claim ++ edits_to current m

same_ids : List String → List String → Bool
same_ids [] [] = true
same_ids (a ∷ as') (b ∷ bs) = a == b && same_ids as' bs
same_ids _ _ = false

order_for : Option DraftSection → DraftSection → List Command
unfolding same_ids
order_for none s = []
order_for (some previous) s =
    if same_ids (claim_ids previous.claims) (claim_ids s.claims)
    then []
    else queue_claim_order s.name (claim_ids s.claims) ∷ []

orders_to : List DraftSection → List DraftSection → List Command
unfolding order_for
orders_to current [] = []
orders_to current (s ∷ ss) = order_for (section_named s.name current) s ++ orders_to current ss

unfoldable pub apply : DocumentOutline → DocumentOutline → List Command
unfolding edits_to orders_to
apply current target =
    edits_to (claim_map current) (claim_map target) ++ orders_to current.sections target.sections
