-- ===== src/History/Shown.antt =====
-- What the commands of useDraftHistory.ts have to do with the text shown.
use full_stack_resume.Common.{
  ℕ, String, ◌≡◌, refl, sym, ◌∙◌, inl, inr, Option, none, some, List, [], ◌∷◌, arith, ◌==◌, eq_iff,
  if◌then◌else◌, lookup,
}
use full_stack_resume.Common.Lists.{List-cases}
use full_stack_resume.Api.Documents.{DraftClaim, DocumentOutline}
use full_stack_resume.History.Outline.{claim_map, Offset}
use full_stack_resume.History.Commands.{queued_text, needed_text, apply-queued_text}
use full_stack_resume.History.Texts.{text_of, text_in, set_outline_text-text_in}
use full_stack_resume.History.{
  HistoryState, Command, apply, edit, edit_on, edit_target, undo, undo_past, redo, redo_future,
  move_claim, move_on, move_to_outline, note_change, note_on,
}

abbrev pub shown_on : String → Option DocumentOutline → Option String
shown_on id none = none
shown_on id (some o) = text_in id o

-- The text shown for a claim, none without an outline or without the claim.
abbrev pub shown_text : String → HistoryState → Option String
shown_text id h = shown_on id h.outline

-- The new text of a claim that is shown before and after with different texts.
abbrev pub difference : Option String → Option String → Option String
difference (some before) (some after) = if before == after then none else some after
difference _ _ = none

pub difference_self : (t : Option String) → difference t t ≡ none
difference_self none = refl
difference_self (some t) = ground (arith, eq_iff t t)

needed_text-difference :
    (p c : Option DraftClaim) → needed_text p c ≡ difference (text_of p) (text_of c)
needed_text-difference none c = refl
needed_text-difference (some p) none = refl
needed_text-difference (some p) (some c) = refl

-- `apply` of the outline shown, none when there is none
abbrev pub apply_from : Option DocumentOutline → DocumentOutline → List Command
apply_from none target = []
apply_from (some current) target = apply current target

apply_from-queued_text :
    (id : String) (current : Option DocumentOutline) (target : DocumentOutline)
    → queued_text id (apply_from current target)
      ≡ difference (shown_on id current) (text_in id target)
apply_from-queued_text id none target = refl
apply_from-queued_text id (some current) target =
    apply-queued_text id current target
    ∙ needed_text-difference (lookup id (claim_map current)) (lookup id (claim_map target))

-- the commands of `undo` and `redo`
abbrev pub undo_commands : HistoryState → List Command
undo_commands h = elim h.past [ [] ↦ [] | e ∷ es ↦ apply_from h.outline e.before ]

abbrev pub redo_commands : HistoryState → List Command
redo_commands h = elim h.future [ [] ↦ [] | e ∷ es ↦ apply_from h.outline e.after ]

pub undo-queued_text :
    (id : String) (h : HistoryState)
    → queued_text id (undo_commands h) ≡ difference (shown_text id h) (shown_text id (undo h))
unfolding undo undo_past
undo-queued_text id h = elim (List-cases h.past) [
  | inl n ↦ rw n (sym (difference_self (shown_text id h)))
  | inr (e, es, c) ↦ rw c (apply_from-queued_text id h.outline e.before)
]

pub redo-queued_text :
    (id : String) (h : HistoryState)
    → queued_text id (redo_commands h) ≡ difference (shown_text id h) (shown_text id (redo h))
unfolding redo redo_future
redo-queued_text id h = elim (List-cases h.future) [
  | inl n ↦ rw n (sym (difference_self (shown_text id h)))
  | inr (e, es, c) ↦ rw c (apply_from-queued_text id h.outline e.after)
]

edit_target-queued_text :
    (id : String) (target : Option DraftClaim) (claim : DraftClaim) (text : String)
    (current : DocumentOutline) (now : ℕ) (h : HistoryState)
    → h.outline ≡ some current
    → lookup claim.claim_id (claim_map current) ≡ target
    → queued_text id (edit_target target claim text current now h).1
      ≡ difference
          (text_in id current)
          (shown_text id (edit_target target claim text current now h).0)
unfolding edit_target note_change note_on
edit_target-queued_text id none claim text current now h e l =
    ground (arith, difference_self (text_in id current))
edit_target-queued_text id (some target) claim text current now h e l = ground (
  arith,
  difference_self (text_in id current),
  set_outline_text-text_in claim.claim_id text id current,
  eq_iff claim.claim_id id,
  eq_iff target.text text,
)

edit_on-queued_text :
    (id : String) (o : Option DocumentOutline) (claim : DraftClaim) (text : String) (now : ℕ)
    (h : HistoryState)
    → h.outline ≡ o
    → queued_text id (edit_on o claim text now h).1
      ≡ difference (shown_on id o) (shown_text id (edit_on o claim text now h).0)
unfolding edit_on
edit_on-queued_text id none claim text now h e = refl
edit_on-queued_text id (some current) claim text now h e =
    edit_target-queued_text id (lookup claim.claim_id (claim_map current)) claim text current now h
      e refl

pub edit-queued_text :
    (id : String) (claim : DraftClaim) (text : String) (now : ℕ) (h : HistoryState)
    → queued_text id (edit claim text now h).1
      ≡ difference (shown_text id h) (shown_text id (edit claim text now h).0)
unfolding edit
edit-queued_text id claim text now h = edit_on-queued_text id h.outline claim text now h refl

move_on-queued_text :
    (id : String) (o : Option DocumentOutline) (section : String) (index : ℕ) (offset : Offset)
    (now : ℕ) (h : HistoryState)
    → queued_text id (move_on o section index offset now h).1 ≡ none
unfolding move_on move_to_outline
move_on-queued_text id none section index offset now h = refl
move_on-queued_text id (some current) section index offset now h = ground arith

pub move_claim-queued_text :
    (id : String) (section : String) (index : ℕ) (offset : Offset) (now : ℕ) (h : HistoryState)
    → queued_text id (move_claim section index offset now h).1 ≡ none
unfolding move_claim
move_claim-queued_text id section index offset now h =
    move_on-queued_text id h.outline section index offset now h
