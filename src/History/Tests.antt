-- ===== src/History/Tests.antt =====
-- Runs of the history of useDraftHistory.ts, and its theorems at concrete inputs.
use full_stack_resume.Common.{String, ◌≡◌, refl, none, some, [], ◌∷◌, length, lookup, insert}
use full_stack_resume.Api.Documents.{canonical, bullet}
use full_stack_resume.Api.Documents.{DraftClaim, DocumentOutline, EditableDocument, outline_claims}
use full_stack_resume.History.Outline.{
  down, claim_map, set_outline_text, move_in_outline, moved_ids, swap_at, moved,
}
use full_stack_resume.History.{
  history_limit, typing_group_ms, HistoryState, queue_claim_order, opened, edit, move_claim, undo,
  redo,
}
use full_stack_resume.History.{apply}
use full_stack_resume.Api.Documents.{DocumentOutline}
use full_stack_resume.History.Commands.{queued_text, apply-queued_text}
use full_stack_resume.History.Linked.{IsLinked, edits, undoes, act, act-IsLinked, opened-IsLinked}
use full_stack_resume.History.Inverse.{redo-undo}

history : Unit {0}
unfolding opened edit move_claim undo redo claim_map lookup insert set_outline_text move_in_outline
    moved_ids swap_at moved outline_claims history_limit typing_group_ms
history = tt

abbrev line : String → String → DraftClaim
line id text = record {
  claim_id = id;
  claim_type = canonical;
  fact_ids = [];
  pending_reason = none;
  style = bullet;
  text = text;
}

abbrev two_lines : EditableDocument
two_lines = record {
  id = "d";
  document_hash = "h";
  language = "en";
  outline = record {
    contacts = [];
    headline = line "top" "CV";
    sections = record { claims = line "c1" "one" ∷ line "c2" "two" ∷ []; name = "work" } ∷ [];
  };
}

abbrev shown : HistoryState
shown = opened (some two_lines) (some "k")

abbrev edited : HistoryState
edited = act (edits (line "c1" "one") "uno" 1000) shown

edited-IsLinked : IsLinked edited
edited-IsLinked =
    act-IsLinked (edits (line "c1" "one") "uno" 1000) shown
      (opened-IsLinked (some two_lines) (some "k"))

-- Two keystrokes within the group are one entry, and one undo takes both back.
grouping_test :
    let h = act (edits (line "c1" "one") "dos" 1900) edited in
    (length h.past ≡ 1)
    × ((undo h).outline ≡ shown.outline)
    × (length (act (edits (line "c1" "one") "dos" 1901) edited).past ≡ 2)
unfolding history
grouping_test = (refl, refl, refl)

move_test :
    (move_claim "work" 0 down 1000 shown).1 ≡ queue_claim_order "work" ("c2" ∷ "c1" ∷ []) ∷ []
unfolding history
move_test = refl

act-IsLinked_example : IsLinked (act undoes edited)
act-IsLinked_example = act-IsLinked undoes edited edited-IsLinked

redo-undo_example : redo (undo edited) ≡ edited
unfolding history
redo-undo_example = redo-undo edited edited-IsLinked refl

abbrev outline_of : String → DocumentOutline
outline_of text = record {
  contacts = [];
  headline = line "top" "CV";
  sections = record { claims = line "c1" text ∷ []; name = "work" } ∷ [];
}

apply-queued_text_example :
    queued_text "c1" (apply (outline_of "one") (outline_of "uno")) ≡ some "uno"
unfolding history
apply-queued_text_example = apply-queued_text "c1" (outline_of "one") (outline_of "uno")
