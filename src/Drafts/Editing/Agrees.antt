-- ===== src/Drafts/Editing/Agrees.antt =====
-- What useDraftEditing.ts sends agrees with what it shows.
use full_stack_resume.Common.{
  String, ◌≡◌, refl, sym, ◌⊎◌, inr, Bool, true, false, Option, none, some, arith, eq_iff, present,
  first_of_two,
}
use mathlib.Core.Path.{subst}
use full_stack_resume.History.Shown.{shown_text, difference}
use full_stack_resume.Drafts.Editing.{
  Editing, UserAction, edits, moves, undoes, redoes, adds, history_after, acts, editing_step,
}
use full_stack_resume.Drafts.Editing.Refines.{waiting_text, due, action-waiting_text}

abbrev is_move : UserAction → Bool
is_move (moves section index offset now) = true
is_move _ = false

-- What waits for a claim agrees with what is shown: nothing waits, or the text shown.
abbrev pub Agrees : String → Editing → Type 0
Agrees id e =
    (waiting_text id e.autosave ≡ none) ⊎ (waiting_text id e.autosave ≡ shown_text id e.history)

due-agrees :
    (before after old : Option String)
    → present before ≡ true
    → present after ≡ true
    → (old ≡ none) ⊎ (old ≡ before)
    → (first_of_two (difference before after) old ≡ none)
      ⊎ (first_of_two (difference before after) old ≡ after)
due-agrees none after old p q h = ground arith
due-agrees (some b) none old p q h = ground arith
due-agrees (some b) (some a) none p q h = ground (arith, eq_iff b a)
due-agrees (some b) (some a) (some t) p q h = inr (ground (arith, h, eq_iff b a))

due_still :
    (id : String) (action : UserAction) (e : Editing)
    → is_move action ≡ false
    → due action id e.history (history_after action e.history).0 (waiting_text id e.autosave)
      ≡ first_of_two
          (difference (shown_text id e.history) (shown_text id (history_after action e.history).0))
          (waiting_text id e.autosave)
due_still id (moves section index offset now) e m = cc
due_still id (edits claim text now) e m = refl
due_still id (adds section text) e m = refl
due_still id undoes e m = refl
due_still id redoes e m = refl

-- An edit, an undo, a redo or an addition keeps what waits for a claim in agreement with what is
-- shown for it: with the claim shown before and after, if nothing waited or the text shown did, then
-- nothing waits or the text shown does.
pub action-Agrees :
    (id : String) (action : UserAction) (e : Editing)
    → is_move action ≡ false
    → present (shown_text id e.history) ≡ true
    → present (shown_text id (history_after action e.history).0) ≡ true
    → Agrees id e
    → Agrees id (editing_step (acts action) e)
unfolding editing_step
action-Agrees id action e m p q h =
    let after = shown_text id (history_after action e.history).0 in
    subst (λ t. (t ≡ none) ⊎ (t ≡ after)) (sym (action-waiting_text id action e))
      (subst (λ t. (t ≡ none) ⊎ (t ≡ after)) (sym (due_still id action e m))
        (due-agrees (shown_text id e.history) after (waiting_text id e.autosave) p q h))
