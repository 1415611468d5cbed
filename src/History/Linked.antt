-- ===== src/History/Linked.antt =====
-- The two stacks of useDraftHistory.ts are a chain of outlines, and undo and redo move along it.
use mathlib.Core.Path.{subst}
use full_stack_resume.Common.{
  ℕ, zero, suc, ◌≤◌, String, ◌≡◌, refl, ap, inl, inr, Bool, true, false, Option, none, some, List,
  [], ◌∷◌, arith, ◌==◌, Bool-cases, length, take, length-take-le, lookup,
}
use full_stack_resume.Api.Documents.{DraftClaim, DocumentOutline, EditableDocument}
use full_stack_resume.History.Outline.{Offset, claim_map, set_outline_text, move_in_outline}
use full_stack_resume.History.{
  history_limit, HistoryEntry, HistoryState, opened, joins, with_entry, note_change, edit,
  edit_target, move_claim, note_on, edit_on, move_on, move_to_outline, undo, undo_past, redo,
  redo_future,
}

-- Each entry begins where the older one ended, and the newest ends at the outline shown.
abbrev pub IsPast : List HistoryEntry → Option DocumentOutline → Type 0
IsPast [] o = Unit
IsPast (e ∷ es) o = (o ≡ some e.after) × IsPast es (some e.before)

abbrev pub IsFuture : List HistoryEntry → Option DocumentOutline → Type 0
IsFuture [] o = Unit
IsFuture (e ∷ es) o = (o ≡ some e.before) × IsFuture es (some e.after)

pub record IsLinked (h : HistoryState) : Type 0 where
  pub past : IsPast h.past h.outline
  pub future : IsFuture h.future h.outline
  pub bounded : length h.past ≤ history_limit

IsPast-take :
    (n : ℕ) (es : List HistoryEntry) (o : Option DocumentOutline)
    → IsPast es o
    → IsPast (take n es) o
IsPast-take zero es o h = tt
IsPast-take (suc n) [] o h = tt
IsPast-take (suc n) (e ∷ es) o (p, h) = (p, IsPast-take n es (some e.before) h)

-- The new entry ends at the new outline, joined or not.
with_entry-IsPast :
    (b : Bool) (e : HistoryEntry) (es : List HistoryEntry)
    → IsPast es (some e.before)
    → IsPast (with_entry b e es) (some e.after)
unfolding with_entry
with_entry-IsPast true e [] h = IsPast-take history_limit (e ∷ []) (some e.after) (refl, tt)
with_entry-IsPast true e (l ∷ es) (p, h) = (refl, h)
with_entry-IsPast false e es h = IsPast-take history_limit (e ∷ es) (some e.after) (refl, h)

length-with_entry :
    (b : Bool) (e : HistoryEntry) (es : List HistoryEntry)
    → length es ≤ history_limit
    → length (with_entry b e es) ≤ history_limit
unfolding with_entry
length-with_entry true e [] h = length-take-le history_limit (e ∷ [])
length-with_entry true e (l ∷ es) h = omega arith
length-with_entry false e es h = length-take-le history_limit (e ∷ es)

note_on-IsLinked :
    (o : Option DocumentOutline) (next : DocumentOutline) (claim_id : Option String) (now : ℕ)
    (h : HistoryState)
    → h.outline ≡ o
    → IsLinked h
    → IsLinked (note_on o next claim_id now h)
unfolding note_on
note_on-IsLinked none next claim_id now h e l = l
note_on-IsLinked (some current) next claim_id now h e l = record {
  past = with_entry-IsPast (joins claim_id now h.past) _ h.past (subst (IsPast h.past) e l.past);
  future = tt;
  bounded = length-with_entry (joins claim_id now h.past) _ h.past l.bounded;
}

-- A change keeps the chain: it joins the newest entry or adds one, drops the oldest past the limit,
-- and leaves nothing to redo.
pub note_change-IsLinked :
    (next : DocumentOutline) (claim_id : Option String) (now : ℕ) (h : HistoryState)
    → IsLinked h
    → IsLinked (note_change next claim_id now h)
unfolding note_change
note_change-IsLinked next claim_id now h l = note_on-IsLinked h.outline next claim_id now h refl l

undo_past-IsLinked :
    (es : List HistoryEntry) (h : HistoryState)
    → h.past ≡ es
    → IsLinked h
    → IsLinked (undo_past es h)
unfolding undo_past
undo_past-IsLinked [] h e l = l
undo_past-IsLinked (x ∷ es) h e l =
    let p = subst (λ ys. IsPast ys h.outline) e l.past in
    record {
      past = p.1;
      future = (refl, subst (IsFuture h.future) p.0 l.future);
      bounded = omega (arith, ap length e, l.bounded);
    }

redo_future-IsLinked :
    (es : List HistoryEntry) (h : HistoryState)
    → h.future ≡ es
    → IsLinked h
    → IsLinked (redo_future es h)
unfolding redo_future
redo_future-IsLinked [] h e l = l
redo_future-IsLinked (x ∷ es) h e l =
    let p = subst (λ ys. IsFuture ys h.outline) e l.future in
    record {
      past =
          IsPast-take history_limit (x ∷ h.past) (some x.after)
            (refl, subst (IsPast h.past) p.0 l.past);
      future = p.1;
      bounded = length-take-le history_limit (x ∷ h.past);
    }

-- What the reader does with the history between two reads of the draft.
pub data Action : Type 0 where
  edits : DraftClaim → String → ℕ → Action
  moves : String → ℕ → Offset → ℕ → Action
  undoes redoes : Action

abbrev pub act : Action → HistoryState → HistoryState
act (edits claim text now) h = (edit claim text now h).0
act (moves section index offset now) h = (move_claim section index offset now h).0
act undoes h = undo h
act redoes h = redo h

edit_target-IsLinked :
    (t : Option DraftClaim) (claim : DraftClaim) (text : String) (o : DocumentOutline) (now : ℕ)
    (h : HistoryState)
    → IsLinked h
    → IsLinked (edit_target t claim text o now h).0
unfolding edit_target
edit_target-IsLinked none claim text o now h l = l
edit_target-IsLinked (some t) claim text o now h l = elim (Bool-cases (t.text == text)) [
  | inl same ↦ rw same l
  | inr other ↦ rw other (
      note_on-IsLinked h.outline (set_outline_text claim.claim_id text o) (some claim.claim_id) now
        h refl l)
]

edit_on-IsLinked :
    (o : Option DocumentOutline) (claim : DraftClaim) (text : String) (now : ℕ) (h : HistoryState)
    → IsLinked h
    → IsLinked (edit_on o claim text now h).0
unfolding edit_on
edit_on-IsLinked none claim text now h l = l
edit_on-IsLinked (some o) claim text now h l =
    edit_target-IsLinked (lookup claim.claim_id (claim_map o)) claim text o now h l

move_to_outline-IsLinked :
    (n : Option DocumentOutline) (section : String) (now : ℕ) (h : HistoryState)
    → IsLinked h
    → IsLinked (move_to_outline n section now h).0
unfolding move_to_outline
move_to_outline-IsLinked none section now h l = l
move_to_outline-IsLinked (some n) section now h l = note_on-IsLinked h.outline n none now h refl l

move_on-IsLinked :
    (o : Option DocumentOutline) (section : String) (i : ℕ) (offset : Offset) (now : ℕ)
    (h : HistoryState)
    → IsLinked h
    → IsLinked (move_on o section i offset now h).0
unfolding move_on
move_on-IsLinked none section i offset now h l = l
move_on-IsLinked (some o) section i offset now h l =
    move_to_outline-IsLinked (move_in_outline section i offset o) section now h l

-- Edits, moves, undo and redo keep the two stacks a chain through the outline shown, with at most
-- fifty entries to undo.
pub act-IsLinked : (a : Action) (h : HistoryState) → IsLinked h → IsLinked (act a h)
unfolding edit move_claim undo redo
act-IsLinked (edits claim text now) h l = edit_on-IsLinked h.outline claim text now h l
act-IsLinked (moves section i offset now) h l = move_on-IsLinked h.outline section i offset now h l
act-IsLinked undoes h l = undo_past-IsLinked h.past h refl l
act-IsLinked redoes h l = redo_future-IsLinked h.future h refl l

pub opened-IsLinked :
    (draft : Option EditableDocument) (key : Option String) → IsLinked (opened draft key)
unfolding opened history_limit
opened-IsLinked none key = record { past = tt; future = tt; bounded = omega arith }
opened-IsLinked (some d) key = record { past = tt; future = tt; bounded = omega arith }
