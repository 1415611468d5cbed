-- ===== src/History/Commands.antt =====
-- What undo and redo of useDraftHistory.ts ask of the autosave: exactly the texts that differ.
use full_stack_resume.Common.{
  String, ◌≡◌, refl, ◌∙◌, inl, inr, Option, none, some, List, [], ◌∷◌, ◌++◌, arith, ◌==◌, eq_iff,
  if◌then◌else◌, Bool-cases, Option-cases, first_of_two, All, lookup, insert,
}
use full_stack_resume.Api.Documents.{DraftClaim, DraftSection, DocumentOutline, outline_claims}
use full_stack_resume.History.Outline.{set_claims, claim_map, section_named}
use full_stack_resume.History.{
  Command, queue_edit, queue_claim_order, apply, edit_for, edits_to, order_for, orders_to,
}
use full_stack_resume.Autosave.Buffer.Filed.{Distinct, Distinct-insert}

-- The text that a list of commands leaves queued for a claim: of several the last.
abbrev pub command_text : String → Command → Option String
command_text id (queue_edit claim text) = if claim.claim_id == id then some text else none
command_text id (queue_claim_order section order) = none

abbrev pub queued_text : String → List Command → Option String
queued_text id [] = none
queued_text id (c ∷ cs) = first_of_two (queued_text id cs) (command_text id c)

-- The change that a claim needs: its target text, where both outlines have it with different texts.
abbrev pub needed_text : Option DraftClaim → Option DraftClaim → Option String
needed_text (some previous) (some claim) =
    if previous.text == claim.text then none else some claim.text
needed_text _ _ = none

abbrev IsOwn : List (String × DraftClaim) → Type 0
IsOwn m = All (λ (e : String × DraftClaim). e.0 ≡ e.1.claim_id) m

queued_text-append :
    (id : String) (xs ys : List Command)
    → queued_text id (xs ++ ys) ≡ first_of_two (queued_text id ys) (queued_text id xs)
queued_text-append id [] ys = ground arith
queued_text-append id (x ∷ xs) ys = ground (arith, queued_text-append id xs ys)

lookup-IsOwn :
    (id : String) (m : List (String × DraftClaim)) (c : DraftClaim)
    → IsOwn m
    → lookup id m ≡ some c
    → c.claim_id ≡ id
unfolding lookup
lookup-IsOwn id [] c o h = cc
lookup-IsOwn id ((j, d) ∷ m) c (e, o) h = ground (arith, eq_iff j id, lookup-IsOwn id m c o)

edit_for-text :
    (id : String) (previous : Option DraftClaim) (claim : DraftClaim)
    → ((p : DraftClaim) → previous ≡ some p → p.claim_id ≡ claim.claim_id)
    → queued_text id (edit_for previous claim)
      ≡ (if claim.claim_id == id then needed_text previous (some claim) else none)
unfolding edit_for
edit_for-text id none claim h = ground arith
edit_for-text id (some p) claim h = ground (arith, h p refl)

orders_to-text :
    (id : String) (current target : List DraftSection)
    → queued_text id (orders_to current target) ≡ none
unfolding orders_to order_for
orders_to-text id current [] = refl
orders_to-text id current (s ∷ ss) = elim (Option-cases (section_named s.name current)) [
  | inl e ↦ rw e (orders_to-text id current ss)
  | inr (p, e) ↦ rw e (ground (arith, orders_to-text id current ss))
]

edits_to-text :
    (id : String) (current m : List (String × DraftClaim))
    → IsOwn current
    → IsOwn m
    → Distinct m
    → queued_text id (edits_to current m) ≡ needed_text (lookup id current) (lookup id m)
unfolding edits_to lookup
edits_to-text id current [] o k d = ground arith
edits_to-text id current ((j, claim) ∷ m) o (e, k) (n, d) = ground (
  arith,
  eq_iff j id,
  eq_iff claim.claim_id id,
  queued_text-append id (edit_for (lookup claim.claim_id current) claim) (edits_to current m),
  edit_for-text id (lookup claim.claim_id current) claim
      (λ (p : DraftClaim) (h : lookup claim.claim_id current ≡ some p).
        lookup-IsOwn claim.claim_id current p o h),
  edits_to-text id current m o k d,
)

IsOwn-insert :
    (c : DraftClaim) (m : List (String × DraftClaim)) → IsOwn m → IsOwn (insert c.claim_id c m)
unfolding insert
IsOwn-insert c [] o = (refl, tt)
IsOwn-insert c ((j, d) ∷ m) (e, o) = elim (Bool-cases (j == c.claim_id)) [
  | inl h ↦ rw h ((eq_iff j c.claim_id).0 h, o)
  | inr h ↦ rw h (e, IsOwn-insert c m o)
]

set_claims-filed :
    (cs : List DraftClaim) (m : List (String × DraftClaim))
    → IsOwn m
    → Distinct m
    → IsOwn (set_claims cs m) × Distinct (set_claims cs m)
unfolding set_claims
set_claims-filed [] m o d = (o, d)
set_claims-filed (c ∷ cs) m o d =
    set_claims-filed cs (insert c.claim_id c m) (IsOwn-insert c m o)
      (Distinct-insert c.claim_id c m d)

claim_map-filed : (o : DocumentOutline) → IsOwn (claim_map o) × Distinct (claim_map o)
unfolding claim_map
claim_map-filed o = set_claims-filed (outline_claims o) [] tt tt

-- Going to an outline queues for each claim exactly the text that it needs: the target's, where the
-- claim stands in both outlines with different texts, and none otherwise.
pub apply-queued_text :
    (id : String) (current target : DocumentOutline)
    → queued_text id (apply current target)
      ≡ needed_text (lookup id (claim_map current)) (lookup id (claim_map target))
unfolding apply
apply-queued_text id current target =
    queued_text-append id (edits_to (claim_map current) (claim_map target))
      (orders_to current.sections target.sections)
    ∙ ground (
      arith,
      orders_to-text id current.sections target.sections,
      edits_to-text id (claim_map current) (claim_map target) (claim_map-filed current).0
          (claim_map-filed target).0 (claim_map-filed target).1,
    )
