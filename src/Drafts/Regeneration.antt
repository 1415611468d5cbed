-- ===== src/Drafts/Regeneration.antt =====
-- What a regeneration changed and its revert
-- (frontend/src/features/drafts/model/regenerationDiff.ts). Values are immutable here, so the
-- `structuredClone`s are the values themselves.
use full_stack_resume.Common.{
  All-append, String, ◌≡◌, refl, inl, inr, Bool, true, false, Option, none, some, List, [], ◌∷◌,
  arith, ◌==◌, eq_iff, if◌then◌else◌, Bool-cases, select, find, All, flat_map, lookup,
}
use full_stack_resume.Api.Documents.{DraftClaim, DraftSection, DocumentOutline, outline_claims}
use full_stack_resume.History.Outline.{claim_map, section_named}

pub data RegenerationTarget : Type 0 where
  claim_target : (claim_id : String) → RegenerationTarget
  section_target : (section : String) → RegenerationTarget

pub record RegenerationSnapshot : Type 0 where
  pub target : RegenerationTarget
  pub document_hash : String
  pub claims : List DraftClaim

pub record RegenerationChange : Type 0 where
  pub claim_id : String
  pub before : DraftClaim
  pub after : DraftClaim

pub data RegenerationChangeState : Type 0 where
  regenerated reverted edited gone : RegenerationChangeState

abbrev pub section_claims_of : Option DraftSection → List DraftClaim
section_claims_of none = []
section_claims_of (some section) = section.claims

-- `targetClaims`
unfoldable pub target_claims : DocumentOutline → RegenerationTarget → List DraftClaim
target_claims outline (section_target name) =
    section_claims_of (section_named name outline.sections)
target_claims outline (claim_target id) =
    select (λ (c : DraftClaim). c.claim_id == id) (outline_claims outline)

-- `takeSnapshot`
unfoldable pub take_snapshot : DocumentOutline → String → RegenerationTarget → RegenerationSnapshot
take_snapshot outline hash target = record {
  target = target;
  document_hash = hash;
  claims = target_claims outline target;
}

abbrev pub change_of : DraftClaim → Option DraftClaim → List RegenerationChange
change_of before none = []
change_of before (some after) =
    if after.text == before.text
    then []
    else record { claim_id = before.claim_id; before = before; after = after } ∷ []

abbrev pub changes_of : List (String × DraftClaim) → List DraftClaim → List RegenerationChange
changes_of current claims =
    flat_map (λ (before : DraftClaim). change_of before (lookup before.claim_id current)) claims

-- `regenerationChanges`
unfoldable pub regeneration_changes :
    RegenerationSnapshot → DocumentOutline → List RegenerationChange
regeneration_changes snapshot outline = changes_of (claim_map outline) snapshot.claims

abbrev pub claim_in : String → DocumentOutline → Option DraftClaim
claim_in id outline = find (λ (c : DraftClaim). c.claim_id == id) (outline_claims outline)

abbrev pub state_of : RegenerationChange → Option DraftClaim → RegenerationChangeState
state_of change none = gone
state_of change (some current) =
    if current.text == change.after.text
    then regenerated
    else if current.text == change.before.text
    then reverted
    else edited

-- `changeState`
unfoldable pub change_state : RegenerationChange → DocumentOutline → RegenerationChangeState
change_state change outline = state_of change (claim_in change.claim_id outline)

abbrev pub is_regenerated : RegenerationChangeState → Bool
is_regenerated regenerated = true
is_regenerated _ = false

abbrev pub revert_of : RegenerationChange → Option DraftClaim → Option (DraftClaim × String)
revert_of change none = none
revert_of change (some current) =
    if is_regenerated (state_of change (some current))
    then some (record current { fact_ids = change.before.fact_ids }, change.before.text)
    else none

-- `revertEdit`
unfoldable pub revert_edit : RegenerationChange → DocumentOutline → Option (DraftClaim × String)
revert_edit change outline = revert_of change (claim_in change.claim_id outline)

abbrev pub IsChange : RegenerationChange → Type 0
IsChange change =
    ((change.after.text == change.before.text) ≡ false) × (change.claim_id ≡ change.before.claim_id)

change_of-IsChange :
    (before : DraftClaim) (after : Option DraftClaim) → All IsChange (change_of before after)
change_of-IsChange before none = tt
change_of-IsChange before (some after) = elim (Bool-cases (after.text == before.text)) [
  | inl h ↦ rw h tt
  | inr h ↦ rw h ((h, refl), tt)
]

changes_of-IsChange :
    (current : List (String × DraftClaim)) (claims : List DraftClaim)
    → All IsChange (changes_of current claims)
changes_of-IsChange current [] = tt
changes_of-IsChange current (c ∷ cs) =
    All-append IsChange _ _ (change_of-IsChange c (lookup c.claim_id current))
      (changes_of-IsChange current cs)

-- Every reported change is of a line whose text differs, under the line's own id.
pub regeneration_changes-IsChange :
    (snapshot : RegenerationSnapshot) (outline : DocumentOutline)
    → All IsChange (regeneration_changes snapshot outline)
unfolding regeneration_changes
regeneration_changes-IsChange snapshot outline =
    changes_of-IsChange (claim_map outline) snapshot.claims

revert_lem :
    (change : RegenerationChange) (current now : Option DraftClaim) (edit : DraftClaim × String)
    (c : DraftClaim)
    → IsChange change
    → revert_of change current ≡ some edit
    → now ≡ some c
    → c.text ≡ edit.1
    → (state_of change now ≡ reverted) × (revert_of change now ≡ none)
revert_lem change none now edit c i h n t = cc
revert_lem change (some current) none edit c i h n t = cc
revert_lem change (some current) (some d) edit c i h n t = ground (
  arith,
  eq_iff d.text change.before.text,
  eq_iff d.text change.after.text,
  eq_iff change.after.text change.before.text,
)

-- A revert brings the line back: once the draft shows the text that the revert sends, the change
-- reads as reverted, and no second revert is offered.
pub revert_edit-reverted :
    (change : RegenerationChange) (outline later : DocumentOutline) (edit : DraftClaim × String)
    (c : DraftClaim)
    → IsChange change
    → revert_edit change outline ≡ some edit
    → claim_in change.claim_id later ≡ some c
    → c.text ≡ edit.1
    → (change_state change later ≡ reverted) × (revert_edit change later ≡ none)
unfolding revert_edit change_state
revert_edit-reverted change outline later edit c i h n t =
    revert_lem change (claim_in change.claim_id outline) (claim_in change.claim_id later) edit c i h
      n t
