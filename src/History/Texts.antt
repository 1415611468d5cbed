-- ===== src/History/Texts.antt =====
-- The text that an outline shows for a claim, and what an edit of useDraftHistory.ts changes of it.
use full_stack_resume.Common.{
  String, ◌≡◌, refl, ◌∙◌, inl, inr, Option, none, some, List, [], ◌∷◌, ◌++◌, arith, ◌==◌, eq_iff,
  if◌then◌else◌, Bool-cases, present, first_of_two, lookup, insert, lookup-insert,
}
use full_stack_resume.Api.Documents.{DraftClaim, DraftSection, DocumentOutline, outline_claims}
use full_stack_resume.History.Outline.{
  set_claims, claim_map, has_claim, set_text, section_claims, set_section_text, set_outline_text,
}

abbrev pub text_of : Option DraftClaim → Option String
text_of none = none
text_of (some claim) = some claim.text

-- The text of the claim that the outline has under an id.
abbrev pub text_in : String → DocumentOutline → Option String
text_in id o = text_of (lookup id (claim_map o))

-- A new text for a claim that is there.
abbrev pub rewritten : String → Option String → Option String
rewritten text none = none
rewritten text (some old) = some text

last_text : String → List DraftClaim → Option String
last_text id [] = none
last_text id (c ∷ cs) =
    first_of_two (last_text id cs) (if c.claim_id == id then some c.text else none)

last_text-append :
    (id : String) (xs ys : List DraftClaim)
    → last_text id (xs ++ ys) ≡ first_of_two (last_text id ys) (last_text id xs)
unfolding last_text
last_text-append id [] ys = ground arith
last_text-append id (x ∷ xs) ys = ground (arith, last_text-append id xs ys)

set_claims-text :
    (id : String) (cs : List DraftClaim) (m : List (String × DraftClaim))
    → text_of (lookup id (set_claims cs m)) ≡ first_of_two (last_text id cs) (text_of (lookup id m))
unfolding set_claims last_text
set_claims-text id [] m = refl
set_claims-text id (c ∷ cs) m =
    ground (arith, set_claims-text id cs (insert c.claim_id c m), lookup-insert c.claim_id id c m)

text_in-last :
    (id : String) (o : DocumentOutline)
    → text_in id o
      ≡ first_of_two (last_text id (section_claims o.sections)) (
          first_of_two
            (last_text id o.contacts)
            (if o.headline.claim_id == id then some o.headline.text else none))
unfolding claim_map outline_claims last_text lookup
text_in-last id o =
    set_claims-text id (outline_claims o) []
    ∙ ground (arith, last_text-append id o.contacts (section_claims o.sections))

has_claim-last : (id : String) (cs : List DraftClaim) → has_claim id cs ≡ present (last_text id cs)
unfolding last_text
has_claim-last id [] = refl
has_claim-last id (c ∷ cs) = ground (arith, has_claim-last id cs)

-- What a change of a claim's text makes of the text of any claim.
abbrev changed : String → String → String → Option String → Option String
changed claim text id old = if claim == id then rewritten text old else old

set_text-last :
    (claim text id : String) (cs : List DraftClaim)
    → last_text id (set_text claim text cs) ≡ changed claim text id (last_text id cs)
unfolding set_text last_text
set_text-last claim text id [] = ground arith
set_text-last claim text id (c ∷ cs) = ground (
  arith,
  set_text-last claim text id cs,
  has_claim-last claim cs,
  eq_iff claim id,
  eq_iff c.claim_id id,
  eq_iff c.claim_id claim,
)

set_section_text-last :
    (claim text id : String) (ss : List DraftSection)
    → last_text id (section_claims (set_section_text claim text ss))
      ≡ changed claim text id (last_text id (section_claims ss))
unfolding set_section_text last_text
set_section_text-last claim text id [] = ground arith
set_section_text-last claim text id (s ∷ ss) =
    elim (Bool-cases (has_claim claim (section_claims ss))) [
      | inl h ↦ rw h (
          rw
            (
              last_text-append id s.claims (section_claims ss),
              last_text-append id s.claims (section_claims (set_section_text claim text ss)),
            )
            (ground (
              arith,
              set_section_text-last claim text id ss,
              has_claim-last claim (section_claims ss),
              eq_iff claim id,
            )))
      | inr h ↦ rw h (
          rw
            (
              last_text-append id s.claims (section_claims ss),
              last_text-append id (set_text claim text s.claims) (section_claims ss),
            )
            (ground (
              arith,
              set_text-last claim text id s.claims,
              has_claim-last claim (section_claims ss),
              eq_iff claim id,
            )))
    ]

-- A change of a claim's text shows it for that claim, if the outline has it, and changes no other.
pub set_outline_text-text_in :
    (claim text id : String) (o : DocumentOutline)
    → text_in id (set_outline_text claim text o)
      ≡ (if claim == id then rewritten text (text_in id o) else text_in id o)
unfolding set_outline_text
set_outline_text-text_in claim text id o =
    elim (Bool-cases (has_claim claim (section_claims o.sections))) [
      | inl h ↦ rw h (
          rw
            (
              text_in-last id o,
              text_in-last id (record o { sections = set_section_text claim text o.sections }),
            )
            (ground (
              arith,
              set_section_text-last claim text id o.sections,
              has_claim-last claim (section_claims o.sections),
              eq_iff claim id,
            )))
      | inr h ↦ rw h (elim (Bool-cases (has_claim claim o.contacts)) [
        | inl k ↦ rw k (
            rw
              (
                text_in-last id o,
                text_in-last id (record o { contacts = set_text claim text o.contacts }),
              )
              (ground (
                arith,
                set_text-last claim text id o.contacts,
                has_claim-last claim o.contacts,
                has_claim-last claim (section_claims o.sections),
                eq_iff claim id,
              )))
        | inr k ↦ rw k (elim (Bool-cases (o.headline.claim_id == claim)) [
          | inl e ↦ rw e (
              rw
                (
                  text_in-last id o,
                  text_in-last id (record o { headline = record o.headline { text = text } }),
                )
                (ground (
                  arith,
                  has_claim-last claim o.contacts,
                  has_claim-last claim (section_claims o.sections),
                  eq_iff claim id,
                  eq_iff o.headline.claim_id id,
                  eq_iff o.headline.claim_id claim,
                )))
          | inr e ↦ rw e (
              rw (text_in-last id o) (
                ground (
                  arith,
                  has_claim-last claim o.contacts,
                  has_claim-last claim (section_claims o.sections),
                  eq_iff claim id,
                  eq_iff o.headline.claim_id id,
                  eq_iff o.headline.claim_id claim,
                )))
        ])
      ])
    ]
