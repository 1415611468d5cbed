-- ===== src/History/Outline.antt =====
-- Claims of an outline by id, the change of a claim's text and the move of a claim, as
-- useDraftHistory.ts makes them on a copy of the outline.
use full_stack_resume.Common.{
  ℕ, zero, suc, ◌+◌, String, Bool, Option, none, some, List, [], ◌∷◌, map, ◌==◌, ltb, if◌then◌else◌,
  length, any, find, flat_map, insert,
}
use full_stack_resume.Api.Documents.{DraftClaim, DraftSection, DocumentOutline, outline_claims}

pub data Offset : Type 0 where
  up down : Offset

unfoldable pub set_claims :
    List DraftClaim → List (String × DraftClaim) → List (String × DraftClaim)
set_claims [] m = m
set_claims (c ∷ cs) m = set_claims cs (insert c.claim_id c m)

-- `claimMap`: of two claims with one id the later
unfoldable pub claim_map : DocumentOutline → List (String × DraftClaim)
unfolding set_claims
claim_map outline = set_claims (outline_claims outline) []

abbrev pub has_claim : String → List DraftClaim → Bool
has_claim id cs = any (λ (c : DraftClaim). c.claim_id == id) cs

-- The text of the last claim with the id, which is the one that the map gives.
unfoldable pub set_text : String → String → List DraftClaim → List DraftClaim
set_text id text [] = []
set_text id text (c ∷ cs) =
    let later = set_text id text cs in
    if has_claim id cs
    then c ∷ later
    else if c.claim_id == id
    then record c { text = text } ∷ cs
    else c ∷ cs

abbrev pub section_claims : List DraftSection → List DraftClaim
section_claims ss = flat_map (λ (s : DraftSection). s.claims) ss

unfoldable pub set_section_text : String → String → List DraftSection → List DraftSection
set_section_text id text [] = []
set_section_text id text (s ∷ ss) =
    let later = set_section_text id text ss in
    if has_claim id (section_claims ss)
    then s ∷ later
    else record s { claims = set_text id text s.claims } ∷ ss

-- `target.text = text` for the claim that the map has under the id
unfoldable pub set_outline_text : String → String → DocumentOutline → DocumentOutline
unfolding set_text set_section_text
set_outline_text id text o =
    if has_claim id (section_claims o.sections)
    then record o { sections = set_section_text id text o.sections }
    else if has_claim id o.contacts
    then record o { contacts = set_text id text o.contacts }
    else if o.headline.claim_id == id
    then record o { headline = record o.headline { text = text } }
    else o

-- Two neighbours change places.
unfoldable pub swap_at {ℓ} : {A : Type ℓ} → ℕ → List A → List A
swap_at zero (x ∷ y ∷ xs) = y ∷ x ∷ xs
swap_at zero xs = xs
swap_at (suc i) [] = []
swap_at (suc i) (x ∷ xs) = x ∷ swap_at i xs

-- the claims after a move, none where it would leave the section
unfoldable pub moved : Offset → ℕ → List DraftClaim → Option (List DraftClaim)
moved up zero cs = none
moved up (suc i) cs = if ltb i (length cs) then some (swap_at i cs) else none
moved down i cs = if ltb (i + 1) (length cs) then some (swap_at i cs) else none

-- the change in the first section of the name
move_section : String → ℕ → Offset → List DraftSection → Option (List DraftSection)
move_section name i offset [] = none
move_section name i offset (s ∷ ss) =
    let rest = move_section name i offset ss in
    if s.name == name
    then elim (moved offset i s.claims) [
      | none ↦ none
      | some cs ↦ some (record s { claims = cs } ∷ ss)
    ]
    else elim rest [ none ↦ none | some ts ↦ some (s ∷ ts) ]

unfoldable pub move_in_outline : String → ℕ → Offset → DocumentOutline → Option DocumentOutline
unfolding move_section moved swap_at
move_in_outline name i offset o = elim (move_section name i offset o.sections) [
  | none ↦ none
  | some ss ↦ some (record o { sections = ss })
]

abbrev pub claim_ids : List DraftClaim → List String
claim_ids cs = map (λ (c : DraftClaim). c.claim_id) cs

abbrev pub section_named : String → List DraftSection → Option DraftSection
section_named name ss = find (λ (s : DraftSection). s.name == name) ss

-- the ids of the section in their new order
unfoldable pub moved_ids : String → DocumentOutline → List String
moved_ids name o = elim (section_named name o.sections) [ none ↦ [] | some s ↦ claim_ids s.claims ]
