-- ===== src/Drafts/Coverage.antt =====
-- The requirements of the analysis against the draft on screen
-- (frontend/src/features/drafts/model/requirementCoverage.ts). The comparison of two rows, by state
-- and then by importance, is the order of one number, `row_key`.
use mathlib.Core.List.{Perm}
use full_stack_resume.Common.{
  length-select-le, ℕ, ◌+◌, ◌*◌, ◌≤◌, ◌<◌, String, ◌≡◌, ◌↔◌, ◌⊎◌, Bool, true, false, ◌&&◌, List, [],
  ◌∷◌, map, arith, if◌then◌else◌, length, any, select, is_empty, All, flat_map, length-map,
  includes,
}
use full_stack_resume.Common.Sort.{sort_by, IsSorted, sort_by-IsSorted, sort_by-perm}
use full_stack_resume.Api.Documents.{DraftClaim, DocumentOutline, outline_claims}
use full_stack_resume.Api.Analyses
use full_stack_resume.Api.Analyses.{Requirement, RequirementCoverage, RequirementImportance}

pub data RequirementDocumentState : Type 0 where
  in_document not_in_document no_facts : RequirementDocumentState

pub record RequirementCoverageRow : Type 0 where
  pub requirement : Requirement
  pub state : RequirementDocumentState
  pub warned : Bool

pub record RequirementCoverageSummary : Type 0 where
  pub rows : List RequirementCoverageRow
  pub in_document : ℕ
  pub evidenced : ℕ
  pub warned : ℕ

-- `statePriority`
abbrev pub state_priority : RequirementDocumentState → ℕ
state_priority not_in_document = 0
state_priority no_facts = 1
state_priority in_document = 2

-- `importancePriority`
abbrev pub importance_priority : RequirementImportance → ℕ
importance_priority Analyses.mandatory = 0
importance_priority Analyses.preferred = 1
importance_priority Analyses.unknown = 2

-- `linkedFactIds`; a set is only asked what it has, so a list serves
unfoldable pub linked_fact_ids : DocumentOutline → List String
linked_fact_ids outline = flat_map (λ (c : DraftClaim). c.fact_ids) (outline_claims outline)

-- `requirementDocumentState`
abbrev pub requirement_document_state : Requirement → List String → RequirementDocumentState
requirement_document_state requirement linked =
    if is_empty requirement.supporting_fact_ids
    then no_facts
    else if any (λ (fact : String). includes fact linked) requirement.supporting_fact_ids
    then in_document
    else not_in_document

abbrev pub is_missing : RequirementDocumentState → Bool
is_missing not_in_document = true
is_missing _ = false

abbrev pub is_in_document : RequirementDocumentState → Bool
is_in_document in_document = true
is_in_document _ = false

abbrev pub has_facts : RequirementDocumentState → Bool
has_facts no_facts = false
has_facts _ = true

abbrev pub is_mandatory : RequirementImportance → Bool
is_mandatory Analyses.mandatory = true
is_mandatory _ = false

-- `coverage === "matched" || coverage === "partial"`
abbrev pub is_covered : RequirementCoverage → Bool
is_covered Analyses.matched = true
is_covered Analyses.partial = true
is_covered _ = false

abbrev pub row : List String → Requirement → RequirementCoverageRow
row linked requirement =
    let state = requirement_document_state requirement linked in
    record {
      requirement = requirement;
      state = state;
      warned =
          is_missing state
          && is_mandatory requirement.importance
          && is_covered requirement.coverage;
    }

abbrev pub row_key : RequirementCoverageRow → ℕ
row_key r = 3 * state_priority r.state + importance_priority r.requirement.importance

abbrev pub count : {A : Type 0} → (A → Bool) → List A → ℕ
count p xs = length (select p xs)

-- `requirementCoverage`
unfoldable pub requirement_coverage :
    List Requirement → DocumentOutline → RequirementCoverageSummary
requirement_coverage requirements outline =
    let rows = map (row (linked_fact_ids outline)) requirements in
    record {
      rows = sort_by row_key rows;
      in_document = count (λ (r : RequirementCoverageRow). is_in_document r.state) rows;
      evidenced = count (λ (r : RequirementCoverageRow). has_facts r.state) rows;
      warned = count (λ (r : RequirementCoverageRow). r.warned) rows;
    }

-- The order of `requirementCoverage`'s comparison: by state, and on a tie by importance.
pub IsBefore : RequirementCoverageRow → RequirementCoverageRow → Type 0
IsBefore x y =
    (state_priority x.state < state_priority y.state)
    ⊎ ((state_priority x.state ≡ state_priority y.state)
        × (importance_priority x.requirement.importance
            ≤ importance_priority y.requirement.importance))

importance_priority-lt : (i : RequirementImportance) → importance_priority i < 3
importance_priority-lt Analyses.mandatory = omega arith
importance_priority-lt Analyses.preferred = omega arith
importance_priority-lt Analyses.unknown = omega arith

lexicographic :
    (a b i j : ℕ) → i < 3 → j < 3 → (3 * a + i ≤ 3 * b + j) ↔ ((a < b) ⊎ ((a ≡ b) × (i ≤ j)))
lexicographic a b i j h k = ground arith

-- A row stands before another by its key exactly when the comparison of the source says so.
pub row_key-order : (x y : RequirementCoverageRow) → (row_key x ≤ row_key y) ↔ IsBefore x y
unfolding IsBefore
row_key-order x y =
    lexicographic _ _ _ _ (importance_priority-lt x.requirement.importance)
      (importance_priority-lt y.requirement.importance)

counts_lem :
    (linked : List String) (rs : List Requirement)
    → count (λ (r : RequirementCoverageRow). r.warned) (map (row linked) rs)
        + count (λ (r : RequirementCoverageRow). is_in_document r.state) (map (row linked) rs)
      ≤ count (λ (r : RequirementCoverageRow). has_facts r.state) (map (row linked) rs)
counts_lem linked [] = omega arith
counts_lem linked (r ∷ rs) = ground (arith, counts_lem linked rs)

-- The counts agree: a warned requirement and one in the document both list facts, and none is both.
pub requirement_coverage-counts :
    (rs : List Requirement) (outline : DocumentOutline)
    → ((requirement_coverage rs outline).warned + (requirement_coverage rs outline).in_document
        ≤ (requirement_coverage rs outline).evidenced)
      × ((requirement_coverage rs outline).evidenced ≤ length rs)
unfolding requirement_coverage
requirement_coverage-counts rs outline = (
  counts_lem (linked_fact_ids outline) rs,
  ground (
    arith,
    length-select-le (λ (r : RequirementCoverageRow). has_facts r.state)
        (map (row (linked_fact_ids outline)) rs),
    length-map (row (linked_fact_ids outline)) rs,
  ),
)

abbrev pub IsOrdered : List RequirementCoverageRow → Type 0
IsOrdered [] = Unit
IsOrdered (x ∷ xs) = All (IsBefore x) xs × IsOrdered xs

All-IsBefore :
    (x : RequirementCoverageRow) (ys : List RequirementCoverageRow)
    → All (λ (y : RequirementCoverageRow). row_key x ≤ row_key y) ys
    → All (IsBefore x) ys
All-IsBefore x [] h = tt
All-IsBefore x (y ∷ ys) (p, h) = ((row_key-order x y).0 p, All-IsBefore x ys h)

IsSorted-IsOrdered : (xs : List RequirementCoverageRow) → IsSorted row_key xs → IsOrdered xs
IsSorted-IsOrdered [] s = tt
IsSorted-IsOrdered (x ∷ xs) (a, s) = (All-IsBefore x xs a, IsSorted-IsOrdered xs s)

-- The rows are one for each requirement, from what needs the reader most to what is in the draft: by
-- state, and among equal states by importance.
pub requirement_coverage-rows :
    (rs : List Requirement) (outline : DocumentOutline)
    → Perm (requirement_coverage rs outline).rows (map (row (linked_fact_ids outline)) rs)
      × IsOrdered (requirement_coverage rs outline).rows
unfolding requirement_coverage
requirement_coverage-rows rs outline =
    (sort_by-perm row_key _, IsSorted-IsOrdered _ (sort_by-IsSorted row_key _))
