-- ===== src/Preparation/Requirements/ByFact.antt =====
-- The requirements that each fact supports (`requirementsByFact` of
-- frontend/src/features/preparation/model/requirementGroups.ts), by the fact's id.
use mathlib.Core.List.{append_assoc, append-nil}
use full_stack_resume.Common.{
  String, ◌≡◌, refl, sym, ap, ◌∙◌, Bool, true, false, Option, none, some, List, [], ◌∷◌, ◌++◌, ◌==◌,
  eq_iff, if◌then◌else◌, flat_map, lookup, insert, lookup-insert,
}
use full_stack_resume.Api.Analyses.{Requirement}

abbrev pub or_empty : Option (List Requirement) → List Requirement
or_empty none = []
or_empty (some rs) = rs

-- `index.get(factId) ?? []`
abbrev pub credited : String → List (String × List Requirement) → List Requirement
credited fact_id index = or_empty (lookup fact_id index)

-- the loop over a requirement's facts
unfoldable pub credit :
    Requirement → List String → List (String × List Requirement) → List (String × List Requirement)
credit r [] index = index
credit r (fact_id ∷ fact_ids) index =
    credit r fact_ids (insert fact_id (credited fact_id index ++ r ∷ []) index)

unfoldable pub credit_all :
    List Requirement → List (String × List Requirement) → List (String × List Requirement)
unfolding credit
credit_all [] index = index
credit_all (r ∷ rs) index = credit_all rs (credit r r.supporting_fact_ids index)

-- `requirementsByFact`
unfoldable pub requirements_by_fact : List Requirement → List (String × List Requirement)
unfolding credit_all
requirements_by_fact requirements = credit_all requirements []

-- A requirement as often as a list names the fact.
abbrev pub mentions : String → Requirement → List String → List Requirement
mentions fact_id r [] = []
mentions fact_id r (here ∷ later) =
    let rest = mentions fact_id r later in if here == fact_id then r ∷ rest else rest

abbrev pub all_mentions : String → List Requirement → List Requirement
all_mentions fact_id requirements =
    flat_map (λ (r : Requirement). mentions fact_id r r.supporting_fact_ids) requirements

credited-insert :
    (here fact_id : String) (r : Requirement) (index : List (String × List Requirement))
    → credited fact_id (insert here (credited here index ++ r ∷ []) index)
      ≡ credited fact_id index ++ (if here == fact_id then r ∷ [] else [])
credited-insert here fact_id r index =
    ap or_empty (lookup-insert here fact_id (credited here index ++ r ∷ []) index)
    ∙ at_key (here == fact_id) refl
  where
    at_key :
        (b : Bool)
        → (here == fact_id) ≡ b
        → or_empty (if b then some (credited here index ++ r ∷ []) else lookup fact_id index)
          ≡ credited fact_id index ++ (if b then r ∷ [] else [])
    at_key true h = ap (λ k. credited k index ++ r ∷ []) ((eq_iff here fact_id).0 h)
    at_key false h = sym (append-nil (credited fact_id index))

credited-credit :
    (fact_id : String) (r : Requirement) (fact_ids : List String)
    (index : List (String × List Requirement))
    → credited fact_id (credit r fact_ids index)
      ≡ credited fact_id index ++ mentions fact_id r fact_ids
unfolding credit
credited-credit fact_id r [] index = sym (append-nil (credited fact_id index))
credited-credit fact_id r (here ∷ later) index =
    credited-credit fact_id r later (insert here (credited here index ++ r ∷ []) index)
    ∙ ap (λ rs. rs ++ mentions fact_id r later) (credited-insert here fact_id r index)
    ∙ append_assoc (credited fact_id index) (if here == fact_id then r ∷ [] else [])
        (mentions fact_id r later)
    ∙ ap (λ rs. credited fact_id index ++ rs) (one (here == fact_id))
  where
    one :
        (b : Bool)
        → (if b then r ∷ [] else []) ++ mentions fact_id r later
          ≡ (if b then r ∷ mentions fact_id r later else mentions fact_id r later)
    one true = refl
    one false = refl

credited-credit_all :
    (fact_id : String) (requirements : List Requirement) (index : List (String × List Requirement))
    → credited fact_id (credit_all requirements index)
      ≡ credited fact_id index ++ all_mentions fact_id requirements
unfolding credit_all
credited-credit_all fact_id [] index = sym (append-nil (credited fact_id index))
credited-credit_all fact_id (r ∷ rs) index =
    credited-credit_all fact_id rs (credit r r.supporting_fact_ids index)
    ∙ ap (λ xs. xs ++ all_mentions fact_id rs)
        (credited-credit fact_id r r.supporting_fact_ids index)
    ∙ append_assoc (credited fact_id index) (mentions fact_id r r.supporting_fact_ids)
        (all_mentions fact_id rs)

-- The index has under each fact the requirements that name it as their support, in the requirements' own
-- order, each as often as it names the fact, and nothing under a fact that none names.
pub requirements_by_fact_lem :
    (fact_id : String) (requirements : List Requirement)
    → credited fact_id (requirements_by_fact requirements) ≡ all_mentions fact_id requirements
unfolding requirements_by_fact lookup
requirements_by_fact_lem fact_id requirements = credited-credit_all fact_id requirements []
