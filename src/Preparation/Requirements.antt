-- ===== src/Preparation/Requirements.antt =====
-- The requirements of an analysis by importance
-- (frontend/src/features/preparation/model/requirementGroups.ts) and against the draft on screen
-- (frontend/src/features/drafts/model/requirementCoverage.ts). The sorts are the stable `sort_by`.
pub mod ByFact
use mathlib.Core.List.{Perm, perm_middle, append-nil, append_assoc}
use mathlib.Core.List.Perm
use full_stack_resume.Common.{
  All-append, ℕ, ◌≡◌, refl, sym, ap, ◌∙◌, Bool, true, false, not, List, [], ◌∷◌, ◌++◌,
  if◌then◌else◌, length, select, All, flat_map,
}
use full_stack_resume.Common.Sort.{
  IsSorted-select, sort_by, IsSorted, sort_by-IsSorted, sort_by-perm,
}
use full_stack_resume.Api.Analyses
use full_stack_resume.Api.Analyses.{Requirement, RequirementCoverage, RequirementImportance}

-- `importanceOrder`
abbrev pub importance_order : List RequirementImportance
importance_order = Analyses.mandatory ∷ Analyses.preferred ∷ Analyses.unknown ∷ []

-- `importancePriority`
abbrev pub importance_priority : RequirementImportance → ℕ
importance_priority Analyses.mandatory = 0
importance_priority Analyses.preferred = 1
importance_priority Analyses.unknown = 2

-- `coveragePriority`
abbrev pub coverage_priority : RequirementCoverage → ℕ
coverage_priority Analyses.unsupported = 0
coverage_priority Analyses.partial = 1
coverage_priority Analyses.unknown = 2
coverage_priority Analyses.matched = 3

-- `needsAttention`
abbrev pub needs_attention : RequirementCoverage → Bool
needs_attention Analyses.matched = false
needs_attention _ = true

-- `requirement.importance === importance`
abbrev pub same_importance : RequirementImportance → RequirementImportance → Bool
same_importance Analyses.mandatory Analyses.mandatory = true
same_importance Analyses.preferred Analyses.preferred = true
same_importance Analyses.unknown Analyses.unknown = true
same_importance _ _ = false

pub record RequirementGroup : Type 0 where
  pub importance : RequirementImportance
  pub matched : ℕ
  pub requirements : List Requirement
  pub total : ℕ

pub data RequirementFilter : Type 0 where
  all_of attention only_matched : RequirementFilter

abbrev pub passes : RequirementFilter → Requirement → Bool
passes all_of requirement = true
passes attention requirement = needs_attention requirement.coverage
passes only_matched requirement = not (needs_attention requirement.coverage)

abbrev pub of_importance : RequirementImportance → List Requirement → List Requirement
of_importance importance requirements =
    select (λ (r : Requirement). same_importance r.importance importance) requirements

abbrev pub coverage_key : Requirement → ℕ
coverage_key r = coverage_priority r.coverage

abbrev group : RequirementFilter → RequirementImportance → List Requirement → List RequirementGroup
group filter importance [] = []
group filter importance (r ∷ rs) =
    record {
      importance = importance;
      matched = length (select (λ (x : Requirement). not (needs_attention x.coverage)) (r ∷ rs));
      requirements = select (passes filter) (sort_by coverage_key (r ∷ rs));
      total = length (r ∷ rs);
    }
    ∷ []

-- `requirementGroups`
unfoldable pub requirement_groups : List Requirement → RequirementFilter → List RequirementGroup
requirement_groups requirements filter =
    flat_map (λ (i : RequirementImportance). group filter i (of_importance i requirements))
      importance_order

-- The requirements that groups show.
abbrev pub listed : List RequirementGroup → List Requirement
listed groups = flat_map (λ (g : RequirementGroup). g.requirements) groups

select_all : (rs : List Requirement) → select (passes all_of) rs ≡ rs
select_all [] = refl
select_all (r ∷ rs) = ap (r ∷◌) (select_all rs)

listed-append : (gs hs : List RequirementGroup) → listed (gs ++ hs) ≡ listed gs ++ listed hs
listed-append [] hs = refl
listed-append (g ∷ gs) hs =
    ap (λ (rs : List Requirement). g.requirements ++ rs) (listed-append gs hs)
    ∙ sym (append_assoc g.requirements (listed gs) (listed hs))

listed-group :
    (i : RequirementImportance) (rs : List Requirement) → Perm (listed (group all_of i rs)) rs
listed-group i [] = Perm.refl _
listed-group i (r ∷ rs) =
    rw
      (
        append-nil (select (passes all_of) (sort_by coverage_key (r ∷ rs))),
        select_all (sort_by coverage_key (r ∷ rs)),
      )
      (sort_by-perm coverage_key (r ∷ rs))

Split : List Requirement → Type 0
Split rs =
    Perm
      (of_importance Analyses.mandatory rs
        ++ (of_importance Analyses.preferred rs ++ of_importance Analyses.unknown rs))
      rs

-- One requirement in front of its own list is one in front of all.
at_front :
    (i : RequirementImportance) (r : Requirement) (rs : List Requirement)
    → Split rs
    → Perm
        ((if same_importance i Analyses.mandatory
            then r ∷ of_importance Analyses.mandatory rs
            else of_importance Analyses.mandatory rs)
          ++ ((if same_importance i Analyses.preferred
                then r ∷ of_importance Analyses.preferred rs
                else of_importance Analyses.preferred rs)
              ++ (if same_importance i Analyses.unknown
                  then r ∷ of_importance Analyses.unknown rs
                  else of_importance Analyses.unknown rs)))
        (r ∷ rs)
unfolding Split
at_front Analyses.mandatory r rs s = Perm.cons r s
at_front Analyses.preferred r rs s =
    Perm.trans (perm_middle (of_importance Analyses.mandatory rs) _) (Perm.cons r s)
at_front Analyses.unknown r rs s =
    Perm.trans
      (Perm.append_left (of_importance Analyses.mandatory rs)
        (perm_middle (of_importance Analyses.preferred rs) _))
      (Perm.trans (perm_middle (of_importance Analyses.mandatory rs) _) (Perm.cons r s))

Split-cons :
    (i : RequirementImportance) (r : Requirement) (rs : List Requirement)
    → r.importance ≡ i
    → Split rs
    → Split (r ∷ rs)
unfolding Split
Split-cons i r rs e s =
    let fits =
      λ (j : RequirementImportance). ap (λ (k : RequirementImportance). same_importance k j) e in
    rw (fits Analyses.mandatory, fits Analyses.preferred, fits Analyses.unknown) (at_front i r rs s)

split : (rs : List Requirement) → Split rs
unfolding Split
split [] = Perm.refl _
split (r ∷ rs) = Split-cons r.importance r rs refl (split rs)

-- Unfiltered, the groups show every requirement exactly once.
pub groups-perm : (rs : List Requirement) → Perm (listed (requirement_groups rs all_of)) rs
unfolding requirement_groups Split
groups-perm rs =
    let m = of_importance Analyses.mandatory rs in
    let p = of_importance Analyses.preferred rs in
    let u = of_importance Analyses.unknown rs in
    rw
      (
        listed-append (group all_of Analyses.mandatory m) _,
        listed-append (group all_of Analyses.preferred p) _,
        append-nil (group all_of Analyses.unknown u),
      )
      (Perm.trans
        (Perm.append (listed-group Analyses.mandatory m)
          (Perm.append (listed-group Analyses.preferred p) (listed-group Analyses.unknown u)))
        (split rs))

group-IsSorted :
    (filter : RequirementFilter) (i : RequirementImportance) (rs : List Requirement)
    → All (λ (g : RequirementGroup). IsSorted coverage_key g.requirements) (group filter i rs)
group-IsSorted filter i [] = tt
group-IsSorted filter i (r ∷ rs) =
    (IsSorted-select coverage_key (passes filter) _ (sort_by-IsSorted coverage_key (r ∷ rs)), tt)

-- Within a group, whatever the filter, the requirements stand by how badly they are covered.
pub groups-IsSorted :
    (rs : List Requirement) (filter : RequirementFilter)
    → All
        (λ (g : RequirementGroup). IsSorted coverage_key g.requirements)
        (requirement_groups rs filter)
unfolding requirement_groups
groups-IsSorted rs filter =
    All-append _ _ _
      (group-IsSorted filter Analyses.mandatory (of_importance Analyses.mandatory rs))
      (All-append _ _ _
        (group-IsSorted filter Analyses.preferred (of_importance Analyses.preferred rs))
        (All-append _ _ []
          (group-IsSorted filter Analyses.unknown (of_importance Analyses.unknown rs)) tt))
