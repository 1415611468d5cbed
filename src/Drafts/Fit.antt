-- ===== src/Drafts/Fit.antt =====
-- How far a draft answers its posting (frontend/src/features/drafts/model/draftFit.ts), from the
-- classification that the projection carries for the current posting, if it does.
use full_stack_resume.Common.{
  ℕ, ◌≤◌, String, ◌≡◌, refl, sym, ◌∙◌, inl, inr, Bool, true, false, not, ◌&&◌, ◌||◌, Option, none,
  some, List, [], ◌∷◌, ◌++◌, arith, length-select-le, ◌==◌, eq_iff, if◌then◌else◌, Bool-cases,
  or_else, length, any, select, is_empty, flat_map, includes, includes-append, lookup, insert, add,
  lookup-insert, includes-add,
}
use mathlib.Core.Path.{subst}
use mathlib.Core.List.{Perm, perm_middle}
use mathlib.Core.List.Perm
use full_stack_resume.Autosave.Buffer.Filed.{Once, Once-add}
use full_stack_resume.Api.Analyses
use full_stack_resume.Api.Analyses.{Requirement, Classification, AnalysisGap, GapSeverity}

abbrev pub is_matched : Requirement → Bool
is_matched r = elim r.coverage [ Analyses.matched ↦ true | _ ↦ false ]

abbrev pub is_hard : GapSeverity → Bool
is_hard Analyses.hard = true
is_hard _ = false

-- `DraftFit`, with the gaps as they stand in the classification
pub record DraftFit : Type 0 where
  pub matched : ℕ
  pub total : ℕ
  pub gaps : List AnalysisGap

-- `draftFit`
unfoldable pub draft_fit : Option Classification → Option DraftFit
draft_fit none = none
draft_fit (some c) =
    if is_empty c.requirements
    then none
    else some (record {
      matched = length (select is_matched c.requirements);
      total = length c.requirements;
      gaps =
          select (λ (g : AnalysisGap). is_hard g.severity) c.gaps
          ++ select (λ (g : AnalysisGap). not (is_hard g.severity)) c.gaps;
    })

abbrev pub requirements_of : Option Classification → List Requirement
requirements_of none = []
requirements_of (some c) = c.requirements

abbrev pub texts_at : String → List (String × List String) → List String
texts_at id m = or_else (lookup id m) []

-- the inner loop of `claimRequirements`
unfoldable pub add_text :
    String → List String → List (String × List String) → List (String × List String)
add_text text [] m = m
add_text text (id ∷ ids) m = add_text text ids (insert id (texts_at id m ++ text ∷ []) m)

unfoldable pub add_requirements :
    List Requirement → List (String × List String) → List (String × List String)
unfolding add_text
add_requirements [] m = m
add_requirements (r ∷ rs) m = add_requirements rs (add_text r.text r.supporting_fact_ids m)

-- `claimRequirements`
unfoldable pub claim_requirements : Option Classification → List (String × List String)
unfolding add_requirements
claim_requirements c = add_requirements (requirements_of c) []

-- `new Set(texts)`
unfoldable pub set_of : List String → List String → List String
set_of [] xs = xs
set_of (t ∷ ts) xs = set_of ts (add t xs)

-- `requirementsForFacts`
unfoldable pub requirements_for_facts : List (String × List String) → List String → List String
unfolding set_of
requirements_for_facts m ids = set_of (flat_map (λ (id : String). texts_at id m) ids) []

includes-set_of :
    (t : String) (ts xs : List String)
    → includes t (set_of ts xs) ≡ (includes t xs || includes t ts)
unfolding set_of
includes-set_of t [] xs = ground arith
includes-set_of t (u ∷ ts) xs = ground (arith, includes-set_of t ts (add u xs), includes-add u t xs)

texts_at-insert :
    (t id j : String) (xs : List String) (m : List (String × List String))
    → includes t (texts_at id (insert j xs m))
      ≡ (if j == id then includes t xs else includes t (texts_at id m))
texts_at-insert t id j xs m = ground (arith, lookup-insert j id xs m)

includes-add_text :
    (t id text : String) (ids : List String) (m : List (String × List String))
    → includes t (texts_at id (add_text text ids m))
      ≡ (includes t (texts_at id m) || (text == t && includes id ids))
unfolding add_text
includes-add_text t id text [] m = ground arith
includes-add_text t id text (j ∷ ids) m = ground (
  arith,
  includes-add_text t id text ids (insert j (texts_at j m ++ text ∷ []) m),
  texts_at-insert t id j (texts_at j m ++ text ∷ []) m,
  includes-append t (texts_at j m) (text ∷ []),
  eq_iff j id,
)

-- Whether a requirement of a text is supported by a fact.
abbrev pub answers_by : String → String → Requirement → Bool
answers_by t id r = r.text == t && includes id r.supporting_fact_ids

includes-add_requirements :
    (t id : String) (rs : List Requirement) (m : List (String × List String))
    → includes t (texts_at id (add_requirements rs m))
      ≡ (includes t (texts_at id m) || any (answers_by t id) rs)
unfolding add_requirements
includes-add_requirements t id [] m = ground arith
includes-add_requirements t id (r ∷ rs) m = ground (
  arith,
  includes-add_requirements t id rs (add_text r.text r.supporting_fact_ids m),
  includes-add_text t id r.text r.supporting_fact_ids m,
)

includes-texts :
    (t : String) (m : List (String × List String)) (ids : List String)
    → includes t (flat_map (λ (id : String). texts_at id m) ids)
      ≡ any (λ (id : String). includes t (texts_at id m)) ids
includes-texts t m [] = refl
includes-texts t m (id ∷ ids) = ground (
  arith,
  includes-append t (texts_at id m) (flat_map (λ (j : String). texts_at j m) ids),
  includes-texts t m ids,
)

lookup_nil : (id : String) → lookup {V = List String} id [] ≡ none
unfolding lookup
lookup_nil id = refl

any-same :
    (t : String) (rs : List Requirement) (ids : List String)
    → any (λ (id : String). includes t (texts_at id (add_requirements rs []))) ids
      ≡ any (λ (id : String). any (answers_by t id) rs) ids
any-same t rs [] = refl
any-same t rs (id ∷ ids) =
    ground (arith, includes-add_requirements t id rs [], lookup_nil id, any-same t rs ids)

once_lem : (ts xs : List String) → Once xs → Once (set_of ts xs)
unfolding set_of
once_lem [] xs o = o
once_lem (t ∷ ts) xs o = once_lem ts (add t xs) (Once-add t xs o)

-- A line names the requirements that its facts answer, each once: a text is named exactly if one of the
-- facts supports a requirement of that text, and nothing is named without a classification.
pub requirements_for_facts-answered :
    (c : Option Classification) (ids : List String) (t : String)
    → Once (requirements_for_facts (claim_requirements c) ids)
      × (includes t (requirements_for_facts (claim_requirements c) ids)
          ≡ any (λ (id : String). any (answers_by t id) (requirements_of c)) ids)
unfolding requirements_for_facts claim_requirements
requirements_for_facts-answered c ids t =
    let m = add_requirements (requirements_of c) [] in
    let texts = flat_map (λ (id : String). texts_at id m) ids in
    (
      once_lem texts [] tt,
      includes-set_of t texts [] ∙ includes-texts t m ids ∙ any-same t (requirements_of c) ids,
    )

length_full : (rs : List Requirement) → is_empty rs ≡ false → 1 ≤ length rs
length_full [] h = cc
length_full (r ∷ rs) h = omega arith

draft_fit-gaps :
    (c : Classification) (f : DraftFit)
    → draft_fit (some c) ≡ some f
    → f.gaps
      ≡ select (λ (g : AnalysisGap). is_hard g.severity) c.gaps
        ++ select (λ (g : AnalysisGap). not (is_hard g.severity)) c.gaps
unfolding draft_fit
draft_fit-gaps c f h = ground (arith, h)

partition-perm {ℓ} :
    {A : Type ℓ}
    → (p : A → Bool) (xs : List A) → Perm (select p xs ++ select (λ x. not (p x)) xs) xs
partition-perm p [] = Perm.refl _
partition-perm p (x ∷ xs) = elim (Bool-cases (p x)) [
  | inl h ↦ rw h (Perm.cons x (partition-perm p xs))
  | inr h ↦ rw h (
      Perm.trans (perm_middle (select p xs) (select (λ y. not (p y)) xs))
        (Perm.cons x (partition-perm p xs)))
]

-- The ratio of a fit is one over something: it has a requirement, no more are matched than there are, and
-- its gaps are those of the classification, in another order.
pub draft_fit-bounds :
    (c : Classification) (f : DraftFit)
    → draft_fit (some c) ≡ some f
    → (1 ≤ f.total) × (f.matched ≤ f.total) × Perm f.gaps c.gaps
unfolding draft_fit
draft_fit-bounds c f h =
    let fits : (1 ≤ f.total) × (f.matched ≤ f.total) =
      ground (arith, h, length_full c.requirements, length-select-le is_matched c.requirements) in
    (
      fits.0,
      fits.1,
      subst (λ gs. Perm gs c.gaps) (sym (draft_fit-gaps c f h))
          (partition-perm (λ (g : AnalysisGap). is_hard g.severity) c.gaps),
    )
