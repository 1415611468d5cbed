-- ===== src/Api/Analyses/Requirements.antt =====
-- What `requirementsFrom` of frontend/src/api/analyses.ts makes of any list on the wire.
use full_stack_resume.Common.{
  ◌+◌, String, ◌≡◌, refl, inl, inr, false, Option, none, some, List, [], ◌∷◌, map, arith,
  Option-cases, length, includes,
}
use full_stack_resume.Api.Analyses.Document.{Json, array_items, text_value, property}
use full_stack_resume.Api.Analyses.{
  Requirement, RequirementImportance, RequirementCoverage, filled_text, read_requirement,
  requirements_from, requirements_from_entries, note_requirement, see_requirement, fresh_id,
  build_requirement,
}

-- Each id is new after those already seen and those before it.
abbrev pub AreNew : List String → List String → Type 0
AreNew seen [] = Unit
AreNew seen (id ∷ ids) = (includes id seen ≡ false) × AreNew (id ∷ seen) ids

fresh_id-new :
    (seen : List String) (entry : Json) (o : Option String) (id : String)
    → fresh_id seen entry o ≡ some id
    → includes id seen ≡ false
unfolding fresh_id
fresh_id-new seen entry none id h = cc
fresh_id-new seen entry (some i) id h = ground arith

build_requirement-id :
    (seen : List String) (entry : Json) (id text : Option String) (i : Option RequirementImportance)
    (c : Option RequirementCoverage) (r : Requirement)
    → build_requirement seen entry id text i c ≡ some r
    → id ≡ some r.requirement_id
unfolding build_requirement
build_requirement-id seen entry none t i c r h = cc
build_requirement-id seen entry (some id) none i c r h = cc
build_requirement-id seen entry (some id) (some t) none c r h = cc
build_requirement-id seen entry (some id) (some t) (some i) none r h = cc
build_requirement-id seen entry (some id) (some t) (some i) (some c) r h = ground arith

read_requirement-new :
    (seen : List String) (entry : Json) (r : Requirement)
    → read_requirement seen entry ≡ some r
    → includes r.requirement_id seen ≡ false
unfolding read_requirement
read_requirement-new seen entry r h =
    fresh_id-new seen entry (filled_text (text_value (property "requirement_id" entry)))
      r.requirement_id (build_requirement-id seen entry _ _ _ _ r h)

abbrev pub ids_of : List Requirement → List String
ids_of rs = map (λ (r : Requirement). r.requirement_id) rs

entries_counted :
    (seen : List String) (entries : List Json)
    → length (requirements_from_entries seen entries).items
        + (requirements_from_entries seen entries).unreadable_count
      ≡ length entries
unfolding requirements_from_entries note_requirement
entries_counted seen [] = refl
entries_counted seen (e ∷ es) = elim (Option-cases (read_requirement seen e)) [
  | inl h ↦ rw h (ground (arith, entries_counted (see_requirement none seen) es))
  | inr (r, h) ↦ rw h (ground (arith, entries_counted (see_requirement (some r) seen) es))
]

entries_new :
    (seen : List String) (entries : List Json)
    → AreNew seen (ids_of (requirements_from_entries seen entries).items)
unfolding requirements_from_entries note_requirement see_requirement
entries_new seen [] = tt
entries_new seen (e ∷ es) = elim (Option-cases (read_requirement seen e)) [
  | inl h ↦ rw h (entries_new seen es)
  | inr (r, h) ↦ rw h (read_requirement-new seen e r h, entries_new (r.requirement_id ∷ seen) es)
]

-- Whatever stands in the list, every entry is either read or counted as unreadable, and no two of the
-- requirements that are read share an id.
pub requirements_from_complete :
    (value : Option Json)
    → (length (requirements_from value).items + (requirements_from value).unreadable_count
        ≡ length (array_items value))
      × AreNew [] (ids_of (requirements_from value).items)
unfolding requirements_from
requirements_from_complete value =
    (entries_counted [] (array_items value), entries_new [] (array_items value))
