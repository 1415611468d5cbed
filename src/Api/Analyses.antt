-- ===== src/Api/Analyses.antt =====
-- The reading of the analysis document (frontend/src/api/analyses.ts). The document is an opaque
-- JSON value on the wire, and each field is narrowed when it is read. The two fractions that are
-- shown as numbers only (`fitScore`, `sourceCoverage`) are left out.
pub mod Document
pub mod Values
pub mod Requirements
use full_stack_resume.Common.{
  ℕ, String, not, Option, none, some, List, [], ◌∷◌, suc, ◌==◌, includes, if◌then◌else◌, flat_map,
}
use full_stack_resume.Common.Text.{trim}
use Document.{Json, Fields, array_items, text_value, property, keys, is_record}
use Values.{
  Track, ProfileName, Emphasis, Language, FitLevel, read_track, read_profile, read_emphasis,
  read_language, read_fit,
}

pub data RequirementCoverage : Type 0 where
  matched partial unsupported unknown : RequirementCoverage

pub data RequirementImportance : Type 0 where
  mandatory preferred unknown : RequirementImportance

-- The severity "none" is `nothing` here.
pub data ShortfallSeverity : Type 0 where
  nothing minor material unknown : ShortfallSeverity

pub record Requirement : Type 0 where
  pub requirement_id : String
  pub text : String
  pub importance : RequirementImportance
  pub coverage : RequirementCoverage
  pub shortfall_severity : Option ShortfallSeverity
  pub shortfall_reason : Option String
  pub rationale : Option String
  pub supporting_fact_ids : List String
  pub boundary_fact_ids : List String

pub data GapSeverity : Type 0 where
  hard warning : GapSeverity

pub record AnalysisGap : Type 0 where
  pub requirement_id : String
  pub requirement : String
  pub severity : GapSeverity
  pub reason : String

pub record Classification : Type 0 where
  pub track : Option Track
  pub profile : Option ProfileName
  pub emphasis : Option Emphasis
  pub language : Option Language
  pub fit : Option FitLevel
  pub gaps : List AnalysisGap
  pub decided : List String
  pub summary : Option String
  pub keywords : List String
  pub requirements : List Requirement
  pub unreadable_requirement_count : ℕ
  pub issues : List String

-- `JobAnalysisResponse`
pub record JobAnalysis : Type 0 where
  pub id : String
  pub job_text_hash : String
  pub created_at : String
  pub fit_level : String
  pub gaps : List AnalysisGap
  pub analysis : Fields

-- A text as a list of one, any other value as none.
text_list : Json → List String
text_list (Json.text s) = s ∷ []
text_list _ = []

-- `stringsFrom`
unfoldable pub strings_from : Option Json → List String
unfolding text_list
strings_from value = flat_map text_list (array_items value)

unfoldable pub read_coverage : Option String → Option RequirementCoverage
read_coverage none = none
read_coverage (some s) =
    if s == "matched"
    then some matched
    else if s == "partial"
    then some partial
    else if s == "unsupported"
    then some unsupported
    else if s == "unknown"
    then some unknown
    else none

unfoldable pub read_importance : Option String → Option RequirementImportance
read_importance none = none
read_importance (some s) =
    if s == "mandatory"
    then some mandatory
    else if s == "preferred"
    then some preferred
    else if s == "unknown"
    then some unknown
    else none

unfoldable pub read_severity : Option String → Option ShortfallSeverity
read_severity none = none
read_severity (some s) =
    if s == "none"
    then some nothing
    else if s == "minor"
    then some minor
    else if s == "material"
    then some material
    else if s == "unknown"
    then some unknown
    else none

-- `typeof value === "string"` and `value.trim() !== ""`
unfoldable pub filled_text : Option String → Option String
filled_text none = none
filled_text (some s) = if trim s == "" then none else some s

-- The item that one entry of the list gives, `none` where it is unreadable. An entry that is no
-- object has no properties.
module _ (seen : List String) (entry : Json) where
  fresh_id : Option String → Option String
  fresh_id none = none
  fresh_id (some id) = if includes id seen then none else some id

  build_requirement :
      Option String
      → Option String
      → Option RequirementImportance
      → Option RequirementCoverage
      → Option Requirement
  build_requirement (some id) (some text) (some importance) (some coverage) = some (record {
    requirement_id = id;
    text = text;
    importance = importance;
    coverage = coverage;
    shortfall_severity = read_severity (text_value (property "shortfall_severity" entry));
    shortfall_reason = text_value (property "shortfall_reason" entry);
    rationale = text_value (property "rationale" entry);
    supporting_fact_ids = strings_from (property "supporting_fact_ids" entry);
    boundary_fact_ids = strings_from (property "boundary_fact_ids" entry);
  })
  build_requirement _ _ _ _ = none

  unfoldable pub read_requirement : Option Requirement
  unfolding fresh_id build_requirement
  read_requirement =
      build_requirement (fresh_id (filled_text (text_value (property "requirement_id" entry))))
        (filled_text (text_value (property "text" entry)))
        (read_importance (text_value (property "importance" entry)))
        (read_coverage (text_value (property "coverage" entry)))

pub record ParsedRequirements : Type 0 where
  pub items : List Requirement
  pub unreadable_count : ℕ

-- One round of the `flatMap`, before the rounds that follow it.
note_requirement : Option Requirement → ParsedRequirements → ParsedRequirements
note_requirement none rest = record rest { unreadable_count = suc rest.unreadable_count }
note_requirement (some r) rest = record rest { items = r ∷ rest.items }

see_requirement : Option Requirement → List String → List String
see_requirement none seen = seen
see_requirement (some r) seen = r.requirement_id ∷ seen

requirements_from_entries : List String → List Json → ParsedRequirements
requirements_from_entries seen [] = record { items = []; unreadable_count = 0 }
requirements_from_entries seen (entry ∷ entries) =
    note_requirement (read_requirement seen entry)
      (requirements_from_entries (see_requirement (read_requirement seen entry) seen) entries)

-- `requirementsFrom`
unfoldable pub requirements_from : Option Json → ParsedRequirements
unfolding requirements_from_entries note_requirement see_requirement
requirements_from value = requirements_from_entries [] (array_items value)

issue_codes : Json → List String
issue_codes issue = elim (text_value (property "code" issue)) [ none ↦ [] | some c ↦ c ∷ [] ]

-- `issuesFrom`
unfoldable pub issues_from : Option Json → List String
unfolding issue_codes
issues_from value = flat_map issue_codes (array_items value)

-- `Object.keys(override)` of a value that is a record, and of `{}` otherwise
unfoldable pub decided_keys : Option Json → List String
decided_keys none = []
decided_keys (some value) = if is_record value then keys value else []

-- What `classificationFromAnalysis` builds from the record of the current posting.
unfoldable pub classify : JobAnalysis → Classification
classify r =
    let field = λ (k : String). property k (Json.object r.analysis) in
    let parsed = requirements_from (field "requirements") in
    record {
      track = read_track (text_value (field "track"));
      profile = read_profile (text_value (field "profile"));
      emphasis = read_emphasis (text_value (field "emphasis"));
      language = read_language (text_value (field "language"));
      fit = read_fit (some r.fit_level);
      gaps = r.gaps;
      decided = decided_keys (field "user_override");
      summary = text_value (field "summary");
      keywords = strings_from (field "keywords");
      requirements = parsed.items;
      unreadable_requirement_count = parsed.unreadable_count;
      issues = issues_from (field "issues");
    }

-- `classificationFromAnalysis`, over the three fields of the detail that it reads
unfoldable pub classification_from :
    Option JobAnalysis → Option String → String → Option Classification
classification_from none latest_id hash = none
classification_from (some r) none hash = none
classification_from (some r) (some latest) hash =
    if not (r.id == latest)
    then none
    else if not (r.job_text_hash == hash)
    then none
    else some (classify r)
