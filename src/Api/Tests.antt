-- ===== src/Api/Tests.antt =====
-- The reading of an analysis at a concrete list.
use full_stack_resume.Common.{String, ◌≡◌, some, refl}
use full_stack_resume.Api.Analyses.Document.{Json}
use full_stack_resume.Api.Analyses.Document
use full_stack_resume.Api.Analyses.{
  requirements_from, read_requirement, filled_text, read_importance, read_coverage,
}
use full_stack_resume.Common.Text.{trim}

abbrev entry : String → Json
entry id = Document.object (
    Document.with_field "requirement_id" (Document.text id) (
      Document.with_field "text" (Document.text "SQL") (
        Document.with_field "importance" (Document.text "mandatory")
          (Document.with_field "coverage" (Document.text "partial") Document.no_fields))))

-- One id twice and a number that is no requirement.
abbrev entries : Json
entries = Document.array (
    Document.with_entry (entry "r1") (
      Document.with_entry (entry "r1") (
        Document.with_entry (Document.number 7)
          (Document.with_entry (entry "r2") Document.no_entries))))

counts_test : (requirements_from (some entries)).unreadable_count ≡ 2
unfolding requirements_from read_requirement filled_text trim read_importance read_coverage
counts_test = refl
