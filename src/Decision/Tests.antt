-- ===== src/Decision/Tests.antt =====
-- The reading of decisionMarkdown.ts at a concrete document.
use Prim.Native.Char
use full_stack_resume.Common.{all, true, none, List, if◌then◌else◌, ◌==◌}
use full_stack_resume.Common.Text.{is_space}
use full_stack_resume.Decision.Markers.{IsMarked, line_text, unbroken, unbroken_all}
use full_stack_resume.Common.Text.{trim}
use full_stack_resume.Decision.Inline.{Points, InlineSpan, drop, scheme, parse_inline}
use full_stack_resume.Decision.Inline.Spans.{markdown_all, is_span, parse_inline-markdown}
use full_stack_resume.Decision.Inline.Printed.{parse_inline-markdown_all}
use full_stack_resume.Decision.Reading.{read_decision, read_decision-repeated}
use full_stack_resume.Common.{String, ◌≡◌, refl, false, some, [], ◌∷◌, map, flat_map}
use full_stack_resume.Common.Text.{trim}
use full_stack_resume.Decision.{
  DecisionSection, heading, items, paragraph, line_of, split_lines, joined, parse_decision_markdown,
}
use full_stack_resume.Decision.Texts.{section_texts, kept_texts}
use full_stack_resume.Decision.Kept.{first_title, parse_decision_markdown-texts}

abbrev decision : String
decision = "# Record\r\n\r\n## Decision\nSent as\n  written\n- one\n* two\n### Why\nfit"

parse_test : parse_decision_markdown decision ≡ record {
  sections =
      record {
        blocks =
            paragraph "Sent as written"
            ∷ items ("one" ∷ "two" ∷ [])
            ∷ heading "Why"
            ∷ paragraph "fit"
            ∷ [];
        heading = some "Decision";
      }
      ∷ [];
  title = some "Record";
}
unfolding parse_decision_markdown trim
parse_test = refl

parse_decision_markdown-texts_example :
    let ls = map line_of (split_lines decision) in
    let parsed = parse_decision_markdown decision in
    (unbroken_all (split_lines decision) ≡ unbroken decision)
    × ((raw : String) → IsMarked (trim raw) (line_text (line_of raw)))
    × (joined (flat_map section_texts parsed.sections) ≡ joined (kept_texts false ls))
    × (parsed.title ≡ first_title ls)
parse_decision_markdown-texts_example = parse_decision_markdown-texts decision

abbrev codes : String → Points
codes String.[] = []
codes (String.◌∷◌ c s) = Char.code c ∷ codes s

abbrev some_spans : List InlineSpan
some_spans =
    InlineSpan.text (codes "by ")
    ∷ InlineSpan.code (codes "f-1")
    ∷ InlineSpan.strong (codes "and")
    ∷ InlineSpan.text (codes " ")
    ∷ InlineSpan.link (codes "https://e.org/a") (codes "here")
    ∷ []

parse_inline_test : parse_inline (codes "by `f-1`**and** [here](https://e.org/a)") ≡ some_spans
unfolding parse_inline is_space
parse_inline_test = refl

-- No other scheme makes a link.
parse_inline_scheme :
    parse_inline (codes "[x](ftp://e)") ≡ InlineSpan.text (codes "[x](ftp://e)") ∷ []
unfolding parse_inline is_space
parse_inline_scheme = refl

parse_inline-markdown_example :
    (markdown_all (parse_inline (codes "a `b` [c](http://d)")) ≡ codes "a `b` [c](http://d)")
    × (all is_span (parse_inline (codes "a `b` [c](http://d)")) ≡ true)
parse_inline-markdown_example = parse_inline-markdown (codes "a `b` [c](http://d)")

parse_inline-markdown_all_example : parse_inline (markdown_all some_spans) ≡ some_spans
parse_inline-markdown_all_example =
    parse_inline-markdown_all some_spans (unfold scheme drop is_space in refl) refl

abbrev facts_section : List String → DecisionSection
facts_section ids = record { blocks = items ids ∷ []; heading = some "selected facts" }

abbrev overrides_section : DecisionSection
overrides_section = record {
  blocks = items ("User overrides: {}" ∷ []) ∷ [];
  heading = some "overrides";
}

read_decision_test :
    read_decision
      (λ s. if s == "User overrides" then "user overrides" else s)
      (record {
        sections = facts_section ("`f-1`" ∷ "None recorded" ∷ []) ∷ overrides_section ∷ [];
        title = none;
      })
    ≡ record {
      classification = [];
      language = none;
      overrides = some "";
      rest = [];
      selected_fact_ids = some ("f-1" ∷ []);
      summary = none;
    }
unfolding read_decision is_space trim
read_decision_test = refl

read_decision-repeated_example :
    read_decision
      (λ s. s)
      (record {
        sections = facts_section ("a" ∷ []) ∷ (overrides_section ∷ facts_section ("b" ∷ []) ∷ []);
        title = none;
      })
    ≡ read_decision
        (λ s. s)
        (record { sections = facts_section ("a" ∷ []) ∷ (overrides_section ∷ []); title = none })
read_decision-repeated_example =
    read_decision-repeated (λ s. s) none [] (overrides_section ∷ []) [] (facts_section ("a" ∷ []))
      (facts_section ("b" ∷ [])) "selected facts" "selected facts" refl refl refl refl
