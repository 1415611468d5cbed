-- ===== src/Decision/Reading.antt =====
-- The reading of the decision document's sections (`readDecision` of
-- frontend/src/features/ready/components/decisionMarkdown.ts). `toLowerCase`, which follows Unicode's
-- tables, is a parameter; the expression of `none recorded` ignores the case of ASCII letters alone.
use Prim.Native.Char.{code}
use full_stack_resume.Common.{
  ℕ, ◌+◌, String, ◌≡◌, sym, ap, ◌∙◌, inl, inr, Bool, true, false, not, ◌&&◌, ◌||◌, Option, none,
  some, List, [], ◌∷◌, ◌++◌, map, ◌==◌, eqb, leb, if◌then◌else◌, Bool-cases, or_else, select, find,
  flat_map, includes,
}
use full_stack_resume.Common.Lists.{select-append}
use full_stack_resume.Common.Text.{trim, trim_start, filled}
use full_stack_resume.Decision.{
  DecisionBlock, items, paragraph, DecisionSection, ParsedDecision, joined, any_terminator,
}

pub record KeyValue : Type 0 where
  pub key : String
  pub value : String

pub record DecisionReading : Type 0 where
  pub classification : List KeyValue
  pub language : Option String
  pub overrides : Option String
  pub rest : List DecisionSection
  pub selected_fact_ids : Option (List String)
  pub summary : Option String

abbrev pub empty_values : List String
empty_values = "" ∷ "{}" ∷ "[]" ∷ "none" ∷ "null" ∷ []

abbrev pub read_sections : List String
read_sections = "decision" ∷ "classification" ∷ "selected facts" ∷ "overrides" ∷ []

-- The text before the first colon, and the text after it if there is one.
before_colon : String → String
before_colon String.[] = ""
before_colon (String.◌∷◌ c s) =
    let more = before_colon s in if eqb (code c) b':' then "" else String.◌∷◌ c more

after_colon : String → Option String
after_colon String.[] = none
after_colon (String.◌∷◌ c s) =
    let more = after_colon s in if eqb (code c) b':' then some s else more

-- `/^([^:]+):\s*(.*)$/`
unfoldable pub key_value : String → Option KeyValue
unfolding before_colon after_colon any_terminator
key_value line = elim (after_colon line) [
  | none ↦ none
  | some s ↦
      if before_colon line == "" || any_terminator (trim_start s)
      then none
      else some (record { key = trim (before_colon line); value = trim (trim_start s) })
]

-- `/^none recorded$/i`
abbrev fold_case : ℕ → ℕ
fold_case c = if leb b'A' c && leb c b'Z' then c + 32 else c

same_folded : String → String → Bool
same_folded String.[] String.[] = true
same_folded String.[] (String.◌∷◌ d t) = false
same_folded (String.◌∷◌ c s) String.[] = false
same_folded (String.◌∷◌ c s) (String.◌∷◌ d t) = eqb (fold_case (code c)) (code d) && same_folded s t

unfoldable pub is_none_recorded : String → Bool
unfolding same_folded
is_none_recorded fact = same_folded fact "none recorded"

-- "fact.replace(/^`|`$/g, \"\")"
strip_first : String → String
strip_first String.[] = ""
strip_first (String.◌∷◌ c s) = if eqb (code c) b'`' then s else String.◌∷◌ c s

strip_last : String → String
strip_last String.[] = ""
strip_last (String.◌∷◌ c s) =
    let more = String.◌∷◌ c (strip_last s) in if eqb (code c) b'`' && s == "" then "" else more

unfoldable pub fact_id : String → String
unfolding strip_first strip_last
fact_id fact = trim (strip_last (strip_first fact))

abbrev pub items_of : DecisionBlock → List String
items_of (items xs) = xs
items_of _ = []

abbrev pub paragraphs_of : DecisionBlock → List String
paragraphs_of (paragraph t) = t ∷ []
paragraphs_of _ = []

abbrev pub list_items : Option DecisionSection → Option (List String)
list_items none = none
list_items (some s) = some (flat_map items_of s.blocks)

abbrev pub summary_of : Option DecisionSection → Option String
summary_of none = none
summary_of (some s) = filled (joined (flat_map paragraphs_of s.blocks))

-- the pairs of the classification's lines that have a value
unfoldable pub valued_pairs : List String → List KeyValue
unfolding key_value
valued_pairs [] = []
valued_pairs (line ∷ lines) =
    let more = valued_pairs lines in
    elim (key_value line) [ none ↦ more | some p ↦ if p.value == "" then more else p ∷ more ]

abbrev pub value_of : Option KeyValue → Option String
value_of none = none
value_of (some p) = some p.value

unfoldable pub selected_facts : Option (List String) → Option (List String)
unfolding is_none_recorded fact_id
selected_facts none = none
selected_facts (some facts) = some (map fact_id (select (λ f. not (is_none_recorded f)) facts))

module _ (to_lower_case : String → String) where
  abbrev pub has_name : String → DecisionSection → Bool
  has_name name s = elim s.heading [ none ↦ false | some h ↦ to_lower_case h == name ]

  -- `section`
  abbrev pub section : String → List DecisionSection → Option DecisionSection
  section name sections = find (has_name name) sections

  -- the value of the first line with a key
  unfoldable pub line_value : String → List String → Option String
  unfolding key_value
  line_value name [] = none
  line_value name (line ∷ lines) =
      let more = line_value name lines in
      elim (key_value line) [
        | none ↦ more
        | some p ↦ if to_lower_case p.key == name then some p.value else more
      ]

  unfoldable pub override_shown : Option String → Option String
  override_shown none = none
  override_shown (some v) = if includes (to_lower_case v) empty_values then some "" else some v

  abbrev pub is_rest : DecisionSection → Bool
  is_rest s = elim s.heading [
    | none ↦ true
    | some h ↦ not (includes (to_lower_case h) read_sections)
  ]

  -- `readDecision`
  unfoldable pub read_decision : ParsedDecision → DecisionReading
  unfolding valued_pairs selected_facts line_value override_shown
  read_decision parsed =
      let sections = parsed.sections in
      let pairs = valued_pairs (or_else (list_items (section "classification" sections)) []) in
      record {
        classification = pairs;
        language = value_of (find (λ (p : KeyValue). to_lower_case p.key == "language") pairs);
        overrides =
            override_shown (
              line_value "user overrides" (or_else (list_items (section "overrides" sections)) []));
        rest = select is_rest sections;
        selected_fact_ids = selected_facts (list_items (section "selected facts" sections));
        summary = summary_of (section "decision" sections);
      }

module _ {ℓ} {A : Type ℓ} (p : A → Bool) (s s' : A) where
  -- Of two elements that pass the same tests, the second is never the first that passes one.
  find-repeated :
      p s ≡ p s' → (a b c : List A) → find p (a ++ s ∷ (b ++ s' ∷ c)) ≡ find p (a ++ s ∷ (b ++ c))
  find-repeated e a b c = in_front a
    where
      behind : p s' ≡ false → (b : List A) → find p (b ++ s' ∷ c) ≡ find p (b ++ c)
      behind h [] = rw h
      behind h (x ∷ b) = ap (λ o. if p x then some x else o) (behind h b)

      in_front : (a : List A) → find p (a ++ s ∷ (b ++ s' ∷ c)) ≡ find p (a ++ s ∷ (b ++ c))
      in_front [] = elim (Bool-cases (p s)) [ inl h ↦ rw h | inr h ↦ rw h (behind (sym e ∙ h) b) ]
      in_front (x ∷ a) = ap (λ o. if p x then some x else o) (in_front a)

select-refused {ℓ} :
    {A : Type ℓ} (p : A → Bool) (s' : A)
    → p s' ≡ false
    → (b c : List A) → select p (b ++ s' ∷ c) ≡ select p (b ++ c)
select-refused p s' h [] c = rw h
select-refused p s' h (x ∷ b) c = ap (λ xs. if p x then x ∷ xs else xs) (select-refused p s' h b c)

-- A second section of a name that the reading claims drops out of view: with a first one before it, the
-- document reads as it does without it, whatever its blocks are, and they are not in the rest either.
pub read_decision-repeated :
    (to_lower_case : String → String) (title : Option String) (a b c : List DecisionSection)
    (s s' : DecisionSection) (h h' : String)
    → s.heading ≡ some h
    → s'.heading ≡ some h'
    → to_lower_case h ≡ to_lower_case h'
    → includes (to_lower_case h) read_sections ≡ true
    → read_decision to_lower_case (record { sections = a ++ s ∷ (b ++ s' ∷ c); title = title })
      ≡ read_decision to_lower_case (record { sections = a ++ s ∷ (b ++ c); title = title })
unfolding read_decision
read_decision-repeated low title a b c s s' h h' e e' same claimed =
    let named : (name : String) → has_name low name s ≡ has_name low name s' =
      λ name. rw (e, e') (ap (λ n. n == name) same) in
    let first = λ (name : String). find-repeated (has_name low name) s s' (named name) a b c in
    let refused : is_rest low s' ≡ false = rw e' (rw (sym same) (rw claimed)) in
    let rests : select (is_rest low) (a ++ s ∷ (b ++ s' ∷ c))
        ≡ select (is_rest low) (a ++ s ∷ (b ++ c)) =
      select-append (is_rest low) a (s ∷ (b ++ s' ∷ c))
      ∙ ap (λ xs. select (is_rest low) a ++ (if is_rest low s then s ∷ xs else xs))
          (select-refused (is_rest low) s' refused b c)
      ∙ sym (select-append (is_rest low) a (s ∷ (b ++ c))) in
    rw (first "classification", first "overrides", first "selected facts", first "decision", rests)
