-- ===== src/Decision/Kept.antt =====
-- No text of a decision document is lost in its reading (decisionMarkdown.ts).
use full_stack_resume.Common.{
  ℕ, String, ◌≡◌, refl, sym, ap, ◌∙◌, inl, inr, Bool, true, false, not, ◌&&◌, ◌||◌, Option, none,
  some, List, [], ◌∷◌, ◌++◌, map, arith, eqb, leb, if◌then◌else◌, Bool-cases, present, first_of_two,
  select, is_empty, flat_map,
}
use mathlib.Core.List.{append_assoc, append-nil}
use full_stack_resume.Decision.{
  DecisionBlock, DecisionSection, Line, blank, heading_line, item_line, plain_line, line_of,
  split_lines, Parsing, joined, flush, add_heading, add_item, parse_line, parse_lines, unparsed,
  is_kept, parse_decision_markdown,
}
use full_stack_resume.Decision.Markers.{
  IsMarked, line_text, line_of-IsMarked, unbroken, unbroken_all, split_lines-unbroken,
}
use full_stack_resume.Common.Text.{trim}
use full_stack_resume.Decision.Texts.{
  block_texts, option_texts, blocks_texts, section_texts, kept_texts, flat_map-append, state_texts,
  flush-joined,
}

abbrev line_texts : Bool → Line → List String
line_texts titled blank = []
line_texts titled (heading_line level text) = if eqb level 1 && not titled then [] else text ∷ []
line_texts titled (item_line text) = text ∷ []
line_texts titled (plain_line text) = text ∷ []

module _ (p : Parsing) (rest : List String) where
  heading-texts :
      (level : ℕ) (text : String)
      → state_texts (add_heading level text (flush p)) ++ rest
        ≡ state_texts (flush p) ++ line_texts (present p.title) (heading_line level text) ++ rest
  unfolding flush
  heading-texts level text = elim (Bool-cases (eqb level 1 && not (present p.title))) [
    | inl h ↦ rw h (simp (append_assoc, append-nil))
    | inr h ↦ rw h (elim (Bool-cases (leb level 2)) [
      | inl k ↦ rw k (simp (flat_map-append section_texts, append_assoc, append-nil))
      | inr k ↦ rw k (simp (flat_map-append block_texts, append_assoc, append-nil))
    ])
  ]

  item-texts :
      (text : String) → state_texts (add_item text p) ++ rest ≡ state_texts p ++ text ∷ rest
  item-texts text = simp append_assoc

  plain-texts :
      (text : String)
      → p.list ≡ none
      → state_texts (record p { paragraph = p.paragraph ++ text ∷ [] }) ++ rest
        ≡ state_texts p ++ text ∷ rest
  plain-texts text e = rw e (simp (append_assoc, append-nil))

step-joined :
    (l : Line) (p : Parsing) (rest : List String)
    → joined (state_texts (parse_line l p) ++ rest)
      ≡ joined (state_texts p ++ line_texts (present p.title) l ++ rest)
unfolding parse_line
step-joined blank p rest = rw (append-nil (state_texts p)) (flush-joined p rest)
step-joined (heading_line level text) p rest =
    let more = line_texts (present p.title) (heading_line level text) in
    ap joined (heading-texts p rest level text ∙ append_assoc (state_texts (flush p)) more rest)
    ∙ flush-joined p (more ++ rest)
    ∙ ap joined (sym (append_assoc (state_texts p) more rest))
step-joined (item_line text) p rest = elim (Bool-cases (is_empty p.paragraph)) [
  | inl h ↦ rw h (
      ap joined (item-texts p rest text)
      ∙ ap joined (sym (append_assoc (state_texts p) (text ∷ []) rest)))
  | inr h ↦ rw h (
      ap joined (item-texts (flush p) rest text)
      ∙ flush-joined p (text ∷ rest)
      ∙ ap joined (sym (append_assoc (state_texts p) (text ∷ []) rest)))
]
step-joined (plain_line text) p rest = elim (Bool-cases (present p.list)) [
  | inl h ↦ rw h (
      ap joined (plain-texts (flush p) rest text refl)
      ∙ flush-joined p (text ∷ rest)
      ∙ ap joined (sym (append_assoc (state_texts p) (text ∷ []) rest)))
  | inr h ↦ rw h (
      ap joined (plain-texts p rest text (ground (arith, h)))
      ∙ ap joined (sym (append_assoc (state_texts p) (text ∷ []) rest)))
]

-- Whether the title is taken after a line.
titled_after : Bool → Line → Bool
titled_after titled (heading_line level text) = titled || eqb level 1
titled_after titled _ = titled

title-flush : (p : Parsing) → (flush p).title ≡ p.title
unfolding flush
title-flush p = refl

parse_line-title :
    (l : Line) (p : Parsing) → present (parse_line l p).title ≡ titled_after (present p.title) l
unfolding parse_line titled_after flush
parse_line-title blank p = refl
parse_line-title (heading_line level text) p = ground arith
parse_line-title (item_line text) p = ground arith
parse_line-title (plain_line text) p = ground arith

kept_texts-line :
    (titled : Bool) (l : Line) (ls : List Line)
    → kept_texts titled (l ∷ ls) ≡ line_texts titled l ++ kept_texts (titled_after titled l) ls
unfolding titled_after
kept_texts-line titled blank ls = refl
kept_texts-line true (heading_line level text) ls = ground arith
kept_texts-line false (heading_line level text) ls = ground arith
kept_texts-line titled (item_line text) ls = refl
kept_texts-line titled (plain_line text) ls = refl

parse_lines-joined :
    (ls : List Line) (p : Parsing)
    → joined (state_texts (flush (parse_lines ls p)))
      ≡ joined (state_texts p ++ kept_texts (present p.title) ls)
parse_lines-joined [] p = ap joined (sym (append-nil (state_texts (flush p)))) ∙ flush-joined p []
parse_lines-joined (l ∷ ls) p =
    parse_lines-joined ls (parse_line l p)
    ∙ step-joined l p (kept_texts (present (parse_line l p).title) ls)
    ∙ ap joined (
        append_assoc (state_texts p) (line_texts (present p.title) l)
          (kept_texts (present (parse_line l p).title) ls)
        ∙ ap (λ xs. state_texts p ++ xs)
            (ap (λ t. line_texts (present p.title) l ++ kept_texts t ls) (parse_line-title l p)
              ∙ sym (kept_texts-line (present p.title) l ls)))

dropped-texts :
    (h : Option String) (bs : List DecisionBlock)
    → (present h || not (is_empty bs)) ≡ false
    → option_texts h ++ blocks_texts bs ≡ []
dropped-texts none [] e = refl
dropped-texts none (b ∷ bs) e = cc
dropped-texts (some t) bs e = cc

kept-texts :
    (ss : List DecisionSection)
    → flat_map section_texts (select is_kept ss) ≡ flat_map section_texts ss
kept-texts [] = refl
kept-texts (s ∷ ss) = elim (Bool-cases (is_kept s)) [
  | inl h ↦ rw h (ap (λ xs. section_texts s ++ xs) (kept-texts ss))
  | inr h ↦ rw h (rw (dropped-texts s.heading s.blocks h) (kept-texts ss))
]

final-texts :
    (p : Parsing)
    → flat_map section_texts ((flush p).earlier ++ (flush p).current ∷ []) ≡ state_texts (flush p)
unfolding flush
final-texts p = simp (flat_map-append section_texts, append-nil, append_assoc)

-- The first heading of level 1.
abbrev pub first_title : List Line → Option String
first_title [] = none
first_title (heading_line level text ∷ ls) = if eqb level 1 then some text else first_title ls
first_title (blank ∷ ls) = first_title ls
first_title (item_line text ∷ ls) = first_title ls
first_title (plain_line text ∷ ls) = first_title ls

line_title : Line → Option String
line_title (heading_line level text) = if eqb level 1 then some text else none
line_title _ = none

parse_line-line_title :
    (l : Line) (p : Parsing) → (parse_line l p).title ≡ first_of_two p.title (line_title l)
unfolding parse_line line_title flush
parse_line-line_title blank p = ground arith
parse_line-line_title (heading_line level text) p = ground arith
parse_line-line_title (item_line text) p = ground arith
parse_line-line_title (plain_line text) p = ground arith

parse_lines-title :
    (ls : List Line) (p : Parsing)
    → (parse_lines ls p).title ≡ first_of_two p.title (first_title ls)
unfolding line_title
parse_lines-title [] p = ground arith
parse_lines-title (blank ∷ ls) p =
    ground (arith, parse_lines-title ls (parse_line blank p), parse_line-line_title blank p)
parse_lines-title (heading_line level text ∷ ls) p = ground (
  arith,
  parse_lines-title ls (parse_line (heading_line level text) p),
  parse_line-line_title (heading_line level text) p,
)
parse_lines-title (item_line text ∷ ls) p = ground (
  arith,
  parse_lines-title ls (parse_line (item_line text) p),
  parse_line-line_title (item_line text) p,
)
parse_lines-title (plain_line text ∷ ls) p = ground (
  arith,
  parse_lines-title ls (parse_line (plain_line text) p),
  parse_line-line_title (plain_line text) p,
)

-- No text of the document is lost or moved in its reading. Its lines are all of it but for its line ends,
-- and of each line its text is all that it has but for the spaces around it and a marker of `#`, `-`, `*`,
-- `+` and spaces in front. Joined by spaces, the texts of the sections that the reader sees, headings,
-- items and paragraphs in their order, are those of the lines in theirs, but for the first heading of
-- level 1, which is the title.
pub parse_decision_markdown-texts :
    (content : String)
    → let ls = map line_of (split_lines content) in
      let parsed = parse_decision_markdown content in
      (unbroken_all (split_lines content) ≡ unbroken content)
      × ((raw : String) → IsMarked (trim raw) (line_text (line_of raw)))
      × (joined (flat_map section_texts parsed.sections) ≡ joined (kept_texts false ls))
      × (parsed.title ≡ first_title ls)
unfolding parse_decision_markdown
parse_decision_markdown-texts content =
    let ls = map line_of (split_lines content) in
    let p = parse_lines ls unparsed in
    (
      split_lines-unbroken content,
      line_of-IsMarked,
      ap joined (kept-texts ((flush p).earlier ++ (flush p).current ∷ []) ∙ final-texts p)
          ∙ parse_lines-joined ls unparsed,
      title-flush p ∙ parse_lines-title ls unparsed,
    )
