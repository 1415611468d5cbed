-- ===== src/Decision.antt =====
-- The reading of the decision document's Markdown into sections and blocks
-- (frontend/src/features/ready/components/decisionMarkdown.ts). The regular expressions of a line are written
-- out as functions of its characters.
pub mod Inline
pub mod Texts
pub mod Markers
pub mod Kept
pub mod Reading
mod Tests
use Prim.Native.Char.{Char, code}
use Prim.Native.String
use full_stack_resume.Common.{
  ℕ, suc, ◌+◌, ◌-◌, ◌*◌, ◌<◌, String, Bool, false, not, ◌&&◌, ◌||◌, Option, none, some, List, [],
  ◌∷◌, ◌++◌, map, ◌==◌, eqb, leb, if◌then◌else◌, present, or_else, select, is_empty,
}
use full_stack_resume.Common.Text.{is_space, trim, trim_start}
use full_stack_resume.Navigation.{◌<>◌}

pub data DecisionBlock : Type 0 where
  heading : (text : String) → DecisionBlock
  items : List String → DecisionBlock
  paragraph : (text : String) → DecisionBlock

pub record DecisionSection : Type 0 where
  pub blocks : List DecisionBlock
  pub heading : Option String

pub record ParsedDecision : Type 0 where
  pub sections : List DecisionSection
  pub title : Option String

-- What a line is: blank, a heading of a level, an item of a list, or other text.
pub data Line : Type 0 where
  blank : Line
  heading_line : (level : ℕ) (text : String) → Line
  item_line plain_line : (text : String) → Line

-- the characters that a `.` of a regular expression does not match
abbrev pub is_terminator : ℕ → Bool
is_terminator c = eqb c 10 || eqb c 13 || eqb c 0x2028 || eqb c 0x2029

unfoldable pub any_terminator : String → Bool
any_terminator String.[] = false
any_terminator (String.◌∷◌ c s) = is_terminator (code c) || any_terminator s

hashes : String → ℕ
hashes String.[] = 0
hashes (String.◌∷◌ c s) = let rest = hashes s in if eqb (code c) b'#' then suc rest else 0

after_hashes : String → String
after_hashes String.[] = ""
after_hashes (String.◌∷◌ c s) =
    let rest = after_hashes s in if eqb (code c) b'#' then rest else String.◌∷◌ c s

-- `\s+(.*)$`
spaced_text : String → Option String
unfolding any_terminator
spaced_text String.[] = none
spaced_text (String.◌∷◌ c s) =
    if is_space (code c) && not (any_terminator (trim_start s)) then some (trim_start s) else none

-- `/^(#{1,6})\s+(.*)$/`
heading_match : String → Option (ℕ × String)
unfolding hashes after_hashes spaced_text
heading_match line =
    if leb 1 (hashes line) && leb (hashes line) 6
    then elim (spaced_text (after_hashes line)) [ none ↦ none | some t ↦ some (hashes line, t) ]
    else none

-- `/^[-*+]\s+(.*)$/`
item_match : String → Option String
unfolding spaced_text
item_match String.[] = none
item_match (String.◌∷◌ c s) =
    if eqb (code c) b'-' || eqb (code c) b'*' || eqb (code c) b'+' then spaced_text s else none

-- how the loop tells a line apart
unfoldable pub line_of : String → Line
unfolding heading_match item_match
line_of raw =
    let line = trim raw in
    if line == "" then blank else elim (heading_match line) [
      | some h ↦ heading_line h.0 h.1
      | none ↦ elim (item_match line) [ some t ↦ item_line t | none ↦ plain_line line ]
    ]

-- `content.split(/\r?\n/)`
abbrev cons_first : Char → List String → List String
cons_first c [] = (String.◌∷◌ c "") ∷ []
cons_first c (l ∷ ls) = (String.◌∷◌ c l) ∷ ls

starts_line : String → Bool
starts_line String.[] = false
starts_line (String.◌∷◌ c s) = eqb (code c) 10

unfoldable pub split_lines : String → List String
unfolding starts_line
split_lines String.[] = "" ∷ []
split_lines (String.◌∷◌ c s) =
    let rest = split_lines s in
    if eqb (code c) 10
    then "" ∷ rest
    else if eqb (code c) 13 && starts_line s
    then rest
    else cons_first c rest

-- the variables of the loop, with the last section apart
pub record Parsing : Type 0 where
  pub title : Option String
  pub earlier : List DecisionSection
  pub current : DecisionSection
  pub paragraph : List String
  pub list : Option (List String)

-- `join(" ")`
abbrev pub joined : List String → String
joined [] = ""
joined (x ∷ []) = x
joined (x ∷ y ∷ ys) = x <> " " <> joined (y ∷ ys)

abbrev pub paragraph_block : List String → List DecisionBlock
paragraph_block [] = []
paragraph_block (x ∷ xs) = paragraph (joined (x ∷ xs)) ∷ []

abbrev pub list_block : Option (List String) → List DecisionBlock
list_block none = []
list_block (some xs) = items xs ∷ []

abbrev pub push : DecisionBlock → DecisionSection → DecisionSection
push b s = record s { blocks = s.blocks ++ b ∷ [] }

-- `flush`
unfoldable pub flush : Parsing → Parsing
flush p = record p {
  current = record p.current {
    blocks = p.current.blocks ++ paragraph_block p.paragraph ++ list_block p.list;
  };
  paragraph = [];
  list = none;
}

abbrev pub add_heading : ℕ → String → Parsing → Parsing
add_heading level text p =
    if eqb level 1 && not (present p.title)
    then record p { title = some text }
    else if leb level 2
    then record p {
      earlier = p.earlier ++ p.current ∷ [];
      current = record { blocks = []; heading = some text };
    }
    else record p { current = push (heading text) p.current }

abbrev pub add_item : String → Parsing → Parsing
add_item text p = record p { list = some (or_else p.list [] ++ text ∷ []) }

-- a turn of the loop
unfoldable pub parse_line : Line → Parsing → Parsing
unfolding flush
parse_line blank p = flush p
parse_line (heading_line level text) p = add_heading level text (flush p)
parse_line (item_line text) p = add_item text (if is_empty p.paragraph then p else flush p)
parse_line (plain_line text) p =
    let q = if present p.list then flush p else p in
    record q { paragraph = q.paragraph ++ text ∷ [] }

abbrev pub parse_lines : List Line → Parsing → Parsing
parse_lines [] p = p
parse_lines (l ∷ ls) p = parse_lines ls (parse_line l p)

abbrev pub unparsed : Parsing
unparsed = record {
  title = none;
  earlier = [];
  current = record { blocks = []; heading = none };
  paragraph = [];
  list = none;
}

abbrev pub is_kept : DecisionSection → Bool
is_kept s = present s.heading || not (is_empty s.blocks)

abbrev pub parsed_of : Parsing → ParsedDecision
parsed_of p = record { sections = select is_kept (p.earlier ++ p.current ∷ []); title = p.title }

-- `parseDecisionMarkdown`
unfoldable pub parse_decision_markdown : String → ParsedDecision
unfolding split_lines line_of parse_line flush
parse_decision_markdown content =
    parsed_of (flush (parse_lines (map line_of (split_lines content)) unparsed))
