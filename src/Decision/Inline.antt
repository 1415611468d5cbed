-- ===== src/Decision/Inline.antt =====
-- The inline spans of a text (`parseInline` of
-- frontend/src/features/ready/components/decisionMarkdown.ts). A text is the list of its code points;
-- the regular expression is written out as functions, one for each alternative.
pub mod Spans
pub mod Printed
use full_stack_resume.Common.{
  ℕ, zero, suc, ◌+◌, ◌-◌, Bool, true, false, not, ◌&&◌, ◌||◌, Option, none, some, List, [], ◌∷◌,
  ◌++◌, eqb, if◌then◌else◌, length, is_empty,
}
use full_stack_resume.Common.Text.{is_space}

abbrev pub Points : Type 0
Points = List ℕ

pub data InlineSpan : Type 0 where
  code strong text : Points → InlineSpan
  link : (href label : Points) → InlineSpan

-- The longest run at the front without a stopping character, and what follows it.
unfoldable pub run : (ℕ → Bool) → Points → Points
run stops [] = []
run stops (c ∷ s) = let more = run stops s in if stops c then [] else c ∷ more

unfoldable pub after : (ℕ → Bool) → Points → Points
after stops [] = []
after stops (c ∷ s) = let more = after stops s in if stops c then c ∷ s else more

-- Whether a text begins with another, and what follows that.
unfoldable pub starts_with : Points → Points → Bool
starts_with [] s = true
starts_with (c ∷ p) [] = false
starts_with (c ∷ p) (d ∷ s) = eqb d c && starts_with p s

unfoldable pub drop : ℕ → Points → Points
drop zero s = s
drop (suc n) [] = []
drop (suc n) (c ∷ s) = drop n s

abbrev pub is_tick : ℕ → Bool
is_tick c = eqb c b'`'

abbrev pub is_star : ℕ → Bool
is_star c = eqb c b'*'

abbrev pub is_bracket : ℕ → Bool
is_bracket c = eqb c b']'

-- `[\s)]`
abbrev pub ends_target : ℕ → Bool
ends_target c = is_space c || eqb c b')'

abbrev pub tick : Points
tick = b'`' ∷ []

abbrev pub stars : Points
stars = b'*' ∷ b'*' ∷ []

abbrev pub middle : Points
middle = b']' ∷ b'(' ∷ []

abbrev pub http : Points
http = b'h' ∷ b't' ∷ b't' ∷ b'p' ∷ b':' ∷ b'/' ∷ b'/' ∷ []

abbrev pub https : Points
https = b'h' ∷ b't' ∷ b't' ∷ b'p' ∷ b's' ∷ b':' ∷ b'/' ∷ b'/' ∷ []

-- A match: its span and the length of the whole.
abbrev pub Match : Type 0
Match = Option (InlineSpan × ℕ)

-- "`([^`]+)`", after the first character
unfoldable pub code_match : Points → Match
unfolding run after starts_with
code_match s =
    let t = run is_tick s in
    if not (is_empty t) && starts_with tick (after is_tick s)
    then some (code t, length t + 2)
    else none

-- `\*\*([^*]+)\*\*`
unfoldable pub strong_match : Points → Match
unfolding run after starts_with drop
strong_match s =
    let t = run is_star (drop 2 s) in
    if starts_with stars s && not (is_empty t) && starts_with stars (after is_star (drop 2 s))
    then some (strong t, length t + 4)
    else none

-- the length of `https?:\/\/` at the front, or zero
unfoldable pub scheme : Points → ℕ
unfolding starts_with
scheme s =
    if starts_with http s then length http else if starts_with https s then length https else 0

-- `(https?:\/\/[^\s)]+)\)`, with the label and what follows it; no character of
-- the scheme ends a target, so it is looked for in the run
unfoldable pub target_match : Points → Points → Match
unfolding run after starts_with drop scheme
target_match label s =
    let target = run ends_target s in
    if not (eqb (scheme target) 0)
      && not (is_empty (drop (scheme target) target))
      && starts_with (b')' ∷ []) (after ends_target s)
    then some (link target label, length label + length target + 4)
    else none

-- `\[([^\]]+)\]\((https?:\/\/[^\s)]+)\)`, after the first character
unfoldable pub link_match : Points → Match
unfolding run after starts_with drop target_match
link_match s =
    let label = run is_bracket s in
    if not (is_empty label) && starts_with middle (after is_bracket s)
    then target_match label (drop 2 (after is_bracket s))
    else none

-- `INLINE` at the front of a text
unfoldable pub opening : Points → Match
opening [] = none
opening (c ∷ s) =
    if eqb c b'`'
    then code_match s
    else if eqb c b'*'
    then strong_match (c ∷ s)
    else if eqb c b'['
    then link_match s
    else none

-- `text.slice(last, start)`, if it is not empty
abbrev pub plain : Points → List InlineSpan
plain [] = []
plain (c ∷ s) = text (c ∷ s) ∷ []

-- `parseInline` from an index on: `pending` is the text since `last`, and of a match just found `skip`
-- characters are still ahead.
unfoldable pub spans_from : (pending : Points) (skip : ℕ) → Points → List InlineSpan
spans_from pending skip [] = plain pending
spans_from pending (suc k) (c ∷ s) = spans_from pending k s
spans_from pending zero (c ∷ s) =
    let rest = spans_from (pending ++ c ∷ []) zero s in
    elim (opening (c ∷ s)) [
      | some m ↦ plain pending ++ m.0 ∷ spans_from [] (m.1 - 1) s
      | none ↦ rest
    ]

-- `parseInline`
unfoldable pub parse_inline : Points → List InlineSpan
unfolding spans_from opening code_match strong_match link_match
parse_inline s = spans_from [] 0 s
