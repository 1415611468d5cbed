-- ===== src/Decision/Texts.antt =====
-- The texts of a parsed decision document, and what a flush does to them (decisionMarkdown.ts).
use full_stack_resume.Common.{
  String, ◌≡◌, refl, sym, ap, ◌∙◌, Bool, true, not, ◌&&◌, Option, none, some, List, [], ◌∷◌, ◌++◌,
  eqb, if◌then◌else◌, or_else, is_empty, flat_map,
}
use mathlib.Core.List.{append_assoc, append-nil}
use text.Mathlib.TextLemmas
use full_stack_resume.Navigation.{◌<>◌}
use full_stack_resume.Decision.{
  DecisionBlock, heading, items, paragraph, DecisionSection, Line, blank, heading_line, item_line,
  plain_line, Parsing, joined, paragraph_block, list_block, flush,
}

abbrev pub block_texts : DecisionBlock → List String
block_texts (heading text) = text ∷ []
block_texts (items xs) = xs
block_texts (paragraph text) = text ∷ []

abbrev pub option_texts : Option String → List String
option_texts none = []
option_texts (some t) = t ∷ []

abbrev pub blocks_texts : List DecisionBlock → List String
blocks_texts bs = flat_map block_texts bs

-- The texts of a section in their order: its heading, then those of its blocks.
abbrev pub section_texts : DecisionSection → List String
section_texts s = option_texts s.heading ++ blocks_texts s.blocks

-- The texts of the lines, but for the line that becomes the title: the first heading of level 1.
abbrev pub kept_texts : Bool → List Line → List String
kept_texts titled [] = []
kept_texts titled (blank ∷ ls) = kept_texts titled ls
kept_texts titled (heading_line level text ∷ ls) =
    if eqb level 1 && not titled then kept_texts true ls else text ∷ kept_texts titled ls
kept_texts titled (item_line text ∷ ls) = text ∷ kept_texts titled ls
kept_texts titled (plain_line text ∷ ls) = text ∷ kept_texts titled ls

module _ {ℓ} {A : Type ℓ} {B : Type ℓ} (f : A → List B) where
  pub flat_map-append : (xs ys : List A) → flat_map f (xs ++ ys) ≡ flat_map f xs ++ flat_map f ys
  flat_map-append [] ys = refl
  flat_map-append (x ∷ xs) ys =
      ap (λ zs. f x ++ zs) (flat_map-append xs ys)
      ∙ sym (append_assoc (f x) (flat_map f xs) (flat_map f ys))

joined-cons :
    (x : String) (xs ys : List String)
    → joined xs ≡ joined ys
    → (is_empty xs ≡ is_empty ys)
    → joined (x ∷ xs) ≡ joined (x ∷ ys)
joined-cons x [] [] h e = refl
joined-cons x [] (y ∷ ys) h e = cc
joined-cons x (y ∷ ys) [] h e = cc
joined-cons x (y ∷ ys) (z ∷ zs) h e = ap (λ t. x <> " " <> t) h

joined-front :
    (x : String) (xs rest : List String) → joined (joined (x ∷ xs) ∷ rest) ≡ joined (x ∷ xs ++ rest)
joined-front x [] rest = refl
joined-front x (y ∷ xs) [] = ap (λ t. x <> " " <> joined t) (sym (append-nil (y ∷ xs)))
joined-front x (y ∷ xs) (z ∷ zs) =
    TextLemmas.append_assoc x (" " <> joined (y ∷ xs)) (" " <> joined (z ∷ zs))
    ∙ ap (λ t. x <> t) (TextLemmas.append_assoc " " (joined (y ∷ xs)) (" " <> joined (z ∷ zs)))
    ∙ ap (λ t. x <> " " <> t) (joined-front y xs (z ∷ zs))

splice-is_empty :
    (before p after : List String)
    → is_empty (before ++ blocks_texts (paragraph_block p) ++ after)
      ≡ is_empty (before ++ p ++ after)
splice-is_empty [] [] after = refl
splice-is_empty [] (x ∷ xs) after = refl
splice-is_empty (b ∷ bs) p after = refl

-- Texts joined in the middle of others.
splice :
    (before p after : List String)
    → joined (before ++ blocks_texts (paragraph_block p) ++ after) ≡ joined (before ++ p ++ after)
splice [] [] after = refl
splice [] (x ∷ xs) after = joined-front x xs after
splice (b ∷ bs) p after =
    joined-cons b (bs ++ blocks_texts (paragraph_block p) ++ after) (bs ++ p ++ after)
      (splice bs p after) (splice-is_empty bs p after)

-- What a state of the loop has read so far.
abbrev pub state_texts : Parsing → List String
state_texts p =
    flat_map section_texts p.earlier ++ section_texts p.current ++ p.paragraph ++ or_else p.list []

list_block-texts : (l : Option (List String)) → blocks_texts (list_block l) ≡ or_else l []
list_block-texts none = refl
list_block-texts (some xs) = append-nil xs

module _ (p : Parsing) (rest : List String) where
  abbrev pub behind : List String
  behind = or_else p.list [] ++ rest

  abbrev pub front : List String
  front = flat_map section_texts p.earlier ++ section_texts p.current

  flush-list :
      state_texts (flush p) ++ rest ≡ front ++ blocks_texts (paragraph_block p.paragraph) ++ behind
  unfolding flush
  flush-list = simp (flat_map-append block_texts, append-nil, append_assoc, list_block-texts)

  state-list : state_texts p ++ rest ≡ front ++ p.paragraph ++ behind
  state-list = simp (append_assoc)

  pub flush-joined : joined (state_texts (flush p) ++ rest) ≡ joined (state_texts p ++ rest)
  flush-joined = ap joined flush-list ∙ splice front p.paragraph behind ∙ sym (ap joined state-list)
