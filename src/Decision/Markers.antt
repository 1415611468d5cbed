-- ===== src/Decision/Markers.antt =====
-- What a line of the decision document loses in its reading is its marker, and the lines are the document's
-- (decisionMarkdown.ts).
use mathlib.Core.Path.{subst}
use Prim.Native.Char.{Char, code}
use text.Mathlib.TextLemmas
use full_stack_resume.Common.{
  ℕ, String, ◌≡◌, refl, sym, ap, ◌∙◌, inl, inr, Bool, true, false, not, ◌&&◌, ◌||◌, Option, none,
  some, List, [], ◌∷◌, arith, eqb, leb, if◌then◌else◌, Bool-cases, ◌==◌, eq_iff,
}
use full_stack_resume.Common.Text.{is_space, trim, trim_start}
use full_stack_resume.Navigation.{◌<>◌}
use full_stack_resume.Decision.{
  Line, blank, heading_line, item_line, plain_line, line_of, split_lines, hashes, after_hashes,
  spaced_text, heading_match, item_match, any_terminator, cons_first, starts_line,
}

-- The characters of a marker: `#`, `-`, `*`, `+` and spaces.
abbrev pub is_marker : ℕ → Bool
is_marker c = eqb c b'#' || eqb c b'-' || eqb c b'*' || eqb c b'+' || is_space c

abbrev pub all_marker : String → Bool
all_marker String.[] = true
all_marker (String.◌∷◌ c s) = is_marker (code c) && all_marker s

abbrev pub line_text : Line → String
line_text blank = ""
line_text (heading_line level text) = text
line_text (item_line text) = text
line_text (plain_line text) = text

-- A text that begins with a marker.
abbrev pub IsMarked : String → String → Type 0
IsMarked line text = (marker : String) × (line ≡ marker <> text) × (all_marker marker ≡ true)

IsMarked-self : (s : String) → IsMarked s s
IsMarked-self s = ("", sym (TextLemmas.nil-append s), refl)

IsMarked-cons :
    (c : Char) (s t : String)
    → is_marker (code c) ≡ true
    → IsMarked s t
    → IsMarked (String.◌∷◌ c s) t
IsMarked-cons c s t h (m, e, k) = (
  String.◌∷◌ c m,
  ap (λ (x : String). String.◌∷◌ c x) e ∙ sym (TextLemmas.cons-append c m t),
  ground (arith, h, k),
)

trim_start-IsMarked : (s : String) → IsMarked s (trim_start s)
unfolding trim_start
trim_start-IsMarked String.[] = IsMarked-self ""
trim_start-IsMarked (String.◌∷◌ c s) = elim (Bool-cases (is_space (code c))) [
  | inl h ↦ rw h (IsMarked-cons c s (trim_start s) (ground (arith, h)) (trim_start-IsMarked s))
  | inr h ↦ rw h (IsMarked-self (String.◌∷◌ c s))
]

after_hashes-IsMarked : (s t : String) → IsMarked (after_hashes s) t → IsMarked s t
unfolding after_hashes
after_hashes-IsMarked String.[] t h = h
after_hashes-IsMarked (String.◌∷◌ c s) t h = elim (Bool-cases (eqb (code c) b'#')) [
  | inl k ↦ IsMarked-cons c s t (ground (arith, k)) (after_hashes-IsMarked s t (rw k at h))
  | inr k ↦ rw k at h
]

spaced_text-IsMarked : (s t : String) → spaced_text s ≡ some t → IsMarked s t
unfolding spaced_text
spaced_text-IsMarked String.[] t h = cc
spaced_text-IsMarked (String.◌∷◌ c s) t h =
    elim (Bool-cases (is_space (code c) && not (any_terminator (trim_start s)))) [
      | inl k ↦ spaced (rw k at h) (ground (arith, k))
      | inr k ↦ unspaced (rw k at h)
    ]
  where
    spaced : some (trim_start s) ≡ some t → is_space (code c) ≡ true → IsMarked (String.◌∷◌ c s) t
    spaced e k =
        subst (λ x. IsMarked (String.◌∷◌ c s) x) (cc e)
          (IsMarked-cons c s (trim_start s) (ground (arith, k)) (trim_start-IsMarked s))

    unspaced : none ≡ some t → IsMarked (String.◌∷◌ c s) t
    unspaced e = cc

text_of : Option (ℕ × String) → Option String
text_of none = none
text_of (some x) = some x.1

heading_match-IsMarked :
    (line : String) (h : ℕ × String) → heading_match line ≡ some h → IsMarked line h.1
unfolding heading_match text_of
heading_match-IsMarked line h e = elim (Bool-cases (leb 1 (hashes line) && leb (hashes line) 6)) [
  | inl k ↦ at_text (spaced_text (after_hashes line)) refl (rw k at e)
  | inr k ↦ unmatched (rw k at e)
]
  where
    unmatched : none ≡ some h → IsMarked line h.1
    unmatched q = cc

    at_text :
        (o : Option String)
        → spaced_text (after_hashes line) ≡ o
        → elim o [ none ↦ none | some t ↦ some (hashes line, t) ] ≡ some h
        → IsMarked line h.1
    at_text none p q = cc
    at_text (some t) p q =
        after_hashes-IsMarked line h.1
          (spaced_text-IsMarked (after_hashes line) h.1 (p ∙ ap text_of q))

item_match-IsMarked : (line t : String) → item_match line ≡ some t → IsMarked line t
unfolding item_match
item_match-IsMarked String.[] t e = cc
item_match-IsMarked (String.◌∷◌ c s) t e =
    elim (Bool-cases (eqb (code c) b'-' || eqb (code c) b'*' || eqb (code c) b'+')) [
      | inl k ↦ IsMarked-cons c s t (ground (arith, k)) (spaced_text-IsMarked s t (rw k at e))
      | inr k ↦ unmatched (rw k at e)
    ]
  where
    unmatched : none ≡ some t → IsMarked (String.◌∷◌ c s) t
    unmatched q = cc

-- What a line keeps is all that it has, but for the spaces around it and its marker.
pub line_of-IsMarked : (raw : String) → IsMarked (trim raw) (line_text (line_of raw))
unfolding line_of
line_of-IsMarked raw = elim (Bool-cases (trim raw == "")) [
  | inl h ↦ rw h (subst (λ x. IsMarked x "") (sym ((eq_iff (trim raw) "").0 h)) (IsMarked-self ""))
  | inr h ↦ rw h (at_heading (heading_match (trim raw)) refl)
]
  where
    at_item :
        (o : Option String)
        → item_match (trim raw) ≡ o
        → IsMarked
            (trim raw)
            (line_text (elim o [ some t ↦ item_line t | none ↦ plain_line (trim raw) ]))
    at_item none p = IsMarked-self (trim raw)
    at_item (some t) p = item_match-IsMarked (trim raw) t p

    at_heading :
        (o : Option (ℕ × String))
        → heading_match (trim raw) ≡ o
        → IsMarked (trim raw) (
            line_text (elim o [
              | some h ↦ heading_line h.0 h.1
              | none ↦ elim (item_match (trim raw)) [
                | some t ↦ item_line t
                | none ↦ plain_line (trim raw)
              ]
            ]))
    at_heading none p = at_item (item_match (trim raw)) refl
    at_heading (some h) p = heading_match-IsMarked (trim raw) h p

-- A text without its line ends.
abbrev pub unbroken : String → String
unbroken String.[] = ""
unbroken (String.◌∷◌ c s) =
    let rest = unbroken s in if eqb (code c) 10 || eqb (code c) 13 then rest else String.◌∷◌ c rest

abbrev pub unbroken_all : List String → String
unbroken_all [] = ""
unbroken_all (l ∷ ls) = unbroken l <> unbroken_all ls

cons_first-unbroken :
    (c : Char) (ls : List String)
    → unbroken_all (cons_first c ls) ≡ (
        if eqb (code c) 10 || eqb (code c) 13
        then unbroken_all ls
        else String.◌∷◌ c (unbroken_all ls))
cons_first-unbroken c [] = at_end (eqb (code c) 10 || eqb (code c) 13)
  where
    at_end :
        (b : Bool)
        → ((if b then "" else String.◌∷◌ c "") <> "") ≡ (if b then "" else String.◌∷◌ c "")
    at_end true = TextLemmas.nil-append ""
    at_end false = TextLemmas.append-nil (String.◌∷◌ c "")
cons_first-unbroken c (l ∷ ls) = at_end (eqb (code c) 10 || eqb (code c) 13)
  where
    at_end :
        (b : Bool)
        → ((if b then unbroken l else String.◌∷◌ c (unbroken l)) <> unbroken_all ls)
          ≡ (if b then unbroken_all (l ∷ ls) else String.◌∷◌ c (unbroken_all (l ∷ ls)))
    at_end true = refl
    at_end false = TextLemmas.cons-append c (unbroken l) (unbroken_all ls)

kept_unbroken :
    (c : Char) (s : String) (ls : List String) (r : Bool)
    → (eqb (code c) 10 || eqb (code c) 13) ≡ r
    → unbroken_all ls ≡ unbroken s
    → unbroken_all (cons_first c ls) ≡ (if r then unbroken s else String.◌∷◌ c (unbroken s))
kept_unbroken c s ls r e h =
    cons_first-unbroken c ls
    ∙ ap (λ (b : Bool). if b then unbroken_all ls else String.◌∷◌ c (unbroken_all ls)) e
    ∙ ap (λ (u : String). if r then u else String.◌∷◌ c u) h

return_unbroken :
    (c : Char) (s : String) (ls : List String)
    → eqb (code c) 10 ≡ false
    → (r : Bool) → eqb (code c) 13 ≡ r
    → (t : Bool) → unbroken_all ls ≡ unbroken s
    → unbroken_all (if r && t then ls else cons_first c ls)
      ≡ (if r then unbroken s else String.◌∷◌ c (unbroken s))
return_unbroken c s ls n true e true h = h
return_unbroken c s ls n true e false h = kept_unbroken c s ls true (ground (arith, n, e)) h
return_unbroken c s ls n false e t h = kept_unbroken c s ls false (ground (arith, n, e)) h

-- The lines are all of the document, but for its line ends.
pub split_lines-unbroken : (s : String) → unbroken_all (split_lines s) ≡ unbroken s
unfolding split_lines
split_lines-unbroken String.[] = TextLemmas.nil-append ""
split_lines-unbroken (String.◌∷◌ c s) = elim (Bool-cases (eqb (code c) 10)) [
  | inl h ↦ rw h (TextLemmas.nil-append (unbroken_all (split_lines s)) ∙ split_lines-unbroken s)
  | inr h ↦ rw h (
      return_unbroken c s (split_lines s) h (eqb (code c) 13) refl (starts_line s)
        (split_lines-unbroken s))
]
