-- ===== src/Facts/Tags.antt =====
-- The tags of a fact go into the form's field and come back (factForm.ts).
use Prim.Native.Char.{Char, code}
use text.Mathlib.TextLemmas
use full_stack_resume.Common.{
  ℕ, String, ◌≡◌, refl, ap, ◌∙◌, inl, inr, Bool, false, not, List, [], ◌∷◌, map, arith, ◌==◌, eqb,
  Bool-cases, select, All,
}
use full_stack_resume.Common.Text.{
  trim, is_space, trim_idempotent, trim-space, any_char, trim-any_char,
}
use full_stack_resume.Navigation.{◌<>◌}
use full_stack_resume.Facts.{
  Fact, join_by, cons_first, split_commas, parse_fact_tags, replacement_fact_form,
}

abbrev is_comma : ℕ → Bool
is_comma c = eqb c b','

-- A tag is trimmed, not empty, and has no comma.
pub record IsTag (t : String) : Type 0 where
  pub trimmed : trim t ≡ t
  pub filled : (t == "") ≡ false
  pub one : any_char is_comma t ≡ false

separated : (r : String) → ", " <> r ≡ String.◌∷◌ "," (String.◌∷◌ " " r)
separated r =
    TextLemmas.cons-append "," " " r
    ∙ ap (λ (s : String). String.◌∷◌ "," s)
        (TextLemmas.cons-append " " "" r
          ∙ ap (λ (s : String). String.◌∷◌ " " s) (TextLemmas.nil-append r))

split_commas-append :
    (t s : String)
    → any_char is_comma t ≡ false
    → split_commas (t <> String.◌∷◌ "," s) ≡ t ∷ split_commas s
unfolding split_commas any_char
split_commas-append String.[] s h = rw (TextLemmas.nil-append (String.◌∷◌ "," s))
split_commas-append (String.◌∷◌ c t) s h =
    rw (TextLemmas.cons-append c t (String.◌∷◌ "," s)) (ground (arith, h, split_commas-append t s))

split_commas_one : (t : String) → any_char is_comma t ≡ false → split_commas t ≡ t ∷ []
unfolding split_commas any_char
split_commas_one String.[] h = refl
split_commas_one (String.◌∷◌ c t) h = ground (arith, h, split_commas_one t)

split_commas-cons : (u : String) → (x : String) × (xs : List String) × (split_commas u ≡ x ∷ xs)
unfolding split_commas
split_commas-cons String.[] = ("", [], refl)
split_commas-cons (String.◌∷◌ c u) = elim (Bool-cases (eqb (code c) b',')) [
  | inl h ↦ ("", split_commas u, rw h)
  | inr h ↦ let later = split_commas-cons u in (String.◌∷◌ c later.0, later.1, rw (h, later.2))
]

parse-space : (u : String) → parse_fact_tags (String.◌∷◌ " " u) ≡ parse_fact_tags u
unfolding parse_fact_tags
parse-space u =
    let parts = split_commas-cons u in
    rw parts.2 (rw (trim-space " " parts.0 (unfold is_space in refl)))

parse_one : (t : String) → IsTag t → parse_fact_tags t ≡ t ∷ []
unfolding parse_fact_tags
parse_one t h = rw (split_commas_one t h.one) (rw h.trimmed (rw h.filled))

parse-append :
    (t s : String) → IsTag t → parse_fact_tags (t <> String.◌∷◌ "," s) ≡ t ∷ parse_fact_tags s
unfolding parse_fact_tags
parse-append t s h = rw (split_commas-append t s h.one) (rw h.trimmed (rw h.filled))

-- Tags that are joined with commas and spaces are read back.
pub parse_fact_tags-join_by :
    (tags : List String) → All IsTag tags → parse_fact_tags (join_by ", " tags) ≡ tags
unfolding join_by
parse_fact_tags-join_by [] h = unfold parse_fact_tags trim in refl
parse_fact_tags-join_by (t ∷ []) h = parse_one t h.0
parse_fact_tags-join_by (t ∷ u ∷ tags) h =
    ap (λ s. parse_fact_tags (t <> s)) (separated (join_by ", " (u ∷ tags)))
    ∙ parse-append t (String.◌∷◌ " " (join_by ", " (u ∷ tags))) h.0
    ∙ ap (t ∷◌) (parse-space (join_by ", " (u ∷ tags)) ∙ parse_fact_tags-join_by (u ∷ tags) h.1)

cons_first-one :
    (c : Char) (ts : List String)
    → is_comma (code c) ≡ false
    → All (λ (t : String). any_char is_comma t ≡ false) ts
    → All (λ (t : String). any_char is_comma t ≡ false) (cons_first c ts)
unfolding any_char
cons_first-one c [] h k = (rw h, tt)
cons_first-one c (t ∷ ts) h k = (rw h k.0, k.1)

split_commas-one : (v : String) → All (λ (t : String). any_char is_comma t ≡ false) (split_commas v)
unfolding split_commas any_char
split_commas-one String.[] = (refl, tt)
split_commas-one (String.◌∷◌ c v) = elim (Bool-cases (eqb (code c) b',')) [
  | inl h ↦ rw h (refl, split_commas-one v)
  | inr h ↦ rw h (cons_first-one c (split_commas v) h (split_commas-one v))
]

-- What the field is read as are tags.
parse_fact_tags-IsTag : (v : String) → All IsTag (parse_fact_tags v)
unfolding parse_fact_tags
parse_fact_tags-IsTag v = of_parts (split_commas v) (split_commas-one v)
  where
    of_parts :
        (ts : List String)
        → All (λ (t : String). any_char is_comma t ≡ false) ts
        → All IsTag (select (λ (t : String). not (t == "")) (map trim ts))
    of_parts [] h = tt
    of_parts (t ∷ ts) h = elim (Bool-cases (trim t == "")) [
      | inl e ↦ rw e (of_parts ts h.1)
      | inr e ↦ rw e (
        record { trimmed = trim_idempotent t; filled = e; one = trim-any_char is_comma t h.0 },
        of_parts ts h.1,
      )
    ]

-- A fact that was written with the tags of a field keeps them when it is opened again for a replacement:
-- the field that is filled from its tags is read as the same tags, in the same order.
pub replacement_fact_form-tags :
    (field : String) (f : Fact)
    → f.tags ≡ parse_fact_tags field
    → parse_fact_tags (replacement_fact_form f).tags ≡ f.tags
unfolding replacement_fact_form
replacement_fact_form-tags field f e =
    rw e (parse_fact_tags-join_by (parse_fact_tags field) (parse_fact_tags-IsTag field))
