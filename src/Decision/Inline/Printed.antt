-- ===== src/Decision/Inline/Printed.antt =====
-- Every marked span of a text is found (`parseInline` of decisionMarkdown.ts): spans written as Markdown
-- are read back.
use mathlib.Core.List.{append_assoc, append-nil}
use full_stack_resume.Common.{
  ℕ, suc, ◌+◌, ◌-◌, ◌≡◌, refl, sym, ap, ◌∙◌, Bool, true, false, not, ◌&&◌, ◌||◌, none, some, List,
  [], ◌∷◌, ◌++◌, arith, eqb, length, length-append, all, is_empty,
}
use full_stack_resume.Common.Text.{is_space}
use full_stack_resume.Decision.Inline.{
  Points, InlineSpan, code, strong, text, link, run, after, starts_with, drop, is_tick, is_star,
  is_bracket, ends_target, tick, stars, middle, code_match, strong_match, target_match, link_match,
  opening, plain, spans_from, parse_inline,
}
use full_stack_resume.Decision.Inline.Spans.{markdown, markdown_all, is_run, is_web_target, is_span}

-- A character with which a mark begins.
abbrev pub is_mark : ℕ → Bool
is_mark c = eqb c b'`' || eqb c b'*' || eqb c b'['

abbrev pub is_text : List InlineSpan → Bool
is_text (text t ∷ spans) = true
is_text _ = false

-- Plain text has no character with which a mark begins, and no two texts stand side by side.
abbrev pub is_separate : List InlineSpan → Bool
is_separate [] = true
is_separate (text t ∷ spans) =
    all (λ c. not (is_mark c)) t && not (is_text spans) && is_separate spans
is_separate (_ ∷ spans) = is_separate spans

module _ (p : ℕ → Bool) (d : ℕ) (r : Points) (stop : p d ≡ true) where
  run-closed : (t : Points) → all (λ c. not (p c)) t ≡ true → run p (t ++ d ∷ r) ≡ t
  unfolding run
  run-closed [] h = rw stop
  run-closed (c ∷ t) h = ground (arith, h, run-closed t)

  after-closed : (t : Points) → all (λ c. not (p c)) t ≡ true → after p (t ++ d ∷ r) ≡ d ∷ r
  unfolding after
  after-closed [] h = rw stop
  after-closed (c ∷ t) h = ground (arith, h, after-closed t)

starts_with-append : (p s : Points) → starts_with p (p ++ s) ≡ true
unfolding starts_with
starts_with-append [] s = refl
starts_with-append (c ∷ p) s = ground (arith, starts_with-append p s)

code_match-written :
    (t r : Points)
    → is_run is_tick t ≡ true
    → code_match (t ++ (tick ++ r)) ≡ some (code t, length t + 2)
unfolding code_match
code_match-written t r h =
    rw
      (
        run-closed is_tick b'`' r refl t (ground (arith, h)),
        after-closed is_tick b'`' r refl t (ground (arith, h)),
      )
      (rw (starts_with-append tick r) (ground (arith, h)))

strong_match-written :
    (t r : Points)
    → is_run is_star t ≡ true
    → strong_match (stars ++ (t ++ (stars ++ r))) ≡ some (strong t, length t + 4)
unfolding strong_match drop
strong_match-written t r h =
    rw
      (
        run-closed is_star b'*' (b'*' ∷ r) refl t (ground (arith, h)),
        after-closed is_star b'*' (b'*' ∷ r) refl t (ground (arith, h)),
      )
      (rw (starts_with-append stars r, starts_with-append stars (t ++ (stars ++ r)))
        (ground (arith, h)))

paren_ends : ends_target b')' ≡ true
unfolding is_space
paren_ends = refl

target_match-written :
    (href label r : Points)
    → is_web_target href ≡ true
    → target_match label (href ++ b')' ∷ r) ≡ some (link href label, length label + length href + 4)
unfolding target_match
target_match-written href label r h =
    rw
      (
        run-closed ends_target b')' r paren_ends href (ground (arith, h)),
        after-closed ends_target b')' r paren_ends href (ground (arith, h)),
      )
      (rw (starts_with-append (b')' ∷ []) r) (ground (arith, h)))

link_match-written :
    (href label r : Points)
    → is_web_target href ≡ true
    → is_run is_bracket label ≡ true
    → link_match (label ++ (middle ++ (href ++ b')' ∷ r)))
      ≡ some (link href label, length label + length href + 4)
unfolding link_match drop
link_match-written href label r h k =
    let back = b'(' ∷ (href ++ b')' ∷ r) in
    rw
      (
        run-closed is_bracket b']' back refl label (ground (arith, k)),
        after-closed is_bracket b']' back refl label (ground (arith, k)),
      )
      (rw (starts_with-append middle (href ++ b')' ∷ r))
        (ground (arith, k, target_match-written href label r h)))

-- What a match takes is passed over.
skip-append : (w r : Points) → spans_from [] (length w) (w ++ r) ≡ spans_from [] 0 r
unfolding spans_from
skip-append [] r = refl
skip-append (c ∷ w) r = skip-append w r

marked :
    (pending : Points) (c : ℕ) (w r : Points) (span : InlineSpan) (n : ℕ)
    → n ≡ suc (length w)
    → opening (c ∷ (w ++ r)) ≡ some (span, n)
    → spans_from pending 0 (c ∷ (w ++ r)) ≡ plain pending ++ span ∷ spans_from [] 0 r
unfolding spans_from
marked pending c w r span n e h =
    let past : n - 1 ≡ length w = omega (arith, e) in
    rw (h, spans_from)
      (ap (λ k. plain pending ++ span ∷ spans_from [] k (w ++ r)) past
        ∙ ap (λ ss. plain pending ++ span ∷ ss) (skip-append w r))

-- A span that is not plain text, read off the front.
span-step :
    (pending : Points) (span : InlineSpan) (r : Points)
    → is_text (span ∷ []) ≡ false
    → is_span span ≡ true
    → spans_from pending 0 (markdown span ++ r) ≡ plain pending ++ span ∷ spans_from [] 0 r
unfolding opening
span-step pending (code t) r x h =
    marked pending b'`' (t ++ tick) r (code t) (length t + 2) (omega (arith, length-append t tick))
      (rw append_assoc (code_match-written t r h))
span-step pending (strong t) r x h =
    marked pending b'*' (b'*' ∷ (t ++ stars)) r (strong t) (length t + 4)
      (omega (arith, length-append t stars)) (rw append_assoc (strong_match-written t r h))
span-step pending (text t) r x h = cc
span-step pending (link href label) r x h =
    marked pending b'[' (label ++ (middle ++ (href ++ b')' ∷ []))) r (link href label)
      (length label + length href + 4)
      (omega (
        arith,
        length-append label (middle ++ (href ++ b')' ∷ [])),
        length-append href (b')' ∷ []),
      ))
      (simp append_assoc (link_match-written href label r (ground (arith, h)) (ground (arith, h))))

opening_plain : (c : ℕ) (s : Points) → is_mark c ≡ false → opening (c ∷ s) ≡ none
unfolding opening
opening_plain c s h = ground (arith, h)

text-step :
    (pending t r : Points)
    → all (λ c. not (is_mark c)) t ≡ true
    → spans_from pending 0 (t ++ r) ≡ spans_from (pending ++ t) 0 r
unfolding spans_from
text-step pending [] r h = rw append-nil
text-step pending (c ∷ t) r h =
    let rest = text-step (pending ++ c ∷ []) t r (ground (arith, h)) in
    rw (opening_plain c (t ++ r) (ground (arith, h)), spans_from) (rw append_assoc at rest)

abbrev ReadsBack : Points → List InlineSpan → Type 0
ReadsBack pending spans = spans_from pending 0 (markdown_all spans) ≡ plain pending ++ spans

span-ReadsBack :
    (pending : Points) (span : InlineSpan) (spans : List InlineSpan)
    → is_text (span ∷ []) ≡ false
    → is_span span ≡ true
    → ReadsBack [] spans
    → ReadsBack pending (span ∷ spans)
span-ReadsBack pending span spans x h ih =
    span-step pending span (markdown_all spans) x h ∙ ap (λ ss. plain pending ++ span ∷ ss) ih

written_all-ReadsBack :
    (spans : List InlineSpan) (pending : Points)
    → (is_empty pending || not (is_text spans)) ≡ true
    → is_separate spans ≡ true
    → all is_span spans ≡ true
    → ReadsBack pending spans
unfolding spans_from
written_all-ReadsBack [] pending e k h = sym (append-nil (plain pending))
written_all-ReadsBack (code t ∷ spans) pending e k h =
    span-ReadsBack pending (code t) spans refl (ground (arith, h))
      (written_all-ReadsBack spans [] refl k (ground (arith, h)))
written_all-ReadsBack (strong t ∷ spans) pending e k h =
    span-ReadsBack pending (strong t) spans refl (ground (arith, h))
      (written_all-ReadsBack spans [] refl k (ground (arith, h)))
written_all-ReadsBack (link l t ∷ spans) pending e k h =
    span-ReadsBack pending (link l t) spans refl (ground (arith, h))
      (written_all-ReadsBack spans [] refl k (ground (arith, h)))
written_all-ReadsBack (text t ∷ spans) (d ∷ pending) e k h = cc
written_all-ReadsBack (text [] ∷ spans) [] e k h = cc
written_all-ReadsBack (text (c ∷ t) ∷ spans) [] e k h =
    text-step [] (c ∷ t) (markdown_all spans) (ground (arith, k))
    ∙ written_all-ReadsBack spans (c ∷ t) (ground (arith, k)) (ground (arith, k))
        (ground (arith, h))

-- Every mark is found: spans that are each what it says, where plain text has none of the characters with
-- which a mark begins and no two texts stand side by side, are read back from their Markdown as they were.
pub parse_inline-markdown_all :
    (spans : List InlineSpan)
    → all is_span spans ≡ true
    → is_separate spans ≡ true
    → parse_inline (markdown_all spans) ≡ spans
unfolding parse_inline
parse_inline-markdown_all spans h k = written_all-ReadsBack spans [] refl k h
