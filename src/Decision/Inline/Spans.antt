-- ===== src/Decision/Inline/Spans.antt =====
-- What the spans of a text are, and that they are the text (`parseInline` of decisionMarkdown.ts).
use mathlib.Core.Path.{subst}
use mathlib.Core.List.{append_assoc, append-nil}
use full_stack_resume.Common.{
  ℕ, zero, suc, ◌+◌, ◌-◌, ◌≡◌, refl, sym, ap, ◌∙◌, inl, inr, Bool, true, false, not, ◌&&◌, none,
  some, List, [], ◌∷◌, ◌++◌, arith, eqb, if◌then◌else◌, Bool-cases, Option-cases, length,
  length-append, all, is_empty, flat_map,
}
use full_stack_resume.Decision.Inline.{
  Points, InlineSpan, code, strong, text, link, run, after, starts_with, drop, is_tick, is_star,
  is_bracket, ends_target, tick, stars, middle, code_match, strong_match, scheme, target_match,
  link_match, opening, plain, spans_from, parse_inline,
}

-- A span as Markdown writes it.
abbrev pub markdown : InlineSpan → Points
markdown (code t) = b'`' ∷ (t ++ tick)
markdown (strong t) = stars ++ (t ++ stars)
markdown (text t) = t
markdown (link href label) = b'[' ∷ (label ++ (middle ++ (href ++ b')' ∷ [])))

abbrev pub markdown_all : List InlineSpan → Points
markdown_all spans = flat_map markdown spans

-- A text that is not empty and has no stopping character.
abbrev pub is_run : (ℕ → Bool) → Points → Bool
is_run stops t = not (is_empty t) && all (λ c. not (stops c)) t

-- An address that begins with `http://` or `https://` and goes on, without a space or a `)`.
abbrev pub is_web_target : Points → Bool
is_web_target href =
    not (eqb (scheme href) 0)
    && not (is_empty (drop (scheme href) href))
    && all (λ c. not (ends_target c)) href

-- What a span can be.
abbrev pub is_span : InlineSpan → Bool
is_span (code t) = is_run is_tick t
is_span (strong t) = is_run is_star t
is_span (text t) = not (is_empty t)
is_span (link href label) = is_web_target href && is_run is_bracket label

run-after : (p : ℕ → Bool) (s : Points) → run p s ++ after p s ≡ s
unfolding run after
run-after p [] = refl
run-after p (c ∷ s) = elim (Bool-cases (p c)) [
  | inl h ↦ rw h
  | inr h ↦ rw h (ap (c ∷◌) (run-after p s))
]

all-run : (p : ℕ → Bool) (s : Points) → all (λ c. not (p c)) (run p s) ≡ true
unfolding run
all-run p [] = refl
all-run p (c ∷ s) = elim (Bool-cases (p c)) [ inl h ↦ rw h | inr h ↦ rw (h, h) (all-run p s) ]

starts_with-drop : (p s : Points) → starts_with p s ≡ true → s ≡ p ++ drop (length p) s
unfolding starts_with drop
starts_with-drop [] s h = refl
starts_with-drop (c ∷ p) [] h = cc
starts_with-drop (c ∷ p) (d ∷ s) h = ground (arith, starts_with-drop p s)

drop-append : (p s : Points) → drop (length p) (p ++ s) ≡ s
unfolding drop
drop-append [] s = refl
drop-append (c ∷ p) s = drop-append p s

-- A match of a text: the text begins with the span as it is written, of the length that is given.
abbrev Begins : Points → InlineSpan × ℕ → Type 0
Begins s m =
    (rest : Points) × (s ≡ markdown m.0 ++ rest)
    × (m.1 ≡ length (markdown m.0))
    × (is_span m.0 ≡ true)

eqb→eq : (a b : ℕ) → eqb a b ≡ true → a ≡ b
eqb→eq a b h = ground arith

-- A delimited run: the run, its closing characters, and the rest.
delimited :
    (p : ℕ → Bool) (close s : Points)
    → starts_with close (after p s) ≡ true
    → s ≡ run p s ++ (close ++ drop (length close) (after p s))
delimited p close s h =
    sym (run-after p s) ∙ ap (run p s ++◌) (starts_with-drop close (after p s) h)

if-some {ℓ} :
    {A : Type ℓ} (b : Bool) {a a' : A}
    → (if b then some a else none) ≡ some a'
    → (b ≡ true) × (a ≡ a')
if-some true h = (refl, cc)
if-some false h = cc

-- A match that is made under a test begins the text if its span does whenever the test holds.
Begins-if :
    (b : Bool) (s : Points) (x : InlineSpan × ℕ) {m : InlineSpan × ℕ}
    → (b ≡ true → Begins s x)
    → (if b then some x else none) ≡ some m
    → Begins s m
Begins-if b s x k h = let both = if-some b h in subst (Begins s) both.1 (k both.0)

code_match-Begins : (s : Points) {m : InlineSpan × ℕ} → code_match s ≡ some m → Begins (b'`' ∷ s) m
unfolding code_match
code_match-Begins s =
    let t = run is_tick s in
    Begins-if (not (is_empty t) && starts_with tick (after is_tick s)) (b'`' ∷ s)
      (code t, length t + 2)
      λ e. (
        drop 1 (after is_tick s),
        ap (b'`' ∷◌) (delimited is_tick tick s (ground (arith, e)) ∙ sym (append_assoc t tick _)),
        omega (arith, length-append t tick),
        ground (arith, e, all-run is_tick s),
      )

strong_match-Begins : (s : Points) {m : InlineSpan × ℕ} → strong_match s ≡ some m → Begins s m
unfolding strong_match
strong_match-Begins s =
    let t = run is_star (drop 2 s) in
    Begins-if
      (starts_with stars s && not (is_empty t) && starts_with stars (after is_star (drop 2 s))) s
      (strong t, length t + 4)
      λ e. (
        drop 2 (after is_star (drop 2 s)),
        starts_with-drop stars s (ground (arith, e))
            ∙ ap (λ u. stars ++ u)
                (delimited is_star stars (drop 2 s) (ground (arith, e))
                  ∙ sym (append_assoc t stars _)),
        omega (arith, length-append t stars),
        ground (arith, e, all-run is_star (drop 2 s)),
      )

target_match-Begins :
    (label s : Points) {m : InlineSpan × ℕ}
    → is_run is_bracket label ≡ true
    → target_match label s ≡ some m
    → Begins (b'[' ∷ (label ++ (middle ++ s))) m
unfolding target_match
target_match-Begins label s g =
    let target = run ends_target s in
    Begins-if
      (not (eqb (scheme target) 0)
        && not (is_empty (drop (scheme target) target))
        && starts_with (b')' ∷ []) (after ends_target s))
      (b'[' ∷ (label ++ (middle ++ s))) (link target label, length label + length target + 4)
      λ e. (
        drop 1 (after ends_target s),
        ap (λ u. b'[' ∷ (label ++ (middle ++ u)))
              (delimited ends_target (b')' ∷ []) s (ground (arith, e)))
            ∙ simp append_assoc,
        omega (
          arith,
          length-append label (middle ++ (target ++ b')' ∷ [])),
          length-append target (b')' ∷ []),
        ),
        ground (arith, e, g, all-run ends_target s),
      )

link_match-Begins : (s : Points) {m : InlineSpan × ℕ} → link_match s ≡ some m → Begins (b'[' ∷ s) m
unfolding link_match
link_match-Begins s {m} h =
    let label = run is_bracket s in
    elim (Bool-cases (not (is_empty label) && starts_with middle (after is_bracket s))) [
      | inr e ↦ cc (rw e at h)
      | inl e ↦
          subst (λ u. Begins (b'[' ∷ u) m) (sym (delimited is_bracket middle s (ground (arith, e))))
            (target_match-Begins label (drop 2 (after is_bracket s))
              (ground (arith, e, all-run is_bracket s)) (rw e at h))
    ]

opening-Begins : (s : Points) {m : InlineSpan × ℕ} → opening s ≡ some m → Begins s m
unfolding opening
opening-Begins [] h = cc
opening-Begins (c ∷ s) h = elim (Bool-cases (eqb c b'`')) [
  | inl e ↦ rw (eqb→eq c b'`' e) (code_match-Begins s (rw e at h))
  | inr e ↦ elim (Bool-cases (eqb c b'*')) [
    | inl k ↦ strong_match-Begins (c ∷ s) (rw k at (rw e at h))
    | inr k ↦ elim (Bool-cases (eqb c b'[')) [
      | inl l ↦ rw (eqb→eq c b'[' l) (link_match-Begins s (rw l at (rw k at (rw e at h))))
      | inr l ↦ cc (rw l at (rw k at (rw e at h)))
    ]
  ]
]

-- No text is lost or moved, and every span is one.
abbrev Reads : Points → List InlineSpan → Type 0
Reads s spans = (markdown_all spans ≡ s) × (all is_span spans ≡ true)

plain-Reads :
    (s : Points) (spans : List InlineSpan) (t : Points)
    → Reads t spans
    → Reads (s ++ t) (plain s ++ spans)
plain-Reads [] spans t r = r
plain-Reads (c ∷ s) spans t r = (ap (c ∷ s ++◌) r.0, r.1)

match-Reads :
    (s : Points) (m : InlineSpan × ℕ) (spans : List InlineSpan)
    → Begins s m
    → Reads (drop m.1 s) spans
    → Reads s (m.0 ∷ spans)
match-Reads s m spans (rest, e, n, p) r =
    let left : drop m.1 s ≡ rest = rw (n, e) (drop-append (markdown m.0) rest) in
    (ap (markdown m.0 ++◌) (r.0 ∙ left) ∙ sym e, ground (arith, p, r.1))

-- a match is not empty
written-suc :
    (m : InlineSpan × ℕ) → m.1 ≡ length (markdown m.0) → is_span m.0 ≡ true → m.1 ≡ suc (m.1 - 1)
written-suc (code t, n) e p = omega (arith, e)
written-suc (strong t, n) e p = omega (arith, e)
written-suc (text [], n) e p = cc
written-suc (text (c ∷ s), n) e p = omega (arith, e)
written-suc (link h l, n) e p = omega (arith, e)

spans_from-Reads :
    (pending : Points) (skip : ℕ) (s : Points)
    → Reads (pending ++ drop skip s) (spans_from pending skip s)
unfolding spans_from drop
spans_from-Reads pending zero [] =
    rw (sym (append-nil (plain pending))) (plain-Reads pending [] [] (refl, refl))
spans_from-Reads pending (suc k) [] =
    rw (sym (append-nil (plain pending))) (plain-Reads pending [] [] (refl, refl))
spans_from-Reads pending (suc k) (c ∷ s) = spans_from-Reads pending k s
spans_from-Reads pending zero (c ∷ s) = elim (Option-cases (opening (c ∷ s))) [
  | inl e ↦ rw (e, spans_from) (rw append_assoc at (spans_from-Reads (pending ++ c ∷ []) zero s))
  | inr (m, e) ↦
      let begins = opening-Begins (c ∷ s) e in
      let later : List InlineSpan = spans_from [] (m.1 - 1) s in
      rw (e, spans_from)
        (plain-Reads pending (m.0 ∷ later) (c ∷ s) (
          match-Reads (c ∷ s) m later begins (
            subst (λ n. Reads (drop n (c ∷ s)) later) (sym (written-suc m begins.2 begins.3))
              (spans_from-Reads [] (m.1 - 1) s))))
]

-- The spans of a text are the text: written as Markdown one after the other they give it back, no
-- character lost or moved. And each is what it says: code, strong text and labels are not empty and have
-- no delimiter of their own, plain text is not empty, and a link leads to an http or https address
-- without a space or a closing parenthesis.
pub parse_inline-markdown :
    (s : Points) → (markdown_all (parse_inline s) ≡ s) × (all is_span (parse_inline s) ≡ true)
unfolding parse_inline drop
parse_inline-markdown s = spans_from-Reads [] 0 s
