-- ===== src/Navigation/Encode.antt =====
-- ECMAScript's `encodeURIComponent`, which routePaths.ts puts ids through: unreserved characters stay
-- and every other becomes the escaped bytes of its UTF-8 form. A `Char` here is a code point, so the
-- lone surrogates that the function throws on do not occur.
use Prim.Native.Char.{Char, code}
use Prim.Native.String.{String, [], ◌∷◌}
use full_stack_resume.Common.{
  ℕ, zero, suc, ◌+◌, ◌/◌, ◌%◌, ◌≡◌, refl, Bool, true, ◌&&◌, ◌||◌, arith, ltb, leb, if◌then◌else◌,
  Bool-cases, inl, inr,
}

unfoldable pub is_unreserved : ℕ → Bool
is_unreserved c =
    (leb b'A' c && leb c b'Z')
    || leb b'a' c && leb c b'z'
    || leb b'0' c && leb c b'9'
    || leb b'-' c && leb c b'.'
    || leb b'_' c && leb c b'_'
    || leb b'!' c && leb c b'!'
    || leb b'~' c && leb c b'~'
    || leb 39 c && leb c 42

nth_char : ℕ → String → Char
nth_char n [] = "0"
nth_char zero (c ∷ s) = c
nth_char (suc n) (c ∷ s) = nth_char n s

hex : ℕ → Char
unfolding nth_char
hex n = nth_char n "0123456789ABCDEF"

-- `%XY` before the rest
escape : ℕ → String → String
unfolding hex
escape b rest = "%" ∷ hex (b / 16) ∷ hex (b % 16) ∷ rest

-- the bytes of a code point in UTF-8, escaped
escape_code : ℕ → String → String
unfolding escape
escape_code c rest =
    if ltb c 0x80
    then escape c rest
    else if ltb c 0x800
    then escape (0xc0 + c / 64) (escape (0x80 + c % 64) rest)
    else if ltb c 0x10000
    then escape (0xe0 + c / 4096) (escape (0x80 + c / 64 % 64) (escape (0x80 + c % 64) rest))
    else escape (0xf0 + c / 262144)
        (escape (0x80 + c / 4096 % 64) (escape (0x80 + c / 64 % 64) (escape (0x80 + c % 64) rest)))

unfoldable pub encode : String → String
unfolding is_unreserved escape_code
encode [] = []
encode (c ∷ s) =
    let rest = encode s in if is_unreserved (code c) then c ∷ rest else escape_code (code c) rest

-- Text that a URL takes as part of one segment: unreserved characters and `%`.
abbrev pub IsSegment : String → Type 0
IsSegment [] = Unit
IsSegment (c ∷ s) =
    ((is_unreserved (code c) || leb 37 (code c) && leb (code c) 37) ≡ true) × IsSegment s

abbrev IsPlain : String → Type 0
IsPlain [] = Unit
IsPlain (c ∷ s) = (is_unreserved (code c) ≡ true) × IsPlain s

nth_char-plain : (n : ℕ) (s : String) → IsPlain s → is_unreserved (code (nth_char n s)) ≡ true
unfolding nth_char is_unreserved
nth_char-plain n [] h = refl
nth_char-plain zero (c ∷ s) (p, h) = p
nth_char-plain (suc n) (c ∷ s) (p, h) = nth_char-plain n s h

hex-plain : (n : ℕ) → is_unreserved (code (hex n)) ≡ true
unfolding hex is_unreserved
hex-plain n = nth_char-plain n "0123456789ABCDEF" (
  refl,
  (
    refl,
    (
      refl,
      (
        refl,
        (
          refl,
          (
            refl,
            (refl, (refl, (refl, (refl, (refl, (refl, (refl, (refl, (refl, (refl, tt)))))))))),
          ),
        ),
      ),
    ),
  ),
)

escape-IsSegment : (b : ℕ) (rest : String) → IsSegment rest → IsSegment (escape b rest)
unfolding escape
escape-IsSegment b rest h =
    (ground arith, (ground (arith, hex-plain (b / 16)), (ground (arith, hex-plain (b % 16)), h)))

escape_code-IsSegment : (c : ℕ) (rest : String) → IsSegment rest → IsSegment (escape_code c rest)
unfolding escape_code
escape_code-IsSegment c rest h =
    let tail = escape (0x80 + c % 64) rest in
    let two = escape (0x80 + c / 64 % 64) tail in
    let three = escape (0x80 + c / 4096 % 64) two in
    let last = escape-IsSegment (0x80 + c % 64) rest h in
    let middle = escape-IsSegment (0x80 + c / 64 % 64) tail last in
    elim (Bool-cases (ltb c 0x80)) [
      | inl a ↦ rw a (escape-IsSegment c rest h)
      | inr a ↦ rw a (elim (Bool-cases (ltb c 0x800)) [
        | inl b ↦ rw b (escape-IsSegment (0xc0 + c / 64) tail last)
        | inr b ↦ rw b (elim (Bool-cases (ltb c 0x10000)) [
          | inl d ↦ rw d (escape-IsSegment (0xe0 + c / 4096) two middle)
          | inr d ↦ rw d (
              escape-IsSegment (0xf0 + c / 262144) three
                (escape-IsSegment (0x80 + c / 4096 % 64) two middle))
        ])
      ])
    ]

-- Every id becomes one segment of a path: the encoded text holds unreserved characters and percent
-- signs only, so no slash, question mark, hash or space.
pub encode-IsSegment : (s : String) → IsSegment (encode s)
unfolding encode
encode-IsSegment [] = tt
encode-IsSegment (c ∷ s) = elim (Bool-cases (is_unreserved (code c))) [
  | inl h ↦ rw h (ground (arith, h), encode-IsSegment s)
  | inr h ↦ rw h (escape_code-IsSegment (code c) (encode s) (encode-IsSegment s))
]

encode_test : encode "a b/é" ≡ "a%20b%2F%C3%A9"
unfolding encode
encode_test = refl
