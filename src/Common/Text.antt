-- ===== src/Common/Text.antt =====
-- `String.prototype.trim` and the decimal text of an index.
use Prim.Native.Nat.{ℕ, zero, suc, ◌/◌, ◌%◌}
use Prim.Native.Char.{Char, code}
use Prim.Native.String
use Prim.Native.String.{String, [], ◌∷◌}
use mathlib.Core.Path.{◌≡◌, refl, ap, ◌∙◌}
use mathlib.Core.Bool.{Bool, true, false, ◌&&◌, ◌||◌}
use mathlib.Core.Logic.{inl, inr}
use mathlib.Core.Option.{Option, none, some}
use native.Mathlib.Omega.{arith}
use text.Mathlib.Text.{◌==◌}
use text.Mathlib.TextEquality.{eq_iff}
use full_stack_resume.Common.Tests.{ltb, leb, eqb, if◌then◌else◌, Bool-cases}

-- ECMAScript's WhiteSpace and LineTerminator code points.
unfoldable pub is_space : ℕ → Bool
is_space c =
    (leb 9 c && leb c 13)
    || leb 32 c && leb c 32
    || leb 160 c && leb c 160
    || leb 0x1680 c && leb c 0x1680
    || leb 0x2000 c && leb c 0x200a
    || leb 0x2028 c && leb c 0x2029
    || leb 0x202f c && leb c 0x202f
    || leb 0x205f c && leb c 0x205f
    || leb 0x3000 c && leb c 0x3000
    || leb 0xfeff c && leb c 0xfeff

unfoldable pub trim_start : String → String
trim_start [] = []
trim_start (c ∷ s) = let rest = trim_start s in if is_space (code c) then rest else c ∷ s

-- What a character adds in front of the trimmed rest.
trim_cons : Char → String → String
trim_cons c [] = if is_space (code c) then [] else c ∷ []
trim_cons c (d ∷ s) = c ∷ d ∷ s

trim_end : String → String
trim_end [] = []
trim_end (c ∷ s) = trim_cons c (trim_end s)

unfoldable pub trim : String → String
unfolding trim_start trim_end trim_cons is_space
trim s = trim_end (trim_start s)

abbrev digit : ℕ → String
digit n =
    if ltb n 1
    then "0"
    else if ltb n 2
    then "1"
    else if ltb n 3
    then "2"
    else if ltb n 4
    then "3"
    else if ltb n 5
    then "4"
    else if ltb n 6
    then "5"
    else if ltb n 7
    then "6"
    else if ltb n 8
    then "7"
    else if ltb n 9
    then "8"
    else "9"

decimal_fuel : ℕ → ℕ → String
decimal_fuel zero n = digit (n % 10)
decimal_fuel (suc f) n =
    let front = decimal_fuel f (n / 10) in
    if ltb n 10 then digit n else String.◌++◌ front (digit (n % 10))

-- The text of a natural number; `n` rounds are enough, since each divides by ten.
unfoldable pub decimal : ℕ → String
unfolding decimal_fuel
decimal n = decimal_fuel n n

-- A trimmed text does not begin with a space, and trimming it again changes nothing.
abbrev StartsPlain : String → Type 0
StartsPlain [] = Unit
StartsPlain (c ∷ s) = is_space (code c) ≡ false

trim_start-StartsPlain : (s : String) → StartsPlain (trim_start s)
unfolding trim_start
trim_start-StartsPlain [] = tt
trim_start-StartsPlain (c ∷ s) = elim (Bool-cases (is_space (code c))) [
  | inl h ↦ rw h (trim_start-StartsPlain s)
  | inr h ↦ rw h h
]

trim_start_of_StartsPlain : (s : String) → StartsPlain s → trim_start s ≡ s
unfolding trim_start
trim_start_of_StartsPlain [] h = refl
trim_start_of_StartsPlain (c ∷ s) h = rw h

trim_cons_plain : (c : Char) (s : String) → is_space (code c) ≡ false → trim_cons c s ≡ c ∷ s
unfolding trim_cons
trim_cons_plain c [] h = rw h
trim_cons_plain c (d ∷ s) h = refl

trim_end-StartsPlain : (s : String) → StartsPlain s → StartsPlain (trim_end s)
unfolding trim_end
trim_end-StartsPlain [] h = tt
trim_end-StartsPlain (c ∷ s) h = rw (trim_cons_plain c (trim_end s) h) h

trim_end-trim_cons :
    (c : Char) (s : String) → trim_end s ≡ s → trim_end (trim_cons c s) ≡ trim_cons c s
unfolding trim_end trim_cons
trim_end-trim_cons c [] e = elim (Bool-cases (is_space (code c))) [
  | inl h ↦ rw h
  | inr h ↦ rw (h, h)
]
trim_end-trim_cons c (d ∷ s) e = rw e

trim_end_idempotent : (s : String) → trim_end (trim_end s) ≡ trim_end s
unfolding trim_end
trim_end_idempotent [] = refl
trim_end_idempotent (c ∷ s) = trim_end-trim_cons c (trim_end s) (trim_end_idempotent s)

pub trim_idempotent : (s : String) → trim (trim s) ≡ trim s
unfolding trim
trim_idempotent s =
    ap trim_end (
      trim_start_of_StartsPlain (trim_end (trim_start s))
        (trim_end-StartsPlain (trim_start s) (trim_start-StartsPlain s)))
    ∙ trim_end_idempotent (trim_start s)

-- A space in front is trimmed away.
pub trim-space : (c : Char) (s : String) → is_space (code c) ≡ true → trim (c ∷ s) ≡ trim s
unfolding trim trim_start
trim-space c s h = rw h

-- Whether a character with a property stands in a text; trimming brings in none.
unfoldable pub any_char : (ℕ → Bool) → String → Bool
any_char p [] = false
any_char p (c ∷ s) = p (code c) || any_char p s

trim_start-any_char :
    (p : ℕ → Bool) (s : String) → any_char p s ≡ false → any_char p (trim_start s) ≡ false
unfolding trim_start any_char
trim_start-any_char p [] h = refl
trim_start-any_char p (c ∷ s) h = ground (arith, h, trim_start-any_char p s)

trim_cons-any_char :
    (p : ℕ → Bool) (c : Char) (s : String)
    → p (code c) ≡ false
    → any_char p s ≡ false
    → any_char p (trim_cons c s) ≡ false
unfolding trim_cons any_char
trim_cons-any_char p c [] h k = elim (Bool-cases (is_space (code c))) [
  | inl e ↦ rw e
  | inr e ↦ rw (e, h)
]
trim_cons-any_char p c (d ∷ s) h k = ground (arith, h, k)

trim_end-any_char :
    (p : ℕ → Bool) (s : String) → any_char p s ≡ false → any_char p (trim_end s) ≡ false
unfolding trim_end any_char
trim_end-any_char p [] h = refl
trim_end-any_char p (c ∷ s) h =
    trim_cons-any_char p c (trim_end s) (ground (arith, h))
      (trim_end-any_char p s (ground (arith, h)))

pub trim-any_char : (p : ℕ → Bool) (s : String) → any_char p s ≡ false → any_char p (trim s) ≡ false
unfolding trim
trim-any_char p s h = trim_end-any_char p (trim_start s) (trim_start-any_char p s h)

-- `text.startsWith(part)`
unfoldable pub starts_with : (part : String) → String → Bool
starts_with [] s = true
starts_with (c ∷ p) [] = false
starts_with (c ∷ p) (d ∷ s) = eqb (code c) (code d) && starts_with p s

-- `text || null`
abbrev pub filled : String → Option String
filled t = if t == "" then none else some t

-- `a === b` of texts that may be absent
abbrev pub same_option : Option String → Option String → Bool
same_option none none = true
same_option (some a) (some b) = a == b
same_option _ _ = false

pub same_option→eq : (a b : Option String) → same_option a b ≡ true → a ≡ b
same_option→eq none none h = refl
same_option→eq none (some b) h = cc
same_option→eq (some a) none h = cc
same_option→eq (some a) (some b) h = ap some ((eq_iff a b).0 h)

pub same_option_refl : (a : Option String) → same_option a a ≡ true
same_option_refl none = refl
same_option_refl (some a) = (eq_iff a a).1 refl

trim_test : trim "  a b\t" ≡ "a b"
unfolding trim
trim_test = refl

decimal_test : decimal 1207 ≡ "1207"
unfolding decimal
decimal_test = refl
