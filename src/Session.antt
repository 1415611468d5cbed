-- ===== src/Session.antt =====
-- Where a reader goes after signing in (`safeNextPath` of frontend/src/features/auth/session.ts), against
-- how a browser reads an address.
mod Tests
use Prim.Native.Char.{Char, code}
use Prim.Native.String
use text.Mathlib.TextLemmas
use full_stack_resume.Common.{
  ℕ, String, ◌≡◌, refl, ap, ◌∙◌, Bool, true, false, not, ◌&&◌, ◌||◌, Option, none, some, arith, eqb,
  leb, if◌then◌else◌,
}
use full_stack_resume.Common.Text.{starts_with, any_char}
use full_stack_resume.Navigation.{◌<>◌}

-- `safeNextPath`
unfoldable pub safe_next_path : Option String → String
unfolding starts_with
safe_next_path none = "/"
safe_next_path (some next) =
    if starts_with "/" next && not (starts_with "//" next) && not (starts_with "/login" next)
    then next
    else "/"

-- How a browser reads an address on an http or https page: spaces and control characters in front are
-- taken off, and tabs and line ends anywhere. A letter with letters, digits, `+`, `-` or `.` up to a colon
-- is a scheme, and two slashes in front, in either direction, begin the name of a host. An address with
-- either leads away from this origin.
abbrev pub is_dropped : ℕ → Bool
is_dropped c = eqb c 9 || eqb c 10 || eqb c 13

abbrev pub is_slash : ℕ → Bool
is_slash c = eqb c b'/' || eqb c b'\\'

abbrev is_letter : ℕ → Bool
is_letter c = leb b'a' c && leb c b'z' || leb b'A' c && leb c b'Z'

abbrev is_scheme_part : ℕ → Bool
is_scheme_part c = is_letter c || leb b'0' c && leb c b'9' || eqb c b'+' || eqb c b'-' || eqb c b'.'

abbrev begins_slash : String → Bool
begins_slash String.[] = false
begins_slash (String.◌∷◌ c s) =
    let rest = begins_slash s in if is_dropped (code c) then rest else is_slash (code c)

abbrev ends_scheme : String → Bool
ends_scheme String.[] = false
ends_scheme (String.◌∷◌ c s) =
    let rest = ends_scheme s in
    if is_dropped (code c) then rest else eqb (code c) b':' || is_scheme_part (code c) && rest

abbrev pub leaves_origin : String → Bool
leaves_origin String.[] = false
leaves_origin (String.◌∷◌ c s) =
    let rest = leaves_origin s in
    if leb (code c) 32
    then rest
    else is_slash (code c) && begins_slash s || is_letter (code c) && ends_scheme s

-- The characters that a browser reads otherwise than the function.
abbrev pub is_odd : ℕ → Bool
is_odd c = is_dropped c || eqb c b'\\'

either_stays :
    (b : Bool) (s : String)
    → (b ≡ true → leaves_origin s ≡ false)
    → leaves_origin (if b then s else "/") ≡ false
either_stays true s h = h refl
either_stays false s h = refl

stays_here :
    (next : String)
    → any_char is_odd next ≡ false
    → leaves_origin (safe_next_path (some next)) ≡ false
unfolding safe_next_path any_char
stays_here String.[] h = refl
stays_here (String.◌∷◌ c String.[]) h = either_stays _ (String.◌∷◌ c "") (λ b. ground (arith, h, b))
stays_here (String.◌∷◌ c (String.◌∷◌ d s)) h =
    either_stays _ (String.◌∷◌ c (String.◌∷◌ d s)) (λ b. ground (arith, h, b))

backslash_first : (rest : String) → "/\\" <> rest ≡ String.◌∷◌ "/" (String.◌∷◌ "\\" rest)
backslash_first rest =
    TextLemmas.cons-append "/" "\\" rest
    ∙ ap (λ (s : String). String.◌∷◌ "/" s)
        (TextLemmas.cons-append "\\" "" rest
          ∙ ap (λ (s : String). String.◌∷◌ "\\" s) (TextLemmas.nil-append rest))

-- A place to return to that has no backslash, tab or line end stays on this origin, whatever scheme or
-- host the given one names. A place that begins with a slash and a backslash is let through, and a
-- browser reads the name of a host in it.
pub safe_next_path-hosts :
    (next rest : String)
    → any_char is_odd next ≡ false
    → (leaves_origin (safe_next_path (some next)) ≡ false)
      × (safe_next_path (some ("/\\" <> rest)) ≡ "/\\" <> rest)
      × (leaves_origin ("/\\" <> rest) ≡ true)
unfolding safe_next_path
safe_next_path-hosts next rest h =
    (stays_here next h, rw (backslash_first rest), rw (backslash_first rest))
