-- ===== src/Board/Dates.antt =====
-- The days of the board's reminders (frontend/src/features/application-list/model/
-- applicationListPresentation.ts): a date is a text, compared as one.
use Prim.Native.Char.{code}
use Prim.Native.String
use Prim.Native.Nat.{Ordering}
use full_stack_resume.Common.{
  ℕ, zero, suc, ◌+◌, ◌-◌, ◌*◌, ◌%◌, String, Bool, true, false, not, ◌&&◌, ◌||◌, Option, none, some,
  [], ◌∷◌, ◌==◌, eqb, leb, if◌then◌else◌, get_elem?,
}

-- `(\d{n})` at the front of a text: its number and the rest
unfoldable pub digits_of : ℕ → ℕ → String → Option (ℕ × String)
digits_of zero n s = some (n, s)
digits_of (suc count) n String.[] = none
digits_of (suc count) n (String.◌∷◌ c s) =
    let rest = digits_of count (n * 10 + (code c - b'0')) s in
    if leb b'0' (code c) && leb (code c) b'9' then rest else none

unfoldable pub dash_of : String → Option String
dash_of String.[] = none
dash_of (String.◌∷◌ c s) = if eqb (code c) b'-' then some s else none

abbrev and_then {ℓ ℓ'} : {A : Type ℓ} {B : Type ℓ'} → Option A → (A → Option B) → Option B
and_then none f = none
and_then (some a) f = f a

-- `/^(\d{4})-(\d{2})-(\d{2})$/`
unfoldable pub date_match : String → Option (ℕ × (ℕ × ℕ))
unfolding digits_of dash_of
date_match s = and_then (digits_of 4 0 s) (λ (y : ℕ × String).
    and_then (dash_of y.1) (λ (t : String). and_then (digits_of 2 0 t) (λ (m : ℕ × String).
      and_then (dash_of m.1) (λ (u : String).
        and_then (digits_of 2 0 u)
          (λ (d : ℕ × String). if d.1 == "" then some (y.0, (m.0, d.0)) else none)))))

abbrev pub is_leap : ℕ → Bool
is_leap year = eqb (year % 4) 0 && (not (eqb (year % 100) 0) || eqb (year % 400) 0)

abbrev pub days_in_month : ℕ → ℕ → Option ℕ
days_in_month year month =
    if eqb month 0
    then none
    else get_elem?
        (31
          ∷ (if is_leap year then 29 else 28)
          ∷ 31
          ∷ 30
          ∷ 31
          ∷ 30
          ∷ 31
          ∷ 31
          ∷ 30
          ∷ 31
          ∷ 30
          ∷ 31
          ∷ [])
        (month - 1)

abbrev pub is_day : ℕ → Option ℕ → Bool
is_day day none = false
is_day day (some days) = leb 1 day && leb day days

-- `dateOnlyKey`
unfoldable pub date_only_key : Option String → Option String
unfolding date_match
date_only_key none = none
date_only_key (some s) = elim (date_match s) [
  | none ↦ none
  | some d ↦ if is_day d.1.1 (days_in_month d.0 d.1.0) then some s else none
]

-- `<` of two keys
abbrev pub is_before : String → String → Bool
is_before a b = elim (String.compare a b) [ Ordering.lt ↦ true | _ ↦ false ]

abbrev pub key_before : Option String → String → Bool
key_before none today = false
key_before (some due) today = is_before due today

abbrev pub key_at : Option String → String → Bool
key_at none today = false
key_at (some due) today = due == today

abbrev pub key_within : Option String → String → String → Bool
key_within none today week_end = false
key_within (some due) today week_end = is_before today due && not (is_before week_end due)
