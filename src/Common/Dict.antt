-- ===== src/Common/Dict.antt =====
-- `Map` and `Set` with JavaScript's insertion order: a key that is set again keeps its place.
use Prim.Native.String.{String}
use mathlib.Core.Path.{◌≡◌, refl}
use mathlib.Core.Bool.{Bool, ◌||◌}
use mathlib.Core.Option.{Option, none, some}
use mathlib.Core.List.{List, [], ◌∷◌, ◌++◌}
use native.Mathlib.Omega.{arith}
use text.Mathlib.Text.{◌==◌}
use text.Mathlib.TextEquality.{eq_iff}
use full_stack_resume.Common.Tests.{if◌then◌else◌, present}
use full_stack_resume.Common.Lists.{includes, includes-append}

module _ {ℓ} {V : Type ℓ} where
  -- `map.get(key)`
  unfoldable pub lookup : String → List (String × V) → Option V
  lookup key [] = none
  lookup key ((here, value) ∷ later) =
      let rest = lookup key later in if here == key then some value else rest

  -- `map.set(key, value)`
  unfoldable pub insert : String → V → List (String × V) → List (String × V)
  insert key new [] = (key, new) ∷ []
  insert key new ((here, old) ∷ later) =
      let rest = insert key new later in
      if here == key then (here, new) ∷ later else (here, old) ∷ rest

  -- `map.delete(key)`
  unfoldable pub erase : String → List (String × V) → List (String × V)
  erase key [] = []
  erase key ((here, value) ∷ later) =
      let rest = erase key later in if here == key then rest else (here, value) ∷ rest

  -- `map.has(key)`
  abbrev pub has : String → List (String × V) → Bool
  has k m = present (lookup k m)

  -- `[...map.values()]`
  abbrev pub values : List (String × V) → List V
  values [] = []
  values ((k, v) ∷ m) = v ∷ values m

  -- Setting a key changes what is got at that key only.
  pub lookup-insert :
      (set got : String) (new : V) (entries : List (String × V))
      → lookup got (insert set new entries) ≡ (if set == got then some new else lookup got entries)
  unfolding insert lookup
  lookup-insert set got new [] = refl
  lookup-insert set got new ((key, old) ∷ entries) =
      ground
        (lookup-insert set got new entries, eq_iff key got, eq_iff key set, eq_iff set got, arith)

  pub lookup-erase :
      (gone got : String) (entries : List (String × V))
      → lookup got (erase gone entries) ≡ (if gone == got then none else lookup got entries)
  unfolding erase lookup
  lookup-erase gone got [] = ground arith
  lookup-erase gone got ((key, old) ∷ entries) =
      ground
        (lookup-erase gone got entries, eq_iff key got, eq_iff key gone, eq_iff gone got, arith)

-- `set.add(text)`
unfoldable pub add : String → List String → List String
add a xs = if includes a xs then xs else xs ++ a ∷ []

pub includes-add :
    (a b : String) (xs : List String) → includes b (add a xs) ≡ (includes b xs || a == b)
unfolding add
includes-add a b xs = ground (arith, includes-append b xs (a ∷ []), eq_iff a b)
