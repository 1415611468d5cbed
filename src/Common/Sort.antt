-- ===== src/Common/Sort.antt =====
-- `array.sort` by a numeric key: JavaScript's sort is stable, and so is this insertion sort.
use Prim.Native.Nat.{ℕ, ◌≤◌}
use mathlib.Core.Path.{◌≡◌, refl}
use mathlib.Core.Logic.{inl, inr}
use mathlib.Core.Bool.{Bool, true, false}
use mathlib.Core.List.{List, [], ◌∷◌, Perm}
use mathlib.Core.List.Perm
use native.Mathlib.Omega.{arith}
use full_stack_resume.Common.Tests.{if◌then◌else◌, ltb, Bool-cases}
use full_stack_resume.Common.Lists.{All, All-select, select}

module _ {ℓ} {A : Type ℓ} (key : A → ℕ) where
  -- Before the first element that is not smaller: equal keys keep their order.
  unfoldable pub insert_by : A → List A → List A
  insert_by x [] = x ∷ []
  insert_by x (y ∷ ys) =
      let rest = insert_by x ys in if ltb (key y) (key x) then y ∷ rest else x ∷ y ∷ ys

  unfoldable pub sort_by : List A → List A
  unfolding insert_by
  sort_by [] = []
  sort_by (x ∷ xs) = insert_by x (sort_by xs)

  -- The keys never fall.
  abbrev pub IsSorted : List A → Type 0
  IsSorted [] = Unit
  IsSorted (x ∷ xs) = All (λ y. key x ≤ key y) xs × IsSorted xs

  insert_by-All :
      (n : ℕ) (x : A) (xs : List A)
      → n ≤ key x
      → All (λ y. n ≤ key y) xs
      → All (λ y. n ≤ key y) (insert_by x xs)
  unfolding insert_by
  insert_by-All n x [] h k = (h, tt)
  insert_by-All n x (y ∷ ys) h (p, k) = ground (arith, insert_by-All n x ys h k)

  All-le_trans : (n m : ℕ) (xs : List A) → n ≤ m → All (λ y. m ≤ key y) xs → All (λ y. n ≤ key y) xs
  All-le_trans n m [] h k = tt
  All-le_trans n m (x ∷ xs) h (p, k) = (omega arith, All-le_trans n m xs h k)

  insert_by-IsSorted : (x : A) (xs : List A) → IsSorted xs → IsSorted (insert_by x xs)
  unfolding insert_by
  insert_by-IsSorted x [] s = (tt, tt)
  insert_by-IsSorted x (y ∷ ys) (p, s) = elim (Bool-cases (ltb (key y) (key x))) [
    | inl h ↦ rw h (insert_by-All (key y) x ys (ground arith) p, insert_by-IsSorted x ys s)
    | inr h ↦ rw h ((ground arith, All-le_trans (key x) (key y) ys (ground arith) p), (p, s))
  ]

  pub sort_by-IsSorted : (xs : List A) → IsSorted (sort_by xs)
  unfolding sort_by
  sort_by-IsSorted [] = tt
  sort_by-IsSorted (x ∷ xs) = insert_by-IsSorted x (sort_by xs) (sort_by-IsSorted xs)

  pub IsSorted-select : (p : A → Bool) (xs : List A) → IsSorted xs → IsSorted (select p xs)
  IsSorted-select p [] s = tt
  IsSorted-select p (x ∷ xs) (a, s) = elim (Bool-cases (p x)) [
    | inl h ↦ rw h (All-select (λ y. key x ≤ key y) p xs a, IsSorted-select p xs s)
    | inr h ↦ rw h (IsSorted-select p xs s)
  ]

  insert_by-perm : (x : A) (xs : List A) → Perm (insert_by x xs) (x ∷ xs)
  unfolding insert_by
  insert_by-perm x [] = Perm.refl _
  insert_by-perm x (y ∷ ys) = elim (Bool-cases (ltb (key y) (key x))) [
    | inl h ↦ rw h (Perm.trans (Perm.cons y (insert_by-perm x ys)) (Perm.swap x y ys))
    | inr h ↦ rw h (Perm.refl _)
  ]

  pub sort_by-perm : (xs : List A) → Perm (sort_by xs) xs
  unfolding sort_by
  sort_by-perm [] = Perm.refl _
  sort_by-perm (x ∷ xs) = Perm.trans (insert_by-perm x (sort_by xs)) (Perm.cons x (sort_by-perm xs))

  -- Stable: a test that all elements with it share one key keeps their order.
  insert_by-select :
      (p : A → Bool) (n : ℕ)
      → ((y : A) → p y ≡ true → key y ≡ n)
      → (x : A) (xs : List A) → select p (insert_by x xs) ≡ select p (x ∷ xs)
  unfolding insert_by
  insert_by-select p n h x [] = refl
  insert_by-select p n h x (y ∷ ys) = ground (arith, h x, h y, insert_by-select p n h x ys)

  pub sort_by-select :
      (p : A → Bool) (n : ℕ)
      → ((y : A) → p y ≡ true → key y ≡ n)
      → (xs : List A) → select p (sort_by xs) ≡ select p xs
  unfolding sort_by
  sort_by-select p n h [] = refl
  sort_by-select p n h (x ∷ xs) =
      ground (arith, insert_by-select p n h x (sort_by xs), sort_by-select p n h xs)

-- `array.sort` by a comparison: `after x y` where the comparison is positive.
module _ {ℓ} {A : Type ℓ} (after : A → A → Bool) where
  unfoldable pub insert_after : A → List A → List A
  insert_after x [] = x ∷ []
  insert_after x (y ∷ ys) =
      let rest = insert_after x ys in if after x y then y ∷ rest else x ∷ y ∷ ys

  unfoldable pub sort_after : List A → List A
  unfolding insert_after
  sort_after [] = []
  sort_after (x ∷ xs) = insert_after x (sort_after xs)

  -- No element comes after a later one.
  abbrev pub IsOrdered : List A → Type 0
  IsOrdered [] = Unit
  IsOrdered (x ∷ xs) = All (λ y. after x y ≡ false) xs × IsOrdered xs

  -- A comparison that orders: of two elements at most one comes after the other, and not coming after
  -- is transitive.
  pub record IsOrder : Type ℓ where
    pub one_way : (x y : A) → after x y ≡ true → after y x ≡ false
    pub chains : (x y z : A) → after x y ≡ false → after y z ≡ false → after x z ≡ false

  insert_after-perm : (x : A) (xs : List A) → Perm (insert_after x xs) (x ∷ xs)
  unfolding insert_after
  insert_after-perm x [] = Perm.refl _
  insert_after-perm x (y ∷ ys) = elim (Bool-cases (after x y)) [
    | inl h ↦ rw h (Perm.trans (Perm.cons y (insert_after-perm x ys)) (Perm.swap x y ys))
    | inr h ↦ rw h (Perm.refl _)
  ]

  pub sort_after-perm : (xs : List A) → Perm (sort_after xs) xs
  unfolding sort_after
  sort_after-perm [] = Perm.refl _
  sort_after-perm (x ∷ xs) =
      Perm.trans (insert_after-perm x (sort_after xs)) (Perm.cons x (sort_after-perm xs))

  insert_after-All :
      (z x : A) (xs : List A)
      → after z x ≡ false
      → All (λ y. after z y ≡ false) xs
      → All (λ y. after z y ≡ false) (insert_after x xs)
  unfolding insert_after
  insert_after-All z x [] h k = (h, tt)
  insert_after-All z x (y ∷ ys) h (p, k) = elim (Bool-cases (after x y)) [
    | inl e ↦ rw e (p, insert_after-All z x ys h k)
    | inr e ↦ rw e (h, (p, k))
  ]

  module _ (order : IsOrder) where
    All-chains :
        (x y : A) (zs : List A)
        → after x y ≡ false
        → All (λ z. after y z ≡ false) zs
        → All (λ z. after x z ≡ false) zs
    All-chains x y [] h k = tt
    All-chains x y (z ∷ zs) h (p, k) = (order.chains x y z h p, All-chains x y zs h k)

    insert_after-IsOrdered : (x : A) (xs : List A) → IsOrdered xs → IsOrdered (insert_after x xs)
    unfolding insert_after
    insert_after-IsOrdered x [] s = (tt, tt)
    insert_after-IsOrdered x (y ∷ ys) (p, s) = elim (Bool-cases (after x y)) [
      | inl h ↦
          rw h (insert_after-All y x ys (order.one_way x y h) p, insert_after-IsOrdered x ys s)
      | inr h ↦ rw h ((h, All-chains x y ys h p), (p, s))
    ]

    pub sort_after-IsOrdered : (xs : List A) → IsOrdered (sort_after xs)
    unfolding sort_after
    sort_after-IsOrdered [] = tt
    sort_after-IsOrdered (x ∷ xs) =
        insert_after-IsOrdered x (sort_after xs) (sort_after-IsOrdered xs)
