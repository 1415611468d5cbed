-- ===== src/History/Moves.antt =====
-- Moves of a claim within its section, in useDraftHistory.ts.
use mathlib.Core.List.{Perm}
use mathlib.Core.List.Perm
use mathlib.Core.Path.{subst}
use full_stack_resume.Common.{ℕ, zero, suc, ◌≡◌, refl, ap, some, List, [], ◌∷◌, arith, length}
use full_stack_resume.Api.Documents.{DraftClaim}
use full_stack_resume.History.Outline.{up, down, swap_at, moved}

length-swap_at {ℓ} : {A : Type ℓ} (i : ℕ) (xs : List A) → length (swap_at i xs) ≡ length xs
unfolding swap_at
length-swap_at zero [] = refl
length-swap_at zero (x ∷ []) = refl
length-swap_at zero (x ∷ y ∷ xs) = refl
length-swap_at (suc i) [] = refl
length-swap_at (suc i) (x ∷ xs) = ap suc (length-swap_at i xs)

swap_at-swap_at {ℓ} : {A : Type ℓ} (i : ℕ) (xs : List A) → swap_at i (swap_at i xs) ≡ xs
unfolding swap_at
swap_at-swap_at zero [] = refl
swap_at-swap_at zero (x ∷ []) = refl
swap_at-swap_at zero (x ∷ y ∷ xs) = refl
swap_at-swap_at (suc i) [] = refl
swap_at-swap_at (suc i) (x ∷ xs) = ap (x ∷◌) (swap_at-swap_at i xs)

swap_at-perm {ℓ} : {A : Type ℓ} (i : ℕ) (xs : List A) → Perm (swap_at i xs) xs
unfolding swap_at
swap_at-perm zero [] = Perm.refl _
swap_at-perm zero (x ∷ []) = Perm.refl _
swap_at-perm zero (x ∷ y ∷ xs) = Perm.swap x y xs
swap_at-perm (suc i) [] = Perm.refl _
swap_at-perm (suc i) (x ∷ xs) = Perm.cons x (swap_at-perm i xs)

-- A move keeps the section's claims, only their order changes, and the opposite move of the claim
-- from its new place takes it back.
pub moved-down_back :
    (i : ℕ) (cs ds : List DraftClaim)
    → moved down i cs ≡ some ds
    → Perm ds cs × (moved up (suc i) ds ≡ some cs)
unfolding moved
moved-down_back i cs ds h =
    let e : swap_at i cs ≡ ds = ground arith in
    (
      subst (λ xs. Perm xs cs) e (swap_at-perm i cs),
      ground (arith, length-swap_at i cs, ap length e, ap (swap_at i) e, swap_at-swap_at i cs),
    )
