-- ===== src/Autosave/Buffer/Recovery.antt =====
-- The round trip of the buffer of useDraftAutosave.ts through the session's storage.
use full_stack_resume.Common.{
  String, ◌≡◌, refl, sym, ap, ◌∙◌, inl, inr, true, false, Option, none, some, List, [], ◌∷◌, ◌++◌,
  arith, eq_iff, Bool-cases, includes, includes-append, lookup, insert, add, has, values,
}
use full_stack_resume.Api.Documents.{ClaimPatch}
use full_stack_resume.Autosave.Buffer.{
  Buffer, StoredBuffer, empty_buffer, is_clear, stored_of, recover,
}
use mathlib.Core.List.{append-nil, append_assoc}
use full_stack_resume.Autosave.Buffer.Filed.{Distinct, Once, IsKeyed, IsFiled, has-append}
use full_stack_resume.Autosave.Buffer.{add_all, set_edits, written}

module _ {ℓ} {V : Type ℓ} where
  insert-new :
      (k : String) (v : V) (m : List (String × V))
      → has k m ≡ false
      → insert k v m ≡ m ++ (k, v) ∷ []
  unfolding insert lookup
  insert-new k v [] h = refl
  insert-new k v ((j, w) ∷ m) h = ground (arith, insert-new k v m)

  Distinct-append-cons :
      (k : String) (v : V) (xs ys : List (String × V))
      → Distinct (xs ++ (k, v) ∷ ys)
      → has k xs ≡ false
  unfolding lookup
  Distinct-append-cons k v [] ys h = refl
  Distinct-append-cons k v ((j, w) ∷ xs) ys (n, h) = ground (
    arith,
    eq_iff j k,
    eq_iff k j,
    eq_iff k k,
    has-append j xs ((k, v) ∷ ys),
    Distinct-append-cons k v xs ys h,
  )

set_edits-values :
    (ys xs : List (String × ClaimPatch))
    → IsKeyed ys
    → Distinct (xs ++ ys)
    → set_edits (values ys) xs ≡ xs ++ ys
unfolding set_edits
set_edits-values [] xs k d = sym (append-nil xs)
set_edits-values ((j, p) ∷ ys) xs (e, k) d =
    ap (set_edits (values ys))
      (ap (λ i. insert i p xs) (sym e) ∙ insert-new j p xs (Distinct-append-cons j p xs ys d))
    ∙ set_edits-values ys (xs ++ (j, p) ∷ []) k (rw append_assoc d)
    ∙ append_assoc xs ((j, p) ∷ []) ys

Once-append-cons : (x : String) (xs ys : List String) → Once (xs ++ x ∷ ys) → includes x xs ≡ false
Once-append-cons x [] ys h = refl
Once-append-cons x (y ∷ xs) ys (n, h) = ground (
  arith,
  eq_iff y x,
  eq_iff x y,
  eq_iff x x,
  includes-append y xs (x ∷ ys),
  Once-append-cons x xs ys h,
)

add_all-Once : (ys xs : List String) → Once (xs ++ ys) → add_all ys xs ≡ xs ++ ys
unfolding add_all add
add_all-Once [] xs h = sym (append-nil xs)
add_all-Once (y ∷ ys) xs h =
    rw (Once-append-cons y xs ys h)
      (add_all-Once ys (xs ++ y ∷ []) (rw append_assoc h) ∙ append_assoc xs (y ∷ []) ys)

recover-written : (b : Buffer) → IsFiled b → recover (written b) empty_buffer ≡ b
unfolding recover
recover-written b f = λ i. record {
  edits = set_edits-values b.edits [] f.keyed f.edits i;
  removals = add_all-Once b.removals [] f.removals i;
  additions = b.additions;
  claim_orders = b.claim_orders;
}

is_clear-eq : (b : Buffer) → is_clear b ≡ true → b ≡ empty_buffer
unfolding is_clear
is_clear-eq b h = ground arith

-- What a hook that opens with an empty buffer makes of the storage.
abbrev pub reopened : Option StoredBuffer → Buffer
reopened none = empty_buffer
reopened (some s) = recover s empty_buffer

-- A buffer of maps and sets that goes into the storage comes back the same, whether anything is
-- written or nothing.
pub reopened-stored_of : (b : Buffer) → IsFiled b → reopened (stored_of b) ≡ b
unfolding stored_of
reopened-stored_of b f = elim (Bool-cases (is_clear b)) [
  | inl e ↦ rw e (sym (is_clear-eq b e))
  | inr e ↦ rw e (recover-written b f)
]
