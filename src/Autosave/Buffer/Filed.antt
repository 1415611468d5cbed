-- ===== src/Autosave/Buffer/Filed.antt =====
-- The buffer of useDraftAutosave.ts is made of maps and sets, and stays so.
use full_stack_resume.Common.{
  String, false, ◌||◌, List, [], ◌∷◌, ◌++◌, map, insert, erase, lookup, lookup-insert, lookup-erase,
  includes-without, has, add, includes, without, ◌==◌, All, ◌≡◌, refl, arith, eq_iff, Bool-cases,
  inl, inr, includes-append, ◌∙◌, or_else,
}
use full_stack_resume.Api.Documents.{ClaimPatch, DocumentPatch}
use full_stack_resume.Autosave.Buffer.{
  StoredBuffer, recover, set_edits, Buffer, empty_buffer, Change, edit, removal, addition,
  claim_order, queue, strip_order, restore, restore_edits, restore_orders, add_all,
}

-- Each key once.
abbrev pub Distinct {ℓ} : {V : Type ℓ} → List (String × V) → Type 0
Distinct [] = Unit
Distinct ((k, v) ∷ m) = (has k m ≡ false) × Distinct m

-- Each text once.
abbrev pub Once : List String → Type 0
Once [] = Unit
Once (x ∷ xs) = (includes x xs ≡ false) × Once xs

abbrev pub IsKeyed : List (String × ClaimPatch) → Type 0
IsKeyed m = All (λ (e : String × ClaimPatch). e.0 ≡ e.1.claim_id) m

-- What the four collections are: maps with distinct keys, edits under their own claim, a set.
pub record IsFiled (b : Buffer) : Type 0 where
  pub keyed : IsKeyed b.edits
  pub edits : Distinct b.edits
  pub removals : Once b.removals
  pub orders : Distinct b.claim_orders

pub empty-IsFiled : IsFiled empty_buffer
empty-IsFiled = record { keyed = tt; edits = tt; removals = tt; orders = tt }

module _ {ℓ} {V : Type ℓ} where
  has-insert :
      (k j : String) (v : V) (m : List (String × V)) → has j (insert k v m) ≡ (k == j || has j m)
  has-insert k j v m = ground (arith, lookup-insert k j v m)

  pub has-append :
      (k : String) (xs ys : List (String × V)) → has k (xs ++ ys) ≡ (has k xs || has k ys)
  unfolding lookup
  has-append k [] ys = ground arith
  has-append k ((j, v) ∷ xs) ys = ground (arith, has-append k xs ys)

  pub Distinct-insert :
      (k : String) (v : V) (m : List (String × V)) → Distinct m → Distinct (insert k v m)
  unfolding insert lookup
  Distinct-insert k v [] h = (refl, tt)
  Distinct-insert k v ((j, w) ∷ m) (n, h) = elim (Bool-cases (j == k)) [
    | inl e ↦ rw e (n, h)
    | inr e ↦
        rw e (ground (arith, has-insert k j v m, eq_iff j k, eq_iff k j), Distinct-insert k v m h)
  ]

  Distinct-erase : (k : String) (m : List (String × V)) → Distinct m → Distinct (erase k m)
  unfolding erase lookup
  Distinct-erase k [] h = tt
  Distinct-erase k ((j, w) ∷ m) (n, h) = elim (Bool-cases (j == k)) [
    | inl e ↦ rw e (Distinct-erase k m h)
    | inr e ↦ rw e (ground (arith, lookup-erase k j m), Distinct-erase k m h)
  ]

Once-without : (x : String) (xs : List String) → Once xs → Once (without x xs)
Once-without x [] h = tt
Once-without x (y ∷ xs) (n, h) = elim (Bool-cases (y == x)) [
  | inl e ↦ rw e (Once-without x xs h)
  | inr e ↦ rw e (ground (arith, includes-without y x xs), Once-without x xs h)
]

Once-concat :
    (x : String) (xs : List String) → includes x xs ≡ false → Once xs → Once (xs ++ x ∷ [])
Once-concat x [] n h = (refl, tt)
Once-concat x (y ∷ xs) n (m, h) = (
  ground (arith, includes-append y xs (x ∷ []), eq_iff x y, eq_iff y x),
  Once-concat x xs (ground arith) h,
)

pub Once-add : (x : String) (xs : List String) → Once xs → Once (add x xs)
unfolding add
Once-add x xs h = elim (Bool-cases (includes x xs)) [
  | inl e ↦ rw e h
  | inr e ↦ rw e (Once-concat x xs e h)
]

IsKeyed-insert :
    (p : ClaimPatch) (m : List (String × ClaimPatch)) → IsKeyed m → IsKeyed (insert p.claim_id p m)
unfolding insert
IsKeyed-insert p [] k = (refl, tt)
IsKeyed-insert p ((j, q) ∷ m) (e, k) = elim (Bool-cases (j == p.claim_id)) [
  | inl h ↦ rw h (ground (arith, eq_iff j p.claim_id), k)
  | inr h ↦ rw h (e, IsKeyed-insert p m k)
]

IsKeyed-erase : (c : String) (m : List (String × ClaimPatch)) → IsKeyed m → IsKeyed (erase c m)
unfolding erase
IsKeyed-erase c [] k = tt
IsKeyed-erase c ((j, q) ∷ m) (e, k) = elim (Bool-cases (j == c)) [
  | inl h ↦ rw h (IsKeyed-erase c m k)
  | inr h ↦ rw h (e, IsKeyed-erase c m k)
]

has-strip_order :
    (c s : String) (os : List (String × List String)) → has s (map (strip_order c) os) ≡ has s os
unfolding lookup
has-strip_order c s [] = refl
has-strip_order c s ((j, o) ∷ os) = ground (arith, has-strip_order c s os)

Distinct-strip_order :
    (c : String) (os : List (String × List String))
    → Distinct os
    → Distinct (map (strip_order c) os)
Distinct-strip_order c [] h = tt
Distinct-strip_order c ((j, o) ∷ os) (n, h) =
    (has-strip_order c j os ∙ n, Distinct-strip_order c os h)

-- Every queued change keeps the collections maps and sets.
pub queue-IsFiled : (change : Change) (b : Buffer) → IsFiled b → IsFiled (queue change b)
unfolding queue
queue-IsFiled (edit p) b f = record {
  keyed = IsKeyed-insert p b.edits f.keyed;
  edits = Distinct-insert p.claim_id p b.edits f.edits;
  removals = Once-without p.claim_id b.removals f.removals;
  orders = f.orders;
}
queue-IsFiled (removal c) b f = record {
  keyed = IsKeyed-erase c b.edits f.keyed;
  edits = Distinct-erase c b.edits f.edits;
  removals = Once-add c b.removals f.removals;
  orders = Distinct-strip_order c b.claim_orders f.orders;
}
queue-IsFiled (addition a) b f = record {
  keyed = f.keyed;
  edits = f.edits;
  removals = f.removals;
  orders = f.orders;
}
queue-IsFiled (claim_order s o) b f = record {
  keyed = f.keyed;
  edits = f.edits;
  removals = f.removals;
  orders = Distinct-insert s o b.claim_orders f.orders;
}

restore_edits-IsKeyed :
    (ps : List ClaimPatch) (m : List (String × ClaimPatch))
    → IsKeyed m
    → Distinct m
    → IsKeyed (restore_edits ps m) × Distinct (restore_edits ps m)
unfolding restore_edits
restore_edits-IsKeyed [] m k d = (k, d)
restore_edits-IsKeyed (p ∷ ps) m k d = elim (Bool-cases (has p.claim_id m)) [
  | inl h ↦ rw h (restore_edits-IsKeyed ps m k d)
  | inr h ↦ rw h (
      restore_edits-IsKeyed ps (insert p.claim_id p m) (IsKeyed-insert p m k)
        (Distinct-insert p.claim_id p m d))
]

restore_orders-Distinct :
    (os m : List (String × List String)) → Distinct m → Distinct (restore_orders os m)
unfolding restore_orders
restore_orders-Distinct [] m d = d
restore_orders-Distinct ((s, o) ∷ os) m d = elim (Bool-cases (has s m)) [
  | inl h ↦ rw h (restore_orders-Distinct os m d)
  | inr h ↦ rw h (restore_orders-Distinct os (insert s o m) (Distinct-insert s o m d))
]

add_all-Once : (cs xs : List String) → Once xs → Once (add_all cs xs)
unfolding add_all
add_all-Once [] xs h = h
add_all-Once (c ∷ cs) xs h = add_all-Once cs (add c xs) (Once-add c xs h)

-- So does a refused patch that goes back.
pub restore-IsFiled : (patch : DocumentPatch) (b : Buffer) → IsFiled b → IsFiled (restore patch b)
unfolding restore
restore-IsFiled patch b f = record {
  keyed = (restore_edits-IsKeyed patch.claim_edits b.edits f.keyed f.edits).0;
  edits = (restore_edits-IsKeyed patch.claim_edits b.edits f.keyed f.edits).1;
  removals = add_all-Once patch.claim_removals b.removals f.removals;
  orders = restore_orders-Distinct (or_else patch.claim_orders []) b.claim_orders f.orders;
}

set_edits-IsKeyed :
    (ps : List ClaimPatch) (m : List (String × ClaimPatch))
    → IsKeyed m
    → Distinct m
    → IsKeyed (set_edits ps m) × Distinct (set_edits ps m)
unfolding set_edits
set_edits-IsKeyed [] m k d = (k, d)
set_edits-IsKeyed (p ∷ ps) m k d =
    set_edits-IsKeyed ps (insert p.claim_id p m) (IsKeyed-insert p m k)
      (Distinct-insert p.claim_id p m d)

-- And a stored buffer whose orders have distinct sections.
pub recover-IsFiled :
    (stored : StoredBuffer) (b : Buffer)
    → Distinct stored.claim_orders
    → IsFiled b
    → IsFiled (recover stored b)
unfolding recover
recover-IsFiled stored b d f = record {
  keyed = (set_edits-IsKeyed stored.edits b.edits f.keyed f.edits).0;
  edits = (set_edits-IsKeyed stored.edits b.edits f.keyed f.edits).1;
  removals = add_all-Once stored.removals b.removals f.removals;
  orders = d;
}
