-- ===== src/Autosave/Buffer/Restore.antt =====
-- What `restore` leaves in the buffer of useDraftAutosave.ts, and what the queued changes keep apart.
use full_stack_resume.Common.{
  String, ◌||◌, Option, List, [], ◌∷◌, ◌++◌, insert, lookup, lookup-insert, includes-add, add,
  includes, ◌==◌, or_else, first_of_two, find, ◌≡◌, refl, arith, eq_iff,
}
use full_stack_resume.Api.Documents.{ClaimPatch, DocumentPatch}
use full_stack_resume.Autosave.Buffer.{Buffer, restore, restore_edits, add_all, restore_orders}

-- The first edit of a claim in a patch.
abbrev pub find_edit : String → List ClaimPatch → Option ClaimPatch
find_edit c ps = find (λ (p : ClaimPatch). p.claim_id == c) ps

lookup-restore_edits :
    (c : String) (ps : List ClaimPatch) (m : List (String × ClaimPatch))
    → lookup c (restore_edits ps m) ≡ first_of_two (lookup c m) (find_edit c ps)
unfolding restore_edits
lookup-restore_edits c [] m = ground arith
lookup-restore_edits c (p ∷ ps) m = ground (
  arith,
  eq_iff p.claim_id c,
  lookup-insert p.claim_id c p m,
  lookup-restore_edits c ps m,
  lookup-restore_edits c ps (insert p.claim_id p m),
)

lookup-restore_orders :
    (s : String) (os m : List (String × List String))
    → lookup s (restore_orders os m) ≡ first_of_two (lookup s m) (lookup s os)
unfolding restore_orders lookup
lookup-restore_orders s [] m = ground arith
lookup-restore_orders s ((j, order) ∷ os) m = ground (
  arith,
  eq_iff j s,
  lookup-insert j s order m,
  lookup-restore_orders s os m,
  lookup-restore_orders s os (insert j order m),
)

pub includes-add_all :
    (c : String) (cs removals : List String)
    → includes c (add_all cs removals) ≡ (includes c removals || includes c cs)
unfolding add_all
includes-add_all c [] removals = ground arith
includes-add_all c (d ∷ cs) removals =
    ground (arith, includes-add d c removals, includes-add_all c cs (add d removals))

-- A refused patch goes back whole: each claim keeps its newer edit if it has one and gets the
-- patch's otherwise, each section's order likewise, the removals of both are kept, and the patch's
-- additions come before the newer ones.
pub restore_keeps :
    (patch : DocumentPatch) (b : Buffer) (c s : String)
    → (lookup c (restore patch b).edits
        ≡ first_of_two (lookup c b.edits) (find_edit c patch.claim_edits))
      × (includes c (restore patch b).removals
          ≡ (includes c b.removals || includes c patch.claim_removals))
      × ((restore patch b).additions ≡ patch.claim_additions ++ b.additions)
      × (lookup s (restore patch b).claim_orders
          ≡ first_of_two (lookup s b.claim_orders) (lookup s (or_else patch.claim_orders [])))
unfolding restore
restore_keeps patch b c s = (
  lookup-restore_edits c patch.claim_edits b.edits,
  includes-add_all c patch.claim_removals b.removals,
  refl,
  lookup-restore_orders s (or_else patch.claim_orders []) b.claim_orders,
)
