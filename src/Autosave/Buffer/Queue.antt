-- ===== src/Autosave/Buffer/Queue.antt =====
-- What the queue functions of useDraftAutosave.ts leave in the buffer: of each claim at most one of
-- an edit and a removal, which a refused patch may break.
use full_stack_resume.Common.{
  String, true, false, not, ◌&&◌, ◌||◌, none, some, List, [], ◌∷◌, map, lookup, lookup-insert,
  lookup-erase, includes-add, includes-without, has, includes, ◌==◌, if◌then◌else◌, present, All,
  ◌≡◌, arith, eq_iff,
}
use full_stack_resume.Api.Documents.{ClaimPatch, DocumentPatch}
use full_stack_resume.Autosave.Buffer.{
  Buffer, Change, edit, removal, addition, claim_order, queue, strip_order, restore,
}
use full_stack_resume.Autosave.Buffer.Restore.{find_edit, restore_keeps}

-- No claim is both edited and removed.
abbrev pub IsApart : Buffer → Type 0
IsApart b = (c : String) → (has c b.edits && includes c b.removals) ≡ false

strip_order-includes :
    (c : String) (os : List (String × List String))
    → All (λ (o : String × List String). includes c o.1 ≡ false) (map (strip_order c) os)
strip_order-includes c [] = tt
strip_order-includes c ((s, order) ∷ os) =
    (ground (arith, includes-without c c order, eq_iff c c), strip_order-includes c os)

-- An edit or a removal of a claim replaces whatever waited for that claim, and nothing of another:
-- after an edit the claim has it and no removal, after a removal it has no edit, is removed, and no
-- queued order names it.
pub queue_replaces :
    (p : ClaimPatch) (b : Buffer) (c d : String)
    → (lookup d (queue (edit p) b).edits ≡ (if p.claim_id == d then some p else lookup d b.edits))
      × (includes d (queue (edit p) b).removals ≡ (includes d b.removals && not (p.claim_id == d)))
      × (lookup d (queue (removal c) b).edits ≡ (if c == d then none else lookup d b.edits))
      × (includes d (queue (removal c) b).removals ≡ (includes d b.removals || c == d))
      × All
          (λ (o : String × List String). includes c o.1 ≡ false)
          (queue (removal c) b).claim_orders
unfolding queue
queue_replaces p b c d = (
  lookup-insert p.claim_id d p b.edits,
  includes-without d p.claim_id b.removals,
  lookup-erase c d b.edits,
  includes-add c d b.removals,
  strip_order-includes c b.claim_orders,
)

-- Every queued change keeps edits and removals apart.
pub queue-IsApart : (change : Change) (b : Buffer) → IsApart b → IsApart (queue change b)
unfolding queue
queue-IsApart (edit p) b h c =
    ground
      (arith, h c, lookup-insert p.claim_id c p b.edits, includes-without c p.claim_id b.removals)
queue-IsApart (removal d) b h c =
    ground (arith, h c, lookup-erase d c b.edits, includes-add d c b.removals)
queue-IsApart (addition a) b h c = h c
queue-IsApart (claim_order s o) b h c = h c

-- A refused patch mixes edits and removals: what was edited in the patch and removed since, or removed in the patch
-- and edited since, is both edited and removed in the buffer, so the next patch sends both.
pub restore_overlap :
    (patch : DocumentPatch) (b : Buffer) (c : String)
    → ((present (find_edit c patch.claim_edits) && includes c b.removals)
        || (includes c patch.claim_removals && has c b.edits))
      ≡ true
    → (has c (restore patch b).edits && includes c (restore patch b).removals) ≡ true
restore_overlap patch b c h = ground (arith, restore_keeps patch b c c)
