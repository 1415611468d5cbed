-- ===== src/Autosave/Buffer.antt =====
-- The local buffer of useDraftAutosave.ts: four collections in refs, the patch made of them, and the
-- copy of them in the session's storage. Sections named like an array index, which a JavaScript
-- object would list first, are left aside.
pub mod Queue
pub mod Restore
pub mod Filed
pub mod Recovery
use full_stack_resume.Common.{
  String, Bool, ◌&&◌, Option, none, some, List, [], ◌∷◌, ◌++◌, map, insert, erase, has, values, add,
  includes, without, is_empty, if◌then◌else◌, or_else,
}
use full_stack_resume.Api.Documents.{ClaimPatch, ClaimAddition, DocumentPatch}

pub record Buffer : Type 0 where
  pub edits : List (String × ClaimPatch)
  pub removals : List String
  pub additions : List ClaimAddition
  pub claim_orders : List (String × List String)

abbrev pub empty_buffer : Buffer
empty_buffer = record { edits = []; removals = []; additions = []; claim_orders = [] }

-- `StoredBuffer`
pub record StoredBuffer : Type 0 where
  pub edits : List ClaimPatch
  pub removals : List String
  pub additions : List ClaimAddition
  pub claim_orders : List (String × List String)

-- `emptyPatch`
unfoldable pub empty_patch : DocumentPatch → Bool
empty_patch patch =
    is_empty patch.claim_edits
    && is_empty patch.claim_removals
    && is_empty patch.claim_additions
    && is_empty (or_else patch.claim_orders [])

-- the patch that `send` reads off the buffer
unfoldable pub patch_of : Buffer → DocumentPatch
patch_of b = record {
  claim_edits = values b.edits;
  claim_removals = b.removals;
  claim_additions = b.additions;
  claim_orders = if is_empty b.claim_orders then none else some b.claim_orders;
}

-- `settle`'s test that nothing waits
unfoldable pub is_clear : Buffer → Bool
is_clear b =
    is_empty b.edits && is_empty b.removals && is_empty b.additions && is_empty b.claim_orders

-- The changes that `queueEdit`, `queueRemoval`, `queueAddition` and `queueClaimOrder` make.
unfoldable pub put_edit : ClaimPatch → Buffer → Buffer
put_edit patch b = record b {
  edits = insert patch.claim_id patch b.edits;
  removals = without patch.claim_id b.removals;
}

abbrev pub strip_order : String → String × List String → String × List String
strip_order claim_id (section, order) =
    (section, if includes claim_id order then without claim_id order else order)

unfoldable pub put_removal : String → Buffer → Buffer
put_removal claim_id b = record b {
  edits = erase claim_id b.edits;
  removals = add claim_id b.removals;
  claim_orders = map (strip_order claim_id) b.claim_orders;
}

unfoldable pub put_addition : ClaimAddition → Buffer → Buffer
put_addition addition b = record b { additions = b.additions ++ addition ∷ [] }

unfoldable pub put_claim_order : String → List String → Buffer → Buffer
put_claim_order section order b = record b { claim_orders = insert section order b.claim_orders }

-- What the user can queue, and the buffer after it.
pub data Change : Type 0 where
  edit : ClaimPatch → Change
  removal : (claim_id : String) → Change
  addition : ClaimAddition → Change
  claim_order : (section : String) (order : List String) → Change

unfoldable pub queue : Change → Buffer → Buffer
unfolding put_edit put_removal put_addition put_claim_order
queue (edit patch) b = put_edit patch b
queue (removal claim_id) b = put_removal claim_id b
queue (addition a) b = put_addition a b
queue (claim_order section order) b = put_claim_order section order b

-- The loops of `restore`: an entry goes back only where the buffer has no newer one.
unfoldable pub restore_edits :
    List ClaimPatch → List (String × ClaimPatch) → List (String × ClaimPatch)
restore_edits [] m = m
restore_edits (p ∷ ps) m = restore_edits ps (if has p.claim_id m then m else insert p.claim_id p m)

unfoldable pub add_all : List String → List String → List String
add_all [] removals = removals
add_all (c ∷ cs) removals = add_all cs (add c removals)

unfoldable pub restore_orders :
    List (String × List String) → List (String × List String) → List (String × List String)
restore_orders [] m = m
restore_orders ((section, order) ∷ os) m =
    restore_orders os (if has section m then m else insert section order m)

-- `restore`
unfoldable pub restore : DocumentPatch → Buffer → Buffer
unfolding restore_edits add_all restore_orders
restore patch b = record {
  edits = restore_edits patch.claim_edits b.edits;
  removals = add_all patch.claim_removals b.removals;
  additions = patch.claim_additions ++ b.additions;
  claim_orders = restore_orders (or_else patch.claim_orders []) b.claim_orders;
}

-- the copy that `mirror` makes of the buffer
abbrev pub written : Buffer → StoredBuffer
written b = record {
  edits = values b.edits;
  removals = b.removals;
  additions = b.additions;
  claim_orders = b.claim_orders;
}

-- `writeStoredBuffer`, with the storage at hand: the entry that it leaves
unfoldable pub stored_of : Buffer → Option StoredBuffer
unfolding is_clear
stored_of b = if is_clear b then none else some (written b)

unfoldable pub set_edits : List ClaimPatch → List (String × ClaimPatch) → List (String × ClaimPatch)
set_edits [] m = m
set_edits (p ∷ ps) m = set_edits ps (insert p.claim_id p m)

-- the effect that recovers a stored buffer
unfoldable pub recover : StoredBuffer → Buffer → Buffer
unfolding set_edits add_all
recover stored b = record {
  edits = set_edits stored.edits b.edits;
  removals = add_all stored.removals b.removals;
  additions = b.additions ++ stored.additions;
  claim_orders = stored.claim_orders;
}
