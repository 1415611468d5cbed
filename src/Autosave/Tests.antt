-- ===== src/Autosave/Tests.antt =====
-- Runs of the autosave of useDraftAutosave.ts, and its theorems at concrete inputs.
use full_stack_resume.Common.{
  String, ◌≡◌, refl, true, false, ◌&&◌, none, some, [], ◌∷◌, includes, lookup, insert, erase, add,
  has,
}
use full_stack_resume.Api.Documents.{ClaimPatch, DocumentPatch}
use full_stack_resume.Autosave.Buffer.{
  Buffer, empty_buffer, edit, removal, queue, patch_of, empty_patch, is_clear, restore, stored_of,
  recover,
}
use full_stack_resume.Autosave.Buffer.Restore.{restore_keeps}
use full_stack_resume.Autosave.Buffer.Filed.{IsFiled}
use full_stack_resume.Autosave.Buffer.Recovery.{reopened, reopened-stored_of}
use full_stack_resume.Autosave.Buffer.Queue.{IsApart, restore_overlap}
use full_stack_resume.Autosave.Machine.Consistent.{IsConsistent}
use full_stack_resume.Autosave.Machine.Invariant.{
  step-IsConsistent, run-IsConsistent, initial-IsConsistent,
}
use full_stack_resume.Autosave.Machine.Progress.{
  is_requesting, step_halted, settle_drains, conflict_reapplied,
}
use full_stack_resume.Autosave.Machine.Intent.{pending_edit, run-pending_edit}
use full_stack_resume.Autosave.Machine.{
  conflict, requesting, Autosave, status_409, read, threw, queued, timer_fires, flushed, discarded,
  saved, refused, refreshed, reapplied, step, initial, run, settled,
}
use full_stack_resume.Autosave.Machine.Dirty.{dirty, in_request}
use full_stack_resume.Autosave.Machine.Unsaved.{Reached, opens, steps, dirty-saved}

abbrev typed : String → String → ClaimPatch
typed claim text = record {
  claim_id = claim;
  fact_ids = "f1" ∷ [];
  template_id = none;
  template_version = none;
  text = some text;
}

abbrev one_edit : Buffer
one_edit = record empty_buffer { edits = ("c1", typed "c1" "new") ∷ [] }

abbrev one_edit_patch : DocumentPatch
one_edit_patch = record {
  claim_edits = typed "c1" "new" ∷ [];
  claim_removals = [];
  claim_additions = [];
  claim_orders = none;
}

abbrev one_removal : Buffer
one_removal = record empty_buffer { removals = "c1" ∷ [] }

abbrev opened : Autosave
opened = initial (some "app") (some "t0") none

-- typed, the debounce fired: the request for c1 is out, and c2 is typed meanwhile
abbrev on_the_way : Autosave
on_the_way =
    run (queued (edit (typed "c1" "new")) ∷ timer_fires ∷ queued (edit (typed "c2" "more")) ∷ [])
      opened

abbrev conflicted : Autosave
conflicted = run (refused status_409 ∷ refreshed (read (some "t1")) ∷ []) on_the_way

machine : Unit {0}
unfolding step initial settled patch_of empty_patch is_clear restore stored_of recover queue lookup
    insert add erase
machine = tt

on_the_way_test :
    (on_the_way.active ≡ requesting "t0" one_edit_patch)
    × (on_the_way.buffer.edits ≡ ("c2", typed "c2" "more") ∷ [])
    × ((step (saved (some "t1")) on_the_way).token ≡ some "t1")
    × (conflicted.halted ≡ true)
    × (conflicted.buffer.edits ≡ ("c2", typed "c2" "more") ∷ ("c1", typed "c1" "new") ∷ [])
    × (conflicted.state.status ≡ conflict)
unfolding machine
on_the_way_test = (refl, refl, refl, refl, refl, refl)

-- A discard while the conflict's read is still on its way: the conflict is shown again afterwards,
-- with nothing pending and the queue not halted.
discarded_early_test :
    let t = run (refused status_409 ∷ discarded ∷ refreshed (read (some "t1")) ∷ []) on_the_way in
    (t.state.status ≡ conflict) × (t.halted ≡ false) × (t.state.pending ≡ [])
unfolding machine
discarded_early_test = (refl, refl, refl)

on_the_way-IsConsistent : IsConsistent on_the_way
on_the_way-IsConsistent =
    run-IsConsistent
      (queued (edit (typed "c1" "new")) ∷ timer_fires ∷ queued (edit (typed "c2" "more")) ∷ [])
      opened (initial-IsConsistent (some "app") (some "t0") none tt)

restore_keeps_example :
    (lookup "c1" (restore one_edit_patch one_removal).edits ≡ some (typed "c1" "new"))
    × (includes "c1" (restore one_edit_patch one_removal).removals ≡ true)
    × ((restore one_edit_patch one_removal).additions ≡ [])
    × (lookup "s" (restore one_edit_patch one_removal).claim_orders ≡ none)
unfolding lookup
restore_keeps_example = restore_keeps one_edit_patch one_removal "c1" "s"

one_removal-IsApart : IsApart one_removal
unfolding lookup
one_removal-IsApart c = refl

restore_overlap_example :
    (has "c1" (restore one_edit_patch one_removal).edits
      && includes "c1" (restore one_edit_patch one_removal).removals)
    ≡ true
restore_overlap_example = restore_overlap one_edit_patch one_removal "c1" refl

one_edit-IsFiled : IsFiled one_edit
unfolding lookup
one_edit-IsFiled = record { keyed = (refl, tt); edits = (refl, tt); removals = tt; orders = tt }

reopened-stored_of_example : reopened (stored_of one_edit) ≡ one_edit
reopened-stored_of_example = reopened-stored_of one_edit one_edit-IsFiled

step-IsConsistent_example : IsConsistent (step (refused status_409) on_the_way)
step-IsConsistent_example =
    step-IsConsistent (refused status_409) on_the_way on_the_way-IsConsistent

step_halted_example :
    ((step flushed conflicted).halted ≡ true)
    × (is_requesting (step flushed conflicted).active ≡ false)
unfolding machine
step_halted_example = step_halted flushed conflicted refl refl

settle_drains_example :
    let s = step (queued (edit (typed "c1" "new"))) opened in
    let t = run (flushed ∷ saved (some "t1") ∷ []) s in
    (settled t ≡ true)
    × (t.buffer ≡ empty_buffer)
    × ((step flushed s).active ≡ requesting "t0" one_edit_patch)
unfolding machine
settle_drains_example =
    settle_drains (step (queued (edit (typed "c1" "new"))) opened) "t0" "t1" refl refl refl refl
      refl

conflict_reapplied_example :
    (run
      (refused status_409 ∷ refreshed threw ∷ reapplied (read (some "t2")) ∷ [])
      on_the_way).active
    ≡ requesting "t2" (patch_of (restore one_edit_patch on_the_way.buffer))
unfolding machine
conflict_reapplied_example =
    conflict_reapplied on_the_way "t0" "t2" one_edit_patch threw refl refl refl

run-pending_edit_example :
    pending_edit "c1"
      (run (refused status_409 ∷ refreshed threw ∷ queued (removal "c2") ∷ []) on_the_way)
    ≡ some (typed "c1" "new")
unfolding machine
run-pending_edit_example =
    run-pending_edit "c1" (refused status_409 ∷ refreshed threw ∷ queued (removal "c2") ∷ [])
      on_the_way on_the_way-IsConsistent refl

opened-Reached : Reached opened
unfolding machine
opened-Reached = opens (some "app") (some "t0") none

abbrev saved_once : Autosave
saved_once = run (queued (edit (typed "c1" "new")) ∷ timer_fires ∷ saved (some "t1") ∷ []) opened

saved_once-Reached : Reached saved_once
unfolding machine
saved_once-Reached =
    steps (saved (some "t1")) refl
      (steps timer_fires refl (steps (queued (edit (typed "c1" "new"))) refl opened-Reached))

-- Typed text makes the screen dirty.
dirty_test : dirty on_the_way ≡ true
unfolding machine dirty
dirty_test = refl

-- Two presses after a conflict: the second answer comes when the first has sent the request.
abbrev pressed_twice : Autosave
pressed_twice =
    run
      (queued (edit (typed "c1" "new"))
        ∷ timer_fires
        ∷ refused status_409
        ∷ refreshed threw
        ∷ reapplied (read (some "t2"))
        ∷ [])
      opened

dirty-saved_example :
    (is_clear saved_once.buffer ≡ true)
    × (in_request saved_once.active ≡ false)
    × (dirty (step (reapplied (read (some "t2"))) pressed_twice) ≡ false)
    × (in_request (step (reapplied (read (some "t2"))) pressed_twice).active ≡ true)
unfolding machine dirty
dirty-saved_example = dirty-saved pressed_twice "t2" saved_once-Reached refl refl refl
