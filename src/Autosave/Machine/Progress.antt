-- ===== src/Autosave/Machine/Progress.antt =====
-- One request at a time, a queue that stops at a conflict, and how it drains (useDraftAutosave.ts).
use full_stack_resume.Common.{
  String, ◌≡◌, refl, Bool, true, false, not, ◌&&◌, none, some, List, [], ◌∷◌, arith, if◌then◌else◌,
  present, is_empty, values,
}
use full_stack_resume.Api.Documents.{DocumentPatch}
use full_stack_resume.Autosave.Buffer.{
  Buffer, empty_buffer, patch_of, empty_patch, is_clear, restore, stored_of,
}
use full_stack_resume.Autosave.Machine.{
  Active, nothing, requesting, returned, Autosave, status_409, other, ConflictRead, read, threw,
  Event, queued, timer_fires, flushed, task_returns, discarded, recovered, unmounted, saved,
  refused, refreshed, reapplied, etag_changed, step, run, settled,
}

-- The answers that a task waits for.
abbrev pub is_answer : Event → Bool
is_answer (saved etag) = true
is_answer (refused error) = true
is_answer _ = false

-- The user's two ways out of a conflict.
abbrev pub is_choice : Event → Bool
is_choice discarded = true
is_choice (reapplied r) = true
is_choice _ = false

abbrev pub is_requesting : Active → Bool
is_requesting (requesting etag patch) = true
is_requesting _ = false

-- While a request is out, no event but its answer replaces it or sends another.
pub step_one_request :
    (e : Event) (s : Autosave) {sent : String} {patch : DocumentPatch}
    → s.active ≡ requesting sent patch
    → is_answer e ≡ false
    → (step e s).active ≡ requesting sent patch
unfolding step
step_one_request (queued c) s h a = ground arith
step_one_request timer_fires s h a = ground arith
step_one_request flushed s h a = ground arith
step_one_request task_returns s h a = ground arith
step_one_request discarded s h a = ground arith
step_one_request recovered s h a = ground arith
step_one_request unmounted s h a = ground arith
step_one_request (saved etag) s h a = cc
step_one_request (refused error) s h a = cc
step_one_request (refreshed r) s h a = ground arith
step_one_request (reapplied (read (some etag))) s h a = ground arith
step_one_request (reapplied (read none)) s h a = ground arith
step_one_request (reapplied threw) s h a = ground arith
step_one_request (etag_changed none) s h a = ground arith
step_one_request (etag_changed (some etag)) s h a = ground arith

-- After a conflict the queue stays halted until the user discards or reapplies the local text, and
-- no event starts a request: one is out afterwards exactly if one was out before and the event is
-- not its answer.
pub step_halted :
    (e : Event) (s : Autosave)
    → s.halted ≡ true
    → is_choice e ≡ false
    → ((step e s).halted ≡ true)
      × (is_requesting (step e s).active ≡ (is_requesting s.active && not (is_answer e)))
unfolding step
step_halted (queued c) s h a = ground arith
step_halted timer_fires s h a = ground arith
step_halted flushed s h a = ground arith
step_halted task_returns s h a = ground arith
step_halted discarded s h a = cc
step_halted recovered s h a = ground arith
step_halted unmounted s h a = ground arith
step_halted (saved etag) s h a = ground arith
step_halted (refused status_409) s h a = ground arith
step_halted (refused (other sentence)) s h a = ground arith
step_halted (refreshed r) s h a = ground arith
step_halted (reapplied r) s h a = cc
step_halted (etag_changed none) s h a = ground arith
step_halted (etag_changed (some etag)) s h a = ground arith

is_empty-values {ℓ} : {V : Type ℓ} (m : List (String × V)) → is_empty (values m) ≡ is_empty m
is_empty-values [] = refl
is_empty-values (x ∷ m) = refl

empty_patch-patch_of : (b : Buffer) → empty_patch (patch_of b) ≡ is_clear b
unfolding empty_patch patch_of is_clear
empty_patch-patch_of b = ground (arith, is_empty-values b.edits)

is_clear-eq : (b : Buffer) → is_clear b ≡ true → b ≡ empty_buffer
unfolding is_clear
is_clear-eq b h = ground arith

is_clear_of_empty : is_clear empty_buffer ≡ true
unfolding is_clear
is_clear_of_empty = refl

stored_of_empty : stored_of empty_buffer ≡ none
unfolding stored_of
stored_of_empty = refl

-- In an Application and not halted, the answer to a request takes along whatever was written meanwhile, under the token that it brings:
-- with nothing written, the task returns and all is settled; otherwise the whole buffer is on its
-- way and the buffer is empty.
pub step-saved_drains :
    (s : Autosave) (sent etag : String) (patch : DocumentPatch)
    → s.active ≡ requesting sent patch
    → s.halted ≡ false
    → present s.application_id ≡ true
    → let t = step (saved (some etag)) s in
      (t.active ≡ (if is_clear s.buffer then returned else requesting etag (patch_of s.buffer)))
      × (t.buffer ≡ empty_buffer)
      × (t.token ≡ some etag)
      × (settled t ≡ is_clear s.buffer)
unfolding step settled
step-saved_drains s sent etag patch h halted app =
    ground (arith, empty_patch-patch_of s.buffer, is_clear-eq s.buffer, is_clear_of_empty)

-- `settle` with a server that accepts: from a quiet hook that is not halted, in an Application and
-- with a token, a flush and one accepted answer leave nothing buffered and nothing in flight, and
-- what was buffered is the patch that went out.
pub settle_drains :
    (s : Autosave) (token etag : String)
    → s.active ≡ nothing
    → s.in_flight ≡ false
    → s.halted ≡ false
    → present s.application_id ≡ true
    → s.token ≡ some token
    → let t = run (flushed ∷ saved (some etag) ∷ []) s in
      (settled t ≡ true)
      × (t.buffer ≡ empty_buffer)
      × ((step flushed s).active
          ≡ (if is_clear s.buffer then returned else requesting token (patch_of s.buffer)))
unfolding step settled
settle_drains s token etag quiet idle_flight halted app tok = ground (
  arith,
  empty_patch-patch_of s.buffer,
  empty_patch-patch_of empty_buffer,
  is_clear-eq s.buffer,
  is_clear_of_empty,
)

-- A conflict loses nothing and a reapplication sends it all: after a 409, the read of the current
-- version and the user's choice to reapply, unless that is nothing the request that is out carries the refused patch and
-- what was written since, under the token that was read last.
pub conflict_reapplied :
    (s : Autosave) (sent etag : String) (patch : DocumentPatch) (r : ConflictRead)
    → s.active ≡ requesting sent patch
    → present s.application_id ≡ true
    → is_clear (restore patch s.buffer) ≡ false
    → (run (refused status_409 ∷ refreshed r ∷ reapplied (read (some etag)) ∷ []) s).active
      ≡ requesting etag (patch_of (restore patch s.buffer))
unfolding step
conflict_reapplied s sent etag patch r h app full =
    ground (arith, empty_patch-patch_of (restore patch s.buffer))

-- A conflict discarded: the buffer and its stored copy are empty, the queue goes on, and nothing is
-- on its way.
pub conflict_discarded :
    (s : Autosave) (sent : String) (patch : DocumentPatch) (r : ConflictRead)
    → s.active ≡ requesting sent patch
    → present s.application_id ≡ true
    → let t = run (refused status_409 ∷ refreshed r ∷ discarded ∷ []) s in
      (t.buffer ≡ empty_buffer) × (t.storage ≡ none) × (t.halted ≡ false) × (t.active ≡ nothing)
unfolding step
conflict_discarded s sent patch r h app = ground (arith, stored_of_empty)
