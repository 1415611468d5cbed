-- ===== src/Autosave/Machine/Intent.antt =====
-- What the user wrote stays until the server has it (useDraftAutosave.ts).
use full_stack_resume.Common.{
  String, ◌≡◌, refl, ◌∙◌, Bool, true, false, not, Option, none, some, List, [], ◌∷◌, arith, ◌==◌,
  eq_iff, first_of_two, all, lookup, values,
}
use full_stack_resume.Api.Documents.{ClaimPatch, DocumentPatch}
use full_stack_resume.Autosave.Buffer.{
  Buffer, Change, edit, removal, addition, claim_order, queue, patch_of,
}
use full_stack_resume.Autosave.Machine.{
  idle, Active, nothing, requesting, refreshing, returned, Autosave, SaveError, status_409, other,
  read, threw, Event, queued, timer_fires, flushed, task_returns, discarded, recovered, unmounted,
  saved, refused, refreshed, reapplied, etag_changed, publish, mirror, send, accept, accepted,
  rejected, step, run,
}
use full_stack_resume.Autosave.Buffer.Restore.{find_edit}
use full_stack_resume.Autosave.Buffer.Filed.{IsKeyed, IsFiled}
use full_stack_resume.Autosave.Buffer.Queue.{queue_replaces}
use full_stack_resume.Autosave.Buffer.Restore.{find_edit, restore_keeps}
use full_stack_resume.Autosave.Machine.Consistent.{IsConsistent}
use full_stack_resume.Autosave.Machine.Invariant.{step-IsConsistent}

abbrev flight_edit : String → Active → Option ClaimPatch
flight_edit c (requesting etag patch) = find_edit c patch.claim_edits
flight_edit c _ = none

-- The newest edit of a claim that the server has not accepted: in the buffer, else on its way.
abbrev pub pending_edit : String → Autosave → Option ClaimPatch
pending_edit c s = first_of_two (lookup c s.buffer.edits) (flight_edit c s.active)

-- The events that do not concern the pending edit of a claim: all but its own edit or removal, the
-- user's discarding, the recovery of a stored buffer and an accepting answer.
abbrev pub leaves : String → Event → Bool
leaves c (queued (edit p)) = not (p.claim_id == c)
leaves c (queued (removal d)) = not (d == c)
leaves c discarded = false
leaves c recovered = false
leaves c (saved etag) = false
leaves c _ = true

find_edit-values :
    (c : String) (m : List (String × ClaimPatch)) → IsKeyed m → find_edit c (values m) ≡ lookup c m
unfolding lookup
find_edit-values c [] k = refl
find_edit-values c ((j, p) ∷ m) (e, k) =
    ground (arith, find_edit-values c m k, eq_iff j c, eq_iff p.claim_id c)

patch_of-edits : (b : Buffer) → (patch_of b).claim_edits ≡ values b.edits
unfolding patch_of
patch_of-edits b = refl

lookup_nil : (c : String) → lookup {V = ClaimPatch} c [] ≡ none
unfolding lookup
lookup_nil c = refl

abbrev blank_patch : ClaimPatch
blank_patch = record {
  claim_id = "";
  fact_ids = [];
  template_id = none;
  template_version = none;
  text = none;
}

send-pending_edit :
    (c : String) (s : Autosave) → IsFiled s.buffer → pending_edit c (send s) ≡ pending_edit c s
unfolding send
send-pending_edit c s f =
    ground (arith, find_edit-values c s.buffer.edits f.keyed, patch_of-edits s.buffer, lookup_nil c)

queue-leaves :
    (c : String) (change : Change) (b : Buffer)
    → leaves c (queued change) ≡ true
    → lookup c (queue change b).edits ≡ lookup c b.edits
unfolding queue
queue-leaves c (edit p) b h = ground (arith, queue_replaces p b c c)
queue-leaves c (removal d) b h = ground (arith, queue_replaces blank_patch b d c)
queue-leaves c (addition a) b h = refl
queue-leaves c (claim_order s o) b h = refl

rejected-pending_edit :
    (c : String) (error : SaveError) (a : Active) (s : Autosave)
    → s.active ≡ a
    → pending_edit c (rejected a error s) ≡ pending_edit c s
unfolding rejected
rejected-pending_edit c status_409 (requesting sent p) s e =
    ground (arith, restore_keeps p s.buffer c c)
rejected-pending_edit c (other sentence) (requesting sent p) s e =
    ground (arith, restore_keeps p s.buffer c c)
rejected-pending_edit c error nothing s e = refl
rejected-pending_edit c error refreshing s e = refl
rejected-pending_edit c error returned s e = refl

-- The pending edit of a claim survives every event that does not concern it: debounce, flush, other
-- edits, a refused save, a conflict, its refresh and a reapplication.
pub step-pending_edit :
    (c : String) (e : Event) (s : Autosave)
    → IsConsistent s
    → leaves c e ≡ true
    → pending_edit c (step e s) ≡ pending_edit c s
unfolding step
step-pending_edit c (queued change) s h l = ground (arith, queue-leaves c change s.buffer)
step-pending_edit c timer_fires s h l =
    ground (arith, send-pending_edit c (record s { timer = false }) h.filed)
step-pending_edit c flushed s h l = send-pending_edit c (record s { timer = false }) h.filed
step-pending_edit c task_returns s h l = ground arith
step-pending_edit c discarded s h l = cc
step-pending_edit c recovered s h l = cc
step-pending_edit c unmounted s h l = send-pending_edit c (record s { timer = false }) h.filed
step-pending_edit c (saved etag) s h l = cc
step-pending_edit c (refused error) s h l = rejected-pending_edit c error s.active s refl
step-pending_edit c (refreshed r) s h l = ground arith
step-pending_edit c (reapplied (read (some etag))) s h l =
    send-pending_edit c (publish idle none (record s { token = some etag; halted = false })) h.filed
step-pending_edit c (reapplied (read none)) s h l = ground arith
step-pending_edit c (reapplied threw) s h l = ground arith
step-pending_edit c (etag_changed none) s h l = refl
step-pending_edit c (etag_changed (some etag)) s h l = refl

-- From a consistent hook, over any history of events that do not concern a claim (no edit or removal
-- of it, no discarding, no recovery of a stored buffer, no accepting answer), the claim's pending
-- edit stays what it was, through refusals, conflicts and reapplications.
pub run-pending_edit :
    (c : String) (es : List Event) (s : Autosave)
    → IsConsistent s
    → all (leaves c) es ≡ true
    → pending_edit c (run es s) ≡ pending_edit c s
run-pending_edit c [] s h l = refl
run-pending_edit c (e ∷ es) s h l =
    run-pending_edit c es (step e s) (step-IsConsistent e s h) (ground arith)
    ∙ step-pending_edit c e s h (ground arith)

mirror-buffer : (s : Autosave) → (mirror s).buffer ≡ s.buffer
unfolding mirror
mirror-buffer s = ground arith

accept-pending_edit :
    (c : String) (etag : Option String) (s : Autosave)
    → IsFiled s.buffer
    → pending_edit c (accept etag s) ≡ lookup c s.buffer.edits
unfolding accept
accept-pending_edit c etag s f =
    let noted = publish saved none (record s { token = etag }) in
    send-pending_edit c (record (mirror noted) { in_flight = false; active = nothing })
      (rw (mirror-buffer noted) f)
    ∙ ground (arith, mirror-buffer noted)

accepted-pending_edit :
    (c : String) (etag : Option String) (a : Active) (s : Autosave) {sent : String}
    {patch : DocumentPatch}
    → a ≡ requesting sent patch
    → IsFiled s.buffer
    → pending_edit c (accepted a etag s) ≡ lookup c s.buffer.edits
unfolding accepted
accepted-pending_edit c etag (requesting t p) s e f = accept-pending_edit c etag s f
accepted-pending_edit c etag nothing s e f = cc
accepted-pending_edit c etag refreshing s e f = cc
accepted-pending_edit c etag returned s e f = cc

-- An accepting answer takes away what its request carried and nothing else: the claim's pending edit
-- is then the one written since, whether it waits or is on its way.
pub saved-pending_edit :
    (c : String) (s : Autosave) (sent : String) (patch : DocumentPatch) (etag : Option String)
    → IsConsistent s
    → s.active ≡ requesting sent patch
    → pending_edit c (step (saved etag) s) ≡ lookup c s.buffer.edits
unfolding step
saved-pending_edit c s sent patch etag h a = accepted-pending_edit c etag s.active s a h.filed
