-- ===== src/Autosave/Machine/Consistent.antt =====
-- The invariant of the hook's refs in useDraftAutosave.ts, and that each handler keeps it.
use full_stack_resume.Common.{
  String, ◌≡◌, refl, ap, ◌∙◌, inl, inr, Bool, true, false, not, ◌||◌, Option, none, some, arith,
  Bool-cases, present,
}
use full_stack_resume.Api.Documents.{DocumentPatch}
use full_stack_resume.Autosave.Buffer.{
  Buffer, StoredBuffer, empty_buffer, Change, queue, patch_of, empty_patch, is_clear, restore,
  stored_of, recover,
}
use full_stack_resume.Autosave.Buffer.Filed.{
  Distinct, IsFiled, empty-IsFiled, queue-IsFiled, restore-IsFiled, recover-IsFiled,
}
use full_stack_resume.Autosave.Machine.{
  failed, conflict, idle, token_after, Active, AutosaveStatus, Message, nothing, requesting,
  refreshing, returned, Autosave, SaveError, status_409, other, ConflictRead, read, threw, saved,
  publish, mirror, send, queue_change, accept, refuse, refresh, discard_local, reapply_local,
  recover_stored, submit, start,
}

abbrev pub is_busy : Active → Bool
is_busy nothing = false
is_busy (requesting etag patch) = true
is_busy refreshing = true
is_busy returned = false

-- A patch on its way is not empty.
abbrev pub IsSendable : Active → Type 0
IsSendable (requesting etag patch) = empty_patch patch ≡ false
IsSendable _ = Unit

-- A stored buffer has each section once.
abbrev pub IsStored : Option StoredBuffer → Type 0
IsStored none = Unit
IsStored (some b) = Distinct b.claim_orders

-- `inFlight` says whether a task waits for the server; a task that does belongs to an Application
-- and carries something; the buffer is made of maps and sets.
pub record IsConsistent (s : Autosave) : Type 0 where
  pub flight : s.in_flight ≡ is_busy s.active
  pub addressed : is_busy s.active ≡ true → present s.application_id ≡ true
  pub sendable : IsSendable s.active
  pub filed : IsFiled s.buffer
  pub stored : IsStored s.storage

submit-IsConsistent :
    (t : Option String) (s : Autosave)
    → present s.application_id ≡ true
    → s.active ≡ nothing
    → IsConsistent s
    → IsConsistent (submit t s)
unfolding submit publish
submit-IsConsistent none s a e h = record {
  flight = ground (arith, h.flight);
  addressed = λ b. cc;
  sendable = tt;
  filed = h.filed;
  stored = h.stored;
}
submit-IsConsistent (some t) s a e h = elim (Bool-cases (empty_patch (patch_of s.buffer))) [
  | inl none_left ↦ rw none_left (record {
    flight = ground (arith, h.flight);
    addressed = λ b. cc;
    sendable = tt;
    filed = h.filed;
    stored = h.stored;
  })
  | inr some_left ↦ rw some_left (record {
    flight = refl;
    addressed = λ b. a;
    sendable = some_left;
    filed = empty-IsFiled;
    stored = h.stored;
  })
]

start-IsConsistent :
    (a : Active) (s : Autosave) → s.active ≡ a → IsConsistent s → IsConsistent (start a s)
unfolding start
start-IsConsistent nothing s e h = elim (Bool-cases (s.halted || not (present s.application_id))) [
  | inl stays ↦ rw stays h
  | inr sends ↦ rw sends (submit-IsConsistent s.token s (ground arith) e h)
]
start-IsConsistent (requesting t p) s e h = h
start-IsConsistent refreshing s e h = h
start-IsConsistent returned s e h = h

pub send-IsConsistent : (s : Autosave) → IsConsistent s → IsConsistent (send s)
unfolding send
send-IsConsistent s h = start-IsConsistent s.active s refl h

stored_of-IsStored : (b : Buffer) → IsFiled b → IsStored (stored_of b)
unfolding stored_of
stored_of-IsStored b f = elim (Bool-cases (is_clear b)) [ inl e ↦ rw e tt | inr e ↦ rw e f.orders ]

pub mirror-IsConsistent : (s : Autosave) → IsConsistent s → IsConsistent (mirror s)
unfolding mirror
mirror-IsConsistent s h = elim (Bool-cases (present s.application_id)) [
  | inl e ↦ rw e (record {
    flight = h.flight;
    addressed = h.addressed;
    sendable = h.sendable;
    filed = h.filed;
    stored = stored_of-IsStored s.buffer h.filed;
  })
  | inr e ↦ rw e h
]

pub publish-IsConsistent :
    (status : AutosaveStatus) (m : Option Message) (s : Autosave)
    → IsConsistent s
    → IsConsistent (publish status m s)
unfolding publish
publish-IsConsistent status m s h = record {
  flight = h.flight;
  addressed = h.addressed;
  sendable = h.sendable;
  filed = h.filed;
  stored = h.stored;
}

-- A change of the refs that the invariant does not name.
pub keeps :
    (s : Autosave) (b : Buffer) (token : Option String) (timer halted : Bool)
    → IsConsistent s
    → IsFiled b
    → IsConsistent (record s { buffer = b; token = token; timer = timer; halted = halted })
keeps s b token timer halted h f = record {
  flight = h.flight;
  addressed = h.addressed;
  sendable = h.sendable;
  filed = f;
  stored = h.stored;
}

-- The task ends.
ends :
    (s : Autosave)
    → IsConsistent s
    → IsConsistent (record s { in_flight = false; active = nothing })
ends s h = record {
  flight = refl;
  addressed = λ b. cc;
  sendable = tt;
  filed = h.filed;
  stored = h.stored;
}

-- The buffer changes and is mirrored.
files :
    (s : Autosave) (b : Buffer)
    → IsConsistent s
    → IsFiled b
    → IsConsistent (mirror (record s { buffer = b }))
files s b h f = mirror-IsConsistent _ (keeps s b s.token s.timer s.halted h f)

scheduled : (s : Autosave) → IsConsistent s → IsConsistent (record s { timer = true })
scheduled s h = keeps s s.buffer s.token true s.halted h h.filed

pub unscheduled : (s : Autosave) → IsConsistent s → IsConsistent (record s { timer = false })
unscheduled s h = keeps s s.buffer s.token false s.halted h h.filed

pub queue_change-IsConsistent :
    (c : Change) (s : Autosave) → IsConsistent s → IsConsistent (queue_change c s)
unfolding queue_change
queue_change-IsConsistent c s h = scheduled _ (
    publish-IsConsistent _ none _ (files s (queue c s.buffer) h (queue-IsFiled c s.buffer h.filed)))

pub accept-IsConsistent :
    (etag : Option String) (s : Autosave) → IsConsistent s → IsConsistent (accept etag s)
unfolding accept
accept-IsConsistent etag s h = send-IsConsistent _ (
    ends _ (
      mirror-IsConsistent _
        (publish-IsConsistent saved none _ (keeps s s.buffer etag s.timer s.halted h h.filed))))

mirror-active : (s : Autosave) → (mirror s).active ≡ s.active
unfolding mirror
mirror-active s = ground arith

mirror-application : (s : Autosave) → (mirror s).application_id ≡ s.application_id
unfolding mirror
mirror-application s = ground arith

pub refuse-IsConsistent :
    (error : SaveError) (patch : DocumentPatch) (s : Autosave)
    → is_busy s.active ≡ true
    → IsConsistent s
    → IsConsistent (refuse error patch s)
unfolding refuse
refuse-IsConsistent status_409 patch s busy h =
    let m = files s (restore patch s.buffer) h (restore-IsFiled patch s.buffer h.filed) in
    record {
      flight = m.flight ∙ ap is_busy (mirror-active _) ∙ busy;
      addressed = λ b. ap present (mirror-application _) ∙ h.addressed busy;
      sendable = tt;
      filed = m.filed;
      stored = m.stored;
    }
refuse-IsConsistent (other sentence) patch s busy h = ends _ (
    publish-IsConsistent failed _ _
      (files s (restore patch s.buffer) h (restore-IsFiled patch s.buffer h.filed)))

pub refresh-IsConsistent :
    (r : ConflictRead) (s : Autosave) → IsConsistent s → IsConsistent (refresh r s)
unfolding refresh
refresh-IsConsistent r s h = ends _ (
    publish-IsConsistent conflict none _
      (keeps s s.buffer (token_after r s.token) s.timer s.halted h h.filed))

pub discard_local-IsConsistent : (s : Autosave) → IsConsistent s → IsConsistent (discard_local s)
unfolding discard_local
discard_local-IsConsistent s h =
    publish-IsConsistent idle none _
      (mirror-IsConsistent _ (keeps s empty_buffer s.token s.timer false h empty-IsFiled))

pub reapply_local-IsConsistent :
    (r : ConflictRead) (s : Autosave) → IsConsistent s → IsConsistent (reapply_local r s)
unfolding reapply_local
reapply_local-IsConsistent (read (some etag)) s h =
    send-IsConsistent _
      (publish-IsConsistent idle none _ (keeps s s.buffer (some etag) s.timer false h h.filed))
reapply_local-IsConsistent (read none) s h = publish-IsConsistent conflict _ s h
reapply_local-IsConsistent threw s h = publish-IsConsistent conflict _ s h

pub recover_stored-IsConsistent :
    (o : Option StoredBuffer) (s : Autosave)
    → IsStored o
    → IsConsistent s
    → IsConsistent (recover_stored o s)
unfolding recover_stored
recover_stored-IsConsistent none s d h = h
recover_stored-IsConsistent (some b) s d h = scheduled _ (
    publish-IsConsistent idle none _ (
      keeps s (recover b s.buffer) s.token s.timer s.halted h
        (recover-IsFiled b s.buffer d h.filed)))
