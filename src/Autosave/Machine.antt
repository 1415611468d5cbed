-- ===== src/Autosave/Machine.antt =====
-- The hook of useDraftAutosave.ts around the buffer: its refs are the state, and what the browser,
-- the user and the server do are the events. JavaScript runs each handler to its end or to its next
-- await, so an event is such a stretch. The storage is taken to work; a handler of the caller
-- (onSaved) is taken to return.
pub mod Consistent
pub mod Invariant
pub mod Progress
pub mod Intent
pub mod Dirty
pub mod Unsaved
use full_stack_resume.Common.{
  String, Bool, true, false, not, ◌&&◌, ◌||◌, Option, none, some, List, [], ◌∷◌, if◌then◌else◌,
  present, values,
}
use full_stack_resume.Api.Documents.{ClaimPatch, ClaimAddition, DocumentPatch}
use full_stack_resume.Autosave.Buffer.{
  Buffer, StoredBuffer, empty_buffer, Change, queue, patch_of, empty_patch, is_clear, restore,
  stored_of, recover,
}

pub data AutosaveStatus : Type 0 where
  idle saving saved failed conflict : AutosaveStatus

-- the sentences it shows: its own on a version that cannot be read, and one of `problemSentence`
pub data Message : Type 0 where
  unreadable : Message
  problem : (sentence : String) → Message

-- the state that the hook publishes
pub record AutosaveState : Type 0 where
  pub status : AutosaveStatus
  pub message : Option Message
  pub pending : List ClaimPatch
  pub pending_removals : List String
  pub pending_additions : List ClaimAddition
  pub pending_claim_orders : List (String × List String)

-- What `activeSave` holds: nothing, a task that waits for the PATCH of a patch under a token, one
-- that waits for `onConflict` after a 409, or one that has returned and whose `then` has not run.
pub data Active : Type 0 where
  nothing : Active
  requesting : (etag : String) (patch : DocumentPatch) → Active
  refreshing : Active
  returned : Active

pub record Autosave : Type 0 where
  pub application_id : Option String
  pub buffer : Buffer
  pub in_flight : Bool
  pub active : Active
  pub token : Option String
  pub timer : Bool
  pub halted : Bool
  pub storage : Option StoredBuffer
  pub state : AutosaveState

-- How a PATCH fails: by a 409, or by anything else, with the sentence that `problemSentence` has
-- for it.
pub data SaveError : Type 0 where
  status_409 : SaveError
  other : (sentence : String) → SaveError

-- `timer_fires`, `flush` and `settle` all come down to a `send`; `task_returns` is the `then` that
-- clears `activeSave`. A read of `onConflict` gives a token, gives null, or throws.
pub data ConflictRead : Type 0 where
  read : Option String → ConflictRead
  threw : ConflictRead

pub data Event : Type 0 where
  queued : Change → Event
  timer_fires flushed task_returns discarded recovered unmounted : Event
  saved : (etag : Option String) → Event
  refused : SaveError → Event
  refreshed reapplied : ConflictRead → Event
  etag_changed : Option String → Event

-- `publish`
unfoldable pub publish : AutosaveStatus → Option Message → Autosave → Autosave
publish status message s = record s {
  state = record {
    status = status;
    message = message;
    pending = values s.buffer.edits;
    pending_removals = s.buffer.removals;
    pending_additions = s.buffer.additions;
    pending_claim_orders = s.buffer.claim_orders;
  };
}

-- `mirror`
unfoldable pub mirror : Autosave → Autosave
mirror s = if present s.application_id then record s { storage = stored_of s.buffer } else s

-- The stretch of `send`'s task up to its request, under the token that it finds.
submit : Option String → Autosave → Autosave
unfolding publish
submit none s = record s { active = returned }
submit (some etag) s =
    if empty_patch (patch_of s.buffer)
    then record s { active = returned }
    else publish saving none (record s {
      buffer = empty_buffer;
      in_flight = true;
      active = requesting etag (patch_of s.buffer);
    })

start : Active → Autosave → Autosave
unfolding submit
start nothing s = if s.halted || not (present s.application_id) then s else submit s.token s
start _ s = s

-- `send`
unfoldable pub send : Autosave → Autosave
unfolding start
send s = start s.active s

-- `schedule`, and the change of the buffer before it
unfoldable pub queue_change : Change → Autosave → Autosave
unfolding publish mirror
queue_change change s =
    let t = mirror (record s { buffer = queue change s.buffer }) in
    record (publish (if t.halted then conflict else idle) none t) { timer = true }

-- The rest of the task when its request is answered.
unfoldable pub accept : Option String → Autosave → Autosave
unfolding publish mirror send
accept etag s = send (record (mirror (publish saved none (record s { token = etag }))) {
  in_flight = false;
  active = nothing;
})

unfoldable pub refuse : SaveError → DocumentPatch → Autosave → Autosave
unfolding publish mirror
refuse status_409 patch s = record (mirror (record s { buffer = restore patch s.buffer })) {
  halted = true;
  active = refreshing;
}
refuse (other sentence) patch s =
    record (publish failed (some (problem sentence))
      (mirror (record s { buffer = restore patch s.buffer }))) {
        in_flight = false;
        active = nothing;
      }

-- the token that a read leaves
abbrev token_after : ConflictRead → Option String → Option String
token_after (read (some etag)) token = some etag
token_after _ token = token

unfoldable pub refresh : ConflictRead → Autosave → Autosave
unfolding publish
refresh r s = record (publish conflict none (record s { token = token_after r s.token })) {
  in_flight = false;
  active = nothing;
}

-- `discardLocal`
unfoldable pub discard_local : Autosave → Autosave
unfolding publish mirror
discard_local s = publish idle none (mirror (record s { buffer = empty_buffer; halted = false }))

-- `reapplyLocal`, from the answer of its read on
unfoldable pub reapply_local : ConflictRead → Autosave → Autosave
unfolding publish send
reapply_local (read (some etag)) s =
    send (publish idle none (record s { token = some etag; halted = false }))
reapply_local _ s = publish conflict (some unreadable) s

-- the effect that recovers a stored buffer
unfoldable pub recover_stored : Option StoredBuffer → Autosave → Autosave
unfolding publish
recover_stored none s = s
recover_stored (some stored) s =
    record (publish idle none (record s { buffer = recover stored s.buffer })) { timer = true }

-- An answer reaches the task that waits for it, and no other.
accepted : Active → Option String → Autosave → Autosave
unfolding accept
accepted (requesting sent patch) etag s = accept etag s
accepted _ etag s = s

rejected : Active → SaveError → Autosave → Autosave
unfolding refuse
rejected (requesting sent patch) error s = refuse error patch s
rejected _ error s = s

reread : Active → ConflictRead → Autosave → Autosave
unfolding refresh
reread refreshing r s = refresh r s
reread _ r s = s

finish : Active → Autosave → Autosave
finish returned s = record s { active = nothing }
finish _ s = s

unfoldable pub step : Event → Autosave → Autosave
unfolding queue_change send discard_local recover_stored accepted rejected reread reapply_local
    finish
step (queued change) s = queue_change change s
step timer_fires s = if s.timer then send (record s { timer = false }) else s
step flushed s = send (record s { timer = false })
step task_returns s = finish s.active s
step discarded s = discard_local s
step recovered s = if present s.application_id then recover_stored s.storage s else s
step unmounted s = send (record s { timer = false })
step (saved etag) s = accepted s.active etag s
step (refused error) s = rejected s.active error s
step (refreshed r) s = reread s.active r s
step (reapplied r) s = reapply_local r s
step (etag_changed none) s = s
step (etag_changed (some etag)) s = record s { token = some etag }

-- `settle`'s answer, read after its `send` has ended
unfoldable pub settled : Autosave → Bool
settled s = not s.halted && not s.in_flight && is_clear s.buffer

-- the first render
unfoldable pub initial : Option String → Option String → Option StoredBuffer → Autosave
initial application_id etag storage = record {
  application_id = application_id;
  buffer = empty_buffer;
  in_flight = false;
  active = nothing;
  token = etag;
  timer = false;
  halted = false;
  storage = storage;
  state = record {
    status = idle;
    message = none;
    pending = [];
    pending_removals = [];
    pending_additions = [];
    pending_claim_orders = [];
  };
}

-- a history of events, the first one first
abbrev pub run : List Event → Autosave → Autosave
run [] s = s
run (e ∷ es) s = run es (step e s)
