-- ===== src/Autosave/Machine/Dirty.antt =====
-- When the draft's screen counts as dirty (frontend/src/features/drafts/hooks/useDraftEditing.ts), and
-- what useDraftAutosave.ts makes of it.
use full_stack_resume.Common.{
  String, ◌≡◌, refl, ap, ◌∙◌, inl, inr, Bool, true, false, not, ◌||◌, Option, none, some, List, [],
  ◌∷◌, ◌++◌, arith, ◌==◌, if◌then◌else◌, Bool-cases, present, is_empty, includes, insert, add,
  values,
}
use full_stack_resume.Api.Documents.{ClaimPatch}
use full_stack_resume.Autosave.Buffer.{
  Buffer, empty_buffer, Change, edit, removal, addition, claim_order, queue, put_edit, put_removal,
  put_addition, put_claim_order, patch_of, empty_patch, is_clear,
}
use full_stack_resume.Autosave.Machine.{
  AutosaveStatus, idle, saving, conflict, Active, nothing, requesting, refreshing, returned,
  Autosave, AutosaveState, Event, discarded, recovered, reapplied, Message, publish, mirror, send,
  start, submit, queue_change,
}

abbrev pub is_unsettled : AutosaveStatus → Bool
is_unsettled saving = true
is_unsettled conflict = true
is_unsettled _ = false

-- `dirty`
unfoldable pub dirty : Autosave → Bool
dirty a =
    is_unsettled a.state.status
    || not (is_empty a.state.pending)
    || not (is_empty a.state.pending_removals)
    || not (is_empty a.state.pending_additions)
    || not (is_empty a.state.pending_claim_orders)

abbrev pub is_conflict : AutosaveStatus → Bool
is_conflict conflict = true
is_conflict _ = false

abbrev pub in_request : Active → Bool
in_request (requesting etag patch) = true
in_request _ = false

abbrev is_free : Active → Bool
is_free nothing = true
is_free _ = false

-- Whether an event comes in its place: a discarding and the answer of the read that a reapplication makes
-- while the dialog is open, and a recovery of a stored buffer while no save runs. The dialog's buttons are
-- there only while it is open, but the read is answered later, and a second press makes a second read,
-- whose answer comes when the first has closed the dialog.
abbrev pub is_in_place : Event → Autosave → Bool
is_in_place discarded a = is_conflict a.state.status
is_in_place (reapplied r) a = is_conflict a.state.status
is_in_place recovered a = is_free a.active
is_in_place _ a = true

-- Whether the published lists name anything.
abbrev lists : AutosaveState → Bool
lists t =
    not (is_empty t.pending)
    || not (is_empty t.pending_removals)
    || not (is_empty t.pending_additions)
    || not (is_empty t.pending_claim_orders)

-- A buffer with something in it shows as dirty, and a request does, with no conflict and no halt.
pub record IsShown (a : Autosave) : Type 0 where
  pub waits : is_clear a.buffer ≡ false → dirty a ≡ true
  pub sends : in_request a.active ≡ true → dirty a ≡ true
  pub calm : in_request a.active ≡ true → (is_conflict a.state.status || a.halted) ≡ false

is_empty-values : (m : List (String × ClaimPatch)) → is_empty (values m) ≡ is_empty m
is_empty-values [] = refl
is_empty-values (e ∷ m) = refl

pub publish-dirty :
    (status : AutosaveStatus) (message : Option Message) (a : Autosave)
    → dirty (publish status message a) ≡ (is_unsettled status || not (is_clear a.buffer))
unfolding dirty publish is_clear
publish-dirty status message a = ground (arith, is_empty-values a.buffer.edits)

publish-IsShown :
    (status : AutosaveStatus) (message : Option Message) (a : Autosave)
    → (in_request a.active ≡ true
        → ((is_unsettled status || not (is_clear a.buffer)) ≡ true)
          × ((is_conflict status || a.halted) ≡ false))
    → IsShown (publish status message a)
unfolding publish
publish-IsShown status message a h = record {
  waits = λ (k : _). ground (arith, publish-dirty status message a, k);
  sends = λ (k : _). publish-dirty status message a ∙ (h k).0;
  calm = λ (k : _). (h k).1;
}

mirror-IsShown : (a : Autosave) → IsShown a → IsShown (mirror a)
unfolding mirror dirty
mirror-IsShown a h = elim (Bool-cases (present a.application_id)) [
  | inl e ↦ rw e (record { waits = h.waits; sends = h.sends; calm = h.calm })
  | inr e ↦ rw e h
]

submit-IsShown :
    (token : Option String) (a : Autosave) → a.halted ≡ false → IsShown a → IsShown (submit token a)
unfolding submit dirty publish
submit-IsShown none a n h = record { waits = h.waits; sends = λ (k : _). cc; calm = λ (k : _). cc }
submit-IsShown (some etag) a n h = elim (Bool-cases (empty_patch (patch_of a.buffer))) [
  | inl e ↦ rw e (record { waits = h.waits; sends = λ (k : _). cc; calm = λ (k : _). cc })
  | inr e ↦ rw e (
      publish-IsShown saving none
        (record a {
          buffer = empty_buffer;
          in_flight = true;
          active = requesting etag (patch_of a.buffer);
        })
        (λ (k : _). (refl, n)))
]

start-IsShown :
    (active : Active) (a : Autosave) → a.active ≡ active → IsShown a → IsShown (start active a)
unfolding start
start-IsShown nothing a e h = elim (Bool-cases (a.halted || not (present a.application_id))) [
  | inl k ↦ rw k h
  | inr k ↦ rw k (submit-IsShown a.token a (ground arith) h)
]
start-IsShown (requesting etag patch) a e h = h
start-IsShown refreshing a e h = h
start-IsShown returned a e h = h

pub send-IsShown : (a : Autosave) → IsShown a → IsShown (send a)
unfolding send
send-IsShown a h = start-IsShown a.active a refl h

-- A published state with nothing on its way to the server.
pub rest-IsShown :
    (status : AutosaveStatus) (message : Option Message) (a : Autosave)
    → in_request a.active ≡ false
    → IsShown (publish status message a)
rest-IsShown status message a h = publish-IsShown status message a (λ (k : _). ground arith)

insert_full {ℓ} :
    {V : Type ℓ} → (k : String) (v : V) (m : List (String × V)) → is_empty (insert k v m) ≡ false
unfolding insert
insert_full k v [] = refl
insert_full k v ((j, w) ∷ m) = elim (Bool-cases (j == k)) [ inl h ↦ rw h refl | inr h ↦ rw h refl ]

append_full {ℓ} : {A : Type ℓ} → (xs : List A) (x : A) → is_empty (xs ++ x ∷ []) ≡ false
append_full [] x = refl
append_full (y ∷ xs) x = refl

add_full : (x : String) (xs : List String) → is_empty (add x xs) ≡ false
unfolding add
add_full x [] = refl
add_full x (y ∷ xs) = elim (Bool-cases (includes x (y ∷ xs))) [
  | inl h ↦ rw h refl
  | inr h ↦ rw h refl
]

queued-full : (c : Change) (b : Buffer) → is_clear (queue c b) ≡ false
unfolding queue is_clear put_edit put_removal put_addition put_claim_order
queued-full (edit p) b = rw (insert_full p.claim_id p b.edits) refl
queued-full (removal id) b = ground (arith, add_full id b.removals)
queued-full (addition x) b = ground (arith, append_full b.additions x)
queued-full (claim_order section order) b = ground (arith, insert_full section order b.claim_orders)

pub mirror-same :
    (a : Autosave)
    → ((mirror a).buffer ≡ a.buffer)
      × ((mirror a).active ≡ a.active)
      × ((mirror a).halted ≡ a.halted)
      × ((mirror a).state ≡ a.state)
unfolding mirror
mirror-same a = elim (Bool-cases (present a.application_id)) [
  | inl e ↦ rw e (refl, refl, refl, refl)
  | inr e ↦ rw e (refl, refl, refl, refl)
]

pub timer-IsShown : (t : Bool) (a : Autosave) → IsShown a → IsShown (record a { timer = t })
unfolding dirty
timer-IsShown t a h = record { waits = h.waits; sends = h.sends; calm = h.calm }

pub queue_change-IsShown : (c : Change) (a : Autosave) → IsShown a → IsShown (queue_change c a)
unfolding queue_change
queue_change-IsShown c a h =
    let t = mirror (record a { buffer = queue c a.buffer }) in
    let m = mirror-same (record a { buffer = queue c a.buffer }) in
    timer-IsShown true (publish (if t.halted then conflict else idle) none t) (
      publish-IsShown (if t.halted then conflict else idle) none t (λ (k : _). (
        ground (arith, ap is_clear m.0, queued-full c a.buffer),
        ground (arith, h.calm, ap in_request m.1, m.2, k),
      )))

pub free-IsShown :
    (a : Autosave)
    → in_request a.active ≡ false
    → (is_clear a.buffer ≡ false → dirty a ≡ true)
    → IsShown a
free-IsShown a n h = record {
  waits = h;
  sends = λ (k : _). ground (arith, n, k);
  calm = λ (k : _). ground (arith, n, k);
}

pub dirty-state : (a b : Autosave) → a.state ≡ b.state → dirty a ≡ dirty b
unfolding dirty
dirty-state a b e = rw e refl

pub published-IsShown :
    (status : AutosaveStatus) (message : Option Message) (a b : Autosave)
    → b.state ≡ (publish status message a).state
    → b.buffer ≡ a.buffer
    → in_request b.active ≡ false
    → IsShown b
published-IsShown status message a b s e n = free-IsShown b n (λ (k : _).
    dirty-state b (publish status message a) s
    ∙ ground (arith, publish-dirty status message a, ap is_clear e, k))
