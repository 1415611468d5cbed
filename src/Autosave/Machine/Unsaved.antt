-- ===== src/Autosave/Machine/Unsaved.antt =====
-- A screen that is not dirty has nothing unsaved (useDraftEditing.ts over useDraftAutosave.ts).
use full_stack_resume.Common.{
  String, ◌≡◌, refl, ap, ◌∙◌, inl, inr, true, false, Option, none, some, arith, Bool-cases, present,
}
use full_stack_resume.Api.Documents.{DocumentPatch}
use full_stack_resume.Autosave.Buffer.{StoredBuffer, empty_buffer, is_clear, restore, recover}
use full_stack_resume.Autosave.Machine.{
  send, start, idle, saved, failed, conflict, Active, nothing, requesting, refreshing, returned,
  Autosave, SaveError, status_409, other, ConflictRead, read, threw, Event, queued, timer_fires,
  flushed, task_returns, discarded, recovered, unmounted, refused, refreshed, reapplied,
  etag_changed, problem, unreadable, token_after, publish, mirror, accepted, rejected, reread,
  finish, accept, refuse, refresh, discard_local, reapply_local, recover_stored, step, initial,
}
use full_stack_resume.Autosave.Machine.Dirty.{
  IsShown, publish-dirty, rest-IsShown, timer-IsShown, mirror-same, free-IsShown, dirty-state,
  published-IsShown, send-IsShown, queue_change-IsShown, dirty, in_request, is_in_place,
}

accept-IsShown : (etag : Option String) (a : Autosave) → IsShown (accept etag a)
unfolding accept
accept-IsShown etag a =
    let noted = publish saved none (record a { token = etag }) in
    let ready = record (mirror noted) { in_flight = false; active = nothing } in
    let m = mirror-same noted in
    send-IsShown ready (
      free-IsShown ready refl (λ (k : _).
        dirty-state ready noted m.3
        ∙ ground (arith, publish-dirty saved none (record a { token = etag }), ap is_clear m.0, k)))

refuse-IsShown :
    (error : SaveError) (patch : DocumentPatch) (a : Autosave)
    → dirty a ≡ true
    → IsShown (refuse error patch a)
unfolding refuse publish
refuse-IsShown status_409 patch a h =
    let back = record a { buffer = restore patch a.buffer } in
    let next = record (mirror back) { halted = true; active = refreshing } in
    free-IsShown next refl (λ (k : _). dirty-state next a (mirror-same back).3 ∙ h)
refuse-IsShown (other sentence) patch a h =
    let back = mirror (record a { buffer = restore patch a.buffer }) in
    let next = record (publish failed (some (problem sentence)) back) {
      in_flight = false;
      active = nothing;
    } in
    published-IsShown failed (some (problem sentence)) back next refl refl refl

refresh-IsShown : (r : ConflictRead) (a : Autosave) → IsShown (refresh r a)
unfolding refresh publish
refresh-IsShown r a =
    let back = record a { token = token_after r a.token } in
    published-IsShown conflict none back
      (record (publish conflict none back) { in_flight = false; active = nothing }) refl refl refl

-- While the dialog is open no request runs, so what its answers publish shows the state.
discard-IsShown : (a : Autosave) → in_request a.active ≡ false → IsShown (discard_local a)
unfolding discard_local
discard-IsShown a n =
    let back = mirror (record a { buffer = empty_buffer; halted = false }) in
    rest-IsShown idle none back
      (ap in_request (mirror-same (record a { buffer = empty_buffer; halted = false })).1 ∙ n)

reapply-IsShown :
    (r : ConflictRead) (a : Autosave) → in_request a.active ≡ false → IsShown (reapply_local r a)
unfolding reapply_local
reapply-IsShown (read (some etag)) a n =
    send-IsShown (publish idle none (record a { token = some etag; halted = false }))
      (rest-IsShown idle none (record a { token = some etag; halted = false }) n)
reapply-IsShown (read none) a n = rest-IsShown conflict (some unreadable) a n
reapply-IsShown threw a n = rest-IsShown conflict (some unreadable) a n

recover-IsShown :
    (stored : Option StoredBuffer) (a : Autosave)
    → in_request a.active ≡ false
    → IsShown a
    → IsShown (recover_stored stored a)
unfolding recover_stored
recover-IsShown none a n h = h
recover-IsShown (some stored) a n h =
    let back = record a { buffer = recover stored a.buffer } in
    timer-IsShown true (publish idle none back) (rest-IsShown idle none back n)

accepted-IsShown :
    (active : Active) (etag : Option String) (a : Autosave)
    → IsShown a
    → IsShown (accepted active etag a)
unfolding accepted
accepted-IsShown (requesting sent patch) etag a h = accept-IsShown etag a
accepted-IsShown nothing etag a h = h
accepted-IsShown refreshing etag a h = h
accepted-IsShown returned etag a h = h

rejected-IsShown :
    (active : Active) (error : SaveError) (a : Autosave)
    → a.active ≡ active
    → IsShown a
    → IsShown (rejected active error a)
unfolding rejected
rejected-IsShown (requesting sent patch) error a e h =
    refuse-IsShown error patch a (h.sends (ap in_request e))
rejected-IsShown nothing error a e h = h
rejected-IsShown refreshing error a e h = h
rejected-IsShown returned error a e h = h

reread-IsShown :
    (active : Active) (r : ConflictRead) (a : Autosave) → IsShown a → IsShown (reread active r a)
unfolding reread
reread-IsShown refreshing r a h = refresh-IsShown r a
reread-IsShown nothing r a h = h
reread-IsShown (requesting sent patch) r a h = h
reread-IsShown returned r a h = h

finish-IsShown : (active : Active) (a : Autosave) → IsShown a → IsShown (finish active a)
unfolding finish dirty
finish-IsShown returned a h = record {
  waits = h.waits;
  sends = λ (k : _). cc;
  calm = λ (k : _). cc;
}
finish-IsShown nothing a h = h
finish-IsShown (requesting sent patch) a h = h
finish-IsShown refreshing a h = h

-- Every event in its place keeps a hook that shows its state so.
step-IsShown : (e : Event) (a : Autosave) → is_in_place e a ≡ true → IsShown a → IsShown (step e a)
unfolding step dirty
step-IsShown (queued c) a o h = queue_change-IsShown c a h
step-IsShown timer_fires a o h = elim (Bool-cases a.timer) [
  | inl e ↦ rw e (send-IsShown (record a { timer = false }) (timer-IsShown false a h))
  | inr e ↦ rw e (timer-IsShown false a h)
]
step-IsShown flushed a o h = send-IsShown (record a { timer = false }) (timer-IsShown false a h)
step-IsShown task_returns a o h = finish-IsShown a.active a h
step-IsShown discarded a o h = discard-IsShown a (ground (arith, h.calm, o))
step-IsShown recovered a o h = elim (Bool-cases (present a.application_id)) [
  | inl e ↦ rw e (recover-IsShown a.storage a (ground (arith, o)) h)
  | inr e ↦ rw e h
]
step-IsShown unmounted a o h = send-IsShown (record a { timer = false }) (timer-IsShown false a h)
step-IsShown (saved etag) a o h = accepted-IsShown a.active etag a h
step-IsShown (refused error) a o h = rejected-IsShown a.active error a refl h
step-IsShown (refreshed r) a o h = reread-IsShown a.active r a h
step-IsShown (reapplied r) a o h = reapply-IsShown r a (ground (arith, h.calm, o))
step-IsShown (etag_changed none) a o h = h
step-IsShown (etag_changed (some etag)) a o h = record {
  waits = h.waits;
  sends = h.sends;
  calm = h.calm;
}

-- The states that a hook can come to from its first render by events that each come in their place.
pub data Reached : Autosave → Type 0 where
  opens :
      (id etag : Option String) (storage : Option StoredBuffer) → Reached (initial id etag storage)
  steps : {a : Autosave} → (e : Event) → is_in_place e a ≡ true → Reached a → Reached (step e a)

Reached-IsShown : {a : Autosave} → Reached a → IsShown a
unfolding initial is_clear
Reached-IsShown (opens id etag storage) = record {
  waits = λ (k : _). cc;
  sends = λ (k : _). cc;
  calm = λ (k : _). cc;
}
Reached-IsShown (steps {a} e o r) = step-IsShown e a o (Reached-IsShown r)

start_busy : (x : Active) (a : Autosave) → in_request x ≡ true → start x a ≡ a
unfolding start
start_busy nothing a h = cc
start_busy (requesting sent patch) a h = refl
start_busy refreshing a h = refl
start_busy returned a h = refl

send_busy : (a : Autosave) → in_request a.active ≡ true → send a ≡ a
unfolding send
send_busy a h = start_busy a.active a h

late_answer :
    (etag : String) (b : Autosave)
    → in_request b.active ≡ true
    → is_clear b.buffer ≡ true
    → (dirty (step (reapplied (read (some etag))) b) ≡ false)
      × (in_request (step (reapplied (read (some etag))) b).active ≡ true)
unfolding step reapply_local publish
late_answer etag b r c =
    let fresh = record b { token = some etag; halted = false } in
    let shown = publish idle none fresh in
    let still = send_busy shown r in
    (
      ap dirty still ∙ publish-dirty idle none fresh ∙ ground (arith, c),
      ap (λ (x : Autosave). in_request x.active) still ∙ r,
    )

-- A screen that is not dirty has nothing unsaved as long as no answer of a reapplication's read is late:
-- in every state that the hook comes to from its first render by events of which a discarding and such an
-- answer come while the dialog is open, and a recovery while no save runs, if the screen does not count
-- as dirty then no edit, removal, addition or order waits in the buffer and no request is on its way.
-- A late answer breaks this: when a request with all that there was is on its way, as the first of two
-- presses sends it, the answer of the second leaves a screen that is not dirty with the request on its
-- way.
pub dirty-saved :
    {a : Autosave} (b : Autosave) (etag : String)
    → Reached a
    → dirty a ≡ false
    → in_request b.active ≡ true
    → is_clear b.buffer ≡ true
    → (is_clear a.buffer ≡ true)
      × (in_request a.active ≡ false)
      × (dirty (step (reapplied (read (some etag))) b) ≡ false)
      × (in_request (step (reapplied (read (some etag))) b).active ≡ true)
dirty-saved {a} b etag r d n c =
    let h = Reached-IsShown r in
    let late = late_answer etag b n c in
    (ground (arith, h.waits, d), ground (arith, h.sends, d), late.0, late.1)
