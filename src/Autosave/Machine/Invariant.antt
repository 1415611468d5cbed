-- ===== src/Autosave/Machine/Invariant.antt =====
-- What holds of the hook's refs between two events of useDraftAutosave.ts.
use full_stack_resume.Common.{
  String, ◌≡◌, refl, ap, ◌∙◌, inl, inr, Option, none, some, List, [], ◌∷◌, Bool-cases, present,
}
use full_stack_resume.Autosave.Buffer.{StoredBuffer}
use full_stack_resume.Autosave.Buffer.Filed.{empty-IsFiled}
use full_stack_resume.Autosave.Machine.{
  Active, nothing, requesting, refreshing, returned, Autosave, SaveError, ConflictRead, Event,
  queued, timer_fires, flushed, task_returns, discarded, recovered, unmounted, saved, refused,
  refreshed, reapplied, etag_changed, accepted, rejected, reread, finish, step, initial, run,
}
use full_stack_resume.Autosave.Machine.Consistent.{
  is_busy, IsConsistent, IsStored, keeps, unscheduled, send-IsConsistent, queue_change-IsConsistent,
  accept-IsConsistent, refuse-IsConsistent, refresh-IsConsistent, discard_local-IsConsistent,
  reapply_local-IsConsistent, recover_stored-IsConsistent,
}

accepted-IsConsistent :
    (a : Active) (etag : Option String) (s : Autosave)
    → IsConsistent s
    → IsConsistent (accepted a etag s)
unfolding accepted
accepted-IsConsistent (requesting sent p) etag s h = accept-IsConsistent etag s h
accepted-IsConsistent nothing etag s h = h
accepted-IsConsistent refreshing etag s h = h
accepted-IsConsistent returned etag s h = h

rejected-IsConsistent :
    (a : Active) (error : SaveError) (s : Autosave)
    → s.active ≡ a
    → IsConsistent s
    → IsConsistent (rejected a error s)
unfolding rejected
rejected-IsConsistent (requesting sent p) error s e h =
    refuse-IsConsistent error p s (ap is_busy e) h
rejected-IsConsistent nothing error s e h = h
rejected-IsConsistent refreshing error s e h = h
rejected-IsConsistent returned error s e h = h

reread-IsConsistent :
    (a : Active) (r : ConflictRead) (s : Autosave) → IsConsistent s → IsConsistent (reread a r s)
unfolding reread
reread-IsConsistent refreshing r s h = refresh-IsConsistent r s h
reread-IsConsistent nothing r s h = h
reread-IsConsistent (requesting sent p) r s h = h
reread-IsConsistent returned r s h = h

finish-IsConsistent :
    (a : Active) (s : Autosave) → s.active ≡ a → IsConsistent s → IsConsistent (finish a s)
unfolding finish
finish-IsConsistent returned s e h = record {
  flight = h.flight ∙ ap is_busy e;
  addressed = λ b. cc;
  sendable = tt;
  filed = h.filed;
  stored = h.stored;
}
finish-IsConsistent nothing s e h = h
finish-IsConsistent (requesting sent p) s e h = h
finish-IsConsistent refreshing s e h = h

-- Every event keeps the hook's refs consistent: the in-flight flag tells exactly whether a task waits
-- for the server, such a task belongs to an Application, a patch on its way is not empty, and the
-- buffer and the stored copy are made of maps and sets with distinct keys.
pub step-IsConsistent : (e : Event) (s : Autosave) → IsConsistent s → IsConsistent (step e s)
unfolding step
step-IsConsistent (queued c) s h = queue_change-IsConsistent c s h
step-IsConsistent timer_fires s h = elim (Bool-cases s.timer) [
  | inl e ↦ rw e (send-IsConsistent _ (unscheduled s h))
  | inr e ↦ rw e (unscheduled s h)
]
step-IsConsistent flushed s h = send-IsConsistent _ (unscheduled s h)
step-IsConsistent task_returns s h = finish-IsConsistent s.active s refl h
step-IsConsistent discarded s h = discard_local-IsConsistent s h
step-IsConsistent recovered s h = elim (Bool-cases (present s.application_id)) [
  | inl e ↦ rw e (recover_stored-IsConsistent s.storage s h.stored h)
  | inr e ↦ rw e h
]
step-IsConsistent unmounted s h = send-IsConsistent _ (unscheduled s h)
step-IsConsistent (saved etag) s h = accepted-IsConsistent s.active etag s h
step-IsConsistent (refused error) s h = rejected-IsConsistent s.active error s refl h
step-IsConsistent (refreshed r) s h = reread-IsConsistent s.active r s h
step-IsConsistent (reapplied r) s h = reapply_local-IsConsistent r s h
step-IsConsistent (etag_changed none) s h = h
step-IsConsistent (etag_changed (some etag)) s h =
    keeps s s.buffer (some etag) s.timer s.halted h h.filed

pub initial-IsConsistent :
    (app etag : Option String) (o : Option StoredBuffer)
    → IsStored o
    → IsConsistent (initial app etag o)
unfolding initial
initial-IsConsistent app etag o d = record {
  flight = refl;
  addressed = λ b. cc;
  sendable = tt;
  filed = empty-IsFiled;
  stored = d;
}

-- From the first render on, every history of events leaves the refs consistent.
pub run-IsConsistent : (es : List Event) (s : Autosave) → IsConsistent s → IsConsistent (run es s)
run-IsConsistent [] s h = h
run-IsConsistent (e ∷ es) s h = run-IsConsistent es (step e s) (step-IsConsistent e s h)
