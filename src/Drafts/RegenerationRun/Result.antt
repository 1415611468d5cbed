-- ===== src/Drafts/RegenerationRun/Result.antt =====
-- What a regeneration shows from its press to its end (useRegenerationDiff.ts).
use full_stack_resume.Common.{
  String, ◌≡◌, refl, ap, ◌∙◌, inl, inr, Bool, true, false, not, ◌&&◌, ◌||◌, Option, none, some,
  List, [], ◌∷◌, ◌++◌, arith, ◌==◌, if◌then◌else◌, Bool-cases, all,
}
use full_stack_resume.Api.Documents.{EditableDocument}
use full_stack_resume.Api.Operations.{Operation, is_succeeded}
use full_stack_resume.Drafts.Regeneration.{
  RegenerationTarget, RegenerationSnapshot, take_snapshot, regeneration_changes,
}
use full_stack_resume.Drafts.RegenerationRun.{
  is_regeneration, RegenerationDiff, settle_regeneration, capture, bind_run, DiffEvent, captured,
  bound_to, dismissed, rendered, diff_step, diff_run,
}

-- Whether a record shows the end of the regeneration with an id.
abbrev pub shows_end : String → Operation → Bool
shows_end id o = o.id == id && is_regeneration o.operation_type && o.is_terminal

-- The events between the press and the answer that accepts its command: renders of any draft and any
-- operation, and dismissals.
abbrev pub is_before_answer : DiffEvent → Bool
is_before_answer (rendered draft operation) = true
is_before_answer dismissed = true
is_before_answer _ = false

-- Whether an event leaves an accepted regeneration waiting for its run: a dismissal, another answer, a
-- render that does not show the run ended, or one that shows it succeeded without a draft of another
-- hash.
abbrev pub still_waits : String → String → DiffEvent → Bool
still_waits id hash (rendered draft none) = true
still_waits id hash (rendered draft (some o)) =
    not (shows_end id o)
    || (is_succeeded o.status && elim draft [ none ↦ true | some d ↦ d.document_hash == hash ])
still_waits id hash dismissed = true
still_waits id hash (bound_to other) = true
still_waits id hash (captured target draft) = false

-- The lines captured at a press, with the run that they are bound to.
abbrev pub waiting_for : Option String → RegenerationSnapshot → RegenerationDiff
waiting_for id before = record {
  pending = some (record { snapshot = before; operation_id = id });
  result = none;
}

unbound_step :
    (before : RegenerationSnapshot) (e : DiffEvent)
    → is_before_answer e ≡ true
    → diff_step e (waiting_for none before) ≡ waiting_for none before
unfolding diff_step
unbound_step before (rendered draft none) h = refl
unbound_step before (rendered draft (some o)) h = refl
unbound_step before dismissed h = refl
unbound_step before (captured t d) h = cc
unbound_step before (bound_to i) h = cc

unbound_run :
    (before : RegenerationSnapshot) (es : List DiffEvent)
    → all is_before_answer es ≡ true
    → diff_run es (waiting_for none before) ≡ waiting_for none before
unbound_run before [] h = refl
unbound_run before (e ∷ es) h =
    ap (diff_run es) (unbound_step before e (ground arith)) ∙ unbound_run before es (ground arith)

waits_step :
    (id : String) (before : RegenerationSnapshot) (e : DiffEvent)
    → still_waits id before.document_hash e ≡ true
    → diff_step e (waiting_for (some id) before) ≡ waiting_for (some id) before
unfolding diff_step
waits_step id before (rendered draft none) h = refl
waits_step id before (rendered none (some o)) h = ground arith
waits_step id before (rendered (some d) (some o)) h = ground arith
waits_step id before dismissed h = refl
waits_step id before (captured t d) h = cc
waits_step id before (bound_to i) h = refl

waits_run :
    (id : String) (before : RegenerationSnapshot) (es : List DiffEvent)
    → all (still_waits id before.document_hash) es ≡ true
    → diff_run es (waiting_for (some id) before) ≡ waiting_for (some id) before
waits_run id before [] h = refl
waits_run id before (e ∷ es) h =
    ap (diff_run es) (waits_step id before e (ground arith)) ∙ waits_run id before es (ground arith)

diff_run-append :
    (xs ys : List DiffEvent) (s : RegenerationDiff)
    → diff_run (xs ++ ys) s ≡ diff_run ys (diff_run xs s)
diff_run-append [] ys s = refl
diff_run-append (x ∷ xs) ys s = diff_run-append xs ys (diff_step x s)

-- What the end of a run shows: its changes where it has succeeded, and nothing otherwise.
abbrev pub settled_result : RegenerationSnapshot → EditableDocument → Operation → RegenerationDiff
settled_result before draft o = record {
  pending = none;
  result =
      if is_succeeded o.status
      then some
          (record { target = before.target; changes = regeneration_changes before draft.outline })
      else none;
}

end_step :
    (id : String) (before : RegenerationSnapshot) (draft : EditableDocument) (o : Operation)
    → shows_end id o ≡ true
    → (draft.document_hash == before.document_hash) ≡ false
    → diff_step (rendered (some draft) (some o)) (waiting_for (some id) before)
      ≡ settled_result before draft o
unfolding diff_step settle_regeneration
end_step id before draft o h k =
    rw h
      (rw k (elim (Bool-cases (is_succeeded o.status)) [ inl e ↦ rw e refl | inr e ↦ rw e refl ]))

settled_step :
    (before : RegenerationSnapshot) (draft : EditableDocument) (o : Operation)
    (d : Option EditableDocument) (p : Option Operation)
    → diff_step (rendered d p) (settled_result before draft o) ≡ settled_result before draft o
unfolding diff_step
settled_step before draft o d p = refl

-- From the press to the answer, and from there to a moment at which the run has not ended.
bound_run :
    (s : RegenerationDiff) (target : RegenerationTarget) (pressed : EditableDocument) (id : String)
    (unanswered es : List DiffEvent)
    → all is_before_answer unanswered ≡ true
    → all (still_waits id pressed.document_hash) es ≡ true
    → diff_run (captured target (some pressed) ∷ unanswered ++ bound_to id ∷ es) s
      ≡ waiting_for (some id) (take_snapshot pressed.outline pressed.document_hash target)
unfolding diff_step capture bind_run take_snapshot
bound_run s target pressed id unanswered es u h =
    let before = take_snapshot pressed.outline pressed.document_hash target in
    diff_run-append unanswered (bound_to id ∷ es) (waiting_for none before)
    ∙ ap (diff_run (bound_to id ∷ es)) (unbound_run before unanswered u)
    ∙ waits_run id before es h

-- A regeneration from press to end: the lines are captured at the press; whatever is rendered before the
-- command is accepted, even a regeneration of before that has ended, leaves them waiting, and the accepted
-- run is bound to them. Through any renders, dismissals and further answers that do not yet show this run
-- ended with a new document nothing shows; the first render that shows it ended, with a draft of another
-- hash, shows the changes from the lines at the press to the draft read then if the run has succeeded, and
-- nothing if it has not, and so does every render after it.
pub diff_run-result :
    (s : RegenerationDiff) (target : RegenerationTarget) (pressed draft : EditableDocument)
    (id : String) (unanswered es : List DiffEvent) (o : Operation) (d : Option EditableDocument)
    (p : Option Operation)
    → all is_before_answer unanswered ≡ true
    → all (still_waits id pressed.document_hash) es ≡ true
    → shows_end id o ≡ true
    → (draft.document_hash == pressed.document_hash) ≡ false
    → let before = take_snapshot pressed.outline pressed.document_hash target in
      let waited = diff_run (captured target (some pressed) ∷ unanswered ++ bound_to id ∷ es) s in
      let shown = diff_run (rendered (some draft) (some o) ∷ []) waited in
      (waited ≡ waiting_for (some id) before)
      × (shown ≡ settled_result before draft o)
      × (diff_run (rendered d p ∷ []) shown ≡ settled_result before draft o)
unfolding take_snapshot
diff_run-result s target pressed draft id unanswered es o d p u h k n =
    let before = take_snapshot pressed.outline pressed.document_hash target in
    let waits = bound_run s target pressed id unanswered es u h in
    let shown =
      ap (diff_run (rendered (some draft) (some o) ∷ [])) waits ∙ end_step id before draft o k n in
    (waits, shown, ap (diff_run (rendered d p ∷ [])) shown ∙ settled_step before draft o d p)
