-- ===== src/Drafts/RegenerationRun.antt =====
-- The before and after of the last regeneration that the draft's screen queued
-- (frontend/src/features/drafts/hooks/useRegenerationDiff.ts). A render carries the draft and the
-- operation that the screen has then; what is settled during a render is a function of the state.
pub mod Result
use full_stack_resume.Common.{
  String, ◌≡◌, refl, ap, ◌⊎◌, inl, inr, Bool, true, false, ◌&&◌, Option, none, some, List, [], ◌∷◌,
  ◌==◌, if◌then◌else◌, Bool-cases, present,
}
use full_stack_resume.Api.Documents.{EditableDocument}
use full_stack_resume.Api.Operations.{
  Operation, OperationType, regenerate_section, regenerate_claim, is_succeeded,
}
use full_stack_resume.Drafts.Regeneration.{
  RegenerationTarget, RegenerationSnapshot, RegenerationChange, take_snapshot, regeneration_changes,
}

-- `REGENERATIONS.has(type)`
abbrev pub is_regeneration : OperationType → Bool
is_regeneration regenerate_section = true
is_regeneration regenerate_claim = true
is_regeneration _ = false

-- `PendingSnapshot`
pub record PendingSnapshot : Type 0 where
  pub snapshot : RegenerationSnapshot
  pub operation_id : Option String

pub record RegenerationResult : Type 0 where
  pub target : RegenerationTarget
  pub changes : List RegenerationChange

pub record RegenerationDiff : Type 0 where
  pub pending : Option PendingSnapshot
  pub result : Option RegenerationResult

-- `ours`, of a snapshot's run and the operation watched
abbrev pub is_ours : Option String → Operation → Bool
is_ours none operation = false
is_ours (some id) operation = operation.id == id && is_regeneration operation.operation_type

-- a run that has succeeded, against the draft that is read
abbrev pub compare_with :
    RegenerationSnapshot → Option EditableDocument → RegenerationDiff → RegenerationDiff
compare_with before none s = s
compare_with before (some draft) s =
    if draft.document_hash == before.document_hash then s else record {
      pending = none;
      result =
          some (record {
            target = before.target;
            changes = regeneration_changes before draft.outline;
          });
    }

abbrev pub settle_pending :
    Option PendingSnapshot
    → Option EditableDocument
    → Option Operation
    → RegenerationDiff
    → RegenerationDiff
settle_pending none draft operation s = s
settle_pending (some p) draft none s = s
settle_pending (some p) draft (some o) s =
    if is_ours p.operation_id o && o.is_terminal
    then if is_succeeded o.status
      then compare_with p.snapshot draft s
      else record s { pending = none }
    else s

-- what a render settles
unfoldable pub settle_regeneration :
    Option EditableDocument → Option Operation → RegenerationDiff → RegenerationDiff
settle_regeneration draft operation s = settle_pending s.pending draft operation s

-- `capture`, with the draft of the render that made it
unfoldable pub capture :
    RegenerationTarget → Option EditableDocument → RegenerationDiff → RegenerationDiff
capture target none s = s
capture target (some draft) s = record {
  pending = some (record {
    snapshot = take_snapshot draft.outline draft.document_hash target;
    operation_id = none;
  });
  result = none;
}

abbrev pub bound : String → Option PendingSnapshot → Option PendingSnapshot
bound id none = none
bound id (some p) =
    if present p.operation_id then some p else some (record p { operation_id = some id })

-- `bind`
unfoldable pub bind_run : String → RegenerationDiff → RegenerationDiff
bind_run id s = record s { pending = bound id s.pending }

-- `dismiss`
unfoldable pub dismiss : RegenerationDiff → RegenerationDiff
dismiss s = record s { result = none }

pub data DiffEvent : Type 0 where
  captured : (target : RegenerationTarget) (draft : Option EditableDocument) → DiffEvent
  bound_to : (operation_id : String) → DiffEvent
  dismissed : DiffEvent
  rendered : (draft : Option EditableDocument) (operation : Option Operation) → DiffEvent

unfoldable pub diff_step : DiffEvent → RegenerationDiff → RegenerationDiff
unfolding capture bind_run dismiss settle_regeneration
diff_step (captured target draft) s = capture target draft s
diff_step (bound_to id) s = bind_run id s
diff_step dismissed s = dismiss s
diff_step (rendered draft operation) s = settle_regeneration draft operation s

abbrev pub diff_run : List DiffEvent → RegenerationDiff → RegenerationDiff
diff_run [] s = s
diff_run (e ∷ es) s = diff_run es (diff_step e s)

settle_pending-cases :
    (pending : Option PendingSnapshot) (draft : Option EditableDocument)
    (operation : Option Operation) (s : RegenerationDiff)
    → (settle_pending pending draft operation s ≡ s)
      ⊎ ((settle_pending pending draft operation s).pending ≡ none)
settle_pending-cases none draft operation s = inl refl
settle_pending-cases (some p) draft none s = inl refl
settle_pending-cases (some p) none (some o) s =
    elim (Bool-cases (is_ours p.operation_id o && o.is_terminal)) [
      | inl h ↦ rw h (elim (Bool-cases (is_succeeded o.status)) [
        | inl k ↦ rw k (inl refl)
        | inr k ↦ rw k (inr refl)
      ])
      | inr h ↦ rw h (inl refl)
    ]
settle_pending-cases (some p) (some d) (some o) s =
    elim (Bool-cases (is_ours p.operation_id o && o.is_terminal)) [
      | inl h ↦ rw h (elim (Bool-cases (is_succeeded o.status)) [
        | inl k ↦ rw k (elim (Bool-cases (d.document_hash == p.snapshot.document_hash)) [
          | inl e ↦ rw e (inl refl)
          | inr e ↦ rw e (inr refl)
        ])
        | inr k ↦ rw k (inr refl)
      ])
      | inr h ↦ rw h (inl refl)
    ]

-- What a render settles comes to rest: React renders again after a change of state during a render,
-- and the second render with the same draft and operation changes nothing.
pub settle_regeneration_idempotent :
    (draft : Option EditableDocument) (operation : Option Operation) (s : RegenerationDiff)
    → settle_regeneration draft operation (settle_regeneration draft operation s)
      ≡ settle_regeneration draft operation s
unfolding settle_regeneration
settle_regeneration_idempotent draft operation s =
    let next = settle_pending s.pending draft operation s in
    elim (settle_pending-cases s.pending draft operation s) [
      | inl h ↦ ap (λ (t : RegenerationDiff). settle_pending t.pending draft operation t) h
      | inr h ↦ ap (λ (p : Option PendingSnapshot). settle_pending p draft operation next) h
    ]
