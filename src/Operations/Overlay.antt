-- ===== src/Operations/Overlay.antt =====
-- The session of the overlay (`Session` of OperationOverlay.tsx): what a render makes of it from the
-- values it holds, and the presses of the reader. A render that changes the state is made again at
-- once. Drawing, clocks and focus are left out.
use full_stack_resume.Common.{
  ℕ, String, ◌≡◌, refl, sym, ap, ◌∙◌, Bool, true, false, not, ◌&&◌, ◌||◌, Option, none, some, List,
  [], ◌∷◌, ◌++◌, arith, ◌==◌, eq_iff, ltb, if◌then◌else◌, present, all,
}
use text.Mathlib.TextPositions.{eq_refl}
use full_stack_resume.Api.Operations.{Operation, PageFitStatus, fits, is_succeeded}
use full_stack_resume.Preparation.Stages.{OperationLiveness, is_operation_starting, has_succeeded}

pub record Session : Type 0 where
  pub active : Bool
  pub dialog_open : Bool
  pub history_id : Option String
  pub panel_hidden : Bool
  pub succeeded_id : Option String

abbrev pub closed : Session
closed = record {
  active = false;
  dialog_open = false;
  history_id = none;
  panel_hidden = false;
  succeeded_id = none;
}

-- `withheldCount`
abbrev pub withheld_count : Operation → ℕ
withheld_count operation = if is_succeeded operation.status then operation.withheld_claims else 0

abbrev pub is_fitting : PageFitStatus → Bool
is_fitting fits = true
is_fitting _ = false

abbrev pub notice_of : Option PageFitStatus → Option PageFitStatus
notice_of none = none
notice_of (some status) = if is_fitting status then none else some status

-- `pageFitNotice` of operationLabels.ts
abbrev pub page_fit_notice : Operation → Option PageFitStatus
page_fit_notice operation =
    if is_succeeded operation.status then notice_of operation.page_fit else none

-- `needsReader`
unfoldable pub needs_reader : Operation → Bool
needs_reader operation =
    operation.is_terminal
    && (not (is_succeeded operation.status)
        || (ltb 0 (withheld_count operation) || present (page_fit_notice operation)))

-- `operation.id !== session.historyId`
abbrev pub is_history : Option String → String → Bool
is_history none id = false
is_history (some history) id = id == history

-- the id of a record that has already ended
abbrev pub ended_id : Option Operation → Option String
ended_id none = none
ended_id (some operation) = if operation.is_terminal then some operation.id else none

-- `outcome`
abbrev pub outcome : Option Operation → Option String → Option Operation
outcome none history = none
outcome (some operation) history = if is_history history operation.id then none else some operation

abbrev pub asks_reader : Option Operation → Bool
asks_reader none = false
asks_reader (some operation) = needs_reader operation

abbrev pub success_id : Option Operation → Option String
success_id none = none
success_id (some operation) =
    if is_succeeded operation.status && not (needs_reader operation)
    then some operation.id
    else none

-- the session that a start opens, and the one that an end leaves
unfoldable pub begun : OperationLiveness → Session
begun l = record {
  active = true;
  dialog_open = false;
  history_id = ended_id l.operation;
  panel_hidden = false;
  succeeded_id = none;
}

unfoldable pub ended : Option Operation → Session
ended out = record {
  active = false;
  dialog_open = asks_reader out;
  history_id = none;
  panel_hidden = false;
  succeeded_id = success_id out;
}

-- `live`
abbrev pub is_live : OperationLiveness → Session → Bool
is_live l s = is_operation_starting l || (s.active && (has_succeeded l.operation && not l.settled))

-- what one render makes of the session
unfoldable pub adjust : OperationLiveness → Session → Session
unfolding begun ended
adjust l s =
    if is_operation_starting l && not s.active
    then begun l
    else if s.active && not (is_live l s)
    then ended (outcome l.operation s.history_id)
    else s

-- What happens to the session: a render with new values, a navigation, the panel put away, the report
-- opened or closed, the end of the moment a success is shown.
pub data OverlayEvent : Type 0 where
  rendered : OperationLiveness → OverlayEvent
  navigated hidden opened closed_by_reader lingered : OverlayEvent

unfoldable pub overlay_step : OverlayEvent → Session → Session
unfolding adjust
overlay_step (rendered l) s = adjust l s
overlay_step navigated s = record s { dialog_open = false }
overlay_step hidden s = record s { panel_hidden = true }
overlay_step opened s = record s { dialog_open = true }
overlay_step closed_by_reader s = record s { dialog_open = false }
overlay_step lingered s = record s { succeeded_id = none }

abbrev pub overlay_run : List OverlayEvent → Session → Session
overlay_run [] s = s
overlay_run (e ∷ es) s = overlay_run es (overlay_step e s)

-- The adjustment during a render comes to rest at once: made again with the same values it changes
-- nothing, so the renders that it causes end.
pub adjust_idempotent : (l : OperationLiveness) (s : Session) → adjust l (adjust l s) ≡ adjust l s
unfolding adjust is_operation_starting
adjust_idempotent l s = ground arith

-- whether an operation has ended and has the id
abbrev pub is_ended : String → Option Operation → Bool
is_ended id none = false
is_ended id (some operation) = operation.is_terminal && operation.id == id

-- The events at which the screen has only the ended record, and the reader does not ask for its report.
abbrev pub holds_only : String → OverlayEvent → Bool
holds_only id opened = false
holds_only id (rendered l) = is_ended id l.operation
holds_only id _ = true

abbrev pub IsQuiet : String → Session → Type 0
IsQuiet id s = (s.dialog_open ≡ false) × ((s.active && not (is_history s.history_id id)) ≡ false)

ended_id-is_ended :
    (id : String) (o : Option Operation) → is_ended id o ≡ true → ended_id o ≡ some id
ended_id-is_ended id none h = cc
ended_id-is_ended id (some o) h = ground (arith, eq_iff o.id id)

outcome-is_ended :
    (id : String) (o : Option Operation) (history : Option String)
    → is_ended id o ≡ true
    → is_history history id ≡ true
    → outcome o history ≡ none
outcome-is_ended id none history h k = cc
outcome-is_ended id (some o) none h k = cc
outcome-is_ended id (some o) (some i) h k =
    ground (arith, eq_iff o.id id, eq_iff o.id i, eq_iff id i)

adjust-IsQuiet :
    (id : String) (l : OperationLiveness) (s : Session)
    → is_ended id l.operation ≡ true
    → IsQuiet id s
    → IsQuiet id (adjust l s)
unfolding adjust is_operation_starting
adjust-IsQuiet id l s h (d, q) = ground (
  arith,
  eq_refl id,
  ended_id-is_ended id l.operation,
  outcome-is_ended id l.operation s.history_id,
)

overlay_step-IsQuiet :
    (id : String) (e : OverlayEvent) (s : Session)
    → holds_only id e ≡ true
    → IsQuiet id s
    → IsQuiet id (overlay_step e s)
unfolding overlay_step
overlay_step-IsQuiet id (rendered l) s h q = adjust-IsQuiet id l s h q
overlay_step-IsQuiet id navigated s h q = (refl, q.1)
overlay_step-IsQuiet id hidden s h q = q
overlay_step-IsQuiet id opened s h q = cc
overlay_step-IsQuiet id closed_by_reader s h q = (refl, q.1)
overlay_step-IsQuiet id lingered s h q = q

run-IsQuiet :
    (id : String) (es : List OverlayEvent) (s : Session)
    → all (holds_only id) es ≡ true
    → IsQuiet id s
    → IsQuiet id (overlay_run es s)
run-IsQuiet id [] s h q = q
run-IsQuiet id (e ∷ es) s h q =
    run-IsQuiet id es (overlay_step e s) (ground arith)
      (overlay_step-IsQuiet id e s (ground arith) q)

-- A record that had ended before is history: while a screen has only it, the report never opens by
-- itself, whatever commands the reader tries meanwhile and however they fail.
pub overlay_run-history :
    (id : String) (es : List OverlayEvent)
    → all (holds_only id) es ≡ true
    → (overlay_run es closed).dialog_open ≡ false
overlay_run-history id es h = (run-IsQuiet id es closed h (refl, refl)).0

is_history-ended_id :
    (id : String) (o : Option Operation)
    → is_ended id o ≡ false
    → is_history (ended_id o) id ≡ false
is_history-ended_id id none h = refl
is_history-ended_id id (some o) h = ground (arith, eq_iff o.id id, eq_iff id o.id)

ended-outcome :
    (o : Operation) (history : Option String)
    → is_history history o.id ≡ false
    → ended (outcome (some o) history) ≡ ended (some o)
ended-outcome o history h = rw h

adjust-begun :
    (l : OperationLiveness) (s : Session)
    → s.active ≡ false
    → is_operation_starting l ≡ true
    → adjust l s ≡ begun l
unfolding adjust
adjust-begun l s a b = ground arith

adjust-ended :
    (m : OperationLiveness) (s : Session)
    → s.active ≡ true
    → is_operation_starting m ≡ false
    → m.settled ≡ true
    → adjust m s ≡ ended (outcome m.operation s.history_id)
unfolding adjust
adjust-ended m s a b z = ground arith

-- What may happen while a run is at work: renders that show work under way, or a success whose views are
-- still being read, and anything that the reader does.
abbrev pub is_at_work : OverlayEvent → Bool
is_at_work (rendered l) = is_operation_starting l || has_succeeded l.operation && not l.settled
is_at_work _ = true

-- The session of a run that is at work, with the record that had ended before it.
abbrev IsAtWork : Option String → Session → Type 0
IsAtWork history s = (s.active ≡ true) × (s.history_id ≡ history)

adjust-IsAtWork :
    (history : Option String) (l : OperationLiveness) (s : Session)
    → is_at_work (rendered l) ≡ true
    → IsAtWork history s
    → adjust l s ≡ s
unfolding adjust
adjust-IsAtWork history l s h (a, k) = ground (arith, a, h)

run-IsAtWork :
    (history : Option String) (es : List OverlayEvent) (s : Session)
    → all is_at_work es ≡ true
    → IsAtWork history s
    → IsAtWork history (overlay_run es s)
unfolding overlay_step
run-IsAtWork history [] s h k = k
run-IsAtWork history (rendered l ∷ es) s h k =
    run-IsAtWork history es (adjust l s) (ground arith)
      (rw (adjust-IsAtWork history l s (ground arith) k) k)
run-IsAtWork history (navigated ∷ es) s h k =
    run-IsAtWork history es (record s { dialog_open = false }) h k
run-IsAtWork history (hidden ∷ es) s h k =
    run-IsAtWork history es (record s { panel_hidden = true }) h k
run-IsAtWork history (opened ∷ es) s h k =
    run-IsAtWork history es (record s { dialog_open = true }) h k
run-IsAtWork history (closed_by_reader ∷ es) s h k =
    run-IsAtWork history es (record s { dialog_open = false }) h k
run-IsAtWork history (lingered ∷ es) s h k =
    run-IsAtWork history es (record s { succeeded_id = none }) h k

overlay_run-append :
    (xs ys : List OverlayEvent) (s : Session)
    → overlay_run (xs ++ ys) s ≡ overlay_run ys (overlay_run xs s)
overlay_run-append [] ys s = refl
overlay_run-append (x ∷ xs) ys s = overlay_run-append xs ys (overlay_step x s)

ended_rest :
    (m : OperationLiveness) (out : Option Operation)
    → is_operation_starting m ≡ false
    → adjust m (ended out) ≡ ended out
unfolding adjust ended
ended_rest m out q = ground (arith, q)

run_ended :
    (s : Session) (l m : OperationLiveness) (es : List OverlayEvent) (o : Operation)
    → s.active ≡ false
    → is_operation_starting l ≡ true
    → is_ended o.id l.operation ≡ false
    → all is_at_work es ≡ true
    → is_operation_starting m ≡ false
    → m.operation ≡ some o
    → m.settled ≡ true
    → overlay_run (rendered l ∷ es ++ rendered m ∷ []) s ≡ ended (some o)
unfolding overlay_step begun
run_ended s l m es o a b h w q e z =
    let history = ended_id l.operation in
    let worked = overlay_run es (begun l) in
    let kept = run-IsAtWork history es (begun l) w (refl, refl) in
    ap (overlay_run (es ++ rendered m ∷ [])) (adjust-begun l s a b)
    ∙ overlay_run-append es (rendered m ∷ []) (begun l)
    ∙ adjust-ended m worked kept.0 q z
    ∙ ap (λ (x : Option Operation). ended (outcome x worked.history_id)) e
    ∙ ap (λ (x : Option String). ended (outcome (some o) x)) kept.1
    ∙ ended-outcome o history (is_history-ended_id o.id l.operation h)

-- A run that was seen at work is reported once when it has ended, and only then: after a render at which
-- work starts, with no ended record of the run at hand, the session stays at work through any renders
-- that show work under way or a success whose views are still read, and anything that the reader does;
-- and at the render at which nothing more is under way and the run's record has ended, the report is open
-- exactly if the outcome needs the reader, a success that does not is shown instead, and further renders
-- of the same values add nothing.
pub overlay_run-outcome :
    (s : Session) (l m : OperationLiveness) (es : List OverlayEvent) (o : Operation)
    → s.active ≡ false
    → is_operation_starting l ≡ true
    → is_ended o.id l.operation ≡ false
    → all is_at_work es ≡ true
    → is_operation_starting m ≡ false
    → m.operation ≡ some o
    → m.settled ≡ true
    → let t = overlay_run (rendered l ∷ es ++ rendered m ∷ []) s in
      ((overlay_run (rendered l ∷ es) s).active ≡ true)
      × (t.active ≡ false)
      × (t.dialog_open ≡ needs_reader o)
      × (t.succeeded_id
          ≡ (if is_succeeded o.status && not (needs_reader o) then some o.id else none))
      × (overlay_run (rendered m ∷ []) t ≡ t)
unfolding overlay_step begun ended
overlay_run-outcome s l m es o a b h w q e z =
    let end = run_ended s l m es o a b h w q e z in
    (
      ap (λ (x : Session). (overlay_run es x).active) (adjust-begun l s a b)
          ∙ (run-IsAtWork (ended_id l.operation) es (begun l) w (refl, refl)).0,
      ap (λ (x : Session). x.active) end,
      ap (λ (x : Session). x.dialog_open) end,
      ap (λ (x : Session). x.succeeded_id) end,
      ap (adjust m) end ∙ ended_rest m (some o) q ∙ sym end,
    )
