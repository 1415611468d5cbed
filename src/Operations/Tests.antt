-- ===== src/Operations/Tests.antt =====
-- The overlay and the watch at concrete operations, and their theorems there.
use full_stack_resume.Common.{◌≡◌, refl, Bool, true, false, Option, none, some, [], ◌∷◌, ◌++◌, map}
use full_stack_resume.Api.Operations.{
  Operation, OperationStatus, draft_gap_fact, succeeded, failed, running, executing, fits,
}
use full_stack_resume.Preparation.Stages.{
  OperationLiveness, is_operation_live, is_operation_starting,
}
use full_stack_resume.Operations.Overlay
use full_stack_resume.Operations.Overlay.{
  closed, adjust, overlay_step, overlay_run, needs_reader, begun, ended, overlay_run-history,
  overlay_run-outcome,
}
use full_stack_resume.Operations.Watch.{
  WatchInput, Watch, unwatched, watch, rendered, refreshed, watch_step, watch_run,
  watched_operation, watched_id, terminal_key, awaiting_record, is_settled, projected_effect,
  terminal_effect,
}
use full_stack_resume.Operations.Watch.Laws.{again, rendered_settles}
use full_stack_resume.Operations.Watch.Waiting.{liveness, watch-is_operation_live}

operations : Unit {0}
unfolding adjust begun ended overlay_step needs_reader is_operation_starting is_operation_live
    watched_operation watched_id terminal_key awaiting_record is_settled watch_step projected_effect
    terminal_effect
operations = tt

abbrev run_with : OperationStatus → Bool → Operation
run_with status ended = record {
  id = "o1";
  application_id = "a1";
  operation_type = draft_gap_fact;
  status = status;
  phase = executing;
  is_terminal = ended;
  outputs = [];
  failure_code = none;
  failure_reason = none;
  safe_failure_detail = none;
  created_at = "1";
  started_at = none;
  finished_at = none;
  withheld_claims = 0;
  page_fit = some fits;
}

abbrev live_with : Option Operation → Bool → OperationLiveness
live_with operation settled = record {
  awaiting_record = false;
  continuation = none;
  operation = operation;
  pending = false;
  settled = settled;
}

abbrev at_work : OperationLiveness
at_work = live_with (some (run_with running false)) false

abbrev at_end : OperationLiveness
at_end = live_with (some (run_with failed true)) true

-- A failed run opens the report, and the same record on the next screen does not.
report_test :
    ((overlay_run (Overlay.rendered at_work ∷ Overlay.rendered at_end ∷ []) closed).dialog_open
      ≡ true)
    × ((overlay_run (Overlay.rendered at_end ∷ []) closed).dialog_open ≡ false)
unfolding operations
report_test = (refl, refl)

overlay_run-history_example :
    (overlay_run
      (Overlay.rendered at_end ∷ Overlay.hidden ∷ Overlay.navigated ∷ [])
      closed).dialog_open
    ≡ false
overlay_run-history_example =
    overlay_run-history "o1" (Overlay.rendered at_end ∷ Overlay.hidden ∷ Overlay.navigated ∷ [])
      refl

overlay_run-outcome_example :
    let es = Overlay.hidden ∷ Overlay.rendered at_work ∷ Overlay.navigated ∷ [] in
    let t = overlay_run (Overlay.rendered at_work ∷ es ++ Overlay.rendered at_end ∷ []) closed in
    ((overlay_run (Overlay.rendered at_work ∷ es) closed).active ≡ true)
    × (t.active ≡ false)
    × (t.dialog_open ≡ needs_reader (run_with failed true))
    × (t.succeeded_id ≡ none)
    × (overlay_run (Overlay.rendered at_end ∷ []) t ≡ t)
unfolding operations
overlay_run-outcome_example =
    overlay_run-outcome closed at_work at_end
      (Overlay.hidden ∷ Overlay.rendered at_work ∷ Overlay.navigated ∷ []) (run_with failed true)
      refl refl refl refl refl refl refl

abbrev screen_with : Option Operation → WatchInput
screen_with read = record { application_id = "a1"; detail = none; read = read; read_failed = false }

rendered_settles_example :
    let input = screen_with (some (run_with succeeded true)) in
    let rest = watch_step (rendered input) (watch_step (rendered input) unwatched) in
    let t = watch_run (map (again input) (some 1 ∷ none ∷ some 1 ∷ [])) rest in
    (t.runs ≡ rest.runs) × (t.watched ≡ rest.watched) × (watch_step (rendered input) t ≡ t)
rendered_settles_example =
    rendered_settles (screen_with (some (run_with succeeded true))) unwatched
      (some 1 ∷ none ∷ some 1 ∷ [])

abbrev watching : Watch
watching = record {
  watched = some (record { application_id = "a1"; id = "o1" });
  projected_deps = some ("a1", none);
  terminal_deps = none;
  refreshing = none;
  runs = 0;
  settled_key = some "a1:o1";
}

watch-is_operation_live_example :
    is_operation_live (
      liveness
        (screen_with none)
        (watch_run
          (rendered (screen_with none) ∷ refreshed 1 ∷ [])
          (watch_step (watch "a1" "o2") watching))
        false
        none)
    ≡ true
unfolding operations
watch-is_operation_live_example =
    watch-is_operation_live "a1" "o2" none watching (rendered (screen_with none) ∷ refreshed 1 ∷ [])
      (screen_with none) false none refl refl refl refl
