-- ===== src/Operations/Watch/Waiting.antt =====
-- A run that was just queued: what the watch of useWatchedOperation.ts makes actions wait for
-- (`isOperationLive` of operationLive.ts), until its record arrives and its results are read.
use full_stack_resume.Common.{
  ℕ, String, ◌≡◌, refl, Bool, true, false, not, ◌&&◌, Option, none, some, List, [], ◌∷◌, arith,
  ◌==◌, eq_iff, present, all,
}
use text.Mathlib.TextPositions.{eq_refl}
use full_stack_resume.Api.Operations.{Operation}
use full_stack_resume.Preparation.Stages.{OperationLiveness, is_operation_live, is_open}
use full_stack_resume.Operations.Watch.{
  WatchInput, Watch, WatchEvent, projected_operation, id_of, same_id, candidate, of_application,
  watched_operation, key_of, terminal_key, awaiting_record, is_settled, projected_effect,
  terminal_effect, rendered, refreshed, watch, settle, watch_step, watch_run,
}

-- what the screen tells of its run, with its own pending work and continuation
abbrev pub liveness : WatchInput → Watch → Bool → Option String → OperationLiveness
liveness i w pending continuation = record {
  awaiting_record = awaiting_record i w;
  continuation = continuation;
  operation = watched_operation i w;
  pending = pending;
  settled = is_settled i w;
}

module _ (app id : String) (projected : Option String) where
  abbrev IsWaiting : Watch → Type 0
  IsWaiting w =
      (w.watched ≡ some (record { application_id = app; id = id }))
      × (w.projected_deps ≡ some (app, projected))

  -- A screen of the application that has not read the record of the run, whose read has not failed, and
  -- whose projection is the one from before.
  abbrev pub is_before : WatchInput → Bool
  is_before i =
      i.application_id == app
      && (same_id (id_of (projected_operation i.detail)) projected
          && (not (same_id (id_of i.read) (some id)) && not i.read_failed))

  -- Renders of such a screen, and refreshes that end.
  abbrev pub is_early : WatchEvent → Bool
  is_early (rendered i) = is_before i
  is_early (refreshed run) = true
  is_early (watch a b) = false

  same_id-eq : (a b : Option String) → same_id a b ≡ true → a ≡ b
  same_id-eq none none h = refl
  same_id-eq none (some b) h = cc
  same_id-eq (some a) none h = cc
  same_id-eq (some a) (some b) h = ground (arith, eq_iff a b)

  settle-IsWaiting :
      (run : ℕ) (o : Option (ℕ × String)) (w : Watch) → IsWaiting w → IsWaiting (settle run o w)
  settle-IsWaiting run none w h = h
  settle-IsWaiting run (some (n, key)) w h = ground arith

  terminal_effect-IsWaiting :
      (a : String) (key : Option String) (w : Watch)
      → IsWaiting w
      → IsWaiting (terminal_effect a key w)
  unfolding terminal_effect
  terminal_effect-IsWaiting a key w h = ground arith

  projected_effect-IsWaiting :
      (i : WatchInput) (w : Watch)
      → is_before i ≡ true
      → IsWaiting w
      → IsWaiting (projected_effect i w)
  unfolding projected_effect
  projected_effect-IsWaiting i w b h = ground (
    arith,
    same_id-eq (id_of (projected_operation i.detail)) projected,
    eq_iff i.application_id app,
  )

  step-IsWaiting :
      (e : WatchEvent) (w : Watch) → is_early e ≡ true → IsWaiting w → IsWaiting (watch_step e w)
  unfolding watch_step
  step-IsWaiting (rendered i) w b h =
      terminal_effect-IsWaiting i.application_id (terminal_key i w) (projected_effect i w)
        (projected_effect-IsWaiting i w b h)
  step-IsWaiting (refreshed run) w b h = settle-IsWaiting run w.refreshing w h
  step-IsWaiting (watch a c) w b h = cc

  run-IsWaiting :
      (es : List WatchEvent) (w : Watch)
      → all is_early es ≡ true
      → IsWaiting w
      → IsWaiting (watch_run es w)
  run-IsWaiting [] w b h = h
  run-IsWaiting (e ∷ es) w b h =
      run-IsWaiting es (watch_step e w) (ground arith) (step-IsWaiting e w (ground arith) h)

  candidate-other :
      (read p : Option Operation)
      → same_id (id_of read) (some id) ≡ false
      → same_id (id_of p) (some id) ≡ false
      → same_id (id_of (of_application app (candidate read (some id) p))) (some id) ≡ false
  candidate-other none none h k = refl
  candidate-other none (some p) h k = ground arith
  candidate-other (some r) none h k = ground arith
  candidate-other (some r) (some p) h k = ground arith

  waiting-awaiting_record :
      (i : WatchInput) (w : Watch)
      → is_before i ≡ true
      → same_id projected (some id) ≡ false
      → IsWaiting w
      → awaiting_record i w ≡ true
  unfolding awaiting_record
  waiting-awaiting_record i w b n (k, d) = ground (
    arith,
    eq_iff i.application_id app,
    eq_refl app,
    same_id-eq (id_of (projected_operation i.detail)) projected,
    candidate-other i.read (projected_operation i.detail),
  )

-- From the accepted press on, until the record of the run is read or its read fails, actions that
-- conflict with the run wait, whatever renders and refreshes of the previous run come between.
pub watch-is_operation_live :
    (app id : String) (projected : Option String) (w : Watch) (es : List WatchEvent)
    (i : WatchInput) (pending : Bool) (continuation : Option String)
    → w.projected_deps ≡ some (app, projected)
    → same_id projected (some id) ≡ false
    → all (is_early app id projected) es ≡ true
    → is_before app id projected i ≡ true
    → is_operation_live
        (liveness i (watch_run es (watch_step (watch app id) w)) pending continuation)
      ≡ true
unfolding is_operation_live watch_step
watch-is_operation_live app id projected w es i pending continuation d n h b =
    let waits =
      waiting-awaiting_record app id projected i (watch_run es (watch_step (watch app id) w)) b n
        (run-IsWaiting app id projected es (watch_step (watch app id) w) h (refl, d)) in
    ground (arith, waits)

key_of-is_open :
    (app : String) (o : Option Operation) → present (key_of app o) ≡ true → is_open o ≡ false
key_of-is_open app none h = refl
key_of-is_open app (some o) h = ground arith

settled-is_open :
    (i : WatchInput) (w : Watch) → is_settled i w ≡ true → is_open (watched_operation i w) ≡ false
unfolding is_settled terminal_key
settled-is_open i w h = key_of-is_open i.application_id (watched_operation i w) (ground arith)

-- Once the run has settled and its record is the one awaited, with nothing pending and nothing to
-- follow, no action waits.
pub settled-is_operation_live :
    (i : WatchInput) (w : Watch)
    → is_settled i w ≡ true
    → awaiting_record i w ≡ false
    → is_operation_live (liveness i w false none) ≡ false
unfolding is_operation_live
settled-is_operation_live i w s a = ground (arith, settled-is_open i w)
