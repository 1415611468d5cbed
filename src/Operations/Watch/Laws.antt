-- ===== src/Operations/Watch/Laws.antt =====
-- What the watch of useWatchedOperation.ts guarantees to its screen.
use full_stack_resume.Common.{
  ℕ, List, [], ◌∷◌, map, String, ◌≡◌, refl, sym, ap, ◌∙◌, inl, inr, true, ◌||◌, Option, none, some,
  arith, ◌==◌, eq_iff, Bool-cases,
}
use mathlib.Core.Path.{subst}
use text.Mathlib.TextPositions.{eq_refl}
use full_stack_resume.Api.Operations.{Operation}
use full_stack_resume.Operations.Watch.{
  refreshed, WatchEvent, settle, watch_run, WatchInput, Watch, projected_operation, id_of, same_id,
  watched_id, candidate, of_application, watched_operation, terminal_key, same_deps,
  watch_projected, projected_effect, terminal_effect, rendered, watch_step,
}

same_id_refl : (o : Option String) → same_id o o ≡ true
same_id_refl none = refl
same_id_refl (some a) = eq_refl a

same_deps_refl : (d : String × Option String) → same_deps d (some d) ≡ true
same_deps_refl (app, id) = ground (arith, eq_refl app, same_id_refl id)

module _ (i : WatchInput) where
  abbrev deps : String × Option String
  deps = (i.application_id, id_of (projected_operation i.detail))

  watch_projected-deps :
      (app : String) (id : Option String) (w : Watch)
      → (watch_projected app id w).projected_deps ≡ w.projected_deps
  watch_projected-deps app none w = refl
  watch_projected-deps app (some id) w = refl

  same_deps-eq :
      (d : String × Option String) (o : Option (String × Option String))
      → same_deps d o ≡ true
      → o ≡ some d
  same_deps-eq (app, id) none h = cc
  same_deps-eq (app, none) (some (app', none)) h = ground (arith, eq_iff app app')
  same_deps-eq (app, none) (some (app', some b)) h = ground arith
  same_deps-eq (app, some a) (some (app', none)) h = ground arith
  same_deps-eq (app, some a) (some (app', some b)) h = ground (arith, eq_iff app app', eq_iff a b)

  projected_effect-deps : (w : Watch) → (projected_effect i w).projected_deps ≡ some deps
  unfolding projected_effect
  projected_effect-deps w = elim (Bool-cases (same_deps deps w.projected_deps)) [
    | inl h ↦ rw h (same_deps-eq deps w.projected_deps h)
    | inr h ↦ rw h (watch_projected-deps i.application_id (id_of (projected_operation i.detail)) _)
  ]

  projected_effect_rest : (w : Watch) → w.projected_deps ≡ some deps → projected_effect i w ≡ w
  unfolding projected_effect
  projected_effect_rest w h = simp (h, same_deps_refl deps)

  terminal_effect-deps :
      (app : String) (key : Option String) (w : Watch)
      → ((terminal_effect app key w).projected_deps ≡ w.projected_deps)
        × ((terminal_effect app key w).watched ≡ w.watched)
  unfolding terminal_effect
  terminal_effect-deps app key w = ground arith

  terminal_key-watched : (v w : Watch) → v.watched ≡ w.watched → terminal_key i v ≡ terminal_key i w
  unfolding terminal_key
  terminal_key-watched v w h = rw h refl

  -- once the projection's record is retained, a render does no more than to refresh
  step_retained :
      (w : Watch)
      → w.projected_deps ≡ some deps
      → watch_step (rendered i) w ≡ terminal_effect i.application_id (terminal_key i w) w
  unfolding watch_step
  step_retained w h =
      ap (terminal_effect i.application_id (terminal_key i w)) (projected_effect_rest w h)

  step-deps : (w : Watch) → (watch_step (rendered i) w).projected_deps ≡ some deps
  unfolding watch_step
  step-deps w =
      (terminal_effect-deps i.application_id (terminal_key i w) (projected_effect i w)).0
      ∙ projected_effect-deps w

  -- The effects have run with the dependencies of these values.
  abbrev IsAtRest : Watch → Type 0
  IsAtRest w =
      (w.projected_deps ≡ some deps) × (w.terminal_deps ≡ some (i.application_id, terminal_key i w))

  terminal_effect-own :
      (app : String) (key : Option String) (w : Watch)
      → (terminal_effect app key w).terminal_deps ≡ some (app, key)
  unfolding terminal_effect
  terminal_effect-own app key w = elim (Bool-cases (same_deps (app, key) w.terminal_deps)) [
    | inl h ↦ rw h (same_deps-eq (app, key) w.terminal_deps h)
    | inr h ↦ rw h refl
  ]

  retained-IsAtRest :
      (w : Watch) → w.projected_deps ≡ some deps → IsAtRest (watch_step (rendered i) w)
  retained-IsAtRest w h =
      let key = terminal_key i w in
      let next = terminal_effect i.application_id key w in
      let kept = terminal_effect-deps i.application_id key w in
      rw (step_retained w h) (
        kept.0 ∙ h,
        terminal_effect-own i.application_id key w
            ∙ ap (λ (k : Option String). some (i.application_id, k))
                (sym (terminal_key-watched next w kept.1)),
      )

  render_rest : (w : Watch) → IsAtRest w → watch_step (rendered i) w ≡ w
  unfolding terminal_effect terminal_key
  render_rest w (h, k) =
      step_retained w h ∙ rw (k, same_deps_refl (i.application_id, terminal_key i w)) refl

  settle-same :
      (run : ℕ) (r : Option (ℕ × String)) (w : Watch)
      → ((settle run r w).projected_deps ≡ w.projected_deps)
        × ((settle run r w).terminal_deps ≡ w.terminal_deps)
        × ((settle run r w).watched ≡ w.watched)
        × ((settle run r w).runs ≡ w.runs)
  settle-same run none w = (refl, refl, refl, refl)
  settle-same run (some (n, key)) w = ground arith

  settle-IsAtRest : (run : ℕ) (w : Watch) → IsAtRest w → IsAtRest (settle run w.refreshing w)
  settle-IsAtRest run w (h, k) =
      let same = settle-same run w.refreshing w in
      (
        same.0 ∙ h,
        same.1
            ∙ k
            ∙ ap (λ (x : Option String). some (i.application_id, x))
                (sym (terminal_key-watched (settle run w.refreshing w) w same.2)),
      )

  -- A render with the same values, or the end of a refresh.
  abbrev pub again : Option ℕ → WatchEvent
  again none = rendered i
  again (some run) = refreshed run

  run-IsAtRest :
      (es : List (Option ℕ)) (w : Watch)
      → IsAtRest w
      → let t = watch_run (map again es) w in
        (t.runs ≡ w.runs) × (t.watched ≡ w.watched) × IsAtRest t
  unfolding watch_step
  run-IsAtRest [] w r = (refl, refl, r)
  run-IsAtRest (none ∷ es) w r =
      subst
        (λ (v : Watch).
          let t = watch_run (map again es) v in
          (t.runs ≡ w.runs) × (t.watched ≡ w.watched) × IsAtRest t)
        (sym (render_rest w r)) (run-IsAtRest es w r)
  run-IsAtRest (some run ∷ es) w r =
      let same = settle-same run w.refreshing w in
      let rest = run-IsAtRest es (settle run w.refreshing w) (settle-IsAtRest run w r) in
      (rest.0 ∙ same.3, rest.1 ∙ same.2, rest.2)

-- Renders with the same values come to rest: after two of them, whatever further renders and whatever ends
-- of refreshes follow in any order, no refresh is started, the watch stays on its operation, and a render
-- changes nothing.
pub rendered_settles :
    (i : WatchInput) (w : Watch) (es : List (Option ℕ))
    → let rest = watch_step (rendered i) (watch_step (rendered i) w) in
      let t = watch_run (map (again i) es) rest in
      (t.runs ≡ rest.runs) × (t.watched ≡ rest.watched) × (watch_step (rendered i) t ≡ t)
rendered_settles i w es =
    let first = watch_step (rendered i) w in
    let second = retained-IsAtRest i first (step-deps i w) in
    let end = run-IsAtRest i es (watch_step (rendered i) first) second in
    (
      end.0,
      end.1,
      render_rest i (watch_run (map (again i) es) (watch_step (rendered i) first)) end.2,
    )

own_lem :
    (app : String) (id : Option String) (read projected : Option Operation) (o : Operation)
    → of_application app (candidate read id projected) ≡ some o
    → ((o.application_id == app) ≡ true)
      × ((same_id (some o.id) id || same_id (some o.id) (id_of projected)) ≡ true)
own_lem app id none none o h = cc
own_lem app id none (some p) o h = ground (arith, eq_refl p.id)
own_lem app id (some r) none o h = ground arith
own_lem app id (some r) (some p) o h = ground (arith, eq_refl p.id)

-- The record that is reported is the application's own, and it is the watched one or the projection's.
pub watched_operation-own :
    (i : WatchInput) (w : Watch) (o : Operation)
    → watched_operation i w ≡ some o
    → ((o.application_id == i.application_id) ≡ true)
      × ((same_id (some o.id) (watched_id i w)
            || same_id (some o.id) (id_of (projected_operation i.detail)))
          ≡ true)
unfolding watched_operation
watched_operation-own i w o h =
    own_lem i.application_id (watched_id i w) i.read (projected_operation i.detail) o h
