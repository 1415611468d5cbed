-- ===== src/Settings/Resolution.antt =====
-- What becomes of the values of a save that a conflict refuses (`resolve` of SettingsForm.tsx and
-- `apply` of SettingsConflict.tsx).
use full_stack_resume.Common.{
  inl, inr, String, ◌≡◌, refl, sym, ap, ◌∙◌, Bool, true, false, not, ◌&&◌, Option, none, some, List,
  [], ◌∷◌, ◌++◌, arith, if◌then◌else◌, any, all, present, Bool-cases,
}
use full_stack_resume.Settings.{
  SettingsKey, Settings, UpdateSettingsRequest, settings_keys, is_dirty, editable_settings,
  same_value, SettingsRead, Save, SettingsForm, follow, merged, resolve, SettingsEvent, edited,
  submitted, accepted, refused, load_pressed, latest_read, cache_read, discard_pressed,
  apply_pressed, handle, settings_step, settings_run,
}
use full_stack_resume.Settings.Kept.{
  Kept, editing, saving, comparing, compared_form, compared_held, held_follow, form_after,
  form_after-Kept,
}
use full_stack_resume.Settings.Request.{reads, last_read, held_run, settings_run-request}
use full_stack_resume.Settings.Pristine.{taken_value}
use full_stack_resume.Settings.Submitted.{
  any-same, edited_key, request, follow_by, or_none, submitted_request,
}

abbrev pub version : Settings → String → SettingsRead
version current t = record { settings = current; etag = some t }

-- The events while a conflict is open, but for those that end it.
abbrev pub is_during_conflict : SettingsEvent → Bool
is_during_conflict discard_pressed = false
is_during_conflict (apply_pressed selected) = false
is_during_conflict _ = true

-- A save that a conflict refuses, anything while the conflict is open, a press that loads the version for
-- the comparison, its read, and the choice of the edits to apply to it; the cache is read meanwhile.
abbrev pub conflict_events :
    (es : List SettingsEvent)
    → (before after : List SettingsRead) → SettingsRead
    → (SettingsKey → Bool)
    → List SettingsEvent
conflict_events es before after r selected =
    refused true ∷ es
    ++ load_pressed ∷ reads before (latest_read r ∷ reads after (apply_pressed selected ∷ []))

step_during :
    (e : SettingsEvent) (cached baseline : SettingsRead) (values : UpdateSettingsRequest)
    (latest : Option SettingsRead)
    → is_during_conflict e ≡ true
    → (c : SettingsRead) × (l : Option SettingsRead) × (handle e
          (compared_form cached baseline values latest)
        ≡ compared_form c baseline values l)
unfolding handle
step_during (edited key value) cached baseline values latest h = (cached, latest, refl)
step_during submitted cached baseline values latest h = (cached, latest, refl)
step_during (accepted r) cached baseline values latest h = (cached, latest, refl)
step_during (refused b) cached baseline values latest h = (cached, latest, refl)
step_during load_pressed cached baseline values latest h = (cached, none, refl)
step_during (latest_read r) cached baseline values latest h = elim (Bool-cases (present r.etag)) [
  | inl k ↦ (r, some r, rw k refl)
  | inr k ↦ (cached, latest, rw k refl)
]
step_during (cache_read r) cached baseline values latest h = (r, latest, refl)
step_during discard_pressed cached baseline values latest h = cc
step_during (apply_pressed selected) cached baseline values latest h = cc

-- An open conflict stays open, with the form's values.
run_during :
    (es more : List SettingsEvent) (cached baseline : SettingsRead) (values : UpdateSettingsRequest)
    (latest : Option SettingsRead)
    → all is_during_conflict es ≡ true
    → (c : SettingsRead) × (l : Option SettingsRead) × (settings_run
          (es ++ more)
          (compared_form cached baseline values latest)
        ≡ settings_run more (compared_form c baseline values l))
unfolding settings_step
run_during [] more cached baseline values latest h = (cached, latest, refl)
run_during (e ∷ es) more cached baseline values latest h =
    let one = step_during e cached baseline values latest (ground arith) in
    let next = compared_form one.0 baseline values one.1 in
    let rest = run_during es more one.0 baseline values one.1 (ground arith) in
    (
      rest.0,
      rest.1,
      ap (λ t. settings_run (es ++ more) (follow t)) one.2
          ∙ ap (settings_run (es ++ more))
              (held_follow next (compared_held one.0 baseline values one.1))
          ∙ rest.2,
    )

module _ (base values : UpdateSettingsRequest) (current : Settings)
    (selected : SettingsKey → Bool) where
  -- Whether a key is chosen at which the edit is one and is not already the server's.
  abbrev pub takes : Bool
  takes =
      any
        (λ k.
          selected k
          && not (same_value (base k) (values k))
          && not (same_value (values k) (editable_settings current k)))
        settings_keys

  -- The edit at the chosen keys that have one, and the server's value at the others.
  abbrev pub choice : UpdateSettingsRequest
  choice k =
      if selected k && not (same_value (base k) (values k))
      then values k
      else editable_settings current k

module _ (baseline : SettingsRead) (after : List SettingsRead) (values : UpdateSettingsRequest)
    (current : Settings) (t : String) (selected : SettingsKey → Bool) where
  abbrev found : SettingsRead
  found = version current t

  abbrev newer : SettingsRead
  newer = last_read found after

  abbrev compared : SettingsForm
  compared = compared_form newer baseline values (some found)

  abbrev resolved : SettingsForm
  resolved =
      resolve found
        (merged selected (record { base = editable_settings baseline.settings; local = values })
          current)
        compared

  resolve_run :
      (before : List SettingsRead) (cached : SettingsRead) (latest : Option SettingsRead)
      → settings_run
          (load_pressed
            ∷ reads before (latest_read found ∷ reads after (apply_pressed selected ∷ [])))
          (compared_form cached baseline values latest)
        ≡ follow resolved
  unfolding settings_step handle
  resolve_run before cached latest =
      let opened = compared_form cached baseline values none in
      let read_now = compared_form found baseline values (some found) in
      let last = apply_pressed selected ∷ [] in
      ap (settings_run (reads before (latest_read found ∷ reads after last)))
        (held_follow opened (compared_held cached baseline values none))
      ∙ held_run before (latest_read found ∷ reads after last) opened
          (compared_held cached baseline values none)
      ∙ ap (settings_run (reads after last))
          (held_follow read_now (compared_held found baseline values (some found)))
      ∙ held_run after last read_now (compared_held found baseline values (some found))

  dirty_resolved :
      is_dirty resolved ≡ (takes (editable_settings baseline.settings) values current selected)
  unfolding resolve merged
  dirty_resolved =
      any-same (λ k. not (same_value (resolved.default_values k) (resolved.values k)))
        (λ k.
          selected k
          && not (same_value (editable_settings baseline.settings k) (values k))
          && not (same_value (values k) (editable_settings current k)))
        settings_keys
        (λ k.
          edited_key
            (selected k && not (same_value (editable_settings baseline.settings k) (values k)))
            (values k) (editable_settings current k))

  resolved_value :
      (k : SettingsKey)
      → resolved.values k ≡ choice (editable_settings baseline.settings) values current selected k
  unfolding resolve merged
  resolved_value k =
      taken_value (choice (editable_settings baseline.settings) values current selected)
        (editable_settings current) k

  abbrev following : SettingsForm
  following = record {
    cached = newer;
    baseline = newer;
    default_values = editable_settings newer.settings;
    values = editable_settings newer.settings;
    conflict = none;
    latest = none;
    save = none;
  }

  follow-resolved : follow resolved ≡ (
      if (takes (editable_settings baseline.settings) values current selected)
      then resolved
      else following)
  unfolding resolve follow
  follow-resolved =
      follow_by resolved (takes (editable_settings baseline.settings) values current selected)
        (or_none (is_dirty resolved) ∙ dirty_resolved)

  kept_by :
      (b : Bool) (f : SettingsForm)
      → f ≡ (if b then resolved else following)
      → (k : SettingsKey)
      → (f.values k ≡ (
          if b
          then choice (editable_settings baseline.settings) values current selected k
          else editable_settings newer.settings k))
        × (f.baseline ≡ (if b then found else newer))
        × ((settings_step submitted f).save ≡ request f.baseline.etag f.values)
  unfolding resolve
  kept_by true f e k = rw e (resolved_value k, refl, submitted_request resolved refl refl)
  kept_by false f e k = rw e (refl, refl, submitted_request following refl refl)

conflict_run :
    (es : List SettingsEvent) (before after : List SettingsRead) (current : Settings) (t : String)
    (selected : SettingsKey → Bool) (sent : Save) (s : SettingsForm)
    → all is_during_conflict es ≡ true
    → Kept s
    → s.save ≡ some sent
    → settings_run (conflict_events es before after (version current t) selected) s
      ≡ follow (resolved s.baseline after s.values current t selected)
unfolding settings_step handle
conflict_run es before after current t selected sent _ h (editing cached baseline values latest) e =
    cc
conflict_run es before after current t selected sent _ h
      (saving cached baseline values latest etag p) e =
    let last =
      load_pressed
      ∷ reads before
          (latest_read (version current t) ∷ reads after (apply_pressed selected ∷ [])) in
    let during = run_during es last cached baseline values none h in
    ap (settings_run (es ++ last)) (
      held_follow (compared_form cached baseline values none)
        (compared_held cached baseline values none))
    ∙ during.2
    ∙ resolve_run baseline after values current t selected before during.0 during.1
conflict_run es before after current t selected sent _ h (comparing cached baseline values latest)
      e =
    cc

-- The form after a run, a conflict and the choice of the edits to apply.
abbrev pub resolved_after :
    (run during : List SettingsEvent)
    → (before after : List SettingsRead) → (read r : SettingsRead) → (SettingsKey → Bool)
    → SettingsForm
resolved_after run during before after read r selected =
    settings_run (conflict_events during before after r selected) (form_after run read)

-- No edit is lost to a conflict and none is applied unasked. After any run from the first render a save on
-- its way is refused for a conflict; anything happens but a choice; the reader loads the version of the
-- server, which is read, and chooses keys to apply to it, with reads of the cache at any time. If a chosen
-- key has an edit, a value of the request that is not its baseline's, and the version read has not that
-- value already, then the form has the user's value at each chosen key with an edit and the value of the
-- version read at every other key, on that version. If none has, the form follows the cache, which is the
-- version read or what was read of it since. And what is submitted next is the values of the form on the
-- etag of that version, and nothing where it has none.
pub settings_run-conflict :
    (run during : List SettingsEvent) (before after : List SettingsRead) (read : SettingsRead)
    (current : Settings) (t : String) (selected : SettingsKey → Bool) (sent : Save)
    (k : SettingsKey)
    → all is_during_conflict during ≡ true
    → (form_after run read).save ≡ some sent
    → let base = editable_settings (form_after run read).baseline.settings in
      let f = resolved_after run during before after read (version current t) selected in
      let taken = takes base sent.fields current selected in
      let cached = last_read (version current t) after in
      (f.values k ≡ (
        if taken
        then choice base sent.fields current selected k
        else editable_settings cached.settings k))
      × (f.baseline ≡ (if taken then version current t else cached))
      × ((settings_step submitted f).save ≡ request f.baseline.etag f.values)
settings_run-conflict run during before after read current t selected sent k h e =
    let s = form_after run read in
    rw (sym (settings_run-request run [] read sent e).1) (
      kept_by s.baseline after s.values current t selected
        (takes (editable_settings s.baseline.settings) s.values current selected)
        (resolved_after run during before after read (version current t) selected)
        (conflict_run during before after current t selected sent s h (form_after-Kept run read) e
          ∙ follow-resolved s.baseline after s.values current t selected)
        k)
