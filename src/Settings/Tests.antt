-- ===== src/Settings/Tests.antt =====
-- The form of the settings after concrete runs.
use full_stack_resume.Common.{
  ◌≡◌, refl, Bool, true, false, none, some, List, [], ◌∷◌, ◌++◌, if◌then◌else◌,
}
use full_stack_resume.Settings.{
  SettingsKey, ui_theme, ui_density, text, Settings, editable_settings, Save, SettingsEvent, edited,
  submitted, accepted, cache_read, load_pressed, latest_read, settings_step, settings_run,
  SettingsForm,
}
use full_stack_resume.Settings.Kept.{form_after}
use full_stack_resume.Settings.Request.{reads, settings_run-request}
use full_stack_resume.Settings.Submitted.{request}
use full_stack_resume.Settings.Resolution.{
  version, takes, choice, resolved_after, settings_run-conflict,
}

abbrev opened : Settings
opened = record {
  auto_generate_when_review_not_required = true;
  default_ai_model = "large";
  default_reasoning_effort = "low";
  default_template = none;
  ui_density = "comfortable";
  ui_text_size = "normal";
  ui_theme = "light";
}

-- The server's, which another tab has saved.
abbrev elsewhere : Settings
elsewhere = record opened { default_ai_model = "small"; ui_theme = "system" }

abbrev edits : List SettingsEvent
edits = edited ui_theme (text "dark") ∷ edited ui_density (text "compact") ∷ submitted ∷ []

abbrev sent : Save
sent = record { fields = (form_after edits (version opened "a")).values; etag = "a" }

abbrev only_theme : SettingsKey → Bool
only_theme ui_theme = true
only_theme _ = false

-- A version is loaded and read, and loaded again.
abbrev compared_before : List SettingsEvent
compared_before = load_pressed ∷ latest_read (version elsewhere "b") ∷ []

saving_test : (form_after edits (version opened "a")).save ≡ some sent
unfolding settings_step editable_settings
saving_test = refl

accepted_test :
    (form_after (edits ++ accepted (version elsewhere "b") ∷ []) (version opened "a")).values
      ui_theme
    ≡ text "system"
unfolding settings_step editable_settings
accepted_test = refl

-- A pristine form follows the cache.
pristine_test :
    (form_after (cache_read (version elsewhere "b") ∷ []) (version opened "a")).values ui_theme
    ≡ text "system"
unfolding settings_step editable_settings
pristine_test = refl

resolved_test :
    (resolved_after edits compared_before
        (version elsewhere "b" ∷ [])
        (version elsewhere "d" ∷ [])
        (version opened "a")
        (version elsewhere "c")
        only_theme).values
      ui_theme
    ≡ text "dark"
unfolding settings_step editable_settings
resolved_test = refl

unselected_test :
    (resolved_after edits compared_before
        (version elsewhere "b" ∷ [])
        (version elsewhere "d" ∷ [])
        (version opened "a")
        (version elsewhere "c")
        only_theme).values
      ui_density
    ≡ text "comfortable"
unfolding settings_step editable_settings
unselected_test = refl

abbrev during : SettingsForm
during = form_after edits (version opened "a")

settings_run-request_example :
    (during.baseline.etag ≡ some "a")
    × (during.values ≡ sent.fields)
    × (during.default_values ≡ editable_settings during.baseline.settings)
    × (during.conflict ≡ none)
    × (settings_run (reads (version elsewhere "b" ∷ []) []) during
        ≡ record during { cached = version elsewhere "b" })
settings_run-request_example =
    settings_run-request edits (version elsewhere "b" ∷ []) (version opened "a") sent saving_test

abbrev resolved : SettingsForm
resolved =
    resolved_after edits compared_before (version elsewhere "b" ∷ []) (version elsewhere "d" ∷ [])
      (version opened "a") (version elsewhere "c") only_theme

settings_run-conflict_example :
    let base = editable_settings during.baseline.settings in
    let taken = takes base sent.fields elsewhere only_theme in
    (resolved.values ui_theme ≡ (
      if taken
      then choice base sent.fields elsewhere only_theme ui_theme
      else editable_settings (version elsewhere "d").settings ui_theme))
    × (resolved.baseline ≡ (if taken then version elsewhere "c" else version elsewhere "d"))
    × ((settings_step submitted resolved).save ≡ request resolved.baseline.etag resolved.values)
settings_run-conflict_example =
    settings_run-conflict edits compared_before (version elsewhere "b" ∷ [])
      (version elsewhere "d" ∷ []) (version opened "a") elsewhere "c" only_theme sent ui_theme refl
      saving_test
