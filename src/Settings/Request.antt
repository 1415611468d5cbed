-- ===== src/Settings/Request.antt =====
-- The save on its way of the form of the settings (the mutations and effects of SettingsForm.tsx).
use full_stack_resume.Common.{String, ◌≡◌, refl, ap, ◌∙◌, true, Option, none, some, List, [], ◌∷◌}
use full_stack_resume.Settings.{
  UpdateSettingsRequest, editable_settings, SettingsRead, Save, SettingsForm, is_held,
  SettingsEvent, cache_read, handle, settings_step, settings_run,
}
use full_stack_resume.Settings.Kept.{
  Kept, editing, saving, comparing, saving_held, held_follow, form_after, form_after-Kept,
}

-- Reads of the cache.
abbrev pub reads : List SettingsRead → List SettingsEvent → List SettingsEvent
reads [] es = es
reads (r ∷ rs) es = cache_read r ∷ reads rs es

abbrev pub last_read : SettingsRead → List SettingsRead → SettingsRead
last_read r [] = r
last_read r (r' ∷ rs) = last_read r' rs

pub held_run :
    (rs : List SettingsRead) (es : List SettingsEvent) (s : SettingsForm)
    → is_held s ≡ true
    → settings_run (reads rs es) s ≡ settings_run es (record s { cached = last_read s.cached rs })
unfolding settings_step handle
held_run [] es s h = refl
held_run (r ∷ rs) es s h =
    ap (settings_run (reads rs es)) (held_follow (record s { cached = r }) h)
    ∙ held_run rs es (record s { cached = r }) h

-- A save on its way.
request_of :
    (s : SettingsForm) (sent : Save)
    → Kept s
    → s.save ≡ some sent
    → (s.baseline.etag ≡ some sent.etag)
      × (s.values ≡ sent.fields)
      × (s.default_values ≡ editable_settings s.baseline.settings)
      × (s.conflict ≡ none)
      × (is_held s ≡ true)
request_of _ sent (editing cached baseline values latest) h = cc
request_of _ sent (saving cached baseline values latest etag p) h = (
  p ∙ ap (λ o. some (etag_or etag o)) h,
  ap (fields_or values) h,
  refl,
  refl,
  saving_held cached baseline values latest etag,
)
  where
    etag_or : String → Option Save → String
    etag_or t none = t
    etag_or t (some x) = x.etag

    fields_or : UpdateSettingsRequest → Option Save → UpdateSettingsRequest
    fields_or v none = v
    fields_or v (some x) = x.fields
request_of _ sent (comparing cached baseline values latest) h = cc

-- A save on its way overwrites nothing that it was not made from: whatever happened since the first
-- render, its request carries the version of the form's baseline and the values that the form shows, the
-- form counts as edited the keys that differ from that baseline, no conflict is open, and any reads of
-- the cache that come before its answer leave all of the form as it is.
pub settings_run-request :
    (es : List SettingsEvent) (rs : List SettingsRead) (read : SettingsRead) (sent : Save)
    → (form_after es read).save ≡ some sent
    → ((form_after es read).baseline.etag ≡ some sent.etag)
      × ((form_after es read).values ≡ sent.fields)
      × ((form_after es read).default_values
          ≡ editable_settings (form_after es read).baseline.settings)
      × ((form_after es read).conflict ≡ none)
      × (settings_run (reads rs []) (form_after es read)
          ≡ record (form_after es read) { cached = last_read (form_after es read).cached rs })
settings_run-request es rs read sent h =
    let (a, b, c, d, e) = request_of (form_after es read) sent (form_after-Kept es read) h in
    (a, b, c, d, held_run rs [] (form_after es read) e)
