-- ===== src/Settings/Kept.antt =====
-- What a run of the form of the settings keeps: in each of its phases its defaults are the values of its
-- baseline, a save on its way is made of its values and the baseline's etag, and a conflict holds both.
use full_stack_resume.Common.{
  String, ◌≡◌, refl, Bool, true, false, ◌||◌, Option, none, some, List, [], ◌∷◌, if◌then◌else◌,
}
use full_stack_resume.Settings.{
  UpdateSettingsRequest, editable_settings, SettingsRead, Conflict, Save, SettingsForm, is_dirty,
  is_held, follow, start_save, SettingsEvent, edited, submitted, accepted, refused, load_pressed,
  latest_read, cache_read, discard_pressed, apply_pressed, handle, settings_step, settings_run,
  settings_form,
}

-- A form whose defaults are those of its baseline.
abbrev pub form_of :
    (cached baseline : SettingsRead)
    → UpdateSettingsRequest
    → Option Conflict
    → Option SettingsRead
    → Option Save
    → SettingsForm
form_of cached baseline values conflict latest save = record {
  cached = cached;
  baseline = baseline;
  default_values = editable_settings baseline.settings;
  values = values;
  conflict = conflict;
  latest = latest;
  save = save;
}

abbrev pub conflict_of : SettingsRead → UpdateSettingsRequest → Option Conflict
conflict_of baseline values =
    some (record { base = editable_settings baseline.settings; local = values })

-- The form is edited, saved or compared; its edits and their baseline are kept in each.
pub data Kept : SettingsForm → Type 0 where
  editing :
      (cached baseline : SettingsRead) (values : UpdateSettingsRequest)
      (latest : Option SettingsRead)
      → Kept (form_of cached baseline values none latest none)
  saving :
      (cached baseline : SettingsRead) (values : UpdateSettingsRequest)
      (latest : Option SettingsRead) (etag : String)
      → baseline.etag ≡ some etag
      → Kept (
          form_of cached baseline values none latest
            (some (record { fields = values; etag = etag })))
  comparing :
      (cached baseline : SettingsRead) (values : UpdateSettingsRequest)
      (latest : Option SettingsRead)
      → Kept (form_of cached baseline values (conflict_of baseline values) latest none)

if-Kept : (b : Bool) (s t : SettingsForm) → Kept s → Kept t → Kept (if b then s else t)
if-Kept true s t p q = p
if-Kept false s t p q = q

pub held_follow : (s : SettingsForm) → is_held s ≡ true → follow s ≡ s
unfolding follow
held_follow s h = rw h refl

pub or_held : (a b c : Bool) → (b || c) ≡ true → (a || b || c) ≡ true
or_held true b c h = refl
or_held false b c h = h

abbrev pub saving_form :
    (cached baseline : SettingsRead)
    → UpdateSettingsRequest
    → Option SettingsRead
    → String
    → SettingsForm
saving_form cached baseline values latest etag =
    form_of cached baseline values none latest (some (record { fields = values; etag = etag }))

abbrev pub compared_form :
    (cached baseline : SettingsRead) → UpdateSettingsRequest → Option SettingsRead → SettingsForm
compared_form cached baseline values latest =
    form_of cached baseline values (conflict_of baseline values) latest none

pub saving_held :
    (cached baseline : SettingsRead) (values : UpdateSettingsRequest) (latest : Option SettingsRead)
    (etag : String)
    → is_held (saving_form cached baseline values latest etag) ≡ true
saving_held cached baseline values latest etag =
    or_held (is_dirty (saving_form cached baseline values latest etag)) false true refl

pub compared_held :
    (cached baseline : SettingsRead) (values : UpdateSettingsRequest) (latest : Option SettingsRead)
    → is_held (compared_form cached baseline values latest) ≡ true
compared_held cached baseline values latest =
    or_held (is_dirty (compared_form cached baseline values latest)) true false refl

follow-Kept : (s : SettingsForm) → Kept s → Kept (follow s)
unfolding follow
follow-Kept _ (editing cached baseline values latest) =
    if-Kept _ _ _ (editing cached baseline values latest)
      (editing cached cached (editable_settings cached.settings) latest)
follow-Kept _ (saving cached baseline values latest etag p) =
    rw (saving_held cached baseline values latest etag)
      (saving cached baseline values latest etag p)
follow-Kept _ (comparing cached baseline values latest) =
    rw (compared_held cached baseline values latest) (comparing cached baseline values latest)

submit-Kept :
    (o : Option String) (cached baseline : SettingsRead) (values : UpdateSettingsRequest)
    (latest : Option SettingsRead)
    → baseline.etag ≡ o
    → Kept (start_save o (form_of cached baseline values none latest none))
unfolding start_save
submit-Kept none cached baseline values latest p = editing cached baseline values latest
submit-Kept (some t) cached baseline values latest p = saving cached baseline values latest t p

-- What a handler leaves, by the phase.
edited-Kept :
    (e : SettingsEvent) (cached baseline : SettingsRead) (values : UpdateSettingsRequest)
    (latest : Option SettingsRead)
    → Kept (handle e (form_of cached baseline values none latest none))
unfolding handle
edited-Kept (edited key value) cached baseline values latest = editing _ _ _ _
edited-Kept submitted cached baseline values latest =
    submit-Kept baseline.etag cached baseline values latest refl
edited-Kept (accepted r) cached baseline values latest = editing cached baseline values latest
edited-Kept (refused b) cached baseline values latest = editing cached baseline values latest
edited-Kept load_pressed cached baseline values latest = editing cached baseline values none
edited-Kept (latest_read r) cached baseline values latest = editing cached baseline values latest
edited-Kept (cache_read r) cached baseline values latest = editing r baseline values latest
edited-Kept discard_pressed cached baseline values latest = editing cached baseline values latest
edited-Kept (apply_pressed selected) cached baseline values latest =
    editing cached baseline values latest

saved-Kept :
    (e : SettingsEvent) (cached baseline : SettingsRead) (values : UpdateSettingsRequest)
    (latest : Option SettingsRead) (etag : String)
    → baseline.etag ≡ some etag
    → Kept (handle e (saving_form cached baseline values latest etag))
unfolding handle
saved-Kept (edited key value) cached baseline values latest etag p =
    saving cached baseline values latest etag p
saved-Kept submitted cached baseline values latest etag p =
    saving cached baseline values latest etag p
saved-Kept (accepted r) cached baseline values latest etag p =
    editing r r (editable_settings r.settings) latest
saved-Kept (refused true) cached baseline values latest etag p =
    comparing cached baseline values none
saved-Kept (refused false) cached baseline values latest etag p =
    editing cached baseline values latest
saved-Kept load_pressed cached baseline values latest etag p =
    saving cached baseline values none etag p
saved-Kept (latest_read r) cached baseline values latest etag p =
    saving cached baseline values latest etag p
saved-Kept (cache_read r) cached baseline values latest etag p =
    saving r baseline values latest etag p
saved-Kept discard_pressed cached baseline values latest etag p =
    saving cached baseline values latest etag p
saved-Kept (apply_pressed selected) cached baseline values latest etag p =
    saving cached baseline values latest etag p

compared-Kept :
    (e : SettingsEvent) (cached baseline : SettingsRead) (values : UpdateSettingsRequest)
    (latest : Option SettingsRead)
    → Kept (handle e (compared_form cached baseline values latest))
unfolding handle
compared-Kept (edited key value) cached baseline values latest =
    comparing cached baseline values latest
compared-Kept submitted cached baseline values latest = comparing cached baseline values latest
compared-Kept (accepted r) cached baseline values latest = comparing cached baseline values latest
compared-Kept (refused b) cached baseline values latest = comparing cached baseline values latest
compared-Kept load_pressed cached baseline values latest = comparing cached baseline values none
compared-Kept (latest_read r) cached baseline values latest =
    if-Kept _ _ _ (comparing r baseline values (some r)) (comparing cached baseline values latest)
compared-Kept (cache_read r) cached baseline values latest = comparing r baseline values latest
compared-Kept discard_pressed cached baseline values none = comparing cached baseline values none
compared-Kept discard_pressed cached baseline values (some r) = editing _ _ _ _
compared-Kept (apply_pressed selected) cached baseline values none =
    comparing cached baseline values none
compared-Kept (apply_pressed selected) cached baseline values (some r) = editing _ _ _ _

handle-Kept : (e : SettingsEvent) (s : SettingsForm) → Kept s → Kept (handle e s)
handle-Kept e _ (editing cached baseline values latest) =
    edited-Kept e cached baseline values latest
handle-Kept e _ (saving cached baseline values latest etag p) =
    saved-Kept e cached baseline values latest etag p
handle-Kept e _ (comparing cached baseline values latest) =
    compared-Kept e cached baseline values latest

run-Kept : (es : List SettingsEvent) (s : SettingsForm) → Kept s → Kept (settings_run es s)
unfolding settings_step
run-Kept [] s h = h
run-Kept (e ∷ es) s h =
    run-Kept es (settings_step e s) (follow-Kept (handle e s) (handle-Kept e s h))

-- The form after a run from its first render.
abbrev pub form_after : List SettingsEvent → SettingsRead → SettingsForm
form_after es read = settings_run es (settings_form read)

pub form_after-Kept : (es : List SettingsEvent) (read : SettingsRead) → Kept (form_after es read)
form_after-Kept es read =
    run-Kept es (settings_form read) (editing read read (editable_settings read.settings) none)
