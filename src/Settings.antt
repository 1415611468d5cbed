-- ===== src/Settings.antt =====
-- The form of the settings and the resolution of its conflicts
-- (frontend/src/features/settings/components/SettingsForm.tsx and SettingsConflict.tsx, with
-- settings.model.ts there and frontend/src/api/settings.ts). An object of settings is read by its keys.
-- The form's library keeps default values and values, and counts as dirty where they differ. An event is
-- a stretch of a handler; the answers of the server come as events. The preview is left out.
mod Kept
mod Pristine
pub mod Submitted
pub mod Request
pub mod Resolution
mod Tests
use full_stack_resume.Common.{
  String, Bool, true, false, not, ◌&&◌, ◌||◌, Option, none, some, List, [], ◌∷◌, ◌==◌,
  if◌then◌else◌, any, present,
}

pub data SettingsKey : Type 0 where
  auto_generate default_ai_model default_reasoning_effort : SettingsKey
  ui_density ui_text_size ui_theme default_template : SettingsKey

pub data SettingValue : Type 0 where
  absent : SettingValue
  flag : Bool → SettingValue
  text : String → SettingValue

-- `SettingsResponse`, with the fields that the form sends
pub record Settings : Type 0 where
  pub auto_generate_when_review_not_required : Bool
  pub default_ai_model : String
  pub default_reasoning_effort : String
  pub default_template : Option String
  pub ui_density : String
  pub ui_text_size : String
  pub ui_theme : String

abbrev pub UpdateSettingsRequest : Type 0
UpdateSettingsRequest = SettingsKey → SettingValue

abbrev pub text_or_absent : Option String → SettingValue
text_or_absent none = absent
text_or_absent (some t) = text t

-- `editableSettings`
unfoldable pub editable_settings : Settings → UpdateSettingsRequest
editable_settings s auto_generate = flag s.auto_generate_when_review_not_required
editable_settings s default_ai_model = text s.default_ai_model
editable_settings s default_reasoning_effort = text s.default_reasoning_effort
editable_settings s ui_density = text s.ui_density
editable_settings s ui_text_size = text s.ui_text_size
editable_settings s ui_theme = text s.ui_theme
editable_settings s default_template = text_or_absent s.default_template

abbrev pub settings_keys : List SettingsKey
settings_keys =
    auto_generate ∷ default_ai_model ∷ default_reasoning_effort ∷ ui_density ∷ ui_text_size
    ∷ ui_theme ∷ default_template ∷ []

abbrev pub same_flag : Bool → Bool → Bool
same_flag true b = b
same_flag false b = not b

-- `===` of two values
abbrev pub same_value : SettingValue → SettingValue → Bool
same_value absent absent = true
same_value (flag a) (flag b) = same_flag a b
same_value (text a) (text b) = a == b
same_value _ _ = false

pub record SettingsRead : Type 0 where
  pub settings : Settings
  pub etag : Option String

-- What a refused save leaves: the values of its baseline and those that it sent.
pub record Conflict : Type 0 where
  pub base : UpdateSettingsRequest
  pub local : UpdateSettingsRequest

-- A save on its way.
pub record Save : Type 0 where
  pub fields : UpdateSettingsRequest
  pub etag : String

-- The state of the form, with the settings of the cache that its parent passes.
pub record SettingsForm : Type 0 where
  pub cached : SettingsRead
  pub baseline : SettingsRead
  pub default_values : UpdateSettingsRequest
  pub values : UpdateSettingsRequest
  pub conflict : Option Conflict
  pub latest : Option SettingsRead
  pub save : Option Save

-- `isDirty`
abbrev pub is_dirty : SettingsForm → Bool
is_dirty s = any (λ k. not (same_value (s.default_values k) (s.values k))) settings_keys

-- `reset`
abbrev pub reset : UpdateSettingsRequest → SettingsForm → SettingsForm
reset values s = record s { default_values = values; values = values }

abbrev pub same_key : SettingsKey → SettingsKey → Bool
same_key auto_generate auto_generate = true
same_key default_ai_model default_ai_model = true
same_key default_reasoning_effort default_reasoning_effort = true
same_key ui_density ui_density = true
same_key ui_text_size ui_text_size = true
same_key ui_theme ui_theme = true
same_key default_template default_template = true
same_key _ _ = false

-- `setValue`
abbrev pub set_value : SettingsKey → SettingValue → SettingsForm → SettingsForm
set_value key value s = record s { values = λ k. if same_key k key then value else s.values k }

abbrev pub is_held : SettingsForm → Bool
is_held s = is_dirty s || present s.conflict || present s.save

-- The effect and the update of the baseline: a form that is pristine follows the cache.
unfoldable pub follow : SettingsForm → SettingsForm
follow s =
    if is_held s
    then s
    else record (reset (editable_settings s.cached.settings) s) { baseline = s.cached }

-- the `mutationFn` of `save`, which throws without an etag
unfoldable pub start_save : Option String → SettingsForm → SettingsForm
start_save none s = s
start_save (some etag) s = record s { save = some (record { fields = s.values; etag = etag }) }

-- the `onSuccess` of `save`
unfoldable pub accept_save : SettingsRead → SettingsForm → SettingsForm
accept_save result s = record (reset (editable_settings result.settings) s) {
  baseline = result;
  cached = result;
  save = none;
}

-- the `onError` of `save`
unfoldable pub refuse_save : (is_conflict : Bool) → Save → SettingsForm → SettingsForm
refuse_save true sent s = record s {
  save = none;
  conflict = some (record { base = editable_settings s.baseline.settings; local = sent.fields });
  latest = none;
}
refuse_save false sent s = record s { save = none }

-- the values that `apply` of `SettingsConflict` merges; a key has a box to select only where the local
-- value is not the base's
unfoldable pub merged :
    (selected : SettingsKey → Bool) → Conflict → Settings → UpdateSettingsRequest
merged selected c current k =
    if selected k && not (same_value (c.base k) (c.local k))
    then c.local k
    else editable_settings current k

-- `resolve`: the keys that differ from the version read are set one by one
unfoldable pub resolve : SettingsRead → UpdateSettingsRequest → SettingsForm → SettingsForm
resolve result fields s = record s {
  baseline = result;
  default_values = editable_settings result.settings;
  values = λ k.
      if not (same_value (fields k) (editable_settings result.settings k))
      then fields k
      else editable_settings result.settings k;
  conflict = none;
  latest = none;
}

pub data SettingsEvent : Type 0 where
  edited : SettingsKey → SettingValue → SettingsEvent
  submitted : SettingsEvent
  accepted : SettingsRead → SettingsEvent
  refused : (is_conflict : Bool) → SettingsEvent
  load_pressed : SettingsEvent
  latest_read cache_read : SettingsRead → SettingsEvent
  discard_pressed : SettingsEvent
  apply_pressed : (selected : SettingsKey → Bool) → SettingsEvent

abbrev pub when_saving : (Save → SettingsForm → SettingsForm) → SettingsForm → SettingsForm
when_saving f s = elim s.save [ none ↦ s | some sent ↦ f sent s ]

abbrev pub when_compared :
    (Conflict → SettingsRead → SettingsForm → SettingsForm) → SettingsForm → SettingsForm
when_compared f s = elim s.conflict [
  | none ↦ s
  | some c ↦ elim s.latest [ none ↦ s | some r ↦ f c r s ]
]

-- The handlers. The fields are disabled during a save and a conflict, and a read for the comparison that
-- has no etag throws.
unfoldable pub handle : SettingsEvent → SettingsForm → SettingsForm
unfolding start_save accept_save refuse_save merged resolve
handle (edited key value) s =
    if present s.save || present s.conflict then s else set_value key value s
handle submitted s =
    if present s.save || present s.conflict then s else start_save s.baseline.etag s
handle (accepted result) s = when_saving (λ sent. accept_save result) s
handle (refused is_conflict) s = when_saving (refuse_save is_conflict) s
handle load_pressed s = record s { latest = none }
handle (latest_read result) s =
    if present s.conflict && present result.etag
    then record s { latest = some result; cached = result }
    else s
handle (cache_read result) s = record s { cached = result }
handle discard_pressed s = when_compared (λ c r. resolve r (editable_settings r.settings)) s
handle (apply_pressed selected) s =
    when_compared (λ c r. resolve r (merged selected c r.settings)) s

-- A handler and the render after it.
unfoldable pub settings_step : SettingsEvent → SettingsForm → SettingsForm
unfolding handle follow
settings_step e s = follow (handle e s)

abbrev pub settings_run : List SettingsEvent → SettingsForm → SettingsForm
settings_run [] s = s
settings_run (e ∷ es) s = settings_run es (settings_step e s)

-- the first render
abbrev pub settings_form : SettingsRead → SettingsForm
settings_form read = record {
  cached = read;
  baseline = read;
  default_values = editable_settings read.settings;
  values = editable_settings read.settings;
  conflict = none;
  latest = none;
  save = none;
}
