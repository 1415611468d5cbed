-- ===== src/Settings/Pristine.antt =====
-- When the form of the settings follows the cache and when it keeps its values (the effect and the
-- guarded update of SettingsForm.tsx), and what is submitted then.
use full_stack_resume.Common.{
  inl, inr, String, ◌≡◌, refl, sym, ap, ◌∙◌, Bool, true, false, not, ◌||◌, none, some, List, [],
  ◌∷◌, arith, eq_iff, if◌then◌else◌, any, present, Bool-cases, All,
}
use full_stack_resume.Settings.{
  SettingsKey, auto_generate, default_ai_model, default_reasoning_effort, ui_density, ui_text_size,
  ui_theme, default_template, SettingValue, absent, flag, text, editable_settings, same_value,
  SettingsForm, settings_keys, is_dirty, is_held, follow, start_save, submitted, handle,
  settings_step,
}
use full_stack_resume.Settings.Kept.{held_follow, or_held}

pub same_value→eq : (a b : SettingValue) → same_value a b ≡ true → a ≡ b
same_value→eq absent absent h = refl
same_value→eq absent (flag b) h = cc
same_value→eq absent (text b) h = cc
same_value→eq (flag a) absent h = cc
same_value→eq (flag true) (flag true) h = refl
same_value→eq (flag true) (flag false) h = cc
same_value→eq (flag false) (flag true) h = cc
same_value→eq (flag false) (flag false) h = refl
same_value→eq (flag a) (text b) h = cc
same_value→eq (text a) absent h = cc
same_value→eq (text a) (flag b) h = cc
same_value→eq (text a) (text b) h = ap text ((eq_iff a b).0 h)

each_same :
    (f : SettingsKey → Bool) (ks : List SettingsKey)
    → any (λ k. not (f k)) ks ≡ false
    → All (λ k. f k ≡ true) ks
each_same f [] h = _
each_same f (k ∷ ks) h = (ground (arith, h), each_same f ks (ground (arith, h)))

same_keys :
    (s : SettingsForm)
    → is_dirty s ≡ false
    → All (λ k. same_value (s.default_values k) (s.values k) ≡ true) settings_keys
same_keys s h = each_same (λ k. same_value (s.default_values k) (s.values k)) settings_keys h

pub pristine :
    (s : SettingsForm) → is_dirty s ≡ false → (k : SettingsKey) → s.default_values k ≡ s.values k
pristine s h auto_generate = same_value→eq _ _ (same_keys s h).0
pristine s h default_ai_model = same_value→eq _ _ (same_keys s h).1.0
pristine s h default_reasoning_effort = same_value→eq _ _ (same_keys s h).1.1.0
pristine s h ui_density = same_value→eq _ _ (same_keys s h).1.1.1.0
pristine s h ui_text_size = same_value→eq _ _ (same_keys s h).1.1.1.1.0
pristine s h ui_theme = same_value→eq _ _ (same_keys s h).1.1.1.1.1.0
pristine s h default_template = same_value→eq _ _ (same_keys s h).1.1.1.1.1.1.0

dirty_of : (a b c : Bool) → (a || b || c) ≡ false → a ≡ false
dirty_of true b c h = cc
dirty_of false b c h = refl

pub follow_values :
    (s : SettingsForm)
    → s.default_values ≡ editable_settings s.cached.settings
    → (k : SettingsKey) → (follow s).values k ≡ s.values k
unfolding follow
follow_values s d k = elim (Bool-cases (is_held s)) [
  | inl h ↦ rw h refl
  | inr h ↦ rw h (
      ap (λ f. f k) (sym d)
      ∙ pristine s (dirty_of (is_dirty s) (present s.conflict) (present s.save) h) k)
]

-- The kept form's etag once its cache is its baseline.
pub follow_etag :
    (s : SettingsForm)
    → s.cached ≡ s.baseline
    → ((follow s).baseline ≡ s.baseline)
      × ((follow s).save ≡ s.save)
      × ((follow s).conflict ≡ s.conflict)
unfolding follow
follow_etag s e = elim (Bool-cases (is_held s)) [
  | inl h ↦ rw h (refl, refl, refl)
  | inr h ↦ rw h (e, refl, refl)
]

abbrev with_save : SettingsForm → String → SettingsForm
with_save s t = record s { save = some (record { fields = s.values; etag = t }) }

submit-sent :
    (s : SettingsForm) (t : String)
    → s.save ≡ none
    → s.conflict ≡ none
    → s.baseline.etag ≡ some t
    → handle submitted s ≡ with_save s t
unfolding handle start_save
submit-sent s t a b c = rw a (rw b (rw c refl))

or_true : (b : Bool) → (b || true) ≡ true
or_true true = refl
or_true false = refl

pub submitted_save :
    (s : SettingsForm) (t : String)
    → s.save ≡ none
    → s.conflict ≡ none
    → s.baseline.etag ≡ some t
    → (settings_step submitted s).save ≡ some (record { fields = s.values; etag = t })
unfolding settings_step
submitted_save s t a b c =
    ap (λ x. (follow x).save) (submit-sent s t a b c)
    ∙ ap (λ x. x.save)
        (held_follow (with_save s t) (or_held (is_dirty s) (present s.conflict) true (or_true _)))

pub taken_value :
    (fields current : SettingsKey → SettingValue) (k : SettingsKey)
    → (if not (same_value (fields k) (current k)) then fields k else current k) ≡ fields k
taken_value fields current k = elim (Bool-cases (same_value (fields k) (current k))) [
  | inl h ↦ rw h (sym (same_value→eq (fields k) (current k) h))
  | inr h ↦ rw h refl
]
