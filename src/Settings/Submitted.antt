-- ===== src/Settings/Submitted.antt =====
-- What the form of the settings submits at rest, and when it counts as edited after a choice.
use full_stack_resume.Common.{
  inl, inr, String, ◌≡◌, refl, ap, ◌∙◌, Bool, true, false, not, ◌&&◌, ◌||◌, Option, none, some,
  List, [], ◌∷◌, arith, eq_iff, if◌then◌else◌, any, Bool-cases,
}
use full_stack_resume.Settings.{
  SettingsKey, SettingValue, absent, flag, text, UpdateSettingsRequest, is_held, editable_settings,
  same_value, Save, SettingsForm, follow, start_save, submitted, handle, settings_step,
}
use full_stack_resume.Settings.Pristine.{submitted_save}

same_value_refl : (v : SettingValue) → same_value v v ≡ true
same_value_refl absent = refl
same_value_refl (flag true) = refl
same_value_refl (flag false) = refl
same_value_refl (text t) = (eq_iff t t).1 refl

pub any-same :
    (f g : SettingsKey → Bool) (ks : List SettingsKey)
    → ((k : SettingsKey) → f k ≡ g k)
    → any f ks ≡ any g ks
any-same f g [] h = refl
any-same f g (k ∷ ks) h = λ i. h k i || any-same f g ks h i

same_value_sym : (a b : SettingValue) → same_value a b ≡ same_value b a
same_value_sym absent absent = refl
same_value_sym absent (flag b) = refl
same_value_sym absent (text b) = refl
same_value_sym (flag a) absent = refl
same_value_sym (flag true) (flag true) = refl
same_value_sym (flag true) (flag false) = refl
same_value_sym (flag false) (flag true) = refl
same_value_sym (flag false) (flag false) = refl
same_value_sym (flag a) (text b) = refl
same_value_sym (text a) absent = refl
same_value_sym (text a) (flag b) = refl
same_value_sym (text a) (text b) = ground (arith, eq_iff a b, eq_iff b a)

-- A key counts as edited after the choice where the value taken is not the current one.
pub edited_key :
    (b : Bool) (local now : SettingValue)
    → let v = if b then local else now in
      not (same_value now (if not (same_value v now) then v else now))
      ≡ (b && not (same_value local now))
edited_key false local now = rw (same_value_refl now) (rw (same_value_refl now) refl)
edited_key true local now = elim (Bool-cases (same_value local now)) [
  | inl h ↦ rw h (rw (same_value_refl now) refl)
  | inr h ↦ rw h (rw (same_value_sym now local) (rw h refl))
]

-- What is submitted by a form at rest.
abbrev pub request : Option String → UpdateSettingsRequest → Option Save
request none values = none
request (some t) values = some (record { fields = values; etag = t })

unsent :
    (s : SettingsForm)
    → s.save ≡ none
    → s.conflict ≡ none
    → s.baseline.etag ≡ none
    → handle submitted s ≡ s
unfolding handle start_save
unsent s a b e = rw a (rw b (rw e refl))

follow_save : (s : SettingsForm) → (follow s).save ≡ s.save
unfolding follow
follow_save s = elim (Bool-cases (is_held s)) [ inl h ↦ rw h refl | inr h ↦ rw h refl ]

unsubmitted :
    (s : SettingsForm)
    → s.save ≡ none
    → s.conflict ≡ none
    → s.baseline.etag ≡ none
    → (settings_step submitted s).save ≡ none
unfolding settings_step
unsubmitted s a b e = ap (λ x. (follow x).save) (unsent s a b e) ∙ follow_save s ∙ a

pub follow_by :
    (s : SettingsForm) (b : Bool)
    → is_held s ≡ b
    → follow s ≡ (
        if b then s else record s {
          baseline = s.cached;
          default_values = editable_settings s.cached.settings;
          values = editable_settings s.cached.settings;
        })
unfolding follow
follow_by s true h = rw h refl
follow_by s false h = rw h refl

pub or_none : (b : Bool) → (b || false || false) ≡ b
or_none true = refl
or_none false = refl

pub submitted_request :
    (s : SettingsForm)
    → s.save ≡ none
    → s.conflict ≡ none
    → (settings_step submitted s).save ≡ request s.baseline.etag s.values
submitted_request s a b = at_etag s.baseline.etag refl
  where
    at_etag :
        (o : Option String)
        → s.baseline.etag ≡ o
        → (settings_step submitted s).save ≡ request o s.values
    at_etag none e = unsubmitted s a b e
    at_etag (some t) e = submitted_save s t a b e
