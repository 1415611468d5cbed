-- ===== src/Preparation/Matching.antt =====
-- The configuration of the matching and the decisions that a change of it sends
-- (frontend/src/features/preparation/model/matchingConfiguration.ts).
use full_stack_resume.Common.{
  String, ◌≡◌, refl, Bool, true, false, not, Option, none, some, List, [], ◌∷◌, if◌then◌else◌,
  present, or_else, select, includes,
}
use full_stack_resume.Api.Analyses.{Classification}
use full_stack_resume.Api.Analyses.Values.{Track, ProfileName, Emphasis, Language}

pub record MatchingValues : Type 0 where
  pub emphasis : Emphasis
  pub language : Language
  pub profile : ProfileName
  pub track : Track

pub data MatchingKey : Type 0 where
  track_key profile_key emphasis_key language_key : MatchingKey

-- `ClassificationDecisions`
pub record ClassificationDecisions : Type 0 where
  pub emphasis_override : Option Emphasis
  pub language_override : Option Language
  pub profile_override : Option ProfileName
  pub track_override : Option Track

abbrev pub matching_keys : List MatchingKey
matching_keys = track_key ∷ profile_key ∷ emphasis_key ∷ language_key ∷ []

-- `matchingValuesFrom`
unfoldable pub matching_values_from : Classification → Option MatchingValues
matching_values_from c = elim c.track [
  | none ↦ none
  | some t ↦ elim c.profile [
    | none ↦ none
    | some p ↦ elim c.emphasis [
      | none ↦ none
      | some e ↦ elim c.language [
        | none ↦ none
        | some l ↦ some (record { emphasis = e; language = l; profile = p; track = t })
      ]
    ]
  ]
]

emphasis-discrete : Discrete Emphasis
emphasis-discrete = hlevel

language-discrete : Discrete Language
language-discrete = hlevel

profile-discrete : Discrete ProfileName
profile-discrete = hlevel

track-discrete : Discrete Track
track-discrete = hlevel

-- `current === next`
abbrev same : {A : Type 0} → Discrete A → A → A → Bool
same d a b = elim (d a b) [ yes h ↦ true | no h ↦ false ]

-- `current === next ? null : next`
abbrev override_of : {A : Type 0} → Discrete A → A → A → Option A
override_of d a b = if same d a b then none else some b

-- `matchingSubmission`
unfoldable pub matching_submission : MatchingValues → MatchingValues → ClassificationDecisions
unfolding emphasis-discrete language-discrete profile-discrete track-discrete
matching_submission current next = record {
  emphasis_override = override_of emphasis-discrete current.emphasis next.emphasis;
  language_override = override_of language-discrete current.language next.language;
  profile_override = override_of profile-discrete current.profile next.profile;
  track_override = override_of track-discrete current.track next.track;
}

abbrev key_differs : MatchingValues → MatchingValues → MatchingKey → Bool
key_differs current next track_key = not (same track-discrete current.track next.track)
key_differs current next profile_key = not (same profile-discrete current.profile next.profile)
key_differs current next emphasis_key = not (same emphasis-discrete current.emphasis next.emphasis)
key_differs current next language_key = not (same language-discrete current.language next.language)

-- `changedKeys`
unfoldable pub changed_keys : MatchingValues → MatchingValues → List MatchingKey
unfolding emphasis-discrete language-discrete profile-discrete track-discrete
changed_keys current next = select (key_differs current next) matching_keys

abbrev pub key_name : MatchingKey → String
key_name track_key = "track"
key_name profile_key = "profile"
key_name emphasis_key = "emphasis"
key_name language_key = "language"

pub data MatchingOrigin : Type 0 where
  from_analysis decided : MatchingOrigin

-- `matchingOrigin`
unfoldable pub matching_origin : MatchingKey → Classification → MatchingOrigin
matching_origin key c = if includes (key_name key) c.decided then decided else from_analysis

-- The decisions taken over an analysis: an override replaces its value, and none keeps it.
abbrev pub decided_values : ClassificationDecisions → MatchingValues → MatchingValues
decided_values d v = record {
  emphasis = or_else d.emphasis_override v.emphasis;
  language = or_else d.language_override v.language;
  profile = or_else d.profile_override v.profile;
  track = or_else d.track_override v.track;
}

abbrev pub is_overridden : ClassificationDecisions → MatchingKey → Bool
is_overridden d track_key = present d.track_override
is_overridden d profile_key = present d.profile_override
is_overridden d emphasis_key = present d.emphasis_override
is_overridden d language_key = present d.language_override

override_of-or_else : {A : Type 0} (d : Discrete A) (a b : A) → or_else (override_of d a b) a ≡ b
override_of-or_else d a b =
    elim (d a b)
      as (λ r. or_else (if (elim r [ yes h ↦ true | no h ↦ false ]) then none else some b) a ≡ b) [
        | yes h ↦ h
        | no h ↦ refl
      ]

override_of-present :
    {A : Type 0} (d : Discrete A) (a b : A) → present (override_of d a b) ≡ not (same d a b)
override_of-present d a b =
    elim (d a b)
      as (λ r.
        present (if (elim r [ yes h ↦ true | no h ↦ false ]) then none else some b)
        ≡ not (elim r [ yes h ↦ true | no h ↦ false ])) [ yes h ↦ refl | no h ↦ refl ]

-- The decisions say exactly the change: taken over the current values they give the chosen ones, and they
-- override the changed keys and no other, which are also those that the screen names as changed.
pub matching_submission-decided :
    (current next : MatchingValues)
    → (decided_values (matching_submission current next) current ≡ next)
      × (select (is_overridden (matching_submission current next)) matching_keys
          ≡ changed_keys current next)
unfolding matching_submission changed_keys
matching_submission-decided current next = (
  (λ i. record {
    emphasis = override_of-or_else emphasis-discrete current.emphasis next.emphasis i;
    language = override_of-or_else language-discrete current.language next.language i;
    profile = override_of-or_else profile-discrete current.profile next.profile i;
    track = override_of-or_else track-discrete current.track next.track i;
  }),
  rw (
    override_of-present track-discrete current.track next.track,
    override_of-present profile-discrete current.profile next.profile,
    override_of-present emphasis-discrete current.emphasis next.emphasis,
    override_of-present language-discrete current.language next.language,
  ),
)
