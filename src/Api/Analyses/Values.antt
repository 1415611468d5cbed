-- ===== src/Api/Analyses/Values.antt =====
-- Which classification values the client recognises (frontend/src/api/classificationValues.ts).
use full_stack_resume.Common.{String, Option, none, some, List, [], ◌∷◌, ◌==◌, if◌then◌else◌}

pub data Track : Type 0 where
  development sales tech_sales : Track

pub data ProfileName : Type 0 where
  development field_sales account_manager key_account_manager sdr_bdr : ProfileName
  account_executive business_development sales_management tech_sales : ProfileName
  pre_sales_solutions_consultant : ProfileName

pub data Emphasis : Type 0 where
  development_balanced development_backend development_ai new_business : Emphasis
  account_growth leadership tech_consultative_sales balanced_sales : Emphasis

pub data Language : Type 0 where
  en he : Language

pub data FitLevel : Type 0 where
  high medium low unknown : FitLevel

-- `memberOf(members)(value)`: the member of that name, for a value that is a text
unfoldable pub member_of {ℓ} : {A : Type ℓ} → List (String × A) → Option String → Option A
member_of members none = none
member_of [] (some s) = none
member_of ((name, a) ∷ members) (some s) =
    let rest = member_of members (some s) in if name == s then some a else rest

abbrev pub tracks : List (String × Track)
tracks = ("development", development) ∷ ("sales", sales) ∷ ("tech-sales", tech_sales) ∷ []

abbrev pub profiles : List (String × ProfileName)
profiles =
    ("development", development)
    ∷ ("field-sales", field_sales)
    ∷ ("account-manager", account_manager)
    ∷ ("key-account-manager", key_account_manager)
    ∷ ("sdr-bdr", sdr_bdr)
    ∷ ("account-executive", account_executive)
    ∷ ("business-development", business_development)
    ∷ ("sales-management", sales_management)
    ∷ ("tech-sales", tech_sales)
    ∷ ("pre-sales-solutions-consultant", pre_sales_solutions_consultant)
    ∷ []

abbrev pub emphases : List (String × Emphasis)
emphases =
    ("development-balanced", development_balanced)
    ∷ ("development-backend", development_backend)
    ∷ ("development-ai", development_ai)
    ∷ ("new-business", new_business)
    ∷ ("account-growth", account_growth)
    ∷ ("leadership", leadership)
    ∷ ("tech-consultative-sales", tech_consultative_sales)
    ∷ ("balanced-sales", balanced_sales)
    ∷ []

abbrev pub languages : List (String × Language)
languages = ("en", en) ∷ ("he", he) ∷ []

abbrev pub fit_levels : List (String × FitLevel)
fit_levels = ("high", high) ∷ ("medium", medium) ∷ ("low", low) ∷ ("unknown", unknown) ∷ []

unfoldable pub read_track : Option String → Option Track
unfolding member_of
read_track = member_of tracks

unfoldable pub read_profile : Option String → Option ProfileName
unfolding member_of
read_profile = member_of profiles

unfoldable pub read_emphasis : Option String → Option Emphasis
unfolding member_of
read_emphasis = member_of emphases

unfoldable pub read_language : Option String → Option Language
unfolding member_of
read_language = member_of languages

unfoldable pub read_fit : Option String → Option FitLevel
unfolding member_of
read_fit = member_of fit_levels
