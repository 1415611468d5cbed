-- ===== src/Recruitment.antt =====
-- The way of an application with the employer: the ladder of the application's page
-- (frontend/src/features/application-detail/model/recruitmentLadder.ts) and the lanes of the board
-- (frontend/src/features/application-list/model/recruitmentStages.ts). Labels, icons and badges are
-- left out, so a rung is its statuses.
pub mod Update
mod Tests
use full_stack_resume.Common.{
  ℕ, suc, ◌+◌, ◌-◌, String, ◌≡◌, refl, ◌∙◌, inl, inr, Bool, Option, none, some, List, [], ◌∷◌, map,
  ltb, if◌then◌else◌, Bool-cases, length, get_elem?, find, includes,
}

abbrev pub rungs : List (List String)
rungs =
    ("saved" ∷ [])
    ∷ ("applied" ∷ [])
    ∷ ("recruiter_screen" ∷ [])
    ∷ ("interview" ∷ "assignment" ∷ [])
    ∷ ("final_stage" ∷ "offer" ∷ "accepted" ∷ [])
    ∷ []

pub record RecruitmentStage : Type 0 where
  pub id : String
  pub statuses : List String

abbrev pub recruitment_stages : List RecruitmentStage
recruitment_stages =
    record { id = "saved"; statuses = "saved" ∷ [] }
    ∷ record { id = "applied"; statuses = "applied" ∷ [] }
    ∷ record { id = "screening"; statuses = "recruiter_screen" ∷ [] }
    ∷ record { id = "interviews"; statuses = "interview" ∷ "assignment" ∷ [] }
    ∷ record { id = "offer"; statuses = "final_stage" ∷ "offer" ∷ "accepted" ∷ [] }
    ∷ []

one_later : Option ℕ → Option ℕ
one_later none = none
one_later (some i) = some (suc i)

-- `array.findIndex(p)`, none for -1
find_index {ℓ} : {A : Type ℓ} → (A → Bool) → List A → Option ℕ
unfolding one_later
find_index p [] = none
find_index p (x ∷ xs) = let rest = find_index p xs in if p x then some 0 else one_later rest

-- The index of the rung, and that of the rung after it where there is one.
pub record RecruitmentRung : Type 0 where
  pub index : Option ℕ
  pub next : Option ℕ
  pub total : ℕ

next_rung : Option ℕ → Option ℕ
next_rung none = none
next_rung (some i) = if ltb (i + 1) (length rungs) then some (i + 1) else none

-- `recruitmentRung`
unfoldable pub recruitment_rung : String → RecruitmentRung
unfolding find_index next_rung
recruitment_rung status =
    let index = find_index (λ (statuses : List String). includes status statuses) rungs in
    record { index = index; next = next_rung index; total = length rungs }

-- `recruitmentStageOf`
unfoldable pub recruitment_stage_of : String → Option RecruitmentStage
recruitment_stage_of status =
    find (λ (s : RecruitmentStage). includes status s.statuses) recruitment_stages

-- The element at an index, where there is one.
abbrev pub at_index {ℓ} : {A : Type ℓ} → List A → Option ℕ → Option A
at_index xs none = none
at_index xs (some i) = get_elem? xs i

at_index-one_later {ℓ} :
    {A : Type ℓ} (x : A) (xs : List A) (o : Option ℕ)
    → at_index (x ∷ xs) (one_later o) ≡ at_index xs o
unfolding one_later
at_index-one_later x xs none = refl
at_index-one_later x xs (some i) = refl

at_index-find_index {ℓ κ} :
    {A : Type ℓ} {B : Type κ} (p : B → Bool) (f : A → B) (xs : List A)
    → at_index xs (find_index p (map f xs)) ≡ find (λ x. p (f x)) xs
unfolding find_index
at_index-find_index p f [] = refl
at_index-find_index p f (x ∷ xs) = elim (Bool-cases (p (f x))) [
  | inl h ↦ rw h refl
  | inr h ↦ rw h (at_index-one_later x xs (find_index p (map f xs)) ∙ at_index-find_index p f xs)
]

-- The page and the board agree: the rung of a status has the index of the lane that the board puts it
-- in, and a status without a rung has no lane.
pub recruitment_rung-stage :
    (status : String)
    → at_index recruitment_stages (recruitment_rung status).index ≡ recruitment_stage_of status
unfolding recruitment_rung recruitment_stage_of
recruitment_rung-stage status =
    at_index-find_index (λ (statuses : List String). includes status statuses)
      (λ (s : RecruitmentStage). s.statuses) recruitment_stages
