-- ===== src/Board.antt =====
-- The query of the board in the address bar
-- (frontend/src/features/application-list/model/applicationListParams.ts). The parameters are the
-- pairs of a `URLSearchParams` in order: `get` gives the first of a name, and `set` is used on
-- parameters that have a name at most once.
pub mod Attention
pub mod Dates
mod Tests
use full_stack_resume.Common.{
  ℕ, ◌-◌, String, ◌≡◌, refl, Option, none, some, List, [], ◌∷◌, or_else, lookup, insert,
}

pub data ApplicationSort : Type 0 where
  updated created company stage : ApplicationSort

pub data ApplicationPreset : Type 0 where
  needs_attention ready_to_send active_interviews : ApplicationPreset

-- the fields of `ApplicationListQuery` that the board sets; `activity` only has the value "open" here
pub record ApplicationListQuery : Type 0 where
  pub activity : Option String
  pub limit : Option ℕ
  pub preset : Option ApplicationPreset
  pub sort : Option ApplicationSort

unfoldable pub board_limit : ℕ
board_limit = 200

abbrev pub sorts : List (String × ApplicationSort)
sorts = ("updated", updated) ∷ ("created", created) ∷ ("company", company) ∷ ("stage", stage) ∷ []

abbrev pub presets : List (String × ApplicationPreset)
presets =
    ("needs_attention", needs_attention)
    ∷ ("ready_to_send", ready_to_send)
    ∷ ("active_interviews", active_interviews)
    ∷ []

-- `known(table, value)`
unfoldable pub known {ℓ} : {A : Type ℓ} → List (String × A) → Option String → Option A
known table none = none
known table (some value) = lookup value table

-- `queryFromParams`
unfoldable pub query_from_params : List (String × String) → ApplicationListQuery
query_from_params params = record {
  activity = some "open";
  limit = some board_limit;
  preset = known presets (lookup "preset" params);
  sort = some (or_else (known sorts (lookup "sort" params)) updated);
}

abbrev pub preset_name : ApplicationPreset → String
preset_name needs_attention = "needs_attention"
preset_name ready_to_send = "ready_to_send"
preset_name active_interviews = "active_interviews"

abbrev pub sort_name : ApplicationSort → String
sort_name updated = "updated"
sort_name created = "created"
sort_name company = "company"
sort_name stage = "stage"

set_preset : Option ApplicationPreset → List (String × String) → List (String × String)
set_preset none params = params
set_preset (some preset) params = insert "preset" (preset_name preset) params

set_sort : Option ApplicationSort → List (String × String) → List (String × String)
set_sort none params = params
set_sort (some updated) params = params
set_sort (some sort) params = insert "sort" (sort_name sort) params

-- `paramsFromQuery`
unfoldable pub params_from_query : ApplicationListQuery → List (String × String)
unfolding set_preset set_sort
params_from_query query = set_sort query.sort (set_preset query.preset [])

-- The board's query with a preset and an order.
abbrev pub board_query : Option ApplicationPreset → Option ApplicationSort → ApplicationListQuery
board_query preset sort = record {
  activity = some "open";
  limit = some board_limit;
  preset = preset;
  sort = some (or_else sort updated);
}

round_trip :
    (preset : Option ApplicationPreset) (sort : Option ApplicationSort)
    → query_from_params (set_sort sort (set_preset preset [])) ≡ board_query preset sort
unfolding query_from_params set_sort set_preset known lookup insert
round_trip none none = refl
round_trip none (some updated) = refl
round_trip none (some created) = refl
round_trip none (some company) = refl
round_trip none (some stage) = refl
round_trip (some needs_attention) none = refl
round_trip (some needs_attention) (some updated) = refl
round_trip (some needs_attention) (some created) = refl
round_trip (some needs_attention) (some company) = refl
round_trip (some needs_attention) (some stage) = refl
round_trip (some ready_to_send) none = refl
round_trip (some ready_to_send) (some updated) = refl
round_trip (some ready_to_send) (some created) = refl
round_trip (some ready_to_send) (some company) = refl
round_trip (some ready_to_send) (some stage) = refl
round_trip (some active_interviews) none = refl
round_trip (some active_interviews) (some updated) = refl
round_trip (some active_interviews) (some created) = refl
round_trip (some active_interviews) (some company) = refl
round_trip (some active_interviews) (some stage) = refl

-- A query that goes to the address bar comes back as the board's query with the same preset and the
-- same order, the latest update first where none was given.
pub query_from_params-params_from_query :
    (query : ApplicationListQuery)
    → query_from_params (params_from_query query) ≡ board_query query.preset query.sort
unfolding params_from_query
query_from_params-params_from_query query = round_trip query.preset query.sort
