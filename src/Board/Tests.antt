-- ===== src/Board/Tests.antt =====
-- The board's query at concrete parameters, and the panel at concrete records.
use full_stack_resume.Common.{◌≡◌, refl, some, none, [], ◌∷◌, lookup}
use full_stack_resume.Board.{query_from_params, board_query, known}
use mathlib.Core.List.{Perm}
use full_stack_resume.Common.{
  ℕ, ◌+◌, ◌*◌, String, Bool, false, Option, List, map, flat_map, ltb, arith,
}
use full_stack_resume.Common.Sort.{sort_after, insert_after, IsOrder}
use full_stack_resume.Api.Applications.{
  ApplicationListItem, PreparationState, ready, ready_to_draft,
}
use full_stack_resume.Board.Dates.{date_match, date_only_key, digits_of, dash_of}
use full_stack_resume.Board.Attention
use full_stack_resume.Board.Attention.{
  HubItemType, overdue, due_today, hub_item, attention_hub_items, owed_kinds, kinds_of,
  attention_hub_items-rows, IsByUrgency,
}

-- A value that is no order falls to the default.
unknown_test : query_from_params (("sort", "random") ∷ []) ≡ board_query none none
unfolding query_from_params known lookup
unknown_test = refl

abbrev record_with : String → Option String → PreparationState → ApplicationListItem
record_with id date state = record {
  id = id;
  active_operation = none;
  latest_operation = none;
  company = "Acme";
  target_role = "Sales";
  is_closed = false;
  next_action = some "Call";
  next_action_date = date;
  preparation_state = state;
  recommended_action = none;
  recruitment_status = "saved";
  review_reasons = [];
  warnings = [];
}

abbrev records : List ApplicationListItem
records =
    record_with "a1" none ready
    ∷ record_with "a2" (some "2024-02-30") ready_to_draft
    ∷ record_with "a3" (some "2024-03-01") ready_to_draft
    ∷ record_with "a4" (some "2024-02-29") ready
    ∷ []

abbrev number_of : Option (ℕ × (ℕ × ℕ)) → ℕ
number_of none = 0
number_of (some d) = d.0 * 10000 + d.1.0 * 100 + d.1.1

date_number : String → ℕ
date_number s = number_of (date_match s)

abbrev date_after : String → String → Bool
date_after a b = ltb (date_number b) (date_number a)

date_after-IsOrder : IsOrder date_after
date_after-IsOrder = record { one_way = λ a b h. ground arith; chains = λ a b c h k. ground arith }

-- The overdue reminder is first, a day that does not exist is none, and the document to send is last.
panel_test :
    kinds_of (attention_hub_items "2024-03-01" "2024-03-07" date_after records)
    ≡ ("a4", overdue) ∷ ("a3", due_today) ∷ ("a1", Attention.ready) ∷ []
unfolding attention_hub_items hub_item date_only_key date_match digits_of dash_of date_number
    sort_after insert_after
panel_test = refl

attention_hub_items-rows_example :
    let hub = attention_hub_items "2024-03-01" "2024-03-07" date_after records in
    let rows = flat_map (hub_item "2024-03-01" "2024-03-07") records in
    IsByUrgency "2024-03-01" "2024-03-07" date_after hub
    × Perm hub rows
    × (kinds_of rows
        ≡ flat_map
            (λ (a : ApplicationListItem).
              map (λ (k : HubItemType). (a.id, k)) (owed_kinds "2024-03-01" "2024-03-07" a))
            records)
attention_hub_items-rows_example =
    attention_hub_items-rows "2024-03-01" "2024-03-07" date_after records date_after-IsOrder
