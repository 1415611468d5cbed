-- ===== src/Search/Tests.antt =====
-- The command palette at concrete results.
use full_stack_resume.Common.{
  ℕ, ◌<◌, String, ◌≡◌, refl, true, false, none, some, List, [], ◌∷◌, ◌++◌, map, select, get_elem?,
  arith, includes,
}
use full_stack_resume.Common.Text.{trim}
use full_stack_resume.Facts.{Fact, canonical}
use full_stack_resume.Search.{
  FactEvent, GlobalSearchItem, application, fact, history, SearchData, found_items, drawn, Palette,
  active, shows_rows, arrow_down, arrow_up, enter, handle_key, act, handle_key_at, update_search,
}
use full_stack_resume.Search.Keys.{pressed, pressed_times, arrows-rows}
use full_stack_resume.Search.Found.{answers, handle_key-answers, found_items_empty}

abbrev led : Fact
led = record {
  fact_id = "f-1";
  meaning = "led a team";
  renderings = [];
  resume_style = "bullet";
  source = "sales.json";
  status = canonical;
  tags = "lead" ∷ [];
}

abbrev confirmed : FactEvent
confirmed = record {
  id = "e-1";
  fact_id = "f-1";
  event_type = "confirm";
  source = "sales.json";
  reason = "team checked";
  from_status = none;
  to_status = "canonical";
}

abbrev found : SearchData
found = record {
  applications = some [];
  facts = some (record { fact = led; recorded_status = some "canonical" } ∷ []);
  events = some (confirmed ∷ []);
  is_placeholder_data = false;
  applications_failed = false;
  applications_pending = false;
  facts_failed = false;
  facts_pending = false;
  events_failed = false;
  events_pending = false;
}

abbrev typed : ℕ → Palette
typed i = record { search = " team"; deferred = "team"; active_index = i }

abbrev rows : List GlobalSearchItem
rows = fact led ∷ history confirmed ∷ []

abbrev lower : String → String
lower s = s

rows_test : found_items lower found "team" ≡ rows
unfolding found_items
rows_test = refl

enter_test :
    (handle_key (drawn (found_items lower found "team")) found false enter (typed 5)).1
    ≡ some (history confirmed)
unfolding handle_key handle_key_at act active found_items drawn update_search trim
enter_test = refl

-- Rows of an earlier text are not opened.
stale_test :
    (handle_key rows found false enter
      (record { search = "teams"; deferred = "team"; active_index = 0 })).1
    ≡ none
unfolding handle_key handle_key_at active trim
stale_test = refl

handle_key-answers_example :
    let items = found_items lower found "team" in
    let r = handle_key (drawn items) found false enter (typed 5) in
    (enter ≡ enter)
    × (false ≡ false)
    × (shows_rows found (typed 5) ≡ true)
    × (found.is_placeholder_data ≡ false)
    × ("team" ≡ trim " team")
    × ((a : ℕ) × (active 5 items ≡ some a) × (get_elem? items a ≡ some (history confirmed)))
    × (answers lower found (trim " team") (history confirmed) ≡ true)
    × (r.0.search ≡ "")
handle_key-answers_example =
    handle_key-answers lower found false enter (typed 5) (history confirmed) enter_test

arrows-rows_example :
    (active (pressed_times 1 rows found arrow_down (typed 0)).active_index rows ≡ some 1)
    × (active (pressed_times 2 rows found arrow_down (typed 0)).active_index rows ≡ some 0)
    × (active
          (pressed rows found arrow_up (pressed rows found arrow_down (typed 5))).active_index
          rows
        ≡ some 1)
    × (active
          (pressed rows found arrow_down (pressed rows found arrow_up (typed 5))).active_index
          rows
        ≡ some 1)
    × (1 < 2)
arrows-rows_example =
    arrows-rows rows found (typed 5) 1 1 (unfold active in refl) (omega arith)
      (refl, unfold trim in refl)

found_items_empty_example :
    found_items lower found ""
    ≡ map application []
      ++ (map fact (led ∷ [])
          ++ map history
              (select (λ (e : FactEvent). includes e.fact_id ("f-1" ∷ [])) (confirmed ∷ [])))
found_items_empty_example = found_items_empty lower found refl
