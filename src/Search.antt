-- ===== src/Search.antt =====
-- The command palette (frontend/src/app/search): what it finds
-- (useApplicationSearch.ts) and its keys (GlobalSearchDialog.tsx). The three queries' results, the
-- moment when React's deferred value catches up, and `toLocaleLowerCase` are parameters; a query that is
-- not enabled still has the data that its cache holds.
pub mod Keys
pub mod Found
mod Tests
use full_stack_resume.Common.{
  ℕ, ◌+◌, ◌-◌, min, String, Bool, true, false, not, ◌&&◌, ◌||◌, Option, none, some, List, [], ◌∷◌,
  ◌++◌, map, ◌==◌, leb, if◌then◌else◌, or_else, length, get_elem?, select, is_empty, flat_map,
  includes,
}
use full_stack_resume.Common.Text.{trim}
use full_stack_resume.Navigation.{◌<>◌}
use full_stack_resume.Navigation.Encode.{encode}
use full_stack_resume.Api.Applications.{ApplicationListItem}
use full_stack_resume.Facts.{Fact, FactListItem, join_by, contains, fact_search_text}
use full_stack_resume.Preparation.Destinations.{preparation_resume_destination}

-- `FactEventResponse`, with the fields that the palette reads
pub record FactEvent : Type 0 where
  pub id : String
  pub fact_id : String
  pub event_type : String
  pub source : String
  pub reason : String
  pub from_status : Option String
  pub to_status : String

pub data GlobalSearchItem : Type 0 where
  application : ApplicationListItem → GlobalSearchItem
  fact : Fact → GlobalSearchItem
  history : FactEvent → GlobalSearchItem

-- What the three queries have.
pub record SearchData : Type 0 where
  pub applications : Option (List ApplicationListItem)
  pub facts : Option (List FactListItem)
  pub events : Option (List FactEvent)
  pub is_placeholder_data : Bool
  pub applications_failed : Bool
  pub applications_pending : Bool
  pub facts_failed : Bool
  pub facts_pending : Bool
  pub events_failed : Bool
  pub events_pending : Bool

abbrev pub found_facts : SearchData → List Fact
found_facts d = map (λ (i : FactListItem). i.fact) (or_else d.facts [])

-- The texts by which an event is found.
abbrev pub event_parts : FactEvent → List String
event_parts e =
    e.id
    ∷ e.fact_id
    ∷ e.event_type
    ∷ e.source
    ∷ e.reason
    ∷ (elim e.from_status [ none ↦ e.to_status ∷ [] | some s ↦ s ∷ e.to_status ∷ [] ])

module _ (to_lower_case : String → String) where
  abbrev pub fact_matches : String → Fact → Bool
  fact_matches deferred f = contains (to_lower_case deferred) (fact_search_text to_lower_case f)

  abbrev pub event_matches : SearchData → String → FactEvent → Bool
  event_matches d deferred e =
      includes e.fact_id (map (λ (f : Fact). f.fact_id) (found_facts d))
      && contains (to_lower_case deferred) (to_lower_case (join_by " " (event_parts e)))

  -- `items` of `useApplicationSearch`
  unfoldable pub found_items : SearchData → String → List GlobalSearchItem
  unfolding contains fact_search_text join_by
  found_items d deferred =
      map application (or_else d.applications [])
      ++ (map fact (select (fact_matches deferred) (found_facts d))
          ++ map history (select (event_matches d deferred) (or_else d.events [])))

abbrev pub is_history : GlobalSearchItem → Bool
is_history (history e) = true
is_history _ = false

-- `sections`, without the titles: the matches and the history, those that are not empty
unfoldable pub sections : List GlobalSearchItem → List (List GlobalSearchItem)
sections items =
    select (λ (s : List GlobalSearchItem). not (is_empty s))
      (select (λ (i : GlobalSearchItem). not (is_history i)) items
        ∷ select (λ (i : GlobalSearchItem). is_history i) items
        ∷ [])

-- the keyboard's order: the sections one after the other
unfoldable pub drawn : List GlobalSearchItem → List GlobalSearchItem
unfolding sections
drawn items = flat_map (λ (s : List GlobalSearchItem). s) (sections items)

-- The state of the dialog and of the field.
pub record Palette : Type 0 where
  pub search : String
  pub deferred : String
  pub active_index : ℕ

-- `Math.min(activeIndex, items.length - 1)`, which is -1 for no items
unfoldable pub active : ℕ → List GlobalSearchItem → Option ℕ
active index items = if is_empty items then none else some (min index (length items - 1))

-- `isStale`
abbrev pub is_stale : SearchData → Palette → Bool
is_stale d p = d.is_placeholder_data || not (p.deferred == trim p.search)

-- `searchEnabled` of the open palette
abbrev pub is_search_enabled : Palette → Bool
is_search_enabled p = not (p.deferred == "")

abbrev pub is_error : SearchData → Palette → Bool
is_error d p = d.applications_failed || is_search_enabled p && (d.facts_failed || d.events_failed)

abbrev pub is_pending : SearchData → Palette → Bool
is_pending d p =
    d.applications_pending || is_search_enabled p && (d.facts_pending || d.events_pending)

-- `showRows`
abbrev pub shows_rows : SearchData → Palette → Bool
shows_rows d p = not (is_error d p) && not (is_pending d p)

pub data Key : Type 0 where
  arrow_down arrow_up enter other_key : Key

-- The index that an arrow moves to, of the last one.
unfoldable pub move : Key → (last active : ℕ) → ℕ
move arrow_down last a = if leb last a then 0 else a + 1
move arrow_up last a = if leb a 0 then last else a - 1
move _ last a = a

-- `updateSearch`
unfoldable pub update_search : String → Palette → Palette
update_search value p = record p { search = value; active_index = 0 }

-- What a key does at the active row: the state, and the item that is opened if one is. Opening closes the
-- dialog, which empties the field.
unfoldable pub act :
    Key → List GlobalSearchItem → (active : ℕ) → Palette → Palette × Option GlobalSearchItem
act enter items a p = (update_search "" p, get_elem? items a)
act other_key items a p = (p, none)
act k items a p = (record p { active_index = move k (length items - 1) a }, none)

-- `handleKeyDown`, with the active row if there are items
unfoldable pub handle_key_at :
    List GlobalSearchItem
    → SearchData
    → (composing : Bool) → Key
    → Palette
    → Option ℕ
    → Palette × Option GlobalSearchItem
handle_key_at items d composing key p none = (p, none)
handle_key_at items d composing key p (some a) =
    if not (shows_rows d p) || is_stale d p || composing then (p, none) else act key items a p

unfoldable pub handle_key :
    List GlobalSearchItem
    → SearchData
    → (composing : Bool) → Key
    → Palette
    → Palette × Option GlobalSearchItem
handle_key items d composing key p =
    handle_key_at items d composing key p (active p.active_index items)

-- `useDeferredValue` has caught up with the field.
unfoldable pub catch_up : Palette → Palette
catch_up p = record p { deferred = trim p.search }

-- `selectItem`
unfoldable pub item_destination : GlobalSearchItem → String
item_destination (application a) = preparation_resume_destination a
item_destination (fact f) = "/facts?fact=" <> encode f.fact_id
item_destination (history e) = "/facts?fact=" <> encode e.fact_id <> "&event=" <> encode e.id
