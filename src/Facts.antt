-- ===== src/Facts.antt =====
-- The pool of facts (frontend/src/features/facts/model): what a fact is found by and the filters of the
-- screen (factFilters.ts), the entries and their agreement with the log (factPool.ts), and the form with
-- its tags (factForm.ts). `toLocaleLowerCase`, which follows Unicode's tables, is a parameter.
pub mod Tags
mod Tests
use Prim.Native.Char.{Char, code}
use Prim.Native.String
use full_stack_resume.Common.{
  ℕ, String, Bool, true, false, not, ◌&&◌, ◌||◌, Option, none, some, List, [], ◌∷◌, ◌++◌, map, ◌==◌,
  eqb, if◌then◌else◌, or_else, length, select, values, lookup,
}
use full_stack_resume.Common.Text.{trim, starts_with}
use full_stack_resume.Navigation.{◌<>◌}

pub data FactStatus : Type 0 where
  pending canonical deleted : FactStatus

-- `FactResponse`, with the renderings by language
pub record Fact : Type 0 where
  pub fact_id : String
  pub meaning : String
  pub renderings : List (String × String)
  pub resume_style : String
  pub source : String
  pub status : FactStatus
  pub tags : List String

-- `FactListItemResponse`; the recorded status is an open text
pub record FactListItem : Type 0 where
  pub fact : Fact
  pub recorded_status : Option String

abbrev pub status_text : FactStatus → String
status_text pending = "pending"
status_text canonical = "canonical"
status_text deleted = "deleted"

pub record FactPoolEntry : Type 0 where
  pub fact : Fact
  pub out_of_sync : Bool

pub record FactPool : Type 0 where
  pub entries : List FactPoolEntry
  pub out_of_sync_count : ℕ

unfoldable pub is_out_of_sync : FactStatus → Option String → Bool
is_out_of_sync status none = not (status_text status == "canonical")
is_out_of_sync status (some recorded) = not (recorded == status_text status)

abbrev pub entry_of : FactListItem → FactPoolEntry
entry_of item = record {
  fact = item.fact;
  out_of_sync = is_out_of_sync item.fact.status item.recorded_status;
}

-- `toFactPool`
unfoldable pub to_fact_pool : List FactListItem → FactPool
unfolding is_out_of_sync
to_fact_pool its =
    let entries = map entry_of its in
    record {
      entries = entries;
      out_of_sync_count = length (select (λ (e : FactPoolEntry). e.out_of_sync) entries);
    }

pub record FactFilters : Type 0 where
  pub pending_only : Bool
  pub query : String
  pub source : String

-- `texts.join(separator)`
unfoldable pub join_by : String → List String → String
join_by separator [] = ""
join_by separator (t ∷ []) = t
join_by separator (t ∷ u ∷ ts) = t <> separator <> join_by separator (u ∷ ts)

-- `text.includes(part)`
unfoldable pub contains : String → String → Bool
unfolding starts_with
contains part String.[] = starts_with part ""
contains part (String.◌∷◌ c s) = starts_with part (String.◌∷◌ c s) || contains part s

abbrev pub is_pending : FactStatus → Bool
is_pending pending = true
is_pending _ = false

module _ (to_lower_case : String → String) where
  -- `factSearchText`
  unfoldable pub fact_search_text : Fact → String
  unfolding join_by
  fact_search_text f =
      to_lower_case (join_by " " (f.meaning ∷ (values f.renderings ++ f.source ∷ f.tags)))

  abbrev pub passes : FactFilters → FactPoolEntry → Bool
  passes filters e =
      let query = to_lower_case (trim filters.query) in
      (query == "" || contains query (fact_search_text e.fact))
      && (filters.source == "all" || e.fact.source == filters.source)
      && (not filters.pending_only || is_pending e.fact.status)

  -- `filterFactEntries`
  unfoldable pub filter_fact_entries : List FactPoolEntry → FactFilters → List FactPoolEntry
  unfolding fact_search_text contains
  filter_fact_entries entries filters = select (passes filters) entries

-- `value.split(",")`
abbrev pub cons_first : Char → List String → List String
cons_first c [] = (String.◌∷◌ c "") ∷ []
cons_first c (t ∷ ts) = (String.◌∷◌ c t) ∷ ts

unfoldable pub split_commas : String → List String
split_commas String.[] = "" ∷ []
split_commas (String.◌∷◌ c s) =
    let rest = split_commas s in if eqb (code c) b',' then "" ∷ rest else cons_first c rest

-- `parseFactTags`
unfoldable pub parse_fact_tags : String → List String
unfolding split_commas
parse_fact_tags value = select (λ (t : String). not (t == "")) (map trim (split_commas value))

pub record FactFormFields : Type 0 where
  pub english : String
  pub hebrew : String
  pub meaning : String
  pub source : String
  pub style : String
  pub tags : String

-- `defaultFactSource`
unfoldable pub default_fact_source : Option String → String
default_fact_source none = "sales.json"
default_fact_source (some profile) =
    if profile == "development" then "development.json" else "sales.json"

-- `emptyFactForm`
unfoldable pub empty_fact_form : Option String → String → FactFormFields
unfolding default_fact_source
empty_fact_form profile meaning = record {
  english = "";
  hebrew = "";
  meaning = meaning;
  source = default_fact_source profile;
  style = "bullet";
  tags = "";
}

-- `replacementFactForm`
unfoldable pub replacement_fact_form : Fact → FactFormFields
unfolding join_by
replacement_fact_form f = record {
  english = or_else (lookup "en" f.renderings) "";
  hebrew = or_else (lookup "he" f.renderings) "";
  meaning = f.meaning;
  source = f.source;
  style = f.resume_style;
  tags = join_by ", " f.tags;
}
