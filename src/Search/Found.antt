-- ===== src/Search/Found.antt =====
-- What the command palette finds and what Enter opens (useApplicationSearch.ts, GlobalSearchDialog.tsx).
use mathlib.Core.Path.{subst, fun_ext}
use mathlib.Core.List.{append-nil, append_assoc}
use full_stack_resume.Common.{
  ℕ, zero, suc, String, ◌≡◌, refl, ap, ◌∙◌, inl, inr, Bool, true, false, not, ◌||◌, Option, none,
  some, List, [], ◌∷◌, ◌++◌, map, arith, eq_iff, Bool-cases, or_else, get_elem?, select, is_empty,
  includes, flat_map, All,
}
use full_stack_resume.Common.Lists.{All-append}
use full_stack_resume.Common.Text.{trim}
use full_stack_resume.Api.Applications.{ApplicationListItem}
use full_stack_resume.Facts.{Fact, fact_search_text, contains, join_by}
use full_stack_resume.Search.{
  FactEvent, event_parts, GlobalSearchItem, application, fact, history, SearchData, found_facts,
  fact_matches, event_matches, found_items, is_history, sections, drawn, Palette, active, is_stale,
  shows_rows, Key, arrow_down, arrow_up, enter, other_key, update_search, act, handle_key_at,
  handle_key,
}

flat_kept :
    (xs ys : List GlobalSearchItem)
    → flat_map
        (λ (s : List GlobalSearchItem). s)
        (select (λ (s : List GlobalSearchItem). not (is_empty s)) (xs ∷ ys ∷ []))
      ≡ xs ++ ys
flat_kept [] [] = refl
flat_kept [] (y ∷ ys) = append-nil (y ∷ ys)
flat_kept (x ∷ xs) [] = refl
flat_kept (x ∷ xs) (y ∷ ys) = ap (λ zs. x ∷ xs ++ zs) (append-nil (y ∷ ys))

-- The results of the three queries in their order.
abbrev results : List ApplicationListItem → List Fact → List FactEvent → List GlobalSearchItem
results apps fs es = map application apps ++ (map fact fs ++ map history es)

matches-results :
    (apps : List ApplicationListItem) (fs : List Fact) (es : List FactEvent)
    → select (λ (i : GlobalSearchItem). not (is_history i)) (results apps fs es)
      ≡ map application apps ++ map fact fs
matches-results (a ∷ apps) fs es = ap (application a ∷◌) (matches-results apps fs es)
matches-results [] (f ∷ fs) es = ap (fact f ∷◌) (matches-results [] fs es)
matches-results [] [] (e ∷ es) = matches-results [] [] es
matches-results [] [] [] = refl

history-results :
    (apps : List ApplicationListItem) (fs : List Fact) (es : List FactEvent)
    → select (λ (i : GlobalSearchItem). is_history i) (results apps fs es) ≡ map history es
history-results (a ∷ apps) fs es = history-results apps fs es
history-results [] (f ∷ fs) es = history-results [] fs es
history-results [] [] (e ∷ es) = ap (history e ∷◌) (history-results [] [] es)
history-results [] [] [] = refl

drawn-results :
    (apps : List ApplicationListItem) (fs : List Fact) (es : List FactEvent)
    → drawn (results apps fs es) ≡ results apps fs es
unfolding drawn sections
drawn-results apps fs es =
    flat_kept (select (λ (i : GlobalSearchItem). not (is_history i)) (results apps fs es))
      (select (λ (i : GlobalSearchItem). is_history i) (results apps fs es))
    ∙ ap (λ xs. xs ++ select (λ (i : GlobalSearchItem). is_history i) (results apps fs es))
        (matches-results apps fs es)
    ∙ ap (λ ys. (map application apps ++ map fact fs) ++ ys) (history-results apps fs es)
    ∙ append_assoc (map application apps) (map fact fs) (map history es)

-- An item answers a text: an Application that its query gave, a fact with the text, or an event with the
-- text whose fact is there.
abbrev pub answers : (String → String) → SearchData → String → GlobalSearchItem → Bool
answers low d deferred (application a) = true
answers low d deferred (fact f) = fact_matches low deferred f
answers low d deferred (history e) = event_matches low d deferred e

module _ (low : String → String) (d : SearchData) (deferred : String) where
  abbrev AllAnswer : List GlobalSearchItem → Type 0
  AllAnswer items = All (λ i. answers low d deferred i ≡ true) items

  applications-answer : (apps : List ApplicationListItem) → AllAnswer (map application apps)
  applications-answer [] = tt
  applications-answer (a ∷ apps) = (refl, applications-answer apps)

  facts-answer : (fs : List Fact) → AllAnswer (map fact (select (fact_matches low deferred) fs))
  facts-answer [] = tt
  facts-answer (f ∷ fs) = elim (Bool-cases (fact_matches low deferred f)) [
    | inl h ↦ rw h (h, facts-answer fs)
    | inr h ↦ rw h (facts-answer fs)
  ]

  events-answer :
      (es : List FactEvent) → AllAnswer (map history (select (event_matches low d deferred) es))
  events-answer [] = tt
  events-answer (e ∷ es) = elim (Bool-cases (event_matches low d deferred e)) [
    | inl h ↦ rw h (h, events-answer es)
    | inr h ↦ rw h (events-answer es)
  ]

  found-answer : AllAnswer (found_items low d deferred)
  unfolding found_items
  found-answer =
      All-append (λ i. answers low d deferred i ≡ true) _ _
        (applications-answer (or_else d.applications []))
        (All-append (λ i. answers low d deferred i ≡ true) _ _ (facts-answer (found_facts d))
          (events-answer (or_else d.events [])))

  drawn-found : drawn (found_items low d deferred) ≡ found_items low d deferred
  unfolding found_items
  drawn-found =
      drawn-results (or_else d.applications []) (select (fact_matches low deferred) (found_facts d))
        (select (event_matches low d deferred) (or_else d.events []))

All-get_elem? {ℓ κ} :
    {A : Type ℓ} (P : A → Type κ) (xs : List A) (i : ℕ) {x : A}
    → All P xs
    → get_elem? xs i ≡ some x
    → P x
All-get_elem? P [] i a h = cc
All-get_elem? P (y ∷ ys) zero a h = subst P (cc h) a.0
All-get_elem? P (y ∷ ys) (suc i) a h = All-get_elem? P ys i a.1 h

module _ (items : List GlobalSearchItem) (d : SearchData) (p : Palette) where
  act-opened :
      (key : Key) (a : ℕ) {item : GlobalSearchItem}
      → (act key items a p).1 ≡ some item
      → (key ≡ enter) × (get_elem? items a ≡ some item) × ((act key items a p).0.search ≡ "")
  unfolding act update_search
  act-opened enter a h = (refl, h, refl)
  act-opened arrow_down a h = cc
  act-opened arrow_up a h = cc
  act-opened other_key a h = cc

  -- Whatever is opened, is opened by Enter at the active row.
  abbrev Opened :
      Bool → Key → Option ℕ → GlobalSearchItem → Palette × Option GlobalSearchItem → Type 0
  Opened composing key o item r =
      (key ≡ enter)
      × (composing ≡ false)
      × (shows_rows d p ≡ true)
      × (is_stale d p ≡ false)
      × ((a : ℕ) × (o ≡ some a) × (get_elem? items a ≡ some item))
      × (r.0.search ≡ "")

  handle_key_at-Opened :
      (composing : Bool) (key : Key) (o : Option ℕ) {item : GlobalSearchItem}
      → (handle_key_at items d composing key p o).1 ≡ some item
      → Opened composing key o item (handle_key_at items d composing key p o)
  unfolding handle_key_at
  handle_key_at-Opened composing key none h = cc
  handle_key_at-Opened composing key (some a) h =
      elim (Bool-cases (not (shows_rows d p) || is_stale d p || composing)) [
        | inl e ↦ cc (rw e at h)
        | inr e ↦
            let opened = act-opened key a (rw e at h) in
            rw e (
              opened.0,
              ground (arith, e),
              ground (arith, e),
              ground (arith, e),
              (a, refl, opened.1),
              opened.2,
            )
      ]

-- Enter opens a row only if it answers what the field says now: if an item is opened then nothing is being
-- composed, the rows are shown and are of the field's text and not of an earlier one, the item is the
-- active one of the results in their order, and it answers the text; the field is then empty. No other
-- key opens one.
pub handle_key-answers :
    (low : String → String) (d : SearchData) (composing : Bool) (key : Key) (p : Palette)
    (item : GlobalSearchItem)
    → let items = found_items low d p.deferred in
      let r = handle_key (drawn items) d composing key p in
      r.1 ≡ some item
      → (key ≡ enter)
        × (composing ≡ false)
        × (shows_rows d p ≡ true)
        × (d.is_placeholder_data ≡ false)
        × (p.deferred ≡ trim p.search)
        × ((a : ℕ) × (active p.active_index items ≡ some a) × (get_elem? items a ≡ some item))
        × (answers low d (trim p.search) item ≡ true)
        × (r.0.search ≡ "")
unfolding handle_key
handle_key-answers low d composing key p item h =
    let items = found_items low d p.deferred in
    let same : drawn items ≡ items = drawn-found low d p.deferred in
    let opened : Opened items d p composing key (active p.active_index items) item
        (handle_key items d composing key p) =
      handle_key_at-Opened items d p composing key (active p.active_index items) (rw same at h) in
    let now : p.deferred ≡ trim p.search =
      (eq_iff p.deferred (trim p.search)).0 (ground (arith, opened.3)) in
    let fit =
      All-get_elem? (λ i. answers low d p.deferred i ≡ true) items opened.4.0
        (found-answer low d p.deferred) opened.4.2 in
    (
      opened.0,
      opened.1,
      opened.2,
      ground (arith, opened.3),
      now,
      opened.4,
      subst (λ t. answers low d t item ≡ true) now fit,
      rw same opened.5,
    )

contains_empty : (s : String) → contains "" s ≡ true
unfolding contains
contains_empty String.[] = refl
contains_empty (String.◌∷◌ c s) = refl

select_all {ℓ} :
    {A : Type ℓ} (p : A → Bool) → ((x : A) → p x ≡ true) → (xs : List A) → select p xs ≡ xs
select_all p h [] = refl
select_all p h (x ∷ xs) = rw (h x) (ap (x ∷◌) (select_all p h xs))

-- An empty field finds more than what waits on the reader: where the cache still holds the facts and
-- their history, every fact and every event of one of them is among the results.
pub found_items_empty :
    (low : String → String) (d : SearchData)
    → low "" ≡ ""
    → found_items low d ""
      ≡ map application (or_else d.applications [])
        ++ (map fact (found_facts d)
            ++ map history (
                select
                  (λ (e : FactEvent).
                    includes e.fact_id (map (λ (f : Fact). f.fact_id) (found_facts d)))
                  (or_else d.events [])))
unfolding found_items
found_items_empty low d h =
    let facts_kept : select (fact_matches low "") (found_facts d) ≡ found_facts d =
      select_all (fact_matches low "") (λ f. rw h (contains_empty (fact_search_text low f)))
        (found_facts d) in
    let events_kept : (e : FactEvent)
        → event_matches low d "" e
          ≡ includes e.fact_id (map (λ (f : Fact). f.fact_id) (found_facts d)) =
      λ e. rw h (rw (contains_empty (low (join_by " " (event_parts e)))) (ground arith)) in
    rw (facts_kept, fun_ext events_kept)
