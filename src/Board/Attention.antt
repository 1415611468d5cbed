-- ===== src/Board/Attention.antt =====
-- The panel of what waits on the reader (frontend/src/features/application-list/model/
-- applicationListPresentation.ts). The keys of today and of the end of the week come from the reader's
-- clock and are arguments; the order of the reader's language on dates (`localeCompare`) is a parameter.
-- Labels and titles are left out.
use mathlib.Core.List.{Perm}
use full_stack_resume.Common.{
  ℕ, String, All, true, false, ◌≡◌, refl, ap, ◌∙◌, Bool, not, ◌&&◌, ◌||◌, Option, none, some, List,
  [], ◌∷◌, ◌++◌, map, arith, ltb, eqb, if◌then◌else◌, present, or_else, find, is_empty, flat_map,
}
use full_stack_resume.Board.Dates.{date_only_key, key_before, key_at, key_within}
use full_stack_resume.Common.Sort.{
  sort_after, IsOrdered, IsOrder, sort_after-perm, sort_after-IsOrdered,
}
use full_stack_resume.Api.Applications.{ApplicationListItem, is_ready}
use full_stack_resume.Navigation
use full_stack_resume.Preparation.Destinations.{preparation_resume_destination}

pub data HubItemType : Type 0 where
  overdue due_today attention due_this_week ready : HubItemType

pub record HubItem : Type 0 where
  pub application : ApplicationListItem
  pub to : String
  pub kind : HubItemType

-- `hubOrder`
abbrev pub hub_order : HubItemType → ℕ
hub_order overdue = 0
hub_order due_today = 1
hub_order attention = 2
hub_order due_this_week = 3
hub_order ready = 4

-- `applicationAttention(item) !== null`
abbrev pub needs_attention : ApplicationListItem → Bool
needs_attention a = not (is_empty a.review_reasons) || not (is_empty a.warnings)

-- the date of a reminder that says what to do
abbrev pub due_of : ApplicationListItem → Option String
due_of a = if present a.next_action then a.next_action_date else none

abbrev pub all_kinds : List HubItemType
all_kinds = overdue ∷ due_today ∷ attention ∷ due_this_week ∷ ready ∷ []

-- Whether a reason is at least as pressing as another: reminders that are overdue, those of today, what
-- needs attention, reminders of this week, and documents that are ready.
abbrev pub is_pressing : HubItemType → HubItemType → Bool
is_pressing overdue other = true
is_pressing due_today overdue = false
is_pressing due_today other = true
is_pressing attention overdue = false
is_pressing attention due_today = false
is_pressing attention other = true
is_pressing due_this_week due_this_week = true
is_pressing due_this_week ready = true
is_pressing due_this_week other = false
is_pressing ready ready = true
is_pressing ready other = false

abbrev pub one_of : Option HubItemType → List HubItemType
one_of none = []
one_of (some k) = k ∷ []

abbrev pub kinds_of : List HubItem → List (String × HubItemType)
kinds_of is = map (λ (i : HubItem). (i.application.id, i.kind)) is

kinds_of-append : (xs ys : List HubItem) → kinds_of (xs ++ ys) ≡ kinds_of xs ++ kinds_of ys
kinds_of-append [] ys = refl
kinds_of-append (x ∷ xs) ys = ap (λ ks. (x.application.id, x.kind) ∷ ks) (kinds_of-append xs ys)

module _ (today week_end : String) where
  -- `isNextActionOverdue`, `isDueToday`, `isDueThisWeek`
  abbrev pub is_next_action_overdue : Option String → Bool
  is_next_action_overdue due = key_before (date_only_key due) today

  abbrev pub is_due_today : Option String → Bool
  is_due_today due = key_at (date_only_key due) today

  abbrev pub is_due_this_week : Option String → Bool
  is_due_this_week due = key_within (date_only_key due) today week_end

  abbrev pub reminder : ApplicationListItem → HubItemType → HubItem
  reminder a kind = record { application = a; to = Navigation.application a.id; kind = kind }

  -- the row of an application, where it has one: a turn of the loop
  unfoldable pub hub_item : ApplicationListItem → List HubItem
  hub_item a =
      if a.is_closed
      then []
      else if is_next_action_overdue (due_of a)
      then reminder a overdue ∷ []
      else if is_due_today (due_of a)
      then reminder a due_today ∷ []
      else if needs_attention a
      then record { application = a; to = preparation_resume_destination a; kind = attention } ∷ []
      else if is_due_this_week (due_of a)
      then reminder a due_this_week ∷ []
      else if is_ready a.preparation_state
      then record { application = a; to = Navigation.ready a.id; kind = ready } ∷ []
      else []

  module _ (date_after : String → String → Bool) where
    -- the comparison of the sort
    abbrev pub item_after : HubItem → HubItem → Bool
    item_after x y =
        ltb (hub_order y.kind) (hub_order x.kind)
        || (eqb (hub_order x.kind) (hub_order y.kind)
            && date_after (or_else x.application.next_action_date "")
                (or_else y.application.next_action_date ""))

    -- `attentionHubItems`
    unfoldable pub attention_hub_items : List ApplicationListItem → List HubItem
    unfolding hub_item
    attention_hub_items items = sort_after item_after (flat_map hub_item items)

    item_after-IsOrder : IsOrder date_after → IsOrder item_after
    item_after-IsOrder o = record {
      one_way = λ x y h. ground (
        arith,
        h,
        o.one_way (or_else x.application.next_action_date "")
            (or_else y.application.next_action_date ""),
      );
      chains = λ x y z h k. ground (
        arith,
        h,
        k,
        o.chains (or_else x.application.next_action_date "")
            (or_else y.application.next_action_date "") (or_else z.application.next_action_date ""),
      );
    }

  -- Whether a reason of a kind holds for an application.
  abbrev pub applies : ApplicationListItem → HubItemType → Bool
  applies a overdue = is_next_action_overdue (due_of a)
  applies a due_today = is_due_today (due_of a)
  applies a attention = needs_attention a
  applies a due_this_week = is_due_this_week (due_of a)
  applies a ready = is_ready a.preparation_state

  -- The kinds that the panel owes to an application: of those that hold the most pressing, unless it is
  -- closed.
  abbrev pub owed_kinds : ApplicationListItem → List HubItemType
  owed_kinds a = if a.is_closed then [] else one_of (find (applies a) all_kinds)

  hub_item-owed :
      (a : ApplicationListItem)
      → kinds_of (hub_item a) ≡ map (λ (k : HubItemType). (a.id, k)) (owed_kinds a)
  unfolding hub_item
  hub_item-owed a = ground arith

  owed_of : ApplicationListItem → List (String × HubItemType)
  owed_of a = map (λ (k : HubItemType). (a.id, k)) (owed_kinds a)

  rows-owed :
      (items : List ApplicationListItem)
      → kinds_of (flat_map hub_item items) ≡ flat_map owed_of items
  unfolding owed_of
  rows-owed [] = refl
  rows-owed (a ∷ items) =
      kinds_of-append (hub_item a) (flat_map hub_item items)
      ∙ ap (λ ks. ks ++ kinds_of (flat_map hub_item items)) (hub_item-owed a)
      ∙ ap (λ ks. owed_of a ++ ks) (rows-owed items)

  -- Of two rows, the first may stand before the second: its reason is the more pressing one, or they have
  -- the same reason and its date does not come after the other's.
  abbrev pub may_precede : (date_after : String → String → Bool) → HubItem → HubItem → Bool
  may_precede date_after x y =
      is_pressing x.kind y.kind
      && (not (is_pressing y.kind x.kind)
          || not (
              date_after (or_else x.application.next_action_date "")
                (or_else y.application.next_action_date "")))

  -- Whether each row may stand before all that follow it.
  abbrev pub IsByUrgency : (date_after : String → String → Bool) → List HubItem → Type 0
  IsByUrgency date_after [] = Unit
  IsByUrgency date_after (x ∷ xs) =
      All (λ y. may_precede date_after x y ≡ true) xs × IsByUrgency date_after xs

  urgent_pair :
      (k l : HubItemType) (after : Bool)
      → (ltb (hub_order l) (hub_order k) || (eqb (hub_order k) (hub_order l) && after)) ≡ false
      → (is_pressing k l && (not (is_pressing l k) || not after)) ≡ true
  urgent_pair overdue overdue after h = ground (arith, h)
  urgent_pair overdue due_today after h = ground (arith, h)
  urgent_pair overdue attention after h = ground (arith, h)
  urgent_pair overdue due_this_week after h = ground (arith, h)
  urgent_pair overdue ready after h = ground (arith, h)
  urgent_pair due_today overdue after h = ground (arith, h)
  urgent_pair due_today due_today after h = ground (arith, h)
  urgent_pair due_today attention after h = ground (arith, h)
  urgent_pair due_today due_this_week after h = ground (arith, h)
  urgent_pair due_today ready after h = ground (arith, h)
  urgent_pair attention overdue after h = ground (arith, h)
  urgent_pair attention due_today after h = ground (arith, h)
  urgent_pair attention attention after h = ground (arith, h)
  urgent_pair attention due_this_week after h = ground (arith, h)
  urgent_pair attention ready after h = ground (arith, h)
  urgent_pair due_this_week overdue after h = ground (arith, h)
  urgent_pair due_this_week due_today after h = ground (arith, h)
  urgent_pair due_this_week attention after h = ground (arith, h)
  urgent_pair due_this_week due_this_week after h = ground (arith, h)
  urgent_pair due_this_week ready after h = ground (arith, h)
  urgent_pair ready overdue after h = ground (arith, h)
  urgent_pair ready due_today after h = ground (arith, h)
  urgent_pair ready attention after h = ground (arith, h)
  urgent_pair ready due_this_week after h = ground (arith, h)
  urgent_pair ready ready after h = ground (arith, h)

  urgent_row :
      (date_after : String → String → Bool) (x : HubItem) (ys : List HubItem)
      → All (λ y. item_after date_after x y ≡ false) ys
      → All (λ y. may_precede date_after x y ≡ true) ys
  urgent_row date_after x [] h = _
  urgent_row date_after x (y ∷ ys) (h, hs) =
      (urgent_pair x.kind y.kind _ h, urgent_row date_after x ys hs)

  urgent_rows :
      (date_after : String → String → Bool) (xs : List HubItem)
      → IsOrdered (item_after date_after) xs
      → IsByUrgency date_after xs
  urgent_rows date_after [] h = _
  urgent_rows date_after (x ∷ xs) (h, hs) =
      (urgent_row date_after x xs h, urgent_rows date_after xs hs)

  -- The panel has one row for each open application for which a reason holds, of its most pressing
  -- reason, and the rows are in the order of their urgency (overdue, due today, attention, due this week,
  -- ready), and of equal urgency in the order of the dates, for a comparison of dates that orders them.
  pub attention_hub_items-rows :
      (date_after : String → String → Bool) (items : List ApplicationListItem)
      → IsOrder date_after
      → IsByUrgency date_after (attention_hub_items date_after items)
        × Perm (attention_hub_items date_after items) (flat_map hub_item items)
        × (kinds_of (flat_map hub_item items)
            ≡ flat_map
                (λ (a : ApplicationListItem). map (λ (k : HubItemType). (a.id, k)) (owed_kinds a))
                items)
  unfolding attention_hub_items owed_of
  attention_hub_items-rows date_after items o = (
    urgent_rows date_after (attention_hub_items date_after items) (
        sort_after-IsOrdered (item_after date_after) (item_after-IsOrder date_after o)
          (flat_map hub_item items)),
    sort_after-perm (item_after date_after) (flat_map hub_item items),
    rows-owed items,
  )
