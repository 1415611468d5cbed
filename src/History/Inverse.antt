-- ===== src/History/Inverse.antt =====
-- Undo and redo of useDraftHistory.ts take each other back.
use mathlib.Core.Path.{subst}
use full_stack_resume.Common.{◌<◌, ◌≡◌, sym, ap, ◌∙◌, some, List, ◌∷◌, arith, length, take-eq_of_le}
use full_stack_resume.History.{
  history_limit, HistoryEntry, HistoryState, undo, undo_past, redo, redo_future,
}
use full_stack_resume.History.Linked.{IsPast, IsFuture, IsLinked}

module _ (h : HistoryState) {e : HistoryEntry} {es : List HistoryEntry} where
  redo-undo_past : (l : IsLinked h) → h.past ≡ e ∷ es → redo (undo_past (e ∷ es) h) ≡ h
  unfolding redo undo_past
  redo-undo_past l p =
      let q =
        take-eq_of_le history_limit (e ∷ es) (omega (arith, ap length p, l.bounded)) ∙ sym p in
      let o = sym (subst (λ ys. IsPast ys h.outline) p l.past).0 in
      λ i. record h { outline = o i; past = q i }

  -- Redo takes back an undo: on a linked history with something to undo, the whole state returns, the outline, the two
  -- stacks and the rest.
  pub redo-undo : IsLinked h → h.past ≡ e ∷ es → redo (undo h) ≡ h
  unfolding undo
  redo-undo l p = ap (λ ys. redo (undo_past ys h)) p ∙ redo-undo_past l p

  undo-redo_future :
      (l : IsLinked h)
      → h.future ≡ e ∷ es
      → length h.past < history_limit
      → undo (redo_future (e ∷ es) h) ≡ h
  unfolding undo redo_future
  undo-redo_future l p room =
      let q = take-eq_of_le history_limit (e ∷ h.past) room in
      let o = sym (subst (λ ys. IsFuture ys h.outline) p l.future).0 in
      let f = sym p in
      ap (λ ys. undo_past ys (record h { outline = some e.after; past = ys; future = es })) q
      ∙ (λ i. record h { outline = o i; future = f i })

  -- Undo takes back a redo, on a linked history with something to redo and fewer entries than the limit behind it.
  pub undo-redo : IsLinked h → h.future ≡ e ∷ es → length h.past < history_limit → undo (redo h) ≡ h
  unfolding redo
  undo-redo l p room = ap (λ ys. undo (redo_future ys h)) p ∙ undo-redo_future l p room
