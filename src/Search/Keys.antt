-- ===== src/Search/Keys.antt =====
-- The keys of the command palette (GlobalSearchDialog.tsx): the arrows, and the item that Enter opens.
use full_stack_resume.Common.{
  ℕ, zero, suc, ◌-◌, ◌<◌, ◌≡◌, refl, ap, ◌∙◌, true, false, some, List, [], ◌∷◌, arith, length,
}
use full_stack_resume.Search.{
  GlobalSearchItem, SearchData, Palette, active, is_stale, shows_rows, Key, arrow_down, arrow_up,
  move, act, handle_key_at, handle_key,
}

-- The rows are shown, and they answer the text in the field.
abbrev pub Answers : SearchData → Palette → Type 0
Answers d p = (shows_rows d p ≡ true) × (is_stale d p ≡ false)

abbrev pub pressed : List GlobalSearchItem → SearchData → Key → Palette → Palette
pressed items d k p = (handle_key items d false k p).0

abbrev pub pressed_times : ℕ → List GlobalSearchItem → SearchData → Key → Palette → Palette
pressed_times zero items d k p = p
pressed_times (suc n) items d k p = pressed items d k (pressed_times n items d k p)

module _ (items : List GlobalSearchItem) (d : SearchData) where
  pressed_down :
      (p : Palette) (a : ℕ)
      → active p.active_index items ≡ some a
      → Answers d p
      → pressed items d arrow_down p
        ≡ record p { active_index = move arrow_down (length items - 1) a }
  unfolding handle_key handle_key_at act
  pressed_down p a h ans =
      ap (λ o. (handle_key_at items d false arrow_down p o).0) h ∙ ground (arith, ans.0, ans.1)

  pressed_up :
      (p : Palette) (a : ℕ)
      → active p.active_index items ≡ some a
      → Answers d p
      → pressed items d arrow_up p ≡ record p { active_index = move arrow_up (length items - 1) a }
  unfolding handle_key handle_key_at act
  pressed_up p a h ans =
      ap (λ o. (handle_key_at items d false arrow_up p o).0) h ∙ ground (arith, ans.0, ans.1)

  active-lt : (i a : ℕ) → active i items ≡ some a → a < length items
  unfolding active
  active-lt i a h = in_range items h
    where
      in_range : (xs : List GlobalSearchItem) → active i xs ≡ some a → a < length xs
      in_range [] h = cc
      in_range (x ∷ xs) h = ground (arith, h)

  active_self : (a : ℕ) → a < length items → active a items ≡ some a
  unfolding active
  active_self a h = at items h
    where
      at : (xs : List GlobalSearchItem) → a < length xs → active a xs ≡ some a
      at [] h = elim h [ ]
      at (x ∷ xs) h = ground (arith, h)

move_bounds : (n a : ℕ) → a < n → (move arrow_down (n - 1) a < n) × (move arrow_up (n - 1) a < n)
unfolding move
move_bounds n a h = ground arith

move_undo :
    (n a : ℕ)
    → a < n
    → (move arrow_up (n - 1) (move arrow_down (n - 1) a) ≡ a)
      × (move arrow_down (n - 1) (move arrow_up (n - 1) a) ≡ a)
unfolding move
move_undo n a h = ground arith

module _ (items : List GlobalSearchItem) (d : SearchData) where
  -- The active row after one arrow and after the other one.
  down_up :
      (p : Palette) (a : ℕ)
      → active p.active_index items ≡ some a
      → Answers d p
      → active (pressed items d arrow_up (pressed items d arrow_down p)).active_index items ≡ some a
  down_up p a h ans =
      let lt = active-lt items d p.active_index a h in
      let b = move arrow_down (length items - 1) a in
      let q : Palette = record p { active_index = b } in
      let at_b = active_self items d b (move_bounds (length items) a lt).0 in
      ap (λ (r : Palette). active (pressed items d arrow_up r).active_index items)
        (pressed_down items d p a h ans)
      ∙ ap (λ (r : Palette). active r.active_index items) (pressed_up items d q b at_b ans)
      ∙ ap (λ i. active i items) (move_undo (length items) a lt).0
      ∙ active_self items d a lt

  up_down :
      (p : Palette) (a : ℕ)
      → active p.active_index items ≡ some a
      → Answers d p
      → active (pressed items d arrow_down (pressed items d arrow_up p)).active_index items ≡ some a
  up_down p a h ans =
      let lt = active-lt items d p.active_index a h in
      let b = move arrow_up (length items - 1) a in
      let q : Palette = record p { active_index = b } in
      let at_b = active_self items d b (move_bounds (length items) a lt).1 in
      ap (λ (r : Palette). active (pressed items d arrow_down r).active_index items)
        (pressed_up items d p a h ans)
      ∙ ap (λ (r : Palette). active r.active_index items) (pressed_down items d q b at_b ans)
      ∙ ap (λ i. active i items) (move_undo (length items) a lt).1
      ∙ active_self items d a lt

  -- From the first row, arrow down comes to each row in turn.
  pressed_times_down :
      (k : ℕ) (p : Palette)
      → k < length items
      → Answers d p
      → pressed_times k items d arrow_down (record p { active_index = 0 })
        ≡ record p { active_index = k }
  unfolding move
  pressed_times_down zero p h ans = refl
  pressed_times_down (suc k) p h ans =
      let q : Palette = record p { active_index = k } in
      ap (pressed items d arrow_down) (pressed_times_down k p (omega arith) ans)
      ∙ pressed_down items d q k (active_self items d k (omega arith)) ans
      ∙ ap (λ (i : ℕ). record p { active_index = i }) (ground (arith, h))

  wrapped :
      (p : Palette)
      → 0 < length items
      → Answers d p
      → pressed_times (length items) items d arrow_down (record p { active_index = 0 })
        ≡ record p { active_index = 0 }
  unfolding move
  wrapped p h ans =
      let n = length items - 1 in
      let e : length items ≡ suc n = omega (arith, h) in
      let q : Palette = record p { active_index = n } in
      ap (λ m. pressed_times m items d arrow_down (record p { active_index = 0 })) e
      ∙ ap (pressed items d arrow_down) (pressed_times_down n p (omega (arith, h)) ans)
      ∙ pressed_down items d q n (active_self items d n (omega (arith, h))) ans
      ∙ ap (λ (i : ℕ). record p { active_index = i }) (ground (arith, h))

  -- The arrows go round the rows, none left out and none twice: while the rows answer the field, arrow
  -- down comes from the first row to each in turn and from the last to the first, up takes back down and
  -- down takes back up, and the row they come to is one that is there.
  pub arrows-rows :
      (p : Palette) (a k : ℕ)
      → active p.active_index items ≡ some a
      → k < length items
      → Answers d p
      → (active
            (pressed_times k items d arrow_down (record p { active_index = 0 })).active_index
            items
          ≡ some k)
        × (active
              (pressed_times
                (length items)
                items
                d
                arrow_down
                (record p { active_index = 0 })).active_index
              items
            ≡ some 0)
        × (active (pressed items d arrow_up (pressed items d arrow_down p)).active_index items
            ≡ some a)
        × (active (pressed items d arrow_down (pressed items d arrow_up p)).active_index items
            ≡ some a)
        × (a < length items)
  arrows-rows p a k h lt ans = (
    ap (λ (r : Palette). active r.active_index items) (pressed_times_down k p lt ans)
        ∙ active_self items d k lt,
    ap (λ (r : Palette). active r.active_index items) (wrapped p (ground (arith, lt)) ans)
        ∙ active_self items d 0 (omega (arith, lt)),
    down_up p a h ans,
    up_down p a h ans,
    active-lt items d p.active_index a h,
  )
