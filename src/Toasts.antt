-- ===== src/Toasts.antt =====
-- The success messages (frontend/src/ui/toast.ts): the store that the screens write and the toaster
-- reads. The bodies, which are drawn, are left out.
mod Tests
use full_stack_resume.Common.{
  ℕ, suc, ◌+◌, ◌-◌, ◌≤◌, String, ◌≡◌, inl, inr, Bool, not, List, [], ◌∷◌, ◌++◌, arith, eqb, leb,
  if◌then◌else◌, Bool-cases, length, select, length-select-le,
}

pub record Toast : Type 0 where
  pub id : ℕ
  pub title : String

-- `toasts` and `nextId`
pub record ToastStore : Type 0 where
  pub toasts : List Toast
  pub next_id : ℕ

abbrev pub no_toasts : ToastStore
no_toasts = record { toasts = []; next_id = 1 }

-- `MAX_TOASTS`
abbrev pub max_toasts : ℕ
max_toasts = 3

-- `toasts.slice(-n)`
unfoldable pub last_of : ℕ → List Toast → List Toast
last_of n [] = []
last_of n (t ∷ ts) = let later = last_of n ts in if leb (length (t ∷ ts)) n then t ∷ ts else later

-- `showToast`
unfoldable pub show_toast : String → ToastStore → ToastStore
unfolding last_of
show_toast title s = record {
  toasts = last_of max_toasts (s.toasts ++ record { id = s.next_id; title = title } ∷ []);
  next_id = s.next_id + 1;
}

-- `dismissToast`
unfoldable pub dismiss_toast : ℕ → ToastStore → ToastStore
dismiss_toast id s = record s { toasts = select (λ (t : Toast). not (eqb t.id id)) s.toasts }

-- `clearToasts`
abbrev pub clear_toasts : ToastStore → ToastStore
clear_toasts s = record s { toasts = [] }

pub data ToastEvent : Type 0 where
  shown : (title : String) → ToastEvent
  dismissed : (id : ℕ) → ToastEvent
  cleared : ToastEvent

unfoldable pub toast_step : ToastEvent → ToastStore → ToastStore
unfolding show_toast dismiss_toast
toast_step (shown title) s = show_toast title s
toast_step (dismissed id) s = dismiss_toast id s
toast_step cleared s = clear_toasts s

abbrev pub toast_run : List ToastEvent → ToastStore → ToastStore
toast_run [] s = s
toast_run (e ∷ es) s = toast_run es (toast_step e s)

-- The numbers rise from a number on, and stay below another.
abbrev pub Rising : ℕ → ℕ → List Toast → Type 0
Rising from below [] = from ≤ below
Rising from below (t ∷ ts) = (from ≤ t.id) × Rising (suc t.id) below ts

Rising-weaken : (m n below : ℕ) (ts : List Toast) → m ≤ n → Rising n below ts → Rising m below ts
Rising-weaken m n below [] h r = omega arith
Rising-weaken m n below (t ∷ ts) h (p, r) = (omega arith, r)

Rising-select :
    (p : Toast → Bool) (n below : ℕ) (ts : List Toast)
    → Rising n below ts
    → Rising n below (select p ts)
Rising-select p n below [] r = r
Rising-select p n below (t ∷ ts) (h, r) = elim (Bool-cases (p t)) [
  | inl e ↦ rw e (h, Rising-select p (suc t.id) below ts r)
  | inr e ↦ rw e (
      Rising-weaken n (suc t.id) below (select p ts) (omega arith)
        (Rising-select p (suc t.id) below ts r))
]

Rising-last_of :
    (k n below : ℕ) (ts : List Toast) → Rising n below ts → Rising n below (last_of k ts)
unfolding last_of
Rising-last_of k n below [] r = r
Rising-last_of k n below (t ∷ ts) (h, r) = elim (Bool-cases (leb (length (t ∷ ts)) k)) [
  | inl e ↦ rw e (h, r)
  | inr e ↦ rw e (
      Rising-weaken n (suc t.id) below (last_of k ts) (omega arith)
        (Rising-last_of k (suc t.id) below ts r))
]

Rising-add :
    (n below : ℕ) (ts : List Toast) (title : String)
    → Rising n below ts
    → Rising n (below + 1) (ts ++ record { id = below; title = title } ∷ [])
Rising-add n below [] title r = (r, omega arith)
Rising-add n below (t ∷ ts) title (h, r) = (h, Rising-add (suc t.id) below ts title r)

length-last_of-le : (k : ℕ) (ts : List Toast) → length (last_of k ts) ≤ k
unfolding last_of
length-last_of-le k [] = omega arith
length-last_of-le k (t ∷ ts) = elim (Bool-cases (leb (length (t ∷ ts)) k)) [
  | inl e ↦ rw e (ground (arith, e))
  | inr e ↦ rw e (length-last_of-le k ts)
]

Rising-below : (n below : ℕ) (ts : List Toast) → Rising n below ts → n ≤ below
Rising-below n below [] r = r
Rising-below n below (t ∷ ts) (h, r) = omega (arith, Rising-below (suc t.id) below ts r)

-- A store that the screens come to.
abbrev pub IsStore : ToastStore → Type 0
IsStore s = (length s.toasts ≤ max_toasts) × Rising 1 s.next_id s.toasts

step-IsStore : (e : ToastEvent) (s : ToastStore) → IsStore s → IsStore (toast_step e s)
unfolding toast_step
step-IsStore (shown title) s (h, r) = (
  length-last_of-le max_toasts (s.toasts ++ record { id = s.next_id; title = title } ∷ []),
  Rising-last_of max_toasts 1 (s.next_id + 1)
      (s.toasts ++ record { id = s.next_id; title = title } ∷ [])
      (Rising-add 1 s.next_id s.toasts title r),
)
step-IsStore (dismissed id) s (h, r) = (
  omega (arith, length-select-le (λ (t : Toast). not (eqb t.id id)) s.toasts, h),
  Rising-select (λ (t : Toast). not (eqb t.id id)) 1 s.next_id s.toasts r,
)
step-IsStore cleared s (h, r) = (omega arith, Rising-below 1 s.next_id s.toasts r)

run-IsStore : (es : List ToastEvent) (s : ToastStore) → IsStore s → IsStore (toast_run es s)
run-IsStore [] s h = h
run-IsStore (e ∷ es) s h = run-IsStore es (toast_step e s) (step-IsStore e s h)

last_of-add :
    (k : ℕ) (ts : List Toast) (t : Toast)
    → (older : List Toast) × (last_of (suc k) (ts ++ t ∷ []) ≡ older ++ t ∷ [])
unfolding last_of
last_of-add k [] t = ([], ground arith)
last_of-add k (u ∷ ts) t = elim (Bool-cases (leb (length (u ∷ (ts ++ t ∷ []))) (suc k))) [
  | inl e ↦ (u ∷ ts, rw e)
  | inr e ↦ rw e (last_of-add k ts t)
]

-- However messages are shown, dismissed and cleared, at most three are shown at a time, in the order in
-- which they came and with no number used twice, and a message just shown is the last of them.
pub toast_run-bounds :
    (es : List ToastEvent) (title : String)
    → let s = toast_run es no_toasts in
      (length s.toasts ≤ 3)
      × Rising 1 s.next_id s.toasts
      × ((older : List Toast) × ((toast_step (shown title) s).toasts
            ≡ older ++ record { id = s.next_id; title = title } ∷ []))
unfolding toast_step
toast_run-bounds es title =
    let s = toast_run es no_toasts in
    let store = run-IsStore es no_toasts (omega arith, omega arith) in
    (store.0, store.1, last_of-add 2 s.toasts (record { id = s.next_id; title = title }))
