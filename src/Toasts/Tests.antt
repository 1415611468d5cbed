-- ===== src/Toasts/Tests.antt =====
-- The messages after a concrete run.
use full_stack_resume.Common.{◌≡◌, refl, List, [], ◌∷◌, map}
use full_stack_resume.Toasts.{Toast, no_toasts, ToastEvent, shown, dismissed, toast_step, toast_run}

abbrev events : List ToastEvent
events = shown "a" ∷ shown "b" ∷ shown "c" ∷ shown "d" ∷ dismissed 3 ∷ []

run_test : map (λ (t : Toast). t.id) (toast_run events no_toasts).toasts ≡ 2 ∷ 4 ∷ []
unfolding toast_step
run_test = refl
