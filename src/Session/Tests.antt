-- ===== src/Session/Tests.antt =====
-- Places to return to after signing in.
use full_stack_resume.Common.{◌≡◌, refl, true, false, some}
use full_stack_resume.Common.Text.{any_char}
use full_stack_resume.Navigation.{◌<>◌}
use full_stack_resume.Session.{safe_next_path, leaves_origin, safe_next_path-hosts}

inside_test : safe_next_path (some "/applications/a-1") ≡ "/applications/a-1"
unfolding safe_next_path
inside_test = refl

outside_test : safe_next_path (some "//evil.example") ≡ "/"
unfolding safe_next_path
outside_test = refl

scheme_test : leaves_origin " https://evil.example" ≡ true
scheme_test = refl

path_test : leaves_origin "/applications?next=https://a" ≡ false
path_test = refl

safe_next_path-hosts_example :
    (leaves_origin (safe_next_path (some "https://evil.example")) ≡ false)
    × (safe_next_path (some ("/\\" <> "evil.example")) ≡ "/\\" <> "evil.example")
    × (leaves_origin ("/\\" <> "evil.example") ≡ true)
safe_next_path-hosts_example =
    safe_next_path-hosts "https://evil.example" "evil.example" (unfold any_char in refl)
