-- ===== src/Facts/Tests.antt =====
-- The pool of facts, its filters and the tags at concrete facts.
use full_stack_resume.Common.{◌≡◌, refl, true, none, [], ◌∷◌}
use full_stack_resume.Common.Text.{trim, is_space}
use full_stack_resume.Facts.{Fact, pending, to_fact_pool, filter_fact_entries, parse_fact_tags}

abbrev led : Fact
led = record {
  fact_id = "f-1";
  meaning = "Led a team";
  renderings = ("en", "led five engineers") ∷ [];
  resume_style = "bullet";
  source = "sales.json";
  status = pending;
  tags = "team lead" ∷ "sales" ∷ [];
}

parse_fact_tags_test : parse_fact_tags " team lead ,, sales" ≡ led.tags
unfolding parse_fact_tags trim is_space
parse_fact_tags_test = refl

entries_test :
    (to_fact_pool (record { fact = led; recorded_status = none } ∷ [])).out_of_sync_count ≡ 1
unfolding to_fact_pool
entries_test = refl

filter_test :
    filter_fact_entries
      (λ s. s)
      (record { fact = led; out_of_sync = true } ∷ [])
      (record { pending_only = true; query = " five "; source = "all" })
    ≡ record { fact = led; out_of_sync = true } ∷ []
unfolding filter_fact_entries trim is_space
filter_test = refl
