-- ===== src/Tests/Scripts.antt =====
-- scripts/check_no_embedded_scripts.py at small counts.
use ansible_platform.Prelude.{◌≡◌, ◌↔◌, refl, [], ◌∷◌, String-discrete}
use ansible_platform.Prelude.Dict
use ansible_platform.Prelude.Dict.{Dict}
use ansible_platform.EmbeddedScripts.Ratchet.{
  Found, categories, ratchet, ratchet_over, settle, run_ratchet,
}
use ansible_platform.EmbeddedScripts.Ratchet.Laws.{
  AllAtMost, IsBaseline, run_ratchet_exact, run_ratchet_lowers,
}

abbrev before : Found
before = ("shell_tasks", ("roles/a/tasks/main.yml", 3) ∷ ("roles/b/tasks/main.yml", 1) ∷ []) ∷ []

abbrev after : Found
after = ("shell_tasks", ("roles/a/tasks/main.yml", 2) ∷ ("roles/b/tasks/main.yml", 1) ∷ []) ∷ []

lowered : (run_ratchet after before).0 ≡ 1
unfolding run_ratchet ratchet ratchet_over settle Dict.get String-discrete
lowered = refl

run_ratchet_exact_example : ((run_ratchet after before).0 ≡ 0) ↔ IsBaseline after before
unfolding Dict.get String-discrete
run_ratchet_exact_example =
    run_ratchet_exact after before ((refl, (refl, tt)), (tt, (tt, (tt, (tt, (tt, (tt, tt)))))))
      ((refl, (refl, tt)), (tt, (tt, (tt, (tt, (tt, (tt, tt)))))))

run_ratchet_lowers_example : AllAtMost categories (run_ratchet after before).1 before
run_ratchet_lowers_example = run_ratchet_lowers after before
