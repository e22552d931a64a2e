-- ===== src/Tests/Contract.antt =====
-- Runs of the service contract's checks.
use ansible_platform.Prelude.{
  ◌=ℕ◌, ◌≡◌, ◌↔◌, refl, Bool, true, false, not, ◌&&◌, ◌||◌, some, List, [], ◌∷◌, all,
  String-discrete,
}
use ansible_platform.Prelude.Text.{
  occurs, split, strip, strip_left, starts, drop_prefix, lower, lower_char, chr, count_matches,
}
use ansible_platform.Prelude.Dict
use ansible_platform.ServiceContract as ServiceContract
use ansible_platform.Prelude.Yaml.{Yaml, text, number, list, dict, cons, nil, field, end}
use ansible_platform.ServiceContract.{
  Row, literal_data, literal_vars, passes, verdict, held_services, wanted_rows,
}
use ansible_platform.ServiceContract.{play_roles, task_roles}
use ansible_platform.ServiceContract.Role.{
  count_container_definitions, found, names_role, containers_at, person_at, named_people,
  runs_in_containers,
}
use ansible_platform.ServiceContract.Check.{
  Failure, facts, Service, check, role_failures, reading, ungathered, data_of, pattern_failures,
  module_at, compose_at, timer_at, mailbox_at, database_at, line_ends, verb_in_line, timer_file,
}
use ansible_platform.ServiceContract.Check.Laws.{Honest, check_ends}
use ansible_platform.ServiceContract.Laws.{HoldsData, literal_data_exact, fails_as, verdict_exact}
use ansible_platform.ServiceContract.Facts.{
  RoleDir, Cache, dir_at, any_ref, explore, needs_facts, needs_facts_of,
}
use ansible_platform.ServiceContract.Facts.Laws.{Sound, Needs, needs_facts_of-Sound}

abbrev nested : Yaml
nested = dict (field "a" (list (cons (text "{{ x }}") (cons number nil))) end)

literal_data_exact_example : (literal_data nested ≡ true) ↔ HoldsData nested
literal_data_exact_example = literal_data_exact nested

connection_settings :
    literal_vars
      (field "ansible_user" (text "root") (field "port" number (field "host" (text "{{ h }}") end)))
    ≡ "port" ∷ []
unfolding literal_vars literal_data occurs
connection_settings = refl

abbrev report_rows : List Row
report_rows =
    record { name = "dns"; failures = [] }
    ∷ record { name = "mail"; failures = "meta(base)" ∷ [] }
    ∷ []

held_example :
    ServiceContract.main [] false true [] ("dns # since 3" ∷ "# none" ∷ []) report_rows ≡ 0
unfolding ServiceContract.main verdict held_services wanted_rows split strip String-discrete
held_example = refl

verdict_exact_example : (verdict false true [] ("mail" ∷ []) report_rows =ℕ 0) ≡ (
    true
    && ((not true || all (λ n. not (fails_as report_rows n)) ("mail" ∷ []))
        && (not false || all passes report_rows)))
verdict_exact_example = verdict_exact false true [] ("mail" ∷ []) report_rows

-- Two roles that include one another; the first also includes one that reads facts.
abbrev cyclic : List RoleDir
cyclic =
    record { name = "a"; direct = false; refs = "b" ∷ "c" ∷ [] }
    ∷ record { name = "b"; direct = false; refs = "a" ∷ [] }
    ∷ record { name = "c"; direct = true; refs = [] }
    ∷ []

abbrev after_a : Cache
after_a = ("b", false) ∷ ("c", true) ∷ ("a", true) ∷ []

a_first : needs_facts_of cyclic "a" [] ≡ some (true, after_a)
unfolding needs_facts_of needs_facts any_ref explore dir_at Dict.get Dict.put String-discrete
a_first = refl

-- Behind that call the second role is reported as reading no facts; asked alone, it does.
b_depends_on_the_order :
    (needs_facts_of cyclic "b" after_a ≡ some (false, after_a))
    × (needs_facts_of cyclic "b" [] ≡ some (true, ("c", true) ∷ ("a", true) ∷ ("b", true) ∷ []))
unfolding needs_facts_of needs_facts any_ref explore dir_at Dict.get Dict.put String-discrete
b_depends_on_the_order = (refl, refl)

nothing_cached : Sound cyclic []
unfolding Dict.get
nothing_cached = record { cached = λ r h. cc }

needs_facts_of-Sound_example :
    (b : Bool) × (after : Cache) × (needs_facts_of cyclic "a" [] ≡ some (b, after))
    × Sound cyclic after
    × (b ≡ true → Needs cyclic "a")
needs_facts_of-Sound_example = needs_facts_of-Sound cyclic "a" [] nothing_cached

-- A service of the first role, in a play that gathers no facts
abbrev service : Service
service = record {
  name = "a";
  plays = some (
      record {
        gathers = false;
        play = record { roles = "a" ∷ []; tasks = []; pre_tasks = []; post_tasks = [] };
        vars = end;
      }
      ∷ []);
  dependencies = [];
  task_documents = [];
  tasks = "- include_role:\n    name: compose_stack";
  body = "";
}

check_runs : check cyclic ("ann" ∷ []) service [] ≡ some (facts ("a" ∷ []) ∷ [], after_a)
unfolding check role_failures reading ungathered data_of literal_vars play_roles task_roles
    count_container_definitions pattern_failures named_people runs_in_containers found count_matches
    names_role containers_at person_at module_at compose_at timer_at mailbox_at database_at
    line_ends verb_in_line timer_file strip_left starts occurs drop_prefix lower lower_char chr
    needs_facts_of needs_facts any_ref explore dir_at Dict.get Dict.put String-discrete
check_runs = refl

check_ends_example :
    (failures : List Failure) × (after : Cache) × (check cyclic ("ann" ∷ []) service []
      ≡ some (failures, after))
    × Sound cyclic after
    × Honest cyclic failures
check_ends_example = check_ends cyclic ("ann" ∷ []) service [] nothing_cached
