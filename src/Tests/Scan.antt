-- ===== src/Tests/Scan.antt =====
-- scripts/check_no_embedded_scripts.py over two files.
use ansible_platform.Prelude.{
  In, ◌<◌, ◌≡◌, ◌↔◌, refl, true, false, none, some, List, [], ◌∷◌, arith, String-discrete,
}
use ansible_platform.Prelude.Text.{
  split, join, occurs, ends, has_suffix, drop_suffix, count_matches,
}
use ansible_platform.Prelude.Yaml.{
  Yaml, Fields, text, list, dict, cons, nil, field, end, lookup, has_key,
}
use ansible_platform.Prelude.Dict
use ansible_platform.Prelude.Exec.{ok}
use ansible_platform.EmbeddedScripts.Patterns.{
  inline_at, console_at, pipe_lookup_at, is_comment, is_name_line,
}
use ansible_platform.EmbeddedScripts.Tasks.{tasks, gather, argv_runs_a_program}
use ansible_platform.EmbeddedScripts.Tasks.Laws.{IsTask, tasks_exact}
use ansible_platform.EmbeddedScripts.Ratchet.{Found, count_at, counts_of}
use ansible_platform.EmbeddedScripts.Scan.{
  File, scan, main, yaml_adds, text_adds, add_all, add, is_yaml_file, in_scope, is_payload,
  task_adds, module_adds, argv_adds, copy_adds, plain_name, line_adds, inline_lines, code_of,
}
use ansible_platform.EmbeddedScripts.Scan.Laws.{
  shell_tasks, scan-shell_tasks, main_more_shell_tasks,
}

abbrev shell_task : Fields
shell_task = field "name" (text "run") (field "shell" (text "ls") end)

abbrev argv_task : Fields
argv_task =
    field "command"
      (dict (field "argv" (list (cons (text "/usr/bin/python3") (cons (text "-c") nil))) end)) end

-- A play whose block holds a shell task and an argument list that runs a program
abbrev play : Yaml
play = list (
    cons
      (dict (
        field "hosts" (text "all") (
          field "tasks"
            (list (
              cons
                (dict
                  (field "block" (list (cons (dict shell_task) (cons (dict argv_task) nil))) end))
                nil))
            end)))
      nil)

abbrev files : List File
files =
    record {
      rel = "playbooks/a.yml";
      document = some play;
      lines = "- shell: sh -c ls" ∷ "# sh -c" ∷ [];
    }
    ∷ record { rel = "roles/x/files/run.py.j2"; document = none; lines = [] }
    ∷ []

abbrev found : Found
found =
    ("shell_tasks", ("playbooks/a.yml", 1) ∷ [])
    ∷ ("script_module", [])
    ∷ ("raw_module", [])
    ∷ ("inline_interpreters", ("playbooks/a.yml", 2) ∷ [])
    ∷ ("script_files", ("roles/x/files/run.py.j2", 1) ∷ [])
    ∷ ("console_programs", [])
    ∷ ("pipe_lookups", [])
    ∷ []

scans : scan files ≡ ok found
unfolding scan yaml_adds text_adds add_all add is_yaml_file in_scope is_payload task_adds
    module_adds argv_adds copy_adds plain_name line_adds inline_lines code_of tasks gather
    argv_runs_a_program lookup has_key is_comment is_name_line count_matches inline_at console_at
    pipe_lookup_at split join occurs ends has_suffix drop_suffix Dict.get Dict.put String-discrete
scans = refl

tasks_exact_example : In shell_task (tasks play) ↔ IsTask shell_task play
tasks_exact_example = tasks_exact shell_task play

scan-shell_tasks_example :
    count_at (counts_of found "shell_tasks") "playbooks/a.yml" ≡ shell_tasks files "playbooks/a.yml"
scan-shell_tasks_example = scan-shell_tasks files found "playbooks/a.yml" scans

one_more :
    count_at (counts_of [] "shell_tasks") "playbooks/a.yml" < shell_tasks files "playbooks/a.yml"
unfolding is_yaml_file in_scope is_payload tasks gather lookup has_key occurs ends Dict.get
    String-discrete
one_more = omega arith

main_more_shell_tasks_example : main files false none true [] ≡ (ok 1, [])
main_more_shell_tasks_example =
    main_more_shell_tasks files [] found "playbooks/a.yml" scans one_more
