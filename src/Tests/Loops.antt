-- ===== src/Tests/Loops.antt =====
-- scripts/check_loop_on_skipped_register.py on one file.
use ansible_platform.Prelude.{String, ◌≡◌, refl, List, [], ◌∷◌, In, here, String-discrete}
use ansible_platform.Prelude.Text.{
  strip_left, strip_right, strip, drop_prefix, starts, occurs, join,
}
use ansible_platform.Prelude.Dict
use ansible_platform.LoopRegisters.{
  first_name, module_of, all_word, register_of, is_loop, is_safe, field_in, mentions, skip, front,
  window, registered, see, Hit, hits_of, hits_from, scan, all_hits, main,
}
use ansible_platform.LoopRegisters.Laws.{IsRegistered, IsLoopOver, scan_explained}

abbrev play : List String
play =
    "- name: list" ∷ "  ansible.builtin.command:" ∷ "    argv: [ls]" ∷ "  register: out"
    ∷ "- debug:" ∷ "  loop: \"{{ out.stdout_lines }}\"" ∷ []

abbrev hit : Hit
hit = record {
  line_no = 6;
  name = "out";
  module_name = "command";
  declared = 4;
  text = "loop: \"{{ out.stdout_lines }}\"";
}

abbrev checked : List String
checked = "  check_mode: false" ∷ play

main_runs : main (("roles/a/tasks/main.yml", play) ∷ []) ≡ 1
unfolding main all_hits scan hits_from hits_of see registered window skip front join occurs is_loop
    is_safe starts mentions field_in register_of all_word module_of first_name strip strip_left
    strip_right drop_prefix Dict.put String-discrete
main_runs = refl

main_passes : main (("roles/a/tasks/main.yml", checked) ∷ []) ≡ 0
unfolding main all_hits scan hits_from hits_of see registered window skip front join occurs is_loop
    is_safe starts mentions field_in register_of all_word module_of first_name strip strip_left
    strip_right drop_prefix Dict.put String-discrete
main_passes = refl

hit_there : In hit (scan play)
unfolding scan hits_from hits_of see registered window skip front join occurs is_loop is_safe starts
    mentions field_in register_of all_word module_of first_name strip strip_left strip_right
    drop_prefix Dict.put String-discrete
hit_there = here

scan_explained_example : IsRegistered play "out" "command" 4 × IsLoopOver play "out" 6
scan_explained_example = scan_explained play hit hit_there
