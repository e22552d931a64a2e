-- ===== src/EmbeddedScripts/Scan.antt =====
-- scripts/check_no_embedded_scripts.py: `scan` and `main`. The files of roles/ and playbooks/ are
-- given in the order of the walk: path from the root, document as the YAML loader gives it (`none` if
-- it cannot be read) and lines. The root's own path holds neither "/files/" nor "/templates/".
pub mod Laws
use ansible_platform.Prelude.{
  ℕ, ◌+◌, ◌=ℕ◌, ◌<>◌, String, ◌==◌, Bool, true, false, not, ◌&&◌, ◌||◌, Option, none, some, List,
  [], ◌∷◌, ◌++◌, map, any, keep, sum, length, contains, String-discrete, if◌then◌else◌,
}
use ansible_platform.Prelude.Text.{
  split, last_part, join, occurs, ends, has_suffix, drop_suffix, count_matches,
}
use ansible_platform.Prelude.Yaml.{Yaml, Fields, list, dict, text, end, field, lookup, has_key}
use ansible_platform.Prelude.Dict
use ansible_platform.Prelude.Dict.{Dict}
use ansible_platform.Prelude.Exec.{Result, ok, err, system_exit, key_error, then_result}
use ansible_platform.EmbeddedScripts.Patterns.{
  inline_at, console_at, pipe_lookup_at, is_name_line, is_comment,
}
use ansible_platform.EmbeddedScripts.Tasks.{tasks, words, argv_runs_a_program}
use ansible_platform.EmbeddedScripts.Ratchet.{
  Found, categories, count_at, counts_of, run_ratchet, write_baseline,
}

pub record File : Type 0 where
  pub rel : String
  pub document : Option Yaml
  pub lines : List String

-- `_in_scope`
unfoldable pub in_scope : String → Bool
unfolding occurs
in_scope rel =
    not (occurs "/archive/" ("/" <> (rel <> "/")) || occurs "/_archive/" ("/" <> (rel <> "/")))

unfoldable pub is_payload : String → Bool
unfolding occurs
is_payload rel = occurs "/files/" rel || occurs "/templates/" rel

-- `_yaml_files`
unfoldable pub is_yaml_file : String → Bool
unfolding in_scope is_payload ends
is_yaml_file rel = ends rel ".yml" && (in_scope rel && not (is_payload rel))

-- One call of `add`
pub record Add : Type 0 where
  pub category : String
  pub path : String
  pub count : ℕ

abbrev pub once : String → String → Add
once category path = record { category = category; path = path; count = 1 }

-- MODULES
abbrev pub modules : List (String × String × String)
modules =
    ("shell_tasks", "shell", "ansible.builtin.shell")
    ∷ ("script_module", "script", "ansible.builtin.script")
    ∷ ("raw_module", "raw", "ansible.builtin.raw")
    ∷ []

unfoldable pub module_adds : String → Fields → List (String × String × String) → List Add
unfolding has_key
module_adds path task [] = []
module_adds path task ((category, short, full) ∷ ms) =
    let rest = module_adds path task ms in
    if has_key task short || has_key task full then once category path ∷ rest else rest

abbrev pub runs_argv : Option Yaml → Bool
runs_argv (some (Yaml.list vs)) = argv_runs_a_program (words vs)
runs_argv v = false

abbrev pub has_argv : Yaml → Bool
has_argv (Yaml.dict fs) = runs_argv (lookup fs "argv")
has_argv v = false

unfoldable pub argv_adds : String → Fields → List Add
unfolding lookup argv_runs_a_program
argv_adds path end = []
argv_adds path (field k v fs) =
    let rest = argv_adds path fs in
    if has_argv v then once "inline_interpreters" path ∷ rest else rest

-- SCRIPT_SUFFIXES
abbrev pub script_suffixes : List String
script_suffixes = ".sh" ∷ ".py" ∷ ".pl" ∷ ".rb" ∷ ".go" ∷ ".jq" ∷ ".php" ∷ []

abbrev pub is_script_name : String → Bool
is_script_name s = any (ends s) script_suffixes

-- `str(module.get("dest", ""))`: what is no text ends in no suffix of a script.
abbrev pub as_dest : Option Yaml → String
as_dest (some (Yaml.text s)) = s
as_dest v = ""

abbrev pub writes_script : Option Yaml → Bool
writes_script (some (Yaml.dict fs)) =
    has_key fs "content" && is_script_name (as_dest (lookup fs "dest"))
writes_script v = false

-- COPY_MODULES
unfoldable pub copy_adds : String → Fields → List String → List Add
unfolding lookup has_key ends
copy_adds path task [] = []
copy_adds path task (k ∷ ks) =
    let rest = copy_adds path task ks in
    if writes_script (lookup task k) then once "script_files" path ∷ rest else rest

abbrev pub copy_modules : List String
copy_modules = "copy" ∷ "ansible.builtin.copy" ∷ []

-- The body of the loop over the tasks of a file
unfoldable pub task_adds : String → List Fields → List Add
unfolding module_adds argv_adds copy_adds
task_adds path [] = []
task_adds path (t ∷ ts) =
    (module_adds path t modules ++ (argv_adds path t ++ copy_adds path t copy_modules))
    ++ task_adds path ts

abbrev pub document_adds : String → Option Yaml → Result (List Add)
document_adds path none = err (system_exit (path <> ": not readable as YAML"))
document_adds path (some document) = ok (task_adds path (tasks document))

abbrev pub joined : Result (List Add) → Result (List Add) → Result (List Add)
joined here rest = then_result here (λ adds. then_result rest (λ more. ok (adds ++ more)))

-- The first loop of `scan`
unfoldable pub yaml_adds : List File → Result (List Add)
unfolding is_yaml_file task_adds tasks
yaml_adds [] = ok []
yaml_adds (f ∷ files) =
    let rest = yaml_adds files in
    if is_yaml_file (File.rel f)
    then joined (document_adds (File.rel f) (File.document f)) rest
    else rest

-- `path.name` without ".j2"
unfoldable pub plain_name : String → String
unfolding split drop_suffix
plain_name rel = elim (drop_suffix (last_part (split "/" rel)) ".j2") [
  | none ↦ last_part (split "/" rel)
  | some name ↦ name
]

-- APP_CONFIG
abbrev pub app_config : List String
app_config = "roles/gitlab/templates/gitlab.rb.j2" ∷ "roles/netbox/templates/extra.py.j2" ∷ []

-- `if hits: add(category, path, hits)`
abbrev pub hits : String → String → ℕ → List Add
hits category path n =
    if n =ℕ 0 then [] else record { category = category; path = path; count = n } ∷ []

-- How many lines INLINE is found in
unfoldable pub inline_lines : List String → ℕ
unfolding is_comment count_matches inline_at
inline_lines lines =
    length (keep (λ l. not (is_comment l) && not (count_matches inline_at 32 l =ℕ 0)) lines)

-- `code`: neither comment lines nor names of tasks
unfoldable pub code_of : List String → String
unfolding is_comment is_name_line join
code_of lines = join "\n" (keep (λ l. not (is_comment l) && not (is_name_line l)) lines)

unfoldable pub line_adds : String → List String → List Add
unfolding inline_lines code_of count_matches console_at pipe_lookup_at
line_adds path lines =
    hits "inline_interpreters" path (inline_lines lines)
    ++ (hits "console_programs" path (count_matches console_at 32 (code_of lines))
        ++ hits "pipe_lookups" path (count_matches pipe_lookup_at 32 (code_of lines)))

-- The second loop of `scan`
unfoldable pub text_adds : List File → List Add
unfolding in_scope is_payload plain_name ends line_adds has_suffix
text_adds [] = []
text_adds (f ∷ files) =
    let rest = text_adds files in
    if in_scope (File.rel f)
    then (if is_payload (File.rel f)
          && (is_script_name (plain_name (File.rel f)) && not (contains app_config (File.rel f)))
        then once "script_files" (File.rel f) ∷ []
        else [])
      ++ ((if has_suffix (File.rel f) ".yml" || has_suffix (File.rel f) ".j2"
            then line_adds (File.rel f) (File.lines f)
            else [])
          ++ rest)
    else rest

-- `add`
unfoldable pub add : Add → Found → Found
unfolding Dict.put Dict.get
add a found =
    Dict.put (Add.category a)
      (Dict.put (Add.path a)
        (count_at (counts_of found (Add.category a)) (Add.path a) + Add.count a)
        (counts_of found (Add.category a)))
      found

unfoldable pub add_all : List Add → Found → Found
unfolding add
add_all [] found = found
add_all (a ∷ adds) found = add_all adds (add a found)

abbrev pub nothing_found : Found
nothing_found = map (λ (c : String). (c, [])) categories

-- `scan`: a file that is not readable as YAML ends the run.
unfoldable pub scan : List File → Result Found
unfolding yaml_adds text_adds add_all
scan files =
    then_result (yaml_adds files) (λ adds. ok (add_all (adds ++ text_adds files) nothing_found))

-- `main` behind `scan`, with `--update`, the category of `--list` and `--ratchet`: the exit status,
-- and the baseline file
unfoldable pub finish : Bool → Option String → Bool → Found → Found → Result ℕ × Found
finish update (some category) ratchet baseline found =
    let after = if update then write_baseline found else baseline in
    (if contains categories category then ok 0 else err key_error, after)
finish update none false baseline found = (ok 0, if update then write_baseline found else baseline)
finish update none true baseline found =
    let (status, after) = run_ratchet found (if update then write_baseline found else baseline) in
    (ok status, after)

abbrev pub finish_scan : Bool → Option String → Bool → Found → Result Found → Result ℕ × Found
finish_scan update category ratchet baseline (ok found) =
    finish update category ratchet baseline found
finish_scan update category ratchet baseline (err e) = (err e, baseline)

-- `main`
unfoldable pub main : List File → Bool → Option String → Bool → Found → Result ℕ × Found
unfolding scan finish
main files update category ratchet baseline =
    finish_scan update category ratchet baseline (scan files)
