-- ===== src/ServiceContract.antt =====
-- scripts/check_service_contract.py: what a play's variables and roles say, and the verdict over the
-- rows of the services. A row's failures are texts, one for each that `check` finds.
pub mod Facts
pub mod Role
pub mod Check
pub mod Laws
use ansible_platform.Prelude.{
  ℕ, ltb, String, ◌==◌, Bool, true, false, not, ◌&&◌, ◌||◌, Option, none, some, List, [], ◌∷◌, ◌++◌,
  map, length, any, keep, contains, is_empty, String-discrete, if◌then◌else◌,
}
use ansible_platform.Prelude.Yaml.{
  Yaml, Yamls, Fields, other, number, text, list, dict, nil, cons, end, field,
}
use ansible_platform.Prelude.Text.{first_part, split, strip, occurs, starts, ends}

unfoldable mutual
  unfolding occurs

  pub literal_data : Yaml → Bool
  literal_data other = false
  literal_data number = true
  literal_data (text s) = not (occurs "{{" s)
  literal_data (list vs) = literal_items vs
  literal_data (dict fs) = literal_fields fs

  pub literal_items : Yamls → Bool
  literal_items nil = false
  literal_items (cons v vs) = literal_data v || literal_items vs

  pub literal_fields : Fields → Bool
  literal_fields end = false
  literal_fields (field k v fs) = literal_data v || literal_fields fs

-- The names of a play's variables that hold data: those of a connection setting do not count.
unfoldable pub literal_vars : Fields → List String
unfolding literal_data starts
literal_vars end = []
literal_vars (field k v fs) =
    let rest = literal_vars fs in
    if not (starts k "ansible_") && literal_data v then k ∷ rest else rest

-- A task's keys whose value is a dict, each with the `name` in it.
abbrev pub Task : Type 0
Task = List (String × Option String)

pub record Play : Type 0 where
  pub roles : List String
  pub tasks : List Task
  pub pre_tasks : List Task
  pub post_tasks : List Task

abbrev or_blank : Option String → String
or_blank none = ""
or_blank (some s) = s

unfoldable pub task_roles : List Task → List String
unfolding ends
task_roles [] = []
task_roles (t ∷ ts) =
    map (λ ((k, name) : String × Option String). or_blank name)
      (keep (λ ((k, name) : String × Option String). ends k "include_role" || ends k "import_role")
        t)
    ++ task_roles ts

-- `play_roles`
unfoldable pub play_roles : Play → List String
unfolding task_roles occurs
play_roles p =
    keep (λ n. not (n == "") && not (occurs "{" n))
      (p.roles ++ (task_roles p.tasks ++ (task_roles p.pre_tasks ++ task_roles p.post_tasks)))

-- A row of the report: the service and its failures
pub record Row : Type 0 where
  pub name : String
  pub failures : List String

abbrev pub passes : Row → Bool
passes r = is_empty (Row.failures r)

-- The services that the file of passing services lists; a `#` starts a comment.
unfoldable pub held_services : List String → List String
unfolding split strip
held_services [] = []
held_services (line ∷ lines) =
    let rest = held_services lines in
    let name = strip (first_part (split "#" line)) in if name == "" then rest else name ∷ rest

abbrev pub failing_names : List Row → List String
failing_names rows = map Row.name (keep (λ r. not (passes r)) rows)

-- `held & {names of rows that fail}`
abbrev pub fallen : List String → List Row → List String
fallen held rows = keep (contains (failing_names rows)) held

-- `main` behind the checks: the exit status
unfoldable pub verdict : Bool → Bool → List String → List String → List Row → ℕ
verdict strict ratchet hidden held rows =
    let last = if strict && ltb (length (keep passes rows)) (length rows) then 1 else 0 in
    if not (is_empty hidden)
    then 1
    else if ratchet && not (is_empty (fallen held rows))
    then 1
    else last

-- The services that `argv` names, or all
unfoldable pub wanted_rows : List String → List Row → List Row
wanted_rows wanted rows =
    if is_empty wanted then rows else keep (λ r. contains wanted (Row.name r)) rows

unfoldable pub main : List String → Bool → Bool → List String → List String → List Row → ℕ
unfolding wanted_rows held_services verdict
main wanted strict ratchet hidden lines rows =
    verdict strict ratchet hidden (held_services lines) (wanted_rows wanted rows)
