-- ===== src/ServiceContract/Role.antt =====
-- scripts/check_service_contract.py: what `check` finds in the files of a role. A file is its lines, as
-- `splitlines` gives them, and its YAML document. The keys of a mapping are different.
use ansible_platform.Prelude.{
  ℕ, ◌+◌, ◌=ℕ◌, String, ◌==◌, Bool, true, false, not, ◌&&◌, ◌||◌, Option, none, some, List, [], ◌∷◌,
  contains, keep, map, String-discrete, if◌then◌else◌,
}
use ansible_platform.Prelude.Text.{
  strip_left, starts, drop_prefix, join, split, last_part, is_word, head_test, count_matches,
}
use ansible_platform.Prelude.Yaml.{Yaml, Yamls, Fields, dict, list, nil, cons, end, field, has_key}

-- `line.split(" #")[0]`
unfoldable pub before_comment : String → String
unfolding starts
before_comment String.[] = String.[]
before_comment (String.◌∷◌ c s) =
    let rest = before_comment s in
    if starts (String.◌∷◌ c s) " #" then String.[] else String.◌∷◌ c rest

-- One line of `strip_comments`
unfoldable pub strip_line : String → String
unfolding starts strip_left before_comment
strip_line line = if starts (strip_left line) "#" then "" else before_comment line

unfoldable pub strip_comments : List String → String
unfolding strip_line join
strip_comments lines = join "\n" (map strip_line lines)

-- The keys below which `_tasks` looks
abbrev pub blocks : List String
blocks = "block" ∷ "rescue" ∷ "always" ∷ []

abbrev pub has_image : Yaml → Bool
has_image (dict args) = has_key args "image"
has_image v = false

-- A key of a task with its arguments
unfoldable pub is_definition : String → Yaml → Bool
unfolding split has_key
is_definition key args = (last_part (split "." key) == "docker_container") && has_image args

-- The definitions in the tasks that `_tasks` yields
unfoldable mutual
  unfolding is_definition String-discrete

  pub definitions : Yaml → ℕ
  definitions (list items) = definitions_items items
  definitions v = 0

  pub definitions_items : Yamls → ℕ
  definitions_items nil = 0
  definitions_items (cons v vs) = definitions_item v + definitions_items vs

  pub definitions_item : Yaml → ℕ
  definitions_item (dict fs) = definitions_fields fs
  definitions_item v = 0

  pub definitions_fields : Fields → ℕ
  definitions_fields end = 0
  definitions_fields (field k v fs) =
      let below = definitions v in
      (if is_definition k v then 1 else 0)
      + ((if contains blocks k then below else 0) + definitions_fields fs)

-- `count_container_definitions`, over the documents of the task files
unfoldable pub count_container_definitions : List Yaml → ℕ
unfolding definitions
count_container_definitions [] = 0
count_container_definitions (d ∷ ds) = definitions d + count_container_definitions ds

abbrev pub word_ends : Option String → Bool
word_ends none = false
word_ends (some rest) = head_test true (λ c. not (is_word c)) rest

abbrev pub role_after : Option String → String → Bool
role_after none role = false
role_after (some rest) role = word_ends (drop_prefix role (strip_left rest))

-- `name:\s*role\b`
unfoldable pub names_role : String → ℕ → String → Bool
unfolding drop_prefix strip_left
names_role role before s = role_after (drop_prefix "name:" s) role

-- `\bcontainers:`
unfoldable pub containers_at : ℕ → String → Bool
unfolding starts
containers_at before s = not (is_word before) && starts s "containers:"

-- `re.search(pattern, s)`; a newline stands before the text.
unfoldable pub found : (ℕ → String → Bool) → String → Bool
unfolding count_matches
found test s = not (count_matches test 10 s =ℕ 0)

-- `runs_in_containers`, over the stripped text of the task files
unfoldable pub runs_in_containers : String → Bool
unfolding found names_role containers_at
runs_in_containers s =
    (found (names_role "service_scaffold") s && found containers_at s)
    || found (names_role "compose_stack") s

abbrev pub is_name_char : ℕ → Bool
is_name_char c = is_word c || (c =ℕ 45)

abbrev pub name_ends : Option String → Bool
name_ends none = false
name_ends (some rest) = head_test true (λ c. not (is_name_char c)) rest

-- `(?<![\w-])user(?![\w-])`
unfoldable pub person_at : String → ℕ → String → Bool
unfolding drop_prefix
person_at user before s = not (is_name_char before) && name_ends (drop_prefix user s)

-- `named`, in the order of the people
unfoldable pub named_people : List String → String → List String
unfolding found person_at
named_people people body = keep (λ u. found (person_at u) body) people
