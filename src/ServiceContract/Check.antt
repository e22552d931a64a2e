-- ===== src/ServiceContract/Check.antt =====
-- scripts/check_service_contract.py: CHECKS, and `check`. A message names what was found; how often a
-- pattern of CHECKS was found, and the order of the names in a message, are left out.
pub mod Laws
use Prim.Native.Char.{code}
use Prim.Native.String
use ansible_platform.Prelude.{
  ℕ, ◌=ℕ◌, String, ◌<>◌, ◌==◌, Bool, true, false, not, ◌&&◌, ◌||◌, Option, none, some, List, [],
  ◌∷◌, ◌++◌, any, contains, is_empty, String-discrete, if◌then◌else◌,
}
use ansible_platform.Prelude.Text.{
  strip_left, starts, drop_prefix, is_word, is_space, head_test, lower,
}
use ansible_platform.Prelude.Yaml.{Yaml, Fields}
use ansible_platform.ServiceContract.{Play, play_roles, literal_vars}
use ansible_platform.ServiceContract.Facts.{RoleDir, Cache, Answer, needs_facts_of}
use ansible_platform.ServiceContract.Role.{
  word_ends, found, count_container_definitions, runs_in_containers, named_people,
}

-- `:\s*$`, where `$` ends a line: what follows the colon
unfoldable pub line_ends : String → Bool
line_ends String.[] = true
line_ends (String.◌∷◌ c s) = (code c =ℕ 10) || (is_space (code c) && line_ends s)

abbrev pub line_ends_after : Option String → Bool
line_ends_after none = false
line_ends_after (some rest) = line_ends rest

abbrev pub or_whole : Option String → String → String
or_whole none s = s
or_whole (some rest) s = rest

-- MODULE for `docker_compose` or `docker_compose_v2`, at the start of a line; a text starts one.
unfoldable pub module_at : String → ℕ → String → Bool
unfolding line_ends drop_prefix strip_left
module_at name before s =
    let rest = strip_left s in
    (before =ℕ 10)
    && (head_test false is_space s
        && (line_ends_after (drop_prefix (name <> ":") rest)
            || line_ends_after
                (drop_prefix (name <> ":") (or_whole (drop_prefix "community.docker." rest) rest))))

-- `.*\b(up|pull)\b`, after the character before
unfoldable pub verb_in_line : ℕ → String → Bool
unfolding drop_prefix
verb_in_line before String.[] = false
verb_in_line before (String.◌∷◌ c s) =
    (not (is_word before)
      && (word_ends (drop_prefix "up" (String.◌∷◌ c s))
          || word_ends (drop_prefix "pull" (String.◌∷◌ c s))))
    || (not (code c =ℕ 10) && verb_in_line (code c) s)

abbrev pub verb_after : Option String → Bool
verb_after none = false
verb_after (some rest) = word_ends (some rest) && verb_in_line 101 rest

-- `docker[ -]compose\b.*\b(up|pull)\b`
unfoldable pub compose_at : ℕ → String → Bool
unfolding verb_in_line drop_prefix
compose_at before s =
    verb_after (drop_prefix "docker compose" s) || verb_after (drop_prefix "docker-compose" s)

abbrev pub is_path_char : ℕ → Bool
is_path_char c = not ((c =ℕ 34) || ((c =ℕ 39) || is_space c))

-- `[^"'\s]+\.timer`, and whether a character was read
unfoldable pub timer_file : Bool → String → Bool
unfolding starts
timer_file read String.[] = false
timer_file read (String.◌∷◌ c s) =
    (read && starts (String.◌∷◌ c s) ".timer") || (is_path_char (code c) && timer_file true s)

abbrev pub timer_after : Option String → Bool
timer_after none = false
timer_after (some rest) = timer_file false rest

-- `["']?`
abbrev pub unquoted : String → String
unquoted String.[] = String.[]
unquoted (String.◌∷◌ c s) = if (code c =ℕ 34) || (code c =ℕ 39) then s else String.◌∷◌ c s

abbrev pub dest_after : Option String → Bool
dest_after none = false
dest_after (some rest) =
    timer_after (drop_prefix "/etc/systemd/system/" (unquoted (strip_left rest)))

unfoldable pub timer_at : ℕ → String → Bool
unfolding timer_file drop_prefix strip_left
timer_at before s = not (is_word before) && dest_after (drop_prefix "dest:" s)

-- `/api/v1/(add|edit|delete)/mailbox`
unfoldable pub mailbox_at : ℕ → String → Bool
unfolding starts
mailbox_at before s =
    any (λ v. starts s ("/api/v1/" <> (v <> "/mailbox"))) ("add" ∷ "edit" ∷ "delete" ∷ [])

abbrev pub kind_after : Option String → Bool
kind_after none = false
kind_after (some rest) =
    head_test false is_space rest
    && any (λ k. word_ends (drop_prefix k (strip_left rest))) ("database" ∷ "role" ∷ "user" ∷ [])

-- `\bCREATE\s+(DATABASE|ROLE|USER)\b` on a text in lower case, as the pattern ignores the case
unfoldable pub database_at : ℕ → String → Bool
unfolding drop_prefix strip_left
database_at before s = not (is_word before) && kind_after (drop_prefix "create" s)

pub data Failure : Type 0 where
  playbook_missing native compose timers mailbox database : Failure
  facts data_vars meta people : List String → Failure
  containers : ℕ → Failure

-- The patterns of CHECKS, on the stripped text of the task files
unfoldable pub pattern_failures : String → List Failure
unfolding found module_at compose_at timer_at mailbox_at database_at lower
pattern_failures tasks =
    (if found (module_at "docker_compose") tasks
        || (found (module_at "docker_compose_v2") tasks || found compose_at tasks)
      then compose ∷ []
      else [])
    ++ ((if found timer_at tasks then timers ∷ [] else [])
        ++ ((if found mailbox_at tasks then mailbox ∷ [] else [])
            ++ (if found database_at (lower tasks) then database ∷ [] else [])))

-- A play of the playbook: whether it gathers facts, its roles and its variables
pub record Document : Type 0 where
  pub gathers : Bool
  pub play : Play
  pub vars : Fields

-- A service with the files of its role: `plays` is `none` for a playbook that is missing.
pub record Service : Type 0 where
  pub name : String
  pub plays : Option (List Document)
  pub dependencies : List String
  pub task_documents : List Yaml
  pub tasks : String
  pub body : String

-- APPLIANCES
abbrev pub appliances : List String
appliances = "proxmox" ∷ "pbs" ∷ "opnsense" ∷ "k3s" ∷ []

unfoldable pub data_of : List Document → List String
unfolding literal_vars
data_of [] = []
data_of (p ∷ ps) = literal_vars p.vars ++ data_of ps

abbrev pub one_if : {A : Type 0} → List A → Failure → List Failure
one_if names failure = if is_empty names then [] else failure ∷ []

-- `check` after the playbook
unfoldable pub role_failures : List String → Service → List Failure
unfolding count_container_definitions pattern_failures named_people runs_in_containers
role_failures people_names svc =
    one_if svc.dependencies (meta svc.dependencies)
    ++ ((if count_container_definitions svc.task_documents =ℕ 0
          then []
          else containers (count_container_definitions svc.task_documents) ∷ [])
        ++ (pattern_failures svc.tasks
            ++ (one_if (named_people people_names svc.body)
                  (people (named_people people_names svc.body))
                ++ (if not (contains appliances svc.name) && not (runs_in_containers svc.tasks)
                    then native ∷ []
                    else []))))

module _ (dirs : List RoleDir) where
  abbrev pub Named : Type 0
  Named = Option (List String × Cache)

  abbrev pub with_name : String → Bool → Named → Named
  with_name r b none = none
  with_name r true (some (names, cache)) = some (r ∷ names, cache)
  with_name r false (some (names, cache)) = some (names, cache)

  abbrev pub ask_next : String → Answer → (Cache → Named) → Named
  ask_next r none go = none
  ask_next r (some (b, cache)) go = with_name r b (go cache)

  -- `[r for r in roles if needs_facts(r)]`
  unfoldable pub reading : List String → Cache → Named
  unfolding needs_facts_of
  reading [] cache = some ([], cache)
  reading (r ∷ rs) cache = ask_next r (needs_facts_of dirs r cache) (λ after. reading rs after)

  -- The roles of the plays that gather no facts
  unfoldable pub ungathered : List Document → List String
  unfolding play_roles
  ungathered [] = []
  ungathered (p ∷ ps) =
      let rest = ungathered ps in if p.gathers then rest else play_roles p.play ++ rest

  abbrev pub play_failures : List Document → Named → Option (List Failure × Cache)
  play_failures ps none = none
  play_failures ps (some (names, cache)) =
      some (one_if names (facts names) ++ one_if (data_of ps) (data_vars (data_of ps)), cache)

  abbrev pub playbook_failures : Option (List Document) → Cache → Option (List Failure × Cache)
  playbook_failures none cache = some (playbook_missing ∷ [], cache)
  playbook_failures (some ps) cache = play_failures ps (reading (ungathered ps) cache)

  abbrev pub with_role :
      List Failure → Option (List Failure × Cache) → Option (List Failure × Cache)
  with_role more none = none
  with_role more (some (failures, cache)) = some (failures ++ more, cache)

  -- `check`
  unfoldable pub check : List String → Service → Cache → Option (List Failure × Cache)
  unfolding reading ungathered data_of role_failures
  check people_names svc cache =
      with_role (role_failures people_names svc) (playbook_failures svc.plays cache)
