-- ===== src/RemovedVars.antt =====
-- scripts/check_inventory_removed_vars.py: an inventory variable that disappears while code still
-- reads it. `parse` is the YAML reader: the top-level names of a text, `none` for a broken one or
-- one that is no mapping. Files are pairs of a path and a text.
pub mod Laws
pub mod Mentions
use Prim.Native.Char.{Char, code}
use Prim.Native.String
use ansible_platform.Prelude.{
  ℕ, ltb, leb, ◌=ℕ◌, String, ◌==◌, Bool, true, false, not, ◌&&◌, ◌||◌, Option, none, some, List, [],
  ◌∷◌, ◌++◌, map, any, keep, contains, is_empty, String-discrete, if◌then◌else◌,
}
use ansible_platform.Prelude.Text.{
  is_word, has_suffix, split, join, starts, ends, strip_left, drop_prefix,
}
use ansible_platform.Prelude.Dict
use ansible_platform.Prelude.Dict.{Dict}

abbrev pub starts_no_word : String → Bool
starts_no_word String.[] = true
starts_no_word (String.◌∷◌ c s) = not (is_word (code c))

abbrev ends_here : Option String → Bool
ends_here none = false
ends_here (some rest) = starts_no_word rest

-- `word.search(text)`: the name with no word character on either side; the flag says whether the
-- character before is one.
unfoldable pub mentions : Bool → String → String → Bool
unfolding drop_prefix
mentions before name String.[] = not before && (name == "")
mentions before name (String.◌∷◌ c s) =
    (not before && ends_here (drop_prefix name (String.◌∷◌ c s)))
    || mentions (is_word (code c)) name s

abbrev pub matches_tail : String → Bool
matches_tail r = (ends r ".yml" && not (r == ".yml")) || (ends r ".yaml" && not (r == ".yaml"))

abbrev env_of_parts : List String → Option String
env_of_parts (top ∷ env ∷ kind ∷ rest) =
    if (top == "inventories")
      && (not (env == "")
          && (((kind == "group_vars") || (kind == "host_vars")) && matches_tail (join "/" rest)))
    then some env
    else none
env_of_parts _ = none

-- `VARS_FILE.match(path)`: the environment of an inventory file
unfoldable pub env_of : String → Option String
unfolding split join ends
env_of path = env_of_parts (split "/" path)

abbrev code_suffixes : List String
code_suffixes = ".yml" ∷ ".yaml" ∷ ".j2" ∷ ".py" ∷ []

-- `path.suffix in CODE`
unfoldable pub is_code : String → Bool
unfolding has_suffix
is_code path = any (has_suffix path) code_suffixes

-- `readers`: the files under roles/ and playbooks/ that name the variable as a whole word
unfoldable pub readers : List (String × String) → String → List String
unfolding is_code mentions
readers [] name = []
readers ((path, text) ∷ files) name =
    let rest = readers files name in
    if is_code path && mentions false name text then path ∷ rest else rest

abbrev pub names_at : Dict (List String) → String → List String
names_at d env = elim (Dict.get d env) [ none ↦ [] | some ns ↦ ns ]

-- `names - other`
abbrev pub difference : List String → List String → List String
difference ns other = keep (λ n. not (contains other n)) ns

-- `removed`: the names of each environment of the base that the present lacks, unsorted
unfoldable pub removed : Dict (List String) → Dict (List String) → List (String × String)
unfolding Dict.get
removed [] now = []
removed ((env, names) ∷ base) now =
    map (λ (n : String). (env, n)) (difference names (names_at now env)) ++ removed base now

pub record Problem : Type 0 where
  pub env : String
  pub name : String
  pub read_by : List String

-- `check`, from the names of the base and of the present
unfoldable pub check_removed :
    List (String × String) → List (String × String) → List String → List Problem
unfolding readers
check_removed [] files accept = []
check_removed ((env, name) ∷ gone) files accept =
    let rest = check_removed gone files accept in
    if contains accept name
    then rest
    else if is_empty (readers files name)
    then rest
    else record { env = env; name = name; read_by = readers files name } ∷ rest

module _ (parse : String → Option (List String)) where
  -- `names_in`
  unfoldable pub names_in : String → List String
  unfolding starts strip_left
  names_in text =
      if starts (strip_left text) "$ANSIBLE_VAULT"
      then []
      else elim (parse text) [ none ↦ [] | some names ↦ names ]

  -- `names_by_env`, onto the dict that the loop has so far
  unfoldable pub names_by_env : List (String × String) → Dict (List String) → Dict (List String)
  unfolding env_of names_in Dict.put Dict.get
  names_by_env [] out = out
  names_by_env ((path, text) ∷ files) out = names_by_env files (elim (env_of path) [
    | none ↦ out
    | some env ↦ Dict.put env (names_at out env ++ names_in text) out
  ])

  unfoldable pub check :
      List (String × String)
      → List (String × String)
      → List (String × String)
      → List String
      → List Problem
  unfolding removed check_removed
  check base now files accept =
      check_removed (removed (names_by_env base []) (names_by_env now [])) files accept

  -- `main` once the base commit is known: 1 if there is a problem
  unfoldable pub main_at :
      List (String × String) → List (String × String) → List (String × String) → List String → ℕ
  main_at base now files accept = if is_empty (check base now files accept) then 0 else 1

  -- `main`: the base's files, `none` if the base commit cannot be told, which fails in CI only
  unfoldable pub main :
      Bool
      → Option (List (String × String))
      → List (String × String)
      → List (String × String)
      → List String
      → ℕ
  unfolding main_at
  main in_actions none now files accept = if in_actions then 1 else 0
  main in_actions (some base) now files accept = main_at base now files accept
