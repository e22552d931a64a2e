-- ===== src/EmbeddedScripts/Tasks.antt =====
-- scripts/check_no_embedded_scripts.py: `_tasks` and `_argv_runs_a_program`.
pub mod Laws
use ansible_platform.Prelude.{
  String, ◌==◌, ◌≡◌, Bool, true, false, ◌&&◌, ◌||◌, Option, none, some, List, [], ◌∷◌, ◌++◌,
  contains, String-discrete, if◌then◌else◌,
}
use ansible_platform.Prelude.Text.{split, last_part}
use ansible_platform.Prelude.Yaml.{
  Yaml, Yamls, Fields, other, number, text, list, dict, nil, cons, end, field,
}
use ansible_platform.Prelude.Dict
use ansible_platform.Prelude.Dict.{Dict}

-- STRUCTURE
abbrev pub structure : List String
structure = "tasks" ∷ "pre_tasks" ∷ "post_tasks" ∷ "handlers" ∷ "block" ∷ "rescue" ∷ "always" ∷ []

abbrev pub tasks_at : Dict (List Fields) → String → List Fields
tasks_at parts k = elim (Dict.get parts k) [ none ↦ [] | some ts ↦ ts ]

-- `for key in keys: yield from _tasks(item.get(key))`, over the tasks of every value
unfoldable pub gather : List String → Dict (List Fields) → List Fields
unfolding Dict.get
gather [] parts = []
gather (k ∷ keys) parts = tasks_at parts k ++ gather keys parts

-- `_tasks`. The tasks of the values of a mapping are computed first, and then taken in the order of
-- STRUCTURE; those under another key are not taken.
unfoldable mutual
  unfolding gather

  pub tasks : Yaml → List Fields
  tasks other = []
  tasks number = []
  tasks (text s) = []
  tasks (list vs) = tasks_items vs
  tasks (dict fs) = []

  pub tasks_items : Yamls → List Fields
  tasks_items nil = []
  tasks_items (cons v vs) = tasks_item v ++ tasks_items vs

  pub tasks_item : Yaml → List Fields
  tasks_item other = []
  tasks_item number = []
  tasks_item (text s) = []
  tasks_item (list vs) = []
  tasks_item (dict fs) = fs ∷ gather structure (tasks_fields fs)

  pub tasks_fields : Fields → Dict (List Fields)
  tasks_fields end = []
  tasks_fields (field k v fs) = (k, tasks v) ∷ tasks_fields fs

-- ARGV_INTERPRETERS
abbrev pub interpreters : Dict String
interpreters =
    ("sh", "-c")
    ∷ ("bash", "-c")
    ∷ ("python", "-c")
    ∷ ("python3", "-c")
    ∷ ("php", "-r")
    ∷ ("perl", "-e")
    ∷ ("ruby", "-e")
    ∷ []

abbrev pub is_flag_of : String → String → Bool
is_flag_of word following = elim (Dict.get interpreters (last_part (split "/" word))) [
  | none ↦ false
  | some flag ↦ flag == following
]

-- `str(word)`, for the comparison with an interpreter or a flag: what is no text is neither.
abbrev pub as_word : Yaml → String
as_word (text s) = s
as_word v = ""

abbrev pub words : Yamls → List String
words nil = []
words (cons v vs) = as_word v ∷ words vs

unfoldable pub argv_runs_a_program : List String → Bool
unfolding Dict.get split
argv_runs_a_program [] = false
argv_runs_a_program (w ∷ []) = false
argv_runs_a_program (w ∷ v ∷ ws) = is_flag_of w v || argv_runs_a_program (v ∷ ws)
