-- ===== src/EmbeddedScripts/Scan/Laws.antt =====
-- scripts/check_no_embedded_scripts.py: what `scan` counts for a file, and a commit that adds to it.
use ansible_platform.Prelude.{
  ℕ, ◌+◌, ◌<◌, ◌=ℕ◌, String, ◌==◌, ◌≡◌, refl, sym, ap, ap₂, ◌∙◌, Bool, true, false, ◌&&◌, ◌||◌,
  Bool-cases, inl, inr, Option, none, some, List, [], ◌∷◌, ◌++◌, keep, length, is_empty, arith,
  String-discrete, if◌then◌else◌,
}
use ansible_platform.Prelude.Yaml.{Yaml, Fields, end, field, has_key}
use ansible_platform.Prelude.Dict
use ansible_platform.Prelude.Dict.{get-put}
use ansible_platform.Prelude.Exec.{Result, ok, err, then_result-eq-ok}
use ansible_platform.EmbeddedScripts.Tasks.{tasks}
use ansible_platform.EmbeddedScripts.Ratchet.{
  Counts, Found, categories, count_at, counts_of, run_ratchet, ratchet, ratchet_over, settle,
}
use ansible_platform.EmbeddedScripts.Ratchet.Laws.{rose-AllAtMost}
use ansible_platform.Prelude.Text.{count_matches}
use ansible_platform.EmbeddedScripts.Patterns.{console_at, pipe_lookup_at}
use ansible_platform.EmbeddedScripts.Scan.{
  inline_lines, code_of, File, Add, modules, module_adds, argv_adds, copy_adds, copy_modules,
  task_adds, document_adds, joined, yaml_adds, hits, line_adds, text_adds, in_scope, is_yaml_file,
  add, add_all, nothing_found, scan, finish, main,
}

-- What the calls of `add` for one category and path sum up to
abbrev total : List Add → String → String → ℕ
total [] c rel = 0
total (a ∷ adds) c rel =
    (if (Add.category a == c) && (Add.path a == rel) then Add.count a else 0) + total adds c rel

total-append :
    (a b : List Add) (c rel : String) → total (a ++ b) c rel ≡ total a c rel + total b c rel
total-append [] b c rel = omega arith
total-append (x ∷ a) b c rel = omega (arith, total-append a b c rel)

count-add :
    (a : Add) (f : Found) (c rel : String)
    → count_at (counts_of (add a f) c) rel
      ≡ count_at (counts_of f c) rel
        + (if (Add.category a == c) && (Add.path a == rel) then Add.count a else 0)
unfolding add
count-add a f c rel = ground (
  arith,
  get-put (Add.category a) c
      (Dict.put (Add.path a) (count_at (counts_of f (Add.category a)) (Add.path a) + Add.count a)
        (counts_of f (Add.category a)))
      f,
  get-put (Add.path a) rel (count_at (counts_of f (Add.category a)) (Add.path a) + Add.count a)
      (counts_of f (Add.category a)),
  ap (counts_of f),
  ap (count_at (counts_of f c)),
)

count-add_all :
    (adds : List Add) (f : Found) (c rel : String)
    → count_at (counts_of (add_all adds f) c) rel ≡ count_at (counts_of f c) rel + total adds c rel
unfolding add_all
count-add_all [] f c rel = omega arith
count-add_all (a ∷ adds) f c rel =
    omega (arith, count-add a f c rel, count-add_all adds (add a f) c rel)

-- A task whose module is shell
abbrev pub is_shell : Fields → Bool
is_shell t = has_key t "shell" || has_key t "ansible.builtin.shell"

abbrev pub shell_tasks_in : Option Yaml → ℕ
shell_tasks_in none = 0
shell_tasks_in (some document) = length (keep is_shell (tasks document))

-- How many shell tasks the YAML files of this path hold
abbrev pub shell_tasks : List File → String → ℕ
shell_tasks [] rel = 0
shell_tasks (f ∷ files) rel =
    (if is_yaml_file (File.rel f) && (File.rel f == rel)
      then shell_tasks_in (File.document f)
      else 0)
    + shell_tasks files rel

other_categories :
    (("script_module" == "shell_tasks") ≡ false)
    × (("raw_module" == "shell_tasks") ≡ false)
    × (("inline_interpreters" == "shell_tasks") ≡ false)
    × (("script_files" == "shell_tasks") ≡ false)
    × (("console_programs" == "shell_tasks") ≡ false)
    × (("pipe_lookups" == "shell_tasks") ≡ false)
    × (("shell_tasks" == "shell_tasks") ≡ true)
unfolding String-discrete
other_categories = (refl, refl, refl, refl, refl, refl, refl)

total-module_adds :
    (path : String) (t : Fields) (rel : String)
    → total (module_adds path t modules) "shell_tasks" rel
      ≡ (if is_shell t && (path == rel) then 1 else 0)
unfolding module_adds
total-module_adds path t rel = ground (arith, other_categories)

total-argv_adds :
    (path : String) (t : Fields) (rel : String) → total (argv_adds path t) "shell_tasks" rel ≡ 0
unfolding argv_adds
total-argv_adds path end rel = refl
total-argv_adds path (field k v fs) rel =
    ground (arith, other_categories, total-argv_adds path fs rel)

total-copy_adds :
    (path : String) (t : Fields) (ks : List String) (rel : String)
    → total (copy_adds path t ks) "shell_tasks" rel ≡ 0
unfolding copy_adds
total-copy_adds path t [] rel = refl
total-copy_adds path t (k ∷ ks) rel =
    ground (arith, other_categories, total-copy_adds path t ks rel)

-- One task's calls of `add`, and those of the tasks behind it
total-task :
    (a b c d : List Add) (rel : String) (s p : Bool) (t : Fields) (ts : List Fields)
    → total a "shell_tasks" rel ≡ (if s && p then 1 else 0)
    → total b "shell_tasks" rel ≡ 0
    → total c "shell_tasks" rel ≡ 0
    → total d "shell_tasks" rel ≡ (if p then length ts else 0)
    → total ((a ++ (b ++ c)) ++ d) "shell_tasks" rel
      ≡ (if p then length (if s then t ∷ ts else ts) else 0)
total-task a b c d rel s p t ts ha hb hc hd = ground (
  arith,
  total-append (a ++ (b ++ c)) d "shell_tasks" rel,
  total-append a (b ++ c) "shell_tasks" rel,
  total-append b c "shell_tasks" rel,
)

total-task_adds :
    (path : String) (ts : List Fields) (rel : String)
    → total (task_adds path ts) "shell_tasks" rel
      ≡ (if path == rel then length (keep is_shell ts) else 0)
unfolding task_adds
total-task_adds path [] rel = ground arith
total-task_adds path (t ∷ ts) rel =
    total-task (module_adds path t modules) (argv_adds path t) (copy_adds path t copy_modules)
      (task_adds path ts) rel (is_shell t) (path == rel) t (keep is_shell ts)
      (total-module_adds path t rel) (total-argv_adds path t rel)
      (total-copy_adds path t copy_modules rel) (total-task_adds path ts rel)

-- None of the calls is for a shell task of the path.
record NoShell (rel : String) (adds : List Add) : Type 0 where
  pub none_of : total adds "shell_tasks" rel ≡ 0

NoShell-nil : (rel : String) → NoShell rel []
NoShell-nil rel = record { none_of = refl }

NoShell-append :
    (rel : String) (a b : List Add) → NoShell rel a → NoShell rel b → NoShell rel (a ++ b)
NoShell-append rel a b h k = record {
  none_of = omega (arith, total-append a b "shell_tasks" rel, h.none_of, k.none_of);
}

NoShell-if :
    (rel : String) (b : Bool) (x y : List Add)
    → NoShell rel x
    → NoShell rel y
    → NoShell rel (if b then x else y)
NoShell-if rel true x y h k = h
NoShell-if rel false x y h k = k

NoShell-add :
    (rel c path : String) (n : ℕ)
    → (c == "shell_tasks") ≡ false
    → NoShell rel (record { category = c; path = path; count = n } ∷ [])
NoShell-add rel c path n h = record { none_of = ground arith }

NoShell-hits :
    (rel c path : String) (n : ℕ) → (c == "shell_tasks") ≡ false → NoShell rel (hits c path n)
NoShell-hits rel c path n h =
    NoShell-if rel (n =ℕ 0) [] _ (NoShell-nil rel) (NoShell-add rel c path n h)

NoShell-line_adds : (rel path : String) (lines : List String) → NoShell rel (line_adds path lines)
unfolding line_adds
NoShell-line_adds rel path lines =
    NoShell-append rel _ _
      (NoShell-hits rel "inline_interpreters" path (inline_lines lines) other_categories.2)
      (NoShell-append rel _ _
        (NoShell-hits rel "console_programs" path (count_matches console_at 32 (code_of lines))
          other_categories.4)
        (NoShell-hits rel "pipe_lookups" path (count_matches pipe_lookup_at 32 (code_of lines))
          other_categories.5))

NoShell-text_adds : (rel : String) (files : List File) → NoShell rel (text_adds files)
unfolding text_adds
NoShell-text_adds rel [] = NoShell-nil rel
NoShell-text_adds rel (f ∷ files) =
    NoShell-if rel (in_scope (File.rel f)) _ (text_adds files)
      (NoShell-append rel _ _
        (NoShell-if rel _ _ [] (NoShell-add rel "script_files" (File.rel f) 1 other_categories.3)
          (NoShell-nil rel))
        (NoShell-append rel _ (text_adds files)
          (NoShell-if rel _ _ [] (NoShell-line_adds rel (File.rel f) (File.lines f))
            (NoShell-nil rel))
          (NoShell-text_adds rel files)))
      (NoShell-text_adds rel files)

ok-inj : (a b : List Add) → ◌≡◌ {A = Result (List Add)} (ok a) (ok b) → a ≡ b
ok-inj a b h = cc

total-document :
    (path : String) (d : Option Yaml) (adds : List Add) (rel : String)
    → document_adds path d ≡ ok adds
    → total adds "shell_tasks" rel ≡ (if path == rel then shell_tasks_in d else 0)
total-document path none adds rel h = cc
total-document path (some v) adds rel h =
    ap (λ a. total a "shell_tasks" rel) (sym (ok-inj (task_adds path (tasks v)) adds h))
    ∙ total-task_adds path (tasks v) rel

joined-eq-ok :
    (here rest : Result (List Add)) (adds : List Add)
    → joined here rest ≡ ok adds
    → (a : List Add) × (b : List Add) × (here ≡ ok a) × (rest ≡ ok b) × (adds ≡ a ++ b)
joined-eq-ok (ok a) (ok b) adds h = (a, b, refl, refl, sym (ok-inj (a ++ b) adds h))
joined-eq-ok (ok a) (err e) adds h = cc
joined-eq-ok (err e) rest adds h = cc

total-yaml_adds :
    (files : List File) (adds : List Add) (rel : String)
    → yaml_adds files ≡ ok adds
    → total adds "shell_tasks" rel ≡ shell_tasks files rel
unfolding yaml_adds
total-yaml_adds [] adds rel h = ap (λ a. total a "shell_tasks" rel) (sym (ok-inj [] adds h))
total-yaml_adds (f ∷ files) adds rel h = elim (Bool-cases (is_yaml_file (File.rel f))) [
  | inl y ↦
      let (a, b, p, q, e) =
        joined-eq-ok (document_adds (File.rel f) (File.document f)) (yaml_adds files) adds
          (rw y at h) in
      rw (y, e, total-append a b "shell_tasks" rel)
        (ap₂ (λ m n. m + n) (total-document (File.rel f) (File.document f) a rel p)
          (total-yaml_adds files b rel q))
  | inr n ↦ rw n (total-yaml_adds files adds rel (rw n at h) ∙ omega arith)
]

found_inj : (a b : Found) → ◌≡◌ {A = Result Found} (ok a) (ok b) → a ≡ b
found_inj a b h = cc

none_at_first : (rel : String) → count_at (counts_of nothing_found "shell_tasks") rel ≡ 0
unfolding Dict.get String-discrete
none_at_first rel = refl

-- Whatever the files hold, if `scan` ends well then the shell tasks that it counts for a path are the
-- mappings with a shell key that `_tasks` yields from the YAML files of that path, and no other.
pub scan-shell_tasks :
    (files : List File) (found : Found) (rel : String)
    → scan files ≡ ok found
    → count_at (counts_of found "shell_tasks") rel ≡ shell_tasks files rel
unfolding scan
scan-shell_tasks files found rel h =
    let (adds, p, q) =
      then_result-eq-ok (yaml_adds files) (λ a. ok (add_all (a ++ text_adds files) nothing_found))
        h in
    ap (λ x. count_at (counts_of x "shell_tasks") rel)
      (sym (found_inj (add_all (adds ++ text_adds files) nothing_found) found q))
    ∙ count-add_all (adds ++ text_adds files) nothing_found "shell_tasks" rel
    ∙ omega (
      arith,
      none_at_first rel,
      total-append adds (text_adds files) "shell_tasks" rel,
      total-yaml_adds files adds rel p,
      (NoShell-text_adds rel files).none_of,
    )

settle-rose :
    (r : List (String × Counts) × Bool) (f b : Found) → is_empty r.0 ≡ false → settle r f b ≡ (1, b)
unfolding settle
settle-rose (rose, fell) f b h = ground arith

run_ratchet-more :
    (f b : Found) (rel : String)
    → count_at (counts_of b "shell_tasks") rel < count_at (counts_of f "shell_tasks") rel
    → run_ratchet f b ≡ (1, b)
unfolding run_ratchet ratchet
run_ratchet-more f b rel h = elim (Bool-cases (is_empty (ratchet_over categories f b).0)) [
  | inl empty ↦ absurd (omega (arith, (rose-AllAtMost categories f b empty).0 rel, h))
  | inr rose ↦ settle-rose (ratchet_over categories f b) f b rose
]

-- A commit after which a file holds more shell tasks than the baseline allows it fails the ratchet
-- with 1, and leaves the baseline file as it was; the scan must not end in an unreadable file.
pub main_more_shell_tasks :
    (files : List File) (baseline found : Found) (rel : String)
    → scan files ≡ ok found
    → count_at (counts_of baseline "shell_tasks") rel < shell_tasks files rel
    → main files false none true baseline ≡ (ok 1, baseline)
unfolding main finish
main_more_shell_tasks files baseline found rel h more = rw h (
    ap (λ (r : ℕ × Found). (ok r.0, r.1))
      (run_ratchet-more found baseline rel (rw (scan-shell_tasks files found rel h) more)))
