-- ===== src/EmbeddedScripts/Ratchet.antt =====
-- scripts/check_no_embedded_scripts.py: `totals`, `ratchet` and `main`. What `scan` found is the
-- input; the lines are printed in no particular order.
pub mod Laws
use ansible_platform.Prelude.{
  ℕ, ◌<◌, ltb, String, ◌==◌, ◌≡◌, Bool, true, false, ◌||◌, Option, none, some, List, [], ◌∷◌, ◌++◌,
  keep, any, sum, map, is_empty, contains, String-discrete, if◌then◌else◌,
}
use ansible_platform.Prelude.Dict
use ansible_platform.Prelude.Dict.{Dict}

-- `{path: count}`
abbrev pub Counts : Type 0
Counts = Dict ℕ

-- `{category: {path: count}}`
abbrev pub Found : Type 0
Found = Dict Counts

abbrev pub categories : List String
categories =
    "shell_tasks" ∷ "script_module" ∷ "raw_module" ∷ "inline_interpreters" ∷ "script_files"
    ∷ "console_programs" ∷ "pipe_lookups" ∷ []

-- `d.get(rel, 0)`
abbrev pub count_at : Counts → String → ℕ
count_at d rel = elim (Dict.get d rel) [ none ↦ 0 | some n ↦ n ]

abbrev pub or_empty : Option Counts → Counts
or_empty none = []
or_empty (some counts) = counts

-- `d.get(category, {})`
abbrev pub counts_of : Found → String → Counts
counts_of d category = or_empty (Dict.get d category)

unfoldable pub totals : Found → List (String × ℕ)
unfolding Dict.get Dict.values
totals found = map (λ (c : String). (c, sum (Dict.values (counts_of found c)))) categories

-- The entries of one category that are above what the baseline allows.
unfoldable pub rose_in : Counts → Counts → Counts
rose_in found allowed = keep (λ (rel, count). ltb (count_at allowed rel) count) found

-- Whether an entry of the baseline is above what is found.
unfoldable pub fell_in : Counts → Counts → Bool
fell_in found allowed = any (λ (rel, count). ltb (count_at found rel) count) allowed

-- What rose, with its category, and whether anything fell.
unfoldable pub ratchet_over : List String → Found → Found → List (String × Counts) × Bool
unfolding rose_in fell_in
ratchet_over [] found baseline = ([], false)
ratchet_over (c ∷ cs) found baseline =
    let (rose, fell) = ratchet_over cs found baseline in
    let here = rose_in (counts_of found c) (counts_of baseline c) in
    (
      (if is_empty here then rose else (c, here) ∷ rose),
      fell_in (counts_of found c) (counts_of baseline c) || fell,
    )

unfoldable pub ratchet : Found → Found → List (String × Counts) × Bool
ratchet = ratchet_over categories

-- `_write_baseline`: the categories of the script, each with its counts
unfoldable pub write_baseline : Found → Found
write_baseline found = map (λ (c : String). (c, counts_of found c)) categories

-- The end of `main(["--ratchet"])`: the exit status, and the baseline file that it leaves.
unfoldable pub settle : List (String × Counts) × Bool → Found → Found → ℕ × Found
settle (rose, fell) found baseline =
    if is_empty rose
    then (if fell then (1, write_baseline found) else (0, baseline))
    else (1, baseline)

unfoldable pub run_ratchet : Found → Found → ℕ × Found
run_ratchet found baseline = settle (ratchet found baseline) found baseline
