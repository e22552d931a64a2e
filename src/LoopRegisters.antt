-- ===== src/LoopRegisters.antt =====
-- scripts/check_loop_on_skipped_register.py: loops over a register that --check leaves empty. A file is
-- the list of its lines; a path that is no file is not listed. Words are those of ASCII.

pub mod Laws
use Prim.Native.Char.{code}
use Prim.Native.String
use ansible_platform.Prelude.{
  ℕ, zero, suc, ◌+◌, ◌-◌, String, ◌<>◌, ◌==◌, Bool, true, false, not, ◌&&◌, ◌||◌, Option, none,
  some, List, [], ◌∷◌, ◌++◌, any, is_empty, String-discrete, if◌then◌else◌,
}
use ansible_platform.Prelude.Text.{
  strip_left, strip, drop_prefix, starts, occurs, join, is_word, head_test,
}
use ansible_platform.Prelude.Dict
use ansible_platform.Prelude.Dict.{Dict}

-- SKIPS_IN_CHECK
abbrev pub skips_in_check : List String
skips_in_check = "command" ∷ "shell" ∷ "script" ∷ "uri" ∷ []

-- SAFE
abbrev pub safe : List String
safe = "default(" ∷ "is defined" ∷ "ansible_check_mode" ∷ []

-- The alternatives of FIELDS
abbrev pub fields : List String
fields = "stdout" ∷ "stdout_lines" ∷ "results" ∷ "json" ∷ "content" ∷ []

abbrev pub or_whole : Option String → String → String
or_whole none s = s
or_whole (some rest) s = rest

-- `:\s*$`, after a name
abbrev pub blank_after : Option String → Bool
blank_after none = false
blank_after (some rest) = strip_left rest == ""

-- The first of the names that stands in front of the text, with what ends the line
unfoldable pub first_name : List String → String → Option String
unfolding drop_prefix strip_left String-discrete
first_name [] s = none
first_name (m ∷ ms) s =
    let rest = first_name ms s in if blank_after (drop_prefix (m <> ":") s) then some m else rest

-- MODULE_RE, with its group
unfoldable pub module_of : String → Option String
unfolding first_name drop_prefix strip_left
module_of line =
    let s = strip_left line in
    first_name skips_in_check (or_whole (drop_prefix "ansible.builtin." s) s)

unfoldable pub all_word : String → Bool
all_word String.[] = true
all_word (String.◌∷◌ c s) = is_word (code c) && all_word s

abbrev pub word : Option String → Option String
word none = none
word (some rest) = let w = strip rest in if all_word w && not (w == "") then some w else none

-- REGISTER_RE, with its group
unfoldable pub register_of : String → Option String
unfolding all_word drop_prefix strip_left strip String-discrete
register_of line = word (drop_prefix "register:" (strip_left line))

-- LOOP_RE
unfoldable pub is_loop : String → Bool
unfolding starts strip_left
is_loop line = any (λ w. starts (strip_left line) w) ("loop:" ∷ "with_items:" ∷ "with_list:" ∷ [])

-- `any(token in line for token in SAFE)`
unfoldable pub is_safe : String → Bool
unfolding occurs
is_safe line = any (λ t. occurs t line) safe

-- `\b`, after a word
abbrev pub ends_word : Option String → Bool
ends_word none = false
ends_word (some rest) = head_test true (λ c. not (is_word c)) rest

abbrev pub field_here : Option String → Bool
field_here none = false
field_here (some rest) = any (λ f. ends_word (drop_prefix f rest)) fields

-- A field of the register somewhere in the text; the first argument is the character before.
unfoldable pub field_in : ℕ → String → String → Bool
unfolding drop_prefix
field_in before name String.[] = false
field_in before name (String.◌∷◌ c s) =
    (not (is_word before) && field_here (drop_prefix (name <> ".") (String.◌∷◌ c s)))
    || field_in (code c) name s

-- The search in a line
unfoldable pub mentions : String → String → Bool
unfolding field_in
mentions name line = field_in 32 name line

unfoldable pub skip : ℕ → List String → List String
skip zero ls = ls
skip (suc n) [] = []
skip (suc n) (l ∷ ls) = skip n ls

unfoldable pub front : ℕ → List String → List String
front zero ls = []
front (suc n) [] = []
front (suc n) (l ∷ ls) = l ∷ front n ls

-- `"\n".join(lines[max(0, first - 6) : last + 14])`
unfoldable pub window : List String → ℕ → ℕ → String
unfolding skip front join
window lines first last = join "\n" (skip (first - 6) (front (last + 14) lines))

-- `pending` and `registers`
pub record Seen : Type 0 where
  pub pending : Option (String × ℕ)
  pub registers : Dict (String × ℕ)

-- A register of the module that is pending
unfoldable pub registered : List String → ℕ → Option String → Option (String × ℕ) → Seen → Seen
unfolding window occurs Dict.put
registered lines i none pending s = s
registered lines i (some name) none s = s
registered lines i (some name) (some (m, first)) s = record {
  pending = none;
  registers =
      if not (occurs "check_mode: false" (window lines first i))
      then Dict.put name (m, suc i) s.registers
      else s.registers;
}

abbrev pub see_module : List String → ℕ → String → Option String → Seen → Seen
see_module lines i line (some m) s = record s { pending = some (m, i) }
see_module lines i line none s = registered lines i (register_of line) s.pending s

-- The first loop, from line `i` on
unfoldable pub see : List String → ℕ → List String → Seen → Seen
see lines i [] s = s
see lines i (line ∷ rest) s = see lines (suc i) rest (see_module lines i line (module_of line) s)

pub record Hit : Type 0 where
  pub line_no : ℕ
  pub name : String
  pub module_name : String
  pub declared : ℕ
  pub text : String

-- `registers.items()` against one line
unfoldable pub hits_of : ℕ → String → Dict (String × ℕ) → List Hit
unfolding mentions strip
hits_of i line [] = []
hits_of i line ((name, (m, declared)) ∷ registers) =
    let rest = hits_of i line registers in
    if mentions name line
    then record {
      line_no = suc i;
      name = name;
      module_name = m;
      declared = declared;
      text = strip line;
    }
      ∷ rest
    else rest

-- The second loop
unfoldable pub hits_from : ℕ → List String → Dict (String × ℕ) → List Hit
unfolding hits_of is_loop is_safe
hits_from i [] registers = []
hits_from i (line ∷ rest) registers =
    (if is_loop line && not (is_safe line) then hits_of i line registers else [])
    ++ hits_from (suc i) rest registers

-- `scan`
unfoldable pub scan : List String → List Hit
unfolding see hits_from
scan lines =
    hits_from 0 lines
      (Seen.registers (see lines 0 lines (record { pending = none; registers = [] })))

unfoldable pub all_hits : List (String × List String) → List Hit
unfolding scan
all_hits [] = []
all_hits ((path, lines) ∷ files) = scan lines ++ all_hits files

-- `main`, over the targets that are files
unfoldable pub main : List (String × List String) → ℕ
unfolding all_hits
main files = if is_empty (all_hits files) then 0 else 1
