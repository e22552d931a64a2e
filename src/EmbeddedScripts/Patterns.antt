-- ===== src/EmbeddedScripts/Patterns.antt =====
-- scripts/check_no_embedded_scripts.py: INLINE, CONSOLE, PIPE_LOOKUP and NAME_LINE. No match of one
-- pattern begins inside another, so `findall` finds as many as there are positions that match. `\w`
-- is taken over ASCII.
use Prim.Native.Char.{code}
use ansible_platform.Prelude.{
  ℕ, zero, suc, ◌=ℕ◌, String, ◌≡◌, refl, Bool, true, false, not, ◌&&◌, ◌||◌, Option, none, some,
  List, [], ◌∷◌, any, if◌then◌else◌,
}
use ansible_platform.Prelude.Text.{
  is_space, is_word, head_test, drop_prefix, strip_left, starts, count_matches,
}

-- `[\w-]`
abbrev pub is_wordish : ℕ → Bool
is_wordish c = is_word c || (c =ℕ 45)

-- `[\w/-]`
abbrev pub is_pathish : ℕ → Bool
is_pathish c = is_wordish c || (c =ℕ 47)

-- The rest behind a prefix passes the test.
abbrev pub behind : Option String → (String → Bool) → Bool
behind none test = false
behind (some rest) test = test rest

abbrev pub commands : List String
commands = "sh -c" ∷ "bash -c" ∷ "python -c" ∷ "python3 -c" ∷ "php -r" ∷ "perl -e" ∷ "ruby -e" ∷ []

-- INLINE at a position
unfoldable pub inline_at : ℕ → String → Bool
unfolding drop_prefix
inline_at before s =
    not (is_wordish before)
    && any (λ w. behind (drop_prefix w s) (head_test true (λ c. not (is_wordish c)))) commands

-- `[\s'",\-\[\]]`
abbrev pub is_gap : ℕ → Bool
is_gap c = is_space c || (c =ℕ 39) || (c =ℕ 34) || (c =ℕ 44) || (c =ℕ 45) || (c =ℕ 91) || (c =ℕ 93)

-- `_GAP`, with the number of characters that may still be taken, then the test
unfoldable pub after_gap : ℕ → (String → Bool) → String → Bool
after_gap left test String.[] = test String.[]
after_gap zero test (String.◌∷◌ c s) = not (is_gap (code c)) && test (String.◌∷◌ c s)
after_gap (suc left) test (String.◌∷◌ c s) =
    let further = after_gap left test s in
    if is_gap (code c) then further else test (String.◌∷◌ c s)

abbrev pub gap_then : (String → Bool) → String → Bool
gap_then test s = head_test false is_gap s && after_gap 40 test s

-- The word and `\b`
abbrev pub word_here : String → String → Bool
word_here w s = behind (drop_prefix w s) (head_test true (λ c. not (is_word c)))

-- CONSOLE at a position
unfoldable pub console_at : ℕ → String → Bool
unfolding drop_prefix after_gap
console_at before s =
    behind (drop_prefix "gitlab-rails" s) (gap_then (word_here "runner"))
    || (not (is_pathish before) && behind (drop_prefix "rails" s) (gap_then (word_here "runner")))
    || behind (drop_prefix "manage.py" s)
        (gap_then (λ r. word_here "shell" r || word_here "nbshell" r))
    || (not (is_pathish before) && behind (drop_prefix "ak" s) (gap_then (word_here "shell")))

-- `\\?['"]`, then the test
abbrev pub quote_here : (String → Bool) → String → Bool
quote_here test String.[] = false
quote_here test (String.◌∷◌ c s) = ((code c =ℕ 39) || (code c =ℕ 34)) && test s

abbrev pub quote_then : (String → Bool) → String → Bool
quote_then test s = quote_here test s || behind (drop_prefix "\\" s) (quote_here test)

abbrev pub anything : String → Bool
anything s = true

abbrev pub call_here : String → Bool
call_here s = quote_then (λ r. behind (drop_prefix "pipe" r) (quote_then anything)) (strip_left s)

-- PIPE_LOOKUP at a position
unfoldable pub pipe_lookup_at : ℕ → String → Bool
unfolding drop_prefix strip_left
pipe_lookup_at before s =
    behind (drop_prefix "lookup(" s) call_here || behind (drop_prefix "query(" s) call_here

abbrev pub named : String → Bool
named s = behind (drop_prefix "name:" s) (head_test false is_space)

-- NAME_LINE
unfoldable pub is_name_line : String → Bool
unfolding strip_left drop_prefix
is_name_line line =
    named (strip_left line)
    || behind (drop_prefix "-" (strip_left line))
        (λ r. head_test false is_space r && named (strip_left r))

-- `line.lstrip().startswith("#")`
unfoldable pub is_comment : String → Bool
unfolding strip_left starts
is_comment line = starts (strip_left line) "#"

inline_runs :
    (count_matches inline_at 32 "cmd: bash -c 'x' && sh -c y" ≡ 2)
    × (count_matches inline_at 32 "fish -c; sh -cx" ≡ 0)
unfolding count_matches inline_at
inline_runs = (refl, refl)

console_runs :
    (count_matches console_at 32 "gitlab-rails runner x; ['manage.py', 'nbshell']" ≡ 2)
    × (count_matches console_at 32 "break shell; ak shells; rails  runner" ≡ 1)
unfolding count_matches console_at
console_runs = (refl, refl)

pipe_runs : count_matches pipe_lookup_at 32 "{{ lookup( \\'pipe\\', 'ls') }} query(\"pipe\")" ≡ 2
unfolding count_matches pipe_lookup_at
pipe_runs = refl

name_runs :
    (is_name_line "  - name: run" ≡ true)
    × (is_name_line "-name: x" ≡ false)
    × (is_name_line "name:x" ≡ false)
unfolding is_name_line
name_runs = (refl, refl, refl)
