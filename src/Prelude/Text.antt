-- ===== src/Prelude/Text.antt =====
-- Python's `str` methods that the scripts call. `lower` and `upper` change ASCII letters only, which
-- is what protocol names, statuses and catalog keys are made of.
use Prim.Native.Nat.{ℕ, ◌+◌, ◌-◌, ◌<◌, compare, Ordering}
use Prim.Native.Char.{Char, char, code, nul, IsScalar}
use mathlib.Core.Path.{◌≡◌, refl, ap₂}
use Prim.Native.String.{String, [], ◌∷◌, ◌++◌}
use mathlib.Core.List.{List}
use mathlib.Core.Option
use mathlib.Core.Option.{Option, none, some}
use mathlib.Core.Logic.{dite, dif_pos}
use mathlib.Core.Bool.{Bool, true, not, ◌&&◌, ◌||◌}
use native.Mathlib.Decide.{dec_lt}
use native.Mathlib.Omega.{arith}
use text.Mathlib.Text
use text.Mathlib.TextEquality.{Char-path}
use native.Mathlib.Bridge.{le_prop}
use ansible_platform.Prelude.Tests.{String-discrete, leb, ◌=ℕ◌, ◌==◌, if◌then◌else◌}

pub compare_below : (n : ℕ) → n < 128 → compare n 55296 ≡ Ordering.lt
compare_below n h = ground arith

pub scalar_below : (n : ℕ) → n < 128 → IsScalar n
scalar_below n h = rw (compare_below n h) tt

-- The ASCII character of a code.
unfoldable pub chr : ℕ → Char
unfolding scalar_below dec_lt
chr n = dite (dec_lt n 128) (λ h. char n (scalar_below n h)) (λ _. nul)

unfoldable pub lower_char : Char → Char
lower_char c = if leb 65 (code c) && leb (code c) 90 then chr (code c + 32) else c

unfoldable pub upper_char : Char → Char
upper_char c = if leb 97 (code c) && leb (code c) 122 then chr (code c - 32) else c

-- `s.lower()`
unfoldable pub lower : String → String
unfolding lower_char chr
lower [] = []
lower (c ∷ s) = lower_char c ∷ lower s

-- `s.upper()`
unfoldable pub upper : String → String
unfolding upper_char chr
upper [] = []
upper (c ∷ s) = upper_char c ∷ upper s

-- The characters that `strip()` removes.
abbrev pub is_space : ℕ → Bool
is_space n =
    (leb 9 n && leb n 13)
    || (leb 28 n && leb n 32)
    || (n =ℕ 133)
    || (n =ℕ 160)
    || (n =ℕ 5760)
    || (leb 8192 n && leb n 8202)
    || (n =ℕ 8232)
    || (n =ℕ 8233)
    || (n =ℕ 8239)
    || (n =ℕ 8287)
    || (n =ℕ 12288)

unfoldable pub strip_left : String → String
strip_left [] = []
strip_left (c ∷ s) = let rest = strip_left s in if is_space (code c) then rest else c ∷ s

unfoldable pub strip_right : String → String
unfolding String-discrete
strip_right [] = []
strip_right (c ∷ s) =
    let rest = strip_right s in if is_space (code c) && (rest == "") then [] else c ∷ rest

-- `s.strip()`
unfoldable pub strip : String → String
unfolding strip_left strip_right
strip s = strip_right (strip_left s)

abbrev pub cons_head : Char → List String → List String
cons_head c List.[] = List.◌∷◌ (c ∷ []) List.[]
cons_head c (List.◌∷◌ w ws) = List.◌∷◌ (c ∷ w) ws

-- `s.split(sep)` for a separator of one character
unfoldable pub split : Char → String → List String
split sep [] = List.◌∷◌ [] List.[]
split sep (c ∷ s) =
    let rest = split sep s in if code c =ℕ code sep then List.◌∷◌ [] rest else cons_head c rest

-- `sep.join(ws)`
unfoldable pub join : String → List String → String
join sep List.[] = []
join sep (List.◌∷◌ w List.[]) = w
join sep (List.◌∷◌ w (List.◌∷◌ v ws)) = w ++ (sep ++ join sep (List.◌∷◌ v ws))

-- `ws[0]` and `ws[-1]` of a split, which is never empty
abbrev pub first_part : List String → String
first_part List.[] = ""
first_part (List.◌∷◌ w ws) = w

abbrev pub last_part : List String → String
last_part List.[] = ""
last_part (List.◌∷◌ w List.[]) = w
last_part (List.◌∷◌ w (List.◌∷◌ v ws)) = last_part (List.◌∷◌ v ws)

-- `t in s`
unfoldable pub occurs : String → String → Bool
occurs t [] = t == ""
occurs t (c ∷ s) = Text.starts_with (c ∷ s) t || occurs t s

-- `s.startswith(t)`
unfoldable pub starts : String → String → Bool
starts s t = Text.starts_with s t

-- `s.endswith(t)`
unfoldable pub ends : String → String → Bool
unfolding String-discrete
ends [] t = t == ""
ends (c ∷ s) t = ((c ∷ s) == t) || ends s t

-- `path.suffix == suf`: a name that is nothing but the suffix has none.
unfoldable pub has_suffix : String → String → Bool
unfolding ends split
has_suffix path suf = ends path suf && not (last_part (split "/" path) == suf)

-- What is left of the second text behind the first, if it begins with it.
unfoldable pub drop_prefix : String → String → Option String
drop_prefix [] s = some s
drop_prefix (c ∷ p) [] = none
drop_prefix (c ∷ p) (d ∷ s) = if code c =ℕ code d then drop_prefix p s else none

-- What stands in the first text before the second, if it ends with it.
unfoldable pub drop_suffix : String → String → Option String
drop_suffix [] t = if t == "" then some "" else none
drop_suffix (c ∷ s) t = if (c ∷ s) == t then some "" else Option.map (λ r. c ∷ r) (drop_suffix s t)

lower_runs : lower "TCP/Udp" ≡ "tcp/udp"
unfolding lower
lower_runs = refl

strip_runs : strip "  a b " ≡ "a b"
unfolding strip
strip_runs = refl

split_runs : split "," "fw, dns" ≡ List.◌∷◌ "fw" (List.◌∷◌ " dns" List.[])
unfolding split
split_runs = refl

ends_runs : ends "host.json" ".json" ≡ true
unfolding ends
ends_runs = refl

code-chr : (n : ℕ) → n < 128 → code (chr n) ≡ n
unfolding chr
code-chr n h = rw (dif_pos (dec_lt n 128) le_prop h)

chr-code : (c : Char) → code c < 128 → chr (code c) ≡ c
chr-code c h = Char-path _ _ (code-chr _ h)

upper-lower_char : (c : Char) → upper_char (lower_char c) ≡ upper_char c
unfolding upper_char lower_char
upper-lower_char c = grind (arith, code-chr, chr-code)

lower-upper_char : (c : Char) → lower_char (upper_char c) ≡ lower_char c
unfolding upper_char lower_char
lower-upper_char c = grind (arith, code-chr, chr-code)

-- Case is forgotten: each of the two conversions undoes the other's effect on itself.
pub upper-lower : (s : String) → upper (lower s) ≡ upper s
unfolding upper lower
upper-lower [] = refl
upper-lower (c ∷ s) = ap₂ (λ d t. d ∷ t) (upper-lower_char c) (upper-lower s)

pub lower-upper : (s : String) → lower (upper s) ≡ lower s
unfolding upper lower
lower-upper [] = refl
lower-upper (c ∷ s) = ap₂ (λ d t. d ∷ t) (lower-upper_char c) (lower-upper s)

-- `\w`, over ASCII
abbrev pub is_word : ℕ → Bool
is_word c = (leb 65 c && leb c 90) || (leb 97 c && leb c 122) || (leb 48 c && leb c 57) || (c =ℕ 95)

-- The test on the first character of a text; the end of the text gives the first argument.
abbrev pub head_test : Bool → (ℕ → Bool) → String → Bool
head_test none_left test [] = none_left
head_test none_left test (c ∷ s) = test (code c)

-- How many positions of a text a pattern matches at. It is given the character before (a space
-- stands before the text) and what is left.
unfoldable pub count_matches : (ℕ → String → Bool) → ℕ → String → ℕ
count_matches test before [] = if test before [] then 1 else 0
count_matches test before (c ∷ s) =
    (if test before (c ∷ s) then 1 else 0) + count_matches test (code c) s
