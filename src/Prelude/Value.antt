-- ===== src/Prelude/Value.antt =====
-- The values of a parsed YAML or JSON document, as deep as the scripts look into them: scalars,
-- lists of scalars and dicts of scalars. Numbers are the whole numbers from 0.
use Prim.Native.Nat.{ℕ, zero, suc, ◌+◌, ◌/◌, ◌%◌}
use Prim.Native.String.{String, ◌++◌}
use mathlib.Core.Path.{◌≡◌, refl}
use mathlib.Core.Bool.{Bool, true, false, not}
use mathlib.Core.Option.{none, some}
use mathlib.Core.List.{List, [], ◌∷◌, map}
use ansible_platform.Prelude.Tests.{ltb, ◌=ℕ◌, ◌==◌, if◌then◌else◌}
use native.Mathlib.Omega.{arith}
use ansible_platform.Prelude.Lists.{is_empty}
use ansible_platform.Prelude.Text.{chr, join}
use ansible_platform.Prelude.Dict
use ansible_platform.Prelude.Dict.{Dict}

pub data Scalar : Type 0 where
  null : Scalar
  flag : Bool → Scalar
  num : ℕ → Scalar
  text : String → Scalar

pub data Value : Type 0 where
  scalar : Scalar → Value
  items : List Scalar → Value
  table : Dict Scalar → Value

-- One object of a catalog, or one row of an API's answer.
abbrev pub Entry : Type 0
Entry = Dict Value

digits : ℕ → ℕ → String → String
digits zero n acc = acc
digits (suc f) n acc =
    let more = digits f (n / 10) (String.◌∷◌ (chr (48 + n % 10)) acc) in
    if ltb n 10 then String.◌∷◌ (chr (48 + n)) acc else more

-- `str(n)`: a number has at most as many digits as its value and one.
unfoldable pub decimal : ℕ → String
unfolding digits chr
decimal n = digits (suc n) n ""

-- `str(x)`
unfoldable pub str : Scalar → String
unfolding decimal
str null = "None"
str (flag true) = "True"
str (flag false) = "False"
str (num n) = decimal n
str (text s) = s

-- `bool(x)`
unfoldable pub truthy_scalar : Scalar → Bool
truthy_scalar null = false
truthy_scalar (flag b) = b
truthy_scalar (num n) = not (n =ℕ 0)
truthy_scalar (text s) = not (s == "")

unfoldable pub truthy : Value → Bool
unfolding truthy_scalar
truthy (scalar s) = truthy_scalar s
truthy (items xs) = not (is_empty xs)
truthy (table d) = not (is_empty d)

-- `entry.get(k)`: `None` for a missing key
unfoldable pub field : Entry → String → Value
unfolding Dict.get
field e k = elim (Dict.get e k) [ none ↦ scalar null | some v ↦ v ]

-- `entry.get(k, d)`
unfoldable pub field_or : Entry → String → Value → Value
unfolding Dict.get
field_or e k d = elim (Dict.get e k) [ none ↦ d | some v ↦ v ]

-- `v or w`
unfoldable pub or_else : Value → Value → Value
unfolding truthy
or_else v w = if truthy v then v else w

decimal_runs : decimal 443 ≡ "443"
unfolding decimal
decimal_runs = refl

pub field-put_self : (k : String) (v : Value) (e : Entry) → field (Dict.put k v e) k ≡ v
unfolding field
field-put_self k v e = ground (arith, Dict.get-put k k v e)

pub field-put_ne :
    (k j : String) (v : Value) (e : Entry) → (k == j) ≡ false → field (Dict.put k v e) j ≡ field e j
unfolding field
field-put_ne k j v e h = ground (arith, Dict.get-put k j v e)

-- `repr(x)`, for texts that hold no quote or backslash.
unfoldable pub repr : Scalar → String
unfolding str
repr (text s) = "'" ++ (s ++ "'")
repr v = str v

abbrev pub repr_pairs : Dict Scalar → List String
repr_pairs [] = []
repr_pairs ((k, v) ∷ d) = ("'" ++ (k ++ ("': " ++ repr v))) ∷ repr_pairs d

-- `str(v)`
unfoldable pub show : Value → String
unfolding str repr join
show (scalar s) = str s
show (items xs) = "[" ++ (join ", " (map repr xs) ++ "]")
show (table d) = "{" ++ (join ", " (repr_pairs d) ++ "}")
