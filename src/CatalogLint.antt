-- ===== src/CatalogLint.antt =====
-- roles/opnsense/_archive/catalog_lint.py: the lint of the firewall catalog. The JSON input is taken
-- as parsed; every alias has its name. Names and descriptions hold no line break. The printed lines
-- are the values of Violation.
pub mod Laws
pub mod Pairs
use Prim.Native.Char.{code}
use Prim.Native.String
use ansible_platform.Prelude.{
  ℕ, ◌=ℕ◌, ◌<>◌, String, ◌==◌, Bool, true, false, not, ◌&&◌, ◌||◌, Option, none, some, List, [],
  ◌∷◌, ◌++◌, map, any, keep, contains, is_empty, String-discrete, if◌then◌else◌,
}
use ansible_platform.Prelude.Text.{lower, strip, strip_right, drop_prefix, drop_suffix}
use ansible_platform.Prelude.Value.{
  Value, Scalar, scalar, text, Entry, show, field, field_or, or_else,
}
use ansible_platform.Prelude.Dict
use ansible_platform.Prelude.Dict.{Dict}

abbrev pub as_text : Value → String
as_text (Value.scalar (Scalar.text s)) = s
as_text v = ""

abbrev pub is_present : Entry → Bool
is_present e = as_text (field_or e "state" (scalar (text "present"))) == "present"

-- The name with the other family, from the prefix of `SUF` and what stands behind it
unfoldable pub other_family : String → String → Option String
other_family prefix (String.◌∷◌ c (String.◌∷◌ d rest)) =
    if (code d =ℕ 95) && not (rest == "")
    then if code c =ℕ 52
      then some (prefix <> ("6_" <> rest))
      else if code c =ℕ 54
      then some (prefix <> ("4_" <> rest))
      else none
    else none
other_family prefix s = none

abbrev pub pair_behind : String → String → Option String
pair_behind prefix name = elim (drop_prefix prefix name) [
  | none ↦ none
  | some rest ↦ other_family prefix rest
]

abbrev pub first_of : Option String → Option String → Option String
first_of none b = b
first_of (some a) b = some a

-- `pair`; `SUF.match` holds exactly when there is one.
unfoldable pub pair : String → Option String
unfolding drop_prefix other_family
pair name =
    first_of (pair_behind "host" name)
      (first_of (pair_behind "net" name) (pair_behind "grp_net" name))

abbrev pub is_suffixed : String → Bool
is_suffixed name = elim (pair name) [ none ↦ false | some _ ↦ true ]

-- `re.sub(r"\s*\(v[46]\)\s*$", "", t)`
abbrev drop_marker : String → String
drop_marker t =
    elim (first_of (drop_suffix (strip_right t) "(v4)") (drop_suffix (strip_right t) "(v6)")) [
      | none ↦ t
      | some rest ↦ strip_right rest
    ]

-- `re.sub(r"\s+<marker>$", ending, t)` for the two markers of a family
abbrev drop_spaced : Option String → String → String → String
drop_spaced none ending t = t
drop_spaced (some rest) ending t =
    if strip_right rest == rest then t else strip_right rest <> ending

abbrev drop_inner : String → String
drop_inner t = drop_spaced (first_of (drop_suffix t "v4)") (drop_suffix t "v6)")) ")" t

abbrev drop_word : String → String
drop_word t = drop_spaced (first_of (drop_suffix t "v4") (drop_suffix t "v6")) "" t

-- `base`: the description without its family marker
unfoldable pub base : String → String
unfolding strip strip_right drop_suffix
base desc = strip (drop_word (drop_inner (drop_marker desc)))

pub data Violation : Type 0 where
  unpaired : String → String → Violation
  no_alias : String → String → String → Violation
  bad_family : String → String → Violation
  bad_port : String → String → Violation
  no_twin : String → String → Violation

-- `str(r.get(k, "") or "")`
unfoldable pub word_at : Entry → String → String
unfolding show or_else field
word_at r k = show (or_else (field r k) (scalar (text "")))

unfoldable pub description : Entry → String
unfolding field_or
description r = as_text (field_or r "description" (scalar (text "?")))

unfoldable pub family : Entry → String
unfolding field_or
family r = as_text (field_or r "ipprotocol" (scalar (text "inet")))

-- `l4`
unfoldable pub transport : Entry → String
unfolding lower show or_else field_or
transport r =
    lower (show (or_else (field_or r "protocol" (scalar (text "any"))) (scalar (text "any"))))

unfoldable pub alias_violations : List String → List String → List Violation
unfolding pair
alias_violations [] aliases = []
alias_violations (a ∷ left) aliases =
    let rest = alias_violations left aliases in
    elim (pair a) [
      | none ↦ rest
      | some p ↦ if contains aliases p then rest else unpaired a p ∷ rest
    ]

abbrev pub net_keys : List String
net_keys = "source_net" ∷ "destination_net" ∷ "destination_port" ∷ "source_port" ∷ []

abbrev pub keywords : List String
keywords = "any" ∷ "(self)" ∷ "" ∷ []

unfoldable pub net_violations : List String → Entry → List String → List Violation
unfolding word_at description
net_violations names r [] = []
net_violations names r (k ∷ ks) =
    let rest = net_violations names r ks in
    if contains names (word_at r k) then rest else no_alias (description r) k (word_at r k) ∷ rest

abbrev pub valid_family : Entry → Bool
valid_family r = contains ("inet" ∷ "inet6" ∷ "inet46" ∷ []) (family r)

abbrev pub has_port : Entry → Bool
has_port r = not (word_at r "destination_port" == "") || not (word_at r "source_port" == "")

abbrev pub takes_port : Entry → Bool
takes_port r = contains ("tcp" ∷ "udp" ∷ "tcp/udp" ∷ []) (transport r)

-- One rule of the first loop over the rules
unfoldable pub rule_violations : List String → Entry → List Violation
unfolding net_violations family description transport
rule_violations names r =
    net_violations names r net_keys
    ++ ((if valid_family r then [] else bad_family (description r) (family r) ∷ [])
        ++ (if has_port r && not (takes_port r)
            then bad_port (description r) (transport r) ∷ []
            else []))

unfoldable pub rules_violations : List String → List Entry → List Violation
unfolding rule_violations
rules_violations names [] = []
rules_violations names (r ∷ rules) = rule_violations names r ++ rules_violations names rules

abbrev or_none : Option (Dict Entry) → Dict Entry
or_none none = []
or_none (some d) = d

-- `fams.setdefault(base(desc), {})[proto] = r`
unfoldable pub families : List Entry → Dict (Dict Entry) → Dict (Dict Entry)
unfolding base description family Dict.get Dict.put
families [] fams = fams
families (r ∷ rules) fams = families rules (
    Dict.put (base (description r))
      (Dict.put (family r) r (or_none (Dict.get fams (base (description r))))) fams)

abbrev pub has_twin : Dict Entry → Bool
has_twin fam = Dict.has fam "inet46" || (Dict.has fam "inet" && Dict.has fam "inet6")

abbrev pub is_dual : List String → Entry → Bool
is_dual single r =
    not (contains single (as_text (field r "interface")))
    && (is_suffixed (word_at r "source_net") || is_suffixed (word_at r "destination_net"))

abbrev twin_of_first : List String → Dict Entry → List Violation
twin_of_first single [] = []
twin_of_first single ((proto, r) ∷ fam) =
    if is_dual single r then no_twin (as_text (field r "description")) proto ∷ [] else []

unfoldable pub twin_violations : List String → Dict (Dict Entry) → List Violation
unfolding word_at pair Dict.has field
twin_violations single [] = []
twin_violations single ((b, fam) ∷ fams) =
    (if has_twin fam then [] else twin_of_first single fam) ++ twin_violations single fams

-- The names of the aliases that are present, without repetition
unfoldable pub alias_names : List Entry → List String
unfolding field_or field
alias_names [] = []
alias_names (a ∷ left) =
    let rest = alias_names left in
    if is_present a && not (contains rest (as_text (field a "name")))
    then as_text (field a "name") ∷ rest
    else rest

unfoldable pub violations : List Entry → List Entry → List String → List Violation
unfolding alias_names alias_violations rules_violations families twin_violations
violations aliases rules single =
    alias_violations (alias_names aliases) (alias_names aliases)
    ++ (rules_violations (alias_names aliases ++ keywords) (keep is_present rules)
        ++ twin_violations single (families (keep is_present rules) []))

-- `main`: the exit status
unfoldable pub main : List Entry → List Entry → List String → ℕ
unfolding violations
main aliases rules single = if is_empty (violations aliases rules single) then 0 else 1
