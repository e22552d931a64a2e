-- ===== src/CatalogLint/Pairs.antt =====
-- roles/opnsense/_archive/catalog_lint.py: the pair of a family-suffixed alias.
use Prim.Native.Char.{Char, code}
use Prim.Native.String.append
use ansible_platform.Prelude.{
  ◌=ℕ◌, ◌<>◌, String, ◌==◌, ==_sound, ==_refl, ◌≡◌, refl, sym, subst, ap, ◌∙◌, Bool, true, false,
  ◌⊎◌, inl, inr, none, some, List, [], ◌∷◌, In, here, there, all, contains, arith, String-discrete,
}
use ansible_platform.Prelude.Text.{drop_prefix}
use ansible_platform.Prelude.Substring.{drop_prefix-append}
use ansible_platform.Prelude.Value.{scalar, text, Entry, field, field_or}
use ansible_platform.CatalogLint.{
  pair, other_family, pair_behind, first_of, as_text, is_present, alias_names, main,
}
use ansible_platform.CatalogLint.Laws.{is_paired, main_exact}

-- The digit of a family in an alias name, and that of the other one
pub data Other : String → String → Type 0 where
  four : Other "4_" "6_"
  six : Other "6_" "4_"

-- The kinds of aliases that come in pairs
pub data Kind : String → Type 0 where
  host : Kind "host"
  net : Kind "net"
  grp_net : Kind "grp_net"

-- A present alias of this name is in the catalog.
pub record IsAlias (aliases : List Entry) (name : String) : Type 0 where
  pub entry : Entry
  pub is_in : In entry aliases
  pub has_state : as_text (field_or entry "state" (scalar (text "present"))) ≡ "present"
  pub has_name : as_text (field entry "name") ≡ name

two :
    (c d : Char) (rest : String)
    → String.◌∷◌ c (String.◌∷◌ d "") <> rest ≡ String.◌∷◌ c (String.◌∷◌ d rest)
two c d rest =
    append.cons c (String.◌∷◌ d "") rest
    ∙ ap (λ w. String.◌∷◌ c w) (append.cons d "" rest ∙ ap (λ w. String.◌∷◌ d w) (append.nil rest))

other_family-Other :
    (kind this other rest : String)
    → Other this other
    → (rest == "") ≡ false
    → other_family kind (this <> rest) ≡ some (kind <> (other <> rest))
unfolding other_family
other_family-Other kind _ _ rest four h =
    subst (λ w. other_family kind w ≡ some (kind <> ("6_" <> rest))) (sym (two _ _ rest))
      (rw h refl)
other_family-Other kind _ _ rest six h =
    subst (λ w. other_family kind w ≡ some (kind <> ("4_" <> rest))) (sym (two _ _ rest))
      (rw h refl)

pair_behind-some :
    (kind w v : String) → other_family kind w ≡ some v → pair_behind kind (kind <> w) ≡ some v
pair_behind-some kind w v h = rw (pair_behind, drop_prefix-append kind w) h

drop_prefix-ne :
    (c d : Char) (p s w : String)
    → (code c =ℕ code d) ≡ false
    → drop_prefix (String.◌∷◌ c p) (String.◌∷◌ d s <> w) ≡ none
unfolding drop_prefix
drop_prefix-ne c d p s w h =
    subst (λ v. drop_prefix (String.◌∷◌ c p) v ≡ none) (sym (append.cons d s w)) (rw h refl)

pair_behind-ne : (prefix w : String) → drop_prefix prefix w ≡ none → pair_behind prefix w ≡ none
pair_behind-ne prefix w h = rw (pair_behind, h) refl

net_is_no_host : (w : String) → pair_behind "host" ("net" <> w) ≡ none
net_is_no_host w = pair_behind-ne "host" _ (drop_prefix-ne _ _ "ost" "et" w refl)

grp_net_is_no_host : (w : String) → pair_behind "host" ("grp_net" <> w) ≡ none
grp_net_is_no_host w = pair_behind-ne "host" _ (drop_prefix-ne _ _ "ost" "rp_net" w refl)

grp_net_is_no_net : (w : String) → pair_behind "net" ("grp_net" <> w) ≡ none
grp_net_is_no_net w = pair_behind-ne "net" _ (drop_prefix-ne _ _ "et" "rp_net" w refl)

pair-Other :
    (kind this other rest : String)
    → Kind kind
    → Other this other
    → (rest == "") ≡ false
    → pair (kind <> (this <> rest)) ≡ some (kind <> (other <> rest))
unfolding pair
pair-Other _ this other rest host o h =
    let n = "host" <> (this <> rest) in
    ap (λ x. first_of x (first_of (pair_behind "net" n) (pair_behind "grp_net" n)))
      (pair_behind-some "host" (this <> rest) _ (other_family-Other "host" this other rest o h))
pair-Other _ this other rest net o h =
    let n = "net" <> (this <> rest) in
    ap (λ x. first_of x (first_of (pair_behind "net" n) (pair_behind "grp_net" n)))
      (net_is_no_host (this <> rest))
    ∙ ap (λ x. first_of x (pair_behind "grp_net" n))
        (pair_behind-some "net" (this <> rest) _ (other_family-Other "net" this other rest o h))
pair-Other _ this other rest grp_net o h =
    let n = "grp_net" <> (this <> rest) in
    ap (λ x. first_of x (first_of (pair_behind "net" n) (pair_behind "grp_net" n)))
      (grp_net_is_no_host (this <> rest))
    ∙ ap (λ x. first_of x (pair_behind "grp_net" n)) (grp_net_is_no_net (this <> rest))
    ∙ pair_behind-some "grp_net" (this <> rest) _ (other_family-Other "grp_net" this other rest o h)

contains-alias_names :
    (aliases : List Entry) (e : Entry)
    → In e aliases
    → is_present e ≡ true
    → contains (alias_names aliases) (as_text (field e "name")) ≡ true
unfolding alias_names
contains-alias_names [] e m h = elim m [ ]
contains-alias_names (a ∷ aliases) _ here h = ground (arith, h, ==_refl (as_text (field a "name")))
contains-alias_names (a ∷ aliases) e (there m) h =
    ground (arith, contains-alias_names aliases e m h)

first_or_rest :
    (a : Entry) (aliases : List Entry) (name : String)
    → contains (alias_names (a ∷ aliases)) name ≡ true
    → ((is_present a ≡ true) × (as_text (field a "name") ≡ name))
      ⊎ (contains (alias_names aliases) name ≡ true)
unfolding alias_names
first_or_rest a aliases name h = ground (arith, h, ==_sound name (as_text (field a "name")))

contains-IsAlias :
    (aliases : List Entry) (name : String)
    → contains (alias_names aliases) name ≡ true
    → IsAlias aliases name
unfolding alias_names
contains-IsAlias [] name h = cc
contains-IsAlias (a ∷ aliases) name h = elim (first_or_rest a aliases name h) [
  | inl (p, n) ↦ record { entry = a; is_in = here; has_state = ==_sound _ _ p; has_name = n }
  | inr k ↦
      let r = contains-IsAlias aliases name k in
      record {
        entry = r.entry;
        is_in = there r.is_in;
        has_state = r.has_state;
        has_name = r.has_name;
      }
]

all-contains :
    (p : String → Bool) (names : List String) (n : String)
    → all p names ≡ true
    → contains names n ≡ true
    → p n ≡ true
all-contains p [] n a h = cc
all-contains p (x ∷ names) n a h = elim (String-discrete n x) [
  | yes e ↦ subst (λ y. p y ≡ true) (sym e) (ground (arith, a))
  | no e ↦ all-contains p names n (ground (arith, a)) (ground (arith, h, ==_sound n x))
]

-- When the lint exits with 0, a present alias `host4_x`, `net4_x` or `grp_net4_x` has a present alias of
-- the same kind and rest for IPv6, and one for IPv6 has one for IPv4.
pub main_pairs :
    (aliases rules : List Entry) (single : List String) (kind this other rest : String)
    → main aliases rules single ≡ 0
    → Kind kind
    → Other this other
    → (rest == "") ≡ false
    → IsAlias aliases (kind <> (this <> rest))
    → IsAlias aliases (kind <> (other <> rest))
main_pairs aliases rules single kind this other rest h k o r a =
    let pairs : all (is_paired (alias_names aliases)) (alias_names aliases) ≡ true =
      ground (arith, h, main_exact aliases rules single) in
    let mine : contains (alias_names aliases) (kind <> (this <> rest)) ≡ true =
      subst (λ n. contains (alias_names aliases) n ≡ true) a.has_name
        (contains-alias_names aliases a.entry a.is_in (rw a.has_state (==_refl "present"))) in
    contains-IsAlias aliases (kind <> (other <> rest)) (
      rw (is_paired, pair-Other kind this other rest k o r) at
        (all-contains (is_paired (alias_names aliases)) (alias_names aliases) _ pairs mine))
