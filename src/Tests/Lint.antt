-- ===== src/Tests/Lint.antt =====
-- Runs of the catalog lint.
use ansible_platform.Prelude.{String, ◌≡◌, refl, none, some, List, [], ◌∷◌, here, String-discrete}
use ansible_platform.Prelude.Text.{
  strip, strip_left, strip_right, drop_prefix, drop_suffix, lower, lower_char,
}
use ansible_platform.Prelude.Value.{
  Entry, scalar, text, show, field, field_or, or_else, truthy, truthy_scalar,
}
use ansible_platform.Prelude.Dict
use ansible_platform.CatalogLint as CatalogLint
use ansible_platform.CatalogLint.Pairs.{IsAlias, four, net, main_pairs}
use ansible_platform.CatalogLint.{
  pair, other_family, base, violations, alias_names, alias_violations, net_violations,
  rule_violations, rules_violations, families, twin_violations, keywords, is_present, word_at,
  description, family, transport,
}

pairs : (pair "grp_net4_dmz" ≡ some "grp_net6_dmz") × (pair "host6_" ≡ none) × (pair "web" ≡ none)
unfolding pair other_family drop_prefix String-discrete
pairs = (refl, refl, refl)

bases :
    (base "allow dns (v4) " ≡ "allow dns")
    × (base "allow (dns v6)" ≡ "allow (dns)")
    × (base "allow dns v4" ≡ "allow dns")
    × (base "dnsv4" ≡ "dnsv4")
unfolding base strip strip_left strip_right drop_suffix String-discrete
bases = (refl, refl, refl, refl)

abbrev named : String → Entry
named n = ("name", scalar (text n)) ∷ []

abbrev rule : String → String → String → Entry
rule desc proto word =
    ("description", scalar (text desc))
    ∷ ("ipprotocol", scalar (text proto))
    ∷ ("source_net", scalar (text word))
    ∷ []

abbrev both_nets : List Entry
both_nets = named "net4_dmz" ∷ named "net6_dmz" ∷ []

abbrev twins : List Entry
twins = rule "dns v4" "inet" "net4_dmz" ∷ rule "dns v6" "inet6" "net6_dmz" ∷ []

abbrev lonely : List Entry
lonely = rule "dns v4" "inet" "net4_dmz" ∷ []

lints : (CatalogLint.main both_nets twins [] ≡ 0) × (CatalogLint.main both_nets lonely [] ≡ 1)
unfolding CatalogLint.main violations alias_names alias_violations net_violations rule_violations
    rules_violations families twin_violations word_at description family transport pair other_family
    drop_prefix base strip strip_left strip_right drop_suffix lower lower_char show field field_or
    or_else truthy truthy_scalar Dict.get Dict.put Dict.has String-discrete
lints = (refl, refl)

main_pairs_example : IsAlias both_nets "net6_dmz"
unfolding field field_or Dict.get String-discrete
main_pairs_example =
    main_pairs both_nets twins [] "net" "4_" "6_" "dmz" lints.0 net four refl
      (record { entry = named "net4_dmz"; is_in = here; has_state = refl; has_name = refl })
