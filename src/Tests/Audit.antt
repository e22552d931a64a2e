-- ===== src/Tests/Audit.antt =====
-- Runs of the audits over a few rows.
use ansible_platform.Prelude.{
  String, ◌==◌, ◌≡◌, ◌↔◌, refl, Option, none, some, List, [], ◌∷◌, String-discrete, if◌then◌else◌,
}
use ansible_platform.Prelude.Text.{lower_char}
use ansible_platform.Prelude.Dict
use ansible_platform.Prelude.Dict.{Dict}
use ansible_platform.PruneAudit.{Catalog, main, total, descs, audit_section, excluded_alias}
use ansible_platform.PruneAudit.Laws.{IsDeclared, main_clean, main_unreachable}

abbrev declared : Catalog
declared = record {
  aliases = (("name", "net4_dmz") ∷ []) ∷ [];
  filter_rules = [];
  dnat_rules = [];
  snat_rules = [];
}

-- One declared alias, one of the firewall's own and one that is an orphan.
abbrev live : String → Option (List (Dict String))
live path =
    if path == "/api/firewall/alias/search_item"
    then some
        ((("name", "net4_dmz ") ∷ []) ∷ (("name", "bogons") ∷ []) ∷ (("name", "old") ∷ []) ∷ [])
    else some []

one_orphan : (main live declared ≡ 1) × (total live declared ≡ 1)
unfolding main audit_section descs excluded_alias Dict.get String-discrete lower_char
one_orphan = (refl, refl)

main_clean_example : (main live declared ≡ 0) ↔ IsDeclared live declared
main_clean_example = main_clean live declared

main_unreachable_example : main (λ path. none) declared ≡ 0
main_unreachable_example = main_unreachable (λ path. none) declared (λ path. refl)
