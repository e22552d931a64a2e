-- ===== src/PruneAudit/Laws.antt =====
-- scripts/fw_prune_audit.py: the exit status of the audit, and a description of a clean firewall.
use ansible_platform.Prelude.{
  String, ◌≡◌, refl, subst, sym, ◌↔◌, Bool, true, ◌||◌, Option, none, List, [], ◌∷◌, ◌++◌, contains,
  length, arith,
}
use ansible_platform.Prelude.Dict.{Dict}
use ansible_platform.PruneAudit.{
  Catalog, row_name, audit_section, descs, excluded_alias, excluded_rule, api_rows, main,
}

-- Every row is excluded or has its name in the set.
abbrev pub AllKnown : List (Dict String) → String → List String → (String → Bool) → Type 0
AllKnown [] k catset is_excluded = Unit
AllKnown (r ∷ rows) k catset is_excluded =
    ((is_excluded (row_name k r) || contains catset (row_name k r)) ≡ true)
    × AllKnown rows k catset is_excluded

pub audit_section-clean :
    (rows : List (Dict String)) (k : String) (catset : List String) (is_excluded : String → Bool)
    → (length (audit_section rows k catset is_excluded) ≡ 0) ↔ AllKnown rows k catset is_excluded
unfolding audit_section
audit_section-clean [] k catset ex = (λ h. tt, λ h. refl)
audit_section-clean (r ∷ rows) k catset ex = ground (arith, audit_section-clean rows k catset ex)

no_rows-AllKnown :
    (rows : List (Dict String)) (k : String) (catset : List String) (ex : String → Bool)
    → rows ≡ []
    → AllKnown rows k catset ex
no_rows-AllKnown rows k catset ex e = subst (λ r. AllKnown r k catset ex) (sym e) tt

unanswered-AllKnown :
    (fetch : String → Option (List (Dict String))) (path k : String) (catset : List String)
    (ex : String → Bool)
    → ((p : String) → fetch p ≡ none)
    → AllKnown (api_rows fetch path) k catset ex
unfolding api_rows
unanswered-AllKnown fetch path k catset ex h =
    no_rows-AllKnown (api_rows fetch path) k catset ex (ground (arith, h path))

module _ (fetch : String → Option (List (Dict String))) (c : Catalog) where
  -- Every live object of the four kinds is excluded or declared in its part of the catalog. A
  -- source-NAT rule is declared by its `descr` or its `description`.
  abbrev pub IsDeclared : Type 0
  IsDeclared =
      AllKnown (api_rows fetch "/api/firewall/alias/search_item") "name" (descs c.aliases "name")
        excluded_alias
      × AllKnown (api_rows fetch "/api/firewall/filter/search_rule") "description"
          (descs c.filter_rules "description") excluded_rule
      × AllKnown (api_rows fetch "/api/firewall/d_nat/search_rule") "descr"
          (descs c.dnat_rules "descr") excluded_rule
      × AllKnown (api_rows fetch "/api/firewall/source_nat/search_rule") "descr"
          (descs c.snat_rules "descr" ++ descs c.snat_rules "description") excluded_rule

  -- The audit exits with 0 exactly when every live object that it read is excluded or declared.
  pub main_clean : (main fetch c ≡ 0) ↔ IsDeclared
  unfolding main
  main_clean = ground (
    arith,
    audit_section-clean (api_rows fetch "/api/firewall/alias/search_item") "name"
        (descs c.aliases "name") excluded_alias,
    audit_section-clean (api_rows fetch "/api/firewall/filter/search_rule") "description"
        (descs c.filter_rules "description") excluded_rule,
    audit_section-clean (api_rows fetch "/api/firewall/d_nat/search_rule") "descr"
        (descs c.dnat_rules "descr") excluded_rule,
    audit_section-clean (api_rows fetch "/api/firewall/source_nat/search_rule") "descr"
        (descs c.snat_rules "descr" ++ descs c.snat_rules "description") excluded_rule,
  )

  -- A firewall that answers none of the four requests is reported as clean.
  pub main_unreachable : ((path : String) → fetch path ≡ none) → main fetch c ≡ 0
  main_unreachable h = main_clean.1 (
    unanswered-AllKnown fetch _ _ _ _ h,
    unanswered-AllKnown fetch _ _ _ _ h,
    unanswered-AllKnown fetch _ _ _ _ h,
    unanswered-AllKnown fetch _ _ _ _ h,
  )
