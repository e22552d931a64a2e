-- ===== src/CatalogLint/Laws.antt =====
-- roles/opnsense/_archive/catalog_lint.py: the exit status, and a description of a clean catalog.
use ansible_platform.Prelude.{
  ◌=ℕ◌, String, ◌≡◌, refl, ap, ap₂, ◌∙◌, Bool, true, false, not, ◌&&◌, ◌||◌, none, some, List, [],
  ◌∷◌, ◌++◌, all, keep, contains, is_empty, arith, if◌then◌else◌,
}
use ansible_platform.Prelude.Value.{Entry}
use ansible_platform.Prelude.Dict.{Dict}
use ansible_platform.CatalogLint.{
  Violation, pair, alias_violations, net_keys, keywords, net_violations, word_at, valid_family,
  has_port, takes_port, rule_violations, rules_violations, families, has_twin, is_dual,
  twin_violations, alias_names, violations, main, is_present,
}

is_empty-append : (a b : List Violation) → is_empty (a ++ b) ≡ (is_empty a && is_empty b)
is_empty-append [] b = refl
is_empty-append (x ∷ a) b = refl

-- The pair of the name, if it has one, is among the aliases.
abbrev pub is_paired : List String → String → Bool
is_paired aliases a = elim (pair a) [ none ↦ true | some p ↦ contains aliases p ]

alias_violations-empty :
    (left aliases : List String)
    → is_empty (alias_violations left aliases) ≡ all (is_paired aliases) left
unfolding alias_violations
alias_violations-empty [] aliases = refl
alias_violations-empty (a ∷ left) aliases = ground (arith, alias_violations-empty left aliases)

net_violations-empty :
    (names : List String) (r : Entry) (ks : List String)
    → is_empty (net_violations names r ks) ≡ all (λ k. contains names (word_at r k)) ks
unfolding net_violations
net_violations-empty names r [] = refl
net_violations-empty names r (k ∷ ks) = ground (arith, net_violations-empty names r ks)

-- The rule names aliases or keywords only, has a known family, and a port only with a transport
-- that takes one.
abbrev pub is_clean_rule : List String → Entry → Bool
is_clean_rule names r =
    all (λ k. contains names (word_at r k)) net_keys
    && (valid_family r && (not (has_port r) || takes_port r))

parts-empty :
    (nets : List Violation) (a b : Bool) (x y : Violation)
    → is_empty (nets ++ ((if a then [] else x ∷ []) ++ (if b then y ∷ [] else [])))
      ≡ (is_empty nets && (a && not b))
parts-empty nets a b x y =
    ground (arith, is_empty-append nets ((if a then [] else x ∷ []) ++ (if b then y ∷ [] else [])))

not-and : (a b : Bool) → not (a && not b) ≡ (not a || b)
not-and a b = ground arith

rule_violations-empty :
    (names : List String) (r : Entry) → is_empty (rule_violations names r) ≡ is_clean_rule names r
unfolding rule_violations
rule_violations-empty names r =
    parts-empty (net_violations names r net_keys) (valid_family r)
      (has_port r && not (takes_port r)) _ _
    ∙ ap₂ (λ a b. a && (valid_family r && b)) (net_violations-empty names r net_keys)
        (not-and (has_port r) (takes_port r))

rules_violations-empty :
    (names : List String) (rules : List Entry)
    → is_empty (rules_violations names rules) ≡ all (is_clean_rule names) rules
unfolding rules_violations
rules_violations-empty names [] = refl
rules_violations-empty names (r ∷ rules) =
    is_empty-append (rule_violations names r) _
    ∙ ap₂ (λ a b. a && b) (rule_violations-empty names r) (rules_violations-empty names rules)

abbrev pub first_is_dual : List String → Dict Entry → Bool
first_is_dual single [] = false
first_is_dual single ((proto, r) ∷ fam) = is_dual single r

-- The rules of one description have both families, or the first of them needs no twin.
abbrev pub is_twinned : List String → String × Dict Entry → Bool
is_twinned single (b, fam) = has_twin fam || not (first_is_dual single fam)

twin_violations-empty :
    (single : List String) (fams : Dict (Dict Entry))
    → is_empty (twin_violations single fams) ≡ all (is_twinned single) fams
unfolding twin_violations
twin_violations-empty single [] = refl
twin_violations-empty single ((b, []) ∷ fams) = ground (arith, twin_violations-empty single fams)
twin_violations-empty single ((b, (p, r) ∷ fam) ∷ fams) =
    ground (arith, twin_violations-empty single fams)

exit-zero : (v : List Violation) → ((if is_empty v then 0 else 1) =ℕ 0) ≡ is_empty v
exit-zero v = ground arith

three-empty :
    (a b c : List Violation) → is_empty (a ++ (b ++ c)) ≡ (is_empty a && (is_empty b && is_empty c))
three-empty a b c = is_empty-append a (b ++ c) ∙ ap (λ x. is_empty a && x) (is_empty-append b c)

-- The lint exits with 0 exactly when every family-suffixed alias has its pair, every present rule
-- names aliases or keywords only, has a known family and a port only with a transport that takes
-- one, and the rules of each description have both families unless the first needs no twin.
pub main_exact :
    (aliases rules : List Entry) (single : List String)
    → (main aliases rules single =ℕ 0) ≡ (
        all (is_paired (alias_names aliases)) (alias_names aliases)
        && (all (is_clean_rule (alias_names aliases ++ keywords)) (keep is_present rules)
            && all (is_twinned single) (families (keep is_present rules) [])))
unfolding main violations
main_exact aliases rules single =
    exit-zero (violations aliases rules single)
    ∙ three-empty (alias_violations (alias_names aliases) (alias_names aliases))
        (rules_violations (alias_names aliases ++ keywords) (keep is_present rules))
        (twin_violations single (families (keep is_present rules) []))
    ∙ ap₂ (λ a b. a && b) (alias_violations-empty (alias_names aliases) (alias_names aliases))
        (ap₂ (λ a b. a && b)
          (rules_violations-empty (alias_names aliases ++ keywords) (keep is_present rules))
          (twin_violations-empty single (families (keep is_present rules) [])))
