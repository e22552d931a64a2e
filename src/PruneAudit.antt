-- ===== src/PruneAudit.antt =====
-- scripts/fw_prune_audit.py: the live firewall objects that the catalog does not declare. Rows and
-- catalog entries are objects of texts; the printed report is the list of orphan lines.
pub mod Laws
use Prim.Native.Char.{Char, code}
use Prim.Native.String
use ansible_platform.Prelude.{
  ℕ, ◌+◌, String, ◌<>◌, ◌==◌, ◌=ℕ◌, Bool, true, false, not, ◌||◌, ◌&&◌, Option, none, some, List,
  [], ◌∷◌, ◌++◌, map, keep, contains, any, length, String-discrete, if◌then◌else◌,
}
use ansible_platform.Prelude.Text.{strip, starts, occurs, chr, lower_char}
use ansible_platform.Prelude.Dict
use ansible_platform.Prelude.Dict.{Dict}

abbrev pub alias_names : List String
alias_names = "bogons" ∷ "bogonsv6" ∷ "sshlockout" ∷ "virusprot" ∷ []

abbrev pub rule_words : List String
rule_words =
    "Anti-Lockout" ∷ "anti-lockout" ∷ "Automatically generated" ∷ "Default allow" ∷ "IPsec"
    ∷ "OpenVPN" ∷ []

-- `re.IGNORECASE` also takes U+017F for an `s`.
abbrev fold_char : Char → Char
fold_char c = if code c =ℕ 383 then chr 115 else lower_char c

abbrev fold : String → String
fold String.[] = String.[]
fold (String.◌∷◌ c s) = String.◌∷◌ (fold_char c) (fold s)

unfoldable pub excluded_alias : String → Bool
unfolding starts
excluded_alias name = starts name "__" || contains alias_names name || starts (fold name) "crowdsec"

unfoldable pub excluded_rule : String → Bool
unfolding occurs
excluded_rule desc = (desc == "") || any (λ s. occurs s desc) rule_words

-- `a or b` of texts
abbrev pub or_text : String → String → String
or_text a b = if a == "" then b else a

abbrev pub text_at : Dict String → String → String → String
text_at r k d = elim (Dict.get r k) [ none ↦ d | some s ↦ s ]

-- `(r.get(name_field) or r.get("description") or r.get("descr") or "").strip()`
unfoldable pub row_name : String → Dict String → String
unfolding Dict.get strip
row_name name_field r = strip (
    or_text (text_at r name_field "") (or_text (text_at r "description" "") (text_at r "descr" "")))

unfoldable pub orphan_line : String → Dict String → String
unfolding Dict.get
orphan_line name r =
    "      if="
    <> (text_at r "interface" "-"
        <> (" act="
            <> (text_at r "action" "-"
                <> (" dport="
                    <> (text_at r "destination_port" "-"
                        <> (" :: " <> or_text name "(no description)"))))))

-- The lines of the orphans, in the order of the rows; their number is the section's count.
unfoldable pub audit_section :
    List (Dict String) → String → List String → (String → Bool) → List String
unfolding row_name orphan_line
audit_section [] name_field catset is_excluded = []
audit_section (r ∷ rows) name_field catset is_excluded =
    let name = row_name name_field r in
    let rest = audit_section rows name_field catset is_excluded in
    if is_excluded name
    then rest
    else if contains catset name
    then rest
    else orphan_line name r ∷ rest

-- `{(r.get(field) or "").strip() for r in section if r.get(field)}`
unfoldable pub descs : List (Dict String) → String → List String
unfolding Dict.get strip
descs [] k = []
descs (r ∷ rs) k =
    let rest = descs rs k in if text_at r k "" == "" then rest else strip (text_at r k "") ∷ rest

pub record Catalog : Type 0 where
  pub aliases : List (Dict String)
  pub filter_rules : List (Dict String)
  pub dnat_rules : List (Dict String)
  pub snat_rules : List (Dict String)

-- `api_rows`: an answer that is no JSON object reads as no row. `fetch` is the call of curl and the
-- reading of its output.
unfoldable pub api_rows : (String → Option (List (Dict String))) → String → List (Dict String)
api_rows fetch path = elim (fetch path) [ none ↦ [] | some rows ↦ rows ]

module _ (fetch : String → Option (List (Dict String))) (c : Catalog) where
  -- The four sections of `main`: the orphan lines of each.
  unfoldable pub alias_orphans : List String
  unfolding api_rows
  alias_orphans =
      audit_section (api_rows fetch "/api/firewall/alias/search_item") "name"
        (descs c.aliases "name") excluded_alias

  unfoldable pub filter_orphans : List String
  unfolding api_rows
  filter_orphans =
      audit_section (api_rows fetch "/api/firewall/filter/search_rule") "description"
        (descs c.filter_rules "description") excluded_rule

  unfoldable pub dnat_orphans : List String
  unfolding api_rows
  dnat_orphans =
      audit_section (api_rows fetch "/api/firewall/d_nat/search_rule") "descr"
        (descs c.dnat_rules "descr") excluded_rule

  unfoldable pub snat_orphans : List String
  unfolding api_rows
  snat_orphans =
      audit_section (api_rows fetch "/api/firewall/source_nat/search_rule") "descr"
        (descs c.snat_rules "descr" ++ descs c.snat_rules "description") excluded_rule

  unfoldable pub total : ℕ
  unfolding alias_orphans filter_orphans dnat_orphans snat_orphans
  total = length alias_orphans + length filter_orphans + length dnat_orphans + length snat_orphans

  -- The exit status: 0 is printed as `CLEAN`.
  unfoldable pub main : ℕ
  unfolding total
  main = if total =ℕ 0 then 0 else 1
