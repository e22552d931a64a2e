-- ===== src/Apply/Run.antt =====
-- scripts/fw_apply_direct.py: `main_async`, from the parsed catalog to the exit status.
use ansible_platform.Prelude.{
  ℕ, String, ◌<>◌, ◌==◌, Bool, true, false, not, ◌&&◌, ◌||◌, none, some, List, [], ◌∷◌, map, keep,
  contains, any, is_empty, all, length, if◌then◌else◌,
}
use ansible_platform.Prelude.Text.{split, strip}
use ansible_platform.Prelude.Value.{text, scalar, Entry, truthy, truthy_scalar, show}
use ansible_platform.Prelude.Exec.{Result, ok, err, system_exit, Exec, when, ◌>>◌}
use ansible_platform.Apply.Api.{
  Manager, fw_alias, fw_filter, fw_source_nat, fw_dnat, ub_host_override, ub_forward, kea4_subnet,
  kea6_subnet, dnsmasq_settings, dnsmasq_tag, dnsmasq_host, dnsmasq_range, dnsmasq_domain,
  dnsmasq_boot, dnsmasq_option, dnsmasq_service, radvd_entry, radvd_service, Firewall,
}
use ansible_platform.Apply.Section.{fine, error, Row, State, apply_section}
use ansible_platform.Apply.Services.{
  apply_kea_general, reconfigure_unbound, reconfigure_kea, apply_service,
}
use ansible_platform.Apply.Catalog.{Kea, Catalog, present, dns_entry, kea_entry, service_entry}

abbrev pub section_groups : List String
section_groups = "fw" ∷ "dns" ∷ "dns-ho" ∷ "dns-fw" ∷ "kea" ∷ "dnsmasq" ∷ "radvd" ∷ []

-- `{s.strip() for s in only.split(",") if s.strip()}`
unfoldable pub parse_only : String → List String
unfolding split strip
parse_only only = keep (λ s. not (s == "")) (map strip (split "," only))

-- No `--only` runs everything.
unfoldable pub want : List String → String → Bool
want only group = is_empty only || contains only group

-- A DNS row that changed something.
unfoldable pub dns_changed : List Row → Bool
unfolding truthy_scalar
dns_changed = any (λ r.
    ((Row.section r == "DNS_HO") || (Row.section r == "DNS_FW")) && truthy_scalar (Row.changed r))

unfoldable pub is_error : Row → Bool
is_error r = elim (Row.outcome r) [ fine ↦ false | error ↦ true ]

-- `1 if any(r["outcome"] == "error" for r in results) else 0`
unfoldable pub exit_status : List Row → ℕ
unfolding is_error
exit_status results = if any is_error results then 1 else 0

-- The last line of `summarize`: total, errors, changes.
unfoldable pub summarize : List Row → ℕ × ℕ × ℕ
unfolding is_error truthy_scalar
summarize results = (
  length results,
  length (keep is_error results),
  length (keep (λ r. truthy_scalar (Row.changed r)) results),
)

module _ (fw : Firewall) (c : Catalog) (only : List String) (check : Bool) where
  unfoldable pub fw_block : Exec (State fw) (Unit {0})
  fw_block = do
    apply_section fw fw_alias c.aliases "ALIAS" check none
    apply_section fw fw_filter c.filter_rules "RULE" check (some c.interface_map)
    apply_section fw fw_source_nat c.snat_rules "SNAT" check (some c.interface_map)
    apply_section fw fw_dnat c.dnat_rules "DNAT" check (some c.interface_map)

  unfoldable pub unbound_block : Exec (State fw) (Unit {0})
  unbound_block = do
    when (want only "dns" || want only "dns-ho") (
        apply_section fw ub_host_override (map dns_entry c.unbound.host_overrides) "DNS_HO" check
          none)
    when (want only "dns" || want only "dns-fw")
        (apply_section fw ub_forward (map dns_entry c.unbound.forwarders) "DNS_FW" check none)

  unfoldable pub unbound_activation : Exec (State fw) (Unit {0})
  unbound_activation s = when (dns_changed s.results) (reconfigure_unbound fw check) s

  unfoldable pub kea_block : Kea → Manager → String → String → Exec (State fw) (Unit {0})
  kea_block kea mgr endpoint label = do
    apply_kea_general fw endpoint kea.settings c.interface_map label check
    apply_section fw mgr (map kea_entry kea.subnets) label check (some c.interface_map)

  -- One kind of dnsmasq resource.
  unfoldable pub dnsmasq_part : Manager → List Entry → String → Exec (State fw) (Unit {0})
  dnsmasq_part mgr es label =
      apply_section fw mgr (map service_entry es) label check (some c.interface_map)

  unfoldable pub dnsmasq_block : Exec (State fw) (Unit {0})
  dnsmasq_block = do
    when (not (is_empty c.dnsmasq.settings)) (
        apply_service fw dnsmasq_settings "DNSMASQ_SET" (scalar (text "settings"))
          "DnsmasqSettingsManager" present c.dnsmasq.settings check)
    dnsmasq_part dnsmasq_tag c.dnsmasq.tags "DNSMASQ_TAG"
    dnsmasq_part dnsmasq_host c.dnsmasq.hosts "DNSMASQ_HOST"
    dnsmasq_part dnsmasq_range c.dnsmasq.ranges "DNSMASQ_RANGE"
    dnsmasq_part dnsmasq_domain c.dnsmasq.domains "DNSMASQ_DOMAIN"
    dnsmasq_part dnsmasq_boot c.dnsmasq.boots "DNSMASQ_BOOT"
    dnsmasq_part dnsmasq_option c.dnsmasq.options "DNSMASQ_OPT"
    when (truthy c.dnsmasq.service_state) (
        apply_service fw dnsmasq_service "DNSMASQ_SVC"
          (scalar (text ("ensure " <> show c.dnsmasq.service_state))) "DnsmasqServiceManager"
          c.dnsmasq.service_state [] check)

  unfoldable pub radvd_block : Exec (State fw) (Unit {0})
  radvd_block = do
    apply_section fw radvd_entry (map service_entry c.radvd.entries) "RADVD" check
        (some c.interface_map)
    when (truthy c.radvd.service_state) (
        apply_service fw radvd_service "RADVD_SVC"
          (scalar (text ("ensure " <> show c.radvd.service_state))) "RadvdServiceManager"
          c.radvd.service_state [] check)

  -- The blocks in the order of the script.
  unfoldable pub apply_catalog : Exec (State fw) (Unit {0})
  apply_catalog = do
    when (want only "fw") fw_block
    when (truthy c.unbound.enabled) unbound_block
    when (truthy c.unbound.enabled && (want only "dns" || want only "dns-ho" || want only "dns-fw"))
        unbound_activation
    when (want only "kea" && truthy c.kea_dhcp4.enabled)
        (kea_block c.kea_dhcp4 kea4_subnet "kea/dhcpv4" "KEA4")
    when (want only "kea" && truthy c.kea_dhcp6.enabled)
        (kea_block c.kea_dhcp6 kea6_subnet "kea/dhcpv6" "KEA6")
    when (want only "kea" && (truthy c.kea_dhcp4.enabled || truthy c.kea_dhcp6.enabled))
        (reconfigure_kea fw check)
    when (want only "dnsmasq" && truthy c.dnsmasq.enabled) dnsmasq_block
    when (want only "radvd" && truthy c.radvd.enabled) radvd_block

  -- The exit status, or the exception that ends the run, with the state that it leaves.
  unfoldable pub finish : Result (Unit {0}) × State fw → Result ℕ × State fw
  finish (ok _, s) = (ok (exit_status s.results), s)
  finish (err e, s) = (err e, s)

module _ (fw : Firewall) (c : Catalog) where
  unfoldable pub main_async : String → Bool → Firewall.World fw → Result ℕ × State fw
  main_async only_arg check w =
      let only = parse_only only_arg in
      let start : State fw = record { world = w; results = [] } in
      if all (contains section_groups) only
      then finish fw c only check (apply_catalog fw c only check start)
      else (err (system_exit "--only: unknown section(s)"), start)
