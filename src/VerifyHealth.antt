-- ===== src/VerifyHealth.antt =====
-- scripts/fw_verify_health.py: the checks that decide whether a firewall is healthy. The API is the
-- parameter `Api`: an endpoint answers its rows or raises. A row is an object of texts (a number or
-- a boolean as `str` gives it). The details printed beside a check are not modelled.
pub mod Laws
pub mod Wans
use Prim.Native.String
use ansible_platform.Prelude.{
  ℕ, String, ◌<>◌, ◌==◌, Bool, true, false, not, ◌||◌, ◌&&◌, Option, none, some, List, [], ◌∷◌,
  ◌++◌, map, any, all, keep, contains, is_empty, String-discrete, if◌then◌else◌,
}
use ansible_platform.Prelude.Text.{first_part, lower, split, starts, ends, occurs}
use ansible_platform.Prelude.Dict
use ansible_platform.Prelude.Dict.{Dict}

abbrev pub Row : Type 0
Row = Dict String

-- What `api.get` answers; `none` is an exception.
pub record Api : Type 0 where
  pub interfaces : Option (List Row)
  pub gateways : Option (List Row)
  pub services : Option (List Row)

-- One tuple of `Gate.rows`.
pub record Check : Type 0 where
  pub name : String
  pub ok : Bool

abbrev pub check : String → Bool → Check
check name ok = record { name = name; ok = ok }

-- `Gate.report`: 1 if a check failed
unfoldable pub report : List Check → ℕ
report rows = if all Check.ok rows then 0 else 1

abbrev pub expected_ifaces : List String
expected_ifaces =
    "OOB" ∷ "LAN_TRUNK" ∷ "MGMT" ∷ "DMZ" ∷ "SVC" ∷ "VPN" ∷ "IoT" ∷ "VoIP" ∷ "Storage" ∷ "Media"
    ∷ "GAMING" ∷ "CCTV" ∷ "FAB" ∷ []

abbrev pub text_at : Row → String → String
text_at r k = elim (Dict.get r k) [ none ↦ "" | some s ↦ s ]

-- `{r.get("description"): r for r in rows if r.get("description")}`: a later row replaces an earlier.
unfoldable pub by_descr : List Row → Dict Row → Dict Row
unfolding Dict.put Dict.get
by_descr [] d = d
by_descr (r ∷ rows) d =
    by_descr rows
      (if text_at r "description" == "" then d else Dict.put (text_at r "description") r d)

-- `bool(v) and str(v.get("status", "")).lower() == "up"`
unfoldable pub is_up : Option Row → Bool
unfolding lower Dict.get
is_up none = false
is_up (some r) = lower (text_at r "status") == "up"

unfoldable pub iface_checks : Dict Row → List String → List Check
unfolding is_up Dict.get
iface_checks d [] = []
iface_checks d (i ∷ is) =
    check ("iface " <> (i <> " up")) (is_up (Dict.get d i)) ∷ iface_checks d is

abbrev pub or_text : String → String → String
or_text a b = if a == "" then b else a

abbrev pub or_row : Option Row → Option Row → Option Row
or_row none b = b
or_row (some r) b = some r

abbrev pub or_empty : Option Row → Row
or_empty none = []
or_empty (some r) = r

-- A public address: none of the private ranges, and no word for a missing one.
unfoldable pub is_public : String → Bool
unfolding starts
is_public a4 =
    not (a4 == "")
    && (not (starts a4 "10." || starts a4 "192.168." || starts a4 "172.")
        && not (contains ("pppoe" ∷ "dhcp" ∷ []) a4))

unfoldable pub proximus_checks : Dict Row → Bool → List Check
unfolding is_up is_public Dict.get
proximus_checks d true =
    let wan1 = or_row (Dict.get d "WAN_PROXIMUS") (Dict.get d "WAN1") in
    let r = or_empty wan1 in
    check "iface WAN_PROXIMUS up" (is_up wan1)
    ∷ check "WAN_PROXIMUS public IPv4"
        (is_public (or_text (text_at r "addr4") (text_at r "ipaddr")))
    ∷ []
proximus_checks d false = check "WAN_PROXIMUS (skipped: --no-proximus)" true ∷ []

-- The expected addresses of the second line, from the ISP secret file.
pub record Telenet : Type 0 where
  pub ipv4_address : String
  pub ipv6_address : String

unfoldable pub telenet_v4 : Telenet → String → Bool
unfolding split ends
telenet_v4 t a4 =
    if t.ipv4_address == ""
    then ends (first_part (split "/" a4)) ".222"
    else first_part (split "/" a4) == t.ipv4_address

unfoldable pub telenet_v6 : Telenet → String → Bool
unfolding lower occurs
telenet_v6 t a6 =
    if t.ipv6_address == "" then occurs "::5" a6 else occurs (lower t.ipv6_address) (lower a6)

unfoldable pub telenet_checks : Dict Row → Bool → Telenet → List Check
unfolding is_up telenet_v4 telenet_v6 Dict.get
telenet_checks d true t =
    let wan2 = Dict.get d "WAN_TELENET" in
    let r = or_empty wan2 in
    check "WAN2 Telenet assigned & up" (is_up wan2)
    ∷ check ("WAN2 Telenet IPv4 " <> or_text t.ipv4_address ".222")
        (telenet_v4 t (or_text (text_at r "addr4") (text_at r "ipaddr")))
    ∷ check ("WAN2 Telenet IPv6 " <> or_text t.ipv6_address "::5")
        (telenet_v6 t (or_text (text_at r "addr6") (text_at r "ipaddrv6")))
    ∷ []
telenet_checks d false t = check "WAN2 Telenet (skipped: --expect-wan2 off)" true ∷ []

unfoldable pub is_down : Row → Bool
unfolding lower Dict.get
is_down r = lower (text_at r "status") == "down"

-- A gateway that is down and has no name raises a `KeyError` inside the `try`.
unfoldable pub gateway_checks : Option (List Row) → List Check
unfolding is_down Dict.has
gateway_checks none = check "gateways status reachable" false ∷ []
gateway_checks (some gws) =
    let bad = keep is_down gws in
    if all (λ r. Dict.has r "name") bad
    then check "gateways: none down" (is_empty bad) ∷ []
    else check "gateways status reachable" false ∷ []

abbrev pub required_services : Bool → List String
required_services true =
    "unbound" ∷ "dnscrypt-proxy" ∷ "crowdsec" ∷ "kea-dhcp" ∷ "qemu-ga" ∷ "flowd_aggregate" ∷ []
required_services false =
    "unbound" ∷ "dnscrypt-proxy" ∷ "crowdsec" ∷ "qemu-ga" ∷ "flowd_aggregate" ∷ []

abbrev pub is_running : Row → Bool
is_running r = contains ("1" ∷ "True" ∷ "true" ∷ []) (text_at r "running")

abbrev pub flag_at : Dict Bool → String → Bool
flag_at d k = elim (Dict.get d k) [ none ↦ false | some b ↦ b ]

-- A service with several rows runs if one of them does.
unfoldable pub running : List Row → Dict Bool → Dict Bool
unfolding Dict.put Dict.get
running [] d = d
running (r ∷ rows) d =
    running rows (Dict.put (text_at r "name") (flag_at d (text_at r "name") || is_running r) d)

abbrev service_label : String → String
service_label name = if name == "flowd_aggregate" then "reporting (flowd_aggregate)" else name

unfoldable pub service_rows : Dict Bool → List String → List Check
unfolding Dict.get
service_rows d [] = []
service_rows d (s ∷ ss) =
    check ("service " <> (service_label s <> " running")) (flag_at d s) ∷ service_rows d ss

unfoldable pub kea_checks : Bool → List Check
kea_checks true = []
kea_checks false = check "service kea-dhcp (skipped: --no-kea)" true ∷ []

unfoldable pub service_checks : Option (List Row) → Bool → List Check
unfolding running service_rows
service_checks none kea = check "service list reachable" false ∷ []
service_checks (some svc) kea = service_rows (running svc []) (required_services kea)

-- The checks behind the first, for the interfaces that the API lists.
unfoldable pub checks : Dict Row → Api → Bool → Bool → Telenet → Bool → List Check
checks d api wan2 proximus telenet kea =
    check "interfaces overview reachable" true
    ∷ (iface_checks d expected_ifaces
        ++ (proximus_checks d proximus
            ++ (telenet_checks d wan2 telenet
                ++ (gateway_checks api.gateways
                    ++ (kea_checks kea ++ service_checks api.services kea)))))

unfoldable pub run_on : Option (List Row) → Api → Bool → Bool → Telenet → Bool → ℕ
run_on none api wan2 proximus telenet kea =
    report (check "interfaces overview reachable" false ∷ [])
run_on (some rows) api wan2 proximus telenet kea =
    report (checks (by_descr rows []) api wan2 proximus telenet kea)

-- `run`: the exit status
unfoldable pub run : Api → Bool → Bool → Telenet → Bool → ℕ
run api wan2 proximus telenet kea = run_on api.interfaces api wan2 proximus telenet kea
