-- ===== src/Tests/Health.antt =====
-- Runs of the firewall checks over a small firewall.
use ansible_platform.Prelude.{
  ◌=ℕ◌, String, ◌≡◌, ◌↔◌, refl, true, false, Option, none, some, [], ◌∷◌, length, keep,
  String-discrete,
}
use ansible_platform.Prelude.Text.{lower, lower_char, strip}
use ansible_platform.Prelude.Value.{scalar, text, Entry, show, field_or}
use ansible_platform.Prelude.Dict
use ansible_platform.VerifyHealth.{Api, Telenet, run}
use ansible_platform.VerifyHealth.Laws.{IsHealthy, run_exact}
use ansible_platform.FwValidate.{Expected, Live, load_expected, validate, validate_parts, index_by}
use ansible_platform.FwValidate.Laws.{agrees, is_fail, validate_exact, validate_parts_fails}

-- An interface overview in which one of the expected interfaces is down.
abbrev one_down : Api
one_down = record {
  interfaces = some ((("description", "OOB") ∷ ("status", "DOWN") ∷ []) ∷ []);
  gateways = none;
  services = some [];
}

abbrev no_telenet : Telenet
no_telenet = record { ipv4_address = ""; ipv6_address = "" }

run_exact_example :
    (run one_down false true no_telenet true ≡ 0)
    ↔ IsHealthy one_down.interfaces one_down false true no_telenet true
run_exact_example = run_exact one_down false true no_telenet true

abbrev alias : String → String → Option Entry
alias name content = some (("name", scalar (text name)) ∷ ("content", scalar (text content)) ∷ [])

abbrev slot_entry : String → Entry
slot_entry iface = ("interface", scalar (text iface)) ∷ ("enabled", scalar (text "1")) ∷ []

abbrev wanted : Expected
wanted =
    load_expected
      (alias "host4_probe_dmz" " 10.20.0.9 " ∷ none ∷ alias "host6_probe_dmz" "FD00::9" ∷ [])
      (slot_entry "dmz" ∷ []) (("dmz", "opt2") ∷ [])

abbrev neighbour_row : String → Entry
neighbour_row ip = ("ip", scalar (text ip)) ∷ []

-- The firewall sees both probes if its ARP table has this address.
abbrev seen_with : String → Live
seen_with ip4 = record {
  arp = neighbour_row ip4 ∷ [];
  ndp = neighbour_row "fd00::9" ∷ [];
  states = [];
  radvd_status = ("status", scalar (text "running")) ∷ [];
  radvd_entries = slot_entry "opt2" ∷ slot_entry "opt3" ∷ [];
  leases4 = 0;
  leases6 = 2;
}

validates :
    (validate wanted (seen_with "10.20.0.9") ≡ 0) × (validate wanted (seen_with "10.20.0.8") ≡ 1)
unfolding validate load_expected index_by String-discrete lower lower_char strip Dict.get show
    field_or
validates = (refl, refl)

validate_exact_example :
    (validate wanted (seen_with "10.20.0.9") =ℕ 0) ≡ agrees wanted (seen_with "10.20.0.9")
validate_exact_example = validate_exact wanted (seen_with "10.20.0.9")

validate_parts_fails_example :
    (validate_parts wanted (seen_with "10.20.0.8")).1
    ≡ length (keep is_fail (validate_parts wanted (seen_with "10.20.0.8")).0)
validate_parts_fails_example = validate_parts_fails wanted (seen_with "10.20.0.8")
