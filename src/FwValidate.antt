-- ===== src/FwValidate.antt =====
-- scripts/fw_validate.py: the live firewall against the catalog. The catalog and the answers of the
-- API are taken as parsed; `none` in the alias list is an item that is no object. A live radvd entry
-- names its interface. The evidence beside each line of the report is not modelled.
pub mod Laws
use Prim.Native.Char.{code}
use Prim.Native.String
use ansible_platform.Prelude.{
  ℕ, suc, ◌+◌, ◌=ℕ◌, ◌<>◌, String, ◌==◌, Bool, true, false, not, ◌&&◌, ◌||◌, Option, none, some,
  List, [], ◌∷◌, ◌++◌, map, length, any, keep, contains, is_empty, String-discrete, if◌then◌else◌,
}
use ansible_platform.Prelude.Text.{lower, strip}
use ansible_platform.Prelude.Value.{Value, Scalar, scalar, text, Entry, show, field, field_or}
use ansible_platform.Prelude.Dict
use ansible_platform.Prelude.Dict.{Dict}

abbrev pub vlans : List String
vlans =
    "mgmt" ∷ "dmz" ∷ "svc" ∷ "vpn" ∷ "iot" ∷ "voip" ∷ "storage" ∷ "media" ∷ "gaming" ∷ "cctv" ∷ []

-- The text of a value that is one.
abbrev pub as_text : Value → String
as_text (Value.scalar (Scalar.text s)) = s
as_text v = ""

abbrev pub empty_text : Value
empty_text = scalar (text "")

-- `expected[v]`: its keys "v4" and "v6"
pub record Probe : Type 0 where
  pub v4 : Option String
  pub v6 : Option String

pub record Expected : Type 0 where
  pub probes : Dict Probe
  pub radvd_slots : List String
  pub iface_map : Dict String

abbrev pub no_probe : Probe
no_probe = record { v4 = none; v6 = none }

abbrev pub probe_at : Dict Probe → String → Probe
probe_at d v = elim (Dict.get d v) [ none ↦ no_probe | some p ↦ p ]

-- The body of the loop over VLANS, for one alias
unfoldable pub note_alias : String → String → List String → Dict Probe → Dict Probe
unfolding Dict.put Dict.get
note_alias name content [] d = d
note_alias name content (v ∷ vs) d = note_alias name content vs (
    if name == "host4_probe_" <> v
    then Dict.put v (record { v4 = some content; v6 = (probe_at d v).v6 }) d
    else if name == "host6_probe_" <> v
    then Dict.put v (record { v4 = (probe_at d v).v4; v6 = some content }) d
    else d)

unfoldable pub note_aliases : List (Option Entry) → Dict Probe → Dict Probe
unfolding note_alias strip show field_or
note_aliases [] d = d
note_aliases (none ∷ aliases) d = note_aliases aliases d
note_aliases (some a ∷ aliases) d = note_aliases aliases (
    note_alias (as_text (field_or a "name" empty_text))
      (strip (show (field_or a "content" empty_text))) vlans d)

-- `str(e.get("enabled", "0")) == "1"`
abbrev pub is_enabled : Entry → Bool
is_enabled e = show (field_or e "enabled" (scalar (text "0"))) == "1"

-- `s.add(x)`
abbrev pub add_slot : String → List String → List String
add_slot x s = if contains s x then s else s ++ (x ∷ [])

unfoldable pub slot_of : Dict String → String → String
unfolding Dict.get
slot_of iface_map iface = elim (Dict.get iface_map iface) [ none ↦ iface | some slot ↦ slot ]

unfoldable pub expected_slots : Dict String → List Entry → List String → List String
unfolding slot_of show field_or
expected_slots iface_map [] out = out
expected_slots iface_map (e ∷ entries) out = expected_slots iface_map entries (
    if is_enabled e
    then add_slot (slot_of iface_map (as_text (field_or e "interface" empty_text))) out
    else out)

-- `load_expected`
unfoldable pub load_expected : List (Option Entry) → List Entry → Dict String → Expected
unfolding note_aliases expected_slots
load_expected aliases entries iface_map = record {
  probes = note_aliases aliases (map (λ (v : String). (v, no_probe)) vlans);
  radvd_slots = expected_slots iface_map entries [];
  iface_map = iface_map;
}

-- `pull_live`'s dict; the totals are those of the two lease tables.
pub record Live : Type 0 where
  pub arp : List Entry
  pub ndp : List Entry
  pub states : List Entry
  pub radvd_status : Entry
  pub radvd_entries : List Entry
  pub leases4 : ℕ
  pub leases6 : ℕ

abbrev pub ip_of : Entry → String
ip_of e = as_text (field e "ip")

-- The loop of `index_arp` and `index_ndp`, which differ in the key
unfoldable pub index_by : (String → String) → List Entry → Dict Entry → Dict Entry
unfolding field Dict.put
index_by key [] out = out
index_by key (e ∷ rows) out =
    index_by key rows (if ip_of e == "" then out else Dict.put (key (ip_of e)) e out)

abbrev pub index_arp : List Entry → Dict Entry
index_arp arp = index_by (λ ip. ip) arp []

abbrev pub index_ndp : List Entry → Dict Entry
index_ndp ndp = index_by lower ndp []

unfoldable pub size : String → ℕ
size String.[] = 0
size (String.◌∷◌ c s) = suc (size s)

-- `label.count("-")`
unfoldable pub dashes : String → ℕ
dashes String.[] = 0
dashes (String.◌∷◌ c s) = if code c =ℕ 45 then suc (dashes s) else dashes s

abbrev label_of : Entry → String
label_of r = as_text (field_or r "label" empty_text)

unfoldable pub rule_uuids_in_states : List Entry → List String → List String
unfolding size dashes field_or
rule_uuids_in_states [] out = out
rule_uuids_in_states (r ∷ rows) out = rule_uuids_in_states rows (
    if (size (label_of r) =ℕ 36) && (dashes (label_of r) =ℕ 4)
    then add_slot (label_of r) out
    else out)

pub data Status : Type 0 where
  pass fail warn info : Status

pub record Line : Type 0 where
  pub label : String
  pub status : Status

-- What a part of the report prints, and what it adds to `fail`.
abbrev pub Part : Type 0
Part = List Line × ℕ

abbrev pub part : String → Status → ℕ → Part
part label status n = (record { label = label; status = status } ∷ [], n)

abbrev pub then_part : Part → Part → Part
then_part (a, m) (b, n) = (a ++ b, m + n)

unfoldable pub radvd_status_part : Entry → Part
unfolding field_or
radvd_status_part status =
    if as_text (field_or status "status" (scalar (text "?"))) == "running"
    then part "service status" pass 0
    else part "service status" fail 1

abbrev pub minus : List String → List String → List String
minus a b = keep (λ x. not (contains b x)) a

-- `radvd_slots_live`
unfoldable pub live_slots : List Entry → List String → List String
unfolding show field_or field
live_slots [] out = out
live_slots (e ∷ entries) out =
    live_slots entries (if is_enabled e then add_slot (as_text (field e "interface")) out else out)

unfoldable pub radvd_entries_part : List String → List String → Part
radvd_entries_part expected live =
    if is_empty (minus expected live) && is_empty (minus live expected)
    then part "entries match catalog" pass 0
    else then_part
        (if is_empty (minus expected live) then ([], 0) else part "entries missing on FW" fail 1)
        (if is_empty (minus live expected) then ([], 0) else part "entries extra on FW" warn 0)

abbrev pub given : Option String → String
given none = ""
given (some s) = s

-- One of the two probes of a VLAN: its label, its address, the index
unfoldable pub probe_part : String → String → Dict Entry → Part
unfolding Dict.has
probe_part label ip idx =
    if ip == ""
    then part label warn 0
    else if Dict.has idx ip
    then part (label <> (" " <> ip)) pass 0
    else part (label <> (" " <> ip)) fail 1

unfoldable pub vlan_parts : Dict Probe → Dict Entry → Dict Entry → List String → Part
unfolding probe_part lower
vlan_parts probes arp ndp [] = ([], 0)
vlan_parts probes arp ndp (v ∷ vs) =
    then_part
      (then_part (probe_part "  v4 probe" (given (probe_at probes v).v4) arp)
        (probe_part "  v6 probe" (lower (given (probe_at probes v).v6)) ndp))
      (vlan_parts probes arp ndp vs)

unfoldable pub kea_part : ℕ → ℕ → Part
kea_part n4 n6 =
    if (n4 =ℕ 0) && (n6 =ℕ 0)
    then part "Kea lease tables empty" pass 0
    else part "Kea lease tables non-empty" info 0

-- `validate`: the lines that it prints, and `fail`
unfoldable pub validate_parts : Expected → Live → Part
unfolding radvd_status_part radvd_entries_part live_slots vlan_parts index_by kea_part
validate_parts expected live = then_part (radvd_status_part live.radvd_status) (
    then_part (radvd_entries_part expected.radvd_slots (live_slots live.radvd_entries [])) (
      then_part (vlan_parts expected.probes (index_arp live.arp) (index_ndp live.ndp) vlans) (
        then_part (part "active flows in state table" info 0)
          (kea_part live.leases4 live.leases6))))

unfoldable pub validate : Expected → Live → ℕ
unfolding validate_parts
validate expected live = if (validate_parts expected live).1 =ℕ 0 then 0 else 1

-- `main_async`: `--json` prints a summary and skips the validation
unfoldable pub main_async : Bool → Expected → Live → ℕ
unfolding validate
main_async json expected live = if json then 0 else validate expected live
