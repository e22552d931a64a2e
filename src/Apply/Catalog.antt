-- ===== src/Apply/Catalog.antt =====
-- The catalog inventories/<env>/group_vars/opnsense.yml as scripts/fw_apply_direct.py reads it. A
-- key that the file lacks has the default of the script's `get`: an empty list or dict, or `None`.
use ansible_platform.Prelude.{String, List, [], ◌∷◌}
use ansible_platform.Prelude.Dict
use ansible_platform.Prelude.Dict.{Dict}
use ansible_platform.Prelude.Value.{text, Value, scalar, Entry, field_or}

pub record Unbound : Type 0 where
  pub enabled : Value
  pub host_overrides : List Entry
  pub forwarders : List Entry

pub record Kea : Type 0 where
  pub enabled : Value
  pub settings : Entry
  pub subnets : List Entry

pub record Dnsmasq : Type 0 where
  pub enabled : Value
  pub settings : Entry
  pub tags : List Entry
  pub hosts : List Entry
  pub ranges : List Entry
  pub domains : List Entry
  pub boots : List Entry
  pub options : List Entry
  pub service_state : Value

pub record Radvd : Type 0 where
  pub enabled : Value
  pub entries : List Entry
  pub service_state : Value

pub record Catalog : Type 0 where
  pub aliases : List Entry
  pub filter_rules : List Entry
  pub snat_rules : List Entry
  pub dnat_rules : List Entry
  pub interface_map : Dict String
  pub unbound : Unbound
  pub kea_dhcp4 : Kea
  pub kea_dhcp6 : Kea
  pub dnsmasq : Dnsmasq
  pub radvd : Radvd

abbrev pub present : Value
present = scalar (text "present")

-- `{**{k: v for k, v in h.items() if k != "ref"}, "state": h.get("state", "present")}`
unfoldable pub dns_entry : Entry → Entry
unfolding field_or Dict.put Dict.without
dns_entry h = Dict.put "state" (field_or h "state" present) (Dict.without ("ref" ∷ []) h)

-- `{"state": "present", **s}`
unfoldable pub kea_entry : Entry → Entry
unfolding Dict.merge
kea_entry s = Dict.merge (("state", present) ∷ []) s

-- `{"state": e.get("state", "present"), **{k: v for k, v in e.items() if k not in ("state", "ref")}}`
unfoldable pub service_entry : Entry → Entry
unfolding field_or Dict.merge Dict.without
service_entry e =
    Dict.merge (("state", field_or e "state" present) ∷ []) (Dict.without ("state" ∷ "ref" ∷ []) e)
