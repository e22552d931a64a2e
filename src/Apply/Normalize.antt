-- ===== src/Apply/Normalize.antt =====
-- scripts/fw_apply_direct.py: `strip_ref` and the translations from a catalog entry to what the
-- firewall stores. A translation raises where Python does: `in` a dict for an unhashable value,
-- `lower()` of a protocol that is no text.
pub mod Slots
pub mod Laws
use ansible_platform.Prelude.{
  String, ◌==◌, Bool, true, false, ◌&&◌, Option, none, some, List, [], ◌∷◌, map, contains,
  String-discrete, if◌then◌else◌,
}
use ansible_platform.Prelude.Text.{lower, upper, join}
use ansible_platform.Prelude.Dict
use ansible_platform.Prelude.Dict.{Dict}
use ansible_platform.Prelude.Value.{
  Scalar, null, text, Value, scalar, items, table, Entry, str, truthy, truthy_scalar, field,
  field_or,
}
use ansible_platform.Prelude.Exec.{Result, ok, err, type_error, attribute_error, then_result}

-- The `state` and `ref` that are taken off an entry.
pub record Meta : Type 0 where
  pub state : Value
  pub ref : Value

unfoldable pub strip_ref : Entry → Entry × Meta
strip_ref entry = (
  Dict.without ("ref" ∷ "state" ∷ []) entry,
  record {
    state = field_or entry "state" (scalar (text "present"));
    ref = field_or entry "ref" (table []);
  },
)

abbrev pub join_content : Value → Entry → Entry
join_content (items xs) out = Dict.put "content" (scalar (text (join "\n" (map str xs)))) out
join_content _ out = out

unfoldable pub normalize_alias : Entry → Entry
normalize_alias payload = join_content (field payload "content") payload

-- `if k in out and out[k] in iface_map: out[k] = iface_map[out[k]]`
abbrev pub translate_value : Dict String → String → Option Value → Entry → Result Entry
translate_value iface_map k none out = ok out
translate_value iface_map k (some (scalar (text name))) out = elim (Dict.get iface_map name) [
  | none ↦ ok out
  | some slot ↦ ok (Dict.put k (scalar (text slot)) out)
]
translate_value iface_map k (some (scalar _)) out = ok out
translate_value iface_map k (some _) out = err type_error

unfoldable pub translate : Dict String → String → Entry → Result Entry
translate iface_map k out = translate_value iface_map k (Dict.get out k) out

-- `v in ("any", None)`
abbrev pub is_any : Value → Bool
is_any (scalar null) = true
is_any (scalar (text p)) = p == "any"
is_any _ = false

abbrev pub known_protocols : List String
known_protocols = "tcp" ∷ "udp" ∷ "icmp" ∷ "icmpv6" ∷ "esp" ∷ "ah" ∷ "tcp/udp" ∷ []

abbrev pub stored_protocol : String → String
stored_protocol p = if lower p == "tcp/udp" then "TCP/UDP" else upper p

-- `any` with a destination port becomes `tcp/udp`.
unfoldable pub widen_protocol : Entry → Entry
widen_protocol out =
    if truthy (field out "destination_port") && is_any (field out "protocol")
    then Dict.put "protocol" (scalar (text "tcp/udp")) out
    else out

abbrev pub case_protocol : Value → Entry → Result Entry
case_protocol (scalar (text p)) out =
    if truthy_scalar (text p) && contains known_protocols (lower p)
    then ok (Dict.put "protocol" (scalar (text (stored_protocol p))) out)
    else ok out
case_protocol v out = if truthy v then err attribute_error else ok out

unfoldable pub normalize_rule : Dict String → Entry → Result Entry
unfolding translate widen_protocol
normalize_rule iface_map payload =
    then_result (translate iface_map "interface" payload)
      (λ out. let out' = widen_protocol out in case_protocol (field out' "protocol") out')

unfoldable pub normalize_snat : Dict String → Entry → Result Entry
unfolding translate
normalize_snat iface_map payload = translate iface_map "interface" payload

unfoldable pub normalize_kea_subnet : Dict String → Entry → Result Entry
unfolding translate
normalize_kea_subnet iface_map payload = translate iface_map "interface" payload

unfoldable pub normalize_radvd : Dict String → Entry → Result Entry
unfolding translate
normalize_radvd iface_map payload = then_result (translate iface_map "interface" payload) (λ out.
    if truthy (field out "Base6Interface")
    then translate iface_map "Base6Interface" out
    else ok out)
