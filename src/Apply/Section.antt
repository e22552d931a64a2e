-- ===== src/Apply/Section.antt =====
-- scripts/fw_apply_direct.py: `apply_section`. Durations and log lines are not modelled.
use ansible_platform.Prelude.{
  String, ◌==◌, Bool, ◌||◌, Option, none, some, List, [], ◌∷◌, ◌++◌, if◌then◌else◌,
}
use ansible_platform.Prelude.Dict
use ansible_platform.Prelude.Dict.{Dict}
use ansible_platform.Prelude.Value.{
  Scalar, null, text, Value, scalar, table, Entry, truthy_scalar, field, or_else,
}
use ansible_platform.Prelude.Exec.{Result, ok, err, attribute_error, Exec, pure, lift, each, ◌>>=◌}
use ansible_platform.Apply.Api.{Manager, Reply, returned, Firewall}
use ansible_platform.Apply.Normalize.{
  Meta, strip_ref, normalize_alias, normalize_rule, normalize_snat, normalize_kea_subnet,
  normalize_radvd,
}

pub data Outcome : Type 0 where
  fine error : Outcome

-- One dict of the `results` list.
pub record Row : Type 0 where
  pub section : String
  pub name : Value
  pub outcome : Outcome
  pub action : Scalar
  pub uuid : Scalar
  pub changed : Scalar
  pub adr_ref : Scalar
  pub lib_manager : Scalar
  pub ansible_module : Scalar

-- The translation that a label asks for.
unfoldable pub normalize : String → Option (Dict String) → Entry → Result Entry
unfolding normalize_alias normalize_rule normalize_snat normalize_kea_subnet normalize_radvd
normalize label none payload = if label == "ALIAS" then ok (normalize_alias payload) else ok payload
normalize label (some iface_map) payload =
    if label == "ALIAS"
    then ok (normalize_alias payload)
    else if label == "RULE"
    then normalize_rule iface_map payload
    else if label == "SNAT"
    then normalize_snat iface_map payload
    else if (label == "KEA4") || (label == "KEA6")
    then normalize_kea_subnet iface_map payload
    else if label == "RADVD"
    then normalize_radvd iface_map payload
    else ok payload

-- `payload.get("name") or payload.get("description") or "<unnamed>"`
unfoldable pub ident : Entry → Value
unfolding field or_else
ident payload =
    or_else (field payload "name")
      (or_else (field payload "description") (scalar (text "<unnamed>")))

abbrev pub or_scalar : Scalar → Scalar → Scalar
or_scalar v w = if truthy_scalar v then v else w

abbrev pub scalar_at : Dict Scalar → String → Scalar
scalar_at d k = elim (Dict.get d k) [ none ↦ null | some s ↦ s ]

-- The row of an entry, from the manager's answer and the entry's `ref`.
unfoldable pub row_of : String → Value → Reply → Dict Scalar → Row
unfolding Dict.get truthy_scalar
row_of label name (returned r) ref = record {
  section = label;
  name = name;
  outcome = fine;
  action = if r.is_dict then r.action else or_scalar r.action (text "?");
  uuid = if r.is_dict then r.uuid else or_scalar r.uuid null;
  changed = r.changed;
  adr_ref = scalar_at ref "adr";
  lib_manager = scalar_at ref "lib_manager";
  ansible_module = scalar_at ref "ansible_module";
}
row_of label name failed ref = record {
  section = label;
  name = name;
  outcome = error;
  action = null;
  uuid = null;
  changed = null;
  adr_ref = scalar_at ref "adr";
  lib_manager = scalar_at ref "lib_manager";
  ansible_module = scalar_at ref "ansible_module";
}

-- `meta["ref"].get`: only a dict has it.
unfoldable pub ref_of : Value → Result (Dict Scalar)
ref_of (table d) = ok d
ref_of _ = err attribute_error

-- The device, and the report that grows.
pub record State (fw : Firewall) : Type 0 where
  pub world : Firewall.World fw
  pub results : List Row

module _ (fw : Firewall) where
  -- `await mgr.ensure(...)` inside its `try`
  unfoldable pub call : Manager → Value → Entry → Bool → Exec (State fw) Reply
  call mgr state payload check s =
      let (reply, w) = fw.ensure mgr state payload check s.world in
      (ok reply, record { world = w; results = s.results })

  unfoldable pub append : Row → Exec (State fw) (Unit {0})
  append row s = (ok tt, record { world = s.world; results = s.results ++ row ∷ [] })

  -- The body of the loop.
  unfoldable pub apply_entry :
      Manager → String → Bool → Option (Dict String) → Entry → Exec (State fw) (Unit {0})
  apply_entry mgr label check iface_map entry = do
    let stripped = strip_ref entry
    payload ← lift (normalize label iface_map stripped.0)
    reply ← call mgr (Meta.state stripped.1) payload check
    ref ← lift (ref_of (Meta.ref stripped.1))
    append (row_of label (ident payload) reply ref)

  unfoldable pub apply_section :
      Manager → List Entry → String → Bool → Option (Dict String) → Exec (State fw) (Unit {0})
  apply_section mgr [] label check iface_map = pure tt
  apply_section mgr (e ∷ es) label check iface_map =
      each (apply_entry mgr label check iface_map) (e ∷ es)
