-- ===== src/Apply/Services.antt =====
-- scripts/fw_apply_direct.py: the calls that are no `apply_section`: `apply_kea_general`,
-- `reconfigure_unbound`, `reconfigure_kea`, and the settings and service blocks of `main_async`.
use ansible_platform.Prelude.{
  String, ◌<>◌, Bool, true, false, none, some, List, [], ◌∷◌, if◌then◌else◌,
}
use ansible_platform.Prelude.Text.{last_part, join, split}
use ansible_platform.Prelude.Dict
use ansible_platform.Prelude.Dict.{Dict}
use ansible_platform.Prelude.Value.{
  Scalar, null, text, Value, scalar, items, table, Entry, truthy, field, show,
}
use ansible_platform.Prelude.Exec.{Result, ok, err, type_error, then_result, Exec, lift, ◌>>=◌}
use ansible_platform.Apply.Api.{Manager, Reply, returned, Body, empty, general, Firewall}
use ansible_platform.Apply.Section.{Outcome, fine, error, Row, State, call, append}

-- The rows that the script builds itself.
abbrev pub raw_row : String → Value → Outcome → Scalar → Row
raw_row label name outcome action = record {
  section = label;
  name = name;
  outcome = outcome;
  action = action;
  uuid = null;
  changed = null;
  adr_ref = text "infra/0004";
  lib_manager = text "raw_post";
  ansible_module = null;
}

-- The outcome and action of a `post` that succeeds with `done`.
abbrev pub post_row : String → Value → Scalar → Bool → Row
post_row label name done true = raw_row label name fine done
post_row label name done false = raw_row label name error null

-- `[iface_map.get(f, f) for f in names]`, then a `join` that takes texts only
abbrev pub slots : Dict String → List Scalar → Result (List String)
slots iface_map [] = ok []
slots iface_map (text f ∷ fs) =
    then_result (slots iface_map fs)
      (λ rest. ok (elim (Dict.get iface_map f) [ none ↦ f ∷ rest | some slot ↦ slot ∷ rest ]))
slots iface_map (_ ∷ fs) = err type_error

abbrev chars : String → List Scalar
chars String.[] = []
chars (String.◌∷◌ c s) = text (String.◌∷◌ c "") ∷ chars s

abbrev key_scalars : Dict Scalar → List Scalar
key_scalars [] = []
key_scalars ((k, _) ∷ d) = text k ∷ key_scalars d

-- What `for f in (general.get("interfaces", []) or [])` runs through.
unfoldable pub friendly_names : Value → Result (List Scalar)
unfolding truthy
friendly_names (scalar (text s)) = ok (chars s)
friendly_names (scalar s) = if truthy (scalar s) then err type_error else ok []
friendly_names (items xs) = ok xs
friendly_names (table d) = ok (key_scalars d)

unfoldable pub payload_general : Dict String → Entry → Result Entry
unfolding friendly_names field join
payload_general iface_map settings =
    then_result (friendly_names (field settings "interfaces")) (λ names.
      then_result (slots iface_map names) (λ ids. ok (
        Dict.put "interfaces" (scalar (text (join "," ids)))
          (Dict.without ("interfaces" ∷ []) settings))))

-- `endpoint.split("/")[-1]`
unfoldable pub endpoint_key : String → String
unfolding split
endpoint_key endpoint = last_part (split "/" endpoint)

unfoldable pub general_name : String → Entry → String
unfolding field show
general_name label payload =
    label
    <> (" general (enabled="
        <> (show (field payload "enabled")
            <> (", iface=" <> (show (field payload "interfaces") <> ")"))))

abbrev pub service_row_failed : String → Value → String → Row
service_row_failed label name manager = record (raw_row label name error null) {
  lib_manager = text manager;
}

-- The rows of the settings and service blocks. `res.action` of a dict raises inside the `try`.
abbrev pub service_row : String → Value → String → Reply → Row
service_row label name manager (returned r) =
    if r.is_dict then service_row_failed label name manager else record {
      section = label;
      name = name;
      outcome = fine;
      action = r.action;
      uuid = null;
      changed = r.changed;
      adr_ref = text "infra/0004";
      lib_manager = text manager;
      ansible_module = null;
    }
service_row label name manager failed = service_row_failed label name manager

module _ (fw : Firewall) where
  -- `await client.post(...)` inside its `try`: `true` if it returns
  unfoldable pub post : String → Body → Exec (State fw) Bool
  post path body s =
      let (done, w) = fw.post path body s.world in
      (ok done, record { world = w; results = s.results })

  -- A `post` that a dry run leaves out.
  unfoldable pub post_unless :
      Bool → String → Value → Scalar → String → Body → Exec (State fw) (Unit {0})
  post_unless check label name done path body =
      if check
      then append fw (raw_row label name fine (text "noop"))
      else (do sent ← post path body; append fw (post_row label name done sent))

  unfoldable pub apply_kea_general :
      String → Entry → Dict String → String → Bool → Exec (State fw) (Unit {0})
  apply_kea_general endpoint settings iface_map label check = do
    payload ← lift (payload_general iface_map settings)
    let key = endpoint_key endpoint
    post_unless check label (scalar (text (general_name label payload))) (text "configured")
        ("kea/" <> (key <> "/set")) (general key payload)

  unfoldable pub reconfigure_unbound : Bool → Exec (State fw) (Unit {0})
  reconfigure_unbound check =
      post_unless check "DNS" (scalar (text "reconfigure")) (text "reconfigured")
        "unbound/service/reconfigure" empty

  unfoldable pub reconfigure_kea : Bool → Exec (State fw) (Unit {0})
  reconfigure_kea check =
      post_unless check "KEA" (scalar (text "reconfigure")) (text "reconfigured")
        "kea/service/reconfigure" empty

  unfoldable pub apply_service :
      Manager → String → Value → String → Value → Entry → Bool → Exec (State fw) (Unit {0})
  apply_service mgr label name manager state payload check = do
    reply ← call fw mgr state payload check
    append fw (service_row label name manager reply)
