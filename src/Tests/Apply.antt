-- ===== src/Tests/Apply.antt =====
-- Runs of scripts/fw_apply_direct.py over a small catalog and a device that counts the writes of its
-- forwarders.
use ansible_platform.Prelude.{
  ℕ, ◌+◌, String, ◌≡◌, refl, sym, subst, ◌∙◌, Bool, true, false, not, ◌&&◌, ◌||◌, ◌⊎◌, inl, inr,
  none, some, [], ◌∷◌, arith, String-discrete, if◌then◌else◌,
}
use ansible_platform.Prelude.Dict
use ansible_platform.Prelude.Dict.{Dict}
use ansible_platform.Prelude.Value.{
  null, flag, text, Scalar, Value, scalar, table, Entry, field, field_or, truthy,
}
use ansible_platform.Prelude.Text.{lower, upper, split, strip, strip_left, strip_right}
use ansible_platform.Prelude.Exec.{ok, pure, lift, when, each, ◌>>=◌}
use ansible_platform.Apply.Normalize.{strip_ref, translate, normalize_rule, widen_protocol}
use ansible_platform.Apply.Normalize.Slots.{SlotsAreFinal}
use ansible_platform.Apply.Normalize.Laws.{IsWide, normalize_rule-IsWide, normalize_rule_idem}
use ansible_platform.Apply.Api.{
  Manager, ub_forward, fw_filter, Reply, returned, opnsense_error, Firewall,
}
use ansible_platform.Apply.Section.{
  error, State, normalize, ref_of, call, append, apply_entry, apply_section,
}
use ansible_platform.Apply.Catalog.{Kea, Catalog}
use ansible_platform.Apply.Run.{
  parse_only, want, fw_block, unbound_block, apply_catalog, finish, main_async,
}
use ansible_platform.Apply.Frame.{main_async-Keeps, main_async_dry, main_async_dns_ho}
use ansible_platform.Apply.Report.{Extends, apply_catalog-Extends}
use ansible_platform.Apply.Rows.{IsFailure, Adds, apply_section-Adds}
use ansible_platform.Apply.Alarm.{HasRaised, OnlyFailures, failure_is_reported}

abbrev writes_forward : Manager → Bool
writes_forward ub_forward = true
writes_forward _ = false

abbrev refuses : Manager → Bool
refuses fw_filter = true
refuses _ = false

abbrev accepted : Reply
accepted =
    returned (record { is_dict = false; action = text "create"; uuid = null; changed = flag true })

-- It counts what its forwarders are told, and refuses every filter rule.
abbrev device : Firewall
device = record {
  World = ℕ;
  ensure = λ mgr state payload check w. (
    (if refuses mgr then opnsense_error else accepted),
    (if writes_forward mgr && not check then w + 1 else w),
  );
  post = λ path body w. (true, w);
}

abbrev off : Value
off = scalar null

abbrev on : Value
on = scalar (flag true)

abbrev rule : Entry
rule =
    ("description", scalar (text "web"))
    ∷ ("interface", scalar (text "dmz"))
    ∷ ("protocol", scalar (text "any"))
    ∷ ("destination_port", scalar (text "443"))
    ∷ ("ref", table (("adr", text "infra/0004") ∷ []))
    ∷ []

abbrev stored_rule : Entry
stored_rule =
    ("description", scalar (text "web"))
    ∷ ("interface", scalar (text "opt3"))
    ∷ ("protocol", scalar (text "TCP/UDP"))
    ∷ ("destination_port", scalar (text "443"))
    ∷ []

abbrev slots_map : Dict String
slots_map = ("mgmt", "opt2") ∷ ("dmz", "opt3") ∷ []

abbrev forwarder : Entry
forwarder = ("domain", scalar (text "")) ∷ ("server", scalar (text "127.0.0.1")) ∷ []

abbrev no_kea : Kea
no_kea = record { enabled = off; settings = []; subnets = [] }

abbrev catalog : Catalog
catalog = record {
  aliases = [];
  filter_rules = rule ∷ [];
  snat_rules = [];
  dnat_rules = [];
  interface_map = slots_map;
  unbound = record { enabled = on; host_overrides = []; forwarders = forwarder ∷ [] };
  kea_dhcp4 = no_kea;
  kea_dhcp6 = no_kea;
  dnsmasq = record {
    enabled = off;
    settings = [];
    tags = [];
    hosts = [];
    ranges = [];
    domains = [];
    boots = [];
    options = [];
    service_state = off;
  };
  radvd = record { enabled = off; entries = []; service_state = off };
}

dry_device :
    (mgr : Manager) (state : Value) (payload : Entry) (v : ℕ)
    → (Firewall.ensure device mgr state payload true v).1 ≡ v
dry_device mgr state payload v = ground arith

main_async_dry_example : (main_async device catalog "" true 5).1.world ≡ 5
main_async_dry_example = main_async_dry device catalog "" 5 dry_device

main_async_dns_ho_example : (main_async device catalog "dns-ho" false 0).1.world ≡ 0
main_async_dns_ho_example =
    main_async_dns_ho device (λ w. w ≡ 0) catalog false 0 (λ state payload w h. h) (λ body w h. h)
      refl

main_async-Keeps_example : (main_async device catalog "" true 7).1.world ≡ 7
main_async-Keeps_example =
    main_async-Keeps device (λ w. w ≡ 7) true catalog "" 7
      (λ mgr s state payload w h. dry_device mgr state payload w ∙ h) (λ path live p body w h. h)
      refl

abbrev fresh : State device
fresh = record { world = 0; results = [] }

apply_section-Adds_example :
    Adds device fw_filter "RULE" false
      (some slots_map)
      (rule ∷ [])
      fresh
      (apply_section device fw_filter (rule ∷ []) "RULE" false (some slots_map) fresh)
unfolding normalize strip_ref ref_of Dict.without String-discrete field_or Dict.get Dict.put field
    truthy lower upper translate widen_protocol
apply_section-Adds_example =
    apply_section-Adds device fw_filter (rule ∷ []) "RULE" false (some slots_map) fresh
      (((stored_rule, refl), (("adr", text "infra/0004") ∷ [], refl)), tt)

abbrev rule_ref : Dict Scalar
rule_ref = ("adr", text "infra/0004") ∷ []

abbrev failed : State device
failed = record {
  world = 0;
  results =
      record {
        section = "RULE";
        name = scalar (text "web");
        outcome = error;
        action = null;
        uuid = null;
        changed = null;
        adr_ref = null;
        lib_manager = null;
        ansible_module = null;
      }
      ∷ [];
}

-- It refuses every filter rule and remembers that it has refused something.
abbrev remembering : Firewall
remembering = record {
  World = Bool;
  ensure = λ mgr state payload check w.
      ((if refuses mgr then opnsense_error else accepted), w || refuses mgr);
  post = λ path body w. (true, w);
}

remembers :
    (mgr : Manager) (w : Bool)
    → (w || refuses mgr) ≡ true
    → (w ≡ true) ⊎ IsFailure (if refuses mgr then opnsense_error else accepted)
remembers mgr true h = inl refl
remembers fw_filter false h = inr (inl refl)
remembers mgr false h = ground arith

remembering-OnlyFailures : OnlyFailures remembering (λ w. w ≡ true)
remembering-OnlyFailures = record {
  ensured = λ mgr state payload check w h. remembers mgr w h;
  posted = λ path body w h. inl h;
}

remembering_refuses : (main_async remembering catalog "fw" false false).1.world ≡ true
unfolding main_async parse_only split strip strip_left strip_right apply_catalog fw_block
    unbound_block finish want apply_section each apply_entry call append lift when pure ◌>>=◌
    normalize strip_ref ref_of Dict.without String-discrete field_or Dict.get Dict.put field truthy
    lower upper translate widen_protocol
remembering_refuses = refl

failure_is_reported_example :
    ((main_async remembering catalog "fw" false false).0 ≡ ok 1)
    ⊎ HasRaised (main_async remembering catalog "fw" false false).0
failure_is_reported_example =
    failure_is_reported remembering (λ w. w ≡ true) catalog "fw" false false
      remembering-OnlyFailures (λ h. cc) remembering_refuses

apply_catalog-Extends_example :
    Extends failed.results (apply_catalog device catalog [] false failed).1.results
apply_catalog-Extends_example = apply_catalog-Extends device catalog [] false failed

slot_cases :
    (name slot : String) → Dict.get slots_map name ≡ some slot → (slot ≡ "opt2") ⊎ (slot ≡ "opt3")
unfolding Dict.get
slot_cases name slot h = ground arith

final_slots : SlotsAreFinal slots_map
unfolding Dict.get String-discrete
final_slots name slot h = elim (slot_cases name slot h) [
  | inl e ↦ subst (λ s. Dict.get slots_map s ≡ none) (sym e) refl
  | inr e ↦ subst (λ s. Dict.get slots_map s ≡ none) (sym e) refl
]

normalize_rule_runs : normalize_rule slots_map (strip_ref rule).0 ≡ ok stored_rule
unfolding normalize_rule strip_ref Dict.without String-discrete field_or Dict.get Dict.put field
    truthy lower upper
normalize_rule_runs = refl

normalize_rule-IsWide_example : IsWide stored_rule
normalize_rule-IsWide_example =
    normalize_rule-IsWide slots_map (strip_ref rule).0 stored_rule normalize_rule_runs

normalize_rule_idem_example : normalize_rule slots_map stored_rule ≡ ok stored_rule
normalize_rule_idem_example =
    normalize_rule_idem slots_map (strip_ref rule).0 stored_rule final_slots normalize_rule_runs
