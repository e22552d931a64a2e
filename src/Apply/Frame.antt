-- ===== src/Apply/Frame.antt =====
-- scripts/fw_apply_direct.py: the device after a run.
use ansible_platform.Prelude.{
  String, ◌≡◌, refl, ◌∙◌, Bool, true, false, List, String-discrete, subst, sym, arith,
}
use ansible_platform.Prelude.Value.{Value, Entry}
use ansible_platform.Apply.Api.{Manager, ub_host_override, Body, Firewall}
use ansible_platform.Apply.Section.{call, append}
use ansible_platform.Apply.Services.{post}
use ansible_platform.Apply.Catalog.{Catalog}
use ansible_platform.Apply.Run.{parse_only, want, main_async}
use ansible_platform.Apply.Scope.{selects, permits, unbound_path, Permitted, run-Keeps}

module _ (fw : Firewall) (P : Firewall.World fw → Type 0) (check : Bool) where
  -- The manager's `ensure`, in this mode, keeps the property of the device.
  abbrev pub SafeEnsure : Manager → Type 0
  SafeEnsure mgr =
      (state : Value) (payload : Entry) (w : Firewall.World fw)
      → P w
      → P (fw.ensure mgr state payload check w).1

  abbrev pub SafePost : String → Type 0
  SafePost path = (body : Body) (w : Firewall.World fw) → P w → P (fw.post path body w).1

  world-Permitted :
      (only : List String)
      → ((mgr : Manager) → selects only mgr ≡ true → SafeEnsure mgr)
      → ((path : String) → check ≡ false → permits only path ≡ true → SafePost path)
      → Permitted fw (λ s. P s.world) check only
  unfolding call append post
  world-Permitted only e p = record {
    rows = λ row. record { after = λ s h. h };
    ensures = λ mgr w state payload. record { after = λ s h. e mgr w state payload s.world h };
    posts = λ path live w body. record { after = λ s h. p path live w body s.world h };
  }

  -- Whatever the catalog, the answers of the device, and whether the run ends or raises: a property
  -- of the device that every call keeps which `--only` and `--check` permit holds after the run.
  -- `selects` and `permits` say which calls those are.
  pub main_async-Keeps :
      (c : Catalog) (only_arg : String) (w : Firewall.World fw)
      → ((mgr : Manager) → selects (parse_only only_arg) mgr ≡ true → SafeEnsure mgr)
      → ((path : String)
          → check ≡ false
          → permits (parse_only only_arg) path ≡ true
          → SafePost path)
      → P w
      → P (main_async fw c only_arg check w).1.world
  main_async-Keeps c only_arg w e p h =
      run-Keeps fw (λ s. P s.world) c only_arg check w (world-Permitted (parse_only only_arg) e p) h

-- If no manager changes the device under `check_mode`, a `--check` run leaves the device as it
-- found it, whatever the catalog, the sections and the answers.
pub main_async_dry :
    (fw : Firewall) (c : Catalog) (only_arg : String) (w : Firewall.World fw)
    → ((mgr : Manager) (state : Value) (payload : Entry) (v : Firewall.World fw)
        → (fw.ensure mgr state payload true v).1 ≡ v)
    → (main_async fw c only_arg true w).1.world ≡ w
main_async_dry fw c only_arg w dry =
    main_async-Keeps fw (λ v. v ≡ w) true c only_arg w
      (λ mgr _ state payload v e. dry mgr state payload v ∙ e) (λ path live. absurd (cc)) refl

dns_ho_managers :
    (mgr : Manager) → selects (parse_only "dns-ho") mgr ≡ true → mgr ≡ ub_host_override
unfolding parse_only want String-discrete
dns_ho_managers ub_host_override h = refl
dns_ho_managers _ h = cc

dns_ho_wants_no_kea : want (parse_only "dns-ho") "kea" ≡ false
unfolding parse_only want String-discrete
dns_ho_wants_no_kea = refl

dns_ho_paths : (path : String) → permits (parse_only "dns-ho") path ≡ true → path ≡ unbound_path
dns_ho_paths path h = ground (arith, dns_ho_wants_no_kea)

-- `--only dns-ho` applies the host overrides and may activate Unbound, and does nothing else: a
-- property of the device that these calls keep, such as the forwarders that it holds, is kept
-- whatever the other managers would do.
pub main_async_dns_ho :
    (fw : Firewall) (P : Firewall.World fw → Type 0) (c : Catalog) (check : Bool)
    (w : Firewall.World fw)
    → SafeEnsure fw P check ub_host_override
    → SafePost fw P check unbound_path
    → P w
    → P (main_async fw c "dns-ho" check w).1.world
main_async_dns_ho fw P c check w e p h =
    main_async-Keeps fw P check c "dns-ho" w
      (λ mgr s. subst (SafeEnsure fw P check) (sym (dns_ho_managers mgr s)) e)
      (λ path _ s. subst (SafePost fw P check) (sym (dns_ho_paths path s)) p) h
