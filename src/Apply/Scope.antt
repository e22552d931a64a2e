-- ===== src/Apply/Scope.antt =====
-- scripts/fw_apply_direct.py: which calls of the device a run makes.
use ansible_platform.Prelude.{
  String, ◌==◌, ◌≡◌, refl, ==_refl, ◌<>◌, Bool, true, false, ◌&&◌, ◌||◌, Bool-cases, inl, inr,
  Option, List, [], ◌∷◌, contains, all, arith, String-discrete, if◌then◌else◌,
}
use ansible_platform.Prelude.Dict.{Dict}
use ansible_platform.Prelude.Value.{Scalar, Value, Entry}
use ansible_platform.Prelude.Exec.{
  Result, ok, err, Exec, when, ◌>>=◌, Keeps, Keeps-pure, Keeps-bind, Keeps-when, Keeps-each,
  keeps_rules,
}
use ansible_platform.Apply.Api.{
  Manager, fw_alias, fw_filter, fw_source_nat, fw_dnat, ub_host_override, ub_forward, kea4_subnet,
  kea6_subnet, radvd_entry, radvd_service, Body, Firewall,
}
use ansible_platform.Apply.Section.{Row, State, call, append, apply_entry, apply_section}
use ansible_platform.Apply.Services.{
  post, post_unless, apply_kea_general, endpoint_key, reconfigure_unbound, reconfigure_kea,
  apply_service,
}
use ansible_platform.Apply.Catalog.{Kea, Catalog}
use ansible_platform.Apply.Run.{
  parse_only, want, fw_block, unbound_block, unbound_activation, kea_block, dnsmasq_part,
  dnsmasq_block, radvd_block, apply_catalog, finish, main_async, section_groups,
}

-- The section group that a manager belongs to, and whether `--only` selects it.
abbrev pub selects : List String → Manager → Bool
selects only fw_alias = want only "fw"
selects only fw_filter = want only "fw"
selects only fw_source_nat = want only "fw"
selects only fw_dnat = want only "fw"
selects only ub_host_override = want only "dns" || want only "dns-ho"
selects only ub_forward = want only "dns" || want only "dns-fw"
selects only kea4_subnet = want only "kea"
selects only kea6_subnet = want only "kea"
selects only radvd_entry = want only "radvd"
selects only radvd_service = want only "radvd"
selects only _ = want only "dnsmasq"

abbrev pub unbound_path : String
unbound_path = "unbound/service/reconfigure"

-- Whether `--only` permits a `post` to a path: Unbound's activation, or Kea's paths.
abbrev pub permits : List String → String → Bool
permits only path =
    if path == unbound_path
    then want only "dns" || want only "dns-ho" || want only "dns-fw"
    else want only "kea"

module _ (fw : Firewall) (Q : State fw → Type 0) (check : Bool) where
  abbrev pub EnsureKeeps : Manager → Type 0
  EnsureKeeps mgr = (state : Value) (payload : Entry) → Keeps Q (call fw mgr state payload check)

  abbrev pub PostKeeps : String → Type 0
  PostKeeps path = (body : Body) → Keeps Q (post fw path body)

  -- A new row keeps `Q`, and so does each call that `--only` and `--check` permit.
  pub record Permitted (only : List String) : Type 0 where
    pub rows : (row : Row) → Keeps Q (append fw row)
    pub ensures : (mgr : Manager) → selects only mgr ≡ true → EnsureKeeps mgr
    pub posts : (path : String) → check ≡ false → permits only path ≡ true → PostKeeps path

module _ (fw : Firewall) (Q : State fw → Type 0) (check : Bool)
    (append-Keeps : (row : Row) → Keeps Q (append fw row)) where
  apply_entry-Keeps :
      (mgr : Manager) (label : String) (m : Option (Dict String)) (e : Entry)
      → EnsureKeeps fw Q check mgr
      → Keeps Q (apply_entry fw mgr label check m e)
  unfolding apply_entry
  apply_entry-Keeps mgr label m e h = search (keeps_rules, append-Keeps)

  apply_section-Keeps :
      (mgr : Manager) (es : List Entry) (label : String) (m : Option (Dict String))
      → EnsureKeeps fw Q check mgr
      → Keeps Q (apply_section fw mgr es label check m)
  unfolding apply_section
  apply_section-Keeps mgr [] label m h = Keeps-pure tt
  apply_section-Keeps mgr (e ∷ es) label m h =
      Keeps-each _ (e ∷ es) (λ x. apply_entry-Keeps mgr label m x h)

  apply_service-Keeps :
      (mgr : Manager) (label : String) (name : Value) (manager : String) (state : Value)
      (payload : Entry)
      → EnsureKeeps fw Q check mgr
      → Keeps Q (apply_service fw mgr label name manager state payload check)
  unfolding apply_service
  apply_service-Keeps mgr label name manager state payload h = search (keeps_rules, append-Keeps)

  post_unless-Keeps :
      (label : String) (name : Value) (done : Scalar) (path : String) (body : Body)
      → (check ≡ false → PostKeeps fw Q check path)
      → Keeps Q (post_unless fw check label name done path body)
  unfolding post_unless
  post_unless-Keeps label name done path body h = elim (Bool-cases check) [
    | inl dry ↦ rw dry (append-Keeps _)
    | inr live ↦ rw live (Keeps-bind _ _ (h live body) (λ _. append-Keeps _))
  ]

module _ (fw : Firewall) (Q : State fw → Type 0) (check : Bool) (c : Catalog) (only : List String)
    (h : Permitted fw Q check only) where
  section-Keeps :
      (mgr : Manager) (es : List Entry) (label : String) (m : Option (Dict String))
      → selects only mgr ≡ true
      → Keeps Q (apply_section fw mgr es label check m)
  section-Keeps mgr es label m w =
      apply_section-Keeps fw Q check h.rows mgr es label m (h.ensures mgr w)

  service-Keeps :
      (mgr : Manager) (label : String) (name : Value) (manager : String) (state : Value)
      (payload : Entry)
      → selects only mgr ≡ true
      → Keeps Q (apply_service fw mgr label name manager state payload check)
  service-Keeps mgr label name manager state payload w =
      apply_service-Keeps fw Q check h.rows mgr label name manager state payload (h.ensures mgr w)

  posting-Keeps :
      (label : String) (name : Value) (done : Scalar) (path : String) (body : Body)
      → permits only path ≡ true
      → Keeps Q (post_unless fw check label name done path body)
  posting-Keeps label name done path body w =
      post_unless-Keeps fw Q check h.rows label name done path body (λ live. h.posts path live w)

  ruleset block_rules = (keeps_rules, section-Keeps, service-Keeps)

  fw_block-Keeps : want only "fw" ≡ true → Keeps Q (fw_block fw c only check)
  unfolding fw_block
  fw_block-Keeps w = search block_rules

  unbound_block-Keeps : Keeps Q (unbound_block fw c only check)
  unfolding unbound_block
  unbound_block-Keeps = search block_rules

  activation-Keeps :
      (want only "dns" || want only "dns-ho" || want only "dns-fw") ≡ true
      → Keeps Q (unbound_activation fw c only check)
  unfolding unbound_activation reconfigure_unbound
  activation-Keeps w = record {
    after = λ s.
        (Keeps-when _ _
            (λ changed. posting-Keeps _ _ _ unbound_path _ (rw (==_refl unbound_path) w))).after
          s;
  }

  kea_paths :
      (((("kea/" <> (endpoint_key "kea/dhcpv4" <> "/set")) == unbound_path) ≡ false)
        × ((("kea/" <> (endpoint_key "kea/dhcpv6" <> "/set")) == unbound_path) ≡ false))
      × (("kea/service/reconfigure" == unbound_path) ≡ false)
  unfolding String-discrete endpoint_key
  kea_paths = ((refl, refl), refl)

  kea_block-Keeps :
      (kea : Kea) (mgr : Manager) (endpoint label : String)
      → selects only mgr ≡ true
      → permits only ("kea/" <> (endpoint_key endpoint <> "/set")) ≡ true
      → Keeps Q (kea_block fw c only check kea mgr endpoint label)
  unfolding kea_block apply_kea_general
  kea_block-Keeps kea mgr endpoint label v w = search (block_rules, posting-Keeps)

  reconfigure_kea-Keeps : want only "kea" ≡ true → Keeps Q (reconfigure_kea fw check)
  unfolding reconfigure_kea
  reconfigure_kea-Keeps w = posting-Keeps _ _ _ _ _ (rw kea_paths.1 w)

  dnsmasq_block-Keeps : want only "dnsmasq" ≡ true → Keeps Q (dnsmasq_block fw c only check)
  unfolding dnsmasq_block dnsmasq_part
  dnsmasq_block-Keeps w = search block_rules depth 12

  radvd_block-Keeps : want only "radvd" ≡ true → Keeps Q (radvd_block fw c only check)
  unfolding radvd_block
  radvd_block-Keeps w = search block_rules

  and_left : (a b : Bool) → (a && b) ≡ true → a ≡ true
  and_left a b e = ground arith

  and_right : (a b : Bool) → (a && b) ≡ true → b ≡ true
  and_right a b e = ground arith

  -- A guarded block, and what follows it.
  guarded-Keeps :
      (b : Bool) (m : Exec (State fw) (Unit {0})) (k : Unit {0} → Exec (State fw) (Unit {0}))
      → (b ≡ true → Keeps Q m)
      → Keeps Q (k tt)
      → Keeps Q (when b m >>= k)
  guarded-Keeps b m k first rest = Keeps-bind _ _ (Keeps-when b m first) (λ _. rest)

  pub apply_catalog-Keeps : Keeps Q (apply_catalog fw c only check)
  unfolding apply_catalog
  apply_catalog-Keeps = guarded-Keeps _ _ _ fw_block-Keeps (
      guarded-Keeps _ _ _ (λ _. unbound_block-Keeps)
        (guarded-Keeps _ _ _ (λ w. activation-Keeps (and_right _ _ w))
          (guarded-Keeps _ _ _
            (λ w. kea_block-Keeps _ _ _ _ (and_left _ _ w) (rw kea_paths.0.0 (and_left _ _ w)))
            (guarded-Keeps _ _ _
              (λ w. kea_block-Keeps _ _ _ _ (and_left _ _ w) (rw kea_paths.0.1 (and_left _ _ w)))
              (guarded-Keeps _ _ _ (λ w. reconfigure_kea-Keeps (and_left _ _ w))
                (guarded-Keeps _ _ _ (λ w. dnsmasq_block-Keeps (and_left _ _ w))
                  (Keeps-when _ _ (λ w. radvd_block-Keeps (and_left _ _ w)))))))))

  finish-Keeps : (r : Result (Unit {0}) × State fw) → Q r.1 → Q (finish fw c only check r).1
  unfolding finish
  finish-Keeps (ok u, s) q = q
  finish-Keeps (err e, s) q = q

-- Whatever the catalog and the answers of the device, and whether the run ends or raises: what a
-- new row and every permitted call keep still holds after the run.
pub run-Keeps :
    (fw : Firewall) (Q : State fw → Type 0) (c : Catalog) (only_arg : String) (check : Bool)
    (w : Firewall.World fw)
    → Permitted fw Q check (parse_only only_arg)
    → Q (record { world = w; results = [] })
    → Q (main_async fw c only_arg check w).1
unfolding main_async
run-Keeps fw Q c only_arg check w h q =
    elim (Bool-cases (all (contains section_groups) (parse_only only_arg))) [
      | inl valid ↦ rw valid (
          finish-Keeps fw Q check c (parse_only only_arg) h _
            ((apply_catalog-Keeps fw Q check c (parse_only only_arg) h).after _ q))
      | inr invalid ↦ rw invalid q
    ]
