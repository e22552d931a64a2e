-- ===== src/JumpServer/Steps.antt =====
-- roles/jumpserver/_archive/reconcile.py: the other steps, and the whole script. The probe at its end,
-- which only prints, is not modelled.
use ansible_platform.Prelude.{
  ℕ, suc, ◌=ℕ◌, ◌<>◌, String, ◌==◌, Bool, true, false, not, ◌&&◌, ◌||◌, Option, none, some, List,
  [], ◌∷◌, length, is_empty, if◌then◌else◌,
}
use ansible_platform.Prelude.Text.{join, occurs}
use ansible_platform.Prelude.Value.{Scalar, text, num, flag, str, decimal}
use ansible_platform.Prelude.Dict
use ansible_platform.Prelude.Dict.{Dict}
use ansible_platform.Prelude.Exec.{Raised, Result, ok, err, pure, when, each, ◌>>=◌, ◌>>◌}
use ansible_platform.JumpServer.{
  User, Group, Node, find_local_user, check_password, reset_password, get_or_create_user,
  save_source, bind_system_admin, get_or_create_group, has_member, add_member, org_root,
  get_or_create_permission, grant_group, grant_node, revoke_node, grant_all_assets, members,
  expire_trees, refresh_tree, all_nodes, count_assets, save_amount, get_or_create_storage,
  save_meta, clear_other_defaults, save_default, update_setting, email_settings, refresh_setting,
  Server, Builtin, Person, S3, Email, Config, Run, or_else, Script, ask, globals, append,
}
use ansible_platform.JumpServer.Assets.{ensure_assets}

-- `str(b)`
abbrev pub shown : Bool → String
shown true = "True"
shown false = "False"

-- `", ".join(f"{k}={v}" for k, v in ...)`
unfoldable pub settings_shown : Dict Scalar → List String
unfolding str
settings_shown [] = []
settings_shown ((k, v) ∷ d) = (k <> ("=" <> str v)) ∷ settings_shown d

-- `meta` of the replay storage
abbrev pub meta_of : S3 → Dict String
meta_of s =
    ("BUCKET", s.bucket)
    ∷ ("ACCESS_KEY", s.access_key)
    ∷ ("SECRET_KEY", s.secret_key)
    ∷ ("ENDPOINT", s.endpoint)
    ∷ ("REGION", or_else s.region "us-east-1")
    ∷ []

abbrev pub is_value : Option String → String → Bool
is_value none v = false
is_value (some w) v = w == v

-- The entries of the first dict are in the second.
unfoldable pub within : Dict String → Dict String → Bool
unfolding Dict.get
within [] e = true
within ((k, v) ∷ d) e = is_value (Dict.get e k) v && within d e

-- `email_vals`
abbrev pub email_vals : Email → Dict Scalar
email_vals e =
    ("EMAIL_HOST", text e.smtp_host)
    ∷ ("EMAIL_PORT", num e.smtp_port)
    ∷ ("EMAIL_HOST_USER", text e.smtp_user)
    ∷ ("EMAIL_HOST_PASSWORD", text e.smtp_password)
    ∷ ("EMAIL_FROM", text ("JumpServer <" <> (e.smtp_user <> ">")))
    ∷ ("EMAIL_USE_TLS", flag true)
    ∷ ("EMAIL_USE_SSL", flag false)
    ∷ ("EMAIL_PROTOCOL", text "smtp")
    ∷ ("EMAIL_SUBJECT_PREFIX", text "[JumpServer] ")
    ∷ []

module _ (j : Server) where
  abbrev pub handled :
      {A : Type 0}
      → (Raised → Script j A)
      → Result A × Run (Server.World j)
      → Result A × Run (Server.World j)
  handled handle (ok a, s) = (ok a, s)
  handled handle (err e, s) = handle e s

  -- `try: m` with `except Exception as e: handle(e)`
  unfoldable pub attempt : {A : Type 0} → Script j A → (Raised → Script j A) → Script j A
  attempt m handle s = handled handle (m s)

  -- (0)
  abbrev pub password_set : Builtin → Option User → Script j (Unit {0})
  password_set builtin none = append j ("builtin_admin=" <> (builtin.username <> " absent"))
  password_set builtin (some b) = do
    same ← ask j (check_password b.pk builtin.password)
    if same then append j ("builtin_admin=" <> (b.username <> " password updated=False")) else (do
      ask j (reset_password b.pk builtin.password)
      append j ("builtin_admin=" <> (b.username <> " password updated=True")))

  abbrev pub builtin_step : Option Builtin → Script j (Unit {0})
  builtin_step none = pure tt
  builtin_step (some builtin) =
      when (not (builtin.password == ""))
        (do b ← ask j (find_local_user builtin.username); password_set builtin b)

  -- (1): the administrator, and the group that it is in
  unfoldable pub admin_step : Person → Script j User
  admin_step admin = do
    found ← ask j (get_or_create_user admin.username admin.name admin.email)
    when (not (found.0.source == "openid")) (ask j (save_source found.0.pk))
    bound ← ask j (bind_system_admin found.0.pk)
    append j (
        "admin="
        <> (found.0.username
            <> (" created="
                <> (shown found.1 <> (" system_admin=" <> shown (not bound || bound))))))
    pure found.0

  unfoldable pub group_step : String → User → Script j Group
  group_step name u = do
    found ← ask j (get_or_create_group name)
    is_in ← ask j (has_member found.0.pk u.pk)
    when (not is_in) (ask j (add_member found.0.pk u.pk))
    append j (
        "group="
        <> (found.0.name <> (" created=" <> (shown found.1 <> (" member=" <> u.username)))))
    pure found.0

  -- The line after the asset loop
  unfoldable pub assets_line : ℕ → Script j (Unit {0})
  assets_line total = do
    s ← globals j
    append j (
        "assets: +"
        <> (decimal s.n_hosts
            <> (" new hosts, +"
                <> (decimal s.n_accounts
                    <> (" new accounts, "
                        <> (decimal s.n_ports
                            <> (" port fixes, -"
                                <> (decimal s.n_stale
                                    <> (" stale accounts, "
                                        <> (decimal s.n_rekeyed
                                            <> (" re-keyed (of "
                                                <> (decimal total <> ")"))))))))))))

  -- The rebuilding of the trees of a group's members, with the text for the summary
  unfoldable pub rebuild : Group → Script j String
  rebuild grp = do
    ids ← ask j (members grp.pk)
    ask j (expire_trees ids)
    each (λ u. ask j (refresh_tree u)) ids
    pure ("rebuilt for " <> (decimal (length ids) <> " user(s)"))

  -- (4)
  unfoldable pub grant_step : String → Group → Node → Script j (Unit {0})
  unfolding attempt rebuild
  grant_step name grp root = do
    found ← ask j (get_or_create_permission name)
    ask j (grant_group found.0.pk grp.pk)
    s ← globals j
    each (λ (n : Node). ask j (grant_node found.0.pk n.pk)) (Dict.values s.node_cache)
    ask j (revoke_node found.0.pk root.pk)
    attempt (ask j (grant_all_assets found.0.pk))
        (λ e. append j ("WARN direct-asset grant failed: " <> j.name_of e))
    pt ← attempt (rebuild grp) (λ e. pure ("tree-rebuild skipped (" <> (j.name_of e <> ")")))
    append j (
        "permission="
        <> (found.0.name
            <> (" created="
                <> (shown found.1
                    <> (" -> group " <> (grp.name <> (", all nodes; perm-tree " <> pt)))))))

  -- The nodes whose count was not the one that is stored
  unfoldable pub fix_counts : List Node → Script j ℕ
  fix_counts [] = pure 0
  fix_counts (n ∷ nodes) = do
    cnt ← ask j (count_assets n.pk)
    when (not (n.assets_amount =ℕ cnt)) (ask j (save_amount n.pk cnt))
    rest ← fix_counts nodes
    pure (if n.assets_amount =ℕ cnt then rest else suc rest)

  -- (4b)
  unfoldable pub counts_step : Script j (Unit {0})
  unfolding attempt fix_counts
  counts_step =
      attempt
        (do
          nodes ← ask j all_nodes
          fixed ← fix_counts nodes
          append j ("node-count refresh: " <> (decimal fixed <> " badge(s) corrected")))
        (λ e. append j ("node-count refresh skipped (" <> (j.name_of e <> ")")))

  -- (5)
  abbrev pub storage_step : Option S3 → String → Script j (Unit {0})
  storage_step none name = pure tt
  storage_step (some s3) name = do
    found ← ask j (get_or_create_storage name (meta_of s3))
    when (not found.1 && not (within found.0.meta (meta_of s3) && within (meta_of s3) found.0.meta))
        (do ask j (save_meta found.0.pk (meta_of s3)); append j "replay_storage_meta updated=True")
    ask j (clear_other_defaults found.0.pk)
    when (not found.0.is_default) (ask j (save_default found.0.pk))
    append j (
        "replay_storage="
        <> (found.0.name <> (" type=s3 created=" <> (shown found.1 <> " default=True"))))

  -- `Setting.objects.update_or_create`, for each entry; the value is stored as JSON.
  unfoldable pub update_settings : String → Dict Scalar → Script j (Unit {0})
  update_settings category d =
      each (λ (e : String × Scalar). ask j (update_setting e.0 e.1 category)) d

  -- (6)
  unfoldable pub settings_step : Dict Scalar → Script j (Unit {0})
  unfolding update_settings settings_shown join
  settings_step d = do
    update_settings "terminal" d
    when (not (is_empty d)) (append j ("settings: " <> join ", " (settings_shown d)))

  -- (7)
  abbrev pub email_step : Option Email → Script j (Unit {0})
  email_step none = pure tt
  email_step (some e) = when (not (e.smtp_host == "")) (do
    update_settings "email" (email_vals e)
    rows ← ask j email_settings
    each (λ r. attempt (ask j (refresh_setting r)) (λ _. pure tt)) rows
    append j (
        "email: SMTP -> "
        <> (e.smtp_host <> (":" <> (decimal e.smtp_port <> (" as " <> e.smtp_user))))))

  -- `_changed`
  unfoldable pub changed : Run (Server.World j) → Bool
  unfolding join occurs
  changed s =
      occurs "created=True" (join "\n" s.summary)
      || (occurs "updated=True" (join "\n" s.summary)
          || not (
              (s.n_hosts =ℕ 0)
              && ((s.n_accounts =ℕ 0)
                  && ((s.n_ports =ℕ 0) && ((s.n_stale =ℕ 0) && (s.n_rekeyed =ℕ 0))))))

  unfoldable pub verdict : Script j Bool
  unfolding changed
  verdict s = (ok (changed s), s)

  -- What the script does before it compares
  unfoldable pub steps : Config → Script j (Unit {0})
  unfolding admin_step group_step ensure_assets assets_line grant_step counts_step settings_step
  steps cfg = do
    builtin_step cfg.builtin_admin
    u ← admin_step cfg.bastion_admin
    grp ← group_step cfg.bastion_group u
    root ← ask j org_root
    ensure_assets j root cfg.asset_defaults cfg.assets
    assets_line (length cfg.assets)
    grant_step cfg.permission_name grp root
    counts_step
    storage_step cfg.s3 cfg.s3_storage_name
    settings_step cfg.settings
    email_step cfg.email

  -- The script, with whether it prints RECONCILE_CHANGED
  unfoldable pub main : Config → Script j Bool
  main cfg = do steps cfg; verdict
