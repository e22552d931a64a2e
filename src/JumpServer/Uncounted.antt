-- ===== src/JumpServer/Uncounted.antt =====
-- roles/jumpserver/_archive/reconcile.py: the steps beside the asset loop, and the counters of that loop.
use ansible_platform.Prelude.{
  ℕ, String, ◌≡◌, refl, Bool, true, false, Option, none, some, List, [], ◌∷◌, if◌then◌else◌, arith,
}
use ansible_platform.Prelude.Value.{Scalar}
use ansible_platform.Prelude.Dict
use ansible_platform.Prelude.Dict.{Dict}
use ansible_platform.Prelude.Exec.{
  Raised, Result, ok, err, ◌>>=◌, Keeps, Keeps-bind, Keeps-pure, Keeps-when, Keeps-each,
}
use ansible_platform.JumpServer.{
  User, Group, Node, Call, Reply, find_local_user, check_password, reset_password,
  get_or_create_user, save_source, bind_system_admin, get_or_create_group, has_member, add_member,
  get_or_create_permission, grant_group, grant_node, revoke_node, grant_all_assets, members,
  expire_trees, refresh_tree, all_nodes, count_assets, save_amount, get_or_create_storage,
  save_meta, clear_other_defaults, save_default, update_setting, email_settings, refresh_setting,
  Server, Builtin, Person, S3, Email, Run, Script, ask, globals, append,
}
use ansible_platform.JumpServer.Steps.{
  attempt, handled, password_set, builtin_step, admin_step, group_step, rebuild, grant_step,
  fix_counts, counts_step, storage_step, update_settings, settings_step, email_step, email_vals,
}
use ansible_platform.JumpServer.Counted.{weight, weight_of, counting, total}

-- What the script begins with
abbrev pub start : {W : Type 0} → W → Run W
start w = record {
  world = w;
  n_hosts = 0;
  n_accounts = 0;
  n_ports = 0;
  n_stale = 0;
  n_rekeyed = 0;
  node_cache = [];
  key_cache = [];
  summary = [];
}

module _ (j : Server) where
  abbrev pub Even : Run (Server.World j × ℕ) → Type 0
  Even s = s.world.1 ≡ total s

  weight_of-none :
      (q : Call) (r : Result (Reply q)) → ((a : Reply q) → weight q a ≡ 0) → weight_of q r ≡ 0
  weight_of-none q (ok a) h = h a
  weight_of-none q (err e) h = refl

  pub ask-Keeps : (q : Call) → ((a : Reply q) → weight q a ≡ 0) → Keeps Even (ask (counting j) q)
  unfolding ask
  ask-Keeps q h = record {
    after = λ s e. grind (arith, e, weight_of-none q (j.call q s.world.0).0 h);
  }

  pub append-Keeps : (line : String) → Keeps Even (append (counting j) line)
  unfolding append
  append-Keeps line = record { after = λ s e. e }

  pub globals-Keeps : Keeps Even (globals (counting j))
  unfolding globals
  globals-Keeps = record { after = λ s e. e }

  handled-Keeps :
      {A : Type 0} (handle : Raised → Script (counting j) A) (r : Result A)
      (s : Run (Server.World j × ℕ))
      → ((e : Raised) → Keeps Even (handle e))
      → Even s
      → Even (handled (counting j) handle (r, s)).1
  handled-Keeps handle (ok a) s h e = e
  handled-Keeps handle (err x) s h e = (h x).after s e

  attempt-Keeps :
      {A : Type 0} (m : Script (counting j) A) (handle : Raised → Script (counting j) A)
      → Keeps Even m
      → ((e : Raised) → Keeps Even (handle e))
      → Keeps Even (attempt (counting j) m handle)
  unfolding attempt
  attempt-Keeps m handle keeps h = record {
    after = λ s e. handled-Keeps handle (m s).0 (m s).1 h (keeps.after s e);
  }

  asked-Keeps :
      {B : Type 0} (q : Call) (f : Reply q → Script (counting j) B)
      → ((a : Reply q) → weight q a ≡ 0)
      → ((a : Reply q) → Keeps Even (f a))
      → Keeps Even (ask (counting j) q >>= f)
  asked-Keeps q f h next = Keeps-bind _ f (ask-Keeps q h) next

  if-Keeps :
      {A : Type 0} (b : Bool) (m n : Script (counting j) A)
      → Keeps Even m
      → Keeps Even n
      → Keeps Even (if b then m else n)
  if-Keeps true m n h k = h
  if-Keeps false m n h k = k

  password_set-Keeps : (b : Builtin) (u : Option User) → Keeps Even (password_set (counting j) b u)
  password_set-Keeps b none = append-Keeps _
  password_set-Keeps b (some u) =
      asked-Keeps (check_password u.pk b.password) _ (λ a. refl)
        λ same.
          if-Keeps same _ _ (append-Keeps _)
            (asked-Keeps (reset_password u.pk b.password) _ (λ a. refl) λ _. append-Keeps _)

  pub builtin_step-Keeps : (b : Option Builtin) → Keeps Even (builtin_step (counting j) b)
  builtin_step-Keeps none = Keeps-pure tt
  builtin_step-Keeps (some b) =
      Keeps-when _ _
        (λ _. asked-Keeps (find_local_user b.username) _ (λ a. refl) λ u. password_set-Keeps b u)

  pub admin_step-Keeps : (p : Person) → Keeps Even (admin_step (counting j) p)
  unfolding admin_step
  admin_step-Keeps p =
      asked-Keeps (get_or_create_user p.username p.name p.email) _ (λ a. refl)
        λ found.
          Keeps-bind _ _ (Keeps-when _ _ (λ _. ask-Keeps (save_source found.0.pk) (λ a. refl))) λ _.
            asked-Keeps (bind_system_admin found.0.pk) _ (λ a. refl)
              λ bound. Keeps-bind _ _ (append-Keeps _) λ _. Keeps-pure found.0

  pub group_step-Keeps : (name : String) (u : User) → Keeps Even (group_step (counting j) name u)
  unfolding group_step
  group_step-Keeps name u =
      asked-Keeps (get_or_create_group name) _ (λ a. refl)
        λ found.
          asked-Keeps (has_member found.0.pk u.pk) _ (λ a. refl)
            λ is_in.
              Keeps-bind _ _
                (Keeps-when _ _ (λ _. ask-Keeps (add_member found.0.pk u.pk) (λ a. refl)))
                λ _. Keeps-bind _ _ (append-Keeps _) λ _. Keeps-pure found.0

  rebuild-Keeps : (g : Group) → Keeps Even (rebuild (counting j) g)
  unfolding rebuild
  rebuild-Keeps g =
      asked-Keeps (members g.pk) _ (λ a. refl)
        λ ids.
          asked-Keeps (expire_trees ids) _ (λ a. refl)
            λ _.
              Keeps-bind _ _ (Keeps-each _ ids (λ u. ask-Keeps (refresh_tree u) (λ a. refl)))
                λ _. Keeps-pure _

  pub grant_step-Keeps :
      (name : String) (g : Group) (root : Node) → Keeps Even (grant_step (counting j) name g root)
  unfolding grant_step
  grant_step-Keeps name g root =
      asked-Keeps (get_or_create_permission name) _ (λ a. refl)
        λ found.
          asked-Keeps (grant_group found.0.pk g.pk) _ (λ a. refl)
            λ _. Keeps-bind _ _ globals-Keeps λ s.
              Keeps-bind _ _
                (Keeps-each _ (Dict.values s.node_cache)
                  (λ n. ask-Keeps (grant_node found.0.pk n.pk) (λ a. refl)))
                λ _.
                  asked-Keeps (revoke_node found.0.pk root.pk) _ (λ a. refl)
                    λ _.
                      Keeps-bind _ _
                        (attempt-Keeps _ _ (ask-Keeps (grant_all_assets found.0.pk) (λ a. refl))
                          (λ e. append-Keeps _))
                        λ _.
                          Keeps-bind _ _ (attempt-Keeps _ _ (rebuild-Keeps g) (λ e. Keeps-pure _))
                            λ pt. append-Keeps _

  fix_counts-Keeps : (nodes : List Node) → Keeps Even (fix_counts (counting j) nodes)
  unfolding fix_counts
  fix_counts-Keeps [] = Keeps-pure 0
  fix_counts-Keeps (n ∷ nodes) =
      asked-Keeps (count_assets n.pk) _ (λ a. refl)
        λ cnt.
          Keeps-bind _ _ (Keeps-when _ _ (λ _. ask-Keeps (save_amount n.pk cnt) (λ a. refl)))
            λ _. Keeps-bind _ _ (fix_counts-Keeps nodes) λ rest. Keeps-pure _

  pub counts_step-Keeps : Keeps Even (counts_step (counting j))
  unfolding counts_step
  counts_step-Keeps =
      attempt-Keeps _ _
        (asked-Keeps all_nodes _ (λ a. refl)
          λ nodes. Keeps-bind _ _ (fix_counts-Keeps nodes) λ fixed. append-Keeps _)
        (λ e. append-Keeps _)

  pub storage_step-Keeps :
      (s3 : Option S3) (name : String) → Keeps Even (storage_step (counting j) s3 name)
  storage_step-Keeps none name = Keeps-pure tt
  storage_step-Keeps (some s3) name =
      asked-Keeps (get_or_create_storage name _) _ (λ a. refl)
        λ found.
          Keeps-bind _ _
            (Keeps-when _ _
              (λ _. asked-Keeps (save_meta found.0.pk _) _ (λ a. refl) λ _. append-Keeps _))
            λ _.
              asked-Keeps (clear_other_defaults found.0.pk) _ (λ a. refl)
                λ _.
                  Keeps-bind _ _
                    (Keeps-when _ _ (λ _. ask-Keeps (save_default found.0.pk) (λ a. refl)))
                    λ _. append-Keeps _

  update_settings-Keeps :
      (category : String) (d : Dict Scalar) → Keeps Even (update_settings (counting j) category d)
  unfolding update_settings
  update_settings-Keeps category d =
      Keeps-each _ d (λ (k, v). ask-Keeps (update_setting k v category) (λ a. refl))

  pub settings_step-Keeps : (d : Dict Scalar) → Keeps Even (settings_step (counting j) d)
  unfolding settings_step
  settings_step-Keeps d =
      Keeps-bind _ _ (update_settings-Keeps "terminal" d) λ _. Keeps-when _ _ (λ _. append-Keeps _)

  pub email_step-Keeps : (e : Option Email) → Keeps Even (email_step (counting j) e)
  email_step-Keeps none = Keeps-pure tt
  email_step-Keeps (some e) = Keeps-when _ _ (λ _.
      Keeps-bind _ _ (update_settings-Keeps "email" (email_vals e)) λ _.
        asked-Keeps email_settings _ (λ a. refl)
          λ rows.
            Keeps-bind _ _
              (Keeps-each _ rows (λ r.
                attempt-Keeps _ _ (ask-Keeps (refresh_setting r) (λ a. refl)) (λ x. Keeps-pure tt)))
              λ _. append-Keeps _)
