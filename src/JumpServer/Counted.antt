-- ===== src/JumpServer/Counted.antt =====
-- roles/jumpserver/_archive/reconcile.py: the counters of the asset loop beside what JumpServer did.
use ansible_platform.Prelude.{
  ℕ, suc, ◌+◌, String, ◌≡◌, refl, ap, Bool, true, false, Option, none, some, List, if◌then◌else◌,
  arith,
}
use ansible_platform.Prelude.Exec.{Result, ok, err, when, ◌>>=◌}
use ansible_platform.Prelude.Owes.{
  Owes, Owes-bind_by, Owes-bind, Owes-pure, Owes-pure_by, Owes-lift, Owes-when, Owes-if, Owes-each,
}
use ansible_platform.JumpServer.{
  Host, Account, Node, Call, Reply, get_or_create_child, get_or_create_host, save_address,
  set_nodes, get_or_create_protocol, save_port, read_file, decrypt, get_or_create_account,
  save_privileged, save_secret, other_accounts, delete_account, Server, Defaults, Asset, Run,
  Script, ask, globals, change,
}
use ansible_platform.JumpServer.Assets.{
  node_found, get_node, load_key, key_found, get_key, ensure_host, ensure_port, update_account,
  new_account, ensure_account, ensure_asset, ensure_assets,
}

-- What a call did of the things that the summary counts: a host created, the port of a protocol that
-- existed changed, a key stored, an account deleted. A protocol created with its port is not counted.
abbrev pub weight : (q : Call) → Reply q → ℕ
weight (get_or_create_host name address platform) (h, created) = if created then 1 else 0
weight (save_port p port) r = 1
weight (save_secret a key) r = 1
weight (delete_account a) r = 1
weight q r = 0

abbrev pub weight_of : (q : Call) → Result (Reply q) → ℕ
weight_of q (ok r) = weight q r
weight_of q (err e) = 0

-- JumpServer with a counter of these things
abbrev pub counting : Server → Server
counting j = record {
  World = Server.World j × ℕ;
  call = λ q w. let (r, v) = j.call q w.0 in (r, (v, w.1 + weight_of q r));
  public = j.public;
  name_of = j.name_of;
}

-- The sum of the five counters
abbrev pub total : {W : Type 0} → Run W → ℕ
total s = s.n_hosts + (s.n_accounts + (s.n_ports + (s.n_stale + s.n_rekeyed)))

module _ (j : Server) where
  abbrev pub Counts : Type 0
  Counts = Run (Server.World j × ℕ)

  abbrev pub done : Counts → ℕ
  done s = s.world.1

  abbrev pub counted : Counts → ℕ
  counted s = total s

  abbrev pub Balance : ℕ → ℕ → {A : Type 0} → Script (counting j) A → Type 0
  Balance owed left step = Owes done counted owed (λ _. left) step

  weight_of-ok :
      (q : Call) (r : Result (Reply q)) (a : Reply q) → r ≡ ok a → weight_of q r ≡ weight q a
  weight_of-ok q r a h = rw h refl

  ask-Owes : (k : ℕ) (q : Call) → Owes done counted k (λ r. k + weight q r) (ask (counting j) q)
  unfolding ask
  ask-Owes k q = record {
    after = λ s a h e. grind (arith, h, weight_of-ok q (j.call q s.world.0).0 a e);
  }

  ask-Balance :
      (k : ℕ) (q : Call) → ((r : Reply q) → weight q r ≡ 0) → Balance k k (ask (counting j) q)
  ask-Balance k q h = record { after = λ s a i e. grind (arith, (ask-Owes k q).after s a i e, h a) }

  Owes-change :
      (k l : ℕ) (f : Counts → Counts)
      → ((s : Counts) → (total (f s) + l ≡ total s + k) × ((f s).world ≡ s.world))
      → Balance k l (change (counting j) f)
  unfolding change
  Owes-change k l f h = record {
    after = λ s a i e. grind (arith, (h s).0, ap (λ w. w.1) (h s).1, i);
  }

  Owes-globals : (k : ℕ) → Balance k k (globals (counting j))
  unfolding globals
  Owes-globals k = record { after = λ s b h e. h }

  -- A call that stores something, and the counting of it
  Owes-stored :
      (k : ℕ) (q : Call) (f : Counts → Counts)
      → ((r : Reply q) → weight q r ≡ 1)
      → ((s : Counts) → (total (f s) ≡ suc (total s)) × ((f s).world ≡ s.world))
      → Balance k k (ask (counting j) q >>= (λ _. change (counting j) f))
  Owes-stored k q f h g =
      Owes-bind k (suc k) k _ _
        (record { after = λ s a i e. grind (arith, (ask-Owes k q).after s a i e, h a) })
        (λ _. Owes-change (suc k) k f (λ s. (grind (arith, (g s).0), (g s).1)))

  -- A call that does nothing that is counted, and what follows
  Owes-asked :
      {B : Type 0} (k : ℕ) (l : B → ℕ) (q : Call) (f : Reply q → Script (counting j) B)
      → ((r : Reply q) → weight q r ≡ 0)
      → ((r : Reply q) → Owes done counted k l (f r))
      → Owes done counted k l (ask (counting j) q >>= f)
  Owes-asked k l q f h next = Owes-bind_by k (λ _. k) l _ f (ask-Balance k q h) next

  get_node-Owes : (root : Node) (value : String) → Balance 0 0 (get_node (counting j) root value)
  unfolding get_node
  get_node-Owes root value = Owes-bind 0 0 0 _ _ (Owes-globals 0) λ s. node_found-Owes value _
    where
      node_found-Owes :
          (value : String) (n : Option Node) → Balance 0 0 (node_found (counting j) root value n)
      node_found-Owes value (some n) = Owes-pure 0 n
      node_found-Owes value none =
          Owes-bind 0 0 0 _ _ (ask-Balance 0 (get_or_create_child root.pk value) (λ r. refl))
            λ n. Owes-bind 0 0 0 _ _ (Owes-change 0 0 _ (λ t. (refl, refl))) λ _. Owes-pure 0 n

  load_key-Owes : (path passphrase : String) → Balance 0 0 (load_key (counting j) path passphrase)
  unfolding load_key
  load_key-Owes path passphrase =
      Owes-bind 0 0 0 _ _ (ask-Balance 0 (read_file path) (λ r. refl)) λ key.
        Owes-if 0 _ _ _ _ (Owes-pure 0 key) (ask-Balance 0 (decrypt key passphrase) (λ r. refl))

  key_found-Owes :
      (path passphrase : String) (k : Option String)
      → Balance 0 0 (key_found (counting j) path passphrase k)
  key_found-Owes path passphrase (some k) = Owes-pure 0 k
  key_found-Owes path passphrase none =
      Owes-bind 0 0 0 _ _ (load_key-Owes path passphrase)
        λ k. Owes-bind 0 0 0 _ _ (Owes-change 0 0 _ (λ t. (refl, refl))) λ _. Owes-pure 0 k

  abbrev new_host : Host × Bool → ℕ
  new_host found = if found.1 then 1 else 0

  created-Owes :
      (name address : String) (platform : ℕ)
      → Owes done counted 0 new_host (ask (counting j) (get_or_create_host name address platform))
  created-Owes name address platform = record {
    after = λ s a i e.
        grind (arith, (ask-Owes 0 (get_or_create_host name address platform)).after s a i e);
  }

  ensure_host-Owes :
      (a : Asset) (node : Node) → Owes done counted 0 new_host (ensure_host (counting j) a node)
  unfolding ensure_host
  ensure_host-Owes a node =
      Owes-bind_by 0 (λ _. 0) new_host _ _ (Owes-lift 0 _)
        λ platform.
          Owes-bind_by 0 new_host new_host _ _ (created-Owes a.name a.address platform) λ found.
            Owes-bind_by (new_host found) (λ _. new_host found) new_host _ _
              (Owes-when _ _ _ (
                Owes-asked _ _ (save_address found.0.pk a.address) _ (λ r. refl)
                  (λ _. Owes-pure _ tt)))
              λ _.
                Owes-asked (new_host found) new_host (set_nodes found.0.pk node.pk) _ (λ r. refl)
                  (λ _. Owes-pure_by new_host found)

  ensure_port-Owes :
      (k : ℕ) (host : Host) (name : String) (port : ℕ)
      → Balance k k (ensure_port (counting j) host name port)
  unfolding ensure_port
  ensure_port-Owes k host name port =
      Owes-asked k _ (get_or_create_protocol host.pk name port) _ (λ r. refl)
        λ found.
          Owes-when k _ _
            (Owes-stored k (save_port found.0.pk port) _ (λ r. refl) (λ s. (grind arith, refl)))

  count_host-Owes :
      (found : Host × Bool)
      → Balance
          (new_host found)
          0
          (when found.1 (change (counting j) (λ t. record t { n_hosts = suc t.n_hosts })))
  unfolding when
  count_host-Owes (h, true) = Owes-change 1 0 _ (λ s. (grind arith, refl))
  count_host-Owes (h, false) = Owes-pure 0 tt

  update_account-Owes :
      (acct : Account) (privileged : Bool) (key : String)
      → Balance 0 0 (update_account (counting j) acct privileged key)
  unfolding update_account
  update_account-Owes acct privileged key =
      Owes-bind 0 0 0 _ _
        (Owes-when 0 _ _
          (Owes-asked 0 _ (save_privileged acct.pk privileged) _ (λ r. refl) (λ _. Owes-pure 0 tt)))
        λ _.
          Owes-when 0 _ _
            (Owes-stored 0 (save_secret acct.pk key) _ (λ r. refl) (λ s. (grind arith, refl)))

  new_account-Owes :
      (acct : Account) (key : String) → Balance 0 0 (new_account (counting j) acct key)
  unfolding new_account
  new_account-Owes acct key =
      Owes-stored 0 (save_secret acct.pk key) _ (λ r. refl) (λ s. (grind arith, refl))

  ensure_account-Owes :
      (host : Host) (username : String) (privileged : Bool) (key : String)
      → Balance 0 0 (ensure_account (counting j) host username privileged key)
  unfolding ensure_account
  ensure_account-Owes host username privileged key =
      Owes-asked 0 _ (get_or_create_account host.pk username privileged) _ (λ r. refl)
        λ found.
          Owes-if 0 _ found.1 _ _ (new_account-Owes found.0 key)
            (update_account-Owes found.0 privileged key)

  ensure_asset-Owes :
      (root : Node) (d : Defaults) (a : Asset) → Balance 0 0 (ensure_asset (counting j) root d a)
  unfolding ensure_asset get_key
  ensure_asset-Owes root d a = Owes-bind 0 0 0 _ _ (get_node-Owes root a.node) λ node.
      Owes-bind_by 0 new_host (λ _. 0) _ _ (ensure_host-Owes a node)
        λ found. Owes-bind _ _ 0 _ _ (ensure_port-Owes (new_host found) found.0 _ _) λ _.
          Owes-bind _ 0 0 _ _ (count_host-Owes found) λ _.
            Owes-bind 0 0 0 _ _ (Owes-bind 0 0 0 _ _ (Owes-globals 0) λ s. key_found-Owes _ _ _)
              λ key. Owes-bind 0 0 0 _ _ (ensure_account-Owes found.0 _ _ key) λ _.
                Owes-asked 0 _ (other_accounts found.0.pk _) _ (λ r. refl)
                  λ stale. Owes-each 0 _ stale λ acct.
                    Owes-stored 0 (delete_account acct) _ (λ r. refl) (λ s. (grind arith, refl))

  pub ensure_assets-Owes :
      (root : Node) (d : Defaults) (assets : List Asset)
      → Balance 0 0 (ensure_assets (counting j) root d assets)
  unfolding ensure_assets
  ensure_assets-Owes root d assets = Owes-each 0 _ assets (ensure_asset-Owes root d)
