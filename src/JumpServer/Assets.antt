-- ===== src/JumpServer/Assets.antt =====
-- roles/jumpserver/_archive/reconcile.py: the loop over `assets`.
use ansible_platform.Prelude.{
  ℕ, suc, ◌=ℕ◌, String, ◌==◌, Bool, true, false, not, Option, none, some, List, if◌then◌else◌,
}
use ansible_platform.Prelude.Dict
use ansible_platform.Prelude.Dict.{Dict}
use ansible_platform.Prelude.Exec.{Result, ok, err, key_error, pure, lift, when, each, ◌>>=◌, ◌>>◌}
use ansible_platform.JumpServer.{
  Host, Account, Node, get_or_create_child, get_or_create_host, save_address, set_nodes,
  get_or_create_protocol, save_port, read_file, decrypt, get_or_create_account, save_privileged,
  save_secret, other_accounts, delete_account, Server, Defaults, Asset, or_else, set_or, Script,
  ask, globals, change,
}

-- `PLATFORM_ID[platform]`
abbrev pub platform_id : String → Result ℕ
platform_id platform =
    if platform == "Linux" then ok 1 else if platform == "Windows" then ok 5 else err key_error

abbrev pub is_text : Option String → String → Bool
is_text none s = false
is_text (some r) s = r == s

-- The differences that the comparisons of two booleans and of two public keys see
abbrev pub differs : Bool → Bool → Bool
differs true b = not b
differs false b = b

abbrev pub same_key : Option String → Option String → Bool
same_key none none = true
same_key none (some k) = false
same_key (some l) none = false
same_key (some l) (some k) = l == k

-- What an asset comes to with the defaults
abbrev pub port_of : Defaults → Asset → ℕ
port_of d a = set_or a.own.port d.port 22

abbrev pub account_of : Defaults → Asset → String
account_of d a = set_or a.own.account d.account "root"

abbrev pub privileged_of : Defaults → Asset → Bool
privileged_of d a = set_or a.own.privileged d.privileged false

abbrev pub key_file_of : Defaults → Asset → String
key_file_of d a = set_or a.own.key_file d.key_file "/tmp/jms_key_asset"

-- `pp`
abbrev pub passphrase_of : Defaults → Asset → String
passphrase_of d a =
    or_else a.own.key_passphrase
      (if is_text d.key_file (key_file_of d a) then or_else d.key_passphrase "" else "")

module _ (j : Server) where
  -- `load_key`
  unfoldable pub load_key : String → String → Script j String
  load_key path passphrase = do
    data_text ← ask j (read_file path)
    if passphrase == "" then pure data_text else ask j (decrypt data_text passphrase)

  -- `_pubkey`
  abbrev pub pubkey : String → Option String
  pubkey private_pem = j.public private_pem

  abbrev pub node_found : Node → String → Option Node → Script j Node
  node_found root value (some n) = pure n
  node_found root value none = do
    n ← ask j (get_or_create_child root.pk value)
    change j (λ t. record t { node_cache = Dict.put value n t.node_cache })
    pure n

  -- `get_node`
  unfoldable pub get_node : Node → String → Script j Node
  get_node root value = do s ← globals j; node_found root value (Dict.get s.node_cache value)

  abbrev pub key_found : String → String → Option String → Script j String
  key_found path passphrase (some k) = pure k
  key_found path passphrase none = do
    k ← load_key path passphrase
    change j (λ t. record t { key_cache = Dict.put path k t.key_cache })
    pure k

  -- `key_cache[kp]`, filled where it is not there
  unfoldable pub get_key : String → String → Script j String
  get_key path passphrase = do s ← globals j; key_found path passphrase (Dict.get s.key_cache path)

  -- The host, with its address and its node
  unfoldable pub ensure_host : Asset → Node → Script j (Host × Bool)
  ensure_host a node = do
    platform ← lift (platform_id (or_else a.platform "Linux"))
    found ← ask j (get_or_create_host a.name a.address platform)
    when (not (found.0.address == a.address))
        (do ask j (save_address found.0.pk a.address); pure tt)
    ask j (set_nodes found.0.pk node.pk)
    pure found

  -- The port of its protocol
  unfoldable pub ensure_port : Host → String → ℕ → Script j (Unit {0})
  ensure_port host name port = do
    found ← ask j (get_or_create_protocol host.pk name port)
    when (not (found.0.port =ℕ port))
        (do ask j (save_port found.0.pk port); change j (λ t. record t { n_ports = suc t.n_ports }))

  -- The account of an existing row
  unfoldable pub update_account : Account → Bool → String → Script j (Unit {0})
  update_account acct privileged key = do
    when (differs acct.privileged privileged)
        (do ask j (save_privileged acct.pk privileged); pure tt)
    when (not (same_key (pubkey (or_else acct.secret "")) (pubkey key))) (do
      ask j (save_secret acct.pk key)
      change j (λ t. record t { n_rekeyed = suc t.n_rekeyed }))

  unfoldable pub new_account : Account → String → Script j (Unit {0})
  new_account acct key = do
    ask j (save_secret acct.pk key)
    change j (λ t. record t { n_accounts = suc t.n_accounts })

  unfoldable pub ensure_account : Host → String → Bool → String → Script j (Unit {0})
  unfolding update_account new_account
  ensure_account host username privileged key = do
    found ← ask j (get_or_create_account host.pk username privileged)
    if found.1 then new_account found.0 key else update_account found.0 privileged key

  abbrev pub drop_account : String → Script j (Unit {0})
  drop_account stale = do
    ask j (delete_account stale)
    change j (λ t. record t { n_stale = suc t.n_stale })

  -- One turn of the loop
  unfoldable pub ensure_asset : Node → Defaults → Asset → Script j (Unit {0})
  unfolding get_node ensure_host ensure_port get_key ensure_account
  ensure_asset root d a = do
    node ← get_node root a.node
    found ← ensure_host a node
    ensure_port found.0 (or_else a.protocol "ssh") (port_of d a)
    when found.1 (change j (λ t. record t { n_hosts = suc t.n_hosts }))
    key ← get_key (key_file_of d a) (passphrase_of d a)
    ensure_account found.0 (account_of d a) (privileged_of d a) key
    stale ← ask j (other_accounts found.0.pk (account_of d a))
    each drop_account stale

  -- The loop
  unfoldable pub ensure_assets : Node → Defaults → List Asset → Script j (Unit {0})
  unfolding ensure_asset
  ensure_assets root d assets = each (ensure_asset root d) assets
