-- ===== src/JumpServer.antt =====
-- roles/jumpserver/_archive/reconcile.py: the configuration, what the script asks of JumpServer, and
-- what it keeps. Django's models, with the files and the key library, are the parameter `Server`
-- over its `World`: a call may raise.
pub mod Assets
pub mod Steps
pub mod Counted
pub mod Uncounted
pub mod Reported
use ansible_platform.Prelude.{
  ℕ, zero, suc, ◌+◌, String, ◌==◌, Bool, true, false, Option, none, some, List, [], ◌∷◌, ◌++◌,
  String-discrete, if◌then◌else◌,
}
use ansible_platform.Prelude.Value.{Scalar}
use ansible_platform.Prelude.Dict.{Dict}
use ansible_platform.Prelude.Exec.{Raised, Result, ok, err, Exec}

-- Rows of the database, with the attributes that the script reads
pub record User : Type 0 where
  pub pk : String
  pub username : String
  pub source : String

pub record Group : Type 0 where
  pub pk : String
  pub name : String

pub record Host : Type 0 where
  pub pk : String
  pub address : String

pub record Protocol : Type 0 where
  pub pk : String
  pub port : ℕ

pub record Account : Type 0 where
  pub pk : String
  pub privileged : Bool
  pub secret : Option String

pub record Node : Type 0 where
  pub pk : String
  pub assets_amount : ℕ

pub record Storage : Type 0 where
  pub pk : String
  pub name : String
  pub meta : Dict String
  pub is_default : Bool

-- The calls of the script; a row is named by its key.
pub data Call : Type 0 where
  find_local_user : String → Call
  check_password reset_password : String → String → Call
  get_or_create_user : String → String → String → Call
  save_source bind_system_admin : String → Call
  get_or_create_group : String → Call
  has_member add_member : String → String → Call
  org_root : Call
  get_or_create_child : String → String → Call
  get_or_create_host : String → String → ℕ → Call
  save_address set_nodes : String → String → Call
  get_or_create_protocol : String → String → ℕ → Call
  save_port : String → ℕ → Call
  read_file : String → Call
  decrypt : String → String → Call
  get_or_create_account : String → String → Bool → Call
  save_privileged : String → Bool → Call
  save_secret : String → String → Call
  other_accounts : String → String → Call
  delete_account : String → Call
  get_or_create_permission : String → Call
  grant_group grant_node revoke_node : String → String → Call
  grant_all_assets : String → Call
  members : String → Call
  expire_trees : List String → Call
  refresh_tree : String → Call
  all_nodes : Call
  count_assets : String → Call
  save_amount : String → ℕ → Call
  get_or_create_storage : String → Dict String → Call
  save_meta : String → Dict String → Call
  clear_other_defaults save_default : String → Call
  update_setting : String → Scalar → String → Call
  email_settings : Call
  refresh_setting : String → Call

abbrev pub Reply : Call → Type 0
Reply (find_local_user name) = Option User
Reply (check_password u password) = Bool
Reply (reset_password u password) = Unit {0}
Reply (get_or_create_user username name email) = User × Bool
Reply (save_source u) = Unit {0}
Reply (bind_system_admin u) = Bool
Reply (get_or_create_group name) = Group × Bool
Reply (has_member g u) = Bool
Reply (add_member g u) = Unit {0}
Reply org_root = Node
Reply (get_or_create_child n value) = Node
Reply (get_or_create_host name address platform) = Host × Bool
Reply (save_address h address) = Unit {0}
Reply (set_nodes h n) = Unit {0}
Reply (get_or_create_protocol h name port) = Protocol × Bool
Reply (save_port p port) = Unit {0}
Reply (read_file path) = String
Reply (decrypt key passphrase) = String
Reply (get_or_create_account h username privileged) = Account × Bool
Reply (save_privileged a privileged) = Unit {0}
Reply (save_secret a key) = Unit {0}
Reply (other_accounts h username) = List String
Reply (delete_account a) = Unit {0}
Reply (get_or_create_permission name) = Group × Bool
Reply (grant_group p g) = Unit {0}
Reply (grant_node p n) = Unit {0}
Reply (revoke_node p n) = Unit {0}
Reply (grant_all_assets p) = Unit {0}
Reply (members g) = List String
Reply (expire_trees us) = Unit {0}
Reply (refresh_tree u) = Unit {0}
Reply all_nodes = List Node
Reply (count_assets n) = ℕ
Reply (save_amount n amount) = Unit {0}
Reply (get_or_create_storage name meta) = Storage × Bool
Reply (save_meta s meta) = Unit {0}
Reply (clear_other_defaults s) = Unit {0}
Reply (save_default s) = Unit {0}
Reply (update_setting name value category) = Unit {0}
Reply email_settings = List String
Reply (refresh_setting s) = Unit {0}

-- `public` is the key library's public half of a private key, `none` where it raises; `name_of` is
-- `type(e).__name__`.
pub record Server : Type 1 where
  pub World : Type 0
  pub call : (q : Call) → World → Result (Reply q) × World
  pub public : String → Option String
  pub name_of : Raised → String

-- One entry of `assets`, and `asset_defaults`. A missing key is `none`.
pub record Defaults : Type 0 where
  pub port : Option ℕ
  pub account : Option String
  pub privileged : Option Bool
  pub key_file : Option String
  pub key_passphrase : Option String

pub record Asset : Type 0 where
  pub name : String
  pub address : String
  pub node : String
  pub platform : Option String
  pub protocol : Option String
  pub own : Defaults

pub record Builtin : Type 0 where
  pub username : String
  pub password : String

pub record Person : Type 0 where
  pub username : String
  pub name : String
  pub email : String

pub record S3 : Type 0 where
  pub bucket : String
  pub access_key : String
  pub secret_key : String
  pub endpoint : String
  pub region : Option String

pub record Email : Type 0 where
  pub smtp_host : String
  pub smtp_port : ℕ
  pub smtp_user : String
  pub smtp_password : String

-- `CFG`
pub record Config : Type 0 where
  pub builtin_admin : Option Builtin
  pub bastion_admin : Person
  pub bastion_group : String
  pub assets : List Asset
  pub asset_defaults : Defaults
  pub permission_name : String
  pub s3 : Option S3
  pub s3_storage_name : String
  pub settings : Dict Scalar
  pub email : Option Email

-- The globals that the asset loop changes, and what stands in JumpServer
pub record Run (W : Type 0) : Type 0 where
  pub world : W
  pub n_hosts : ℕ
  pub n_accounts : ℕ
  pub n_ports : ℕ
  pub n_stale : ℕ
  pub n_rekeyed : ℕ
  pub node_cache : Dict Node
  pub key_cache : Dict String
  pub summary : List String

abbrev pub or_else {ℓ} : {A : Type ℓ} → Option A → A → A
or_else none a = a
or_else (some b) a = b

-- `a.get(key, D.get(key, default))`
abbrev pub set_or {ℓ} : {A : Type ℓ} → Option A → Option A → A → A
set_or own default a = or_else own (or_else default a)

module _ (j : Server) where
  abbrev pub Script : Type 0 → Type 0
  Script A = Exec (Run (Server.World j)) A

  abbrev pub in_run :
      {A : Type 0}
      → Run (Server.World j)
      → Result A × Server.World j
      → Result A × Run (Server.World j)
  in_run s (r, w) = (r, record s { world = w })

  unfoldable pub ask : (q : Call) → Script (Reply q)
  ask q s = in_run s (j.call q s.world)

  unfoldable pub globals : Script (Run (Server.World j))
  globals s = (ok s, s)

  unfoldable pub change : (Run (Server.World j) → Run (Server.World j)) → Script (Unit {0})
  change f s = (ok tt, f s)

  -- `summary.append(line)`
  unfoldable pub append : String → Script (Unit {0})
  append line s = (ok tt, record s { summary = s.summary ++ (line ∷ []) })
