-- ===== src/Tests/Bastion.antt =====
-- roles/jumpserver/_archive/reconcile.py with one asset.
use ansible_platform.Prelude.{
  String, ◌≡◌, refl, Bool, true, false, none, some, [], ◌∷◌, String-discrete,
}
use ansible_platform.Prelude.Text.{join, occurs}
use ansible_platform.Prelude.Value.{decimal}
use ansible_platform.Prelude.Dict
use ansible_platform.Prelude.Exec.{ok, ◌>>=◌, pure, when, each, lift}
use ansible_platform.JumpServer.{
  Call, Reply, Server, Defaults, Asset, Config, ask, globals, change, append,
}
use ansible_platform.JumpServer.Assets.{
  get_node, load_key, get_key, ensure_host, ensure_port, update_account, new_account,
  ensure_account, ensure_asset, ensure_assets,
}
use ansible_platform.JumpServer.Steps.{
  settings_shown, attempt, admin_step, group_step, assets_line, rebuild, grant_step, fix_counts,
  counts_step, update_settings, settings_step, changed, verdict, steps, main,
}
use ansible_platform.JumpServer.Counted.{counting}
use ansible_platform.JumpServer.Uncounted.{start}
use ansible_platform.JumpServer.Reported.{unreported_run}

-- A JumpServer in which all is there; `created` tells whether the host is new, and `key` is the one
-- that the account has.
abbrev answer : Bool → String → (q : Call) → Reply q
answer created key (Call.find_local_user name) = none
answer created key (Call.check_password u password) = true
answer created key (Call.reset_password u password) = tt
answer created key (Call.get_or_create_user username name email) =
    (record { pk = "1"; username = username; source = "openid" }, false)
answer created key (Call.save_source u) = tt
answer created key (Call.bind_system_admin u) = false
answer created key (Call.get_or_create_group name) = (record { pk = "2"; name = name }, false)
answer created key (Call.has_member g u) = true
answer created key (Call.add_member g u) = tt
answer created key Call.org_root = record { pk = "3"; assets_amount = 1 }
answer created key (Call.get_or_create_child n value) = record { pk = "4"; assets_amount = 1 }
answer created key (Call.get_or_create_host name address platform) =
    (record { pk = "5"; address = address }, created)
answer created key (Call.save_address h address) = tt
answer created key (Call.set_nodes h n) = tt
answer created key (Call.get_or_create_protocol h name port) =
    (record { pk = "6"; port = port }, created)
answer created key (Call.save_port p port) = tt
answer created key (Call.read_file path) = "K"
answer created key (Call.decrypt k passphrase) = k
answer created key (Call.get_or_create_account h username privileged) =
    (record { pk = "7"; privileged = privileged; secret = some key }, created)
answer created key (Call.save_privileged a privileged) = tt
answer created key (Call.save_secret a k) = tt
answer created key (Call.other_accounts h username) = []
answer created key (Call.delete_account a) = tt
answer created key (Call.get_or_create_permission name) = (record { pk = "8"; name = name }, false)
answer created key (Call.grant_group p g) = tt
answer created key (Call.grant_node p n) = tt
answer created key (Call.revoke_node p n) = tt
answer created key (Call.grant_all_assets p) = tt
answer created key (Call.members g) = "1" ∷ []
answer created key (Call.expire_trees us) = tt
answer created key (Call.refresh_tree u) = tt
answer created key Call.all_nodes = record { pk = "4"; assets_amount = 1 } ∷ []
answer created key (Call.count_assets n) = 1
answer created key (Call.save_amount n amount) = tt
answer created key (Call.get_or_create_storage name meta) =
    (record { pk = "9"; name = name; meta = meta; is_default = true }, false)
answer created key (Call.save_meta s meta) = tt
answer created key (Call.clear_other_defaults s) = tt
answer created key (Call.save_default s) = tt
answer created key (Call.update_setting name value category) = tt
answer created key Call.email_settings = []
answer created key (Call.refresh_setting s) = tt

abbrev server : Bool → String → Server
server created key = record {
  World = Unit {0};
  call = λ q w. (ok (answer created key q), w);
  public = λ k. some k;
  name_of = λ e. "Error";
}

abbrev none_set : Defaults
none_set = record {
  port = none;
  account = none;
  privileged = none;
  key_file = none;
  key_passphrase = none;
}

abbrev web : Asset
web = record {
  name = "web";
  address = "10.0.0.2";
  node = "SVC";
  platform = none;
  protocol = none;
  own = none_set;
}

abbrev config : Config
config = record {
  builtin_admin = none;
  bastion_admin = record { username = "a"; name = "A"; email = "a@b" };
  bastion_group = "g";
  assets = web ∷ [];
  asset_defaults = none_set;
  permission_name = "p";
  s3 = none;
  s3_storage_name = "s";
  settings = [];
  email = none;
}

unreported_run_example : (main (counting (server false "K")) config (start (tt, 0))).1.world.1 ≡ 0
unfolding main steps verdict changed admin_step group_step assets_line grant_step rebuild attempt
    counts_step fix_counts settings_step update_settings settings_shown ensure_assets ensure_asset
    get_node ensure_host ensure_port get_key load_key ensure_account new_account update_account ask
    globals change append lift when each pure ◌>>=◌ Dict.get Dict.put Dict.values String-discrete
    occurs join decimal
unreported_run_example = unreported_run (server false "K") config tt refl
