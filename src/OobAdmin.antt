-- ===== src/OobAdmin.antt =====
-- scripts/opn_oob_admin.py: the break-glass admin of the firewall and the file of its secrets. The
-- managers of lib-opnsense are the parameter `Auth`, the random password is an argument, and the
-- file is the dict of its `fields`. Log lines are not modelled.
pub mod Laws
pub mod Secrets
use ansible_platform.Prelude.{
  ℕ, String, ◌==◌, Bool, true, false, not, ◌&&◌, ◌||◌, Option, none, some, List, [], ◌∷◌, ◌++◌, any,
  contains, is_empty, String-discrete, if◌then◌else◌,
}
use ansible_platform.Prelude.Dict
use ansible_platform.Prelude.Dict.{Dict}
use ansible_platform.Prelude.Exec.{
  Result, ok, err, Raised, system_exit, api_error, Exec, pure, lift, when, ◌>>=◌, ◌>>◌,
}

-- The calls of the four managers. Each may raise, and each but the listings may change the device.
pub record Auth : Type 1 where
  pub World : Type 0
  pub ensure_group : String → Bool → World → Result (Unit {0}) × World
  pub list_groups : World → Result (List (String × Option String))
  pub ensure_priv : String → Bool → World → Result (Unit {0}) × World
  pub list_users : World → Result (List String)
  pub ensure_user : Dict String → Bool → World → Result (Unit {0}) × World
  pub list_keys : String → World → Result (List String)
  pub create_key : String → World → Result (Option String × Option String) × World

-- The device, and the secrets file if there is one.
pub record State (a : Auth) : Type 0 where
  pub world : Auth.World a
  pub secrets : Option (Dict (Option String))

pub record Args : Type 0 where
  pub user : String
  pub group : String
  pub email : String
  pub domain : String
  pub apply : Bool

-- The fields of the credentials that the file repeats.
pub record Creds : Type 0 where
  pub host : String
  pub port : String
  pub verify_ssl : String

-- `resolve_gid`: the gid of the first group of the name
unfoldable pub resolve_gid : List (String × Option String) → String → Option String
resolve_gid [] name = none
resolve_gid ((n, gid) ∷ rows) name = if n == name then gid else resolve_gid rows name

abbrev pub is_some : Option String → Bool
is_some none = false
is_some (some s) = true

-- A value that is there and is no empty text.
abbrev pub given : Option String → Bool
given none = false
given (some s) = not (s == "")

abbrev pub put_given : String → Option String → Dict String → Dict String
put_given k none d = d
put_given k (some s) d = if s == "" then d else Dict.put k s d

unfoldable pub user_params : Args → Option String → Option String → Dict String
unfolding Dict.put
user_params args gid password = put_given "password" password (
    put_given "group_memberships" gid (
      put_given "email" (some args.email) (
        ("name", args.user)
        ∷ ("comment", "OOB break-glass admin (managed by opn_oob_admin.py)")
        ∷ ("shell", "")
        ∷ [])))

-- A JSON object of texts and `null`.
abbrev pub Fields : Type 0
Fields = Dict (Option String)

abbrev pub put_text : String → Option String → Fields → Fields
put_text k none d = d
put_text k (some s) d = if s == "" then d else Dict.put k (some s) d

abbrev pub base_fields : Args → Creds → Fields
base_fields args creds = put_text "email" (some args.email) (
    ("host", some creds.host)
    ∷ ("port", some creds.port)
    ∷ ("verify_ssl", some creds.verify_ssl)
    ∷ ("username", some args.user)
    ∷ ("group", some args.group)
    ∷ ("role", some "oob-break-glass-admin")
    ∷ ("domain", some args.domain)
    ∷ [])

-- The fields of an existing file win over the new ones.
abbrev pub merge_existing : Fields → Option Fields → Fields
merge_existing base none = base
merge_existing base (some old) = Dict.merge base old

-- What is written: the fields, those of an existing file over them, then the new secrets.
unfoldable pub secret_fields :
    Args → Creds → Option Fields → Option String → Option String → Option String → Fields
secret_fields args creds existing password key secret =
    let with_password =
      put_text "webgui_password" password (merge_existing (base_fields args creds) existing) in
    if given key then Dict.put "secret" secret (put_text "key" key with_password) else with_password

module _ (a : Auth) where
  -- A call that may change the device.
  unfoldable pub change : {A : Type 0} → (Auth.World a → Result A × Auth.World a) → Exec (State a) A
  change f s = let (r, w) = f s.world in (r, record { world = w; secrets = s.secrets })

  -- A call that reads it.
  unfoldable pub read : {A : Type 0} → (Auth.World a → Result A) → Exec (State a) A
  read f s = (f s.world, s)

  unfoldable pub write_secrets : (Option Fields → Fields) → Exec (State a) (Unit {0})
  write_secrets f s = (ok tt, record { world = s.world; secrets = some (f s.secrets) })

  -- Step 4: an API key, only if the user has none yet and changes are to be written.
  unfoldable pub mint_key :
      String → Bool → List String → Exec (State a) (Option String × Option String)
  mint_key user check keys =
      if is_empty keys
      then (if check then pure (none, none) else change (a.create_key user))
      else pure (none, none)

  unfoldable pub require_gid : Bool → Option String → Exec (State a) (Unit {0})
  require_gid check gid =
      if not check && not (is_some gid)
      then lift (err (system_exit "group gid unresolved after create — aborting"))
      else pure tt

  -- `provision` after `check = not args.apply`, with the password that `gen_password` would give.
  unfoldable pub provision_as : Bool → Args → Creds → String → Exec (State a) (Unit {0})
  provision_as check args creds generated = do
    change (a.ensure_group args.group check)
    groups ← read a.list_groups
    let gid = resolve_gid groups args.group
    require_gid check gid
    change (a.ensure_priv args.group check)
    users ← read a.list_users
    let password : Option String = if contains users args.user then none else some generated
    change (a.ensure_user (user_params args gid password) check)
    keys ← read (a.list_keys args.user)
    minted ← mint_key args.user check keys
    when (not check && (given password || given minted.0))
        (write_secrets (λ existing. secret_fields args creds existing password minted.0 minted.1))

  unfoldable pub provision : Args → Creds → String → Exec (State a) (Unit {0})
  provision args creds generated = provision_as (not args.apply) args creds generated

  -- `main`: an API error or a `SystemExit` is the status 1, any other exception leaves the script.
  unfoldable pub exit_status : Result (Unit {0}) → Result ℕ
  exit_status (ok _) = ok 0
  exit_status (err (system_exit _)) = ok 1
  exit_status (err api_error) = ok 1
  exit_status (err e) = err e

  unfoldable pub main : Args → Creds → String → State a → Result ℕ × State a
  main args creds generated s = let (r, t) = provision args creds generated s in (exit_status r, t)
