-- ===== src/OobAdmin/Laws.antt =====
-- scripts/opn_oob_admin.py: dry runs, and the merge with an existing secrets file.
use ansible_platform.Prelude.{
  String, ◌==◌, ◌≡◌, refl, sym, subst, ◌∙◌, Bool, true, false, not, Option, none, some, List, [],
  ◌∷◌, arith, if◌then◌else◌,
}
use ansible_platform.Prelude.Dict
use ansible_platform.Prelude.Dict.{Dict, get-put, get-merge}
use ansible_platform.Prelude.Exec.{Result, pure, when, Keeps, Keeps-pure, Keeps-bind}
use ansible_platform.OobAdmin.{
  Auth, State, Args, Creds, resolve_gid, given, secret_fields, Fields, put_text, base_fields,
  merge_existing, change, read, mint_key, require_gid, provision_as, provision, main,
}

-- Under `check_mode` the three `ensure` calls change nothing.
pub record IsDry (a : Auth) : Type 0 where
  pub group : (name : String) (w : Auth.World a) → (a.ensure_group name true w).1 ≡ w
  pub priv : (name : String) (w : Auth.World a) → (a.ensure_priv name true w).1 ≡ w
  pub user : (params : Dict String) (w : Auth.World a) → (a.ensure_user params true w).1 ≡ w

module _ (a : Auth) (s₀ : State a) where
  abbrev Same : State a → Type 0
  Same s = s ≡ s₀

  change-Same :
      {A : Type 0} (f : Auth.World a → Result A × Auth.World a)
      → ((w : Auth.World a) → (f w).1 ≡ w)
      → Keeps Same (change a f)
  unfolding change
  change-Same f h = record { after = λ s e. ground (arith, h s.world) }

  read-Same : {A : Type 0} (f : Auth.World a → Result A) → Keeps Same (read a f)
  unfolding read
  read-Same f = record { after = λ s e. e }

  mint_key-Same : (user : String) (keys : List String) → Keeps Same (mint_key a user true keys)
  unfolding mint_key
  mint_key-Same user [] = Keeps-pure _
  mint_key-Same user (k ∷ keys) = Keeps-pure _

  require_gid-Same : (gid : Option String) → Keeps Same (require_gid a true gid)
  unfolding require_gid
  require_gid-Same gid = Keeps-pure _

  provision-Same :
      (args : Args) (creds : Creds) (generated : String)
      → IsDry a
      → Keeps Same (provision_as a true args creds generated)
  unfolding provision_as change when pure
  provision-Same args creds generated dry =
      Keeps-bind _ _ (change-Same _ (dry.group args.group)) λ _.
        Keeps-bind _ _ (read-Same _) λ groups.
          Keeps-bind _ _ (require_gid-Same (resolve_gid groups args.group)) λ _.
            Keeps-bind _ _ (change-Same _ (dry.priv args.group)) λ _.
              Keeps-bind _ _ (read-Same _) λ users. Keeps-bind _ _ (change-Same _ (dry.user _)) λ _.
                Keeps-bind _ _ (read-Same _)
                  λ keys. Keeps-bind _ _ (mint_key-Same args.user keys) λ minted. Keeps-pure tt

-- Without `--apply`, and if the managers change nothing under `check_mode`, the run leaves both the
-- device and the secrets file as they were, whether it ends or raises.
pub main_dry :
    (a : Auth) (args : Args) (creds : Creds) (generated : String) (s : State a)
    → IsDry a
    → args.apply ≡ false
    → (main a args creds generated s).1 ≡ s
unfolding main provision
main_dry a args creds generated s dry off =
    subst (λ (b : Bool). (provision_as a (not b) args creds generated s).1 ≡ s) (sym off)
      ((provision-Same a s args creds generated dry).after s refl)

put_keys_ne :
    (m : Fields) (key secret : Option String) (k : String)
    → (k == "key") ≡ false
    → (k == "secret") ≡ false
    → Dict.get (if given key then Dict.put "secret" secret (put_text "key" key m) else m) k
      ≡ Dict.get m k
put_keys_ne m none secret k nk ns = refl
put_keys_ne m (some x) secret k nk ns =
    ground
      (arith, get-put "secret" k secret (Dict.put "key" (some x) m), get-put "key" k (some x) m)

module _ (args : Args) (creds : Creds) where
  -- What is written without a new password has every field that the file had, but those of the key.
  pub secret_fields_keeps :
      (old : Fields) (key secret : Option String) (k : String)
      → Dict.NodupKeys old
      → Dict.has old k ≡ true
      → (k == "key") ≡ false
      → (k == "secret") ≡ false
      → Dict.get (secret_fields args creds (some old) none key secret) k ≡ Dict.get old k
  unfolding secret_fields
  secret_fields_keeps old key secret k u h nk ns =
      put_keys_ne (merge_existing (base_fields args creds) (some old)) key secret k nk ns
      ∙ get-merge (base_fields args creds) old k u
      ∙ rw h
