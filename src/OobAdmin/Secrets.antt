-- ===== src/OobAdmin/Secrets.antt =====
-- scripts/opn_oob_admin.py: what a run does to the secrets file of a user who exists already.
use ansible_platform.Prelude.{
  String, ◌==◌, ◌≡◌, refl, sym, subst, Bool, true, false, not, Option, none, some, List, [], ◌∷◌,
  contains, if◌then◌else◌, ◌&&◌, ◌||◌,
}
use ansible_platform.Prelude.Dict
use ansible_platform.Prelude.Dict.{Dict}
use ansible_platform.Prelude.Exec.{
  Result, ok, err, Exec, pure, lift, when, resume, ◌>>=◌, Keeps, Keeps-pure, Keeps-lift,
}
use ansible_platform.OobAdmin.{
  Auth, State, Args, Creds, resolve_gid, given, user_params, secret_fields, Fields, change, read,
  write_secrets, mint_key, require_gid, provision_as, provision, main,
}
use ansible_platform.OobAdmin.Laws.{secret_fields_keeps}

-- The file is there, and has for this key what the old one had.
pub record HasField (a : Auth) (old : Fields) (k : String) (s : State a) : Type 0 where
  pub fields : Fields
  pub is_file : s.secrets ≡ some fields
  pub is_kept : Dict.get fields k ≡ Dict.get old k

module _ (a : Auth) (args : Args) (creds : Creds) (old : Fields) (k : String)
    (unique : Dict.NodupKeys old) (present : Dict.has old k ≡ true) (no_key : (k == "key") ≡ false)
    (no_secret : (k == "secret") ≡ false) where
  abbrev IsOld : State a → Type 0
  IsOld s = s.secrets ≡ some old

  -- A statement that may write the file as its last step
  record Ends {A : Type 0} (m : Exec (State a) A) : Type 0 where
    final : (s : State a) → IsOld s → HasField a old k (m s).1

  still : (s : State a) → IsOld s → HasField a old k s
  still s e = record { fields = old; is_file = e; is_kept = refl }

  Ends-resume :
      {A B : Type 0} (r : Result A) (next : A → Exec (State a) B) (s : State a)
      → IsOld s
      → ((x : A) → r ≡ ok x → Ends (next x))
      → HasField a old k (resume r next s).1
  Ends-resume (ok x) next s e h = Ends.final (h x refl) s e
  Ends-resume (err x) next s e h = still s e

  Ends-bind :
      {A B : Type 0} (first : Exec (State a) A) (next : A → Exec (State a) B)
      → Keeps IsOld first
      → ((x : A) → Ends (next x))
      → Ends (first >>= next)
  unfolding ◌>>=◌
  Ends-bind first next h each_next = record {
    final = λ s e. let (r, t) = first s in Ends-resume r next t (h.after s e) (λ x q. each_next x);
  }

  -- After a listing, its answer is known.
  Ends-read :
      {A B : Type 0} (f : Auth.World a → Result A) (next : A → Exec (State a) B)
      → ((w : Auth.World a) (x : A) → f w ≡ ok x → Ends (next x))
      → Ends (read a f >>= next)
  unfolding ◌>>=◌ read
  Ends-read f next h = record {
    final = λ s e. Ends-resume (f s.world) next s e (λ x q. h s.world x q);
  }

  change-IsOld :
      {A : Type 0} (f : Auth.World a → Result A × Auth.World a) → Keeps IsOld (change a f)
  unfolding change
  change-IsOld f = record { after = λ s e. e }

  read-IsOld : {A : Type 0} (f : Auth.World a → Result A) → Keeps IsOld (read a f)
  unfolding read
  read-IsOld f = record { after = λ s e. e }

  require_gid-IsOld : (check : Bool) (gid : Option String) → Keeps IsOld (require_gid a check gid)
  unfolding require_gid lift pure
  require_gid-IsOld true gid = Keeps-pure tt
  require_gid-IsOld false none = Keeps-lift _
  require_gid-IsOld false (some g) = Keeps-pure tt

  mint_key-IsOld :
      (user : String) (check : Bool) (keys : List String) → Keeps IsOld (mint_key a user check keys)
  unfolding mint_key
  mint_key-IsOld user true [] = Keeps-pure _
  mint_key-IsOld user false [] = change-IsOld _
  mint_key-IsOld user check (x ∷ keys) = Keeps-pure _

  write-Ends :
      (b : Bool) (key secret : Option String)
      → Ends
          (when b (write_secrets a (λ existing. secret_fields args creds existing none key secret)))
  unfolding when write_secrets pure
  write-Ends false key secret = record { final = λ s e. still s e }
  write-Ends true key secret = record {
    final = λ s e. record {
      fields = secret_fields args creds s.secrets none key secret;
      is_file = refl;
      is_kept =
          subst (λ f. Dict.get (secret_fields args creds f none key secret) k ≡ Dict.get old k)
            (sym e)
            (secret_fields_keeps args creds old key secret k unique present no_key no_secret);
    };
  }

  no_password :
      (b : Bool) (generated : String) → b ≡ true → (if b then none else some generated) ≡ none
  no_password b generated h = rw h refl

  -- From the listing of the users on, with the password that it leads to
  tail-Ends :
      (check : Bool) (gid password : Option String)
      → password ≡ none
      → Ends (
          change a (a.ensure_user (user_params args gid password) check) >>= λ _.
          read a (a.list_keys args.user) >>= λ keys. mint_key a args.user check keys >>= λ minted.
          when (not check && (given password || given minted.0)) (
            write_secrets a
              (λ existing. secret_fields args creds existing password minted.0 minted.1)))
  tail-Ends check gid password none_new =
      subst
        (λ p. Ends (
          change a (a.ensure_user (user_params args gid p) check) >>= λ _.
          read a (a.list_keys args.user) >>= λ keys. mint_key a args.user check keys >>= λ minted.
          when (not check && (given p || given minted.0))
            (write_secrets a (λ existing. secret_fields args creds existing p minted.0 minted.1))))
        (sym none_new)
        (Ends-bind _ _ (change-IsOld _) λ _. Ends-bind _ _ (read-IsOld _) λ keys.
          Ends-bind _ _ (mint_key-IsOld args.user check keys)
            λ minted. write-Ends _ minted.0 minted.1)

  provision-Ends :
      (check : Bool) (generated : String)
      → ((w : Auth.World a) (users : List String)
          → a.list_users w ≡ ok users
          → contains users args.user ≡ true)
      → Ends (provision_as a check args creds generated)
  unfolding provision_as
  provision-Ends check generated known = Ends-bind _ _ (change-IsOld _) λ _.
      Ends-bind _ _ (read-IsOld _) λ groups.
        Ends-bind _ _ (require_gid-IsOld check (resolve_gid groups args.group)) λ _.
          Ends-bind _ _ (change-IsOld _) λ _. Ends-read _ _ λ w users q.
            tail-Ends check _ _ (no_password (contains users args.user) generated (known w users q))

-- A run for a user whom the firewall lists, on a secrets file: whether it ends or raises, with
-- `--apply` or without, the file is there after it and has every field that it had, the password
-- among them, but `key` and `secret`, which a new key replaces.
pub main_keeps_secrets :
    (a : Auth) (args : Args) (creds : Creds) (generated : String) (s : State a) (old : Fields)
    (k : String)
    → s.secrets ≡ some old
    → Dict.NodupKeys old
    → Dict.has old k ≡ true
    → (k == "key") ≡ false
    → (k == "secret") ≡ false
    → ((w : Auth.World a) (users : List String)
        → a.list_users w ≡ ok users
        → contains users args.user ≡ true)
    → HasField a old k (main a args creds generated s).1
unfolding main provision
main_keeps_secrets a args creds generated s old k e unique present no_key no_secret known =
    Ends.final
      (provision-Ends a args creds old k unique present no_key no_secret (not args.apply) generated
        known)
      s e
