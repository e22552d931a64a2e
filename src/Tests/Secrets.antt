-- ===== src/Tests/Secrets.antt =====
-- Runs of the provisioning of the break-glass admin, and of the check of removed variables.
use ansible_platform.Prelude.{
  ℕ, String, ◌==◌, here, inl, subst, ◌≡◌, refl, true, false, Option, none, some, List, [], ◌∷◌,
  contains, String-discrete, if◌then◌else◌,
}
use ansible_platform.Prelude.Text.{split, join, ends, starts, strip_left, drop_prefix, has_suffix}
use ansible_platform.Prelude.Dict
use ansible_platform.Prelude.Dict.{Dict}
use ansible_platform.Prelude.Exec.{Result, ok, err}
use ansible_platform.OobAdmin as OobAdmin
use ansible_platform.OobAdmin.{Auth, State, Args, Creds, Fields, secret_fields}
use ansible_platform.OobAdmin.Laws.{main_dry}
use ansible_platform.OobAdmin.Secrets.{HasField, main_keeps_secrets}
use ansible_platform.RemovedVars.{
  env_of, mentions, names_by_env, names_in, readers, main_at, check, check_removed, removed,
}
use ansible_platform.RemovedVars.Laws.{main_at_complete}

-- A device that counts the changes made to it.
abbrev counting : Auth
counting = record {
  World = ℕ;
  ensure_group = λ name check n. (ok tt, if check then n else 1);
  list_groups = λ n. ok (("oob-admins", some "2000") ∷ []);
  ensure_priv = λ name check n. (ok tt, if check then n else 1);
  list_users = λ n. ok [];
  ensure_user = λ params check n. (ok tt, if check then n else 1);
  list_keys = λ user n. ok [];
  create_key = λ user n. (ok (some "k", some "s"), 1);
}

abbrev args : Args
args = record {
  user = "oob-admin";
  group = "oob-admins";
  email = "";
  domain = "example.org";
  apply = false;
}

abbrev creds : Creds
creds = record { host = "10.0.0.1"; port = "443"; verify_ssl = "False" }

abbrev start : State counting
start = record { world = 0; secrets = none }

main_dry_example : (OobAdmin.main counting args creds "pw" start).1 ≡ start
main_dry_example =
    main_dry counting args creds "pw" start
      (record { group = λ name w. refl; priv = λ name w. refl; user = λ params w. refl }) refl

abbrev old_fields : Fields
old_fields = ("webgui_password", some "old") ∷ ("port", some "4443") ∷ []

-- It lists the user, who has no key yet.
abbrev listing : Auth
listing = record counting { list_users = λ n. ok ("oob-admin" ∷ []) }

abbrev with_file : State listing
with_file = record { world = 0; secrets = some old_fields }

abbrev listed_users : Result (List String) → List String
listed_users (ok users) = users
listed_users (err e) = []

known_user :
    (n : ℕ) (users : List String)
    → ok ("oob-admin" ∷ []) ≡ ok users
    → contains users "oob-admin" ≡ true
unfolding String-discrete
known_user n users e = subst (λ r. contains (listed_users r) "oob-admin" ≡ true) e refl

main_keeps_secrets_example :
    HasField listing old_fields "webgui_password"
      (OobAdmin.main listing (record args { apply = true }) creds "pw" with_file).1
unfolding Dict.has String-discrete
main_keeps_secrets_example =
    main_keeps_secrets listing (record args { apply = true }) creds "pw" with_file old_fields
      "webgui_password" refl (refl, (refl, tt)) refl refl refl known_user

abbrev base_files : List (String × String)
base_files = ("inventories/prod/group_vars/all/dns.yml", "dns_ttl: 60") ∷ []

abbrev read_names : String → Option (List String)
read_names t = if t == "dns_ttl: 60" then some ("dns_ttl" ∷ []) else none

abbrev code_files : List (String × String)
code_files = ("roles/dns/tasks/main.yml", "ttl: \"{{ dns_ttl }}\"") ∷ []

-- Nothing defines the variable any more, and it is on the accepted list.
main_at_complete_example : contains ("dns_ttl" ∷ []) "dns_ttl" ≡ true
unfolding main_at check removed check_removed names_by_env names_in env_of split join ends starts
    strip_left drop_prefix readers mentions Dict.get Dict.put String-discrete has_suffix
main_at_complete_example =
    main_at_complete read_names base_files [] code_files ("dns_ttl" ∷ []) "prod" "dns_ttl"
      "inventories/prod/group_vars/all/dns.yml" "dns_ttl: 60" "roles/dns/tasks/main.yml"
      "ttl: \"{{ dns_ttl }}\"" refl here
      (record {
        kind = "group_vars";
        rest = "all" ∷ "dns.yml" ∷ [];
        parts = refl;
        is_named = refl;
        is_kind = refl;
        is_yaml = inl (refl, refl);
      })
      (record { is_plain = refl; names = "dns_ttl" ∷ []; parses = refl; is_name = refl })
      (λ p t m. elim m [ ]) here refl
      (record {
        before = "ttl: \"{{ ";
        after = " }}\"";
        is_text = refl;
        is_begin = refl;
        is_end = refl;
      })
