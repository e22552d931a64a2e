-- ===== src/Tests/Plays.antt =====
-- scripts/impacted_plays.py on a chain of roles with a cycle.
use ansible_platform.Prelude.{
  String, ◌≡◌, ◌↔◌, refl, true, List, [], ◌∷◌, contains, String-discrete,
}
use ansible_platform.ImpactedPlays.{
  RoleDir, Playbook, uses, parents, role_closure, changed_playbooks, impacted,
}
use ansible_platform.ImpactedPlays.Laws.{PullsIn, role_closure_exact}

abbrev dirs : List RoleDir
dirs =
    record { name = "docker"; refs = "base" ∷ [] }
    ∷ record { name = "gitlab"; refs = "docker" ∷ [] }
    ∷ record { name = "base"; refs = "gitlab" ∷ [] }
    ∷ record { name = "banner"; refs = [] }
    ∷ []

abbrev site : Playbook
site = record { path = "playbooks/site.yml"; used = "gitlab" ∷ "banner" ∷ [] }

abbrev files : List String
files = "roles/base/tasks/main.yml" ∷ []

closure_runs : role_closure dirs ("base" ∷ []) ≡ "gitlab" ∷ "docker" ∷ "base" ∷ []
unfolding role_closure parents String-discrete
closure_runs = refl

impacted_runs :
    impacted dirs (site ∷ []) files ≡ (("playbooks/site.yml", uses ("gitlab" ∷ [])) ∷ [])
unfolding impacted parents changed_playbooks String-discrete
impacted_runs = refl

role_closure_exact_example :
    (contains (role_closure dirs ("base" ∷ [])) "docker" ≡ true)
    ↔ PullsIn dirs ("base" ∷ []) "docker"
role_closure_exact_example = role_closure_exact dirs ("base" ∷ []) "docker"
