-- ===== src/ImpactedPlays.antt =====
-- scripts/impacted_plays.py: which plays a change reaches. The references of each role and playbook
-- (`roles_used_by`, a set of regular expressions over the files) are the input; sets are lists, and
-- the printed sorting is not modelled.
pub mod Visit
pub mod Closure
pub mod Laws
use ansible_platform.Prelude.{
  ℕ, zero, suc, ltb, String, ◌==◌, Bool, true, false, not, ◌&&◌, ◌||◌, Option, none, some, List, [],
  ◌∷◌, ◌++◌, map, keep, contains, is_empty, length, String-discrete, if◌then◌else◌,
}
use ansible_platform.Prelude.Text.{split, starts, ends, occurs}

-- A directory of roles/ with the roles that its files refer to.
pub record RoleDir : Type 0 where
  pub name : String
  pub refs : List String

-- A playbook's path from the root, with the roles that it refers to.
pub record Playbook : Type 0 where
  pub path : String
  pub used : List String

-- `reverse.get(r, set())`: the roles that refer to `r`
unfoldable pub parents : List RoleDir → String → List String
parents [] r = []
parents (d ∷ dirs) r =
    let rest = parents dirs r in if contains (RoleDir.refs d) r then RoleDir.name d ∷ rest else rest

-- `for parent in ...: if parent not in closure: closure.add(parent); nxt.add(parent)`
unfoldable pub visit : List String → List String → List String → List String × List String
visit [] closure nxt = (closure, nxt)
visit (p ∷ ps) closure nxt =
    visit ps (if contains closure p then closure else p ∷ closure)
      (if contains closure p then nxt else p ∷ nxt)

module _ (dirs : List RoleDir) where
  -- `for r in frontier: ...`
  unfoldable pub round : List String → List String → List String → List String × List String
  unfolding visit
  round [] closure nxt = (closure, nxt)
  round (r ∷ frontier) closure nxt =
      let (c, n) = visit (parents dirs r) closure nxt in round frontier c n

  -- `while frontier: ...`, on fuel
  unfoldable pub closure_loop : ℕ → List String → List String → List String
  unfolding round
  closure_loop zero closure frontier = closure
  closure_loop (suc f) closure [] = closure
  closure_loop (suc f) closure (r ∷ frontier) =
      let (c, n) = round (r ∷ frontier) closure [] in closure_loop f c n

  -- A round that goes on has found a role directory that was not in the closure yet.
  unfoldable pub role_closure : List String → List String
  unfolding closure_loop
  role_closure seed = closure_loop (suc (length dirs)) seed seed

abbrev second : List String → Option String
second (a ∷ b ∷ c ∷ ws) = some b
second _ = none

-- `{f.split("/")[1] for f in files if f.startswith("roles/") and len(f.split("/")) > 2}`
unfoldable pub seed_roles : List String → List String
unfolding starts split
seed_roles [] = []
seed_roles (f ∷ files) =
    let rest = seed_roles files in
    if starts f "roles/"
    then elim (second (split "/" f)) [ none ↦ rest | some role ↦ role ∷ rest ]
    else rest

unfoldable pub changed_playbooks : List String → List String
unfolding starts ends
changed_playbooks files =
    keep (λ f. starts f "playbooks/" && (ends f ".yml" || ends f ".yaml")) files

-- Why a play is listed: it changed, or it uses these roles.
pub data Reason : Type 0 where
  changed : Reason
  uses : List String → Reason

abbrev pub hit : List String → List String → List String
hit used roles = keep (contains roles) used

unfoldable pub reason : List String → List String → Playbook → Option Reason
unfolding occurs
reason files roles pb =
    if occurs "_archive" (Playbook.path pb)
    then none
    else if contains (changed_playbooks files) (Playbook.path pb)
    then some changed
    else if is_empty (hit (Playbook.used pb) roles)
    then none
    else some (uses (hit (Playbook.used pb) roles))

-- The `impacted` dict of `main`.
unfoldable pub impacted : List RoleDir → List Playbook → List String → List (String × Reason)
unfolding role_closure seed_roles reason
impacted dirs [] files = []
impacted dirs (pb ∷ pbs) files =
    let rest = impacted dirs pbs files in
    elim (reason files (role_closure dirs (seed_roles files)) pb) [
      | none ↦ rest
      | some why ↦ (Playbook.path pb, why) ∷ rest
    ]
