-- ===== src/ServiceContract/Facts.antt =====
-- scripts/check_service_contract.py: needs_facts, the search through the roles that a role includes,
-- with the cache that the calls share. What the regular expressions find in the text of a role, and
-- its meta dependencies, are the fields of RoleDir; a role without a directory has none of it.
pub mod Laws
use ansible_platform.Prelude.{
  ℕ, zero, suc, String, ◌==◌, Bool, true, false, not, ◌&&◌, ◌||◌, Option, none, some, List, [], ◌∷◌,
  length, contains, String-discrete, if◌then◌else◌,
}
use ansible_platform.Prelude.Dict
use ansible_platform.Prelude.Dict.{Dict}

-- `direct`: `bool(FACT.search(text)) and not gathers`; `refs`: the dependencies and the included roles
pub record RoleDir : Type 0 where
  pub name : String
  pub direct : Bool
  pub refs : List String

abbrev pub Cache : Type 0
Cache = Dict Bool

-- `none` is what running out of fuel gives.
abbrev pub Answer : Type 0
Answer = Option (Bool × Cache)

module _ (dirs : List RoleDir) where
  unfoldable pub dir_at : List RoleDir → String → Option RoleDir
  dir_at [] r = none
  dir_at (d ∷ ds) r = if d.name == r then some d else dir_at ds r

  abbrev pub is_dir : String → Bool
  is_dir r = elim (dir_at dirs r) [ none ↦ false | some d ↦ true ]

  abbrev pub direct_at : String → Bool
  direct_at r = elim (dir_at dirs r) [ none ↦ false | some d ↦ d.direct ]

  abbrev pub refs_at : String → List String
  refs_at r = elim (dir_at dirs r) [ none ↦ [] | some d ↦ d.refs ]

  abbrev pub answer_then : Answer → (Cache → Answer) → Answer
  answer_then none go = none
  answer_then (some (true, cache)) go = some (true, cache)
  answer_then (some (false, cache)) go = go cache

  -- `any(needs_facts(r, ...) for r in refs if r != role and (ROOT / "roles" / r).is_dir())`
  unfoldable pub any_ref : (String → Cache → Answer) → String → List String → Cache → Answer
  unfolding dir_at
  any_ref ask role [] cache = some (false, cache)
  any_ref ask role (r ∷ refs) cache =
      if not (r == role) && is_dir r
      then answer_then (ask r cache) (λ after. any_ref ask role refs after)
      else any_ref ask role refs cache

  abbrev pub store : String → Answer → Answer
  store role none = none
  store role (some (b, cache)) = some (b, Dict.put role b cache)

  -- A role that is neither in the cache nor seen
  unfoldable pub explore : (String → Cache → Answer) → String → Cache → Answer
  unfolding any_ref Dict.put
  explore ask role cache =
      store role
        (if direct_at role then some (true, cache) else any_ref ask role (refs_at role) cache)

  abbrev pub or_cached : Option Bool → Cache → Answer → Answer
  or_cached none cache rest = rest
  or_cached (some b) cache rest = some (b, cache)

  -- `needs_facts`, on fuel
  unfoldable pub needs_facts : ℕ → List String → String → Cache → Answer
  unfolding explore Dict.get
  needs_facts zero seen role cache = none
  needs_facts (suc f) seen role cache = or_cached (Dict.get cache role) cache (
      if contains seen role
      then some (false, cache)
      else explore (λ r after. needs_facts f (role ∷ seen) r after) role cache)

  -- A call from `check`: nothing is seen yet.
  unfoldable pub needs_facts_of : String → Cache → Answer
  unfolding needs_facts
  needs_facts_of role cache = needs_facts (suc (length dirs)) [] role cache
