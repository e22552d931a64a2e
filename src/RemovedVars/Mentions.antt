-- ===== src/RemovedVars/Mentions.antt =====
-- scripts/check_inventory_removed_vars.py: the files that define a variable, and those that mention it.
use ansible_platform.Prelude.{
  String, ◌==◌, ==_refl, ◌≡◌, sym, Bool, true, false, ◌||◌, ◌⊎◌, Option, some, List, [], ◌∷◌, ◌<>◌,
  refl, In, here, there, subst, contains, is_empty, arith,
}
use Prim.Native.Char.{code}
use Prim.Native.String.append
use ansible_platform.Prelude.Text.{is_word, split, join, starts, ends, strip_left, drop_prefix}
use ansible_platform.Prelude.Substring.{drop_prefix-append}
use ansible_platform.RemovedVars.{mentions, env_of, is_code, readers, matches_tail, starts_no_word}

-- A file of the variables of an environment:
-- inventories/<env>/group_vars/... or inventories/<env>/host_vars/..., a YAML file
pub record IsInventoryFile (env path : String) : Type 0 where
  pub kind : String
  pub rest : List String
  pub parts : split "/" path ≡ "inventories" ∷ env ∷ kind ∷ rest
  pub is_named : (env == "") ≡ false
  pub is_kind : ((kind == "group_vars") || (kind == "host_vars")) ≡ true
  pub is_yaml :
      ((ends (join "/" rest) ".yml" ≡ true) × ((join "/" rest == ".yml") ≡ false))
      ⊎ ((ends (join "/" rest) ".yaml" ≡ true) × ((join "/" rest == ".yaml") ≡ false))

-- A text that is no vault and has the name on its top level.
pub record Defines (parse : String → Option (List String)) (text name : String) : Type 0 where
  pub is_plain : starts (strip_left text) "$ANSIBLE_VAULT" ≡ false
  pub names : List String
  pub parses : parse text ≡ some names
  pub is_name : contains names name ≡ true

-- The last character is one of a word; without one, the flag says it.
abbrev pub last_is_word : Bool → String → Bool
last_is_word b String.[] = b
last_is_word b (String.◌∷◌ c s) = last_is_word (is_word (code c)) s

abbrev pub first_is_word : String → Bool
first_is_word String.[] = false
first_is_word (String.◌∷◌ c s) = is_word (code c)

-- The name stands in the text, with no character of a word on either side.
pub record Mentions (name text : String) : Type 0 where
  pub before : String
  pub after : String
  pub is_text : text ≡ before <> (name <> after)
  pub is_begin : last_is_word false before ≡ false
  pub is_end : first_is_word after ≡ false

yaml-ok :
    (r : String)
    → ((ends r ".yml" ≡ true) × ((r == ".yml") ≡ false))
      ⊎ ((ends r ".yaml" ≡ true) × ((r == ".yaml") ≡ false))
    → matches_tail r ≡ true
yaml-ok r h = ground arith

pub env_of-IsInventoryFile : (env path : String) → IsInventoryFile env path → env_of path ≡ some env
unfolding env_of
env_of-IsInventoryFile env path h =
    simp (h.parts, h.is_named, h.is_kind, yaml-ok (join "/" h.rest) h.is_yaml) refl

starts_no_word-first : (s : String) → first_is_word s ≡ false → starts_no_word s ≡ true
starts_no_word-first String.[] h = refl
starts_no_word-first (String.◌∷◌ c s) h = ground (arith, h)

mentions-front :
    (name s after : String)
    → drop_prefix name s ≡ some after
    → first_is_word after ≡ false
    → mentions false name s ≡ true
unfolding mentions drop_prefix
mentions-front String.[] String.[] after h k = ==_refl ""
mentions-front (String.◌∷◌ d name) String.[] after h k = cc
mentions-front name (String.◌∷◌ c s) after h k = rw h (rw (starts_no_word-first after k) refl)

pub mentions-Mentions :
    (b : Bool) (name before after : String)
    → last_is_word b before ≡ false
    → first_is_word after ≡ false
    → mentions b name (before <> (name <> after)) ≡ true
unfolding mentions
mentions-Mentions b name String.[] after h k =
    subst (λ w. mentions b name w ≡ true) (sym (append.nil (name <> after)))
      (subst (λ x. mentions x name (name <> after) ≡ true) (sym h)
        (mentions-front name (name <> after) after (drop_prefix-append name after) k))
mentions-Mentions b name (String.◌∷◌ c before) after h k =
    subst (λ w. mentions b name w ≡ true) (sym (append.cons c before (name <> after)))
      (ground (arith, mentions-Mentions (is_word (code c)) name before after h k))

pub readers-ne :
    (files : List (String × String)) (path text name : String)
    → In (path, text) files
    → is_code path ≡ true
    → mentions false name text ≡ true
    → is_empty (readers files name) ≡ false
unfolding readers
readers-ne [] path text name m c h = elim m [ ]
readers-ne ((path, text) ∷ files) _ _ name here c h = ground (arith, c, h)
readers-ne ((p, t) ∷ files) path text name (there m) c h =
    ground (arith, readers-ne files path text name m c h)
