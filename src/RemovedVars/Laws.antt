-- ===== src/RemovedVars/Laws.antt =====
-- scripts/check_inventory_removed_vars.py: what a passing change may remove.
use ansible_platform.Prelude.{
  String, ◌==◌, ==_refl, ==_sound, Bool-cases, contains-append, ◌≡◌, sym, ap, Bool, true, false,
  ◌||◌, ◌&&◌, ◌⊎◌, inl, inr, Option, none, some, List, [], ◌∷◌, ◌++◌, refl, ◌∙◌, In, here, there,
  map, any, any-append, subst, String-discrete, contains, is_empty, arith,
}
use ansible_platform.Prelude.Text.{has_suffix}
use ansible_platform.Prelude.Dict
use ansible_platform.Prelude.Dict.{Dict, get-put}
use ansible_platform.RemovedVars.{
  mentions, env_of, is_code, names_in, readers, names_at, difference, removed, check_removed,
  names_by_env, check, main_at,
}
use ansible_platform.RemovedVars.Mentions.{
  IsInventoryFile, Defines, Mentions, env_of-IsInventoryFile, mentions-Mentions, readers-ne,
}

-- The pair is in the list.
abbrev listed : List (String × String) → String → String → Bool
listed gone env name = any (λ (e, n). (e == env) && (n == name)) gone

check_removed-empty :
    (gone files : List (String × String)) (accept : List String) (env name : String)
    → is_empty (check_removed gone files accept) ≡ true
    → listed gone env name ≡ true
    → (contains accept name || is_empty (readers files name)) ≡ true
unfolding check_removed
check_removed-empty [] files accept env name h l = cc
check_removed-empty ((e, n) ∷ gone) files accept env name h l = ground (
  arith,
  check_removed-empty gone files accept env name,
  ap (λ (x : String). is_empty (readers files x)),
)

listed-difference :
    (names other : List String) (env name : String)
    → contains names name ≡ true
    → contains other name ≡ false
    → listed (map (λ (n : String). (env, n)) (difference names other)) env name ≡ true
listed-difference [] other env name h k = cc
listed-difference (x ∷ names) other env name h k =
    ground (arith, listed-difference names other env name)

-- Ahead or behind: the list of one environment, or that of the rest.
or-cases : (a b : Bool) → (a ≡ true) ⊎ (b ≡ true) → (a || b) ≡ true
or-cases a b (inl h) = ground arith
or-cases a b (inr h) = ground arith

names_at-cons :
    (e : String) (names : List String) (base : Dict (List String)) (env name : String)
    → contains (names_at ((e, names) ∷ base) env) name ≡ true
    → ((e ≡ env) × (contains names name ≡ true)) ⊎ (contains (names_at base env) name ≡ true)
unfolding Dict.get
names_at-cons e names base env name h = elim (String-discrete e env) [
  | yes p ↦ inl (p, ground (arith, p))
  | no q ↦ inr (ground arith)
]

listed-removed :
    (base now : Dict (List String)) (env name : String)
    → contains (names_at base env) name ≡ true
    → contains (names_at now env) name ≡ false
    → listed (removed base now) env name ≡ true
unfolding removed Dict.get
listed-removed [] now env name h k = cc
listed-removed ((e, names) ∷ base) now env name h k =
    rw
      (any-append (λ (x : String × String). x.0 == env && x.1 == name)
        (map (λ (n : String). (e, n)) (difference names (names_at now e))) (removed base now))
      (or-cases _ _ (elim (names_at-cons e names base env name h) [
        | inl (p, m) ↦ inl (
            subst
              (λ (f : String).
                listed (map (λ (n : String). (e, n)) (difference names (names_at now e))) f name
                ≡ true)
              p
              (listed-difference names (names_at now e) e name m
                (subst (λ (f : String). contains (names_at now f) name ≡ false) (sym p) k)))
        | inr m ↦ inr (listed-removed base now env name m k)
      ]))

Option-cases : (o : Option String) → (o ≡ none) ⊎ ((s : String) × (o ≡ some s))
Option-cases none = inl refl
Option-cases (some s) = inr (s, refl)

no_names : (env name : String) → contains (names_at [] env) name ≡ false
unfolding Dict.get
no_names env name = refl

module _ (parse : String → Option (List String)) (env name : String) where
  names_in-Defines :
      (text : String) → Defines parse text name → contains (names_in parse text) name ≡ true
  unfolding names_in
  names_in-Defines text d = simp (d.is_plain, d.parses) d.is_name

  names_by_env-none :
      (path text : String) (files : List (String × String)) (out : Dict (List String))
      → env_of path ≡ none
      → names_by_env parse ((path, text) ∷ files) out ≡ names_by_env parse files out
  unfolding names_by_env
  names_by_env-none path text files out e = rw e refl

  names_by_env-some :
      (path text e : String) (files : List (String × String)) (out : Dict (List String))
      → env_of path ≡ some e
      → names_by_env parse ((path, text) ∷ files) out
        ≡ names_by_env parse files (Dict.put e (names_at out e ++ names_in parse text) out)
  unfolding names_by_env
  names_by_env-some path text e files out h = rw h refl

  -- The names of the environment with those of one more file
  names_at-put :
      (e : String) (names : List String) (out : Dict (List String))
      → contains (names_at (Dict.put e (names_at out e ++ names) out) env) name
        ≡ (contains (names_at out env) name || ((e == env) && contains names name))
  names_at-put e names out = ground (
    arith,
    get-put e env (names_at out e ++ names) out,
    contains-append (names_at out e) names name,
    ap (λ (k : String). Dict.get out k),
  )

  abbrev Has : Dict (List String) → Type 0
  Has out = contains (names_at out env) name ≡ true

  Has-names_by_env :
      (files : List (String × String)) (out : Dict (List String))
      → Has out
      → Has (names_by_env parse files out)
  unfolding names_by_env
  Has-names_by_env [] out h = h
  Has-names_by_env ((path, text) ∷ files) out h = elim (Option-cases (env_of path)) [
    | inl e ↦ rw (names_by_env-none path text files out e) (Has-names_by_env files out h)
    | inr (k, e) ↦
        rw (names_by_env-some path text k files out e)
          (Has-names_by_env files _ (ground (arith, names_at-put k (names_in parse text) out, h)))
  ]

  Has-Defines :
      (files : List (String × String)) (out : Dict (List String)) (path text : String)
      → In (path, text) files
      → IsInventoryFile env path
      → Defines parse text name
      → Has (names_by_env parse files out)
  unfolding names_by_env
  Has-Defines [] out path text m f d = elim m [ ]
  Has-Defines ((path, text) ∷ files) out _ _ here f d =
      rw (names_by_env-some path text env files out (env_of-IsInventoryFile env path f)) (
        Has-names_by_env files _ (
          ground (
            arith,
            names_at-put env (names_in parse text) out,
            names_in-Defines text d,
            ==_refl env,
          )))
  Has-Defines ((p, t) ∷ files) out path text (there m) f d = elim (Option-cases (env_of p)) [
    | inl e ↦ rw (names_by_env-none p t files out e) (Has-Defines files out path text m f d)
    | inr (k, e) ↦ rw (names_by_env-some p t k files out e) (Has-Defines files _ path text m f d)
  ]

  -- No file of the environment has the name.
  abbrev pub IsGone : List (String × String) → Type 0
  IsGone files =
      (path text : String)
      → In (path, text) files
      → env_of path ≡ some env
      → contains (names_in parse text) name ≡ false

  put-gone :
      (k path text : String) {files : List (String × String)} (out : Dict (List String))
      → contains (names_at out env) name ≡ false
      → IsGone ((path, text) ∷ files)
      → env_of path ≡ some k
      → contains (names_at (Dict.put k (names_at out k ++ names_in parse text) out) env) name
        ≡ false
  put-gone k path text out h gone e =
      rw (names_at-put k (names_in parse text) out, h)
        (elim (Bool-cases (k == env)) [
          | inl q ↦ rw q (gone path text here (e ∙ ap some (==_sound k env q)))
          | inr q ↦ rw q refl
        ])

  IsGone-names_by_env :
      (files : List (String × String)) (out : Dict (List String))
      → contains (names_at out env) name ≡ false
      → IsGone files
      → contains (names_at (names_by_env parse files out) env) name ≡ false
  unfolding names_by_env
  IsGone-names_by_env [] out h gone = h
  IsGone-names_by_env ((path, text) ∷ files) out h gone = elim (Option-cases (env_of path)) [
    | inl e ↦
        rw (names_by_env-none path text files out e)
          (IsGone-names_by_env files out h (λ p t m. gone p t (there m)))
    | inr (k, e) ↦ rw (names_by_env-some path text k files out e) (
        IsGone-names_by_env files _ (put-gone k path text out h gone e)
          (λ p t m. gone p t (there m)))
  ]

-- When the check of a change ends with 0, and a file of the base commit defines a variable of an
-- environment that no file of that environment now has, then the variable is on the accepted list,
-- if any .yml, .yaml, .j2 or .py file that is searched mentions it as a whole word.
pub main_at_complete :
    (parse : String → Option (List String)) (base now files : List (String × String))
    (accept : List String) (env name path text reader read : String)
    → main_at parse base now files accept ≡ 0
    → In (path, text) base
    → IsInventoryFile env path
    → Defines parse text name
    → IsGone parse env name now
    → In (reader, read) files
    → any (has_suffix reader) (".yml" ∷ ".yaml" ∷ ".j2" ∷ ".py" ∷ []) ≡ true
    → Mentions name read
    → contains accept name ≡ true
unfolding main_at check is_code
main_at_complete parse base now files accept env name path text reader read h m f d gone k c u =
    let old = names_by_env parse base [] in
    let new = names_by_env parse now [] in
    let passed = check_removed-empty (removed old new) files accept env name (ground arith) (
      listed-removed old new env name (Has-Defines parse env name base [] path text m f d)
        (IsGone-names_by_env parse env name now [] (no_names env name) gone)) in
    let found = readers-ne files reader read name k c (
      subst (λ w. mentions false name w ≡ true) (sym u.is_text)
        (mentions-Mentions false name u.before u.after u.is_begin u.is_end)) in
    ground (arith, passed, found)
