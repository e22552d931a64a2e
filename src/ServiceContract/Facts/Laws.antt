-- ===== src/ServiceContract/Facts/Laws.antt =====
-- scripts/check_service_contract.py: the answers of needs_facts, its cache, and its fuel.
use ansible_platform.Prelude.{
  ℕ, zero, suc, ◌≤◌, ◌<◌, String, ◌==◌, ◌≡◌, ◌≢◌, refl, ap, subst, Bool, true, false, not, ◌&&◌,
  Option, none, some, List, [], ◌∷◌, length, length-keep-le, keep, contains, arith, String-discrete,
  if◌then◌else◌,
}
use ansible_platform.Prelude.Dict
use ansible_platform.Prelude.Dict.{Dict, get-put}
use ansible_platform.ServiceContract.Facts.{
  RoleDir, Cache, Answer, dir_at, is_dir, direct_at, refs_at, answer_then, any_ref, store, explore,
  or_cached, needs_facts, needs_facts_of,
}

contains-later :
    (r q : String) (refs : List String) → contains refs q ≡ true → contains (r ∷ refs) q ≡ true
contains-later r q refs k = ground arith

contains-head : (r : String) (refs : List String) → contains (r ∷ refs) r ≡ true
contains-head r refs = ground arith

module _ (dirs : List RoleDir) where
  -- The role reads facts without gathering them, or includes one that needs them.
  pub data Needs : String → Type 0 where
    reads : (r : String) → direct_at dirs r ≡ true → Needs r
    includes : (r q : String) → contains (refs_at dirs r) q ≡ true → Needs q → Needs r

  -- Every role that the cache says needs facts does.
  pub record Sound (cache : Cache) : Type 0 where
    pub cached : (r : String) → Dict.get cache r ≡ some true → Needs r

  -- An answer that says no more than what is so of the role.
  abbrev pub Honest : String → Answer → Type 0
  Honest role none = Unit
  Honest role (some (b, cache)) = Sound cache × (b ≡ true → Needs role)

  Sound-put :
      (role : String) (b : Bool) (cache : Cache)
      → Sound cache
      → (b ≡ true → Needs role)
      → Sound (Dict.put role b cache)
  Sound-put role b cache s n = record {
    cached = λ r h. elim (String-discrete role r) [
      | yes p ↦ subst Needs p (n (ground (arith, get-put role r b cache)))
      | no q ↦ s.cached r (ground (arith, get-put role r b cache))
    ];
  }

  Honest-store : (role : String) (a : Answer) → Honest role a → Honest role (store dirs role a)
  Honest-store role none h = tt
  Honest-store role (some (b, cache)) (s, n) = (Sound-put role b cache s n, n)

  Honest-if :
      (role : String) (b : Bool) (x y : Answer)
      → (b ≡ true → Honest role x)
      → Honest role y
      → Honest role (if b then x else y)
  Honest-if role true x y h k = h refl
  Honest-if role false x y h k = k

  Honest-then :
      (role r : String) (a : Answer) (go : Cache → Answer)
      → contains (refs_at dirs role) r ≡ true
      → Honest r a
      → ((cache : Cache) → Sound cache → Honest role (go cache))
      → Honest role (answer_then dirs a go)
  Honest-then role r none go m h k = tt
  Honest-then role r (some (true, cache)) go m (s, n) k = (s, λ _. includes role r m (n refl))
  Honest-then role r (some (false, cache)) go m (s, n) k = k cache s

  -- The calls that the search makes are sound.
  abbrev Asks : (String → Cache → Answer) → Type 0
  Asks ask = (r : String) (cache : Cache) → Sound cache → Honest r (ask r cache)

  any_ref-Honest :
      (ask : String → Cache → Answer) (role : String) (refs : List String) (cache : Cache)
      → Asks ask
      → ((q : String) → contains refs q ≡ true → contains (refs_at dirs role) q ≡ true)
      → Sound cache
      → Honest role (any_ref dirs ask role refs cache)
  unfolding any_ref
  any_ref-Honest ask role [] cache h m s = (s, λ e. cc)
  any_ref-Honest ask role (r ∷ refs) cache h m s =
      Honest-if role (not (r == role) && is_dir dirs r) _ _
        (λ _.
          Honest-then role r (ask r cache) _ (m r (contains-head r refs)) (h r cache s) (λ left t.
            any_ref-Honest ask role refs left h (λ q k. m q (contains-later r q refs k)) t))
        (any_ref-Honest ask role refs cache h (λ q k. m q (contains-later r q refs k)) s)

  explore-Honest :
      (ask : String → Cache → Answer) (role : String) (cache : Cache)
      → Asks ask
      → Sound cache
      → Honest role (explore dirs ask role cache)
  unfolding explore
  explore-Honest ask role cache h s = Honest-store role _ (
      Honest-if role (direct_at dirs role) (some (true, cache)) _ (λ e. (s, λ _. reads role e))
        (any_ref-Honest ask role (refs_at dirs role) cache h (λ q m. m) s))

  Honest-cached :
      (role : String) (o : Option Bool) (cache : Cache) (rest : Answer)
      → Dict.get cache role ≡ o
      → Sound cache
      → Honest role rest
      → Honest role (or_cached dirs o cache rest)
  Honest-cached role none cache rest e s h = h
  Honest-cached role (some true) cache rest e s h = (s, λ _. s.cached role e)
  Honest-cached role (some false) cache rest e s h = (s, λ f. cc)

  needs_facts-Honest :
      (f : ℕ) (seen : List String) (role : String) (cache : Cache)
      → Sound cache
      → Honest role (needs_facts dirs f seen role cache)
  unfolding needs_facts
  needs_facts-Honest zero seen role cache s = tt
  needs_facts-Honest (suc f) seen role cache s =
      Honest-cached role (Dict.get cache role) cache _ refl s (
        Honest-if role (contains seen role) (some (false, cache)) _ (λ _. (s, λ e. cc))
          (explore-Honest _ role cache (λ r left t. needs_facts-Honest f (role ∷ seen) r left t) s))

  -- The directories whose role is not seen yet.
  abbrev unseen : List RoleDir → List String → ℕ
  unseen ds seen = length (keep (λ d. not (contains seen (RoleDir.name d))) ds)

  unseen-le :
      (ds : List RoleDir) (role : String) (seen : List String)
      → unseen ds (role ∷ seen) ≤ unseen ds seen
  unseen-le [] role seen = omega arith
  unseen-le (d ∷ ds) role seen = ground (arith, unseen-le ds role seen)

  abbrev found_in : List RoleDir → String → Bool
  found_in ds r = elim (dir_at dirs ds r) [ none ↦ false | some d ↦ true ]

  unseen-lt :
      (ds : List RoleDir) (role : String) (seen : List String)
      → found_in ds role ≡ true
      → contains seen role ≡ false
      → unseen ds (role ∷ seen) < unseen ds seen
  unfolding dir_at
  unseen-lt [] role seen h k = cc
  unseen-lt (d ∷ ds) role seen h k =
      ground (arith, unseen-lt ds role seen, unseen-le ds role seen, ap (contains seen))

  store-ends : (role : String) (a : Answer) → a ≢ none → store dirs role a ≢ none
  store-ends role none h = h
  store-ends role (some (b, cache)) h = λ e. cc

  then-ends :
      (a : Answer) (go : Cache → Answer)
      → a ≢ none
      → ((c : Cache) → go c ≢ none)
      → answer_then dirs a go ≢ none
  then-ends none go h k = absurd (h refl)
  then-ends (some (true, cache)) go h k = λ e. cc
  then-ends (some (false, cache)) go h k = k cache

  if-ends :
      (b : Bool) (x y : Answer)
      → (b ≡ true → x ≢ none)
      → (b ≡ false → y ≢ none)
      → (if b then x else y) ≢ none
  if-ends true x y h k = h refl
  if-ends false x y h k = k refl

  cached-ends :
      (o : Option Bool) (cache : Cache) (rest : Answer)
      → rest ≢ none
      → or_cached dirs o cache rest ≢ none
  cached-ends none cache rest h = h
  cached-ends (some b) cache rest h = λ e. cc

  any_ref-ends :
      (ask : String → Cache → Answer) (role : String) (refs : List String) (cache : Cache)
      → ((r : String) (c : Cache) → is_dir dirs r ≡ true → ask r c ≢ none)
      → any_ref dirs ask role refs cache ≢ none
  unfolding any_ref
  any_ref-ends ask role [] cache h = λ e. cc
  any_ref-ends ask role (r ∷ refs) cache h =
      if-ends (not (r == role) && is_dir dirs r) _ _
        (λ t.
          then-ends (ask r cache) _ (h r cache (ground (arith, t)))
            (λ c. any_ref-ends ask role refs c h))
        (λ _. any_ref-ends ask role refs cache h)

  any_ref-nil :
      (ask : String → Cache → Answer) (role : String) (cache : Cache)
      → any_ref dirs ask role [] cache ≢ none
  unfolding any_ref
  any_ref-nil ask role cache = λ e. cc

  -- With no directory there are no references.
  refs-ends :
      (ask : String → Cache → Answer) (role : String) (o : Option RoleDir) (cache : Cache)
      → (elim o [ none ↦ false | some d ↦ true ] ≡ true
          → (r : String) (c : Cache) → is_dir dirs r ≡ true
          → ask r c ≢ none)
      → any_ref dirs ask role (elim o [ none ↦ [] | some d ↦ d.refs ]) cache ≢ none
  refs-ends ask role none cache h = any_ref-nil ask role cache
  refs-ends ask role (some d) cache h = any_ref-ends ask role d.refs cache (h refl)

  explore-ends :
      (ask : String → Cache → Answer) (role : String) (cache : Cache)
      → (is_dir dirs role ≡ true → (r : String) (c : Cache) → is_dir dirs r ≡ true → ask r c ≢ none)
      → explore dirs ask role cache ≢ none
  unfolding explore
  explore-ends ask role cache h = store-ends role _ (
      if-ends (direct_at dirs role) (some (true, cache)) _ (λ _ e. cc)
        (λ _. refs-ends ask role (dir_at dirs dirs role) cache h))

  needs_facts-ends :
      (f : ℕ) (seen : List String) (role : String) (cache : Cache)
      → unseen dirs seen < f
      → needs_facts dirs f seen role cache ≢ none
  unfolding needs_facts
  needs_facts-ends zero seen role cache h = absurd (omega (arith, h))
  needs_facts-ends (suc f) seen role cache h = cached-ends (Dict.get cache role) cache _ (
      if-ends (contains seen role) (some (false, cache)) _ (λ _ e. cc)
        (λ new. explore-ends _ role cache (λ d r c _.
          needs_facts-ends f (role ∷ seen) r c (omega (arith, unseen-lt dirs role seen d new, h)))))

  -- Whatever the references and the cache, a call from `check` ends.
  pub needs_facts_of_ends : (role : String) (cache : Cache) → needs_facts_of dirs role cache ≢ none
  unfolding needs_facts_of
  needs_facts_of_ends role cache =
      needs_facts-ends (suc (length dirs)) [] role cache
        (omega (arith, length-keep-le (λ d. not (contains [] (RoleDir.name d))) dirs))

  answered :
      (role : String) (a : Answer)
      → a ≢ none
      → Honest role a
      → (b : Bool) × (after : Cache) × (a ≡ some (b, after)) × Sound after × (b ≡ true → Needs role)
  answered role none h k = absurd (h refl)
  answered role (some (b, cache)) h (s, n) = (b, cache, refl, s, n)

  -- A call ends, and if every role that the cache says needs facts does, then so it is with the cache
  -- afterwards, and a role that is reported does read facts without gathering them, itself or
  -- through the roles that it includes.
  pub needs_facts_of-Sound :
      (role : String) (cache : Cache)
      → Sound cache
      → (b : Bool) × (after : Cache) × (needs_facts_of dirs role cache ≡ some (b, after))
        × Sound after
        × (b ≡ true → Needs role)
  unfolding needs_facts_of
  needs_facts_of-Sound role cache s =
      answered role (needs_facts_of dirs role cache) (needs_facts_of_ends role cache)
        (needs_facts-Honest (suc (length dirs)) [] role cache s)
