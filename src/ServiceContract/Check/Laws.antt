-- ===== src/ServiceContract/Check/Laws.antt =====
-- scripts/check_service_contract.py: the calls of needs_facts in `check`, and the cache between them.
use ansible_platform.Prelude.{
  String, ◌≡◌, inl, inr, In-split, is_empty, if◌then◌else◌, refl, Bool, true, false, Option, none,
  some, List, [], ◌∷◌, ◌++◌, In, here, there,
}
use ansible_platform.ServiceContract.Facts.{RoleDir, Cache}
use ansible_platform.ServiceContract.Facts.Laws.{Needs, Sound, needs_facts_of-Sound}
use ansible_platform.ServiceContract.Check.{
  pattern_failures, compose, timers, mailbox, database, meta, containers, people, native,
  playbook_missing, Failure, facts, data_vars, Document, Service, data_of, one_if, role_failures,
  with_name, reading, ungathered, playbook_failures, check,
}

module _ (dirs : List RoleDir) where
  -- The names are of roles that read facts, themselves or through the roles that they include.
  pub record Reads (names : List String) : Type 0 where
    pub needs : (r : String) → In r names → Needs dirs r

  Reads-cons : (r : String) (names : List String) → Needs dirs r → Reads names → Reads (r ∷ names)
  Reads-cons r names n h = record { needs = λ q m. member q m }
    where
      member : (q : String) → In q (r ∷ names) → Needs dirs q
      member _ here = n
      member q (there m) = h.needs q m

  reading-Reads :
      (rs : List String) (cache : Cache)
      → Sound dirs cache
      → (names : List String) × (after : Cache) × (reading dirs rs cache ≡ some (names, after))
        × Sound dirs after
        × Reads names
  unfolding reading
  reading-Reads [] cache h = ([], cache, refl, h, record { needs = λ r m. elim m [ ] })
  reading-Reads (r ∷ rs) cache h =
      let (b, between, e, s, n) = needs_facts_of-Sound dirs r cache h in
      let (names, after, f, t, k) = reading-Reads rs between s in
      rw (e, f) (named b n names after t k)
    where
      named :
          (b : Bool)
          → (b ≡ true → Needs dirs r)
          → (names : List String) (after : Cache) → Sound dirs after
          → Reads names
          → (all : List String) × (last : Cache) × (with_name dirs r b (some (names, after))
              ≡ some (all, last))
            × Sound dirs last
            × Reads all
      named true n names after t k = (r ∷ names, after, refl, t, Reads-cons r names (n refl) k)
      named false n names after t k = (names, after, refl, t, k)

  -- Whatever roles these failures name for facts do read facts.
  pub record Honest (failures : List Failure) : Type 0 where
    pub named_reads : (names : List String) → In (facts names) failures → Reads names

  Honest-nil : Honest []
  Honest-nil = record { named_reads = λ names m. elim m [ ] }

  Honest-append : (xs ys : List Failure) → Honest xs → Honest ys → Honest (xs ++ ys)
  Honest-append xs ys h k = record {
    named_reads = λ names m. elim (In-split (facts names) xs ys m) [
      | inl i ↦ h.named_reads names i
      | inr i ↦ k.named_reads names i
    ];
  }

  abbrev is_facts : Failure → Bool
  is_facts (facts names) = true
  is_facts f = false

  Honest-other : (f : Failure) → is_facts f ≡ false → Honest (f ∷ [])
  Honest-other f h = record { named_reads = λ names m. absurd (cc (only f names m, h)) }
    where
      only : (f : Failure) (names : List String) → In (facts names) (f ∷ []) → is_facts f ≡ true
      only _ names here = refl
      only f names (there m) = elim m [ ]

  Honest-if :
      (b : Bool) (xs ys : List Failure) → Honest xs → Honest ys → Honest (if b then xs else ys)
  Honest-if true xs ys h k = h
  Honest-if false xs ys h k = k

  Honest-one_if : (names : List String) (f : Failure) → is_facts f ≡ false → Honest (one_if names f)
  Honest-one_if names f h = Honest-if (is_empty names) [] (f ∷ []) Honest-nil (Honest-other f h)

  pattern_failures-Honest : (tasks : String) → Honest (pattern_failures tasks)
  unfolding pattern_failures
  pattern_failures-Honest tasks =
      Honest-append _ _ (Honest-if _ _ _ (Honest-other compose refl) Honest-nil) (
        Honest-append _ _ (Honest-if _ _ _ (Honest-other timers refl) Honest-nil) (
          Honest-append _ _ (Honest-if _ _ _ (Honest-other mailbox refl) Honest-nil)
            (Honest-if _ _ _ (Honest-other database refl) Honest-nil)))

  role_failures-Honest : (users : List String) (svc : Service) → Honest (role_failures users svc)
  unfolding role_failures
  role_failures-Honest users svc =
      Honest-append _ _ (Honest-one_if svc.dependencies (meta svc.dependencies) refl) (
        Honest-append _ _ (Honest-if _ _ _ Honest-nil (Honest-other (containers _) refl)) (
          Honest-append _ _ (pattern_failures-Honest svc.tasks) (
            Honest-append _ _ (Honest-one_if _ (people _) refl)
              (Honest-if _ _ _ (Honest-other native refl) Honest-nil))))

  facts-Honest : (names : List String) → Reads names → Honest (one_if names (facts names))
  facts-Honest [] h = Honest-nil
  facts-Honest (r ∷ rs) h = record { named_reads = λ names m. only names (r ∷ rs) h m }
    where
      only : (names all : List String) → Reads all → In (facts names) (facts all ∷ []) → Reads names
      only names _ h here = h
      only names all h (there m) = elim m [ ]

  playbook-Honest :
      (plays : Option (List Document)) (cache : Cache)
      → Sound dirs cache
      → (failures : List Failure) × (after : Cache) × (playbook_failures dirs plays cache
          ≡ some (failures, after))
        × Sound dirs after
        × Honest failures
  playbook-Honest none cache h =
      (playbook_missing ∷ [], cache, refl, h, Honest-other playbook_missing refl)
  playbook-Honest (some ps) cache h =
      let (names, after, e, s, k) = reading-Reads (ungathered dirs ps) cache h in
      rw e (
        one_if names (facts names) ++ one_if (data_of ps) (data_vars (data_of ps)),
        after,
        refl,
        s,
        Honest-append _ _ (facts-Honest names k)
            (Honest-one_if (data_of ps) (data_vars (data_of ps)) refl),
      )

  -- `check` ends on every service, and if every role that the cache says needs facts does, then so it
  -- is with the cache afterwards, and every role that a failure names for its facts reads facts without
  -- gathering them, itself or through roles that it includes.
  pub check_ends :
      (users : List String) (svc : Service) (cache : Cache)
      → Sound dirs cache
      → (failures : List Failure) × (after : Cache) × (check dirs users svc cache
          ≡ some (failures, after))
        × Sound dirs after
        × Honest failures
  unfolding check
  check_ends users svc cache h =
      let (failures, after, e, s, k) = playbook-Honest svc.plays cache h in
      rw e (
        failures ++ role_failures users svc,
        after,
        refl,
        s,
        Honest-append _ _ k (role_failures-Honest users svc),
      )
