-- ===== src/ImpactedPlays/Closure.antt =====
-- scripts/impacted_plays.py: the loop of `role_closure`, and its fuel.
use ansible_platform.Prelude.{
  ◌+◌, ◌≤◌, ◌<◌, String, ◌==◌, ==_sound, ◌≡◌, subst, true, false, not, ◌||◌, ◌⊎◌, inl, inr,
  Bool-cases, List, [], ◌∷◌, keep, contains, length, map, arith,
}
use ansible_platform.ImpactedPlays.{RoleDir, parents, visit, round}
use ansible_platform.ImpactedPlays.Visit.{
  visit-keeps, visit-adds, visit-keeps_next, visit-next, visit-next_sound,
}

abbrev pub names : List RoleDir → List String
names = map RoleDir.name

-- The role directories that a closure lacks.
abbrev pub unseen : List String → List String → List String
unseen c ns = keep (λ d. not (contains c d)) ns

unseen-add_le :
    (c ns : List String) (p : String) → length (unseen (p ∷ c) ns) ≤ length (unseen c ns)
unseen-add_le c [] p = omega arith
unseen-add_le c (d ∷ ns) p = ground (arith, unseen-add_le c ns p)

unseen-add_lt :
    (c ns : List String) (p : String)
    → contains ns p ≡ true
    → contains c p ≡ false
    → length (unseen (p ∷ c) ns) < length (unseen c ns)
unseen-add_lt c [] p h k = cc
unseen-add_lt c (d ∷ ns) p h k = ground (arith, unseen-add_le c ns p, unseen-add_lt c ns p)

-- What a visit adds to the next frontier it takes off what is unseen.
visit-measure :
    (ns ps c n : List String)
    → ((x : String) → contains ps x ≡ true → contains ns x ≡ true)
    → length (unseen (visit ps c n).0 ns) + length (visit ps c n).1
      ≤ length (unseen c ns) + length n
unfolding visit
visit-measure ns [] c n h = omega arith
visit-measure ns (p ∷ ps) c n h = ground (
  arith,
  h p,
  visit-measure ns ps c n (λ x m. h x (ground arith)),
  visit-measure ns ps (p ∷ c) (p ∷ n) (λ x m. h x (ground arith)),
  unseen-add_lt c ns p,
)

parents-names :
    (dirs : List RoleDir) (r x : String)
    → contains (parents dirs r) x ≡ true
    → contains (names dirs) x ≡ true
unfolding parents
parents-names [] r x h = h
parents-names (d ∷ dirs) r x h = ground (arith, parents-names dirs r x)

module _ (dirs : List RoleDir) where
  pub round-measure :
      (fr c n : List String)
      → length (unseen (round dirs fr c n).0 (names dirs)) + length (round dirs fr c n).1
        ≤ length (unseen c (names dirs)) + length n
  unfolding round
  round-measure [] c n = omega arith
  round-measure (r ∷ fr) c n = omega (
    arith,
    round-measure fr (visit (parents dirs r) c n).0 (visit (parents dirs r) c n).1,
    visit-measure (names dirs) (parents dirs r) c n (parents-names dirs r),
  )

  pub round-keeps :
      (x : String) (fr c n : List String)
      → contains c x ≡ true
      → contains (round dirs fr c n).0 x ≡ true
  unfolding round
  round-keeps x [] c n h = h
  round-keeps x (r ∷ fr) c n h = round-keeps x fr _ _ (visit-keeps x (parents dirs r) c n h)

  pub round-keeps_next :
      (x : String) (fr c n : List String)
      → contains n x ≡ true
      → contains (round dirs fr c n).1 x ≡ true
  unfolding round
  round-keeps_next x [] c n h = h
  round-keeps_next x (r ∷ fr) c n h =
      round-keeps_next x fr _ _ (visit-keeps_next x (parents dirs r) c n h)

  -- The parents of the whole frontier are in the closure after the round.
  pub round-adds :
      (x y : String) (fr c n : List String)
      → contains fr x ≡ true
      → contains (parents dirs x) y ≡ true
      → contains (round dirs fr c n).0 y ≡ true
  unfolding round
  round-adds x y [] c n h k = cc
  round-adds x y (r ∷ fr) c n h k = elim (Bool-cases (x == r)) [
    | inl same ↦ round-keeps y fr _ _ (
        visit-adds y (parents dirs r) c n
          (subst (λ z. contains (parents dirs z) y ≡ true) (==_sound x r same) k))
    | inr other ↦ round-adds x y fr _ _ (ground arith) k
  ]

  pub round-next :
      (x : String) (fr c n : List String)
      → contains (round dirs fr c n).0 x ≡ true
      → (contains c x || contains (round dirs fr c n).1 x) ≡ true
  unfolding round
  round-next x [] c n h = ground arith
  round-next x (r ∷ fr) c n h = ground (
    arith,
    round-next x fr (visit (parents dirs r) c n).0 (visit (parents dirs r) c n).1,
    visit-next x (parents dirs r) c n,
    round-keeps_next x fr (visit (parents dirs r) c n).0 (visit (parents dirs r) c n).1,
  )

  pub round-next_sound :
      (x : String) (fr c n : List String)
      → contains (round dirs fr c n).1 x ≡ true
      → (contains n x ≡ true)
        ⊎ ((r : String) × (contains fr r ≡ true) × (contains (parents dirs r) x ≡ true))
  unfolding round
  round-next_sound x [] c n h = inl h
  round-next_sound x (r ∷ fr) c n h =
      from_tail
        (round-next_sound x fr (visit (parents dirs r) c n).0 (visit (parents dirs r) c n).1 h)
    where
      from_tail :
          (contains (visit (parents dirs r) c n).1 x ≡ true)
            ⊎ ((s : String) × (contains fr s ≡ true) × (contains (parents dirs s) x ≡ true))
          → (contains n x ≡ true)
            ⊎ ((s : String) × (contains (r ∷ fr) s ≡ true) × (contains (parents dirs s) x ≡ true))
      from_tail (inr (s, f, q)) = inr (s, ground arith, q)
      from_tail (inl v) = elim (Bool-cases (contains n x)) [
        | inl old ↦ inl old
        | inr new ↦ inr (r, ground arith, ground (arith, visit-next_sound x (parents dirs r) c n))
      ]
