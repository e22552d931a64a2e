-- ===== src/ImpactedPlays/Laws.antt =====
-- scripts/impacted_plays.py: the roles of the closure, and the plays that are listed.
use ansible_platform.Prelude.{
  ℕ, zero, suc, ◌<◌, String, ◌≡◌, refl, ap, ◌↔◌, true, false, not, ◌⊎◌, inl, inr, Bool-cases, List,
  [], ◌∷◌, length-keep-le, contains, length, arith,
}
use ansible_platform.Prelude.Text.{occurs}
use ansible_platform.ImpactedPlays.{
  RoleDir, Playbook, parents, round, closure_loop, role_closure, seed_roles, changed_playbooks,
}
use ansible_platform.ImpactedPlays.Closure.{
  names, unseen, round-measure, round-keeps, round-adds, round-next, round-next_sound,
}

-- `r` pulls in a seed role: it is one, or it refers to a role that does.
pub data PullsIn (dirs : List RoleDir) (seed : List String) : String → Type 0 where
  seeded : {r : String} → contains seed r ≡ true → PullsIn dirs seed r
  refers :
      {r p : String}
      → PullsIn dirs seed r
      → contains (parents dirs r) p ≡ true
      → PullsIn dirs seed p

module _ (dirs : List RoleDir) where
  -- Only the parents of the frontier may still be missing.
  abbrev ClosedBut : List String → List String → Type 0
  ClosedBut c fr =
      (x y : String)
      → contains c x ≡ true
      → contains (parents dirs x) y ≡ true
      → (contains c y ≡ true) ⊎ (contains fr x ≡ true)

  abbrev IsClosed : List String → Type 0
  IsClosed c =
      (x y : String)
      → contains c x ≡ true
      → contains (parents dirs x) y ≡ true
      → contains c y ≡ true

  round-ClosedBut :
      (c fr : List String)
      → ClosedBut c fr
      → ClosedBut (round dirs fr c []).0 (round dirs fr c []).1
  round-ClosedBut c fr h x y m p = elim (Bool-cases (contains (round dirs fr c []).1 x)) [
    | inl next ↦ inr next
    | inr done ↦ inl (settled (h x y (ground (arith, round-next dirs x fr c [])) p))
  ]
    where
      settled :
          (contains c y ≡ true) ⊎ (contains fr x ≡ true) → contains (round dirs fr c []).0 y ≡ true
      settled (inl old) = round-keeps dirs y fr c [] old
      settled (inr f) = round-adds dirs x y fr c [] f p

  -- The frontier is empty, or the fuel exceeds what is unseen.
  abbrev HasFuel : ℕ → List String → List String → Type 0
  HasFuel f c fr = (length fr ≡ 0) ⊎ (length (unseen c (names dirs)) < f)

  round-HasFuel :
      (f : ℕ) (c fr : List String)
      → length (unseen c (names dirs)) < suc f
      → HasFuel f (round dirs fr c []).0 (round dirs fr c []).1
  round-HasFuel f c fr h = ground (arith, round-measure dirs fr c [])

  loop-IsClosed :
      (f : ℕ) (c fr : List String)
      → HasFuel f c fr
      → ClosedBut c fr
      → IsClosed (closure_loop dirs f c fr)
  unfolding closure_loop
  loop-IsClosed zero c [] h k x y m p = ground (arith, k x y m p)
  loop-IsClosed zero c (r ∷ fr) h k x y m p = absurd (ground arith)
  loop-IsClosed (suc f) c [] h k x y m p = ground (arith, k x y m p)
  loop-IsClosed (suc f) c (r ∷ fr) h k x y m p =
      loop-IsClosed f (round dirs (r ∷ fr) c []).0 (round dirs (r ∷ fr) c []).1
        (round-HasFuel f c (r ∷ fr) (ground arith)) (round-ClosedBut c (r ∷ fr) k) x y m p

  loop_keeps :
      (x : String) (f : ℕ) (c fr : List String)
      → contains c x ≡ true
      → contains (closure_loop dirs f c fr) x ≡ true
  unfolding closure_loop
  loop_keeps x zero c fr h = h
  loop_keeps x (suc f) c [] h = h
  loop_keeps x (suc f) c (r ∷ fr) h = loop_keeps x f _ _ (round-keeps dirs x (r ∷ fr) c [] h)

  -- Everything in the list pulls in a seed role.
  abbrev AllPullIn : List String → List String → Type 0
  AllPullIn seed c = (x : String) → contains c x ≡ true → PullsIn dirs seed x

  next-AllPullIn :
      (seed c fr : List String) → AllPullIn seed fr → AllPullIn seed (round dirs fr c []).1
  next-AllPullIn seed c fr h x m = from (round-next_sound dirs x fr c [] m)
    where
      from :
          (contains [] x ≡ true)
            ⊎ ((r : String) × (contains fr r ≡ true) × (contains (parents dirs r) x ≡ true))
          → PullsIn dirs seed x
      from (inl e) = absurd (cc)
      from (inr (r, f, p)) = refers (h r f) p

  loop_sound :
      (seed : List String) (f : ℕ) (c fr : List String)
      → AllPullIn seed c
      → AllPullIn seed fr
      → AllPullIn seed (closure_loop dirs f c fr)
  unfolding closure_loop
  loop_sound seed zero c fr h k = h
  loop_sound seed (suc f) c [] h k = h
  loop_sound seed (suc f) c (r ∷ fr) h k =
      loop_sound seed f _ _ grown (next-AllPullIn seed c (r ∷ fr) k)
    where
      grown : AllPullIn seed (round dirs (r ∷ fr) c []).0
      grown x m = elim (Bool-cases (contains c x)) [
        | inl old ↦ h x old
        | inr new ↦
            next-AllPullIn seed c (r ∷ fr) k x (ground (arith, round-next dirs x (r ∷ fr) c []))
      ]

  length-names : (ds : List RoleDir) → length (names ds) ≡ length ds
  length-names [] = refl
  length-names (d ∷ ds) = ap suc (length-names ds)

  pulled-closed :
      (seed c : List String) (x : String)
      → IsClosed c
      → ((y : String) → contains seed y ≡ true → contains c y ≡ true)
      → PullsIn dirs seed x
      → contains c x ≡ true
  pulled-closed seed c x closed base (seeded h) = base _ h
  pulled-closed seed c x closed base (refers {r = r} t p) =
      closed r x (pulled-closed seed c r closed base t) p

  -- The closure holds a role exactly when that role pulls in a seed role, directly or through other
  -- roles, whatever cycles the references form. So the fuel of the model is enough.
  pub role_closure_exact :
      (seed : List String) (x : String)
      → (contains (role_closure dirs seed) x ≡ true) ↔ PullsIn dirs seed x
  unfolding role_closure
  role_closure_exact seed x = (
    loop_sound seed (suc (length dirs)) seed seed (λ y m. seeded m) (λ y m. seeded m) x,
    pulled-closed seed _ x
        (loop-IsClosed (suc (length dirs)) seed seed
          (inr (
            omega (
              arith,
              length-names dirs,
              length-keep-le {A = String} (λ d. not (contains seed d)) (names dirs),
            )))
          (λ y z m p. inr m))
        (λ y m. loop_keeps y (suc (length dirs)) seed seed m),
  )

module _ (dirs : List RoleDir) (files : List String) (pb : Playbook) where
  -- The path of the play has no `_archive`, and the play changed or uses a role that pulls in a changed one.
  abbrev pub IsImpacted : Type 0
  IsImpacted =
      (occurs "_archive" (Playbook.path pb) ≡ false)
      × ((contains (changed_playbooks files) (Playbook.path pb) ≡ true)
          ⊎ ((r : String) × (contains (Playbook.used pb) r ≡ true)
              × PullsIn dirs (seed_roles files) r))

  abbrev roles : List String
  roles = role_closure dirs (seed_roles files)
