-- ===== src/ImpactedPlays/Visit.antt =====
-- scripts/impacted_plays.py: one round of `role_closure`.
use ansible_platform.Prelude.{
  String, ◌≡◌, true, ◌||◌, List, [], ◌∷◌, contains, arith, if◌then◌else◌,
}
use ansible_platform.ImpactedPlays.{visit}

module _ (x : String) where
  pub visit-keeps :
      (ps c n : List String) → contains c x ≡ true → contains (visit ps c n).0 x ≡ true
  unfolding visit
  visit-keeps [] c n h = h
  visit-keeps (p ∷ ps) c n h = visit-keeps ps _ _ (ground arith)

  pub visit-adds :
      (ps c n : List String) → contains ps x ≡ true → contains (visit ps c n).0 x ≡ true
  unfolding visit
  visit-adds [] c n h = cc
  visit-adds (p ∷ ps) c n h = ground (
    arith,
    visit-adds ps (if contains c p then c else p ∷ c) (if contains c p then n else p ∷ n),
    visit-keeps ps (if contains c p then c else p ∷ c) (if contains c p then n else p ∷ n),
  )

  pub visit-keeps_next :
      (ps c n : List String) → contains n x ≡ true → contains (visit ps c n).1 x ≡ true
  unfolding visit
  visit-keeps_next [] c n h = h
  visit-keeps_next (p ∷ ps) c n h = visit-keeps_next ps _ _ (ground arith)

  -- What is new in the closure is in the next frontier too.
  pub visit-next :
      (ps c n : List String)
      → contains (visit ps c n).0 x ≡ true
      → (contains c x || contains (visit ps c n).1 x) ≡ true
  unfolding visit
  visit-next [] c n h = ground arith
  visit-next (p ∷ ps) c n h = ground (
    arith,
    visit-next ps (if contains c p then c else p ∷ c) (if contains c p then n else p ∷ n),
    visit-keeps_next ps (if contains c p then c else p ∷ c) (if contains c p then n else p ∷ n),
  )

  pub visit_sound :
      (ps c n : List String)
      → contains (visit ps c n).0 x ≡ true
      → (contains c x || contains ps x) ≡ true
  unfolding visit
  visit_sound [] c n h = ground arith
  visit_sound (p ∷ ps) c n h = ground (
    arith,
    visit_sound ps (if contains c p then c else p ∷ c) (if contains c p then n else p ∷ n),
  )

  pub visit-next_sound :
      (ps c n : List String)
      → contains (visit ps c n).1 x ≡ true
      → (contains n x || contains ps x) ≡ true
  unfolding visit
  visit-next_sound [] c n h = ground arith
  visit-next_sound (p ∷ ps) c n h = ground (
    arith,
    visit-next_sound ps (if contains c p then c else p ∷ c) (if contains c p then n else p ∷ n),
  )
