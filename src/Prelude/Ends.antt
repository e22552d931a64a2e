-- ===== src/Prelude/Ends.antt =====
-- Statements that end well: from the states with one property to values and states with another.
use mathlib.Core.Path.{◌≡◌, refl, sym, subst}
use mathlib.Core.Bool.{Bool, true, false}
use mathlib.Core.List.{List, [], ◌∷◌}
use ansible_platform.Prelude.Lists.{In, here, there}
use ansible_platform.Prelude.Exec.{Exec, ok, pure, when, each, ◌>>=◌, >>=-ok}

-- From a state with the first property, the statement ends well, with a value and a state that have the second.
pub record Ends {S A : Type 0} (Before : S → Type 0) (After : A → S → Type 0) (m : Exec S A)
    : Type 0 where
  pub ends : (s : S) → Before s → (a : A) × ((m s).0 ≡ ok a) × After a (m s).1

module _ {S : Type 0} where
  pub Ends-bind :
      {A B : Type 0} (Before : S → Type 0) (Between : A → S → Type 0) (After : B → S → Type 0)
      (m : Exec S A) (f : A → Exec S B)
      → Ends Before Between m
      → ((a : A) → Ends (Between a) After (f a))
      → Ends Before After (m >>= f)
  Ends-bind Before Between After m f first next = record {
    ends = λ s h.
        let (a, p, k) = first.ends s h in
        subst (λ t. (b : _) × (t.0 ≡ ok b) × After b t.1) (sym (>>=-ok m f s a p))
          ((next a).ends (m s).1 k);
  }

  pub Ends-pure : {A : Type 0} (Inv : S → Type 0) (a : A) → Ends Inv (λ _ s. Inv s) (pure {S = S} a)
  unfolding pure
  Ends-pure Inv a = record { ends = λ s h. (a, refl, h) }

  pub Ends-each :
      {A : Type 0} (Inv : S → Type 0) (body : A → Exec S (Unit {0})) (xs : List A)
      → ((x : A) → In x xs → Ends Inv (λ _. Inv) (body x))
      → Ends Inv (λ _. Inv) (each body xs)
  unfolding each
  Ends-each Inv body [] h = Ends-pure Inv tt
  Ends-each Inv body (x ∷ xs) h =
      Ends-bind Inv (λ _. Inv) (λ _. Inv) (body x) (λ _. each body xs) (h x here)
        (λ _. Ends-each Inv body xs (λ y m. h y (there m)))

  pub Ends-when :
      (Inv : S → Type 0) (b : Bool) (m : Exec S (Unit {0}))
      → b ≡ false
      → Ends Inv (λ _. Inv) (when b m)
  unfolding when
  Ends-when Inv true m h = absurd (cc)
  Ends-when Inv false m h = Ends-pure Inv tt

  -- What is known before a statement may be used to show how it ends.
  pub Ends-given :
      {A : Type 0} (P : Type 0) (Before : S → Type 0) (After : A → S → Type 0) (m : Exec S A)
      → (P → Ends Before After m)
      → Ends (λ s. P × Before s) After m
  Ends-given P Before After m h = record { ends = λ s k. (h k.0).ends s k.1 }
