-- ===== src/Prelude/Owes.antt =====
-- Two counters beside each other: what was done, and what a script has counted of it.
use Prim.Native.Nat.{ℕ, ◌+◌}
use mathlib.Core.Path.{◌≡◌}
use mathlib.Core.Bool.{Bool, true, false}
use mathlib.Core.List.{List, [], ◌∷◌}
use native.Mathlib.Omega.{arith}
use ansible_platform.Prelude.Tests.{if◌then◌else◌}
use ansible_platform.Prelude.Exec.{Result, ok, Exec, pure, lift, when, each, ◌>>=◌, >>=-eq-ok}

-- A statement that ends well with `a` takes `owed` things that are done and not counted yet to
-- `left a`.
pub record Owes {S : Type 0} (done counted : S → ℕ) (owed : ℕ) {A : Type 0} (left : A → ℕ)
    (step : Exec S A) : Type 0 where
  pub after :
      (s : S) (a : A)
      → done s ≡ counted s + owed
      → (step s).0 ≡ ok a
      → done (step s).1 ≡ counted (step s).1 + left a

module _ {S : Type 0} {done counted : S → ℕ} where
  pub Owes-bind_by :
      {A B : Type 0} (k : ℕ) (l : A → ℕ) (n : B → ℕ) (m : Exec S A) (f : A → Exec S B)
      → Owes done counted k l m
      → ((a : A) → Owes done counted (l a) n (f a))
      → Owes done counted k n (m >>= f)
  Owes-bind_by k l n m f first next = record {
    after = λ s b h e.
        let (a, p, q) = >>=-eq-ok m f s e in
        rw q ((next a).after (m s).1 b (first.after s a h p) (rw q at e));
  }

  pub Owes-bind :
      {A B : Type 0} (k l n : ℕ) (m : Exec S A) (f : A → Exec S B)
      → Owes done counted k (λ _. l) m
      → ((a : A) → Owes done counted l (λ _. n) (f a))
      → Owes done counted k (λ _. n) (m >>= f)
  Owes-bind k l n m f first next = Owes-bind_by k (λ _. l) (λ _. n) m f first next

  pub Owes-pure_by : {A : Type 0} (l : A → ℕ) (a : A) → Owes done counted (l a) l (pure a)
  unfolding pure
  Owes-pure_by l a = record { after = λ s b h e. grind (arith, h, e) }

  pub Owes-pure : {A : Type 0} (k : ℕ) (a : A) → Owes done counted k (λ _. k) (pure a)
  unfolding pure
  Owes-pure k a = record { after = λ s b h e. h }

  pub Owes-lift : {A : Type 0} (k : ℕ) (r : Result A) → Owes done counted k (λ _. k) (lift r)
  unfolding lift
  Owes-lift k r = record { after = λ s b h e. h }

  pub Owes-when :
      (k : ℕ) (b : Bool) (m : Exec S (Unit {0}))
      → Owes done counted k (λ _. k) m
      → Owes done counted k (λ _. k) (when b m)
  unfolding when
  Owes-when k true m h = h
  Owes-when k false m h = Owes-pure k tt

  pub Owes-if :
      {A : Type 0} (k : ℕ) (l : A → ℕ) (b : Bool) (m n : Exec S A)
      → Owes done counted k l m
      → Owes done counted k l n
      → Owes done counted k l (if b then m else n)
  Owes-if k l true m n h i = h
  Owes-if k l false m n h i = i

  pub Owes-each :
      {A : Type 0} (k : ℕ) (body : A → Exec S (Unit {0})) (xs : List A)
      → ((x : A) → Owes done counted k (λ _. k) (body x))
      → Owes done counted k (λ _. k) (each body xs)
  unfolding each
  Owes-each k body [] h = Owes-pure k tt
  Owes-each k body (x ∷ xs) h = Owes-bind k k k (body x) _ (h x) (λ _. Owes-each k body xs h)
