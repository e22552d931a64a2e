-- ===== src/Prelude/Exec.antt =====
-- Statements that change a state and may raise. What was written before a raise stays written.
use mathlib.Core.Path.{◌≡◌, refl, ap}
use mathlib.Core.Bool.{Bool, true, false}
use mathlib.Core.List.{List, [], ◌∷◌}
use Prim.Native.String.{String}
use ansible_platform.Prelude.Tests.{if◌then◌else◌}

-- The exceptions that leave a script: `SystemExit` with its message, Python's own, and one of a
-- library for a remote API.
pub data Raised : Type 0 where
  system_exit : String → Raised
  type_error attribute_error key_error api_error : Raised

pub data Result {ℓ} (A : Type ℓ) : Type ℓ where
  ok : A → Result A
  err : Raised → Result A

abbrev pub then_result {ℓ κ} : {A : Type ℓ} {B : Type κ} → Result A → (A → Result B) → Result B
then_result (ok a) f = f a
then_result (err e) f = err e

abbrev pub Exec {ℓ} : Type ℓ → Type 0 → Type ℓ
Exec S A = S → Result A × S

module _ {ℓ} {S : Type ℓ} where
  abbrev pub resume : {A B : Type 0} → Result A → (A → Exec S B) → Exec S B
  resume (ok a) f s = f a s
  resume (err e) f s = (err e, s)

  infixl 5 ◌>>=◌ ◌>>◌
  unfoldable pub ◌>>=◌ : {A B : Type 0} → Exec S A → (A → Exec S B) → Exec S B
  ◌>>=◌ m f s = let (r, t) = m s in resume r f t

  abbrev pub ◌>>◌ : {B : Type 0} → Exec S (Unit {0}) → Exec S B → Exec S B
  m >> k = m >>= λ _. k

  unfoldable pub pure : {A : Type 0} → A → Exec S A
  pure a s = (ok a, s)

  unfoldable pub lift : {A : Type 0} → Result A → Exec S A
  lift r s = (r, s)

  -- `if b: m`
  unfoldable pub when : Bool → Exec S (Unit {0}) → Exec S (Unit {0})
  unfolding pure
  when b m = if b then m else pure tt

  -- `for x in xs: body(x)`
  unfoldable pub each : {A : Type 0} → (A → Exec S (Unit {0})) → List A → Exec S (Unit {0})
  unfolding pure ◌>>=◌
  each body [] = pure tt
  each body (x ∷ xs) = body x >> each body xs

-- The property holds after the statement if it held before, whether it ends or raises.
pub record Keeps {ℓ κ} {S : Type ℓ} (Inv : S → Type κ) {A : Type 0} (step : Exec S A)
    : Type (ℓ ⊔ κ) where
  pub after : (before : S) → Inv before → Inv (step before).1

module _ {ℓ κ} {S : Type ℓ} {Inv : S → Type κ} where
  Keeps-resume :
      {A B : Type 0} (answer : Result A) (next : A → Exec S B)
      → ((a : A) → Keeps Inv (next a))
      → (t : S) → Inv t
      → Inv (resume answer next t).1
  Keeps-resume (ok a) next each_next t inv = (each_next a).after t inv
  Keeps-resume (err e) next each_next t inv = inv

  pub Keeps-bind :
      {A B : Type 0} (first : Exec S A) (next : A → Exec S B)
      → Keeps Inv first
      → ((a : A) → Keeps Inv (next a))
      → Keeps Inv (first >>= next)
  unfolding ◌>>=◌
  Keeps-bind first next keeps_first each_next = record {
    after = λ before inv.
        let (answer, t) = first before in
        Keeps-resume answer next each_next t (keeps_first.after before inv);
  }

  pub Keeps-lift : {A : Type 0} (answer : Result A) → Keeps Inv (lift answer)
  unfolding lift
  Keeps-lift answer = record { after = λ before inv. inv }

  pub Keeps-pure : {A : Type 0} (value : A) → Keeps Inv (pure value)
  unfolding pure
  Keeps-pure value = record { after = λ before inv. inv }

  -- The branch is run only if its test holds, and the proof may use that.
  pub Keeps-when :
      (test : Bool) (body : Exec S (Unit {0}))
      → (test ≡ true → Keeps Inv body)
      → Keeps Inv (when test body)
  unfolding when
  Keeps-when true body keeps_body = keeps_body refl
  Keeps-when false body keeps_body = Keeps-pure tt

  pub Keeps-each :
      {A : Type 0} (body : A → Exec S (Unit {0})) (xs : List A)
      → ((x : A) → Keeps Inv (body x))
      → Keeps Inv (each body xs)
  unfolding each
  Keeps-each body [] keeps_body = Keeps-pure tt
  Keeps-each body (x ∷ xs) keeps_body =
      Keeps-bind (body x) _ (keeps_body x) (λ _. Keeps-each body xs keeps_body)

pub ruleset keeps_rules = (Keeps-pure, Keeps-lift, Keeps-bind, Keeps-when, Keeps-each)

-- What went before a step that ended well.
pub then_result-eq-ok {ℓ κ} :
    {A : Type ℓ} {B : Type κ} (r : Result A) (f : A → Result B) {b : B}
    → then_result r f ≡ ok b
    → (a : A) × (r ≡ ok a) × (f a ≡ ok b)
then_result-eq-ok (ok a) f h = (a, refl, h)
then_result-eq-ok (err e) f h = cc

module _ {ℓ} {S : Type ℓ} {A B : Type 0} where
  resume-ok : (r : Result A) (a : A) (f : A → Exec S B) (s : S) → r ≡ ok a → resume r f s ≡ f a s
  resume-ok (ok b) a f s h = ap (λ (r : A). f r s) (cc)
  resume-ok (err e) a f s h = absurd (cc)

  -- What follows a statement that ends well runs from the state that it leaves.
  pub >>=-ok :
      (m : Exec S A) (f : A → Exec S B) (s : S) (a : A) → (m s).0 ≡ ok a → (m >>= f) s ≡ f a (m s).1
  unfolding ◌>>=◌
  >>=-ok m f s a h = let (r, t) = m s in resume-ok r a f t h

  resume-eq-ok :
      (r : Result A) (f : A → Exec S B) (s : S) {b : B}
      → (resume r f s).0 ≡ ok b
      → (a : A) × (r ≡ ok a) × (resume r f s ≡ f a s)
  resume-eq-ok (ok a) f s h = (a, refl, refl)
  resume-eq-ok (err e) f s h = cc

  -- What went before a statement that ended well.
  pub >>=-eq-ok :
      (m : Exec S A) (f : A → Exec S B) (s : S) {b : B}
      → ((m >>= f) s).0 ≡ ok b
      → (a : A) × ((m s).0 ≡ ok a) × ((m >>= f) s ≡ f a (m s).1)
  unfolding ◌>>=◌
  >>=-eq-ok m f s h = let (r, t) = m s in resume-eq-ok r f t h
