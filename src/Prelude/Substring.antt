-- ===== src/Prelude/Substring.antt =====
-- What a text that occurs in another occurs in.
use Prim.Native.String.{String, [], ◌∷◌, ◌++◌}
use Prim.Native.String.append
use mathlib.Core.Path.{◌≡◌, refl, sym, subst, ap, ◌∙◌}
use mathlib.Core.Logic.{◌⊎◌, inl, inr}
use mathlib.Core.Bool.{Bool, true, false, ◌||◌}
use mathlib.Core.List.{List}
use mathlib.Core.Option.{some}
use native.Mathlib.Omega.{arith}
use text.Mathlib.Text
use text.Mathlib.TextEquality.{starts_with_iff}
use text.Mathlib.TextLemmas.{append_assoc}
use ansible_platform.Prelude.Lists.{In, here, there}
use ansible_platform.Prelude.Tests.{String-discrete, ◌==◌, ==_sound}
use ansible_platform.Prelude.Text.{occurs, join, drop_prefix}

starts_with-left :
    (t a b : String) → Text.starts_with a t ≡ true → Text.starts_with (a ++ b) t ≡ true
starts_with-left t a b h =
    let (u, e) = (starts_with_iff a t).0 h in
    (starts_with_iff (a ++ b) t).1 (u ++ b, sym (append_assoc t u b) ∙ ap (λ w. w ++ b) e)

front_of_nothing : (t : String) → Text.starts_with [] t ≡ true → (t == "") ≡ true
unfolding String-discrete
front_of_nothing [] h = refl
front_of_nothing (c ∷ t) h =
    let (u, e) = (starts_with_iff [] (c ∷ t)).0 h in absurd (cc (append.cons c t u, e))

front : (t s : String) → Text.starts_with s t ≡ true → occurs t s ≡ true
unfolding occurs
front t [] h = front_of_nothing t h
front t (c ∷ s) h = ground (arith, h)

||-cases : (b c : Bool) → (b || c) ≡ true → (b ≡ true) ⊎ (c ≡ true)
||-cases true c h = inl refl
||-cases false c h = inr h

pub occurs-right : (t a b : String) → occurs t b ≡ true → occurs t (a ++ b) ≡ true
unfolding occurs
occurs-right t [] b h = subst (λ w. occurs t w ≡ true) (sym (append.nil b)) h
occurs-right t (c ∷ a) b h =
    subst (λ w. occurs t w ≡ true) (sym (append.cons c a b)) (ground (arith, occurs-right t a b h))

empty_occurs : (s : String) → occurs "" s ≡ true
empty_occurs s = front "" s ((starts_with_iff s "").1 (s, append.nil s))

pub occurs-left : (t a b : String) → occurs t a ≡ true → occurs t (a ++ b) ≡ true
unfolding occurs
occurs-left t [] b h =
    subst (λ u. occurs u ([] ++ b) ≡ true) (sym (==_sound t "" h)) (empty_occurs ([] ++ b))
occurs-left t (c ∷ a) b h = elim (||-cases _ _ h) [
  | inl e ↦ front t ((c ∷ a) ++ b) (starts_with-left t (c ∷ a) b e)
  | inr e ↦
      subst (λ w. occurs t w ≡ true) (sym (append.cons c a b)) (ground (arith, occurs-left t a b e))
]

-- What occurs in one of the texts that are joined occurs in the joined text.
pub occurs-join :
    (t sep : String) (ws : List String) (w : String)
    → In w ws
    → occurs t w ≡ true
    → occurs t (join sep ws) ≡ true
unfolding join
occurs-join t sep List.[] w m h = elim m [ ]
occurs-join t sep (List.◌∷◌ w List.[]) _ here h = h
occurs-join t sep (List.◌∷◌ v List.[]) w (there m) h = elim m [ ]
occurs-join t sep (List.◌∷◌ w (List.◌∷◌ v ws)) _ here h = occurs-left t w _ h
occurs-join t sep (List.◌∷◌ u (List.◌∷◌ v ws)) w (there m) h =
    occurs-right t u _ (occurs-right t sep _ (occurs-join t sep (List.◌∷◌ v ws) w m h))

pub drop_prefix-append : (t rest : String) → drop_prefix t (t ++ rest) ≡ some rest
unfolding drop_prefix
drop_prefix-append [] rest = ap some (append.nil rest)
drop_prefix-append (c ∷ t) rest =
    subst (λ w. drop_prefix (c ∷ t) w ≡ some rest) (sym (append.cons c t rest))
      (ground (arith, drop_prefix-append t rest))
