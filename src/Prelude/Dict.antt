-- ===== src/Prelude/Dict.antt =====
-- Python's `dict` with string keys, in insertion order.
use mathlib.Core.Path.{◌≡◌, refl, ap}
use mathlib.Core.Bool.{Bool, true, false}
use mathlib.Core.Option.{Option, none, some}
use mathlib.Core.List.{List, [], ◌∷◌}
use Prim.Native.String.{String}
use native.Mathlib.Omega.{arith}
use ansible_platform.Prelude.Tests.{◌==◌, if◌then◌else◌}
use ansible_platform.Prelude.Lists.{contains}

abbrev pub Dict {ℓ} : Type ℓ → Type ℓ
Dict V = List (String × V)

module _ {ℓ} {V : Type ℓ} where
  -- `d.get(k)`, with `none` for a key that is not there
  unfoldable pub get : Dict V → String → Option V
  get [] k = none
  get ((j, v) ∷ d) k = if j == k then some v else get d k

  -- `d[k] = v`: an old key keeps its place
  unfoldable pub put : String → V → Dict V → Dict V
  put k v [] = (k, v) ∷ []
  put k v ((j, w) ∷ d) = if j == k then (j, v) ∷ d else (j, w) ∷ put k v d

  -- `{k: v for k, v in d.items() if k not in ks}`
  unfoldable pub without : List String → Dict V → Dict V
  without ks [] = []
  without ks ((j, v) ∷ d) = let rest = without ks d in if contains ks j then rest else (j, v) ∷ rest

  -- `{**d, **e}`
  unfoldable pub merge : Dict V → Dict V → Dict V
  unfolding put
  merge d [] = d
  merge d ((k, v) ∷ e) = merge (put k v d) e

  unfoldable pub keys : Dict V → List String
  keys [] = []
  keys ((k, _) ∷ d) = k ∷ keys d

  unfoldable pub values : Dict V → List V
  values [] = []
  values ((_, v) ∷ d) = v ∷ values d

  -- `k in d`
  unfoldable pub has : Dict V → String → Bool
  unfolding get
  has d k = elim (get d k) [ none ↦ false | some _ ↦ true ]

  pub get-nil : (k : String) → get [] k ≡ none
  unfolding get
  get-nil k = refl

  pub get-put :
      (k j : String) (v : V) (d : Dict V) → get (put k v d) j ≡ (if k == j then some v else get d j)
  unfolding get put
  get-put k j v [] = ground arith
  get-put k j v (_ ∷ d) = ground (arith, get-put k j v d)

  pub get-without :
      (ks : List String) (j : String) (d : Dict V)
      → get (without ks d) j ≡ (if contains ks j then none else get d j)
  unfolding get without
  get-without ks j [] = ground arith
  get-without ks j (_ ∷ d) = ground (arith, get-without ks j d)

  -- Writing the value that a key has changes nothing.
  pub put_same : (k : String) (v : V) (d : Dict V) → get d k ≡ some v → put k v d ≡ d
  unfolding get put
  put_same k v [] h = ground arith
  put_same k v (_ ∷ d) h = ground (arith, put_same k v d)

  pub put-put : (k : String) (v w : V) (d : Dict V) → put k w (put k v d) ≡ put k w d
  unfolding put
  put-put k v w [] = ground arith
  put-put k v w (_ ∷ d) = ground (arith, put-put k v w d)

  pub contains-keys : (d : Dict V) (k : String) → contains (keys d) k ≡ has d k
  unfolding keys has
  contains-keys [] k = refl
  contains-keys (_ ∷ d) k = ground (arith, contains-keys d k)

-- No key stands twice, as in every Python dict.
abbrev pub NodupKeys {ℓ} : {V : Type ℓ} → Dict V → Type ℓ
NodupKeys [] = Unit
NodupKeys ((k, _) ∷ d) = (get d k ≡ none) × NodupKeys d

-- The right dict wins in a merge.
pub get-merge {ℓ} :
    {V : Type ℓ} (d e : Dict V) (k : String)
    → NodupKeys e
    → get (merge d e) k ≡ (if has e k then get e k else get d k)
unfolding merge get has
get-merge d [] k u = refl
get-merge d ((j, v) ∷ e) k (fresh, u) =
    ground (arith, get-merge (put j v d) e k u, get-put j k v d, ap (λ (i : String). get e i))
