-- ===== src/ServiceContract/Laws.antt =====
-- scripts/check_service_contract.py: what counts as data, and the exit status.
use ansible_platform.Prelude.{
  ltb, ◌=ℕ◌, String, ◌==◌, ◌≡◌, ◌↔◌, ◌⊎◌, inl, inr, refl, Bool, true, false, not, ◌&&◌, ◌||◌, List,
  [], ◌∷◌, length, length-keep-le, any, all, keep, contains, is_empty, arith,
}
use ansible_platform.Prelude.Text.{occurs}
use ansible_platform.Prelude.Yaml.{
  Yaml, Yamls, Fields, other, number, text, list, dict, nil, cons, end, field,
}
use ansible_platform.ServiceContract.{
  literal_data, literal_items, literal_fields, Row, passes, failing_names, fallen, verdict,
}

-- Somewhere in the value stands a number or a text without a template.
mutual
  pub data HoldsData : Yaml → Type 0 where
    a_number : HoldsData number
    a_text : (s : String) → occurs "{{" s ≡ false → HoldsData (text s)
    in_list : (vs : Yamls) → SomeData vs → HoldsData (list vs)
    in_dict : (fs : Fields) → FieldData fs → HoldsData (dict fs)

  pub data SomeData : Yamls → Type 0 where
    here : (v : Yaml) (vs : Yamls) → HoldsData v → SomeData (cons v vs)
    there : (v : Yaml) (vs : Yamls) → SomeData vs → SomeData (cons v vs)

  pub data FieldData : Fields → Type 0 where
    here_field : (k : String) (v : Yaml) (fs : Fields) → HoldsData v → FieldData (field k v fs)
    later_field : (k : String) (v : Yaml) (fs : Fields) → FieldData fs → FieldData (field k v fs)

or-split : (a b : Bool) → (a || b) ≡ true → (a ≡ true) ⊎ (b ≡ true)
or-split true b h = inl refl
or-split false b h = inr h

mutual
  unfolding literal_data

  literal-holds : (v : Yaml) → literal_data v ≡ true → HoldsData v
  literal-holds other h = cc
  literal-holds number h = a_number
  literal-holds (text s) h = a_text s (ground arith)
  literal-holds (list vs) h = in_list vs (literal-some vs h)
  literal-holds (dict fs) h = in_dict fs (literal-field fs h)

  literal-some : (vs : Yamls) → literal_items vs ≡ true → SomeData vs
  literal-some nil h = cc
  literal-some (cons v vs) h = elim (or-split (literal_data v) (literal_items vs) h) [
    | inl a ↦ here v vs (literal-holds v a)
    | inr b ↦ there v vs (literal-some vs b)
  ]

  literal-field : (fs : Fields) → literal_fields fs ≡ true → FieldData fs
  literal-field end h = cc
  literal-field (field k v fs) h = elim (or-split (literal_data v) (literal_fields fs) h) [
    | inl a ↦ here_field k v fs (literal-holds v a)
    | inr b ↦ later_field k v fs (literal-field fs b)
  ]

mutual
  unfolding literal_data

  holds-literal : (v : Yaml) → HoldsData v → literal_data v ≡ true
  holds-literal _ a_number = refl
  holds-literal _ (a_text s h) = rw h refl
  holds-literal _ (in_list vs h) = some-literal vs h
  holds-literal _ (in_dict fs h) = field-literal fs h

  some-literal : (vs : Yamls) → SomeData vs → literal_items vs ≡ true
  some-literal _ (here v vs h) = rw (holds-literal v h) refl
  some-literal _ (there v vs h) = ground (arith, some-literal vs h)

  field-literal : (fs : Fields) → FieldData fs → literal_fields fs ≡ true
  field-literal _ (here_field k v fs h) = rw (holds-literal v h) refl
  field-literal _ (later_field k v fs h) = ground (arith, field-literal fs h)

-- A variable's value counts as data exactly when a number, or a text without a template, stands in
-- it at any depth.
pub literal_data_exact : (v : Yaml) → (literal_data v ≡ true) ↔ HoldsData v
literal_data_exact v = (literal-holds v, holds-literal v)

-- A row of this name fails.
abbrev pub fails_as : List Row → String → Bool
fails_as rows n = any (λ r. not (passes r) && (n == Row.name r)) rows

contains-failing :
    (rows : List Row) (n : String) → contains (failing_names rows) n ≡ fails_as rows n
contains-failing [] n = refl
contains-failing (r ∷ rows) n = ground (arith, contains-failing rows n)

fallen-none :
    (held : List String) (rows : List Row)
    → is_empty (fallen held rows) ≡ all (λ n. not (fails_as rows n)) held
fallen-none [] rows = refl
fallen-none (n ∷ held) rows = ground (arith, contains-failing rows n, fallen-none held rows)

fewer-pass :
    (rows : List Row) → ltb (length (keep passes rows)) (length rows) ≡ not (all passes rows)
fewer-pass [] = refl
fewer-pass (r ∷ rows) = ground (arith, fewer-pass rows, length-keep-le passes rows)

-- The exit status is 0 exactly when no role has meta dependencies, no listed service fails (under
-- `--ratchet`), and every service passes (under `--strict`).
pub verdict_exact :
    (strict ratchet : Bool) (hidden held : List String) (rows : List Row)
    → (verdict strict ratchet hidden held rows =ℕ 0) ≡ (
        is_empty hidden
        && ((not ratchet || all (λ n. not (fails_as rows n)) held)
            && (not strict || all passes rows)))
unfolding verdict
verdict_exact strict ratchet hidden held rows =
    ground (arith, fallen-none held rows, fewer-pass rows)
