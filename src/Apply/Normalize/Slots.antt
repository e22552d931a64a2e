-- ===== src/Apply/Normalize/Slots.antt =====
-- scripts/fw_apply_direct.py: interface names and slot ids in a payload.
use ansible_platform.Prelude.{
  String, ◌≡◌, refl, sym, subst, Option-cases, ◌∙◌, ap, inl, inr, Option, none, some, arith,
}
use ansible_platform.Prelude.Dict
use ansible_platform.Prelude.Dict.{Dict, get-put, get-without, put-put, put_same}
use ansible_platform.Prelude.Value.{null, flag, num, text, Value, scalar, items, table, Entry}
use ansible_platform.Prelude.Exec.{ok}
use ansible_platform.Apply.Normalize.{translate, translate_value}

-- No slot id is itself a friendly name of the interface map.
abbrev pub SlotsAreFinal : Dict String → Type 0
SlotsAreFinal m = (name slot : String) → Dict.get m name ≡ some slot → Dict.get m slot ≡ none

-- A value that `translate` leaves alone.
abbrev pub IsSettled : Dict String → Option Value → Type 0
IsSettled m none = Unit
IsSettled m (some (scalar (text name))) = Dict.get m name ≡ none
IsSettled m (some (scalar _)) = Unit
IsSettled m (some _) = ⊥

module _ (m : Dict String) (k : String) where
  settled_value :
      (v : Option Value) (out : Entry) → IsSettled m v → translate_value m k v out ≡ ok out
  settled_value none out h = refl
  settled_value (some (scalar (text name))) out h = ground arith
  settled_value (some (scalar null)) out h = refl
  settled_value (some (scalar (flag b))) out h = refl
  settled_value (some (scalar (num n))) out h = refl
  settled_value (some (items xs)) out h = absurd h
  settled_value (some (table d)) out h = absurd h

  pub translate_settled : (out : Entry) → IsSettled m (Dict.get out k) → translate m k out ≡ ok out
  unfolding translate
  translate_settled out h = settled_value (Dict.get out k) out h

  carry-IsSettled :
      (p out : Entry) (v : Option Value)
      → ok p ≡ ok out
      → Dict.get p k ≡ v
      → IsSettled m v
      → IsSettled m (Dict.get out k)
  carry-IsSettled p out v same e h =
      subst (λ w. IsSettled m w) (sym e ∙ ap (λ (o : Entry). Dict.get o k) (cc)) h

  text-IsSettled :
      (name : String) (p out : Entry)
      → SlotsAreFinal m
      → Dict.get p k ≡ some (scalar (text name))
      → translate_value m k (some (scalar (text name))) p ≡ ok out
      → IsSettled m (Dict.get out k)
  text-IsSettled name p out final e h = elim (Option-cases (Dict.get m name)) [
    | inl absent ↦ carry-IsSettled p out _ (ground arith) e absent
    | inr (slot, found) ↦
        carry-IsSettled (Dict.put k (scalar (text slot)) p) out (some (scalar (text slot)))
          (ground arith) (ground (arith, get-put k k (scalar (text slot)) p))
          (final name slot found)
  ]

  value-IsSettled :
      (v : Option Value) (p out : Entry)
      → SlotsAreFinal m
      → Dict.get p k ≡ v
      → translate_value m k v p ≡ ok out
      → IsSettled m (Dict.get out k)
  value-IsSettled none p out final e h = carry-IsSettled p out _ h e tt
  value-IsSettled (some (scalar (text name))) p out final e h = text-IsSettled name p out final e h
  value-IsSettled (some (scalar null)) p out final e h = carry-IsSettled p out _ h e tt
  value-IsSettled (some (scalar (flag b))) p out final e h = carry-IsSettled p out _ h e tt
  value-IsSettled (some (scalar (num n))) p out final e h = carry-IsSettled p out _ h e tt
  value-IsSettled (some (items xs)) p out final e h = cc
  value-IsSettled (some (table d)) p out final e h = cc

  pub translate-IsSettled :
      (p out : Entry) → SlotsAreFinal m → translate m k p ≡ ok out → IsSettled m (Dict.get out k)
  unfolding translate
  translate-IsSettled p out final h = value-IsSettled (Dict.get p k) p out final refl h
