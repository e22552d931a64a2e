-- ===== src/Apply/Normalize/Laws.antt =====
-- scripts/fw_apply_direct.py: the payload that reaches a manager.
use ansible_platform.Prelude.{
  String, ◌==◌, ◌≡◌, ◌≢◌, refl, sym, subst, ==_refl, ==_sound, ◌∙◌, ap, true, false, ◌&&◌,
  Bool-cases, inl, inr, none, [], ◌∷◌, contains, arith, String-discrete, if◌then◌else◌,
}
use ansible_platform.Prelude.Text.{lower, upper, upper-lower, lower-upper}
use ansible_platform.Prelude.Dict
use ansible_platform.Prelude.Dict.{Dict, get-put, get-without, put-put, put_same}
use ansible_platform.Prelude.Value.{
  null, flag, num, text, Value, scalar, items, table, Entry, truthy, truthy_scalar, field,
  field-put_self,
}
use ansible_platform.Prelude.Exec.{ok, then_result-eq-ok}
use ansible_platform.Apply.Normalize.{
  strip_ref, translate, widen_protocol, case_protocol, is_any, known_protocols, stored_protocol,
  normalize_rule,
}
use ansible_platform.Apply.Normalize.Slots.{
  SlotsAreFinal, IsSettled, translate_settled, translate-IsSettled,
}

-- The payload has neither `ref` nor `state`, and every other key with its value.
pub get-strip_ref :
    (entry : Entry) (k : String)
    → Dict.get (strip_ref entry).0 k
      ≡ (if contains ("ref" ∷ "state" ∷ []) k then none else Dict.get entry k)
unfolding strip_ref
get-strip_ref entry k = get-without ("ref" ∷ "state" ∷ []) k entry

-- The three steps of `normalize_rule`, and what each leaves alone.
get-widen_protocol :
    (out : Entry) (k : String) → k ≢ "protocol" → Dict.get (widen_protocol out) k ≡ Dict.get out k
unfolding widen_protocol
get-widen_protocol out k h = ground (arith, get-put "protocol" k (scalar (text "tcp/udp")) out)

get-case_protocol :
    (v : Value) (out q : Entry) (k : String)
    → k ≢ "protocol"
    → case_protocol v out ≡ ok q
    → Dict.get q k ≡ Dict.get out k
get-case_protocol (scalar (text p)) out q k h e =
    ground (arith, get-put "protocol" k (scalar (text (stored_protocol p))) out)
get-case_protocol (scalar null) out q k h e = ground arith
get-case_protocol (scalar (flag b)) out q k h e = ground arith
get-case_protocol (scalar (num n)) out q k h e = ground arith
get-case_protocol (items xs) out q k h e = ground arith
get-case_protocol (table d) out q k h e = ground arith

upper-upper : (p : String) → upper (upper p) ≡ upper p
upper-upper p = sym (upper-lower (upper p)) ∙ ap upper (lower-upper p) ∙ upper-lower p

stored_tcp_udp :
    (lower "TCP/UDP" ≡ "tcp/udp") × (lower "any" ≡ "any") × (upper "TCP/UDP" ≡ "TCP/UDP")
unfolding lower upper
stored_tcp_udp = (refl, refl, refl)

lower-stored_protocol : (p : String) → lower (stored_protocol p) ≡ lower p
lower-stored_protocol p = ground (arith, stored_tcp_udp, lower-upper p)

stored_protocol_idem : (p : String) → stored_protocol (stored_protocol p) ≡ stored_protocol p
stored_protocol_idem p =
    ground (arith, stored_tcp_udp, lower-upper p, upper-upper p, lower-stored_protocol p)

-- Keys and protocol names that differ.
key_tests :
    (("protocol" == "destination_port") ≡ false)
    × (("tcp/udp" == "any") ≡ false)
    × (contains known_protocols "any" ≡ false)
unfolding String-discrete
key_tests = (refl, refl, refl)

known-ne-any : (p : String) → contains known_protocols (lower p) ≡ true → (p == "any") ≡ false
known-ne-any p h = elim (Bool-cases (p == "any")) [
  | inl same ↦ absurd (cc (key_tests.2, stored_tcp_udp.1, ap lower (==_sound p "any" same), h))
  | inr differ ↦ differ
]

-- `any` stands beside a destination port in no entry that leaves this step.
abbrev pub IsWide : Entry → Type 0
IsWide out = (truthy (field out "destination_port") && is_any (field out "protocol")) ≡ false

widen_protocol-IsWide : (out : Entry) → IsWide (widen_protocol out)
unfolding widen_protocol
widen_protocol-IsWide out =
    elim (Bool-cases (truthy (field out "destination_port") && is_any (field out "protocol"))) [
      | inl wide ↦
          rw (wide, field-put_self "protocol" (scalar (text "tcp/udp")) out, key_tests.1)
            (ground arith)
      | inr done ↦ rw done done
    ]

widen_protocol_settled : (out : Entry) → IsWide out → widen_protocol out ≡ out
unfolding widen_protocol
widen_protocol_settled out h = rw h

-- An entry on which the last step has nothing more to do.
abbrev HasStored : Entry → Type 0
HasStored q = case_protocol (field q "protocol") q ≡ ok q

abbrev stored : String → Entry → Entry
stored p out = Dict.put "protocol" (scalar (text (stored_protocol p))) out

stored-IsWide :
    (p : String) (out : Entry) → contains known_protocols (lower p) ≡ true → IsWide (stored p out)
stored-IsWide p out h =
    rw
      (
        field-put_self "protocol" (scalar (text (stored_protocol p))) out,
        known-ne-any (stored_protocol p) (rw lower-stored_protocol h),
      )
      (ground arith)

stored-HasStored : (p : String) (out : Entry) → HasStored (stored p out)
stored-HasStored p out = rw (field-put_self "protocol" (scalar (text (stored_protocol p))) out) (
    ground (
      arith,
      stored_protocol_idem p,
      put-put "protocol" (scalar (text (stored_protocol p))) (scalar (text (stored_protocol p)))
          out,
    ))

abbrev IsStable : Entry → Type 0
IsStable q = IsWide q × HasStored q

unchanged-IsStable :
    (v : Value) (out q : Entry)
    → field out "protocol" ≡ v
    → IsWide out
    → case_protocol v out ≡ ok q
    → ok out ≡ ok q
    → IsStable q
unchanged-IsStable v out q e wide h same = subst IsStable (cc) (wide, (rw e (h ∙ sym same)))

text-IsStable :
    (p : String) (out q : Entry)
    → field out "protocol" ≡ scalar (text p)
    → IsWide out
    → case_protocol (scalar (text p)) out ≡ ok q
    → IsStable q
text-IsStable p out q e wide h =
    elim (Bool-cases (truthy_scalar (text p) && contains known_protocols (lower p))) [
      | inl known ↦
          subst IsStable (ground arith) (stored-IsWide p out (ground arith), stored-HasStored p out)
      | inr other ↦ unchanged-IsStable (scalar (text p)) out q e wide h (ground arith)
    ]

case_protocol-IsStable :
    (v : Value) (out q : Entry)
    → field out "protocol" ≡ v
    → IsWide out
    → case_protocol v out ≡ ok q
    → IsStable q
case_protocol-IsStable (scalar (text p)) out q e w h = text-IsStable p out q e w h
case_protocol-IsStable (scalar null) out q e w h = unchanged-IsStable _ out q e w h (ground arith)
case_protocol-IsStable (scalar (flag b)) out q e w h =
    unchanged-IsStable _ out q e w h (ground arith)
case_protocol-IsStable (scalar (num n)) out q e w h =
    unchanged-IsStable _ out q e w h (ground arith)
case_protocol-IsStable (items xs) out q e w h = unchanged-IsStable _ out q e w h (ground arith)
case_protocol-IsStable (table d) out q e w h = unchanged-IsStable _ out q e w h (ground arith)

-- The steps of a `normalize_rule` that succeeds.
normalize_rule_steps :
    (m : Dict String) (p q : Entry)
    → normalize_rule m p ≡ ok q
    → (out : Entry) × (translate m "interface" p ≡ ok out)
      × (case_protocol (field (widen_protocol out) "protocol") (widen_protocol out) ≡ ok q)
unfolding normalize_rule
normalize_rule_steps m p q h = then_result-eq-ok (translate m "interface" p) _ h

-- A translated rule with a destination port never has the protocol `any` (or none), which the
-- firewall rejects.
pub normalize_rule-IsWide : (m : Dict String) (p q : Entry) → normalize_rule m p ≡ ok q → IsWide q
normalize_rule-IsWide m p q h =
    let (out, _, e) = normalize_rule_steps m p q h in
    (case_protocol-IsStable _ (widen_protocol out) q refl (widen_protocol-IsWide out) e).0

interface_test : ("interface" == "protocol") ≡ false
unfolding String-discrete
interface_test = refl

interface-ne-protocol : ◌≢◌ {A = String} "interface" "protocol"
interface-ne-protocol e =
    absurd (cc (interface_test, ==_refl "interface", ap (λ (k : String). "interface" == k) e))

normalize_rule-IsStable :
    (m : Dict String) (p q : Entry)
    → normalize_rule m p ≡ ok q
    → SlotsAreFinal m
    → IsSettled m (Dict.get q "interface") × IsStable q
normalize_rule-IsStable m p q h final =
    let (out, t, e) = normalize_rule_steps m p q h in
    let kept : Dict.get q "interface" ≡ Dict.get out "interface" =
      get-case_protocol _ (widen_protocol out) q "interface" interface-ne-protocol e
      ∙ get-widen_protocol out "interface" interface-ne-protocol in
    (
      subst (λ v. IsSettled m v) (sym kept) (translate-IsSettled m "interface" p out final t),
      case_protocol-IsStable _ (widen_protocol out) q refl (widen_protocol-IsWide out) e,
    )

-- If no slot id is a friendly name, translating a translated rule again changes nothing.
pub normalize_rule_idem :
    (m : Dict String) (p q : Entry)
    → SlotsAreFinal m
    → normalize_rule m p ≡ ok q
    → normalize_rule m q ≡ ok q
unfolding normalize_rule
normalize_rule_idem m p q final h =
    let s = normalize_rule-IsStable m p q h final in
    rw (translate_settled m "interface" q s.0, widen_protocol_settled q s.1.0) s.1.1
