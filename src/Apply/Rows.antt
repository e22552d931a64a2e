-- ===== src/Apply/Rows.antt =====
-- scripts/fw_apply_direct.py: which rows the report of a section has.
use ansible_platform.Prelude.{
  String, ◌≡◌, refl, sym, ap, subst, ◌∙◌, Bool, true, false, Bool-cases, ◌⊎◌, inl, inr, Option,
  List, [], ◌∷◌, ◌++◌, ◌↔◌, append_assoc, append-nil, arith,
}
use ansible_platform.Prelude.Dict.{Dict}
use ansible_platform.Prelude.Value.{Scalar, text, Value, scalar, Entry, truthy, field, or_else}
use ansible_platform.Prelude.Exec.{Result, ok, pure, lift, each, ◌>>=◌, >>=-ok}
use ansible_platform.Apply.Normalize.{Meta, strip_ref}
use ansible_platform.Apply.Api.{Manager, Reply, returned, opnsense_error, other_error, Firewall}
use ansible_platform.Apply.Section.{
  Row, error, State, normalize, row_of, ref_of, ident, scalar_at, call, append, apply_entry,
  apply_section,
}

-- The name of a row: the entry's `name`, or else its `description`, or else "<unnamed>".
pub data IsName (payload : Entry) : Value → Type 0 where
  named : truthy (field payload "name") ≡ true → IsName payload (field payload "name")
  described :
      truthy (field payload "name") ≡ false
      → truthy (field payload "description") ≡ true
      → IsName payload (field payload "description")
  unnamed :
      truthy (field payload "name") ≡ false
      → truthy (field payload "description") ≡ false
      → IsName payload (scalar (text "<unnamed>"))

-- The manager has answered with an exception.
abbrev pub IsFailure : Reply → Type 0
IsFailure reply = (reply ≡ opnsense_error) ⊎ (reply ≡ other_error)

-- The row of an entry: the label of its section, its name, the references of its `ref`, and an error
-- exactly if the manager has answered with an exception.
pub record IsRowOf (label : String) (payload : Entry) (ref : Dict Scalar) (reply : Reply)
    (row : Row) : Type 0 where
  pub is_section : Row.section row ≡ label
  pub is_name : IsName payload (Row.name row)
  pub is_error : (Row.outcome row ≡ error) ↔ IsFailure reply
  pub is_adr_ref : Row.adr_ref row ≡ scalar_at ref "adr"
  pub is_lib_manager : Row.lib_manager row ≡ scalar_at ref "lib_manager"
  pub is_ansible_module : Row.ansible_module row ≡ scalar_at ref "ansible_module"

IsName-ident : (payload : Entry) → IsName payload (ident payload)
unfolding ident or_else
IsName-ident payload = elim (Bool-cases (truthy (field payload "name"))) [
  | inl n ↦ rw n (named n)
  | inr n ↦ elim (Bool-cases (truthy (field payload "description"))) [
    | inl d ↦ rw (n, d) (described n d)
    | inr d ↦ rw (n, d) (unnamed n d)
  ]
]

row_of-IsRowOf :
    (label : String) (payload : Entry) (ref : Dict Scalar) (reply : Reply)
    → IsRowOf label payload ref reply (row_of label (ident payload) reply ref)
unfolding row_of
row_of-IsRowOf label payload ref (returned r) = record {
  is_section = refl;
  is_name = IsName-ident payload;
  is_error = (λ h. cc, λ h. ground arith);
  is_adr_ref = refl;
  is_lib_manager = refl;
  is_ansible_module = refl;
}
row_of-IsRowOf label payload ref opnsense_error = record {
  is_section = refl;
  is_name = IsName-ident payload;
  is_error = (λ h. inl refl, λ h. refl);
  is_adr_ref = refl;
  is_lib_manager = refl;
  is_ansible_module = refl;
}
row_of-IsRowOf label payload ref other_error = record {
  is_section = refl;
  is_name = IsName-ident payload;
  is_error = (λ h. inr refl, λ h. refl);
  is_adr_ref = refl;
  is_lib_manager = refl;
  is_ansible_module = refl;
}

module _ (fw : Firewall) (mgr : Manager) (label : String) (check : Bool)
    (m : Option (Dict String)) where
  -- What the manager answers for an entry that is sent as `payload`.
  abbrev pub answer : Entry → Entry → Firewall.World fw → Reply × Firewall.World fw
  answer e payload w = fw.ensure mgr (Meta.state (strip_ref e).1) payload check w

  -- The entries, sent one after the other from a device, their rows, and the device that is left.
  pub data Reports : List Entry → Firewall.World fw → List Row → Firewall.World fw → Type 0 where
    done : (w : Firewall.World fw) → Reports [] w [] w
    next :
        (e : Entry) (es : List Entry) (w w' : Firewall.World fw) (payload : Entry)
        (ref : Dict Scalar) (row : Row) (rows : List Row)
        → normalize label m (strip_ref e).0 ≡ ok payload
        → ref_of (Meta.ref (strip_ref e).1) ≡ ok ref
        → IsRowOf label payload ref (answer e payload w).0 row
        → Reports es (answer e payload w).1 rows w'
        → Reports (e ∷ es) w (row ∷ rows) w'

  -- The section has ended well, with these rows behind those that stood in the report.
  abbrev pub Adds : List Entry → State fw → Result (Unit {0}) × State fw → Type 0
  Adds es s r =
      (r.0 ≡ ok tt)
      × ((more : List Row) × (r.1.results ≡ s.results ++ more) × Reports es s.world more r.1.world)

  apply_section-each :
      (es : List Entry) (s : State fw)
      → apply_section fw mgr es label check m s ≡ each (apply_entry fw mgr label check m) es s
  unfolding apply_section each
  apply_section-each [] s = refl
  apply_section-each (e ∷ es) s = refl

  -- The state after an entry whose row is `row`
  abbrev after_entry : Entry → Entry → Row → State fw → State fw
  after_entry e payload row s = record {
    world = (answer e payload s.world).1;
    results = s.results ++ row ∷ [];
  }

  apply_entry-row :
      (e : Entry) (s : State fw) (payload : Entry) (ref : Dict Scalar)
      → normalize label m (strip_ref e).0 ≡ ok payload
      → ref_of (Meta.ref (strip_ref e).1) ≡ ok ref
      → apply_entry fw mgr label check m e s ≡ (
        ok tt,
        after_entry e payload (row_of label (ident payload) (answer e payload s.world).0 ref) s,
      )
  unfolding apply_entry lift call append ◌>>=◌
  apply_entry-row e s payload ref n r = simp (n, r) refl

  -- An entry that translates and has a readable `ref` is followed by the rest of its section.
  section_goes_on :
      (e : Entry) (es : List Entry) (s : State fw) (payload : Entry) (ref : Dict Scalar)
      → normalize label m (strip_ref e).0 ≡ ok payload
      → ref_of (Meta.ref (strip_ref e).1) ≡ ok ref
      → apply_section fw mgr (e ∷ es) label check m s
        ≡ apply_section fw mgr es label check m (
            after_entry e payload (row_of label (ident payload) (answer e payload s.world).0 ref) s)
  unfolding each
  section_goes_on e es s payload ref n r =
      let once = apply_entry-row e s payload ref n r in
      apply_section-each (e ∷ es) s
      ∙ >>=-ok (apply_entry fw mgr label check m e) _ s tt (ap (λ x. x.0) once)
      ∙ ap (λ x. each (apply_entry fw mgr label check m) es x.1) once
      ∙ sym (apply_section-each es _)

-- An entry whose translation succeeds and whose `ref`, if it has one, is a dict.
abbrev pub IsApplicable : String → Option (Dict String) → Entry → Type 0
IsApplicable label m e =
    ((payload : Entry) × (normalize label m (strip_ref e).0 ≡ ok payload))
    × ((ref : Dict Scalar) × (ref_of (Meta.ref (strip_ref e).1) ≡ ok ref))

abbrev pub AllApplicable : String → Option (Dict String) → List Entry → Type 0
AllApplicable label m [] = Unit
AllApplicable label m (e ∷ es) = IsApplicable label m e × AllApplicable label m es

-- A section whose entries translate and have a readable `ref` ends well, whatever the manager answers,
-- and the report grows by one row for each entry, in their order: with the label of the section, the
-- name and the references of its entry, and the outcome `error` exactly if the manager has answered
-- that entry with an exception.
pub apply_section-Adds :
    (fw : Firewall) (mgr : Manager) (es : List Entry) (label : String) (check : Bool)
    (m : Option (Dict String)) (s : State fw)
    → AllApplicable label m es
    → Adds fw mgr label check m es s (apply_section fw mgr es label check m s)
unfolding apply_section pure
apply_section-Adds fw mgr [] label check m s h = (refl, ([], rw append-nil, done s.world))
apply_section-Adds fw mgr (e ∷ es) label check m s (((payload, n), (ref, r)), hs) =
    let row = row_of label (ident payload) (answer fw mgr label check m e payload s.world).0 ref in
    let (fine, (more, grown, reports)) =
      apply_section-Adds fw mgr es label check m (after_entry fw mgr label check m e payload row s)
        hs in
    subst (λ x. Adds fw mgr label check m (e ∷ es) s x)
      (sym (section_goes_on fw mgr label check m e es s payload ref n r))
      (
        fine,
        (
          row ∷ more,
          grown ∙ append_assoc s.results (row ∷ []) more,
          next e es s.world _ payload ref row more n r (row_of-IsRowOf label payload ref _) reports,
        ),
      )
