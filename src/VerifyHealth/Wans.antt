-- ===== src/VerifyHealth/Wans.antt =====
-- scripts/fw_verify_health.py: the checks of the two WAN lines, described over the interface rows.
use ansible_platform.Prelude.{
  String, ◌==◌, ==_sound, ==_refl, ◌≡◌, ◌≢◌, refl, sym, ap, subst, ◌∙◌, ◌↔◌, Bool, true, false,
  Bool-cases, ◌&&◌, ◌⊎◌, inl, inr, Option, none, some, List, [], ◌∷◌, all, arith, String-discrete,
  if◌then◌else◌,
}
use mathlib.Core.Option.{some-injective}
use ansible_platform.Prelude.Text.{lower, starts, ends, occurs, split, first_part}
use ansible_platform.Prelude.Dict
use ansible_platform.Prelude.Dict.{Dict, get-put}
use ansible_platform.VerifyHealth.{
  Row, Check, or_text, or_row, or_empty, is_public, telenet_v4, telenet_v6, text_at, by_descr,
  is_up, proximus_checks, telenet_checks, Telenet,
}

-- The last row of an interface, if it has one.
abbrev pub last_row : String → List Row → Option Row → Option Row
last_row i [] o = o
last_row i (r ∷ rows) o = last_row i rows (if text_at r "description" == i then some r else o)

pub get-by_descr :
    (rows : List Row) (d : Dict Row) (i : String)
    → (i == "") ≡ false
    → Dict.get (by_descr rows d) i ≡ last_row i rows (Dict.get d i)
unfolding by_descr
get-by_descr [] d i h = refl
get-by_descr (r ∷ rows) d i h =
    get-by_descr rows _ i h
    ∙ ap (λ o. last_row i rows o) (ground (arith, get-put (text_at r "description") i r d))

-- The row of an interface that is up
abbrev pub UpRow : Option Row → Row → Type 0
UpRow o row = (o ≡ some row) × (lower (text_at row "status") ≡ "up")

pub is_up-UpRow : (o : Option Row) → (is_up o ≡ true) ↔ ((row : Row) × UpRow o row)
unfolding is_up
is_up-UpRow none = (λ h. cc, λ (row, (e, u)). cc)
is_up-UpRow (some r) = (
  λ h. (r, (refl, ==_sound _ _ h)),
  λ (row, (e, u)).
      rw (ap (λ (x : Row). lower (text_at x "status")) (some-injective r row e) ∙ u) (==_refl "up"),
)

-- The field of the row that gives an address: the first, or the second where that is empty
abbrev pub IsAddress : Row → String → String → String → Type 0
IsAddress row first second a =
    ((text_at row first ≢ "") × (a ≡ text_at row first))
    ⊎ ((text_at row first ≡ "") × (a ≡ text_at row second))

-- An address that is there and is of no private range as the script knows them
pub record IsPublicAddress (a : String) : Type 0 where
  pub is_there : a ≢ ""
  pub is_no_word : (a ≢ "pppoe") × (a ≢ "dhcp")
  pub is_not_private :
      (starts a "10." ≡ false) × (starts a "192.168." ≡ false) × (starts a "172." ≡ false)

-- The row of the first line: that of WAN_PROXIMUS, or that of WAN1 if there is none
abbrev pub WanRow : List Row → Row → Type 0
WanRow rows row =
    (last_row "WAN_PROXIMUS" rows none ≡ some row)
    ⊎ ((last_row "WAN_PROXIMUS" rows none ≡ none) × (last_row "WAN1" rows none ≡ some row))

-- The first line is up with a public IPv4 address, unless `--no-proximus` leaves it out.
abbrev pub ProximusUp : List Row → Bool → Type 0
ProximusUp rows false = Unit
ProximusUp rows true =
    (row : Row) × WanRow rows row
    × (lower (text_at row "status") ≡ "up")
    × ((a : String) × IsAddress row "addr4" "ipaddr" a × IsPublicAddress a)

-- The address of the secret file, or any that ends in .222 if the file has none
abbrev pub IsTelenet4 : Telenet → String → Type 0
IsTelenet4 t v =
    ((t.ipv4_address ≢ "") × (v ≡ t.ipv4_address))
    ⊎ ((t.ipv4_address ≡ "") × (ends v ".222" ≡ true))

-- The address of the secret file in either case, or any that has `::5` if the file has none
abbrev pub IsTelenet6 : Telenet → String → Type 0
IsTelenet6 t a =
    ((t.ipv6_address ≢ "") × (occurs (lower t.ipv6_address) (lower a) ≡ true))
    ⊎ ((t.ipv6_address ≡ "") × (occurs "::5" a ≡ true))

-- The second line is up with the expected addresses, if `--expect-wan2` asks for it.
abbrev pub TelenetUp : List Row → Bool → Telenet → Type 0
TelenetUp rows false t = Unit
TelenetUp rows true t =
    (row : Row) × UpRow (last_row "WAN_TELENET" rows none) row
    × ((a : String) × IsAddress row "addr4" "ipaddr" a × IsTelenet4 t (first_part (split "/" a)))
    × ((a : String) × IsAddress row "addr6" "ipaddrv6" a × IsTelenet6 t a)

or_text-IsAddress :
    (row : Row) (first second : String)
    → IsAddress row first second (or_text (text_at row first) (text_at row second))
or_text-IsAddress row first second = ground arith

IsAddress-unique :
    (row : Row) (first second a : String)
    → IsAddress row first second a
    → a ≡ or_text (text_at row first) (text_at row second)
IsAddress-unique row first second a h = ground arith

is_public-IsPublicAddress : (a : String) → (is_public a ≡ true) ↔ IsPublicAddress a
unfolding is_public
is_public-IsPublicAddress a = (
  λ h. record {
    is_there = ground arith;
    is_no_word = (ground arith, ground arith);
    is_not_private = (ground arith, ground arith, ground arith);
  },
  λ h. ground (
    arith,
    IsPublicAddress.is_there h,
    IsPublicAddress.is_no_word h,
    IsPublicAddress.is_not_private h,
  ),
)

not_empty : (k : String) → (k == "") ≡ false → k ≢ ""
not_empty k e n = let r : (k == "") ≡ true = rw n (==_refl "") in cc

-- A test that asks for less where a text is empty
given-cases :
    (k : String) (x y : Bool)
    → ((if k == "" then x else y) ≡ true) ↔ (((k ≢ "") × (y ≡ true)) ⊎ ((k ≡ "") × (x ≡ true)))
given-cases k x y = elim (Bool-cases (k == "")) [
  | inl e ↦ (
    λ h. inr (==_sound k "" e, rw e at h),
    λ h. rw e (elim h [ inl (n, g) ↦ absurd (n (==_sound k "" e)) | inr (n, g) ↦ g ]),
  )
  | inr e ↦ (
    λ h. inl (λ n. absurd (not_empty k e n), rw e at h),
    λ h. rw e (elim h [ inl (n, g) ↦ g | inr (n, g) ↦ absurd (not_empty k e n) ]),
  )
]

telenet_v4-IsTelenet4 :
    (t : Telenet) (a : String) → (telenet_v4 t a ≡ true) ↔ IsTelenet4 t (first_part (split "/" a))
unfolding telenet_v4
telenet_v4-IsTelenet4 t a =
    let v = first_part (split "/" a) in
    let g = given-cases t.ipv4_address (ends v ".222") (v == t.ipv4_address) in
    (
      λ h. elim (g.0 h) [ inl (n, e) ↦ inl (n, ==_sound v t.ipv4_address e) | inr o ↦ inr o ],
      λ h. g.1 (elim h [ inl (n, e) ↦ inl (n, rw e (==_refl _)) | inr o ↦ inr o ]),
    )

telenet_v6-IsTelenet6 : (t : Telenet) (a : String) → (telenet_v6 t a ≡ true) ↔ IsTelenet6 t a
unfolding telenet_v6
telenet_v6-IsTelenet6 t a =
    given-cases t.ipv6_address (occurs "::5" a) (occurs (lower t.ipv6_address) (lower a))

-- A test of the address of a row
IsAddress-cases :
    (row : Row) (first second : String) (test : String → Bool) (P : String → Type 0)
    → ((a : String) → (test a ≡ true) ↔ P a)
    → (test (or_text (text_at row first) (text_at row second)) ≡ true)
      ↔ ((a : String) × IsAddress row first second a × P a)
IsAddress-cases row first second test P h =
    let a = or_text (text_at row first) (text_at row second) in
    (
      λ t. (a, or_text-IsAddress row first second, (h a).0 t),
      λ (b, i, p). (h a).1 (subst P (IsAddress-unique row first second b i) p),
    )

or_row-some :
    (p q : Option Row) (row : Row)
    → (or_row p q ≡ some row) ↔ ((p ≡ some row) ⊎ ((p ≡ none) × (q ≡ some row)))
or_row-some none q row = (λ h. inr (refl, h), λ h. elim h [ inl e ↦ cc | inr (n, e) ↦ e ])
or_row-some (some r) q row = (λ h. inl h, λ h. elim h [ inl e ↦ e | inr (n, e) ↦ cc ])

-- Tests of the row of a line, all of which are needed.
row-cases :
    (o : Option Row) (test : Row → Bool) (P : Row → Type 0)
    → ((r : Row) → (test r ≡ true) ↔ P r)
    → ((is_up o && test (or_empty o)) ≡ true) ↔ ((row : Row) × UpRow o row × P row)
row-cases o test P h = (
  λ t.
      let (row, (e, u)) = (is_up-UpRow o).0 (ground arith) in
      (row, (e, u), (h row).0 (subst (λ x. test (or_empty x) ≡ true) e (ground arith))),
  λ (row, (e, u), p).
      rw ((is_up-UpRow o).1 (row, (e, u)))
        (subst (λ x. test (or_empty x) ≡ true) (sym e) ((h row).1 p)),
)

both-cases :
    (a b : Bool) {A B : Type 0} → (a ≡ true) ↔ A → (b ≡ true) ↔ B → ((a && b) ≡ true) ↔ (A × B)
both-cases a b f g =
    (λ h. (f.0 (ground arith), g.0 (ground arith)), λ (x, y). rw (f.1 x, g.1 y) refl)

wans_named :
    ((("WAN_PROXIMUS" == "") ≡ false) × (("WAN1" == "") ≡ false)) × (("WAN_TELENET" == "") ≡ false)
unfolding String-discrete
wans_named = ((refl, refl), refl)

and_true : (a b : Bool) → (a && (b && true)) ≡ (a && b)
and_true a b = ground arith

with_true : (a : Bool) {A : Type 0} → (a ≡ true) ↔ A → ((a && true) ≡ true) ↔ A
with_true true h = h
with_true false h = h

wan-ProximusUp :
    (p q : Option Row)
    → ((is_up (or_row p q)
          && (is_public (
                or_text
                  (text_at (or_empty (or_row p q)) "addr4")
                  (text_at (or_empty (or_row p q)) "ipaddr"))
              && true))
        ≡ true)
      ↔ ((row : Row) × ((p ≡ some row) ⊎ ((p ≡ none) × (q ≡ some row)))
          × (lower (text_at row "status") ≡ "up")
          × ((a : String) × IsAddress row "addr4" "ipaddr" a × IsPublicAddress a))
wan-ProximusUp p q =
    let c =
      row-cases (or_row p q)
        (λ row. is_public (or_text (text_at row "addr4") (text_at row "ipaddr")))
        (λ row. (a : String) × IsAddress row "addr4" "ipaddr" a × IsPublicAddress a)
        (λ row.
          IsAddress-cases row "addr4" "ipaddr" is_public IsPublicAddress
            is_public-IsPublicAddress) in
    (
      λ h.
          let (row, (e, u), i) = c.0 (sym (and_true _ _) ∙ h) in
          (row, (or_row-some p q row).0 e, u, i),
      λ (row, w, u, i). and_true _ _ ∙ c.1 (row, ((or_row-some p q row).1 w, u), i),
    )

pub proximus-ProximusUp :
    (rows : List Row) (on : Bool)
    → (all Check.ok (proximus_checks (by_descr rows []) on) ≡ true) ↔ ProximusUp rows on
unfolding proximus_checks Dict.get
proximus-ProximusUp rows false = (λ h. tt, λ h. refl)
proximus-ProximusUp rows true =
    rw
      (
        get-by_descr rows [] "WAN_PROXIMUS" wans_named.0.0,
        get-by_descr rows [] "WAN1" wans_named.0.1,
      )
      (wan-ProximusUp (last_row "WAN_PROXIMUS" rows none) (last_row "WAN1" rows none))

wan2-TelenetUp :
    (o : Option Row) (t : Telenet)
    → ((is_up o
          && (telenet_v4 t (or_text (text_at (or_empty o) "addr4") (text_at (or_empty o) "ipaddr"))
              && (telenet_v6 t
                    (or_text (text_at (or_empty o) "addr6") (text_at (or_empty o) "ipaddrv6"))
                  && true)))
        ≡ true)
      ↔ ((row : Row) × UpRow o row
          × ((a : String) × IsAddress row "addr4" "ipaddr" a
              × IsTelenet4 t (first_part (split "/" a)))
          × ((a : String) × IsAddress row "addr6" "ipaddrv6" a × IsTelenet6 t a))
wan2-TelenetUp o t =
    let c =
      row-cases o
        (λ row.
          telenet_v4 t (or_text (text_at row "addr4") (text_at row "ipaddr"))
          && (telenet_v6 t (or_text (text_at row "addr6") (text_at row "ipaddrv6")) && true))
        (λ row.
          ((a : String) × IsAddress row "addr4" "ipaddr" a
            × IsTelenet4 t (first_part (split "/" a)))
          × ((a : String) × IsAddress row "addr6" "ipaddrv6" a × IsTelenet6 t a))
        (λ row.
          both-cases _ _
            (IsAddress-cases row "addr4" "ipaddr" (telenet_v4 t)
              (λ a. IsTelenet4 t (first_part (split "/" a))) (telenet_v4-IsTelenet4 t))
            (with_true _ (
              IsAddress-cases row "addr6" "ipaddrv6" (telenet_v6 t) (IsTelenet6 t)
                (telenet_v6-IsTelenet6 t)))) in
    (
      λ h. let (row, up, both) = c.0 h in (row, up, both.0, both.1),
      λ (row, up, v4, v6). c.1 (row, up, (v4, v6)),
    )

pub telenet-TelenetUp :
    (rows : List Row) (on : Bool) (t : Telenet)
    → (all Check.ok (telenet_checks (by_descr rows []) on t) ≡ true) ↔ TelenetUp rows on t
unfolding telenet_checks Dict.get
telenet-TelenetUp rows false t = (λ h. tt, λ h. refl)
telenet-TelenetUp rows true t =
    rw (get-by_descr rows [] "WAN_TELENET" wans_named.1)
      (wan2-TelenetUp (last_row "WAN_TELENET" rows none) t)
