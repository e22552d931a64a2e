-- ===== src/FwValidate/Laws.antt =====
-- scripts/fw_validate.py: the exit status of the validation, and a description of the firewall.
use ansible_platform.Prelude.{
  ℕ, ◌+◌, ◌=ℕ◌, String, ◌==◌, ◌≡◌, refl, ap, ap₂, ◌∙◌, Bool, true, false, not, ◌&&◌, ◌||◌, List, [],
  ◌∷◌, ◌++◌, length, length-append, all, any, keep, contains, is_empty, arith, if◌then◌else◌,
}
use ansible_platform.Prelude.Text.{lower}
use ansible_platform.Prelude.Value.{scalar, text, Entry, field_or}
use ansible_platform.Prelude.Dict
use ansible_platform.Prelude.Dict.{Dict}
use ansible_platform.FwValidate.{
  Expected, Live, Part, Line, Probe, fail, info, as_text, ip_of, index_by, minus, given, probe_at,
  live_slots, part, then_part, radvd_status_part, radvd_entries_part, probe_part, vlan_parts,
  kea_part, validate_parts, validate, vlans, index_arp, index_ndp,
}

-- A neighbour of the table has the address, its own written by `key`.
abbrev pub neighbour : (String → String) → List Entry → String → Bool
neighbour key rows ip = any (λ e. not (ip_of e == "") && (key (ip_of e) == ip)) rows

has-index_by :
    (key : String → String) (rows : List Entry) (d : Dict Entry) (ip : String)
    → Dict.has (index_by key rows d) ip ≡ (Dict.has d ip || neighbour key rows ip)
unfolding index_by Dict.has
has-index_by key [] d ip = ground arith
has-index_by key (e ∷ rows) d ip = ground (
  arith,
  has-index_by key rows d ip,
  has-index_by key rows (Dict.put (key (ip_of e)) e d) ip,
  Dict.get-put (key (ip_of e)) ip e d,
)

abbrev pub runs : Entry → Bool
runs status = as_text (field_or status "status" (scalar (text "?"))) == "running"

-- An address that the catalog gives is among the neighbours.
abbrev pub answers : (String → String) → List Entry → String → Bool
answers key rows ip = ip == "" || neighbour key rows ip

-- The description of a firewall that agrees with the catalog, from the tables it answers with.
abbrev pub agrees : Expected → Live → Bool
agrees expected live =
    runs live.radvd_status
    && (all (contains (live_slots live.radvd_entries [])) expected.radvd_slots
        && all
            (λ v.
              answers (λ ip. ip) live.arp (given (probe_at expected.probes v).v4)
              && answers lower live.ndp (lower (given (probe_at expected.probes v).v6)))
            vlans)

abbrev pub is_fail : Line → Bool
is_fail l = elim l.status [ fail ↦ true | _ ↦ false ]

-- Each part of the report counts the lines that say FAIL.
record Counts (p : Part) : Type 0 where
  pub at : p.1 ≡ length (keep is_fail p.0)

keep-append : (a b : List Line) → keep is_fail (a ++ b) ≡ keep is_fail a ++ keep is_fail b
keep-append [] b = refl
keep-append (l ∷ a) b = ground (arith, keep-append a b)

Counts-then_part : (p q : Part) → Counts p → Counts q → Counts (then_part p q)
Counts-then_part (a, m) (b, n) h k = record {
  at = omega (
    arith,
    h.at,
    k.at,
    ap (length {A = Line}) (keep-append a b),
    length-append (keep is_fail a) (keep is_fail b),
  );
}

missing-all : (a b : List String) → is_empty (minus a b) ≡ all (contains b) a
missing-all [] b = refl
missing-all (x ∷ a) b = ground (arith, missing-all a b)

radvd_entries_part-zero :
    (e l : List String) → ((radvd_entries_part e l).1 =ℕ 0) ≡ all (contains l) e
unfolding radvd_entries_part
radvd_entries_part-zero e l = ground (arith, missing-all e l)

probe_part-zero :
    (label ip : String) (idx : Dict Entry)
    → ((probe_part label ip idx).1 =ℕ 0) ≡ (ip == "" || Dict.has idx ip)
unfolding probe_part
probe_part-zero label ip idx = ground arith

then_part-zero : (p q : Part) → ((then_part p q).1 =ℕ 0) ≡ ((p.1 =ℕ 0) && (q.1 =ℕ 0))
then_part-zero (a, m) (b, n) = ground arith

radvd_status_part-zero : (s : Entry) → ((radvd_status_part s).1 =ℕ 0) ≡ runs s
unfolding radvd_status_part
radvd_status_part-zero s = ground arith

abbrev answers_by : Dict Entry → String → Bool
answers_by idx ip = ip == "" || Dict.has idx ip

vlan_parts-zero :
    (probes : Dict Probe) (arp ndp : Dict Entry) (vs : List String)
    → ((vlan_parts probes arp ndp vs).1 =ℕ 0)
      ≡ all
          (λ v.
            answers_by arp (given (probe_at probes v).v4)
            && answers_by ndp (lower (given (probe_at probes v).v6)))
          vs
unfolding vlan_parts
vlan_parts-zero probes arp ndp [] = refl
vlan_parts-zero probes arp ndp (v ∷ vs) =
    then_part-zero
      (then_part (probe_part "  v4 probe" (given (probe_at probes v).v4) arp)
        (probe_part "  v6 probe" (lower (given (probe_at probes v).v6)) ndp))
      (vlan_parts probes arp ndp vs)
    ∙ ap₂ (λ a b. a && b)
        (then_part-zero (probe_part "  v4 probe" (given (probe_at probes v).v4) arp)
            (probe_part "  v6 probe" (lower (given (probe_at probes v).v6)) ndp)
          ∙ ap₂ (λ a b. a && b) (probe_part-zero _ _ arp) (probe_part-zero _ _ ndp))
        (vlan_parts-zero probes arp ndp vs)

-- A table answers as its index does.
answers_by-index_by :
    (key : String → String) (rows : List Entry) (ip : String)
    → answers_by (index_by key rows []) ip ≡ answers key rows ip
unfolding Dict.has Dict.get
answers_by-index_by key rows ip = ap (λ b. ip == "" || b) (has-index_by key rows [] ip)

all-eq : {A : Type 0} (p q : A → Bool) (xs : List A) → ((x : A) → p x ≡ q x) → all p xs ≡ all q xs
all-eq p q [] h = refl
all-eq p q (x ∷ xs) h = ap₂ (λ a b. a && b) (h x) (all-eq p q xs h)

kea_part-zero : (m n : ℕ) → ((kea_part m n).1 =ℕ 0) ≡ true
unfolding kea_part
kea_part-zero m n = ground arith

sum-zero :
    (a b c d : ℕ) (x y z : Bool)
    → (a =ℕ 0) ≡ x
    → (b =ℕ 0) ≡ y
    → (c =ℕ 0) ≡ z
    → (d =ℕ 0) ≡ true
    → ((a + (b + (c + (0 + d)))) =ℕ 0) ≡ (x && (y && z))
sum-zero a b c d x y z h k m n = ground arith

validate_parts-zero : (e : Expected) (l : Live) → ((validate_parts e l).1 =ℕ 0) ≡ agrees e l
unfolding validate_parts
validate_parts-zero e l =
    sum-zero _ _ _ _ _ _ _ (radvd_status_part-zero l.radvd_status)
      (radvd_entries_part-zero e.radvd_slots (live_slots l.radvd_entries []))
      (vlan_parts-zero e.probes (index_arp l.arp) (index_ndp l.ndp) vlans
        ∙ all-eq _ _ vlans (λ v.
          ap₂ (λ a b. a && b)
            (answers_by-index_by (λ ip. ip) l.arp (given (probe_at e.probes v).v4))
            (answers_by-index_by lower l.ndp (lower (given (probe_at e.probes v).v6)))))
      (kea_part-zero l.leases4 l.leases6)

exit-zero : (n : ℕ) → ((if n =ℕ 0 then 0 else 1) =ℕ 0) ≡ (n =ℕ 0)
exit-zero n = ground arith

-- The script ends with 0 exactly when radvd is running, every interface slot that the catalog
-- enables for radvd is enabled on the firewall, and every probe address of the catalog, in each
-- VLAN, is in the ARP table (IPv4) or, in lower case, in the NDP table (IPv6).
pub validate_exact : (e : Expected) (l : Live) → (validate e l =ℕ 0) ≡ agrees e l
unfolding validate
validate_exact e l = exit-zero (validate_parts e l).1 ∙ validate_parts-zero e l

radvd_status_part-Counts : (s : Entry) → Counts (radvd_status_part s)
unfolding radvd_status_part
radvd_status_part-Counts s = record { at = ground arith }

radvd_entries_part-Counts : (e l : List String) → Counts (radvd_entries_part e l)
unfolding radvd_entries_part
radvd_entries_part-Counts e l = record { at = ground arith }

probe_part-Counts : (label ip : String) (idx : Dict Entry) → Counts (probe_part label ip idx)
unfolding probe_part
probe_part-Counts label ip idx = record { at = ground arith }

kea_part-Counts : (m n : ℕ) → Counts (kea_part m n)
unfolding kea_part
kea_part-Counts m n = record { at = ground arith }

vlan_parts-Counts :
    (probes : Dict Probe) (arp ndp : Dict Entry) (vs : List String)
    → Counts (vlan_parts probes arp ndp vs)
unfolding vlan_parts
vlan_parts-Counts probes arp ndp [] = record { at = refl }
vlan_parts-Counts probes arp ndp (v ∷ vs) =
    Counts-then_part _ (vlan_parts probes arp ndp vs)
      (Counts-then_part _ _ (probe_part-Counts "  v4 probe" (given (probe_at probes v).v4) arp)
        (probe_part-Counts "  v6 probe" (lower (given (probe_at probes v).v6)) ndp))
      (vlan_parts-Counts probes arp ndp vs)

all-Counts :
    (a b c d e : Part)
    → Counts a
    → Counts b
    → Counts c
    → Counts d
    → Counts e
    → Counts (then_part a (then_part b (then_part c (then_part d e))))
all-Counts a b c d e p q r s t =
    Counts-then_part a _ p
      (Counts-then_part b _ q (Counts-then_part c _ r (Counts-then_part d e s t)))

-- The number of failures that the script counts is the number of lines of its report that say
-- FAIL.
pub validate_parts_fails :
    (e : Expected) (l : Live)
    → (validate_parts e l).1 ≡ length (keep is_fail (validate_parts e l).0)
unfolding validate_parts
validate_parts_fails e l =
    (all-Counts (radvd_status_part l.radvd_status)
      (radvd_entries_part e.radvd_slots (live_slots l.radvd_entries []))
      (vlan_parts e.probes (index_arp l.arp) (index_ndp l.ndp) vlans)
      (part "active flows in state table" info 0) (kea_part l.leases4 l.leases6)
      (radvd_status_part-Counts _) (radvd_entries_part-Counts _ _)
      (vlan_parts-Counts e.probes _ _ vlans) (record { at = refl })
      (kea_part-Counts l.leases4 l.leases6)).at
