-- ===== src/VerifyHealth/Laws.antt =====
-- scripts/fw_verify_health.py: the exit status of the gate, and a description of the firewall.
use ansible_platform.Prelude.{
  String, ◌==◌, ◌≡◌, refl, ap, ◌∙◌, ◌↔◌, Bool, true, false, not, ◌||◌, ◌&&◌, Option, none, some,
  List, [], ◌∷◌, ◌++◌, any, all, keep, is_empty, arith, String-discrete,
}
use ansible_platform.Prelude.Text.{lower}
use ansible_platform.Prelude.Dict
use ansible_platform.Prelude.Dict.{Dict, get-put}
use ansible_platform.VerifyHealth.{
  Row, Api, Check, report, expected_ifaces, text_at, by_descr, iface_checks, Telenet,
  gateway_checks, is_down, required_services, is_running, flag_at, running, service_rows,
  kea_checks, service_checks, checks, run_on, run,
}
use ansible_platform.VerifyHealth.Wans.{
  last_row, get-by_descr, UpRow, is_up-UpRow, ProximusUp, TelenetUp, proximus-ProximusUp,
  telenet-TelenetUp,
}

all-append : (xs ys : List Check) → all Check.ok (xs ++ ys) ≡ (all Check.ok xs && all Check.ok ys)
all-append [] ys = refl
all-append (x ∷ xs) ys = ground (arith, all-append xs ys)

-- The entry that `running` writes for a row.
running_step :
    (r : Row) (d : Dict Bool) (s : String)
    → flag_at (Dict.put (text_at r "name") (flag_at d (text_at r "name") || is_running r) d) s
      ≡ (flag_at d s || ((text_at r "name" == s) && is_running r))
running_step r d s = ground (
  arith,
  get-put (text_at r "name") s (flag_at d (text_at r "name") || is_running r) d,
  ap (λ (k : String). Dict.get d k),
)

or_assoc : (a b c : Bool) → ((a || b) || c) ≡ (a || (b || c))
or_assoc a b c = ground arith

running_exact :
    (rows : List Row) (d : Dict Bool) (s : String)
    → flag_at (running rows d) s
      ≡ (flag_at d s || any (λ r. (text_at r "name" == s) && is_running r) rows)
unfolding running
running_exact [] d s = ground arith
running_exact (r ∷ rows) d s =
    running_exact rows _ s
    ∙ ap (λ (b : Bool). b || any (λ r. (text_at r "name" == s) && is_running r) rows)
        (running_step r d s)
    ∙ or_assoc (flag_at d s) _ _

-- Every listed interface has a last row, and that is up.
abbrev pub AllUp : List Row → List String → Type 0
AllUp rows [] = Unit
AllUp rows (i ∷ is) = ((row : Row) × UpRow (last_row i rows none) row) × AllUp rows is

ifaces-AllUp :
    (rows : List Row) (is : List String)
    → all (λ i. not (i == "")) is ≡ true
    → (all Check.ok (iface_checks (by_descr rows []) is) ≡ true) ↔ AllUp rows is
unfolding iface_checks Dict.get
ifaces-AllUp rows [] h = (λ p. tt, λ p. refl)
ifaces-AllUp rows (i ∷ is) h =
    rw (get-by_descr rows [] i (ground arith))
      (ground (arith, ifaces-AllUp rows is (ground arith), is_up-UpRow (last_row i rows none)))

-- Every listed service has a row that says that it runs.
abbrev pub AllRunning : List Row → List String → Type 0
AllRunning svc [] = Unit
AllRunning svc (s ∷ ss) =
    (any (λ r. (text_at r "name" == s) && is_running r) svc ≡ true) × AllRunning svc ss

services-AllRunning :
    (svc : List Row) (ss : List String)
    → (all Check.ok (service_rows (running svc []) ss) ≡ true) ↔ AllRunning svc ss
unfolding service_rows Dict.get
services-AllRunning svc [] = (λ p. tt, λ p. refl)
services-AllRunning svc (s ∷ ss) =
    rw (running_exact svc [] s) (ground (arith, services-AllRunning svc ss))

keep-any : (rows : List Row) → is_empty (keep is_down rows) ≡ not (any is_down rows)
keep-any [] = refl
keep-any (r ∷ rows) = ground (arith, keep-any rows)

keep-nil : (rows : List Row) → any is_down rows ≡ false → keep is_down rows ≡ []
keep-nil [] h = refl
keep-nil (r ∷ rows) h = ground (arith, keep-nil rows)

-- The gateways answer and none is down.
abbrev pub GatewaysUp : Option (List Row) → Type 0
GatewaysUp none = ⊥
GatewaysUp (some gws) = any (λ r. lower (text_at r "status") == "down") gws ≡ false

abbrev pub ServicesUp : Option (List Row) → Bool → Type 0
ServicesUp none kea = ⊥
ServicesUp (some svc) kea = AllRunning svc (required_services kea)

gateways-GatewaysUp :
    (o : Option (List Row)) → (all Check.ok (gateway_checks o) ≡ true) ↔ GatewaysUp o
unfolding gateway_checks is_down
gateways-GatewaysUp none = (λ h. cc, λ h. absurd h)
gateways-GatewaysUp (some gws) = (λ h. ground (arith, keep-any gws), λ h. rw (keep-nil gws h))

services-ServicesUp :
    (o : Option (List Row)) (kea : Bool)
    → (all Check.ok (service_checks o kea) ≡ true) ↔ ServicesUp o kea
unfolding service_checks
services-ServicesUp none kea = (λ h. cc, λ h. absurd h)
services-ServicesUp (some svc) kea = services-AllRunning svc (required_services kea)

-- The firewall works: every expected interface is up, the WAN lines are as asked for, the gateways
-- answer and none is down, and every required service runs.
abbrev pub IsHealthy : Option (List Row) → Api → Bool → Bool → Telenet → Bool → Type 0
IsHealthy none api wan2 proximus t kea = ⊥
IsHealthy (some rows) api wan2 proximus t kea =
    AllUp rows expected_ifaces
    × ProximusUp rows proximus
    × TelenetUp rows wan2 t
    × GatewaysUp api.gateways
    × ServicesUp api.services kea

expected_named : all (λ i. not (i == "")) expected_ifaces ≡ true
unfolding String-discrete
expected_named = refl

kea_checks-ok : (kea : Bool) → all Check.ok (kea_checks kea) ≡ true
unfolding kea_checks
kea_checks-ok true = refl
kea_checks-ok false = refl

report-zero : (cs : List Check) → (report cs ≡ 0) ↔ (all Check.ok cs ≡ true)
unfolding report
report-zero cs = ground arith

all-cases :
    {a b c d e : Bool} {A B C D E : Type 0}
    → (a ≡ true) ↔ A
    → (b ≡ true) ↔ B
    → (c ≡ true) ↔ C
    → (d ≡ true) ↔ D
    → (e ≡ true) ↔ E
    → ((a && (b && (c && (d && (true && e))))) ≡ true) ↔ (A × B × C × D × E)
all-cases f g h i j = (
  λ t. (
    f.0 (ground arith),
    g.0 (ground arith),
    h.0 (ground arith),
    i.0 (ground arith),
    j.0 (ground arith),
  ),
  λ (x, y, z, u, v). rw (f.1 x, g.1 y, h.1 z, i.1 u, j.1 v) refl,
)

checks-ok :
    (rows : List Row) (api : Api) (wan2 proximus : Bool) (t : Telenet) (kea : Bool)
    → (all Check.ok (checks (by_descr rows []) api wan2 proximus t kea) ≡ true)
      ↔ IsHealthy (some rows) api wan2 proximus t kea
unfolding checks
checks-ok rows api wan2 proximus t kea =
    simp (all-append, kea_checks-ok)
      (all-cases (ifaces-AllUp rows expected_ifaces expected_named)
        (proximus-ProximusUp rows proximus) (telenet-TelenetUp rows wan2 t)
        (gateways-GatewaysUp api.gateways) (services-ServicesUp api.services kea))

run_on_exact :
    (o : Option (List Row)) (api : Api) (wan2 proximus : Bool) (t : Telenet) (kea : Bool)
    → (run_on o api wan2 proximus t kea ≡ 0) ↔ IsHealthy o api wan2 proximus t kea
unfolding run_on report
run_on_exact none api wan2 proximus t kea = (λ h. ground arith, λ h. absurd h)
run_on_exact (some rows) api wan2 proximus t kea =
    let r = report-zero (checks (by_descr rows []) api wan2 proximus t kea) in
    let c = checks-ok rows api wan2 proximus t kea in (λ h. c.0 (r.0 h), λ h. r.1 (c.1 h))

-- The gate exits with 0 exactly when the API lists the interfaces and the firewall is healthy; so an
-- API that does not answer is never green.
pub run_exact :
    (api : Api) (wan2 proximus : Bool) (t : Telenet) (kea : Bool)
    → (run api wan2 proximus t kea ≡ 0) ↔ IsHealthy api.interfaces api wan2 proximus t kea
unfolding run
run_exact api wan2 proximus t kea = run_on_exact api.interfaces api wan2 proximus t kea
