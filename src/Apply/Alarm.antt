-- ===== src/Apply/Alarm.antt =====
-- scripts/fw_apply_direct.py: a call that the client answers with an exception reaches the exit status.
use ansible_platform.Prelude.{
  String, ◌≡◌, refl, Bool, true, false, Bool-cases, ◌⊎◌, inl, inr, Option, List, [], ◌∷◌, ◌++◌,
  any-append, contains, all, arith,
}
use ansible_platform.Prelude.Dict.{Dict}
use ansible_platform.Prelude.Value.{Scalar, Value, Entry}
use ansible_platform.Prelude.Exec.{
  Result, Raised, ok, err, Exec, pure, lift, when, each, resume, ◌>>=◌,
}
use ansible_platform.Apply.Api.{
  Manager, Reply, returned, opnsense_error, other_error, Body, Firewall,
}
use ansible_platform.Apply.Section.{
  Row, State, row_of, ident, call, append, apply_entry, apply_section,
}
use ansible_platform.Apply.Services.{
  post, post_unless, post_row, service_row, apply_kea_general, reconfigure_unbound, reconfigure_kea,
  apply_service,
}
use ansible_platform.Apply.Catalog.{Kea, Catalog}
use ansible_platform.Apply.Run.{
  is_error, exit_status, parse_only, fw_block, unbound_block, unbound_activation, kea_block,
  dnsmasq_part, dnsmasq_block, radvd_block, apply_catalog, finish, main_async, section_groups,
}
use ansible_platform.Apply.Report.{HasError}
use ansible_platform.Apply.Rows.{IsFailure}

abbrev pub HasRaised {ℓ} : {A : Type ℓ} → Result A → Type ℓ
HasRaised r = (x : Raised) × (r ≡ err x)

-- A condition of the device that only a call which is answered by an exception brings about, for
-- instance that its log holds such a call.
pub record OnlyFailures (fw : Firewall) (Failed : Firewall.World fw → Type 0) : Type 0 where
  pub ensured :
      (mgr : Manager) (state : Value) (payload : Entry) (check : Bool) (w : Firewall.World fw)
      → Failed (fw.ensure mgr state payload check w).1
      → Failed w ⊎ IsFailure (fw.ensure mgr state payload check w).0
  pub posted :
      (path : String) (body : Body) (w : Firewall.World fw)
      → Failed (fw.post path body w).1
      → Failed w ⊎ ((fw.post path body w).0 ≡ false)

module _ (fw : Firewall) (Failed : Firewall.World fw → Type 0)
    (only_failures : OnlyFailures fw Failed) where
  -- A failure stands in the report.
  abbrev Told : State fw → Type 0
  Told s = Failed s.world → HasError s.results

  -- A statement that ends without raising keeps the report up to date.
  record Tells {A : Type 0} (m : Exec (State fw) A) : Type 0 where
    after : (s : State fw) → Told s → HasRaised (m s).0 ⊎ Told (m s).1

  Tells-resume :
      {A B : Type 0} (r : Result A) (next : A → Exec (State fw) B) (t : State fw)
      → ((a : A) → Tells (next a))
      → HasRaised r ⊎ Told t
      → HasRaised (resume r next t).0 ⊎ Told (resume r next t).1
  Tells-resume (ok a) next t each_next (inl (x, e)) = absurd (cc)
  Tells-resume (ok a) next t each_next (inr h) = Tells.after (each_next a) t h
  Tells-resume (err x) next t each_next h = inl (x, refl)

  Tells-bind :
      {A B : Type 0} (first : Exec (State fw) A) (next : A → Exec (State fw) B)
      → Tells first
      → ((a : A) → Tells (next a))
      → Tells (first >>= next)
  unfolding ◌>>=◌
  Tells-bind first next h each_next = record {
    after =
        λ s told. let (r, t) = first s in Tells-resume r next t each_next (Tells.after h s told);
  }

  Tells-pure : {A : Type 0} (a : A) → Tells (pure a)
  unfolding pure
  Tells-pure a = record { after = λ s told. inr told }

  Tells-lift : {A : Type 0} (r : Result A) → Tells (lift r)
  unfolding lift
  Tells-lift r = record { after = λ s told. inr told }

  Tells-when : (b : Bool) (m : Exec (State fw) (Unit {0})) → Tells m → Tells (when b m)
  unfolding when
  Tells-when true m h = h
  Tells-when false m h = Tells-pure tt

  Tells-each :
      {A : Type 0} (body : A → Exec (State fw) (Unit {0})) (xs : List A)
      → ((x : A) → Tells (body x))
      → Tells (each body xs)
  unfolding each
  Tells-each body [] h = Tells-pure tt
  Tells-each body (x ∷ xs) h = Tells-bind (body x) _ (h x) (λ _. Tells-each body xs h)

  -- A new row, which is an error if the call before it has failed
  told-row :
      (w w' : Firewall.World fw) (results : List Row) (row : Row) {P : Type 0}
      → (Failed w → HasError results)
      → (Failed w' → Failed w ⊎ P)
      → (P → is_error row ≡ true)
      → Failed w'
      → HasError (results ++ row ∷ [])
  told-row w w' results row told back error f =
      rw (any-append is_error results (row ∷ [])) (elim (back f) [
        | inl before ↦ ground (arith, told before)
        | inr now ↦ ground (arith, error now)
      ])

  row_of-is_error :
      (label : String) (name : Value) (reply : Reply) (ref : Dict Scalar)
      → IsFailure reply
      → is_error (row_of label name reply ref) ≡ true
  unfolding is_error row_of
  row_of-is_error label name (returned r) ref h = ground arith
  row_of-is_error label name opnsense_error ref h = refl
  row_of-is_error label name other_error ref h = refl

  service_row-is_error :
      (label : String) (name : Value) (manager : String) (reply : Reply)
      → IsFailure reply
      → is_error (service_row label name manager reply) ≡ true
  unfolding is_error
  service_row-is_error label name manager (returned r) h = ground arith
  service_row-is_error label name manager opnsense_error h = refl
  service_row-is_error label name manager other_error h = refl

  post_row-is_error :
      (label : String) (name : Value) (done : Scalar) (sent : Bool)
      → sent ≡ false
      → is_error (post_row label name done sent) ≡ true
  unfolding is_error
  post_row-is_error label name done sent h = rw h refl

  append-Tells : (row : Row) → Tells (append fw row)
  unfolding append
  append-Tells row = record {
    after =
        λ s told. inr (λ f. rw (any-append is_error s.results (row ∷ [])) (ground (arith, told f)));
  }

  -- An entry from its call on, with what its `ref` reads
  send-Tells :
      (mgr : Manager) (label : String) (check : Bool) (state : Value) (payload : Entry)
      (r : Result (Dict Scalar))
      → Tells (
          call fw mgr state payload check >>= λ reply.
          lift r >>= λ ref. append fw (row_of label (ident payload) reply ref))
  unfolding lift call append ◌>>=◌
  send-Tells mgr label check state payload (err x) = record { after = λ s told. inl (x, refl) }
  send-Tells mgr label check state payload (ok ref) = record {
    after = λ s told. inr (
        told-row s.world (fw.ensure mgr state payload check s.world).1 s.results _ told
          (only_failures.ensured mgr state payload check s.world)
          (row_of-is_error label (ident payload) (fw.ensure mgr state payload check s.world).0
            ref));
  }

  apply_entry-Tells :
      (mgr : Manager) (label : String) (check : Bool) (m : Option (Dict String)) (e : Entry)
      → Tells (apply_entry fw mgr label check m e)
  unfolding apply_entry
  apply_entry-Tells mgr label check m e =
      Tells-bind _ _ (Tells-lift _) λ payload. send-Tells mgr label check _ payload _

  apply_section-Tells :
      (mgr : Manager) (es : List Entry) (label : String) (check : Bool) (m : Option (Dict String))
      → Tells (apply_section fw mgr es label check m)
  unfolding apply_section
  apply_section-Tells mgr [] label check m = Tells-pure tt
  apply_section-Tells mgr (e ∷ es) label check m =
      Tells-each _ (e ∷ es) (λ x. apply_entry-Tells mgr label check m x)

  apply_service-Tells :
      (mgr : Manager) (label : String) (name : Value) (manager : String) (state : Value)
      (payload : Entry) (check : Bool)
      → Tells (apply_service fw mgr label name manager state payload check)
  unfolding apply_service call append ◌>>=◌
  apply_service-Tells mgr label name manager state payload check = record {
    after = λ s told. inr (
        told-row s.world (fw.ensure mgr state payload check s.world).1 s.results _ told
          (only_failures.ensured mgr state payload check s.world)
          (service_row-is_error label name manager (fw.ensure mgr state payload check s.world).0));
  }

  post_unless-Tells :
      (check : Bool) (label : String) (name : Value) (done : Scalar) (path : String) (body : Body)
      → Tells (post_unless fw check label name done path body)
  unfolding post_unless post append ◌>>=◌
  post_unless-Tells true label name done path body = append-Tells _
  post_unless-Tells false label name done path body = record {
    after = λ s told. inr (
        told-row s.world (fw.post path body s.world).1 s.results _ told
          (only_failures.posted path body s.world)
          (post_row-is_error label name done (fw.post path body s.world).0));
  }

  ruleset tells_rules = (
    Tells-pure, Tells-lift, Tells-bind, Tells-when, Tells-each, apply_section-Tells,
    apply_service-Tells, post_unless-Tells,
  )

  module _ (c : Catalog) (only : List String) (check : Bool) where
    fw_block-Tells : Tells (fw_block fw c only check)
    unfolding fw_block
    fw_block-Tells = search tells_rules

    unbound_block-Tells : Tells (unbound_block fw c only check)
    unfolding unbound_block
    unbound_block-Tells = search tells_rules

    activation-Tells : Tells (unbound_activation fw c only check)
    unfolding unbound_activation reconfigure_unbound
    activation-Tells = record {
      after = λ s. Tells.after (Tells-when _ _ (post_unless-Tells check _ _ _ _ _)) s;
    }

    kea_block-Tells :
        (kea : Kea) (mgr : Manager) (endpoint label : String)
        → Tells (kea_block fw c only check kea mgr endpoint label)
    unfolding kea_block apply_kea_general
    kea_block-Tells kea mgr endpoint label = search tells_rules

    reconfigure_kea-Tells : Tells (reconfigure_kea fw check)
    unfolding reconfigure_kea
    reconfigure_kea-Tells = post_unless-Tells check _ _ _ _ _

    dnsmasq_block-Tells : Tells (dnsmasq_block fw c only check)
    unfolding dnsmasq_block dnsmasq_part
    dnsmasq_block-Tells = search tells_rules depth 12

    radvd_block-Tells : Tells (radvd_block fw c only check)
    unfolding radvd_block
    radvd_block-Tells = search tells_rules

    apply_catalog-Tells : Tells (apply_catalog fw c only check)
    unfolding apply_catalog
    apply_catalog-Tells =
        search
          (
            Tells-bind, Tells-when, fw_block-Tells, unbound_block-Tells, activation-Tells,
            kea_block-Tells, reconfigure_kea-Tells, dnsmasq_block-Tells, radvd_block-Tells,
          )
          depth 16

    finish-red :
        (r : Result (Unit {0}) × State fw)
        → HasRaised r.0 ⊎ Told r.1
        → Failed (finish fw c only check r).1.world
        → ((finish fw c only check r).0 ≡ ok 1) ⊎ HasRaised (finish fw c only check r).0
    unfolding finish exit_status
    finish-red (ok u, t) (inl (x, e)) f = absurd (cc)
    finish-red (ok u, t) (inr told) f = inl (rw (told f) refl)
    finish-red (err x, t) h f = inr (x, refl)

-- Let `Failed` be a condition of the device that only a call which the client answers with an
-- exception brings about. A run that starts without it and ends with it, so in which such a call was
-- made, exits with 1 or raises: no refusal, in whatever section, is lost.
pub failure_is_reported :
    (fw : Firewall) (Failed : Firewall.World fw → Type 0) (c : Catalog) (only_arg : String)
    (check : Bool) (w : Firewall.World fw)
    → OnlyFailures fw Failed
    → ¬ (Failed w)
    → Failed (main_async fw c only_arg check w).1.world
    → ((main_async fw c only_arg check w).0 ≡ ok 1) ⊎ HasRaised (main_async fw c only_arg check w).0
unfolding main_async
failure_is_reported fw Failed c only_arg check w h clean f =
    elim (Bool-cases (all (contains section_groups) (parse_only only_arg))) [
      | inl valid ↦ rw valid (
          finish-red fw Failed h c (parse_only only_arg) check _
            (Tells.after (apply_catalog-Tells fw Failed h c (parse_only only_arg) check) _
              (λ g. absurd (clean g)))
            (rw valid at f))
      | inr invalid ↦ absurd (clean (rw invalid at f))
    ]
