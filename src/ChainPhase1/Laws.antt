-- ===== src/ChainPhase1/Laws.antt =====
-- scripts/fw_chain_phase1_apply.py: dry runs, and the polling of the guest agent.
use ansible_platform.Prelude.{
  ℕ, zero, suc, ◌<◌, ◌<>◌, String, ◌≡◌, refl, sym, subst, ◌∙◌, Bool, true, false, ◌⊎◌, inl, inr,
  Option, none, some, List, arith,
}
use ansible_platform.Prelude.Exec.{
  Result, ok, err, Exec, pure, when, resume, ◌>>=◌, Keeps, Keeps-pure, Keeps-lift, Keeps-bind,
  Keeps-when,
}
use ansible_platform.ChainPhase1.{
  Remote, drill_unbound, Dnscrypt, Poll, no_answer, running, exited, poll_loop, read, qm_exec,
  gated, step1_snapshot, step2_dnscrypt_general, step3_dnscrypt_start_verify,
  step4_unbound_forwarding_enable, step5_drop_dot, step6_apply_unbound_reconfigure,
  step7_verify_chain, main,
}

module _ (r : Remote) (w₀ : Remote.World r) where
  abbrev Same : Remote.World r → Type 0
  Same w = w ≡ w₀

  read-Same : {A : Type 0} (f : Remote.World r → Result A) → Keeps Same (read r f)
  unfolding read
  read-Same f = record { after = λ w e. e }

  gated-Same : (m : Exec (Remote.World r) (Unit {0})) → Keeps Same (gated r false m)
  unfolding gated when
  gated-Same m = Keeps-pure tt

  -- It is as it was, or as the command of step 7 leaves it.
  abbrev SameOrDrilled : Remote.World r → Type 0
  SameOrDrilled w = (w ≡ w₀) ⊎ (w ≡ (r.agent_exec drill_unbound w₀).1)

  -- From the firewall as it was, the statement leads there.
  record Leads {A : Type 0} (m : Exec (Remote.World r) A) : Type 0 where
    final : SameOrDrilled (m w₀).1

  Leads-resume :
      {A B : Type 0} (a : Result A) (next : A → Exec (Remote.World r) B) (w : Remote.World r)
      → w ≡ w₀
      → ((x : A) → Leads (next x))
      → SameOrDrilled (resume a next w).1
  Leads-resume (ok x) next w e each_next =
      subst (λ v. SameOrDrilled (next x v).1) (sym e) (Leads.final (each_next x))
  Leads-resume (err x) next w e each_next = inl e

  Leads-bind :
      {A B : Type 0} (first : Exec (Remote.World r) A) (next : A → Exec (Remote.World r) B)
      → Keeps Same first
      → ((a : A) → Leads (next a))
      → Leads (first >>= next)
  unfolding ◌>>=◌
  Leads-bind first next h each_next = record {
    final = let (a, w) = first w₀ in Leads-resume a next w (h.after w₀ refl) each_next;
  }

  Leads-when : (b : Bool) (m : Exec (Remote.World r) (Unit {0})) → Leads m → Leads (when b m)
  unfolding when pure
  Leads-when true m h = h
  Leads-when false m h = record { final = inl refl }

  step1-Same : Keeps Same (step1_snapshot r)
  unfolding step1_snapshot
  step1-Same = search (Keeps-bind, Keeps-lift, Keeps-pure, Keeps-when, read-Same) depth 12

  step2-Same : (catalog : Dnscrypt) → Keeps Same (step2_dnscrypt_general r catalog false)
  unfolding step2_dnscrypt_general
  step2-Same catalog = search (Keeps-bind, Keeps-lift, Keeps-when, read-Same, gated-Same)

  step3-Same : Keeps Same (step3_dnscrypt_start_verify r false)
  unfolding step3_dnscrypt_start_verify
  step3-Same = gated-Same _

  step4-Same : Keeps Same (step4_unbound_forwarding_enable r false)
  unfolding step4_unbound_forwarding_enable
  step4-Same = Keeps-bind _ _ (read-Same _) λ cur. Keeps-when _ _ λ _. gated-Same _

  step5-Same : Keeps Same (step5_drop_dot r false)
  unfolding step5_drop_dot
  step5-Same =
      Keeps-bind _ _ (read-Same _)
        λ rows. Keeps-bind _ _ (Keeps-lift _) λ uuids. Keeps-when _ _ λ _. gated-Same _

  step6-Same : Keeps Same (step6_apply_unbound_reconfigure r false)
  unfolding step6_apply_unbound_reconfigure
  step6-Same = gated-Same _

  poll-final :
      (pid : Result (Option ℕ)) (w : Remote.World r)
      → (resume {B = Option String} pid
          (λ p. elim p [
            | none ↦ pure none
            | some n ↦ read r (λ w. poll_loop (λ left. r.agent_poll n left w) 15)
          ])
          w).1
        ≡ w
  unfolding pure read
  poll-final (ok none) w = refl
  poll-final (ok (some n)) w = refl
  poll-final (err x) w = refl

  qm_exec-final : (argv : List String) → (qm_exec r argv w₀).1 ≡ (r.agent_exec argv w₀).1
  unfolding qm_exec ◌>>=◌
  qm_exec-final argv = let (pid, w) = r.agent_exec argv w₀ in poll-final pid w

  done-final :
      (a : Result (Option String)) (w : Remote.World r)
      → (resume {B = Unit {0}} a (λ out. pure tt) w).1 ≡ w
  unfolding pure
  done-final (ok x) w = refl
  done-final (err x) w = refl

  drill-Leads : Leads (qm_exec r drill_unbound >>= λ _. pure tt)
  unfolding ◌>>=◌
  drill-Leads = record {
    final = inr (
        done-final (qm_exec r drill_unbound w₀).0 (qm_exec r drill_unbound w₀).1
        ∙ qm_exec-final drill_unbound);
  }

  step7-Leads : Leads (step7_verify_chain r)
  unfolding step7_verify_chain
  step7-Leads = Leads-bind _ _ (read-Same _) λ _. drill-Leads

  skip-Leads :
      (b : Bool) (m k : Exec (Remote.World r) (Unit {0}))
      → Keeps Same m
      → Leads k
      → Leads (when b m >>= λ _. k)
  skip-Leads b m k h g = Leads-bind _ _ (Keeps-when b m (λ _. h)) (λ _. g)

  main-Leads : (catalog : Dnscrypt) (only : Option String) → Leads (main r catalog false only)
  unfolding main
  main-Leads catalog only = skip-Leads _ _ _ step1-Same (
      skip-Leads _ _ _ (step2-Same catalog) (
        skip-Leads _ _ _ step3-Same (
          skip-Leads _ _ _ step4-Same (
            skip-Leads _ _ _ step5-Same
              (skip-Leads _ _ _ step6-Same (Leads-when _ _ step7-Leads))))))

-- Without `--apply`, whichever steps are selected and whether the run ends or raises, it leaves the
-- firewall as it was, or as the `drill` query that step 7 has the guest agent run leaves it: no other
-- request that may change it is sent.
pub main_unapplied :
    (r : Remote) (catalog : Dnscrypt) (only : Option String) (w : Remote.World r)
    → ((main r catalog false only w).1 ≡ w)
      ⊎ ((main r catalog false only w).1 ≡ (r.agent_exec drill_unbound w).1)
main_unapplied r catalog only w = Leads.final (main-Leads r w catalog only)

≤_cases : (k n : ℕ) → k < suc n → (k ≡ n) ⊎ (k < n)
≤_cases k n h = ground arith

module _ (ask : ℕ → Result Poll) where
  -- If the process is seen to exit in the poll that leaves `k` more, and no earlier poll raises or
  -- sees it exit, then the loop gives the outputs of that poll.
  pub poll_loop_exits :
      (left k : ℕ) (out e : String)
      → k < left
      → ask k ≡ ok (exited out e)
      → ((j : ℕ) → k < j → j < left → (ask j ≡ ok no_answer) ⊎ (ask j ≡ ok running))
      → poll_loop ask left ≡ ok (some (out <> e))
  unfolding poll_loop
  poll_loop_exits zero k out e h a quiet = absurd (omega arith)
  poll_loop_exits (suc left) k out e h a quiet = elim (≤_cases k left h) [
    | inl p ↦ rw (subst (λ j. ask j ≡ ok (exited out e)) p a)
    | inr l ↦ elim (quiet left l (omega arith)) [
      | inl q ↦ rw q (poll_loop_exits left k out e l a (λ j a b. quiet j a (omega arith)))
      | inr q ↦ rw q (poll_loop_exits left k out e l a (λ j a b. quiet j a (omega arith)))
    ]
  ]
