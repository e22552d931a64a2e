-- ===== src/JumpServer/Reported.antt =====
-- roles/jumpserver/_archive/reconcile.py: what a run that reports no change has done.
use ansible_platform.Prelude.{
  ℕ, ◌+◌, ◌=ℕ◌, String, ◌≡◌, ◌⊎◌, ◌≢◌, inl, inr, refl, Bool-cases, true, false, In, length, arith,
}
use ansible_platform.Prelude.Text.{occurs}
use ansible_platform.Prelude.Substring.{occurs-join}
use ansible_platform.Prelude.Exec.{ok, >>=-eq-ok, Keeps, Keeps-bind}
use ansible_platform.Prelude.Owes.{Owes-bind}
use ansible_platform.JumpServer.{org_root, Server, Config, Run, Script}
use ansible_platform.JumpServer.Steps.{assets_line, changed, verdict, steps, main}
use ansible_platform.JumpServer.Counted.{counting, total, Counts, Balance, ensure_assets-Owes}
use ansible_platform.JumpServer.Uncounted.{
  start, Even, ask-Keeps, append-Keeps, globals-Keeps, builtin_step-Keeps, admin_step-Keeps,
  group_step-Keeps, grant_step-Keeps, counts_step-Keeps, storage_step-Keeps, settings_step-Keeps,
  email_step-Keeps,
}

-- A line of the summary that says `created=True` or `updated=True`, and a counter that is not 0, are reported.
pub changed_reports :
    (j : Server) (s : Run (Server.World j))
    → ((line : String) × In line s.summary
        × ((occurs "created=True" line ≡ true) ⊎ (occurs "updated=True" line ≡ true)))
      ⊎ (total s ≢ 0)
    → changed j s ≡ true
unfolding changed
changed_reports j s (inl (line, m, inl h)) =
    ground (arith, occurs-join "created=True" "\n" s.summary line m h)
changed_reports j s (inl (line, m, inr h)) =
    ground (arith, occurs-join "updated=True" "\n" s.summary line m h)
changed_reports j s (inr h) = ground (arith, h)

module _ (j : Server) where
  Owes-Keeps : {A : Type 0} (m : Script (counting j) A) → Keeps (Even j) m → Balance j 0 0 m
  Owes-Keeps m keeps = record { after = λ s a h e. grind (arith, keeps.after s (grind (arith, h))) }

  assets_line-Keeps : (n : ℕ) → Keeps (Even j) (assets_line (counting j) n)
  unfolding assets_line
  assets_line-Keeps n = Keeps-bind _ _ (globals-Keeps j) λ s. append-Keeps j _

  steps-Owes : (cfg : Config) → Balance j 0 0 (steps (counting j) cfg)
  unfolding steps
  steps-Owes cfg = Owes-bind 0 0 0 _ _ (Owes-Keeps _ (builtin_step-Keeps j cfg.builtin_admin)) λ _.
      Owes-bind 0 0 0 _ _ (Owes-Keeps _ (admin_step-Keeps j cfg.bastion_admin)) λ u.
        Owes-bind 0 0 0 _ _ (Owes-Keeps _ (group_step-Keeps j cfg.bastion_group u)) λ grp.
          Owes-bind 0 0 0 _ _ (Owes-Keeps _ (ask-Keeps j org_root (λ a. refl))) λ root.
            Owes-bind 0 0 0 _ _ (ensure_assets-Owes j root cfg.asset_defaults cfg.assets) λ _.
              Owes-Keeps _ (
                Keeps-bind _ _ (assets_line-Keeps (length cfg.assets)) λ _.
                  Keeps-bind _ _ (grant_step-Keeps j cfg.permission_name grp root) λ _.
                    Keeps-bind _ _ (counts_step-Keeps j) λ _.
                      Keeps-bind _ _ (storage_step-Keeps j cfg.s3 cfg.s3_storage_name) λ _.
                        Keeps-bind _ _ (settings_step-Keeps j cfg.settings)
                          λ _. email_step-Keeps j cfg.email)

  verdict-none :
      (s : Counts j)
      → s.world.1 ≡ total s + 0
      → (verdict (counting j) s).0 ≡ ok false
      → (verdict (counting j) s).1.world.1 ≡ 0
  unfolding verdict
  verdict-none s h e = elim (Bool-cases (total s =ℕ 0)) [
    | inl z ↦ ground (arith, z, h)
    | inr z ↦
        absurd (cc (e, changed_reports (counting j) s (inr (λ k. absurd (ground (arith, z, k))))))
  ]

  -- If a run ends well and does not print RECONCILE_CHANGED, then JumpServer created no host,
  -- changed the port of no protocol that existed, stored no key and deleted no account in it. A
  -- protocol that is created with its port is not counted.
  pub unreported_run :
      (cfg : Config) (w : Server.World j)
      → (main (counting j) cfg (start (w, 0))).0 ≡ ok false
      → (main (counting j) cfg (start (w, 0))).1.world.1 ≡ 0
  unfolding main
  unreported_run cfg w e =
      let (a, p, q) = >>=-eq-ok (steps (counting j) cfg) _ (start (w, 0)) e in
      rw q (verdict-none _ ((steps-Owes cfg).after (start (w, 0)) a refl p) (rw q at e))
