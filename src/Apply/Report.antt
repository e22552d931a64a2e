-- ===== src/Apply/Report.antt =====
-- scripts/fw_apply_direct.py: the rows of the report, and the exit status.
use ansible_platform.Prelude.{
  String, ◌≡◌, refl, Bool, true, false, List, [], ◌∷◌, ◌++◌, length, any, keep, ◌↔◌, append_assoc,
  append-nil, arith,
}
use ansible_platform.Apply.Api.{Firewall}
use ansible_platform.Apply.Section.{Row, State, call, append}
use ansible_platform.Apply.Services.{post}
use ansible_platform.Apply.Catalog.{Catalog}
use ansible_platform.Apply.Run.{is_error, exit_status, summarize, apply_catalog}
use ansible_platform.Apply.Scope.{Permitted, apply_catalog-Keeps}

-- The report is `rows` with more rows behind them.
abbrev pub Extends : List Row → List Row → Type 0
Extends rows results = (more : List Row) × (results ≡ rows ++ more)

module _ (fw : Firewall) (rows : List Row) where
  rows-Permitted :
      (check : Bool) (only : List String) → Permitted fw (λ s. Extends rows s.results) check only
  unfolding call append post
  rows-Permitted check only = record {
    rows = λ row. record { after = λ s (more, e). (more ++ row ∷ [], rw (e, append_assoc) refl) };
    ensures = λ mgr _ state payload. record { after = λ s h. h };
    posts = λ path _ _ body. record { after = λ s h. h };
  }

-- Rows that stand in the report stay there, in place, to the end of the run.
pub apply_catalog-Extends :
    (fw : Firewall) (c : Catalog) (only : List String) (check : Bool) (s : State fw)
    → Extends s.results (apply_catalog fw c only check s).1.results
apply_catalog-Extends fw c only check s =
    (apply_catalog-Keeps fw (λ t. Extends s.results t.results) check c only
        (rows-Permitted fw s.results check only)).after
      s ([], rw append-nil)

any-keep_nil :
    (p : Row → Bool) (rows : List Row) → (any p rows ≡ false) ↔ (length (keep p rows) ≡ 0)
any-keep_nil p [] = (λ h. refl, λ h. refl)
any-keep_nil p (r ∷ rows) = ground (arith, any-keep_nil p rows)

-- The exit status is 0 exactly when the summary counts no error.
pub exit_status-summarize : (rows : List Row) → (exit_status rows ≡ 0) ↔ ((summarize rows).1 ≡ 0)
unfolding exit_status summarize
exit_status-summarize rows = ground (arith, any-keep_nil is_error rows)

abbrev pub HasError : List Row → Type 0
HasError rows = any is_error rows ≡ true
