-- ===== src/Wallet/Check.antt =====
-- `Wallet::check` (src/wallet/operations.rs).
use webylib.Prelude.{
  ℕ, ◌+◌, ◌≡◌, ◌∙◌, Bool, true, false, not, List, [], ◌∷◌, length, if◌then◌else◌, arith, Bool-cases,
  inl, inr,
}
use webylib.Prelude.Assoc.{Assoc}
use webylib.Fault.{Error}
use webylib.Webcash.{PublicWebcash}
use webylib.Store.{Store}
use webylib.Store.Monad.{Action, pure, raise, ◌>>=◌}
use webylib.Server.{Server, HealthResult}
use webylib.Wallet.{World, Env, on_server, list_public_webcash}
use webylib.Wallet.Insert.{is_spent, health_ok}

pub record CheckResult : Type 0 where
  pub valid_count : ℕ
  pub spent_count : ℕ
  pub unknown_count : ℕ

abbrev pub nothing_to_check : CheckResult
nothing_to_check = record { valid_count = 0; spent_count = 0; unknown_count = 0 }

-- The loop over the results: everything that is not reported spent counts as valid.
unfoldable pub count_results : Assoc HealthResult → ℕ → ℕ → CheckResult
count_results [] valid spent = record {
  valid_count = valid;
  spent_count = spent;
  unknown_count = 0;
}
count_results ((_, result) ∷ results) valid spent =
    if is_spent result.spent
    then count_results results valid (spent + 1)
    else count_results results (valid + 1) spent

abbrev pub is_nil : List PublicWebcash → Bool
is_nil [] = true
is_nil (wc ∷ wcs) = false

module _ {S W : Type 0} (st : Store S) (sv : Server W) (env : Env) where
  unfoldable pub check_with : List PublicWebcash → Action (World S W) CheckResult
  check_with publics = if is_nil publics then pure nothing_to_check else do
    health ← on_server (Server.health_check sv publics)
    if not (health_ok health)
        then raise (Error.server "Server returned non-success status")
        else do pure (count_results health.results 0 0)

  unfoldable pub check : Action (World S W) CheckResult
  check = do publics ← list_public_webcash st env; check_with publics

-- The counts of a check add up to the number of results that the server returned.
count_results-total :
    (results : Assoc HealthResult) (valid spent : ℕ)
    → (count_results results valid spent).valid_count
        + (count_results results valid spent).spent_count
      ≡ valid + spent + length results
unfolding count_results
count_results-total [] valid spent = omega arith
count_results-total ((k, r) ∷ results) valid spent = elim (Bool-cases (is_spent r.spent)) [
  | inl gone ↦ rw gone (count_results-total results valid (spent + 1) ∙ omega arith)
  | inr there ↦ rw there (count_results-total results (valid + 1) spent ∙ omega arith)
]
