-- ===== src/Tests/Stores.antt =====
-- The theorems about the stores and the choice of inputs (src/wallet/store.rs,
-- src/wallet/operations.rs) at concrete inputs.
use webylib.Prelude.{ℕ, ◌≡◌, refl, ◌⊎◌, true, false, none, some, List, [], ◌∷◌, map, take, arith}
use webylib.Prelude.Int.{pos, ◌≤ℤ◌, int_laws, saturate}
use webylib.Prelude.Text.{Text, codes}
use webylib.Prelude.{String}
use webylib.Fault.{Result, Error, ok, err}
use webylib.Amount.{from_wats, zero_amount, add_assign}
use webylib.Store.{Ops}
use webylib.Store.Monad.{Action}
use webylib.Store.State.{MemState, new_mem_state, fresh}
use webylib.Store.Json.{json_store, json_atomic, batch_ops}
use webylib.Store.Sqlite.{sqlite_store}
use webylib.Store.Laws.{StoreLaws}
use webylib.Store.Laws.Backends.{json_store-laws, sqlite_store-laws}
use webylib.Store.Laws.Rows.{Row, sum_rows}
use webylib.Store.Atomic.{json_atomic-failed}
use webylib.Server.{HealthResult}
use webylib.Wallet.{webcash_of_row}
use webylib.Wallet.Inputs.{select_rows, enough}
use webylib.Wallet.Inputs.Selection.{select_rows-covers}
use webylib.Wallet.Check.{count_results}

abbrev working : MemState → Result (Unit {0})
working s = ok tt

abbrev carries_out : String → MemState → Result (Unit {0})
carries_out sql s = ok tt

abbrev full_disk : MemState → Result (Unit {0})
full_disk s = err (Error.io "no space")

abbrev one_output : MemState
one_output = record new_mem_state { outputs = fresh (1 ∷ []) (codes "a") (pos 5) ∷ [] }

abbrev marking : Ops MemState → Action MemState Unit
marking ops = Ops.mark_spent ops (1 ∷ [])

json_store-laws_example : StoreLaws (json_store working)
json_store-laws_example = json_store-laws working

sqlite_store-laws_example : StoreLaws (sqlite_store carries_out (codes "2025"))
sqlite_store-laws_example = sqlite_store-laws carries_out (codes "2025")

abbrev marked : MemState
marked = (json_atomic full_disk marking one_output).1

not_written : json_atomic full_disk marking one_output ≡ (err (Error.io "no space"), marked)
unfolding json_atomic
not_written = refl

json_atomic-failed_example :
    (marked ≡ one_output)
    ⊎ ((marking batch_ops one_output ≡ (ok tt, marked))
        × (full_disk marked ≡ err (Error.io "no space")))
json_atomic-failed_example = json_atomic-failed full_disk marking one_output not_written

abbrev rows : List Row
rows = (codes "a", pos 5) ∷ (codes "b", pos 3) ∷ (codes "c", pos 2) ∷ []

covering :
    enough (from_wats (pos 6)) (select_rows (from_wats (pos 6)) rows [] zero_amount)
    ≡ ok (map webcash_of_row (take 2 rows))
unfolding select_rows add_assign saturate
covering = refl

select_rows-covers_example :
    (n : ℕ) × (map webcash_of_row (take 2 rows) ≡ map webcash_of_row (take n rows))
    × (pos 6 ≤ℤ sum_rows (take n rows))
select_rows-covers_example =
    select_rows-covers (from_wats (pos 6)) rows (omega arith, (omega arith, (omega arith, tt)))
      (omega int_laws) covering

abbrev results : List (Text × HealthResult)
results =
    (codes "x", record { spent = some true; amount = none })
    ∷ (codes "y", record { spent = some false; amount = some (codes "1") })
    ∷ (codes "z", record { spent = none; amount = none })
    ∷ []

count_results_runs :
    count_results results 0 0 ≡ record { valid_count = 2; spent_count = 1; unknown_count = 0 }
unfolding count_results
count_results_runs = refl
