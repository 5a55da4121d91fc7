-- ===== src/Wallet/Inputs.antt =====
-- The choice of inputs for a payment, and marking inputs as spent (src/wallet/operations.rs).
pub mod Selection
use webylib.Prelude.{ℕ, Bool, Option, none, some, List, [], ◌∷◌, ◌++◌, if◌then◌else◌, foldl}
use webylib.Prelude.Int.{ℤ, leb_ℤ, ltb_ℤ}
use webylib.Prelude.Text.{Text}
use webylib.Fault.{Error, Result, ok, err}
use webylib.Amount.{Amount, from_wats, zero_amount, add, add_assign}
use webylib.Webcash.{SecretWebcash}
use webylib.Store.{Ops, Store}
use webylib.Store.Monad.{Action, pure, raise, lift, continue, ◌>>=◌, ◌>>◌}
use webylib.Wallet.{World, Env, on_disk, hash_of, webcash_of_row}

-- `a >= b` on amounts
abbrev pub at_least : Amount → Amount → Bool
at_least a b = leb_ℤ b.wats a.wats

-- The loop of `select_inputs`: outputs are taken until they reach the amount.
unfoldable pub select_rows :
    Amount → List (Text × ℤ) → List SecretWebcash → Amount → List SecretWebcash × Amount
select_rows amount [] selected total = (selected, total)
select_rows amount (row ∷ rows) selected total =
    let wc = webcash_of_row row in
    let selected' = selected ++ wc ∷ [] in
    let total' = add_assign total wc.amount in
    if at_least total' amount then (selected', total') else select_rows amount rows selected' total'

abbrev pub enough : Amount → List SecretWebcash × Amount → Result (List SecretWebcash)
enough amount (selected, total) =
    if ltb_ℤ total.wats amount.wats then err (Error.wallet "Insufficient funds") else ok selected

-- `inputs.iter().fold(Amount::ZERO, |acc, wc| acc + wc.amount)`
unfoldable pub total_amount : List SecretWebcash → Amount
total_amount = foldl (λ acc wc. add acc wc.amount) zero_amount

module _ {S W : Type 0} (st : Store S) where
  unfoldable pub select_inputs : Amount → Action (World S W) (List SecretWebcash)
  select_inputs amount = do
    rows ← on_disk (Ops.get_unspent st.ops)
    lift (enough amount (select_rows amount rows [] zero_amount))

-- The loop that `pay`, `merge` and `mark_inputs_spent` share: the output is marked, and its hash
-- is recorded as spent.
module _ {S : Type 0} (env : Env) (ops : Ops S) where
  unfoldable pub spend_inputs : List SecretWebcash → Action S Unit
  spend_inputs [] = pure tt
  spend_inputs (input ∷ inputs) = do
    Ops.mark_spent ops (hash_of env input.secret)
    Ops.insert_spent_hash ops (hash_of env input.secret)
    spend_inputs inputs

module _ {S W : Type 0} (st : Store S) (env : Env) where
  unfoldable pub mark_inputs_spent : List SecretWebcash → Action (World S W) Unit
  mark_inputs_spent inputs = on_disk (spend_inputs env st.ops inputs)

  unfoldable pub update_unspent_amount : SecretWebcash → Amount → Action (World S W) Unit
  update_unspent_amount wc correct_amount =
      on_disk (Ops.update_output_amount st.ops (hash_of env wc.secret) correct_amount.wats)
