-- ===== src/Wallet/Merge.antt =====
-- `Wallet::merge` (src/wallet/operations.rs).
pub mod Balance
use webylib.Prelude.{
  ℕ, ◌+◌, Bool, true, false, not, List, [], ◌∷◌, ◌++◌, map, take, length, leb, ltb, if◌then◌else◌,
}
use webylib.Prelude.Text.{Text, codes}
use webylib.Prelude.Decimal.{format_ℕ}
use webylib.Fault.{Error, Result, ok, err}
use webylib.Amount.{Amount}
use webylib.Amount.Print.{display}
use webylib.Crypto.{Bytes, change, derive_secret, as_str}
use webylib.Webcash.{SecretWebcash}
use webylib.Store.{Ops, Store}
use webylib.Store.Monad.{Action, pure, raise, lift, continue, ◌>>=◌, ◌>>◌}
use webylib.Server.{Server}
use webylib.Wallet.{
  World, Env, on_disk, on_server, hash_of, hd_wallet, read_chain_depth, list_webcash,
}
use webylib.Wallet.Inputs.{total_amount, spend_inputs}
use webylib.Wallet.Pay.{is_success, replace_request}

-- The outputs to merge: the first `max_outputs` where there are more.
abbrev pub to_merge : ℕ → List SecretWebcash → List SecretWebcash
to_merge max_outputs all_webcash =
    if ltb max_outputs (length all_webcash) then take max_outputs all_webcash else all_webcash

abbrev pub completed : ℕ → Amount → Text
completed count total =
    codes "Consolidation completed: "
    ++ format_ℕ count
    ++ codes " outputs merged, total "
    ++ display total
    ++ codes " preserved"

module _ {S : Type 0} (env : Env) where
  -- The body of the atomic step.
  unfoldable pub consolidate : List SecretWebcash → SecretWebcash → ℕ → Ops S → Action S Unit
  consolidate inputs wc change_depth ops = do
    spend_inputs env ops inputs
    Ops.insert_output ops (hash_of env wc.secret) wc.secret wc.amount.wats
    Ops.set_depth ops (as_str change) (change_depth + 1)

module _ {S W : Type 0} (st : Store S) (sv : Server W) (env : Env) where
  unfoldable pub merge_into : List SecretWebcash → SecretWebcash → ℕ → Action (World S W) Text
  merge_into inputs wc change_depth = do
    response ← on_server (Server.replace sv (replace_request inputs (wc ∷ [])))
    if not (is_success response)
        then raise (Error.server "Consolidation transaction failed")
        else do
          on_disk (st.atomic (consolidate env inputs wc change_depth))
          pure (completed (length inputs) wc.amount)

  unfoldable pub merge_inputs : List SecretWebcash → Action (World S W) Text
  merge_inputs inputs =
      if leb (length inputs) 1 then pure (codes "Insufficient outputs to merge") else do
        master ← hd_wallet st env
        change_depth ← read_chain_depth st env change
        merge_into inputs
            (record {
              secret = derive_secret env.crypto master change change_depth;
              amount = total_amount inputs;
            })
            change_depth

  unfoldable pub merge : ℕ → Action (World S W) Text
  merge max_outputs = do
    all_webcash ← list_webcash st env
    if leb (length all_webcash) 1
        then pure (codes "No consolidation needed")
        else do merge_inputs (to_merge max_outputs all_webcash)
