-- ===== src/Wallet/Pay.antt =====
-- `Wallet::pay` (src/wallet/operations.rs).
pub mod Steps
pub mod Balance
use webylib.Prelude.{
  ℕ, ◌+◌, Bool, true, false, not, Option, none, some, List, [], ◌∷◌, ◌++◌, map, if◌then◌else◌,
}
use webylib.Prelude.Int.{ℤ, pos, ltb_ℤ}
use webylib.Prelude.Text.{Text, codes, beq}
use webylib.Fault.{Error, Result, ok, err}
use webylib.Amount.{Amount, zero_amount, sub}
use webylib.Crypto.{Bytes, ChainCode, receive, pay, change, mining, derive_secret, as_str}
use webylib.Webcash.{SecretWebcash, secret_to_string}
use webylib.Store.{Ops, Store}
use webylib.Store.Monad.{Action, pure, raise, lift, continue, ◌>>=◌, ◌>>◌}
use webylib.Server.{Server, ReplaceRequest, ReplaceResponse}
use webylib.Wallet.{World, Env, on_disk, on_server, hash_of, hd_wallet, read_chain_depth}
use webylib.Wallet.Inputs.{select_inputs, total_amount, spend_inputs}

abbrev pub is_success : ReplaceResponse → Bool
is_success r = beq r.status (codes "success")

-- The change: an output of its own where any is left over.
abbrev pub change_of : Env → Bytes → ℕ → Amount → Option SecretWebcash
change_of env master depth amount =
    if ltb_ℤ (pos 0) amount.wats
    then some (record { secret = derive_secret env.crypto master change depth; amount = amount })
    else none

abbrev pub optional : Option SecretWebcash → List SecretWebcash
optional none = []
optional (some wc) = wc ∷ []

abbrev pub replace_request : List SecretWebcash → List SecretWebcash → ReplaceRequest
replace_request inputs outputs = record {
  webcashes = map secret_to_string inputs;
  new_webcashes = map secret_to_string outputs;
  terms = true;
}

module _ {S : Type 0} (env : Env) where
  unfoldable pub store_change : Ops S → Option SecretWebcash → Action S Unit
  store_change ops none = pure tt
  store_change ops (some wc) =
      Ops.insert_output ops (hash_of env wc.secret) wc.secret wc.amount.wats

  unfoldable pub count_change : Ops S → Option SecretWebcash → ℕ → Action S Unit
  count_change ops none depth = pure tt
  count_change ops (some wc) depth = Ops.set_depth ops (as_str change) (depth + 1)

  -- The body of the atomic step: inputs marked, change stored, depths counted on.
  unfoldable pub settle : List SecretWebcash → Option SecretWebcash → ℕ → ℕ → Ops S → Action S Unit
  settle inputs change_webcash pay_depth change_depth ops = do
    spend_inputs env ops inputs
    store_change ops change_webcash
    Ops.set_depth ops (as_str pay) (pay_depth + 1)
    count_change ops change_webcash change_depth

abbrev pub is_nil : List SecretWebcash → Bool
is_nil [] = true
is_nil (wc ∷ wcs) = false

module _ {S W : Type 0} (st : Store S) (sv : Server W) (env : Env) where
  -- The request and, where the server accepts it, the atomic step.
  unfoldable pub settle_payment :
      List SecretWebcash → SecretWebcash → Option SecretWebcash → ℕ → ℕ → Action (World S W) Text
  settle_payment inputs payment change_webcash pay_depth change_depth = do
    response ←
        on_server (Server.replace sv (replace_request inputs (payment ∷ optional change_webcash)))
    if not (is_success response) then raise (Error.server "Payment transaction failed") else do
      on_disk (st.atomic (settle env inputs change_webcash pay_depth change_depth))
      pure (codes "Payment completed! Send this webcash to recipient: " ++ secret_to_string payment)

  unfoldable pub pay_with : Bytes → Amount → List SecretWebcash → Action (World S W) Text
  pay_with master amount inputs =
      if is_nil inputs then raise (Error.wallet "Insufficient funds") else do
        pay_depth ← read_chain_depth st env pay
        change_depth ← read_chain_depth st env change
        settle_payment inputs
            (record { secret = derive_secret env.crypto master pay pay_depth; amount = amount })
            (change_of env master change_depth (sub (total_amount inputs) amount)) pay_depth
            change_depth

  unfoldable pub pay_amount : Amount → Action (World S W) Text
  pay_amount amount = do
    master ← hd_wallet st env
    inputs ← select_inputs st amount
    pay_with master amount inputs
