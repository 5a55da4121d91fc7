-- ===== src/Wallet/Insert.antt =====
-- `Wallet::insert_with_validation` (src/wallet/operations.rs).
pub mod Balance
use webylib.Prelude.{
  ℕ, ◌+◌, Bool, true, false, not, Option, none, some, List, [], ◌∷◌, if◌then◌else◌, String,
}
use webylib.Prelude.Int.{ℤ, eqb_ℤ}
use webylib.Prelude.Text.{Text, codes, beq}
use webylib.Prelude.Assoc.{lookup}
use webylib.Fault.{Error, Result, ok, err, mentions}
use webylib.Amount.{Amount}
use webylib.Amount.Float.{Float}
use webylib.Amount.Parse.{from_str}
use webylib.Crypto.{Bytes, receive, derive_secret, as_str}
use webylib.Webcash.{SecretWebcash, PublicWebcash, to_public, public_to_string}
use webylib.Store.{Ops, Store}
use webylib.Store.Monad.{Action, pure, raise, lift, continue, ◌>>=◌, ◌>>◌}
use webylib.Server.{Server, ReplaceResponse, HealthResult, HealthResponse}
use webylib.Wallet.{
  World, Env, on_disk, on_server, hash_of, hd_wallet, read_chain_depth, store_directly,
}
use webylib.Wallet.Pay.{is_success, replace_request}

-- The amount that the server reports, against the one that was handed in.
abbrev pub check_parsed : Amount → Result Amount → Result (Unit {0})
check_parsed amount (err e) = err (Error.wallet "Invalid amount from server")
check_parsed amount (ok expected) =
    if not (eqb_ℤ amount.wats expected.wats) then err (Error.wallet "Amount mismatch") else ok tt

abbrev pub is_spent : Option Bool → Bool
is_spent (some true) = true
is_spent _ = false

module _ (f : Float) where
  abbrev pub check_amount : Amount → Option Text → Result (Unit {0})
  check_amount amount none = ok tt
  check_amount amount (some server_amount) = check_parsed amount (from_str f server_amount)

  unfoldable pub check_entry : Amount → Option HealthResult → Result (Unit {0})
  check_entry amount none = err (Error.server "Input webcash not found in server response")
  check_entry amount (some result) =
      if is_spent result.spent
      then err (Error.wallet "Input webcash has been spent")
      else check_amount amount result.amount

-- The fallback's check: an entry that is missing passes.
abbrev pub refuse_spent : Option HealthResult → Result (Unit {0})
refuse_spent none = ok tt
refuse_spent (some hr) =
    if is_spent hr.spent then err (Error.wallet "Input webcash has been spent") else ok tt

abbrev pub health_ok : HealthResponse → Bool
health_ok r = beq r.status (codes "success")

module _ {S W : Type 0} (st : Store S) (sv : Server W) (env : Env) (f : Float) where
  unfoldable pub validate_input_webcash : SecretWebcash → Action (World S W) Unit
  validate_input_webcash webcash = do
    health ← on_server (Server.health_check sv (to_public env.crypto webcash ∷ []))
    if not (health_ok health) then raise (Error.server "Server validation failed") else do
      lift (
          check_entry f webcash.amount
            (lookup (public_to_string env.crypto (to_public env.crypto webcash)) health.results))

  -- What follows a replacement that the server accepts.
  unfoldable pub store_received : SecretWebcash → ℕ → Action (World S W) Unit
  store_received new_webcash depth = do
    on_disk (
        Ops.insert_output st.ops (hash_of env new_webcash.secret) new_webcash.secret
          new_webcash.amount.wats)
    on_disk (Ops.set_depth st.ops (as_str receive) (depth + 1))

  -- The same-lineage fallback: the webcash is stored as it is.
  unfoldable pub store_same_lineage : SecretWebcash → Action (World S W) Unit
  store_same_lineage webcash = do
    health ← on_server (Server.health_check sv (to_public env.crypto webcash ∷ []))
    if not (health_ok health)
        then raise (Error.server "Health check failed for same-lineage fallback")
        else do
          lift (
              refuse_spent (
                lookup (public_to_string env.crypto (to_public env.crypto webcash)) health.results))
          store_directly st env webcash

  unfoldable pub received :
      SecretWebcash → SecretWebcash → ℕ → Result ReplaceResponse → Action (World S W) Unit
  received webcash new_webcash depth (ok resp) =
      if is_success resp
      then store_received new_webcash depth
      else raise (Error.server "Server replacement failed")
  received webcash new_webcash depth (err (Error.server message)) =
      if mentions "can only be replaced by itself" message
      then store_same_lineage webcash
      else raise (Error.server message)
  received webcash new_webcash depth (err e) = raise e

  -- The server's answer as a value: `match self.server_replace(…).await`
  abbrev pub attempt : {A : Type 0} → Action (World S W) A → Action (World S W) (Result A)
  attempt m w = let (r, v) = m w in (ok r, v)

  abbrev pub validate_if : Bool → SecretWebcash → Action (World S W) Unit
  validate_if true webcash = validate_input_webcash webcash
  validate_if false webcash = pure tt

  unfoldable pub insert_with_validation : SecretWebcash → Bool → Action (World S W) Unit
  insert_with_validation webcash validate_with_server = do
    master ← hd_wallet st env
    depth ← read_chain_depth st env receive
    validate_if validate_with_server webcash
    answer ← attempt (
        on_server (
          Server.replace sv (
            replace_request (webcash ∷ []) (
              record {
                secret = derive_secret env.crypto master receive depth;
                amount = webcash.amount;
              }
              ∷ []))))
    received webcash
        (record { secret = derive_secret env.crypto master receive depth; amount = webcash.amount })
        depth answer

  unfoldable pub insert : SecretWebcash → Action (World S W) Unit
  insert webcash = insert_with_validation webcash false
