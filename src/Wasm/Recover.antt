-- ===== src/Wasm/Recover.antt =====
-- Recovery in the browser's wallet (`wallet_prepare_recover_batch` and `wallet_apply_recover`,
-- crates/webylib-wasm/src/wallet.rs).
use webylib.Prelude.{
  ℕ, zero, suc, ◌+◌, Bool, true, false, ◌&&◌, ◌||◌, not, Option, none, some, List, [], ◌∷◌, ◌++◌,
  any, if◌then◌else◌,
}
use webylib.Prelude.Int.{ℤ, pos, ltb_ℤ}
use webylib.Prelude.Text.{Text, codes, beq, split}
use webylib.Prelude.Assoc.{Assoc}
use webylib.Fault.{Result, ok, err, ◌>>=◌}
use webylib.Wallet.{Env}
use webylib.Wasm.{derive_secret, sha256_hex, parse_amount_str}
use webylib.Wasm.State.{Output, WalletState, balance, secret_hash}
use webylib.Wasm.Replace.{new_output}

pub record RecoverBatch : Type 0 where
  pub webcash_strings : List Text
  pub secrets : List Text
  pub hashes : List Text
  pub depths : List ℕ

pub record HealthEntry : Type 0 where
  pub amount : Option Text
  pub spent : Option Bool

pub record RecoverResult : Type 0 where
  pub state : WalletState
  pub recovered : ℕ
  pub found_any : Bool
  pub balance : ℤ

abbrev empty_batch : RecoverBatch
empty_batch = record { webcash_strings = []; secrets = []; hashes = []; depths = [] }

-- `key.split(':').nth(2).unwrap_or("")`
abbrev pub hash_of_key : List Text → Text
hash_of_key (prefix ∷ kind ∷ hash ∷ more) = hash
hash_of_key _ = []

-- `lookup.get(hash)`, in the table that zips hashes, secrets and depths up to the end of the shortest:
-- of equal hashes the last one counts.
unfoldable pub secret_of : Text → List Text → List Text → List ℕ → Option Text
secret_of hash (h ∷ hashes) (secret ∷ secrets) (d ∷ depths) =
    elim (secret_of hash hashes secrets depths) [
      | none ↦ if beq h hash then some secret else none
      | some later ↦ some later
    ]
secret_of hash (h ∷ hashes) (secret ∷ secrets) [] = none
secret_of hash (h ∷ hashes) [] depths = none
secret_of hash [] secrets depths = none

-- `unwrap_or(0)`
abbrev pub or_zero_wats : Result ℤ → ℤ
or_zero_wats (ok wats) = wats
or_zero_wats (err e) = pos 0

abbrev pub is_some : Option Bool → Bool
is_some none = false
is_some (some b) = true

-- `entry.spent == Some(false)`
abbrev pub is_unspent : Option Bool → Bool
is_unspent (some false) = true
is_unspent _ = false

-- The loop's variables.
pub record Progress : Type 0 where
  pub outputs : List Output
  pub recovered : ℕ
  pub found_any : Bool

module _ (env : Env) where
  unfoldable pub prepare_batch : Text → ℕ → ℕ → ℕ → Result RecoverBatch
  prepare_batch master_secret_hex chain_code depth zero = ok empty_batch
  prepare_batch master_secret_hex chain_code depth (suc n) = do
    secret ← derive_secret env.crypto master_secret_hex chain_code depth
    rest ← prepare_batch master_secret_hex chain_code (depth + 1) n
    ok (record {
      webcash_strings = (codes "e1:public:" ++ sha256_hex env.crypto secret) ∷ rest.webcash_strings;
      secrets = secret ∷ rest.secrets;
      hashes = sha256_hex env.crypto secret ∷ rest.hashes;
      depths = depth ∷ rest.depths;
    })

  abbrev pub is_stored : Text → List Output → Bool
  is_stored pub_hash = any (λ o. beq o.public_hash pub_hash)

  -- `if amount > 0` and not stored already
  unfoldable pub add_recovered : Text → ℤ → Text → Progress → Progress
  add_recovered secret amount timestamp p =
      if ltb_ℤ (pos 0) amount && not (is_stored (secret_hash env secret) p.outputs)
      then record p {
        outputs = p.outputs ++ new_output env secret amount timestamp ∷ [];
        recovered = p.recovered + 1;
      }
      else p

  unfoldable pub add_entry : Text → Option Text → Text → Progress → Progress
  add_entry secret none timestamp p = p
  add_entry secret (some amount_str) timestamp p =
      add_recovered secret (or_zero_wats (parse_amount_str amount_str)) timestamp p

  unfoldable pub recover_entry : Option Text → HealthEntry → Text → Progress → Progress
  recover_entry none entry timestamp p = p
  recover_entry (some secret) entry timestamp p =
      let p' = record p { found_any = p.found_any || is_some entry.spent } in
      if is_unspent entry.spent then add_entry secret entry.amount timestamp p' else p'

  -- `for (key, entry) in &health.results`
  unfoldable pub recover_entries : RecoverBatch → Assoc HealthEntry → Text → Progress → Progress
  recover_entries batch [] timestamp p = p
  recover_entries batch ((key, entry) ∷ results) timestamp p =
      let found =
        secret_of (hash_of_key (split b':' key)) batch.hashes batch.secrets batch.depths in
      recover_entries batch results timestamp (recover_entry found entry timestamp p)

  -- The depths are left as they are.
  unfoldable pub wallet_apply_recover :
      WalletState → RecoverBatch → Assoc HealthEntry → Text → RecoverResult
  wallet_apply_recover s batch results timestamp =
      let p =
        recover_entries batch results timestamp
          (record { outputs = s.outputs; recovered = 0; found_any = false }) in
      let s' = record s { outputs = p.outputs } in
      record { state = s'; recovered = p.recovered; found_any = p.found_any; balance = balance s' }
