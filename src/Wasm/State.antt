-- ===== src/Wasm/State.antt =====
-- The state of the browser's wallet, the effects that it hands to JavaScript, and the operations
-- that only read it (crates/webylib-wasm/src/wallet.rs). The JSON texts of states and effects are not
-- modelled: an operation takes and returns the records that `serde` reads and writes.
use webylib.Prelude.{
  ℕ, Bool, true, false, not, ◌||◌, Option, none, some, List, [], ◌∷◌, keep, length, ◌==◌,
  if◌then◌else◌,
}
use webylib.Prelude.Int.{ℤ, pos, ◌+ℤ◌, wrap_i64}
use webylib.Prelude.Text.{Text, codes, len}
use webylib.Prelude.Assoc.{Assoc, lookup}
use webylib.Fault.{Result, ok, err, ◌>>=◌}
use webylib.Crypto.{Crypto, Bytes}
use webylib.Wallet.{Env}
use webylib.Store.State.{default_depths, or_zero}
use webylib.Wasm.{js_error, derive_secret, sha256_hex, format_amount_i64}

pub record Output : Type 0 where
  pub secret : Text
  pub public_hash : Text
  pub amount : ℤ
  pub created_at : Text
  pub spent : Bool

pub record WalletState : Type 0 where
  pub master_secret : Text
  pub outputs : List Output
  pub spent_hashes : List Text
  pub depths : Assoc ℕ

pub record ReplaceEffect : Type 0 where
  pub webcashes : List Text
  pub new_webcashes : List Text
  pub pending_output : Option Output
  pub depth_updates : Assoc ℕ
  pub mark_spent : List Text

pub data Effect : Type 0 where
  replace : ReplaceEffect → Effect
  health_check : List Text → Effect
  mining_report : Text → Output → Assoc ℕ → Effect

pub record WalletResult : Type 0 where
  pub state : WalletState
  pub effect : Option Effect
  pub message : Option Text
  pub error : Option Text

-- `outputs.iter().filter(|o| !o.spent)`
unfoldable pub unspent : List Output → List Output
unspent = keep (λ o. not o.spent)

unfoldable pub sum_amounts : List Output → ℤ
sum_amounts [] = pos 0
sum_amounts (o ∷ os) = o.amount +ℤ sum_amounts os

-- `WalletState::balance`; where the sum overflows, a release build wraps it.
abbrev pub balance : WalletState → ℤ
balance s = wrap_i64 (sum_amounts (unspent s.outputs))

abbrev pub get_depth : Text → WalletState → ℕ
get_depth chain s = or_zero (lookup chain s.depths)

module _ (env : Env) where
  abbrev pub secret_hash : Text → Text
  secret_hash secret = sha256_hex env.crypto secret

  -- `WalletState::derive`
  unfoldable pub derive : WalletState → ℕ → ℕ → Result Text
  derive s chain_code depth = derive_secret env.crypto s.master_secret chain_code depth

  abbrev pub is_hex : Text → Bool
  is_hex hex = elim (Crypto.hex_decode env.crypto hex) [ none ↦ false | some bytes ↦ true ]

  -- `generate_master_secret`
  abbrev pub generate_master_secret : Result Bytes → Result Text
  generate_master_secret (err e) = err (js_error "RNG failed")
  generate_master_secret (ok bytes) = ok (Crypto.hex_encode env.crypto bytes)

  unfoldable pub choose_master : Option Text → Result Text
  choose_master none = generate_master_secret env.generated
  choose_master (some hex) =
      if not (len hex == 64) || not (is_hex hex)
      then err (js_error "master secret must be 64 hex chars")
      else ok hex

  abbrev pub new_state : Text → WalletState
  new_state master = record {
    master_secret = master;
    outputs = [];
    spent_hashes = [];
    depths = default_depths;
  }

  unfoldable pub wallet_create : Option Text → Result WalletResult
  wallet_create master_secret_hex = do
    master ← choose_master master_secret_hex
    ok (record {
      state = new_state master;
      effect = none;
      message = some (codes "Wallet created");
      error = none;
    })

pub record Info : Type 0 where
  pub balance : Text
  pub balance_wats : ℤ
  pub unspent_count : ℕ
  pub spent_count : ℕ
  pub total_outputs : ℕ
  pub master_secret : Text

unfoldable pub wallet_info : WalletState → Info
wallet_info s = record {
  balance = format_amount_i64 (balance s);
  balance_wats = balance s;
  unspent_count = length (unspent s.outputs);
  spent_count = length s.spent_hashes;
  total_outputs = length s.outputs;
  master_secret = s.master_secret;
}
