-- ===== src/Wasm/Mining.antt =====
-- Mining in the browser's wallet (`wallet_prepare_mine` and `wallet_store_mined`,
-- crates/webylib-wasm/src/wallet.rs).
use webylib.Prelude.{ℕ, ◌+◌, none, some, [], ◌∷◌, ◌++◌}
use webylib.Prelude.Int.{ℤ}
use webylib.Prelude.Text.{Text, codes}
use webylib.Prelude.Assoc.{insert}
use webylib.Fault.{Result, ok, ◌>>=◌}
use webylib.Wallet.{Env}
use webylib.Wasm.{format_amount_i64, parse_amount_str}
use webylib.Wasm.State.{WalletState, WalletResult, get_depth, secret_hash, derive}
use webylib.Wasm.Replace.{new_output}

pub record MineParams : Type 0 where
  pub secret : Text
  pub webcash_str : Text
  pub public_hash : Text
  pub amount_wats : ℤ
  pub difficulty : ℕ
  pub mining_depth : ℕ

module _ (env : Env) where
  unfoldable pub wallet_prepare_mine : WalletState → ℕ → Text → Result MineParams
  wallet_prepare_mine s difficulty mining_amount = do
    secret ← derive env s 3 (get_depth (codes "MINING") s)
    amount_wats ← parse_amount_str mining_amount
    ok (record {
      secret = secret;
      webcash_str = b'e' ∷ (mining_amount ++ (codes ":secret:" ++ secret));
      public_hash = secret_hash env secret;
      amount_wats = amount_wats;
      difficulty = difficulty;
      mining_depth = get_depth (codes "MINING") s;
    })

  abbrev pub mined : WalletState → Text → ℤ → Text → WalletState
  mined s secret amount_wats timestamp = record s {
    outputs = s.outputs ++ new_output env secret amount_wats timestamp ∷ [];
    depths = insert (codes "MINING") (get_depth (codes "MINING") s + 1) s.depths;
  }

  unfoldable pub wallet_store_mined : WalletState → Text → ℤ → Text → WalletResult
  wallet_store_mined s secret amount_wats timestamp = record {
    state = mined s secret amount_wats timestamp;
    effect = none;
    message = some (codes "Mined " ++ format_amount_i64 amount_wats);
    error = none;
  }
