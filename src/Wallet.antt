-- ===== src/Wallet.antt =====
-- The wallet: its state, its master secret, and what it reads of its store
-- (src/wallet/operations.rs). The operations that change webcash are in the children.
pub mod Effects
pub mod Inputs
pub mod Sound
pub mod Pay
pub mod Merge
pub mod Insert
pub mod Check
pub mod Snapshot
pub mod Recover
pub mod Open
use webylib.Prelude.{
  ℕ, ◌+◌, Bool, true, false, not, Option, none, some, List, [], ◌∷◌, map, length, ◌==◌,
  if◌then◌else◌, String,
}
use webylib.Prelude.Int.{ℤ}
use webylib.Prelude.Text.{Text, codes, as_bytes}
use webylib.Fault.{Error, Result, ok, err, ok_or}
use webylib.Amount.{Amount, from_wats}
use webylib.Crypto.{Crypto, Bytes, ChainCode, derive_secret, as_str}
use webylib.Webcash.{SecretWebcash, PublicWebcash, to_public}
use webylib.Store.{Ops, Store}
use webylib.Store.Monad.{Action, pure, raise, lift, continue, ◌>>=◌, ◌>>◌}
use webylib.Server.{Server}

-- The store and the server that a wallet works on.
pub record World (S W : Type 0) : Type 0 where
  pub disk : S
  pub server : W

-- What the wallet takes from outside: `generated` is the next output of the random generator.
pub record Env : Type 0 where
  pub crypto : Crypto
  pub generated : Result Bytes

pub record WalletStats : Type 0 where
  pub total_webcash : ℕ
  pub unspent_webcash : ℕ
  pub spent_webcash : ℕ
  pub total_balance : Amount

module _ {S W A : Type 0} where
  abbrev pub on_disk : Action S A → Action (World S W) A
  on_disk m w = let (r, s) = m w.disk in (r, record w { disk = s })

  abbrev pub on_server : Action W A → Action (World S W) A
  on_server m w = let (r, v) = m w.server in (r, record w { server = v })

abbrev pub master_secret_key : Text
master_secret_key = codes "master_secret"

-- The hash under which an output is stored: of the text of its secret.
abbrev pub hash_of : Env → Text → Bytes
hash_of env secret = Crypto.sha256 env.crypto (as_bytes secret)

abbrev pub webcash_of_row : Text × ℤ → SecretWebcash
webcash_of_row (secret, wats) = record { secret = secret; amount = from_wats wats }

unfoldable pub check_length : Bytes → Result Bytes
check_length bytes =
    if not (length bytes == 32)
    then err (Error.wallet "Master secret must be 32 bytes")
    else ok bytes

unfoldable pub validate_master_secret : Env → Text → Result Bytes
validate_master_secret env hex = elim (Crypto.hex_decode env.crypto hex) [
  | none ↦ err (Error.wallet "Invalid master secret format")
  | some bytes ↦ check_length bytes
]

module _ {S W : Type 0} (st : Store S) (env : Env) where
  unfoldable pub generate : Result Bytes → Action (World S W) Text
  generate (err e) = raise (Error.crypto "Failed to generate master secret")
  generate (ok bytes) = do
    on_disk (Ops.set_meta st.ops master_secret_key (Crypto.hex_encode env.crypto bytes))
    pure (Crypto.hex_encode env.crypto bytes)

  unfoldable pub or_generate : Option Text → Action (World S W) Text
  or_generate (some secret) = pure secret
  or_generate none = generate env.generated

  unfoldable pub get_or_generate_master_secret : Action (World S W) Text
  get_or_generate_master_secret = do
    found ← on_disk (Ops.get_meta st.ops master_secret_key)
    or_generate found

  -- `hd_wallet`: the wallet's key derivation is by its master secret.
  unfoldable pub hd_wallet : Action (World S W) Bytes
  hd_wallet = do hex ← get_or_generate_master_secret; lift (validate_master_secret env hex)

  unfoldable pub read_chain_depth : ChainCode → Action (World S W) ℕ
  read_chain_depth chain = on_disk (Ops.get_depth st.ops (as_str chain))

  unfoldable pub balance_amount : Action (World S W) Amount
  balance_amount = do wats ← on_disk (Ops.sum_unspent st.ops); pure (from_wats wats)

  unfoldable pub list_webcash : Action (World S W) (List SecretWebcash)
  list_webcash = do rows ← on_disk (Ops.get_unspent st.ops); pure (map webcash_of_row rows)

  unfoldable pub list_public_webcash : Action (World S W) (List PublicWebcash)
  list_public_webcash = do all_webcash ← list_webcash; pure (map (to_public env.crypto) all_webcash)

  unfoldable pub stats : Action (World S W) WalletStats
  stats = do
    total ← on_disk (Ops.count_outputs st.ops)
    unspent ← on_disk (Ops.count_unspent st.ops)
    spent ← on_disk (Ops.count_spent_hashes st.ops)
    wats ← on_disk (Ops.sum_unspent st.ops)
    pure (record {
      total_webcash = total;
      unspent_webcash = unspent;
      spent_webcash = spent;
      total_balance = from_wats wats;
    })

  unfoldable pub store_master_secret : Text → Action (World S W) Unit
  store_master_secret hex = on_disk (Ops.set_meta st.ops master_secret_key hex)

  unfoldable pub store_directly : SecretWebcash → Action (World S W) Unit
  store_directly wc =
      on_disk (Ops.insert_output st.ops (hash_of env wc.secret) wc.secret wc.amount.wats)

  -- The next secret of a chain; its depth is counted on at once.
  unfoldable pub derive_next_secret : ChainCode → Action (World S W) (Text × ℕ)
  derive_next_secret chain = do
    master ← hd_wallet
    depth ← on_disk (Ops.get_depth st.ops (as_str chain))
    on_disk (Ops.set_depth st.ops (as_str chain) (depth + 1))
    pure (derive_secret env.crypto master chain depth, depth)
