-- ===== src/Wallet/Snapshot.antt =====
-- Snapshots and backups of a wallet (src/wallet/snapshot.rs). Their JSON text and its encryption are
-- not modelled: a snapshot is the record that `serde` reads and writes.
pub mod Loops
pub mod RoundTrip
pub mod Backup
use webylib.Prelude.{ℕ, Bool, Option, none, some, List, [], ◌∷◌, map}
use webylib.Prelude.Int.{ℤ, pos, as_i64, as_u64_of}
use webylib.Prelude.Text.{Text, codes}
use webylib.Prelude.Assoc.{Assoc}
use webylib.Fault.{Error, Result, ok, err, ok_or}
use webylib.Crypto.{Crypto, Bytes}
use webylib.Store.{Ops, Store}
use webylib.Store.Monad.{Action, pure, raise, lift, continue, ◌>>=◌, ◌>>◌}
use webylib.Wallet.{World, Env, on_disk, hash_of, master_secret_key}

-- The three optional fields route an output to another asset; this wallet leaves them out.
pub record UnspentOutputSnapshot : Type 0 where
  pub secret : Text
  pub amount : ℤ
  pub created_at : Text
  pub asset_type : Option Text
  pub contract_id : Option Text
  pub issuer_fp : Option Text

pub record SpentHashSnapshot : Type 0 where
  pub hash : Text
  pub spent_at : Text
  pub asset_type : Option Text
  pub contract_id : Option Text
  pub issuer_fp : Option Text

pub record WalletSnapshot : Type 0 where
  pub master_secret : Text
  pub unspent_outputs : List UnspentOutputSnapshot
  pub spent_hashes : List SpentHashSnapshot
  pub depths : Assoc ℤ

pub record WalletExport : Type 0 where
  pub version : Text
  pub metadata : Assoc Text
  pub outputs : List (Text × ℤ × Text × ℕ)
  pub spent_hashes : List (Bytes × Text)
  pub exported_at : Text

-- `unwrap_or_default`
abbrev pub or_empty : Option Text → Text
or_empty none = []
or_empty (some s) = s

abbrev pub output_snapshot : Text × ℤ × Text → UnspentOutputSnapshot
output_snapshot (secret, amount, created_at) = record {
  secret = secret;
  amount = amount;
  created_at = created_at;
  asset_type = none;
  contract_id = none;
  issuer_fp = none;
}

abbrev pub spent_snapshot : Env → Bytes × Text → SpentHashSnapshot
spent_snapshot env (hash_blob, spent_at) = record {
  hash = Crypto.hex_encode env.crypto hash_blob;
  spent_at = spent_at;
  asset_type = none;
  contract_id = none;
  issuer_fp = none;
}

abbrev pub depth_snapshot : Text × ℕ → Text × ℤ
depth_snapshot (chain, depth) = (chain, as_i64 depth)

module _ {S : Type 0} (env : Env) (ops : Ops S) where
  unfoldable pub restore_depths : Assoc ℤ → Action S Unit
  restore_depths [] = pure tt
  restore_depths ((code, depth) ∷ depths) = do
    Ops.set_depth ops code (as_u64_of depth)
    restore_depths depths

  unfoldable pub restore_outputs : List UnspentOutputSnapshot → Action S Unit
  restore_outputs [] = pure tt
  restore_outputs (item ∷ items) = do
    Ops.insert_output ops (hash_of env item.secret) item.secret item.amount
    restore_outputs items

  unfoldable pub restore_spent : List SpentHashSnapshot → Action S Unit
  restore_spent [] = pure tt
  restore_spent (item ∷ items) = do
    hash_bytes ←
        lift
          (ok_or (Crypto.hex_decode env.crypto item.hash) (Error.wallet "Invalid hex in snapshot"))
    Ops.insert_spent_hash ops hash_bytes
    restore_spent items

  -- The body of the atomic step.
  unfoldable pub restore : WalletSnapshot → Action S Unit
  restore snapshot = do
    Ops.clear_all ops
    Ops.set_meta ops master_secret_key snapshot.master_secret
    restore_depths snapshot.depths
    restore_outputs snapshot.unspent_outputs
    restore_spent snapshot.spent_hashes

  unfoldable pub import_meta : Assoc Text → Action S Unit
  import_meta [] = pure tt
  import_meta ((key, value) ∷ metadata) = do Ops.set_meta ops key value; import_meta metadata

  -- The flag that an output is spent is not read.
  unfoldable pub import_outputs : List (Text × ℤ × Text × ℕ) → Action S Unit
  import_outputs [] = pure tt
  import_outputs ((secret, amount, created_at, spent) ∷ outputs) = do
    Ops.insert_output ops (hash_of env secret) secret amount
    import_outputs outputs

  unfoldable pub import_spent : List (Bytes × Text) → Action S Unit
  import_spent [] = pure tt
  import_spent ((hash, spent_at) ∷ hashes) = do Ops.insert_spent_hash ops hash; import_spent hashes

  unfoldable pub import_all : WalletExport → Action S Unit
  import_all wallet_export = do
    Ops.clear_all ops
    import_meta wallet_export.metadata
    import_outputs wallet_export.outputs
    import_spent wallet_export.spent_hashes

module _ {S W : Type 0} (st : Store S) (env : Env) where
  unfoldable pub export_snapshot : Action (World S W) WalletSnapshot
  export_snapshot = do
    master_secret ← on_disk (Ops.get_meta st.ops master_secret_key)
    unspent ← on_disk (Ops.get_unspent_full st.ops)
    spent ← on_disk (Ops.get_spent_hashes_with_time st.ops)
    depths ← on_disk (Ops.get_all_depths st.ops)
    pure (record {
      master_secret = or_empty master_secret;
      unspent_outputs = map output_snapshot unspent;
      spent_hashes = map (spent_snapshot env) spent;
      depths = map depth_snapshot depths;
    })

  unfoldable pub import_snapshot : WalletSnapshot → Action (World S W) Unit
  import_snapshot snapshot = on_disk (st.atomic (λ store. restore env store snapshot))

  -- `now` is the time of the export, in RFC 3339.
  unfoldable pub export_wallet_data : Text → Action (World S W) WalletExport
  export_wallet_data now = do
    metadata ← on_disk (Ops.get_all_meta st.ops)
    outputs ← on_disk (Ops.get_all_outputs st.ops)
    spent_hashes ← on_disk (Ops.get_spent_hashes_with_time st.ops)
    pure (record {
      version = codes "1.0";
      metadata = metadata;
      outputs = outputs;
      spent_hashes = spent_hashes;
      exported_at = now;
    })

  -- Step by step on the store, with no atomic step around it.
  unfoldable pub import_wallet_data : WalletExport → Action (World S W) Unit
  import_wallet_data wallet_export = on_disk (import_all env st.ops wallet_export)
