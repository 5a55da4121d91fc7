-- ===== src/Lib.antt =====
-- webylib, the wallet library for webcash: its amounts, texts, key derivation, stores and operations.
--
-- The program. A wallet (src/wallet/operations.rs) keeps outputs, each a secret with an amount under
-- the hash of the secret, in a store (src/wallet/store.rs) with three backends. It pays, merges and
-- inserts by asking a server (src/server.rs) to replace webcash by new webcash, whose secrets it
-- derives from a master secret along four chains (crates/hd/src/legacy_webcash.rs), and then records
-- the replacement in the store in one atomic step. Recovery (crates/webylib-core/src/ops/recover.rs)
-- derives the secrets of a seed again and asks the server which of them are unspent; the wallet stores
-- what it reports. Snapshots (src/wallet/snapshot.rs) take a wallet's state out and put it back. Beside
-- these stand the newer crates: a storage (crates/storage), four kinds of asset (crates/wallet-webcash,
-- crates/wallet-rgb, crates/wallet-voucher) and the client that they share (crates/server-client).
--
-- The files.
-- - Prelude: what the modules share: lists measured by native numbers, signed integers with the
--   saturating, checked and wrapping forms of an `i64`, texts as lists of code points, decimal
--   printing and parsing, association lists for a `HashMap`.
-- - Fault: `Error`, `Result` and `with_context` of src/error.rs. A message that `format!` fills in is
--   kept as its fixed part.
-- - Amount and its children: src/amount.rs. `from_str` is `Amount.Parse.from_str`; floating-point
--   numbers are the parameter `Amount.Float`.
-- - Crypto and Crypto.Derive: crates/hd/src/legacy_webcash.rs, over a parameter for `sha2` and `hex`.
-- - Webcash and Webcash.RoundTrip: `SecretWebcash` and `PublicWebcash` of src/webcash.rs.
-- - Store: the trait `Store` of src/wallet/store.rs as a record of methods `Ops` with `atomic`; the
--   children Mem, Json and Sqlite are its backends, on the one state `MemState`; Store.Laws is what a
--   backend promises, Store.Laws.Backends that each keeps it, Store.Atomic what a failing atomic step
--   of the JSON store leaves. A method changes a state and returns a result, and what it did before an error stays
--   done (Store.Monad).
-- - Server: the two requests of src/server.rs that the wallet makes, as a parameter with a state of
--   its own.
-- - Wallet and its children: src/wallet/operations.rs. `Wallet.Inputs` is `select_inputs` and
--   `mark_inputs_spent`, `Wallet.Pay` is `pay`, `Wallet.Merge` is `merge`, `Wallet.Insert` is
--   `insert_with_validation`, `Wallet.Check` is `check`. Their theorems stand in the children and are
--   over any store that keeps the laws. `Wallet.Sound.IsSound` is what they ask of its outputs.
--   `Wallet.Recover` is `recover` and `recover_from_wallet`, over `Recovery`, and `Wallet.Snapshot` is
--   src/wallet/snapshot.rs. `Wallet.Open` is `open_with_seed` of src/wallet/mod.rs, on the SQLite
--   store.
-- - Recovery: `recover`, `scan_chain` and `parse_decimal_to_wats` of crates/webylib-core, for any
--   asset; the server is a function of the request, so that it does not change during a scan.
--   Recovery.Complete is about what a scan misses, Recovery.Fuel about its end.
-- - Miner and its children: src/miner.rs, with the search on fuel.
-- - Passkey and its children: src/passkey.rs, over a parameter for the cryptographic crates and the key
--   store of the platform, which may refuse to give out its entry. Passkey.Database is the encryption
--   of the database file in src/wallet/encryption.rs, over a parameter for files and JSON.
-- - Wasm and its children: the browser's wallet, crates/webylib-wasm/src/lib.rs and wallet.rs. Wasm.State,
--   Replace, Mining, Recover and Snapshot are the exported functions, on records in place of JSON;
--   Wasm.Reach is the step relation on its states, and Wasm.Native compares a payment with that of the
--   native wallet, whose outputs, spent hashes, depths and master secret agree with the state.
-- - Assets and Assets.Keys: the `WalletAsset` of each kind of asset, the keys of answers, and the verbs
--   `pay`, `transfer` and `insert`.
-- - ServerClient and ServerClient.Answers: `Client` of crates/server-client/src/lib.rs, over a
--   parameter for `ureq` and one for the printing of JSON.
-- - Storage and its children Mem, Json and Sqlite: crates/storage/src. Storage.Calls are the changes of
--   a store as data, Storage.Atomic is about failing atomic steps, and Storage.Legacy compares the
--   crate's stores with the wallet's own.
-- - Tests: runs on concrete inputs.
--
-- Bounds and fuel. The loop of `scan_chain` has fuel, and `Recovery.Fuel` says how much is enough.
-- Every other loop is by recursion on a list. An `i64` is an integer with its range written out; a
-- sum that overflows wraps, as in a release build. Depths are natural numbers, which a `u64` holds
-- unless a chain is used 2 ^ 64 times; the scan's own arithmetic saturates and wraps as written.
--
-- Not modelled: HTTP and JSON, the database engine beyond what the statements ask of it (the rows of
-- one amount come in the order of their ids, and a transaction that was left open by a refused rollback
-- is not seen by later statements of src/wallet/store.rs), the opening of
-- files, locks that are poisoned, the wiping of secrets in memory, logging, hash time locks,
-- the encryption of exported wallet data, and the bindings and command lines.
pub mod Prelude
pub mod Fault
pub mod Amount
pub mod Crypto
pub mod Webcash
pub mod Store
pub mod Server
pub mod Wallet
pub mod Recovery
pub mod Miner
pub mod Passkey
pub mod Wasm
pub mod Assets
pub mod ServerClient
pub mod Storage
pub mod Tests
