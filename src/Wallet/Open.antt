-- ===== src/Wallet/Open.antt =====
-- Opening a wallet with a given seed (`Wallet::open_with_seed`, src/wallet/mod.rs). The files, the
-- database and the HTTP client that `Wallet::open` makes are not modelled: its last step, which
-- gives a wallet without a master secret a new one, is.
pub mod Reads
pub mod Master
pub mod Seed
use webylib.Prelude.{
  String, ◌≡◌, ◌≢◌, refl, sym, ap, subst, ◌∙◌, Bool, true, false, not, Bool-cases, inl, inr,
  Option-cases, none, some, List, [], ◌∷◌, length, ltb, arith, if◌then◌else◌, ◌↔◌,
}
use webylib.Prelude.Text.{Text, beq, beq_iff, beq_self}
use webylib.Prelude.Assoc.{lookup, insert, lookup-insert}
use webylib.Fault.{Error, Result, ok, err}
use webylib.Crypto.{Crypto, Bytes}
use webylib.Store.{Store}
use webylib.Store.Monad.{Action, pure, raise, continue, bind-ok, ◌>>=◌, ◌>>◌}
use webylib.Store.State
use webylib.Store.State.{MemState, MemOutput}
use webylib.Store.Sqlite.{sqlite_store}
use webylib.Wallet.Effects.{raise-ok}
use webylib.Wallet.{
  World, Env, WalletStats, get_or_generate_master_secret, or_generate, generate, stats,
  store_master_secret, master_secret_key,
}

module _ {S W : Type 0} (st : Store S) (env : Env) where
  unfoldable pub replace_unused : Text → WalletStats → Action (World S W) Unit
  replace_unused hex stats =
      if ltb 0 stats.total_webcash
      then raise
          (Error.wallet "Wallet already has a different master secret with existing transactions")
      else store_master_secret st env hex

  unfoldable pub set_seed : Text → Text → Action (World S W) Unit
  set_seed hex existing =
      if not (beq existing hex) then stats st env >>= replace_unused hex else pure tt

-- The wallet that `open` makes is on `SqliteStore`, and has a master secret when `open` is done.
module _ {W : Type 0} (engine : String → MemState → Result (Unit {0})) (now : Text)
    (env : Env) where
  unfoldable pub open_with_seed : Bytes → Action (World MemState W) Unit
  open_with_seed seed = do
    get_or_generate_master_secret (sqlite_store engine now) env
    existing ← get_or_generate_master_secret (sqlite_store engine now) env
    set_seed (sqlite_store engine now) env (Crypto.hex_encode env.crypto seed) existing
