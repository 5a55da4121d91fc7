-- ===== src/Tests/Seeds.antt =====
-- Opening a small wallet with a seed (`Wallet::open_with_seed`, src/wallet/mod.rs), and the theorems
-- about it there.
use webylib.Prelude.{◌≡◌, refl, ◌↔◌, some, List, [], ◌∷◌, replicate}
use webylib.Prelude.Text.{beq, codes}
use webylib.Prelude.Assoc.{lookup}
use webylib.Fault.{Result, ok}
use webylib.Crypto.{Crypto, Bytes}
use webylib.Store.State
use webylib.Store.State.{MemState, MemOutput}
use webylib.Prelude.{String}
use webylib.Store.Sqlite.{sum_rows}
use webylib.Store.State.{sum_amounts}
use webylib.Wallet.{
  World, master_secret_key, get_or_generate_master_secret, or_generate, stats, store_master_secret,
}
use webylib.Wallet.Open.{replace_unused, set_seed, open_with_seed}
use webylib.Wallet.Open.Seed.{open_with_seed-kept, open_with_seed-holds}
use webylib.Tests.Wallets.{env, start}

abbrev seed : Bytes
seed = replicate 32 9

-- The small wallet with the master secret of another seed.
abbrev other : World MemState (Unit {0})
other = record start {
  disk = record (start.disk) { meta = (master_secret_key, codes "0707") ∷ [] };
}

-- A wallet with no outputs, and what opening it with the seed makes of it.
abbrev unused : World MemState (Unit {0})
unused = record other { disk = record (other.disk) { outputs = [] } }

abbrev carries_out : String → MemState → Result (Unit {0})
carries_out sql s = ok tt

abbrev opened : Result (Unit {0}) × World MemState (Unit {0})
opened = open_with_seed carries_out (codes "2025") env seed unused

opened_ok : open_with_seed carries_out (codes "2025") env seed unused ≡ (ok tt, opened.1)
unfolding open_with_seed get_or_generate_master_secret or_generate set_seed replace_unused stats
    store_master_secret sum_rows lookup beq sum_amounts State.unspent
opened_ok = refl

other_secret : State.get_meta master_secret_key other.disk ≡ some (codes "0707")
unfolding lookup beq
other_secret = refl

open_with_seed-kept_example :
    ((open_with_seed carries_out (codes "2025") env seed other).1 ≡ other)
    × (((open_with_seed carries_out (codes "2025") env seed other).0 ≡ ok tt)
        ↔ (codes "0707" ≡ Crypto.hex_encode env.crypto seed))
open_with_seed-kept_example =
    open_with_seed-kept carries_out (codes "2025") env seed other (codes "0707") refl other_secret
      (λ e. differ e)
  where
    differ : {o : MemOutput} {os : List MemOutput} → o ∷ os ≡ [] → ⊥
    differ e = cc

open_with_seed-holds_example :
    (State.get_meta master_secret_key opened.1.disk ≡ some (Crypto.hex_encode env.crypto seed))
    × (opened.1.disk.outputs ≡ unused.disk.outputs)
open_with_seed-holds_example =
    open_with_seed-holds carries_out (codes "2025") env seed unused opened.1 opened_ok
