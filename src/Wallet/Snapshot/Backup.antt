-- ===== src/Wallet/Snapshot/Backup.antt =====
-- What `import_wallet_data` (src/wallet/snapshot.rs) makes of the outputs of a backup.
use webylib.Prelude.{◌≡◌, false, List, All}
use webylib.Prelude.Text.{Text}
use webylib.Prelude.Assoc.{Assoc}
use webylib.Store.{Store}
use webylib.Store.State.{MemState, MemOutput}

abbrev pub AreUnspent : List MemOutput → Type 0
AreUnspent = All (λ (o : MemOutput). o.spent ≡ false)

abbrev Kept : MemState → MemState → Type 0
Kept s s' = AreUnspent s.outputs → AreUnspent s'.outputs
