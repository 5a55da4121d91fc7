-- ===== src/Storage/Legacy.antt =====
-- `MemStore` of the storage crate (crates/storage/src/mem.rs) beside the `MemStore` that the wallet
-- uses (src/wallet/store.rs), which keeps no times.
pub mod Rows
pub mod Agreement
pub mod Clearing
pub mod Tables
use webylib.Prelude.{
  ℕ, ◌≡◌, ◌≢◌, refl, sym, ap, ◌∙◌, subst, Bool, true, false, not, ◌&&◌, ◌||◌, Option, none, some,
  List, [], ◌∷◌, ◌++◌, map, length, any, All, All-append, arith, Bool-cases, inl, inr,
  if◌then◌else◌,
}
use webylib.Prelude.Int.{ℤ}
use webylib.Prelude.Text.{Text, beq, beq_iff}
use webylib.Crypto.{Bytes}
use webylib.Fault.{Result, ok, err}
use webylib.Store.State
use webylib.Store.State.{
  MemOutput, mark_first, reprice_first, has_hash, knows_spent, push_output, fresh,
}
use webylib.Store.Monad.{Action, continue}
use webylib.Store.Mem
use webylib.Store.Sqlite.{set_spent, set_amount}
use webylib.Store.Laws.{Distinct}
use webylib.Store.Laws.Outputs.{mark_first-Distinct, set_spent-Distinct}
use webylib.Storage.{Reply, fine, failed, is_fine, Act, MemState, UnspentEntry, SpentHashEntry, Ops}
use webylib.Storage.Mem.{
  mem_ops, has_entry, insert_output, mark_entries, reprice_entries, knows_hash, add_spent_hash,
}
use webylib.Storage.Calls
use webylib.Storage.Calls.{Call, run_call, run_calls, proceed}

abbrev pub legacy_entry : UnspentEntry → MemOutput
legacy_entry e = record {
  secret_hash = e.secret_hash;
  secret = e.secret;
  amount = e.amount;
  created_at = [];
  spent = e.spent;
}

abbrev pub legacy_spent : SpentHashEntry → Bytes × Text
legacy_spent e = (e.hash, [])

-- The wallet's state without the times.
abbrev pub legacy_of : MemState → State.MemState
legacy_of s = record {
  meta = s.meta;
  outputs = map legacy_entry s.unspent;
  spent_hashes = map legacy_spent s.spent_hashes;
  depths = s.depths;
}

abbrev pub legacy_call : Call → Action State.MemState Unit
legacy_call (Calls.set_meta key value) = webylib.Store.Ops.set_meta Mem.mem_ops key value
legacy_call (Calls.insert_output h secret amount) =
    webylib.Store.Ops.insert_output Mem.mem_ops h secret amount
legacy_call (Calls.mark_spent h) = webylib.Store.Ops.mark_spent Mem.mem_ops h
legacy_call (Calls.insert_spent_hash h) = webylib.Store.Ops.insert_spent_hash Mem.mem_ops h
legacy_call (Calls.update_output_amount h amount) =
    webylib.Store.Ops.update_output_amount Mem.mem_ops h amount
legacy_call (Calls.set_depth chain depth) = webylib.Store.Ops.set_depth Mem.mem_ops chain depth
legacy_call Calls.clear_all = webylib.Store.Ops.clear_all Mem.mem_ops

abbrev pub legacy_proceed :
    Result (Unit {0}) × State.MemState
    → Action State.MemState Unit
    → Result (Unit {0}) × State.MemState
legacy_proceed (ok _, s) m = m s
legacy_proceed (err e, s) m = (err e, s)

unfoldable pub legacy_calls : List Call → Action State.MemState Unit
legacy_calls [] s = (ok tt, s)
legacy_calls (c ∷ cs) s = legacy_proceed (legacy_call c s) (legacy_calls cs)

abbrev pub is_ok : {A : Type 0} → Result A → Bool
is_ok (ok a) = true
is_ok (err e) = false

-- No two entries have one hash.
abbrev pub IsKeyed : MemState → Type 0
IsKeyed s = Distinct (map legacy_entry s.unspent)

-- The two stores have both done the call or both refused it, and hold the same.
abbrev pub Agree : Reply (Unit {0}) × MemState → Result (Unit {0}) × State.MemState → Type 0
Agree (r, s) (r', s') = (is_fine r ≡ is_ok r') × (legacy_of s ≡ s') × IsKeyed s
