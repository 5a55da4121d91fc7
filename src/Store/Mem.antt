-- ===== src/Store/Mem.antt =====
-- `MemStore`, the store of the WASM build (src/wallet/store.rs).
use webylib.Prelude.{length, if◌then◌else◌}
use webylib.Prelude.Int.{ℤ}
use webylib.Prelude.Text.{Text}
use webylib.Fault.{Error}
use webylib.Crypto.{Bytes}
use webylib.Store.{Ops, Store}
use webylib.Store.Monad.{Action, raise, gets, modify}
use webylib.Store.State
use webylib.Store.State.{MemState, fresh, push_output, has_hash, unspent}

unfoldable pub insert_output : Bytes → Text → ℤ → Action MemState Unit
insert_output h secret amount s =
    if has_hash h s.outputs
    then raise (Error.wallet "UNIQUE constraint: output already exists") s
    else modify (push_output (fresh h secret amount)) s

abbrev pub mem_ops : Ops MemState
mem_ops = record {
  get_meta = λ key. gets (State.get_meta key);
  set_meta = λ key value. modify (State.set_meta key value);
  insert_output = insert_output;
  mark_spent = λ h. modify (State.mark_spent h);
  insert_spent_hash = λ h. modify (State.insert_spent_hash h);
  get_unspent = gets State.get_unspent;
  get_all_outputs = gets State.get_all_outputs;
  count_outputs = gets (λ s. length s.outputs);
  count_unspent = gets (λ s. length (unspent s.outputs));
  count_spent_hashes = gets (λ s. length s.spent_hashes);
  sum_unspent = gets State.sum_unspent;
  update_output_amount = λ h amount. modify (State.update_output_amount h amount);
  get_depth = λ chain. gets (State.get_depth chain);
  set_depth = λ chain depth. modify (State.set_depth chain depth);
  get_all_depths = gets (λ s. s.depths);
  get_all_meta = gets (λ s. s.meta);
  get_spent_hashes_with_time = gets (λ s. s.spent_hashes);
  get_unspent_full = gets State.get_unspent_full;
  clear_all = modify State.clear_all;
}

-- `atomic` runs the body on the store itself: what a failing body did is kept.
abbrev pub mem_atomic : (Ops MemState → Action MemState Unit) → Action MemState Unit
mem_atomic f s = f mem_ops s

abbrev pub mem_store : Store MemState
mem_store = record { ops = mem_ops; atomic = mem_atomic }
