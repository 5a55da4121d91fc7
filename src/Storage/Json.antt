-- ===== src/Storage/Json.antt =====
-- `JsonStore` (crates/storage/src/json.rs): a `MemStore` whose state is written to a file after every
-- change. `flush` is the serialisation and the write, which may fail; without a path it succeeds.
use webylib.Storage.{Reply, fine, failed, Act, MemState, Ops, Store}
use webylib.Storage.Mem.{mem_ops}

module _ (flush : MemState → Reply (Unit {0})) where
  -- `self.inner.…?; self.flush()`
  abbrev pub flushed : Reply (Unit {0}) × MemState → Reply (Unit {0}) × MemState
  flushed (fine _, s) = (flush s, s)
  flushed (failed e, s) = (failed e, s)

  abbrev pub json_ops : Ops MemState
  json_ops = record mem_ops {
    set_meta = λ key value s. flushed (Ops.set_meta mem_ops key value s);
    insert_output = λ h secret amount s. flushed (Ops.insert_output mem_ops h secret amount s);
    mark_spent = λ h s. flushed (Ops.mark_spent mem_ops h s);
    insert_spent_hash = λ h s. flushed (Ops.insert_spent_hash mem_ops h s);
    update_output_amount = λ h amount s. flushed (Ops.update_output_amount mem_ops h amount s);
    set_depth = λ chain depth s. flushed (Ops.set_depth mem_ops chain depth s);
    clear_all = λ s. flushed (Ops.clear_all mem_ops s);
  }

  abbrev pub settled : MemState → Reply (Unit {0}) × MemState → Reply (Unit {0}) × MemState
  settled snapshot (fine _, s) = (flush s, s)
  settled snapshot (failed e, s) = (failed e, snapshot)

  -- One write at the end of a body that succeeds; the state from before it where it fails.
  unfoldable pub json_atomic : (Ops MemState → Act MemState Unit) → Act MemState Unit
  json_atomic f s = settled s (f mem_ops s)

  abbrev pub json_store : Store MemState
  json_store = record { ops = json_ops; atomic = json_atomic }
