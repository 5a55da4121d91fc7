-- ===== src/Storage/Calls.antt =====
-- The methods of the storage crate's `Store` that change a store, as data, and sequences of them:
-- the bodies that an atomic step is given, each method followed by `?`.
use webylib.Prelude.{ℕ, List, [], ◌∷◌}
use webylib.Prelude.Int.{ℤ}
use webylib.Prelude.Text.{Text}
use webylib.Crypto.{Bytes}
use webylib.Storage.{Reply, fine, failed, Act, Ops}

pub data Call : Type 0 where
  set_meta : Text → Text → Call
  insert_output : Bytes → Text → ℤ → Call
  mark_spent insert_spent_hash : Bytes → Call
  update_output_amount : Bytes → ℤ → Call
  set_depth : Text → ℕ → Call
  clear_all : Call

-- Every change but `clear_all`, with which the depths of the chains go in this crate and stay in the
-- wallet's own stores.
abbrev pub KeepsDepths : Call → Type 0
KeepsDepths clear_all = ⊥
KeepsDepths _ = Unit

module _ {S : Type 0} where
  abbrev pub run_call : Ops S → Call → Act S Unit
  run_call ops (set_meta key value) = Ops.set_meta ops key value
  run_call ops (insert_output h secret amount) = Ops.insert_output ops h secret amount
  run_call ops (mark_spent h) = Ops.mark_spent ops h
  run_call ops (insert_spent_hash h) = Ops.insert_spent_hash ops h
  run_call ops (update_output_amount h amount) = Ops.update_output_amount ops h amount
  run_call ops (set_depth chain depth) = Ops.set_depth ops chain depth
  run_call ops clear_all = Ops.clear_all ops

  abbrev pub proceed : Reply (Unit {0}) × S → Act S Unit → Reply (Unit {0}) × S
  proceed (fine _, s) m = m s
  proceed (failed e, s) m = (failed e, s)

  unfoldable pub run_calls : List Call → Ops S → Act S Unit
  run_calls [] ops s = (fine tt, s)
  run_calls (c ∷ cs) ops s = proceed (run_call ops c s) (run_calls cs ops)
