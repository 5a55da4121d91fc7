-- ===== src/Store.antt =====
-- The storage of the wallet (src/wallet/store.rs): its data, the interface `Store`, and the three
-- backends in the children `Mem`, `Json` and `Sqlite`.
pub mod Monad
pub mod State
pub mod Mem
pub mod Json
pub mod Sqlite
pub mod Laws
pub mod Atomic
use webylib.Prelude.{ℕ, Option, List, Bool}
use webylib.Prelude.Int.{ℤ}
use webylib.Prelude.Text.{Text}
use webylib.Prelude.Assoc.{Assoc}
use webylib.Crypto.{Bytes}
use Monad.{Action}

-- The methods of the trait `Store` but `atomic`, over a state `S`. What a method does to the state
-- before it fails stays done.
pub record Ops (S : Type 0) : Type 0 where
  pub get_meta : Text → Action S (Option Text)
  pub set_meta : Text → Text → Action S Unit
  pub insert_output : Bytes → Text → ℤ → Action S Unit
  pub mark_spent : Bytes → Action S Unit
  pub insert_spent_hash : Bytes → Action S Unit
  pub get_unspent : Action S (List (Text × ℤ))
  pub get_all_outputs : Action S (List (Text × ℤ × Text × ℕ))
  pub count_outputs : Action S ℕ
  pub count_unspent : Action S ℕ
  pub count_spent_hashes : Action S ℕ
  pub sum_unspent : Action S ℤ
  pub update_output_amount : Bytes → ℤ → Action S Unit
  pub get_depth : Text → Action S ℕ
  pub set_depth : Text → ℕ → Action S Unit
  pub get_all_depths : Action S (Assoc ℕ)
  pub get_all_meta : Action S (Assoc Text)
  pub get_spent_hashes_with_time : Action S (List (Bytes × Text))
  pub get_unspent_full : Action S (List (Text × ℤ × Text))
  pub clear_all : Action S Unit

-- The whole trait: `atomic` hands its body the methods that it runs on.
pub record Store (S : Type 0) : Type 0 where
  pub ops : Ops S
  pub atomic : (Ops S → Action S Unit) → Action S Unit
