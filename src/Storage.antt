-- ===== src/Storage.antt =====
-- The storage crate (crates/storage/src): its data, its errors and the interface `Store`. The three
-- backends are the children Mem, Json and Sqlite.
pub mod Mem
pub mod Json
pub mod Sqlite
pub mod Calls
pub mod Atomic
pub mod Legacy
use Prim.Native.String.{◌++◌ as ◌+++◌}
use webylib.Prelude.{ℕ, Bool, true, false, Option, List, String}
use webylib.Prelude.Int.{ℤ}
use webylib.Prelude.Text.{Text}
use webylib.Prelude.Assoc.{Assoc}
use webylib.Crypto.{Bytes}

pub data StoreError : Type 0 where
  backend not_found constraint : String → StoreError

-- `StoreResult`
pub data Reply (A : Type 0) : Type 0 where
  fine : A → Reply A
  failed : StoreError → Reply A

abbrev pub Act : Type 0 → Type 0 → Type 0
Act S A = S → Reply A × S

abbrev pub is_fine : {A : Type 0} → Reply A → Bool
is_fine (fine a) = true
is_fine (failed e) = false

abbrev pub sees : {S A : Type 0} → (S → A) → Act S A
sees f s = (fine (f s), s)

abbrev pub becomes : {S : Type 0} → (S → S) → Act S Unit
becomes f s = (fine tt, f s)

abbrev pub sql_err : String → String → StoreError
sql_err prefix e = backend (prefix +++ (": " +++ e))

pub record UnspentEntry : Type 0 where
  pub secret_hash : Bytes
  pub secret : Text
  pub amount : ℤ
  pub created_at : Text
  pub spent : Bool

pub record SpentHashEntry : Type 0 where
  pub hash : Bytes
  pub spent_at : Text

pub record MemState : Type 0 where
  pub meta : Assoc Text
  pub depths : Assoc ℕ
  pub unspent : List UnspentEntry
  pub spent_hashes : List SpentHashEntry

-- The trait but `atomic`.
pub record Ops (S : Type 0) : Type 0 where
  pub get_meta : Text → Act S (Option Text)
  pub set_meta : Text → Text → Act S Unit
  pub get_all_meta : Act S (Assoc Text)
  pub insert_output : Bytes → Text → ℤ → Act S Unit
  pub mark_spent : Bytes → Act S Unit
  pub insert_spent_hash : Bytes → Act S Unit
  pub update_output_amount : Bytes → ℤ → Act S Unit
  pub get_unspent : Act S (List (Text × ℤ))
  pub get_unspent_full : Act S (List (Text × ℤ × Text))
  pub get_all_outputs : Act S (List (Text × ℤ × Text × ℕ))
  pub get_spent_hashes_with_time : Act S (List (Bytes × Text))
  pub count_outputs : Act S ℕ
  pub count_unspent : Act S ℕ
  pub count_spent_hashes : Act S ℕ
  pub sum_unspent : Act S ℤ
  pub get_depth : Text → Act S ℕ
  pub set_depth : Text → ℕ → Act S Unit
  pub get_all_depths : Act S (Assoc ℕ)
  pub clear_all : Act S Unit

pub record Store (S : Type 0) : Type 0 where
  pub ops : Ops S
  pub atomic : (Ops S → Act S Unit) → Act S Unit
