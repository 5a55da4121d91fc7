-- ===== src/Storage/Mem.antt =====
-- `MemStore` (crates/storage/src/mem.rs). A poisoned lock is not modelled. The
-- error of a hash that is there already leaves out the hash.
use webylib.Prelude.{
  Bool, true, false, not, ◌&&◌, List, [], ◌∷◌, ◌++◌, map, any, keep, length, if◌then◌else◌,
}
use webylib.Prelude.Int.{ℤ, pos, ◌+ℤ◌, wrap_i64}
use webylib.Prelude.Text.{Text, codes, beq}
use webylib.Prelude.Assoc.{lookup, insert}
use webylib.Crypto.{Bytes}
use webylib.Storage.{
  constraint, Reply, fine, failed, Act, sees, becomes, UnspentEntry, SpentHashEntry, MemState, Ops,
  Store,
}
use webylib.Store.State.{sort_desc, or_zero}

-- `MemState::default`
abbrev pub default_state : MemState
default_state = record { meta = []; depths = []; unspent = []; spent_hashes = [] }

abbrev pub now_iso : Text
now_iso = codes "1970-01-01T00:00:00Z"

abbrev pub has_entry : Bytes → List UnspentEntry → Bool
has_entry h = any (λ e. beq e.secret_hash h)

unfoldable pub insert_output : Bytes → Text → ℤ → Act MemState Unit
insert_output h secret amount s =
    if has_entry h s.unspent then (failed (constraint "secret_hash already present"), s) else (
      fine tt,
      record s {
        unspent =
            s.unspent
            ++ record {
              secret_hash = h;
              secret = secret;
              amount = amount;
              created_at = now_iso;
              spent = false;
            }
              ∷ [];
      },
    )

-- The loops of `mark_spent` and `update_output_amount` go over every entry.
unfoldable pub mark_entries : Bytes → List UnspentEntry → List UnspentEntry
mark_entries h = map (λ e. if beq e.secret_hash h then record e { spent = true } else e)

unfoldable pub reprice_entries : Bytes → ℤ → List UnspentEntry → List UnspentEntry
reprice_entries h amount =
    map (λ e. if beq e.secret_hash h && not e.spent then record e { amount = amount } else e)

abbrev pub knows_hash : Bytes → List SpentHashEntry → Bool
knows_hash h = any (λ e. beq e.hash h)

unfoldable pub add_spent_hash : Bytes → List SpentHashEntry → List SpentHashEntry
add_spent_hash h known =
    if not (knows_hash h known)
    then known ++ record { hash = h; spent_at = now_iso } ∷ []
    else known

unfoldable pub unspent_entries : List UnspentEntry → List UnspentEntry
unspent_entries = keep (λ e. not e.spent)

unfoldable pub sum_entries : List UnspentEntry → ℤ
sum_entries [] = pos 0
sum_entries (e ∷ es) = e.amount +ℤ sum_entries es

-- The order is that of a stable sort by the amount, the highest first.
unfoldable pub get_unspent : MemState → List (Text × ℤ)
unfolding unspent_entries
get_unspent s = sort_desc (map (λ e. (e.secret, e.amount)) (unspent_entries s.unspent))

abbrev pub mem_ops : Ops MemState
mem_ops = record {
  get_meta = λ key. sees (λ s. lookup key s.meta);
  set_meta = λ key value. becomes (λ s. record s { meta = insert key value s.meta });
  get_all_meta = sees (λ s. s.meta);
  insert_output = insert_output;
  mark_spent = λ h. becomes (λ s. record s { unspent = mark_entries h s.unspent });
  insert_spent_hash =
      λ h. becomes (λ s. record s { spent_hashes = add_spent_hash h s.spent_hashes });
  update_output_amount =
      λ h amount. becomes (λ s. record s { unspent = reprice_entries h amount s.unspent });
  get_unspent = sees get_unspent;
  get_unspent_full =
      sees (λ s. map (λ e. (e.secret, e.amount, e.created_at)) (unspent_entries s.unspent));
  get_all_outputs =
      sees (λ s. map (λ e. (e.secret, e.amount, e.created_at, if e.spent then 1 else 0)) s.unspent);
  get_spent_hashes_with_time = sees (λ s. map (λ e. (e.hash, e.spent_at)) s.spent_hashes);
  count_outputs = sees (λ s. length s.unspent);
  count_unspent = sees (λ s. length (unspent_entries s.unspent));
  count_spent_hashes = sees (λ s. length s.spent_hashes);
  sum_unspent = sees (λ s. wrap_i64 (sum_entries (unspent_entries s.unspent)));
  get_depth = λ chain. sees (λ s. or_zero (lookup chain s.depths));
  set_depth = λ chain depth. becomes (λ s. record s { depths = insert chain depth s.depths });
  get_all_depths = sees (λ s. s.depths);
  clear_all = becomes (λ s. default_state);
}

-- The snapshot is put back where the body fails.
abbrev pub restored_on_error : MemState → Reply (Unit {0}) × MemState → Reply (Unit {0}) × MemState
restored_on_error snapshot (fine _, s) = (fine tt, s)
restored_on_error snapshot (failed e, s) = (failed e, snapshot)

unfoldable pub mem_atomic : (Ops MemState → Act MemState Unit) → Act MemState Unit
mem_atomic f s = restored_on_error s (f mem_ops s)

abbrev pub mem_store : Store MemState
mem_store = record { ops = mem_ops; atomic = mem_atomic }
