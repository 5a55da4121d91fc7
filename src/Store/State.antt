-- ===== src/Store/State.antt =====
-- `MemState`, the plain data that the in-memory and the JSON store share, and what each method
-- does to it (src/wallet/store.rs).
use webylib.Prelude.{
  ℕ, Bool, true, false, not, ◌&&◌, Option, none, some, List, [], ◌∷◌, ◌++◌, map, any, keep,
  if◌then◌else◌,
}
use webylib.Prelude.Int.{ℤ, pos, ◌+ℤ◌, leb_ℤ, wrap_i64}
use webylib.Prelude.Text.{Text, codes, beq}
use webylib.Prelude.Assoc.{Assoc, lookup, insert}
use webylib.Crypto.{Bytes}

pub record MemOutput : Type 0 where
  pub secret_hash : Bytes
  pub secret : Text
  pub amount : ℤ
  pub created_at : Text
  pub spent : Bool

pub record MemState : Type 0 where
  pub meta : Assoc Text
  pub outputs : List MemOutput
  pub spent_hashes : List (Bytes × Text)
  pub depths : Assoc ℕ

-- `default_depths` and `new_mem_state`
abbrev pub default_depths : Assoc ℕ
default_depths =
    (codes "RECEIVE", 0) ∷ (codes "PAY", 0) ∷ (codes "CHANGE", 0) ∷ (codes "MINING", 0) ∷ []

abbrev pub new_mem_state : MemState
new_mem_state = record { meta = []; outputs = []; spent_hashes = []; depths = default_depths }

abbrev pub get_meta : Text → MemState → Option Text
get_meta key s = lookup key s.meta

abbrev pub set_meta : Text → Text → MemState → MemState
set_meta key value s = record s { meta = insert key value s.meta }

abbrev pub fresh : Bytes → Text → ℤ → MemOutput
fresh secret_hash secret amount = record {
  secret_hash = secret_hash;
  secret = secret;
  amount = amount;
  created_at = [];
  spent = false;
}

-- `state.outputs.push(…)`
abbrev pub push_output : MemOutput → MemState → MemState
push_output o s = record s { outputs = s.outputs ++ o ∷ [] }

-- `state.outputs.iter().any(|o| o.secret_hash == secret_hash)`
abbrev pub has_hash : Bytes → List MemOutput → Bool
has_hash h = any (λ o. beq o.secret_hash h)

-- `find` a hash and set `spent`: the first output with the hash.
unfoldable pub mark_first : Bytes → List MemOutput → List MemOutput
mark_first h [] = []
mark_first h (o ∷ os) =
    if beq o.secret_hash h then record o { spent = true } ∷ os else o ∷ mark_first h os

abbrev pub mark_spent : Bytes → MemState → MemState
mark_spent h s = record s { outputs = mark_first h s.outputs }

-- The first output with the hash that is not spent gets the amount.
unfoldable pub reprice_first : Bytes → ℤ → List MemOutput → List MemOutput
reprice_first h amount [] = []
reprice_first h amount (o ∷ os) =
    if beq o.secret_hash h && not o.spent
    then record o { amount = amount } ∷ os
    else o ∷ reprice_first h amount os

abbrev pub update_output_amount : Bytes → ℤ → MemState → MemState
update_output_amount h amount s = record s { outputs = reprice_first h amount s.outputs }

abbrev pub knows_spent : Bytes → List (Bytes × Text) → Bool
knows_spent h = any (λ e. beq e.0 h)

abbrev pub insert_spent_hash : Bytes → MemState → MemState
insert_spent_hash h s =
    if not (knows_spent h s.spent_hashes)
    then record s { spent_hashes = s.spent_hashes ++ (h, []) ∷ [] }
    else s

-- `filter(|o| !o.spent)`
unfoldable pub unspent : List MemOutput → List MemOutput
unspent = keep (λ o. not o.spent)

-- `sort_by_key(|x| Reverse(x.1))` is stable: an entry goes in front of the equal ones behind it.
unfoldable pub insert_sorted : Text × ℤ → List (Text × ℤ) → List (Text × ℤ)
insert_sorted x [] = x ∷ []
insert_sorted x (y ∷ ys) = if leb_ℤ y.1 x.1 then x ∷ y ∷ ys else y ∷ insert_sorted x ys

unfoldable pub sort_desc : List (Text × ℤ) → List (Text × ℤ)
unfolding insert_sorted
sort_desc [] = []
sort_desc (x ∷ xs) = insert_sorted x (sort_desc xs)

abbrev pub secret_and_amount : MemOutput → Text × ℤ
secret_and_amount o = (o.secret, o.amount)

abbrev pub get_unspent : MemState → List (Text × ℤ)
get_unspent s = sort_desc (map secret_and_amount (unspent s.outputs))

abbrev pub get_all_outputs : MemState → List (Text × ℤ × Text × ℕ)
get_all_outputs s =
    map (λ o. (o.secret, o.amount, o.created_at, if o.spent then 1 else 0)) s.outputs

abbrev pub get_unspent_full : MemState → List (Text × ℤ × Text)
get_unspent_full s = map (λ o. (o.secret, o.amount, o.created_at)) (unspent s.outputs)

unfoldable pub sum_amounts : List MemOutput → ℤ
sum_amounts [] = pos 0
sum_amounts (o ∷ os) = o.amount +ℤ sum_amounts os

-- The sum is an `i64`: where it overflows, a release build wraps it (a debug build panics).
abbrev pub sum_unspent : MemState → ℤ
sum_unspent s = wrap_i64 (sum_amounts (unspent s.outputs))

abbrev pub or_zero : Option ℕ → ℕ
or_zero none = 0
or_zero (some n) = n

abbrev pub get_depth : Text → MemState → ℕ
get_depth chain s = or_zero (lookup chain s.depths)

abbrev pub set_depth : Text → ℕ → MemState → MemState
set_depth chain depth s = record s { depths = insert chain depth s.depths }

-- `clear_all` keeps the depths.
abbrev pub clear_all : MemState → MemState
clear_all s = record s { meta = []; outputs = []; spent_hashes = [] }
