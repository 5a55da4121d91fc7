-- ===== src/Tests/Wallets.antt =====
-- Runs of the wallet's operations (src/wallet) on small stores, and the theorems about them there.
use webylib.Prelude.{ℕ, ◌+◌, ◌≡◌, ◌≢◌, refl, ap, false, List, [], ◌∷◌, ◌++◌, arith, replicate}
use webylib.Prelude.Int.{pos, ◌+ℤ◌, int_laws, saturate, wrap_i64}
use webylib.Prelude.Text.{Text, codes, beq, as_bytes}
use webylib.Fault.{Result, ok, err}
use webylib.Amount.{from_wats, add, sub, add_assign}
use webylib.Amount.Print.{to_string_with_decimals}
use webylib.Crypto.{pay, as_str, derive_secret, derive_preimage, be_bytes, as_u64}
use webylib.Prelude.Assoc.{lookup, insert}
use webylib.Wallet.Inputs.{select_inputs, select_rows, total_amount, spend_inputs}
use webylib.Webcash.{SecretWebcash, secret_to_string}
use webylib.Store.State
use webylib.Store.State.{
  MemState, MemOutput, new_mem_state, fresh, mark_first, sort_desc, insert_sorted, unspent,
  sum_amounts,
}
use webylib.Store.Mem.{mem_store, insert_output}
use webylib.Store.Laws.Backends.{mem_store-laws}
use webylib.Server.{Server}
use webylib.Wallet.{
  World, Env, hash_of, hd_wallet, get_or_generate_master_secret, or_generate, generate,
  validate_master_secret, check_length, read_chain_depth,
}
use webylib.Wallet.Sound.{IsSound}
use webylib.Wallet.Pay.{pay_amount, pay_with, settle_payment, settle, store_change, count_change}
use webylib.Wallet.Effects.{IsMaster}
use webylib.Wallet.Pay.Balance.{pay_amount-balance, pay_amount-message}
use webylib.Wallet.{list_webcash}
use webylib.Wallet.Merge.{merge, merge_inputs, merge_into, consolidate}
use webylib.Wallet.Merge.Balance.{merge-balance}
use webylib.Wallet.Insert.{insert_with_validation, received, store_received}
use webylib.Wallet.Insert.Balance.{insert_with_validation-balance}
use webylib.Store.Laws.Outputs.{balance}
use webylib.Tests.Hex.{plain_crypto, no_floats}

-- A server that accepts every replacement.
abbrev pub willing : Server (Unit {0})
willing = record {
  replace = λ request v. (ok (record { status = codes "success" }), v);
  health_check = λ publics v. (ok (record { status = codes "success"; results = [] }), v);
}

abbrev pub env : Env
env = record { crypto = plain_crypto; generated = ok (replicate 32 7) }

abbrev five : MemOutput
five = fresh (hash_of env (codes "a")) (codes "a") (pos 5)

abbrev three : MemOutput
three = fresh (hash_of env (codes "b")) (codes "b") (pos 3)

abbrev pub start : World MemState (Unit {0})
start = record { disk = record new_mem_state { outputs = five ∷ three ∷ [] }; server = tt }

abbrev first : List ℕ → ℕ
first [] = 0
first (n ∷ ns) = n

other_digests : three.secret_hash ≢ five.secret_hash
unfolding as_bytes
other_digests e = let e' = ap first e in omega arith

pub start-IsSound : IsSound env start.disk.outputs
start-IsSound = record {
  distinct = ((λ e. other_digests e, tt), (tt, tt));
  hashed = (refl, (refl, tt));
  nonneg = (omega arith, (omega arith, tt));
  fits = omega int_laws;
}

abbrev paid : Result Text × World MemState (Unit {0})
paid = pay_amount mem_store willing env (from_wats (pos 6)) start

abbrev text_of : Result Text → Text
text_of (ok s) = s
text_of (err e) = []

paid_ok : pay_amount mem_store willing env (from_wats (pos 6)) start ≡ (ok (text_of paid.0), paid.1)
unfolding pay_amount hd_wallet get_or_generate_master_secret or_generate generate
    validate_master_secret check_length select_inputs select_rows add_assign pay_with total_amount
    add sub read_chain_depth settle_payment as_str derive_secret settle spend_inputs store_change
    count_change mark_first insert_output lookup insert beq as_bytes secret_to_string
    to_string_with_decimals sort_desc insert_sorted unspent saturate derive_preimage be_bytes as_u64
    wrap_i64 sum_amounts
paid_ok = refl

-- Two outputs of 5 and 3 pay 6: both are spent and 2 comes back as change.
pay_runs : State.sum_unspent paid.1.disk ≡ pos 2
unfolding pay_amount hd_wallet get_or_generate_master_secret or_generate generate
    validate_master_secret check_length select_inputs select_rows add_assign pay_with total_amount
    add sub read_chain_depth settle_payment as_str derive_secret settle spend_inputs store_change
    count_change mark_first insert_output lookup insert beq as_bytes secret_to_string
    to_string_with_decimals sort_desc insert_sorted unspent saturate derive_preimage be_bytes as_u64
    wrap_i64 sum_amounts
pay_runs = refl

pay_amount-balance_example : State.sum_unspent paid.1.disk +ℤ pos 6 ≡ State.sum_unspent start.disk
pay_amount-balance_example =
    pay_amount-balance mem_store-laws willing env (from_wats (pos 6)) start paid.1 start-IsSound
      (omega arith) paid_ok

pay_amount-message_example :
    (master : List ℕ) × IsMaster env start.disk master
    × (text_of paid.0
        ≡ codes "Payment completed! Send this webcash to recipient: "
          ++ secret_to_string (record {
            secret = derive_secret env.crypto master pay (State.get_depth (as_str pay) start.disk);
            amount = from_wats (pos 6);
          }))
    × (State.get_depth (as_str pay) paid.1.disk ≡ State.get_depth (as_str pay) start.disk + 1)
pay_amount-message_example =
    pay_amount-message mem_store-laws willing env (from_wats (pos 6)) start paid.1 start-IsSound
      (omega arith) paid_ok

abbrev merged : Result Text × World MemState (Unit {0})
merged = merge mem_store willing env 20 start

merged_ok : merge mem_store willing env 20 start ≡ (ok (text_of merged.0), merged.1)
unfolding merge merge_inputs merge_into consolidate list_webcash hd_wallet
    get_or_generate_master_secret or_generate generate validate_master_secret check_length
    add_assign total_amount add read_chain_depth as_str derive_secret spend_inputs mark_first
    insert_output lookup insert beq as_bytes secret_to_string to_string_with_decimals sort_desc
    insert_sorted unspent saturate derive_preimage be_bytes as_u64 wrap_i64 sum_amounts
merged_ok = refl

merge-balance_example : State.sum_unspent merged.1.disk ≡ State.sum_unspent start.disk
merge-balance_example =
    merge-balance mem_store-laws willing env 20 start merged.1 start-IsSound merged_ok

abbrev gift : SecretWebcash
gift = record { secret = codes "c"; amount = from_wats (pos 4) }

abbrev inserted : Result (Unit {0}) × World MemState (Unit {0})
inserted = insert_with_validation mem_store willing env no_floats gift false start

inserted_ok :
    insert_with_validation mem_store willing env no_floats gift false start ≡ (ok tt, inserted.1)
unfolding insert_with_validation received store_received hd_wallet get_or_generate_master_secret
    or_generate generate validate_master_secret check_length read_chain_depth as_str derive_secret
    mark_first insert_output lookup insert beq as_bytes secret_to_string to_string_with_decimals
    sort_desc insert_sorted unspent saturate derive_preimage be_bytes as_u64 wrap_i64 sum_amounts
inserted_ok = refl

insert_with_validation-balance_example :
    balance inserted.1.disk.outputs ≡ balance start.disk.outputs +ℤ pos 4
insert_with_validation-balance_example =
    insert_with_validation-balance mem_store-laws willing env no_floats gift false start inserted.1
      inserted_ok
