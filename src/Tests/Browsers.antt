-- ===== src/Tests/Browsers.antt =====
-- A small state of the browser's wallet (crates/webylib-wasm/src/wallet.rs): a payment, a merge, a
-- snapshot, and the native wallet beside it; and the theorems about them there.
use webylib.Prelude.{
  ℕ, ◌≡◌, ◌≢◌, refl, ap, true, Option, none, some, List, [], ◌∷◌, ◌++◌, map, replicate, arith,
}
use webylib.Prelude.Int.{pos, ◌+ℤ◌, ◌-ℤ◌, int_laws, wrap_i64}
use webylib.Prelude.Text.{Text, codes, beq, as_bytes, len}
use webylib.Prelude.Assoc.{lookup}
use webylib.Fault.{Result, ok, err}
use webylib.Amount.{from_wats}
use webylib.Crypto.{Crypto, be_bytes}
use webylib.Server.{ReplaceResponse}
use webylib.Store.State.{MemState}
use webylib.Store.Mem.{mem_store}
use webylib.Store.Laws.{Distinct}
use webylib.Wallet.{World, hash_of, master_secret_key}
use webylib.Wallet.Pay.{pay_amount, is_success}
use webylib.Wasm.{derive_secret, derive_from}
use webylib.Wasm.State.{
  WalletState, WalletResult, ReplaceEffect, Effect, replace, balance, unspent, sum_amounts, derive,
  new_state, choose_master, wallet_create,
}
use webylib.Wasm.Replace.{
  new_output, select, insert_sorted, sort_desc, pending_change, pay_with, wallet_prepare_pay,
  merge_into, wallet_prepare_merge, wallet_apply_replace,
}
use webylib.Wasm.Mining.{wallet_store_mined}
use webylib.Wasm.Snapshot.{wallet_export_snapshot, wallet_import_snapshot}
use webylib.Wasm.Replace.View.{viewed}
use webylib.Wasm.Replace.Sound.{IsSound}
use webylib.Wasm.Replace.Balance.{wallet_prepare_pay-balance}
use webylib.Wasm.Replace.Merge.{wallet_prepare_merge-balance}
use webylib.Wasm.Reach.{Reach, created, next, mined, replaced, merge}
use webylib.Wasm.Reach.Consistent.{IsConsistent}
use webylib.Wasm.Reach.Steps.{Reach-IsConsistent}
use webylib.Wasm.Reach.Backup.{wallet_import_snapshot-export}
use webylib.Wasm.Native.{Agree}
use webylib.Wasm.Native.Spend.{HashLaws}
use webylib.Wasm.Native.Pay.{pay_amount-Agree}
use webylib.Wasm.Native.Effect.{IsUnstored}
use webylib.Tests.Hex.{plain_crypto, plain_crypto-laws, digest_bytes}
use webylib.Tests.Wallets.{env, start, start-IsSound, willing}
use webylib.Wallet.Sound

abbrev master : Text
master = Crypto.hex_encode plain_crypto (replicate 32 7)

abbrev state : WalletState
state = record (new_state env master) {
  outputs = new_output env (codes "a") (pos 5) [] ∷ new_output env (codes "b") (pos 3) [] ∷ [];
}

abbrev first : List ℕ → ℕ
first [] = 0
first (n ∷ ns) = n

other_secrets : codes "b" ≢ codes "a"
other_secrets e = let e' = ap first e in omega arith

state-IsSound : IsSound state
state-IsSound = record {
  distinct = ((λ e. other_secrets e, tt), (tt, tt));
  nonneg = (omega arith, (omega arith, tt));
  fits = omega int_laws;
}

abbrev result_of : Result WalletResult → WalletResult
result_of (ok r) = r
result_of (err e) = record { state = state; effect = none; message = none; error = none }

abbrev nothing : ReplaceEffect
nothing = record {
  webcashes = [];
  new_webcashes = [];
  pending_output = none;
  depth_updates = [];
  mark_spent = [];
}

abbrev effect_in : Option Effect → ReplaceEffect
effect_in (some (replace e)) = e
effect_in _ = nothing

abbrev payment : WalletResult
payment = result_of (wallet_prepare_pay env state (pos 6) [])

abbrev asked : ReplaceEffect
asked = effect_in payment.effect

payment_ok : wallet_prepare_pay env state (pos 6) [] ≡ ok payment
unfolding wallet_prepare_pay pay_with pending_change select sort_desc insert_sorted unspent wrap_i64
    ◌+ℤ◌ ◌-ℤ◌ derive derive_secret derive_from be_bytes
payment_ok = refl

payment_effect : payment.effect ≡ some (replace asked)
unfolding wallet_prepare_pay pay_with pending_change select sort_desc insert_sorted unspent wrap_i64
    ◌+ℤ◌ ◌-ℤ◌ derive derive_secret derive_from be_bytes
payment_effect = refl

wallet_prepare_pay-balance_example :
    balance (WalletResult.state (wallet_apply_replace env state (replace asked) true)) +ℤ pos 6
    ≡ balance state
wallet_prepare_pay-balance_example =
    wallet_prepare_pay-balance env state (pos 6) [] payment asked state-IsSound (omega arith)
      payment_ok payment_effect

abbrev merging : WalletResult
merging = result_of (wallet_prepare_merge env state 20 [])

abbrev merged : ReplaceEffect
merged = effect_in merging.effect

merging_ok : wallet_prepare_merge env state 20 [] ≡ ok merging
unfolding wallet_prepare_merge merge_into unspent sum_amounts wrap_i64 ◌+ℤ◌ derive derive_secret
    derive_from be_bytes
merging_ok = refl

merging_effect : merging.effect ≡ some (replace merged)
unfolding wallet_prepare_merge merge_into unspent sum_amounts wrap_i64 ◌+ℤ◌ derive derive_secret
    derive_from be_bytes
merging_effect = refl

wallet_prepare_merge-balance_example :
    balance (WalletResult.state (wallet_apply_replace env state (replace merged) true))
    ≡ balance state
wallet_prepare_merge-balance_example =
    wallet_prepare_merge-balance env state 20 [] merging merged state-IsSound merging_ok
      merging_effect

-- A new wallet into which two outputs were mined, which were then merged.
abbrev empty : WalletResult
empty = result_of (wallet_create env (some master))

empty_ok : wallet_create env (some master) ≡ ok empty
unfolding wallet_create choose_master len
empty_ok = refl

abbrev once : WalletState
once = WalletResult.state (wallet_store_mined env empty.state (codes "a") (pos 5) [])

abbrev twice : WalletState
twice = WalletResult.state (wallet_store_mined env once (codes "b") (pos 3) [])

abbrev joined : WalletState
joined = WalletResult.state (wallet_apply_replace env twice (replace merged) true)

joined-Reach : Reach env joined
joined-Reach =
    next twice
      (next once
        (next empty.state (created (some master) empty empty_ok refl)
          (mined (codes "a") (pos 5) [] refl))
        (mined (codes "b") (pos 3) [] refl))
      (replaced (replace merged) true (merge state 20 [] merging merging_ok merging_effect) refl)

Reach-IsConsistent_example : IsConsistent env joined
Reach-IsConsistent_example = Reach-IsConsistent env joined joined-Reach

wallet_import_snapshot-export_example :
    WalletResult.state (wallet_import_snapshot env (wallet_export_snapshot joined))
    ≡ record joined { outputs = unspent joined.outputs }
wallet_import_snapshot-export_example = wallet_import_snapshot-export env joined joined-Reach

-- The native wallet with the same outputs.
abbrev twin : World MemState (Unit {0})
twin = record start { disk = record (start.disk) { meta = (master_secret_key, master) ∷ [] } }

twin-Agree : Agree env state twin.disk
unfolding lookup beq
twin-Agree = record {
  master = refl;
  outputs = refl;
  spent = refl;
  bytes = tt;
  depths = λ chain. refl;
}

laws : HashLaws env
laws = record { hex = plain_crypto-laws; digest_bytes = digest_bytes }

apart : Distinct (map (viewed (hash_of env)) state.outputs)
apart = Sound.IsSound.distinct start-IsSound

abbrev answer : ReplaceResponse
answer = record { status = codes "success" }

accepted : is_success answer ≡ true
unfolding beq
accepted = refl

unstored : IsUnstored env asked.pending_output twin.disk
unfolding wallet_prepare_pay pay_with pending_change select sort_desc insert_sorted unspent wrap_i64
    ◌+ℤ◌ ◌-ℤ◌ derive derive_secret derive_from be_bytes as_bytes lookup beq
unstored = refl

pay_amount-Agree_example :
    (w' : World MemState (Unit {0})) × (text : Text) × (payment.message ≡ some text)
    × (pay_amount mem_store willing env (from_wats (pos 6)) twin
        ≡ (ok (codes "Payment completed! Send this webcash to recipient: " ++ text), w'))
    × Agree env (WalletResult.state (wallet_apply_replace env state (replace asked) true)) w'.disk
pay_amount-Agree_example =
    pay_amount-Agree env laws willing state twin twin-Agree (pos 6) [] payment asked answer tt
      state-IsSound apart (omega arith) payment_ok payment_effect unstored refl accepted
