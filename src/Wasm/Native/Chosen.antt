-- ===== src/Wasm/Native/Chosen.antt =====
-- What a prepared payment of the browser's wallet (crates/webylib-wasm/src/wallet.rs) has chosen, in the
-- terms of the native wallet.
use webylib.Prelude.{
  ◌≡◌, refl, sym, ap, subst, ◌∙◌, false, Option, some, List, [], ◌∷◌, map, take, All, All-take,
  arith,
}
use webylib.Prelude.Int.{ℤ, pos, ◌-ℤ◌, ◌≤ℤ◌, int_laws, wrap_i64, InI64}
use webylib.Prelude.Text.{Text, codes}
use webylib.Fault.{ok}
use webylib.Amount.{from_wats, zero_amount, sub}
use webylib.Amount.Arith.{sub_exact}
use webylib.Crypto
use webylib.Crypto.{Bytes, pay, change, as_str, as_u64}
use webylib.Webcash.{SecretWebcash, secret_to_string}
use webylib.Store.State
use webylib.Store.State.{MemState, MemOutput}
use webylib.Store.Laws.{Distinct}
use webylib.Store.Laws.Outputs
use webylib.Store.Laws.Rows.{Row, sum_rows, Holds, get_unspent-Holds}
use webylib.Wallet.{Env, hash_of, webcash_of_row, validate_master_secret}
use webylib.Wallet.Sound.{rows-nonneg}
use webylib.Wallet.Inputs.{select_rows, enough, total_amount}
use webylib.Wallet.Inputs.Selection.{total_amount-rows}
use webylib.Wallet.Pay.{is_nil}
use webylib.Wasm.State.{
  Output, WalletState, WalletResult, ReplaceEffect, replace, unspent, get_depth, derive,
}
use webylib.Wasm.Replace.{select, sort_desc, payment_effect, wallet_prepare_pay}
use webylib.Wasm.Replace.View.{Tells, viewed}
use webylib.Wasm.Replace.Sound.{IsSound, self, rows_in, viewed-nonneg, viewed-IsHashed}
use webylib.Wasm.Replace.Inputs.{Inputs, store_of, select-Inputs}
use webylib.Wasm.Replace.Balance.{
  effect_of, pay_with-Prepared, IsChange, pending_change-IsChange, change-Exact,
}
use webylib.Wasm.Native.Strings.{derive_secret-native, format_webcash-to_string}
use webylib.Wasm.Native.Tell.{inputs_tell}

some_input : (rows : List Row) → pos 1 ≤ℤ sum_rows rows → is_nil (map webcash_of_row rows) ≡ false
some_input [] h = absurd (omega arith)
some_input (r ∷ rows) h = refl

enough_for :
    (amount total : ℤ) (selected : List SecretWebcash)
    → amount ≤ℤ total
    → enough (from_wats amount) (selected, from_wats total) ≡ ok selected
enough_for amount total selected h = ground arith

-- What is left of the inputs' total.
left_over :
    (s : WalletState) (amount : ℤ) (out : List Text × ℤ)
    → IsSound s
    → (i : Inputs s amount out)
    → InI64 (sum_rows (take i.count (State.get_unspent (store_of s))) -ℤ amount)
    → sub
        (total_amount (map webcash_of_row (take i.count (State.get_unspent (store_of s)))))
        (from_wats amount)
      ≡ from_wats (sum_rows (take i.count (State.get_unspent (store_of s))) -ℤ amount)
left_over s amount out v i in_range =
    let rows = State.get_unspent (store_of s) in
    let taken = take i.count rows in
    let bounded = i.bounded in
    let fits = v.fits in
    ap (λ t. sub t (from_wats amount))
      (total_amount-rows taken
        (All-take (λ (r : Row). pos 0 ≤ℤ r.1) i.count rows
          (rows-nonneg (store_of s) (viewed-nonneg s.outputs v.nonneg)))
        (omega int_laws))
    ∙ sub_exact (from_wats (sum_rows taken)) (from_wats amount) in_range

-- The inputs, the change and the master secret of a payment that was prepared.
pub record Chosen (env : Env) (s : WalletState) (amount : ℤ) (timestamp : Text) (r : WalletResult)
    (e : ReplaceEffect) : Type 0 where
  pub rows : List Row
  pub left : ℤ
  pub master : Bytes
  pub change : Option Output
  pub pay_secret : Text
  pub is_enough :
      enough
        (from_wats amount)
        (select_rows (from_wats amount) (State.get_unspent (store_of s)) [] zero_amount)
      ≡ ok (map webcash_of_row rows)
  pub has_input : is_nil (map webcash_of_row rows) ≡ false
  pub held : Holds self (rows_in s) rows
  pub tells : All (λ (q : Row). Tells (hash_of env) q.0 s.outputs) rows
  pub rest : sub (total_amount (map webcash_of_row rows)) (from_wats amount) ≡ from_wats left
  pub is_change : IsChange env s left timestamp change
  pub valid : validate_master_secret env s.master_secret ≡ ok master
  pub derived : pay_secret ≡ Crypto.derive_secret env.crypto master pay (get_depth (codes "PAY") s)
  pub effect : payment_effect env s amount (map (λ (q : Row). q.0) rows) pay_secret change ≡ e
  pub message :
      r.message
      ≡ some (secret_to_string (record { secret = pay_secret; amount = from_wats amount }))

pub wallet_prepare_pay-Chosen :
    (env : Env) (s : WalletState) (amount : ℤ) (timestamp : Text) (r : WalletResult)
    (e : ReplaceEffect)
    → IsSound s
    → Distinct (map (viewed (hash_of env)) s.outputs)
    → pos 1 ≤ℤ amount
    → wallet_prepare_pay env s amount timestamp ≡ ok r
    → WalletResult.effect r ≡ some (replace e)
    → Chosen env s amount timestamp r e
unfolding wallet_prepare_pay derive as_u64
wallet_prepare_pay-Chosen env s amount timestamp r e v apart positive h k =
    let out = select amount (sort_desc (unspent s.outputs)) [] (pos 0) in
    let p = pay_with-Prepared env s amount timestamp out h in
    let i = select-Inputs amount s v in
    let taken = take i.count (State.get_unspent (store_of s)) in
    let exact = change-Exact env s amount out v (omega arith) i p.covers in
    let covers = exact.covers in
    let (master, valid, native) =
      derive_secret-native env pay (get_depth (codes "PAY") s) s.master_secret p.derived in
    record {
      rows = taken;
      left = sum_rows taken -ℤ amount;
      master = master;
      change = p.change;
      pay_secret = p.pay_secret;
      is_enough =
          ap (enough (from_wats amount)) i.native
          ∙ enough_for amount (sum_rows taken) (map webcash_of_row taken) covers;
      has_input = some_input taken (omega int_laws);
      held =
          All-take (λ (q : Row). Outputs.available q.0 (rows_in s) ≡ some q.1) i.count
            (State.get_unspent (store_of s))
            (get_unspent-Holds self (store_of s) v.distinct (viewed-IsHashed s.outputs));
      tells = inputs_tell (hash_of env) i.count s apart;
      rest = left_over s amount out v i exact.in_range;
      is_change =
          subst (λ t. IsChange env s t timestamp p.change) exact.change
            (pending_change-IsChange env s (wrap_i64 (out.1 -ℤ amount)) timestamp p.pending);
      valid = valid;
      derived = native;
      effect =
          ap (λ ss. payment_effect env s amount ss p.pay_secret p.change) (sym i.selected)
          ∙ effect_of (ap WalletResult.effect p.result ∙ k);
      message =
          ap WalletResult.message (sym p.result)
          ∙ ap some (format_webcash-to_string p.pay_secret amount);
    }
