-- ===== src/Wasm/Replace/Merge.antt =====
-- What merging in the browser's wallet (`wallet_prepare_merge`, crates/webylib-wasm/src/wallet.rs)
-- does to its balance.
use webylib.Prelude.{
  ℕ, zero, suc, ◌≡◌, refl, sym, ap, subst, ◌∙◌, true, some, List, [], ◌∷◌, map, take, All-take,
  length, leb, arith,
}
use webylib.Prelude.Int.{
  pos, ◌+ℤ◌, ◌≤ℤ◌, int_laws, wrap_i64, wrap_i64_in_range, nonneg_in_range, +ℤ-zero,
}
use webylib.Prelude.Text.{Text, codes}
use webylib.Fault.{ok, >>=-eq-ok}
use webylib.Wallet.{Env}
use webylib.Wallet.Inputs.Selection.{sum_rows-take}
use webylib.Wallet.Sound.{rows_of-nonneg, balance-nonneg}
use webylib.Store.State.{secret_and_amount}
use webylib.Store.Laws.Outputs
use webylib.Store.Laws.Rows.{
  Row, sum_rows, rows_of, sum_rows-of, DistinctRows-take, DistinctRows-rows_of, Holds-rows_of,
}
use webylib.Wasm.{js_error}
use webylib.Wasm.State.{
  Output, WalletState, WalletResult, ReplaceEffect, replace, unspent, sum_amounts, balance, derive,
  get_depth,
}
use webylib.Wasm.Replace.{
  settle, apply_effect, wallet_apply_replace, merge_into, wallet_prepare_merge,
}
use webylib.Wasm.Replace.View.{row_of, viewed-unspent, rows-viewed}
use webylib.Wasm.Replace.Sound.{
  IsSound, self, rows_in, viewed-nonneg, viewed-IsHashed, worth, settle-balance,
}
use webylib.Wasm.Replace.Balance.{effect_of, ok_injective, unguarded, lowered}

map-take : {A B : Type 0} (f : A → B) (n : ℕ) (xs : List A) → map f (take n xs) ≡ take n (map f xs)
map-take f zero xs = refl
map-take f (suc n) [] = refl
map-take f (suc n) (x ∷ xs) = ap (λ ys. f x ∷ ys) (map-take f n xs)

sum_rows-row_of : (os : List Output) → sum_rows (map row_of os) ≡ sum_amounts os
unfolding sum_amounts
sum_rows-row_of [] = refl
sum_rows-row_of (o ∷ os) = ap (λ z. o.amount +ℤ z) (sum_rows-row_of os)

secrets-row_of :
    (os : List Output) → map (λ (r : Row). r.0) (map row_of os) ≡ map (λ (o : Output). o.secret) os
secrets-row_of [] = refl
secrets-row_of (o ∷ os) = ap (λ ss. o.secret ∷ ss) (secrets-row_of os)

module _ (env : Env) where
  merge_into-parts :
      (s : WalletState) (to_merge : List Output) (timestamp : Text) {r : WalletResult}
      {e : ReplaceEffect}
      → merge_into env s to_merge timestamp ≡ ok r
      → WalletResult.effect r ≡ some (replace e)
      → (e.mark_spent ≡ map (λ (o : Output). o.secret) to_merge)
        × (worth e.pending_output ≡ wrap_i64 (sum_amounts to_merge))
  unfolding merge_into
  merge_into-parts s to_merge timestamp {r} {e} h k =
      let (secret, _, done) = >>=-eq-ok (derive env s 2 (get_depth (codes "CHANGE") s)) _ h in
      let p = effect_of (ap WalletResult.effect (ok_injective done) ∙ k) in
      (ap (λ f. f.mark_spent) (sym p), ap (λ f. worth f.pending_output) (sym p))

  -- Where a merge was prepared from a sound state and the server accepts it, the state's balance is
  -- the one from before.
  pub wallet_prepare_merge-balance :
      (s : WalletState) (max_outputs : ℕ) (timestamp : Text) (r : WalletResult) (e : ReplaceEffect)
      → IsSound s
      → wallet_prepare_merge env s max_outputs timestamp ≡ ok r
      → WalletResult.effect r ≡ some (replace e)
      → balance (WalletResult.state (wallet_apply_replace env s (replace e) true)) ≡ balance s
  unfolding wallet_prepare_merge wallet_apply_replace apply_effect
  wallet_prepare_merge-balance s max_outputs timestamp r e v h k =
      let to_merge = take max_outputs (unspent s.outputs) in
      let (_, h1) =
        unguarded (leb (length (unspent s.outputs)) 1) (js_error "Nothing to merge")
          (merge_into env s to_merge timestamp) h in
      let (marks, pending) = merge_into-parts s to_merge timestamp h1 k in
      let rows = rows_of (rows_in s) in
      let hashed = viewed-IsHashed s.outputs in
      let same : map row_of to_merge ≡ take max_outputs rows =
        map-take row_of max_outputs (unspent s.outputs)
        ∙ ap (take max_outputs) (
            sym (rows-viewed self (unspent s.outputs))
            ∙ ap (map secret_and_amount) (viewed-unspent self s.outputs)) in
      let taken = take max_outputs rows in
      let all : sum_rows rows ≡ Outputs.balance (rows_in s) = sum_rows-of (rows_in s) in
      let (at_least_zero, at_most) =
        sum_rows-take max_outputs rows
          (rows_of-nonneg (rows_in s) (viewed-nonneg s.outputs v.nonneg)) in
      let bounded : sum_rows taken ≤ℤ Outputs.balance (rows_in s) =
        subst (λ t. sum_rows taken ≤ℤ t) all at_most in
      let fits = v.fits in
      let total : sum_amounts to_merge ≡ sum_rows taken =
        sym (sum_rows-row_of to_merge) ∙ ap sum_rows same in
      let come : worth e.pending_output ≡ sum_rows taken =
        pending
        ∙ ap wrap_i64 total
        ∙ wrap_i64_in_range (sum_rows taken)
            (nonneg_in_range (sum_rows taken) at_least_zero (omega int_laws)) in
      let settled =
        settle-balance env e taken s
          (marks ∙ sym (secrets-row_of to_merge) ∙ ap (map (λ (q : Row). q.0)) same)
          (DistinctRows-take self max_outputs rows
            (DistinctRows-rows_of self (rows_in s) v.distinct hashed))
          (All-take (λ (q : Row). Outputs.available q.0 (rows_in s) ≡ some q.1) max_outputs rows
            (Holds-rows_of self (rows_in s) v.distinct hashed)) in
      let kept : Outputs.balance (rows_in (settle env e s)) +ℤ pos 0 ≡ Outputs.balance (rows_in s) =
        grind (int_laws, settled, come) in
      let nonneg = balance-nonneg (rows_in s) (viewed-nonneg s.outputs v.nonneg) in
      let rest = subst (λ t. pos 0 ≤ℤ t) (sym kept) nonneg in
      sym (+ℤ-zero (balance (settle env e s)))
      ∙ lowered s (settle env e s) (pos 0) v (omega arith) (omega int_laws) kept
