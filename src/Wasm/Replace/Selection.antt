-- ===== src/Wasm/Replace/Selection.antt =====
-- The browser's wallet (crates/webylib-wasm/src/wallet.rs) takes the inputs that the native wallet's
-- `select_inputs` takes (src/wallet/operations.rs), and marks the same outputs.
use webylib.Prelude.{◌≡◌, refl, ap, ◌∙◌, List, [], ◌∷◌, ◌++◌, map, All, Bool-cases, inl, inr}
use mathlib.Core.List.{map-append}
use webylib.Prelude.Int.{
  ℤ, pos, ◌+ℤ◌, ◌≤ℤ◌, int_laws, max_i64, leb_ℤ, wrap_i64_in_range, nonneg_in_range,
}
use webylib.Prelude.Text.{Text, beq}
use webylib.Crypto.{Bytes}
use webylib.Amount.{Amount, from_wats}
use webylib.Webcash.{SecretWebcash}
use webylib.Wallet.{Env, webcash_of_row}
use webylib.Wallet.Inputs.{select_rows}
use webylib.Wallet.Inputs.Selection.{IsNonnegative, add_assign-exact, sum_rows-nonneg}
use webylib.Store.Laws.Rows.{Row, sum_rows, mark_rows}
use webylib.Wasm.State.{Output, WalletState}
use webylib.Wasm.Replace.{select, mark_output, mark_all}
use webylib.Wasm.Replace.View.{row_of, viewed, Tells, viewed-mark_output}

abbrev pub secrets_of : List SecretWebcash → List Text
secrets_of = map (λ wc. wc.secret)

-- What `select_inputs` selects, as the browser's wallet keeps it.
abbrev pub as_secrets : List SecretWebcash × Amount → List Text × ℤ
as_secrets (selected, total) = (secrets_of selected, total.wats)

module _ (amount : Amount) where
  pub select-select_rows :
      (os : List Output) (before : List SecretWebcash) (total : ℤ)
      → IsNonnegative (map row_of os)
      → pos 0 ≤ℤ total
      → total +ℤ sum_rows (map row_of os) ≤ℤ pos max_i64
      → select amount.wats os (secrets_of before) total
        ≡ as_secrets (select_rows amount (map row_of os) before (from_wats total))
  unfolding select select_rows
  select-select_rows [] before total h ht fits = refl
  select-select_rows (o ∷ os) before total h ht fits =
      let rest = sum_rows-nonneg (map row_of os) h.1 in
      let here = h.0 in
      let native =
        (add_assign-exact (from_wats total) (from_wats o.amount) ht here (omega int_laws)).0 in
      let wrapped =
        wrap_i64_in_range (total +ℤ o.amount)
          (nonneg_in_range (total +ℤ o.amount) (omega int_laws) (omega int_laws)) in
      let wc = webcash_of_row (row_of o) in
      let taken : secrets_of (before ++ wc ∷ []) ≡ secrets_of before ++ o.secret ∷ [] =
        map-append (λ (w : SecretWebcash). w.secret) before (wc ∷ []) in
      rw native (
        rw wrapped (
          rw (← taken) (elim (Bool-cases (leb_ℤ amount.wats (total +ℤ o.amount))) [
            | inl enough ↦ rw enough refl
            | inr more ↦ rw more (
                select-select_rows os (before ++ wc ∷ []) (total +ℤ o.amount) h.1 (omega int_laws)
                  (omega int_laws))
          ])))

module _ (H : Text → Bytes) where
  Tells-mark_output :
      (k secret : Text) (os : List Output) → Tells H k os → Tells H k (mark_output secret os)
  unfolding mark_output
  Tells-mark_output k secret [] t = tt
  Tells-mark_output k secret (o ∷ os) t = elim (Bool-cases (beq o.secret secret)) [
    | inl same ↦ rw same t
    | inr other ↦ rw other (t.0, Tells-mark_output k secret os t.1)
  ]

  pub AllTell-mark_output :
      (secret : Text) (rows : List Row) (os : List Output)
      → All (λ (r : Row). Tells H r.0 os) rows
      → All (λ (r : Row). Tells H r.0 (mark_output secret os)) rows
  AllTell-mark_output secret [] os t = tt
  AllTell-mark_output secret (r ∷ rows) os t =
      (Tells-mark_output r.0 secret os t.0, AllTell-mark_output secret rows os t.1)

  pub viewed-mark_all :
      (env : Env) (rows : List Row) (s : WalletState)
      → All (λ (r : Row). Tells H r.0 s.outputs) rows
      → map (viewed H) (mark_all env (map (λ r. r.0) rows) s).outputs
        ≡ mark_rows H rows (map (viewed H) s.outputs)
  unfolding mark_all
  viewed-mark_all env [] s t = refl
  viewed-mark_all env (r ∷ rows) s t =
      viewed-mark_all env rows _ (AllTell-mark_output r.0 rows s.outputs t.1)
      ∙ ap (mark_rows H rows) (viewed-mark_output H r.0 s.outputs t.0)
