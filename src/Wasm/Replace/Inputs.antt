-- ===== src/Wasm/Replace/Inputs.antt =====
-- The inputs that a payment of the browser's wallet takes (crates/webylib-wasm/src/wallet.rs): the first
-- rows of a native store with the same outputs.
use webylib.Prelude.{ℕ, ◌≡◌, refl, sym, ap, subst, ◌∙◌, List, [], ◌∷◌, map, All, take, arith}
use webylib.Prelude.Int.{ℤ, pos, ◌+ℤ◌, ◌≤ℤ◌, max_i64, zero-+ℤ}
use webylib.Prelude.Text.{Text}
use webylib.Amount.{from_wats, zero_amount}
use webylib.Wallet.{webcash_of_row}
use webylib.Wallet.Inputs.{select_rows}
use webylib.Wallet.Inputs.Selection.{select_rows-Selected, sum_rows-take}
use webylib.Wallet.Sound.{rows-nonneg}
use webylib.Store.State
use webylib.Store.State.{MemState, MemOutput, new_mem_state}
use webylib.Store.Laws.Outputs
use webylib.Store.Laws.Rows.{Row, sum_rows, get_unspent-balance}
use webylib.Wasm.State.{WalletState, unspent}
use webylib.Wasm.Replace.{select, sort_desc}
use webylib.Wasm.Replace.View.{row_of, row_of-unspent}
use webylib.Wasm.Replace.Selection.{as_secrets, secrets_of, select-select_rows}
use webylib.Wasm.Replace.Sound.{IsSound, self, rows_in, viewed-nonneg, viewed-IsHashed}

-- A native store with the outputs of the browser's wallet.
abbrev pub store_of : WalletState → MemState
store_of s = record new_mem_state { outputs = rows_in s }

-- The inputs of a payment: a front part of the rows, with its sum.
pub record Inputs (s : WalletState) (amount : ℤ) (out : List Text × ℤ) : Type 0 where
  pub count : ℕ
  pub selected : out.0 ≡ map (λ (r : Row). r.0) (take count (State.get_unspent (store_of s)))
  pub total : out.1 ≡ sum_rows (take count (State.get_unspent (store_of s)))
  pub native : select_rows (from_wats amount) (State.get_unspent (store_of s)) [] zero_amount ≡ (
    map webcash_of_row (take count (State.get_unspent (store_of s))),
    from_wats (sum_rows (take count (State.get_unspent (store_of s)))),
  )
  pub bounded :
      sum_rows (take count (State.get_unspent (store_of s))) ≤ℤ Outputs.balance (rows_in s)

secrets_of-rows :
    (rows : List Row) → secrets_of (map webcash_of_row rows) ≡ map (λ (r : Row). r.0) rows
secrets_of-rows [] = refl
secrets_of-rows (r ∷ rows) = ap (λ ss. r.0 ∷ ss) (secrets_of-rows rows)

pub select-Inputs :
    (amount : ℤ) (s : WalletState)
    → IsSound s
    → Inputs s amount (select amount (sort_desc (unspent s.outputs)) [] (pos 0))
select-Inputs amount s v =
    let rows = State.get_unspent (store_of s) in
    let hashed = viewed-IsHashed s.outputs in
    let same : map row_of (sort_desc (unspent s.outputs)) ≡ rows = row_of-unspent self s.outputs in
    let good = rows-nonneg (store_of s) (viewed-nonneg s.outputs v.nonneg) in
    let all : sum_rows rows ≡ Outputs.balance (rows_in s) =
      get_unspent-balance self (store_of s) v.distinct hashed in
    let fits : pos 0 +ℤ sum_rows rows ≤ℤ pos max_i64 =
      subst (λ t. t ≤ℤ pos max_i64) (sym (zero-+ℤ (sum_rows rows) ∙ all)) v.fits in
    let agrees =
      select-select_rows (from_wats amount) (sort_desc (unspent s.outputs)) [] (pos 0)
        (subst (All (λ (r : Row). pos 0 ≤ℤ r.1)) (sym same) good) (omega arith)
        (subst (λ rs. pos 0 +ℤ sum_rows rs ≤ℤ pos max_i64) (sym same) fits)
      ∙ ap (λ rs. as_secrets (select_rows (from_wats amount) rs [] zero_amount)) same in
    let chosen =
      select_rows-Selected (from_wats amount) rows [] zero_amount good (omega arith) fits in
    let taken = take chosen.count rows in
    record {
      count = chosen.count;
      selected =
          ap (λ (p : List Text × ℤ). p.0) agrees
          ∙ ap secrets_of chosen.selected
          ∙ secrets_of-rows taken;
      total =
          ap (λ (p : List Text × ℤ). p.1) agrees
          ∙ ap (λ a. a.wats) chosen.sum
          ∙ zero-+ℤ (sum_rows taken);
      native = λ i. (chosen.selected i, (chosen.sum ∙ ap from_wats (zero-+ℤ (sum_rows taken))) i);
      bounded = subst (λ t. sum_rows taken ≤ℤ t) all (sum_rows-take chosen.count rows good).1;
    }
