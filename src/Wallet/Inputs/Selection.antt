-- ===== src/Wallet/Inputs/Selection.antt =====
-- What `select_inputs` takes (src/wallet/operations.rs): the first rows of the store, in its
-- order, up to the one that reaches the amount.
use webylib.Prelude.{
  ℕ, zero, suc, ◌≡◌, refl, sym, ap, subst, ◌∙◌, List, [], ◌∷◌, ◌++◌, append_assoc, append-nil, map,
  foldl, take, All, arith, Bool-cases, inl, inr,
}
use webylib.Prelude.Int.{
  ℤ, pos, ◌+ℤ◌, ◌≤ℤ◌, int_laws, max_i64, +ℤ_assoc, zero-+ℤ, +ℤ-zero, saturate_in_range,
  nonneg_in_range,
}
use webylib.Fault.{ok}
use webylib.Amount.{Amount, from_wats, zero_amount, add, add_assign}
use webylib.Webcash.{SecretWebcash}
use webylib.Wallet.{webcash_of_row}
use webylib.Wallet.Inputs.{select_rows, enough, at_least, total_amount}
use webylib.Store.Laws.Rows.{Row, sum_rows}

abbrev pub IsNonnegative : List Row → Type 0
IsNonnegative = All (λ (r : Row). pos 0 ≤ℤ r.1)

-- Saturating sums of rows are exact while the exact sum fits.
pub add_assign-exact :
    (a b : Amount)
    → pos 0 ≤ℤ a.wats
    → pos 0 ≤ℤ b.wats
    → a.wats +ℤ b.wats ≤ℤ pos max_i64
    → (add_assign a b ≡ from_wats (a.wats +ℤ b.wats)) × (add a b ≡ from_wats (a.wats +ℤ b.wats))
unfolding add_assign add
add_assign-exact a b ha hb fits =
    let e =
      saturate_in_range (a.wats +ℤ b.wats)
        (nonneg_in_range (a.wats +ℤ b.wats) (omega int_laws) fits) in
    (rw e refl, rw e refl)

pub sum_rows-nonneg : (rows : List Row) → IsNonnegative rows → pos 0 ≤ℤ sum_rows rows
sum_rows-nonneg [] h = omega arith
sum_rows-nonneg (r ∷ rows) h = let ih = sum_rows-nonneg rows h.1 in let hr = h.0 in omega int_laws

pub sum_rows-take :
    (n : ℕ) (rows : List Row)
    → IsNonnegative rows
    → (pos 0 ≤ℤ sum_rows (take n rows)) × (sum_rows (take n rows) ≤ℤ sum_rows rows)
sum_rows-take zero rows h = (omega arith, sum_rows-nonneg rows h)
sum_rows-take (suc n) [] h = (omega arith, omega arith)
sum_rows-take (suc n) (r ∷ rows) h =
    let (a, b) = sum_rows-take n rows h.1 in let hr = h.0 in (omega int_laws, omega int_laws)

fold-exact :
    (rows : List Row) (acc : Amount)
    → IsNonnegative rows
    → pos 0 ≤ℤ acc.wats
    → acc.wats +ℤ sum_rows rows ≤ℤ pos max_i64
    → foldl (λ a wc. add a wc.amount) acc (map webcash_of_row rows)
      ≡ from_wats (acc.wats +ℤ sum_rows rows)
fold-exact [] acc h hacc fits = ap from_wats (sym (+ℤ-zero acc.wats))
fold-exact (r ∷ rows) acc h hacc fits =
    let pos_rest = sum_rows-nonneg rows h.1 in
    let hr = h.0 in
    ap (λ a. foldl (λ b wc. add b wc.amount) a (map webcash_of_row rows))
      (add_assign-exact acc (from_wats r.1) hacc hr (omega int_laws)).1
    ∙ fold-exact rows (from_wats (acc.wats +ℤ r.1)) h.1 (omega int_laws) (omega int_laws)
    ∙ ap from_wats (+ℤ_assoc acc.wats r.1 (sum_rows rows))

-- The total that `pay` computes is the sum of the rows.
pub total_amount-rows :
    (rows : List Row)
    → IsNonnegative rows
    → sum_rows rows ≤ℤ pos max_i64
    → total_amount (map webcash_of_row rows) ≡ from_wats (sum_rows rows)
unfolding total_amount
total_amount-rows rows h fits =
    fold-exact rows zero_amount h (omega arith) (omega int_laws)
    ∙ ap from_wats (zero-+ℤ (sum_rows rows))

-- What the loop has selected, with the total so far.
pub record Selected (amount : Amount) (rows : List Row) (before : List SecretWebcash)
    (total : Amount) (out : List SecretWebcash × Amount) : Type 0 where
  pub count : ℕ
  pub selected : out.0 ≡ before ++ map webcash_of_row (take count rows)
  pub sum : out.1 ≡ from_wats (total.wats +ℤ sum_rows (take count rows))

pub select_rows-Selected :
    (amount : Amount) (rows : List Row) (before : List SecretWebcash) (total : Amount)
    → IsNonnegative rows
    → pos 0 ≤ℤ total.wats
    → total.wats +ℤ sum_rows rows ≤ℤ pos max_i64
    → Selected amount rows before total (select_rows amount rows before total)
unfolding select_rows
select_rows-Selected amount [] before total h ht fits = record {
  count = 0;
  selected = sym (append-nil before);
  sum = ap from_wats (sym (+ℤ-zero total.wats));
}
select_rows-Selected amount (r ∷ rows) before total h ht fits =
    let pos_rest = sum_rows-nonneg rows h.1 in
    let hr = h.0 in
    let exact = (add_assign-exact total (from_wats r.1) ht hr (omega int_laws)).0 in
    let total' : Amount = from_wats (total.wats +ℤ r.1) in
    let later =
      select_rows-Selected amount rows (before ++ webcash_of_row r ∷ []) total' h.1 (omega int_laws)
        (omega int_laws) in
    rw exact (elim (Bool-cases (at_least total' amount)) [
      | inl here ↦ rw here (record {
        count = 1;
        selected = refl;
        sum = ap from_wats (sym (ap (◌+ℤ◌ total.wats) (+ℤ-zero r.1)));
      })
      | inr more ↦ rw more (record {
        count = suc later.count;
        selected =
            later.selected
            ∙ append_assoc before (webcash_of_row r ∷ [])
                (map webcash_of_row (take later.count rows));
        sum = later.sum ∙ ap from_wats (+ℤ_assoc total.wats r.1 (sum_rows (take later.count rows)));
      })
    ])

enough-ok :
    (amount : Amount) (out : List SecretWebcash × Amount) {inputs : List SecretWebcash}
    → enough amount out ≡ ok inputs
    → (inputs ≡ out.0) × (amount.wats ≤ℤ out.1.wats)
enough-ok amount (sel, total) h = ground arith

-- A selection is a front part of the rows, and covers the amount.
pub select_rows-covers :
    (amount : Amount) (rows : List Row)
    → IsNonnegative rows
    → sum_rows rows ≤ℤ pos max_i64
    → {inputs : List SecretWebcash}
    → enough amount (select_rows amount rows [] zero_amount) ≡ ok inputs
    → (n : ℕ) × (inputs ≡ map webcash_of_row (take n rows))
      × (amount.wats ≤ℤ sum_rows (take n rows))
select_rows-covers amount rows h fits e =
    let out = select_rows amount rows [] zero_amount in
    let s = select_rows-Selected amount rows [] zero_amount h (omega arith) (omega int_laws) in
    let (same, covered) = enough-ok amount out e in
    (
      s.count,
      same ∙ s.selected,
      subst (λ (w : ℤ). amount.wats ≤ℤ w)
          (ap (λ (a : Amount). a.wats) s.sum ∙ zero-+ℤ (sum_rows (take s.count rows))) covered,
    )
