-- ===== src/Wallet/Sound.antt =====
-- A store whose outputs are as the wallet's operations (src/wallet/operations.rs) keep them, and
-- what follows for its rows and its balance.
use webylib.Prelude.{
  ℕ, ◌≡◌, sym, ap, subst, ◌∙◌, some, List, [], ◌∷◌, map, All, take, arith, Bool-cases, inl, inr,
  if◌then◌else◌,
}
use webylib.Prelude.Int.{
  pos, ◌+ℤ◌, ◌≤ℤ◌, int_laws, max_i64, wrap_i64, wrap_i64_in_range, nonneg_in_range,
}
use webylib.Amount.{from_wats}
use webylib.Store.State
use webylib.Store.State.{MemState, MemOutput, mark_first}
use webylib.Store.Laws.{Distinct}
use webylib.Store.Laws.Outputs.{available, balance, sum-unspent}
use webylib.Store.Laws.Rows.{
  Row, sum_rows, mark_rows, IsHashed, balance-mark_rows, DistinctRows-take, get_unspent-Holds,
  get_unspent-DistinctRows, get_unspent-balance,
}
use webylib.Wallet.{Env, hash_of, webcash_of_row}
use webylib.Store.Laws.Rows.{rows_of, All-sort}
use webylib.Prelude.{All-take}
use webylib.Wallet.Inputs.Selection.{IsNonnegative, total_amount-rows, sum_rows-take}
use webylib.Wallet.Inputs.{total_amount}

-- The store of a wallet that works as it should: every output under the hash of its own secret, no
-- hash twice, no amount below zero, and a balance that an `i64` holds.
pub record IsSound (env : Env) (os : List MemOutput) : Type 0 where
  pub distinct : Distinct os
  pub hashed : IsHashed (hash_of env) os
  pub nonneg : All (λ (o : MemOutput). pos 0 ≤ℤ o.amount) os
  pub fits : balance os ≤ℤ pos max_i64

pub rows_of-nonneg :
    (os : List MemOutput)
    → All (λ (o : MemOutput). pos 0 ≤ℤ o.amount) os
    → IsNonnegative (rows_of os)
unfolding State.unspent
rows_of-nonneg [] h = tt
rows_of-nonneg (o ∷ os) h = elim (Bool-cases o.spent) [
  | inl gone ↦ rw gone (rows_of-nonneg os h.1)
  | inr there ↦ rw there (h.0, rows_of-nonneg os h.1)
]

pub wrapped :
    (os : List MemOutput)
    → pos 0 ≤ℤ balance os
    → balance os ≤ℤ pos max_i64
    → wrap_i64 (State.sum_amounts (State.unspent os)) ≡ balance os
wrapped os h fits =
    ap wrap_i64 (sum-unspent os)
    ∙ wrap_i64_in_range (balance os) (nonneg_in_range (balance os) h fits)

pub balance-nonneg :
    (os : List MemOutput) → All (λ (o : MemOutput). pos 0 ≤ℤ o.amount) os → pos 0 ≤ℤ balance os
balance-nonneg [] h = omega arith
balance-nonneg (o ∷ os) h =
    let ih = balance-nonneg os h.1 in
    let here : pos 0 ≤ℤ (if o.spent then pos 0 else o.amount) = elim (Bool-cases o.spent) [
      | inl gone ↦ rw gone (omega arith)
      | inr there ↦ rw there h.0
    ] in
    omega int_laws

-- The first `n` rows of a sound store.
pub record Front (env : Env) (s : MemState) (n : ℕ) : Type 0 where
  pub nonneg : pos 0 ≤ℤ sum_rows (take n (State.get_unspent s))
  pub at_most : sum_rows (take n (State.get_unspent s)) ≤ℤ balance s.outputs
  pub total :
      total_amount (map webcash_of_row (take n (State.get_unspent s)))
      ≡ from_wats (sum_rows (take n (State.get_unspent s)))
  pub marked :
      balance (mark_rows (hash_of env) (take n (State.get_unspent s)) s.outputs)
        +ℤ sum_rows (take n (State.get_unspent s))
      ≡ balance s.outputs

pub rows-nonneg :
    (s : MemState)
    → All (λ (o : MemOutput). pos 0 ≤ℤ o.amount) s.outputs
    → IsNonnegative (State.get_unspent s)
rows-nonneg s h =
    All-sort (λ (r : Row). pos 0 ≤ℤ r.1) (rows_of s.outputs) (rows_of-nonneg s.outputs h)

pub front : (env : Env) (s : MemState) (n : ℕ) → IsSound env s.outputs → Front env s n
front env s n v =
    let H = hash_of env in
    let rows = State.get_unspent s in
    let good = rows-nonneg s v.nonneg in
    let all : sum_rows rows ≡ balance s.outputs = get_unspent-balance H s v.distinct v.hashed in
    let small : sum_rows rows ≤ℤ pos max_i64 = subst (λ t. t ≤ℤ pos max_i64) (sym all) v.fits in
    let (at_least_zero, at_most) = sum_rows-take n rows good in
    record {
      nonneg = at_least_zero;
      at_most = subst (λ t. sum_rows (take n rows) ≤ℤ t) all at_most;
      total =
          total_amount-rows (take n rows) (All-take (λ (r : Row). pos 0 ≤ℤ r.1) n rows good)
            (omega int_laws);
      marked =
          balance-mark_rows H (take n rows) s.outputs
            (DistinctRows-take H n rows (get_unspent-DistinctRows H s v.distinct v.hashed))
            (All-take (λ (r : Row). available (H r.0) s.outputs ≡ some r.1) n rows
              (get_unspent-Holds H s v.distinct v.hashed));
    }
