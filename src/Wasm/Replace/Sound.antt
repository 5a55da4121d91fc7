-- ===== src/Wasm/Replace/Sound.antt =====
-- A sound state of the browser's wallet (crates/webylib-wasm/src/wallet.rs), and what an accepted
-- replacement does to its balance.
use webylib.Prelude.{
  ℕ, ◌≡◌, refl, sym, ap, ◌∙◌, Option, none, some, List, [], ◌∷◌, map, All, if◌then◌else◌,
}
use mathlib.Core.List.{map-append}
use webylib.Prelude.Int.{ℤ, pos, ◌+ℤ◌, ◌≤ℤ◌, int_laws, max_i64, +ℤ-zero, wrap_i64}
use webylib.Prelude.Text.{Text}
use webylib.Prelude.Assoc.{Assoc}
use webylib.Wallet.{Env}
use webylib.Wallet.Sound.{wrapped, balance-nonneg}
use webylib.Store.State
use webylib.Store.State.{MemOutput}
use webylib.Store.Laws.{Distinct}
use webylib.Store.Laws.Outputs
use webylib.Store.Laws.Rows.{
  Row, sum_rows, mark_rows, balance-mark_rows, IsHashed, Holds, DistinctRows,
}
use webylib.Wasm.State.{Output, WalletState, ReplaceEffect, unspent, balance}
use webylib.Wasm.Replace.{mark_all, push_pending, update_depths, settle}
use webylib.Wasm.Replace.View.{viewed, Tells, viewed-unspent, viewed-sum}
use webylib.Wasm.Replace.Selection.{viewed-mark_all}

-- The browser's wallet knows an output by its secret.
abbrev pub self : Text → Text
self secret = secret

abbrev pub rows_in : WalletState → List MemOutput
rows_in s = map (viewed self) s.outputs

-- Different secrets, no amount below zero, and a balance that an `i64` holds.
pub record IsSound (s : WalletState) : Type 0 where
  pub distinct : Distinct (map (viewed self) s.outputs)
  pub nonneg : All (λ (o : Output). pos 0 ≤ℤ o.amount) s.outputs
  pub fits : Outputs.balance (map (viewed self) s.outputs) ≤ℤ pos max_i64

pub viewed-nonneg :
    (os : List Output)
    → All (λ (o : Output). pos 0 ≤ℤ o.amount) os
    → All (λ (o : MemOutput). pos 0 ≤ℤ o.amount) (map (viewed self) os)
viewed-nonneg [] h = tt
viewed-nonneg (o ∷ os) h = (h.0, viewed-nonneg os h.1)

pub viewed-IsHashed : (os : List Output) → IsHashed self (map (viewed self) os)
viewed-IsHashed [] = tt
viewed-IsHashed (o ∷ os) = (refl, viewed-IsHashed os)

-- The balance, where an `i64` holds it.
pub balance-exact :
    (s : WalletState)
    → pos 0 ≤ℤ Outputs.balance (rows_in s)
    → Outputs.balance (rows_in s) ≤ℤ pos max_i64
    → balance s ≡ Outputs.balance (rows_in s)
balance-exact s h fits =
    ap wrap_i64 (
      sym (viewed-sum self (unspent s.outputs))
      ∙ ap State.sum_amounts (viewed-unspent self s.outputs))
    ∙ wrapped (rows_in s) h fits

pub IsSound-balance : (s : WalletState) → IsSound s → balance s ≡ Outputs.balance (rows_in s)
IsSound-balance s v =
    balance-exact s (balance-nonneg (rows_in s) (viewed-nonneg s.outputs v.nonneg)) v.fits

Tells-self : (secret : Text) (os : List Output) → Tells self secret os
Tells-self secret [] = tt
Tells-self secret (o ∷ os) = ((λ e. e), Tells-self secret os)

AllTell-self : (rows : List Row) (os : List Output) → All (λ (r : Row). Tells self r.0 os) rows
AllTell-self [] os = tt
AllTell-self (r ∷ rows) os = (Tells-self r.0 os, AllTell-self rows os)

-- What the pending output adds.
abbrev pub worth : Option Output → ℤ
worth none = pos 0
worth (some o) = if o.spent then pos 0 else o.amount

module _ (env : Env) where
  pub update_depths-outputs :
      (updates : Assoc ℕ) (s : WalletState) → (update_depths env updates s).outputs ≡ s.outputs
  unfolding update_depths
  update_depths-outputs [] s = refl
  update_depths-outputs ((chain, depth) ∷ updates) s = update_depths-outputs updates _

  push_pending-balance :
      (p : Option Output) (s : WalletState)
      → Outputs.balance (rows_in (push_pending env p s)) ≡ Outputs.balance (rows_in s) +ℤ worth p
  push_pending-balance none s = sym (+ℤ-zero (Outputs.balance (rows_in s)))
  push_pending-balance (some o) s =
      ap Outputs.balance (map-append (viewed self) s.outputs (o ∷ []))
      ∙ Outputs.balance-append (rows_in s) (viewed self o ∷ [])
      ∙ ap (λ z. Outputs.balance (rows_in s) +ℤ z) (+ℤ-zero (worth (some o)))

  -- The inputs' amounts go, and the pending output's amount comes.
  pub settle-balance :
      (e : ReplaceEffect) (rows : List Row) (s : WalletState)
      → e.mark_spent ≡ map (λ (r : Row). r.0) rows
      → DistinctRows self rows
      → Holds self (rows_in s) rows
      → Outputs.balance (rows_in (settle env e s)) +ℤ sum_rows rows
        ≡ Outputs.balance (rows_in s) +ℤ worth e.pending_output
  unfolding settle
  settle-balance e rows s same distinct held =
      let s1 = mark_all env e.mark_spent s in
      let depths : rows_in (settle env e s) ≡ rows_in (push_pending env e.pending_output s1) =
        ap (map (viewed self)) (update_depths-outputs e.depth_updates _) in
      let pushed = push_pending-balance e.pending_output s1 in
      let marked : rows_in s1 ≡ mark_rows self rows (rows_in s) =
        ap (λ ms. rows_in (mark_all env ms s)) same
        ∙ viewed-mark_all self env rows s (AllTell-self rows s.outputs) in
      let gone = balance-mark_rows self rows (rows_in s) distinct held in
      let total = ap Outputs.balance depths in
      let after = ap Outputs.balance marked in grind (int_laws, pushed, gone, total, after)
