-- ===== src/Wasm/Native/Tell.antt =====
-- Where no two outputs of the browser's wallet (crates/webylib-wasm/src/wallet.rs) share a hash, the
-- hash of an input tells its secret.
use webylib.Prelude.{
  ℕ, ◌≡◌, ◌≢◌, refl, sym, ap, subst, ◌∙◌, Bool, true, false, not, List, [], ◌∷◌, map, take, All,
  All-take, if◌then◌else◌,
}
use webylib.Prelude.Text.{Text}
use webylib.Crypto.{Bytes}
use webylib.Store.State
use webylib.Store.State.{MemOutput, secret_and_amount}
use webylib.Store.Laws.{Distinct}
use webylib.Store.Laws.Rows.{Row, rows_of, All-sort}
use webylib.Wasm.State.{Output, WalletState, unspent}
use webylib.Wasm.Replace.View.{viewed, Tells, row_of, rows-viewed, viewed-unspent}
use webylib.Wasm.Replace.Sound.{self, rows_in}
use webylib.Wasm.Replace.Inputs.{store_of}

module _ (H : Text → Bytes) where
  abbrev Apart : Output → List Output → Type 0
  Apart o = All (λ (p : Output). H p.secret ≢ H o.secret)

  Apart-viewed :
      (o : Output) (os : List Output)
      → All (λ (p : MemOutput). p.secret_hash ≢ H o.secret) (map (viewed H) os)
      → Apart o os
  Apart-viewed o [] n = tt
  Apart-viewed o (p ∷ os) n = (n.0, Apart-viewed o os n.1)

  Tells-Apart : (o : Output) (os : List Output) → Apart o os → Tells H o.secret os
  Tells-Apart o [] n = tt
  Tells-Apart o (p ∷ os) n = ((λ e. absurd (n.0 e)), Tells-Apart o os n.1)

  Tells-cons :
      (o : Output) (os ps : List Output)
      → Apart o ps
      → All (λ (p : Output). Tells H p.secret os) ps
      → All (λ (p : Output). Tells H p.secret (o ∷ os)) ps
  Tells-cons o os [] n t = tt
  Tells-cons o os (p ∷ ps) n t = (((λ e. absurd (n.0 (sym e))), t.0), Tells-cons o os ps n.1 t.1)

  outputs_tell :
      (os : List Output)
      → Distinct (map (viewed H) os)
      → All (λ (p : Output). Tells H p.secret os) os
  outputs_tell [] d = tt
  outputs_tell (o ∷ os) d =
      let apart = Apart-viewed o os d.0 in
      (((λ _. refl), Tells-Apart o os apart), Tells-cons o os os apart (outputs_tell os d.1))

  All-if :
      (P : Output → Type 0) (b : Bool) (o : Output) (os : List Output)
      → P o
      → All P os
      → All P (if b then o ∷ os else os)
  All-if P true o os p h = (p, h)
  All-if P false o os p h = h

  All-unspent : (P : Output → Type 0) (os : List Output) → All P os → All P (unspent os)
  unfolding unspent
  All-unspent P [] h = tt
  All-unspent P (o ∷ os) h = All-if P (not o.spent) o (unspent os) h.0 (All-unspent P os h.1)

  rows_tell :
      (os ps : List Output)
      → All (λ (p : Output). Tells H p.secret os) ps
      → All (λ (r : Row). Tells H r.0 os) (map row_of ps)
  rows_tell os [] t = tt
  rows_tell os (p ∷ ps) t = (t.0, rows_tell os ps t.1)

  -- The rows that a payment takes its inputs from.
  pub inputs_tell :
      (n : ℕ) (s : WalletState)
      → Distinct (map (viewed H) s.outputs)
      → All (λ (r : Row). Tells H r.0 s.outputs) (take n (State.get_unspent (store_of s)))
  inputs_tell n s d =
      let P = λ (r : Row). Tells H r.0 s.outputs in
      let same : map row_of (unspent s.outputs) ≡ rows_of (rows_in s) =
        sym (rows-viewed self (unspent s.outputs))
        ∙ ap (map secret_and_amount) (viewed-unspent self s.outputs) in
      All-take P n (State.get_unspent (store_of s)) (
        All-sort P (rows_of (rows_in s)) (
          subst (All P) same (
            rows_tell s.outputs (unspent s.outputs) (
              All-unspent (λ (p : Output). Tells H p.secret s.outputs) s.outputs
                (outputs_tell s.outputs d)))))
