-- ===== src/Wasm/Replace/View.antt =====
-- The outputs of the browser's wallet (crates/webylib-wasm/src/wallet.rs) as the rows of the native
-- wallet's stores (src/wallet/store.rs), and that marking, filtering and sorting agree under the view.
use webylib.Prelude.{
  ◌≡◌, refl, sym, ap, ◌∙◌, Bool, true, false, not, if◌then◌else◌, List, [], ◌∷◌, map, All,
  Bool-cases, inl, inr,
}
use webylib.Prelude.Int.{leb_ℤ, ◌+ℤ◌}
use webylib.Prelude.Text.{Text, beq, beq_iff}
use webylib.Crypto.{Bytes}
use webylib.Store.State
use webylib.Store.State.{MemOutput, mark_first, secret_and_amount}
use webylib.Store.Laws.Rows.{Row, rows_of}
use webylib.Wasm.State.{Output, unspent, sum_amounts}
use webylib.Wasm.Replace.{mark_output, insert_sorted, sort_desc}

abbrev pub row_of : Output → Row
row_of o = (o.secret, o.amount)

map_if :
    {A B : Type 0} (f : A → B) (b : Bool) (x : A) (xs : List A)
    → map f (if b then x ∷ xs else xs) ≡ (if b then f x ∷ map f xs else map f xs)
map_if f true x xs = refl
map_if f false x xs = refl

-- `H` stands for the hash under which a store keeps a secret. The in-memory store keeps no times.
module _ (H : Text → Bytes) where
  abbrev pub viewed : Output → MemOutput
  viewed o = record {
    secret_hash = H o.secret;
    secret = o.secret;
    amount = o.amount;
    created_at = [];
    spent = o.spent;
  }

  -- No output has another secret with the hash of this one.
  abbrev pub Tells : Text → List Output → Type 0
  Tells secret = All (λ (o : Output). H o.secret ≡ H secret → o.secret ≡ secret)

  pub viewed-mark_output :
      (secret : Text) (os : List Output)
      → Tells secret os
      → map viewed (mark_output secret os) ≡ mark_first (H secret) (map viewed os)
  unfolding mark_output mark_first
  viewed-mark_output secret [] t = refl
  viewed-mark_output secret (o ∷ os) t = elim (Bool-cases (beq o.secret secret)) [
    | inl same ↦
        rw same
          (rw ((beq_iff (H o.secret) (H secret)).1 (ap H ((beq_iff o.secret secret).0 same))) refl)
    | inr other ↦ rw other (elim (Bool-cases (beq (H o.secret) (H secret))) [
      | inl clash ↦ absurd (
          differ other
            ((beq_iff o.secret secret).1 (t.0 ((beq_iff (H o.secret) (H secret)).0 clash))))
      | inr apart ↦ rw apart (ap (λ ps. viewed o ∷ ps) (viewed-mark_output secret os t.1))
    ])
  ]
    where
      differ : {b : Bool} → b ≡ false → b ≡ true → ⊥
      differ f t = cc

  pub viewed-unspent : (os : List Output) → map viewed (unspent os) ≡ State.unspent (map viewed os)
  unfolding unspent State.unspent
  viewed-unspent [] = refl
  viewed-unspent (o ∷ os) =
      map_if viewed (not o.spent) o (unspent os)
      ∙ ap (λ ps. if not o.spent then viewed o ∷ ps else ps) (viewed-unspent os)

  pub viewed-sum : (os : List Output) → State.sum_amounts (map viewed os) ≡ sum_amounts os
  unfolding sum_amounts State.sum_amounts
  viewed-sum [] = refl
  viewed-sum (o ∷ os) = ap (λ z. o.amount +ℤ z) (viewed-sum os)

  pub rows-viewed : (os : List Output) → map secret_and_amount (map viewed os) ≡ map row_of os
  rows-viewed [] = refl
  rows-viewed (o ∷ os) = ap (λ rs. row_of o ∷ rs) (rows-viewed os)

row_of-insert :
    (o : Output) (os : List Output)
    → map row_of (insert_sorted o os) ≡ State.insert_sorted (row_of o) (map row_of os)
unfolding insert_sorted State.insert_sorted
row_of-insert o [] = refl
row_of-insert o (p ∷ ps) = elim (Bool-cases (leb_ℤ p.amount o.amount)) [
  | inl here ↦ rw here refl
  | inr later ↦ rw later (ap (λ rs. row_of p ∷ rs) (row_of-insert o ps))
]

pub row_of-sort : (os : List Output) → map row_of (sort_desc os) ≡ State.sort_desc (map row_of os)
unfolding sort_desc State.sort_desc
row_of-sort [] = refl
row_of-sort (o ∷ os) =
    row_of-insert o (sort_desc os) ∙ ap (State.insert_sorted (row_of o)) (row_of-sort os)

-- The browser's wallet sees its outputs in the order of `get_unspent`.
pub row_of-unspent :
    (H : Text → Bytes) (os : List Output)
    → map row_of (sort_desc (unspent os)) ≡ State.sort_desc (rows_of (map (viewed H) os))
row_of-unspent H os =
    row_of-sort (unspent os)
    ∙ ap State.sort_desc
        (sym (rows-viewed H (unspent os)) ∙ ap (map secret_and_amount) (viewed-unspent H os))
