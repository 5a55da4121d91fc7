-- ===== src/Store/Laws/Rows.antt =====
-- The rows that `get_unspent` returns (src/wallet/store.rs): each is an output that is not spent,
-- under a hash of its own, and they add up to the balance.
use webylib.Prelude.{
  ℕ, zero, suc, ◌≡◌, ◌≢◌, refl, sym, ap, subst, ◌∙◌, true, false, some, List, [], ◌∷◌, map, All,
  All-zip, All-take, take, arith, Bool-cases, inl, inr,
}
use webylib.Prelude.Int.{ℤ, pos, ◌+ℤ◌, leb_ℤ, int_laws, +ℤ-zero}
use webylib.Prelude.Text.{Text, beq_iff}
use webylib.Crypto.{Bytes}
use webylib.Store.State.{
  MemState, MemOutput, mark_first, unspent, secret_and_amount, insert_sorted, sort_desc,
  get_unspent,
}
use webylib.Store.Laws.{Distinct}
use webylib.Store.Laws.Outputs.{available, balance, balance-mark_first, available-mark_first}

abbrev pub Row : Type 0
Row = Text × ℤ

abbrev pub sum_rows : List Row → ℤ
sum_rows [] = pos 0
sum_rows (r ∷ rs) = r.1 +ℤ sum_rows rs

abbrev pub rows_of : List MemOutput → List Row
rows_of os = map secret_and_amount (unspent os)

pub sum_rows-of : (os : List MemOutput) → sum_rows (rows_of os) ≡ balance os
unfolding unspent
sum_rows-of [] = refl
sum_rows-of (o ∷ os) = elim (Bool-cases o.spent) [
  | inl gone ↦ rw gone (grind (int_laws, sum_rows-of os))
  | inr there ↦ rw there (grind (int_laws, sum_rows-of os))
]

sum_rows-insert : (r : Row) (rs : List Row) → sum_rows (insert_sorted r rs) ≡ r.1 +ℤ sum_rows rs
unfolding insert_sorted
sum_rows-insert r [] = refl
sum_rows-insert r (q ∷ rs) = elim (Bool-cases (leb_ℤ q.1 r.1)) [
  | inl here ↦ rw here refl
  | inr later ↦ rw later (grind (int_laws, sum_rows-insert r rs))
]

sum_rows-sort : (rs : List Row) → sum_rows (sort_desc rs) ≡ sum_rows rs
unfolding sort_desc
sum_rows-sort [] = refl
sum_rows-sort (r ∷ rs) = sum_rows-insert r (sort_desc rs) ∙ ap (◌+ℤ◌ r.1) (sum_rows-sort rs)

All-insert {κ} :
    (P : Row → Type κ) (r : Row) (rs : List Row) → P r → All P rs → All P (insert_sorted r rs)
unfolding insert_sorted
All-insert P r [] p h = (p, tt)
All-insert P r (q ∷ rs) p h = elim (Bool-cases (leb_ℤ q.1 r.1)) [
  | inl here ↦ rw here (p, h)
  | inr later ↦ rw later (h.0, All-insert P r rs p h.1)
]

pub All-sort {κ} : (P : Row → Type κ) (rs : List Row) → All P rs → All P (sort_desc rs)
unfolding sort_desc
All-sort P [] h = tt
All-sort P (r ∷ rs) h = All-insert P r (sort_desc rs) h.0 (All-sort P rs h.1)

rows_of-spent :
    (o : MemOutput) (os : List MemOutput) → o.spent ≡ true → rows_of (o ∷ os) ≡ rows_of os
unfolding unspent
rows_of-spent o os gone = rw gone refl

rows_of-unspent :
    (o : MemOutput) (os : List MemOutput)
    → o.spent ≡ false
    → rows_of (o ∷ os) ≡ (o.secret, o.amount) ∷ rows_of os
unfolding unspent
rows_of-unspent o os there = rw there refl

-- `H` is the hash of a secret.
module _ (H : Text → Bytes) where
  abbrev pub IsHashed : List MemOutput → Type 0
  IsHashed = All (λ (o : MemOutput). o.secret_hash ≡ H o.secret)

  abbrev pub Holds : List MemOutput → List Row → Type 0
  Holds os = All (λ (r : Row). available (H r.0) os ≡ some r.1)

  abbrev pub DistinctRows : List Row → Type 0
  DistinctRows [] = Unit
  DistinctRows (r ∷ rs) = All (λ (q : Row). H q.0 ≢ H r.0) rs × DistinctRows rs

  DistinctRows-insert :
      (r : Row) (rs : List Row)
      → All (λ (q : Row). H q.0 ≢ H r.0) rs
      → DistinctRows rs
      → DistinctRows (insert_sorted r rs)
  unfolding insert_sorted
  DistinctRows-insert r [] n d = (tt, tt)
  DistinctRows-insert r (q ∷ rs) n d = elim (Bool-cases (leb_ℤ q.1 r.1)) [
    | inl here ↦ rw here (n, d)
    | inr later ↦ rw later (
      All-insert (λ (p : Row). H p.0 ≢ H q.0) r rs (λ e. n.0 (sym e)) d.0,
      DistinctRows-insert r rs n.1 d.1,
    )
  ]

  DistinctRows-sort : (rs : List Row) → DistinctRows rs → DistinctRows (sort_desc rs)
  unfolding sort_desc
  DistinctRows-sort [] d = tt
  DistinctRows-sort (r ∷ rs) d =
      DistinctRows-insert r (sort_desc rs) (All-sort (λ (q : Row). H q.0 ≢ H r.0) rs d.0)
        (DistinctRows-sort rs d.1)

  pub DistinctRows-take : (n : ℕ) (rs : List Row) → DistinctRows rs → DistinctRows (take n rs)
  DistinctRows-take zero rs d = tt
  DistinctRows-take (suc n) [] d = tt
  DistinctRows-take (suc n) (r ∷ rs) d =
      (All-take (λ (q : Row). H q.0 ≢ H r.0) n rs d.0, DistinctRows-take n rs d.1)

  rows_of-hashes {κ} :
      (P : Bytes → Type κ) (os : List MemOutput)
      → IsHashed os
      → All (λ (o : MemOutput). P o.secret_hash) os
      → All (λ (r : Row). P (H r.0)) (rows_of os)
  unfolding unspent
  rows_of-hashes P [] h a = tt
  rows_of-hashes P (o ∷ os) h a = elim (Bool-cases o.spent) [
    | inl gone ↦ rw gone (rows_of-hashes P os h.1 a.1)
    | inr there ↦ rw there (subst P h.0 a.0, rows_of-hashes P os h.1 a.1)
  ]

  Holds-cons :
      (o : MemOutput) (os : List MemOutput) (rs : List Row)
      → Holds os rs
      → All (λ (r : Row). H r.0 ≢ o.secret_hash) rs
      → Holds (o ∷ os) rs
  Holds-cons o os rs h n =
      All-zip rs (λ r held other. ground (arith, beq_iff o.secret_hash (H r.0))) h n

  pub Holds-rows_of : (os : List MemOutput) → Distinct os → IsHashed os → Holds os (rows_of os)
  unfolding unspent
  Holds-rows_of [] d h = tt
  Holds-rows_of (o ∷ os) d h =
      let later : Holds (o ∷ os) (rows_of os) =
        Holds-cons o os (rows_of os) (Holds-rows_of os d.1 h.1)
          (rows_of-hashes (λ k. k ≢ o.secret_hash) os h.1 d.0) in
      elim (Bool-cases o.spent) [
        | inl gone ↦ subst (Holds (o ∷ os)) (sym (rows_of-spent o os gone)) later
        | inr there ↦
            subst (Holds (o ∷ os)) (sym (rows_of-unspent o os there))
              (ground (arith, beq_iff o.secret_hash (H o.secret)), later)
      ]

  pub DistinctRows-rows_of :
      (os : List MemOutput) → Distinct os → IsHashed os → DistinctRows (rows_of os)
  unfolding unspent
  DistinctRows-rows_of [] d h = tt
  DistinctRows-rows_of (o ∷ os) d h =
      let later = DistinctRows-rows_of os d.1 h.1 in
      elim (Bool-cases o.spent) [
        | inl gone ↦ rw (rows_of-spent o os gone) later
        | inr there ↦ rw (rows_of-unspent o os there) (
          subst (λ k. All (λ (q : Row). H q.0 ≢ k) (rows_of os)) h.0
              (rows_of-hashes (λ k. k ≢ o.secret_hash) os h.1 d.0),
          later,
        )
      ]

  -- The rows that a store returns are outputs that are not spent, under different hashes.
  module _ (s : MemState) (d : Distinct s.outputs) (h : IsHashed s.outputs) where
    pub get_unspent-Holds : Holds s.outputs (get_unspent s)
    get_unspent-Holds =
        All-sort (λ (r : Row). available (H r.0) s.outputs ≡ some r.1) (rows_of s.outputs)
          (Holds-rows_of s.outputs d h)

    pub get_unspent-DistinctRows : DistinctRows (get_unspent s)
    get_unspent-DistinctRows =
        DistinctRows-sort (rows_of s.outputs) (DistinctRows-rows_of s.outputs d h)

    pub get_unspent-balance : sum_rows (get_unspent s) ≡ balance s.outputs
    get_unspent-balance = sum_rows-sort (rows_of s.outputs) ∙ sum_rows-of s.outputs

  -- Rows are marked one after another.
  abbrev pub mark_rows : List Row → List MemOutput → List MemOutput
  mark_rows [] os = os
  mark_rows (r ∷ rs) os = mark_rows rs (mark_first (H r.0) os)

  Holds-mark_first :
      (k : Bytes) (os : List MemOutput) (rs : List Row)
      → All (λ (q : Row). H q.0 ≢ k) rs
      → Holds os rs
      → Holds (mark_first k os) rs
  Holds-mark_first k os rs n held =
      All-zip rs (λ q other e. available-mark_first k (H q.0) os (λ p. other (sym p)) ∙ e) n held

  -- Marking rows that are available, under different hashes, takes their sum off the balance.
  pub balance-mark_rows :
      (rs : List Row) (os : List MemOutput)
      → DistinctRows rs
      → Holds os rs
      → balance (mark_rows rs os) +ℤ sum_rows rs ≡ balance os
  balance-mark_rows [] os d held = +ℤ-zero (balance os)
  balance-mark_rows (r ∷ rs) os d held =
      let rest =
        balance-mark_rows rs (mark_first (H r.0) os) d.1
          (Holds-mark_first (H r.0) os rs d.0 held.1) in
      let here = balance-mark_first (H r.0) r.1 os held.0 in grind (int_laws, rest, here)
