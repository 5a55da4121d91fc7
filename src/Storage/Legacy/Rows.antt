-- ===== src/Storage/Legacy/Rows.antt =====
-- Lists of entries in the two in-memory stores (crates/storage/src/mem.rs and src/wallet/store.rs).
use webylib.Prelude.{
  ◌≡◌, ◌≢◌, refl, ap, subst, true, false, not, ◌&&◌, ◌||◌, List, [], ◌∷◌, ◌++◌, map, All,
  All-append, arith, Bool-cases, inl, inr,
}
use webylib.Prelude.Int.{ℤ}
use webylib.Prelude.Text.{beq, beq_iff}
use webylib.Crypto.{Bytes}
use webylib.Store.State.{MemOutput, reprice_first, has_hash, knows_spent}
use webylib.Store.Sqlite.{set_spent, set_amount}
use webylib.Store.Laws.{Distinct}
use webylib.Storage.{UnspentEntry, SpentHashEntry}
use webylib.Storage.Mem.{has_entry, mark_entries, reprice_entries, knows_hash}
use webylib.Storage.Legacy.{legacy_entry, legacy_spent}

pub has-legacy :
    (h : Bytes) (es : List UnspentEntry) → has_hash h (map legacy_entry es) ≡ has_entry h es
has-legacy h [] = refl
has-legacy h (e ∷ es) = ap (◌||◌ (beq e.secret_hash h)) (has-legacy h es)

pub mark-legacy :
    (h : Bytes) (es : List UnspentEntry)
    → map legacy_entry (mark_entries h es) ≡ set_spent h (map legacy_entry es)
unfolding mark_entries set_spent
mark-legacy h [] = refl
mark-legacy h (e ∷ es) = elim (Bool-cases (beq e.secret_hash h)) [
  | inl here ↦ rw here (ap (λ os. legacy_entry (record e { spent = true }) ∷ os) (mark-legacy h es))
  | inr later ↦ rw later (ap (λ os. legacy_entry e ∷ os) (mark-legacy h es))
]

pub reprice-legacy :
    (h : Bytes) (amount : ℤ) (es : List UnspentEntry)
    → map legacy_entry (reprice_entries h amount es) ≡ set_amount h amount (map legacy_entry es)
unfolding reprice_entries set_amount
reprice-legacy h amount [] = refl
reprice-legacy h amount (e ∷ es) = elim (Bool-cases (beq e.secret_hash h && not e.spent)) [
  | inl here ↦
      rw here
        (ap (λ os. legacy_entry (record e { amount = amount }) ∷ os) (reprice-legacy h amount es))
  | inr later ↦ rw later (ap (λ os. legacy_entry e ∷ os) (reprice-legacy h amount es))
]

pub knows-legacy :
    (h : Bytes) (es : List SpentHashEntry) → knows_spent h (map legacy_spent es) ≡ knows_hash h es
knows-legacy h [] = refl
knows-legacy h (e ∷ es) = ap (◌||◌ (beq e.hash h)) (knows-legacy h es)

pub map-append {ℓ} :
    {A B : Type ℓ} (f : A → B) (xs ys : List A) → map f (xs ++ ys) ≡ map f xs ++ map f ys
map-append f [] ys = refl
map-append f (x ∷ xs) ys = ap (λ zs. f x ∷ zs) (map-append f xs ys)

set_amount-others :
    (h : Bytes) (amount : ℤ) (os : List MemOutput)
    → All (λ (p : MemOutput). p.secret_hash ≢ h) os
    → set_amount h amount os ≡ os
unfolding set_amount
set_amount-others h amount [] n = refl
set_amount-others h amount (o ∷ os) n =
    ground (arith, beq_iff o.secret_hash h, set_amount-others h amount os n.1)

-- An update of every row with the hash is one of the row that there is.
pub set_amount-Distinct :
    (h : Bytes) (amount : ℤ) (os : List MemOutput)
    → Distinct os
    → set_amount h amount os ≡ reprice_first h amount os
unfolding set_amount reprice_first
set_amount-Distinct h amount [] d = refl
set_amount-Distinct h amount (o ∷ os) d = elim (Bool-cases (beq o.secret_hash h && not o.spent)) [
  | inl here ↦ rw here (
      ap (λ ps. record o { amount = amount } ∷ ps)
        (set_amount-others h amount os (
          subst (λ k. All (λ (p : MemOutput). p.secret_hash ≢ k) os)
            (ground (arith, beq_iff o.secret_hash h)) d.0)))
  | inr later ↦ rw later (ap (λ ps. o ∷ ps) (set_amount-Distinct h amount os d.1))
]

set_amount-hashes :
    (P : Bytes → Type 0) (h : Bytes) (amount : ℤ) (os : List MemOutput)
    → All (λ (p : MemOutput). P p.secret_hash) os
    → All (λ (p : MemOutput). P p.secret_hash) (set_amount h amount os)
unfolding set_amount
set_amount-hashes P h amount [] a = tt
set_amount-hashes P h amount (o ∷ os) a = elim (Bool-cases (beq o.secret_hash h && not o.spent)) [
  | inl here ↦ rw here (a.0, set_amount-hashes P h amount os a.1)
  | inr later ↦ rw later (a.0, set_amount-hashes P h amount os a.1)
]

pub set_amount-keeps :
    (h : Bytes) (amount : ℤ) (os : List MemOutput) → Distinct os → Distinct (set_amount h amount os)
unfolding set_amount
set_amount-keeps h amount [] d = tt
set_amount-keeps h amount (o ∷ os) d = elim (Bool-cases (beq o.secret_hash h && not o.spent)) [
  | inl here ↦
      rw here (
        set_amount-hashes (λ k. k ≢ o.secret_hash) h amount os d.0,
        set_amount-keeps h amount os d.1,
      )
  | inr later ↦
      rw later (
        set_amount-hashes (λ k. k ≢ o.secret_hash) h amount os d.0,
        set_amount-keeps h amount os d.1,
      )
]

pub append-Distinct :
    (os : List MemOutput) (o : MemOutput)
    → has_hash o.secret_hash os ≡ false
    → Distinct os
    → Distinct (os ++ o ∷ [])
append-Distinct [] o n d = (tt, tt)
append-Distinct (p ∷ os) o n d =
    let here : o.secret_hash ≢ p.secret_hash =
      ground (arith, beq_iff p.secret_hash o.secret_hash) in
    let later : has_hash o.secret_hash os ≡ false = ground arith in
    (
      All-append (λ (q : MemOutput). q.secret_hash ≢ p.secret_hash) os (o ∷ []) d.0 (here, tt),
      append-Distinct os o later d.1,
    )
