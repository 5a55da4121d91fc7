-- ===== src/Store/Laws/Outputs.antt =====
-- Lists of outputs: marking, spent amounts, sums.
use webylib.Prelude.{
  ◌≡◌, ◌≢◌, refl, sym, ap, subst, true, Option, none, some, List, [], ◌∷◌, ◌++◌, All, arith,
  Bool-cases, inl, inr, if◌then◌else◌,
}
use webylib.Prelude.Int.{ℤ, pos, ◌+ℤ◌, int_laws, +ℤ_assoc, zero-+ℤ}
use webylib.Prelude.Text.{beq, beq_iff}
use webylib.Crypto.{Bytes}
use webylib.Store.State.{MemOutput, mark_first, unspent, sum_amounts}
use webylib.Store.Sqlite.{set_spent}
use webylib.Store.Laws.{Distinct}

-- The amount that an output adds to the balance.
abbrev pub counted : MemOutput → ℤ
counted o = if o.spent then pos 0 else o.amount

-- The balance by a plain recursion.
abbrev pub balance : List MemOutput → ℤ
balance [] = pos 0
balance (o ∷ os) = counted o +ℤ balance os

pub sum-unspent : (os : List MemOutput) → sum_amounts (unspent os) ≡ balance os
unfolding sum_amounts unspent
sum-unspent [] = refl
sum-unspent (o ∷ os) = elim (Bool-cases o.spent) [
  | inl gone ↦ rw gone (grind (int_laws, sum-unspent os))
  | inr there ↦ rw there (grind (int_laws, sum-unspent os))
]

-- The amount of the first output with the hash, if it is not spent.
abbrev pub available : Bytes → List MemOutput → Option ℤ
available h [] = none
available h (o ∷ os) =
    if beq o.secret_hash h then (if o.spent then none else some o.amount) else available h os

pub mark_first-hashes {κ} :
    (P : Bytes → Type κ) (h : Bytes) (os : List MemOutput)
    → All (λ (p : MemOutput). P p.secret_hash) os
    → All (λ (p : MemOutput). P p.secret_hash) (mark_first h os)
unfolding mark_first
mark_first-hashes P h [] a = tt
mark_first-hashes P h (o ∷ os) a = elim (Bool-cases (beq o.secret_hash h)) [
  | inl here ↦ rw here a
  | inr later ↦ rw later (a.0, mark_first-hashes P h os a.1)
]

pub mark_first-Distinct :
    (h : Bytes) (os : List MemOutput) → Distinct os → Distinct (mark_first h os)
unfolding mark_first
mark_first-Distinct h [] d = tt
mark_first-Distinct h (o ∷ os) d = elim (Bool-cases (beq o.secret_hash h)) [
  | inl here ↦ rw here d
  | inr later ↦
      rw later (mark_first-hashes (λ k. k ≢ o.secret_hash) h os d.0, mark_first-Distinct h os d.1)
]

-- Marking an available output takes its amount off the balance.
pub balance-mark_first :
    (h : Bytes) (a : ℤ) (os : List MemOutput)
    → available h os ≡ some a
    → balance (mark_first h os) +ℤ a ≡ balance os
unfolding mark_first
balance-mark_first h a [] e = cc
balance-mark_first h a (o ∷ os) e = grind (int_laws, balance-mark_first h a os)

pub available-mark_first :
    (h k : Bytes) (os : List MemOutput) → h ≢ k → available k (mark_first h os) ≡ available k os
unfolding mark_first
available-mark_first h k [] n = refl
available-mark_first h k (o ∷ os) n =
    ground (arith, beq_iff o.secret_hash h, beq_iff o.secret_hash k, available-mark_first h k os n)

pub balance-append : (os ps : List MemOutput) → balance (os ++ ps) ≡ balance os +ℤ balance ps
balance-append [] ps = sym (zero-+ℤ (balance ps))
balance-append (o ∷ os) ps =
    rw (balance-append os ps) (sym (+ℤ_assoc (counted o) (balance os) (balance ps)))

set_spent-others :
    (h : Bytes) (os : List MemOutput)
    → All (λ (p : MemOutput). p.secret_hash ≢ h) os
    → set_spent h os ≡ os
unfolding set_spent
set_spent-others h [] n = refl
set_spent-others h (o ∷ os) n = ground (arith, beq_iff o.secret_hash h, set_spent-others h os n.1)

-- A statement that marks every row with the hash marks the one that there is.
pub set_spent-Distinct :
    (h : Bytes) (os : List MemOutput) → Distinct os → set_spent h os ≡ mark_first h os
unfolding set_spent mark_first
set_spent-Distinct h [] d = refl
set_spent-Distinct h (o ∷ os) d = elim (Bool-cases (beq o.secret_hash h)) [
  | inl here ↦ rw here (
      ap (λ ps. record o { spent = true } ∷ ps)
        (set_spent-others h os (
          subst (λ k. All (λ (p : MemOutput). p.secret_hash ≢ k) os)
            ((beq_iff o.secret_hash h).0 here) d.0)))
  | inr later ↦ rw later (ap (λ ps. o ∷ ps) (set_spent-Distinct h os d.1))
]
