-- ===== src/Miner/Search.antt =====
-- The search for a preimage (src/miner.rs).
use webylib.Prelude.{
  ℕ, zero, suc, ◌+◌, ◌%◌, ◌^◌, ◌≤◌, ◌<◌, ◌≡◌, sym, ap, ◌∙◌, subst, true, false, Option, leb, arith,
  Bool-cases, inl, inr, if◌then◌else◌,
}
use webylib.Prelude.Text.{Text}
use webylib.Fault.{Result, ok, err}
use webylib.Fault
use webylib.Crypto.{Crypto, Bytes}
use webylib.Miner.{leading_zero_bits, candidate_at, digest_at, try_candidate, search}

module _ (c : Crypto) (clock : ℕ → Result ℕ) (webcash_str : Text) (subsidy : Option Text)
    (difficulty : ℕ) where
  abbrev pub Meets : ℕ → ℕ → Type 0
  Meets timestamp nonce =
      difficulty
      ≤ leading_zero_bits (digest_at c clock webcash_str subsidy difficulty timestamp nonce)

  -- A nonce of `nonce` to `nonce + k`, at the time of it, ends the search.
  abbrev pub Found : Result (Text × Bytes) → ℕ → ℕ → Type 0
  Found result nonce k =
      (j : ℕ) × (timestamp : ℕ) × (nonce ≤ j)
      × (j ≤ nonce + k)
      × (clock j ≡ ok timestamp)
      × Meets timestamp j
      × (result
          ≡ ok (
            candidate_at c clock webcash_str subsidy difficulty timestamp j,
            digest_at c clock webcash_str subsidy difficulty timestamp j,
          ))

  try_candidate-ends :
      (nonce timestamp : ℕ) (more : Result (Text × Bytes))
      → leb difficulty
          (leading_zero_bits (digest_at c clock webcash_str subsidy difficulty timestamp nonce))
        ≡ true
      → try_candidate c clock webcash_str subsidy difficulty nonce more timestamp
        ≡ ok (
          candidate_at c clock webcash_str subsidy difficulty timestamp nonce,
          digest_at c clock webcash_str subsidy difficulty timestamp nonce,
        )
  try_candidate-ends nonce timestamp more enough_bits =
      ap
        (λ b.
          if b
          then ok (
            candidate_at c clock webcash_str subsidy difficulty timestamp nonce,
            digest_at c clock webcash_str subsidy difficulty timestamp nonce,
          )
          else more)
        enough_bits

  try_candidate-more :
      (nonce timestamp : ℕ) (more : Result (Text × Bytes))
      → leb difficulty
          (leading_zero_bits (digest_at c clock webcash_str subsidy difficulty timestamp nonce))
        ≡ false
      → try_candidate c clock webcash_str subsidy difficulty nonce more timestamp ≡ more
  try_candidate-more nonce timestamp more few_bits =
      ap
        (λ b.
          if b
          then ok (
            candidate_at c clock webcash_str subsidy difficulty timestamp nonce,
            digest_at c clock webcash_str subsidy difficulty timestamp nonce,
          )
          else more)
        few_bits

  missed :
      (nonce timestamp : ℕ)
      → Meets timestamp nonce
      → leb difficulty
          (leading_zero_bits (digest_at c clock webcash_str subsidy difficulty timestamp nonce))
        ≡ false
      → ⊥
  missed nonce timestamp meets few_bits = ground arith

  search-step :
      (fuel nonce timestamp : ℕ)
      → clock nonce ≡ ok timestamp
      → search c clock webcash_str subsidy difficulty (suc fuel) nonce
        ≡ try_candidate c clock webcash_str subsidy difficulty nonce
            (search c clock webcash_str subsidy difficulty fuel ((nonce + 1) % 2 ^ 64))
            timestamp
  unfolding search
  search-step fuel nonce timestamp works =
      ap
        (λ r. Fault.◌>>=◌ r (
          try_candidate c clock webcash_str subsidy difficulty nonce
            (search c clock webcash_str subsidy difficulty fuel ((nonce + 1) % 2 ^ 64))))
        works

  -- The search from the next nonce, one candidate shorter.
  later :
      (result : Result (Text × Bytes)) (nonce k : ℕ)
      → Found result (nonce + 1) k
      → Found result nonce (suc k)
  later result nonce k (j, timestamp, lo, hi, at, meets, same) =
      (j, timestamp, omega arith, omega arith, at, meets, same)

  onward :
      (time : ℕ → ℕ) (fuel nonce : ℕ)
      → ((k : ℕ)
          → Meets (time (nonce + 1 + k)) (nonce + 1 + k)
          → k < fuel
          → nonce + 1 + k < 2 ^ 64
          → Found (search c clock webcash_str subsidy difficulty fuel (nonce + 1)) (nonce + 1) k)
      → (k : ℕ) → Meets (time (nonce + k)) (nonce + k)
      → k < suc fuel
      → nonce + k < 2 ^ 64
      → leb difficulty
          (leading_zero_bits (digest_at c clock webcash_str subsidy difficulty (time nonce) nonce))
        ≡ false
      → Found (search c clock webcash_str subsidy difficulty fuel ((nonce + 1) % 2 ^ 64)) nonce k
  onward time fuel nonce ih zero meets enough small few_bits =
      absurd
        (missed nonce (time nonce) (subst (λ n. Meets (time n) n) (omega arith) meets) few_bits)
  onward time fuel nonce ih (suc k) meets enough small few_bits =
      let next : (nonce + 1) % 2 ^ 64 ≡ nonce + 1 = omega arith in
      let ahead : nonce + suc k ≡ nonce + 1 + k = omega arith in
      later (search c clock webcash_str subsidy difficulty fuel ((nonce + 1) % 2 ^ 64)) nonce k (
        subst (λ n. Found (search c clock webcash_str subsidy difficulty fuel n) (nonce + 1) k)
          (sym next) (ih k (subst (λ n. Meets (time n) n) ahead meets) (omega arith) (omega arith)))

  -- Where the clock works and some candidate within the fuel meets the difficulty, the search ends
  -- with a candidate and its digest that meet it, at a nonce up to that candidate's; the nonces fit 64
  -- bits.
  pub search-Found :
      (time : ℕ → ℕ) (k fuel nonce : ℕ)
      → ((n : ℕ) → clock n ≡ ok (time n))
      → Meets (time (nonce + k)) (nonce + k)
      → k < fuel
      → nonce + k < 2 ^ 64
      → Found (search c clock webcash_str subsidy difficulty fuel nonce) nonce k
  search-Found time k zero nonce works meets enough small = absurd (omega arith)
  search-Found time k (suc fuel) nonce works meets enough small =
      let step = search-step fuel nonce (time nonce) (works nonce) in
      elim (Bool-cases (
        leb difficulty (
          leading_zero_bits
            (digest_at c clock webcash_str subsidy difficulty (time nonce) nonce)))) [
              | inl enough_bits ↦ (
                nonce,
                time nonce,
                omega arith,
                omega arith,
                works nonce,
                ground arith,
                step ∙ try_candidate-ends nonce (time nonce) _ enough_bits,
              )
              | inr few_bits ↦
                  subst (λ r. Found r nonce k)
                    (sym (step ∙ try_candidate-more nonce (time nonce) _ few_bits))
                    (onward time fuel nonce (λ k. search-Found time k fuel (nonce + 1) works) k
                      meets enough small few_bits)
            ]
