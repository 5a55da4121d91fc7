-- ===== src/Recovery/Fuel.antt =====
-- That a scan comes to an end (crates/webylib-core/src/ops/recover.rs): enough fuel for it.
use webylib.Prelude.{
  ℕ, zero, suc, ◌+◌, ◌*◌, ◌≤◌, ◌<◌, ◌≡◌, refl, sym, subst, Bool, true, false, Option, none, some,
  List, [], arith, Bool-cases, ◌⊎◌, inl, inr,
}
use webylib.Prelude.Text.{Text}
use webylib.Prelude.Assoc.{Assoc}
use webylib.Crypto.{Crypto, Bytes, ChainCode}
use webylib.Recovery.{
  Asset, HealthEntry, Outcome, done, failed, RecoveredOutput, Progress, window, stop_if, advance,
  is_last, count_empty, saturating_add, max_u64, scan,
}

module _ (c : Crypto) (asset : Asset) (master : Bytes) (chain : ChainCode)
    (ask : List Text → Outcome (Assoc HealthEntry)) (gap_limit reported_depth : ℕ) where
  -- From the depth `bound` on no window has a hit.
  abbrev pub IsQuietFrom : ℕ → Type 0
  IsQuietFrom bound =
      (current_depth : ℕ) (max_used : Option ℕ) (recovered : List RecoveredOutput) (p : Progress)
      → bound ≤ current_depth
      → window c asset master chain ask gap_limit reported_depth current_depth max_used recovered
        ≡ done p
      → p.had_hit ≡ false

  -- A scan that goes on has had a hit, or is not past the reported depth.
  goes_on :
      (n current_depth : ℕ) (p : Progress)
      → gap_limit ≤ max_u64
      → is_last c asset master chain ask gap_limit reported_depth
          (count_empty c asset master chain ask gap_limit reported_depth p.had_hit n)
          p
          (saturating_add current_depth gap_limit)
        ≡ false
      → (p.had_hit ≡ true) ⊎ (saturating_add current_depth gap_limit ≤ reported_depth)
  unfolding saturating_add
  goes_on n current_depth p fits e = ground arith

  module _ (bound : ℕ) (positive : 0 < gap_limit)
      (fits : bound + reported_depth + gap_limit ≤ max_u64) (quiet : IsQuietFrom bound) where
    abbrev Ends : Option (Outcome Progress) → Type 0
    Ends out = (r : Outcome Progress) × (out ≡ some r)

    near_enough :
        (n current_depth : ℕ) (p : Progress)
        → is_last c asset master chain ask gap_limit reported_depth
            (count_empty c asset master chain ask gap_limit reported_depth p.had_hit n)
            p
            (saturating_add current_depth gap_limit)
          ≡ false
        → (bound ≤ current_depth → p.had_hit ≡ false)
        → current_depth < bound + reported_depth
    unfolding saturating_add
    near_enough n current_depth p more quiet_here =
        elim (goes_on n current_depth p (omega arith) more) [
          | inl hit ↦ ground arith
          | inr near ↦ ground arith
        ]

    next_depth :
        (current_depth : ℕ)
        → current_depth < bound + reported_depth
        → saturating_add current_depth gap_limit ≡ current_depth + gap_limit
    unfolding saturating_add
    next_depth current_depth near = ground arith

    advance-Ends :
        (n current_depth : ℕ) (m : Outcome Progress)
        (again : Progress → ℕ → Option (Outcome Progress))
        → ((p : Progress) → m ≡ done p → bound ≤ current_depth → p.had_hit ≡ false)
        → ((p : Progress) (k : ℕ) → current_depth < bound + reported_depth → Ends (again p k))
        → Ends (advance c asset master chain ask gap_limit reported_depth current_depth n m again)
    advance-Ends n current_depth (failed x) again quiet_here later = (failed x, refl)
    advance-Ends n current_depth (done p) again quiet_here later =
        let e = count_empty c asset master chain ask gap_limit reported_depth p.had_hit n in
        let last =
          is_last c asset master chain ask gap_limit reported_depth e p
            (saturating_add current_depth gap_limit) in
        let stopping = λ (b : Bool).
          Ends (stop_if c asset master chain ask gap_limit reported_depth b p e again) in
        elim (Bool-cases last) [
          | inl stop ↦ subst stopping (sym stop) (done p, refl)
          | inr more ↦
              subst stopping (sym more)
                (later p e (near_enough n current_depth p more (quiet_here p refl)))
        ]

    scan-Ends :
        (fuel current_depth consecutive_empty : ℕ) (max_used : Option ℕ)
        (recovered : List RecoveredOutput)
        → current_depth < bound + reported_depth + gap_limit
        → bound + reported_depth + gap_limit ≤ current_depth + fuel * gap_limit
        → Ends (
            scan c asset master chain ask gap_limit reported_depth fuel current_depth
              consecutive_empty max_used recovered)
    unfolding scan
    scan-Ends zero current_depth n max_used recovered below enough = absurd (omega arith)
    scan-Ends (suc fuel) current_depth n max_used recovered below enough =
        let next = saturating_add current_depth gap_limit in
        let sum : suc fuel * gap_limit ≡ gap_limit + fuel * gap_limit = grind arith in
        advance-Ends n current_depth
          (window c asset master chain ask gap_limit reported_depth current_depth max_used
            recovered)
          (λ p k.
            scan c asset master chain ask gap_limit reported_depth fuel next k p.max_used p.found)
          (λ p w far. quiet current_depth max_used recovered p far w)
          (λ p k near.
            let exact = next_depth current_depth near in
            scan-Ends fuel next k p.max_used p.found (omega arith) (omega arith))

    -- A scan of a chain ends, with progress or with an error of the server's, once it has fuel for
    -- all windows up to the bound from which no window has a hit and the depth that the wallet
    -- reports, where these depths are in the range of a `u64`.
    pub scan-ends :
        (fuel : ℕ)
        → bound + reported_depth + gap_limit ≤ fuel * gap_limit
        → (r : Outcome Progress) × (scan c asset master chain ask gap_limit reported_depth fuel 0 0
              none []
            ≡ some r)
    scan-ends fuel enough = scan-Ends fuel 0 0 none [] (omega arith) (omega arith)
