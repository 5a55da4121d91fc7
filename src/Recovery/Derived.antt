-- ===== src/Recovery/Derived.antt =====
-- What every output that a scan recovers is (crates/webylib-core/src/ops/recover.rs).
use webylib.Prelude.{
  ℕ, zero, suc, ◌+◌, ◌≡◌, refl, sym, subst, Bool, true, false, Option, none, some, List, [], ◌∷◌,
  All, All-append, ◌==◌, if◌then◌else◌, Bool-cases, inl, inr,
}
use webylib.Prelude.Int.{ℤ}
use webylib.Prelude.Text.{Text, beq, beq_iff}
use webylib.Prelude.Assoc.{Assoc, lookup, insert}
use webylib.Crypto.{Crypto, Bytes, ChainCode, derive_secret, all_chains}
use webylib.Recovery.{
  Asset, HealthEntry, invalid_gap_limit, Outcome, done, failed, RecoveredOutput, RecoveryReport,
  Progress, Candidates, sha256_hex_of_ascii, batch, push, use_depth, is_unspent, entry_amount,
  reconcile_entry, reconcile_key, reconcile, window, stop_if, advance, is_last, count_empty,
  saturating_add, scan, scan_chain, reported, scan_chains, empty_report, recover,
}
use webylib.Recovery.Steps.{>>=-eq-done, done-eq, some-eq, next_chain-ok}

module _ (c : Crypto) (asset : Asset) (master : Bytes) where
  -- The output is the secret that the seed gives at its chain and depth, under the hash of that secret.
  pub record IsDerived (o : RecoveredOutput) : Type 0 where
    pub secret : o.secret_hex ≡ derive_secret c master o.chain o.depth
    pub hash : o.hash ≡ sha256_hex_of_ascii c asset master o.secret_hex

  module _ (chain : ChainCode) where
    abbrev IsCandidate : Text → Text × ℕ → Type 0
    IsCandidate hash (secret_hex, depth) =
        (secret_hex ≡ derive_secret c master chain depth)
        × (hash ≡ sha256_hex_of_ascii c asset master secret_hex)

    abbrev AreCandidates : Candidates → Type 0
    AreCandidates = All (λ (e : Text × (Text × ℕ)). IsCandidate e.0 e.1)

    insert-AreCandidates :
        (hash : Text) (x : Text × ℕ) (m : Candidates)
        → IsCandidate hash x
        → AreCandidates m
        → AreCandidates (insert hash x m)
    unfolding insert
    insert-AreCandidates hash x [] h a = (h, tt)
    insert-AreCandidates hash x ((j, y) ∷ m) h a = elim (Bool-cases (beq j hash)) [
      | inl same ↦ rw same (h, a.1)
      | inr other ↦ rw other (a.0, insert-AreCandidates hash x m h a.1)
    ]

    lookup-IsCandidate :
        (hash : Text) (m : Candidates)
        → AreCandidates m
        → (x : Text × ℕ) → lookup hash m ≡ some x
        → IsCandidate hash x
    unfolding lookup
    lookup-IsCandidate hash [] a x e = cc
    lookup-IsCandidate hash ((j, y) ∷ m) a x e = elim (Bool-cases (beq j hash)) [
      | inl same ↦
          let e' : some y ≡ some x =
            subst (λ b. (if b then some y else lookup hash m) ≡ some x) same e in
          subst (λ k. IsCandidate k x) ((beq_iff j hash).0 same)
            (subst (IsCandidate j) (some-eq e') a.0)
      | inr other ↦
          lookup-IsCandidate hash m a.1 x
            (subst (λ b. (if b then some y else lookup hash m) ≡ some x) other e)
    ]

    batch-AreCandidates :
        (start offset n : ℕ) (by_hash : Candidates) (publics : List Text)
        → AreCandidates by_hash
        → AreCandidates (batch c asset master chain start offset n by_hash publics).0
    unfolding batch
    batch-AreCandidates start offset zero by_hash publics a = a
    batch-AreCandidates start offset (suc n) by_hash publics a =
        batch-AreCandidates start (offset + 1) n _ _
          (insert-AreCandidates _ _ by_hash (refl, refl) a)

    push-IsDerived :
        (o : RecoveredOutput) (p : Progress) (wats : Outcome (Option ℤ)) {q : Progress}
        → IsDerived o
        → All IsDerived p.found
        → push c asset master chain o p wats ≡ done q
        → All IsDerived q.found
    push-IsDerived o p (failed x) h a e = cc
    push-IsDerived o p (done wats) h a e =
        let derived : IsDerived (record o { amount_wats = wats }) = record {
          secret = h.secret;
          hash = h.hash;
        } in
        subst (λ (r : Progress). All IsDerived r.found) (done-eq e)
          (All-append IsDerived p.found (record o { amount_wats = wats } ∷ []) a (derived, tt))

    use_depth-found :
        (spent : Option Bool) (depth : ℕ) (p : Progress)
        → (use_depth c asset master chain spent depth p).found ≡ p.found
    use_depth-found none depth p = refl
    use_depth-found (some b) depth p = refl

    reconcile_entry-IsDerived :
        (hash : Text) (entry : HealthEntry) (candidate : Option (Text × ℕ)) (p : Progress)
        {q : Progress}
        → ((x : Text × ℕ) → candidate ≡ some x → IsCandidate hash x)
        → All IsDerived p.found
        → reconcile_entry c asset master chain hash entry candidate p ≡ done q
        → All IsDerived q.found
    unfolding reconcile_entry
    reconcile_entry-IsDerived hash entry none p h a e =
        subst (λ (r : Progress). All IsDerived r.found) (done-eq e) a
    reconcile_entry-IsDerived hash entry (some (secret_hex, depth)) p {q = q} h a e =
        let p' = use_depth c asset master chain entry.spent depth p in
        let (secret_is, hash_is) = h (secret_hex, depth) refl in
        let o : RecoveredOutput = record {
          secret_hex = secret_hex;
          hash = hash;
          amount_wats = none;
          chain = chain;
          depth = depth;
        } in
        let a' : All IsDerived p'.found =
          subst (All IsDerived) (sym (use_depth-found entry.spent depth p)) a in
        let wats = entry_amount asset.server_reports_amount entry.amount in
        elim (Bool-cases (is_unspent entry.spent)) [
          | inl unspent ↦
              push-IsDerived o p' wats (record { secret = secret_is; hash = hash_is }) a'
                (subst (λ b. (if b then push c asset master chain o p' wats else done p') ≡ done q)
                  unspent e)
          | inr other ↦
              subst (λ (r : Progress). All IsDerived r.found)
                (done-eq (
                  subst (λ b. (if b then push c asset master chain o p' wats else done p') ≡ done q)
                    other e))
                a'
        ]

    reconcile_key-IsDerived :
        (by_hash : Candidates) (key : Option Text) (entry : HealthEntry) (p : Progress)
        {q : Progress}
        → AreCandidates by_hash
        → All IsDerived p.found
        → reconcile_key c asset master chain by_hash key entry p ≡ done q
        → All IsDerived q.found
    reconcile_key-IsDerived by_hash none entry p cs a e =
        subst (λ (r : Progress). All IsDerived r.found) (done-eq e) a
    reconcile_key-IsDerived by_hash (some hash) entry p cs a e =
        reconcile_entry-IsDerived hash entry (lookup hash by_hash) p
          (lookup-IsCandidate hash by_hash cs) a e

    reconcile-IsDerived :
        (by_hash : Candidates) (results : Assoc HealthEntry) (p : Progress) {q : Progress}
        → AreCandidates by_hash
        → All IsDerived p.found
        → reconcile c asset master chain by_hash results p ≡ done q
        → All IsDerived q.found
    unfolding reconcile
    reconcile-IsDerived by_hash [] p cs a e =
        subst (λ (r : Progress). All IsDerived r.found) (done-eq e) a
    reconcile-IsDerived by_hash ((key, entry) ∷ results) p cs a e =
        let (p', e1, e2) =
          >>=-eq-done
            (reconcile_key c asset master chain by_hash (asset.extract_hash_from_response_key key)
              entry p)
            (λ p'. reconcile c asset master chain by_hash results p') e in
        reconcile-IsDerived by_hash results p' cs
          (reconcile_key-IsDerived by_hash _ entry p cs a e1) e2

    module _ (ask : List Text → Outcome (Assoc HealthEntry)) (gap_limit reported_depth : ℕ) where
      window-IsDerived :
          (current_depth : ℕ) (max_used : Option ℕ) (recovered : List RecoveredOutput)
          {q : Progress}
          → All IsDerived recovered
          → window c asset master chain ask gap_limit reported_depth current_depth max_used
              recovered
            ≡ done q
          → All IsDerived q.found
      unfolding window
      window-IsDerived current_depth max_used recovered a e =
          let made = batch c asset master chain current_depth 0 gap_limit [] [] in
          let start : Progress = record {
            had_hit = false;
            max_used = max_used;
            found = recovered;
          } in
          let (results, e1, e2) =
            >>=-eq-done (ask made.1)
              (λ results. reconcile c asset master chain made.0 results start) e in
          reconcile-IsDerived made.0 results start
            (batch-AreCandidates current_depth 0 gap_limit [] [] tt) a e2

      -- What holds of every window's progress, and is kept by what follows it, holds of the scan's.
      advance-IsDerived :
          (current_depth consecutive_empty : ℕ) (m : Outcome Progress)
          (again : Progress → ℕ → Option (Outcome Progress)) {q : Progress}
          → ((p : Progress) → m ≡ done p → All IsDerived p.found)
          → ((p : Progress) (n : ℕ)
              → All IsDerived p.found
              → again p n ≡ some (done q)
              → All IsDerived q.found)
          → advance c asset master chain ask gap_limit reported_depth current_depth
              consecutive_empty m again
            ≡ some (done q)
          → All IsDerived q.found
      advance-IsDerived current_depth consecutive_empty (failed x) again here later e = cc
      advance-IsDerived current_depth consecutive_empty (done p) again {q = q} here later e =
          let n =
            count_empty c asset master chain ask gap_limit reported_depth p.had_hit
              consecutive_empty in
          stopped
            (is_last c asset master chain ask gap_limit reported_depth n p
              (saturating_add current_depth gap_limit))
            n e
        where
          stopped :
              (b : Bool) (n : ℕ)
              → stop_if c asset master chain ask gap_limit reported_depth b p n again
                ≡ some (done q)
              → All IsDerived q.found
          stopped true n e =
              subst (λ (r : Progress). All IsDerived r.found) (done-eq (some-eq e)) (here p refl)
          stopped false n e = later p n (here p refl) e

      scan-IsDerived :
          (fuel current_depth consecutive_empty : ℕ) (max_used : Option ℕ)
          (recovered : List RecoveredOutput) {q : Progress}
          → All IsDerived recovered
          → scan c asset master chain ask gap_limit reported_depth fuel current_depth
              consecutive_empty max_used recovered
            ≡ some (done q)
          → All IsDerived q.found
      unfolding scan
      scan-IsDerived zero current_depth consecutive_empty max_used recovered a e = cc
      scan-IsDerived (suc fuel) current_depth consecutive_empty max_used recovered a e =
          advance-IsDerived current_depth consecutive_empty
            (window c asset master chain ask gap_limit reported_depth current_depth max_used
              recovered)
            (λ p n.
              scan c asset master chain ask gap_limit reported_depth fuel
                (saturating_add current_depth gap_limit) n p.max_used p.found)
            (λ p w. window-IsDerived current_depth max_used recovered a w)
            (λ p n h r.
              scan-IsDerived fuel (saturating_add current_depth gap_limit) n p.max_used p.found h r)
            e

    reported-IsDerived :
        (report : RecoveryReport) (out : Option (Outcome Progress)) {next : RecoveryReport}
        → ((p : Progress) → out ≡ some (done p) → All IsDerived p.found)
        → reported c asset master chain report out ≡ some (done next)
        → All IsDerived next.recovered
    reported-IsDerived report none h e = cc
    reported-IsDerived report (some (failed x)) h e = cc
    reported-IsDerived report (some (done p)) h e =
        subst (λ (r : RecoveryReport). All IsDerived r.recovered) (done-eq (some-eq e)) (h p refl)

  module _ (ask : ChainCode → List Text → Outcome (Assoc HealthEntry)) (fuel gap_limit : ℕ)
      (reported_depths : ChainCode → ℕ) where
    scan_chains-IsDerived :
        (chains : List ChainCode) (report : RecoveryReport) {out : RecoveryReport}
        → All IsDerived report.recovered
        → scan_chains c asset master ask fuel gap_limit reported_depths chains report
          ≡ some (done out)
        → All IsDerived out.recovered
    unfolding scan_chains scan_chain
    scan_chains-IsDerived [] report a e =
        subst (λ (r : RecoveryReport). All IsDerived r.recovered) (done-eq (some-eq e)) a
    scan_chains-IsDerived (chain ∷ chains) report a e =
        let (next, e1, e2) =
          next_chain-ok c asset master ask fuel gap_limit reported_depths
            (scan_chains c asset master ask fuel gap_limit reported_depths chains)
            (scan_chain c asset master ask fuel gap_limit reported_depths chain report) e in
        scan_chains-IsDerived chains next
          (reported-IsDerived chain report _
            (λ p s.
              scan-IsDerived chain (ask chain) gap_limit (reported_depths chain) fuel 0 0 none
                report.recovered a s)
            e1)
          e2

    -- Where a recovery returns a report, whatever the server answers, every output in it carries the
    -- secret that the seed gives at the output's own chain and depth, and the hash of that secret.
    pub recover-IsDerived :
        {report : RecoveryReport}
        → recover c asset master ask fuel gap_limit reported_depths ≡ some (done report)
        → All IsDerived report.recovered
    unfolding recover
    recover-IsDerived {report = report} e = from (gap_limit == 0) e
      where
        from :
            (b : Bool)
            → (if b
                then some (failed invalid_gap_limit)
                else scan_chains c asset master ask fuel gap_limit reported_depths all_chains
                    (empty_report c asset master ask fuel gap_limit reported_depths))
              ≡ some (done report)
            → All IsDerived report.recovered
        from true e = cc
        from false e =
            scan_chains-IsDerived all_chains
              (empty_report c asset master ask fuel gap_limit reported_depths) tt e
