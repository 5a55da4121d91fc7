-- ===== src/Recovery/Complete.antt =====
-- Recovery misses nothing up to the depth that the wallet reports
-- (crates/webylib-core/src/ops/recover.rs).
use webylib.Prelude.{
  ℕ, zero, suc, ◌+◌, ◌%◌, ◌^◌, ◌≤◌, ◌<◌, ◌≡◌, ◌≢◌, refl, sym, ap, ◌∙◌, subst, Bool, true, false,
  Option, none, some, List, [], ◌∷◌, Bool-cases, inl, inr, ◌⊎◌, arith, ltb, ◌==◌, if◌then◌else◌,
}
use webylib.Prelude.Int.{ℤ}
use webylib.Prelude.Text.{Text, beq, beq_iff, beq_self}
use webylib.Prelude.Assoc.{Assoc, lookup, insert, lookup-insert}
use webylib.Crypto.{Crypto, Bytes, ChainCode, derive_secret, all_chains}
use webylib.Recovery.{
  Asset, HealthEntry, invalid_gap_limit, Outcome, done, failed, RecoveredOutput, RecoveryReport,
  Progress, Candidates, sha256_hex_of_ascii, batch, push, use_depth, is_unspent, entry_amount,
  reconcile_entry, reconcile_key, reconcile, window, saturating_add, scan, scan_chain, scan_chains,
  empty_report, recover,
}
use webylib.Recovery.Steps.{>>=-eq-done, done-eq, next_chain-ok}
use webylib.Recovery.Grows.{
  every_chain, Has, Has-last, Has-Extends, reconcile-Extends, advance-ok, scan-Extends, reported-ok,
  scan_chains-Extends,
}

module _ (c : Crypto) (asset : Asset) (master : Bytes) (chain : ChainCode) (d : ℕ) where
  abbrev pub secret_at : ℕ → Text
  secret_at e = derive_secret c master chain e

  abbrev pub hash_at : ℕ → Text
  hash_at e = sha256_hex_of_ascii c asset master (secret_at e)

  -- No depth closer than the gap limit has the hash of depth `d`.
  abbrev pub IsApart : ℕ → Type 0
  IsApart gap_limit =
      (e : ℕ) → e < d + gap_limit → d < e + gap_limit → e ≢ d → hash_at e ≢ hash_at d

  -- An answer that names the hash of depth `d` as unspent.
  abbrev pub NamesUnspent : Text × HealthEntry → Type 0
  NamesUnspent (key, entry) =
      (asset.extract_hash_from_response_key key ≡ some (hash_at d)) × (entry.spent ≡ some false)

  abbrev pub IsAtDepth : RecoveredOutput → Type 0
  IsAtDepth o = (o.chain ≡ chain) × (o.depth ≡ d) × (o.secret_hex ≡ secret_at d)

  insert-at :
      (e : ℕ) (by_hash : Candidates)
      → e ≡ d
      → lookup (hash_at d) (insert (hash_at e) (secret_at e, e) by_hash) ≡ some (secret_at d, d)
  insert-at e by_hash at =
      subst
        (λ k.
          lookup (hash_at d) (insert (hash_at k) (secret_at k, k) by_hash) ≡ some (secret_at d, d))
        (sym at)
        (lookup-insert (hash_at d) (hash_at d) (secret_at d, d) by_hash
          ∙ rw (beq_self (hash_at d)) refl)

  insert-off :
      (e : ℕ) (by_hash : Candidates)
      → hash_at e ≢ hash_at d
      → lookup (hash_at d) (insert (hash_at e) (secret_at e, e) by_hash)
        ≡ lookup (hash_at d) by_hash
  insert-off e by_hash ne =
      let other : beq (hash_at e) (hash_at d) ≡ false =
        ground (arith, beq_iff (hash_at e) (hash_at d)) in
      lookup-insert (hash_at e) (hash_at d) (secret_at e, e) by_hash ∙ rw other refl

  batch-lookup :
      (start offset n : ℕ) (by_hash : Candidates) (publics : List Text)
      → start + offset + n ≤ 2 ^ 64
      → ((e : ℕ) → start + offset ≤ e → e < start + offset + n → e ≢ d → hash_at e ≢ hash_at d)
      → (lookup (hash_at d) by_hash ≡ some (secret_at d, d))
        ⊎ ((start + offset ≤ d) × (d < start + offset + n))
      → lookup (hash_at d) (batch c asset master chain start offset n by_hash publics).0
        ≡ some (secret_at d, d)
  unfolding batch
  batch-lookup start offset zero by_hash publics small apart (inl found) = found
  batch-lookup start offset zero by_hash publics small apart (inr inside) = absurd (omega arith)
  batch-lookup start offset (suc n) by_hash publics small apart known =
      let e0 = (start + offset) % 2 ^ 64 in
      let same : e0 ≡ start + offset = omega arith in
      batch-lookup start (offset + 1) n _ _ (omega arith)
        (λ e lo hi ne. apart e (omega arith) (omega arith) ne)
        (elim (Bool-cases (e0 == d)) [
          | inl at ↦ inl (insert-at e0 by_hash (ground arith))
          | inr off ↦
              let other : e0 ≢ d = ground arith in
              let skip = insert-off e0 by_hash (apart e0 (omega arith) (omega arith) other) in
              elim known [
                | inl found ↦ inl (skip ∙ found)
                | inr inside ↦ inr (omega arith, omega arith)
              ]
        ])

  push-finds :
      (o : RecoveredOutput) (p : Progress) (wats : Outcome (Option ℤ)) {q : Progress}
      → IsAtDepth o
      → push c asset master chain o p wats ≡ done q
      → Has IsAtDepth q.found
  push-finds o p (failed x) h e = cc
  push-finds o p (done wats) h e =
      subst (λ (r : Progress). Has IsAtDepth r.found) (done-eq e)
        (Has-last IsAtDepth p.found (record o { amount_wats = wats }) h)

  reconcile_key-finds :
      (by_hash : Candidates) (key : Text) (entry : HealthEntry) (p : Progress) {q : Progress}
      → lookup (hash_at d) by_hash ≡ some (secret_at d, d)
      → NamesUnspent (key, entry)
      → reconcile_key c asset master chain by_hash
          (asset.extract_hash_from_response_key key)
          entry
          p
        ≡ done q
      → Has IsAtDepth q.found
  unfolding reconcile_entry
  reconcile_key-finds by_hash key entry p {q} known names e =
      let e1 : reconcile_key c asset master chain by_hash (some (hash_at d)) entry p ≡ done q =
        subst (λ k. reconcile_key c asset master chain by_hash k entry p ≡ done q) names.0 e in
      let e2 : reconcile_entry c asset master chain (hash_at d) entry (some (secret_at d, d)) p
          ≡ done q =
        subst (λ k. reconcile_entry c asset master chain (hash_at d) entry k p ≡ done q) known e1 in
      push-finds
        (record {
          secret_hex = secret_at d;
          hash = hash_at d;
          amount_wats = none;
          chain = chain;
          depth = d;
        })
        (use_depth c asset master chain entry.spent d p)
        (entry_amount asset.server_reports_amount entry.amount) (refl, refl, refl)
        (subst
          (λ b.
            (if b
              then push c asset master chain
                  (record {
                    secret_hex = secret_at d;
                    hash = hash_at d;
                    amount_wats = none;
                    chain = chain;
                    depth = d;
                  })
                  (use_depth c asset master chain entry.spent d p)
                  (entry_amount asset.server_reports_amount entry.amount)
              else done (use_depth c asset master chain entry.spent d p))
            ≡ done q)
          (ap is_unspent names.1) e2)

  reconcile-finds :
      (by_hash : Candidates) (results : Assoc HealthEntry) (p : Progress) {q : Progress}
      → lookup (hash_at d) by_hash ≡ some (secret_at d, d)
      → Has NamesUnspent results
      → reconcile c asset master chain by_hash results p ≡ done q
      → Has IsAtDepth q.found
  unfolding reconcile
  reconcile-finds by_hash [] p known h e = absurd h
  reconcile-finds by_hash ((key, entry) ∷ results) p {q} known h e =
      let (p', e1, e2) =
        >>=-eq-done
          (reconcile_key c asset master chain by_hash (asset.extract_hash_from_response_key key)
            entry p)
          (λ p'. reconcile c asset master chain by_hash results p') e in
      elim h [
        | inl here ↦
            Has-Extends IsAtDepth p'.found q.found
              (reconcile-Extends c asset master chain by_hash results p' e2)
              (reconcile_key-finds by_hash key entry p known here e1)
        | inr later ↦ reconcile-finds by_hash results p' known later e2
      ]

  module _ (ask : List Text → Outcome (Assoc HealthEntry)) (gap_limit reported_depth : ℕ) where
    -- Every window over depth `d` is answered by an entry that names its hash as unspent, if at all.
    abbrev pub IsAnswered : Type 0
    IsAnswered =
        (start : ℕ) (results : Assoc HealthEntry)
        → start ≤ d
        → d < start + gap_limit
        → ask (batch c asset master chain start 0 gap_limit [] []).1 ≡ done results
        → Has NamesUnspent results

    window-finds :
        (current_depth : ℕ) (max_used : Option ℕ) (recovered : List RecoveredOutput) {q : Progress}
        → IsAnswered
        → IsApart gap_limit
        → d + gap_limit ≤ 2 ^ 64
        → current_depth ≤ d
        → d < current_depth + gap_limit
        → window c asset master chain ask gap_limit reported_depth current_depth max_used recovered
          ≡ done q
        → Has IsAtDepth q.found
    unfolding window
    window-finds current_depth max_used recovered answered apart small lo hi e =
        let made = batch c asset master chain current_depth 0 gap_limit [] [] in
        let start : Progress = record { had_hit = false; max_used = max_used; found = recovered } in
        let (results, e1, e2) =
          >>=-eq-done (ask made.1) (λ results. reconcile c asset master chain made.0 results start)
            e in
        let known =
          batch-lookup current_depth 0 gap_limit [] [] (omega arith)
            (λ e l h ne. apart e (omega arith) (omega arith) ne) (inr (omega arith, omega arith)) in
        reconcile-finds made.0 results start known (answered current_depth results lo hi e1) e2

    scan-finds :
        (fuel current_depth consecutive_empty : ℕ) (max_used : Option ℕ)
        (recovered : List RecoveredOutput) {q : Progress}
        → IsAnswered
        → IsApart gap_limit
        → d + gap_limit ≤ 2 ^ 64
        → 1 ≤ gap_limit
        → d ≤ reported_depth
        → current_depth ≤ d
        → scan c asset master chain ask gap_limit reported_depth fuel current_depth
            consecutive_empty max_used recovered
          ≡ some (done q)
        → Has IsAtDepth q.found
    unfolding scan
    scan-finds zero current_depth consecutive_empty max_used recovered answered apart small pos
          reached lo e =
        absurd cc
    scan-finds (suc fuel) current_depth consecutive_empty max_used recovered {q} answered apart
          small pos reached lo e =
        let next = saturating_add current_depth gap_limit in
        let again = λ (p : Progress) (n : ℕ).
          scan c asset master chain ask gap_limit reported_depth fuel next n p.max_used p.found in
        let (p, n, w, after) =
          advance-ok c asset master chain ask gap_limit reported_depth current_depth
            consecutive_empty
            (window c asset master chain ask gap_limit reported_depth current_depth max_used
              recovered)
            again e in
        elim (Bool-cases (ltb d (current_depth + gap_limit))) [
          | inl inside ↦
              let found =
                window-finds current_depth max_used recovered answered apart small lo (ground arith)
                  w in
              elim after [
                | inl (k, same) ↦ subst (λ (r : Progress). Has IsAtDepth r.found) same found
                | inr more ↦
                    Has-Extends IsAtDepth p.found q.found
                      (scan-Extends c asset master chain ask gap_limit reported_depth fuel next n
                        p.max_used p.found more)
                      found
              ]
          | inr beyond ↦
              let there : next ≡ current_depth + gap_limit =
                unfold saturating_add in ground arith in
              elim after [
                | inl (k, same) ↦ absurd (ground arith)
                | inr more ↦
                    scan-finds fuel next n p.max_used p.found answered apart small pos reached
                      (ground arith) more
              ]
        ]

module _ (c : Crypto) (asset : Asset) (master : Bytes)
    (ask : ChainCode → List Text → Outcome (Assoc HealthEntry)) (fuel gap_limit : ℕ)
    (reported_depths : ChainCode → ℕ) where
  scan_chain-finds :
      (chain : ChainCode) (d : ℕ) (report : RecoveryReport) {next : RecoveryReport}
      → IsAnswered c asset master chain d (ask chain) gap_limit (reported_depths chain)
      → IsApart c asset master chain d gap_limit
      → d + gap_limit ≤ 2 ^ 64
      → 1 ≤ gap_limit
      → d ≤ reported_depths chain
      → scan_chain c asset master ask fuel gap_limit reported_depths chain report ≡ some (done next)
      → Has (IsAtDepth c asset master chain d) next.recovered
  unfolding scan_chain
  scan_chain-finds chain d report answered apart small pos reached e =
      let (p, s, same) = reported-ok c asset master chain report _ e in
      subst (Has (IsAtDepth c asset master chain d)) (sym same) (
        scan-finds c asset master chain d (ask chain) gap_limit (reported_depths chain) fuel 0 0
          none report.recovered answered apart small pos reached (omega arith) s)

  scan_chains-finds :
      (chain : ChainCode) (d : ℕ) (chains : List ChainCode) (report : RecoveryReport)
      {out : RecoveryReport}
      → IsAnswered c asset master chain d (ask chain) gap_limit (reported_depths chain)
      → IsApart c asset master chain d gap_limit
      → d + gap_limit ≤ 2 ^ 64
      → 1 ≤ gap_limit
      → d ≤ reported_depths chain
      → Has (λ k. k ≡ chain) chains
      → scan_chains c asset master ask fuel gap_limit reported_depths chains report
        ≡ some (done out)
      → Has (IsAtDepth c asset master chain d) out.recovered
  unfolding scan_chains
  scan_chains-finds chain d [] report answered apart small pos reached h e = absurd h
  scan_chains-finds chain d (k ∷ chains) report {out} answered apart small pos reached h e =
      let (next, e1, e2) =
        next_chain-ok c asset master ask fuel gap_limit reported_depths
          (scan_chains c asset master ask fuel gap_limit reported_depths chains)
          (scan_chain c asset master ask fuel gap_limit reported_depths k report) e in
      elim h [
        | inl here ↦
            Has-Extends (IsAtDepth c asset master chain d) next.recovered out.recovered
              (scan_chains-Extends c asset master ask fuel gap_limit reported_depths chains next e2)
              (scan_chain-finds chain d report answered apart small pos reached (
                subst
                  (λ j.
                    scan_chain c asset master ask fuel gap_limit reported_depths j report
                    ≡ some (done next))
                  here e1))
        | inr later ↦
            scan_chains-finds chain d chains next answered apart small pos reached later e2
      ]

  -- Where a recovery returns a report, it misses no unspent output up to the depth that the wallet
  -- reports for a chain: if every answer about a window over such a depth names the hash of the
  -- depth's secret as unspent, then the report has an output of that chain and depth with that secret.
  -- The secrets of other depths closer than the gap limit have other hashes, and the gap limit added
  -- to the depth does not pass 64 bits.
  pub recover-IsAtDepth :
      (chain : ChainCode) (d : ℕ) {report : RecoveryReport}
      → IsAnswered c asset master chain d (ask chain) gap_limit (reported_depths chain)
      → IsApart c asset master chain d gap_limit
      → d + gap_limit ≤ 2 ^ 64
      → d ≤ reported_depths chain
      → recover c asset master ask fuel gap_limit reported_depths ≡ some (done report)
      → Has (IsAtDepth c asset master chain d) report.recovered
  unfolding recover
  recover-IsAtDepth chain d {report} answered apart small reached e = from (gap_limit == 0) refl e
    where
      from :
          (b : Bool)
          → (gap_limit == 0) ≡ b
          → (if b
              then some (failed invalid_gap_limit)
              else scan_chains c asset master ask fuel gap_limit reported_depths all_chains
                  (empty_report c asset master ask fuel gap_limit reported_depths))
            ≡ some (done report)
          → Has (IsAtDepth c asset master chain d) report.recovered
      from true z e = absurd cc
      from false z e =
          scan_chains-finds chain d all_chains
            (empty_report c asset master ask fuel gap_limit reported_depths) answered apart small
            (ground arith) reached (every_chain chain) e
