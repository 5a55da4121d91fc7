-- ===== src/Recovery/Grows.antt =====
-- No step of a recovery (crates/webylib-core/src/ops/recover.rs) drops an output found before it.
use webylib.Prelude.{
  ℕ, zero, suc, ◌≡◌, refl, sym, ap, ◌∙◌, subst, Bool, true, false, Option, none, some, List, [],
  ◌∷◌, ◌++◌, inl, inr, ◌⊎◌, append_assoc, append-nil, if◌then◌else◌,
}
use webylib.Prelude.Int.{ℤ}
use webylib.Prelude.Text.{Text}
use webylib.Prelude.Assoc.{Assoc, lookup}
use webylib.Crypto.{Crypto, Bytes, ChainCode, all_chains}
use webylib.Recovery.{
  Asset, HealthEntry, Outcome, done, failed, RecoveredOutput, RecoveryReport, Progress, Candidates,
  batch, push, use_depth, is_unspent, entry_amount, reconcile_entry, reconcile_key, reconcile,
  window, stop_if, advance, is_last, count_empty, saturating_add, scan, scan_chain, reported,
  scan_chains,
}
use webylib.Recovery.Steps.{>>=-eq-done, done-eq, some-eq, next_chain-ok}

-- Some member of a list has the property.
abbrev pub Has {ℓ} : {A : Type ℓ} → (A → Type 0) → List A → Type 0
Has P [] = ⊥
Has P (x ∷ xs) = P x ⊎ Has P xs

abbrev pub Extends {ℓ} : {A : Type ℓ} → List A → List A → Type ℓ
Extends {A = A} xs ys = (zs : List A) × (ys ≡ xs ++ zs)

pub Has-append : {A : Type 0} (P : A → Type 0) (xs zs : List A) → Has P xs → Has P (xs ++ zs)
Has-append P [] zs h = absurd h
Has-append P (x ∷ xs) zs (inl h) = inl h
Has-append P (x ∷ xs) zs (inr h) = inr (Has-append P xs zs h)

pub Has-last : {A : Type 0} (P : A → Type 0) (xs : List A) (x : A) → P x → Has P (xs ++ x ∷ [])
Has-last P [] x h = inl h
Has-last P (y ∷ xs) x h = inr (Has-last P xs x h)

pub Has-Extends :
    {A : Type 0} (P : A → Type 0) (xs ys : List A) → Extends xs ys → Has P xs → Has P ys
Has-Extends P xs ys (zs, e) h = subst (Has P) (sym e) (Has-append P xs zs h)

Extends-refl : {A : Type 0} (xs : List A) → Extends xs xs
Extends-refl xs = ([], sym (append-nil xs))

Extends-trans : {A : Type 0} (xs ys zs : List A) → Extends xs ys → Extends ys zs → Extends xs zs
Extends-trans xs ys zs (us, e) (vs, f) = (us ++ vs, f ∙ ap (λ l. l ++ vs) e ∙ append_assoc xs us vs)

pub every_chain : (chain : ChainCode) → Has (λ k. k ≡ chain) all_chains
every_chain ChainCode.receive = inl refl
every_chain ChainCode.pay = inr (inl refl)
every_chain ChainCode.change = inr (inr (inl refl))
every_chain ChainCode.mining = inr (inr (inr (inl refl)))

module _ (c : Crypto) (asset : Asset) (master : Bytes) where
  module _ (chain : ChainCode) where
    use_depth-found :
        (spent : Option Bool) (depth : ℕ) (p : Progress)
        → (use_depth c asset master chain spent depth p).found ≡ p.found
    use_depth-found none depth p = refl
    use_depth-found (some b) depth p = refl

    push-Extends :
        (o : RecoveredOutput) (p : Progress) (wats : Outcome (Option ℤ)) {q : Progress}
        → push c asset master chain o p wats ≡ done q
        → Extends p.found q.found
    push-Extends o p (failed x) e = cc
    push-Extends o p (done wats) e =
        (record o { amount_wats = wats } ∷ [], ap (λ (r : Progress). r.found) (sym (done-eq e)))

    reconcile_entry-Extends :
        (hash : Text) (entry : HealthEntry) (candidate : Option (Text × ℕ)) (p : Progress)
        {q : Progress}
        → reconcile_entry c asset master chain hash entry candidate p ≡ done q
        → Extends p.found q.found
    unfolding reconcile_entry
    reconcile_entry-Extends hash entry none p e =
        subst (λ (r : Progress). Extends p.found r.found) (done-eq e) (Extends-refl p.found)
    reconcile_entry-Extends hash entry (some (secret_hex, depth)) p {q} e =
        let p' = use_depth c asset master chain entry.spent depth p in
        subst (λ l. Extends l q.found) (use_depth-found entry.spent depth p)
          (split (is_unspent entry.spent) p' e)
      where
        split :
            (b : Bool) (p' : Progress)
            → (if b
                then push c asset master chain
                    (record {
                      secret_hex = secret_hex;
                      hash = hash;
                      amount_wats = none;
                      chain = chain;
                      depth = depth;
                    })
                    p'
                    (entry_amount asset.server_reports_amount entry.amount)
                else done p')
              ≡ done q
            → Extends p'.found q.found
        split true p' e =
            push-Extends
              (record {
                secret_hex = secret_hex;
                hash = hash;
                amount_wats = none;
                chain = chain;
                depth = depth;
              })
              p' (entry_amount asset.server_reports_amount entry.amount) e
        split false p' e =
            subst (λ (r : Progress). Extends p'.found r.found) (done-eq e) (Extends-refl p'.found)

    pub reconcile_key-Extends :
        (by_hash : Candidates) (key : Option Text) (entry : HealthEntry) (p : Progress)
        {q : Progress}
        → reconcile_key c asset master chain by_hash key entry p ≡ done q
        → Extends p.found q.found
    reconcile_key-Extends by_hash none entry p e =
        subst (λ (r : Progress). Extends p.found r.found) (done-eq e) (Extends-refl p.found)
    reconcile_key-Extends by_hash (some hash) entry p e =
        reconcile_entry-Extends hash entry (lookup hash by_hash) p e

    pub reconcile-Extends :
        (by_hash : Candidates) (results : Assoc HealthEntry) (p : Progress) {q : Progress}
        → reconcile c asset master chain by_hash results p ≡ done q
        → Extends p.found q.found
    unfolding reconcile
    reconcile-Extends by_hash [] p e =
        subst (λ (r : Progress). Extends p.found r.found) (done-eq e) (Extends-refl p.found)
    reconcile-Extends by_hash ((key, entry) ∷ results) p e =
        let (p', e1, e2) =
          >>=-eq-done
            (reconcile_key c asset master chain by_hash (asset.extract_hash_from_response_key key)
              entry p)
            (λ p'. reconcile c asset master chain by_hash results p') e in
        Extends-trans p.found p'.found _ (reconcile_key-Extends by_hash _ entry p e1)
          (reconcile-Extends by_hash results p' e2)

    module _ (ask : List Text → Outcome (Assoc HealthEntry)) (gap_limit reported_depth : ℕ) where
      pub window-Extends :
          (current_depth : ℕ) (max_used : Option ℕ) (recovered : List RecoveredOutput)
          {q : Progress}
          → window c asset master chain ask gap_limit reported_depth current_depth max_used
              recovered
            ≡ done q
          → Extends recovered q.found
      unfolding window
      window-Extends current_depth max_used recovered e =
          let made = batch c asset master chain current_depth 0 gap_limit [] [] in
          let start : Progress = record {
            had_hit = false;
            max_used = max_used;
            found = recovered;
          } in
          let (results, e1, e2) =
            >>=-eq-done (ask made.1)
              (λ results. reconcile c asset master chain made.0 results start) e in
          reconcile-Extends made.0 results start e2

      -- A window that succeeds, and whether the scan ends with it.
      pub advance-ok :
          (current_depth consecutive_empty : ℕ) (m : Outcome Progress)
          (again : Progress → ℕ → Option (Outcome Progress)) {q : Progress}
          → advance c asset master chain ask gap_limit reported_depth current_depth
              consecutive_empty m again
            ≡ some (done q)
          → (p : Progress) × (n : ℕ) × (m ≡ done p)
            × (((is_last c asset master chain ask gap_limit reported_depth n p
                      (saturating_add current_depth gap_limit)
                    ≡ true)
                  × (p ≡ q))
                ⊎ (again p n ≡ some (done q)))
      advance-ok current_depth consecutive_empty (failed x) again e = absurd cc
      advance-ok current_depth consecutive_empty (done p) again {q} e =
          let n =
            count_empty c asset master chain ask gap_limit reported_depth p.had_hit
              consecutive_empty in
          (
            p,
            n,
            refl,
            stopped n
                (is_last c asset master chain ask gap_limit reported_depth n p
                  (saturating_add current_depth gap_limit))
                refl e,
          )
        where
          stopped :
              (n : ℕ) (b : Bool)
              → is_last c asset master chain ask gap_limit reported_depth n p
                  (saturating_add current_depth gap_limit)
                ≡ b
              → stop_if c asset master chain ask gap_limit reported_depth b p n again
                ≡ some (done q)
              → ((is_last c asset master chain ask gap_limit reported_depth n p
                      (saturating_add current_depth gap_limit)
                    ≡ true)
                  × (p ≡ q))
                ⊎ (again p n ≡ some (done q))
          stopped n true k e = inl (k, done-eq (some-eq e))
          stopped n false k e = inr e

      pub scan-Extends :
          (fuel current_depth consecutive_empty : ℕ) (max_used : Option ℕ)
          (recovered : List RecoveredOutput) {q : Progress}
          → scan c asset master chain ask gap_limit reported_depth fuel current_depth
              consecutive_empty max_used recovered
            ≡ some (done q)
          → Extends recovered q.found
      unfolding scan
      scan-Extends zero current_depth consecutive_empty max_used recovered e = absurd cc
      scan-Extends (suc fuel) current_depth consecutive_empty max_used recovered {q} e =
          let again = λ (p : Progress) (n : ℕ).
            scan c asset master chain ask gap_limit reported_depth fuel
              (saturating_add current_depth gap_limit) n p.max_used p.found in
          let (p, n, w, after) =
            advance-ok current_depth consecutive_empty
              (window c asset master chain ask gap_limit reported_depth current_depth max_used
                recovered)
              again e in
          let here = window-Extends current_depth max_used recovered w in
          elim after [
            | inl (k, same) ↦ subst (λ (r : Progress). Extends recovered r.found) same here
            | inr more ↦ Extends-trans recovered p.found q.found here (
                scan-Extends fuel (saturating_add current_depth gap_limit) n p.max_used p.found
                  more)
          ]

    pub reported-ok :
        (report : RecoveryReport) (out : Option (Outcome Progress)) {next : RecoveryReport}
        → reported c asset master chain report out ≡ some (done next)
        → (p : Progress) × (out ≡ some (done p)) × (next.recovered ≡ p.found)
    reported-ok report none e = absurd cc
    reported-ok report (some (failed x)) e = absurd cc
    reported-ok report (some (done p)) e =
        (p, refl, ap (λ (r : RecoveryReport). r.recovered) (sym (done-eq (some-eq e))))

  module _ (ask : ChainCode → List Text → Outcome (Assoc HealthEntry)) (fuel gap_limit : ℕ)
      (reported_depths : ChainCode → ℕ) where
    pub scan_chains-Extends :
        (chains : List ChainCode) (report : RecoveryReport) {out : RecoveryReport}
        → scan_chains c asset master ask fuel gap_limit reported_depths chains report
          ≡ some (done out)
        → Extends report.recovered out.recovered
    unfolding scan_chains scan_chain
    scan_chains-Extends [] report e =
        subst (λ (r : RecoveryReport). Extends report.recovered r.recovered) (done-eq (some-eq e))
          (Extends-refl report.recovered)
    scan_chains-Extends (chain ∷ chains) report {out} e =
        let (next, e1, e2) =
          next_chain-ok c asset master ask fuel gap_limit reported_depths
            (scan_chains c asset master ask fuel gap_limit reported_depths chains)
            (scan_chain c asset master ask fuel gap_limit reported_depths chain report) e in
        let (p, s, same) = reported-ok chain report _ e1 in
        Extends-trans report.recovered p.found out.recovered
          (scan-Extends chain (ask chain) gap_limit (reported_depths chain) fuel 0 0 none
            report.recovered s)
          (subst (λ l. Extends l out.recovered) same (scan_chains-Extends chains next e2))
