-- ===== src/Tests/Recoveries.antt =====
-- The theorems about recovery (crates/webylib-core/src/ops/recover.rs) at concrete inputs.
use webylib.Prelude.{
  ℕ, zero, suc, inl, subst, ◌≡◌, refl, sym, ◌∙◌, false, true, false, Option, none, some, List, [],
  ◌∷◌, All, map, arith, replicate,
}
use webylib.Prelude.Int.{pos, ◌*ℤ◌, ◌+ℤ◌, checked}
use webylib.Prelude.Text.{
  Text, codes, beq, beq_iff, as_bytes, trim, trim_start_by, trim_end_by, is_whitespace,
}
use webylib.Prelude.Assoc.{Assoc, lookup, insert}
use webylib.Prelude.Decimal.{parse_i64}
use webylib.Crypto.{
  ChainCode, receive, pay, change, mining, derive_secret, derive_preimage, be_bytes, as_u64,
}
use webylib.Recovery.{
  Asset, HealthEntry, Outcome, done, Progress, RecoveryReport, sha256_hex_of_ascii, saturating_add,
  entry_amount, batch, reconcile_entry, reconcile, window, scan, scan_chain, scan_chains, recover,
}
use webylib.Recovery.Wats.{split_point, parse_whole_and_fraction, parse_decimal_to_wats}
use webylib.Recovery.Derived.{IsDerived, recover-IsDerived}
use webylib.Recovery.Fuel.{IsQuietFrom, scan-ends}
use webylib.Recovery.Steps.{done-eq}
use webylib.Recovery.Grows.{Has}
use webylib.Recovery.Complete.{
  hash_at, NamesUnspent, IsAtDepth, IsApart, IsAnswered, recover-IsAtDepth,
}
use webylib.Tests.Hex.{plain_crypto}

abbrev pub master : List ℕ
master = replicate 32 1

-- An asset whose tokens are their secrets, and whose answers name hashes.
abbrev plain_asset : Asset
plain_asset = record {
  public_token_for_lookup = λ s. s;
  extract_hash_from_response_key = λ k. some k;
  server_reports_amount = true;
}

abbrev first_hash : Text
first_hash =
    sha256_hex_of_ascii plain_crypto plain_asset master
      (derive_secret plain_crypto master receive 0)

abbrev known : ChainCode → List Text → Outcome (Assoc HealthEntry)
known receive publics =
    done ((first_hash, record { spent = some false; amount = some (codes "1.5") }) ∷ [])
known pay publics = done []
known change publics = done []
known mining publics = done []

abbrev no_depths : ChainCode → ℕ
no_depths chain = 0

abbrev report_of : Option (Outcome RecoveryReport) → RecoveryReport
report_of (some (done r)) = r
report_of _ = record { recovered = []; last_used_depth = [] }

abbrev found : RecoveryReport
found = report_of (recover plain_crypto plain_asset master known 2 2 no_depths)

recovered : recover plain_crypto plain_asset master known 2 2 no_depths ≡ some (done found)
unfolding recover scan_chains scan_chain scan window batch reconcile reconcile_entry entry_amount
    parse_decimal_to_wats parse_whole_and_fraction split_point sha256_hex_of_ascii derive_secret
    derive_preimage be_bytes as_u64 as_bytes lookup insert beq trim trim_start_by trim_end_by
    is_whitespace parse_i64 checked ◌*ℤ◌ ◌+ℤ◌ saturating_add
recovered = refl

recovered_amounts : map (λ o. o.amount_wats) found.recovered ≡ some (pos 150000000) ∷ []
unfolding recover scan_chains scan_chain scan window batch reconcile reconcile_entry entry_amount
    parse_decimal_to_wats parse_whole_and_fraction split_point sha256_hex_of_ascii derive_secret
    derive_preimage be_bytes as_u64 as_bytes lookup insert beq trim trim_start_by trim_end_by
    is_whitespace parse_i64 checked ◌*ℤ◌ ◌+ℤ◌ saturating_add
recovered_amounts = refl

recover-IsDerived_example : All (IsDerived plain_crypto plain_asset master) found.recovered
recover-IsDerived_example =
    recover-IsDerived plain_crypto plain_asset master known 2 2 no_depths recovered

abbrev silent : List Text → Outcome (Assoc HealthEntry)
silent publics = done []

silent-IsQuietFrom : IsQuietFrom plain_crypto plain_asset master receive silent 2 3 0
unfolding window reconcile
silent-IsQuietFrom current_depth max_used recovered p far e = cc

scan-ends_example :
    (r : Outcome Progress) × (scan plain_crypto plain_asset master receive silent 2 3 3 0 0 none []
      ≡ some r)
scan-ends_example =
    scan-ends plain_crypto plain_asset master receive silent 2 3 0 (omega arith) (omega arith)
      silent-IsQuietFrom 3 (omega arith)

-- Every answer names the first secret as unspent.
known-IsAnswered : IsAnswered plain_crypto plain_asset master receive 0 (known receive) 2 0
known-IsAnswered start results lo hi e =
    subst (Has (NamesUnspent plain_crypto plain_asset master receive 0)) (done-eq e)
      (inl (refl, refl))

other_hash :
    beq
      (hash_at plain_crypto plain_asset master receive 0 1)
      (hash_at plain_crypto plain_asset master receive 0 0)
    ≡ false
unfolding sha256_hex_of_ascii derive_secret derive_preimage be_bytes as_u64 as_bytes beq
other_hash = refl

first-IsApart : IsApart plain_crypto plain_asset master receive 0 2
first-IsApart zero near near' other = absurd (other refl)
first-IsApart (suc zero) near near' other = λ same. clash (sym other_hash ∙ (beq_iff _ _).1 same)
  where
    clash : false ≡ true → ⊥
    clash e = cc
first-IsApart (suc (suc e)) near near' other = absurd (omega arith)

recover-IsAtDepth_example :
    Has (IsAtDepth plain_crypto plain_asset master receive 0) found.recovered
recover-IsAtDepth_example =
    recover-IsAtDepth plain_crypto plain_asset master known 2 2 no_depths receive 0 known-IsAnswered
      first-IsApart (omega arith) (omega arith) recovered
