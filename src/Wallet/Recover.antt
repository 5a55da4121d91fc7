-- ===== src/Wallet/Recover.antt =====
-- `Wallet::recover` and `recover_from_wallet` (src/wallet/operations.rs), over the recovery of
-- crates/webylib-core for the asset `Webcash`. `ask` is the server behind that crate's client, and
-- `fuel` bounds its scans.
pub mod Depths
use webylib.Prelude.{
  ℕ, ◌+◌, ◌%◌, ◌^◌, Bool, true, false, ◌||◌, Option, none, some, List, [], ◌∷◌, ltb, ◌==◌,
  if◌then◌else◌,
}
use webylib.Prelude.Int.{ℤ, pos}
use webylib.Prelude.Text.{Text, codes, beq}
use webylib.Prelude.Assoc.{Assoc}
use webylib.Fault.{Error, Result, ok, err, mentions, to_string, ok_or}
use webylib.Amount.{Amount, from_wats, add_assign}
use webylib.Crypto.{
  Bytes, ChainCode, receive, pay, change, mining, all_chains, as_u64, as_str, from_hex,
}
use webylib.Webcash.{SecretWebcash}
use webylib.Store.{Ops, Store}
use webylib.Store.Monad.{Action, pure, raise, lift, continue, ◌>>=◌, ◌>>◌}
use webylib.Recovery.{HealthEntry, Outcome, done, failed, RecoveredOutput, RecoveryReport}
use webylib.Recovery
use webylib.Assets
use webylib.Wallet.{World, Env, on_disk, store_directly, master_secret_key}

pub record RecoveryResult : Type 0 where
  pub recovered_count : ℕ
  pub total_amount : Amount

abbrev pub has_chain : ChainCode → ChainCode → Bool
has_chain a b = as_u64 a == as_u64 b

-- `report.last_used_depth.get(code)`
unfoldable pub last_used : ChainCode → List (ChainCode × ℕ) → Option ℕ
unfolding as_u64
last_used chain [] = none
last_used chain ((k, d) ∷ depths) =
    let rest = last_used chain depths in if has_chain k chain then some d else rest

-- The error of a hash that is stored already.
unfoldable pub is_duplicate : Error → Bool
unfolding to_string
is_duplicate e =
    mentions "UNIQUE constraint" (to_string e) || mentions "already exists" (to_string e)

-- An amount that is missing is a panic in the source.
abbrev pub amount_of : Option ℤ → Result Amount
amount_of none = err (Error.other "Webcash recovery must produce Some(amount_wats)")
amount_of (some wats) = ok (from_wats wats)

abbrev pub depths_of : ℕ → ℕ → ℕ → ℕ → ChainCode → ℕ
depths_of r p c m receive = r
depths_of r p c m pay = p
depths_of r p c m change = c
depths_of r p c m mining = m

-- A scan that ran out of fuel has no counterpart in the source.
abbrev pub report_of : Option (Outcome RecoveryReport) → Result RecoveryReport
report_of none = err (Error.other "out of fuel")
report_of (some (failed e)) = err (Error.server "recovery")
report_of (some (done report)) = ok report

module _ {S W : Type 0} (st : Store S) (env : Env) where
  -- `match self.store_directly(…).await`
  abbrev pub caught : {A : Type 0} → Action (World S W) A → Action (World S W) (Result A)
  caught m w = let (r, v) = m w in (ok r, v)

  -- What follows the storing of one output: `more` is the rest of the loop.
  abbrev pub stored_or :
      (ℕ → Amount → Action (World S W) (ℕ × Amount))
      → ℕ
      → Amount
      → Amount
      → Result (Unit {0})
      → Action (World S W) (ℕ × Amount)
  stored_or more count total amount (ok _) = more (count + 1) (add_assign total amount)
  stored_or more count total amount (err e) = if is_duplicate e then more count total else raise e

  unfoldable pub store_recovered :
      List RecoveredOutput → ℕ → Amount → Action (World S W) (ℕ × Amount)
  store_recovered [] count total = pure (count, total)
  store_recovered (o ∷ os) count total = do
    amount ← lift (amount_of o.amount_wats)
    stored ← caught (store_directly st env (record { secret = o.secret_hex; amount = amount }))
    stored_or (store_recovered os) count total amount stored

  abbrev pub advance_if : ChainCode → ℕ → Option ℕ → Action (World S W) Unit
  advance_if chain reported none = pure tt
  advance_if chain reported (some seen) =
      if ltb reported ((seen + 1) % 2 ^ 64)
      then on_disk (Ops.set_depth st.ops (as_str chain) ((seen + 1) % 2 ^ 64))
      else pure tt

  -- The depths of the chains that the scan saw used further out.
  unfoldable pub advance_depths : List ChainCode → List (ChainCode × ℕ) → Action (World S W) Unit
  advance_depths [] seen = pure tt
  advance_depths (chain ∷ chains) seen = do
    reported ← on_disk (Ops.get_depth st.ops (as_str chain))
    advance_if chain reported (last_used chain seen)
    advance_depths chains seen

  -- What `recover` does with the report.
  unfoldable pub persist : RecoveryReport → Action (World S W) RecoveryResult
  persist report = do
    (count, total) ← store_recovered report.recovered 0 (from_wats (pos 0))
    advance_depths all_chains report.last_used_depth
    pure (record { recovered_count = count; total_amount = total })

  module _ (ask : ChainCode → List Text → Outcome (Assoc HealthEntry)) (fuel : ℕ) where
    unfoldable pub scan_and_persist : ℕ → Bytes → Action (World S W) RecoveryResult
    scan_and_persist gap_limit master = do
      r ← on_disk (Ops.get_depth st.ops (as_str receive))
      p ← on_disk (Ops.get_depth st.ops (as_str pay))
      c ← on_disk (Ops.get_depth st.ops (as_str change))
      m ← on_disk (Ops.get_depth st.ops (as_str mining))
      report ← lift (
          report_of (
            Recovery.recover env.crypto (Assets.webcash env.crypto) master ask fuel gap_limit
              (depths_of r p c m)))
      persist report

    unfoldable pub recover : Text → ℕ → Action (World S W) RecoveryResult
    recover master_secret_hex gap_limit =
        if gap_limit == 0 then raise (Error.wallet "gap_limit must be > 0") else do
          master ←
              lift (
                ok_or (from_hex env.crypto master_secret_hex)
                  (Error.wallet "Invalid master secret"))
          scan_and_persist gap_limit master

    abbrev pub recover_secret : ℕ → Option Text → Action (World S W) RecoveryResult
    recover_secret gap_limit none = raise (Error.wallet "No master secret found in wallet")
    recover_secret gap_limit (some secret) = recover secret gap_limit

    unfoldable pub recover_from_wallet : ℕ → Action (World S W) RecoveryResult
    recover_from_wallet gap_limit = do
      found ← on_disk (Ops.get_meta st.ops master_secret_key)
      recover_secret gap_limit found
