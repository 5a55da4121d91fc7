-- ===== src/Recovery.antt =====
-- Recovery of the unspent outputs of a seed, for any kind of asset
-- (crates/webylib-core/src/ops/recover.rs, asset.rs and recovery.rs). The server is a parameter: its
-- decoded answer, or an error, to the public tokens of one window.
pub mod Wats
pub mod Steps
pub mod Derived
pub mod Grows
pub mod Complete
pub mod Fuel
use webylib.Prelude.{
  ℕ, zero, suc, ◌+◌, ◌-◌, ◌%◌, ◌^◌, Bool, true, false, not, ◌&&◌, ◌||◌, Option, none, some, List,
  [], ◌∷◌, ◌++◌, String, ltb, leb, ◌==◌, if◌then◌else◌,
}
use webylib.Prelude.Int.{ℤ}
use webylib.Prelude.Text.{Text, as_bytes}
use webylib.Prelude.Assoc.{Assoc, lookup, insert}
use webylib.Crypto.{
  Crypto, Bytes, ChainCode, receive, pay, change, mining, all_chains, derive_secret, as_str,
}
use Wats.{parse_decimal_to_wats}

pub data RecoveryError : Type 0 where
  server : Text → ℕ → String → RecoveryError
  decode : String → RecoveryError
  invalid_gap_limit : RecoveryError

pub data Outcome (A : Type 0) : Type 0 where
  done : A → Outcome A
  failed : RecoveryError → Outcome A

infixl 5 ◌>>=◌
abbrev pub ◌>>=◌ : {A B : Type 0} → Outcome A → (A → Outcome B) → Outcome B
failed e >>= f = failed e
done a >>= f = f a

-- `WalletAsset`, for one namespace.
pub record Asset : Type 0 where
  pub public_token_for_lookup : Text → Text
  pub extract_hash_from_response_key : Text → Option Text
  pub server_reports_amount : Bool

pub record HealthEntry : Type 0 where
  pub spent : Option Bool
  pub amount : Option Text

pub record RecoveredOutput : Type 0 where
  pub secret_hex : Text
  pub hash : Text
  pub amount_wats : Option ℤ
  pub chain : ChainCode
  pub depth : ℕ

pub record RecoveryReport : Type 0 where
  pub recovered : List RecoveredOutput
  pub last_used_depth : List (ChainCode × ℕ)

-- What one window of a scan changes.
pub record Progress : Type 0 where
  pub had_hit : Bool
  pub max_used : Option ℕ
  pub found : List RecoveredOutput

-- `by_hash`: the secret and the depth of each candidate of a window.
abbrev pub Candidates : Type 0
Candidates = Assoc (Text × ℕ)

abbrev pub max_u64 : ℕ
max_u64 = 2 ^ 64 - 1

-- `u64::saturating_add`
unfoldable pub saturating_add : ℕ → ℕ → ℕ
saturating_add a b = if leb (a + b) max_u64 then a + b else max_u64

abbrev pub max_of : Option ℕ → ℕ → ℕ
max_of none depth = depth
max_of (some d) depth = if leb d depth then depth else d

abbrev pub is_used : Option Bool → Bool
is_used none = false
is_used (some b) = true

abbrev pub is_unspent : Option Bool → Bool
is_unspent (some false) = true
is_unspent _ = false

abbrev some_amount : Option ℤ → Outcome (Option ℤ)
some_amount none = failed (decode "amount")
some_amount (some wats) = done (some wats)

-- The amount of an unspent entry, where the asset has amounts.
unfoldable pub entry_amount : Bool → Option Text → Outcome (Option ℤ)
entry_amount false amount = done none
entry_amount true none = failed (decode "server reported spent: false without amount")
entry_amount true (some amount) = some_amount (parse_decimal_to_wats amount)

module _ (c : Crypto) (asset : Asset) (master : Bytes) where
  -- `sha256_hex_of_ascii`
  unfoldable pub sha256_hex_of_ascii : Text → Text
  sha256_hex_of_ascii s = Crypto.hex_encode c (Crypto.sha256 c (as_bytes s))

  module _ (chain : ChainCode) where
    -- The candidates of a window of `n` depths, and the public tokens that are asked for.
    unfoldable pub batch : ℕ → ℕ → ℕ → Candidates → List Text → Candidates × List Text
    batch start offset zero by_hash publics = (by_hash, publics)
    batch start offset (suc n) by_hash publics =
        let depth = (start + offset) % 2 ^ 64 in
        let secret_hex = derive_secret c master chain depth in
        batch start (offset + 1) n
          (insert (sha256_hex_of_ascii secret_hex) (secret_hex, depth) by_hash)
          (publics ++ asset.public_token_for_lookup secret_hex ∷ [])

    -- One entry of the answer that names a candidate.
    abbrev pub push : RecoveredOutput → Progress → Outcome (Option ℤ) → Outcome Progress
    push o p (failed e) = failed e
    push o p (done wats) =
        done (record p { found = p.found ++ record o { amount_wats = wats } ∷ [] })

    abbrev pub use_depth : Option Bool → ℕ → Progress → Progress
    use_depth none depth p = p
    use_depth (some b) depth p = record p {
      had_hit = true;
      max_used = some (max_of p.max_used depth);
    }

    unfoldable pub reconcile_entry :
        Text → HealthEntry → Option (Text × ℕ) → Progress → Outcome Progress
    reconcile_entry hash entry none p = done p
    reconcile_entry hash entry (some (secret_hex, depth)) p =
        let p' = use_depth entry.spent depth p in
        if is_unspent entry.spent
        then push
            (record {
              secret_hex = secret_hex;
              hash = hash;
              amount_wats = none;
              chain = chain;
              depth = depth;
            })
            p' (entry_amount asset.server_reports_amount entry.amount)
        else done p'

    abbrev pub reconcile_key : Candidates → Option Text → HealthEntry → Progress → Outcome Progress
    reconcile_key by_hash none entry p = done p
    reconcile_key by_hash (some hash) entry p = reconcile_entry hash entry (lookup hash by_hash) p

    unfoldable pub reconcile : Candidates → Assoc HealthEntry → Progress → Outcome Progress
    reconcile by_hash [] p = done p
    reconcile by_hash ((resp_key, entry) ∷ results) p =
        reconcile_key by_hash (asset.extract_hash_from_response_key resp_key) entry p >>= λ p'.
        reconcile by_hash results p'

    module _ (ask : List Text → Outcome (Assoc HealthEntry)) (gap_limit reported_depth : ℕ) where
      -- A window: its request and the reconciliation of the answer.
      unfoldable pub window : ℕ → Option ℕ → List RecoveredOutput → Outcome Progress
      window current_depth max_used recovered =
          let (by_hash, publics) = batch current_depth 0 gap_limit [] [] in
          ask publics >>= λ results.
          reconcile by_hash results
            (record { had_hit = false; max_used = max_used; found = recovered })

      -- After a window without a hit `consecutive_empty` is at least `gap_limit`, so that the test on
      -- it adds nothing to the test on the hit.
      abbrev pub is_last : ℕ → Progress → ℕ → Bool
      is_last consecutive_empty p next_depth =
          not p.had_hit && leb gap_limit consecutive_empty && ltb reported_depth next_depth

      abbrev pub count_empty : Bool → ℕ → ℕ
      count_empty had_hit consecutive_empty =
          if had_hit then 0 else saturating_add consecutive_empty gap_limit

      abbrev pub stop_if :
          Bool
          → Progress
          → ℕ
          → (Progress → ℕ → Option (Outcome Progress))
          → Option (Outcome Progress)
      stop_if true p consecutive_empty again = some (done p)
      stop_if false p consecutive_empty again = again p consecutive_empty

      abbrev pub advance :
          ℕ
          → ℕ
          → Outcome Progress
          → (Progress → ℕ → Option (Outcome Progress))
          → Option (Outcome Progress)
      advance current_depth consecutive_empty (failed e) again = some (failed e)
      advance current_depth consecutive_empty (done p) again =
          let consecutive_empty' = count_empty p.had_hit consecutive_empty in
          stop_if (is_last consecutive_empty' p (saturating_add current_depth gap_limit)) p
            consecutive_empty' again

      -- The loop of `scan_chain`, on fuel; `none` is a scan that ran out of it.
      unfoldable pub scan : ℕ → ℕ → ℕ → Option ℕ → List RecoveredOutput → Option (Outcome Progress)
      scan zero current_depth consecutive_empty max_used recovered = none
      scan (suc fuel) current_depth consecutive_empty max_used recovered =
          advance current_depth consecutive_empty (window current_depth max_used recovered)
            (λ p empty. scan fuel (saturating_add current_depth gap_limit) empty p.max_used p.found)

    abbrev pub with_depth : Option ℕ → List (ChainCode × ℕ) → List (ChainCode × ℕ)
    with_depth none depths = depths
    with_depth (some d) depths = depths ++ (chain, d) ∷ []

    abbrev pub reported :
        RecoveryReport → Option (Outcome Progress) → Option (Outcome RecoveryReport)
    reported report none = none
    reported report (some (failed e)) = some (failed e)
    reported report (some (done p)) = some (
        done (record {
          recovered = p.found;
          last_used_depth = with_depth p.max_used report.last_used_depth;
        }))

  module _ (ask : ChainCode → List Text → Outcome (Assoc HealthEntry)) (fuel gap_limit : ℕ)
      (reported_depths : ChainCode → ℕ) where
    unfoldable pub scan_chain : ChainCode → RecoveryReport → Option (Outcome RecoveryReport)
    scan_chain chain report =
        reported chain report
          (scan chain (ask chain) gap_limit (reported_depths chain) fuel 0 0 none report.recovered)

    abbrev pub next_chain :
        (RecoveryReport → Option (Outcome RecoveryReport))
        → Option (Outcome RecoveryReport)
        → Option (Outcome RecoveryReport)
    next_chain f none = none
    next_chain f (some (failed e)) = some (failed e)
    next_chain f (some (done report)) = f report

    abbrev pub empty_report : RecoveryReport
    empty_report = record { recovered = []; last_used_depth = [] }

    -- The four chains, in the order of `ChainCode::ALL`.
    unfoldable pub scan_chains : List ChainCode → RecoveryReport → Option (Outcome RecoveryReport)
    scan_chains [] report = some (done report)
    scan_chains (chain ∷ chains) report = next_chain (scan_chains chains) (scan_chain chain report)

    unfoldable pub recover : Option (Outcome RecoveryReport)
    recover =
        if gap_limit == 0
        then some (failed invalid_gap_limit)
        else scan_chains all_chains empty_report
