-- ===== src/Miner.antt =====
-- The miner (src/miner.rs). The clock, the server's two requests and the floating-point numbers are
-- parameters; `fuel` bounds the search.
pub mod Bits
pub mod Search
use webylib.Prelude.{
  ℕ, zero, suc, ◌+◌, ◌%◌, ◌^◌, Bool, true, false, Option, none, some, List, [], ◌∷◌, ◌++◌, leb,
  ◌==◌, if◌then◌else◌,
}
use webylib.Prelude.Int.{pos}
use webylib.Prelude.Text.{Text, codes, as_bytes}
use webylib.Prelude.Decimal.{format_ℕ}
use webylib.Fault.{Error, Result, ok, err, ok_or}
use webylib.Fault
use webylib.Amount.{Amount, is_zero}
use webylib.Amount.Float.{Float}
use webylib.Amount.Parse.{from_webcash}
use webylib.Crypto.{Crypto, Bytes, mining}
use webylib.Webcash.{SecretWebcash, parse_secret}
use webylib.Store.{Store}
use webylib.Store.Monad.{Action, pure, lift, continue, ◌>>=◌, ◌>>◌}
use webylib.Wallet.{World, Env, on_server, derive_next_secret, store_directly}

-- `u8::leading_zeros`, of a byte that is not 0.
abbrev pub leading_zeros : ℕ → ℕ
leading_zeros b =
    if leb 128 b
    then 0
    else if leb 64 b
    then 1
    else if leb 32 b
    then 2
    else if leb 16 b
    then 3
    else if leb 8 b
    then 4
    else if leb 4 b
    then 5
    else if leb 2 b
    then 6
    else 7

unfoldable pub leading_zero_bits : Bytes → ℕ
leading_zero_bits [] = 0
leading_zero_bits (b ∷ bs) =
    let rest = leading_zero_bits bs in if b == 0 then 8 + rest else leading_zeros b

-- The fields of a target that are read.
pub record TargetResponse : Type 0 where
  pub difficulty_target_bits : ℕ
  pub mining_amount : Text
  pub mining_subsidy_amount : Text

pub record MiningServer (W : Type 0) : Type 0 where
  pub get_target : Action W TargetResponse
  pub submit_mining_report : Text → Action W Unit

pub record MineResult : Type 0 where
  pub webcash : Text
  pub subsidy : Option Text
  pub preimage : Text
  pub hash : Text
  pub difficulty : ℕ
  pub amount : Amount

abbrev pub secret_text : Text → Text → Text
secret_text amount secret_hex = codes "e" ++ (amount ++ (codes ":secret:" ++ secret_hex))

abbrev pub subsidy_array : Option Text → Text
subsidy_array none = codes "[]"
subsidy_array (some s) = codes "[\"" ++ (s ++ codes "\"]")

unfoldable pub candidate : Text → Option Text → ℕ → ℕ → ℕ → Text
candidate webcash_str subsidy difficulty timestamp nonce =
    codes "{\"webcash\":[\""
    ++ (webcash_str
        ++ (codes "\"],\"subsidy\":"
            ++ (subsidy_array subsidy
                ++ (codes ",\"timestamp\":"
                    ++ (format_ℕ timestamp
                        ++ (codes ",\"difficulty\":"
                            ++ (format_ℕ difficulty
                                ++ (codes ",\"nonce\":" ++ (format_ℕ nonce ++ codes "}")))))))))

-- `clock` is the time in seconds at a nonce, or the error of a clock before 1970.
module _ (c : Crypto) (clock : ℕ → Result ℕ) (webcash_str : Text) (subsidy : Option Text)
    (difficulty : ℕ) where
  abbrev pub candidate_at : ℕ → ℕ → Text
  candidate_at timestamp nonce = candidate webcash_str subsidy difficulty timestamp nonce

  abbrev pub digest_at : ℕ → ℕ → Bytes
  digest_at timestamp nonce = Crypto.sha256 c (as_bytes (candidate_at timestamp nonce))

  -- One candidate: the search ends with it, or goes on.
  abbrev pub try_candidate : ℕ → Result (Text × Bytes) → ℕ → Result (Text × Bytes)
  try_candidate nonce more timestamp =
      if leb difficulty (leading_zero_bits (digest_at timestamp nonce))
      then ok (candidate_at timestamp nonce, digest_at timestamp nonce)
      else more

  -- The loop; a search that ran out of fuel has no counterpart in the source.
  unfoldable pub search : ℕ → ℕ → Result (Text × Bytes)
  search zero nonce = err (Error.other "out of fuel")
  search (suc fuel) nonce =
      Fault.◌>>=◌ (clock nonce) (try_candidate nonce (search fuel ((nonce + 1) % 2 ^ 64)))

abbrev pub or_default : {A : Type 0} → A → Option A → A
or_default a none = a
or_default a (some b) = b

module _ {S W : Type 0} (st : Store S) (sv : MiningServer W) (env : Env) (f : Float)
    (clock : ℕ → Result ℕ) (fuel : ℕ) where
  abbrev pub derived : Text → Text × ℕ → Action (World S W) (Option Text)
  derived amount (secret_hex, depth) = pure (some (secret_text amount secret_hex))

  unfoldable pub derive_subsidy : Text → Bool → Action (World S W) (Option Text)
  derive_subsidy amount true = pure none
  derive_subsidy amount false = derive_next_secret st env mining >>= derived amount

  abbrev pub report_and_store :
      TargetResponse → Amount → Text → Option Text → Text × Bytes → Action (World S W) MineResult
  report_and_store target amount webcash_str subsidy (preimage, hash) = do
    on_server (MiningServer.submit_mining_report sv preimage)
    secret ← lift (parse_secret env.crypto f webcash_str)
    store_directly st env secret
    pure (record {
      webcash = webcash_str;
      subsidy = subsidy;
      preimage = preimage;
      hash = Crypto.hex_encode env.crypto hash;
      difficulty = target.difficulty_target_bits;
      amount = amount;
    })

  abbrev pub mine_with : TargetResponse → Amount → Text × ℕ → Action (World S W) MineResult
  mine_with target amount (secret_hex, depth) = do
    subsidy_amount ← lift (
        from_webcash f
          (or_default (Float.of_i64 f (pos 0)) (Float.parse f target.mining_subsidy_amount)))
    subsidy ← derive_subsidy target.mining_subsidy_amount (is_zero subsidy_amount)
    found ← lift (
        search env.crypto clock (secret_text target.mining_amount secret_hex) subsidy
          target.difficulty_target_bits fuel 0)
    report_and_store target amount (secret_text target.mining_amount secret_hex) subsidy found

  unfoldable pub mine : Action (World S W) MineResult
  mine = do
    target ← on_server (MiningServer.get_target sv)
    webcash ←
        lift (ok_or (Float.parse f target.mining_amount) (Error.wallet "invalid mining amount"))
    amount ← lift (from_webcash f webcash)
    secret ← derive_next_secret st env mining
    mine_with target amount secret
