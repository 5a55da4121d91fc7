-- ===== src/Tests/Miners.antt =====
-- The miner's search (src/miner.rs) at concrete inputs, and the theorems about it there.
use webylib.Prelude.{ℕ, ◌*◌, ◌^◌, ◌<◌, ◌≤◌, ◌≡◌, ◌↔◌, refl, none, [], ◌∷◌, arith}
use webylib.Prelude.Text.{Text, codes, as_bytes}
use webylib.Prelude.Decimal.{format_ℕ}
use webylib.Fault.{Result, ok}
use webylib.Miner.{leading_zero_bits, candidate, digest_at, search}
use webylib.Miner.Bits.{be_value, leading_zero_bits-be_value}
use webylib.Miner.Search.{Meets, Found, search-Found}
use webylib.Prelude.{leb, true}
use webylib.Crypto.{Bytes}
use webylib.Tests.Hex.{plain_crypto}

bits_runs : leading_zero_bits (0 ∷ 16 ∷ 5 ∷ []) ≡ 11
unfolding leading_zero_bits
bits_runs = refl

leading_zero_bits-be_value_example :
    (11 ≤ leading_zero_bits (0 ∷ 16 ∷ 5 ∷ [])) ↔ (be_value (0 ∷ 16 ∷ 5 ∷ []) * 2 ^ 11 < 256 ^ 3)
leading_zero_bits-be_value_example =
    leading_zero_bits-be_value 11 (0 ∷ 16 ∷ 5 ∷ []) (omega arith, (omega arith, (omega arith, tt)))
      (omega arith)

abbrev stopped_clock : ℕ → Result ℕ
stopped_clock nonce = ok 1700000000

abbrev found : Result (Text × Bytes)
found = search plain_crypto stopped_clock (codes "e1:secret:abJJ") none 3 5 0

-- The first two candidates have no leading zero bits, the third has a digest of zeros.
third_meets :
    leb 3 (
      leading_zero_bits
        (digest_at plain_crypto stopped_clock (codes "e1:secret:abJJ") none 3 1700000000 2))
    ≡ true
unfolding leading_zero_bits as_bytes candidate format_ℕ
third_meets = refl

first_misses :
    leading_zero_bits
      (digest_at plain_crypto stopped_clock (codes "e1:secret:abJJ") none 3 1700000000 0)
    ≡ 0
unfolding leading_zero_bits as_bytes candidate format_ℕ
first_misses = refl

third-Meets : Meets plain_crypto stopped_clock (codes "e1:secret:abJJ") none 3 1700000000 2
third-Meets = let h = third_meets in ground arith

search-Found_example : Found plain_crypto stopped_clock (codes "e1:secret:abJJ") none 3 found 0 2
search-Found_example =
    search-Found plain_crypto stopped_clock (codes "e1:secret:abJJ") none 3 (λ n. 1700000000) 2 5 0
      (λ n. refl) third-Meets (omega arith) (omega arith)
