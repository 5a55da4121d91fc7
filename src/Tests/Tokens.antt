-- ===== src/Tests/Tokens.antt =====
-- Tokens of the asset wallets (crates/wallet-webcash, crates/wallet-rgb, crates/wallet-voucher), an
-- answer of crates/server-client, and the theorems about them at concrete inputs.
use webylib.Prelude.{ℕ, suc, ◌≡◌, ◌<◌, refl, ap, arith, length-replicate}
use webylib.Prelude.Text.{codes}
use webylib.Assets.{IssuedNamespace, new_namespace, webcash, rgb_fungible, rgb_collectible, voucher}
use webylib.Assets.Keys.{ReadsBack, DigestLaw, extract-public_token}
use webylib.ServerClient.{raw_response, parse_resp}
use webylib.ServerClient.Answers.{parse_resp-raw_response}
use webylib.Tests.Hex.{plain_crypto, plain_crypto-laws, All-replicate}

-- A contract that has a separator itself.
abbrev series : IssuedNamespace
series = new_namespace (codes "rgb20:usdc") (codes "AABB")

lower_runs : series.issuer_fp ≡ codes "aabb"
lower_runs = refl

digest : DigestLaw plain_crypto
digest bs = (
  ap suc (length-replicate {A = ℕ} 31 0),
  (omega arith, All-replicate (λ b. b < 256) 31 0 (omega arith)),
)

extract-public_token_example :
    ReadsBack plain_crypto (codes "abc") (webcash plain_crypto)
    × ReadsBack plain_crypto (codes "abc") (rgb_fungible plain_crypto series)
    × ReadsBack plain_crypto (codes "abc") (rgb_collectible plain_crypto series)
    × ReadsBack plain_crypto (codes "abc") (voucher plain_crypto series)
extract-public_token_example =
    extract-public_token plain_crypto plain_crypto-laws digest series (codes "abc")

-- A text that has a blank line and looks like a response.
parse_resp-raw_response_example :
    parse_resp (raw_response 404 (codes "HTTP/1.1 200 OK\r\n\r\nnone"))
    ≡ (404, codes "HTTP/1.1 200 OK\r\n\r\nnone")
parse_resp-raw_response_example =
    parse_resp-raw_response 404 (codes "HTTP/1.1 200 OK\r\n\r\nnone") (omega arith)
