-- ===== src/Assets.antt =====
-- The four kinds of asset: their tokens and the keys of the server's answers
-- (crates/webylib-core/src/asset.rs, crates/wallet-webcash, crates/wallet-rgb, crates/wallet-voucher),
-- and the verbs of their wallets over the client of crates/server-client.
pub mod Keys
use webylib.Prelude.{
  ℕ, zero, suc, ◌+◌, Bool, true, false, ◌&&◌, Option, none, some, List, [], ◌∷◌, ◌++◌, String, map,
  leb, ◌==◌, if◌then◌else◌,
}
use webylib.Prelude.Text.{Text, codes, as_bytes, len, is_ascii_hexdigit}
use webylib.Prelude.Text.Once.{split_once}
use webylib.Crypto.{Crypto}
use webylib.Recovery.{Asset}

pub record IssuedNamespace : Type 0 where
  pub contract_id : Text
  pub issuer_fp : Text

-- `u8::to_ascii_lowercase`, on every character.
abbrev pub to_ascii_lowercase : Text → Text
to_ascii_lowercase = map (λ c. if leb b'A' c && leb c b'Z' then c + 32 else c)

abbrev pub new_namespace : Text → Text → IssuedNamespace
new_namespace contract_id issuer_fp = record {
  contract_id = contract_id;
  issuer_fp = to_ascii_lowercase issuer_fp;
}

abbrev pub after_split : Text → Option (Text × Text) → (Text → List Text) → List Text
after_split s none more = s ∷ []
after_split s (some p) more = p.0 ∷ more p.1

-- `str::splitn` by a character: at most `n` parts, the last with whatever separators are left.
unfoldable pub splitn : ℕ → ℕ → Text → List Text
splitn zero sep s = []
splitn (suc zero) sep s = s ∷ []
splitn (suc (suc n)) sep s = after_split s (split_once sep s) (splitn (suc n) sep)

abbrev pub all_hexdigits : Text → Bool
all_hexdigits [] = true
all_hexdigits (c ∷ s) = is_ascii_hexdigit c && all_hexdigits s

-- The hash, where it is 64 hexadecimal digits.
unfoldable pub as_hash : Text → Option Text
as_hash hash = if len hash == 64 && all_hexdigits hash then some hash else none

abbrev pub third_of_three : List Text → Option Text
third_of_three (amt ∷ public ∷ hash ∷ rest) = as_hash hash
third_of_three _ = none

abbrev pub third_of_five : List Text → Option Text
third_of_five (amt ∷ public ∷ hash ∷ contract ∷ issuer ∷ rest) = as_hash hash
third_of_five _ = none

abbrev pub second_of_four : List Text → Option Text
second_of_four (public ∷ hash ∷ contract ∷ issuer ∷ rest) = as_hash hash
second_of_four _ = none

abbrev pub colon : ℕ
colon = b':'

module _ (c : Crypto) where
  abbrev pub hash_of : Text → Text
  hash_of secret_hex = Crypto.hex_encode c (Crypto.sha256 c (as_bytes secret_hex))

  -- `Webcash`, of crates/wallet-webcash/src/lib.rs.
  abbrev pub webcash : Asset
  webcash = record {
    public_token_for_lookup =
        λ secret_hex. codes "e1" ++ (colon ∷ (codes "public" ++ (colon ∷ hash_of secret_hex)));
    extract_hash_from_response_key = λ key. third_of_three (splitn 3 colon key);
    server_reports_amount = true;
  }

  -- `RgbFungible`, of crates/wallet-rgb/src/lib.rs.
  abbrev pub rgb_fungible : IssuedNamespace → Asset
  rgb_fungible ns = record {
    public_token_for_lookup = λ secret_hex.
        codes "e1"
        ++ (colon
            ∷ (codes "public"
                ++ (colon
                    ∷ (hash_of secret_hex
                        ++ (colon ∷ (ns.contract_id ++ (colon ∷ ns.issuer_fp)))))));
    extract_hash_from_response_key = λ key. third_of_five (splitn 5 colon key);
    server_reports_amount = true;
  }

  -- `RgbCollectible`, of the same file.
  abbrev pub rgb_collectible : IssuedNamespace → Asset
  rgb_collectible ns = record {
    public_token_for_lookup = λ secret_hex.
        codes "public"
        ++ (colon ∷ (hash_of secret_hex ++ (colon ∷ (ns.contract_id ++ (colon ∷ ns.issuer_fp)))));
    extract_hash_from_response_key = λ key. second_of_four (splitn 4 colon key);
    server_reports_amount = false;
  }

  -- `Voucher`, of crates/wallet-voucher/src/lib.rs.
  abbrev pub voucher : IssuedNamespace → Asset
  voucher ns = record {
    public_token_for_lookup = λ secret_hex.
        codes "e1"
        ++ (colon
            ∷ (codes "public"
                ++ (colon
                    ∷ (hash_of secret_hex
                        ++ (colon ∷ (ns.contract_id ++ (colon ∷ ns.issuer_fp)))))));
    extract_hash_from_response_key = λ key. third_of_five (splitn 5 colon key);
    server_reports_amount = true;
  }

-- The wallets' `WalletResult<()>`, over the errors `C` of the client.
pub data WalletResult (C : Type 0) : Type 0 where
  accepted : WalletResult C
  client : C → WalletResult C
  invariant : String → WalletResult C

-- `Client::replace`: none, or its error, and the world behind it.
abbrev pub Replace : Type 0 → Type 0 → Type 0
Replace W C = List Text → List Text → W → Option C × W

module _ {W C : Type 0} (replace : Replace W C) where
  abbrev pub from_client : Option C × W → WalletResult C × W
  from_client (none, w) = (accepted, w)
  from_client (some e, w) = (client e, w)

  -- `self.client.replace(inputs, outputs)` behind its two guards.
  abbrev pub replace_guarded : String → String → List Text → List Text → W → WalletResult C × W
  replace_guarded no_input no_output [] outputs w = (invariant no_input, w)
  replace_guarded no_input no_output (i ∷ inputs) [] w = (invariant no_output, w)
  replace_guarded no_input no_output (i ∷ inputs) (o ∷ outputs) w =
      from_client (replace (i ∷ inputs) (o ∷ outputs) w)

  -- `WebcashWallet::pay` and `VoucherWallet::pay`
  abbrev pub pay : List Text → List Text → W → WalletResult C × W
  pay = replace_guarded "pay requires ≥1 input" "pay requires ≥1 output"

  -- `RgbWallet::transfer`
  abbrev pub transfer : List Text → List Text → W → WalletResult C × W
  transfer = replace_guarded "transfer requires ≥1 input" "transfer requires ≥1 output"

  -- `insert`, of all three.
  abbrev pub insert : Text → Text → W → WalletResult C × W
  insert received_secret my_new_secret w =
      from_client (replace (received_secret ∷ []) (my_new_secret ∷ []) w)
