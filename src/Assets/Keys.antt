-- ===== src/Assets/Keys.antt =====
-- The hash that recovery reads back from a key of the server's answer (crates/wallet-webcash,
-- crates/wallet-rgb, crates/wallet-voucher).
use webylib.Prelude.{
  ℕ, zero, suc, ◌*◌, ◌≤◌, ◌≡◌, ◌≢◌, refl, ap, ◌∙◌, true, Option, none, some, List, [], ◌∷◌, ◌++◌,
  All, length, arith,
}
use webylib.Prelude.Text.{Text, codes, as_bytes, contains_char, len}
use webylib.Prelude.Text.Split.{Lacks, Lacks-contains_char, len-length, All-map}
use webylib.Prelude.Text.Once.{split_once, split_once-cons, split_once-Lacks, split_once-some}
use webylib.Crypto.{Crypto, Bytes, HexLaws, IsHexDigit, IsByte}
use webylib.Recovery.{Asset}
use webylib.Assets.{
  IssuedNamespace, after_split, splitn, all_hexdigits, as_hash, third_of_three, third_of_five,
  second_of_four, colon, hash_of, webcash, rgb_fungible, rgb_collectible, voucher,
}

splitn-cons :
    (n sep : ℕ) (s t : Text)
    → Lacks sep s
    → splitn (suc (suc n)) sep (s ++ sep ∷ t) ≡ s ∷ splitn (suc n) sep t
unfolding splitn
splitn-cons n sep s t h =
    ap (λ o. after_split (s ++ sep ∷ t) o (splitn (suc n) sep)) (split_once-cons sep s t h)

splitn-Lacks : (n sep : ℕ) (s : Text) → Lacks sep s → splitn (suc n) sep s ≡ s ∷ []
unfolding splitn
splitn-Lacks zero sep s h = refl
splitn-Lacks (suc n) sep s h =
    ap (λ o. after_split s o (splitn (suc n) sep)) (split_once-Lacks sep s h)

all_hexdigits-true : (s : Text) → All IsHexDigit s → all_hexdigits s ≡ true
all_hexdigits-true [] h = refl
all_hexdigits-true (c ∷ s) h = rw h.0 (all_hexdigits-true s h.1)

hexdigit-small : (c : ℕ) → IsHexDigit c → c ≤ 127
hexdigit-small c h = ground arith

hexdigit-ne_colon : (c : ℕ) → IsHexDigit c → c ≢ colon
hexdigit-ne_colon c h = ground arith

-- What the crate `sha2` documents of a digest.
abbrev pub DigestLaw : Crypto → Type 0
DigestLaw c = (bs : Bytes) → (length (Crypto.sha256 c bs) ≡ 32) × All IsByte (Crypto.sha256 c bs)

some_part : (n sep : ℕ) (t : Text) → (p : Text) × (ps : List Text) × (splitn (suc n) sep t ≡ p ∷ ps)
unfolding splitn
some_part zero sep t = (t, [], refl)
some_part (suc n) sep t = split (split_once sep t)
  where
    split :
        (o : Option (Text × Text))
        → (p : Text) × (ps : List Text) × (after_split t o (splitn (suc n) sep) ≡ p ∷ ps)
    split none = (t, [], refl)
    split (some q) = (q.0, splitn (suc n) sep q.1, refl)

two_parts :
    (n sep : ℕ) (s t : Text)
    → (p : Text) × (q : Text) × (ps : List Text) × (splitn (suc (suc n)) sep (s ++ sep ∷ t)
        ≡ p ∷ q ∷ ps)
unfolding splitn
two_parts n sep s t =
    let (p, e) = split_once-some sep s t in
    let (q, ps, f) = some_part n sep p.1 in
    (
      p.0,
      q,
      ps,
      ap (λ o. after_split (s ++ sep ∷ t) o (splitn (suc n) sep)) e ∙ ap (λ parts. p.0 ∷ parts) f,
    )

abbrev pub ReadsBack : Crypto → Text → Asset → Type 0
ReadsBack c secret a =
    Asset.extract_hash_from_response_key a (Asset.public_token_for_lookup a secret)
    ≡ some (hash_of c secret)

module _ (c : Crypto) (laws : HexLaws c) (digest : DigestLaw c) where
  hash_digits : (secret : Text) → All IsHexDigit (hash_of c secret)
  hash_digits secret =
      laws.encode_digits (Crypto.sha256 c (as_bytes secret)) (digest (as_bytes secret)).1

  hash-Lacks : (secret : Text) → Lacks colon (hash_of c secret)
  hash-Lacks secret = All-map (hash_of c secret) hexdigit-ne_colon (hash_digits secret)

  len-hash : (secret : Text) → len (hash_of c secret) ≡ 64
  len-hash secret =
      len-length (hash_of c secret) (All-map (hash_of c secret) hexdigit-small (hash_digits secret))
      ∙ laws.length-encode (Crypto.sha256 c (as_bytes secret))
      ∙ ap (λ n. 2 * n) (digest (as_bytes secret)).0

  as_hash-hash : (secret : Text) → as_hash (hash_of c secret) ≡ some (hash_of c secret)
  unfolding as_hash
  as_hash-hash secret =
      rw (len-hash secret) (rw (all_hexdigits-true (hash_of c secret) (hash_digits secret)) refl)

  amt-Lacks : Lacks colon (codes "e1")
  amt-Lacks = Lacks-contains_char colon (codes "e1") (unfold contains_char in refl)

  public-Lacks : Lacks colon (codes "public")
  public-Lacks = Lacks-contains_char colon (codes "public") (unfold contains_char in refl)

  -- Keys of the three layouts, with any amount. A contract may have separators too.
  webcash-key :
      (amt secret : Text)
      → Lacks colon amt
      → third_of_three
          (splitn 3 colon (amt ++ (colon ∷ (codes "public" ++ (colon ∷ hash_of c secret)))))
        ≡ some (hash_of c secret)
  unfolding splitn
  webcash-key amt secret h =
      ap third_of_three (
        splitn-cons 1 colon amt (codes "public" ++ (colon ∷ hash_of c secret)) h
        ∙ ap (λ parts. amt ∷ parts)
            (splitn-cons 0 colon (codes "public") (hash_of c secret) public-Lacks))
      ∙ as_hash-hash secret

  -- The parts behind the public form, with two more in front of them or one.
  hash_parts :
      (contract issuer secret : Text)
      → (p : Text) × (q : Text) × (ps : List Text) × (splitn 4 colon (
            codes "public"
            ++ (colon ∷ (hash_of c secret ++ (colon ∷ (contract ++ (colon ∷ issuer))))))
          ≡ codes "public" ∷ hash_of c secret ∷ p ∷ q ∷ ps)
  hash_parts contract issuer secret =
      let (p, q, ps, e) = two_parts 0 colon contract issuer in
      (
        p,
        q,
        ps,
        splitn-cons 2 colon (codes "public")
              (hash_of c secret ++ (colon ∷ (contract ++ (colon ∷ issuer)))) public-Lacks
            ∙ ap (λ parts. codes "public" ∷ parts)
                (splitn-cons 1 colon (hash_of c secret) (contract ++ (colon ∷ issuer))
                    (hash-Lacks secret)
                  ∙ ap (λ parts. hash_of c secret ∷ parts) e),
      )

  collectible-key :
      (contract issuer secret : Text)
      → second_of_four (
          splitn 4 colon (
            codes "public"
            ++ (colon ∷ (hash_of c secret ++ (colon ∷ (contract ++ (colon ∷ issuer)))))))
        ≡ some (hash_of c secret)
  collectible-key contract issuer secret =
      let (p, q, ps, e) = hash_parts contract issuer secret in
      ap second_of_four e ∙ as_hash-hash secret

  issued-key :
      (amt contract issuer secret : Text)
      → Lacks colon amt
      → third_of_five (
          splitn 5 colon (
            amt
            ++ (colon
                ∷ (codes "public"
                    ++ (colon ∷ (hash_of c secret ++ (colon ∷ (contract ++ (colon ∷ issuer)))))))))
        ≡ some (hash_of c secret)
  issued-key amt contract issuer secret h =
      let (p, q, ps, e) = hash_parts contract issuer secret in
      ap third_of_five (
        splitn-cons 3 colon amt
          (codes "public"
            ++ (colon ∷ (hash_of c secret ++ (colon ∷ (contract ++ (colon ∷ issuer))))))
          h
        ∙ ap (λ parts. amt ∷ parts) e)
      ∙ as_hash-hash secret

  -- For each of the four kinds of asset and every secret, contract and issuer, the hash that recovery
  -- reads back from the public token it asks for is the hash of the secret, where digests have 32
  -- bytes. The contract may contain separators.
  pub extract-public_token :
      (ns : IssuedNamespace) (secret : Text)
      → ReadsBack c secret (webcash c)
        × ReadsBack c secret (rgb_fungible c ns)
        × ReadsBack c secret (rgb_collectible c ns)
        × ReadsBack c secret (voucher c ns)
  extract-public_token ns secret = (
    webcash-key (codes "e1") secret amt-Lacks,
    issued-key (codes "e1") ns.contract_id ns.issuer_fp secret amt-Lacks,
    collectible-key ns.contract_id ns.issuer_fp secret,
    issued-key (codes "e1") ns.contract_id ns.issuer_fp secret amt-Lacks,
  )
