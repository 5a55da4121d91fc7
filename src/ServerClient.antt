-- ===== src/ServerClient.antt =====
-- The client that the asset wallets share (crates/server-client/src/lib.rs). The crate `ureq` and the
-- server behind it are a parameter, with a world `W` of their own, and so is the printing of JSON.
pub mod Answers
use webylib.Prelude.{
  ℕ, ◌+◌, Bool, true, false, not, ◌&&◌, Option, none, some, List, [], ◌∷◌, ◌++◌, String, keep, drop,
  leb, ltb, ◌==◌, if◌then◌else◌,
}
use webylib.Prelude.Text.{Text, codes, split_by, starts_with, trim_end_by, is_whitespace}
use webylib.Prelude.Text.Once.{split_once}
use webylib.Prelude.Decimal.{format_ℕ, parse_digits}

pub data ClientError : Type 0 where
  http : ℕ → Text → ClientError
  transport encode : Text → ClientError

pub data ClientResult (A : Type 0) : Type 0 where
  got : A → ClientResult A
  refused : ClientError → ClientResult A

-- A field of a request's object; `terms` is `{"terms": true}`.
pub data Json : Type 0 where
  string : Text → Json
  array : List Text → Json
  terms : Json

pub data Method : Type 0 where
  get_method post_method : Method

pub record Request : Type 0 where
  pub method : Method
  pub url : Text
  pub body : Text
  pub signature : Option Text

-- `agent.request(method, url)` and what it comes to: the status and the text of a response, whatever
-- the status, or the text of another error.
pub data Reached : Type 0 where
  response : ℕ → Text → Reached
  unreached : Text → Reached

-- The response as `http_send` writes it down for `parse_resp`.
unfoldable pub raw_response : ℕ → Text → Text
raw_response status body =
    codes "HTTP/1.1"
    ++ (b' ' ∷ (format_ℕ status ++ (b' ' ∷ (codes "OK" ++ (codes "\r\n\r\n" ++ body)))))

-- `str::lines().next().unwrap_or("")`
abbrev strip_cr : Text → Text
strip_cr [] = []
strip_cr (c ∷ []) = if c == b'\r' then [] else c ∷ []
strip_cr (c ∷ d ∷ s) = c ∷ strip_cr (d ∷ s)

abbrev pub line_of : Text → Option (Text × Text) → Text
line_of s none = s
line_of s (some p) = strip_cr p.0

unfoldable pub first_line : Text → Text
first_line s = line_of s (split_once b'\n' s)

-- `split_whitespace().nth(1)`
abbrev is_word : Text → Bool
is_word [] = false
is_word (c ∷ s) = true

abbrev pub second : List Text → Option Text
second (a ∷ b ∷ rest) = some b
second _ = none

unfoldable pub second_word : Text → Option Text
second_word s = second (keep is_word (split_by is_whitespace s))

-- `str::parse::<u16>`
abbrev pub in_u16 : Option ℕ → Option ℕ
in_u16 none = none
in_u16 (some n) = if ltb n 65536 then some n else none

abbrev pub parse_u16 : Text → Option ℕ
parse_u16 [] = none
parse_u16 (c ∷ s) = if c == b'+' then in_u16 (parse_digits s) else in_u16 (parse_digits (c ∷ s))

abbrev pub parsed_or_zero : Option Text → ℕ
parsed_or_zero none = 0
parsed_or_zero (some s) = or_zero (parse_u16 s)
  where
    or_zero : Option ℕ → ℕ
    or_zero none = 0
    or_zero (some n) = n

-- The text behind the first blank line, or none where there is no blank line.
unfoldable pub body_of : Text → Text
body_of [] = []
body_of (c ∷ s) =
    let rest = body_of s in if starts_with (codes "\r\n\r\n") (c ∷ s) then drop 3 s else rest

unfoldable pub parse_resp : Text → ℕ × Text
parse_resp raw = (parsed_or_zero (second_word (first_line raw)), body_of raw)

-- A status of 200 to 299 is a success.
unfoldable pub classify : ℕ × Text → ClientResult Text
classify (status, body) =
    if leb 200 status && ltb status 300 then got body else refused (http status body)

module _ {W : Type 0} (call : Request → W → Reached × W) (object : List (Text × Json) → Text)
    (array_text : List Text → Text) (base_url : Text) where
  -- `Client::endpoint`
  unfoldable pub endpoint : Text → Text
  endpoint path = trim_end_by (λ c. c == b'/') base_url ++ path

  abbrev pub answered : Reached × W → ClientResult Text × W
  answered (unreached e, w) = (refused (transport e), w)
  answered (response status body, w) = (classify (parse_resp (raw_response status body)), w)

  -- `get_raw` and `post_raw` and `post_signed`, which all send and then parse the answer.
  unfoldable pub send : Request → W → ClientResult Text × W
  send request w = answered (call request w)

  abbrev pub get_raw : Text → W → ClientResult Text × W
  get_raw url = send (record { method = get_method; url = url; body = []; signature = none })

  abbrev pub post_raw : Text → Text → W → ClientResult Text × W
  post_raw url body =
      send (record { method = post_method; url = url; body = body; signature = none })

  abbrev pub ignore : ClientResult Text × W → ClientResult (Unit {0}) × W
  ignore (got body, w) = (got tt, w)
  ignore (refused e, w) = (refused e, w)

  abbrev pub post_status : Text → List (Text × Json) → W → ClientResult (Unit {0}) × W
  post_status url body w = ignore (post_raw url (object body) w)

  abbrev legalese : Text × Json
  legalese = (codes "legalese", terms)

  abbrev pub replace : List Text → List Text → W → ClientResult (Unit {0}) × W
  replace inputs outputs =
      post_status (endpoint (codes "/api/v1/replace"))
        ((codes "webcashes", array inputs) ∷ (codes "new_webcashes", array outputs) ∷ legalese ∷ [])

  abbrev pub burn : Text → W → ClientResult (Unit {0}) × W
  burn secret_token =
      post_status (endpoint (codes "/api/v1/burn"))
        ((codes "webcash", string secret_token) ∷ legalese ∷ [])

  abbrev pub health_check : List Text → W → ClientResult Text × W
  health_check public_tokens =
      post_raw (endpoint (codes "/api/v1/health_check")) (array_text public_tokens)

  abbrev pub mining_report : Text → W → ClientResult (Unit {0}) × W
  mining_report preimage =
      post_status (endpoint (codes "/api/v1/mining_report"))
        ((codes "preimage", string preimage) ∷ legalese ∷ [])

  -- The header is set only where the signature is not empty.
  abbrev pub header : Text → Option Text
  header [] = none
  header (c ∷ s) = some (c ∷ s)

  -- `body` is the text of the body's bytes; bytes that are no UTF-8 are refused before.
  abbrev pub post_signed : Text → Option Text → Text → W → ClientResult (Unit {0}) × W
  post_signed url none sig_hex w = (refused (encode (codes "invalid utf-8")), w)
  post_signed url (some body) sig_hex w =
      ignore (
        send (record { method = post_method; url = url; body = body; signature = header sig_hex })
          w)

  abbrev pub issue : Option Text → Text → W → ClientResult (Unit {0}) × W
  issue = post_signed (endpoint (codes "/api/v1/issue"))

  abbrev pub target : W → ClientResult Text × W
  target = get_raw (endpoint (codes "/api/v1/target"))

  abbrev pub stats : W → ClientResult Text × W
  stats = get_raw (endpoint (codes "/api/v1/stats"))
