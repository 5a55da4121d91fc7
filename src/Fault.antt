-- ===== src/Fault.antt =====
-- The errors of the library (src/error.rs) and the results that carry them. An error of another
-- crate (`Io`, `Database`, `Json`, `Http`) is kept as the text that it displays.
use Prim.Native.String.{◌++◌ as ◌+++◌}
use webylib.Prelude.{◌≡◌, refl, Bool, Option, none, some, String}
use webylib.Prelude.Text.{codes, contains}

pub data Error : Type 0 where
  io database json http : String → Error
  parse amount crypto server wallet : String → Error
  terms_not_accepted : Error
  invalid_input not_supported auth : String → Error
  insufficient_funds : String → String → Error
  other : String → Error

-- The values of `std::result::Result<A, Error>`.
pub data Result {ℓ} (A : Type ℓ) : Type ℓ where
  ok : A → Result A
  err : Error → Result A

-- `?`: an error ends the function that calls.
module _ {ℓ κ} {A : Type ℓ} {B : Type κ} where
  infixl 5 ◌>>=◌
  abbrev pub ◌>>=◌ : Result A → (A → Result B) → Result B
  err x >>= next = err x
  ok value >>= next = next value

  pub >>=-eq-ok :
      (r : Result A) (next : A → Result B) {out : B}
      → (r >>= next) ≡ ok out
      → (value : A) × (r ≡ ok value) × (next value ≡ ok out)
  >>=-eq-ok (err x) next e = cc
  >>=-eq-ok (ok value) next e = (value, refl, e)

module _ {κ} {B : Type κ} where
  infixl 5 ◌>>◌
  abbrev pub ◌>>◌ : Result (Unit {0}) → Result B → Result B
  check >> rest = check >>= λ _. rest

-- `ok_or_else`
abbrev pub ok_or {ℓ} : {A : Type ℓ} → Option A → Error → Result A
ok_or none e = err e
ok_or (some a) e = ok a

infixr 60 ◌^^◌
abbrev ◌^^◌ : String → String → String
a ^^ b = a +++ (": " +++ b)

-- `Error::with_context`
unfoldable pub with_context : String → Error → Error
with_context c (parse m) = parse (c ^^ m)
with_context c (amount m) = amount (c ^^ m)
with_context c (crypto m) = crypto (c ^^ m)
with_context c (server m) = server (c ^^ m)
with_context c (wallet m) = wallet (c ^^ m)
with_context c (invalid_input m) = invalid_input (c ^^ m)
with_context c (not_supported m) = not_supported (c ^^ m)
with_context c (auth m) = auth (c ^^ m)
with_context c (insufficient_funds needed available) = insufficient_funds (c ^^ needed) available
with_context c (other m) = other (c ^^ m)
with_context c e = e

-- The `Display` that `thiserror` derives.
unfoldable pub to_string : Error → String
to_string (io e) = "I/O error: " +++ e
to_string (database e) = "Database error: " +++ e
to_string (json e) = "JSON error: " +++ e
to_string (http e) = "HTTP error: " +++ e
to_string (parse m) = "Parse error: " +++ m
to_string (amount m) = "Amount error: " +++ m
to_string (crypto m) = "Crypto error: " +++ m
to_string (server m) = "Server error: " +++ m
to_string (wallet m) = "Wallet error: " +++ m
to_string terms_not_accepted = "Terms of service must be accepted"
to_string (invalid_input m) = "Invalid input: " +++ m
to_string (not_supported m) = "Operation not supported: " +++ m
to_string (auth m) = "Authentication error: " +++ m
to_string (insufficient_funds needed available) =
    "Insufficient funds: needed " +++ (needed +++ (", available " +++ available))
to_string (other m) = m

-- `message.contains("…")`
abbrev pub mentions : String → String → Bool
mentions needle m = contains (codes needle) (codes m)

to_string_runs : to_string (with_context "open" (wallet "locked")) ≡ "Wallet error: open: locked"
unfolding to_string with_context
to_string_runs = refl
