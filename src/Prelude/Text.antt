-- ===== src/Prelude/Text.antt =====
-- A text is the list of its Unicode scalar values. `String` is used only for literals and for the
-- messages of errors.
pub mod Split
pub mod Once
use Prim.Native.Nat.{ℕ, zero, suc, ◌+◌, ◌-◌, ◌*◌, ◌/◌, ◌%◌, ◌<◌, ◌≤◌}
use Prim.Native.Char.{code}
use Prim.Native.String.{String}
use mathlib.Core.Path.{◌≡◌, refl, ap}
use mathlib.Core.Logic.{◌↔◌, ◌≢◌}
use mathlib.Core.Bool.{Bool, true, false, ◌&&◌, ◌||◌}
use mathlib.Core.Option.{Option, none, some}
use mathlib.Core.List.{List, [], ◌∷◌, ◌++◌, reverse}
use native.Mathlib.Omega.{arith}
use webylib.Prelude.Tests.{ltb, leb, ◌==◌, if◌then◌else◌}

abbrev pub Text : Type 0
Text = List ℕ

abbrev pub codes : String → Text
codes String.[] = []
codes (String.◌∷◌ c s) = code c ∷ codes s

-- Equality of texts, and of byte strings.
unfoldable pub beq : Text → Text → Bool
beq [] [] = true
beq [] (y ∷ ys) = false
beq (x ∷ xs) [] = false
beq (x ∷ xs) (y ∷ ys) = (x == y) && beq xs ys

beq_sound : (s t : Text) → beq s t ≡ true → s ≡ t
unfolding beq
beq_sound [] [] h = refl
beq_sound [] (y ∷ ys) h = cc
beq_sound (x ∷ xs) [] h = cc
beq_sound (x ∷ xs) (y ∷ ys) h = ground (arith, beq_sound xs ys)

pub beq_self : (s : Text) → beq s s ≡ true
unfolding beq
beq_self [] = refl
beq_self (x ∷ xs) = ground (arith, beq_self xs)

-- The form that `ground` uses: given at each pair of texts that is compared.
pub beq_iff : (s t : Text) → (beq s t ≡ true) ↔ (s ≡ t)
beq_iff s t = (beq_sound s t, λ e. rw e (beq_self t))

-- `char::is_whitespace`: the property White_Space of Unicode.
unfoldable pub is_whitespace : ℕ → Bool
is_whitespace c =
    (leb 9 c && leb c 13)
    || c == 32
    || c == 0x85
    || c == 0xa0
    || c == 0x1680
    || (leb 0x2000 c && leb c 0x200a)
    || c == 0x2028
    || c == 0x2029
    || c == 0x202f
    || c == 0x205f
    || c == 0x3000

-- `char::is_ascii_digit`, `char::is_ascii_hexdigit`
abbrev pub is_ascii_digit : ℕ → Bool
is_ascii_digit c = leb b'0' c && leb c b'9'

abbrev pub is_ascii_hexdigit : ℕ → Bool
is_ascii_hexdigit c = is_ascii_digit c || (leb b'a' c && leb c b'f') || (leb b'A' c && leb c b'F')

-- `str::trim_start`, `str::trim_end` and `trim_end_matches`, for a test on characters.
unfoldable pub trim_start_by : (ℕ → Bool) → Text → Text
trim_start_by p [] = []
trim_start_by p (c ∷ s) = let rest = trim_start_by p s in if p c then rest else c ∷ s

abbrev pub cons_unless : Bool → ℕ → Text → Text
cons_unless b c (d ∷ s) = c ∷ d ∷ s
cons_unless true c [] = []
cons_unless false c [] = c ∷ []

unfoldable pub trim_end_by : (ℕ → Bool) → Text → Text
trim_end_by p [] = []
trim_end_by p (c ∷ s) = cons_unless (p c) c (trim_end_by p s)

unfoldable pub trim : Text → Text
unfolding trim_start_by trim_end_by is_whitespace
trim s = trim_end_by is_whitespace (trim_start_by is_whitespace s)

-- `str::split` by a test on characters, or by one character: one part more than there are separators.
abbrev pub cons_head : ℕ → List Text → List Text
cons_head c [] = (c ∷ []) ∷ []
cons_head c (part ∷ parts) = (c ∷ part) ∷ parts

unfoldable pub split_by : (ℕ → Bool) → Text → List Text
split_by p [] = [] ∷ []
split_by p (c ∷ s) = let rest = split_by p s in if p c then [] ∷ rest else cons_head c rest

abbrev pub split : ℕ → Text → List Text
split sep s = split_by (λ c. c == sep) s

-- `[&str]::join`
unfoldable pub join : Text → List Text → Text
join sep [] = []
join sep (part ∷ []) = part
join sep (part ∷ more ∷ parts) = part ++ (sep ++ join sep (more ∷ parts))

-- `str::starts_with` and `str::contains`, by a text.
unfoldable pub starts_with : Text → Text → Bool
starts_with [] s = true
starts_with (p ∷ ps) [] = false
starts_with (p ∷ ps) (c ∷ s) = (p == c) && starts_with ps s

unfoldable pub contains : Text → Text → Bool
unfolding starts_with
contains needle [] = starts_with needle []
contains needle (c ∷ s) = starts_with needle (c ∷ s) || contains needle s

-- `str::contains` by one character.
unfoldable pub contains_char : ℕ → Text → Bool
contains_char k [] = false
contains_char k (c ∷ s) = c == k || contains_char k s

-- `str::len`: the bytes of the UTF-8 encoding.
abbrev pub len_utf8 : ℕ → ℕ
len_utf8 c = if ltb c 0x80 then 1 else if ltb c 0x800 then 2 else if ltb c 0x10000 then 3 else 4

unfoldable pub len : Text → ℕ
len [] = 0
len (c ∷ s) = len_utf8 c + len s

-- `str::as_bytes`: the UTF-8 encoding.
abbrev encode : ℕ → Text
encode c =
    if ltb c 0x80
    then c ∷ []
    else if ltb c 0x800
    then (0xc0 + c / 64) ∷ (0x80 + c % 64) ∷ []
    else if ltb c 0x10000
    then (0xe0 + c / 4096) ∷ (0x80 + c / 64 % 64) ∷ (0x80 + c % 64) ∷ []
    else (0xf0 + c / 262144) ∷ (0x80 + c / 4096 % 64) ∷ (0x80 + c / 64 % 64) ∷ (0x80 + c % 64) ∷ []

unfoldable pub as_bytes : Text → List ℕ
as_bytes [] = []
as_bytes (c ∷ s) = encode c ++ as_bytes s
