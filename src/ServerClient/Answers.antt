-- ===== src/ServerClient/Answers.antt =====
-- What the client makes of a response (crates/server-client/src/lib.rs): `http_send` writes the
-- status and the text down as one text, which `parse_resp` reads again.
use webylib.Prelude.{
  ℕ, suc, ◌<◌, ◌≡◌, ◌≢◌, refl, sym, ap, ◌∙◌, Bool, true, false, some, [], ◌∷◌, ◌++◌, All,
  All-append, append_assoc, keep, arith,
}
use webylib.Prelude.Text.{Text, codes, split_by, starts_with, contains_char, is_whitespace}
use webylib.Prelude.Text.Split.{Lacks, All-map, Lacks-contains_char}
use webylib.Prelude.Text.Once.{split_once-cons}
use webylib.Prelude.Decimal.{format_ℕ, parse_digits, value}
use webylib.Prelude.Decimal.Laws.{
  IsDigit, all_digits-true, digits-digits, digits-cons, value-digits,
}
use webylib.ServerClient.{
  raw_response, first_line, line_of, strip_cr, second_word, second, is_word, parse_u16, body_of,
  parse_resp,
}

-- The separator ends the first part, whose characters are none.
split_by-cons :
    (p : ℕ → Bool) (sep : ℕ) (s t : Text)
    → p sep ≡ true
    → All (λ c. p c ≡ false) s
    → split_by p (s ++ sep ∷ t) ≡ s ∷ split_by p t
unfolding split_by
split_by-cons p sep [] t y n = rw y refl
split_by-cons p sep (c ∷ s) t y n = rw (split_by-cons p sep s t y n.1) (rw n.0 refl)

starts-other : (c : ℕ) (s : Text) → c ≢ b'\r' → starts_with (codes "\r\n\r\n") (c ∷ s) ≡ false
unfolding starts_with
starts-other c s n = ground arith

body_of-head : (s t : Text) → Lacks b'\r' s → body_of (s ++ (codes "\r\n\r\n" ++ t)) ≡ t
unfolding body_of
body_of-head [] t n = unfold starts_with in refl
body_of-head (c ∷ s) t n =
    rw (starts-other c (s ++ (codes "\r\n\r\n" ++ t)) n.0) (body_of-head s t n.1)

parse_u16-digits :
    (c : ℕ) (s : Text)
    → All IsDigit (c ∷ s)
    → value 0 (c ∷ s) < 65536
    → parse_u16 (c ∷ s) ≡ some (value 0 (c ∷ s))
unfolding parse_digits
parse_u16-digits c s h fits = ground (arith, all_digits-true (c ∷ s) h)

digit-ne_cr : (c : ℕ) → IsDigit c → c ≢ b'\r'
digit-ne_cr c h = ground arith

digit-ne_nl : (c : ℕ) → IsDigit c → c ≢ b'\n'
digit-ne_nl c h = ground arith

digit-not_space : (c : ℕ) → IsDigit c → is_whitespace c ≡ false
unfolding is_whitespace
digit-not_space c h = ground arith

strip_cr-cr : (s : Text) → strip_cr (s ++ b'\r' ∷ []) ≡ s
strip_cr-cr [] = refl
strip_cr-cr (c ∷ []) = refl
strip_cr-cr (c ∷ d ∷ s) = ap (λ t. c ∷ t) (strip_cr-cr (d ∷ s))

first_line-cut : (s t : Text) → Lacks b'\n' s → first_line (s ++ (codes "\r\n\r\n" ++ t)) ≡ s
unfolding first_line
first_line-cut s t n =
    let line : Text = s ++ b'\r' ∷ [] in
    rw (sym (append_assoc s (b'\r' ∷ []) (codes "\n\r\n" ++ t))) (
      ap (line_of _) (
        split_once-cons b'\n' line (codes "\r\n" ++ t)
          (All-append (λ c. c ≢ b'\n') s (b'\r' ∷ []) n ((λ e. omega arith), tt)))
      ∙ strip_cr-cr s)

-- The status line of a number.
abbrev status_line : Text → Text
status_line n = codes "HTTP/1.1" ++ (b' ' ∷ (n ++ (b' ' ∷ codes "OK")))

second_word-status :
    (c : ℕ) (s : Text) → All IsDigit (c ∷ s) → second_word (status_line (c ∷ s)) ≡ some (c ∷ s)
unfolding second_word
second_word-status c s h =
    ap (λ parts. second (keep is_word parts))
      (split_by-cons is_whitespace b' ' (codes "HTTP/1.1") ((c ∷ s) ++ (b' ' ∷ codes "OK"))
          (unfold is_whitespace in refl)
          (unfold is_whitespace in
            (refl, (refl, (refl, (refl, (refl, (refl, (refl, (refl, tt)))))))))
        ∙ ap (λ parts. codes "HTTP/1.1" ∷ parts)
            (split_by-cons is_whitespace b' ' (c ∷ s) (codes "OK") (unfold is_whitespace in refl)
              (All-map (c ∷ s) digit-not_space h)))

line-Lacks :
    (k : ℕ) (n : Text)
    → contains_char k (codes "HTTP/1.1 ") ≡ false
    → contains_char k (codes " OK") ≡ false
    → Lacks k n
    → Lacks k (status_line n)
line-Lacks k n front back h =
    All-append (λ c. c ≢ k) (codes "HTTP/1.1 ") (n ++ codes " OK")
      (Lacks-contains_char k (codes "HTTP/1.1 ") front)
      (All-append (λ c. c ≢ k) n (codes " OK") h (Lacks-contains_char k (codes " OK") back))

raw-line :
    (n body : Text)
    → codes "HTTP/1.1" ++ (b' ' ∷ (n ++ (b' ' ∷ (codes "OK" ++ (codes "\r\n\r\n" ++ body)))))
      ≡ status_line n ++ (codes "\r\n\r\n" ++ body)
raw-line n body =
    ap (λ t. codes "HTTP/1.1 " ++ t) (sym (append_assoc n (codes " OK") (codes "\r\n\r\n" ++ body)))

resp-digits :
    (c : ℕ) (s body : Text) (status : ℕ)
    → All IsDigit (c ∷ s)
    → value 0 (c ∷ s) ≡ status
    → status < 65536
    → parse_resp (status_line (c ∷ s) ++ (codes "\r\n\r\n" ++ body)) ≡ (status, body)
unfolding parse_resp
resp-digits c s body status ds v h =
    let n : Lacks b'\n' (status_line (c ∷ s)) =
      line-Lacks b'\n' (c ∷ s) (unfold contains_char in refl) (unfold contains_char in refl)
        (All-map (c ∷ s) digit-ne_nl ds) in
    let r : Lacks b'\r' (status_line (c ∷ s)) =
      line-Lacks b'\r' (c ∷ s) (unfold contains_char in refl) (unfold contains_char in refl)
        (All-map (c ∷ s) digit-ne_cr ds) in
    rw (first_line-cut (status_line (c ∷ s)) body n) (
      rw (second_word-status c s ds) (
        rw (parse_u16-digits c s ds (omega (arith, v)))
          (rw (body_of-head (status_line (c ∷ s)) body r) (ap (λ n. (n, body)) v))))

-- The status, of 16 bits, and the text that `http_send` writes down are what `parse_resp` reads, also
-- where the text has line ends, blank lines or a status line of its own.
pub parse_resp-raw_response :
    (status : ℕ) (body : Text)
    → status < 65536
    → parse_resp (raw_response status body) ≡ (status, body)
unfolding raw_response format_ℕ
parse_resp-raw_response status body h =
    let (c, s, e) = digits-cons status status in
    let ds : All IsDigit (c ∷ s) = rw e at (digits-digits (suc status) status) in
    let v : value 0 (c ∷ s) ≡ status = rw (← e) (value-digits (suc status) status (omega arith)) in
    rw e (ap parse_resp (raw-line (c ∷ s) body) ∙ resp-digits c s body status ds v h)
