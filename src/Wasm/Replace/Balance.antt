-- ===== src/Wasm/Replace/Balance.antt =====
-- What paying and merging in the browser's wallet (crates/webylib-wasm/src/wallet.rs) do to its
-- balance: the preparation and, once the server has accepted, the change.
use webylib.Prelude.{
  ◌≡◌, refl, sym, ap, subst, ◌∙◌, Bool, true, false, Option, none, some, List, [], take, All-take,
  arith, if◌then◌else◌,
}
use webylib.Prelude.Int.{
  ℤ, pos, ◌+ℤ◌, ◌-ℤ◌, ◌≤ℤ◌, ltb_ℤ, int_laws, max_i64, wrap_i64, wrap_i64_in_range, nonneg_in_range,
  InI64,
}
use webylib.Prelude.Text.{Text, codes}
use webylib.Fault.{Error, ◌>>=◌, Result, ok, err, >>=-eq-ok}
use webylib.Wallet.{Env}
use webylib.Store.State
use webylib.Store.Laws.Outputs
use webylib.Store.Laws.Rows.{
  Row, sum_rows, DistinctRows-take, get_unspent-Holds, get_unspent-DistinctRows,
  get_unspent-balance,
}
use webylib.Wasm.{js_error}
use webylib.Wasm.State.{
  Output, WalletState, WalletResult, ReplaceEffect, replace, unspent, balance, derive, get_depth,
}
use webylib.Wasm.Replace.{
  select, sort_desc, settle, apply_effect, wallet_apply_replace, payment, pending_change, pay_with,
  wallet_prepare_pay, new_output,
}
use webylib.Wasm.Replace.Inputs.{Inputs, store_of, select-Inputs}
use webylib.Wasm.Replace.Sound.{
  IsSound, self, rows_in, viewed-IsHashed, balance-exact, IsSound-balance, worth, settle-balance,
}

pub effect_of : {e f : ReplaceEffect} → some (replace e) ≡ some (replace f) → e ≡ f
effect_of h = cc

pub ok_injective : {A : Type 0} {a b : A} → ok a ≡ ok b → a ≡ b
ok_injective h = cc

pub unguarded :
    {A : Type 0} (b : Bool) (x : Error) (m : Result A) {a : A}
    → (if b then err x else m) ≡ ok a
    → (b ≡ false) × (m ≡ ok a)
unguarded true x m h = absurd (cc h)
unguarded false x m h = (refl, h)

at_least : (a b : ℤ) → ltb_ℤ a b ≡ false → b ≤ℤ a
at_least a b h = ground arith

exhausted : (z : ℤ) → pos 0 ≤ℤ z → ltb_ℤ (pos 0) z ≡ false → pos 0 ≡ z
exhausted z h e = grind (int_laws, h, e)

-- The balances themselves, from the sums of the outputs.
pub lowered :
    (s s' : WalletState) (amount : ℤ)
    → IsSound s
    → pos 0 ≤ℤ amount
    → pos 0 ≤ℤ Outputs.balance (rows_in s')
    → Outputs.balance (rows_in s') +ℤ amount ≡ Outputs.balance (rows_in s)
    → balance s' +ℤ amount ≡ balance s
lowered s s' amount v positive nonneg kept =
    let fits = subst (λ t. t ≤ℤ pos max_i64) (sym kept) v.fits in
    ap (λ t. t +ℤ amount) (balance-exact s' nonneg (omega int_laws))
    ∙ kept
    ∙ sym (IsSound-balance s v)

module _ (env : Env) where
  -- A payment that was prepared: its inputs cover it, and its change is pending.
  pub record Prepared (s : WalletState) (amount : ℤ) (timestamp : Text) (out : List Text × ℤ)
      (r : WalletResult) : Type 0 where
    pub covers : amount ≤ℤ out.1
    pub pay_secret : Text
    pub derived : derive env s 1 (get_depth (codes "PAY") s) ≡ ok pay_secret
    pub change : Option Output
    pub pending : pending_change env s (wrap_i64 (out.1 -ℤ amount)) timestamp ≡ ok change
    pub result : payment env s amount out.0 pay_secret change ≡ r

  payment-parts :
      (s : WalletState) (amount : ℤ) (selected : List Text) (pay_secret : Text)
      (change : Option Output) {e : ReplaceEffect}
      → WalletResult.effect (payment env s amount selected pay_secret change) ≡ some (replace e)
      → (e.mark_spent ≡ selected) × (e.pending_output ≡ change)
  payment-parts s amount selected pay_secret none h =
      let p = effect_of h in (ap (λ f. f.mark_spent) (sym p), ap (λ f. f.pending_output) (sym p))
  payment-parts s amount selected pay_secret (some o) h =
      let p = effect_of h in (ap (λ f. f.mark_spent) (sym p), ap (λ f. f.pending_output) (sym p))

  pub pay_with-Prepared :
      (s : WalletState) (amount : ℤ) (timestamp : Text) (out : List Text × ℤ) {r : WalletResult}
      → pay_with env s amount timestamp out ≡ ok r
      → Prepared s amount timestamp out r
  unfolding pay_with
  pay_with-Prepared s amount timestamp (selected, total) h =
      let z = wrap_i64 (total -ℤ amount) in
      let (enough, h1) = unguarded (ltb_ℤ total amount) (js_error "Insufficient funds") _ h in
      let (pay_secret, derived, h2) =
        >>=-eq-ok (derive env s 1 (get_depth (codes "PAY") s))
          (λ pay_secret. pending_change env s z timestamp >>= λ change.
            ok (payment env s amount selected pay_secret change))
          h1 in
      let (change, pending, h3) =
        >>=-eq-ok (pending_change env s z timestamp)
          (λ change. ok (payment env s amount selected pay_secret change)) h2 in
      record {
        covers = at_least total amount enough;
        pay_secret = pay_secret;
        derived = derived;
        change = change;
        pending = pending;
        result = ok_injective h3;
      }

  -- The change: none where nothing is left over, else an output of its own.
  abbrev pub IsChange : WalletState → ℤ → Text → Option Output → Type 0
  IsChange s z timestamp none = ltb_ℤ (pos 0) z ≡ false
  IsChange s z timestamp (some o) =
      (secret : Text) × (derive env s 2 (get_depth (codes "CHANGE") s) ≡ ok secret)
      × (ltb_ℤ (pos 0) z ≡ true)
      × (o ≡ new_output env secret z timestamp)

  pub pending_change-IsChange :
      (s : WalletState) (z : ℤ) (timestamp : Text) {p : Option Output}
      → pending_change env s z timestamp ≡ ok p
      → IsChange s z timestamp p
  unfolding pending_change
  pending_change-IsChange s z timestamp {p} = go (ltb_ℤ (pos 0) z) refl
    where
      go :
          (b : Bool)
          → ltb_ℤ (pos 0) z ≡ b
          → (if b
              then (derive env s 2 (get_depth (codes "CHANGE") s) >>= λ secret.
                  ok (some (new_output env secret z timestamp)))
              else ok none)
            ≡ ok p
          → IsChange s z timestamp p
      go false left e = subst (IsChange s z timestamp) (ok_injective e) left
      go true left e =
          let (secret, derived, done) =
            >>=-eq-ok (derive env s 2 (get_depth (codes "CHANGE") s))
              (λ secret. ok (some (new_output env secret z timestamp))) e in
          subst (IsChange s z timestamp) (ok_injective done) (secret, derived, left, refl)

  IsChange-worth :
      (s : WalletState) (z : ℤ) (timestamp : Text) (p : Option Output)
      → pos 0 ≤ℤ z
      → IsChange s z timestamp p
      → worth p ≡ z
  IsChange-worth s z timestamp none h left = exhausted z h left
  IsChange-worth s z timestamp (some o) h (secret, derived, left, same) =
      ap (λ p. worth (some p)) same

  -- What is left over, computed on an `i64`.
  pub record Exact (s : WalletState) (amount : ℤ) (out : List Text × ℤ) (i : Inputs s amount out)
      : Type 0 where
    pub covers : amount ≤ℤ sum_rows (take i.count (State.get_unspent (store_of s)))
    pub in_range : InI64 (sum_rows (take i.count (State.get_unspent (store_of s))) -ℤ amount)
    pub change :
        wrap_i64 (out.1 -ℤ amount)
        ≡ sum_rows (take i.count (State.get_unspent (store_of s))) -ℤ amount

  pub change-Exact :
      (s : WalletState) (amount : ℤ) (out : List Text × ℤ)
      → IsSound s
      → pos 0 ≤ℤ amount
      → (i : Inputs s amount out) → amount ≤ℤ out.1
      → Exact s amount out i
  change-Exact s amount out v positive i enough =
      let total = sum_rows (take i.count (State.get_unspent (store_of s))) in
      let covers : amount ≤ℤ total = subst (λ t. amount ≤ℤ t) i.total enough in
      let bounded = i.bounded in
      let fits = v.fits in
      let in_range = nonneg_in_range (total -ℤ amount) (omega int_laws) (omega int_laws) in
      record {
        covers = covers;
        in_range = in_range;
        change =
            ap (λ t. wrap_i64 (t -ℤ amount)) i.total ∙ wrap_i64_in_range (total -ℤ amount) in_range;
      }

  -- Where a payment of an amount that is not negative was prepared from a sound state and the server
  -- accepts it, the state's balance is lower by exactly that amount.
  pub wallet_prepare_pay-balance :
      (s : WalletState) (amount : ℤ) (timestamp : Text) (r : WalletResult) (e : ReplaceEffect)
      → IsSound s
      → pos 0 ≤ℤ amount
      → wallet_prepare_pay env s amount timestamp ≡ ok r
      → WalletResult.effect r ≡ some (replace e)
      → balance (WalletResult.state (wallet_apply_replace env s (replace e) true)) +ℤ amount
        ≡ balance s
  unfolding wallet_prepare_pay wallet_apply_replace apply_effect
  wallet_prepare_pay-balance s amount timestamp r e v positive h k =
      let out = select amount (sort_desc (unspent s.outputs)) [] (pos 0) in
      let rows = State.get_unspent (store_of s) in
      let p = pay_with-Prepared s amount timestamp out h in
      let (marks, stored) =
        payment-parts s amount out.0 p.pay_secret p.change (ap WalletResult.effect p.result ∙ k) in
      let i = select-Inputs amount s v in
      let taken = take i.count rows in
      let hashed = viewed-IsHashed s.outputs in
      let all : sum_rows rows ≡ Outputs.balance (rows_in s) =
        get_unspent-balance self (store_of s) v.distinct hashed in
      let exact = change-Exact s amount out v positive i p.covers in
      let covers = exact.covers in
      let bounded = i.bounded in
      let change = exact.change in
      let left : worth e.pending_output ≡ sum_rows taken -ℤ amount =
        ap worth stored
        ∙ IsChange-worth s (sum_rows taken -ℤ amount) timestamp p.change (omega int_laws) (
            subst (λ z. IsChange s z timestamp p.change) change
              (pending_change-IsChange s (wrap_i64 (out.1 -ℤ amount)) timestamp p.pending)) in
      let settled =
        settle-balance env e taken s (marks ∙ i.selected)
          (DistinctRows-take self i.count rows
            (get_unspent-DistinctRows self (store_of s) v.distinct hashed))
          (All-take (λ (r : Row). Outputs.available r.0 (rows_in s) ≡ some r.1) i.count rows
            (get_unspent-Holds self (store_of s) v.distinct hashed)) in
      let kept : Outputs.balance (rows_in (settle env e s)) +ℤ amount
          ≡ Outputs.balance (rows_in s) =
        grind (int_laws, settled, left) in
      let in_all : amount ≤ℤ Outputs.balance (rows_in s) = omega int_laws in
      let in_rest = subst (λ t. amount ≤ℤ t) (sym kept) in_all in
      lowered s (settle env e s) amount v positive (omega int_laws) kept
