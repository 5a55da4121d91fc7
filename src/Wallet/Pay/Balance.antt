-- ===== src/Wallet/Pay/Balance.antt =====
-- What a successful `Wallet::pay` (src/wallet/operations.rs) does to the balance and to the chain
-- of payments, on any store that keeps the laws of its interface.
use webylib.Prelude.{
  ℕ, ◌+◌, ◌≡◌, refl, sym, ap, subst, ◌∙◌, false, ◌++◌, take, Bool-cases, inl, inr,
}
use webylib.Prelude.Int.{ℤ, pos, ◌+ℤ◌, ◌-ℤ◌, ◌≤ℤ◌, ltb_ℤ, int_laws, max_i64, nonneg_in_range}
use webylib.Prelude.Text.{Text, codes}
use webylib.Prelude.Assoc.{lookup}
use webylib.Fault.{ok}
use webylib.Amount.{Amount, from_wats, sub}
use webylib.Amount.Arith.{sub_exact}
use webylib.Crypto.{Bytes, pay, derive_secret, as_str}
use webylib.Webcash.{secret_to_string}
use webylib.Store.{Store}
use webylib.Store.State
use webylib.Store.State.{MemState, MemOutput, mark_first}
use webylib.Store.Laws.{StoreLaws}
use webylib.Store.Laws.Outputs.{balance}
use webylib.Store.Laws.Rows.{sum_rows, get_unspent-balance}
use webylib.Server.{Server}
use webylib.Wallet.{World, Env, hash_of}
use webylib.Wallet.Effects.{IsMaster}
use webylib.Wallet.Inputs.{total_amount}
use webylib.Wallet.Inputs.Selection.{select_rows-covers}
use webylib.Wallet.Pay.{change_of, settle, pay_amount}
use webylib.Wallet.Sound.{IsSound, wrapped, balance-nonneg, rows-nonneg, front}
use webylib.Wallet.Pay.Steps.{Paid, pay_amount-Paid, settle-effect, value_of}

none_left : (z : ℤ) → pos 0 ≤ℤ z → ltb_ℤ (pos 0) z ≡ false → pos 0 ≡ z
none_left z h e = grind (int_laws, h, e)

value_of-change :
    (env : Env) (master : Bytes) (d : ℕ) (a : Amount)
    → pos 0 ≤ℤ a.wats
    → value_of (change_of env master d a) ≡ a.wats
value_of-change env master d a h = elim (Bool-cases (ltb_ℤ (pos 0) a.wats)) [
  | inl more ↦ rw more refl
  | inr no_more ↦ rw no_more (none_left a.wats h no_more)
]

module _ {W : Type 0} {st : Store MemState} (laws : StoreLaws st) (sv : Server W) (env : Env)
    (amount : Amount) where
  balance-exact :
      (w w' : World MemState W) {msg : Text}
      → IsSound env w.disk.outputs
      → pos 0 ≤ℤ amount.wats
      → Paid laws sv env amount w w' msg
      → (balance w'.disk.outputs +ℤ amount.wats ≡ balance w.disk.outputs)
        × (pos 0 ≤ℤ balance w'.disk.outputs)
        × (State.get_depth (as_str pay) w'.disk ≡ State.get_depth (as_str pay) w.disk + 1)
  balance-exact w w' sound positive p =
      let rows = State.get_unspent p.s in
      let v : IsSound env p.s.outputs = subst (IsSound env) (sym p.outputs) sound in
      let all : sum_rows rows ≡ balance p.s.outputs =
        get_unspent-balance (hash_of env) p.s v.distinct v.hashed in
      let small : sum_rows rows ≤ℤ pos max_i64 = subst (λ t. t ≤ℤ pos max_i64) (sym all) v.fits in
      let (n, same, covered) =
        select_rows-covers amount rows (rows-nonneg p.s v.nonneg) small p.chosen in
      let taken = take n rows in
      let f = front env p.s n v in
      let at_least_zero = f.nonneg in
      let at_most = f.at_most in
      let limit = v.fits in
      let total : total_amount p.inputs ≡ from_wats (sum_rows taken) =
        ap total_amount same ∙ f.total in
      let left : sub (total_amount p.inputs) amount ≡ from_wats (sum_rows taken -ℤ amount.wats) =
        ap (λ t. sub t amount) total
        ∙ sub_exact (from_wats (sum_rows taken)) amount
            (nonneg_in_range (sum_rows taken -ℤ amount.wats) (omega int_laws) (omega int_laws)) in
      let c = change_of env p.master p.change_depth (sub (total_amount p.inputs) amount) in
      let worth : value_of c ≡ sum_rows taken -ℤ amount.wats =
        ap (λ a. value_of (change_of env p.master p.change_depth a)) left
        ∙ value_of-change env p.master p.change_depth (from_wats (sum_rows taken -ℤ amount.wats))
            (omega int_laws) in
      let settled =
        subst
          (λ is.
            settle env is c (State.get_depth (as_str pay) p.s) p.change_depth (StoreLaws.inner laws)
              p.s
            ≡ (ok tt, w'.disk))
          same p.settled in
      let (after, depth) =
        settle-effect env laws.inner_laws taken c (State.get_depth (as_str pay) p.s) p.change_depth
          p.s v.distinct settled in
      let marked = f.marked in
      let whole : balance p.s.outputs ≡ balance w.disk.outputs = ap balance p.outputs in
      let kept : balance w'.disk.outputs +ℤ amount.wats ≡ balance w.disk.outputs =
        grind (int_laws, after, worth, marked, whole) in
      let cover : amount.wats ≤ℤ balance p.s.outputs = omega int_laws in
      let cover' = subst (λ t. amount.wats ≤ℤ t) (whole ∙ sym kept) cover in
      (kept, omega int_laws, depth ∙ ap (λ m. State.or_zero (lookup (as_str pay) m) + 1) p.depths)

  -- Where `pay` of an amount that is not negative succeeds, on any store that keeps the laws of the
  -- interface and holds sound outputs, the store's balance (`sum_unspent`) is lower by exactly that
  -- amount, whatever inputs were chosen and whether or not there was change.
  pub pay_amount-balance :
      (w w' : World MemState W) {msg : Text}
      → IsSound env w.disk.outputs
      → pos 0 ≤ℤ amount.wats
      → pay_amount st sv env amount w ≡ (ok msg, w')
      → State.sum_unspent w'.disk +ℤ amount.wats ≡ State.sum_unspent w.disk
  pay_amount-balance w w' sound positive e =
      let (kept, nonneg, _) =
        balance-exact w w' sound positive (pay_amount-Paid laws sv env amount w e) in
      let fits = sound.fits in
      let small : balance w'.disk.outputs ≤ℤ pos max_i64 =
        (let fits' = subst (λ t. t ≤ℤ pos max_i64) (sym kept) fits in omega int_laws) in
      ap (λ t. t +ℤ amount.wats) (wrapped w'.disk.outputs nonneg small)
      ∙ kept
      ∙ sym (wrapped w.disk.outputs (balance-nonneg w.disk.outputs sound.nonneg) fits)

  -- Where `pay` of an amount that is not negative succeeds on a sound store, its message hands out
  -- the webcash of that amount whose secret is derived from the wallet's master secret, on the chain
  -- PAY at the depth that the store had, and the store's depth of that chain is then one more. The
  -- master secret is 32 bytes, in hexadecimal digits in the store or else newly generated.
  pub pay_amount-message :
      (w w' : World MemState W) {msg : Text}
      → IsSound env w.disk.outputs
      → pos 0 ≤ℤ amount.wats
      → pay_amount st sv env amount w ≡ (ok msg, w')
      → (master : Bytes) × IsMaster env w.disk master
        × (msg
            ≡ codes "Payment completed! Send this webcash to recipient: "
              ++ secret_to_string (record {
                secret = derive_secret env.crypto master pay (State.get_depth (as_str pay) w.disk);
                amount = amount;
              }))
        × (State.get_depth (as_str pay) w'.disk ≡ State.get_depth (as_str pay) w.disk + 1)
  pay_amount-message w w' {msg = msg} sound positive e =
      let p = pay_amount-Paid laws sv env amount w e in
      let (_, _, depth) = balance-exact w w' sound positive p in
      let said : ℕ → Text = λ d.
        codes "Payment completed! Send this webcash to recipient: "
        ++ secret_to_string
            (record { secret = derive_secret env.crypto p.master pay d; amount = amount }) in
      (
        p.master,
        p.mastered,
        p.message ∙ ap (λ m. said (State.or_zero (lookup (as_str pay) m))) p.depths,
        depth,
      )
