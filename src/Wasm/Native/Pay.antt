-- ===== src/Wasm/Native/Pay.antt =====
-- A payment in the browser's wallet (crates/webylib-wasm/src/wallet.rs) and the same payment by
-- `Wallet::pay` (src/wallet/operations.rs) on the in-memory store.
use webylib.Prelude.{
  ℕ, ◌≡◌, refl, sym, ap, subst, ◌∙◌, true, Option, none, some, List, [], ◌∷◌, ◌++◌, map,
}
use webylib.Prelude.Int.{ℤ, pos, ◌≤ℤ◌}
use webylib.Prelude.Text.{Text, codes}
use webylib.Fault.{ok}
use webylib.Amount.{from_wats, zero_amount, sub}
use webylib.Crypto
use webylib.Crypto.{Bytes, pay, change, as_str, as_u64}
use webylib.Webcash.{SecretWebcash, secret_to_string}
use webylib.Server.{Server, ReplaceResponse}
use webylib.Store.State
use webylib.Store.State.{MemState, MemOutput}
use webylib.Store.Mem.{mem_store}
use webylib.Store.Laws.{Distinct}
use webylib.Store.Laws.Rows.{Row, rows_of}
use webylib.Wallet.{World, Env, hash_of, webcash_of_row}
use webylib.Wallet.Inputs.{select_rows, enough, total_amount}
use webylib.Wallet.Pay.{change_of, is_success, optional, replace_request, pay_amount}
use webylib.Wasm.State.{Output, WalletState, WalletResult, ReplaceEffect, replace, get_depth}
use webylib.Wasm.Replace.{
  settle, apply_effect, wallet_apply_replace, payment_effect, wallet_prepare_pay,
}
use webylib.Wasm.Replace.View.{viewed, row_of-unspent}
use webylib.Wasm.Replace.Sound.{IsSound, self}
use webylib.Wasm.Replace.Inputs.{store_of}
use webylib.Wasm.Native.{Agree}
use webylib.Wasm.Native.Spend.{HashLaws}
use webylib.Wasm.Native.Run.{pay_amount-mem, settled, IsNew, said}
use webylib.Wasm.Native.Chosen.{Chosen, wallet_prepare_pay-Chosen}
use webylib.Wasm.Native.Effect.{
  as_webcash, request_of, IsUnstored, payment_effect-request, payment_effect-Agree,
  change_of-IsChange,
}

IsNew-as_webcash :
    (env : Env) (laws : HashLaws env) (p : Option Output) (m : MemState)
    → IsUnstored env p m
    → IsNew env laws (as_webcash p) m
IsNew-as_webcash env laws none m h = tt
IsNew-as_webcash env laws (some o) m h = h

pending-payment :
    (env : Env) (s : WalletState) (amount : ℤ) (selected : List Text) (pay_secret : Text)
    (p : Option Output)
    → ReplaceEffect.pending_output (payment_effect env s amount selected pay_secret p) ≡ p
pending-payment env s amount selected pay_secret none = refl
pending-payment env s amount selected pay_secret (some o) = refl

-- Both wallets take their inputs from the same rows.
same_rows :
    (env : Env) (s : WalletState) (m : MemState)
    → Agree env s m
    → State.get_unspent m ≡ State.get_unspent (store_of s)
same_rows env s m a =
    ap (λ os. State.sort_desc (rows_of os)) (Agree.outputs a)
    ∙ sym (row_of-unspent (hash_of env) s.outputs)
    ∙ row_of-unspent self s.outputs

module _ {W : Type 0} (env : Env) (laws : HashLaws env) (sv : Server W) (s : WalletState)
    (w : World MemState W) (a : Agree env s w.disk) where
  -- The depths, the payment and the change, as the native wallet reads and computes them.
  abbrev pay_depth : ℕ
  pay_depth = State.get_depth (as_str pay) w.disk

  abbrev change_depth : ℕ
  change_depth = State.get_depth (as_str change) w.disk

  module _ {amount : ℤ} {timestamp : Text} {r : WalletResult} {e : ReplaceEffect}
      (c : Chosen env s amount timestamp r e) where
    abbrev inputs : List SecretWebcash
    inputs = map webcash_of_row c.rows

    abbrev paid : ℕ → SecretWebcash
    paid d = record {
      secret = Crypto.derive_secret env.crypto c.master pay d;
      amount = from_wats amount;
    }

    abbrev payment : SecretWebcash
    payment = record { secret = c.pay_secret; amount = from_wats amount }

    abbrev rest : Option SecretWebcash
    rest = change_of env c.master change_depth (sub (total_amount inputs) (from_wats amount))

    payment_same : paid pay_depth ≡ payment
    unfolding as_str
    payment_same =
        ap paid (a.depths (codes "PAY"))
        ∙ ap (λ t. record { secret = t; amount = from_wats amount }) (sym c.derived)

    rest_same : rest ≡ as_webcash c.change
    unfolding as_str
    rest_same =
        ap (λ d. change_of env c.master d (sub (total_amount inputs) (from_wats amount)))
          (a.depths (codes "CHANGE"))
        ∙ ap (change_of env c.master (get_depth (codes "CHANGE") s)) c.rest
        ∙ change_of-IsChange env s amount c.pay_secret c.rows timestamp c.left c.change c.master
            c.valid c.is_change

    request_same : replace_request inputs (paid pay_depth ∷ optional rest) ≡ request_of e
    request_same =
        (λ j. replace_request inputs (payment_same j ∷ optional (rest_same j)))
        ∙ payment_effect-request env s amount c.pay_secret c.rows c.change c.held
        ∙ ap request_of c.effect

    rest-IsNew : IsUnstored env e.pending_output w.disk → IsNew env laws rest w.disk
    rest-IsNew unstored =
        let pending : e.pending_output ≡ c.change =
          ap (λ f. f.pending_output) (sym c.effect)
          ∙ pending-payment env s amount (map (λ (q : Row). q.0) c.rows) c.pay_secret c.change in
        subst (λ o. IsNew env laws o w.disk) (sym rest_same)
          (IsNew-as_webcash env laws c.change w.disk
            (subst (λ o. IsUnstored env o w.disk) pending unstored))

    abbrev end : W → World MemState W
    end v' = record {
      disk = settled env laws c.rows rest pay_depth change_depth w.disk;
      server = v';
    }

    pay_amount-runs :
        (answer : ReplaceResponse) (v' : W)
        → IsUnstored env e.pending_output w.disk
        → Server.replace sv (request_of e) w.server ≡ (ok answer, v')
        → is_success answer ≡ true
        → pay_amount mem_store sv env (from_wats amount) w ≡ (
          ok (
              codes "Payment completed! Send this webcash to recipient: "
              ++ secret_to_string payment),
          end v',
        )
    pay_amount-runs answer v' unstored accepted success =
        let take_inputs = λ (rows : List Row).
          enough (from_wats amount) (select_rows (from_wats amount) rows [] zero_amount) in
        pay_amount-mem env laws sv w (from_wats amount) c.master c.rows s.master_secret answer v'
          a.master c.valid (ap take_inputs (same_rows env s w.disk a) ∙ c.is_enough) c.has_input
          (rest-IsNew unstored) (ap (λ q. Server.replace sv q w.server) request_same ∙ accepted)
          success
        ∙ ap (λ pw. (ok (said env laws sv w pw), end v')) payment_same

    settle-Agree : (v' : W) → Agree env (settle env e s) (World.disk (end v'))
    unfolding as_str
    settle-Agree v' =
        subst (λ f. Agree env (settle env f s) (World.disk (end v'))) c.effect
          (subst
            (λ m.
              Agree env
                (settle env
                  (payment_effect env s amount (map (λ (q : Row). q.0) c.rows) c.pay_secret
                    c.change)
                  s)
                m)
            (λ j.
              settled env laws c.rows (sym rest_same j) (sym (a.depths (codes "PAY")) j)
                (sym (a.depths (codes "CHANGE")) j) w.disk)
            (payment_effect-Agree env s amount c.pay_secret c.rows laws timestamp c.left c.change
              w.disk c.is_change c.tells a))

  -- Where a payment of a positive amount was prepared from a sound state of the browser's wallet whose
  -- outputs have different hashes, the native wallet's in-memory store agrees with that state, the
  -- hash of the change is not stored yet, and the server accepts the prepared request, `pay` of the
  -- same amount succeeds on the store by that very request, hands out the webcash that the browser's
  -- wallet hands out, and leaves a store that agrees with the browser's state after the payment.
  pub pay_amount-Agree :
      (amount : ℤ) (timestamp : Text) (r : WalletResult) (e : ReplaceEffect)
      (answer : ReplaceResponse) (v' : W)
      → IsSound s
      → Distinct (map (viewed (hash_of env)) s.outputs)
      → pos 1 ≤ℤ amount
      → wallet_prepare_pay env s amount timestamp ≡ ok r
      → WalletResult.effect r ≡ some (replace e)
      → IsUnstored env e.pending_output w.disk
      → Server.replace sv (request_of e) w.server ≡ (ok answer, v')
      → is_success answer ≡ true
      → (w' : World MemState W) × (text : Text) × (r.message ≡ some text)
        × (pay_amount mem_store sv env (from_wats amount) w
            ≡ (ok (codes "Payment completed! Send this webcash to recipient: " ++ text), w'))
        × Agree env (WalletResult.state (wallet_apply_replace env s (replace e) true)) w'.disk
  unfolding wallet_apply_replace apply_effect
  pay_amount-Agree amount timestamp r e answer v' v apart positive h k unstored accepted success =
      let c = wallet_prepare_pay-Chosen env s amount timestamp r e v apart positive h k in
      (
        end c v',
        secret_to_string (payment c),
        c.message,
        pay_amount-runs c answer v' unstored accepted success,
        settle-Agree c v',
      )
