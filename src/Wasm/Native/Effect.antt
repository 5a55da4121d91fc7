-- ===== src/Wasm/Native/Effect.antt =====
-- The request of a payment in the browser's wallet (crates/webylib-wasm/src/wallet.rs) is that of the
-- native wallet (src/wallet/operations.rs), and applying it keeps the two states in agreement.
use webylib.Prelude.{
  ◌+◌, ◌≡◌, refl, sym, ap, subst, ◌∙◌, true, false, Option, none, some, List, [], ◌∷◌, map, All,
}
use webylib.Prelude.Int.{ℤ}
use webylib.Prelude.Text.{Text, codes, beq}
use webylib.Prelude.Assoc.{insert}
use webylib.Amount.{from_wats}
use webylib.Crypto
use webylib.Crypto.{Bytes, pay, change, as_str, as_u64}
use webylib.Fault.{ok}
use webylib.Webcash.{SecretWebcash}
use webylib.Server.{ReplaceRequest}
use webylib.Store.State
use webylib.Store.State.{MemState, has_hash}
use webylib.Store.Laws.Rows.{Row, Holds}
use webylib.Wallet.{Env, hash_of, webcash_of_row, validate_master_secret}
use webylib.Wallet.Pay.{change_of, optional, replace_request}
use webylib.Wasm.State.{Output, WalletState, ReplaceEffect, get_depth, derive}
use webylib.Wasm.Replace.{mark_all, push_pending, update_depths, settle, payment_effect, new_output}
use webylib.Wasm.Replace.View.{Tells}
use webylib.Wasm.Replace.Sound.{self, rows_in}
use webylib.Wasm.Replace.Balance.{IsChange}
use webylib.Wasm.Native.{Agree, set_depth-Agree, push-Agree}
use webylib.Wasm.Native.Spend.{HashLaws, spend_rows, spend_rows-Agree}
use webylib.Wasm.Native.Strings.{texts_of-rows, format_webcash-to_string, derive_secret-native}
use webylib.Wasm.Native.Run.{settled}

-- The pending output as the native wallet's change.
abbrev pub as_webcash : Option Output → Option SecretWebcash
as_webcash none = none
as_webcash (some o) = some (record { secret = o.secret; amount = from_wats o.amount })

-- The request that JavaScript sends for an effect.
abbrev pub request_of : ReplaceEffect → ReplaceRequest
request_of e = record { webcashes = e.webcashes; new_webcashes = e.new_webcashes; terms = true }

abbrev pub IsUnstored : Env → Option Output → MemState → Type 0
IsUnstored env none m = Unit
IsUnstored env (some o) m = has_hash (hash_of env o.secret) m.outputs ≡ false

module _ (env : Env) (s : WalletState) (amount : ℤ) (pay_secret : Text) (rows : List Row) where
  abbrev secrets : List Text
  secrets = map (λ (r : Row). r.0) rows

  pub payment_effect-request :
      (p : Option Output)
      → Holds self (rows_in s) rows
      → replace_request
          (map webcash_of_row rows)
          (record { secret = pay_secret; amount = from_wats amount } ∷ optional (as_webcash p))
        ≡ request_of (payment_effect env s amount secrets pay_secret p)
  payment_effect-request none held i = record {
    webcashes = sym (texts_of-rows rows s.outputs held) i;
    new_webcashes = sym (format_webcash-to_string pay_secret amount) i ∷ [];
    terms = true;
  }
  payment_effect-request (some o) held i = record {
    webcashes = sym (texts_of-rows rows s.outputs held) i;
    new_webcashes =
        sym (format_webcash-to_string pay_secret amount) i
        ∷ sym (format_webcash-to_string o.secret o.amount) i
        ∷ [];
    terms = true;
  }

  pub payment_effect-Agree :
      (laws : HashLaws env) (timestamp : Text) (z : ℤ) (p : Option Output) (m : MemState)
      → IsChange env s z timestamp p
      → All (λ (r : Row). Tells (hash_of env) r.0 s.outputs) rows
      → Agree env s m
      → Agree env (settle env (payment_effect env s amount secrets pay_secret p) s) (
          settled env laws rows
            (as_webcash p)
            (get_depth (codes "PAY") s)
            (get_depth (codes "CHANGE") s)
            m)
  unfolding settle update_depths insert as_str beq
  payment_effect-Agree laws timestamp z none m left tells a =
      set_depth-Agree env _ _ (spend_rows-Agree env laws rows s m tells a) (codes "PAY")
        (get_depth (codes "PAY") s + 1)
  payment_effect-Agree laws timestamp z (some o) m (secret, _, _, same) tells a =
      let marked = spend_rows-Agree env laws rows s m tells a in
      let pushed =
        subst
          (λ (q : Output). Agree env (push_pending env (some q) (mark_all env secrets s)) (
            State.push_output (State.fresh (hash_of env q.secret) q.secret q.amount)
              (spend_rows env laws rows m)))
          (sym same) (push-Agree env _ _ marked secret z timestamp) in
      set_depth-Agree env _ _
        (set_depth-Agree env _ _ pushed (codes "PAY") (get_depth (codes "PAY") s + 1))
        (codes "CHANGE") (get_depth (codes "CHANGE") s + 1)

  -- The change that the native wallet computes.
  pub change_of-IsChange :
      (timestamp : Text) (z : ℤ) (p : Option Output) (master : Bytes)
      → validate_master_secret env s.master_secret ≡ ok master
      → IsChange env s z timestamp p
      → change_of env master (get_depth (codes "CHANGE") s) (from_wats z) ≡ as_webcash p
  unfolding derive as_u64
  change_of-IsChange timestamp z none master valid left = rw left refl
  change_of-IsChange timestamp z (some o) master valid (secret, derived, left, same) =
      let (bytes, valid', native) =
        derive_secret-native env change (get_depth (codes "CHANGE") s) s.master_secret derived in
      let one : bytes ≡ master = cc (valid, valid') in
      rw left (
        ap (λ (q : Output). some (record { secret = q.secret; amount = from_wats q.amount }))
          (ap
              (λ (b : Bytes).
                new_output env
                  (Crypto.derive_secret env.crypto b change (get_depth (codes "CHANGE") s)) z
                  timestamp)
              (sym one)
            ∙ ap (λ (t : Text). new_output env t z timestamp) (sym native)
            ∙ sym same))
