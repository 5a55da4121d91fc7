-- ===== src/Wasm/Replace.antt =====
-- Receiving, paying and merging in the browser's wallet (crates/webylib-wasm/src/wallet.rs): each
-- prepares a request for the server, and `wallet_apply_replace` makes the change once it is accepted.
pub mod View
pub mod Selection
pub mod Sound
pub mod Inputs
pub mod Balance
pub mod Merge
use webylib.Prelude.{
  ℕ, ◌+◌, Bool, true, false, not, Option, none, some, List, [], ◌∷◌, ◌++◌, map, any, take, length,
  leb, if◌then◌else◌,
}
use webylib.Prelude.Int.{ℤ, pos, ◌+ℤ◌, ◌-ℤ◌, leb_ℤ, ltb_ℤ, wrap_i64}
use webylib.Prelude.Text.{Text, codes, beq}
use webylib.Prelude.Decimal.{format_ℕ}
use webylib.Prelude.Assoc.{Assoc, insert}
use webylib.Fault.{Result, ok, err, ◌>>=◌}
use webylib.Wallet.{Env}
use webylib.Wasm.{js_error, parse_webcash, format_webcash}
use webylib.Wasm.State.{
  Output, WalletState, WalletResult, ReplaceEffect, Effect, replace, health_check, mining_report,
  unspent, sum_amounts, get_depth, secret_hash, derive,
}

-- What the caller gets where an operation prepares an effect: the state as it is.
abbrev pub prepared : WalletState → ReplaceEffect → Option Text → WalletResult
prepared s effect message = record {
  state = s;
  effect = some (replace effect);
  message = message;
  error = none;
}

-- `find` a secret and set `spent`: the first output with the secret.
unfoldable pub mark_output : Text → List Output → List Output
mark_output secret [] = []
mark_output secret (o ∷ os) =
    if beq o.secret secret then record o { spent = true } ∷ os else o ∷ mark_output secret os

abbrev pub add_spent : Text → List Text → List Text
add_spent hash hashes = if not (any (λ h. beq h hash) hashes) then hashes ++ hash ∷ [] else hashes

-- `for o in &unspent`: outputs are taken until they reach the amount.
unfoldable pub select : ℤ → List Output → List Text → ℤ → List Text × ℤ
select amount_wats [] selected total = (selected, total)
select amount_wats (o ∷ os) selected total =
    let selected' = selected ++ o.secret ∷ [] in
    let total' = wrap_i64 (total +ℤ o.amount) in
    if leb_ℤ amount_wats total' then (selected', total') else select amount_wats os selected' total'

-- `sort_by_key(|b| Reverse(b.amount))` is stable: an output goes in front of the equal ones behind it.
unfoldable pub insert_sorted : Output → List Output → List Output
insert_sorted o [] = o ∷ []
insert_sorted o (p ∷ ps) = if leb_ℤ p.amount o.amount then o ∷ p ∷ ps else p ∷ insert_sorted o ps

unfoldable pub sort_desc : List Output → List Output
unfolding insert_sorted
sort_desc [] = []
sort_desc (o ∷ os) = insert_sorted o (sort_desc os)

-- The text of the first output with the secret, if there is one.
abbrev pub text_of : Text → List Output → Option Text
text_of secret [] = none
text_of secret (o ∷ os) =
    if beq o.secret secret then some (format_webcash secret o.amount) else text_of secret os

abbrev pub cons_some : Option Text → List Text → List Text
cons_some none texts = texts
cons_some (some t) texts = t ∷ texts

-- `filter_map` over the selected secrets
abbrev pub texts_of : List Text → List Output → List Text
texts_of [] os = []
texts_of (secret ∷ secrets) os = cons_some (text_of secret os) (texts_of secrets os)

module _ (env : Env) where
  abbrev pub new_output : Text → ℤ → Text → Output
  new_output secret amount timestamp = record {
    secret = secret;
    public_hash = secret_hash env secret;
    amount = amount;
    created_at = timestamp;
    spent = false;
  }

  -- `for secret in &mark_spent`
  unfoldable pub mark_all : List Text → WalletState → WalletState
  mark_all [] s = s
  mark_all (secret ∷ secrets) s = mark_all secrets (record s {
    outputs = mark_output secret s.outputs;
    spent_hashes = add_spent (secret_hash env secret) s.spent_hashes;
  })

  abbrev pub push_pending : Option Output → WalletState → WalletState
  push_pending none s = s
  push_pending (some o) s = record s { outputs = s.outputs ++ o ∷ [] }

  -- `for (chain, depth) in depth_updates`
  unfoldable pub update_depths : Assoc ℕ → WalletState → WalletState
  update_depths [] s = s
  update_depths ((chain, depth) ∷ updates) s =
      update_depths updates (record s { depths = insert chain depth s.depths })

  unfoldable pub settle : ReplaceEffect → WalletState → WalletState
  settle e s =
      update_depths e.depth_updates (push_pending e.pending_output (mark_all e.mark_spent s))

  -- Another effect than `Replace` changes nothing.
  unfoldable pub apply_effect : Effect → WalletState → WalletState
  apply_effect (replace e) s = settle e s
  apply_effect (health_check texts) s = s
  apply_effect (mining_report preimage o updates) s = s

  unfoldable pub wallet_apply_replace : WalletState → Effect → Bool → WalletResult
  wallet_apply_replace s effect success =
      if not success
      then record {
        state = s;
        effect = none;
        message = none;
        error = some (codes "Server rejected the replace");
      }
      else record {
        state = apply_effect effect s;
        effect = none;
        message = some (codes "Success");
        error = none;
      }

  unfoldable pub wallet_prepare_insert : WalletState → Text → Text → Result WalletResult
  wallet_prepare_insert s webcash_str timestamp = do
    (input_secret, amount_wats) ← parse_webcash env.crypto webcash_str
    new_secret ← derive env s 0 (get_depth (codes "RECEIVE") s)
    ok (
        prepared s
          (record {
            webcashes = format_webcash input_secret amount_wats ∷ [];
            new_webcashes = format_webcash new_secret amount_wats ∷ [];
            pending_output = some (new_output new_secret amount_wats timestamp);
            depth_updates = (codes "RECEIVE", get_depth (codes "RECEIVE") s + 1) ∷ [];
            mark_spent = [];
          })
          none)

  -- The request of a payment, with its change where there is any.
  abbrev pub payment_effect : WalletState → ℤ → List Text → Text → Option Output → ReplaceEffect
  payment_effect s amount_wats selected pay_secret none = record {
    webcashes = texts_of selected s.outputs;
    new_webcashes = format_webcash pay_secret amount_wats ∷ [];
    pending_output = none;
    depth_updates = (codes "PAY", get_depth (codes "PAY") s + 1) ∷ [];
    mark_spent = selected;
  }
  payment_effect s amount_wats selected pay_secret (some o) = record {
    webcashes = texts_of selected s.outputs;
    new_webcashes = format_webcash pay_secret amount_wats ∷ format_webcash o.secret o.amount ∷ [];
    pending_output = some o;
    depth_updates =
        insert (codes "CHANGE") (get_depth (codes "CHANGE") s + 1)
          ((codes "PAY", get_depth (codes "PAY") s + 1) ∷ []);
    mark_spent = selected;
  }

  abbrev pub payment : WalletState → ℤ → List Text → Text → Option Output → WalletResult
  payment s amount_wats selected pay_secret change =
      prepared s (payment_effect s amount_wats selected pay_secret change)
        (some (format_webcash pay_secret amount_wats))

  unfoldable pub pending_change : WalletState → ℤ → Text → Result (Option Output)
  pending_change s change timestamp =
      if ltb_ℤ (pos 0) change
      then (do
        change_secret ← derive env s 2 (get_depth (codes "CHANGE") s)
        ok (some (new_output change_secret change timestamp)))
      else ok none

  unfoldable pub pay_with : WalletState → ℤ → Text → List Text × ℤ → Result WalletResult
  pay_with s amount_wats timestamp (selected, total) =
      if ltb_ℤ total amount_wats then err (js_error "Insufficient funds") else do
        pay_secret ← derive env s 1 (get_depth (codes "PAY") s)
        change ← pending_change s (wrap_i64 (total -ℤ amount_wats)) timestamp
        ok (payment s amount_wats selected pay_secret change)

  unfoldable pub wallet_prepare_pay : WalletState → ℤ → Text → Result WalletResult
  wallet_prepare_pay s amount_wats timestamp =
      pay_with s amount_wats timestamp
        (select amount_wats (sort_desc (unspent s.outputs)) [] (pos 0))

  unfoldable pub merge_into : WalletState → List Output → Text → Result WalletResult
  merge_into s to_merge timestamp = do
    change_secret ← derive env s 2 (get_depth (codes "CHANGE") s)
    let total = wrap_i64 (sum_amounts to_merge)
    ok (
        prepared s
          (record {
            webcashes = map (λ o. format_webcash o.secret o.amount) to_merge;
            new_webcashes = format_webcash change_secret total ∷ [];
            pending_output = some (new_output change_secret total timestamp);
            depth_updates = (codes "CHANGE", get_depth (codes "CHANGE") s + 1) ∷ [];
            mark_spent = map (λ o. o.secret) to_merge;
          })
          (some (format_ℕ (length to_merge) ++ codes " outputs merged")))

  unfoldable pub wallet_prepare_merge : WalletState → ℕ → Text → Result WalletResult
  wallet_prepare_merge s max_outputs timestamp =
      if leb (length (unspent s.outputs)) 1
      then err (js_error "Nothing to merge")
      else merge_into s (take max_outputs (unspent s.outputs)) timestamp
