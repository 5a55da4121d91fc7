-- ===== src/Wasm/Native/Run.antt =====
-- `Wallet::pay` (src/wallet/operations.rs) on the in-memory store, computed step by step.
use webylib.Prelude.{
  ℕ, ◌+◌, ◌≡◌, refl, ap, ◌∙◌, true, false, ◌||◌, Option, none, some, List, [], ◌∷◌, ◌++◌, map,
  Bool-cases, inl, inr,
}
use webylib.Prelude.Text.{Text, codes, beq}
use webylib.Fault.{Result, ok}
use webylib.Amount.{Amount, zero_amount, sub}
use webylib.Crypto.{Bytes, pay, change, derive_secret, as_str}
use webylib.Webcash.{SecretWebcash, secret_to_string}
use webylib.Server.{Server, ReplaceResponse}
use webylib.Store.Monad.{Action, continue, pure, ◌>>=◌}
use webylib.Store.State
use webylib.Store.State.{MemState, MemOutput, has_hash, fresh, push_output, mark_first}
use webylib.Store.Mem.{mem_store, mem_ops, insert_output}
use webylib.Store.Laws.Rows.{Row}
use webylib.Wallet.{
  World, Env, on_server, hash_of, hd_wallet, get_or_generate_master_secret, or_generate,
  validate_master_secret, webcash_of_row, read_chain_depth, master_secret_key,
}
use webylib.Wallet.Inputs.{select_inputs, select_rows, enough, total_amount, spend_inputs}
use webylib.Wallet.Pay.{
  change_of, is_nil, is_success, optional, replace_request, settle, settle_payment, pay_with,
  pay_amount, store_change, count_change,
}
use webylib.Wasm.Native.Spend.{HashLaws, spend_rows, spend_inputs-mem, insert_spent_hash-outputs}

-- A wallet on the in-memory store that has a master secret.
get_or_generate-held :
    {W : Type 0} (env : Env) (w : World MemState W) {existing : Text}
    → State.get_meta master_secret_key w.disk ≡ some existing
    → get_or_generate_master_secret mem_store env w ≡ (ok existing, w)
unfolding get_or_generate_master_secret or_generate
get_or_generate-held env w held = rw held refl

-- A step that succeeds goes on from what it returned.
bind-eq :
    {S A B : Type 0} (m : Action S A) (f : A → Action S B) (s : S) {a : A} {s' : S}
    → m s ≡ (ok a, s')
    → (m >>= f) s ≡ f a s'
bind-eq {S} {A} m f s h = ap (λ (p : Result A × S). continue p.0 f p.1) h

has_hash-mark_first :
    (k h : Bytes) (os : List MemOutput) → has_hash k (mark_first h os) ≡ has_hash k os
unfolding mark_first
has_hash-mark_first k h [] = refl
has_hash-mark_first k h (o ∷ os) = elim (Bool-cases (beq o.secret_hash h)) [
  | inl here ↦ rw here refl
  | inr later ↦ rw later (ap (λ b. beq o.secret_hash k || b) (has_hash-mark_first k h os))
]

module _ (env : Env) (laws : HashLaws env) where
  has_hash-spend_rows :
      (k : Bytes) (rows : List Row) (m : MemState)
      → has_hash k (spend_rows env laws rows m).outputs ≡ has_hash k m.outputs
  has_hash-spend_rows k [] m = refl
  has_hash-spend_rows k (r ∷ rows) m =
      has_hash-spend_rows k rows _
      ∙ ap (has_hash k) (
          insert_spent_hash-outputs env laws (hash_of env r.0)
            (State.mark_spent (hash_of env r.0) m))
      ∙ has_hash-mark_first k (hash_of env r.0) m.outputs

  -- The state after the atomic step.
  abbrev pub settled : List Row → Option SecretWebcash → ℕ → ℕ → MemState → MemState
  settled rows none pay_depth change_depth m =
      State.set_depth (as_str pay) (pay_depth + 1) (spend_rows env laws rows m)
  settled rows (some wc) pay_depth change_depth m =
      State.set_depth (as_str change) (change_depth + 1) (
        State.set_depth (as_str pay) (pay_depth + 1) (
          push_output (fresh (hash_of env wc.secret) wc.secret wc.amount.wats)
            (spend_rows env laws rows m)))

  -- The hash of the change is not stored yet.
  abbrev pub IsNew : Option SecretWebcash → MemState → Type 0
  IsNew none m = Unit
  IsNew (some wc) m = has_hash (hash_of env wc.secret) m.outputs ≡ false

  pub settle-mem :
      (rows : List Row) (c : Option SecretWebcash) (pay_depth change_depth : ℕ) (m : MemState)
      → IsNew c m
      → settle env (map webcash_of_row rows) c pay_depth change_depth mem_ops m
        ≡ (ok tt, settled rows c pay_depth change_depth m)
  unfolding settle store_change count_change insert_output
  settle-mem rows none pay_depth change_depth m fresh_hash =
      bind-eq (spend_inputs env mem_ops (map webcash_of_row rows)) _ m
        (spend_inputs-mem env laws rows m)
  settle-mem rows (some wc) pay_depth change_depth m fresh_hash =
      bind-eq (spend_inputs env mem_ops (map webcash_of_row rows)) _ m
        (spend_inputs-mem env laws rows m)
      ∙ rw (has_hash-spend_rows (hash_of env wc.secret) rows m ∙ fresh_hash) refl

  module _ {W : Type 0} (sv : Server W) (w : World MemState W) where
    abbrev pub said : SecretWebcash → Text
    said payment =
        codes "Payment completed! Send this webcash to recipient: " ++ secret_to_string payment

    -- An accepted request, and the atomic step.
    settle_payment-mem :
        (rows : List Row) (payment : SecretWebcash) (c : Option SecretWebcash)
        (pay_depth change_depth : ℕ) (answer : ReplaceResponse) (v : W)
        → IsNew c w.disk
        → Server.replace sv
            (replace_request (map webcash_of_row rows) (payment ∷ optional c))
            w.server
          ≡ (ok answer, v)
        → is_success answer ≡ true
        → settle_payment mem_store sv env
            (map webcash_of_row rows)
            payment
            c
            pay_depth
            change_depth
            w
          ≡ (
            ok (said payment),
            record { disk = settled rows c pay_depth change_depth w.disk; server = v },
          )
    unfolding settle_payment
    settle_payment-mem rows payment c pay_depth change_depth answer v fresh_hash accepted success =
        let q = replace_request (map webcash_of_row rows) (payment ∷ optional c) in
        bind-eq (on_server (Server.replace sv q)) _ w
          (ap (λ (p : Result ReplaceResponse × W). (p.0, record w { server = p.1 })) accepted)
        ∙ rw success (
            ap
              (λ (p : Result (Unit {0}) × MemState).
                continue p.0 (λ _. pure (said payment)) (record { disk = p.1; server = v }))
              (settle-mem rows c pay_depth change_depth w.disk fresh_hash))

    hd_wallet-mem :
        (hex : Text) (master : Bytes)
        → State.get_meta master_secret_key w.disk ≡ some hex
        → validate_master_secret env hex ≡ ok master
        → hd_wallet mem_store env w ≡ (ok master, w)
    unfolding hd_wallet
    hd_wallet-mem hex master held valid =
        bind-eq (get_or_generate_master_secret mem_store env) _ w (get_or_generate-held env w held)
        ∙ ap (λ (r : Result Bytes). (r, w)) valid

    module _ (amount : Amount) (master : Bytes) (rows : List Row) where
      abbrev inputs : List SecretWebcash
      inputs = map webcash_of_row rows

      -- The depths of the chains, the payment and its change.
      abbrev pub pay_depth : ℕ
      pay_depth = State.get_depth (as_str pay) w.disk

      abbrev pub change_depth : ℕ
      change_depth = State.get_depth (as_str change) w.disk

      abbrev pub payment : SecretWebcash
      payment = record { secret = derive_secret env.crypto master pay pay_depth; amount = amount }

      abbrev pub rest : Option SecretWebcash
      rest = change_of env master change_depth (sub (total_amount inputs) amount)

      select_inputs-mem :
          enough amount (select_rows amount (State.get_unspent w.disk) [] zero_amount) ≡ ok inputs
          → select_inputs mem_store amount w ≡ (ok inputs, w)
      unfolding select_inputs
      select_inputs-mem chosen = ap (λ (r : Result (List SecretWebcash)). (r, w)) chosen

      pay_with-mem :
          is_nil inputs ≡ false
          → pay_with mem_store sv env master amount inputs w
            ≡ settle_payment mem_store sv env inputs payment rest pay_depth change_depth w
      unfolding pay_with read_chain_depth
      pay_with-mem some_input = rw some_input refl

      -- `pay` with a valid master secret, inputs that are enough, and a server that accepts.
      pub pay_amount-mem :
          (hex : Text) (answer : ReplaceResponse) (v : W)
          → State.get_meta master_secret_key w.disk ≡ some hex
          → validate_master_secret env hex ≡ ok master
          → enough amount (select_rows amount (State.get_unspent w.disk) [] zero_amount) ≡ ok inputs
          → is_nil inputs ≡ false
          → IsNew rest w.disk
          → Server.replace sv (replace_request inputs (payment ∷ optional rest)) w.server
            ≡ (ok answer, v)
          → is_success answer ≡ true
          → pay_amount mem_store sv env amount w ≡ (
            ok (said payment),
            record { disk = settled rows rest pay_depth change_depth w.disk; server = v },
          )
      unfolding pay_amount
      pay_amount-mem hex answer v held valid chosen some_input fresh_hash accepted success =
          bind-eq (hd_wallet mem_store env) _ w (hd_wallet-mem hex master held valid)
          ∙ bind-eq (select_inputs mem_store amount) (pay_with mem_store sv env master amount) w
              (select_inputs-mem chosen)
          ∙ pay_with-mem some_input
          ∙ settle_payment-mem rows payment rest pay_depth change_depth answer v fresh_hash accepted
              success
