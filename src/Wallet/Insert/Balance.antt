-- ===== src/Wallet/Insert/Balance.antt =====
-- What a successful `Wallet::insert_with_validation` (src/wallet/operations.rs) does to the balance.
use webylib.Prelude.{
  ℕ, ◌+◌, ◌≡◌, refl, sym, ap, ◌∙◌, Bool, true, false, not, [], ◌∷◌, inl, inr, if◌then◌else◌,
}
use webylib.Prelude.Int.{ℤ, ◌+ℤ◌, +ℤ-zero}
use webylib.Prelude.Text.{Text}
use webylib.Prelude.Assoc.{lookup}
use webylib.Fault.{Error, Result, ok, err}
use webylib.Amount.{Amount}
use webylib.Crypto.{Bytes, derive_secret, as_str}
use webylib.Webcash.{SecretWebcash}
use webylib.Store.{Ops, Store}
use webylib.Store.Monad.{bind-ok, raise, lift, ◌>>=◌}
use webylib.Store.State.{MemState}
use webylib.Store.Laws.{OpsLaws, StoreLaws}
use webylib.Store.Laws.Outputs.{balance, balance-append}
use webylib.Server.{Server}
use webylib.Wallet.{World, Env, on_disk, on_server, hash_of, hd_wallet, read_chain_depth}
use webylib.Wallet.Effects.{
  raise-ok, choice-ok, on_disk-ok, on_server-ok, pure-ok, guarded-ok, lift-ok, hd_wallet-Keeps,
}
use webylib.Amount.Float.{Float}
use webylib.Server.{ReplaceResponse, HealthResponse}
use webylib.Crypto.{receive}
use webylib.Fault.{mentions}
use webylib.Webcash.{to_public, public_to_string}
use webylib.Prelude.Assoc.{lookup}
use webylib.Wallet.{store_directly}
use webylib.Wallet.Insert.{
  health_ok, check_entry, refuse_spent, validate_input_webcash, store_received, store_same_lineage,
  received, attempt, validate_if, insert_with_validation,
}
use webylib.Wallet.Pay.{is_success, replace_request}

-- An output that is added counts at its amount.
added-balance :
    {ops : Ops MemState} (laws : OpsLaws ops) (h : Bytes) (secret : Text) (amount : ℤ)
    (s : MemState) {s' : MemState}
    → Ops.insert_output ops h secret amount s ≡ (ok tt, s')
    → balance s'.outputs ≡ balance s.outputs +ℤ amount
added-balance laws h secret amount s e =
    let (o, (_, _, same_amount, there), added) = OpsLaws.insert_output laws h secret amount s e in
    ap balance added
    ∙ balance-append s.outputs (o ∷ [])
    ∙ rw there (ap (λ (a : ℤ). balance s.outputs +ℤ a) (+ℤ-zero o.amount ∙ same_amount))

module _ {W : Type 0} {st : Store MemState} (laws : StoreLaws st) (sv : Server W) (env : Env)
    (f : Float) where
  abbrev Adds : SecretWebcash → World MemState W → World MemState W → Type 0
  Adds wc w w' = balance w'.disk.outputs ≡ balance w.disk.outputs +ℤ wc.amount.wats

  store_directly-Adds :
      (wc : SecretWebcash) (w : World MemState W) {w' : World MemState W}
      → store_directly st env wc w ≡ (ok tt, w')
      → Adds wc w w'
  unfolding store_directly
  store_directly-Adds wc w e =
      added-balance laws.outer_laws (hash_of env wc.secret) wc.secret wc.amount.wats w.disk
        (on_disk-ok (Ops.insert_output st.ops (hash_of env wc.secret) wc.secret wc.amount.wats) w
          e).0

  store_received-Adds :
      (wc : SecretWebcash) (depth : ℕ) (w : World MemState W) {w' : World MemState W}
      → store_received st sv env f wc depth w ≡ (ok tt, w')
      → Adds wc w w'
  unfolding store_received
  store_received-Adds wc depth w e =
      let add = Ops.insert_output st.ops (hash_of env wc.secret) wc.secret wc.amount.wats in
      let step = Ops.set_depth st.ops (as_str receive) (depth + 1) in
      let (_, w1, e1, e2) = bind-ok (on_disk add) (λ _. on_disk step) w e in
      ap balance
        (OpsLaws.set_depth laws.outer_laws (as_str receive) (depth + 1) w1.disk
          (on_disk-ok step w1 e2).0).0
      ∙ added-balance laws.outer_laws (hash_of env wc.secret) wc.secret wc.amount.wats w.disk
          (on_disk-ok add w e1).0

  store_same_lineage-Adds :
      (wc : SecretWebcash) (w : World MemState W) {w' : World MemState W}
      → store_same_lineage st sv env f wc w ≡ (ok tt, w')
      → Adds wc w w'
  unfolding store_same_lineage
  store_same_lineage-Adds wc w {w' = w'} e =
      let ask = Server.health_check sv (to_public env.crypto wc ∷ []) in
      let refuse = λ (r : HealthResponse).
        refuse_spent (lookup (public_to_string env.crypto (to_public env.crypto wc)) r.results) in
      let keep_it = λ (r : HealthResponse). lift (refuse r) >>= λ _. store_directly st env wc in
      let x = Error.server "Health check failed for same-lineage fallback" in
      let (health, w1, e1, r1) =
        bind-ok (on_server ask)
          (λ health. if not (health_ok health) then raise x else keep_it health) w e in
      let r2 = guarded-ok (not (health_ok health)) x (keep_it health) w1 r1 in
      let (_, w2, e2, r3) = bind-ok (lift (refuse health)) (λ _. store_directly st env wc) w1 r2 in
      let start : w2.disk ≡ w.disk =
        ap (λ (v : World MemState W). v.disk) (lift-ok (refuse health) w1 e2).1
        ∙ (on_server-ok ask w e1).1 in
      store_directly-Adds wc w2 r3
      ∙ ap (λ (s : MemState). balance s.outputs +ℤ wc.amount.wats) start

  -- The server's answer, in each of its forms; both webcash have the same amount.
  received-Adds :
      (wc new_wc : SecretWebcash) (depth : ℕ) (answer : Result ReplaceResponse)
      (w : World MemState W) {w' : World MemState W}
      → new_wc.amount ≡ wc.amount
      → received st sv env f wc new_wc depth answer w ≡ (ok tt, w')
      → Adds wc w w'
  unfolding received
  received-Adds wc new_wc depth (ok resp) w same e =
      elim (choice-ok (is_success resp) (store_received st sv env f new_wc depth)
        (raise (Error.server "Server replacement failed")) w e) [
          | inl accepted ↦
              store_received-Adds new_wc depth w accepted
              ∙ ap (λ (a : Amount). balance w.disk.outputs +ℤ a.wats) same
          | inr refused ↦ raise-ok _ w refused
        ]
  received-Adds wc new_wc depth (err (Error.server message)) w same e =
      elim (choice-ok (mentions "can only be replaced by itself" message)
        (store_same_lineage st sv env f wc) (raise (Error.server message)) w e) [
          | inl itself ↦ store_same_lineage-Adds wc w itself
          | inr other ↦ raise-ok _ w other
        ]
  received-Adds wc new_wc depth (err x) w same e = raise-ok x w e

  validate_input_webcash-keeps :
      (wc : SecretWebcash) (w : World MemState W) {w' : World MemState W}
      → validate_input_webcash st sv env f wc w ≡ (ok tt, w')
      → w'.disk ≡ w.disk
  unfolding validate_input_webcash
  validate_input_webcash-keeps wc w e =
      let ask = Server.health_check sv (to_public env.crypto wc ∷ []) in
      let entry = λ (r : HealthResponse).
        check_entry f wc.amount
          (lookup (public_to_string env.crypto (to_public env.crypto wc)) r.results) in
      let x = Error.server "Server validation failed" in
      let (health, w1, e1, r1) =
        bind-ok (on_server ask)
          (λ health. if not (health_ok health) then raise x else lift (entry health)) w e in
      let r2 = guarded-ok (not (health_ok health)) x (lift (entry health)) w1 r1 in
      ap (λ (v : World MemState W). v.disk) (lift-ok (entry health) w1 r2).1
      ∙ (on_server-ok ask w e1).1

  validate_if-keeps :
      (b : Bool) (wc : SecretWebcash) (w : World MemState W) {w' : World MemState W}
      → validate_if st sv env f b wc w ≡ (ok tt, w')
      → w'.disk ≡ w.disk
  unfolding validate_if
  validate_if-keeps true wc w e = validate_input_webcash-keeps wc w e
  validate_if-keeps false wc w e = ap (λ (v : World MemState W). v.disk) (pure-ok tt w e)

  -- Where `insert_with_validation` succeeds, with the server's validation or without it, by a
  -- replacement or by the fallback for webcash of the same lineage, on any store that keeps the laws
  -- of the interface, the outputs that are not spent add up to exactly the inserted amount more.
  pub insert_with_validation-balance :
      (wc : SecretWebcash) (validate_with_server : Bool) (w w' : World MemState W)
      → insert_with_validation st sv env f wc validate_with_server w ≡ (ok tt, w')
      → balance w'.disk.outputs ≡ balance w.disk.outputs +ℤ wc.amount.wats
  unfolding insert_with_validation read_chain_depth
  insert_with_validation-balance wc validate_with_server w w' e =
      let new_wc : Bytes → ℕ → SecretWebcash = λ master d. record {
        secret = derive_secret env.crypto master receive d;
        amount = wc.amount;
      } in
      let ask = λ (master : Bytes) (d : ℕ).
        on_server (Server.replace sv (replace_request (wc ∷ []) (new_wc master d ∷ []))) in
      let finish = λ (master : Bytes) (d : ℕ) (answer : Result ReplaceResponse).
        received st sv env f wc (new_wc master d) d answer in
      let send = λ (master : Bytes) (d : ℕ).
        attempt st sv env f (ask master d) >>= λ answer. finish master d answer in
      let valid = validate_if st sv env f validate_with_server wc in
      let read = on_disk (Ops.get_depth st.ops (as_str receive)) in
      let (master, w1, e1, r1) =
        bind-ok (hd_wallet st env) (λ master. read >>= λ d. valid >>= λ _. send master d) w e in
      let (outputs, _) = hd_wallet-Keeps laws env w e1 in
      let (d, w2, e2, r2) = bind-ok read (λ d. valid >>= λ _. send master d) w1 r1 in
      let (_, same2) =
        OpsLaws.get_depth laws.outer_laws (as_str receive) w1.disk
          (on_disk-ok (Ops.get_depth st.ops (as_str receive)) w1 e2).0 in
      let (_, w3, e3, r3) = bind-ok valid (λ _. send master d) w2 r2 in
      let same3 = validate_if-keeps validate_with_server wc w2 e3 in
      let (answer, w4, e4, r4) =
        bind-ok (attempt st sv env f (ask master d)) (λ answer. finish master d answer) w3 r3 in
      let same4 : w4.disk ≡ w3.disk =
        ap (λ (p : Result (Result ReplaceResponse) × World MemState W). p.1.disk) (sym e4) in
      received-Adds wc (new_wc master d) d answer w4 refl r4
      ∙ ap (λ os. balance os +ℤ wc.amount.wats)
          (ap (λ (s : MemState). s.outputs) (same4 ∙ same3 ∙ same2) ∙ outputs)
