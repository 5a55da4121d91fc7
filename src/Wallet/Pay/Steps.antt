-- ===== src/Wallet/Pay/Steps.antt =====
-- The steps of a successful `Wallet::pay` (src/wallet/operations.rs), on any store that keeps the
-- laws of its interface.
use webylib.Prelude.{
  ℕ, ◌+◌, ◌≡◌, sym, ap, subst, ◌∙◌, not, Option, none, some, List, [], ◌∷◌, ◌++◌, map,
  if◌then◌else◌,
}
use webylib.Prelude.Int.{ℤ, pos, ◌+ℤ◌, +ℤ-zero}
use webylib.Prelude.Text.{Text, codes, beq}
use webylib.Prelude.Assoc.{lookup, lookup-insert}
use webylib.Fault.{Error, Result, ok}
use webylib.Amount.{Amount, zero_amount, sub}
use webylib.Crypto.{Bytes, ChainCode, pay, change, derive_secret, as_str}
use webylib.Webcash.{SecretWebcash, secret_to_string}
use webylib.Store.{Ops, Store}
use webylib.Store.Monad.{Action, bind-ok, pure, raise, lift, ◌>>=◌}
use webylib.Store.State
use webylib.Store.State.{MemState, MemOutput, mark_first}
use webylib.Store.Laws.{OpsLaws, StoreLaws, Distinct}
use webylib.Store.Laws.Outputs.{balance, balance-append, mark_first-Distinct}
use webylib.Store.Laws.Rows.{Row, mark_rows}
use webylib.Server.{Server, ReplaceRequest}
use webylib.Wallet.{
  World, Env, on_disk, on_server, hash_of, hd_wallet, webcash_of_row, read_chain_depth,
}
use webylib.Wallet.Effects.{
  on_disk-ok, on_server-ok, pure-ok, guarded-ok, lift-ok, hd_wallet-Keeps, IsMaster,
  hd_wallet-IsMaster,
}
use webylib.Wallet.Inputs.{select_inputs, select_rows, enough, spend_inputs, total_amount}
use webylib.Wallet.Pay.{
  change_of, store_change, count_change, settle, settle_payment, pay_with, pay_amount, is_success,
  is_nil, replace_request, optional,
}

abbrev pub value_of : Option SecretWebcash → ℤ
value_of none = pos 0
value_of (some wc) = wc.amount.wats

module _ (env : Env) {ops : Ops MemState} (laws : OpsLaws ops) where
  pub spend_inputs-outputs :
      (rows : List Row) (s : MemState) {s' : MemState}
      → Distinct s.outputs
      → spend_inputs env ops (map webcash_of_row rows) s ≡ (ok tt, s')
      → s'.outputs ≡ mark_rows (hash_of env) rows s.outputs
  unfolding spend_inputs
  spend_inputs-outputs [] s d e = ap (λ (p : Result (Unit {0}) × MemState). p.1.outputs) (sym e)
  spend_inputs-outputs (r ∷ rows) s {s' = s'} d e =
      let h = hash_of env r.0 in
      let rest = spend_inputs env ops (map webcash_of_row rows) in
      let (_, s1, marked, e1) =
        bind-ok (Ops.mark_spent ops h) (λ _. Ops.insert_spent_hash ops h >>= λ _. rest) s e in
      let (_, s2, recorded, e2) = bind-ok (Ops.insert_spent_hash ops h) (λ _. rest) s1 e1 in
      let same : s2.outputs ≡ mark_first h s.outputs =
        OpsLaws.insert_spent_hash laws h s1 recorded ∙ OpsLaws.mark_spent laws h s d marked in
      spend_inputs-outputs rows s2 (subst Distinct (sym same) (mark_first-Distinct h s.outputs d))
        e2
      ∙ ap (mark_rows (hash_of env) rows) same

  store_change-balance :
      (c : Option SecretWebcash) (s : MemState) {s' : MemState}
      → store_change env ops c s ≡ (ok tt, s')
      → balance s'.outputs ≡ balance s.outputs +ℤ value_of c
  unfolding store_change
  store_change-balance none s e =
      ap (λ (p : Result (Unit {0}) × MemState). balance p.1.outputs) (sym e)
      ∙ sym (+ℤ-zero (balance s.outputs))
  store_change-balance (some wc) s e =
      let (o, fresh, added) =
        OpsLaws.insert_output laws (hash_of env wc.secret) wc.secret wc.amount.wats s e in
      let (_, _, same_amount, there) = fresh in
      ap balance added
      ∙ balance-append s.outputs (o ∷ [])
      ∙ rw there (ap (λ (a : ℤ). balance s.outputs +ℤ a) (+ℤ-zero o.amount ∙ same_amount))

  count_change-outputs :
      (c : Option SecretWebcash) (n : ℕ) (s : MemState) {s' : MemState}
      → count_change env ops c n s ≡ (ok tt, s')
      → (s'.outputs ≡ s.outputs)
        × (State.get_depth (as_str pay) s' ≡ State.get_depth (as_str pay) s)
  unfolding count_change as_str beq
  count_change-outputs none n s e = (
    ap (λ (p : Result (Unit {0}) × MemState). p.1.outputs) (sym e),
    ap (λ (p : Result (Unit {0}) × MemState). State.get_depth (as_str pay) p.1) (sym e),
  )
  count_change-outputs (some wc) n s e =
      let (outputs, depths) = OpsLaws.set_depth laws (as_str change) (n + 1) s e in
      (
        outputs,
        ap (λ m. State.or_zero (lookup (as_str pay) m)) depths
            ∙ ap State.or_zero (lookup-insert (as_str change) (as_str pay) (n + 1) s.depths),
      )

  -- The atomic step: the inputs' outputs are marked, and the change is added.
  pub settle-effect :
      (rows : List Row) (c : Option SecretWebcash) (pay_depth change_depth : ℕ) (s : MemState)
      {s' : MemState}
      → Distinct s.outputs
      → settle env (map webcash_of_row rows) c pay_depth change_depth ops s ≡ (ok tt, s')
      → (balance s'.outputs ≡ balance (mark_rows (hash_of env) rows s.outputs) +ℤ value_of c)
        × (State.get_depth (as_str pay) s' ≡ pay_depth + 1)
  unfolding settle as_str beq
  settle-effect rows c pay_depth change_depth s {s' = s'} d e =
      let count = count_change env ops c change_depth in
      let step = Ops.set_depth ops (as_str pay) (pay_depth + 1) in
      let (_, s1, e1, r1) =
        bind-ok (spend_inputs env ops (map webcash_of_row rows))
          (λ _. store_change env ops c >>= λ _. step >>= λ _. count) s e in
      let (_, s2, e2, r2) = bind-ok (store_change env ops c) (λ _. step >>= λ _. count) s1 r1 in
      let (_, s3, e3, e4) = bind-ok step (λ _. count) s2 r2 in
      let (kept, depths) = OpsLaws.set_depth laws (as_str pay) (pay_depth + 1) s2 e3 in
      let (kept', depth) = count_change-outputs c change_depth s3 e4 in
      (
        ap balance (kept' ∙ kept)
            ∙ store_change-balance c s1 e2
            ∙ ap (λ os. balance os +ℤ value_of c) (spend_inputs-outputs rows s d e1),
        depth
            ∙ ap (λ m. State.or_zero (lookup (as_str pay) m)) depths
            ∙ ap State.or_zero (lookup-insert (as_str pay) (as_str pay) (pay_depth + 1) s2.depths),
      )

module _ {W : Type 0} {st : Store MemState} (laws : StoreLaws st) (sv : Server W)
    (request : ReplaceRequest) (x : Error) where
  -- A request that the server has to accept, and then an atomic step.
  pub replaced-ok :
      (body : Ops MemState → Action MemState Unit) (done : Text) (w : World MemState W) {msg : Text}
      {w' : World MemState W}
      → (on_server (Server.replace sv request) >>= λ response.
            if not (is_success response)
            then raise x
            else (on_disk (st.atomic body) >>= λ _. pure done))
          w
        ≡ (ok msg, w')
      → (body (StoreLaws.inner laws) w.disk ≡ (ok tt, w'.disk)) × (msg ≡ done)
  replaced-ok body done w {msg = msg} {w' = w'} e =
      let ask = Server.replace sv request in
      let store = on_disk (st.atomic body) >>= λ _. pure done in
      let (response, w1, e1, r1) =
        bind-ok (on_server ask) (λ response. if not (is_success response) then raise x else store) w
          e in
      let r2 = guarded-ok (not (is_success response)) x store w1 r1 in
      let (_, w2, e2, r3) = bind-ok (on_disk (st.atomic body)) (λ _. pure done) w1 r2 in
      let (run, _) = on_disk-ok (st.atomic body) w1 e2 in
      let start : w1.disk ≡ w.disk = (on_server-ok ask w e1).1 in
      let end : w'.disk ≡ w2.disk = ap (λ (v : World MemState W). v.disk) (pure-ok done w2 r3) in
      let settled = StoreLaws.atomic_ok laws body w1.disk run in
      (
        subst (λ s. body (StoreLaws.inner laws) s ≡ (ok tt, w'.disk)) start
            (subst (λ s. body (StoreLaws.inner laws) w1.disk ≡ (ok tt, s)) (sym end) settled),
        cc (ap (λ (p : Result Text × World MemState W). p.0) r3),
      )

module _ {W : Type 0} {st : Store MemState} (laws : StoreLaws st) (sv : Server W) (env : Env)
    (amount : Amount) where
  -- What a successful payment has gone through; `s` is the store as the outputs were chosen.
  pub record Paid (w w' : World MemState W) (msg : Text) : Type 0 where
    pub s : MemState
    pub master : Bytes
    pub inputs : List SecretWebcash
    pub change_depth : ℕ
    pub outputs : s.outputs ≡ w.disk.outputs
    pub depths : s.depths ≡ w.disk.depths
    pub chosen : enough amount (select_rows amount (State.get_unspent s) [] zero_amount) ≡ ok inputs
    pub mastered : IsMaster env w.disk master
    pub settled :
        settle env inputs
          (change_of env master change_depth (sub (total_amount inputs) amount))
          (State.get_depth (as_str pay) s)
          change_depth
          (StoreLaws.inner laws)
          s
        ≡ (ok tt, w'.disk)
    pub message :
        msg
        ≡ codes "Payment completed! Send this webcash to recipient: "
          ++ secret_to_string (record {
            secret = derive_secret env.crypto master pay (State.get_depth (as_str pay) s);
            amount = amount;
          })

  Settled :
      List SecretWebcash
      → SecretWebcash
      → Option SecretWebcash
      → ℕ
      → ℕ
      → World MemState W
      → World MemState W
      → Text
      → Type 0
  Settled inputs payment c pay_depth change_depth w w' msg =
      (settle env inputs c pay_depth change_depth (StoreLaws.inner laws) w.disk ≡ (ok tt, w'.disk))
      × (msg
          ≡ codes "Payment completed! Send this webcash to recipient: " ++ secret_to_string payment)

  settle_payment-ok :
      (inputs : List SecretWebcash) (payment : SecretWebcash) (c : Option SecretWebcash)
      (pay_depth change_depth : ℕ) (w : World MemState W) {msg : Text} {w' : World MemState W}
      → settle_payment st sv env inputs payment c pay_depth change_depth w ≡ (ok msg, w')
      → Settled inputs payment c pay_depth change_depth w w' msg
  unfolding settle_payment Settled
  settle_payment-ok inputs payment c pay_depth change_depth w e =
      replaced-ok laws sv (replace_request inputs (payment ∷ optional c))
        (Error.server "Payment transaction failed") (settle env inputs c pay_depth change_depth)
        (codes "Payment completed! Send this webcash to recipient: " ++ secret_to_string payment) w
        e

  pay_with-Paid :
      (w w2 : World MemState W) (master : Bytes) (inputs : List SecretWebcash)
      → w2.disk.outputs ≡ w.disk.outputs
      → w2.disk.depths ≡ w.disk.depths
      → IsMaster env w.disk master
      → enough amount (select_rows amount (State.get_unspent w2.disk) [] zero_amount) ≡ ok inputs
      → {msg : Text} {w' : World MemState W}
      → pay_with st sv env master amount inputs w2 ≡ (ok msg, w')
      → Paid w w' msg
  unfolding pay_with read_chain_depth Settled
  pay_with-Paid w w2 master inputs outputs depths mastered chosen {msg = msg} {w' = w'} e =
      let payment : ℕ → SecretWebcash =
        λ d. record { secret = derive_secret env.crypto master pay d; amount = amount } in
      let rest_change = λ (d : ℕ). change_of env master d (sub (total_amount inputs) amount) in
      let settling = λ (d c : ℕ). settle_payment st sv env inputs (payment d) (rest_change c) d c in
      let read = λ (chain : ChainCode). Ops.get_depth st.ops (as_str chain) in
      let r2 =
        guarded-ok (is_nil inputs) (Error.wallet "Insufficient funds")
          (on_disk (read pay) >>= λ d. on_disk (read change) >>= λ c. settling d c) w2 e in
      let (pay_depth, w4, e4, r4) =
        bind-ok (on_disk (read pay)) (λ d. on_disk (read change) >>= λ c. settling d c) w2 r2 in
      let (is_depth, same4) =
        OpsLaws.get_depth laws.outer_laws (as_str pay) w2.disk (on_disk-ok (read pay) w2 e4).0 in
      let (change_depth, w5, e5, r5) =
        bind-ok (on_disk (read change)) (λ c. settling pay_depth c) w4 r4 in
      let (_, same5) =
        OpsLaws.get_depth laws.outer_laws (as_str change) w4.disk
          (on_disk-ok (read change) w4 e5).0 in
      let (settled, message) =
        settle_payment-ok inputs (payment pay_depth) (rest_change change_depth) pay_depth
          change_depth w5 r5 in
      record {
        s = w2.disk;
        master = master;
        inputs = inputs;
        change_depth = change_depth;
        outputs = outputs;
        depths = depths;
        chosen = chosen;
        mastered = mastered;
        settled =
            subst
              (λ d.
                settle env inputs (rest_change change_depth) d change_depth (StoreLaws.inner laws)
                  w2.disk
                ≡ (ok tt, w'.disk))
              is_depth
              (subst
                (λ v.
                  settle env inputs (rest_change change_depth) pay_depth change_depth
                    (StoreLaws.inner laws) v
                  ≡ (ok tt, w'.disk))
                (same5 ∙ same4) settled);
        message =
            subst
              (λ d.
                msg
                ≡ codes "Payment completed! Send this webcash to recipient: "
                  ++ secret_to_string (payment d))
              is_depth message;
      }

  pub pay_amount-Paid :
      (w : World MemState W) {msg : Text} {w' : World MemState W}
      → pay_amount st sv env amount w ≡ (ok msg, w')
      → Paid w w' msg
  unfolding pay_amount select_inputs
  pay_amount-Paid w {msg = msg} {w' = w'} e =
      let with_inputs = λ (m : Bytes) (is : List SecretWebcash). pay_with st sv env m amount is in
      let (master, w1, e1, r1) =
        bind-ok (hd_wallet st env) (λ m. select_inputs st amount >>= λ is. with_inputs m is) w e in
      let (outputs, depths) = hd_wallet-Keeps laws env w e1 in
      let (inputs, w2, e2, r2) =
        bind-ok (select_inputs st amount) (λ is. with_inputs master is) w1 r1 in
      let (rows, w3, e3, r3) =
        bind-ok (on_disk (Ops.get_unspent st.ops))
          (λ rows. lift (enough amount (select_rows amount rows [] zero_amount))) w1 e2 in
      let (read, same3) =
        OpsLaws.get_unspent laws.outer_laws w1.disk (on_disk-ok (Ops.get_unspent st.ops) w1 e3).0 in
      let (chosen, same2) =
        lift-ok (enough amount (select_rows amount rows [] zero_amount)) w3 r3 in
      let s : MemState = w2.disk in
      let start : s ≡ w1.disk = ap (λ (v : World MemState W). v.disk) same2 ∙ same3 in
      pay_with-Paid w w2 master inputs (ap (λ (v : MemState). v.outputs) start ∙ outputs)
        (ap (λ (v : MemState). v.depths) start ∙ depths) (hd_wallet-IsMaster laws env w e1)
        (subst (λ rs. enough amount (select_rows amount rs [] zero_amount) ≡ ok inputs)
          (read ∙ ap State.get_unspent (sym start)) chosen)
        r2
