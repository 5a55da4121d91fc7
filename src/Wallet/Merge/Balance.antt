-- ===== src/Wallet/Merge/Balance.antt =====
-- What a successful `Wallet::merge` (src/wallet/operations.rs) does to the balance.
use webylib.Prelude.{
  ℕ, zero, suc, ◌+◌, ◌≡◌, refl, sym, ap, subst, ◌∙◌, List, [], ◌∷◌, map, take, Bool-cases, inl, inr,
  if◌then◌else◌,
}
use webylib.Prelude.Int.{ℤ, pos, ◌+ℤ◌, ◌≤ℤ◌, max_i64, +ℤ-zero}
use webylib.Prelude.Text.{Text, codes}
use webylib.Fault.{Error, Result, ok}
use webylib.Amount.{Amount}
use webylib.Crypto.{Bytes, change, derive_secret, as_str}
use webylib.Webcash.{SecretWebcash}
use webylib.Store.{Ops, Store}
use webylib.Store.Monad.{bind-ok, pure, ◌>>=◌}
use webylib.Store.State
use webylib.Store.State.{MemState, MemOutput, mark_first}
use webylib.Store.Laws.{OpsLaws, StoreLaws, Distinct}
use webylib.Store.Laws.Outputs.{balance, balance-append}
use webylib.Store.Laws.Rows.{Row, sum_rows, mark_rows}
use webylib.Server.{Server}
use webylib.Wallet.{World, Env, on_disk, hash_of, hd_wallet, webcash_of_row, read_chain_depth}
use webylib.Wallet.Effects.{on_disk-ok, pure-ok, choice-ok, hd_wallet-Keeps}
use webylib.Wallet.Inputs.{spend_inputs, total_amount}
use webylib.Wallet.Pay.{replace_request}
use webylib.Prelude.{length, ltb, leb}
use webylib.Amount.{Amount}
use webylib.Wallet.{list_webcash}
use webylib.Wallet.Sound.{IsSound, wrapped, balance-nonneg, front}
use webylib.Wallet.Pay.Steps.{spend_inputs-outputs, replaced-ok}
use webylib.Wallet.Merge.{to_merge, consolidate, merge_into, merge_inputs, merge, completed}

take-map :
    (n : ℕ) (rows : List Row) → take n (map webcash_of_row rows) ≡ map webcash_of_row (take n rows)
take-map zero rows = refl
take-map (suc n) [] = refl
take-map (suc n) (r ∷ rows) = ap (λ ws. webcash_of_row r ∷ ws) (take-map n rows)

take-all : (rows : List Row) → take (length rows) rows ≡ rows
take-all [] = refl
take-all (r ∷ rows) = ap (λ rs. r ∷ rs) (take-all rows)

to_merge-rows :
    (most : ℕ) (rows : List Row)
    → (n : ℕ) × (to_merge most (map webcash_of_row rows) ≡ map webcash_of_row (take n rows))
to_merge-rows most rows = elim (Bool-cases (ltb most (length (map webcash_of_row rows)))) [
  | inl more ↦ (most, rw more (take-map most rows))
  | inr all_of_it ↦ (length rows, rw all_of_it (ap (map webcash_of_row) (sym (take-all rows))))
]

-- The atomic step: what it adds for the inputs that it marks.
consolidate-balance :
    (env : Env) {ops : Ops MemState} (laws : OpsLaws ops) (rows : List Row) (wc : SecretWebcash)
    (depth : ℕ) (s : MemState) {s' : MemState}
    → Distinct s.outputs
    → consolidate env (map webcash_of_row rows) wc depth ops s ≡ (ok tt, s')
    → balance s'.outputs ≡ balance (mark_rows (hash_of env) rows s.outputs) +ℤ wc.amount.wats
unfolding consolidate
consolidate-balance env {ops = ops} laws rows wc depth s d e =
    let add = Ops.insert_output ops (hash_of env wc.secret) wc.secret wc.amount.wats in
    let step = Ops.set_depth ops (as_str change) (depth + 1) in
    let (_, s1, e1, r1) =
      bind-ok (spend_inputs env ops (map webcash_of_row rows)) (λ _. add >>= λ _. step) s e in
    let (_, s2, e2, e3) = bind-ok add (λ _. step) s1 r1 in
    let (o, (_, _, same_amount, there), added) =
      OpsLaws.insert_output laws (hash_of env wc.secret) wc.secret wc.amount.wats s1 e2 in
    let (kept, _) = OpsLaws.set_depth laws (as_str change) (depth + 1) s2 e3 in
    ap balance (kept ∙ added)
    ∙ balance-append s1.outputs (o ∷ [])
    ∙ rw there (ap (λ (a : ℤ). balance s1.outputs +ℤ a) (+ℤ-zero o.amount ∙ same_amount))
    ∙ ap (λ os. balance os +ℤ wc.amount.wats) (spend_inputs-outputs env laws rows s d e1)

module _ {W : Type 0} {st : Store MemState} (laws : StoreLaws st) (sv : Server W) (env : Env) where
  merge_into-balance :
      (n : ℕ) (rows : List Row) (wc : SecretWebcash) (depth : ℕ) (w w' : World MemState W)
      {msg : Text}
      → IsSound env w.disk.outputs
      → rows ≡ State.get_unspent w.disk
      → wc.amount ≡ total_amount (map webcash_of_row (take n rows))
      → merge_into st sv env (map webcash_of_row (take n rows)) wc depth w ≡ (ok msg, w')
      → balance w'.disk.outputs ≡ balance w.disk.outputs
  unfolding merge_into
  merge_into-balance n rows wc depth w w' sound read total e =
      let inputs = map webcash_of_row (take n rows) in
      let (run, _) =
        replaced-ok laws sv (replace_request inputs (wc ∷ []))
          (Error.server "Consolidation transaction failed") (consolidate env inputs wc depth)
          (completed (length inputs) wc.amount) w e in
      let after =
        consolidate-balance env laws.inner_laws (take n rows) wc depth w.disk sound.distinct run in
      let f = front env w.disk n sound in
      let worth : wc.amount.wats ≡ sum_rows (take n (State.get_unspent w.disk)) =
        ap (λ (a : Amount). a.wats)
          (total ∙ ap (λ rs. total_amount (map webcash_of_row (take n rs))) read ∙ f.total) in
      after
      ∙ ap (λ rs. balance (mark_rows (hash_of env) (take n rs) w.disk.outputs) +ℤ wc.amount.wats)
          read
      ∙ ap
          (λ a.
            balance (mark_rows (hash_of env) (take n (State.get_unspent w.disk)) w.disk.outputs)
            +ℤ a)
          worth
      ∙ f.marked

  merge_inputs-balance :
      (inputs : List SecretWebcash) (n : ℕ) (rows : List Row) (w w' : World MemState W) {msg : Text}
      → inputs ≡ map webcash_of_row (take n rows)
      → IsSound env w.disk.outputs
      → rows ≡ State.get_unspent w.disk
      → merge_inputs st sv env inputs w ≡ (ok msg, w')
      → balance w'.disk.outputs ≡ balance w.disk.outputs
  unfolding merge_inputs read_chain_depth
  merge_inputs-balance inputs n rows w w' {msg = msg} same sound read e =
      let small = codes "Insufficient outputs to merge" in
      let wc : Bytes → ℕ → SecretWebcash = λ master d. record {
        secret = derive_secret env.crypto master change d;
        amount = total_amount inputs;
      } in
      let into = λ (master : Bytes) (d : ℕ). merge_into st sv env inputs (wc master d) d in
      let read_depth = on_disk (Ops.get_depth st.ops (as_str change)) in
      elim (choice-ok (leb (length inputs) 1) (pure small)
        (hd_wallet st env >>= λ master. read_depth >>= λ d. into master d) w e) [
          | inl nothing ↦
              ap (λ (v : World MemState W). balance v.disk.outputs) (pure-ok small w nothing)
          | inr merged ↦
              let (master, w1, e1, r1) =
                bind-ok (hd_wallet st env) (λ master. read_depth >>= λ d. into master d) w merged in
              let (outputs, _) = hd_wallet-Keeps laws env w e1 in
              let (d, w2, e2, r2) = bind-ok read_depth (λ d. into master d) w1 r1 in
              let (_, kept) =
                OpsLaws.get_depth laws.outer_laws (as_str change) w1.disk
                  (on_disk-ok (Ops.get_depth st.ops (as_str change)) w1 e2).0 in
              let start : w2.disk.outputs ≡ w.disk.outputs =
                ap (λ (s : MemState). s.outputs) kept ∙ outputs in
              let run =
                subst (λ is. merge_into st sv env is (wc master d) d w2 ≡ (ok msg, w')) same r2 in
              merge_into-balance n rows (wc master d) d w2 w'
                (subst (IsSound env) (sym start) sound)
                (read
                  ∙ ap (λ os. State.sort_desc (map State.secret_and_amount (State.unspent os)))
                      (sym start))
                (ap total_amount same) run
              ∙ ap balance start
        ]

  -- Where `merge` succeeds on a sound store that keeps the laws of the interface, also where there was
  -- nothing to merge, the store's balance (`sum_unspent`) is the one from before.
  pub merge-balance :
      (max_outputs : ℕ) (w w' : World MemState W) {msg : Text}
      → IsSound env w.disk.outputs
      → merge st sv env max_outputs w ≡ (ok msg, w')
      → State.sum_unspent w'.disk ≡ State.sum_unspent w.disk
  unfolding merge list_webcash
  merge-balance max_outputs w w' sound e =
      let rows_read = on_disk (Ops.get_unspent st.ops) in
      let go = λ (all_webcash : List SecretWebcash).
        if leb (length all_webcash) 1
        then pure (codes "No consolidation needed")
        else merge_inputs st sv env (to_merge max_outputs all_webcash) in
      let (all_webcash, w1, e1, r1) =
        bind-ok (rows_read >>= λ rows. pure (map webcash_of_row rows)) go w e in
      let (rows, w2, e2, r2) = bind-ok rows_read (λ rows. pure (map webcash_of_row rows)) w e1 in
      let (read, same) =
        OpsLaws.get_unspent laws.outer_laws w.disk (on_disk-ok (Ops.get_unspent st.ops) w e2).0 in
      let start : w1.disk ≡ w.disk =
        ap (λ (v : World MemState W). v.disk) (pure-ok (map webcash_of_row rows) w2 r2) ∙ same in
      let listed : all_webcash ≡ map webcash_of_row rows =
        cc (ap (λ (p : Result (List SecretWebcash) × World MemState W). p.0) r2) in
      let (n, chosen) = to_merge-rows max_outputs rows in
      let kept : balance w'.disk.outputs ≡ balance w1.disk.outputs =
        elim (choice-ok (leb (length all_webcash) 1) (pure (codes "No consolidation needed"))
          (merge_inputs st sv env (to_merge max_outputs all_webcash)) w1 r1) [
            | inl nothing ↦
                ap (λ (v : World MemState W). balance v.disk.outputs)
                  (pure-ok (codes "No consolidation needed") w1 nothing)
            | inr merged ↦
                merge_inputs-balance (to_merge max_outputs all_webcash) n rows w1 w'
                  (ap (to_merge max_outputs) listed ∙ chosen)
                  (subst (λ (s : MemState). IsSound env s.outputs) (sym start) sound)
                  (read ∙ ap State.get_unspent (sym start)) merged
          ] in
      let same_balance : balance w'.disk.outputs ≡ balance w.disk.outputs =
        kept ∙ ap (λ (s : MemState). balance s.outputs) start in
      let nonneg = balance-nonneg w.disk.outputs sound.nonneg in
      wrapped w'.disk.outputs (subst (λ b. pos 0 ≤ℤ b) (sym same_balance) nonneg)
        (subst (λ b. b ≤ℤ pos max_i64) (sym same_balance) sound.fits)
      ∙ same_balance
      ∙ sym (wrapped w.disk.outputs nonneg sound.fits)
