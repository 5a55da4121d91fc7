-- ===== src/Storage/Legacy/Agreement.antt =====
-- A sequence of changes leaves the two in-memory stores alike.
use webylib.Prelude.{
  ◌≡◌, refl, sym, ap, ◌∙◌, subst, false, List, [], ◌∷◌, ◌++◌, map, All, Bool-cases, inl, inr,
}
use webylib.Prelude.Int.{ℤ}
use webylib.Prelude.Text.{Text}
use webylib.Crypto.{Bytes}
use webylib.Fault.{Result, ok, err}
use webylib.Store.State
use webylib.Store.State.{
  MemOutput, mark_first, reprice_first, has_hash, knows_spent, push_output, fresh,
}
use webylib.Store.Monad.{Action}
use webylib.Store.Mem
use webylib.Store.Laws.{Distinct}
use webylib.Store.Laws.Outputs.{mark_first-Distinct, set_spent-Distinct}
use webylib.Storage.{Reply, fine, failed, Act, MemState, UnspentEntry}
use webylib.Storage.Mem.{
  mem_ops, now_iso, has_entry, insert_output, mark_entries, reprice_entries, knows_hash,
  add_spent_hash,
}
use webylib.Storage.Calls
use webylib.Storage.Calls.{Call, KeepsDepths, run_call, run_calls, proceed}
use webylib.Storage.Legacy.{
  legacy_entry, legacy_spent, legacy_of, legacy_call, legacy_calls, legacy_proceed, IsKeyed, Agree,
}
use webylib.Storage.Legacy.Rows.{
  has-legacy, mark-legacy, reprice-legacy, knows-legacy, map-append, set_amount-Distinct,
  set_amount-keeps, append-Distinct,
}

-- What an insert of a new hash does, whatever the time.
pub push-Agree :
    (now : Text) (h : Bytes) (secret : Text) (amount : ℤ) (s : MemState)
    → IsKeyed s
    → has_entry h s.unspent ≡ false
    → let e : UnspentEntry = record {
      secret_hash = h;
      secret = secret;
      amount = amount;
      created_at = now;
      spent = false;
    } in
      let t : MemState = record s { unspent = s.unspent ++ e ∷ [] } in
      (legacy_of t ≡ push_output (fresh h secret amount) (legacy_of s)) × IsKeyed t
push-Agree now h secret amount s d new =
    let e : UnspentEntry = record {
      secret_hash = h;
      secret = secret;
      amount = amount;
      created_at = now;
      spent = false;
    } in
    let same = map-append legacy_entry s.unspent (e ∷ []) in
    (
      ap (λ (os : List MemOutput). record (legacy_of s) { outputs = os }) same,
      subst Distinct (sym same) (
          append-Distinct (map legacy_entry s.unspent) (legacy_entry e)
            (has-legacy h s.unspent ∙ new) d),
    )

insert-Agree :
    (h : Bytes) (secret : Text) (amount : ℤ) (s : MemState)
    → IsKeyed s
    → Agree (insert_output h secret amount s) (Mem.insert_output h secret amount (legacy_of s))
unfolding insert_output Mem.insert_output
insert-Agree h secret amount s d = elim (Bool-cases (has_entry h s.unspent)) [
  | inl there ↦ rw there (rw (has-legacy h s.unspent) (rw there (refl, refl, d)))
  | inr new ↦ rw new (
      rw (has-legacy h s.unspent)
        (rw new (let p = push-Agree now_iso h secret amount s d new in (refl, p.0, p.1))))
]

pub mark-Agree :
    (h : Bytes) (s : MemState)
    → IsKeyed s
    → let t : MemState = record s { unspent = mark_entries h s.unspent } in
      (legacy_of t ≡ State.mark_spent h (legacy_of s)) × IsKeyed t
mark-Agree h s d =
    let e = mark-legacy h s.unspent ∙ set_spent-Distinct h (map legacy_entry s.unspent) d in
    (
      ap (λ (os : List MemOutput). record (legacy_of s) { outputs = os }) e,
      subst Distinct (sym e) (mark_first-Distinct h (map legacy_entry s.unspent) d),
    )

pub reprice-Agree :
    (h : Bytes) (amount : ℤ) (s : MemState)
    → IsKeyed s
    → let t : MemState = record s { unspent = reprice_entries h amount s.unspent } in
      (legacy_of t ≡ State.update_output_amount h amount (legacy_of s)) × IsKeyed t
reprice-Agree h amount s d =
    let e = reprice-legacy h amount s.unspent in
    (
      ap (λ (os : List MemOutput). record (legacy_of s) { outputs = os })
          (e ∙ set_amount-Distinct h amount (map legacy_entry s.unspent) d),
      subst Distinct (sym e) (set_amount-keeps h amount (map legacy_entry s.unspent) d),
    )

spent-Agree :
    (h : Bytes) (s : MemState)
    → legacy_of (record s { spent_hashes = add_spent_hash h s.spent_hashes })
      ≡ State.insert_spent_hash h (legacy_of s)
unfolding add_spent_hash
spent-Agree h s = elim (Bool-cases (knows_hash h s.spent_hashes)) [
  | inl there ↦ rw there (rw (knows-legacy h s.spent_hashes) (rw there refl))
  | inr new ↦ rw new (
      rw (knows-legacy h s.spent_hashes) (
        rw new (
          ap (λ (es : List (Bytes × Text)). record (legacy_of s) { spent_hashes = es })
            (map-append legacy_spent s.spent_hashes
              (record { hash = h; spent_at = now_iso } ∷ [])))))
]

pub call-Agree :
    (c : Call) (s : MemState)
    → KeepsDepths c
    → IsKeyed s
    → Agree (run_call mem_ops c s) (legacy_call c (legacy_of s))
call-Agree (Calls.set_meta key value) s k d = (refl, refl, d)
call-Agree (Calls.insert_output h secret amount) s k d = insert-Agree h secret amount s d
call-Agree (Calls.mark_spent h) s k d = let p = mark-Agree h s d in (refl, p.0, p.1)
call-Agree (Calls.insert_spent_hash h) s k d = (refl, spent-Agree h s, d)
call-Agree (Calls.update_output_amount h amount) s k d =
    let p = reprice-Agree h amount s d in (refl, p.0, p.1)
call-Agree (Calls.set_depth chain depth) s k d = (refl, refl, d)
call-Agree Calls.clear_all s k d = absurd k

proceed-Agree :
    (p : Reply (Unit {0}) × MemState) (q : Result (Unit {0}) × State.MemState)
    (m : Act MemState Unit) (n : Action State.MemState Unit)
    → Agree p q
    → ((s : MemState) → IsKeyed s → Agree (m s) (n (legacy_of s)))
    → Agree (proceed p m) (legacy_proceed q n)
proceed-Agree (fine _, s) (ok _, t) m n a h =
    subst (λ (u : State.MemState). Agree (m s) (n u)) a.1 (h s a.2)
proceed-Agree (failed x, s) (err y, t) m n a h = a
proceed-Agree (fine _, s) (err y, t) m n a h = cc a.0
proceed-Agree (failed x, s) (ok _, t) m n a h = cc a.0

-- One sequence of changes without `clear_all`, made to the in-memory store of the storage crate and to that of the wallet
-- from the same contents, where no two outputs have one hash, succeeds in both or fails in both; in
-- both it leaves the same metadata, outputs, spent hashes and depths but for the times, and no two
-- outputs with one hash.
pub run_calls-legacy :
    (cs : List Call) (s : MemState)
    → All KeepsDepths cs
    → IsKeyed s
    → Agree (run_calls cs mem_ops s) (legacy_calls cs (legacy_of s))
unfolding run_calls legacy_calls
run_calls-legacy [] s k d = (refl, refl, d)
run_calls-legacy (c ∷ cs) s (k, ks) d =
    proceed-Agree (run_call mem_ops c s) (legacy_call c (legacy_of s)) (run_calls cs mem_ops)
      (legacy_calls cs) (call-Agree c s k d) (λ t. run_calls-legacy cs t ks)
