-- ===== src/Wasm/Reach/Steps.antt =====
-- Every step of the browser's wallet (crates/webylib-wasm/src/wallet.rs) keeps its outputs under
-- their hashes, and its spent outputs on the list of spent hashes.
use webylib.Prelude.{
  ◌+◌, ◌≡◌, refl, sym, ap, subst, ◌∙◌, Bool, true, false, not, ◌||◌, ◌&&◌, Option, none, some, List,
  [], ◌∷◌, ◌++◌, map, All, All-append, if◌then◌else◌, leb, length, take,
}
use webylib.Prelude.Int.{ℤ, pos, ltb_ℤ, wrap_i64, ◌-ℤ◌}
use webylib.Prelude.Text.{Text, codes, split}
use webylib.Prelude.Assoc.{Assoc}
use webylib.Fault.{ok, >>=-eq-ok}
use webylib.Wallet.{Env}
use webylib.Wasm.{js_error, parse_webcash, parse_amount_str}
use webylib.Wasm.State.{
  Output, WalletState, WalletResult, Effect, replace, health_check, mining_report, secret_hash,
  derive, get_depth, unspent, choose_master, wallet_create,
}
use webylib.Wasm.Replace.{
  new_output, apply_effect, wallet_apply_replace, wallet_prepare_insert, select, sort_desc,
  pay_with, wallet_prepare_pay, payment, wallet_prepare_merge, merge_into,
}
use webylib.Wasm.Replace.Balance.{
  ok_injective, unguarded, pay_with-Prepared, IsChange, pending_change-IsChange,
}
use webylib.Wasm.Mining.{wallet_store_mined}
use webylib.Wasm.Recover.{
  RecoverBatch, HealthEntry, Progress, is_stored, or_zero_wats, is_unspent, is_some, add_recovered,
  add_entry, recover_entry, recover_entries, wallet_apply_recover, secret_of, hash_of_key,
}
use webylib.Wasm.Snapshot.{SnapshotOutput, restored_output, wallet_import_snapshot}
use webylib.Wasm.Reach.{
  Offered, insert, pay, merge, Step, replaced, mined, recovered, Reach, created, imported, next,
}
use webylib.Wasm.Reach.Consistent.{
  IsKnown, IsConsistent, IsFresh, IsFreshPending, IsFresh-IsKnown, settle-IsConsistent,
}

module _ (env : Env) where
  -- The output that a prepared effect would add.
  abbrev IsFreshEffect : Effect → Type 0
  IsFreshEffect (replace e) = IsFreshPending env e.pending_output
  IsFreshEffect (health_check texts) = Unit
  IsFreshEffect (mining_report preimage o updates) = Unit

  fresh_effect : {a b : Effect} → some a ≡ some b → IsFreshEffect a → IsFreshEffect b
  fresh_effect h f = subst IsFreshEffect (cc h) f

  payment-fresh :
      (s : WalletState) (amount : ℤ) (selected : List Text) (pay_secret : Text) (p : Option Output)
      {e : Effect}
      → IsFreshPending env p
      → WalletResult.effect (payment env s amount selected pay_secret p) ≡ some e
      → IsFreshEffect e
  payment-fresh s amount selected pay_secret none f h = fresh_effect h tt
  payment-fresh s amount selected pay_secret (some o) f h = fresh_effect h f

  change-fresh :
      (s : WalletState) (z : ℤ) (timestamp : Text) (p : Option Output)
      → IsChange env s z timestamp p
      → IsFreshPending env p
  change-fresh s z timestamp none h = tt
  change-fresh s z timestamp (some o) (secret, derived, left, same) =
      subst (IsFresh env) (sym same) (refl, refl)

  pay_with-fresh :
      (s : WalletState) (amount : ℤ) (timestamp : Text) (out : List Text × ℤ) {r : WalletResult}
      {e : Effect}
      → pay_with env s amount timestamp out ≡ ok r
      → r.effect ≡ some e
      → IsFreshEffect e
  pay_with-fresh s amount timestamp out h k =
      let p = pay_with-Prepared env s amount timestamp out h in
      let z = wrap_i64 (out.1 -ℤ amount) in
      payment-fresh s amount out.0 p.pay_secret p.change
        (change-fresh s z timestamp p.change (pending_change-IsChange env s z timestamp p.pending))
        (ap WalletResult.effect p.result ∙ k)

  Offered-fresh : (e : Effect) → Offered env e → IsFreshEffect e
  unfolding wallet_prepare_insert wallet_prepare_pay wallet_prepare_merge merge_into
  Offered-fresh e (insert s webcash timestamp r h k) =
      let (parsed, _, h1) = >>=-eq-ok (parse_webcash env.crypto webcash) _ h in
      let (secret, _, h2) = >>=-eq-ok (derive env s 0 (get_depth (codes "RECEIVE") s)) _ h1 in
      fresh_effect (ap WalletResult.effect (ok_injective h2) ∙ k) (refl, refl)
  Offered-fresh e (pay s amount timestamp r h k) =
      pay_with-fresh s amount timestamp (select amount (sort_desc (unspent s.outputs)) [] (pos 0)) h
        k
  Offered-fresh e (merge s max_outputs timestamp r h k) =
      let (_, h1) =
        unguarded (leb (length (unspent s.outputs)) 1) (js_error "Nothing to merge")
          (merge_into env s (take max_outputs (unspent s.outputs)) timestamp) h in
      let (secret, _, h2) = >>=-eq-ok (derive env s 2 (get_depth (codes "CHANGE") s)) _ h1 in
      fresh_effect (ap WalletResult.effect (ok_injective h2) ∙ k) (refl, refl)

  apply_effect-IsConsistent :
      (e : Effect) (s : WalletState)
      → IsFreshEffect e
      → IsConsistent env s
      → IsConsistent env (apply_effect env e s)
  unfolding apply_effect
  apply_effect-IsConsistent (replace e) s f k = settle-IsConsistent env e s f k
  apply_effect-IsConsistent (health_check texts) s f k = k
  apply_effect-IsConsistent (mining_report preimage o updates) s f k = k

  replace-IsConsistent :
      (e : Effect) (success : Bool) (s : WalletState)
      → IsFreshEffect e
      → IsConsistent env s
      → IsConsistent env (WalletResult.state (wallet_apply_replace env s e success))
  unfolding wallet_apply_replace
  replace-IsConsistent e true s f k = apply_effect-IsConsistent e s f k
  replace-IsConsistent e false s f k = k

  -- The outputs of a recovery in progress.
  abbrev Kept : List Text → Progress → Type 0
  Kept hs p = All (IsKnown env hs) p.outputs

  add_recovered-Kept :
      (hs : List Text) (secret : Text) (amount : ℤ) (timestamp : Text) (p : Progress)
      → Kept hs p
      → Kept hs (add_recovered env secret amount timestamp p)
  unfolding add_recovered
  add_recovered-Kept hs secret amount timestamp p k =
      elim (ltb_ℤ (pos 0) amount && not (is_stored env (secret_hash env secret) p.outputs))
        as (λ b. Kept hs (
          if b
          then record p {
            outputs = p.outputs ++ new_output env secret amount timestamp ∷ [];
            recovered = p.recovered + 1;
          }
          else p)) [
            | true ↦
                All-append (IsKnown env hs) p.outputs (new_output env secret amount timestamp ∷ [])
                  k
                  (IsFresh-IsKnown env hs (new_output env secret amount timestamp) (refl, refl), tt)
            | false ↦ k
          ]

  add_entry-Kept :
      (hs : List Text) (secret : Text) (amount : Option Text) (timestamp : Text) (p : Progress)
      → Kept hs p
      → Kept hs (add_entry env secret amount timestamp p)
  unfolding add_entry
  add_entry-Kept hs secret none timestamp p k = k
  add_entry-Kept hs secret (some amount) timestamp p k =
      add_recovered-Kept hs secret (or_zero_wats (parse_amount_str amount)) timestamp p k

  recover_entry-Kept :
      (hs : List Text) (found : Option Text) (entry : HealthEntry) (timestamp : Text) (p : Progress)
      → Kept hs p
      → Kept hs (recover_entry env found entry timestamp p)
  unfolding recover_entry
  recover_entry-Kept hs none entry timestamp p k = k
  recover_entry-Kept hs (some secret) entry timestamp p k =
      let p' : Progress = record p { found_any = p.found_any || is_some entry.spent } in
      elim (is_unspent entry.spent)
        as (λ b. Kept hs (if b then add_entry env secret entry.amount timestamp p' else p')) [
          | true ↦ add_entry-Kept hs secret entry.amount timestamp p' k
          | false ↦ k
        ]

  recover_entries-Kept :
      (hs : List Text) (batch : RecoverBatch) (results : Assoc HealthEntry) (timestamp : Text)
      (p : Progress)
      → Kept hs p
      → Kept hs (recover_entries env batch results timestamp p)
  unfolding recover_entries
  recover_entries-Kept hs batch [] timestamp p k = k
  recover_entries-Kept hs batch ((key, entry) ∷ results) timestamp p k =
      let found =
        secret_of (hash_of_key (split b':' key)) batch.hashes batch.secrets batch.depths in
      recover_entries-Kept hs batch results timestamp _
        (recover_entry-Kept hs found entry timestamp p k)

  restored-IsKnown :
      (hs : List Text) (os : List SnapshotOutput)
      → All (IsKnown env hs) (map (restored_output env) os)
  restored-IsKnown hs [] = tt
  restored-IsKnown hs (o ∷ os) =
      (IsFresh-IsKnown env hs (restored_output env o) (refl, refl), restored-IsKnown hs os)

  Step-IsConsistent : (s u : WalletState) → Step env s u → IsConsistent env s → IsConsistent env u
  unfolding wallet_store_mined wallet_apply_recover
  Step-IsConsistent s u (replaced e success offered h) k =
      subst (IsConsistent env) (sym h)
        (replace-IsConsistent e success s (Offered-fresh e offered) k)
  Step-IsConsistent s u (mined secret amount timestamp h) k = subst (IsConsistent env) (sym h) (
      All-append (IsKnown env s.spent_hashes) s.outputs
        (new_output env secret amount timestamp ∷ []) k
        (
          IsFresh-IsKnown env s.spent_hashes (new_output env secret amount timestamp) (refl, refl),
          tt,
        ))
  Step-IsConsistent s u (recovered batch results timestamp h) k = subst (IsConsistent env) (sym h) (
      recover_entries-Kept s.spent_hashes batch results timestamp
        (record { outputs = s.outputs; recovered = 0; found_any = false }) k)

  -- In every state that the exported functions reach from a new or an imported wallet, whatever
  -- effects, mined secrets and batches they are given, each output stands under the hash of its own
  -- secret, and the hash of each spent output is on the list of spent hashes.
  pub Reach-IsConsistent : (u : WalletState) → Reach env u → IsConsistent env u
  unfolding wallet_create wallet_import_snapshot
  Reach-IsConsistent u (created master r h e) =
      let (secret, _, done) = >>=-eq-ok (choose_master env master) _ h in
      subst (IsConsistent env) (ap WalletResult.state (ok_injective done) ∙ sym e) tt
  Reach-IsConsistent u (imported snapshot e) =
      subst (IsConsistent env) (sym e)
        (restored-IsKnown (map (λ h. h.hash) snapshot.spent_hashes) snapshot.unspent_outputs)
  Reach-IsConsistent u (next s r step) = Step-IsConsistent s u step (Reach-IsConsistent s r)
