-- ===== src/Storage/Legacy/Clearing.antt =====
-- Sequences of changes with `clear_all` among them, which takes the depths of the chains away in the
-- in-memory store of crates/storage/src/mem.rs and leaves them in that of src/wallet/store.rs.
use webylib.Prelude.{◌≡◌, refl, sym, ap, ◌∙◌, Bool-cases, inl, inr, List, [], ◌∷◌}
use webylib.Prelude.Text.{Text}
use webylib.Prelude.Int.{ℤ}
use webylib.Crypto.{Bytes}
use webylib.Fault.{Result, ok, err}
use webylib.Store.State
use webylib.Store.State.{MemOutput, has_hash, knows_spent}
use webylib.Store.Monad.{Action}
use webylib.Store.Mem
use webylib.Storage.{Reply, fine, failed, is_fine, Act, MemState}
use webylib.Storage.Mem.{mem_ops}
use webylib.Storage.Calls
use webylib.Storage.Calls.{Call, KeepsDepths, run_call, run_calls, proceed}
use webylib.Storage.Legacy.{
  legacy_of, legacy_call, legacy_calls, legacy_proceed, is_ok, IsKeyed, Agree,
}
use webylib.Storage.Legacy.Agreement.{call-Agree}

-- The wallet's state but for the depths.
abbrev pub forget : State.MemState → State.MemState
forget t = record t { depths = [] }

-- Both have succeeded or both have failed, and they hold the same but for the depths and the times.
abbrev pub Alike : Reply (Unit {0}) × MemState → Result (Unit {0}) × State.MemState → Type 0
Alike (r, s) (r', t) = (is_fine r ≡ is_ok r') × (forget (legacy_of s) ≡ forget t) × IsKeyed s

-- No change looks at the depths.
abbrev Same : Result (Unit {0}) × State.MemState → Result (Unit {0}) × State.MemState → Type 0
Same (r, t) (r', u) = (is_ok r ≡ is_ok r') × (forget t ≡ forget u)

insert-Same :
    (h : Bytes) (secret : Text) (amount : ℤ) (t u : State.MemState)
    → forget t ≡ forget u
    → Same (Mem.insert_output h secret amount t) (Mem.insert_output h secret amount u)
unfolding Mem.insert_output
insert-Same h secret amount t u e =
    let rows = ap (λ (s : State.MemState). has_hash h s.outputs) e in
    elim (Bool-cases (has_hash h t.outputs)) [
      | inl there ↦ rw there (rw (sym rows ∙ there) (refl, e))
      | inr new ↦
          rw new
            (rw (sym rows ∙ new) (refl, ap (State.push_output (State.fresh h secret amount)) e))
    ]

spent-forget :
    (h : Bytes) (t : State.MemState)
    → forget (State.insert_spent_hash h t) ≡ State.insert_spent_hash h (forget t)
spent-forget h t = elim (Bool-cases (knows_spent h t.spent_hashes)) [
  | inl there ↦ rw there refl
  | inr new ↦ rw new refl
]

call-Same :
    (c : Call) (t u : State.MemState)
    → forget t ≡ forget u
    → Same (legacy_call c t) (legacy_call c u)
call-Same (Calls.set_meta key value) t u e = (refl, ap (State.set_meta key value) e)
call-Same (Calls.insert_output h secret amount) t u e = insert-Same h secret amount t u e
call-Same (Calls.mark_spent h) t u e = (refl, ap (State.mark_spent h) e)
call-Same (Calls.insert_spent_hash h) t u e =
    (refl, spent-forget h t ∙ ap (State.insert_spent_hash h) e ∙ sym (spent-forget h u))
call-Same (Calls.update_output_amount h amount) t u e =
    (refl, ap (State.update_output_amount h amount) e)
call-Same (Calls.set_depth chain depth) t u e = (refl, e)
call-Same Calls.clear_all t u e = (refl, refl)

through :
    (p : Reply (Unit {0}) × MemState) (q r : Result (Unit {0}) × State.MemState)
    → Agree p q
    → Same q r
    → Alike p r
through (a, s) (b, t) (c, u) (done, same, keyed) (done', same') =
    (done ∙ done', ap forget same ∙ same', keyed)

kept-Alike :
    (c : Call) (s : MemState) (t : State.MemState)
    → KeepsDepths c
    → IsKeyed s
    → forget (legacy_of s) ≡ forget t
    → Alike (run_call mem_ops c s) (legacy_call c t)
kept-Alike c s t k d e =
    through (run_call mem_ops c s) (legacy_call c (legacy_of s)) (legacy_call c t)
      (call-Agree c s k d) (call-Same c (legacy_of s) t e)

call-Alike :
    (c : Call) (s : MemState) (t : State.MemState)
    → IsKeyed s
    → forget (legacy_of s) ≡ forget t
    → Alike (run_call mem_ops c s) (legacy_call c t)
call-Alike Calls.clear_all s t d e = (refl, refl, tt)
call-Alike (Calls.set_meta key value) s t d e = kept-Alike (Calls.set_meta key value) s t tt d e
call-Alike (Calls.insert_output h secret amount) s t d e =
    kept-Alike (Calls.insert_output h secret amount) s t tt d e
call-Alike (Calls.mark_spent h) s t d e = kept-Alike (Calls.mark_spent h) s t tt d e
call-Alike (Calls.insert_spent_hash h) s t d e = kept-Alike (Calls.insert_spent_hash h) s t tt d e
call-Alike (Calls.update_output_amount h amount) s t d e =
    kept-Alike (Calls.update_output_amount h amount) s t tt d e
call-Alike (Calls.set_depth chain depth) s t d e =
    kept-Alike (Calls.set_depth chain depth) s t tt d e

proceed-Alike :
    (p : Reply (Unit {0}) × MemState) (q : Result (Unit {0}) × State.MemState)
    (m : Act MemState Unit) (n : Action State.MemState Unit)
    → Alike p q
    → ((s : MemState) (t : State.MemState)
        → IsKeyed s
        → forget (legacy_of s) ≡ forget t
        → Alike (m s) (n t))
    → Alike (proceed p m) (legacy_proceed q n)
proceed-Alike (fine _, s) (ok _, t) m n a h = h s t a.2 a.1
proceed-Alike (failed x, s) (err y, t) m n a h = a
proceed-Alike (fine _, s) (err y, t) m n a h = cc a.0
proceed-Alike (failed x, s) (ok _, t) m n a h = cc a.0

-- Any sequence of changes, `clear_all` among them, made to the in-memory store of the storage crate and
-- to that of the wallet from contents that are the same but for the depths and the times, and where no
-- two outputs have one hash, succeeds in both or fails in both; it leaves the same metadata, outputs
-- and spent hashes but for the times, and no two outputs with one hash.
pub run_calls-clearing :
    (cs : List Call) (s : MemState) (t : State.MemState)
    → IsKeyed s
    → forget (legacy_of s) ≡ forget t
    → Alike (run_calls cs mem_ops s) (legacy_calls cs t)
unfolding run_calls legacy_calls
run_calls-clearing [] s t d e = (refl, e, d)
run_calls-clearing (c ∷ cs) s t d e =
    proceed-Alike (run_call mem_ops c s) (legacy_call c t) (run_calls cs mem_ops) (legacy_calls cs)
      (call-Alike c s t d e) (run_calls-clearing cs)
