-- ===== src/Store/Atomic.antt =====
-- What the atomic step of the JSON store (src/wallet/store.rs) leaves behind where it fails.
use webylib.Prelude.{◌≡◌, sym, ap, ◌∙◌, ◌⊎◌, inl, inr}
use webylib.Fault.{Error, Result, ok, err}
use webylib.Store.{Ops}
use webylib.Store.Monad.{Action}
use webylib.Store.State.{MemState}
use webylib.Store.Json.{batch_ops, json_atomic, commit}

unchanged :
    {r : Result (Unit {0})} {x : Error} {s t : MemState}
    → ◌≡◌ {A = Result (Unit {0}) × MemState} (r, s) (err x, t)
    → t ≡ s
unchanged e = sym (ap (λ (p : Result (Unit {0}) × MemState). p.1) e)

module _ (flush : MemState → Result (Unit {0})) where
  commit-failed :
      (s : MemState) (r : Result (Unit {0})) (t : MemState) {x : Error} {s' : MemState}
      → commit flush s (r, t) ≡ (err x, s')
      → (s' ≡ s)
        ⊎ ((◌≡◌ {A = Result (Unit {0}) × MemState} (r, t) (ok tt, s')) × (flush s' ≡ err x))
  commit-failed s (ok tt) t e =
      let same = unchanged e in
      inr (
        ap (λ (u : MemState). (ok tt, u)) (sym same),
        ap flush same ∙ ap (λ (p : Result (Unit {0}) × MemState). p.0) e,
      )
  commit-failed s (err y) t e = inl (unchanged e)

  -- Where an atomic step of the JSON store fails, its state is the one from before the step, or the
  -- whole body has succeeded, the state is the body's, and only the write of that state failed.
  pub json_atomic-failed :
      (body : Ops MemState → Action MemState Unit) (s : MemState) {x : Error} {s' : MemState}
      → json_atomic flush body s ≡ (err x, s')
      → (s' ≡ s) ⊎ ((body batch_ops s ≡ (ok tt, s')) × (flush s' ≡ err x))
  unfolding json_atomic
  json_atomic-failed body s e = commit-failed s (body batch_ops s).0 (body batch_ops s).1 e
