-- ===== src/Store/Monad.antt =====
-- Methods that change a state and may fail. The state comes back beside an error too.
use webylib.Prelude.{◌≡◌, refl, ap}
use webylib.Fault.{Error, Result, ok, err}

abbrev pub Action : Type 0 → Type 0 → Type 0
Action S A = S → Result A × S

module _ {S A : Type 0} where
  abbrev pub pure : A → Action S A
  pure a s = (ok a, s)

  abbrev pub raise : Error → Action S A
  raise e s = (err e, s)

  abbrev pub lift : Result A → Action S A
  lift r s = (r, s)

  abbrev pub gets : (S → A) → Action S A
  gets f s = (ok (f s), s)

module _ {S A B : Type 0} where
  abbrev pub continue : Result A → (A → Action S B) → Action S B
  continue (ok a) f s = f a s
  continue (err e) f s = (err e, s)

  infixl 5 ◌>>=◌ ◌>>◌
  abbrev pub ◌>>=◌ : Action S A → (A → Action S B) → Action S B
  ◌>>=◌ m f s = let (r, s') = m s in continue r f s'

  abbrev pub ◌>>◌ : Action S A → Action S B → Action S B
  m >> k = m >>= λ _. k

abbrev pub modify : {S : Type 0} → (S → S) → Action S Unit
modify f s = (ok tt, f s)

module _ {S A B : Type 0} where
  continue-ok :
      (r : Result A) (f : A → Action S B) (s1 : S) {b : B} {s2 : S}
      → continue r f s1 ≡ (ok b, s2)
      → (a : A) × (r ≡ ok a) × (f a s1 ≡ (ok b, s2))
  continue-ok (ok a) f s1 h = (a, refl, h)
  continue-ok (err e) f s1 h = cc (ap (λ (p : Result B × S). p.0) h)

  -- Inversion of a step that succeeds: what its first part returned, and where it left the state.
  pub bind-ok :
      (m : Action S A) (f : A → Action S B) (s : S) {b : B} {s2 : S}
      → (m >>= f) s ≡ (ok b, s2)
      → (a : A) × (s1 : S) × (m s ≡ (ok a, s1)) × (f a s1 ≡ (ok b, s2))
  bind-ok m f s h =
      let (a, e, rest) = continue-ok (m s).0 f (m s).1 h in
      (a, (m s).1, ap (λ (r : Result A). (r, (m s).1)) e, rest)
