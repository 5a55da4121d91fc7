-- ===== src/Recovery/Steps.antt =====
-- Inversion of the steps of a recovery (crates/webylib-core/src/ops/recover.rs) that succeed.
use webylib.Prelude.{ℕ, ◌≡◌, refl, Option, none, some, List}
use webylib.Prelude.Text.{Text}
use webylib.Prelude.Assoc.{Assoc}
use webylib.Crypto.{Crypto, Bytes, ChainCode}
use webylib.Recovery.{Asset, HealthEntry, Outcome, done, failed, ◌>>=◌, RecoveryReport, next_chain}

pub >>=-eq-done :
    {A B : Type 0} (m : Outcome A) (f : A → Outcome B) {b : B}
    → (m >>= f) ≡ done b
    → (a : A) × (m ≡ done a) × (f a ≡ done b)
>>=-eq-done (done a) f h = (a, refl, h)
>>=-eq-done (failed e) f h = cc

pub done-eq : {A : Type 0} {a b : A} → done a ≡ done b → a ≡ b
done-eq e = cc

pub some-eq : {A : Type 0} {a b : A} → some a ≡ some b → a ≡ b
some-eq e = cc

module _ (c : Crypto) (asset : Asset) (master : Bytes) where
  module _ (ask : ChainCode → List Text → Outcome (Assoc HealthEntry)) (fuel gap_limit : ℕ)
      (reported_depths : ChainCode → ℕ) where
    pub next_chain-ok :
        (f : RecoveryReport → Option (Outcome RecoveryReport)) (m : Option (Outcome RecoveryReport))
        {out : RecoveryReport}
        → next_chain c asset master ask fuel gap_limit reported_depths f m ≡ some (done out)
        → (report : RecoveryReport) × (m ≡ some (done report)) × (f report ≡ some (done out))
    next_chain-ok f none e = absurd (cc)
    next_chain-ok f (some (failed x)) e = absurd (cc)
    next_chain-ok f (some (done report)) e = (report, refl, e)
