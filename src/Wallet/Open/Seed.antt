-- ===== src/Wallet/Open/Seed.antt =====
-- What `Wallet::open_with_seed` (src/wallet/mod.rs) does to the master secret and the outputs of a
-- wallet on the SQLite store.
use webylib.Prelude.{
  ◌≡◌, ◌≢◌, refl, sym, ap, subst, ◌∙◌, Bool, true, false, not, Bool-cases, inl, inr, some, List, [],
  ◌∷◌, length, ltb, arith, if◌then◌else◌, ◌↔◌, String,
}
use webylib.Prelude.Text.{Text, beq, beq_iff}
use webylib.Fault.{Result, ok, err}
use webylib.Crypto.{Crypto, Bytes}
use webylib.Store.{Store}
use webylib.Store.Monad.{Action, pure, continue, bind-ok, ◌>>=◌}
use webylib.Store.State
use webylib.Store.State.{MemState, MemOutput, sum_amounts, unspent}
use webylib.Store.Sqlite.{sqlite_store}
use webylib.Store.Laws.Backends.{sqlite_store-laws}
use webylib.Wallet.Effects.{pure-ok, guarded-ok}
use webylib.Wallet.{
  World, Env, WalletStats, get_or_generate_master_secret, or_generate, stats, store_master_secret,
  master_secret_key,
}
use webylib.Wallet.Open.{replace_unused, set_seed, open_with_seed}
use webylib.Wallet.Open.Reads.{stats-Reads, stats-total}
use webylib.Wallet.Open.Master.{store_master_secret-Holds, get_or_generate-Holds}

some_output : (os : List MemOutput) → os ≢ [] → ltb 0 (length os) ≡ true
some_output [] h = absurd (h refl)
some_output (o ∷ os) h = ground arith

module _ {W : Type 0} (engine : String → MemState → Result (Unit {0})) (now : Text)
    (env : Env) where
  replace_unused-ok :
      (hex : Text) (x : WalletStats) (w : World MemState W) {w' : World MemState W}
      → replace_unused (sqlite_store engine now) env hex x w ≡ (ok tt, w')
      → store_master_secret (sqlite_store engine now) env hex w ≡ (ok tt, w')
  unfolding replace_unused
  replace_unused-ok hex x w e =
      guarded-ok (ltb 0 x.total_webcash) _ (store_master_secret (sqlite_store engine now) env hex) w
        e

  -- With another secret than the wallet's, only a wallet without outputs takes the seed.
  refuses :
      (hex : Text) (w : World MemState W) (r : Result WalletStats) (w1 : World MemState W)
      → w.disk.outputs ≢ []
      → stats (sqlite_store engine now) env w ≡ (r, w1)
      → ((continue r (replace_unused (sqlite_store engine now) env hex) w1).1 ≡ w)
        × ((continue r (replace_unused (sqlite_store engine now) env hex) w1).0 ≢ ok tt)
  unfolding replace_unused
  refuses hex w r w1 used e = counted r e
    where
      same : w1 ≡ w
      same =
          sym (ap (λ (p : Result WalletStats × World MemState W). p.1) e)
          ∙ stats-Reads engine now env w

      counted :
          (r : Result WalletStats)
          → stats (sqlite_store engine now) env w ≡ (r, w1)
          → ((continue r (replace_unused (sqlite_store engine now) env hex) w1).1 ≡ w)
            × ((continue r (replace_unused (sqlite_store engine now) env hex) w1).0 ≢ ok tt)
      counted (err x) e = (same, λ h. cc h)
      counted (ok x) e =
          let positive =
            ap (ltb 0) (stats-total engine now env w e) ∙ some_output w.disk.outputs used in
          rw positive (same, λ h. cc h)

  set_seed-kept :
      (hex existing : Text) (w : World MemState W)
      → w.disk.outputs ≢ []
      → ((set_seed (sqlite_store engine now) env hex existing w).1 ≡ w)
        × (((set_seed (sqlite_store engine now) env hex existing w).0 ≡ ok tt) ↔ (existing ≡ hex))
  unfolding set_seed
  set_seed-kept hex existing w used = elim (Bool-cases (beq existing hex)) [
    | inl same ↦ rw same (refl, ((λ _. (beq_iff existing hex).0 same), (λ _. refl)))
    | inr other ↦
        let (kept, failed) =
          refuses hex w (stats (sqlite_store engine now) env w).0
            (stats (sqlite_store engine now) env w).1 used refl in
        rw other (
          kept,
          (
            (λ done. absurd (failed done)),
            (λ same. absurd (differ other ((beq_iff existing hex).1 same))),
          ),
        )
  ]
    where
      differ : {b : Bool} → b ≡ false → b ≡ true → ⊥
      differ f t = cc

  get_or_generate-held :
      (w : World MemState W) {existing : Text}
      → engine "SELECT value FROM wallet_metadata" w.disk ≡ ok tt
      → State.get_meta master_secret_key w.disk ≡ some existing
      → get_or_generate_master_secret (sqlite_store engine now) env w ≡ (ok existing, w)
  unfolding get_or_generate_master_secret or_generate
  get_or_generate-held w ran held = rw (ran, held) refl

  then_held :
      (f : Text → Action (World MemState W) Unit) (w : World MemState W) {existing : Text}
      → engine "SELECT value FROM wallet_metadata" w.disk ≡ ok tt
      → State.get_meta master_secret_key w.disk ≡ some existing
      → (get_or_generate_master_secret (sqlite_store engine now) env >>= f) w ≡ f existing w
  then_held f w ran held =
      ap (λ (p : Result Text × World MemState W). continue p.0 f p.1)
        (get_or_generate-held w ran held)

  -- On the SQLite store, a wallet that has a master secret, which the engine reads, and at least one
  -- output, spent or not, is left as it was by `open_with_seed`, which succeeds just where the seed is
  -- that secret; the engine may refuse any other statement.
  pub open_with_seed-kept :
      (seed : Bytes) (w : World MemState W) (existing : Text)
      → engine "SELECT value FROM wallet_metadata" w.disk ≡ ok tt
      → State.get_meta master_secret_key w.disk ≡ some existing
      → w.disk.outputs ≢ []
      → ((open_with_seed engine now env seed w).1 ≡ w)
        × (((open_with_seed engine now env seed w).0 ≡ ok tt)
            ↔ (existing ≡ Crypto.hex_encode env.crypto seed))
  unfolding open_with_seed
  open_with_seed-kept seed w existing ran held used =
      let hex = Crypto.hex_encode env.crypto seed in
      let f = set_seed (sqlite_store engine now) env hex in
      let get = get_or_generate_master_secret (sqlite_store engine now) env in
      subst
        (λ (p : Result (Unit {0}) × World MemState W).
          (p.1 ≡ w) × ((p.0 ≡ ok tt) ↔ (existing ≡ hex)))
        (sym (then_held (λ _. get >>= f) w ran held ∙ then_held f w ran held))
        (set_seed-kept hex existing w used)

  set_seed-Holds :
      (hex existing : Text) (w : World MemState W) {w' : World MemState W}
      → State.get_meta master_secret_key w.disk ≡ some existing
      → set_seed (sqlite_store engine now) env hex existing w ≡ (ok tt, w')
      → (State.get_meta master_secret_key w'.disk ≡ some hex) × (w'.disk.outputs ≡ w.disk.outputs)
  unfolding set_seed
  set_seed-Holds hex existing w {w'} held e = taken (beq existing hex) refl e
    where
      st : Store MemState
      st = sqlite_store engine now

      taken :
          (b : Bool)
          → beq existing hex ≡ b
          → (if not b then stats st env >>= replace_unused st env hex else pure tt) w ≡ (ok tt, w')
          → (State.get_meta master_secret_key w'.disk ≡ some hex)
            × (w'.disk.outputs ≡ w.disk.outputs)
      taken true same e =
          let end = pure-ok tt w e in
          (
            ap (λ (v : World MemState W). State.get_meta master_secret_key v.disk) end
                ∙ held
                ∙ ap some ((beq_iff existing hex).0 same),
            ap (λ (v : World MemState W). v.disk.outputs) end,
          )
      taken false _ e =
          let (x, w1, e1, e2) = bind-ok (stats st env) (replace_unused st env hex) w e in
          let start =
            sym (ap (λ (p : Result WalletStats × World MemState W). p.1) e1)
            ∙ stats-Reads engine now env w in
          let (now_held, outputs) =
            store_master_secret-Holds (sqlite_store-laws engine now) env hex w1
              (replace_unused-ok hex x w1 e2) in
          (now_held, outputs ∙ ap (λ (v : World MemState W). v.disk.outputs) start)

  -- Where `open_with_seed` succeeds on the SQLite store, the wallet's master secret is the seed
  -- afterwards, and its outputs are the ones it had.
  pub open_with_seed-holds :
      (seed : Bytes) (w w' : World MemState W)
      → open_with_seed engine now env seed w ≡ (ok tt, w')
      → (State.get_meta master_secret_key w'.disk ≡ some (Crypto.hex_encode env.crypto seed))
        × (w'.disk.outputs ≡ w.disk.outputs)
  unfolding open_with_seed
  open_with_seed-holds seed w w' e =
      let laws = sqlite_store-laws engine now in
      let get = get_or_generate_master_secret (sqlite_store engine now) env in
      let hex = Crypto.hex_encode env.crypto seed in
      let f = set_seed (sqlite_store engine now) env hex in
      let (_, w1, e1, r1) = bind-ok get (λ _. get >>= f) w e in
      let (existing, w2, e2, e3) = bind-ok get f w1 r1 in
      let (_, kept1) = get_or_generate-Holds laws env w e1 in
      let (held, kept2) = get_or_generate-Holds laws env w1 e2 in
      let (taken, kept3) = set_seed-Holds hex existing w2 held e3 in (taken, kept3 ∙ kept2 ∙ kept1)
