-- ===== src/Wallet/Open/Reads.antt =====
-- The methods of the SQLite store (src/wallet/store.rs) that only read, and `stats` of
-- src/wallet/operations.rs over them.
use webylib.Prelude.{◌≡◌, refl, sym, ap, ◌∙◌, Bool, true, false, length, if◌then◌else◌, String}
use webylib.Prelude.Int.{ℤ, in_i64}
use webylib.Prelude.Text.{Text}
use webylib.Fault.{Error, Result, ok, err}
use webylib.Store.{Ops}
use webylib.Store.Monad.{Action, raise, gets, continue, bind-ok, ◌>>=◌}
use webylib.Store.State.{MemState, sum_amounts, unspent}
use webylib.Store.Sqlite.{sqlite_ops, sqlite_store, sum_rows, read}
use webylib.Wallet.Effects.{on_disk-ok}
use webylib.Wallet.{World, Env, WalletStats, on_disk, stats}

pub ok-injective : {A : Type 0} {a b : A} → ok a ≡ ok b → a ≡ b
ok-injective e = cc

module _ {S : Type 0} where
  -- An action that only reads, whether or not it fails.
  abbrev pub Reads : {A : Type 0} → Action S A → Type 0
  Reads act = (s : S) → (act s).1 ≡ s

  >>=-Reads :
      {A B : Type 0} (m : Action S A) (f : A → Action S B)
      → Reads m
      → ((a : A) → Reads (f a))
      → Reads (m >>= f)
  >>=-Reads {A} m f h k s = continued (m s).0
    where
      continued : (r : Result A) → (continue r f (m s).1).1 ≡ s
      continued (ok a) = k a (m s).1 ∙ h s
      continued (err e) = h s

-- Generating a master secret, or having one, on a store that keeps the laws of its interface.
module _ {W A : Type 0} where
  on_disk-Reads : (m : Action MemState A) → Reads m → Reads (on_disk {W = W} m)
  on_disk-Reads m h w = ap (λ (s : MemState). record w { disk = s }) (h w.disk)

module _ (engine : String → MemState → Result (Unit {0})) (now : Text) where
  read-Reads : {A : Type 0} (sql : String) (f : MemState → A) → Reads (read engine now sql f)
  read-Reads sql f s = ran (engine sql s)
    where
      ran : (q : Result (Unit {0})) → (continue q (λ _. gets f) s).1 ≡ s
      ran (ok _) = refl
      ran (err x) = refl

  read-ok :
      {A : Type 0} (sql : String) (f : MemState → A) (s : MemState) {a : A} {s' : MemState}
      → read engine now sql f s ≡ (ok a, s')
      → a ≡ f s
  read-ok {A} sql f s {a} {s'} e = ran (engine sql s) e
    where
      ran : (q : Result (Unit {0})) → continue q (λ _. gets f) s ≡ (ok a, s') → a ≡ f s
      ran (ok _) e = sym (ok-injective (ap (λ (p : Result A × MemState). p.0) e))
      ran (err x) e = cc (ap (λ (p : Result A × MemState). p.0) e)

  sum_rows-Reads : Reads (sum_rows engine now)
  unfolding sum_rows
  sum_rows-Reads s = summed (in_i64 (sum_amounts (unspent s.outputs)))
    where
      total : ℤ
      total = sum_amounts (unspent s.outputs)

      summed :
          (b : Bool)
          → (if b
              then read engine now "SELECT COALESCE(SUM(amount), 0)" (λ _. total) s
              else raise (Error.database "integer overflow") s).1
            ≡ s
      summed true = read-Reads "SELECT COALESCE(SUM(amount), 0)" (λ _. total) s
      summed false = refl

module _ {W : Type 0} (engine : String → MemState → Result (Unit {0})) (now : Text)
    (env : Env) where
  pub stats-Reads : Reads (stats {W = W} (sqlite_store engine now) env)
  unfolding stats
  stats-Reads =
      let ops = sqlite_ops engine now in
      >>=-Reads (on_disk (Ops.count_outputs ops)) _
        (on_disk-Reads (Ops.count_outputs ops) (read-Reads engine now _ _))
        (λ total.
          >>=-Reads (on_disk (Ops.count_unspent ops)) _
            (on_disk-Reads (Ops.count_unspent ops) (read-Reads engine now _ _))
            (λ unspent.
              >>=-Reads (on_disk (Ops.count_spent_hashes ops)) _
                (on_disk-Reads (Ops.count_spent_hashes ops) (read-Reads engine now _ _))
                (λ spent.
                  >>=-Reads (on_disk (Ops.sum_unspent ops)) _
                    (on_disk-Reads (Ops.sum_unspent ops) (sum_rows-Reads engine now))
                    (λ wats w. refl))))

  pub stats-total :
      (w : World MemState W) {x : WalletStats} {w' : World MemState W}
      → stats (sqlite_store engine now) env w ≡ (ok x, w')
      → x.total_webcash ≡ length w.disk.outputs
  unfolding stats
  stats-total w e =
      let ops = sqlite_ops engine now in
      let (total, w1, e1, r1) = bind-ok (on_disk (Ops.count_outputs ops)) _ w e in
      let (_, w2, _, r2) = bind-ok (on_disk (Ops.count_unspent ops)) _ w1 r1 in
      let (_, w3, _, r3) = bind-ok (on_disk (Ops.count_spent_hashes ops)) _ w2 r2 in
      let (_, w4, _, r4) = bind-ok (on_disk (Ops.sum_unspent ops)) _ w3 r3 in
      sym (
        ap WalletStats.total_webcash
          (ok-injective (ap (λ (p : Result WalletStats × World MemState W). p.0) r4)))
      ∙ read-ok engine now "SELECT COUNT(*) FROM unspent_outputs" (λ s. length s.outputs) w.disk
          (on_disk-ok (Ops.count_outputs ops) w e1).0
