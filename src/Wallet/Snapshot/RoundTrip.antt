-- ===== src/Wallet/Snapshot/RoundTrip.antt =====
-- What a snapshot (src/wallet/snapshot.rs) restores.
use webylib.Prelude.{
  ℕ, ◌^◌, ◌<◌, ◌≡◌, ◌≢◌, refl, sym, ap, subst, ◌∙◌, true, false, not, none, some, List, [], ◌∷◌,
  ◌++◌, map, All, arith, Bool-cases, inl, inr, if◌then◌else◌,
}
use webylib.Prelude.Int.{as_i64, as_u64_of, as_u64_of-as_i64}
use webylib.Prelude.Text.{Text, beq, beq_self, beq_iff}
use webylib.Prelude.Assoc.{Assoc, lookup, insert, lookup-insert}
use webylib.Fault.{Result, ok}
use webylib.Crypto.{HexLaws, IsByte, Bytes}
use webylib.Store.State
use webylib.Store.State.{MemState, MemOutput, has_hash, knows_spent, unspent, secret_and_amount}
use webylib.Store.Mem.{mem_ops, mem_store, mem_atomic}
use webylib.Store.Laws.{Distinct}
use webylib.Store.Laws.Rows.{IsHashed}
use webylib.Wallet.{World, Env, on_disk, hash_of, master_secret_key}
use webylib.Wallet.Snapshot.{
  UnspentOutputSnapshot, WalletSnapshot, output_snapshot, spent_snapshot, depth_snapshot, or_empty,
  restore, export_snapshot, import_snapshot,
}
use webylib.Wallet.Snapshot.Loops.{
  set_all, restore_depths_lem, output_of, AreNew, restore_outputs_lem, add_spent, restore_spent_lem,
  knows_spent-add_spent, any-hash,
}

-- The keys of a map are different.
abbrev pub DistinctKeys : Assoc ℕ → Type 0
DistinctKeys [] = Unit
DistinctKeys ((k, d) ∷ m) = (lookup k m ≡ none) × DistinctKeys m

-- `lookup` past the entries that are set again.
set_all-lookup :
    (env : Env) (chain : Text) (ds : Assoc ℕ) (m : Assoc ℕ)
    → lookup chain ds ≡ none
    → lookup chain (set_all env (map depth_snapshot ds) m) ≡ lookup chain m
unfolding lookup
set_all-lookup env chain [] m h = refl
set_all-lookup env chain ((k, d) ∷ ds) m h = elim (Bool-cases (beq k chain)) [
  | inl same ↦ absurd (cc (subst (λ b. (if b then some d else lookup chain ds) ≡ none) same h))
  | inr other ↦
      set_all-lookup env chain ds (insert k (as_u64_of (as_i64 d)) m)
        (subst (λ b. (if b then some d else lookup chain ds) ≡ none) other h)
      ∙ lookup-insert k chain (as_u64_of (as_i64 d)) m
      ∙ rw other refl
]

set_all-restores :
    (env : Env) (chain : Text) (d : ℕ) (ds : Assoc ℕ) (m : Assoc ℕ)
    → DistinctKeys ds
    → All (λ (e : Text × ℕ). e.1 < 2 ^ 64) ds
    → lookup chain ds ≡ some d
    → lookup chain (set_all env (map depth_snapshot ds) m) ≡ some d
unfolding lookup
set_all-restores env chain d [] m keys small h = cc
set_all-restores env chain d ((k, n) ∷ ds) m keys small h = elim (Bool-cases (beq k chain)) [
  | inl same ↦
      let value : some n ≡ some d =
        subst (λ b. (if b then some n else lookup chain ds) ≡ some d) same h in
      set_all-lookup env chain ds (insert k (as_u64_of (as_i64 n)) m)
        (subst (λ c. lookup c ds ≡ none) ((beq_iff k chain).0 same) keys.0)
      ∙ lookup-insert k chain (as_u64_of (as_i64 n)) m
      ∙ rw same (ap some (as_u64_of-as_i64 n small.0) ∙ value)
  | inr other ↦
      set_all-restores env chain d ds (insert k (as_u64_of (as_i64 n)) m) keys.1 small.1
        (subst (λ b. (if b then some n else lookup chain ds) ≡ some d) other h)
]

abbrev items_of : List MemOutput → List UnspentOutputSnapshot
items_of os = map output_snapshot (map (λ o. (o.secret, o.amount, o.created_at)) os)

All-unspent {κ} : (P : MemOutput → Type κ) (os : List MemOutput) → All P os → All P (unspent os)
unfolding unspent
All-unspent P [] h = tt
All-unspent P (o ∷ os) h =
    let rest = All-unspent P os h.1 in
    elim (not o.spent) as (λ b. All P (if b then o ∷ unspent os else unspent os)) [
      | true ↦ (h.0, rest)
      | false ↦ rest
    ]

Distinct-unspent : (os : List MemOutput) → Distinct os → Distinct (unspent os)
unfolding unspent
Distinct-unspent [] d = tt
Distinct-unspent (o ∷ os) d =
    let rest = Distinct-unspent os d.1 in
    elim (not o.spent) as (λ b. Distinct (if b then o ∷ unspent os else unspent os)) [
      | true ↦ (All-unspent (λ (p : MemOutput). p.secret_hash ≢ o.secret_hash) os d.0, rest)
      | false ↦ rest
    ]

different : (s t : Text) → s ≢ t → beq s t ≡ false
different s t n = ground (arith, beq_iff s t)

module _ (env : Env) where
  AreNew-items :
      (us acc : List MemOutput)
      → Distinct us
      → IsHashed (hash_of env) us
      → All (λ (o : MemOutput). has_hash o.secret_hash acc ≡ false) us
      → AreNew env (items_of us) acc
  AreNew-items [] acc d h n = tt
  AreNew-items (o ∷ us) acc d h n = (
    subst (λ k. has_hash k acc ≡ false) h.0 n.0,
    AreNew-items us (acc ++ output_of env (output_snapshot (o.secret, o.amount, o.created_at)) ∷ [])
        d.1 h.1 (apart us d.0 n.1),
  )
    where
      apart :
          (vs : List MemOutput)
          → All (λ (p : MemOutput). p.secret_hash ≢ o.secret_hash) vs
          → All (λ (p : MemOutput). has_hash p.secret_hash acc ≡ false) vs
          → All
              (λ (p : MemOutput).
                has_hash p.secret_hash
                  (acc ++ output_of env (output_snapshot (o.secret, o.amount, o.created_at)) ∷ [])
                ≡ false)
              vs
      apart [] other new = tt
      apart (p ∷ vs) other new =
          let differ : beq (hash_of env o.secret) p.secret_hash ≡ false =
            different (hash_of env o.secret) p.secret_hash (λ e. other.0 (sym e ∙ sym h.0)) in
          (
            any-hash env p.secret_hash acc
                  (output_of env (output_snapshot (o.secret, o.amount, o.created_at)))
                ∙ ground (arith, new.0, differ),
            apart vs other.1 new.1,
          )

  rows_restored :
      (us : List MemOutput)
      → map secret_and_amount (unspent (map (output_of env) (items_of us)))
        ≡ map secret_and_amount us
  unfolding unspent
  rows_restored [] = refl
  rows_restored (o ∷ us) = ap (λ rows. (o.secret, o.amount) ∷ rows) (rows_restored us)

  -- The snapshot of a state, and the state that it restores over another one.
  abbrev snapshot_of : MemState → WalletSnapshot
  snapshot_of s = record {
    master_secret = or_empty (State.get_meta master_secret_key s);
    unspent_outputs = items_of (unspent s.outputs);
    spent_hashes = map (spent_snapshot env) s.spent_hashes;
    depths = map depth_snapshot s.depths;
  }

  abbrev restored : MemState → MemState → MemState
  restored s t = record {
    meta = insert master_secret_key (or_empty (State.get_meta master_secret_key s)) [];
    outputs = map (output_of env) (items_of (unspent s.outputs));
    spent_hashes = add_spent env s.spent_hashes [];
    depths = set_all env (map depth_snapshot s.depths) t.depths;
  }

  nowhere : (us : List MemOutput) → All (λ (o : MemOutput). has_hash o.secret_hash [] ≡ false) us
  nowhere [] = tt
  nowhere (o ∷ us) = (refl, nowhere us)

  restore_lem :
      HexLaws env.crypto
      → (s t : MemState) → Distinct s.outputs
      → IsHashed (hash_of env) s.outputs
      → All (λ (e : Bytes × Text). All IsByte e.0) s.spent_hashes
      → restore env mem_ops (snapshot_of s) t ≡ (ok tt, restored s t)
  unfolding restore
  restore_lem laws s t d h bytes =
      let us = unspent s.outputs in
      let s2 =
        State.set_meta master_secret_key (or_empty (State.get_meta master_secret_key s))
          (State.clear_all t) in
      let s3 : MemState = record s2 {
        depths = set_all env (map depth_snapshot s.depths) t.depths;
      } in
      let s4 : MemState = record s3 { outputs = map (output_of env) (items_of us) } in
      rw (restore_depths_lem env (map depth_snapshot s.depths) s2) (
        rw
          (restore_outputs_lem env (items_of us) s3 (
            AreNew-items us [] (Distinct-unspent s.outputs d)
              (All-unspent (λ (o : MemOutput). o.secret_hash ≡ hash_of env o.secret) s.outputs h)
              (nowhere us)))
          (restore_spent_lem env laws s.spent_hashes s4 bytes))

-- A snapshot of a wallet with distinct outputs under the hashes of their secrets, imported over any
-- state of the in-memory store, succeeds, and restores what the wallet had: the unspent outputs, the
-- hashes that are known as spent, the depth of every chain that the wallet had one for, and the
-- master secret. The depths are keyed once each and fit a `u64`, and the hashes consist of bytes.
pub import_snapshot-export_snapshot :
    {W : Type 0} (env : Env) (w v : World MemState W)
    → HexLaws env.crypto
    → Distinct w.disk.outputs
    → IsHashed (hash_of env) w.disk.outputs
    → All (λ (e : Bytes × Text). All IsByte e.0) w.disk.spent_hashes
    → DistinctKeys w.disk.depths
    → All (λ (e : Text × ℕ). e.1 < 2 ^ 64) w.disk.depths
    → (snapshot : WalletSnapshot) {w' : World MemState W}
    → export_snapshot mem_store env w ≡ (ok snapshot, w')
    → (v' : World MemState W) × (import_snapshot mem_store env snapshot v ≡ (ok tt, v'))
      × (State.get_unspent v'.disk ≡ State.get_unspent w.disk)
      × ((h : Bytes) → knows_spent h v'.disk.spent_hashes ≡ knows_spent h w.disk.spent_hashes)
      × ((chain : Text) (d : ℕ)
          → lookup chain w.disk.depths ≡ some d
          → State.get_depth chain v'.disk ≡ d)
      × (State.get_meta master_secret_key v'.disk
          ≡ some (or_empty (State.get_meta master_secret_key w.disk)))
unfolding import_snapshot export_snapshot lookup insert
import_snapshot-export_snapshot {W} env w v laws d h bytes keys small snapshot {w'} e =
    let same : snapshot_of env w.disk ≡ snapshot =
      taken (ap (λ (p : Result WalletSnapshot × World MemState W). p.0) e) in
    let v' : World MemState W = record v { disk = restored env w.disk v.disk } in
    (
      v',
      subst (λ snap. on_disk (mem_atomic (λ store. restore env store snap)) v ≡ (ok tt, v')) same
          (ap (λ (p : Result (Unit {0}) × MemState). (p.0, record v { disk = p.1 }))
            (restore_lem env laws w.disk v.disk d h bytes)),
      ap State.sort_desc (rows_restored env (unspent w.disk.outputs)),
      (λ k. knows_spent-add_spent env k w.disk.spent_hashes []),
      (λ chain n there.
          ap State.or_zero
            (set_all-restores env chain n w.disk.depths v.disk.depths keys small there)),
      rw (beq_self master_secret_key) refl,
    )
  where
    taken : {a b : WalletSnapshot} → ok a ≡ ok b → a ≡ b
    taken p = cc
