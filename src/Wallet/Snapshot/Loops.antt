-- ===== src/Wallet/Snapshot/Loops.antt =====
-- The loops of `import_snapshot` (src/wallet/snapshot.rs) on the in-memory store.
use webylib.Prelude.{
  ℕ, ◌≡◌, refl, ap, ◌∙◌, Bool, true, false, not, ◌||◌, List, [], ◌∷◌, ◌++◌, append_assoc,
  append-nil, map, any, All, arith, Bool-cases, inl, inr, if◌then◌else◌,
}
use webylib.Prelude.Int.{ℤ}
use webylib.Prelude.Text.{Text, beq, beq_iff}
use webylib.Prelude.Assoc.{Assoc, insert}
use webylib.Fault.{ok}
use webylib.Crypto.{HexLaws, IsByte, Bytes}
use webylib.Store.State
use webylib.Store.State.{MemState, MemOutput, fresh, has_hash, knows_spent}
use webylib.Store.Mem.{mem_ops, insert_output}
use webylib.Wallet.{Env, hash_of}
use webylib.Wallet.Snapshot.{
  UnspentOutputSnapshot, spent_snapshot, restore_depths, restore_outputs, restore_spent,
}
use webylib.Prelude.Int.{as_u64_of}

module _ (env : Env) where
  abbrev pub set_all : Assoc ℤ → Assoc ℕ → Assoc ℕ
  set_all [] m = m
  set_all ((code, depth) ∷ depths) m = set_all depths (insert code (as_u64_of depth) m)

  pub restore_depths_lem :
      (depths : Assoc ℤ) (s : MemState)
      → restore_depths env mem_ops depths s ≡ (ok tt, record s { depths = set_all depths s.depths })
  unfolding restore_depths
  restore_depths_lem [] s = refl
  restore_depths_lem ((code, depth) ∷ depths) s =
      restore_depths_lem depths (State.set_depth code (as_u64_of depth) s)

  abbrev pub output_of : UnspentOutputSnapshot → MemOutput
  output_of item = fresh (hash_of env item.secret) item.secret item.amount

  -- No item is stored yet, and no two have one hash.
  abbrev pub AreNew : List UnspentOutputSnapshot → List MemOutput → Type 0
  AreNew [] os = Unit
  AreNew (item ∷ items) os =
      (has_hash (hash_of env item.secret) os ≡ false) × AreNew items (os ++ output_of item ∷ [])

  pub restore_outputs_lem :
      (items : List UnspentOutputSnapshot) (s : MemState)
      → AreNew items s.outputs
      → restore_outputs env mem_ops items s
        ≡ (ok tt, record s { outputs = s.outputs ++ map output_of items })
  unfolding restore_outputs insert_output
  restore_outputs_lem [] s h = rw (append-nil s.outputs) refl
  restore_outputs_lem (item ∷ items) s h =
      let s' = State.push_output (output_of item) s in
      rw h.0 (
        restore_outputs_lem items s' h.1
        ∙ ap (λ (os : List MemOutput). (ok tt, record s { outputs = os }))
            (append_assoc s.outputs (output_of item ∷ []) (map output_of items)))

  abbrev pub add_spent : List (Bytes × Text) → List (Bytes × Text) → List (Bytes × Text)
  add_spent [] known = known
  add_spent ((hash, spent_at) ∷ hashes) known =
      add_spent hashes (if not (knows_spent hash known) then known ++ (hash, []) ∷ [] else known)

  inserted :
      (hash : Bytes) (s : MemState)
      → State.insert_spent_hash hash s ≡ record s {
        spent_hashes =
            if not (knows_spent hash s.spent_hashes)
            then s.spent_hashes ++ (hash, []) ∷ []
            else s.spent_hashes;
      }
  inserted hash s = elim (Bool-cases (knows_spent hash s.spent_hashes)) [
    | inl old ↦ rw old refl
    | inr new ↦ rw new refl
  ]

  pub restore_spent_lem :
      HexLaws env.crypto
      → (hashes : List (Bytes × Text)) (s : MemState)
      → All (λ (e : Bytes × Text). All IsByte e.0) hashes
      → restore_spent env mem_ops (map (spent_snapshot env) hashes) s
        ≡ (ok tt, record s { spent_hashes = add_spent hashes s.spent_hashes })
  unfolding restore_spent
  restore_spent_lem laws [] s h = refl
  restore_spent_lem laws ((hash, spent_at) ∷ hashes) s h =
      rw (HexLaws.decode-encode laws hash h.0) (
        ap (restore_spent env mem_ops (map (spent_snapshot env) hashes)) (inserted hash s)
        ∙ restore_spent_lem laws hashes
            (record s {
              spent_hashes =
                  if not (knows_spent hash s.spent_hashes)
                  then s.spent_hashes ++ (hash, []) ∷ []
                  else s.spent_hashes;
            })
            h.1)

  -- What the restored lists hold.
  any-append :
      (P : MemOutput → Bool) (os ps : List MemOutput) → any P (os ++ ps) ≡ any P os || any P ps
  any-append P [] ps = refl
  any-append P (o ∷ os) ps = ground (arith, any-append P os ps)

  knows_spent-append :
      (h : Bytes) (known more : List (Bytes × Text))
      → knows_spent h (known ++ more) ≡ knows_spent h known || knows_spent h more
  knows_spent-append h [] more = refl
  knows_spent-append h (e ∷ known) more = ground (arith, knows_spent-append h known more)

  pub knows_spent-add_spent :
      (h : Bytes) (hashes known : List (Bytes × Text))
      → knows_spent h (add_spent hashes known) ≡ knows_spent h known || knows_spent h hashes
  knows_spent-add_spent h [] known = ground arith
  knows_spent-add_spent h ((hash, t) ∷ hashes) known =
      let known' : List (Bytes × Text) =
        if not (knows_spent hash known) then known ++ (hash, []) ∷ [] else known in
      knows_spent-add_spent h hashes known' ∙ step (knows_spent hash known) refl
    where
      same : beq hash h ≡ true → knows_spent hash known ≡ knows_spent h known
      same e = ap (λ k. knows_spent k known) ((beq_iff hash h).0 e)

      step :
          (b : Bool)
          → knows_spent hash known ≡ b
          → knows_spent h (if not b then known ++ (hash, []) ∷ [] else known)
              || knows_spent h hashes
            ≡ knows_spent h known || (beq hash h || knows_spent h hashes)
      step true e = ground (arith, e, same)
      step false e = ground (arith, knows_spent-append h known ((hash, []) ∷ []))

  pub any-hash :
      (h : Bytes) (os : List MemOutput) (o : MemOutput)
      → has_hash h (os ++ o ∷ []) ≡ has_hash h os || beq o.secret_hash h
  any-hash h os o = any-append (λ p. beq p.secret_hash h) os (o ∷ []) ∙ ground arith
