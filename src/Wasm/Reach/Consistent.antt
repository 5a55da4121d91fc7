-- ===== src/Wasm/Reach/Consistent.antt =====
-- What holds of every state of the browser's wallet that its exported functions can reach
-- (crates/webylib-wasm/src/wallet.rs).
use webylib.Prelude.{
  ℕ, ◌≡◌, refl, sym, ap, subst, ◌∙◌, Bool, true, false, Option, none, some, List, [], ◌∷◌, ◌++◌,
  any, All, All-append, Bool-cases, inl, inr, arith,
}
use webylib.Prelude.Text.{Text, beq, beq_iff, beq_self}
use webylib.Prelude.Assoc.{Assoc}
use webylib.Wallet.{Env}
use webylib.Wasm.State.{Output, WalletState, ReplaceEffect, secret_hash}
use webylib.Wasm.Replace.{add_spent, mark_output, mark_all, push_pending, update_depths, settle}

abbrev pub knows : Text → List Text → Bool
knows hash = any (λ h. beq h hash)

knows-append_left :
    (hash : Text) (hs gs : List Text) → knows hash hs ≡ true → knows hash (hs ++ gs) ≡ true
knows-append_left hash [] gs e = cc
knows-append_left hash (h ∷ hs) gs e = ground (arith, knows-append_left hash hs gs)

knows-append_self : (hash : Text) (hs : List Text) → knows hash (hs ++ hash ∷ []) ≡ true
knows-append_self hash [] = rw (beq_self hash) refl
knows-append_self hash (h ∷ hs) = ground (arith, knows-append_self hash hs)

knows-add_spent : (hash : Text) (hs : List Text) → knows hash (add_spent hash hs) ≡ true
knows-add_spent hash hs = ground (arith, knows-append_self hash hs)

knows-add_spent_other :
    (hash other : Text) (hs : List Text)
    → knows hash hs ≡ true
    → knows hash (add_spent other hs) ≡ true
knows-add_spent_other hash other hs e = ground (arith, knows-append_left hash hs (other ∷ []))

module _ (env : Env) where
  -- The output stands under the hash of its secret, which is on the list where it is spent.
  pub record IsKnown (hs : List Text) (o : Output) : Type 0 where
    pub hashed : o.public_hash ≡ secret_hash env o.secret
    pub listed : o.spent ≡ true → knows o.public_hash hs ≡ true

  abbrev pub IsConsistent : WalletState → Type 0
  IsConsistent s = All (IsKnown s.spent_hashes) s.outputs

  abbrev pub IsFresh : Output → Type 0
  IsFresh o = (o.public_hash ≡ secret_hash env o.secret) × (o.spent ≡ false)

  pub IsFresh-IsKnown : (hs : List Text) (o : Output) → IsFresh o → IsKnown hs o
  IsFresh-IsKnown hs o f = record { hashed = f.0; listed = λ e. cc f.1 }

  All-listed :
      (hash : Text) (hs : List Text) (os : List Output)
      → All (IsKnown hs) os
      → All (IsKnown (add_spent hash hs)) os
  All-listed hash hs [] k = tt
  All-listed hash hs (o ∷ os) k = (
    record {
      hashed = k.0.hashed;
      listed = λ e. knows-add_spent_other o.public_hash hash hs (k.0.listed e);
    },
    All-listed hash hs os k.1,
  )

  All-marked :
      (secret : Text) (hs : List Text) (os : List Output)
      → All (IsKnown hs) os
      → All (IsKnown (add_spent (secret_hash env secret) hs)) (mark_output secret os)
  unfolding mark_output
  All-marked secret hs [] k = tt
  All-marked secret hs (o ∷ os) k = elim (Bool-cases (beq o.secret secret)) [
    | inl same ↦
        let e = k.0.hashed ∙ ap (secret_hash env) ((beq_iff o.secret secret).0 same) in
        rw same (
          record {
            hashed = k.0.hashed;
            listed = λ _.
                subst (λ h. knows h (add_spent (secret_hash env secret) hs) ≡ true) (sym e)
                  (knows-add_spent (secret_hash env secret) hs);
          },
          All-listed (secret_hash env secret) hs os k.1,
        )
    | inr other ↦
        rw other (
          (All-listed (secret_hash env secret) hs (o ∷ []) (k.0, tt)).0,
          All-marked secret hs os k.1,
        )
  ]

  mark_all-IsConsistent :
      (secrets : List Text) (s : WalletState)
      → IsConsistent s
      → IsConsistent (mark_all env secrets s)
  unfolding mark_all
  mark_all-IsConsistent [] s k = k
  mark_all-IsConsistent (secret ∷ secrets) s k =
      mark_all-IsConsistent secrets _ (All-marked secret s.spent_hashes s.outputs k)

  -- What a prepared effect adds.
  abbrev pub IsFreshPending : Option Output → Type 0
  IsFreshPending none = Unit
  IsFreshPending (some o) = IsFresh o

  push_pending-IsConsistent :
      (p : Option Output) (s : WalletState)
      → IsFreshPending p
      → IsConsistent s
      → IsConsistent (push_pending env p s)
  push_pending-IsConsistent none s f k = k
  push_pending-IsConsistent (some o) s f k =
      All-append (IsKnown s.spent_hashes) s.outputs (o ∷ []) k
        (IsFresh-IsKnown s.spent_hashes o f, tt)

  update_depths-IsConsistent :
      (updates : Assoc ℕ) (s : WalletState)
      → IsConsistent s
      → IsConsistent (update_depths env updates s)
  unfolding update_depths
  update_depths-IsConsistent [] s k = k
  update_depths-IsConsistent ((chain, depth) ∷ updates) s k = update_depths-IsConsistent updates _ k

  pub settle-IsConsistent :
      (e : ReplaceEffect) (s : WalletState)
      → IsFreshPending e.pending_output
      → IsConsistent s
      → IsConsistent (settle env e s)
  unfolding settle
  settle-IsConsistent e s f k =
      update_depths-IsConsistent e.depth_updates _
        (push_pending-IsConsistent e.pending_output _ f (mark_all-IsConsistent e.mark_spent s k))
