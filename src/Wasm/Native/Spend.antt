-- ===== src/Wasm/Native/Spend.antt =====
-- Marking inputs as spent: `mark_spent` of the browser's wallet (crates/webylib-wasm/src/wallet.rs)
-- and the loop of the native wallet (src/wallet/operations.rs) on its in-memory store.
use webylib.Prelude.{
  ℕ, ◌≡◌, refl, sym, ap, ◌∙◌, ◌||◌, List, [], ◌∷◌, map, any, All, All-append, arith, Bool-cases,
  inl, inr,
}
use mathlib.Core.List.{map-append}
use webylib.Prelude.Text.{Text, beq, beq_iff, as_bytes}
use webylib.Prelude.Assoc.{Assoc, lookup}
use webylib.Fault.{ok}
use webylib.Crypto.{Crypto, Bytes, IsByte, HexLaws}
use webylib.Store.State
use webylib.Store.State.{MemState, knows_spent}
use webylib.Store.Mem.{mem_ops}
use webylib.Store.Laws.Rows.{Row}
use webylib.Wallet.{Env, hash_of, webcash_of_row, master_secret_key}
use webylib.Wallet.Inputs.{spend_inputs}
use webylib.Wasm.State.{WalletState, secret_hash}
use webylib.Wasm.Replace.{add_spent, mark_output, mark_all}
use webylib.Wasm.Replace.View.{Tells, viewed-mark_output}
use webylib.Wasm.Replace.Selection.{AllTell-mark_output}
use webylib.Wasm.Native.{Agree, hex_of}

-- The digest has bytes, and the texts of hashes are those of the crate `hex`.
pub record HashLaws (env : Env) : Type 0 where
  pub hex : HexLaws env.crypto
  pub digest_bytes : (bs : Bytes) → All IsByte (Crypto.sha256 env.crypto bs)

module _ (env : Env) (laws : HashLaws env) where
  hex_injective :
      (a b : Bytes)
      → All IsByte a
      → All IsByte b
      → Crypto.hex_encode env.crypto a ≡ Crypto.hex_encode env.crypto b
      → a ≡ b
  hex_injective a b ha hb e = cc (
    HexLaws.decode-encode (HashLaws.hex laws) a ha,
    HexLaws.decode-encode (HashLaws.hex laws) b hb,
    ap (Crypto.hex_decode env.crypto) e,
  )

  same_test :
      (a b : Bytes)
      → All IsByte a
      → All IsByte b
      → beq (Crypto.hex_encode env.crypto a) (Crypto.hex_encode env.crypto b) ≡ beq a b
  same_test a b ha hb = ground (
    arith,
    beq_iff (Crypto.hex_encode env.crypto a) (Crypto.hex_encode env.crypto b),
    beq_iff a b,
    hex_injective a b ha hb,
  )

  knows-hex :
      (h : Bytes) (es : List (Bytes × Text))
      → All IsByte h
      → All (λ (e : Bytes × Text). All IsByte e.0) es
      → any (λ g. beq g (Crypto.hex_encode env.crypto h)) (map (hex_of env) es) ≡ knows_spent h es
  knows-hex h [] hh he = refl
  knows-hex h (e ∷ es) hh he = λ i. same_test e.0 h he.0 hh i || knows-hex h es hh he.1 i

  -- One spent hash more, on both sides.
  record Added (h : Bytes) (m : MemState) : Type 0 where
    texts :
        add_spent (Crypto.hex_encode env.crypto h) (map (hex_of env) m.spent_hashes)
        ≡ map (hex_of env) (State.insert_spent_hash h m).spent_hashes
    bytes : All (λ (e : Bytes × Text). All IsByte e.0) (State.insert_spent_hash h m).spent_hashes
    outputs : (State.insert_spent_hash h m).outputs ≡ m.outputs
    depths : (State.insert_spent_hash h m).depths ≡ m.depths
    meta : (State.insert_spent_hash h m).meta ≡ m.meta

  insert_spent_hash-Added :
      (h : Bytes) (m : MemState)
      → All IsByte h
      → All (λ (e : Bytes × Text). All IsByte e.0) m.spent_hashes
      → Added h m
  insert_spent_hash-Added h m hh hm =
      let known = knows-hex h m.spent_hashes hh hm in
      elim (Bool-cases (knows_spent h m.spent_hashes)) [
        | inl old ↦ record {
          texts = rw (known ∙ old) (rw old refl);
          bytes = rw old hm;
          outputs = rw old refl;
          depths = rw old refl;
          meta = rw old refl;
        }
        | inr new ↦ record {
          texts =
              rw (known ∙ new)
                (rw new (sym (map-append (hex_of env) m.spent_hashes ((h, []) ∷ []))));
          bytes = rw new (
              All-append (λ (e : Bytes × Text). All IsByte e.0) m.spent_hashes ((h, []) ∷ []) hm
                (hh, tt));
          outputs = rw new refl;
          depths = rw new refl;
          meta = rw new refl;
        }
      ]

  pub insert_spent_hash-outputs :
      (h : Bytes) (m : MemState) → (State.insert_spent_hash h m).outputs ≡ m.outputs
  insert_spent_hash-outputs h m = ground arith

  -- What marking one input does to the native store, and marking all of them.
  abbrev spend_row : Row → MemState → MemState
  spend_row r m = State.insert_spent_hash (hash_of env r.0) (State.mark_spent (hash_of env r.0) m)

  abbrev pub spend_rows : List Row → MemState → MemState
  spend_rows [] m = m
  spend_rows (r ∷ rows) m = spend_rows rows (spend_row r m)

  pub spend_inputs-mem :
      (rows : List Row) (m : MemState)
      → spend_inputs env mem_ops (map webcash_of_row rows) m ≡ (ok tt, spend_rows rows m)
  unfolding spend_inputs
  spend_inputs-mem [] m = refl
  spend_inputs-mem (r ∷ rows) m = spend_inputs-mem rows (spend_row r m)

  abbrev marked : Text → WalletState → WalletState
  marked secret s = record s {
    outputs = mark_output secret s.outputs;
    spent_hashes = add_spent (secret_hash env secret) s.spent_hashes;
  }

  spend_row-Agree :
      (r : Row) (s : WalletState) (m : MemState)
      → Tells (hash_of env) r.0 s.outputs
      → Agree env s m
      → Agree env (marked r.0 s) (spend_row r m)
  spend_row-Agree r s m tells a =
      let h = hash_of env r.0 in
      let m1 = State.mark_spent h m in
      let added =
        insert_spent_hash-Added h m1 (HashLaws.digest_bytes laws (as_bytes r.0)) a.bytes in
      record {
        master = ap (λ (ms : Assoc Text). lookup master_secret_key ms) added.meta ∙ a.master;
        outputs =
            added.outputs
            ∙ ap (State.mark_first h) a.outputs
            ∙ sym (viewed-mark_output (hash_of env) r.0 s.outputs tells);
        spent = ap (add_spent (secret_hash env r.0)) a.spent ∙ added.texts;
        bytes = added.bytes;
        depths = λ chain.
            ap (λ (ds : Assoc ℕ). State.or_zero (lookup chain ds)) added.depths ∙ a.depths chain;
      }

  pub spend_rows-Agree :
      (rows : List Row) (s : WalletState) (m : MemState)
      → All (λ (r : Row). Tells (hash_of env) r.0 s.outputs) rows
      → Agree env s m
      → Agree env (mark_all env (map (λ (r : Row). r.0) rows) s) (spend_rows rows m)
  unfolding mark_all
  spend_rows-Agree [] s m tells a = a
  spend_rows-Agree (r ∷ rows) s m tells a =
      spend_rows-Agree rows (marked r.0 s) (spend_row r m)
        (AllTell-mark_output (hash_of env) r.0 rows s.outputs tells.1)
        (spend_row-Agree r s m tells.0 a)
