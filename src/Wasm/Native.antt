-- ===== src/Wasm/Native.antt =====
-- The browser's wallet (crates/webylib-wasm/src/wallet.rs) beside the native wallet on its in-memory
-- store (src/wallet/store.rs): states that agree, and changes that keep them so.
pub mod Spend
pub mod Strings
pub mod Tell
pub mod Run
pub mod Effect
pub mod Chosen
pub mod Pay
use webylib.Prelude.{
  ℕ, ◌≡◌, refl, sym, ap, subst, ◌∙◌, Bool, true, false, Option, some, List, [], ◌∷◌, ◌++◌, map, All,
  if◌then◌else◌,
}
use mathlib.Core.List.{map-append}
use webylib.Prelude.Int.{ℤ}
use webylib.Prelude.Text.{Text, beq}
use webylib.Prelude.Assoc.{lookup, insert, lookup-insert}
use webylib.Crypto.{Crypto, Bytes, IsByte}
use webylib.Store.State
use webylib.Store.State.{MemState, MemOutput, fresh, push_output, or_zero}
use webylib.Wallet.{Env, hash_of, master_secret_key}
use webylib.Wasm.State.{Output, WalletState, get_depth}
use webylib.Wasm.Replace.{new_output}
use webylib.Wasm.Replace.View.{viewed}

-- The text of a spent hash.
abbrev pub hex_of : Env → Bytes × Text → Text
hex_of env e = Crypto.hex_encode env.crypto e.0

-- Equal outputs but for the times, equal spent hashes, depths and master secrets.
pub record Agree (env : Env) (s : WalletState) (m : MemState) : Type 0 where
  pub master : State.get_meta master_secret_key m ≡ some s.master_secret
  pub outputs : m.outputs ≡ map (viewed (hash_of env)) s.outputs
  pub spent : s.spent_hashes ≡ map (hex_of env) m.spent_hashes
  pub bytes : All (λ (e : Bytes × Text). All IsByte e.0) m.spent_hashes
  pub depths : (chain : Text) → State.get_depth chain m ≡ get_depth chain s

or_zero_if :
    (b : Bool) (n : ℕ) (x y : Option ℕ)
    → or_zero x ≡ or_zero y
    → or_zero (if b then some n else x) ≡ or_zero (if b then some n else y)
or_zero_if true n x y h = refl
or_zero_if false n x y h = h

module _ (env : Env) (s : WalletState) (m : MemState) (a : Agree env s m) where
  pub set_depth-Agree :
      (chain : Text) (n : ℕ)
      → Agree env (record s { depths = insert chain n s.depths }) (State.set_depth chain n m)
  set_depth-Agree chain n = record {
    master = a.master;
    outputs = a.outputs;
    spent = a.spent;
    bytes = a.bytes;
    depths = λ other.
        ap or_zero (lookup-insert chain other n m.depths)
        ∙ or_zero_if (beq chain other) n (lookup other m.depths) (lookup other s.depths)
            (a.depths other)
        ∙ ap or_zero (sym (lookup-insert chain other n s.depths));
  }

  pub push-Agree :
      (secret : Text) (amount : ℤ) (timestamp : Text)
      → Agree env
          (record s { outputs = s.outputs ++ new_output env secret amount timestamp ∷ [] })
          (push_output (fresh (hash_of env secret) secret amount) m)
  push-Agree secret amount timestamp = record {
    master = a.master;
    outputs =
        ap (λ os. os ++ fresh (hash_of env secret) secret amount ∷ []) a.outputs
        ∙ sym (
            map-append (viewed (hash_of env)) s.outputs
              (new_output env secret amount timestamp ∷ []));
    spent = a.spent;
    bytes = a.bytes;
    depths = a.depths;
  }
