-- ===== src/Wallet/Recover/Depths.antt =====
-- The depths that a recovery (`Wallet::recover`, src/wallet/operations.rs) leaves.
use webylib.Prelude.{
  ℕ, ◌+◌, ◌%◌, ◌^◌, ◌≤◌, ◌<◌, ◌≡◌, refl, sym, ap, ◌∙◌, subst, Bool, true, false, Option, none, some,
  List, [], ◌∷◌, inl, inr, Bool-cases, arith, ltb, if◌then◌else◌,
}
use webylib.Prelude.Text.{Text, beq, beq_iff, beq_self}
use webylib.Prelude.Assoc.{lookup, insert, lookup-insert}
use webylib.Fault.{ok}
use webylib.Amount.{Amount, from_wats}
use webylib.Prelude.Int.{pos}
use webylib.Crypto.{ChainCode, all_chains, as_str}
use webylib.Store.{Ops, Store}
use webylib.Store.Monad.{bind-ok, pure, ◌>>=◌}
use webylib.Store.State
use webylib.Store.State.{MemState, or_zero}
use webylib.Store.Laws.{OpsLaws, StoreLaws}
use webylib.Recovery.{RecoveryReport}
use webylib.Recovery.Steps.{some-eq}
use webylib.Recovery.Grows.{every_chain, Has}
use webylib.Wallet.{World, Env, on_disk}
use webylib.Wallet.Effects.{on_disk-ok, pure-ok}
use webylib.Wallet.Recover.{
  RecoveryResult, last_used, store_recovered, advance_if, advance_depths, persist,
}

get_depth-insert :
    (k j : Text) (n : ℕ) (s : MemState)
    → or_zero (lookup j (insert k n s.depths)) ≡ (if beq k j then n else State.get_depth j s)
get_depth-insert k j n s = ap or_zero (lookup-insert k j n s.depths) ∙ ground arith

module _ {W : Type 0} {st : Store MemState} (laws : StoreLaws st) (env : Env) where
  abbrev depth_of : ChainCode → World MemState W → ℕ
  depth_of k w = State.get_depth (as_str k) w.disk

  -- One chain: its depth passes the last that was seen, and no depth falls.
  advance_if-depths :
      (chain : ChainCode) (reported : ℕ) (seen : Option ℕ) (w : World MemState W)
      {w' : World MemState W}
      → reported ≡ depth_of chain w
      → advance_if st env chain reported seen w ≡ (ok tt, w')
      → ((k : ChainCode) → depth_of k w ≤ depth_of k w')
        × ((d : ℕ) → seen ≡ some d → d + 1 < 2 ^ 64 → d + 1 ≤ depth_of chain w')
  advance_if-depths chain reported none w r e =
      let same = pure-ok tt w e in
      (
        (λ k.
            subst (λ (v : World MemState W). depth_of k w ≤ depth_of k v) (sym same) (omega arith)),
        λ d h. absurd cc,
      )
  advance_if-depths chain reported (some d) w {w'} r e =
      split (ltb reported ((d + 1) % 2 ^ 64)) refl e
    where
      split :
          (b : Bool)
          → ltb reported ((d + 1) % 2 ^ 64) ≡ b
          → (if b
                then on_disk (Ops.set_depth st.ops (as_str chain) ((d + 1) % 2 ^ 64))
                else pure tt)
              w
            ≡ (ok tt, w')
          → ((k : ChainCode) → depth_of k w ≤ depth_of k w')
            × ((j : ℕ) → some d ≡ some j → j + 1 < 2 ^ 64 → j + 1 ≤ depth_of chain w')
      split true t e =
          let n = (d + 1) % 2 ^ 64 in
          let (_, deeper) =
            OpsLaws.set_depth laws.outer_laws (as_str chain) n w.disk
              (on_disk-ok (Ops.set_depth st.ops (as_str chain) n) w e).0 in
          let after : (k : ChainCode)
              → depth_of k w' ≡ (if beq (as_str chain) (as_str k) then n else depth_of k w) =
            λ k.
              ap (λ m. or_zero (lookup (as_str k) m)) deeper
              ∙ get_depth-insert (as_str chain) (as_str k) n w.disk in
          (
            (λ k.
                let a = after k in
                let x = beq_iff (as_str chain) (as_str k) in
                elim (Bool-cases (beq (as_str chain) (as_str k))) [
                  | inl same ↦
                      let old : depth_of chain w ≡ depth_of k w =
                        ap (λ c. State.get_depth c w.disk) (x.0 same) in
                      let new : depth_of k w' ≡ n = a ∙ rw same refl in ground arith
                  | inr other ↦
                      let new : depth_of k w' ≡ depth_of k w = a ∙ rw other refl in omega arith
                ]),
            λ j h small.
                let new : depth_of chain w' ≡ n = after chain ∙ rw (beq_self (as_str chain)) refl in
                let at : d ≡ j = some-eq h in omega arith,
          )
      split false t e =
          let same = pure-ok tt w e in
          (
            (λ k.
                subst (λ (v : World MemState W). depth_of k w ≤ depth_of k v) (sym same)
                  (omega arith)),
            λ j h small.
                subst (λ (v : World MemState W). j + 1 ≤ depth_of chain v) (sym same)
                  (let at : d ≡ j = some-eq h in ground arith),
          )

  -- What a list of chains comes to.
  abbrev Advanced :
      List (ChainCode × ℕ) → List ChainCode → World MemState W → World MemState W → Type 0
  Advanced seen chains w w' =
      ((k : ChainCode) → depth_of k w ≤ depth_of k w')
      × ((k : ChainCode) (d : ℕ)
          → Has (λ c. c ≡ k) chains
          → last_used k seen ≡ some d
          → d + 1 < 2 ^ 64
          → d + 1 ≤ depth_of k w')

  advance_depths-Advanced :
      (chains : List ChainCode) (seen : List (ChainCode × ℕ)) (w : World MemState W)
      {w' : World MemState W}
      → advance_depths st env chains seen w ≡ (ok tt, w')
      → Advanced seen chains w w'
  unfolding advance_depths
  advance_depths-Advanced [] seen w e = (
    (λ k.
        subst (λ (v : World MemState W). depth_of k w ≤ depth_of k v) (sym (pure-ok tt w e))
          (omega arith)),
    λ k d h. absurd h,
  )
  advance_depths-Advanced (chain ∷ chains) seen w {w'} e =
      let read = Ops.get_depth st.ops (as_str chain) in
      let (n, w1, e1, r1) =
        bind-ok (on_disk read)
          (λ n. advance_if st env chain n (last_used chain seen) >>= λ _.
            advance_depths st env chains seen)
          w e in
      let (value, same1) =
        OpsLaws.get_depth laws.outer_laws (as_str chain) w.disk (on_disk-ok read w e1).0 in
      let start : (k : ChainCode) → depth_of k w1 ≡ depth_of k w =
        λ k. ap (State.get_depth (as_str k)) same1 in
      let (_, w2, e2, r2) =
        bind-ok (advance_if st env chain n (last_used chain seen))
          (λ _. advance_depths st env chains seen) w1 r1 in
      let (grows, passes) =
        advance_if-depths chain n (last_used chain seen) w1 (value ∙ sym (start chain)) e2 in
      let (grows', passes') = advance_depths-Advanced chains seen w2 r2 in
      (
        (λ k. let a = start k in let b = grows k in let c = grows' k in omega arith),
        λ k d h known small. elim h [
          | inl here ↦
              let b = passes d (subst (λ c. last_used c seen ≡ some d) (sym here) known) small in
              let c = grows' chain in subst (λ j. d + 1 ≤ depth_of j w') here (omega arith)
          | inr later ↦ passes' k d later known small
        ],
      )

  -- Where the wallet has stored what a recovery reports, on any store that keeps the laws of the
  -- interface, the depth of every chain is behind the last depth that the scan saw used there, so that
  -- the secrets the server knows are not derived again; the depths seen are below the last of 64 bits.
  pub persist-depths :
      (report : RecoveryReport) (w w' : World MemState W) {result : RecoveryResult}
      → persist st env report w ≡ (ok result, w')
      → (k : ChainCode) (d : ℕ) → last_used k report.last_used_depth ≡ some d
      → d + 1 < 2 ^ 64
      → d < State.get_depth (as_str k) w'.disk
  unfolding persist
  persist-depths report w w' {result} e k d known small =
      let finish = λ (p : ℕ × Amount).
        advance_depths st env all_chains report.last_used_depth >>= λ _.
        pure (record { recovered_count = p.0; total_amount = p.1 }) in
      let (p, w1, e1, r1) =
        bind-ok (store_recovered st env report.recovered 0 (from_wats (pos 0))) finish w e in
      let (_, w2, e2, r2) =
        bind-ok (advance_depths st env all_chains report.last_used_depth)
          (λ _. pure (record { recovered_count = p.0; total_amount = p.1 })) w1 r1 in
      let last = pure-ok (record { recovered_count = p.0; total_amount = p.1 }) w2 r2 in
      let a =
        (advance_depths-Advanced all_chains report.last_used_depth w1 e2).1 k d (every_chain k)
          known small in
      subst (λ (v : World MemState W). d < State.get_depth (as_str k) v.disk) (sym last)
        (omega arith)
