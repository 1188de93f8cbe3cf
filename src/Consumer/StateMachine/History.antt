-- ===== src/Consumer/StateMachine/History.antt =====
-- The status of a stored transaction over any sequence of processed transactions, its own updates
-- among them.
use smart_scanner.Common.{
  ◌≡◌, String, false, List, [], ◌∷◌, ok, err, arith, refl, Outcome-cases, inl, inr, ◌⊎◌, Bool-cases,
  str_eq, str_eq_iff, ◌&&◌, ap,
}
use mathlib.Core.Path.{subst}
use smart_scanner.Common.Actions.{◌>>=◌, lift}
use smart_scanner.Types.{Transaction, TransactionStatus, finalized, reverted}
use smart_scanner.Storage.{Storage}
use smart_scanner.Consumer.StateMachine.{
  StateError, invalid_transition, process_transaction, get_transaction_state,
  execute_state_transition,
}
use smart_scanner.Consumer.StateMachine.Transitions.{
  ◌⟶◌, ◌⟶*◌, here, prepend, repeated, terminal-⟶*, process_transaction-ok,
}

-- What the machine relies on: a status that was written is read back, other transactions are left
-- alone, and a write that fails changes nothing.
pub record StatusLaws (st : Storage) : Type 0 where
  pub failed_keeps :
      (c h : String) (v : TransactionStatus) (s : st.State) (e : String)
      → (st.update_transaction_status c h v s).0 ≡ err e
      → (st.update_transaction_status c h v s).1 ≡ s
  pub read_updated :
      (c h : String) (v : TransactionStatus) (s : st.State) (t : Transaction)
      → (st.update_transaction_status c h v s).0 ≡ ok tt
      → st.get_transaction c h s ≡ ok t
      → st.get_transaction c h (st.update_transaction_status c h v s).1
        ≡ ok (record t { status = v })
  pub read_other :
      (c h : String) (v : TransactionStatus) (s : st.State) (c' h' : String)
      → (str_eq c c' && str_eq h h') ≡ false
      → st.get_transaction c' h' (st.update_transaction_status c h v s).1
        ≡ st.get_transaction c' h' s

module _ (st : Storage) where
  -- Each transaction in turn, as the consumer's workers hand them in; an error goes to the log.
  pub process_all : List Transaction → st.State → st.State
  process_all [] s = s
  process_all (tx ∷ txs) s = process_all txs (process_transaction st tx s).1

module _ (st : Storage) (laws : StatusLaws st) where
  abbrev Read : String → String → st.State → Transaction → Type 0
  Read c h s t = st.get_transaction c h s ≡ ok t

  -- Reading after one processed transaction.
  abbrev Moves : String → String → st.State → Transaction → Type 0
  Moves c h s t =
      (t' : Transaction) × Read c h s t' × ((t'.status ≡ t.status) ⊎ (t.status ⟶ t'.status))

  process-err-keeps :
      (tx : Transaction) (s : st.State) (e : StateError)
      → (process_transaction st tx s).0 ≡ err e
      → (process_transaction st tx s).1 ≡ s
  unfolding process_transaction get_transaction_state execute_state_transition
  process-err-keeps tx s e p =
      let update = st.update_transaction_status tx.chain_id tx.hash tx.status s in
      elim (Outcome-cases update.0) [
        | inl (u, w) ↦ ground arith
        | inr (x, w) ↦ ground (arith, laws.failed_keeps tx.chain_id tx.hash tx.status s x w)
      ]

  -- A transaction that was processed is refused, as no change of status, when it is processed again.
  pub process_transaction-again :
      (tx : Transaction) (s s' : st.State)
      → process_transaction st tx s ≡ (ok tt, s')
      → process_transaction st tx s' ≡ (err (invalid_transition tx.status tx.status), s')
  unfolding process_transaction get_transaction_state
  process_transaction-again tx s s' done =
      let (t, read, move, w) = process_transaction-ok st tx s {s' = s'} done in
      let stored : st.get_transaction tx.chain_id tx.hash s'
          ≡ ok (record t { status = tx.status }) =
        subst (λ x. st.get_transaction tx.chain_id tx.hash x ≡ ok (record t { status = tx.status }))
          (ap (λ x. x.1) w)
          (laws.read_updated tx.chain_id tx.hash tx.status s t (ap (λ x. x.0) w) read) in
      rw (stored, ◌>>=◌, repeated move, lift) refl

  -- A write of the status of `tx` seen from the transaction with chain `c` and hash `h`.
  write-Moves :
      (tx : Transaction) (s s' : st.State) (c h : String) (t t₀ : Transaction)
      → Read c h s t
      → Read tx.chain_id tx.hash s t₀
      → t₀.status ⟶ tx.status
      → st.update_transaction_status tx.chain_id tx.hash tx.status s ≡ (ok tt, s')
      → Moves c h s' t
  write-Moves tx s s' c h t t₀ r r₀ move w =
      elim (Bool-cases (str_eq tx.chain_id c && str_eq tx.hash h)) [
        | inl same ↦
            let ec : c ≡ tx.chain_id = ground (arith, str_eq_iff tx.chain_id c) in
            let eh : h ≡ tx.hash = ground (arith, str_eq_iff tx.hash h) in
            let e : t ≡ t₀ = cc in
            (
              record t { status = tx.status },
              cc (
                laws.read_updated tx.chain_id tx.hash tx.status s t (ap (λ x. x.0) w) (cc),
                ap (λ x. x.1) w,
              ),
              inr (rw e move),
            )
        | inr other ↦ (
          t,
          cc (laws.read_other tx.chain_id tx.hash tx.status s c h other, ap (λ x. x.1) w),
          inl refl,
        )
      ]

  process-Moves :
      (tx : Transaction) (s : st.State) (c h : String) (t : Transaction)
      → Read c h s t
      → Moves c h (process_transaction st tx s).1 t
  process-Moves tx s c h t r = elim (Outcome-cases (process_transaction st tx s).0) [
    | inr (e, p) ↦ (t, rw (process-err-keeps tx s e p) r, inl refl)
    | inl (u, p) ↦
        let s' = (process_transaction st tx s).1 in
        let (t₀, r₀, move, w) = process_transaction-ok st tx s {s' = s'} (ap (λ x. (x, s')) p) in
        write-Moves tx s s' c h t t₀ r r₀ move w
  ]

  -- Whatever transactions are processed, a stored transaction's status only follows its life.
  pub process_all-⟶* :
      (txs : List Transaction) (s : st.State) (c h : String) (t : Transaction)
      → Read c h s t
      → (t' : Transaction) × Read c h (process_all st txs s) t' × (t.status ⟶* t'.status)
  unfolding process_all
  process_all-⟶* [] s c h t r = (t, r, here)
  process_all-⟶* (tx ∷ txs) s c h t r =
      let (t₁, r₁, move) = process-Moves tx s c h t r in
      let (t₂, r₂, moves) = process_all-⟶* txs (process_transaction st tx s).1 c h t₁ r₁ in
      (t₂, r₂, elim move [ inl e ↦ rw e at moves | inr m ↦ prepend m moves ])

  -- A transaction that is finalized or reverted keeps that status for good.
  pub process_all-terminal :
      (txs : List Transaction) (s : st.State) (c h : String) (t : Transaction)
      → Read c h s t
      → (t.status ≡ finalized) ⊎ (t.status ≡ reverted)
      → (t' : Transaction) × Read c h (process_all st txs s) t' × (t'.status ≡ t.status)
  process_all-terminal txs s c h t r final =
      let (t', r', moves) = process_all-⟶* txs s c h t r in (t', r', terminal-⟶* final moves)
