-- ===== src/Consumer/StateMachine/Transitions.antt =====
-- Which status changes the default state machine makes.
use smart_scanner.Common.{◌≡◌, ◌≢◌, String, ok, err, arith, ◌↔◌, refl, Outcome-cases, inl, inr, ◌⊎◌}
use smart_scanner.Types.{
  Transaction, TransactionStatus, pending, confirmed, finalized, reverted, status_eq,
}
use smart_scanner.Storage.{Storage}
use smart_scanner.Consumer.StateMachine.{
  StateError, update_failed, invalid_transition, validate_state_transition, process_transaction,
  get_transaction_state, execute_state_transition,
}

infix 40 ◌⟶◌
-- The life of a transaction.
pub data ◌⟶◌ : TransactionStatus → TransactionStatus → Type 0 where
  confirm : pending ⟶ confirmed
  drop : pending ⟶ reverted
  finalize : confirmed ⟶ finalized
  revert : confirmed ⟶ reverted

infix 40 ◌⟶*◌
pub data ◌⟶*◌ : TransactionStatus → TransactionStatus → Type 0 where
  here : {a : TransactionStatus} → a ⟶* a
  next : {a b c : TransactionStatus} → a ⟶* b → b ⟶ c → a ⟶* c

pub validated :
    (current new : TransactionStatus)
    → validate_state_transition current new ≡ ok tt
    → current ⟶ new
unfolding validate_state_transition status_eq
validated pending confirmed e = confirm
validated pending reverted e = drop
validated confirmed finalized e = finalize
validated confirmed reverted e = revert
validated _ _ e = cc

⟶-moves : {a b : TransactionStatus} → a ⟶ b → a ≢ b
⟶-moves confirm = λ e. cc
⟶-moves drop = λ e. cc
⟶-moves finalize = λ e. cc
⟶-moves revert = λ e. cc

pub ⟶-irreflexive : {a : TransactionStatus} → a ⟶ a → ⊥
⟶-irreflexive m = ⟶-moves m refl

-- After a step the same step is refused, as no change.
pub repeated :
    {a b : TransactionStatus} → a ⟶ b → validate_state_transition b b ≡ err (invalid_transition b b)
unfolding validate_state_transition status_eq
repeated confirm = refl
repeated drop = refl
repeated finalize = refl
repeated revert = refl

accepted :
    {current new : TransactionStatus}
    → current ⟶ new
    → validate_state_transition current new ≡ ok tt
unfolding validate_state_transition status_eq
accepted confirm = refl
accepted drop = refl
accepted finalize = refl
accepted revert = refl

-- `validateStateTransition` accepts exactly the steps pending to confirmed or reverted, and
-- confirmed to finalized or reverted.
pub validate-⟶ :
    (current new : TransactionStatus)
    → (validate_state_transition current new ≡ ok tt) ↔ (current ⟶ new)
validate-⟶ current new = (validated current new, accepted)

pub prepend : {a b c : TransactionStatus} → a ⟶ b → b ⟶* c → a ⟶* c
prepend m here = next here m
prepend m (next r st) = next (prepend m r) st

terminal-⟶ : {a b : TransactionStatus} → (a ≡ finalized) ⊎ (a ≡ reverted) → a ⟶ b → ⊥
terminal-⟶ e confirm = ground arith
terminal-⟶ e drop = ground arith
terminal-⟶ e finalize = ground arith
terminal-⟶ e revert = ground arith

-- No step leaves `finalized` or `reverted`.
pub terminal-⟶* : {a b : TransactionStatus} → (a ≡ finalized) ⊎ (a ≡ reverted) → a ⟶* b → b ≡ a
terminal-⟶* e here = refl
terminal-⟶* {a} e (next r st) = let same = terminal-⟶* e r in absurd (terminal-⟶ (rw same e) st)

module _ (st : Storage) (tx : Transaction) (s : st.State) where
  -- A transaction that was processed had a stored status from which its own is one step, and the
  -- storage's state is the one that writing this status left.
  pub process_transaction-ok :
      {s' : st.State}
      → process_transaction st tx s ≡ (ok tt, s')
      → (t : Transaction) × (st.get_transaction tx.chain_id tx.hash s ≡ ok t)
        × (t.status ⟶ tx.status)
        × (st.update_transaction_status tx.chain_id tx.hash tx.status s ≡ (ok tt, s'))
  unfolding process_transaction get_transaction_state execute_state_transition
  process_transaction-ok e = elim (Outcome-cases (st.get_transaction tx.chain_id tx.hash s)) [
    | inl (t, g) ↦ elim (Outcome-cases (validate_state_transition t.status tx.status)) [
      | inl (u, v) ↦ (t, g, validated t.status tx.status v, ground arith)
      | inr (x, v) ↦ absurd (ground arith)
    ]
    | inr (x, g) ↦ absurd (ground arith)
  ]

  -- An error leaves the storage's state alone, unless writing the status was what failed.
  pub process_transaction-err :
      {s' : st.State} (e : StateError)
      → process_transaction st tx s ≡ (err e, s')
      → (s' ≡ s) ⊎ ((u : String) × (e ≡ update_failed u))
  unfolding process_transaction get_transaction_state execute_state_transition
  process_transaction-err e p = ground arith
