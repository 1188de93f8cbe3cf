-- ===== src/Consumer/StateMachine.antt =====
-- internal/consumer/state_machine.go, over any storage. The handlers of the new status only log,
-- and so does `executeAction`: they return nil and leave no trace. `GetStateStatistics` returns
-- zeros and is left out.
pub mod Transitions
pub mod History
pub mod Custom
pub mod Tests
use smart_scanner.Common.{
  ℕ, ◌≡◌, String, Bool, true, false, Option, none, some, List, [], ◌∷◌, Outcome, ok, err,
  if◌then◌else◌, ◌&&◌,
}
use smart_scanner.Common.Actions.{Action, ◌>>=◌, ◌>>◌, lift, reading, writing}
use smart_scanner.Types.{
  Transaction, TransactionStatus, pending, confirmed, finalized, reverted, other_status, status_eq,
}
use smart_scanner.Storage.{Storage}

pub data StateError : Type 0 where
  get_failed update_failed : String → StateError
  unknown_status : TransactionStatus → StateError
  invalid_transition no_rule : TransactionStatus → TransactionStatus → StateError

-- The map of `validateStateTransition`; a key that it lacks is an unknown status.
valid_transitions : TransactionStatus → Option (List TransactionStatus)
valid_transitions pending = some (confirmed ∷ reverted ∷ [])
valid_transitions confirmed = some (finalized ∷ reverted ∷ [])
valid_transitions finalized = some []
valid_transitions reverted = some []
valid_transitions (other_status s) = none

-- The loop over the allowed statuses.
is_allowed : TransactionStatus → List TransactionStatus → Bool
is_allowed new [] = false
is_allowed new (a ∷ as_left) =
    let rest = is_allowed new as_left in if status_eq a new then true else rest

pub validate_state_transition :
    TransactionStatus → TransactionStatus → Outcome StateError (Unit {0})
unfolding valid_transitions is_allowed
validate_state_transition current new = elim (valid_transitions current) [
  | none ↦ err (unknown_status current)
  | some allowed ↦ if is_allowed new allowed then ok tt else err (invalid_transition current new)
]

pub record StateTransitionRule : Type 0 where
  pub from_status : TransactionStatus
  pub to_status : TransactionStatus
  pub condition : String
  pub action : String

pub find_transition_rule :
    List StateTransitionRule
    → TransactionStatus
    → TransactionStatus
    → Outcome StateError StateTransitionRule
find_transition_rule [] current new = err (no_rule current new)
find_transition_rule (r ∷ rules) current new =
    let rest = find_transition_rule rules current new in
    if status_eq r.from_status current && status_eq r.to_status new then ok r else rest

module _ (st : Storage) where
  open st use {State, get_transaction, update_transaction_status}

  pub get_transaction_state : String → String → State → Outcome StateError TransactionStatus
  get_transaction_state chain_id tx_hash s = elim (get_transaction chain_id tx_hash s) [
    | ok tx ↦ ok tx.status
    | err e ↦ err (get_failed e)
  ]

  pub execute_state_transition : Transaction → Action State StateError (Unit {0})
  execute_state_transition tx =
      writing update_failed (update_transaction_status tx.chain_id tx.hash tx.status)

  -- `DefaultStateMachine.ProcessTransaction`.
  pub process_transaction : Transaction → Action State StateError (Unit {0})
  unfolding execute_state_transition get_transaction_state
  process_transaction tx = do
    current ← λ s. (get_transaction_state tx.chain_id tx.hash s, s)
    lift (validate_state_transition current tx.status)
    execute_state_transition tx

  unfoldable pub force_set_state :
      String → String → TransactionStatus → Action State StateError (Unit {0})
  force_set_state chain_id tx_hash status =
      writing update_failed (update_transaction_status chain_id tx_hash status)

  -- `CustomStateMachine.ProcessTransaction`.
  pub process_by_rules : List StateTransitionRule → Transaction → Action State StateError (Unit {0})
  unfolding execute_state_transition get_transaction_state
  process_by_rules rules tx = do
    current ← λ s. (get_transaction_state tx.chain_id tx.hash s, s)
    rule ← lift (find_transition_rule rules current tx.status)
    execute_state_transition tx
