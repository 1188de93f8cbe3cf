-- ===== src/Consumer/StateMachine/Custom.antt =====
-- The custom machine: what its rules admit, and the rules under which it is the default machine.
use smart_scanner.Common.{◌≡◌, List, [], ◌∷◌, arith, refl, Outcome-cases, inl, inr, is_ok}
use smart_scanner.Types.{
  Transaction, TransactionStatus, pending, confirmed, finalized, reverted, status_eq,
}
use smart_scanner.Storage.{Storage}
use smart_scanner.Consumer.StateMachine.{
  StateTransitionRule, find_transition_rule, validate_state_transition, process_by_rules,
  process_transaction, get_transaction_state, execute_state_transition,
}

abbrev rule : TransactionStatus → TransactionStatus → StateTransitionRule
rule a b = record { from_status = a; to_status = b; condition = ""; action = "" }

-- The default machine's four transitions as rules.
abbrev pub default_rules : List StateTransitionRule
default_rules =
    rule pending confirmed
    ∷ rule pending reverted
    ∷ rule confirmed finalized
    ∷ rule confirmed reverted
    ∷ []

default_rules-agree :
    (a b : TransactionStatus)
    → is_ok (find_transition_rule default_rules a b) ≡ is_ok (validate_state_transition a b)
unfolding find_transition_rule validate_state_transition status_eq
default_rules-agree pending pending = refl
default_rules-agree a b = ground arith

-- With these rules the custom machine does to the storage what the default machine does, and
-- fails exactly where that fails.
pub process_by_rules-default :
    (st : Storage) (tx : Transaction) (s : st.State)
    → ((process_by_rules st default_rules tx s).1 ≡ (process_transaction st tx s).1)
      × (is_ok (process_by_rules st default_rules tx s).0 ≡ is_ok (process_transaction st tx s).0)
unfolding process_by_rules process_transaction get_transaction_state execute_state_transition
process_by_rules-default st tx s = elim (Outcome-cases (st.get_transaction tx.chain_id tx.hash s)) [
  | inl (t, g) ↦ ground (arith, default_rules-agree t.status tx.status)
  | inr (x, g) ↦ ground arith
]
