-- ===== src/Consumer/StateMachine/Tests.antt =====
-- Runs of the two state machines on the storage in memory, which meets their assumptions.
use smart_scanner.Common.{
  none, ◌≡◌, String, Bool, false, List, [], ◌∷◌, ok, err, arith, refl, str_eq, str_eq_iff, ◌&&◌,
}
use smart_scanner.Types.{
  status_eq, Transaction, TransactionStatus, pending, confirmed, finalized, reverted,
}
use smart_scanner.Storage.Memory.{memory, Tables, find_first, set_status}
use smart_scanner.Consumer.StateMachine.{
  process_transaction, invalid_transition, validate_state_transition,
}
use smart_scanner.Consumer.StateMachine.Transitions.{◌⟶*◌}
use smart_scanner.Consumer.StateMachine.History.{StatusLaws, process_all, process_all-⟶*}

abbrev is_tx : String → String → Transaction → Bool
is_tx c h t = str_eq t.chain_id c && str_eq t.hash h

find_first-set_status_self :
    (c h e : String) (v : TransactionStatus) (ts : List Transaction) (t : Transaction)
    → find_first (is_tx c h) e ts ≡ ok t
    → find_first (is_tx c h) e (set_status (is_tx c h) v ts) ≡ ok (record t { status = v })
find_first-set_status_self c h e v [] t p = cc
find_first-set_status_self c h e v (x ∷ ts) t p =
    ground (arith, find_first-set_status_self c h e v ts t)

find_first-set_status_other :
    (c h c' h' e : String) (v : TransactionStatus) (ts : List Transaction)
    → (str_eq c c' && str_eq h h') ≡ false
    → find_first (is_tx c' h') e (set_status (is_tx c h) v ts) ≡ find_first (is_tx c' h') e ts
find_first-set_status_other c h c' h' e v [] p = refl
find_first-set_status_other c h c' h' e v (x ∷ ts) p = ground (
  arith,
  find_first-set_status_other c h c' h' e v ts p,
  str_eq_iff x.chain_id c,
  str_eq_iff x.chain_id c',
  str_eq_iff x.hash h,
  str_eq_iff x.hash h',
  str_eq_iff c c',
  str_eq_iff h h',
)

pub memory-StatusLaws : StatusLaws memory
memory-StatusLaws = record {
  failed_keeps = λ c h v s e p. cc;
  read_updated =
      λ c h v s t p r. find_first-set_status_self c h "transaction not found" v s.transactions t r;
  read_other = λ c h v s c' h' p.
      find_first-set_status_other c h c' h' "transaction not found" v s.transactions p;
}

abbrev pub transfer : TransactionStatus → Transaction
transfer status = record {
  chain_id = "1";
  hash = "0xa";
  block_number = 7;
  block_hash = "";
  from = "";
  to = "";
  value = none;
  gas_price = none;
  index = 0;
  input_data = "";
  status = status;
}

abbrev pub stored : TransactionStatus → Tables
stored status = record {
  blocks = [];
  transactions = transfer status ∷ [];
  events = [];
  logs = [];
  watermarks = [];
}

pub confirms :
    process_transaction memory (transfer confirmed) (stored pending) ≡ (ok tt, stored confirmed)
unfolding process_transaction validate_state_transition status_eq
confirms = refl

rejects :
    process_transaction memory (transfer pending) (stored finalized)
    ≡ (err (invalid_transition finalized pending), stored finalized)
unfolding process_transaction validate_state_transition
rejects = refl

abbrev life : List Transaction
life = transfer confirmed ∷ transfer pending ∷ transfer finalized ∷ transfer reverted ∷ []

process_all-⟶*_example :
    (t : Transaction) × (memory.get_transaction "1" "0xa" (process_all memory life (stored pending))
      ≡ ok t)
    × (pending ⟶* t.status)
process_all-⟶*_example =
    process_all-⟶* memory memory-StatusLaws life (stored pending) "1" "0xa" (transfer pending) refl
