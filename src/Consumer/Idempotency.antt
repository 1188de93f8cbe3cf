-- ===== src/Consumer/Idempotency.antt =====
-- internal/consumer/idempotency.go: the two handlers, which remember nothing yet. A key is the parts
-- that its text is made of.
use smart_scanner.Common.{ℕ, String, Bool, false, Outcome, ok}
use smart_scanner.Common.Actions.{Action}

pub data ProcessKey : Type 0 where
  tx_key : (chain_id hash : String) → ProcessKey
  log_key : (chain_id tx_hash : String) (log_index : ℕ) → ProcessKey

pub record IdempotencyHandler : Type 1 where
  pub State : Type 0
  pub is_processed : ProcessKey → State → Outcome String Bool
  pub mark_processed : ProcessKey → Action State String (Unit {0})
  pub clear : ProcessKey → Action State String (Unit {0})
  pub clear_expired : Action State String (Unit {0})

-- The methods of both handlers are the same: no key is processed, and a mark leaves no trace.
unfoldable pub redis_idempotency_handler : IdempotencyHandler
redis_idempotency_handler = record {
  State = Unit {0};
  is_processed = λ key s. ok false;
  mark_processed = λ key s. (ok tt, s);
  clear = λ key s. (ok tt, s);
  clear_expired = λ s. (ok tt, s);
}

unfoldable pub database_idempotency_handler : IdempotencyHandler
unfolding redis_idempotency_handler
database_idempotency_handler = redis_idempotency_handler
