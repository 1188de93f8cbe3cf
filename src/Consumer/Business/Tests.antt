-- ===== src/Consumer/Business/Tests.antt =====
-- Runs of the consumer over the storage in memory.
use smart_scanner.Common.{
  ◌≡◌, Bool, true, false, List, [], ◌∷◌, ok, err, if◌then◌else◌, str_eq, str_eq_refl, ◌&&◌, ◌==◌,
  arith, refl,
}
use smart_scanner.Types.{Transaction, Log, pending, confirmed}
use smart_scanner.Storage.Memory.{memory}
use smart_scanner.Consumer.StateMachine.Tests.{memory-StatusLaws, transfer, stored, confirms}
use smart_scanner.Consumer.Idempotency.{
  IdempotencyHandler, ProcessKey, tx_key, log_key, redis_idempotency_handler,
}
use smart_scanner.Consumer.Business.{
  Webhook, BusinessConsumer, process_once, handle_transaction, process_transaction, process_failed,
}
use smart_scanner.Consumer.StateMachine.{invalid_transition}
use smart_scanner.Consumer.Business.Processing.{MarkLaws, process_transaction-twice}
use smart_scanner.Consumer.Business.Lifecycle.{
  Lifecycle, WellFormed, here, next, start_called, start, stop, stop_called, idle,
  reachable-WellFormed,
}

-- The requests, newest first.
abbrev requests : Webhook
requests = record {
  State = List Transaction × List Log;
  send_transaction = λ tx s. (tx ∷ s.0, s.1);
  send_log = λ log s. (s.0, log ∷ s.1);
  send_reorg_event = λ event s. s;
}

abbrev same_key : ProcessKey → ProcessKey → Bool
same_key (tx_key c h) (tx_key d g) = str_eq c d && str_eq h g
same_key (log_key c h i) (log_key d g j) = str_eq c d && (str_eq h g && (i == j))
same_key _ _ = false

abbrev is_marked : ProcessKey → List ProcessKey → Bool
is_marked k [] = false
is_marked k (l ∷ ls) = if same_key k l then true else is_marked k ls

-- A handler that remembers.
abbrev listed : IdempotencyHandler
listed = record {
  State = List ProcessKey;
  is_processed = λ k s. ok (is_marked k s);
  mark_processed = λ k s. (ok tt, k ∷ s);
  clear = λ k s. (ok tt, s);
  clear_expired = λ s. (ok tt, s);
}

same_key_refl : (k : ProcessKey) → same_key k k ≡ true
same_key_refl (tx_key c h) = rw (str_eq_refl c, str_eq_refl h) refl
same_key_refl (log_key c h i) =
    let same_index : (i == i) ≡ true = ground arith in
    rw (str_eq_refl c, str_eq_refl h, same_index) refl

listed-MarkLaws : MarkLaws listed
listed-MarkLaws = record { marked = λ k s done. rw (same_key_refl k) refl }

abbrev consumer : BusinessConsumer memory listed requests
consumer = record { storage = stored pending; marks = []; reorgs = []; sent = ([], []) }

processes : (process_transaction memory listed requests (transfer confirmed) consumer).0 ≡ ok tt
unfolding process_transaction
processes = rw (process_once, handle_transaction, confirms) refl

abbrev forgetful : BusinessConsumer memory redis_idempotency_handler requests
unfolding redis_idempotency_handler
forgetful = record { storage = stored pending; marks = tt; reorgs = []; sent = ([], []) }

processes_first :
    (process_transaction memory redis_idempotency_handler requests (transfer confirmed) forgetful).0
    ≡ ok tt
unfolding process_transaction redis_idempotency_handler
processes_first = rw (process_once, handle_transaction, confirms) refl

process_transaction-twice_example :
    let c =
      (process_transaction memory redis_idempotency_handler requests
        (transfer confirmed)
        forgetful).1 in
    process_transaction memory redis_idempotency_handler requests (transfer confirmed) c
    ≡ (err (process_failed (invalid_transition confirmed confirmed)), c)
process_transaction-twice_example =
    process_transaction-twice memory requests memory-StatusLaws (transfer confirmed) forgetful
      processes_first

abbrev log : Log
log = record {
  chain_id = "1";
  tx_hash = "0xa";
  block_number = 7;
  address = "0xc";
  topics = [];
  data_text = "";
  log_index = 0;
  tx_index = 0;
}

abbrev working : Lifecycle
working = record { running = true; stopping = false; cancelled = false; workers = 3 }

starts : (start 2 true false idle).1 ≡ working
unfolding start
starts = refl

abbrev stopped : Lifecycle
stopped = record working { running = false; stopping = true }

stops : stop 2 true working ≡ stopped
unfolding stop
stops = refl

reachable-WellFormed_example : WellFormed 2 true (stop 2 true (start 2 true false idle).1)
unfolding start
reachable-WellFormed_example =
    reachable-WellFormed 2 true (next (next here (start_called false refl)) (stop_called refl))
