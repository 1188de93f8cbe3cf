-- ===== src/Consumer/Business.antt =====
-- internal/consumer/consumer.go: how a transaction, a log and a reorg event are processed. The webhook
-- is a parameter. What is sent to it is a part of the state; its error is only logged.
pub mod Processing
pub mod Lifecycle
mod Tests
use smart_scanner.Common.{
  ℕ, String, Bool, true, false, List, [], ◌∷◌, Outcome, ok, err, reject_if, wrap, not,
  if◌then◌else◌, ◌>>◌, str_eq, leb,
}
use smart_scanner.Common.Actions.{Action}
use smart_scanner.Types.{Transaction, Log, ReorgEvent}
use smart_scanner.Storage.{Storage}
use smart_scanner.Consumer.StateMachine.{StateError, process_transaction as run_machine}
use smart_scanner.Consumer.ReorgHandler.{EventKey, ReorgError, handle_reorg}
use smart_scanner.Consumer.Idempotency.{
  IdempotencyHandler, ProcessKey, tx_key, log_key, redis_idempotency_handler,
}

-- The requests, whatever becomes of them.
pub record Webhook : Type 1 where
  pub State : Type 0
  pub send_transaction : Transaction → State → State
  pub send_log : Log → State → State
  pub send_reorg_event : ReorgEvent → State → State

pub data ConsumerError : Type 0 where
  check_failed mark_failed log_failed storage_unhealthy : String → ConsumerError
  process_failed : StateError → ConsumerError
  reorg_failed : ReorgError → ConsumerError
  not_running : ConsumerError

-- `len(log.Topics) >= 3` and its first topic.
abbrev pub first_of_three : List String → Bool × String
first_of_three (a ∷ b ∷ c ∷ rest) = (true, a)
first_of_three _ = (false, "")

-- A transfer is only logged, and so is another event.
unfoldable pub process_log_event : Log → Outcome String (Unit {0})
process_log_event log =
    let (enough, signature) = first_of_three log.topics in
    if enough
    then (if str_eq signature "0xddf252ad1be2c89b69c2b068fc378daa952ba7f163c4a11628f55a4df523b3ef"
        then ok tt
        else ok tt)
    else ok tt

module _ (st : Storage) (handler : IdempotencyHandler) (webhook : Webhook) where
  pub record BusinessConsumer : Type 0 where
    pub storage : st.State
    pub marks : handler.State
    pub reorgs : List EventKey
    pub sent : webhook.State

  -- The check of the key, the processing, the mark, and the request.
  abbrev pub process_once :
      ProcessKey
      → Action BusinessConsumer ConsumerError (Unit {0})
      → (webhook.State → webhook.State)
      → Action BusinessConsumer ConsumerError (Unit {0})
  process_once key handle send c =
      let (r, c₁) = handle c in
      let (m, marks) = handler.mark_processed key c₁.marks in
      elim (handler.is_processed key c.marks) [
        | err e ↦ (err (check_failed e), c)
        | ok true ↦ (ok tt, c)
        | ok false ↦ elim r [
          | err e ↦ (err e, c₁)
          | ok u ↦ elim m [
            | err e ↦ (err (mark_failed e), record c₁ { marks = marks })
            | ok v ↦ (ok tt, record c₁ { marks = marks; sent = send c₁.sent })
          ]
        ]
      ]

  abbrev pub handle_transaction : Transaction → Action BusinessConsumer ConsumerError (Unit {0})
  handle_transaction tx c =
      let (r, storage) = run_machine st tx c.storage in
      (wrap process_failed r, record c { storage = storage })

  unfoldable pub process_transaction :
      Transaction → Action BusinessConsumer ConsumerError (Unit {0})
  process_transaction tx =
      process_once (tx_key tx.chain_id tx.hash) (handle_transaction tx)
        (webhook.send_transaction tx)

  unfoldable pub process_log : Log → Action BusinessConsumer ConsumerError (Unit {0})
  process_log log =
      process_once (log_key log.chain_id log.tx_hash log.log_index)
        (λ c. (wrap log_failed (process_log_event log), c)) (webhook.send_log log)

  unfoldable pub process_reorg_event : ReorgEvent → Action BusinessConsumer ConsumerError (Unit {0})
  process_reorg_event event c =
      let (r, s) = handle_reorg st event (c.reorgs, c.storage) in
      let (reorgs, storage) = s in
      let handled = record c { reorgs = reorgs; storage = storage } in
      elim r [
        | err e ↦ (err (reorg_failed e), handled)
        | ok u ↦ (ok tt, record handled { sent = webhook.send_reorg_event event c.sent })
      ]

  unfoldable pub health_check :
      (running : Bool) → BusinessConsumer → Outcome ConsumerError (Unit {0})
  health_check running c = do
    reject_if (not running) not_running
    wrap storage_unhealthy (st.health_check c.storage)
