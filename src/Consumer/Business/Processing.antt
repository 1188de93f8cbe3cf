-- ===== src/Consumer/Business/Processing.antt =====
-- What processing a transaction or a log twice does, with the handlers that the code has, and with
-- one that remembers.
use smart_scanner.Common.{
  ◌≡◌, ◌⊎◌, inl, inr, refl, sym, ap, ◌∙◌, true, false, List, [], ◌∷◌, Outcome, ok, err, is_ok,
  Outcome-cases, wrap, arith,
}
use mathlib.Core.Bool.{true≢false}
use mathlib.Core.Path.{subst}
use smart_scanner.Common.Actions.{Action}
use smart_scanner.Types.{Transaction, Log}
use smart_scanner.Storage.{Storage}
use smart_scanner.Consumer.StateMachine.{invalid_transition, process_transaction as run_machine}
use smart_scanner.Consumer.StateMachine.History.{StatusLaws, process_transaction-again}
use smart_scanner.Consumer.Idempotency.{
  IdempotencyHandler, ProcessKey, tx_key, redis_idempotency_handler,
}
use smart_scanner.Consumer.Business.{
  Webhook, BusinessConsumer, ConsumerError, process_failed, process_once, handle_transaction,
  process_transaction, process_log, process_log_event,
}

process_log_event-ok : (log : Log) → process_log_event log ≡ ok tt
unfolding process_log_event
process_log_event-ok log = ground arith

-- What the processing relies on: a key that was marked is found.
pub record MarkLaws (handler : IdempotencyHandler) : Type 0 where
  pub marked :
      (k : ProcessKey) (s : handler.State)
      → (handler.mark_processed k s).0 ≡ ok tt
      → handler.is_processed k (handler.mark_processed k s).1 ≡ ok true

module _ (st : Storage) (handler : IdempotencyHandler) (webhook : Webhook) (key : ProcessKey)
    (handle : Action (BusinessConsumer st handler webhook) ConsumerError (Unit {0}))
    (send : webhook.State → webhook.State) (c : BusinessConsumer st handler webhook) where
  abbrev once : Outcome ConsumerError (Unit {0}) × BusinessConsumer st handler webhook
  once = process_once st handler webhook key handle send c

  process_once-skips : handler.is_processed key c.marks ≡ ok true → once ≡ (ok tt, c)
  process_once-skips found = rw (found, process_once) refl

  process_once-fails :
      (e : ConsumerError) (c' : BusinessConsumer st handler webhook)
      → handler.is_processed key c.marks ≡ ok false
      → handle c ≡ (err e, c')
      → once ≡ (err e, c')
  process_once-fails e c' unknown failed =
      let outcome : (handle c).0 ≡ err e = ap (λ x. x.0) failed in
      rw (unknown, process_once, outcome) (ap (λ x. (err e, x.1)) failed)

  -- A success skips a key that is marked, or it handles, marks and sends.
  process_once-ok :
      once.0 ≡ ok tt
      → ((handler.is_processed key c.marks ≡ ok true) × (once.1 ≡ c))
        ⊎ (((handle c).0 ≡ ok tt)
            × ((handler.mark_processed key (handle c).1.marks).0 ≡ ok tt)
            × (once.1 ≡ record (handle c).1 {
              marks = (handler.mark_processed key (handle c).1.marks).1;
              sent = send (handle c).1.sent;
            }))
  process_once-ok = elim (Outcome-cases (handler.is_processed key c.marks)) [
    | inr (e, p) ↦ rw (p, process_once) (λ bad. absurd (true≢false (sym (ap is_ok bad))))
    | inl (true, p) ↦ λ done. inl (p, rw (p, process_once) refl)
    | inl (false, p) ↦ elim (Outcome-cases (handle c).0) [
      | inr (e, h) ↦ rw (p, process_once, h) (λ bad. absurd (true≢false (sym (ap is_ok bad))))
      | inl (u, h) ↦ elim (Outcome-cases (handler.mark_processed key (handle c).1.marks).0) [
        | inr (e, m) ↦ rw (p, process_once, h, m) (λ bad. absurd (true≢false (sym (ap is_ok bad))))
        | inl (v, m) ↦ rw (p, process_once, h, m) (λ done. inr (refl, refl, refl))
      ]
    ]
  ]

module _ (st : Storage) (webhook : Webhook) where
  -- A transaction that was processed, with a handler that remembers, is not processed again: the
  -- second time succeeds and changes nothing, and sends nothing.
  pub process_transaction-once :
      (handler : IdempotencyHandler) (laws : MarkLaws handler) (tx : Transaction)
      (c : BusinessConsumer st handler webhook)
      → (process_transaction st handler webhook tx c).0 ≡ ok tt
      → process_transaction st handler webhook tx (process_transaction st handler webhook tx c).1
        ≡ (ok tt, (process_transaction st handler webhook tx c).1)
  unfolding process_transaction
  process_transaction-once handler laws tx c done =
      let key = tx_key tx.chain_id tx.hash in
      let handle = handle_transaction st handler webhook tx in
      let send = webhook.send_transaction tx in
      let again = (process_once st handler webhook key handle send c).1 in
      process_once-skips st handler webhook key handle send again
        (elim (process_once-ok st handler webhook key handle send c done) [
          | inl (found, same) ↦ ap (λ x. handler.is_processed key x.marks) same ∙ found
          | inr (h, m, same) ↦ ap (λ x. handler.is_processed key x.marks) same ∙ laws.marked key _ m
        ])

  -- With the handlers that the code has, a transaction that was processed is refused the second
  -- time, with the error that its status does not change to itself, where the storage meets the
  -- laws of a status table; nothing changes then, and nothing is sent.
  pub process_transaction-twice :
      (laws : StatusLaws st) (tx : Transaction)
      (c : BusinessConsumer st redis_idempotency_handler webhook)
      → (process_transaction st redis_idempotency_handler webhook tx c).0 ≡ ok tt
      → process_transaction st redis_idempotency_handler webhook tx
          (process_transaction st redis_idempotency_handler webhook tx c).1
        ≡ (
          err (process_failed (invalid_transition tx.status tx.status)),
          (process_transaction st redis_idempotency_handler webhook tx c).1,
        )
  unfolding process_transaction redis_idempotency_handler
  process_transaction-twice laws tx c =
      let process = process_transaction st redis_idempotency_handler webhook tx in
      elim (Outcome-cases (run_machine st tx c.storage).0) [
        | inr (e, h) ↦ rw (process_once, wrap, h) (λ bad. absurd (true≢false (sym (ap is_ok bad))))
        | inl (u, h) ↦ λ done.
            let s' = (run_machine st tx c.storage).1 in
            let e = invalid_transition tx.status tx.status in
            let again = process_transaction-again st laws tx c.storage s' (ap (λ x. (x, s')) h) in
            let c' : BusinessConsumer st redis_idempotency_handler webhook = record c {
              storage = s';
              sent = webhook.send_transaction tx c.sent;
            } in
            let first : (process c).1 ≡ c' = rw (process_once, wrap, h) refl in
            let handled : handle_transaction st redis_idempotency_handler webhook tx c'
                ≡ (err (process_failed e), c') =
              ap (λ x. (wrap process_failed x.0, record c' { storage = x.1 })) again in
            let second : process c' ≡ (err (process_failed e), c') =
              process_once-fails st redis_idempotency_handler webhook (tx_key tx.chain_id tx.hash)
                (handle_transaction st redis_idempotency_handler webhook tx)
                (webhook.send_transaction tx) c' (process_failed e) c' refl handled in
            subst (λ x. process x ≡ (err (process_failed e), x)) (sym first) second
      ]

  pub process_logs :
      List Log
      → BusinessConsumer st redis_idempotency_handler webhook
      → BusinessConsumer st redis_idempotency_handler webhook
  process_logs [] c = c
  process_logs (log ∷ logs) c =
      process_logs logs (process_log st redis_idempotency_handler webhook log c).1

  pub send_logs : List Log → webhook.State → webhook.State
  send_logs [] s = s
  send_logs (log ∷ logs) s = send_logs logs (webhook.send_log log s)

  process_log-sends :
      (log : Log) (c : BusinessConsumer st redis_idempotency_handler webhook)
      → (process_log st redis_idempotency_handler webhook log c).1
        ≡ record c { sent = webhook.send_log log c.sent }
  unfolding process_log redis_idempotency_handler
  process_log-sends log c = rw (process_log_event-ok log) refl

  -- With the handlers that the code has, every log is sent as often as it is processed, and nothing
  -- but the requests changes.
  pub process_logs-sends :
      (logs : List Log) (c : BusinessConsumer st redis_idempotency_handler webhook)
      → process_logs logs c ≡ record c { sent = send_logs logs c.sent }
  unfolding process_logs send_logs
  process_logs-sends [] c = refl
  process_logs-sends (log ∷ logs) c =
      ap (process_logs logs) (process_log-sends log c)
      ∙ process_logs-sends logs (record c { sent = webhook.send_log log c.sent })
