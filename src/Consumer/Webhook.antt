-- ===== src/Consumer/Webhook.antt =====
-- internal/consumer/webhook.go: the buffer of the batch handler. Its mutex is a flag; a call that
-- locks a locked mutex blocks forever, and its result is the handler that it leaves behind. The
-- underlying handler is a parameter, and the batches that it was given are kept in order. A batch
-- without its event type, time and size is the list of its events.
pub mod Blocking
pub mod Http
pub mod Tests
use smart_scanner.Common.{
  ℕ, String, Bool, true, false, Option, none, some, List, [], ◌∷◌, ◌++◌, Outcome, ok, err, leb,
  length, ◌==◌, ◌>>=◌, if◌then◌else◌,
}

pub record BatchWebhookConfig : Type 0 where
  batch_size : ℕ
  max_buffer_size : ℕ

pub record BatchWebhookHandler (Payload : Type 0) : Type 0 where
  buffer : List Payload
  locked : Bool
  sent : List (List Payload)

-- A call: the error that it returns and the handler after it, or the handler when it blocks.
abbrev pub Call : Type 0 → Type 0
Call Payload = Outcome (BatchWebhookHandler Payload) (Option String × BatchWebhookHandler Payload)

module _ {Payload : Type 0} where
  unfoldable pub new_batch_webhook_handler : BatchWebhookHandler Payload
  new_batch_webhook_handler = record { buffer = []; locked = false; sent = [] }

  unfoldable pub lock :
      BatchWebhookHandler Payload
      → Outcome (BatchWebhookHandler Payload) (BatchWebhookHandler Payload)
  lock w = if w.locked then err w else ok (record w { locked = true })

  -- The deferred `Unlock` of a call that returns `e`.
  unfoldable pub unlock : Option String → BatchWebhookHandler Payload → Call Payload
  unlock e w = ok (e, record w { locked = false })

  unfoldable pub flush :
      (send : List Payload → Option String) → BatchWebhookHandler Payload → Call Payload
  flush send w = do
    held ← lock w
    if length held.buffer == 0
        then unlock none held
        else unlock (send held.buffer)
            (record held { buffer = []; sent = held.sent ++ (held.buffer ∷ []) })

  -- `addToBuffer`; the warning before a forced flush is left out.
  unfoldable pub add_to_buffer :
      BatchWebhookConfig
      → (send : List Payload → Option String) → Payload
      → BatchWebhookHandler Payload
      → Call Payload
  add_to_buffer config send payload w = do
    held ← lock w
    let added : BatchWebhookHandler Payload = record held { buffer = held.buffer ++ (payload ∷ []) }
    if leb config.batch_size (length added.buffer)
        then (do (e, flushed) ← flush send added; unlock e flushed)
        else if leb config.max_buffer_size (length added.buffer)
        then (do (e, flushed) ← flush send added; unlock e flushed)
        else unlock none added

  -- `SendReorgEvent`: the buffer is flushed before the event is sent, and an error stops it.
  unfoldable pub send_reorg_event :
      (send : List Payload → Option String)
      → (send_event : Option String) → BatchWebhookHandler Payload
      → Call Payload
  send_reorg_event send send_event w = do
    (e, flushed) ← flush send w
    elim e [ some m ↦ ok (some m, flushed) | none ↦ ok (send_event, flushed) ]

  -- One payload after the other, whatever the calls return.
  unfoldable pub add_all :
      BatchWebhookConfig
      → (send : List Payload → Option String) → List Payload
      → BatchWebhookHandler Payload
      → Outcome (BatchWebhookHandler Payload) (BatchWebhookHandler Payload)
  add_all config send [] w = ok w
  add_all config send (x ∷ xs) w = do
    (e, after) ← add_to_buffer config send x w
    add_all config send xs after
