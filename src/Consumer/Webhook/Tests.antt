-- ===== src/Consumer/Webhook/Tests.antt =====
-- Concrete runs of the buffer of internal/consumer/webhook.go.
use smart_scanner.Common.{
  ℕ, zero, suc, String, ◌≡◌, refl, true, false, Option, none, some, List, [], ◌∷◌, arith, ok, err,
}
use smart_scanner.Consumer.Webhook.{
  BatchWebhookConfig, new_batch_webhook_handler, lock, unlock, flush, send_reorg_event, add_all,
}
use smart_scanner.Consumer.Webhook.Http.{
  Attempt, answered, WebhookStatistics, send_with_retry, send_loop, send_request, record_success,
  record_failure,
}
use smart_scanner.Consumer.Webhook.Blocking.{add_all-blocks}

abbrev config : BatchWebhookConfig
config = record { batch_size = 2; max_buffer_size = 10 }

abbrev accepted : List String → Option String
accepted batch = none

abbrev events : List String
events = "deposit" ∷ "withdrawal" ∷ "transfer" ∷ []

flush-sends :
    flush accepted (record { buffer = events; locked = false; sent = [] })
    ≡ ok (none, record { buffer = []; locked = false; sent = events ∷ [] })
unfolding flush lock unlock
flush-sends = refl

send_reorg_event-stops :
    send_reorg_event
      (λ batch. some "timeout")
      none
      (record { buffer = events; locked = false; sent = [] })
    ≡ ok (some "timeout", record { buffer = []; locked = false; sent = events ∷ [] })
unfolding send_reorg_event flush lock unlock
send_reorg_event-stops = refl

add_all-blocks_example :
    add_all config accepted events new_batch_webhook_handler
    ≡ err (record { buffer = "deposit" ∷ "withdrawal" ∷ []; locked = true; sent = [] })
add_all-blocks_example = add_all-blocks config accepted events (omega arith) (omega arith)

-- The first request fails on the server, and the second one is accepted.
abbrev attempts : ℕ → Attempt
attempts zero = record { reply = answered 503 "busy"; latency = 40; now = 7 }
attempts (suc i) = record { reply = answered 200 ""; latency = 20; now = 8 }

abbrev fresh : WebhookStatistics
fresh = record {
  total_sent = 0;
  success_count = 0;
  failure_count = 0;
  last_success_time = 0;
  last_failure_time = 0;
  average_latency = 0;
}

retries : send_with_retry 3 attempts (λ i. false) fresh ≡ (
  ok tt,
  record {
    total_sent = 2;
    success_count = 1;
    failure_count = 1;
    last_success_time = 8;
    last_failure_time = 7;
    average_latency = 20;
  },
)
unfolding send_with_retry send_loop send_request record_success record_failure
retries = refl
