-- ===== src/Consumer/Webhook/Http.antt =====
-- internal/consumer/webhook.go: the HTTP handler, its retries and its statistics. What becomes of a
-- request is an argument. Counts and latencies stay below 2^63.
use smart_scanner.Common.{
  ℕ, zero, suc, ◌+◌, ◌-◌, ◌*◌, ◌/◌, ◌≤◌, String, ◌≡◌, ap, inl, inr, Bool, ◌&&◌, ◌||◌, Option, none,
  some, Outcome, ok, err, is_ok, if◌then◌else◌, ltb, leb, arith, Outcome-cases, Bool-cases,
}
use smart_scanner.Common.Actions.{Action}

pub record WebhookStatistics : Type 0 where
  pub total_sent : ℕ
  pub success_count : ℕ
  pub failure_count : ℕ
  pub last_success_time : ℕ
  pub last_failure_time : ℕ
  pub average_latency : ℕ

-- What becomes of one request: the payload or the request cannot be made, the client fails, the body
-- cannot be read, or there is an answer.
pub data Reply : Type 0 where
  not_made client_failed unread : String → Reply
  answered : (status_code : ℕ) (body : String) → Reply

pub record Attempt : Type 0 where
  pub reply : Reply
  pub latency : ℕ
  pub now : ℕ

pub data RequestError : Type 0 where
  marshal_failed send_failed read_failed : String → RequestError
  error_status : (status_code : ℕ) (body : String) → RequestError

pub data WebhookError : Type 0 where
  context_done : WebhookError
  exhausted : (attempts : ℕ) (last : Option RequestError) → WebhookError

unfoldable pub record_success : (latency now : ℕ) → WebhookStatistics → WebhookStatistics
record_success latency now s =
    let n = s.success_count + 1 in
    let total_latency = s.average_latency * (n - 1) in
    record s {
      total_sent = s.total_sent + 1;
      success_count = n;
      last_success_time = now;
      average_latency = (total_latency + latency) / n;
    }

unfoldable pub record_failure : (now : ℕ) → WebhookStatistics → WebhookStatistics
record_failure now s = record s {
  total_sent = s.total_sent + 1;
  failure_count = s.failure_count + 1;
  last_failure_time = now;
}

unfoldable pub send_request : Attempt → Action WebhookStatistics RequestError (Unit {0})
send_request a s =
    let failed = record_failure a.now s in
    elim a.reply [
      | not_made e ↦ (err (marshal_failed e), s)
      | client_failed e ↦ (err (send_failed e), failed)
      | unread e ↦ (err (read_failed e), failed)
      | answered status body ↦
          if ltb status 200 || leb 300 status
          then (err (error_status status body), failed)
          else (ok tt, record_success a.latency a.now s)
    ]

abbrev one_if : Bool → ℕ
one_if b = if b then 1 else 0

-- The requests of one event: `more` of them failed and were counted.
pub record Counted {E : Type 0} (s : WebhookStatistics)
    (r : Outcome E (Unit {0}) × WebhookStatistics) (most : ℕ) : Type 0 where
  pub more : ℕ
  pub at_most : more + one_if (is_ok r.0) ≤ most
  pub successes : r.1.success_count ≡ s.success_count + one_if (is_ok r.0)
  pub failures : r.1.failure_count ≡ s.failure_count + more
  pub total : r.1.total_sent ≡ s.total_sent + more + one_if (is_ok r.0)

not_sent : (s : WebhookStatistics) (e : RequestError) → Counted s (err e, s) 1
not_sent s e = record {
  more = 0;
  at_most = ground arith;
  successes = ground arith;
  failures = ground arith;
  total = ground arith;
}

one_failed :
    (now : ℕ) (s : WebhookStatistics) (e : RequestError) → Counted s (err e, record_failure now s) 1
unfolding record_failure
one_failed now s e = record {
  more = 1;
  at_most = ground arith;
  successes = ground arith;
  failures = ground arith;
  total = ground arith;
}

one_sent :
    (latency now : ℕ) (s : WebhookStatistics)
    → Counted {E = RequestError} s (ok tt, record_success latency now s) 1
unfolding record_success
one_sent latency now s = record {
  more = 0;
  at_most = ground arith;
  successes = ground arith;
  failures = ground arith;
  total = ground arith;
}

send_request-Counted : (a : Attempt) (s : WebhookStatistics) → Counted s (send_request a s) 1
unfolding send_request record_success record_failure
send_request-Counted a s =
    elim a.reply as (λ r. Counted s (send_request (record a { reply = r }) s) 1) [
      | not_made e ↦ not_sent s (marshal_failed e)
      | client_failed e ↦ one_failed a.now s (send_failed e)
      | unread e ↦ one_failed a.now s (read_failed e)
      | answered status body ↦ elim (Bool-cases (ltb status 200 || leb 300 status)) [
        | inl bad ↦ rw bad (one_failed a.now s (error_status status body))
        | inr good ↦ rw good (one_sent a.latency a.now s)
      ]
    ]

module _ (retry_count : ℕ) (attempts : ℕ → Attempt) (stopped : ℕ → Bool) where
  -- The loop from attempt `i` on with `left` to go; `stopped i` says that the context is done before it.
  unfoldable pub send_loop :
      (left i : ℕ) (last : Option RequestError) → Action WebhookStatistics WebhookError (Unit {0})
  send_loop zero i last s = (err (exhausted (retry_count + 1) last), s)
  send_loop (suc left) i last s =
      let (r, s') = send_request (attempts i) s in
      if ltb 0 i && stopped i
      then (err context_done, s)
      else elim r [ ok u ↦ (ok tt, s') | err e ↦ send_loop left (suc i) (some e) s' ]

  unfoldable pub send_with_retry : Action WebhookStatistics WebhookError (Unit {0})
  send_with_retry = send_loop (retry_count + 1) 0 none

  send_loop-Counted :
      (left i : ℕ) (last : Option RequestError) (s : WebhookStatistics)
      → Counted s (send_loop left i last s) left
  unfolding send_loop
  send_loop-Counted zero i last s = record {
    more = 0;
    at_most = ground arith;
    successes = ground arith;
    failures = ground arith;
    total = ground arith;
  }
  send_loop-Counted (suc left) i last s =
      let once = send_request-Counted (attempts i) s in
      elim (Bool-cases (ltb 0 i && stopped i)) [
        | inl done ↦
            rw (done, send_loop)
              (record {
                more = 0;
                at_most = ground arith;
                successes = ground arith;
                failures = ground arith;
                total = ground arith;
              })
        | inr live ↦ elim (Outcome-cases (send_request (attempts i) s).0) [
          | inl (u, e) ↦
              rw (live, send_loop, e)
                (record {
                  more = once.more;
                  at_most = let h = once.at_most in let k = ap is_ok e in ground arith;
                  successes = let h = once.successes in let k = ap is_ok e in ground arith;
                  failures = let h = once.failures in ground arith;
                  total = let h = once.total in let k = ap is_ok e in ground arith;
                })
          | inr (x, e) ↦
              let rest = send_loop-Counted left (suc i) (some x) (send_request (attempts i) s).1 in
              rw (live, send_loop, e)
                (record {
                  more = once.more + rest.more;
                  at_most =
                      let h = once.at_most in
                      let g = rest.at_most in let k = ap is_ok e in ground arith;
                  successes =
                      let h = once.successes in
                      let g = rest.successes in let k = ap is_ok e in ground arith;
                  failures = let h = once.failures in let g = rest.failures in ground arith;
                  total =
                      let h = once.total in
                      let g = rest.total in let k = ap is_ok e in ground arith;
                })
        ]
      ]

  -- An event that is sent counts one success exactly if the call succeeds; the other requests count as
  -- failures, all of them as sent, and there are RetryCount + 1 requests at most.
  pub send_with_retry-Counted :
      (s : WebhookStatistics) → Counted s (send_with_retry s) (retry_count + 1)
  unfolding send_with_retry
  send_with_retry-Counted s = send_loop-Counted (retry_count + 1) 0 none s
