-- ===== src/Consumer/Webhook/Blocking.antt =====
-- When the buffer of internal/consumer/webhook.go blocks its senders.
use smart_scanner.Common.{
  ℕ, suc, ◌+◌, ◌≤◌, ◌<◌, min, String, ◌≡◌, refl, ap, ◌∙◌, true, false, Option, none, List, [], ◌∷◌,
  ◌++◌, arith, ok, err, length, take, dec_le,
}
use smart_scanner.Consumer.Webhook.{
  BatchWebhookConfig, new_batch_webhook_handler, lock, unlock, flush, add_to_buffer, add_all,
}

length-snoc : {A : Type 0} (xs : List A) (x : A) → length (xs ++ (x ∷ [])) ≡ suc (length xs)
length-snoc [] x = refl
length-snoc (y ∷ ys) x = ap suc (length-snoc ys x)

snoc-++ : {A : Type 0} (xs ys : List A) (x : A) → (xs ++ (x ∷ [])) ++ ys ≡ xs ++ (x ∷ ys)
snoc-++ [] ys x = refl
snoc-++ (y ∷ xs) ys x = ap (λ l. y ∷ l) (snoc-++ xs ys x)

take-snoc :
    {A : Type 0} (xs ys : List A) (x : A) → take (suc (length xs)) (xs ++ (x ∷ ys)) ≡ xs ++ (x ∷ [])
take-snoc [] ys x = refl
take-snoc (y ∷ xs) ys x = ap (λ l. y ∷ l) (take-snoc xs ys x)

module _ {Payload : Type 0} (config : BatchWebhookConfig)
    (send : List Payload → Option String) where
  abbrev limit : ℕ
  limit = min config.batch_size config.max_buffer_size

  add_to_buffer-stores :
      (xs : List Payload) (sent : List (List Payload)) (x : Payload)
      → suc (length xs) < limit
      → add_to_buffer config send x (record { buffer = xs; locked = false; sent = sent })
        ≡ ok (none, record { buffer = xs ++ (x ∷ []); locked = false; sent = sent })
  unfolding add_to_buffer lock unlock flush
  add_to_buffer-stores xs sent x h = ground (arith, length-snoc xs x)

  add_to_buffer-fills :
      (xs : List Payload) (sent : List (List Payload)) (x : Payload)
      → limit ≤ suc (length xs)
      → add_to_buffer config send x (record { buffer = xs; locked = false; sent = sent })
        ≡ err (record { buffer = xs ++ (x ∷ []); locked = true; sent = sent })
  unfolding add_to_buffer lock unlock flush
  add_to_buffer-fills xs sent x h = ground (arith, length-snoc xs x)

  add_all-fills :
      (xs ys : List Payload) (sent : List (List Payload))
      → length xs < limit
      → limit ≤ length xs + length ys
      → add_all config send ys (record { buffer = xs; locked = false; sent = sent })
        ≡ err (record { buffer = take limit (xs ++ ys); locked = true; sent = sent })
  unfolding add_all
  add_all-fills xs [] sent h g = ground arith
  add_all-fills xs (y ∷ ys) sent h g = elim (dec_le limit (suc (length xs))) [
    | yes l ↦
        let full : limit ≡ suc (length xs) = omega arith in
        rw (add_to_buffer-fills xs sent y l, full, take-snoc xs ys y) refl
    | no l ↦ rw (add_to_buffer-stores xs sent y (omega arith)) (
        add_all-fills (xs ++ (y ∷ [])) ys sent (omega (arith, length-snoc xs y))
          (omega (arith, length-snoc xs y))
        ∙ rw (snoc-++ xs ys y) refl)
  ]

  -- Payloads are added one after the other, with no timed flush between them, to a new handler
  -- whose two sizes are positive. If they are at least as many as the smaller size, the sender of
  -- the payload that fills it blocks with the lock taken: the buffer holds the payloads up to that
  -- one, and no batch has been sent.
  pub add_all-blocks :
      (xs : List Payload)
      → 0 < min config.batch_size config.max_buffer_size
      → min config.batch_size config.max_buffer_size ≤ length xs
      → add_all config send xs new_batch_webhook_handler
        ≡ err (record {
          buffer = take (min config.batch_size config.max_buffer_size) xs;
          locked = true;
          sent = [];
        })
  unfolding new_batch_webhook_handler
  add_all-blocks xs h g = add_all-fills [] xs [] h (omega arith)
