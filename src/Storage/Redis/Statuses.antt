-- ===== src/Storage/Redis/Statuses.antt =====
-- What is read from the cache of internal/storage/redis.go after it was written.
use smart_scanner.Common.{
  ℕ, String, ◌≡◌, inl, inr, refl, sym, ap, ◌∙◌, false, ok, is_ok, Outcome-cases,
}
use mathlib.Core.Bool.{true≢false}
use smart_scanner.Types.{Block, Transaction, TransactionStatus, Watermark}
use smart_scanner.Storage.Database.Models.{Codec, ReadBack}
use smart_scanner.Storage.Database.Blocks.{failed}
use smart_scanner.Storage.Database.Rows.{failed-ok}
use smart_scanner.Storage.Redis.{
  day, Redis, RedisKey, transaction_key, save_value, read_value, save_transaction, get_transaction,
  update_transaction_status,
}

-- A key that was set is read back, within its time to live.
pub record RedisLaws (rd : Redis) : Type 0 where
  pub get_set :
      (k : RedisKey) (v : String) (ttl : ℕ) (s : rd.State)
      → (rd.set k v ttl s).0 ≡ ok tt
      → rd.get k (rd.set k v ttl s).1 ≡ ok v

module _ (rd : Redis) (laws : RedisLaws rd) (json : Codec Transaction) where
  -- A transaction that was saved under a key is read from it, where its JSON is read back.
  read_value-save_value :
      (a b c d e : String) (k : RedisKey) (tx : Transaction) (ttl : ℕ) (s : rd.State)
      → ReadBack json tx
      → (save_value rd json a b k tx ttl s).0 ≡ ok tt
      → read_value rd json c d e k (save_value rd json a b k tx ttl s).1 ≡ ok tx
  read_value-save_value a b c d e k tx ttl s back done = elim (Outcome-cases (json.marshal tx)) [
    | inl (text, m) ↦
        let w = rd.set k text ttl s in
        let step : save_value rd json a b k tx ttl s ≡ (failed b w.0, w.1) =
          rw (m, save_value) refl in
        let stored : w.0 ≡ ok tt = failed-ok b w.0 tt (sym (ap (λ x. x.0) step) ∙ done) in
        ap (λ x. read_value rd json c d e k x.1) step
        ∙ rw (laws.get_set k text ttl s stored, back text m) refl
    | inr (x, m) ↦
        let unsaved : is_ok (save_value rd json a b k tx ttl s).0 ≡ false =
          rw (m, save_value) refl in
        absurd (true≢false (sym (ap is_ok done) ∙ unsaved))
  ]

  module _ (block_json : Codec Block) (watermark_json : Codec Watermark) where
    pub get_transaction-saved :
        (tx : Transaction) (s : rd.State)
        → ReadBack json tx
        → (save_transaction rd block_json json watermark_json tx s).0 ≡ ok tt
        → get_transaction rd block_json json watermark_json tx.chain_id tx.hash
            (save_transaction rd block_json json watermark_json tx s).1
          ≡ ok tx
    unfolding save_transaction get_transaction
    get_transaction-saved tx s back done = read_value-save_value _ _ _ _ _ _ tx _ s back done

    -- A status that was updated in the cache is read back, and the rest of the transaction is as
    -- before, where the JSON of the updated transaction is read back.
    pub get_transaction-updated :
        (c h : String) (status : TransactionStatus) (s : rd.State) (t : Transaction)
        → ReadBack json (record t { status = status })
        → get_transaction rd block_json json watermark_json c h s ≡ ok t
        → (update_transaction_status rd block_json json watermark_json c h status s).0 ≡ ok tt
        → get_transaction rd block_json json watermark_json c h
            (update_transaction_status rd block_json json watermark_json c h status s).1
          ≡ ok (record t { status = status })
    unfolding update_transaction_status
    get_transaction-updated c h status s t back read done =
        let k = transaction_key c h in
        let step : update_transaction_status rd block_json json watermark_json c h status s
            ≡ save_value rd json "failed to marshal transaction: "
                "failed to update transaction in Redis: " k (record t { status = status }) day s =
          rw (read, update_transaction_status) refl in
        ap (λ x. get_transaction rd block_json json watermark_json c h x.1) step
        ∙ unfold get_transaction in
          read_value-save_value _ _ _ _ _ k (record t { status = status }) day s back
            (sym (ap (λ x. x.0) step) ∙ done)
