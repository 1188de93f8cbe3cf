-- ===== src/Lock/Retries.antt =====
-- What LockWithRetry of pkg/lock/lock.go returns.
use smart_scanner.Common.{
  ℕ, zero, suc, ◌<◌, String, ◌≡◌, ◌⊎◌, inl, inr, refl, sym, ap, ◌∙◌, Bool, true, Option, none, some,
  arith, Outcome-cases, Bool-cases,
}
use smart_scanner.Lock.{
  Server, RedisLock, LockError, lock, new_redis_lock, tries, lock_with_retry, context_done,
}
use smart_scanner.Lock.Holding.{ServerLaws, lock-Held}

module _ (server : Server) (laws : ServerLaws server) (clock : ℕ → String) (stopped : ℕ → Bool)
    (others : ℕ → server.State → server.State) (key : String) (ttl : ℕ) where
  abbrev pub Result : Type 0
  Result = (Option RedisLock × Option LockError) × server.State

  -- No lock and an error, or no error and a lock whose value the key holds.
  abbrev pub HeldOrFailed : Result → Type 0
  HeldOrFailed r =
      ((e : LockError) × (r.0 ≡ (none, some e)))
      ⊎ ((l : RedisLock) × (r.0 ≡ (some l, none))
          × (l.key ≡ key)
          × (l.locked ≡ true)
          × (server.get key r.1 ≡ some l.value))

  -- One try, where the tries after it end well.
  try-HeldOrFailed :
      (left i : ℕ) (last : Option LockError) (s : server.State)
      → ((e : LockError) (s' : server.State)
          → HeldOrFailed (tries server clock stopped others key ttl left (suc i) (some e) s'))
      → HeldOrFailed (tries server clock stopped others key ttl (suc left) i last s)
  unfolding tries
  try-HeldOrFailed left i last s later =
      let l = new_redis_lock key ttl (clock i) in
      let call = lock server l s in
      elim (Outcome-cases call.0) [
        | inl (u, p) ↦
            let (free, marked, stored) = lock-Held server laws l s p in
            rw (tries, p)
              (inr (
                call.1,
                refl,
                ap (λ x. x.key) marked,
                ap (λ x. x.locked) marked,
                stored ∙ ap some (sym (ap (λ x. x.value) marked)),
              ))
        | inr (e, p) ↦ elim (Bool-cases (stopped i)) [
          | inl done ↦ rw (tries, p, done) (inl (context_done, refl))
          | inr live ↦ rw (tries, p, live) (later e (others i call.2))
        ]
      ]

  tries-HeldOrFailed :
      (left i : ℕ) (last : Option LockError) (s : server.State)
      → HeldOrFailed (tries server clock stopped others key ttl (suc left) i last s)
  unfolding tries
  tries-HeldOrFailed zero i last s = try-HeldOrFailed zero i last s (λ e s'. inl (e, refl))
  tries-HeldOrFailed (suc left) i last s =
      try-HeldOrFailed (suc left) i last s (λ e s'. tries-HeldOrFailed left (suc i) (some e) s')

  -- Where the server meets its laws, with at least one try, LockWithRetry returns an error alone,
  -- or a lock alone, which is held: its value is stored.
  pub lock_with_retry-HeldOrFailed :
      (max_retries : ℕ) (s : server.State)
      → 0 < max_retries
      → HeldOrFailed (lock_with_retry server clock stopped others key ttl max_retries s)
  unfolding lock_with_retry
  lock_with_retry-HeldOrFailed zero s some_try = absurd (ground arith)
  lock_with_retry-HeldOrFailed (suc left) s some_try = tries-HeldOrFailed left 0 none s
