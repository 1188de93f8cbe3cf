-- ===== src/Lock.antt =====
-- pkg/lock/lock.go: the distributed lock over a Redis server, which is a parameter. A script runs on
-- the server as one step. A lock's key is its text; the functions that make the keys are left out.
pub mod Holding
pub mod Retries
mod Tests
use smart_scanner.Common.{
  ℕ, zero, suc, ◌/◌, ◌==◌, ltb, String, ◌≡◌, ◌≢◌, ◌⊎◌, Bool, true, false, Option, none, some,
  Outcome, ok, err, if◌then◌else◌, str_eq,
}
use smart_scanner.Common.Actions.{Action}

-- The commands that the package sends. `get`, `del` and `expire` are those that the scripts call.
pub record Server : Type 1 where
  pub State : Type 0
  pub set_nx : (key value : String) (ttl : ℕ) → Action State String Bool
  pub exists : String → State → Outcome String ℕ
  pub get : String → State → Option String
  pub del : String → State → ℕ × State
  pub expire : String → (seconds : ℕ) → State → ℕ × State
  pub eval : (State → ℕ × State) → Action State String ℕ

pub data LockError : Type 0 where
  lock_not_held lock_conflict context_done : LockError
  acquire_failed release_failed extend_failed check_failed : String → LockError

pub record RedisLock : Type 0 where
  pub key : String
  pub value : String
  pub ttl : ℕ
  pub locked : Bool

-- `value` is the text of the clock, in nanoseconds.
abbrev pub new_redis_lock : (key : String) (ttl : ℕ) (value : String) → RedisLock
new_redis_lock key ttl value = record { key = key; value = value; ttl = ttl; locked = false }

abbrev pub second : ℕ
second = 1000000000

module _ (server : Server) where
  abbrev pub Call : Type 0
  Call = Outcome LockError (Unit {0}) × RedisLock × server.State

  unfoldable pub lock : RedisLock → server.State → Call
  lock l s =
      let (r, s') = server.set_nx l.key l.value l.ttl s in
      elim r [
        | err e ↦ (err (acquire_failed e), l, s')
        | ok false ↦ (err lock_conflict, l, s')
        | ok true ↦ (ok tt, record l { locked = true }, s')
      ]

  -- The guard of both scripts.
  abbrev pub if_mine :
      RedisLock → (server.State → ℕ × server.State) → server.State → ℕ × server.State
  if_mine l command s = elim (server.get l.key s) [
    | none ↦ (0, s)
    | some v ↦ if str_eq v l.value then command s else (0, s)
  ]

  -- The answer of a script: 0 is a lock that is not held.
  abbrev pub answered :
      (String → LockError) → RedisLock → (kept : RedisLock) → Outcome String ℕ × server.State → Call
  answered failed l kept (err e, s) = (err (failed e), l, s)
  answered failed l kept (ok zero, s) = (err lock_not_held, l, s)
  answered failed l kept (ok (suc n), s) = (ok tt, kept, s)

  unfoldable pub unlock : RedisLock → server.State → Call
  unlock l s =
      if l.locked
      then answered release_failed l (record l { locked = false })
          (server.eval (if_mine l (server.del l.key)) s)
      else (err lock_not_held, l, s)

  unfoldable pub extend : RedisLock → (ttl : ℕ) → server.State → Call
  extend l ttl s =
      if l.locked
      then answered extend_failed l (record l { ttl = ttl })
          (server.eval (if_mine l (server.expire l.key (ttl / second))) s)
      else (err lock_not_held, l, s)

  unfoldable pub is_locked : RedisLock → server.State → Outcome LockError Bool
  is_locked l s = elim (server.exists l.key s) [
    | err e ↦ err (check_failed e)
    | ok n ↦ ok (ltb 0 n)
  ]

  -- The manager's tries: the i-th lock has the value `clock i`, `stopped i` says that the context is done
  -- before the next try, and others do `others i` to the server between two tries.
  module _ (clock : ℕ → String) (stopped : ℕ → Bool)
      (others : ℕ → server.State → server.State) where
    unfoldable pub try_lock :
        (key : String) (default_ttl : ℕ) → server.State → Outcome LockError RedisLock × server.State
    try_lock key ttl s =
        let (r, l, s') = lock (new_redis_lock key ttl (clock 0)) s in
        (elim r [ ok u ↦ ok l | err e ↦ err e ], s')

    -- From try `i` on with `left` tries to go. The result is a lock and an error, and both may be nil.
    unfoldable pub tries :
        (key : String) (default_ttl : ℕ) (left i : ℕ) (last : Option LockError)
        → server.State
        → (Option RedisLock × Option LockError) × server.State
    tries key ttl zero i last s = ((none, last), s)
    tries key ttl (suc left) i last s =
        let (r, l, s') = lock (new_redis_lock key ttl (clock i)) s in
        elim r [
          | ok u ↦ ((some l, none), s')
          | err e ↦
              let more = tries key ttl left (suc i) (some e) (others i s') in
              if stopped i then ((none, some context_done), s') else more
        ]

    unfoldable pub lock_with_retry :
        (key : String) (default_ttl max_retries : ℕ)
        → server.State
        → (Option RedisLock × Option LockError) × server.State
    lock_with_retry key ttl max_retries s = tries key ttl max_retries 0 none s
