-- ===== src/Lock/Holding.antt =====
-- Who holds a lock of pkg/lock/lock.go, and how it is lost.
use smart_scanner.Common.{
  ℕ, zero, suc, ◌/◌, ◌<◌, String, ◌≡◌, ◌≢◌, ◌⊎◌, inl, inr, refl, sym, ap, ◌∙◌, Bool, true, false,
  none, some, Outcome, ok, err, if◌then◌else◌, str_eq, str_eq_refl, str_eq_iff, arith, is_ok,
  Outcome-cases, Option-cases, Bool-cases,
}
use mathlib.Core.Bool.{true≢false}
use mathlib.Core.Path.{subst}
use smart_scanner.Lock.{
  Server, RedisLock, LockError, lock_not_held, release_failed, extend_failed, Call, if_mine,
  answered, lock, unlock, extend, second,
}

-- What the package relies on. A key is set where it has none; a script that answers has run, and one
-- that fails has run or not; a key that expires after 0 seconds is deleted.
pub record ServerLaws (server : Server) : Type 0 where
  pub was_free :
      (k v : String) (ttl : ℕ) (s : server.State)
      → (server.set_nx k v ttl s).0 ≡ ok true
      → server.get k s ≡ none
  pub set :
      (k v : String) (ttl : ℕ) (s : server.State)
      → (server.set_nx k v ttl s).0 ≡ ok true
      → server.get k (server.set_nx k v ttl s).1 ≡ some v
  pub ran :
      (p : server.State → ℕ × server.State) (s : server.State) (n : ℕ)
      → (server.eval p s).0 ≡ ok n
      → ((p s).0 ≡ n) × ((server.eval p s).1 ≡ (p s).1)
  pub atomic :
      (p : server.State → ℕ × server.State) (s : server.State)
      → ((server.eval p s).1 ≡ s) ⊎ ((server.eval p s).1 ≡ (p s).1)
  pub expired : (k : String) (s : server.State) → server.get k (server.expire k 0 s).1 ≡ none

if_true : {A : Type 0} (b : Bool) (x y : A) → b ≡ true → (if b then x else y) ≡ x
if_true true x y e = refl
if_true false x y e = absurd (true≢false (sym e))

if_false : {A : Type 0} (b : Bool) (x y : A) → b ≡ false → (if b then x else y) ≡ y
if_false true x y e = absurd (true≢false e)
if_false false x y e = refl

module _ (server : Server) (failed : String → LockError) (l kept : RedisLock) where
  answered-state : (o : Outcome String ℕ × server.State) → (answered server failed l kept o).2 ≡ o.1
  answered-state (err e, s) = refl
  answered-state (ok zero, s) = refl
  answered-state (ok (suc n), s) = refl

  answered-refused :
      (o : Outcome String ℕ × server.State)
      → ((n : ℕ) → o.0 ≡ ok n → n ≡ 0)
      → (e : LockError) × ((answered server failed l kept o).0 ≡ err e)
  answered-refused (err e, s) none_left = (failed e, refl)
  answered-refused (ok zero, s) none_left = (lock_not_held, refl)
  answered-refused (ok (suc n), s) none_left =
      let z = none_left (suc n) refl in absurd (ground arith)

  answered-ok :
      (o : Outcome String ℕ × server.State)
      → (answered server failed l kept o).0 ≡ ok tt
      → ((answered server failed l kept o).1 ≡ kept) × ((n : ℕ) × (o.0 ≡ ok n))
  answered-ok (err e, s) bad = absurd (true≢false (sym (ap is_ok bad)))
  answered-ok (ok zero, s) bad = absurd (true≢false (sym (ap is_ok bad)))
  answered-ok (ok (suc n), s) done = (refl, (suc n, refl))

module _ (server : Server) (laws : ServerLaws server) where
  -- A lock that was taken was free, and its value is stored then.
  pub lock-Held :
      (l : RedisLock) (s : server.State)
      → (lock server l s).0 ≡ ok tt
      → (server.get l.key s ≡ none)
        × ((lock server l s).1 ≡ record l { locked = true })
        × (server.get l.key (lock server l s).2 ≡ some l.value)
  unfolding lock
  lock-Held l s = elim (Outcome-cases (server.set_nx l.key l.value l.ttl s).0) [
    | inr (e, p) ↦ rw (lock, p) (λ bad. absurd (true≢false (sym (ap is_ok bad))))
    | inl (false, p) ↦ rw (lock, p) (λ bad. absurd (true≢false (sym (ap is_ok bad))))
    | inl (true, p) ↦
        rw (lock, p)
          (λ done. (laws.was_free l.key l.value l.ttl s p, refl, laws.set l.key l.value l.ttl s p))
  ]

  not_mine :
      (l : RedisLock) (command : server.State → ℕ × server.State) (s : server.State)
      → server.get l.key s ≢ some l.value
      → if_mine server l command s ≡ (0, s)
  not_mine l command s other = elim (Option-cases (server.get l.key s)) [
    | inl free ↦ rw (free, if_mine) refl
    | inr (v, held) ↦
        let differs : str_eq v l.value ≡ false = elim (Bool-cases (str_eq v l.value)) [
          | inl same ↦ absurd (other (held ∙ ap some ((str_eq_iff v l.value).0 same)))
          | inr differs ↦ differs
        ] in
        rw (held, if_mine, differs) refl
  ]

  -- Where the server meets its laws, a holder whose key holds another value, or none, releases
  -- nothing: Unlock fails and the server stays as it was.
  pub unlock-keeps :
      (l : RedisLock) (s : server.State)
      → server.get l.key s ≢ some l.value
      → ((unlock server l s).2 ≡ s) × ((e : LockError) × ((unlock server l s).0 ≡ err e))
  unfolding unlock
  unlock-keeps l s other =
      let script = if_mine server l (server.del l.key) in
      let nothing : script s ≡ (0, s) = not_mine l (server.del l.key) s other in
      let kept = record l { locked = false } in
      elim (Bool-cases l.locked) [
        | inr off ↦
            let run : unlock server l s ≡ (err lock_not_held, l, s) = if_false l.locked _ _ off in
            (ap (λ x. x.2) run, (lock_not_held, ap (λ x. x.0) run))
        | inl on ↦
            subst (λ (c : Call server). (c.2 ≡ s) × ((e : LockError) × (c.0 ≡ err e)))
              (sym (if_true l.locked _ _ on))
              (
                answered-state server release_failed l kept (server.eval script s)
                    ∙ elim (laws.atomic script s) [
                      | inl same ↦ same
                      | inr ran ↦ ran ∙ ap (λ x. x.1) nothing
                    ],
                answered-refused server release_failed l kept (server.eval script s)
                    (λ n p. sym ((laws.ran script s n p).0) ∙ ap (λ x. x.0) nothing),
              )
      ]

  -- A lock that is held is lost by an extension to less than a second: where Extend succeeds, the lock is
  -- marked as locked, and its key is free.
  pub extend-drops :
      (l : RedisLock) (ttl : ℕ) (s : server.State)
      → l.locked ≡ true
      → server.get l.key s ≡ some l.value
      → ttl < second
      → (extend server l ttl s).0 ≡ ok tt
      → ((extend server l ttl s).1.locked ≡ true)
        × (server.get l.key (extend server l ttl s).2 ≡ none)
  unfolding extend
  extend-drops l ttl s locked held short =
      let expire = server.expire l.key (ttl / second) in
      let script = if_mine server l expire in
      let kept = record l { ttl = ttl } in
      let answer = server.eval script s in
      let no_seconds : ttl / second ≡ 0 = omega arith in
      let mine : script s ≡ expire s = rw (held, if_mine, str_eq_refl l.value) refl in
      let run : extend server l ttl s ≡ answered server extend_failed l kept answer =
        if_true l.locked _ _ locked in
      subst (λ (c : Call server). c.0 ≡ ok tt → (c.1.locked ≡ true) × (server.get l.key c.2 ≡ none))
        (sym run)
        (λ done.
          let (marked, found) = answered-ok server extend_failed l kept answer done in
          let (n, p) = found in
          (
            ap (λ x. x.locked) marked ∙ locked,
            ap (server.get l.key) (
                  answered-state server extend_failed l kept answer
                  ∙ (laws.ran script s n p).1
                  ∙ ap (λ x. x.1) mine)
                ∙ rw no_seconds (laws.expired l.key s),
          ))
