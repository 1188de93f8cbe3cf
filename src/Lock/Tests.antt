-- ===== src/Lock/Tests.antt =====
-- A server that holds a map as a list, which meets the assumptions about it, and runs on it.
use smart_scanner.Common.{
  sym, ℕ, zero, suc, String, ◌≡◌, inl, inr, refl, Bool, true, false, Option, none, some, List, [],
  ◌∷◌, ok, if◌then◌else◌, str_eq, str_eq_refl, arith, Bool-cases,
}
use mathlib.Core.Bool.{true≢false}
use smart_scanner.Lock.{Server, RedisLock, lock, extend, tries, lock_with_retry}
use smart_scanner.Lock.Holding.{ServerLaws}
use smart_scanner.Lock.Retries.{HeldOrFailed, lock_with_retry-HeldOrFailed}

abbrev look_up : String → List (String × String) → Option String
look_up k [] = none
look_up k ((l, v) ∷ s) = let rest = look_up k s in if str_eq k l then some v else rest

abbrev without : String → List (String × String) → List (String × String)
without k [] = []
without k ((l, v) ∷ s) = let rest = without k s in if str_eq k l then rest else (l, v) ∷ rest

abbrev is_18 : Option String → Bool
is_18 none = false
is_18 (some v) = str_eq v "18"

abbrev is_none : Option String → Bool
is_none none = true
is_none (some v) = false

-- Time does not pass, so a key expires only at once.
abbrev entries : Server
entries = record {
  State = List (String × String);
  set_nx = λ k v ttl s. if is_none (look_up k s) then (ok true, (k, v) ∷ s) else (ok false, s);
  exists = λ k s. ok (if is_none (look_up k s) then 0 else 1);
  get = look_up;
  del = λ k s. (1, without k s);
  expire = λ k seconds s. elim seconds [ zero ↦ (1, without k s) | suc n ↦ (1, s) ];
  eval = λ p s. let (n, s') = p s in (ok n, s');
}

look_up-without : (k : String) (s : List (String × String)) → look_up k (without k s) ≡ none
look_up-without k [] = refl
look_up-without k ((l, v) ∷ s) =
    let h = look_up-without k s in
    elim (Bool-cases (str_eq k l)) [ inl same ↦ rw same h | inr other ↦ rw (other, other) h ]

free : (o : Option String) → is_none o ≡ true → o ≡ none
free none e = refl
free (some v) e = absurd (true≢false (sym e))

entries-ServerLaws : ServerLaws entries
entries-ServerLaws = record {
  was_free = λ k v ttl s. elim (Bool-cases (is_none (look_up k s))) [
    | inl e ↦ λ done. free (look_up k s) e
    | inr e ↦ rw e (λ bad. cc)
  ];
  set = λ k v ttl s. elim (Bool-cases (is_none (look_up k s))) [
    | inl e ↦ rw e (λ done. rw (str_eq_refl k) refl)
    | inr e ↦ rw e (λ bad. cc)
  ];
  ran = λ p s n done. (cc, refl);
  atomic = λ p s. inr refl;
  expired = λ k s. look_up-without k s;
}

abbrev mine : RedisLock
mine = record { key = "lock:chain:1"; value = "17"; ttl = 30000000000; locked = true }

abbrev others_hold : List (String × String)
others_hold = ("lock:chain:1", "18") ∷ []

abbrev held : List (String × String)
held = ("lock:chain:1", "17") ∷ []

extends : (extend entries mine 500000000 held).0 ≡ ok tt
unfolding extend
extends = refl

abbrev clock : ℕ → String
clock zero = "20"
clock (suc i) = "21"

-- The other holder releases its lock between the first try and the second.
retries :
    (lock_with_retry entries clock
      (λ i. false)
      (λ i s. [])
      "lock:chain:1"
      30000000000
      3
      others_hold).0
    ≡ (some (record mine { value = "21" }), none)
unfolding lock_with_retry tries lock
retries = refl

no_tries :
    (lock_with_retry entries clock
      (λ i. false)
      (λ i s. [])
      "lock:chain:1"
      30000000000
      0
      others_hold).0
    ≡ (none, none)
unfolding lock_with_retry tries
no_tries = refl

lock_with_retry-HeldOrFailed_example :
    HeldOrFailed entries entries-ServerLaws clock
      (λ i. false)
      (λ i s. [])
      "lock:chain:1"
      30000000000
      (lock_with_retry entries clock
        (λ i. false)
        (λ i s. [])
        "lock:chain:1"
        30000000000
        3
        others_hold)
lock_with_retry-HeldOrFailed_example =
    lock_with_retry-HeldOrFailed entries entries-ServerLaws clock (λ i. false) (λ i s. [])
      "lock:chain:1" 30000000000 3 others_hold (ground arith)
