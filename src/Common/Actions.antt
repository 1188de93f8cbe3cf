-- ===== src/Common/Actions.antt =====
-- Methods that read and write an outer state and may fail: the state survives an error.
use smart_scanner.Common.Errors.{Outcome, ok, err, is_ok, Outcome-cases}
use mathlib.Core.Bool.{true≢false}
use mathlib.Core.Path.{◌≡◌, ◌∙◌, refl, sym, ap}
use mathlib.Core.Logic.{inl, inr}

abbrev pub Action : Type 0 → Type 0 → Type 0 → Type 0
Action S E A = S → Outcome E A × S

infixl 5 ◌>>=◌ ◌>>◌
abbrev pub ◌>>=◌ : {S E A B : Type 0} → Action S E A → (A → Action S E B) → Action S E B
◌>>=◌ m f s = let (r, s') = m s in elim r [ ok a ↦ f a s' | err e ↦ (err e, s') ]

abbrev pub ◌>>◌ : {S E B : Type 0} → Action S E (Unit {0}) → Action S E B → Action S E B
◌>>◌ m k s = let (r, s') = m s in elim r [ ok a ↦ k s' | err e ↦ (err e, s') ]

abbrev pub pure : {S E A : Type 0} → A → Action S E A
pure a s = (ok a, s)

-- A computation that leaves the state alone.
abbrev pub lift : {S E A : Type 0} → Outcome E A → Action S E A
lift r s = (r, s)

-- A read of the state, its error wrapped.
abbrev pub reading : {S E F A : Type 0} → (F → E) → (S → Outcome F A) → Action S E A
reading f read s = elim (read s) [ ok a ↦ (ok a, s) | err e ↦ (err (f e), s) ]

-- A write to the state, its error wrapped.
abbrev pub writing : {S E F A : Type 0} → (F → E) → Action S F A → Action S E A
writing f write s = let (r, s') = write s in elim r [ ok a ↦ (ok a, s') | err e ↦ (err (f e), s') ]

-- What `f` sees of the state is kept by the action.
abbrev pub Keeps : {S E A X : Type 0} → (S → X) → Action S E A → Type 0
Keeps f m = (s : _) → f (m s).1 ≡ f s

pub seq-Keeps :
    {S E B X : Type 0} (f : S → X) (m : Action S E (Unit {0})) (k : Action S E B)
    → Keeps f m
    → Keeps f k
    → Keeps f (m >> k)
seq-Keeps f m k m_keeps k_keeps s = elim (Outcome-cases (m s).0) [
  | inl (a, e) ↦ rw (e, ◌>>◌) (k_keeps (m s).1 ∙ m_keeps s)
  | inr (e, failed) ↦ rw (failed, ◌>>◌) (m_keeps s)
]

pub writing-Keeps :
    {S E F A X : Type 0} (f : S → X) (wrapped : F → E) (write : Action S F A)
    → Keeps f write
    → Keeps f (writing wrapped write)
writing-Keeps f wrapped write keeps s = elim (Outcome-cases (write s).0) [
  | inl (a, e) ↦ rw (e, writing) (keeps s)
  | inr (e, failed) ↦ rw (failed, writing) (keeps s)
]

-- A sequence that succeeds is two successes.
pub seq-ok :
    {S E B : Type 0} (m : Action S E (Unit {0})) (k : Action S E B) (s : S) (b : B)
    → ((m >> k) s).0 ≡ ok b
    → ((m s).0 ≡ ok tt) × ((k (m s).1).0 ≡ ok b) × (((m >> k) s).1 ≡ (k (m s).1).1)
seq-ok m k s b = elim (Outcome-cases (m s).0) [
  | inl (a, e) ↦ rw (e, ◌>>◌) (λ done. (refl, done, refl))
  | inr (e, failed) ↦ rw (failed, ◌>>◌) (λ bad. absurd (true≢false (sym (ap is_ok bad))))
]

pub writing-ok :
    {S E F : Type 0} (wrapped : F → E) (write : Action S F (Unit {0})) (s : S)
    → (writing wrapped write s).0 ≡ ok tt
    → ((write s).0 ≡ ok tt) × ((writing wrapped write s).1 ≡ (write s).1)
writing-ok wrapped write s = elim (Outcome-cases (write s).0) [
  | inl (a, e) ↦ rw (e, writing) (λ done. (refl, refl))
  | inr (e, failed) ↦ rw (failed, writing) (λ bad. absurd (true≢false (sym (ap is_ok bad))))
]

pub writing-state :
    {S E F A : Type 0} (wrapped : F → E) (write : Action S F A) (s : S)
    → (writing wrapped write s).1 ≡ (write s).1
writing-state wrapped write s = elim (Outcome-cases (write s).0) [
  | inl (a, e) ↦ rw (e, writing) refl
  | inr (e, failed) ↦ rw (failed, writing) refl
]

-- A sequence of writes that agree, up to a wrapped error.
pub seq-writing :
    {S E F : Type 0} (f : F → E) (m : Action S F (Unit {0})) (k : Action S F (Unit {0}))
    (n : Action S E (Unit {0})) (l : Action S E (Unit {0})) (s : S)
    → n s ≡ writing f m s
    → ((t : S) → l t ≡ writing f k t)
    → (n >> l) s ≡ writing f (m >> k) s
seq-writing f m k n l s first then = elim (Outcome-cases (m s).0) [
  | inl (a, e) ↦
      let done : n s ≡ (ok a, (m s).1) = first ∙ rw (e, writing) refl in
      let done_ok : (n s).0 ≡ ok a = ap (λ x. x.0) done in
      let wrapped : (n >> l) s ≡ l (n s).1 = rw (done_ok, ◌>>◌) refl in
      let plain : (m >> k) s ≡ k (m s).1 = rw (e, ◌>>◌) refl in
      wrapped ∙ ap (λ x. l x.1) done ∙ then (m s).1 ∙ sym (ap (λ x. writing f (λ _. x) s) plain)
  | inr (e, failed) ↦
      let done : n s ≡ (err (f e), (m s).1) = first ∙ rw (failed, writing) refl in
      let done_err : (n s).0 ≡ err (f e) = ap (λ x. x.0) done in
      let wrapped : (n >> l) s ≡ (err (f e), (n s).1) = rw (done_err, ◌>>◌) refl in
      let plain : (m >> k) s ≡ (err e, (m s).1) = rw (failed, ◌>>◌) refl in
      wrapped ∙ ap (λ x. (err (f e), x.1)) done ∙ sym (ap (λ x. writing f (λ _. x) s) plain)
]
