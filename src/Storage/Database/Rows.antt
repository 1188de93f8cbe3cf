-- ===== src/Storage/Database/Rows.antt =====
-- Rows that a query keeps, and reads that succeed.
use smart_scanner.Common.{
  String, ◌≡◌, inl, inr, refl, ap, Bool, true, false, not, List, [], ◌∷◌, map, arith, Outcome, ok,
  err, Bool-cases,
}
use smart_scanner.Storage.Memory.{keep}
use smart_scanner.Storage.Database.Table.{QueryError, record_not_found, query_failed, assign_first}
use smart_scanner.Storage.Database.Blocks.{failed, queried, decoded, mapped}

-- The head of a list that is known twice.
pub same_head : {A : Type 0} {x y : A} {xs ys zs : List A} → zs ≡ x ∷ xs → zs ≡ y ∷ ys → x ≡ y
same_head p q = cc

pub not-true : {b : Bool} → not b ≡ true → b ≡ false
not-true {b} h = ground arith

pub failed-ok :
    {A : Type 0} (prefix : String) (r : Outcome String A) (a : A)
    → failed prefix r ≡ ok a
    → r ≡ ok a
failed-ok prefix (ok x) a h = h
failed-ok prefix (err e) a h = cc

-- A read that succeeds found a row and read its JSON.
pub decoded-ok :
    {Row A : Type 0} (missing prefix unread : String) (read : String → Outcome String A)
    (text_of : Row → String) (r : Outcome QueryError Row) (a : A)
    → decoded unread read (mapped text_of (queried missing prefix r)) ≡ ok a
    → (row : Row) × (r ≡ ok row) × (read (text_of row) ≡ ok a)
decoded-ok missing prefix unread read text_of (ok row) a h =
    (row, refl, failed-ok unread (read (text_of row)) a h)
decoded-ok missing prefix unread read text_of (err record_not_found) a h = cc
decoded-ok missing prefix unread read text_of (err (query_failed e)) a h = cc

module _ {Row : Type 0} (p : Row → Bool) where
  -- A change that the condition does not see.
  pub keep-map :
      (f : Row → Row)
      → ((r : Row) → p (f r) ≡ p r)
      → (rows : List Row) → keep p (map f rows) ≡ map f (keep p rows)
  keep-map f blind [] = refl
  keep-map f blind (r ∷ rows) = elim (Bool-cases (p r)) [
    | inl e ↦ rw (blind r, e) (ap (λ l. f r ∷ l) (keep-map f blind rows))
    | inr e ↦ rw (blind r, e) (keep-map f blind rows)
  ]

  pub keep-assign_first :
      (merged : Row → Row → Row) (row : Row)
      → p row ≡ true
      → (rows : List Row) → keep p rows ≡ []
      → keep p (assign_first merged p row rows) ≡ row ∷ []
  keep-assign_first merged row found [] none_yet = rw found refl
  keep-assign_first merged row found (r ∷ rows) none_yet = elim (Bool-cases (p r)) [
    | inl e ↦ ground arith
    | inr e ↦ rw (e, e) (keep-assign_first merged row found rows (ground arith))
  ]

  -- What is kept meets the condition.
  pub keep-head :
      (q : Row → Bool) (rows : List Row) (r : Row) (rest : List Row)
      → keep p (keep q rows) ≡ r ∷ rest
      → (q r ≡ true) × (p r ≡ true)
  keep-head q [] r rest h = cc
  keep-head q (x ∷ rows) r rest h = elim (Bool-cases (q x)) [
    | inl e ↦ elim (Bool-cases (p x)) [
      | inl f ↦ ground arith
      | inr f ↦ keep-head q rows r rest (ground arith)
    ]
    | inr e ↦ keep-head q rows r rest (ground arith)
  ]

  -- A condition that implies another one.
  pub keep-implied :
      (q : Row → Bool)
      → ((r : Row) → p r ≡ true → q r ≡ true)
      → (rows : List Row) → keep p (keep q rows) ≡ keep p rows
  keep-implied q implied [] = refl
  keep-implied q implied (r ∷ rows) = elim (Bool-cases (p r)) [
    | inl e ↦ rw (implied r e, e) (ap (λ l. r ∷ l) (keep-implied q implied rows))
    | inr e ↦ elim (Bool-cases (q r)) [
      | inl f ↦ rw (f, e) (keep-implied q implied rows)
      | inr f ↦ rw (f, e) (keep-implied q implied rows)
    ]
  ]
