-- ===== src/Storage/Database/Table.antt =====
-- A database table behind gorm: what internal/storage/database.go calls, and what it relies on. The
-- database is no code of the repository, so a table is a parameter.
use smart_scanner.Common.{
  ℕ, String, ◌≡◌, Bool, not, Option, List, [], ◌∷◌, map, Outcome, ok, err, if◌then◌else◌,
}
use smart_scanner.Common.Actions.{Action}
use smart_scanner.Storage.Memory.{keep}

-- `gorm.ErrRecordNotFound`, and any other error.
pub data QueryError : Type 0 where
  record_not_found : QueryError
  query_failed : String → QueryError

-- An order by columns, first the most significant one.
pub data Direction : Type 0 where
  asc desc : Direction

pub record Query (Row : Type 0) : Type 0 where
  pub condition : Row → Bool
  pub order : List ((Row → ℕ) × Direction)
  pub limit : Option ℕ
  pub offset : Option ℕ

pub record Table (Row : Type 0) : Type 1 where
  pub State : Type 0
  -- `First`: the first row of the order, else of the primary key.
  pub first : (Row → Bool) → List ((Row → ℕ) × Direction) → State → Outcome QueryError Row
  pub find : Query Row → State → Outcome String (List Row)
  pub create : Row → Action State String (Unit {0})
  pub delete_where : (Row → Bool) → Action State String (Unit {0})
  -- `Update` and `Updates` of the rows that meet a condition.
  pub update_where : (Row → Bool) → (Row → Row) → Action State String (Unit {0})
  -- `Where(…).Assign(row).FirstOrCreate(row)`.
  pub first_or_create : (Row → Bool) → Row → Action State String (Unit {0})

abbrev pub holds {ℓ} : {A : Type ℓ} → (A → Bool) → (A → A) → A → A
holds p f r = if p r then f r else r

abbrev pub assign_first {ℓ} : {A : Type ℓ} → (A → A → A) → (A → Bool) → A → List A → List A
assign_first merged p row [] = row ∷ []
assign_first merged p row (r ∷ rs) =
    let rest = assign_first merged p row rs in if p r then merged row r ∷ rs else r ∷ rest

-- The rows in the order of the primary key. An update that fails changes no row. An assignment to a row that is there changes the columns
-- whose new value is not zero: what it makes is `merged`.
pub record TableLaws {Row : Type 0} (t : Table Row) : Type 0 where
  pub rows : t.State → List Row
  pub merged : Row → Row → Row
  pub first_found :
      (p : Row → Bool) (s : t.State) (r : Row)
      → t.first p [] s ≡ ok r
      → (rest : List Row) × (keep p (rows s) ≡ r ∷ rest)
  pub deleted :
      (p : Row → Bool) (s : t.State)
      → (t.delete_where p s).0 ≡ ok tt
      → rows (t.delete_where p s).1 ≡ keep (λ r. not (p r)) (rows s)
  pub updated :
      (p : Row → Bool) (f : Row → Row) (s : t.State)
      → (t.update_where p f s).0 ≡ ok tt
      → rows (t.update_where p f s).1 ≡ map (holds p f) (rows s)
  pub failed_update :
      (p : Row → Bool) (f : Row → Row) (s : t.State) (e : String)
      → (t.update_where p f s).0 ≡ err e
      → rows (t.update_where p f s).1 ≡ rows s
  pub assigned :
      (p : Row → Bool) (row : Row) (s : t.State)
      → (t.first_or_create p row s).0 ≡ ok tt
      → rows (t.first_or_create p row s).1 ≡ assign_first merged p row (rows s)
