-- ===== src/Storage/Database/Lists.antt =====
-- A table that is a list of rows, which meets the assumptions about tables.
use smart_scanner.Common.{
  ℕ, ◌≡◌, refl, not, Option, none, some, List, [], ◌∷◌, ◌++◌, map, Outcome, ok, err, take, drop,
}
use smart_scanner.Storage.Memory.{keep}
use smart_scanner.Storage.Database.Table.{
  Table, TableLaws, QueryError, record_not_found, holds, assign_first,
}

module _ {Row : Type 0} where
  abbrev pub head : List Row → Outcome QueryError Row
  head [] = err record_not_found
  head (r ∷ rs) = ok r

  abbrev pub counted : Option ℕ → List Row → List Row
  counted none rows = rows
  counted (some n) rows = take n rows

  abbrev pub skipped : Option ℕ → List Row → List Row
  skipped none rows = rows
  skipped (some n) rows = drop n rows

  -- Rows in the order in which they were inserted. An assignment replaces the row.
  abbrev pub list_table : Table Row
  list_table = record {
    State = List Row;
    first = λ p order rows. head (keep p rows);
    find = λ q rows. ok (counted q.limit (skipped q.offset (keep q.condition rows)));
    create = λ row rows. (ok tt, rows ++ (row ∷ []));
    delete_where = λ p rows. (ok tt, keep (λ r. not (p r)) rows);
    update_where = λ p f rows. (ok tt, map (holds p f) rows);
    first_or_create = λ p row rows. (ok tt, assign_first (λ new old. new) p row rows);
  }

  head-ok : (rows : List Row) (r : Row) → head rows ≡ ok r → (rest : List Row) × (rows ≡ r ∷ rest)
  head-ok [] r h = cc
  head-ok (x ∷ xs) r h = (xs, cc)

  pub list_table-laws : TableLaws (list_table)
  list_table-laws = record {
    rows = λ s. s;
    merged = λ new old. new;
    first_found = λ p s r h. head-ok (keep p s) r h;
    deleted = λ p s h. refl;
    updated = λ p f s h. refl;
    failed_update = λ p f s e h. cc;
    assigned = λ p row s h. refl;
  }
