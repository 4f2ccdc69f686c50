-- ===== src/HostBridge/Db/Rows.antt =====
-- Reading a result set: the second half of DBHost.Query in db.go.
use noqeri_registry.Prelude.{
  ℕ, ◌+◌, not, List, [], ◌∷◌, Option, none, some, length, ltb, leb, ◌==◌, if◌then◌else◌,
}
use noqeri_registry.Prelude.Text.{Bytes}
use noqeri_registry.HostBridge.Error.{
  Result, ok, err, ◌>>=◌, ◌>>◌, refuse, database_columns_failed, too_many_result_columns,
  result_row_limit_exceeded, database_scan_failed, result_cell_too_large, database_iteration_failed,
}
use noqeri_registry.HostBridge.Db.Sql.{Cell, Rows}

-- Rows.Scan into one destination for each column name: another number of values is an error.
unfoldable pub scan : ℕ → Option (List Cell) → Result (List Cell)
scan width none = err database_scan_failed
scan width (some values) = if length values == width then ok values else err database_scan_failed

-- The type switch over the fields of a row.
unfoldable pub read_cell : Cell → Result Cell
read_cell (Cell.bytes x) = do refuse (ltb 65536 (length x)) result_cell_too_large; ok (Cell.text x)
read_cell (Cell.text x) = do refuse (ltb 65536 (length x)) result_cell_too_large; ok (Cell.text x)
read_cell (Cell.other x) = ok (Cell.text x)
read_cell cell = ok cell

unfoldable pub read_cells : List Cell → Result (List Cell)
read_cells [] = ok []
read_cells (cell ∷ cells) = do c ← read_cell cell; cs ← read_cells cells; ok (c ∷ cs)

-- The loop over rows.Next(), with the number of rows put out so far.
unfoldable pub read_from : ℕ → ℕ → List (Option (List Cell)) → Result (List (List Cell))
read_from width seen [] = ok []
read_from width seen (row ∷ rows) = do
  refuse (leb 500 seen) result_row_limit_exceeded
  values ← scan width row
  fields ← read_cells values
  rest ← read_from width (seen + 1) rows
  ok (fields ∷ rest)

abbrev pub named : Option (List Bytes) → Result (List Bytes)
named none = err database_columns_failed
named (some names) = ok names

unfoldable pub read_rows : Rows → Result (List Bytes × List (List Cell))
read_rows r = do
  names ← named r.columns
  refuse (ltb 64 (length names)) too_many_result_columns
  output ← read_from (length names) 0 r.rows
  refuse (not r.complete) database_iteration_failed
  ok (names, output)
