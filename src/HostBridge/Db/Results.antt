-- ===== src/HostBridge/Db/Results.antt =====
-- What a query gives back: every row that the database answered, within the bridge's bounds.
use noqeri_registry.Prelude.{
  ℕ, suc, ◌+◌, ◌≤◌, ◌≡◌, refl, ap, subst, inl, inr, true, not, Bool-cases, Option-cases, List, [],
  ◌∷◌, Option, none, some, arith, length, ltb, ltb-false, leb, ◌==◌, ==_iff, lookup, ◌∙◌,
}
use noqeri_registry.Prelude.Text.{Bytes}
use noqeri_registry.HostBridge.Error.{
  ok, Fallible-cases, >>=-eq-ok, >>-eq-ok, ok-injective, too_many_result_columns,
  result_row_limit_exceeded, result_cell_too_large, database_iteration_failed,
}
use noqeri_registry.HostBridge.Db.Sql.{Sql, Param, Cell, Rows}
use noqeri_registry.HostBridge.Db.Rows.{scan, read_cell, read_cells, read_from, named, read_rows}
use noqeri_registry.HostBridge.Db.Host.{Handle, State, target, prepare, answer, query_on, query_db}

-- A cell of the output against the database's: bytes become text, and both are bounded.
abbrev pub ReadsCell : Cell → Cell → Type 0
ReadsCell (Cell.bytes x) c = (c ≡ Cell.text x) × (length x ≤ 65536)
ReadsCell (Cell.text x) c = (c ≡ Cell.text x) × (length x ≤ 65536)
ReadsCell (Cell.other x) c = c ≡ Cell.text x
ReadsCell cell c = c ≡ cell

abbrev pub ReadsCells : List Cell → List Cell → Type 0
ReadsCells [] [] = Unit {0}
ReadsCells (v ∷ vs) (c ∷ cs) = ReadsCell v c × ReadsCells vs cs
ReadsCells _ _ = ⊥

abbrev pub ReadsRow : ℕ → Option (List Cell) → List Cell → Type 0
ReadsRow width none fields = ⊥
ReadsRow width (some values) fields = (length fields ≡ width) × ReadsCells values fields

abbrev pub ReadsRows : ℕ → List (Option (List Cell)) → List (List Cell) → Type 0
ReadsRows width [] [] = Unit {0}
ReadsRows width (row ∷ rows) (fields ∷ out) = ReadsRow width row fields × ReadsRows width rows out
ReadsRows width _ _ = ⊥

pub record IsReading (r : Rows) (names : List Bytes) (output : List (List Cell)) : Type 0 where
  pub columns : r.columns ≡ some names
  pub narrow : length names ≤ 64
  pub short : length output ≤ 500
  pub complete : r.complete ≡ true
  pub rows : ReadsRows (length names) r.rows output

read_cell-ReadsCell : (v c : Cell) → read_cell v ≡ ok c → ReadsCell v c
unfolding read_cell
read_cell-ReadsCell (Cell.bytes x) c e =
    let (small, done) = >>-eq-ok (ltb 65536 (length x)) result_cell_too_large _ e in
    (cc, ltb-false 65536 (length x) small)
read_cell-ReadsCell (Cell.text x) c e =
    let (small, done) = >>-eq-ok (ltb 65536 (length x)) result_cell_too_large _ e in
    (cc, ltb-false 65536 (length x) small)
read_cell-ReadsCell (Cell.other x) c e = cc
read_cell-ReadsCell Cell.null c e = cc
read_cell-ReadsCell (Cell.int i) c e = cc
read_cell-ReadsCell (Cell.float x) c e = cc
read_cell-ReadsCell (Cell.bool b) c e = cc
read_cell-ReadsCell (Cell.time t) c e = cc

read_cells-ReadsCells :
    (vs cs : List Cell) → read_cells vs ≡ ok cs → ReadsCells vs cs × (length cs ≡ length vs)
unfolding read_cells
read_cells-ReadsCells [] cs e =
    subst (λ l. ReadsCells [] l × (length l ≡ 0)) (ok-injective [] cs e) (tt, refl)
read_cells-ReadsCells (v ∷ vs) cs e =
    let (c, first, e₁) = >>=-eq-ok (read_cell v) _ e in
    let (rest, others, e₂) = >>=-eq-ok (read_cells vs) _ e₁ in
    let (reads, same) = read_cells-ReadsCells vs rest others in
    subst (λ l. ReadsCells (v ∷ vs) l × (length l ≡ suc (length vs)))
      (ok-injective (c ∷ rest) cs e₂) ((read_cell-ReadsCell v c first, reads), ap suc same)

scan_lem :
    (width : ℕ) (row : Option (List Cell)) (values : List Cell)
    → scan width row ≡ ok values
    → (row ≡ some values) × (length values ≡ width)
unfolding scan
scan_lem width none values e = absurd (cc e)
scan_lem width (some vs) values e = elim (Bool-cases (length vs == width)) [
  | inl fits ↦
      let same = ok-injective vs values (rw fits at e) in
      (ap some same, rw (← same) ((==_iff _ _).0 fits))
  | inr wrong ↦ absurd (cc (rw wrong at e))
]

read_from-ReadsRows :
    (width seen : ℕ) (rows : List (Option (List Cell))) (out : List (List Cell))
    → seen ≤ 500
    → read_from width seen rows ≡ ok out
    → ReadsRows width rows out × (seen + length out ≤ 500)
unfolding read_from
read_from-ReadsRows width seen [] out room e =
    subst (λ l. ReadsRows width [] l × (seen + length l ≤ 500)) (ok-injective [] out e)
      (tt, omega arith)
read_from-ReadsRows width seen (row ∷ rows) out room e =
    let (below, e₁) = >>-eq-ok (leb 500 seen) result_row_limit_exceeded _ e in
    let (values, scanned, e₂) = >>=-eq-ok (scan width row) _ e₁ in
    let (fields, read, e₃) = >>=-eq-ok (read_cells values) _ e₂ in
    let (rest, others, e₄) = >>=-eq-ok (read_from width (seen + 1) rows) _ e₃ in
    let (found, fits) = scan_lem width row values scanned in
    let (reads, same) = read_cells-ReadsCells values fields read in
    let (tail, few) = read_from-ReadsRows width (seen + 1) rows rest (ground arith) others in
    subst (λ l. ReadsRows width (row ∷ rows) l × (seen + length l ≤ 500))
      (ok-injective (fields ∷ rest) out e₄)
      ((rw found (same ∙ fits, reads), tail), omega (arith, few))

named_lem : (o : Option (List Bytes)) (names : List Bytes) → named o ≡ ok names → o ≡ some names
named_lem none names e = absurd (cc e)
named_lem (some found) names e = ap some (ok-injective found names e)

read_rows-IsReading :
    (r : Rows) (names : List Bytes) (output : List (List Cell))
    → read_rows r ≡ ok (names, output)
    → IsReading r names output
unfolding read_rows
read_rows-IsReading r names output e =
    let (found, cols, e₁) = >>=-eq-ok (named r.columns) _ e in
    let (narrow, e₂) = >>-eq-ok (ltb 64 (length found)) too_many_result_columns _ e₁ in
    let (out, read, e₃) = >>=-eq-ok (read_from (length found) 0 r.rows) _ e₂ in
    let (whole, e₄) = >>-eq-ok (not r.complete) database_iteration_failed _ e₃ in
    let (reads, few) = read_from-ReadsRows (length found) 0 r.rows out (omega arith) read in
    let same = ok-injective (found, out) (names, output) e₄ in
    subst (λ (p : List Bytes × List (List Cell)). IsReading r p.0 p.1) same
      (record {
        columns = named_lem r.columns found cols;
        narrow = ltb-false 64 (length found) narrow;
        short = omega (arith, few);
        complete = ground arith;
        rows = reads;
      })

-- A Query that succeeds hands over the whole result set that the database answered to the
-- statement on that handle: at most 64 columns and 500 rows, each row as wide as the columns, its
-- bytes and texts of at most 65536 bytes each, and with no error at its end.
pub query_db-IsReading :
    (sql : Sql) (id : ℕ) (query : Bytes) (args : List Bytes) (st : State) (names : List Bytes)
    (output : List (List Cell))
    → (query_db sql id query args st).0 ≡ ok (names, output)
    → (h : Handle) × (params : List Param) × (rows : Rows) × (lookup id st.handles ≡ some h)
      × (prepare sql query args ≡ ok params)
      × (sql.query_context st.log (target h) query params ≡ some rows)
      × IsReading rows names output
unfolding query_db query_on answer
query_db-IsReading sql id query args st names output e =
    elim (Fallible-cases (prepare sql query args)) [
      | inl (params, good) ↦ elim (Option-cases (lookup id st.handles)) [
        | inl missing ↦ absurd (cc (rw (good, query_db, missing) at e))
        | inr (h, found) ↦ elim (Option-cases (sql.query_context st.log (target h) query params)) [
          | inl refused ↦ absurd (cc (rw (good, query_db, found, query_on, refused) at e))
          | inr (rows, replied) ↦ (
            h,
            params,
            rows,
            found,
            good,
            replied,
            read_rows-IsReading rows names output
                (rw (good, query_db, found, query_on, replied) at e),
          )
        ]
      ]
      | inr (bad, refused) ↦ absurd (cc (rw (refused, query_db) at e))
    ]
