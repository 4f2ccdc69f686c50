-- ===== src/HostBridge/Tests/Databases.antt =====
-- Histories of the database host against the database of the tests.
use noqeri_registry.Prelude.{
  ◌≡◌, refl, true, List, [], ◌∷◌, none, some, arith, lookup, remove, insert, update, All,
  Option-cases, inl, inr,
}
use noqeri_registry.Prelude.Text.{codes, str_eq, has_prefix, contains_byte, contains_any}
use noqeri_registry.Prelude.Number.{pos}
use noqeri_registry.HostBridge.Error.{ok, err, too_many_database_handles, transaction_already_open}
use noqeri_registry.HostBridge.Db.Sql.{Cell, Target, Param, Rows}
use noqeri_registry.HostBridge.Db.Params.{check_sql, sql_args, convert_all, convert}
use noqeri_registry.HostBridge.Db.Rows.{read_rows, read_from, read_cells, read_cell, scan}
use noqeri_registry.HostBridge.Db.Host.{
  Handle, State, new_db_host, kind_of, sql_driver, dsn_variable, registered, check_dsn, configure,
  connect, admit, register, open_db, close_db, close_all, release, begin_on, begin_db, finished,
  finish_on, finish, exec_on, exec_db, query_on, query_db, prepare, answer, target,
}
use noqeri_registry.HostBridge.Db.Run.{Action, opens, begins, executes, act, run}
use noqeri_registry.HostBridge.Db.Ledger.{times_given, times_returned}
use noqeri_registry.HostBridge.Db.Release.{Covers, run-close_all}
use noqeri_registry.HostBridge.Db.Handles.{IsValid, run-close_db, run-IsValid}
use noqeri_registry.HostBridge.Db.Gate.{IsBounded, IsSanctioned, run-IsSanctioned, run-IsBounded}
use noqeri_registry.HostBridge.Db.Transactions.{
  Begins, Finishes, Closes, Between, begin_db-Begins, finish-Finishes, close_db-Closes,
}
use noqeri_registry.HostBridge.Db.Results.{IsReading, query_db-IsReading}
use noqeri_registry.HostBridge.Tests.Fixtures.{env, variable, sql}

host : Unit {0}
unfolding new_db_host kind_of sql_driver dsn_variable registered check_dsn configure connect admit
    register open_db close_db close_all release begin_on begin_db finished finish_on finish exec_on
    exec_db query_on query_db prepare answer check_sql sql_args convert_all convert read_rows
    read_from read_cells read_cell scan act run lookup remove insert update codes str_eq has_prefix
    contains_byte contains_any env variable sql
host = tt

abbrev started : List Action
started =
    opens (codes "sqlite") ∷ begins 1 ∷ executes 1 (codes "delete from t") (codes "x" ∷ []) ∷ []

-- One handle, whose transaction is open.
abbrev busy : State
busy = run sql env started new_db_host

abbrev eight_opens : List Action
eight_opens = let o = opens (codes "sqlite") in o ∷ o ∷ o ∷ o ∷ o ∷ o ∷ o ∷ o ∷ []

host_tests :
    (busy.handles ≡ (1, record { db = 0; tx = some 3 }) ∷ [])
    × ((begin_db sql 1 busy).0 ≡ err transaction_already_open)
    × ((exec_db sql 1 (codes "x") [] busy).0 ≡ ok (pos 1))
    × ((open_db sql env (codes "sqlite") (run sql env eight_opens new_db_host)).0
        ≡ err too_many_database_handles)
    × ((query_db sql 1 (codes "q") [] busy).0
        ≡ ok
            (codes "n" ∷ codes "name" ∷ [], (Cell.int (pos 7) ∷ Cell.text (codes "ann") ∷ []) ∷ []))
unfolding host
host_tests = (refl, refl, refl, refl, refl)

covered : Covers (1 ∷ []) busy
unfolding host
covered k found = elim (Option-cases (lookup k busy.handles)) [
  | inl missing ↦ absurd (found missing)
  | inr (h, there) ↦ ground arith
]

run-close_all_example :
    let st = close_all (1 ∷ []) (run sql env started new_db_host) in
    (st.handles ≡ []) × (times_given (Target.tx 3) st.log ≡ times_returned (Target.tx 3) st.log)
run-close_all_example = run-close_all sql env (Target.tx 3) started (1 ∷ []) (omega arith) covered

closed_now : (close_db 1 (run sql env started new_db_host)).0 ≡ ok tt
unfolding host
closed_now = refl

run-close_db_example :
    lookup 1 (run sql env started (close_db 1 (run sql env started new_db_host)).1).handles ≡ none
run-close_db_example = run-close_db sql env started started 1 (omega arith) closed_now

run-IsValid_example : IsValid (run sql env started new_db_host)
run-IsValid_example = run-IsValid sql env started (omega arith)

run-IsSanctioned_example : All (IsSanctioned sql env) (run sql env started new_db_host).log
run-IsSanctioned_example = run-IsSanctioned sql env started

run-IsBounded_example : All IsBounded (run sql env started new_db_host).log
run-IsBounded_example = run-IsBounded sql env started

begin_db-Begins_example : Between (Begins sql) 1 busy (begin_db sql 1 busy)
begin_db-Begins_example = begin_db-Begins sql 1 busy

finish-Finishes_example : Between (Finishes sql true) 1 busy (finish sql 1 true busy)
finish-Finishes_example = finish-Finishes sql 1 true busy

close_db-Closes_example : Between Closes 1 busy (close_db 1 busy)
close_db-Closes_example = close_db-Closes 1 busy

abbrev read : List (List Cell)
read = (Cell.int (pos 7) ∷ Cell.text (codes "ann") ∷ []) ∷ []

answered_now : (query_db sql 1 (codes "q") [] busy).0 ≡ ok (codes "n" ∷ codes "name" ∷ [], read)
unfolding host
answered_now = refl

query_db-IsReading_example :
    (h : Handle) × (params : List Param) × (rows : Rows) × (lookup 1 busy.handles ≡ some h)
    × (prepare sql (codes "q") [] ≡ ok params)
    × (sql.query_context busy.log (target h) (codes "q") params ≡ some rows)
    × IsReading rows (codes "n" ∷ codes "name" ∷ []) read
query_db-IsReading_example =
    query_db-IsReading sql 1 (codes "q") [] busy (codes "n" ∷ codes "name" ∷ []) read answered_now
