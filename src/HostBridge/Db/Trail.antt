-- ===== src/HostBridge/Db/Trail.antt =====
-- A property of all that the databases are asked, over any history: it is enough that it holds of
-- the data source that `configure` lets through, and of a statement that `prepare` lets through.
use noqeri_registry.Prelude.{
  ℕ, ◌≡◌, inl, inr, Bool, Bool-cases, Option-cases, List, [], ◌∷◌, Option, length, leb, All, lookup,
}
use noqeri_registry.Prelude.Text.{Bytes}
use noqeri_registry.HostBridge.Error.{Fallible-cases, ok}
use noqeri_registry.HostBridge.Db.Sql.{
  Sql, Target, Param, Event, opened, limited, pinged, closed, began, committed, rolled_back,
  executed, queried,
}
use noqeri_registry.HostBridge.Db.Host.{
  Handle, State, Env, configure, register, admit, connect, open_db, release, close_db, close_all,
  begin_on, begin_db, finish_on, finish, prepare, exec_on, exec_db, query_on, query_db, target,
  new_db_host,
}
use noqeri_registry.HostBridge.Db.Run.{
  Action, opens, closes, closes_all, begins, finishes, executes, queries, act, run,
}

-- The events that carry neither a data source nor a statement.
abbrev pub IsPlain : Event → Type 0
IsPlain (opened name dsn reply) = ⊥
IsPlain (executed t query params) = ⊥
IsPlain (queried t query params) = ⊥
IsPlain _ = Unit {0}

module _ (sql : Sql) (env : Env) (P : Event → Type 0) (plain : (e : Event) → IsPlain e → P e)
    (at_open : (driver name dsn : Bytes) (reply : Option ℕ)
      → configure sql env driver ≡ ok (name, dsn)
      → P (opened name dsn reply))
    (at_exec : (query : Bytes) (args : List Bytes) (params : List Param) (t : Target)
      → prepare sql query args ≡ ok params
      → P (executed t query params))
    (at_query : (query : Bytes) (args : List Bytes) (params : List Param) (t : Target)
      → prepare sql query args ≡ ok params
      → P (queried t query params)) where
  register-All : (db : ℕ) (st : State) → All P st.log → All P (register db st).1.log
  unfolding register
  register-All db st h = elim (Bool-cases (leb 8 (length st.handles))) [
    | inl full ↦ rw full (plain (closed db) tt, h)
    | inr room ↦ rw room h
  ]

  admit-All : (db : ℕ) (st : State) → All P st.log → All P (admit sql db st).1.log
  unfolding admit
  admit-All db st h =
      let asked : All P (pinged db ∷ limited db 3 1 1800 ∷ st.log) =
        (plain (pinged db) tt, (plain (limited db 3 1 1800) tt, h)) in
      elim (Bool-cases (sql.ping (limited db 3 1 1800 ∷ st.log) db)) [
        | inl alive ↦ rw alive (register-All db _ asked)
        | inr dead ↦ rw dead (plain (closed db) tt, asked)
      ]

  connect-All :
      (driver name dsn : Bytes) (st : State)
      → configure sql env driver ≡ ok (name, dsn)
      → All P st.log
      → All P (connect sql name dsn st).1.log
  unfolding connect
  connect-All driver name dsn st c h =
      let asked : All P (opened name dsn (sql.open_pool st.log name dsn) ∷ st.log) =
        (at_open driver name dsn (sql.open_pool st.log name dsn) c, h) in
      elim (Option-cases (sql.open_pool st.log name dsn)) [
        | inl failed ↦ rw (failed, connect) asked
        | inr (db, done) ↦ rw (done, connect) (admit-All db _ asked)
      ]

  open_db-All :
      (driver : Bytes) (st : State) → All P st.log → All P (open_db sql env driver st).1.log
  unfolding open_db
  open_db-All driver st h = elim (Fallible-cases (configure sql env driver)) [
    | inl (c, e) ↦ rw (e, open_db) (connect-All driver c.0 c.1 st e h)
    | inr (c, e) ↦ rw (e, open_db) h
  ]

  release-All : (hd : Handle) (st : State) → All P st.log → All P (release hd st).log
  unfolding release
  release-All hd st h = elim (Option-cases hd.tx) [
    | inl free ↦ rw (free, release) (plain (closed hd.db) tt, h)
    | inr (t, busy) ↦ rw (busy, release) (plain (closed hd.db) tt, (plain (rolled_back t) tt, h))
  ]

  close_db-All : (id : ℕ) (st : State) → All P st.log → All P (close_db id st).1.log
  unfolding close_db
  close_db-All id st h = elim (Option-cases (lookup id st.handles)) [
    | inl missing ↦ rw (missing, close_db) h
    | inr (hd, found) ↦ rw (found, close_db) (release-All hd _ h)
  ]

  close_all-All : (ids : List ℕ) (st : State) → All P st.log → All P (close_all ids st).log
  unfolding close_all
  close_all-All [] st h = h
  close_all-All (id ∷ ids) st h = close_all-All ids _ (close_db-All id st h)

  begin_db-All : (id : ℕ) (st : State) → All P st.log → All P (begin_db sql id st).1.log
  unfolding begin_db begin_on
  begin_db-All id st h = elim (Option-cases (lookup id st.handles)) [
    | inl missing ↦ rw (missing, begin_db) h
    | inr (hd, found) ↦ elim (Option-cases hd.tx) [
      | inl free ↦
          let asked : All P (began hd.db (sql.begin_tx st.log hd.db) ∷ st.log) =
            (plain (began hd.db (sql.begin_tx st.log hd.db)) tt, h) in
          elim (Option-cases (sql.begin_tx st.log hd.db)) [
            | inl refused ↦ rw (found, begin_db, free, begin_on, refused, begin_on) asked
            | inr (t, done) ↦ rw (found, begin_db, free, begin_on, done, begin_on) asked
          ]
      | inr (t, busy) ↦ rw (found, begin_db, busy, begin_on) h
    ]
  ]

  finish-All :
      (id : ℕ) (commit : Bool) (st : State) → All P st.log → All P (finish sql id commit st).1.log
  unfolding finish finish_on
  finish-All id commit st h = elim (Option-cases (lookup id st.handles)) [
    | inl missing ↦ rw (missing, finish) h
    | inr (hd, found) ↦ elim (Option-cases hd.tx) [
      | inl free ↦ rw (found, finish, free, finish_on) h
      | inr (t, busy) ↦ elim (Bool-cases commit) [
        | inl yes_commit ↦
            rw (found, finish, busy, finish_on, yes_commit) (plain (committed t) tt, h)
        | inr no_commit ↦
            rw (found, finish, busy, finish_on, no_commit) (plain (rolled_back t) tt, h)
      ]
    ]
  ]

  exec_db-All :
      (id : ℕ) (query : Bytes) (args : List Bytes) (st : State)
      → All P st.log
      → All P (exec_db sql id query args st).1.log
  unfolding exec_db exec_on
  exec_db-All id query args st h = elim (Fallible-cases (prepare sql query args)) [
    | inl (params, e) ↦ elim (Option-cases (lookup id st.handles)) [
      | inl missing ↦ rw (e, exec_db, missing) h
      | inr (hd, found) ↦ rw (e, exec_db, found) (at_exec query args params (target hd) e, h)
    ]
    | inr (bad, e) ↦ rw (e, exec_db) h
  ]

  query_db-All :
      (id : ℕ) (query : Bytes) (args : List Bytes) (st : State)
      → All P st.log
      → All P (query_db sql id query args st).1.log
  unfolding query_db query_on
  query_db-All id query args st h = elim (Fallible-cases (prepare sql query args)) [
    | inl (params, e) ↦ elim (Option-cases (lookup id st.handles)) [
      | inl missing ↦ rw (e, query_db, missing) h
      | inr (hd, found) ↦ rw (e, query_db, found) (at_query query args params (target hd) e, h)
    ]
    | inr (bad, e) ↦ rw (e, query_db) h
  ]

  act-All : (a : Action) (st : State) → All P st.log → All P (act sql env a st).log
  unfolding act
  act-All (opens driver) st h = open_db-All driver st h
  act-All (closes id) st h = close_db-All id st h
  act-All (closes_all ids) st h = close_all-All ids st h
  act-All (begins id) st h = begin_db-All id st h
  act-All (finishes id commit) st h = finish-All id commit st h
  act-All (executes id query args) st h = exec_db-All id query args st h
  act-All (queries id query args) st h = query_db-All id query args st h

  run-All : (actions : List Action) (st : State) → All P st.log → All P (run sql env actions st).log
  unfolding run
  run-All [] st h = h
  run-All (a ∷ actions) st h = run-All actions (act sql env a st) (act-All a st h)

  pub run-new-All : (actions : List Action) → All P (run sql env actions new_db_host).log
  unfolding new_db_host
  run-new-All actions = run-All actions _ tt
