-- ===== src/HostBridge/Db/Ledger.antt =====
-- Every pool and every transaction that a database handed out is held by a handle or was given
-- back, over any history.
use noqeri_registry.Prelude.{
  ℕ, ◌%◌, ◌+◌, ◌^◌, ◌<◌, ◌≡◌, inl, inr, Bool, Option-cases, List, [], ◌∷◌, Option, none, some,
  arith, ◌==◌, if◌then◌else◌, lookup, remove_missing, remove, total, total-remove, total-insert,
  total-update,
}
use noqeri_registry.Prelude.Text.{Bytes}
use noqeri_registry.HostBridge.Error.{Fallible-cases}
use noqeri_registry.HostBridge.Db.Sql.{
  Sql, Target, Event, opened, limited, pinged, closed, began, committed, rolled_back, executed,
  queried, Log,
}
use noqeri_registry.HostBridge.Db.Host.{
  Handle, State, Env, configure, register, admit, connect, open_db, release, close_db, begin_on,
  begin_db, finish_on, finish, prepare, exec_on, exec_db, query_on, query_db, target,
}
use noqeri_registry.HostBridge.Db.Handles.{IsValid}

abbrev one_if : Bool → ℕ
one_if b = if b then 1 else 0

-- How often the handle holds the resource: the pool of its database, its transaction.
unfoldable pub holds : Target → Handle → ℕ
holds (Target.pool d) h = one_if (h.db == d)
holds (Target.tx t) h = elim h.tx [ none ↦ 0 | some t' ↦ one_if (t' == t) ]

given : Target → Event → ℕ
given (Target.pool d) (opened name dsn (some d')) = one_if (d' == d)
given (Target.tx t) (began d (some t')) = one_if (t' == t)
given _ _ = 0

returned : Target → Event → ℕ
returned (Target.pool d) (closed d') = one_if (d' == d)
returned (Target.tx t) (committed t') = one_if (t' == t)
returned (Target.tx t) (rolled_back t') = one_if (t' == t)
returned _ _ = 0

-- How often the databases handed the resource out, and how often they got it back.
unfoldable pub times_given : Target → Log → ℕ
unfolding given
times_given r [] = 0
times_given r (e ∷ log) = given r e + times_given r log

unfoldable pub times_returned : Target → Log → ℕ
unfolding returned
times_returned r [] = 0
times_returned r (e ∷ log) = returned r e + times_returned r log

abbrev pub IsBalanced : Target → State → Type 0
IsBalanced r st = times_given r st.log ≡ times_returned r st.log + total (holds r) st.handles

abbrev fresh : ℕ → Handle
fresh db = record { db = db; tx = none }

abbrev IsStatement : Event → Type 0
IsStatement (executed t q ps) = Unit {0}
IsStatement (queried t q ps) = Unit {0}
IsStatement _ = ⊥

-- Between sql.Open and the lock the new pool is held by Open itself.
abbrev IsOwing : Target → ℕ → State → Type 0
IsOwing r db st =
    times_given r st.log ≡ times_returned r st.log + total (holds r) st.handles + holds r (fresh db)

failed_open :
    (r : Target) (name dsn : Bytes) (reply : Option ℕ) (st : State)
    → reply ≡ none
    → IsBalanced r st
    → IsBalanced r (record st { log = opened name dsn reply ∷ st.log })
unfolding times_given times_returned
failed_open (Target.pool d) name dsn reply st e b = ground arith
failed_open (Target.tx t) name dsn reply st e b = ground arith

done_open :
    (r : Target) (name dsn : Bytes) (reply : Option ℕ) (db : ℕ) (st : State)
    → reply ≡ some db
    → IsBalanced r st
    → IsOwing r db (record st { log = opened name dsn reply ∷ st.log })
unfolding times_given times_returned holds
done_open (Target.pool d) name dsn reply db st e b = ground arith
done_open (Target.tx t) name dsn reply db st e b = ground arith

register-IsBalanced :
    (r : Target) (db : ℕ) (st : State)
    → st.current + 1 < 2 ^ 64
    → IsValid st
    → IsOwing r db st
    → IsBalanced r (register db st).1
unfolding register times_given times_returned holds
register-IsBalanced (Target.pool d) db st room v owing =
    let next : (st.current + 1) % 2 ^ 64 ≡ st.current + 1 = omega arith in
    let grown =
      total-insert (holds (Target.pool d)) st.current (st.current + 1) (fresh db) st.handles v.keyed
        (omega arith) in
    rw next (ground (arith, grown))
register-IsBalanced (Target.tx t) db st room v owing =
    let next : (st.current + 1) % 2 ^ 64 ≡ st.current + 1 = omega arith in
    let grown =
      total-insert (holds (Target.tx t)) st.current (st.current + 1) (fresh db) st.handles v.keyed
        (omega arith) in
    rw next (ground (arith, grown))

admit-IsBalanced :
    (sql : Sql) (r : Target) (db : ℕ) (st : State)
    → st.current + 1 < 2 ^ 64
    → IsValid st
    → IsOwing r db st
    → IsBalanced r (admit sql db st).1
unfolding admit times_given times_returned holds
admit-IsBalanced sql (Target.pool d) db st room v owing = ground (
  arith,
  register-IsBalanced (Target.pool d) db
      (record st { log = pinged db ∷ limited db 3 1 1800 ∷ st.log }) room
      (record { keyed = v.keyed; bounded = v.bounded }),
)
admit-IsBalanced sql (Target.tx t) db st room v owing = ground (
  arith,
  register-IsBalanced (Target.tx t) db
      (record st { log = pinged db ∷ limited db 3 1 1800 ∷ st.log }) room
      (record { keyed = v.keyed; bounded = v.bounded }),
)

connect-IsBalanced :
    (sql : Sql) (r : Target) (name dsn : Bytes) (st : State)
    → st.current + 1 < 2 ^ 64
    → IsValid st
    → IsBalanced r st
    → IsBalanced r (connect sql name dsn st).1
unfolding connect times_given times_returned holds
connect-IsBalanced sql r name dsn st room v b =
    elim (Option-cases (sql.open_pool st.log name dsn)) [
      | inl failed ↦ rw (failed, connect) (failed_open r name dsn _ st failed b)
      | inr (db, done) ↦
          let asked : State = record st {
            log = opened name dsn (sql.open_pool st.log name dsn) ∷ st.log;
          } in
          rw (done, connect)
            (admit-IsBalanced sql r db asked room (record { keyed = v.keyed; bounded = v.bounded })
              (done_open r name dsn _ db st done b))
    ]

pub open_db-IsBalanced :
    (sql : Sql) (env : Env) (r : Target) (driver : Bytes) (st : State)
    → st.current + 1 < 2 ^ 64
    → IsValid st
    → IsBalanced r st
    → IsBalanced r (open_db sql env driver st).1
unfolding open_db
open_db-IsBalanced sql env r driver st room v b = elim (Fallible-cases (configure sql env driver)) [
  | inl (c, e) ↦ rw (e, open_db) (connect-IsBalanced sql r c.0 c.1 st room v b)
  | inr (c, e) ↦ rw (e, open_db) b
]

release-balance :
    (r : Target) (h : Handle) (st : State)
    → times_given r st.log ≡ times_returned r st.log + holds r h + total (holds r) st.handles
    → IsBalanced r (release h st)
unfolding release times_given times_returned holds
release-balance (Target.pool d) h st owing = ground arith
release-balance (Target.tx t) h st owing = ground arith

pub close_db-IsBalanced :
    (r : Target) (id : ℕ) (st : State)
    → IsValid st
    → IsBalanced r st
    → IsBalanced r (close_db id st).1
unfolding close_db
close_db-IsBalanced r id st v b = elim (Option-cases (lookup id st.handles)) [
  | inl missing ↦ rw (missing, close_db, remove_missing id st.handles missing) b
  | inr (h, found) ↦
      let less = total-remove (holds r) st.current id h st.handles v.keyed found in
      rw (found, close_db)
        (release-balance r h (record st { handles = remove id st.handles })
          (omega (arith, b, less)))
]

begun :
    (sql : Sql) (r : Target) (id t : ℕ) (h : Handle) (st : State)
    → IsValid st
    → lookup id st.handles ≡ some h
    → h.tx ≡ none
    → sql.begin_tx st.log h.db ≡ some t
    → IsBalanced r st
    → IsBalanced r (begin_on sql id h st).1
unfolding begin_on times_given times_returned holds
begun sql (Target.pool d) id t h st v found idle e b = ground (
  arith,
  total-update (holds (Target.pool d)) st.current id h (record h { tx = some t }) st.handles v.keyed
      found,
)
begun sql (Target.tx t') id t h st v found idle e b = ground (
  arith,
  total-update (holds (Target.tx t')) st.current id h (record h { tx = some t }) st.handles v.keyed
      found,
)

not_begun :
    (sql : Sql) (r : Target) (id : ℕ) (h : Handle) (st : State)
    → sql.begin_tx st.log h.db ≡ none
    → IsBalanced r st
    → IsBalanced r (begin_on sql id h st).1
unfolding begin_on times_given times_returned
not_begun sql (Target.pool d) id h st e b = ground arith
not_begun sql (Target.tx t) id h st e b = ground arith

begin_on-IsBalanced :
    (sql : Sql) (r : Target) (id : ℕ) (h : Handle) (st : State)
    → IsValid st
    → lookup id st.handles ≡ some h
    → IsBalanced r st
    → IsBalanced r (begin_on sql id h st).1
unfolding begin_on
begin_on-IsBalanced sql r id h st v found b = elim (Option-cases h.tx) [
  | inl idle ↦ elim (Option-cases (sql.begin_tx st.log h.db)) [
    | inl failed ↦ not_begun sql r id h st failed b
    | inr (t, e) ↦ begun sql r id t h st v found idle e b
  ]
  | inr (t, busy) ↦ rw (busy, begin_on) b
]

pub begin_db-IsBalanced :
    (sql : Sql) (r : Target) (id : ℕ) (st : State)
    → IsValid st
    → IsBalanced r st
    → IsBalanced r (begin_db sql id st).1
unfolding begin_db
begin_db-IsBalanced sql r id st v b = elim (Option-cases (lookup id st.handles)) [
  | inl missing ↦ rw (missing, begin_db) b
  | inr (h, found) ↦ rw (found, begin_db) (begin_on-IsBalanced sql r id h st v found b)
]

finish_on-IsBalanced :
    (sql : Sql) (r : Target) (id : ℕ) (commit : Bool) (h : Handle) (st : State)
    → IsValid st
    → lookup id st.handles ≡ some h
    → IsBalanced r st
    → IsBalanced r (finish_on sql id commit h st).1
unfolding finish_on times_given times_returned holds
finish_on-IsBalanced sql (Target.pool d) id commit h st v found b = ground (
  arith,
  total-update (holds (Target.pool d)) st.current id h (record h { tx = none }) st.handles v.keyed
      found,
)
finish_on-IsBalanced sql (Target.tx t) id commit h st v found b = ground (
  arith,
  total-update (holds (Target.tx t)) st.current id h (record h { tx = none }) st.handles v.keyed
      found,
)

pub finish-IsBalanced :
    (sql : Sql) (r : Target) (id : ℕ) (commit : Bool) (st : State)
    → IsValid st
    → IsBalanced r st
    → IsBalanced r (finish sql id commit st).1
unfolding finish
finish-IsBalanced sql r id commit st v b = elim (Option-cases (lookup id st.handles)) [
  | inl missing ↦ rw (missing, finish) b
  | inr (h, found) ↦ rw (found, finish) (finish_on-IsBalanced sql r id commit h st v found b)
]

statement-IsBalanced :
    (r : Target) (e : Event) (st : State)
    → IsStatement e
    → IsBalanced r st
    → IsBalanced r (record st { log = e ∷ st.log })
unfolding times_given times_returned
statement-IsBalanced (Target.pool d) (executed t q ps) st s b = omega arith
statement-IsBalanced (Target.pool d) (queried t q ps) st s b = omega arith
statement-IsBalanced (Target.tx d) (executed t q ps) st s b = omega arith
statement-IsBalanced (Target.tx d) (queried t q ps) st s b = omega arith
statement-IsBalanced _ _ st s b = absurd s

pub exec_db-IsBalanced :
    (sql : Sql) (r : Target) (id : ℕ) (query : Bytes) (args : List Bytes) (st : State)
    → IsBalanced r st
    → IsBalanced r (exec_db sql id query args st).1
unfolding exec_db exec_on
exec_db-IsBalanced sql r id query args st b = elim (Fallible-cases (prepare sql query args)) [
  | inl (params, e) ↦ elim (Option-cases (lookup id st.handles)) [
    | inl missing ↦ rw (e, exec_db, missing) b
    | inr (h, found) ↦
        rw (e, exec_db, found) (statement-IsBalanced r (executed (target h) query params) st tt b)
  ]
  | inr (bad, e) ↦ rw (e, exec_db) b
]

pub query_db-IsBalanced :
    (sql : Sql) (r : Target) (id : ℕ) (query : Bytes) (args : List Bytes) (st : State)
    → IsBalanced r st
    → IsBalanced r (query_db sql id query args st).1
unfolding query_db query_on
query_db-IsBalanced sql r id query args st b = elim (Fallible-cases (prepare sql query args)) [
  | inl (params, e) ↦ elim (Option-cases (lookup id st.handles)) [
    | inl missing ↦ rw (e, query_db, missing) b
    | inr (h, found) ↦
        rw (e, query_db, found) (statement-IsBalanced r (queried (target h) query params) st tt b)
  ]
  | inr (bad, e) ↦ rw (e, query_db) b
]
