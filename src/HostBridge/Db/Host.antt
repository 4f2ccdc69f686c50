-- ===== src/HostBridge/Db/Host.antt =====
-- DBHost of db.go. The mutex makes each method one step on the state, which is the host's fields
-- together with the log of what the databases were asked. A handle is mutated through the pointer
-- in the map, `update`; the order in which a map is walked is an argument.
use noqeri_registry.Prelude.{
  ℕ, ◌+◌, ◌%◌, ◌^◌, Bool, true, false, not, ◌&&◌, ◌||◌, List, [], ◌∷◌, Option, none, some, length,
  any, ltb, leb, ◌==◌, if◌then◌else◌, lookup, insert, remove, update,
}
use noqeri_registry.Prelude.Text.{Bytes, codes, str_eq, has_prefix, contains_byte}
use noqeri_registry.Prelude.Number.{ℤ}
use noqeri_registry.HostBridge.Error.{
  Result, ok, err, ◌>>=◌, ◌>>◌, refuse, unsupported_database, database_driver_not_linked,
  database_configuration_missing, postgres_dsn_invalid, postgres_verified_tls_required,
  sqlite_path_not_allowed, database_open_failed, database_unavailable, too_many_database_handles,
  invalid_database_handle, transaction_already_open, transaction_begin_failed,
  no_active_transaction, transaction_finish_failed, database_execution_failed,
  database_query_failed,
}
use noqeri_registry.HostBridge.Db.Sql.{
  Target, Param, Cell, Rows, Event, opened, limited, pinged, closed, began, committed, rolled_back,
  executed, queried, Log, Sql,
}
use noqeri_registry.HostBridge.Db.Params.{sql_args, check_sql}
use noqeri_registry.HostBridge.Db.Rows.{read_rows}

pub record Handle : Type 0 where
  pub db : ℕ
  pub tx : Option ℕ

pub record State : Type 0 where
  pub current : ℕ
  pub handles : List (ℕ × Handle)
  pub log : Log

abbrev pub Env : Type 0
Env = Bytes → Bytes

-- NewDBHost, before anything has happened
unfoldable pub new_db_host : State
new_db_host = record { current = 0; handles = []; log = [] }

-- The databases that Open knows, the `driver` of its switch.
pub data Kind : Type 0 where
  postgres sqlite : Kind

unfoldable pub kind_of : Bytes → Result Kind
kind_of driver =
    if str_eq driver (codes "postgres")
    then ok postgres
    else if str_eq driver (codes "sqlite")
    then ok sqlite
    else err unsupported_database

unfoldable pub sql_driver : Kind → Bytes
sql_driver postgres = codes "pgx"
sql_driver sqlite = codes "sqlite"

unfoldable pub dsn_variable : Kind → Bytes
dsn_variable postgres = codes "NOQERI_POSTGRES_DSN"
dsn_variable sqlite = codes "NOQERI_SQLITE_PATH"

unfoldable pub registered : Sql → Bytes → Bool
registered sql name = any (λ n. str_eq n name) sql.drivers

unfoldable pub verifies : Option Bytes → Bool
verifies none = false
verifies (some mode) = str_eq mode (codes "verify-full")

unfoldable pub check_dsn : Sql → Kind → Bytes → Result (Unit {0})
unfolding verifies
check_dsn sql postgres dsn = do
  refuse
      (not (has_prefix dsn (codes "postgres://")) && not (has_prefix dsn (codes "postgresql://")))
      postgres_dsn_invalid
  refuse (not (verifies (sql.sslmode dsn))) postgres_verified_tls_required
check_dsn sql sqlite dsn =
    refuse
      (has_prefix dsn (codes "file:")
        || contains_byte 0 dsn
        || str_eq dsn (codes ":memory:")
        || contains_byte b'?' dsn)
      sqlite_path_not_allowed

-- Open down to sql.Open: the driver's name and the data source that it is given.
unfoldable pub configure : Sql → Env → Bytes → Result (Bytes × Bytes)
configure sql env driver = do
  kind ← kind_of driver
  let dsn = env (dsn_variable kind)
  refuse (not (registered sql (sql_driver kind))) database_driver_not_linked
  refuse (length dsn == 0 || ltb 8192 (length dsn)) database_configuration_missing
  check_dsn sql kind dsn
  ok (sql_driver kind, dsn)

abbrev pub record_event : Event → State → State
record_event e st = record st { log = e ∷ st.log }

-- Open under its lock.
unfoldable pub register : ℕ → State → Result ℕ × State
register db st =
    if leb 8 (length st.handles)
    then (err too_many_database_handles, record_event (closed db) st)
    else (
      ok ((st.current + 1) % 2 ^ 64),
      record st {
        current = (st.current + 1) % 2 ^ 64;
        handles = insert ((st.current + 1) % 2 ^ 64) (record { db = db; tx = none }) st.handles;
      },
    )

-- SetMaxOpenConns, SetMaxIdleConns, SetConnMaxLifetime (in seconds) and PingContext
unfoldable pub admit : Sql → ℕ → State → Result ℕ × State
admit sql db st =
    let ready = record_event (limited db 3 1 1800) st in
    let asked = record_event (pinged db) ready in
    if sql.ping ready.log db
    then register db asked
    else (err database_unavailable, record_event (closed db) asked)

unfoldable pub connect : Sql → Bytes → Bytes → State → Result ℕ × State
connect sql name dsn st =
    let reply = sql.open_pool st.log name dsn in
    let asked = record_event (opened name dsn reply) st in
    elim reply [ none ↦ (err database_open_failed, asked) | some db ↦ admit sql db asked ]

unfoldable pub open_db : Sql → Env → Bytes → State → Result ℕ × State
open_db sql env driver st = elim (configure sql env driver) [
  | err e ↦ (err e, st)
  | ok (name, dsn) ↦ connect sql name dsn st
]

unfoldable pub acquire : ℕ → State → Result Handle
acquire id st =
    if id == 0
    then err invalid_database_handle
    else elim (lookup id st.handles) [ none ↦ err invalid_database_handle | some h ↦ ok h ]

-- Close behind the lock: a transaction that is still open is rolled back first.
unfoldable pub release : Handle → State → State
release h st = elim h.tx [
  | none ↦ record_event (closed h.db) st
  | some t ↦ record_event (closed h.db) (record_event (rolled_back t) st)
]

unfoldable pub close_db : ℕ → State → Result (Unit {0}) × State
close_db id st =
    let rest = record st { handles = remove id st.handles } in
    elim (lookup id st.handles) [
      | none ↦ (err invalid_database_handle, rest)
      | some h ↦ (ok tt, release h rest)
    ]

-- CloseAll, with the keys of the map in the order in which they are met.
unfoldable pub close_all : List ℕ → State → State
close_all [] st = st
close_all (id ∷ ids) st = close_all ids (close_db id st).1

abbrev set_tx : ℕ → Handle → Option ℕ → State → State
set_tx id h t st = record st { handles = update id (record h { tx = t }) st.handles }

unfoldable pub begin_on : Sql → ℕ → Handle → State → Result (Unit {0}) × State
begin_on sql id h st = elim h.tx [
  | some t ↦ (err transaction_already_open, st)
  | none ↦
      let reply = sql.begin_tx st.log h.db in
      let asked = record_event (began h.db reply) st in
      elim reply [
        | none ↦ (err transaction_begin_failed, asked)
        | some t ↦ (ok tt, set_tx id h (some t) asked)
      ]
]

unfoldable pub begin_db : Sql → ℕ → State → Result (Unit {0}) × State
begin_db sql id st = elim (lookup id st.handles) [
  | none ↦ (err invalid_database_handle, st)
  | some h ↦ begin_on sql id h st
]

unfoldable pub finished : Bool → Result (Unit {0})
finished true = ok tt
finished false = err transaction_finish_failed

unfoldable pub finish_on : Sql → ℕ → Bool → Handle → State → Result (Unit {0}) × State
unfolding finished
finish_on sql id commit h st = elim h.tx [
  | none ↦ (err no_active_transaction, st)
  | some t ↦
      let idle = set_tx id h none st in
      if commit
      then (finished (sql.commit_tx st.log t), record_event (committed t) idle)
      else (finished (sql.rollback_tx st.log t), record_event (rolled_back t) idle)
]

unfoldable pub finish : Sql → ℕ → Bool → State → Result (Unit {0}) × State
finish sql id commit st = elim (lookup id st.handles) [
  | none ↦ (err no_active_transaction, st)
  | some h ↦ finish_on sql id commit h st
]

abbrev pub target : Handle → Target
target h = elim h.tx [ none ↦ Target.pool h.db | some t ↦ Target.tx t ]

-- What Exec and Query check before they take the lock.
unfoldable pub prepare : Sql → Bytes → List Bytes → Result (List Param)
prepare sql query args = do check_sql query; sql_args sql args

unfoldable pub affected : Option ℤ → Result ℤ
affected none = err database_execution_failed
affected (some n) = ok n

unfoldable pub exec_on : Sql → Handle → Bytes → List Param → State → Result ℤ × State
unfolding affected
exec_on sql h query params st = (
  affected (sql.exec_context st.log (target h) query params),
  record_event (executed (target h) query params) st,
)

unfoldable pub exec_db : Sql → ℕ → Bytes → List Bytes → State → Result ℤ × State
exec_db sql id query args st = elim (prepare sql query args) [
  | err e ↦ (err e, st)
  | ok params ↦ elim (lookup id st.handles) [
    | none ↦ (err invalid_database_handle, st)
    | some h ↦ exec_on sql h query params st
  ]
]

unfoldable pub answer : Option Rows → Result (List Bytes × List (List Cell))
answer none = err database_query_failed
answer (some rows) = read_rows rows

unfoldable pub query_on :
    Sql → Handle → Bytes → List Param → State → Result (List Bytes × List (List Cell)) × State
query_on sql h query params st = (
  answer (sql.query_context st.log (target h) query params),
  record_event (queried (target h) query params) st,
)

unfoldable pub query_db :
    Sql → ℕ → Bytes → List Bytes → State → Result (List Bytes × List (List Cell)) × State
query_db sql id query args st = elim (prepare sql query args) [
  | err e ↦ (err e, st)
  | ok params ↦ elim (lookup id st.handles) [
    | none ↦ (err invalid_database_handle, st)
    | some h ↦ query_on sql h query params st
  ]
]
