-- ===== src/HostBridge/Db/Change.antt =====
-- What a method of DBHost can do to the table of handles, without the log.
use noqeri_registry.Prelude.{
  ℕ, ◌+◌, ◌%◌, ◌^◌, ◌<◌, ◌≡◌, refl, Bool, leb, Bool-cases, Option-cases, inl, inr, List, ◌∷◌,
  Option, none, some, arith, length, lookup, insert, remove, update,
}
use noqeri_registry.Prelude.Text.{Bytes}
use noqeri_registry.HostBridge.Error.{Fallible-cases, ok}
use noqeri_registry.HostBridge.Db.Sql.{Sql, limited}
use noqeri_registry.HostBridge.Db.Host.{
  Handle, State, Env, configure, register, admit, connect, open_db, release, close_db, begin_on,
  begin_db, finish_on, finish, prepare, exec_on, exec_db, query_on, query_db,
}

pub data Change (st st' : State) : Type 0 where
  same : st'.current ≡ st.current → st'.handles ≡ st.handles → Change st st'
  added :
      (db : ℕ)
      → length st.handles < 8
      → st'.current ≡ (st.current + 1) % 2 ^ 64
      → st'.handles ≡ insert ((st.current + 1) % 2 ^ 64) (record { db = db; tx = none }) st.handles
      → Change st st'
  removed : (id : ℕ) → st'.current ≡ st.current → st'.handles ≡ remove id st.handles → Change st st'
  updated :
      (id : ℕ) (h : Handle) (t : Option ℕ)
      → lookup id st.handles ≡ some h
      → st'.current ≡ st.current
      → st'.handles ≡ update id (record h { tx = t }) st.handles
      → Change st st'

register-Change : (db : ℕ) (st : State) → Change st (register db st).1
unfolding register
register-Change db st = elim (Bool-cases (leb 8 (length st.handles))) [
  | inl full ↦ rw full (same refl refl)
  | inr room ↦ rw room (added db (ground arith) refl refl)
]

-- `Change` reads no log.
Change-log :
    (st st' st'' : State)
    → st'.current ≡ st.current
    → st'.handles ≡ st.handles
    → Change st' st''
    → Change st st''
Change-log st st' st'' c h (same c' h') = same (cc) (cc)
Change-log st st' st'' c h (added db room c' h') =
    added db (rw (← h) room) (rw (← c) c') (rw (← c, ← h) h')
Change-log st st' st'' c h (removed id c' h') = removed id (cc) (rw (← h) h')
Change-log st st' st'' c h (updated id hd t found c' h') = updated id hd t (cc) (cc) (rw (← h) h')

admit-Change : (sql : Sql) (db : ℕ) (st : State) → Change st (admit sql db st).1
unfolding admit
admit-Change sql db st = elim (Bool-cases (sql.ping (limited db 3 1 1800 ∷ st.log) db)) [
  | inl alive ↦ rw alive (Change-log st _ _ refl refl (register-Change db _))
  | inr dead ↦ rw dead (same refl refl)
]

connect-Change : (sql : Sql) (name dsn : Bytes) (st : State) → Change st (connect sql name dsn st).1
unfolding connect
connect-Change sql name dsn st = elim (Option-cases (sql.open_pool st.log name dsn)) [
  | inl failed ↦ rw (failed, connect) (same refl refl)
  | inr (db, opened) ↦ rw (opened, connect) (Change-log st _ _ refl refl (admit-Change sql db _))
]

pub open_db-Change :
    (sql : Sql) (env : Env) (driver : Bytes) (st : State) → Change st (open_db sql env driver st).1
unfolding open_db
open_db-Change sql env driver st = elim (Fallible-cases (configure sql env driver)) [
  | inl (c, e) ↦ rw (e, open_db) (connect-Change sql c.0 c.1 st)
  | inr (c, e) ↦ rw (e, open_db) (same refl refl)
]

release_keeps :
    (h : Handle) (st : State)
    → ((release h st).current ≡ st.current) × ((release h st).handles ≡ st.handles)
unfolding release
release_keeps h st = ground arith

pub close_db-Change : (id : ℕ) (st : State) → Change st (close_db id st).1
unfolding close_db
close_db-Change id st = elim (Option-cases (lookup id st.handles)) [
  | inl missing ↦ rw (missing, close_db) (removed id refl refl)
  | inr (h, found) ↦
      let kept = release_keeps h (record st { handles = remove id st.handles }) in
      rw (found, close_db) (removed id kept.0 kept.1)
]

pub close_db-current : (id : ℕ) (st : State) → (close_db id st).1.current ≡ st.current
unfolding close_db
close_db-current id st = elim (Option-cases (lookup id st.handles)) [
  | inl missing ↦ rw (missing, close_db)
  | inr (h, found) ↦
      rw (found, close_db) ((release_keeps h (record st { handles = remove id st.handles })).0)
]

pub close_db-handles : (id : ℕ) (st : State) → (close_db id st).1.handles ≡ remove id st.handles
unfolding close_db
close_db-handles id st = elim (Option-cases (lookup id st.handles)) [
  | inl missing ↦ rw (missing, close_db)
  | inr (h, found) ↦
      rw (found, close_db) ((release_keeps h (record st { handles = remove id st.handles })).1)
]

pub close_db-eq-ok :
    (id : ℕ) (st : State)
    → (close_db id st).0 ≡ ok tt
    → (h : Handle) × (lookup id st.handles ≡ some h)
unfolding close_db
close_db-eq-ok id st done = elim (Option-cases (lookup id st.handles)) [
  | inl missing ↦ cc (rw (missing, close_db) at done)
  | inr found ↦ found
]

begin_on-Change :
    (sql : Sql) (id : ℕ) (h : Handle) (st : State)
    → lookup id st.handles ≡ some h
    → Change st (begin_on sql id h st).1
unfolding begin_on
begin_on-Change sql id h st found = elim (Option-cases h.tx) [
  | inl idle ↦ elim (Option-cases (sql.begin_tx st.log h.db)) [
    | inl failed ↦ rw (idle, begin_on, failed) (same refl refl)
    | inr (t, began) ↦ rw (idle, begin_on, began) (updated id h (some t) found refl refl)
  ]
  | inr (t, busy) ↦ rw (busy, begin_on) (same refl refl)
]

pub begin_db-Change : (sql : Sql) (id : ℕ) (st : State) → Change st (begin_db sql id st).1
unfolding begin_db
begin_db-Change sql id st = elim (Option-cases (lookup id st.handles)) [
  | inl missing ↦ rw (missing, begin_db) (same refl refl)
  | inr (h, found) ↦ rw (found, begin_db) (begin_on-Change sql id h st found)
]

finish_on-Change :
    (sql : Sql) (id : ℕ) (commit : Bool) (h : Handle) (st : State)
    → lookup id st.handles ≡ some h
    → Change st (finish_on sql id commit h st).1
unfolding finish_on
finish_on-Change sql id commit h st found = elim (Option-cases h.tx) [
  | inl idle ↦ rw (idle, finish_on) (same refl refl)
  | inr (t, busy) ↦ rw (busy, finish_on) (updated id h none found (ground arith) (ground arith))
]

pub finish-Change :
    (sql : Sql) (id : ℕ) (commit : Bool) (st : State) → Change st (finish sql id commit st).1
unfolding finish
finish-Change sql id commit st = elim (Option-cases (lookup id st.handles)) [
  | inl missing ↦ rw (missing, finish) (same refl refl)
  | inr (h, found) ↦ rw (found, finish) (finish_on-Change sql id commit h st found)
]

pub exec_db-Change :
    (sql : Sql) (id : ℕ) (query : Bytes) (args : List Bytes) (st : State)
    → Change st (exec_db sql id query args st).1
unfolding exec_db exec_on
exec_db-Change sql id query args st = elim (Fallible-cases (prepare sql query args)) [
  | inl (params, e) ↦ elim (Option-cases (lookup id st.handles)) [
    | inl missing ↦ rw (e, exec_db, missing) (same refl refl)
    | inr (h, found) ↦ rw (e, exec_db, found) (same refl refl)
  ]
  | inr (bad, e) ↦ rw (e, exec_db) (same refl refl)
]

pub query_db-Change :
    (sql : Sql) (id : ℕ) (query : Bytes) (args : List Bytes) (st : State)
    → Change st (query_db sql id query args st).1
unfolding query_db query_on
query_db-Change sql id query args st = elim (Fallible-cases (prepare sql query args)) [
  | inl (params, e) ↦ elim (Option-cases (lookup id st.handles)) [
    | inl missing ↦ rw (e, query_db, missing) (same refl refl)
    | inr (h, found) ↦ rw (e, query_db, found) (same refl refl)
  ]
  | inr (bad, e) ↦ rw (e, query_db) (same refl refl)
]
