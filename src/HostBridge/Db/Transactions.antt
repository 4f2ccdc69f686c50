-- ===== src/HostBridge/Db/Transactions.antt =====
-- A handle as a state machine: no handle, no transaction, or one.
use noqeri_registry.Prelude.{
  ℕ, ◌≡◌, ◌≢◌, refl, inl, inr, Bool-cases, ◌∷◌, Bool, true, false, Option-cases, Option, none, some,
  arith, if◌then◌else◌, lookup, lookup-remove, lookup-update,
}
use noqeri_registry.HostBridge.Error.{
  Result, ok, err, invalid_database_handle, transaction_already_open, transaction_begin_failed,
  no_active_transaction, transaction_finish_failed,
}
use noqeri_registry.HostBridge.Db.Sql.{Sql, Log, began, committed, rolled_back, closed}
use noqeri_registry.HostBridge.Db.Host.{
  Handle, State, close_db, release, begin_on, begin_db, finished, finish_on, finish,
}
use noqeri_registry.HostBridge.Db.Change.{close_db-handles}

-- Where a handle stands: its pool, and its transaction.
pub data Phase : Type 0 where
  absent : Phase
  idle : ℕ → Phase
  active : ℕ → ℕ → Phase

phase_of : Option Handle → Phase
phase_of none = absent
phase_of (some h) = elim h.tx [ none ↦ idle h.db | some t ↦ active h.db t ]

unfoldable pub phase : State → ℕ → Phase
unfolding phase_of
phase st id = phase_of (lookup id st.handles)

-- A method on a handle: the phase and the log before, the result, and the phase and the log after.
abbrev pub Method : Type 1
Method = Phase → Log → Result (Unit {0}) → Phase → Log → Type 0

-- What Begin may do, by what the database answers to BeginTx on the handle's pool.
pub data Begins (sql : Sql) : Phase → Log → Result (Unit {0}) → Phase → Log → Type 0 where
  no_handle : (log : Log) → Begins sql absent log (err invalid_database_handle) absent log
  already :
      (db t : ℕ) (log : Log)
      → Begins sql (active db t) log (err transaction_already_open) (active db t) log
  failed :
      (db : ℕ) (log : Log)
      → sql.begin_tx log db ≡ none
      → Begins sql (idle db) log (err transaction_begin_failed) (idle db) (began db none ∷ log)
  started :
      (db t : ℕ) (log : Log)
      → sql.begin_tx log db ≡ some t
      → Begins sql (idle db) log (ok tt) (active db t) (began db (some t) ∷ log)

-- What Commit (`true`) and Rollback may do, by what the database answers on the transaction. A
-- transaction that fails to finish is given up all the same.
pub data Finishes (sql : Sql) : Bool → Phase → Log → Result (Unit {0}) → Phase → Log → Type 0 where
  no_handle :
      (commit : Bool) (log : Log)
      → Finishes sql commit absent log (err no_active_transaction) absent log
  nothing_open :
      (commit : Bool) (db : ℕ) (log : Log)
      → Finishes sql commit (idle db) log (err no_active_transaction) (idle db) log
  commit_done :
      (db t : ℕ) (log : Log)
      → sql.commit_tx log t ≡ true
      → Finishes sql true (active db t) log (ok tt) (idle db) (committed t ∷ log)
  commit_failed :
      (db t : ℕ) (log : Log)
      → sql.commit_tx log t ≡ false
      → Finishes sql true
          (active db t)
          log
          (err transaction_finish_failed)
          (idle db)
          (committed t ∷ log)
  rollback_done :
      (db t : ℕ) (log : Log)
      → sql.rollback_tx log t ≡ true
      → Finishes sql false (active db t) log (ok tt) (idle db) (rolled_back t ∷ log)
  rollback_failed :
      (db t : ℕ) (log : Log)
      → sql.rollback_tx log t ≡ false
      → Finishes sql false
          (active db t)
          log
          (err transaction_finish_failed)
          (idle db)
          (rolled_back t ∷ log)

-- What Close may do: the transaction is rolled back first, then the pool is closed.
pub data Closes : Phase → Log → Result (Unit {0}) → Phase → Log → Type 0 where
  no_handle : (log : Log) → Closes absent log (err invalid_database_handle) absent log
  closed_idle : (db : ℕ) (log : Log) → Closes (idle db) log (ok tt) absent (closed db ∷ log)
  closed_active :
      (db t : ℕ) (log : Log)
      → Closes (active db t) log (ok tt) absent (closed db ∷ rolled_back t ∷ log)

-- The other handles of the table stand where they stood.
pub SameElsewhere : ℕ → State → State → Type 0
SameElsewhere id st st' = (j : ℕ) → j ≢ id → lookup j st'.handles ≡ lookup j st.handles

-- A method between two states.
abbrev pub Between : Method → ℕ → State → Result (Unit {0}) × State → Type 0
Between R id st out =
    R (phase st id) st.log out.0 (phase out.1 id) out.1.log × SameElsewhere id st out.1

relate :
    (R : Method) (p p' q q' : Phase) (l l' k k' : Log) (r r' : Result (Unit {0}))
    → p ≡ p'
    → l ≡ l'
    → r ≡ r'
    → q ≡ q'
    → k ≡ k'
    → R p' l' r' q' k'
    → R p l r q k
relate R p p' q q' l l' k k' r r' e f g h i x = rw (e, f, g, h, i) x

begin_on-Begins :
    (sql : Sql) (id : ℕ) (h : Handle) (st : State)
    → lookup id st.handles ≡ some h
    → Between (Begins sql) id st (begin_on sql id h st)
unfolding begin_on phase SameElsewhere
begin_on-Begins sql id h st found = elim (Option-cases h.tx) [
  | inl free ↦ elim (Option-cases (sql.begin_tx st.log h.db)) [
    | inl refused ↦ (
      relate (Begins sql) _ _ _ _ _ _ _ _ _ _ (ground arith) refl (ground arith) (ground arith)
          (ground arith) (failed h.db st.log refused),
      λ j other. ground arith,
    )
    | inr (t, given) ↦ (
      relate (Begins sql) _ _ _ _ _ _ _ _ _ _ (ground arith) refl (ground arith)
          (ground (arith, lookup-update id id (record h { tx = some t }) h st.handles found))
          (ground arith) (started h.db t st.log given),
      λ j other. ground (arith, lookup-update id j (record h { tx = some t }) h st.handles found),
    )
  ]
  | inr (t, busy) ↦ (
    relate (Begins sql) _ _ _ _ _ _ _ _ _ _ (ground arith) refl (ground arith) (ground arith)
        (ground arith) (already h.db t st.log),
    λ j other. ground arith,
  )
]

begin_db_found :
    (sql : Sql) (id : ℕ) (h : Handle) (st : State)
    → lookup id st.handles ≡ some h
    → begin_db sql id st ≡ begin_on sql id h st
unfolding begin_db
begin_db_found sql id h st found = rw (found, begin_db)

begin_db_missing :
    (sql : Sql) (id : ℕ) (st : State)
    → lookup id st.handles ≡ none
    → Between (Begins sql) id st (begin_db sql id st)
unfolding begin_db phase SameElsewhere
begin_db_missing sql id st missing = (
  relate (Begins sql) _ _ _ _ _ _ _ _ _ _ (ground arith) refl (ground arith) (ground arith)
      (ground arith) (no_handle st.log),
  λ j other. ground arith,
)

-- Begin asks the database exactly on a handle that has no transaction, and the handle then has the
-- one that the database grants, or none if it refuses, which is an error. A handle that has one
-- already or that is unknown is refused without asking. No other handle is touched.
pub begin_db-Begins :
    (sql : Sql) (id : ℕ) (st : State) → Between (Begins sql) id st (begin_db sql id st)
begin_db-Begins sql id st = elim (Option-cases (lookup id st.handles)) [
  | inl missing ↦ begin_db_missing sql id st missing
  | inr (h, found) ↦ rw (begin_db_found sql id h st found) (begin_on-Begins sql id h st found)
]

-- The database's answer to the end of a transaction.
ended-Finishes :
    (sql : Sql) (commit : Bool) (db t : ℕ) (log : Log)
    → Finishes sql commit
        (active db t)
        log
        (finished (if commit then sql.commit_tx log t else sql.rollback_tx log t))
        (idle db)
        ((if commit then committed t else rolled_back t) ∷ log)
unfolding finished
ended-Finishes sql true db t log = elim (Bool-cases (sql.commit_tx log t)) [
  | inl done ↦ rw done (commit_done db t log done)
  | inr bad ↦ rw bad (commit_failed db t log bad)
]
ended-Finishes sql false db t log = elim (Bool-cases (sql.rollback_tx log t)) [
  | inl done ↦ rw done (rollback_done db t log done)
  | inr bad ↦ rw bad (rollback_failed db t log bad)
]

finish_on-Finishes :
    (sql : Sql) (id : ℕ) (commit : Bool) (h : Handle) (st : State)
    → lookup id st.handles ≡ some h
    → Between (Finishes sql commit) id st (finish_on sql id commit h st)
unfolding finish_on phase SameElsewhere
finish_on-Finishes sql id commit h st found = elim (Option-cases h.tx) [
  | inl free ↦ (
    relate (Finishes sql commit) _ _ _ _ _ _ _ _ _ _ (ground arith) refl (ground arith)
        (ground arith) (ground arith) (nothing_open commit h.db st.log),
    λ j other. ground arith,
  )
  | inr (t, busy) ↦ (
    relate (Finishes sql commit) _ _ _ _ _ _ _ _ _ _ (ground arith) refl (ground arith)
        (ground (arith, lookup-update id id (record h { tx = none }) h st.handles found))
        (ground arith) (ended-Finishes sql commit h.db t st.log),
    λ j other. ground (arith, lookup-update id j (record h { tx = none }) h st.handles found),
  )
]

finish_found :
    (sql : Sql) (id : ℕ) (commit : Bool) (h : Handle) (st : State)
    → lookup id st.handles ≡ some h
    → finish sql id commit st ≡ finish_on sql id commit h st
unfolding finish
finish_found sql id commit h st found = rw (found, finish)

finish_missing :
    (sql : Sql) (id : ℕ) (commit : Bool) (st : State)
    → lookup id st.handles ≡ none
    → Between (Finishes sql commit) id st (finish sql id commit st)
unfolding finish phase SameElsewhere
finish_missing sql id commit st missing = (
  relate (Finishes sql commit) _ _ _ _ _ _ _ _ _ _ (ground arith) refl (ground arith) (ground arith)
      (ground arith) (no_handle commit st.log),
  λ j other. ground arith,
)

-- Commit asks the database to commit, and Rollback to roll back, the transaction of a handle that has
-- one; they succeed exactly if the database does, and the handle has none afterwards either way. On
-- every other handle they are refused without asking. No other handle is touched.
pub finish-Finishes :
    (sql : Sql) (id : ℕ) (commit : Bool) (st : State)
    → Between (Finishes sql commit) id st (finish sql id commit st)
finish-Finishes sql id commit st = elim (Option-cases (lookup id st.handles)) [
  | inl missing ↦ finish_missing sql id commit st missing
  | inr (h, found) ↦
      rw (finish_found sql id commit h st found) (finish_on-Finishes sql id commit h st found)
]

close_db_result :
    (id : ℕ) (st : State)
    → Closes (phase st id) st.log (close_db id st).0 absent (close_db id st).1.log
unfolding close_db release phase
close_db_result id st = elim (Option-cases (lookup id st.handles)) [
  | inl missing ↦
      relate Closes _ _ _ _ _ _ _ _ _ _ (ground arith) refl (ground arith) refl (ground arith)
        (no_handle st.log)
  | inr (h, found) ↦ elim (Option-cases h.tx) [
    | inl free ↦
        relate Closes _ _ _ _ _ _ _ _ _ _ (ground arith) refl (ground arith) refl (ground arith)
          (closed_idle h.db st.log)
    | inr (t, busy) ↦
        relate Closes _ _ _ _ _ _ _ _ _ _ (ground arith) refl (ground arith) refl (ground arith)
          (closed_active h.db t st.log)
  ]
]

-- Close succeeds exactly on a handle of the table; a transaction that it has is rolled back, and then
-- its pool is closed. The handle is gone afterwards, and no other handle is touched.
pub close_db-Closes : (id : ℕ) (st : State) → Between Closes id st (close_db id st)
unfolding phase SameElsewhere
close_db-Closes id st = (
  relate Closes _ _ _ _ _ _ _ _ _ _ refl refl refl
      (ground (arith, close_db-handles id st, lookup-remove id id st.handles)) refl
      (close_db_result id st),
  λ j other. ground (arith, close_db-handles id st, lookup-remove id j st.handles),
)
