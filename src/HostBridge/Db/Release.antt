-- ===== src/HostBridge/Db/Release.antt =====
-- Shutting down: what every history hands out is given back by CloseAll.
use noqeri_registry.Prelude.{
  ℕ, ◌+◌, ◌^◌, ◌<◌, ◌≡◌, ◌≢◌, refl, inl, inr, true, Option-cases, List, [], ◌∷◌, none, arith,
  length, ◌==◌, if◌then◌else◌, lookup, lookup-remove, total, eq-nil_of_lookup, any,
}
use noqeri_registry.HostBridge.Db.Sql.{Sql, Target}
use noqeri_registry.HostBridge.Db.Host.{State, Env, close_db, close_all, new_db_host}
use noqeri_registry.HostBridge.Db.Change.{close_db-Change, close_db-current, close_db-handles}
use noqeri_registry.HostBridge.Db.Run.{
  Action, opens, closes, closes_all, begins, finishes, executes, queries, act, run,
}
use noqeri_registry.HostBridge.Db.Handles.{
  IsValid, run-keeps, Change-IsValid, new_db_host-IsValid, act-keeps, new_db_host-current,
}
use noqeri_registry.HostBridge.Db.Ledger.{
  times_given, times_returned, holds, IsBalanced, open_db-IsBalanced, close_db-IsBalanced,
  begin_db-IsBalanced, finish-IsBalanced, exec_db-IsBalanced, query_db-IsBalanced,
}

module _ (sql : Sql) (env : Env) (r : Target) where
  close_all-IsBalanced :
      (ids : List ℕ) (st : State)
      → st.current + 1 < 2 ^ 64
      → IsValid st
      → IsBalanced r st
      → IsBalanced r (close_all ids st)
  unfolding close_all
  close_all-IsBalanced [] st room v b = b
  close_all-IsBalanced (id ∷ ids) st room v b =
      close_all-IsBalanced ids (close_db id st).1 (omega (arith, close_db-current id st))
        (Change-IsValid (close_db-Change id st) room v) (close_db-IsBalanced r id st v b)

  act-IsBalanced :
      (a : Action) (st : State)
      → st.current + 1 < 2 ^ 64
      → IsValid st
      → IsBalanced r st
      → IsBalanced r (act sql env a st)
  unfolding act
  act-IsBalanced (opens driver) st room v b = open_db-IsBalanced sql env r driver st room v b
  act-IsBalanced (closes id) st room v b = close_db-IsBalanced r id st v b
  act-IsBalanced (closes_all ids) st room v b = close_all-IsBalanced ids st room v b
  act-IsBalanced (begins id) st room v b = begin_db-IsBalanced sql r id st v b
  act-IsBalanced (finishes id commit) st room v b = finish-IsBalanced sql r id commit st v b
  act-IsBalanced (executes id query args) st room v b = exec_db-IsBalanced sql r id query args st b
  act-IsBalanced (queries id query args) st room v b = query_db-IsBalanced sql r id query args st b

  run-IsBalanced :
      (actions : List Action) (st : State)
      → st.current + length actions < 2 ^ 64
      → IsValid st
      → IsBalanced r st
      → IsBalanced r (run sql env actions st)
  unfolding run
  run-IsBalanced [] st room v b = b
  run-IsBalanced (a ∷ actions) st room v b =
      let next =
        act-keeps sql env IsValid (λ s s' c rm w. Change-IsValid c rm w) a st (omega arith) v in
      run-IsBalanced actions (act sql env a st) (omega (arith, next.1)) next.0
        (act-IsBalanced a st (omega arith) v b)

lookup-close_all :
    (ids : List ℕ) (st : State) (k : ℕ)
    → lookup k (close_all ids st).handles
      ≡ (if any (λ id. id == k) ids then none else lookup k st.handles)
unfolding close_all
lookup-close_all [] st k = refl
lookup-close_all (id ∷ ids) st k =
    rw
      (
        lookup-close_all ids (close_db id st).1 k,
        close_db-handles id st,
        lookup-remove id k st.handles,
      )
      (ground arith)

-- The list names each key of the map, in whatever order and however often.
abbrev pub Covers : List ℕ → State → Type 0
Covers ids st = (k : ℕ) → lookup k st.handles ≢ none → any (λ id. id == k) ids ≡ true

-- CloseAll empties the table, in whatever order it meets the handles.
close_all_empty : (ids : List ℕ) (st : State) → Covers ids st → (close_all ids st).handles ≡ []
close_all_empty ids st all = eq-nil_of_lookup _ λ k. elim (Option-cases (lookup k st.handles)) [
  | inl missing ↦ rw (lookup-close_all ids st k, missing) (ground arith)
  | inr (h, found) ↦ rw (lookup-close_all ids st k, all k (ground arith)) refl
]

new_db_host-IsBalanced : (r : Target) → IsBalanced r new_db_host
unfolding new_db_host times_given times_returned total
new_db_host-IsBalanced r = omega arith

balanced_empty :
    (r : Target) (st : State)
    → st.handles ≡ []
    → IsBalanced r st
    → times_given r st.log ≡ times_returned r st.log
unfolding total
balanced_empty r st e b =
    let nothing : total (holds r) st.handles ≡ 0 = rw e refl in omega (arith, b, nothing)

-- After any history of fewer than 2 ^ 64 - 1 calls and a CloseAll that names each open handle, no handle is
-- left, and every pool and every transaction that the databases handed out, whatever they
-- answered, was given back (closed; committed or rolled back) exactly as often.
pub run-close_all :
    (sql : Sql) (env : Env) (r : Target) (actions : List Action) (ids : List ℕ)
    → length actions + 1 < 2 ^ 64
    → Covers ids (run sql env actions new_db_host)
    → let st = close_all ids (run sql env actions new_db_host) in
      (st.handles ≡ []) × (times_given r st.log ≡ times_returned r st.log)
run-close_all sql env r actions ids short all =
    let st = run sql env actions new_db_host in
    let zero_now = new_db_host-current in
    let v =
      run-keeps sql env IsValid (λ s s' c rm w. Change-IsValid c rm w) actions new_db_host
        (omega (arith, zero_now)) new_db_host-IsValid in
    let b =
      run-IsBalanced sql env r actions new_db_host (omega (arith, zero_now)) new_db_host-IsValid
        (new_db_host-IsBalanced r) in
    let last = close_all-IsBalanced sql env r ids st (omega (arith, v.1, zero_now)) v.0 b in
    let empty = close_all_empty ids st all in
    (empty, balanced_empty r (close_all ids st) empty last)
