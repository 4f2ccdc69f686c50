-- ===== src/HostBridge/Db/Handles.antt =====
-- The table of handles over any history: its bounds, and that a closed handle stays closed.
use noqeri_registry.Prelude.{
  ℕ, ◌+◌, ◌%◌, ◌^◌, ◌≤◌, ◌<◌, ◌≡◌, ◌≢◌, refl, List, [], ◌∷◌, Option, none, some, arith, length,
  lookup, Below, remove-Below, update-Below, lookup-remove, lookup-insert, lookup-update,
  length-remove-le, length-update, insert-Below, length-insert, lookup-le,
}
use noqeri_registry.HostBridge.Error.{ok}
use noqeri_registry.HostBridge.Db.Sql.{Sql}
use noqeri_registry.HostBridge.Db.Host.{State, Env, close_db, close_all, new_db_host}
use noqeri_registry.HostBridge.Db.Change.{
  Change, same, added, removed, updated, open_db-Change, close_db-Change, begin_db-Change,
  finish-Change, exec_db-Change, query_db-Change, close_db-current, close_db-handles,
  close_db-eq-ok,
}
use noqeri_registry.HostBridge.Db.Run.{
  Action, opens, closes, closes_all, begins, finishes, executes, queries, act, run,
}

-- The keys are distinct, positive and no greater than the counter, and they are at most eight.
pub record IsValid (st : State) : Type 0 where
  pub keyed : Below st.current st.handles
  pub bounded : length st.handles ≤ 8

-- The handle was given out in the past and is not in the table.
pub record IsSpent (id : ℕ) (st : State) : Type 0 where
  pub old : id ≤ st.current
  pub gone : lookup id st.handles ≡ none

Change-grows :
    {st st' : State}
    → Change st st'
    → st.current + 1 < 2 ^ 64
    → (st.current ≤ st'.current) × (st'.current ≤ st.current + 1)
Change-grows (same c h) room = omega arith
Change-grows (added db short c h) room = omega arith
Change-grows (removed id c h) room = omega arith
Change-grows (updated id hd t found c h) room = omega arith

pub Change-IsValid :
    {st st' : State} → Change st st' → st.current + 1 < 2 ^ 64 → IsValid st → IsValid st'
Change-IsValid (same c h) room v = record { keyed = rw (c, h) v.keyed; bounded = rw h v.bounded }
Change-IsValid {st} (added db short c h) room v =
    let next : (st.current + 1) % 2 ^ 64 ≡ st.current + 1 = omega arith in
    record {
      keyed =
          rw (c, h, next)
            (insert-Below st.current (st.current + 1) _ st.handles v.keyed (omega arith));
      bounded = rw h (omega (arith, length-insert ((st.current + 1) % 2 ^ 64) _ st.handles));
    }
Change-IsValid {st} (removed id c h) room v = record {
  keyed = rw (c, h) (remove-Below st.current id st.handles v.keyed);
  bounded = rw h (omega (arith, v.bounded, length-remove-le id st.handles));
}
Change-IsValid {st} (updated id hd t found c h) room v = record {
  keyed = rw (c, h) (update-Below st.current id _ st.handles v.keyed);
  bounded = rw h (omega (arith, v.bounded, length-update id (record hd { tx = t }) st.handles));
}

Change-IsSpent :
    {st st' : State} (id : ℕ)
    → Change st st'
    → st.current + 1 < 2 ^ 64
    → IsSpent id st
    → IsSpent id st'
Change-IsSpent id (same c h) room v = record { old = omega arith; gone = rw h v.gone }
Change-IsSpent {st} id (added db short c h) room v = record {
  old = omega arith;
  gone = rw (h, lookup-insert) (ground (arith, v.old, v.gone));
}
Change-IsSpent {st} id (removed j c h) room v = record {
  old = omega arith;
  gone = rw (h, lookup-remove) (ground (arith, v.gone));
}
Change-IsSpent {st} id (updated j hd t found c h) room v = record {
  old = omega arith;
  gone = rw (h, lookup-update j id _ hd st.handles found) (ground (arith, v.gone, found));
}

module _ (sql : Sql) (env : Env) where
  -- A property that every change keeps, and that does not need the counter to stand still, holds
  -- after a history that is too short to wrap the counter.
  module _ (P : State → Type 0)
      (keep : (st st' : State) → Change st st' → st.current + 1 < 2 ^ 64 → P st → P st') where
    once :
        (st st' : State)
        → Change st st'
        → st.current + 1 < 2 ^ 64
        → P st
        → P st' × (st'.current ≤ st.current + 1)
    once st st' c room p = (keep st st' c room p, (Change-grows c room).1)

    close_all-keeps :
        (ids : List ℕ) (st : State)
        → st.current + 1 < 2 ^ 64
        → P st
        → P (close_all ids st) × ((close_all ids st).current ≤ st.current + 1)
    unfolding close_all
    close_all-keeps [] st room p = (p, omega arith)
    close_all-keeps (id ∷ ids) st room p =
        let stays = close_db-current id st in
        let next = keep st _ (close_db-Change id st) room p in
        let rest = close_all-keeps ids (close_db id st).1 (omega (arith, stays)) next in
        (rest.0, omega (arith, rest.1, stays))

    pub act-keeps :
        (a : Action) (st : State)
        → st.current + 1 < 2 ^ 64
        → P st
        → P (act sql env a st) × ((act sql env a st).current ≤ st.current + 1)
    unfolding act
    act-keeps (opens driver) st = once st _ (open_db-Change sql env driver st)
    act-keeps (closes id) st = once st _ (close_db-Change id st)
    act-keeps (closes_all ids) st = close_all-keeps ids st
    act-keeps (begins id) st = once st _ (begin_db-Change sql id st)
    act-keeps (finishes id commit) st = once st _ (finish-Change sql id commit st)
    act-keeps (executes id query args) st = once st _ (exec_db-Change sql id query args st)
    act-keeps (queries id query args) st = once st _ (query_db-Change sql id query args st)

    pub run-keeps :
        (actions : List Action) (st : State)
        → st.current + length actions < 2 ^ 64
        → P st
        → P (run sql env actions st)
          × ((run sql env actions st).current ≤ st.current + length actions)
    unfolding run
    run-keeps [] st room p = (p, omega arith)
    run-keeps (a ∷ actions) st room p =
        let here = act-keeps a st (omega arith) p in
        let rest = run-keeps actions (act sql env a st) (omega (arith, here.1)) here.0 in
        (rest.0, omega (arith, rest.1, here.1))

pub new_db_host-IsValid : IsValid new_db_host
unfolding new_db_host
new_db_host-IsValid = record { keyed = tt; bounded = omega arith }

pub new_db_host-current : new_db_host.current ≡ 0
unfolding new_db_host
new_db_host-current = refl

module _ (sql : Sql) (env : Env) where
  run-new :
      (actions : List Action)
      → length actions < 2 ^ 64
      → IsValid (run sql env actions new_db_host)
        × ((run sql env actions new_db_host).current ≤ length actions)
  run-new actions short =
      let r =
        run-keeps sql env IsValid (λ st st' c room v. Change-IsValid c room v) actions new_db_host
          (omega (arith, new_db_host-current)) new_db_host-IsValid in
      (r.0, omega (arith, r.1, new_db_host-current))

-- After any history of fewer than 2 ^ 64 calls, whatever the databases answered, the handles are
-- distinct, lie between 1 and the counter, and are at most eight.
pub run-IsValid :
    (sql : Sql) (env : Env) (actions : List Action)
    → length actions < 2 ^ 64
    → IsValid (run sql env actions new_db_host)
run-IsValid sql env actions short = (run-new sql env actions short).0

lookup-ne-none : {A : Type 0} (o : Option A) → o ≢ none → (a : A) × (o ≡ some a)
lookup-ne-none none h = absurd (h refl)
lookup-ne-none (some a) h = (a, refl)

close_db-IsSpent :
    (id : ℕ) (st : State) → IsValid st → (close_db id st).0 ≡ ok tt → IsSpent id (close_db id st).1
close_db-IsSpent id st v done =
    let (h, found) = close_db-eq-ok id st done in
    let old = lookup-le st.current id h st.handles v.keyed found in
    record {
      old = omega (arith, old, close_db-current id st);
      gone = rw (close_db-handles id st, lookup-remove) (ground arith);
    }

-- A handle whose Close succeeded is never valid again: no later Open gives the same number to
-- another database, in any history of fewer than 2 ^ 64 calls altogether.
pub run-close_db :
    (sql : Sql) (env : Env) (before after : List Action) (id : ℕ)
    → length before + length after + 1 < 2 ^ 64
    → (close_db id (run sql env before new_db_host)).0 ≡ ok tt
    → lookup id (run sql env after (close_db id (run sql env before new_db_host)).1).handles ≡ none
run-close_db sql env before after id short done =
    let start = run-new sql env before (omega arith) in
    let st = run sql env before new_db_host in
    let spent = close_db-IsSpent id st start.0 done in
    let stays = close_db-current id st in
    let r =
      run-keeps sql env (IsSpent id) (λ s s' c room v. Change-IsSpent id c room v) after
        (close_db id st).1 (omega (arith, start.1, stays)) spent in
    r.0.gone
