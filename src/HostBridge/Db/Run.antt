-- ===== src/HostBridge/Db/Run.antt =====
-- Histories: the methods of DBHost in the order in which they take its lock.
use noqeri_registry.Prelude.{ℕ, Bool, List, [], ◌∷◌}
use noqeri_registry.Prelude.Text.{Bytes}
use noqeri_registry.HostBridge.Db.Sql.{Sql}
use noqeri_registry.HostBridge.Db.Host.{
  State, Env, open_db, close_db, close_all, begin_db, finish, exec_db, query_db,
}

pub data Action : Type 0 where
  opens : Bytes → Action
  closes : ℕ → Action
  closes_all : List ℕ → Action
  begins : ℕ → Action
  finishes : ℕ → Bool → Action
  executes queries : ℕ → Bytes → List Bytes → Action

module _ (sql : Sql) (env : Env) where
  unfoldable pub act : Action → State → State
  act (opens driver) st = (open_db sql env driver st).1
  act (closes id) st = (close_db id st).1
  act (closes_all ids) st = close_all ids st
  act (begins id) st = (begin_db sql id st).1
  act (finishes id commit) st = (finish sql id commit st).1
  act (executes id query args) st = (exec_db sql id query args st).1
  act (queries id query args) st = (query_db sql id query args st).1

  unfoldable pub run : List Action → State → State
  run [] st = st
  run (a ∷ actions) st = run actions (act a st)
