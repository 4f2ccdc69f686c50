-- ===== src/HostBridge/Serve/Actions.antt =====
-- A request changes the database host by at most one of its methods.
use noqeri_registry.Prelude.{
  ◌≤◌, ◌≡◌, refl, true, false, Bool-cases, Option-cases, inl, inr, arith, List, [], ◌∷◌, length,
  ltb,
}
use noqeri_registry.Prelude.Text.{Bytes, codes}
use noqeri_registry.Prelude.Number.{parse_uint}
use noqeri_registry.HostBridge.Message.{Message}
use noqeri_registry.HostBridge.Db.Host.{State}
use noqeri_registry.HostBridge.Db.Run.{
  Action, opens, closes, begins, finishes, executes, queries, act, run,
}
use noqeri_registry.HostBridge.Engine.Defs.{
  Outside, Engine, Op, Handler, invoke, stripe_verify_webhook, ping, http, http_status, db_open,
  db_close, db_query, db_exec, db_begin, db_commit, db_rollback, unknown, read_op, done,
  opened_reply, query_reply, exec_reply, http_reply, Symbol, provider_http_status,
  provider_http_json, noqeri_db_open, sqlite_open, db_close_symbol, db_execute_symbol, unregistered,
  read_symbol, invoke_symbol, dispatch_op, is_one, dispatch_with, find_provider, http_with,
  http_json, status_extern, open_extern, close_extern, execute_extern, invoke_extern, extern_reply,
  dispatch_service, dispatch,
}

module _ (out : Outside) where
  -- At most one method takes the database host from one state to the other.
  data Acts (st : State) : State → Type 0 where
    rests : Acts st st
    acts : (a : Action) → Acts st (act out.sql out.env a st)

  abbrev ActsBy : Handler → Type 0
  ActsBy h = (m : Message) (e : Engine) → Acts e.db (h m e).1.db

  dispatch_op-ActsBy :
      (extern : Handler) → ActsBy extern → (op : Op) → ActsBy (dispatch_op out extern op)
  unfolding dispatch_op done opened_reply query_reply exec_reply http_reply act
  dispatch_op-ActsBy extern good invoke m e = good m e
  dispatch_op-ActsBy extern good stripe_verify_webhook m e = rests
  dispatch_op-ActsBy extern good ping m e = rests
  dispatch_op-ActsBy extern good http m e = rests
  dispatch_op-ActsBy extern good http_status m e = rests
  dispatch_op-ActsBy extern good db_open m e = acts (opens m.driver)
  dispatch_op-ActsBy extern good db_close m e = acts (closes m.handle)
  dispatch_op-ActsBy extern good db_query m e = acts (queries m.handle m.query m.args)
  dispatch_op-ActsBy extern good db_exec m e = acts (executes m.handle m.query m.args)
  dispatch_op-ActsBy extern good db_begin m e = acts (begins m.handle)
  dispatch_op-ActsBy extern good db_commit m e = acts (finishes m.handle true)
  dispatch_op-ActsBy extern good db_rollback m e = acts (finishes m.handle false)
  dispatch_op-ActsBy extern good unknown m e = rests

  dispatch_with-ActsBy : (extern : Handler) → ActsBy extern → ActsBy (dispatch_with out extern)
  unfolding dispatch_with
  dispatch_with-ActsBy extern good m e = elim (Bool-cases (is_one m.version)) [
    | inl one ↦ elim (Bool-cases (ltb 128 (length m.id))) [
      | inl long ↦ rw (one, long) rests
      | inr fits ↦ rw (one, fits) (dispatch_op-ActsBy extern good (read_op m.op) m e)
    ]
    | inr other ↦ rw other rests
  ]

  module _ (d : Handler) (good : ActsBy d) where
    http_json-Acts : (args : List Bytes) (e : Engine) → Acts e.db (http_json out d args e).1.db
    unfolding http_json http_with
    http_json-Acts (method ∷ url ∷ a ∷ b ∷ c ∷ f ∷ body ∷ []) e =
        elim (Option-cases (out.web.parse_url url)) [
          | inl bad ↦ rw (bad, http_json) rests
          | inr (u, parsed) ↦ elim (Option-cases (find_provider out u.hostname out.walk)) [
            | inl missing ↦ rw (parsed, http_json, missing) rests
            | inr (p, found) ↦ rw (parsed, http_json, found) (good _ e)
          ]
        ]
    http_json-Acts _ e = rests

    status_extern-Acts :
        (args : List Bytes) (e : Engine) → Acts e.db (status_extern out d args e).1.db
    unfolding status_extern
    status_extern-Acts [] e = rests
    status_extern-Acts _ e = rests

    open_extern-Acts :
        (driver : Bytes) (args : List Bytes) (e : Engine)
        → Acts e.db (open_extern out d driver args e).1.db
    unfolding open_extern
    open_extern-Acts driver (a ∷ []) e = good _ e
    open_extern-Acts driver _ e = rests

    close_extern-Acts :
        (args : List Bytes) (e : Engine) → Acts e.db (close_extern out d args e).1.db
    unfolding close_extern
    close_extern-Acts (handle ∷ []) e = elim (Option-cases (parse_uint handle)) [
      | inl bad ↦ rw (bad, close_extern) rests
      | inr (id, read) ↦ rw (read, close_extern) (good _ e)
    ]
    close_extern-Acts _ e = rests

    execute_extern-Acts :
        (args : List Bytes) (e : Engine) → Acts e.db (execute_extern out d args e).1.db
    unfolding execute_extern
    execute_extern-Acts (handle ∷ query ∷ []) e = elim (Option-cases (parse_uint handle)) [
      | inl bad ↦ rw (bad, execute_extern) rests
      | inr (id, read) ↦ rw (read, execute_extern) (good _ e)
    ]
    execute_extern-Acts _ e = rests

    invoke_symbol-Acts :
        (symbol : Symbol) (args : List Bytes) (e : Engine)
        → Acts e.db (invoke_symbol out d symbol args e).1.db
    unfolding invoke_symbol
    invoke_symbol-Acts provider_http_status args e = status_extern-Acts args e
    invoke_symbol-Acts provider_http_json args e = http_json-Acts args e
    invoke_symbol-Acts noqeri_db_open args e = open_extern-Acts (codes "postgres") args e
    invoke_symbol-Acts sqlite_open args e = open_extern-Acts (codes "sqlite") args e
    invoke_symbol-Acts db_close_symbol args e = close_extern-Acts args e
    invoke_symbol-Acts db_execute_symbol args e = execute_extern-Acts args e
    invoke_symbol-Acts unregistered args e = rests

    extern_reply-ActsBy : ActsBy (extern_reply out d)
    unfolding extern_reply invoke_extern
    extern_reply-ActsBy m e = invoke_symbol-Acts (read_symbol m.symbol) m.arguments e

  dispatch_service-ActsBy : ActsBy (dispatch_service out)
  unfolding dispatch_service
  dispatch_service-ActsBy = dispatch_with-ActsBy _ (λ m e. rests)

  dispatch-ActsBy : ActsBy (dispatch out)
  unfolding dispatch
  dispatch-ActsBy = dispatch_with-ActsBy _ (extern_reply-ActsBy _ dispatch_service-ActsBy)

  Acts-run :
      (st st' : State)
      → Acts st st'
      → (actions : List Action) × (length actions ≤ 1) × (st' ≡ run out.sql out.env actions st)
  unfolding run
  Acts-run st st' rests = ([], omega arith, refl)
  Acts-run st st' (acts a) = (a ∷ [], omega arith, refl)

  -- What a request does to the databases is a history of at most one call.
  pub dispatch-run :
      (m : Message) (e : Engine)
      → (actions : List Action) × (length actions ≤ 1)
        × ((dispatch out m e).1.db ≡ run out.sql out.env actions e.db)
  dispatch-run m e = Acts-run e.db (dispatch out m e).1.db (dispatch-ActsBy m e)
