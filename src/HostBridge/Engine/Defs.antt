-- ===== src/HostBridge/Engine/Defs.antt =====
-- Engine.Dispatch of host.go and InvokeNoqeriExtern of extern.go. The two call one another, but an
-- extern never invokes an extern, so each is given the other as an argument.
use noqeri_registry.Prelude.{
  ℕ, zero, suc, Bool, true, false, not, ◌||◌, List, [], ◌∷◌, Option, none, some, length, ltb,
  if◌then◌else◌,
}
use noqeri_registry.Prelude.Text.{Bytes, codes, str_eq}
use noqeri_registry.Prelude.Number.{ℤ, pos, parse_uint, format_nat}
use noqeri_registry.HostBridge.Error.{
  Error, Result, ok, err, unsupported_protocol, invalid_id, unknown_operation,
  invalid_argument_count, invalid_url, provider_host_not_allowed, invalid_database_handle,
  unregistered_extern,
}
use noqeri_registry.HostBridge.Message.{Message, no_message, Reply, new_reply, refusal, settle}
use noqeri_registry.HostBridge.Db.Sql.{Sql, Cell}
use noqeri_registry.HostBridge.Db.Host.{
  State, new_db_host, open_db, close_db, begin_db, finish, exec_db, query_db,
}
use noqeri_registry.HostBridge.Payment.{verify_stripe_signature}
use noqeri_registry.HostBridge.Http.Execute.{Web, Outcome, execute}
use noqeri_registry.HostBridge.Http.Providers.{allowed_host}

-- What one request meets outside the process: the environment, the network, the databases, the
-- HMAC, the clock, and the order in which `range providerHosts` goes through the map.
pub record Outside : Type 0 where
  pub env : Bytes → Bytes
  pub web : Web
  pub sql : Sql
  pub hmac : Bytes → Bytes → Bytes
  pub now : ℕ
  pub walk : List Bytes

pub record Engine : Type 0 where
  pub db : State
  pub last_status : ℕ

-- NewEngine
unfoldable pub new_engine : Engine
new_engine = record { db = new_db_host; last_status = 0 }

-- The cases of the switch in Dispatch.
pub data Op : Type 0 where
  invoke stripe_verify_webhook ping http http_status : Op
  db_open db_close db_query db_exec db_begin db_commit db_rollback unknown : Op

unfoldable pub read_op : Bytes → Op
read_op op =
    if str_eq op (codes "invoke")
    then invoke
    else if str_eq op (codes "stripe_verify_webhook")
    then stripe_verify_webhook
    else if str_eq op (codes "ping")
    then ping
    else if str_eq op (codes "http")
    then http
    else if str_eq op (codes "http_status")
    then http_status
    else if str_eq op (codes "db_open")
    then db_open
    else if str_eq op (codes "db_close")
    then db_close
    else if str_eq op (codes "db_query")
    then db_query
    else if str_eq op (codes "db_exec")
    then db_exec
    else if str_eq op (codes "db_begin")
    then db_begin
    else if str_eq op (codes "db_commit")
    then db_commit
    else if str_eq op (codes "db_rollback")
    then db_rollback
    else unknown

-- The cases of the switch in InvokeNoqeriExtern; the two opening symbols differ in the driver.
pub data Symbol : Type 0 where
  provider_http_status provider_http_json noqeri_db_open sqlite_open : Symbol
  db_close_symbol db_execute_symbol unregistered : Symbol

unfoldable pub read_symbol : Bytes → Symbol
read_symbol symbol =
    if str_eq symbol (codes "providerHttpStatus")
    then provider_http_status
    else if str_eq symbol (codes "providerHttpJson")
    then provider_http_json
    else if str_eq symbol (codes "noqeriDbOpen")
    then noqeri_db_open
    else if str_eq symbol (codes "sqliteOpen")
    then sqlite_open
    else if str_eq symbol (codes "noqeriDbClose") || str_eq symbol (codes "sqliteClose")
    then db_close_symbol
    else if str_eq symbol (codes "noqeriDbExecute") || str_eq symbol (codes "sqliteExecute")
    then db_execute_symbol
    else unregistered

-- `m.Version == 1`
abbrev pub is_one : ℤ → Bool
is_one (pos (suc zero)) = true
is_one _ = false

abbrev pub Handler : Type 0
Handler = Message → Engine → Reply × Engine

abbrev pub error_of {ℓ} : {A : Type ℓ} → Result A → Option Error
error_of (ok a) = none
error_of (err e) = some e

abbrev pub value_or {ℓ} : {A : Type ℓ} → A → Result A → A
value_or d (ok a) = a
value_or d (err e) = d

abbrev put : Engine → State → Engine
put e st = record e { db = st }

unfoldable pub done : Message → Engine → Result (Unit {0}) × State → Reply × Engine
done m e (r, st) = (settle (error_of r) (new_reply m.id), put e st)

unfoldable pub opened_reply : Message → Engine → Result ℕ × State → Reply × Engine
opened_reply m e (r, st) =
    (settle (error_of r) (record (new_reply m.id) { handle = value_or 0 r }), put e st)

unfoldable pub query_reply :
    Message → Engine → Result (List Bytes × List (List Cell)) × State → Reply × Engine
query_reply m e (r, st) = (
  settle (error_of r) (record (new_reply m.id) {
    columns = (value_or ([], []) r).0;
    rows = (value_or ([], []) r).1;
  }),
  put e st,
)

unfoldable pub exec_reply : Message → Engine → Result ℤ × State → Reply × Engine
exec_reply m e (r, st) =
    (settle (error_of r) (record (new_reply m.id) { affected = value_or (pos 0) r }), put e st)

unfoldable pub http_reply : Message → Engine → Outcome → Reply × Engine
http_reply m e o = (
  settle o.error (record (new_reply m.id) { status = o.status; body = o.body }),
  record e { last_status = o.status },
)

module _ (out : Outside) where
  open out use {env, web, sql, hmac, now}

  -- The switch of Dispatch.
  unfoldable pub dispatch_op : Handler → Op → Handler
  dispatch_op extern invoke m e = extern m e
  dispatch_op extern stripe_verify_webhook m e = (
    settle
        (error_of (
          verify_stripe_signature hmac web.unicode m.body m.signature
            (env (codes "NOQERI_STRIPE_WEBHOOK_SECRET")) now))
        (new_reply m.id),
    e,
  )
  dispatch_op extern ping m e = (record (new_reply m.id) { ok = true; body = codes "pong" }, e)
  dispatch_op extern http m e = http_reply m e (
      execute web env
        (record { provider = m.provider; method = m.method; url = m.url; body = m.body }))
  dispatch_op extern http_status m e =
      (record (new_reply m.id) { ok = true; status = e.last_status }, e)
  dispatch_op extern db_open m e = opened_reply m e (open_db sql env m.driver e.db)
  dispatch_op extern db_close m e = done m e (close_db m.handle e.db)
  dispatch_op extern db_query m e = query_reply m e (query_db sql m.handle m.query m.args e.db)
  dispatch_op extern db_exec m e = exec_reply m e (exec_db sql m.handle m.query m.args e.db)
  dispatch_op extern db_begin m e = done m e (begin_db sql m.handle e.db)
  dispatch_op extern db_commit m e = done m e (finish sql m.handle true e.db)
  dispatch_op extern db_rollback m e = done m e (finish sql m.handle false e.db)
  dispatch_op extern unknown m e = (refusal m.id unknown_operation, e)

  unfoldable pub dispatch_with : Handler → Handler
  dispatch_with extern m e =
      if not (is_one m.version)
      then (refusal m.id unsupported_protocol, e)
      else if ltb 128 (length m.id)
      then (refusal m.id invalid_id, e)
      else dispatch_op extern (read_op m.op) m e

  -- The first provider on the walk that the host belongs to.
  unfoldable pub find_provider : Bytes → List Bytes → Option Bytes
  find_provider hostname [] = none
  find_provider hostname (name ∷ names) =
      let rest = find_provider hostname names in
      if allowed_host web.unicode name hostname then some name else rest

  module _ (dispatch : Handler) where
    unfoldable pub http_with : Bytes → Bytes → Bytes → Option Bytes → Engine → Reply × Engine
    http_with method url body none e = (refusal [] provider_host_not_allowed, e)
    http_with method url body (some provider) e =
        dispatch
          (record no_message {
            version = pos 1;
            op = codes "http";
            provider = provider;
            method = method;
            url = url;
            body = body;
          })
          e

    unfoldable pub http_json : List Bytes → Engine → Reply × Engine
    http_json (method ∷ url ∷ _ ∷ _ ∷ _ ∷ _ ∷ body ∷ []) e = elim (web.parse_url url) [
      | none ↦ (refusal [] invalid_url, e)
      | some u ↦ http_with method url body (find_provider u.hostname out.walk) e
    ]
    http_json _ e = (refusal [] invalid_argument_count, e)

    unfoldable pub status_extern : List Bytes → Engine → Reply × Engine
    status_extern [] e = (
      record (new_reply []) { ok = true; status = e.last_status; body = format_nat e.last_status },
      e,
    )
    status_extern _ e = (refusal [] invalid_argument_count, e)

    unfoldable pub open_extern : Bytes → List Bytes → Engine → Reply × Engine
    open_extern driver (_ ∷ []) e =
        dispatch (record no_message { version = pos 1; op = codes "db_open"; driver = driver }) e
    open_extern driver _ e = (refusal [] invalid_argument_count, e)

    unfoldable pub close_extern : List Bytes → Engine → Reply × Engine
    close_extern (handle ∷ []) e = elim (parse_uint handle) [
      | none ↦ (refusal [] invalid_database_handle, e)
      | some id ↦
          dispatch (record no_message { version = pos 1; op = codes "db_close"; handle = id }) e
    ]
    close_extern _ e = (refusal [] invalid_argument_count, e)

    unfoldable pub execute_extern : List Bytes → Engine → Reply × Engine
    execute_extern (handle ∷ query ∷ []) e = elim (parse_uint handle) [
      | none ↦ (refusal [] invalid_database_handle, e)
      | some id ↦
          dispatch
            (record no_message {
              version = pos 1;
              op = codes "db_exec";
              handle = id;
              query = query;
            })
            e
    ]
    execute_extern _ e = (refusal [] invalid_argument_count, e)

    -- InvokeNoqeriExtern
    unfoldable pub invoke_symbol : Symbol → List Bytes → Engine → Reply × Engine
    invoke_symbol provider_http_status args e = status_extern args e
    invoke_symbol provider_http_json args e = http_json args e
    invoke_symbol noqeri_db_open args e = open_extern (codes "postgres") args e
    invoke_symbol sqlite_open args e = open_extern (codes "sqlite") args e
    invoke_symbol db_close_symbol args e = close_extern args e
    invoke_symbol db_execute_symbol args e = execute_extern args e
    invoke_symbol unregistered args e = (refusal [] unregistered_extern, e)

    unfoldable pub invoke_extern : Bytes → List Bytes → Engine → Reply × Engine
    invoke_extern symbol args e = invoke_symbol (read_symbol symbol) args e

  -- The case `invoke` of Dispatch: the extern's reply under the request's id.
  unfoldable pub extern_reply : Handler → Handler
  extern_reply dispatch m e =
      let (r, e') = invoke_extern dispatch m.symbol m.arguments e in (record r { id = m.id }, e')

  -- Dispatch as an extern calls it; its own case `invoke` is never reached.
  unfoldable pub dispatch_service : Handler
  dispatch_service = dispatch_with (λ m e. (refusal m.id unknown_operation, e))

  unfoldable pub dispatch : Handler
  dispatch = dispatch_with (extern_reply dispatch_service)
