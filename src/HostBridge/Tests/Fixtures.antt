-- ===== src/HostBridge/Tests/Fixtures.antt =====
-- The outside world of the tests: a small database, a small network, and an operator's environment.
use noqeri_registry.Prelude.{◌+◌, true, false, List, [], ◌∷◌, none, some, length, if◌then◌else◌}
use noqeri_registry.Prelude.Text.{Bytes, Unicode, codes, str_eq}
use noqeri_registry.Prelude.Number.{pos}
use noqeri_registry.HostBridge.Db.Sql.{Cell, FloatClass, JsonValue, Rows, Sql}
use noqeri_registry.HostBridge.Http.Execute.{Url, Response, Web}
use noqeri_registry.HostBridge.Engine.Defs.{Outside}

-- A variable's value in a list of variables, the empty text where there is none.
unfoldable pub variable : List (Bytes × Bytes) → Bytes → Bytes
unfolding str_eq
variable [] name = []
variable ((n, value) ∷ rest) name = if str_eq n name then value else variable rest name

unfoldable pub env : Bytes → Bytes
unfolding variable codes
env = variable (
    (codes "NOQERI_SQLITE_PATH", codes "/srv/app.db")
    ∷ (codes "NOQERI_GITHUB_TOKEN", codes "ghp_0123456789")
    ∷ (codes "NOQERI_STRIPE_WEBHOOK_SECRET", codes "whsec_0123456789")
    ∷ [])

abbrev pub rows : Rows
rows = record {
  columns = some (codes "n" ∷ codes "name" ∷ []);
  rows = some (Cell.int (pos 7) ∷ Cell.bytes (codes "ann") ∷ []) ∷ [];
  complete = true;
}

-- Pools and transactions are numbered by the calls before them; all JSON is a text.
unfoldable pub sql : Sql
unfolding codes
sql = record {
  drivers = codes "sqlite" ∷ [];
  sslmode = λ dsn. none;
  json = λ raw. some (JsonValue.text raw);
  parse_float = λ x. FloatClass.malformed;
  open_pool = λ log name dsn. some (length log);
  ping = λ log db. true;
  begin_tx = λ log db. some (length log);
  commit_tx = λ log t. true;
  rollback_tx = λ log t. true;
  exec_context = λ log t query params. some (pos 1);
  query_context = λ log t query params. some rows;
}

abbrev pub unicode : Unicode
unicode = record { lower = λ s. s; upper = λ s. s; fold_eq = str_eq; trim = λ s. s }

abbrev pub user_url : Url
user_url = record {
  scheme = codes "https";
  hostname = codes "api.github.com";
  port = [];
  has_user = false;
  fragment = [];
  opaque = [];
  escaped_path = codes "/user";
  text = codes "https://api.github.com/user";
}

abbrev pub response : Response
response = record { status = 200; body = codes "ok"; fails = false }

unfoldable pub web : Web
unfolding codes
web = record {
  unicode = unicode;
  parse_url = λ s. some user_url;
  parse_ip = λ s. none;
  accepts = λ m s. true;
  with_key = λ u key. key;
  send = λ r. some response;
}

-- Not a good code, but one that depends on the secret and on the message: 32 bytes of their lengths.
unfoldable pub hmac : Bytes → Bytes → Bytes
hmac secret message =
    let n = length secret + length message in
    n ∷ n ∷ n ∷ n ∷ n ∷ n ∷ n ∷ n ∷ n ∷ n ∷ n ∷ n ∷ n ∷ n ∷ n ∷ n ∷ n ∷ n ∷ n ∷ n ∷ n ∷ n ∷ n ∷ n
    ∷ n ∷ n ∷ n ∷ n ∷ n ∷ n ∷ n ∷ n ∷ []

unfoldable pub outside : Outside
unfolding codes
outside = record {
  env = env;
  web = web;
  sql = sql;
  hmac = hmac;
  now = 1700000100;
  walk = codes "stripe" ∷ codes "github" ∷ [];
}
