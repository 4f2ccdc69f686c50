-- ===== src/HostBridge/Message.antt =====
-- The messages of the host process: Message and Result of internal/hostbridge/host.go.
use noqeri_registry.Prelude.{
  ℕ, Bool, true, false, List, [], Option, none, some, length, ltb, if◌then◌else◌,
}
use noqeri_registry.Prelude.Text.{Bytes, codes}
use noqeri_registry.Prelude.Number.{ℤ, pos}
use noqeri_registry.HostBridge.Error.{Error, code}
use noqeri_registry.HostBridge.Db.Sql.{Cell}

pub record Message : Type 0 where
  pub version : ℤ
  pub id : Bytes
  pub op : Bytes
  pub provider : Bytes
  pub method : Bytes
  pub url : Bytes
  pub body : Bytes
  pub driver : Bytes
  pub handle : ℕ
  pub query : Bytes
  pub args : List Bytes
  pub symbol : Bytes
  pub arguments : List Bytes
  pub signature : Bytes

-- The fields that a literal leaves out.
abbrev pub no_message : Message
no_message = record {
  version = pos 0;
  id = [];
  op = [];
  provider = [];
  method = [];
  url = [];
  body = [];
  driver = [];
  handle = 0;
  query = [];
  args = [];
  symbol = [];
  arguments = [];
  signature = [];
}

-- The struct `Result` of host.go.
pub record Reply : Type 0 where
  pub version : ℕ
  pub id : Bytes
  pub ok : Bool
  pub status : ℕ
  pub body : Bytes
  pub handle : ℕ
  pub affected : ℤ
  pub columns : List Bytes
  pub rows : List (List Cell)
  pub error : Bytes

-- `Result{Version: 1, ID: id}`
abbrev pub new_reply : Bytes → Reply
new_reply id = record {
  version = 1;
  id = id;
  ok = false;
  status = 0;
  body = [];
  handle = 0;
  affected = pos 0;
  columns = [];
  rows = [];
  error = [];
}

abbrev pub refusal : Bytes → Error → Reply
refusal id e = record (new_reply id) { error = code e }

-- The errors that safeError tells apart.
pub data Failure : Type 0 where
  deadline_exceeded canceled : Failure
  plain : Bytes → Failure

unfoldable pub safe_error : Failure → Bytes
safe_error deadline_exceeded = codes "timeout"
safe_error canceled = codes "cancelled"
safe_error (plain text) = if ltb 90 (length text) then codes "operation_failed" else text

-- The end of Dispatch: an error code, or success.
unfoldable pub settle : Option Error → Reply → Reply
settle none r = record r { ok = true }
settle (some e) r = record r { error = safe_error (plain (code e)) }
