-- ===== src/HostBridge/Db/Sql.antt =====
-- What db.go takes from outside: the package database/sql with its drivers, url.Parse and the JSON
-- and float readers. A database may answer anything, and its answer may depend on all that
-- happened before, so each call is given the log of the calls up to it.
use noqeri_registry.Prelude.{ℕ, Bool, List, Option}
use noqeri_registry.Prelude.Text.{Bytes}
use noqeri_registry.Prelude.Number.{ℤ}

-- The `*sql.DB` or the `*sql.Tx` that a statement runs on, by the object's identity.
pub data Target : Type 0 where
  pool : ℕ → Target
  tx : ℕ → Target

-- A bound parameter; a float64 is named by the JSON number that it is read from.
pub data Param : Type 0 where
  null : Param
  bool : Bool → Param
  text : Bytes → Param
  int : ℤ → Param
  float : Bytes → Param

-- What json.Decoder gives with UseNumber; the insides of arrays and objects play no part.
pub data JsonValue : Type 0 where
  null : JsonValue
  bool : Bool → JsonValue
  text : Bytes → JsonValue
  number : Bytes → JsonValue
  array object : JsonValue

-- The outcome of strconv.ParseFloat.
pub data FloatClass : Type 0 where
  malformed infinite nan finite : FloatClass

-- A value that Rows.Scan stores in an `any`; `other` holds the text that fmt.Sprint gives it.
pub data Cell : Type 0 where
  null : Cell
  int : ℤ → Cell
  float : Bytes → Cell
  bool : Bool → Cell
  time : ℕ → Cell
  bytes : Bytes → Cell
  text : Bytes → Cell
  other : Bytes → Cell

-- A result set: Columns(), the rows that Next() yields, each with the values that Scan finds or
-- `none` for its error, and whether Err() is nil at the end.
pub record Rows : Type 0 where
  pub columns : Option (List Bytes)
  pub rows : List (Option (List Cell))
  pub complete : Bool

pub data Event : Type 0 where
  opened : Bytes → Bytes → Option ℕ → Event
  limited : ℕ → ℕ → ℕ → ℕ → Event
  pinged closed : ℕ → Event
  began : ℕ → Option ℕ → Event
  committed rolled_back : ℕ → Event
  executed queried : Target → Bytes → List Param → Event

-- The latest event is the first.
abbrev pub Log : Type 0
Log = List Event

pub record Sql : Type 0 where
  -- sql.Drivers()
  pub drivers : List Bytes
  -- Query().Get("sslmode") of url.Parse(dsn), `none` where it cannot be parsed
  pub sslmode : Bytes → Option Bytes
  pub json : Bytes → Option JsonValue
  pub parse_float : Bytes → FloatClass
  pub open_pool : Log → Bytes → Bytes → Option ℕ
  pub ping : Log → ℕ → Bool
  pub begin_tx : Log → ℕ → Option ℕ
  pub commit_tx : Log → ℕ → Bool
  pub rollback_tx : Log → ℕ → Bool
  pub exec_context : Log → Target → Bytes → List Param → Option ℤ
  pub query_context : Log → Target → Bytes → List Param → Option Rows
