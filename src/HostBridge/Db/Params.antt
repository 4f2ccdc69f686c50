-- ===== src/HostBridge/Db/Params.antt =====
-- The checks that a statement passes before it reaches a database: sqlArgs and checkSQL of db.go.
use noqeri_registry.Prelude.{◌||◌, List, [], ◌∷◌, Option, none, some, length, ltb, ◌==◌}
use noqeri_registry.Prelude.Text.{Bytes, contains_any}
use noqeri_registry.Prelude.Number.{ℤ, parse_int}
use noqeri_registry.HostBridge.Error.{
  Error, Result, ok, err, ◌>>=◌, ◌>>◌, refuse, too_many_parameters, invalid_parameter,
  parameter_too_long, invalid_number, unsupported_parameter_type, invalid_sql,
}
use noqeri_registry.HostBridge.Db.Sql.{Param, JsonValue, FloatClass, Sql}

abbrev pub or_fail {ℓ} : {A : Type ℓ} → Option A → Error → Result A
or_fail none e = err e
or_fail (some a) e = ok a

unfoldable pub float_param : Bytes → FloatClass → Result Param
float_param x FloatClass.finite = ok (Param.float x)
float_param x _ = err invalid_number

unfoldable pub number_param : Sql → Bytes → Option ℤ → Result Param
number_param sql x (some i) = ok (Param.int i)
number_param sql x none = float_param x (sql.parse_float x)

-- The type switch of the loop in sqlArgs.
unfoldable pub convert : Sql → JsonValue → Result Param
unfolding number_param float_param
convert sql JsonValue.null = ok Param.null
convert sql (JsonValue.bool b) = ok (Param.bool b)
convert sql (JsonValue.text x) = do
  refuse (ltb 65536 (length x)) parameter_too_long
  ok (Param.text x)
convert sql (JsonValue.number x) = number_param sql x (parse_int x)
convert sql JsonValue.array = err unsupported_parameter_type
convert sql JsonValue.object = err unsupported_parameter_type

unfoldable pub convert_all : Sql → List Bytes → Result (List Param)
convert_all sql [] = ok []
convert_all sql (raw ∷ items) = do
  v ← or_fail (sql.json raw) invalid_parameter
  x ← convert sql v
  xs ← convert_all sql items
  ok (x ∷ xs)

unfoldable pub sql_args : Sql → List Bytes → Result (List Param)
sql_args sql items = do refuse (ltb 64 (length items)) too_many_parameters; convert_all sql items

unfoldable pub check_sql : Bytes → Result (Unit {0})
check_sql query =
    refuse (length query == 0 || ltb 65536 (length query) || contains_any query (0 ∷ []))
      invalid_sql
