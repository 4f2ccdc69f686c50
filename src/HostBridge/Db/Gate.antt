-- ===== src/HostBridge/Db/Gate.antt =====
-- What reaches a database: no data source but the operator's own, with verified TLS where it is
-- remote, and no statement or parameter beyond its bounds.
use noqeri_registry.Prelude.{
  ◌≤◌, ◌≡◌, ◌≢◌, ◌⊎◌, refl, inl, inr, Bool, true, false, not, ◌&&◌, ◌||◌, List, [], ◌∷◌, Option,
  none, some, arith, length, ltb, ◌==◌, All, subst, ltb-false, suc, ap,
}
use noqeri_registry.Prelude.Text.{Bytes, codes, str_eq_iff, has_prefix, contains_byte, contains_any}
use noqeri_registry.HostBridge.Error.{
  ok, >>=-eq-ok, >>-eq-ok, ok-injective, parameter_too_long, invalid_parameter, invalid_sql,
  too_many_parameters, postgres_dsn_invalid, database_driver_not_linked,
  database_configuration_missing,
}
use noqeri_registry.HostBridge.Db.Sql.{
  Sql, Param, JsonValue, Event, opened, executed, queried, FloatClass,
}
use noqeri_registry.HostBridge.Db.Params.{
  convert, convert_all, sql_args, check_sql, number_param, float_param, or_fail,
}
use noqeri_registry.HostBridge.Db.Host.{
  Env, Kind, postgres, sqlite, kind_of, sql_driver, dsn_variable, registered, verifies, check_dsn,
  configure, prepare, new_db_host,
}
use noqeri_registry.HostBridge.Db.Run.{Action, run}
use noqeri_registry.HostBridge.Db.Trail.{IsPlain, run-new-All}
use noqeri_registry.Prelude.Number.{ℤ, parse_int}

-- A PostgreSQL URL that asks for verified TLS.
pub record IsVerified (sql : Sql) (dsn : Bytes) : Type 0 where
  pub scheme :
      (has_prefix dsn (codes "postgres://") ≡ true)
      ⊎ (has_prefix dsn (codes "postgresql://") ≡ true)
  pub tls : sql.sslmode dsn ≡ some (codes "verify-full")

-- The plain path of a SQLite file: no URI, no options, no NUL, not the memory.
pub record IsFilePath (dsn : Bytes) : Type 0 where
  pub no_uri : has_prefix dsn (codes "file:") ≡ false
  pub no_nul : contains_byte 0 dsn ≡ false
  pub no_memory : dsn ≢ codes ":memory:"
  pub no_options : contains_byte b'?' dsn ≡ false

-- The driver and the data source come from the operator's environment, with their checks.
pub data IsConfigured (sql : Sql) (env : Env) : Bytes → Bytes → Type 0 where
  by_postgres :
      (name dsn : Bytes)
      → name ≡ codes "pgx"
      → dsn ≡ env (codes "NOQERI_POSTGRES_DSN")
      → registered sql name ≡ true
      → 1 ≤ length dsn
      → length dsn ≤ 8192
      → IsVerified sql dsn
      → IsConfigured sql env name dsn
  by_sqlite :
      (name dsn : Bytes)
      → name ≡ codes "sqlite"
      → dsn ≡ env (codes "NOQERI_SQLITE_PATH")
      → registered sql name ≡ true
      → 1 ≤ length dsn
      → length dsn ≤ 8192
      → IsFilePath dsn
      → IsConfigured sql env name dsn

abbrev pub IsShortText : Param → Type 0
IsShortText (Param.text x) = length x ≤ 65536
IsShortText _ = Unit {0}

pub record IsStatement (query : Bytes) (params : List Param) : Type 0 where
  pub present : 1 ≤ length query
  pub bounded : length query ≤ 65536
  pub no_nul : All (λ c. c ≢ 0) query
  pub few : length params ≤ 64
  pub short : All IsShortText params

abbrev pub IsBounded : Event → Type 0
IsBounded (executed t query params) = IsStatement query params
IsBounded (queried t query params) = IsStatement query params
IsBounded _ = Unit {0}

abbrev pub IsSanctioned : Sql → Env → Event → Type 0
IsSanctioned sql env (opened name dsn reply) = IsConfigured sql env name dsn
IsSanctioned sql env _ = Unit {0}

no_nul_of_test : (query : Bytes) → contains_any query (0 ∷ []) ≡ false → All (λ c. c ≢ 0) query
unfolding contains_any contains_byte
no_nul_of_test [] h = tt
no_nul_of_test (c ∷ s) h = (λ e. ground arith, no_nul_of_test s (ground arith))

float-IsShortText :
    (t : Bytes) (c : FloatClass) (x : Param) → float_param t c ≡ ok x → IsShortText x
unfolding float_param
float-IsShortText t FloatClass.finite x e = subst IsShortText (ok-injective (Param.float t) x e) tt
float-IsShortText t FloatClass.malformed x e = absurd (cc e)
float-IsShortText t FloatClass.infinite x e = absurd (cc e)
float-IsShortText t FloatClass.nan x e = absurd (cc e)

number-IsShortText :
    (sql : Sql) (t : Bytes) (o : Option ℤ) (x : Param) → number_param sql t o ≡ ok x → IsShortText x
unfolding number_param
number-IsShortText sql t (some i) x e = subst IsShortText (ok-injective (Param.int i) x e) tt
number-IsShortText sql t none x e = float-IsShortText t (sql.parse_float t) x e

convert-IsShortText : (sql : Sql) (v : JsonValue) (x : Param) → convert sql v ≡ ok x → IsShortText x
unfolding convert
convert-IsShortText sql JsonValue.null x e = subst IsShortText (ok-injective Param.null x e) tt
convert-IsShortText sql (JsonValue.bool b) x e =
    subst IsShortText (ok-injective (Param.bool b) x e) tt
convert-IsShortText sql (JsonValue.text t) x e =
    let (short, done) = >>-eq-ok (ltb 65536 (length t)) parameter_too_long (ok (Param.text t)) e in
    subst IsShortText (ok-injective (Param.text t) x done) (ltb-false 65536 (length t) short)
convert-IsShortText sql (JsonValue.number t) x e = number-IsShortText sql t (parse_int t) x e
convert-IsShortText sql JsonValue.array x e = cc
convert-IsShortText sql JsonValue.object x e = cc

convert_all_short :
    (sql : Sql) (items : List Bytes) (params : List Param)
    → convert_all sql items ≡ ok params
    → (length params ≡ length items) × All IsShortText params
unfolding convert_all
convert_all_short sql [] params e =
    subst (λ ps. (length ps ≡ 0) × All IsShortText ps) (ok-injective [] params e) (refl, tt)
convert_all_short sql (raw ∷ items) params e =
    let (v, decoded, e₁) = >>=-eq-ok (or_fail (sql.json raw) invalid_parameter) _ e in
    let (x, converted, e₂) = >>=-eq-ok (convert sql v) _ e₁ in
    let (xs, rest, e₃) = >>=-eq-ok (convert_all sql items) _ e₂ in
    let (same, short) = convert_all_short sql items xs rest in
    subst (λ ps. (length ps ≡ suc (length items)) × All IsShortText ps)
      (ok-injective (x ∷ xs) params e₃)
      (ap suc same, (convert-IsShortText sql v x converted, short))

prepare-IsStatement :
    (sql : Sql) (query : Bytes) (args : List Bytes) (params : List Param)
    → prepare sql query args ≡ ok params
    → IsStatement query params
unfolding prepare check_sql sql_args
prepare-IsStatement sql query args params e =
    let (fits, e₁) =
      >>-eq-ok (length query == 0 || ltb 65536 (length query) || contains_any query (0 ∷ []))
        invalid_sql (sql_args sql args) e in
    let (few, e₂) = >>-eq-ok (ltb 64 (length args)) too_many_parameters (convert_all sql args) e₁ in
    let (same, short) = convert_all_short sql args params e₂ in
    record {
      present = ground arith;
      bounded = ground arith;
      no_nul = no_nul_of_test query (ground arith);
      few = omega (arith, same, ltb-false 64 (length args) few);
      short = short;
    }

IsBounded-plain : (e : Event) → IsPlain e → IsBounded e
IsBounded-plain (executed t query params) h = elim h [ ]
IsBounded-plain (queried t query params) h = elim h [ ]
IsBounded-plain _ h = tt

-- Whatever is asked of the bridge and whatever the databases answer, each statement that reaches a
-- database has 1 to 65536 bytes, none of them NUL, and at most 64 parameters, their texts of at
-- most 65536 bytes.
pub run-IsBounded :
    (sql : Sql) (env : Env) (actions : List Action)
    → All IsBounded (run sql env actions new_db_host).log
run-IsBounded sql env actions =
    run-new-All sql env IsBounded IsBounded-plain (λ driver name dsn reply e. tt)
      (λ query args params t e. prepare-IsStatement sql query args params e)
      (λ query args params t e. prepare-IsStatement sql query args params e) actions

or_true : (a b : Bool) → (not a && not b) ≡ false → (a ≡ true) ⊎ (b ≡ true)
or_true true b h = inl refl
or_true false true h = inr refl
or_true false false h = cc

verifies_mode : (o : Option Bytes) → not (verifies o) ≡ false → o ≡ some (codes "verify-full")
unfolding verifies
verifies_mode none h = cc
verifies_mode (some mode) h = ap some ((str_eq_iff mode (codes "verify-full")).0 (ground arith))

check_dsn-IsVerified :
    (sql : Sql) (dsn : Bytes) → check_dsn sql postgres dsn ≡ ok tt → IsVerified sql dsn
unfolding check_dsn
check_dsn-IsVerified sql dsn e =
    let (scheme, rest) = >>-eq-ok _ postgres_dsn_invalid _ e in
    record { scheme = or_true _ _ scheme; tls = verifies_mode (sql.sslmode dsn) (ground arith) }

check_dsn-IsFilePath : (sql : Sql) (dsn : Bytes) → check_dsn sql sqlite dsn ≡ ok tt → IsFilePath dsn
unfolding check_dsn
check_dsn-IsFilePath sql dsn e = record {
  no_uri = ground arith;
  no_nul = ground arith;
  no_memory = λ same. ground (arith, str_eq_iff dsn (codes ":memory:"));
  no_options = ground arith;
}

not-false : (b : Bool) → not b ≡ false → b ≡ true
not-false true h = refl
not-false false h = cc

configured :
    (sql : Sql) (env : Env) (kind : Kind)
    → registered sql (sql_driver kind) ≡ true
    → 1 ≤ length (env (dsn_variable kind))
    → length (env (dsn_variable kind)) ≤ 8192
    → check_dsn sql kind (env (dsn_variable kind)) ≡ ok tt
    → IsConfigured sql env (sql_driver kind) (env (dsn_variable kind))
unfolding sql_driver dsn_variable
configured sql env postgres linked present short checked =
    by_postgres _ _ refl refl linked present short (check_dsn-IsVerified sql _ checked)
configured sql env sqlite linked present short checked =
    by_sqlite _ _ refl refl linked present short (check_dsn-IsFilePath sql _ checked)

configure-IsConfigured :
    (sql : Sql) (env : Env) (driver name dsn : Bytes)
    → configure sql env driver ≡ ok (name, dsn)
    → IsConfigured sql env name dsn
unfolding configure
configure-IsConfigured sql env driver name dsn e =
    let (kind, known, e₁) = >>=-eq-ok (kind_of driver) _ e in
    let (linked, e₂) =
      >>-eq-ok (not (registered sql (sql_driver kind))) database_driver_not_linked _ e₁ in
    let found = env (dsn_variable kind) in
    let (sized, e₃) =
      >>-eq-ok (length found == 0 || ltb 8192 (length found)) database_configuration_missing _ e₂ in
    let (u, checked, e₄) = >>=-eq-ok (check_dsn sql kind found) _ e₃ in
    let c = configured sql env kind (not-false _ linked) (ground arith) (ground arith) checked in
    let same = ok-injective (sql_driver kind, found) (name, dsn) e₄ in
    subst (λ (p : Bytes × Bytes). IsConfigured sql env p.0 p.1) same c

IsSanctioned-plain : (sql : Sql) (env : Env) (e : Event) → IsPlain e → IsSanctioned sql env e
IsSanctioned-plain sql env (opened name dsn reply) h = elim h [ ]
IsSanctioned-plain sql env _ h = tt

-- Whatever is asked of the bridge, each data source that reaches sql.Open is the operator's own
-- environment variable for that driver, linked and of 1 to 8192 bytes: for PostgreSQL a URL with
-- sslmode=verify-full, for SQLite a plain file path.
pub run-IsSanctioned :
    (sql : Sql) (env : Env) (actions : List Action)
    → All (IsSanctioned sql env) (run sql env actions new_db_host).log
run-IsSanctioned sql env actions =
    run-new-All sql env (IsSanctioned sql env) (IsSanctioned-plain sql env)
      (λ driver name dsn reply e. configure-IsConfigured sql env driver name dsn e)
      (λ query args params t e. tt) (λ query args params t e. tt) actions
