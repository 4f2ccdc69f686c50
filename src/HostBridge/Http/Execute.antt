-- ===== src/HostBridge/Http/Execute.antt =====
-- HTTPHost.Execute of http.go: the checks on a request, the credential that is put on it, and what
-- is made of the answer. The packages net/url and net/http are arguments.
use noqeri_registry.Prelude.{
  ℕ, ◌^◌, Bool, true, false, not, ◌&&◌, ◌||◌, List, [], ◌∷◌, ◌++◌, Option, none, some, length, ltb,
  leb, any, if◌then◌else◌,
}
use noqeri_registry.Prelude.Text.{
  Bytes, Unicode, codes, str_eq, has_suffix, contains, contains_any, to_lower, to_upper,
  replace_byte,
}
use noqeri_registry.HostBridge.Error.{
  Error, Result, ok, err, ◌>>=◌, ◌>>◌, refuse, invalid_method, request_too_large, invalid_url,
  invalid_port, provider_host_not_allowed, provider_tenant_not_configured, literal_ip_denied,
  provider_secret_unavailable, invalid_request, planetscale_token_id_missing, upstream_unavailable,
  invalid_upstream_status, upstream_read_failed, upstream_body_too_large,
}
use noqeri_registry.HostBridge.Http.Net.{Ip}
use noqeri_registry.HostBridge.Http.Providers.{allowed_host, tenant_host_allowed}

-- What the code reads of a parsed *url.URL; `text` is its String(), `has_user` that User is set.
pub record Url : Type 0 where
  pub scheme : Bytes
  pub hostname : Bytes
  pub port : Bytes
  pub has_user : Bool
  pub fragment : Bytes
  pub opaque : Bytes
  pub escaped_path : Bytes
  pub text : Bytes

-- The fields of Message that Execute reads.
pub record Call : Type 0 where
  pub provider : Bytes
  pub method : Bytes
  pub url : Bytes
  pub body : Bytes

-- `query` is the RawQuery where the code replaces it.
pub record Request : Type 0 where
  pub method : Bytes
  pub url : Url
  pub body : Bytes
  pub headers : List (Bytes × Bytes)
  pub query : Option Bytes

-- A response: its status, all the bytes that its body would yield, and whether it then fails.
pub record Response : Type 0 where
  pub status : ℕ
  pub body : Bytes
  pub fails : Bool

pub record Web : Type 0 where
  pub unicode : Unicode
  pub parse_url : Bytes → Option Url
  pub parse_ip : Bytes → Option Ip
  -- whether http.NewRequest accepts the method and the URL's text
  pub accepts : Bytes → Bytes → Bool
  -- Query() with the field `key` set, encoded
  pub with_key : Url → Bytes → Bytes
  -- client.Do
  pub send : Request → Option Response

abbrev pub Env : Type 0
Env = Bytes → Bytes

unfoldable pub methods : List Bytes
methods =
    codes "GET" ∷ codes "POST" ∷ codes "PATCH" ∷ codes "PUT" ∷ codes "DELETE" ∷ codes "HEAD" ∷ []

abbrev pub crlf : Bytes
crlf = 13 ∷ 10 ∷ []

abbrev pub or_invalid : Option Url → Result Url
or_invalid none = err invalid_url
or_invalid (some u) = ok u

abbrev pub is_some {ℓ} : {A : Type ℓ} → Option A → Bool
is_some none = false
is_some (some a) = true

-- The tests on the parsed URL that give invalid_url.
unfoldable pub is_plain_https : Url → Bool
is_plain_https u =
    str_eq u.scheme (codes "https")
    && not (str_eq u.hostname [])
    && not u.has_user
    && str_eq u.fragment []
    && str_eq u.opaque []

unfoldable pub has_odd_text : Unicode → Url → Bool
has_odd_text unicode u =
    contains_any u.hostname (92 ∷ 32 ∷ 37 ∷ 10 ∷ 13 ∷ [])
    || contains (to_lower unicode u.escaped_path) (codes "%2f")
    || contains (to_lower unicode u.escaped_path) (codes "%5c")

unfoldable pub token_variable : Unicode → Bytes → Bytes
token_variable unicode provider =
    codes "NOQERI_" ++ (to_upper unicode (replace_byte b'-' b'_' provider) ++ codes "_TOKEN")

unfoldable pub is_bad_key : Bytes → Bool
is_bad_key key = ltb (length key) 8 || ltb 8192 (length key) || contains_any key crlf

-- The second header of a Supabase project, if its token is usable.
unfoldable pub supabase_jwt : Bytes → List (Bytes × Bytes)
supabase_jwt jwt =
    if ltb 12 (length jwt) && ltb (length jwt) 8192 && not (contains_any jwt crlf)
    then (codes "Authorization", codes "Bearer " ++ jwt) ∷ []
    else []

unfoldable pub idempotency : Bytes → List (Bytes × Bytes)
idempotency v =
    if ltb 0 (length v) && leb (length v) 255 && not (contains_any v crlf)
    then (codes "Idempotency-Key", v) ∷ []
    else []

-- The services of Firebase that take the key in the query.
unfoldable pub is_firebase : Bytes → Url → Bool
is_firebase provider u =
    str_eq provider (codes "firebase")
    && (str_eq u.hostname (codes "identitytoolkit.googleapis.com")
        || str_eq u.hostname (codes "securetoken.googleapis.com"))

module _ (web : Web) (env : Env) where
  unfoldable pub check_call : Call → Result (Unit {0})
  check_call m = do
    refuse (not (any (λ a. str_eq m.method a) methods)) invalid_method
    refuse (ltb (length m.url) 12 || ltb 4096 (length m.url) || ltb (2 ^ 20) (length m.body))
        request_too_large

  unfoldable pub check_url : Bytes → Url → Result (Unit {0})
  check_url provider u = do
    refuse (not (is_plain_https u)) invalid_url
    refuse (not (str_eq u.port []) && not (str_eq u.port (codes "443"))) invalid_port
    refuse (not (allowed_host web.unicode provider u.hostname)) provider_host_not_allowed
    refuse (not (tenant_host_allowed web.unicode env provider u.hostname))
        provider_tenant_not_configured
    refuse (is_some (web.parse_ip u.hostname)) literal_ip_denied
    refuse (has_odd_text web.unicode u) invalid_url

  -- Down to http.NewRequest: the URL, and the provider's secret.
  unfoldable pub vet : Call → Result (Url × Bytes)
  vet m = do
    check_call m
    u ← or_invalid (web.parse_url m.url)
    check_url m.provider u
    let key = env (token_variable web.unicode m.provider)
    refuse (is_bad_key key) provider_secret_unavailable
    refuse (not (web.accepts m.method u.text)) invalid_request
    ok (u, key)

  -- The credential, as headers and as a new query.
  unfoldable pub authorize : Bytes → Url → Bytes → Result (List (Bytes × Bytes) × Option Bytes)
  authorize provider u key =
      if str_eq provider (codes "supabase") && has_suffix u.hostname (codes ".supabase.co")
      then ok ((codes "apikey", key) ∷ supabase_jwt (env (codes "NOQERI_SUPABASE_JWT")), none)
      else if str_eq provider (codes "planetscale")
      then (let id = env (codes "NOQERI_PLANETSCALE_TOKEN_ID") in
          refuse (ltb (length id) 6 || ltb 128 (length id) || contains_any id (b':' ∷ crlf))
            planetscale_token_id_missing
          >> ok ((codes "Authorization", id ++ (codes ":" ++ key)) ∷ [], none))
      else if is_firebase provider u
      then ok ([], some (web.with_key u key))
      else ok ((codes "Authorization", codes "Bearer " ++ key) ∷ [], none)

  unfoldable pub content_headers : Call → List (Bytes × Bytes)
  content_headers m =
      if str_eq m.provider (codes "stripe")
      then (codes "Content-Type", codes "application/x-www-form-urlencoded")
        ∷ (if str_eq m.method (codes "POST")
            then idempotency (env (codes "NOQERI_STRIPE_IDEMPOTENCY_KEY"))
            else [])
      else if not (str_eq m.body [])
      then (codes "Content-Type", codes "application/json") ∷ []
      else []

  -- The request that is handed to client.Do.
  unfoldable pub build_request : Call → Result Request
  build_request m = do
    (u, key) ← vet m
    (credential, query) ← authorize m.provider u key
    ok (record {
      method = m.method;
      url = u;
      body = m.body;
      headers =
          (codes "User-Agent", codes "noqeri-go-host/1")
          ∷ (codes "Accept", codes "application/json")
          ∷ (credential ++ content_headers m);
      query = query;
    })

-- The three results of Execute; `error` is `none` for nil.
pub record Outcome : Type 0 where
  pub status : ℕ
  pub body : Bytes
  pub error : Option Error

abbrev pub failed : ℕ → Error → Outcome
failed status e = record { status = status; body = []; error = some e }

-- io.ReadAll over io.LimitReader(body, 2 ^ 20 + 1): the limit may cut off a failure.
unfoldable pub receive : Response → Outcome
receive r =
    if ltb r.status 100 || ltb 599 r.status
    then failed 0 invalid_upstream_status
    else if ltb (2 ^ 20) (length r.body)
    then failed r.status upstream_body_too_large
    else if r.fails
    then failed r.status upstream_read_failed
    else record { status = r.status; body = r.body; error = none }

unfoldable pub execute : Web → Env → Call → Outcome
execute web env m = elim (build_request web env m) [
  | err e ↦ failed 0 e
  | ok request ↦ elim (web.send request) [
    | none ↦ failed 0 upstream_unavailable
    | some response ↦ receive response
  ]
]
