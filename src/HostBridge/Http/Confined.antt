-- ===== src/HostBridge/Http/Confined.antt =====
-- Where a credential can go: every request that is handed to the network.
use mathlib.Core.List.{Memᴰ}
use noqeri_registry.Prelude.{
  ◌^◌, ◌≤◌, ◌≡◌, ◌⊎◌, refl, Bool, true, false, not, List, [], ◌∷◌, ◌++◌, none, some, length,
}
use noqeri_registry.Prelude.Text.{Bytes, Unicode, codes, to_lower}
use noqeri_registry.HostBridge.Http.Providers.{provider_hosts, hosts_of, tenant_host_allowed}
use noqeri_registry.HostBridge.Http.Hosts.{IsHostOf}
use noqeri_registry.HostBridge.Http.Execute.{
  Url, Call, Request, Web, Env, token_variable, content_headers,
}
use noqeri_registry.HostBridge.Http.Clean.{AreClean}
use noqeri_registry.HostBridge.Http.Signed.{IsSigned}

-- A pattern of the provider's row in the table of hosts.
pub record IsProviderHost (u : Unicode) (provider hostname : Bytes) : Type 0 where
  pub hosts : List Bytes
  pub allowed : Bytes
  pub row : hosts_of provider provider_hosts ≡ some hosts
  pub listed : Memᴰ allowed hosts
  pub belongs : IsHostOf (to_lower u hostname) allowed

pub record IsConfined (web : Web) (env : Env) (m : Call) (u : Url) (key : Bytes) : Type 0 where
  pub parsed : web.parse_url m.url ≡ some u
  pub https : u.scheme ≡ codes "https"
  pub no_user : u.has_user ≡ false
  pub port : (u.port ≡ []) ⊎ (u.port ≡ codes "443")
  pub host : IsProviderHost web.unicode m.provider u.hostname
  pub tenant : tenant_host_allowed web.unicode env m.provider u.hostname ≡ true
  pub no_address : web.parse_ip u.hostname ≡ none
  pub secret : key ≡ env (token_variable web.unicode m.provider)
  pub key_length : (8 ≤ length key) × (length key ≤ 8192)
  pub body_length : length m.body ≤ 2 ^ 20

not-false : (b : Bool) → not b ≡ false → b ≡ true
not-false true h = refl
not-false false h = cc

-- The headers of a request: two that are fixed, the credential, and those of the content.
pub record IsCredited (web : Web) (env : Env) (m : Call) (key : Bytes) (r : Request) : Type 0 where
  pub credential : List (Bytes × Bytes)
  pub signed : IsSigned web env m.provider r.url key credential r.query
  pub headers :
      r.headers
      ≡ (codes "User-Agent", codes "noqeri-go-host/1")
        ∷ (codes "Accept", codes "application/json")
        ∷ (credential ++ content_headers web env m)

abbrev IsSafe : Web → Env → Call → Request → Type 0
IsSafe web env m r =
    (key : Bytes) × IsConfined web env m r.url key
    × IsCredited web env m key r
    × AreClean r.headers
    × (r.method ≡ m.method)
    × (r.body ≡ m.body)
