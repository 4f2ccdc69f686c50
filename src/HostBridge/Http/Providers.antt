-- ===== src/HostBridge/Http/Providers.antt =====
-- Which hosts a provider's credential may be sent to: providerHosts, allowedHost and
-- tenantHostAllowed of http.go.
use noqeri_registry.Prelude.{
  Bool, true, false, not, ◌&&◌, ◌||◌, List, [], ◌∷◌, Option, none, some, length, ltb, any,
  if◌then◌else◌,
}
use noqeri_registry.Prelude.Text.{
  Bytes, Unicode, codes, str_eq, has_prefix, has_suffix, to_lower, equal_fold,
}

-- The map providerHosts; the code walks it in no order that it may rely on.
unfoldable pub provider_hosts : List (Bytes × List Bytes)
unfolding codes
provider_hosts =
    (codes "auth0", codes ".auth0.com" ∷ [])
    ∷ (codes "clerk", codes "api.clerk.com" ∷ [])
    ∷ (codes "cloudflare", codes "api.cloudflare.com" ∷ [])
    ∷ (codes "convex", codes ".convex.cloud" ∷ codes ".convex.site" ∷ [])
    ∷ (
      codes "firebase",
      codes "identitytoolkit.googleapis.com"
          ∷ codes "securetoken.googleapis.com"
          ∷ codes "firestore.googleapis.com"
          ∷ [],
    )
    ∷ (codes "github", codes "api.github.com" ∷ [])
    ∷ (codes "neon", codes "console.neon.tech" ∷ [])
    ∷ (codes "openai", codes "api.openai.com" ∷ [])
    ∷ (codes "planetscale", codes "api.planetscale.com" ∷ [])
    ∷ (codes "resend", codes "api.resend.com" ∷ [])
    ∷ (codes "sentry", codes "sentry.io" ∷ codes ".sentry.io" ∷ [])
    ∷ (codes "stripe", codes "api.stripe.com" ∷ [])
    ∷ (codes "supabase", codes "api.supabase.com" ∷ codes ".supabase.co" ∷ [])
    ∷ []

unfoldable pub hosts_of : Bytes → List (Bytes × List Bytes) → Option (List Bytes)
hosts_of provider [] = none
hosts_of provider ((name, hosts) ∷ table) =
    if str_eq name provider then some hosts else hosts_of provider table

-- One round of the loop in allowedHost: a leading dot stands for any subdomain.
unfoldable pub host_matches : Bytes → Bytes → Bool
host_matches hostname allowed =
    if has_prefix allowed (codes ".")
    then has_suffix hostname allowed && ltb (length allowed) (length hostname)
    else str_eq hostname allowed

abbrev pub any_host : Bytes → Option (List Bytes) → Bool
any_host hostname none = false
any_host hostname (some hosts) = any (host_matches hostname) hosts

module _ (u : Unicode) where
  unfoldable pub allowed_host : Bytes → Bytes → Bool
  allowed_host provider hostname = any_host (to_lower u hostname) (hosts_of provider provider_hosts)

  -- The exact host that the operator has configured for a tenant.
  unfoldable pub is_configured : (Bytes → Bytes) → Bytes → Bytes → Bool
  is_configured env hostname name = not (str_eq (env name) []) && equal_fold u hostname (env name)

  unfoldable pub tenant_host_allowed : (Bytes → Bytes) → Bytes → Bytes → Bool
  tenant_host_allowed env provider hostname =
      if str_eq provider (codes "auth0")
      then is_configured env hostname (codes "NOQERI_AUTH0_HOST")
      else if str_eq provider (codes "convex")
      then is_configured env hostname (codes "NOQERI_CONVEX_HOST")
      else if str_eq provider (codes "supabase")
      then str_eq hostname (codes "api.supabase.com")
        || is_configured env hostname (codes "NOQERI_SUPABASE_HOST")
      else if str_eq provider (codes "sentry")
      then str_eq hostname (codes "sentry.io")
        || is_configured env hostname (codes "NOQERI_SENTRY_HOST")
      else true
