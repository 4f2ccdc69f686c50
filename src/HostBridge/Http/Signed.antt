-- ===== src/HostBridge/Http/Signed.antt =====
-- Where Execute puts the credential of a provider.
use noqeri_registry.Prelude.{
  ◌≡◌, ◌≢◌, subst, inl, inr, true, false, ◌&&◌, ◌||◌, Bool-cases, &&_iff, List, [], ◌∷◌, ◌++◌,
  Option, none, some, length, ltb,
}
use noqeri_registry.Prelude.Text.{Bytes, codes, str_eq, str_eq_iff, has_suffix, contains_any}
use noqeri_registry.HostBridge.Error.{
  Result, ok, planetscale_token_id_missing, >>-eq-ok, ok-injective,
}
use noqeri_registry.HostBridge.Http.Execute.{
  Url, Web, Env, crlf, is_firebase, supabase_jwt, authorize,
}
use noqeri_registry.HostBridge.Http.Clean.{Signed, token_header}

-- The provider's secret on the request: as the apikey of a Supabase project, where a configured token
-- goes with it, behind the id of a PlanetScale service token, as the query of two services of
-- Firebase, or as a bearer token.
pub data IsSigned (web : Web) (env : Env) (provider : Bytes) (u : Url) (key : Bytes)
    : List (Bytes × Bytes) → Option Bytes → Type 0 where
  supabase_key :
      provider ≡ codes "supabase"
      → has_suffix u.hostname (codes ".supabase.co") ≡ true
      → IsSigned web env provider u key
          ((codes "apikey", key) ∷ supabase_jwt (env (codes "NOQERI_SUPABASE_JWT")))
          none
  planetscale_token :
      provider ≡ codes "planetscale"
      → IsSigned web env provider u key
          ((codes "Authorization", env (codes "NOQERI_PLANETSCALE_TOKEN_ID") ++ (codes ":" ++ key))
            ∷ [])
          none
  firebase_query :
      is_firebase provider u ≡ true → IsSigned web env provider u key [] (some (web.with_key u key))
  bearer_token :
      provider ≢ codes "planetscale"
      → (str_eq provider (codes "supabase") && has_suffix u.hostname (codes ".supabase.co")) ≡ false
      → is_firebase provider u ≡ false
      → IsSigned web env provider u key ((codes "Authorization", codes "Bearer " ++ key) ∷ []) none

signed_so :
    (web : Web) (env : Env) (provider : Bytes) (u : Url) (key : Bytes) (s signed : Signed)
    → IsSigned web env provider u key s.0 s.1
    → ◌≡◌ {A = Result Signed} (ok s) (ok signed)
    → IsSigned web env provider u key signed.0 signed.1
signed_so web env provider u key s signed h e =
    subst (λ (p : Signed). IsSigned web env provider u key p.0 p.1) (ok-injective s signed e) h

pub authorize-IsSigned :
    (web : Web) (env : Env) (provider : Bytes) (u : Url) (key : Bytes) (signed : Signed)
    → authorize web env provider u key ≡ ok signed
    → IsSigned web env provider u key signed.0 signed.1
unfolding authorize
authorize-IsSigned web env provider u key signed e =
    let id = env (codes "NOQERI_PLANETSCALE_TOKEN_ID") in
    elim (Bool-cases
      (str_eq provider (codes "supabase") && has_suffix u.hostname (codes ".supabase.co"))) [
        | inl supabase ↦
            let (name, host) = (&&_iff _ _).0 supabase in
            signed_so web env provider u key _ signed
              (supabase_key ((str_eq_iff provider (codes "supabase")).0 name) host)
              (rw supabase at e)
        | inr not_supabase ↦ elim (Bool-cases (str_eq provider (codes "planetscale"))) [
          | inl planetscale ↦
              let (_, made) =
                >>-eq-ok (ltb (length id) 6 || ltb 128 (length id) || contains_any id (b':' ∷ crlf))
                  planetscale_token_id_missing _ (rw (not_supabase, planetscale) at e) in
              signed_so web env provider u key (token_header id key) signed
                (planetscale_token ((str_eq_iff provider (codes "planetscale")).0 planetscale)) made
          | inr other ↦ elim (Bool-cases (is_firebase provider u)) [
            | inl firebase ↦
                signed_so web env provider u key _ signed (firebase_query firebase)
                  (rw (not_supabase, other, firebase) at e)
            | inr plain ↦
                signed_so web env provider u key _ signed
                  (bearer_token (λ same. absurd (cc (other, (str_eq_iff _ _).1 same))) not_supabase
                    plain)
                  (rw (not_supabase, other, plain) at e)
          ]
        ]
      ]
