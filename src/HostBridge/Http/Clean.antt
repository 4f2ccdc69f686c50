-- ===== src/HostBridge/Http/Clean.antt =====
-- No header that Execute sends holds a line break.
use noqeri_registry.Prelude.{
  ◌≡◌, ◌≢◌, refl, subst, inl, inr, Bool, true, false, not, ◌&&◌, ◌||◌, Bool-cases, List, [], ◌∷◌,
  ◌++◌, Option, none, arith, length, ltb, leb, All, All-append,
}
use noqeri_registry.Prelude.Text.{Bytes, codes, str_eq, has_suffix, contains_byte, contains_any}
use noqeri_registry.HostBridge.Error.{
  Result, ok, planetscale_token_id_missing, ◌>>◌, refuse, >>-eq-ok, ok-injective,
}
use noqeri_registry.HostBridge.Http.Execute.{
  Url, Call, Web, Env, crlf, is_firebase, supabase_jwt, authorize, idempotency, content_headers,
}

-- No carriage return and no line feed.
abbrev pub IsClean : Bytes → Type 0
IsClean v = All (λ c. (c ≢ 13) × (c ≢ 10)) v

pub IsClean-of_test : (v : Bytes) → contains_any v crlf ≡ false → IsClean v
unfolding contains_any contains_byte
IsClean-of_test [] h = tt
IsClean-of_test (c ∷ v) h =
    ((λ e. ground arith, λ e. ground arith), IsClean-of_test v (ground arith))

fewer : (v : Bytes) → contains_any v (b':' ∷ crlf) ≡ false → contains_any v crlf ≡ false
unfolding contains_any contains_byte
fewer [] h = refl
fewer (c ∷ v) h = ground (arith, fewer v)

abbrev pub AreClean : List (Bytes × Bytes) → Type 0
AreClean headers = All (λ h. IsClean h.1) headers

IsClean-bearer : IsClean (codes "Bearer ")
unfolding codes
IsClean-bearer = omega arith

IsClean-colon : IsClean (codes ":")
unfolding codes
IsClean-colon = omega arith

IsClean-form : IsClean (codes "application/x-www-form-urlencoded")
unfolding codes
IsClean-form = omega arith

pub IsClean-json : IsClean (codes "application/json")
unfolding codes
IsClean-json = omega arith

pub IsClean-agent : IsClean (codes "noqeri-go-host/1")
unfolding codes
IsClean-agent = omega arith

IsClean-append : (v w : Bytes) → IsClean v → IsClean w → IsClean (v ++ w)
IsClean-append v w = All-append (λ c. (c ≢ 13) × (c ≢ 10)) v w

pub AreClean-append : (v w : List (Bytes × Bytes)) → AreClean v → AreClean w → AreClean (v ++ w)
AreClean-append v w = All-append (λ h. IsClean h.1) v w

test_parts : (a b c : Bool) → (a && b && not c) ≡ true → c ≡ false
test_parts a b c h = ground arith

supabase_jwt-AreClean : (jwt : Bytes) → AreClean (supabase_jwt jwt)
unfolding supabase_jwt
supabase_jwt-AreClean jwt =
    elim (Bool-cases
      (ltb 12 (length jwt) && ltb (length jwt) 8192 && not (contains_any jwt crlf))) [
        | inl good ↦ rw good (
          IsClean-append _ jwt IsClean-bearer (
              IsClean-of_test jwt (
                test_parts (ltb 12 (length jwt)) (ltb (length jwt) 8192) (contains_any jwt crlf)
                  good)),
          tt,
        )
        | inr bad ↦ rw bad tt
      ]

idempotency-AreClean : (v : Bytes) → AreClean (idempotency v)
unfolding idempotency
idempotency-AreClean v =
    elim (Bool-cases (ltb 0 (length v) && leb (length v) 255 && not (contains_any v crlf))) [
      | inl good ↦ rw good (
        IsClean-of_test v
            (test_parts (ltb 0 (length v)) (leb (length v) 255) (contains_any v crlf) good),
        tt,
      )
      | inr bad ↦ rw bad tt
    ]

pub content_headers-AreClean :
    (web : Web) (env : Env) (m : Call) → AreClean (content_headers web env m)
unfolding content_headers
content_headers-AreClean web env m = elim (Bool-cases (str_eq m.provider (codes "stripe"))) [
  | inl stripe ↦ elim (Bool-cases (str_eq m.method (codes "POST"))) [
    | inl post ↦ rw (stripe, post) (IsClean-form, idempotency-AreClean _)
    | inr other ↦ rw (stripe, other) (IsClean-form, tt)
  ]
  | inr other ↦ elim (Bool-cases (str_eq m.body [])) [
    | inl empty ↦ rw (other, empty) tt
    | inr full ↦ rw (other, full) (IsClean-json, tt)
  ]
]

abbrev pub Signed : Type 0
Signed = List (Bytes × Bytes) × Option Bytes

abbrev pub token_header : Bytes → Bytes → Signed
token_header id key = ((codes "Authorization", id ++ (codes ":" ++ key)) ∷ [], none)

of_ok :
    (s signed : Signed)
    → AreClean s.0
    → ◌≡◌ {A = Result Signed} (ok s) (ok signed)
    → AreClean signed.0
of_ok s signed clean e = subst (λ (p : Signed). AreClean p.0) (ok-injective s signed e) clean

supabase-AreClean :
    (env : Env) (key : Bytes)
    → IsClean key
    → AreClean ((codes "apikey", key) ∷ supabase_jwt (env (codes "NOQERI_SUPABASE_JWT")))
supabase-AreClean env key clean = (clean, supabase_jwt-AreClean (env (codes "NOQERI_SUPABASE_JWT")))

service_token :
    (id key : Bytes) (signed : Signed)
    → IsClean key
    → (refuse
          (ltb (length id) 6 || ltb 128 (length id) || contains_any id (b':' ∷ crlf))
          planetscale_token_id_missing
        >> ok (token_header id key))
      ≡ ok signed
    → AreClean signed.0
service_token id key signed clean e =
    let (good, done) =
      >>-eq-ok (ltb (length id) 6 || ltb 128 (length id) || contains_any id (b':' ∷ crlf))
        planetscale_token_id_missing _ e in
    let clean_id = IsClean-of_test id (fewer id (ground arith)) in
    of_ok (token_header id key) signed
      (IsClean-append id _ clean_id (IsClean-append _ key IsClean-colon clean), tt) done

pub authorize-AreClean :
    (web : Web) (env : Env) (provider : Bytes) (u : Url) (key : Bytes) (signed : Signed)
    → IsClean key
    → authorize web env provider u key ≡ ok signed
    → AreClean signed.0
unfolding authorize
authorize-AreClean web env provider u key signed clean e =
    elim (Bool-cases
      (str_eq provider (codes "supabase") && has_suffix u.hostname (codes ".supabase.co"))) [
        | inl supabase ↦ of_ok _ signed (supabase-AreClean env key clean) (rw supabase at e)
        | inr not_supabase ↦ elim (Bool-cases (str_eq provider (codes "planetscale"))) [
          | inl planetscale ↦
              service_token (env (codes "NOQERI_PLANETSCALE_TOKEN_ID")) key signed clean
                (rw (not_supabase, planetscale) at e)
          | inr other ↦ elim (Bool-cases (is_firebase provider u)) [
            | inl firebase ↦ of_ok _ signed tt (rw (not_supabase, other, firebase) at e)
            | inr plain ↦
                of_ok _ signed (IsClean-append _ key IsClean-bearer clean, tt)
                  (rw (not_supabase, other, plain) at e)
          ]
        ]
      ]
