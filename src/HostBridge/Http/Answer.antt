-- ===== src/HostBridge/Http/Answer.antt =====
-- What Execute gives back, on every path.
use noqeri_registry.Prelude.{
  true, false, ℕ, ◌<◌, ltb→lt, ◌^◌, ◌≤◌, ◌≡◌, ◌⊎◌, refl, inl, inr, Bool-cases, Option-cases, none,
  some, arith, length, ltb, ltb-false, ◌||◌,
}
use noqeri_registry.HostBridge.Error.{
  Error, ok, err, Fallible-cases, upstream_unavailable, invalid_upstream_status,
  upstream_body_too_large, upstream_read_failed,
}
use noqeri_registry.HostBridge.Http.Execute.{
  Call, Request, Response, Web, Env, Outcome, failed, build_request, receive, execute,
}

-- Why a response is not passed on, with the status and the error that are.
pub data IsUnusable (s : Response) : ℕ → Error → Type 0 where
  odd_status : (s.status < 100) ⊎ (599 < s.status) → IsUnusable s 0 invalid_upstream_status
  too_long : 2 ^ 20 < length s.body → IsUnusable s s.status upstream_body_too_large
  broken : s.fails ≡ true → IsUnusable s s.status upstream_read_failed

-- The four ways in which a call can end.
pub data Ends (web : Web) (env : Env) (m : Call) : Outcome → Type 0 where
  -- nothing was sent
  refused :
      (o : Outcome) (e : Error)
      → build_request web env m ≡ err e
      → o ≡ failed 0 e
      → Ends web env m o
  -- no response came
  unavailable :
      (o : Outcome) (r : Request)
      → build_request web env m ≡ ok r
      → web.send r ≡ none
      → o ≡ failed 0 upstream_unavailable
      → Ends web env m o
  -- a response whose status or body is not passed on
  unusable :
      (o : Outcome) (r : Request) (s : Response) (status : ℕ) (e : Error)
      → build_request web env m ≡ ok r
      → web.send r ≡ some s
      → IsUnusable s status e
      → o ≡ failed status e
      → Ends web env m o
  -- the whole body and the status of a response
  answered :
      (o : Outcome) (r : Request) (s : Response)
      → build_request web env m ≡ ok r
      → web.send r ≡ some s
      → o ≡ record { status = s.status; body = s.body; error = none }
      → 100 ≤ s.status
      → s.status ≤ 599
      → length s.body ≤ 2 ^ 20
      → s.fails ≡ false
      → Ends web env m o

receive-Ends :
    (web : Web) (env : Env) (m : Call) (r : Request) (s : Response)
    → build_request web env m ≡ ok r
    → web.send r ≡ some s
    → Ends web env m (receive s)
unfolding receive
receive-Ends web env m r s built sent = elim (Bool-cases (ltb s.status 100 || ltb 599 s.status)) [
  | inl odd ↦
      rw odd (unusable _ r s 0 invalid_upstream_status built sent (odd_status (ground arith)) refl)
  | inr fine ↦ elim (Bool-cases (ltb (2 ^ 20) (length s.body))) [
    | inl long ↦
        rw (fine, long)
          (unusable _ r s s.status upstream_body_too_large built sent
            (too_long (ltb→lt (2 ^ 20) (length s.body) long)) refl)
    | inr short ↦ elim (Bool-cases s.fails) [
      | inl bad ↦
          rw (fine, short, bad)
            (unusable _ r s s.status upstream_read_failed built sent (broken bad) refl)
      | inr whole ↦
          rw (fine, short, whole)
            (answered _ r s built sent refl (ground arith) (ground arith)
              (ltb-false (2 ^ 20) (length s.body) short) whole)
    ]
  ]
]

-- Execute ends in one of four ways. It reports success only with the whole body, of at most
-- 2 ^ 20 bytes and read without failure, and the status, from 100 to 599, of the response to the
-- request that it built. It reports an odd status, a body that is too long and a body that cannot be
-- read only of a response that is so. With an error the body is empty, and the status is that of the
-- response where its body is at fault, and 0 otherwise.
pub execute-Ends : (web : Web) (env : Env) (m : Call) → Ends web env m (execute web env m)
unfolding execute
execute-Ends web env m = elim (Fallible-cases (build_request web env m)) [
  | inl (r, built) ↦ elim (Option-cases (web.send r)) [
    | inl lost ↦ rw (built, execute, lost) (unavailable _ r built lost refl)
    | inr (s, sent) ↦ rw (built, execute, sent) (receive-Ends web env m r s built sent)
  ]
  | inr (e, bad) ↦ rw (bad, execute) (refused _ e bad refl)
]
