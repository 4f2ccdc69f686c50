-- ===== src/HostBridge/Payment.antt =====
-- VerifyStripeSignature of internal/hostbridge/payment.go. HMAC-SHA256 is an argument: the secret
-- and the message give the code. The clock is an argument too, in seconds since 1970.
pub mod Signature
use noqeri_registry.Prelude.{
  ℕ, suc, ◌+◌, ◌^◌, Bool, true, false, not, ◌||◌, List, [], ◌∷◌, ◌++◌, Option, none, some, length,
  ltb, ◌==◌, if◌then◌else◌, any,
}
use noqeri_registry.Prelude.Text.{Bytes, Unicode, codes, str_eq, has_prefix, cut, split, trim_space}
use noqeri_registry.Prelude.Number.{ℤ, pos, negsuc, parse_int, format_nat, hex_decode}
use noqeri_registry.HostBridge.Error.{
  Result, ok, err, ◌>>=◌, ◌>>◌, refuse, stripe_webhook_oversized, stripe_webhook_secret_missing,
  stripe_webhook_timestamp_invalid, stripe_webhook_signature_missing,
  stripe_webhook_timestamp_expired, stripe_webhook_signature_mismatch,
}

-- `n > 0` of a number that could be read
unfoldable pub positive : Option ℤ → Option ℕ
positive (some (pos (suc n))) = some (suc n)
positive _ = none

abbrev pub stamp : Option ℕ → Result (Option ℕ)
stamp none = err stripe_webhook_timestamp_invalid
stamp (some n) = ok (some n)

-- The variable `timestamp`, `none` for -1, after one field.
unfoldable pub read_time : Bytes → Bytes → Option ℕ → Result (Option ℕ)
read_time key value time =
    if str_eq key (codes "t") then stamp (positive (parse_int value)) else ok time

abbrev pub append_digest : Option Bytes → List Bytes → List Bytes
append_digest none received = received
append_digest (some digest) received =
    if length digest == 32 then received ++ digest ∷ [] else received

-- The variable `received` after one field.
unfoldable pub read_signature : Bytes → Bytes → List Bytes → List Bytes
read_signature key value received =
    if str_eq key (codes "v1") then append_digest (hex_decode value) received else received

-- The loop over the items of the header.
unfoldable pub read_items :
    Unicode → List Bytes → Option ℕ → List Bytes → Result (Option ℕ × List Bytes)
read_items u [] time received = ok (time, received)
read_items u (item ∷ items) time received = elim (cut (trim_space u item) b'=') [
  | none ↦ read_items u items time received
  | some (key, value) ↦ read_time key value time >>= λ time'.
      read_items u items time' (read_signature key value received)
]

abbrev pub or_missing : Option ℕ → Result ℕ
or_missing none = err stripe_webhook_signature_missing
or_missing (some t) = ok t

module _ (hmac : Bytes → Bytes → Bytes) where
  -- The checks behind the loop.
  unfoldable pub match_signatures : Bytes → Bytes → ℕ → Option ℕ → List Bytes → Result (Unit {0})
  match_signatures payload secret now time received = do
    timestamp ← or_missing time
    refuse (length received == 0 || ltb 10 (length received)) stripe_webhook_signature_missing
    refuse (ltb (now + 300) timestamp || ltb (timestamp + 300) now) stripe_webhook_timestamp_expired
    let want = hmac secret (format_nat timestamp ++ (codes "." ++ payload))
    refuse (not (any (λ candidate. str_eq want candidate) received))
        stripe_webhook_signature_mismatch

  unfoldable pub verify_stripe_signature : Unicode → Bytes → Bytes → Bytes → ℕ → Result (Unit {0})
  verify_stripe_signature u payload header secret now = do
    refuse (ltb (2 ^ 20) (length payload) || ltb 8192 (length header)) stripe_webhook_oversized
    refuse (ltb (length secret) 12 || not (has_prefix secret (codes "whsec_")))
        stripe_webhook_secret_missing
    (time, received) ← read_items u (split header b',') none []
    match_signatures payload secret now time received
