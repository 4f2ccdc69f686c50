-- ===== src/HostBridge/Payment/Signature.antt =====
-- What it takes for a Stripe webhook to be accepted, stated without the loop.
use mathlib.Core.List.{Memᴰ, append-nil, append_assoc}
use noqeri_registry.Prelude.{
  ℕ, ◌+◌, ◌^◌, ◌≤◌, ◌≡◌, ◌≢◌, ◌↔◌, refl, sym, ap, ◌∙◌, subst, inl, inr, true, false, not, ◌||◌,
  Bool-cases, Option-cases, List, [], ◌∷◌, ◌++◌, Option, none, some, arith, length, ltb, ◌==◌,
  if◌then◌else◌, any, All,
}
use noqeri_registry.Prelude.Text.{
  Bytes, Unicode, codes, str_eq, str_eq_iff, has_prefix, cut, split, trim_space,
}
use noqeri_registry.Prelude.Number.{parse_int, format_nat, hex_decode}
use noqeri_registry.HostBridge.Error.{
  Result, ok, ◌>>=◌, >>=-eq-ok, >>-eq-ok, ok-injective, stripe_webhook_oversized,
  stripe_webhook_secret_missing, stripe_webhook_signature_missing, stripe_webhook_timestamp_expired,
}
use noqeri_registry.HostBridge.Payment.{
  positive, read_time, append_digest, read_signature, read_items, match_signatures,
  verify_stripe_signature,
}
use mathlib.Core.Path.{fun_ext}

abbrev pub Field : Type 0
Field = Bytes × Bytes

-- The items of the header that have the form key=value.
abbrev pub fields : Unicode → List Bytes → List Field
fields u [] = []
fields u (item ∷ items) = elim (cut (trim_space u item) b'=') [
  | none ↦ fields u items
  | some field ↦ field ∷ fields u items
]

-- What the fields `t` say, `none` for a value that is not a positive int64.
abbrev pub times : List Field → List (Option ℕ)
times [] = []
times ((key, value) ∷ fs) =
    if str_eq key (codes "t") then positive (parse_int value) ∷ times fs else times fs

abbrev pub latest : Option ℕ → List (Option ℕ) → Option ℕ
latest time [] = time
latest time (o ∷ os) = latest o os

-- The digests of 32 bytes in the fields `v1`.
abbrev pub signatures : List Field → List Bytes
signatures [] = []
signatures ((key, value) ∷ fs) =
    if str_eq key (codes "v1")
    then append_digest (hex_decode value) [] ++ signatures fs
    else signatures fs

-- The loop over the fields alone.
read_fields : List Field → Option ℕ → List Bytes → Result (Option ℕ × List Bytes)
read_fields [] time received = ok (time, received)
read_fields ((key, value) ∷ fs) time received =
    read_time key value time >>= λ time'. read_fields fs time' (read_signature key value received)

read_items-read_fields :
    (u : Unicode) (items : List Bytes) (time : Option ℕ) (received : List Bytes)
    → read_items u items time received ≡ read_fields (fields u items) time received
unfolding read_items read_fields
read_items-read_fields u [] time received = refl
read_items-read_fields u (item ∷ items) time received =
    elim (Option-cases (cut (trim_space u item) b'=')) [
      | inl skipped ↦
          rw (skipped, read_items, fields) (read_items-read_fields u items time received)
      | inr (field, found) ↦
          rw (found, read_items, fields)
            (ap (◌>>=◌ (read_time field.0 field.1 time))
              (fun_ext λ time'. read_items-read_fields u items time' _))
    ]

append_digest-append :
    (o : Option Bytes) (received rest : List Bytes)
    → append_digest o received ++ rest ≡ received ++ (append_digest o [] ++ rest)
append_digest-append none received rest = refl
append_digest-append (some d) received rest = elim (Bool-cases (length d == 32)) [
  | inl full ↦ rw full (append_assoc received (d ∷ []) rest)
  | inr odd ↦ rw odd
]

read_signature-append :
    (key value : Bytes) (received : List Bytes) (fs : List Field)
    → read_signature key value received ++ signatures fs
      ≡ received ++ signatures ((key, value) ∷ fs)
unfolding read_signature
read_signature-append key value received fs = elim (Bool-cases (str_eq key (codes "v1"))) [
  | inl v1 ↦ rw v1 (append_digest-append (hex_decode value) received (signatures fs))
  | inr other ↦ rw other
]

read_time_good :
    (key value : Bytes) (time : Option ℕ)
    → str_eq key (codes "t") ≡ true
    → positive (parse_int value) ≢ none
    → read_time key value time ≡ ok (positive (parse_int value))
unfolding read_time
read_time_good key value time is_t good = elim (Option-cases (positive (parse_int value))) [
  | inl bad ↦ absurd (good bad)
  | inr (n, e) ↦ rw (is_t, e)
]

read_time_other :
    (key value : Bytes) (time : Option ℕ)
    → str_eq key (codes "t") ≡ false
    → read_time key value time ≡ ok time
unfolding read_time
read_time_other key value time other = rw other

read_time-eq-ok :
    (key value : Bytes) (time time' : Option ℕ)
    → str_eq key (codes "t") ≡ true
    → read_time key value time ≡ ok time'
    → positive (parse_int value) ≢ none
unfolding read_time
read_time-eq-ok key value time time' is_t e bad = cc (rw (is_t, bad) at e)

-- The loop succeeds exactly where each timestamp is good.
read_fields_good :
    (fs : List Field) (time : Option ℕ) (received : List Bytes)
    → All (λ o. o ≢ none) (times fs)
    → read_fields fs time received ≡ ok (latest time (times fs), received ++ signatures fs)
unfolding read_fields
read_fields_good [] time received good = rw append-nil
read_fields_good ((key, value) ∷ fs) time received good =
    elim (Bool-cases (str_eq key (codes "t"))) [
      | inl is_t ↦
          let (here, later) = rw is_t at good in
          rw (read_time_good key value time is_t here, is_t)
            (read_fields_good fs (positive (parse_int value)) (read_signature key value received)
                later
              ∙ ap (λ l. ok (latest (positive (parse_int value)) (times fs), l))
                  (read_signature-append key value received fs))
      | inr other ↦
          rw (read_time_other key value time other, other)
            (read_fields_good fs time (read_signature key value received) (rw other at good)
              ∙ ap (λ l. ok (latest time (times fs), l))
                  (read_signature-append key value received fs))
    ]

read_fields-eq-ok :
    (fs : List Field) (time : Option ℕ) (received : List Bytes) (result : Option ℕ × List Bytes)
    → read_fields fs time received ≡ ok result
    → All (λ o. o ≢ none) (times fs)
unfolding read_fields
read_fields-eq-ok [] time received result e = tt
read_fields-eq-ok ((key, value) ∷ fs) time received result e =
    let (time', read, rest) = >>=-eq-ok (read_time key value time) _ e in
    let ih = read_fields-eq-ok fs time' (read_signature key value received) result rest in
    elim (Bool-cases (str_eq key (codes "t"))) [
      | inl is_t ↦ rw is_t (read_time-eq-ok key value time time' is_t read, ih)
      | inr other ↦ rw other ih
    ]

module _ (hmac : Bytes → Bytes → Bytes) (u : Unicode) where
  -- The header carries a good time within five minutes of the clock, and among its one to ten
  -- digests the code of that time and the payload under the secret.
  pub record IsAuthentic (payload header secret : Bytes) (now : ℕ) : Type 0 where
    pub timestamp : ℕ
    pub small : (length payload ≤ 2 ^ 20) × (length header ≤ 8192)
    pub keyed : (12 ≤ length secret) × (has_prefix secret (codes "whsec_") ≡ true)
    pub timed : All (λ o. o ≢ none) (times (fields u (split header b',')))
    pub latest_time : latest none (times (fields u (split header b','))) ≡ some timestamp
    pub count :
        (1 ≤ length (signatures (fields u (split header b','))))
        × (length (signatures (fields u (split header b','))) ≤ 10)
    pub recent : (timestamp ≤ now + 300) × (now ≤ timestamp + 300)
    pub signed :
        Memᴰ
          (hmac secret (format_nat timestamp ++ (codes "." ++ payload)))
          (signatures (fields u (split header b',')))

  any-Memᴰ : (x : Bytes) (l : List Bytes) → any (λ c. str_eq x c) l ≡ true → Memᴰ x l
  any-Memᴰ x [] h = absurd (cc h)
  any-Memᴰ x (c ∷ l) h = elim (Bool-cases (str_eq x c)) [
    | inl same ↦ Memᴰ.head ((str_eq_iff x c).0 same)
    | inr other ↦ Memᴰ.tail (any-Memᴰ x l (ground arith))
  ]

  Memᴰ-any : (x : Bytes) (l : List Bytes) → Memᴰ x l → any (λ c. str_eq x c) l ≡ true
  Memᴰ-any x [] m = elim m [ ]
  Memᴰ-any x (c ∷ l) (Memᴰ.head same) = ground (arith, (str_eq_iff x c).1 same)
  Memᴰ-any x (c ∷ l) (Memᴰ.tail m) = ground (arith, Memᴰ-any x l m)

  -- `match_signatures` accepts a good time with a good digest.
  IsMatch : Bytes → Bytes → ℕ → Option ℕ → List Bytes → Type 0
  IsMatch payload secret now time received =
      (t : ℕ) × (time ≡ some t)
      × (1 ≤ length received)
      × (length received ≤ 10)
      × (t ≤ now + 300)
      × (now ≤ t + 300)
      × Memᴰ (hmac secret (format_nat t ++ (codes "." ++ payload))) received

  IsMatch-sound :
      (payload secret : Bytes) (now : ℕ) (time : Option ℕ) (received : List Bytes)
      → match_signatures hmac payload secret now time received ≡ ok tt
      → IsMatch payload secret now time received
  unfolding match_signatures IsMatch
  IsMatch-sound payload secret now none received e = absurd (cc e)
  IsMatch-sound payload secret now (some t) received e =
      let (few, e₁) =
        >>-eq-ok (length received == 0 || ltb 10 (length received)) stripe_webhook_signature_missing
          _ e in
      let (recent, e₂) =
        >>-eq-ok (ltb (now + 300) t || ltb (t + 300) now) stripe_webhook_timestamp_expired _ e₁ in
      (
        t,
        refl,
        ground arith,
        ground arith,
        ground arith,
        ground arith,
        any-Memᴰ (hmac secret (format_nat t ++ (codes "." ++ payload))) received (ground arith),
      )

  match_complete :
      (payload secret : Bytes) (now : ℕ) (time : Option ℕ) (received : List Bytes)
      → IsMatch payload secret now time received
      → match_signatures hmac payload secret now time received ≡ ok tt
  unfolding match_signatures IsMatch
  match_complete payload secret now time received (t, e, some_sig, few, early, late, m) =
      let found = Memᴰ-any (hmac secret (format_nat t ++ (codes "." ++ payload))) received m in
      rw e (ground (arith, found))

  verify_sound :
      (payload header secret : Bytes) (now : ℕ)
      → verify_stripe_signature hmac u payload header secret now ≡ ok tt
      → IsAuthentic payload header secret now
  unfolding verify_stripe_signature IsMatch
  verify_sound payload header secret now e =
      let fs = fields u (split header b',') in
      let (sized, e₁) =
        >>-eq-ok (ltb (2 ^ 20) (length payload) || ltb 8192 (length header))
          stripe_webhook_oversized _ e in
      let (keyed, e₂) =
        >>-eq-ok (ltb (length secret) 12 || not (has_prefix secret (codes "whsec_")))
          stripe_webhook_secret_missing _ e₁ in
      let (result, read, e₃) = >>=-eq-ok (read_items u (split header b',') none []) _ e₂ in
      let read' = sym (read_items-read_fields u (split header b',') none []) ∙ read in
      let good = read_fields-eq-ok fs none [] result read' in
      let same = ok-injective _ result (sym (read_fields_good fs none [] good) ∙ read') in
      let m = IsMatch-sound payload secret now (latest none (times fs)) (signatures fs) (
        subst
          (λ (p : Option ℕ × List Bytes). match_signatures hmac payload secret now p.0 p.1 ≡ ok tt)
          (sym same) e₃) in
      record {
        timestamp = m.0;
        small = (ground arith, ground arith);
        keyed = (ground arith, ground arith);
        timed = good;
        latest_time = m.1;
        count = (m.2, m.3);
        recent = (m.4, m.5);
        signed = m.6;
      }

  verify_complete :
      (payload header secret : Bytes) (now : ℕ)
      → IsAuthentic payload header secret now
      → verify_stripe_signature hmac u payload header secret now ≡ ok tt
  unfolding verify_stripe_signature IsMatch
  verify_complete payload header secret now a =
      let fs = fields u (split header b',') in
      let read =
        read_items-read_fields u (split header b',') none []
        ∙ read_fields_good fs none [] a.timed in
      let accepted =
        match_complete payload secret now (latest none (times fs)) (signatures fs)
          (a.timestamp, a.latest_time, a.count.0, a.count.1, a.recent.0, a.recent.1, a.signed) in
      let sized : (ltb (2 ^ 20) (length payload) || ltb 8192 (length header)) ≡ false =
        ground arith in
      let keyed : (ltb (length secret) 12 || not (has_prefix secret (codes "whsec_"))) ≡ false =
        ground arith in
      rw (sized, keyed, read) accepted

-- A webhook is accepted exactly if it is authentic: a payload of at most 2 ^ 20 bytes and a header
-- of at most 8192, a secret of at least 12 bytes with the prefix whsec_, only good timestamps and
-- the last of them within 300 seconds of the clock on either side, and among its one to ten digests
-- the HMAC of that timestamp, a dot and the payload.
pub verify_stripe_signature_iff :
    (hmac : Bytes → Bytes → Bytes) (u : Unicode) (payload header secret : Bytes) (now : ℕ)
    → (verify_stripe_signature hmac u payload header secret now ≡ ok tt)
      ↔ IsAuthentic hmac u payload header secret now
verify_stripe_signature_iff hmac u payload header secret now = (
  verify_sound hmac u payload header secret now,
  verify_complete hmac u payload header secret now,
)
