-- ===== src/HostBridge/Http/Public.antt =====
-- The IPv4 addresses that the bridge may connect to, as numbers of 32 bits.
use noqeri_registry.Prelude.{
  ℕ, ◌+◌, ◌*◌, ◌/◌, ◌<◌, ◌≡◌, ◌≢◌, ◌⊎◌, ◌↔◌, refl, inl, inr, true, false, not, Bool-cases, List, [],
  ◌∷◌, Option, none, some, arith, any, All, sym, ap, ◌∙◌,
}
use noqeri_registry.Prelude.Text.{Bytes, codes, str_eq, str_eq_iff}
use noqeri_registry.HostBridge.Error.{ok, >>=-eq-ok, >>-eq-ok, invalid_destination}
use noqeri_registry.HostBridge.Http.Net.{
  Ip, v4, block4, block6, is_loopback, is_unspecified, is_broadcast, is_multicast,
  is_link_local_unicast, is_private, is_global_unicast, has_bits, in_block, extra_blocks, public_ip,
  first_public, dial_target, or_invalid_destination, or_dns_failed, or_no_public,
}

abbrev pub number : ℕ → ℕ → ℕ → ℕ → ℕ
number a b c d = ((a * 256 + b) * 256 + c) * 256 + d

-- The first and the last address of each range that is refused: 0.0.0.0, 10/8, 100.64/10, 127/8,
-- 169.254/16, 172.16/12, 192.0.0/24, 192.0.2/24, 192.168/16, 198.18/15, 198.51.100/24,
-- 203.0.113/24, and 224/4 with all that follows.
abbrev pub refused_ranges : List (ℕ × ℕ)
refused_ranges =
    (0, 0)
    ∷ (number 10 0 0 0, number 10 255 255 255)
    ∷ (number 100 64 0 0, number 100 127 255 255)
    ∷ (number 127 0 0 0, number 127 255 255 255)
    ∷ (number 169 254 0 0, number 169 254 255 255)
    ∷ (number 172 16 0 0, number 172 31 255 255)
    ∷ (number 192 0 0 0, number 192 0 0 255)
    ∷ (number 192 0 2 0, number 192 0 2 255)
    ∷ (number 192 168 0 0, number 192 168 255 255)
    ∷ (number 198 18 0 0, number 198 19 255 255)
    ∷ (number 198 51 100 0, number 198 51 100 255)
    ∷ (number 203 0 113 0, number 203 0 113 255)
    ∷ (number 224 0 0 0, number 255 255 255 255)
    ∷ []

abbrev pub IsOutside : ℕ → List (ℕ × ℕ) → Type 0
IsOutside n ranges = All (λ r. (n < r.0) ⊎ (r.1 < n)) ranges

pub record IsOctets (a b c d : ℕ) : Type 0 where
  pub first : a < 256
  pub second : b < 256
  pub third : c < 256
  pub fourth : d < 256

-- The tests of `public_ip` on the octets.
record IsGood (a b c d : ℕ) : Type 0 where
  unspecified : (a ≢ 0) ⊎ (b ≢ 0) ⊎ (c ≢ 0) ⊎ (d ≢ 0)
  high : a < 224
  ten : a ≢ 10
  loop : a ≢ 127
  shared : (a ≢ 100) ⊎ (b / 64 ≢ 1)
  link : (a ≢ 169) ⊎ (b ≢ 254)
  p172 : (a ≢ 172) ⊎ (b / 16 ≢ 1)
  p192 : (a ≢ 192) ⊎ (b ≢ 168)
  ietf : (a ≢ 192) ⊎ (b ≢ 0) ⊎ ((c ≢ 0) × (c ≢ 2))
  bench : (a ≢ 198) ⊎ (b / 2 ≢ 9)
  doc2 : (a ≢ 198) ⊎ (b ≢ 51) ⊎ (c ≢ 100)
  doc3 : (a ≢ 203) ⊎ (b ≢ 0) ⊎ (c ≢ 113)

public_ip-IsGood : (a b c d : ℕ) → IsOctets a b c d → public_ip (v4 a b c d) ≡ true → IsGood a b c d
unfolding public_ip in_block extra_blocks has_bits is_private is_global_unicast is_broadcast
    is_unspecified is_loopback is_multicast is_link_local_unicast
public_ip-IsGood a b c d o h = record {
  unspecified = ground arith;
  high = ground arith;
  ten = ground arith;
  loop = ground arith;
  shared = ground arith;
  link = ground arith;
  p172 = ground arith;
  p192 = ground arith;
  ietf = ground arith;
  bench = ground arith;
  doc2 = ground arith;
  doc3 = ground arith;
}

module _ (a b c d : ℕ) (g : IsGood a b c d) where
  good_unicast : is_global_unicast (v4 a b c d) ≡ true
  unfolding is_global_unicast is_broadcast is_unspecified is_loopback is_multicast
      is_link_local_unicast
  good_unicast = ground (arith, g.unspecified, g.high, g.loop, g.link)

  good_loopback : is_loopback (v4 a b c d) ≡ false
  unfolding is_loopback
  good_loopback = ground (arith, g.loop)

  good_private : is_private (v4 a b c d) ≡ false
  unfolding is_private
  good_private = ground (arith, g.ten, g.p172, g.p192)

  good_link : is_link_local_unicast (v4 a b c d) ≡ false
  unfolding is_link_local_unicast
  good_link = ground (arith, g.link)

  outside_100 : in_block (v4 a b c d) (block4 100 64 0 0 10) ≡ false
  unfolding in_block has_bits
  outside_100 = ground (arith, g.shared)

  outside_192_0 : in_block (v4 a b c d) (block4 192 0 0 0 24) ≡ false
  unfolding in_block has_bits
  outside_192_0 = ground (arith, g.ietf)

  outside_192_2 : in_block (v4 a b c d) (block4 192 0 2 0 24) ≡ false
  unfolding in_block has_bits
  outside_192_2 = ground (arith, g.ietf)

  outside_198 : in_block (v4 a b c d) (block4 198 18 0 0 15) ≡ false
  unfolding in_block has_bits
  outside_198 = ground (arith, g.bench)

  outside_198_51 : in_block (v4 a b c d) (block4 198 51 100 0 24) ≡ false
  unfolding in_block has_bits
  outside_198_51 = ground (arith, g.doc2)

  outside_203 : in_block (v4 a b c d) (block4 203 0 113 0 24) ≡ false
  unfolding in_block has_bits
  outside_203 = ground (arith, g.doc3)

  outside_240 : in_block (v4 a b c d) (block4 240 0 0 0 4) ≡ false
  unfolding in_block has_bits
  outside_240 = ground (arith, g.high)

  no_block6 : (net : List ℕ) (n : ℕ) → in_block (v4 a b c d) (block6 net n) ≡ false
  unfolding in_block
  no_block6 net n = refl

  outside_all : any (in_block (v4 a b c d)) extra_blocks ≡ false
  unfolding extra_blocks
  outside_all = rw (
    outside_100, outside_192_0, outside_192_2, outside_198, outside_198_51, outside_203,
    outside_240, no_block6, no_block6, no_block6,
  )

  IsGood-public_ip : public_ip (v4 a b c d) ≡ true
  unfolding public_ip
  IsGood-public_ip = rw (good_unicast, good_loopback, good_private, good_link, outside_all)

IsGood-IsOutside :
    (a b c d : ℕ) → IsOctets a b c d → IsGood a b c d → IsOutside (number a b c d) refused_ranges
IsGood-IsOutside a b c d o g = omega arith

IsOutside-IsGood :
    (a b c d : ℕ) → IsOctets a b c d → IsOutside (number a b c d) refused_ranges → IsGood a b c d
IsOutside-IsGood a b c d o out = omega arith

-- An IPv4 address is public to the bridge exactly if, as a number, it lies outside every one of the
-- refused ranges.
pub public_ip-v4_iff :
    (a b c d : ℕ)
    → IsOctets a b c d
    → (public_ip (v4 a b c d) ≡ true) ↔ IsOutside (number a b c d) refused_ranges
public_ip-v4_iff a b c d o = (
  λ h. IsGood-IsOutside a b c d o (public_ip-IsGood a b c d o h),
  λ out. IsGood-public_ip a b c d (IsOutside-IsGood a b c d o out),
)

-- The first record that is public, behind records that are not.
pub data IsFirstPublic (ip : Ip) : List Ip → Type 0 where
  here : (x : Ip) (xs : List Ip) → ip ≡ x → public_ip ip ≡ true → IsFirstPublic ip (x ∷ xs)
  later :
      (x : Ip) (xs : List Ip)
      → public_ip x ≡ false
      → IsFirstPublic ip xs
      → IsFirstPublic ip (x ∷ xs)

first_public_sound : (ip : Ip) (xs : List Ip) → first_public xs ≡ some ip → IsFirstPublic ip xs
unfolding first_public
first_public_sound ip [] h = absurd (cc h)
first_public_sound ip (x ∷ xs) h = elim (Bool-cases (public_ip x)) [
  | inl good ↦ let same : x ≡ ip = ground arith in here x xs (sym same) (rw (sym same) good)
  | inr bad ↦ later x xs bad (first_public_sound ip xs (rw bad at h))
]

or_invalid-eq-ok :
    (o : Option (Bytes × Bytes)) (host port port' : Bytes)
    → or_invalid_destination o ≡ ok (host, port)
    → port ≡ port'
    → o ≡ some (host, port')
or_invalid-eq-ok none host port port' e same = absurd (cc e)
or_invalid-eq-ok (some pair) host port port' e same = cc

or_dns-eq-ok : (o : Option (List Ip)) (r : List Ip) → or_dns_failed o ≡ ok r → o ≡ some r
or_dns-eq-ok none r e = absurd (cc e)
or_dns-eq-ok (some r') r e = cc

or_no-eq-ok : (o : Option Ip) (ip : Ip) → or_no_public o ≡ ok ip → o ≡ some ip
or_no-eq-ok none ip e = absurd (cc e)
or_no-eq-ok (some ip') ip e = cc

-- The bridge connects only to port 443, and to the first address that the resolver names for the
-- host and that is public.
pub dial_target-IsFirstPublic :
    (split_host_port : Bytes → Option (Bytes × Bytes)) (lookup_ip : Bytes → Option (List Ip))
    (address port : Bytes) (ip : Ip)
    → dial_target split_host_port lookup_ip address ≡ ok (ip, port)
    → (host : Bytes) × (records : List Ip) × (split_host_port address ≡ some (host, port))
      × (port ≡ codes "443")
      × (lookup_ip host ≡ some records)
      × IsFirstPublic ip records
unfolding dial_target
dial_target-IsFirstPublic split_host_port lookup_ip address port ip e =
    let (pair, found, e₁) = >>=-eq-ok (or_invalid_destination (split_host_port address)) _ e in
    let (secure, e₂) = >>-eq-ok (not (str_eq pair.1 (codes "443"))) invalid_destination _ e₁ in
    let (records, resolved, e₃) = >>=-eq-ok (or_dns_failed (lookup_ip pair.0)) _ e₂ in
    let (ip', chosen, e₄) = >>=-eq-ok (or_no_public (first_public records)) _ e₃ in
    let same : pair.1 ≡ port = cc e₄ in
    let same_ip : ip' ≡ ip = cc e₄ in
    (
      pair.0,
      records,
      or_invalid-eq-ok (split_host_port address) pair.0 pair.1 port found same,
      sym same ∙ (str_eq_iff pair.1 (codes "443")).0 (ground arith),
      or_dns-eq-ok (lookup_ip pair.0) records resolved,
      first_public_sound ip records
          (or_no-eq-ok (first_public records) ip' chosen ∙ ap some same_ip),
    )
