-- ===== src/HostBridge/Http/Net.antt =====
-- Addresses: publicIP and the DialContext of HTTPHost.client in http.go, with the predicates of
-- net.IP that they call. An address is taken as To4 gives it, so an IPv4 address that is written
-- in sixteen bytes is `v4`; the bytes of `v6` are sixteen.
use noqeri_registry.Prelude.{
  ℕ, ◌-◌, ◌/◌, ◌^◌, Bool, true, false, not, ◌&&◌, ◌||◌, List, [], ◌∷◌, Option, none, some, leb, any,
  ◌==◌, if◌then◌else◌,
}
use noqeri_registry.Prelude.Text.{Bytes, codes, str_eq}
use noqeri_registry.HostBridge.Error.{
  Result, ok, err, ◌>>=◌, ◌>>◌, refuse, invalid_destination, dns_failed, no_public_destination,
}

pub data Ip : Type 0 where
  v4 : ℕ → ℕ → ℕ → ℕ → Ip
  v6 : List ℕ → Ip

abbrev pub octet : List ℕ → ℕ
octet [] = 0
octet (x ∷ xs) = x

abbrev pub second : List ℕ → ℕ
second [] = 0
second (x ∷ xs) = octet xs

unfoldable pub is_loopback : Ip → Bool
is_loopback (v4 a b c d) = a == 127
is_loopback (v6 bytes) =
    str_eq bytes (0 ∷ 0 ∷ 0 ∷ 0 ∷ 0 ∷ 0 ∷ 0 ∷ 0 ∷ 0 ∷ 0 ∷ 0 ∷ 0 ∷ 0 ∷ 0 ∷ 0 ∷ 1 ∷ [])

unfoldable pub is_unspecified : Ip → Bool
is_unspecified (v4 a b c d) = a == 0 && b == 0 && c == 0 && d == 0
is_unspecified (v6 bytes) =
    str_eq bytes (0 ∷ 0 ∷ 0 ∷ 0 ∷ 0 ∷ 0 ∷ 0 ∷ 0 ∷ 0 ∷ 0 ∷ 0 ∷ 0 ∷ 0 ∷ 0 ∷ 0 ∷ 0 ∷ [])

unfoldable pub is_broadcast : Ip → Bool
is_broadcast (v4 a b c d) = a == 255 && b == 255 && c == 255 && d == 255
is_broadcast (v6 bytes) = false

unfoldable pub is_multicast : Ip → Bool
is_multicast (v4 a b c d) = a / 16 == 14
is_multicast (v6 bytes) = octet bytes == 255

unfoldable pub is_link_local_unicast : Ip → Bool
is_link_local_unicast (v4 a b c d) = a == 169 && b == 254
is_link_local_unicast (v6 bytes) = octet bytes == 254 && second bytes / 64 == 2

unfoldable pub is_private : Ip → Bool
is_private (v4 a b c d) = a == 10 || (a == 172 && b / 16 == 1) || (a == 192 && b == 168)
is_private (v6 bytes) = octet bytes / 2 == 126

unfoldable pub is_global_unicast : Ip → Bool
is_global_unicast ip =
    not (is_broadcast ip)
    && not (is_unspecified ip)
    && not (is_loopback ip)
    && not (is_multicast ip)
    && not (is_link_local_unicast ip)

-- The addresses of a block: its first `n` bits.
unfoldable pub has_bits : List ℕ → ℕ → List ℕ → Bool
has_bits [] n bytes = true
has_bits (x ∷ net) n [] = false
has_bits (x ∷ net) n (y ∷ bytes) =
    let rest = has_bits net (n - 8) bytes in
    if leb 8 n then x == y && rest else x / 2 ^ (8 - n) == y / 2 ^ (8 - n)

pub data Block : Type 0 where
  block4 : ℕ → ℕ → ℕ → ℕ → ℕ → Block
  block6 : List ℕ → ℕ → Block

-- IPNet.Contains
unfoldable pub in_block : Ip → Block → Bool
in_block (v4 a b c d) (block4 w x y z n) = has_bits (w ∷ x ∷ y ∷ z ∷ []) n (a ∷ b ∷ c ∷ d ∷ [])
in_block (v6 bytes) (block6 net n) = has_bits net n bytes
in_block _ _ = false

-- The further ranges of publicIP.
unfoldable pub extra_blocks : List Block
extra_blocks =
    block4 100 64 0 0 10
    ∷ block4 192 0 0 0 24
    ∷ block4 192 0 2 0 24
    ∷ block4 198 18 0 0 15
    ∷ block4 198 51 100 0 24
    ∷ block4 203 0 113 0 24
    ∷ block4 240 0 0 0 4
    ∷ block6 (0x20 ∷ 0x01 ∷ 0x0d ∷ 0xb8 ∷ []) 32
    ∷ block6 (0xfc ∷ []) 7
    ∷ block6 (0xfe ∷ 0x80 ∷ []) 10
    ∷ []

unfoldable pub public_ip : Ip → Bool
public_ip ip =
    if not (is_global_unicast ip) || is_loopback ip || is_private ip || is_link_local_unicast ip
    then false
    else not (any (in_block ip) extra_blocks)

unfoldable pub first_public : List Ip → Option Ip
first_public [] = none
first_public (ip ∷ records) =
    let rest = first_public records in if public_ip ip then some ip else rest

abbrev pub or_no_public : Option Ip → Result Ip
or_no_public none = err no_public_destination
or_no_public (some ip) = ok ip

abbrev pub or_dns_failed : Option (List Ip) → Result (List Ip)
or_dns_failed none = err dns_failed
or_dns_failed (some records) = ok records

abbrev pub or_invalid_destination : Option (Bytes × Bytes) → Result (Bytes × Bytes)
or_invalid_destination none = err invalid_destination
or_invalid_destination (some pair) = ok pair

-- Where DialContext connects to: the result of SplitHostPort and of the resolver, each `none` for
-- its error, decide it.
unfoldable pub dial_target :
    (Bytes → Option (Bytes × Bytes)) → (Bytes → Option (List Ip)) → Bytes → Result (Ip × Bytes)
dial_target split_host_port lookup_ip address = do
  (host, port) ← or_invalid_destination (split_host_port address)
  refuse (not (str_eq port (codes "443"))) invalid_destination
  records ← or_dns_failed (lookup_ip host)
  ip ← or_no_public (first_public records)
  ok (ip, port)
