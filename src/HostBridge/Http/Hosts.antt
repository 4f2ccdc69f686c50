-- ===== src/HostBridge/Http/Hosts.antt =====
-- The hosts of a provider, rs names; and no host belongs to two providers.
use noqeri_registry.Prelude.{
  ◌<◌, ◌≡◌, ◌≢◌, ◌⊎◌, refl, ap, inl, inr, Bool, true, false, not, ◌&&◌, ◌||◌, Bool-cases, List, [],
  ◌∷◌, ◌++◌, Option, none, some, arith, length, length-append, any, all, if◌then◌else◌,
}
use noqeri_registry.Prelude.Text.{
  Bytes, Unicode, codes, str_eq, str_eq_iff, has_prefix, has_suffix, to_lower,
}
use noqeri_registry.Prelude.Affix.{has_suffix-eq, has_suffix-compare}
use noqeri_registry.HostBridge.Http.Providers.{
  provider_hosts, hosts_of, host_matches, any_host, allowed_host,
}
use mathlib.Core.Path.{subst₂}

-- Two patterns that no host name matches both of.
are_disjoint : Bytes → Bytes → Bool
are_disjoint a b =
    if has_prefix a (codes ".")
    then if has_prefix b (codes ".")
      then not (has_suffix a b) && not (has_suffix b a)
      else not (has_suffix b a)
    else if has_prefix b (codes ".")
    then not (has_suffix a b)
    else not (str_eq a b)

are_disjoint_sound :
    (h a b : Bytes)
    → are_disjoint a b ≡ true
    → host_matches h a ≡ true
    → host_matches h b ≡ true
    → ⊥
unfolding are_disjoint host_matches
are_disjoint_sound h a b d x y = elim (Bool-cases (has_prefix a (codes "."))) [
  | inl dot ↦ elim (Bool-cases (has_prefix b (codes "."))) [
    | inl dot' ↦ ground (arith, has_suffix-compare h a b)
    | inr plain' ↦ ground (arith, str_eq_iff h b)
  ]
  | inr plain ↦ elim (Bool-cases (has_prefix b (codes "."))) [
    | inl dot' ↦ ground (arith, str_eq_iff h a)
    | inr plain' ↦ ground (arith, str_eq_iff h a, str_eq_iff h b, str_eq_iff a b)
  ]
]

all_disjoint : Bytes → List Bytes → Bool
unfolding are_disjoint
all_disjoint a bs = all (are_disjoint a) bs

rows_disjoint : List Bytes → List Bytes → Bool
unfolding all_disjoint
rows_disjoint rs bs = all (λ a. all_disjoint a bs) rs

-- The patterns of each provider against those of every other one.
row_apart : (Bytes × List Bytes) → List (Bytes × List Bytes) → Bool
unfolding rows_disjoint
row_apart row table = all (λ other. str_eq row.0 other.0 || rows_disjoint row.1 other.1) table

table_apart : List (Bytes × List Bytes) → Bool
unfolding row_apart
table_apart table = all (λ row. row_apart row table) table

provider_hosts-apart : table_apart provider_hosts ≡ true
unfolding table_apart provider_hosts str_eq has_prefix has_suffix are_disjoint codes
provider_hosts-apart = refl

any-all :
    {A : Type 0} (p q : A → Bool) (xs : List A)
    → all p xs ≡ true
    → any q xs ≡ true
    → (x : A) × (p x ≡ true) × (q x ≡ true)
any-all p q [] h k = absurd (cc k)
any-all p q (x ∷ xs) h k = elim (Bool-cases (q x)) [
  | inl here ↦ (x, ground arith, here)
  | inr later ↦ any-all p q xs (ground arith) (ground arith)
]

rows_disjoint_sound :
    (h : Bytes) (rs bs : List Bytes)
    → rows_disjoint rs bs ≡ true
    → any (host_matches h) rs ≡ true
    → any (host_matches h) bs ≡ true
    → ⊥
unfolding rows_disjoint all_disjoint
rows_disjoint_sound h rs bs d x y =
    let (a, apart, match_a) = any-all (λ a. all (are_disjoint a) bs) (host_matches h) rs d x in
    let (b, apart_b, match_b) = any-all (are_disjoint a) (host_matches h) bs apart y in
    are_disjoint_sound h a b apart_b match_a match_b

hosts_of_row :
    (p : Bytes) (hosts : List Bytes) (test : (Bytes × List Bytes) → Bool)
    (table : List (Bytes × List Bytes))
    → hosts_of p table ≡ some hosts
    → all test table ≡ true
    → test (p, hosts) ≡ true
unfolding hosts_of
hosts_of_row p hosts test [] e h = absurd (cc e)
hosts_of_row p hosts test ((name, row) ∷ table) e h = elim (Bool-cases (str_eq name p)) [
  | inl same ↦
      let name_eq = (str_eq_iff name p).0 same in
      let row_eq : row ≡ hosts = ground arith in
      subst₂ (λ n r. test (n, r) ≡ true) name_eq row_eq (ground arith)
  | inr other ↦ hosts_of_row p hosts test table (ground arith) (ground arith)
]

-- A provider's row of the table and the pattern that lets the host through.
pub any_host-some :
    (h : Bytes) (o : Option (List Bytes))
    → any_host h o ≡ true
    → (hosts : List Bytes) × (o ≡ some hosts) × (any (host_matches h) hosts ≡ true)
any_host-some h none e = absurd (cc e)
any_host-some h (some hosts) e = (hosts, refl, e)

-- No host name is allowed to two providers.
pub allowed_host_unique :
    (u : Unicode) (p q hostname : Bytes)
    → allowed_host u p hostname ≡ true
    → allowed_host u q hostname ≡ true
    → p ≡ q
unfolding allowed_host table_apart row_apart
allowed_host_unique u p q hostname x y =
    let h = to_lower u hostname in
    let (ps, row_p, match_p) = any_host-some h (hosts_of p provider_hosts) x in
    let (qs, row_q, match_q) = any_host-some h (hosts_of q provider_hosts) y in
    let apart =
      hosts_of_row p ps (λ row. row_apart row provider_hosts) provider_hosts row_p
        provider_hosts-apart in
    let pair =
      hosts_of_row q qs (λ other. str_eq p other.0 || rows_disjoint ps other.1) provider_hosts row_q
        apart in
    elim (Bool-cases (str_eq p q)) [
      | inl same ↦ (str_eq_iff p q).0 same
      | inr other ↦ absurd (rows_disjoint_sound h ps qs (ground arith) match_p match_q)
    ]

-- A host of a provider, as a name: the pattern itself, or a proper subdomain of a pattern that
-- begins with a dot.
abbrev pub IsHostOf : Bytes → Bytes → Type 0
IsHostOf hostname pattern_text =
    ((has_prefix pattern_text (codes ".") ≡ false) × (hostname ≡ pattern_text))
    ⊎ ((has_prefix pattern_text (codes ".") ≡ true)
        × ((front : Bytes) × (front ≢ []) × (hostname ≡ front ++ pattern_text)))

front-ne-nil : (s front p : Bytes) → s ≡ front ++ p → length p < length s → front ≢ []
front-ne-nil s front p e longer nil =
    absurd (omega (arith, ap length e, ap length nil, length-append front p))

pub host_matches-IsHostOf : (h p : Bytes) → host_matches h p ≡ true → IsHostOf h p
unfolding host_matches
host_matches-IsHostOf h p m = elim (Bool-cases (has_prefix p (codes "."))) [
  | inl dot ↦
      let (front, e) = has_suffix-eq h p (ground arith) in
      inr (dot, (front, front-ne-nil h front p e (ground arith), e))
  | inr plain ↦ inl (plain, (str_eq_iff h p).0 (ground arith))
]
