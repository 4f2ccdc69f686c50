-- ===== src/Registry/Handler.antt =====
-- The HTTP handler of internal/registry/handler.go. The files outside the archives, the readers and
-- writers of JSON and the parsing of a URL are arguments.
pub mod Serve
pub mod Http
pub mod Head
pub mod Digits
pub mod Paging
pub mod Answered
pub mod Download
pub mod Lasting
pub mod Placed
use noqeri_registry.Prelude.{
  ℕ, zero, suc, ◌+◌, ◌-◌, ◌*◌, ◌^◌, Bool, true, false, not, ◌&&◌, ◌||◌, List, [], ◌∷◌, ◌++◌, Option,
  none, some, length, leb, ltb, if◌then◌else◌, all, map,
}
use noqeri_registry.Prelude.Text.{
  Bytes, Unicode, codes, str_eq, contains, contains_any, split, to_lower, trim_space, has_prefix,
}
use noqeri_registry.Prelude.Number.{ℤ, pos, negsuc, parse_int, format_nat}
use noqeri_registry.Prelude.Fallible.{Fallible, ok, err}
use noqeri_registry.Registry.Pattern.{is_identity, is_version, is_digit}
use noqeri_registry.Registry.Catalog.{Release, Package, Index, Catalog, join, find, package_id}
use noqeri_registry.Registry.Archive.{
  Artifact, ArchiveError, Building, Packer, Tree, Cache, get_artifact, hex_encode, take,
}

-- One release as `decorated` lists it; `none` is archiveUnavailable, with no dependencies. The
-- constant fields of the map are left to the encoder, here and below.
pub record Archived : Type 0 where
  pub integrity : Bytes
  pub entry : Bytes
  pub dependencies : List (Bytes × Bytes)

pub record Listing : Type 0 where
  pub version : Bytes
  pub yanked : Bool
  pub archive : Option Archived

pub record Decorated : Type 0 where
  pub namespace : Bytes
  pub name : Bytes
  pub description : Bytes
  pub versions : List Listing

-- The values that reply is given, one constructor for each map literal of the source.
pub data Document : Type 0 where
  problem : Bytes → Document
  health status : Document
  index packages : List Decorated → Document
  search : List Decorated → ℕ → ℕ → ℕ → Document
  advisories : List Bytes → Document
  package_page : Decorated → Document
  versions_page : Bytes → Bytes → List Listing → Document
  release_page : Bytes → Bytes → Bytes → Bool → Archived → Document

abbrev pub Headers : Type 0
Headers = List (Bytes × Bytes)

-- `w`: whether it is a headOnlyWriter, and its headers.
pub record Writer : Type 0 where
  pub head_only : Bool
  pub headers : Headers

pub record Response : Type 0 where
  pub code : ℕ
  pub headers : Headers
  pub body : Bytes

-- `http.Request`, with what net/url makes of its URL: `query k` is `r.URL.Query().Get(k)`.
pub record Request : Type 0 where
  pub method : Bytes
  pub path : Bytes
  pub escaped_path : Bytes
  pub raw_query : Bytes
  pub query : Bytes → Bytes

-- What Lstat and ReadFile say of a file: whether it is regular, its size, and its contents.
pub record Static : Type 0 where
  pub regular : Bool
  pub size : ℕ
  pub contents : Option Bytes

pub record World : Type 0 where
  pub unicode : Unicode
  pub packer : Packer
  pub trees : Bytes → Tree
  pub static : Bytes → Option Static
  pub read_file : Bytes → Option Bytes
  pub unmarshal_advisories : Bytes → Option (Option (List Bytes))
  pub marshal : Document → Option Bytes

-- `w.Header().Set(key, value)`
unfoldable pub set_header : Bytes → Bytes → Headers → Headers
unfolding str_eq
set_header key value [] = (key, value) ∷ []
set_header key value ((k, v) ∷ rest) =
    let later = set_header key value rest in
    if str_eq k key then (key, value) ∷ rest else (k, v) ∷ later

-- `w.WriteHeader(code)` and `w.Write(body)`
unfoldable pub write : Writer → ℕ → Bytes → Response
write w code body = record {
  code = code;
  headers = w.headers;
  body = if w.head_only then [] else body;
}

abbrev pub with_header : Writer → Bytes → Bytes → Writer
with_header w key value = record w { headers = set_header key value w.headers }

-- The method bytes.
unfoldable pub reply_bytes : Writer → Bytes → Bytes → Response
reply_bytes w content_type body =
    write
      (with_header (with_header w (codes "Content-Type") content_type) (codes "Content-Length")
        (format_nat (length body)))
      200 body

-- `http.Error`
unfoldable pub http_error : Writer → Bytes → ℕ → Response
http_error w text code =
    write
      (with_header (with_header w (codes "Content-Type") (codes "text/plain; charset=utf-8"))
        (codes "X-Content-Type-Options") (codes "nosniff"))
      code (text ++ 10 ∷ [])

unfoldable pub reply_encoded : Writer → ℕ → Option Bytes → Response
reply_encoded w code none = http_error w (codes "internal_error") 500
reply_encoded w code (some out) =
    write (with_header w (codes "Content-Length") (format_nat (length out))) code out

unfoldable pub digits_only : Bytes → Bool
digits_only value = all is_digit value

abbrev at_most : ℕ → Option ℤ → Option ℕ
at_most largest (some (pos n)) = if ltb largest n then none else some n
at_most largest _ = none

-- `none` for `0,false`
unfoldable pub nonnegative : Bytes → ℕ → ℕ → Option ℕ
unfolding parse_int digits_only str_eq
nonnegative value otherwise largest =
    if str_eq value []
    then some otherwise
    else if ltb 8 (length value)
    then none
    else if not (digits_only value)
    then none
    else at_most largest (parse_int value)

unfoldable pub drop {ℓ} : {A : Type ℓ} → ℕ → List A → List A
drop zero xs = xs
drop (suc n) [] = []
drop (suc n) (x ∷ xs) = drop n xs

abbrev pub min : ℕ → ℕ → ℕ
min a b = if ltb b a then b else a

-- `results[offset:end]` with the end cut to the count, and no results from beyond it
unfoldable pub page {ℓ} : {A : Type ℓ} → ℕ → ℕ → List A → List A
unfolding drop take
page offset limit results =
    if leb (length results) offset
    then []
    else take (min (offset + limit) (length results) - offset) (drop offset results)

-- The first release of a version.
unfoldable pub find_release : Bytes → List Release → Option Release
unfolding str_eq
find_release version [] = none
find_release version (r ∷ rs) = if str_eq r.version version then some r else find_release version rs

unfoldable pub archived : Artifact → Archived
unfolding codes
archived a = record {
  integrity = codes "sha256:" ++ a.digest;
  entry = a.entry;
  dependencies = a.dependencies;
}

unfoldable pub listing : Release → Building Artifact → Listing
unfolding archived
listing r (err e) = record { version = r.version; yanked = r.yanked; archive = none }
listing r (ok a) = record { version = r.version; yanked = r.yanked; archive = some (archived a) }
