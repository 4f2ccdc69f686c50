-- ===== src/Registry/Handler/Head.antt =====
-- HEAD requests: headOnlyWriter.
use noqeri_registry.Prelude.{
  Bool, true, false, ℕ, List, [], ◌∷◌, ◌++◌, ◌≡◌, refl, Option, none, some, length, ltb,
  if◌then◌else◌,
}
use noqeri_registry.Prelude.Text.{Bytes, codes, str_eq}
use noqeri_registry.Prelude.Fallible.{ok, err}
use noqeri_registry.Registry.Catalog.{Release, Package, Catalog, join, find}
use noqeri_registry.Registry.Archive.{Artifact, Building, Cache}
use noqeri_registry.Registry.Handler.{
  Document, Headers, Writer, Response, Request, World, write, reply_bytes, http_error,
  reply_encoded, nonnegative, find_release,
}
use noqeri_registry.Registry.Handler.Serve.{
  Route, health_route, status_route, index_route, packages_route, search_route, advisories_route,
  downloads_route, releases_route, package_route, read_route, reply, refuse_with, get, serve_page,
  serve_search, serve_advisories, serve_static, base_headers,
}
use noqeri_registry.Registry.Handler.Http.{
  Target, serve_download, serve_artifact, serve_built, serve_version, serve_below, serve_package,
  serve_route, serve_url, serve_http,
}

abbrev full : Headers → Writer
full headers = record { head_only = false; headers = headers }

abbrev head : Headers → Writer
head headers = record { head_only = true; headers = headers }

-- The answer to HEAD beside the answer to GET: the same but for the body, which is empty.
pub record IsHeadOf (x y : Response) : Type 0 where
  pub code : x.code ≡ y.code
  pub headers : x.headers ≡ y.headers
  pub body : x.body ≡ []

-- With the cache as GET leaves it.
pub record IsHeadWith (x y : Response × Cache) : Type 0 where
  pub response : IsHeadOf x.0 y.0
  pub cache : x.1 ≡ y.1

module _ {T : Type 0} (R : T → T → Type 0) where
  if-both :
      {x y x' y' : T} (b : Bool) → R x y → R x' y' → R (if b then x else x') (if b then y else y')
  if-both true h k = h
  if-both false h k = k

  option-both {ℓ} :
      {A : Type ℓ} {x y : T} {f g : A → T} (o : Option A)
      → R x y
      → ((a : A) → R (f a) (g a))
      → R (elim o [ none ↦ x | some a ↦ f a ]) (elim o [ none ↦ y | some a ↦ g a ])
  option-both none h k = h
  option-both (some a) h k = k a

both : {x y : Response} (cache : Cache) → IsHeadOf x y → IsHeadWith (x, cache) (y, cache)
both cache h = record { response = h; cache = refl }

reply_encoded-head :
    (h : Headers) (code : ℕ) (out : Option Bytes)
    → IsHeadOf (reply_encoded (head h) code out) (reply_encoded (full h) code out)
unfolding reply_encoded http_error write
reply_encoded-head h code none = record { code = refl; headers = refl; body = refl }
reply_encoded-head h code (some out) = record { code = refl; headers = refl; body = refl }

reply_bytes-head :
    (h : Headers) (content_type body : Bytes)
    → IsHeadOf (reply_bytes (head h) content_type body) (reply_bytes (full h) content_type body)
unfolding reply_bytes write
reply_bytes-head h content_type body = record { code = refl; headers = refl; body = refl }

module _ (world : World) (catalog : Catalog) (h : Headers) where
  reply-head :
      (code : ℕ) (body : Document)
      → IsHeadOf (reply world catalog (head h) code body) (reply world catalog (full h) code body)
  unfolding reply
  reply-head code body = reply_encoded-head _ code (world.marshal body)

  refuse-head :
      (code : ℕ) (text : Bytes)
      → IsHeadOf
          (refuse_with world catalog (head h) code text)
          (refuse_with world catalog (full h) code text)
  unfolding refuse_with
  refuse-head code text = reply-head code _

  serve_page-head :
      (q : Bytes) (offset limit : ℕ) (cache : Cache)
      → IsHeadWith
          (serve_page world catalog (head h) q offset limit cache)
          (serve_page world catalog (full h) q offset limit cache)
  unfolding serve_page
  serve_page-head q offset limit cache = both _ (reply-head 200 _)

  serve_search-head :
      (r : Request) (m m' : Bytes) (cache : Cache)
      → IsHeadWith
          (serve_search world catalog (head h) (record r { method = m }) cache)
          (serve_search world catalog (full h) (record r { method = m' }) cache)
  unfolding serve_search
  serve_search-head r m m' cache =
      let refused = both cache (refuse-head 400 (codes "invalid_pagination")) in
      if-both IsHeadWith (ltb 128 (length (r.query (codes "q"))))
        (both cache (refuse-head 400 (codes "search_too_long")))
        (option-both IsHeadWith (nonnegative (r.query (codes "offset")) 0 99999999) refused
          (λ offset.
            option-both IsHeadWith (nonnegative (r.query (codes "limit")) 50 100) refused (λ limit.
              if-both IsHeadWith (ltb limit 1) refused
                (serve_page-head (r.query (codes "q")) offset limit cache))))

  serve_advisories-head :
      IsHeadOf (serve_advisories world catalog (head h)) (serve_advisories world catalog (full h))
  unfolding serve_advisories
  serve_advisories-head =
      option-both IsHeadOf (world.read_file (join catalog.root (codes "advisories/index.json")))
        (refuse-head 503 (codes "advisories_unavailable"))
        (λ raw.
          option-both IsHeadOf (world.unmarshal_advisories raw)
            (refuse-head 503 (codes "advisories_invalid")) (λ list. reply-head 200 _))

  serve_static-head :
      (name content_type : Bytes)
      → IsHeadOf
          (serve_static world catalog (head h) name content_type)
          (serve_static world catalog (full h) name content_type)
  unfolding serve_static
  serve_static-head name content_type =
      option-both IsHeadOf (world.static name)
        (refuse-head 503 (codes "static_catalog_unavailable"))
        (λ s.
          option-both IsHeadOf _ (refuse-head 503 (codes "static_catalog_unavailable"))
            (λ body. reply_bytes-head h content_type body))

  serve_download-head :
      (t : Target) (a : Artifact)
      → IsHeadOf
          (serve_download world catalog (head h) t a)
          (serve_download world catalog (full h) t a)
  unfolding serve_download
  serve_download-head t a =
      if-both IsHeadOf _ (refuse-head 503 (codes "artifact_integrity_mismatch"))
        (reply_bytes-head _ (codes "application/vnd.noqeri.package+gzip") a.bytes)

  serve_artifact-head :
      (t : Target) (r : Release) (a : Artifact)
      → IsHeadOf
          (serve_artifact world catalog (head h) t r a)
          (serve_artifact world catalog (full h) t r a)
  unfolding serve_artifact
  serve_artifact-head t r a = go t.tail
    where
      go :
          (tail : List Bytes)
          → IsHeadOf
              (serve_artifact world catalog (head h) (record t { tail = tail }) r a)
              (serve_artifact world catalog (full h) (record t { tail = tail }) r a)
      go [] = reply-head 200 _
      go (last ∷ _) = if-both IsHeadOf _ (refuse-head 404 (codes "not_found")) (
          if-both IsHeadOf r.yanked (refuse-head 404 (codes "release_yanked"))
            (serve_download-head _ a))

  serve_built-head :
      (t : Target) (r : Release) (built : Building Artifact × Cache)
      → IsHeadWith
          (serve_built world catalog (head h) t r built)
          (serve_built world catalog (full h) t r built)
  unfolding serve_built
  serve_built-head t r (err e, cache) = both cache (refuse-head 503 (codes "artifact_unavailable"))
  serve_built-head t r (ok a, cache) = both cache (serve_artifact-head t r a)

  serve_version-head :
      (p : Package) (t : Target) (cache : Cache)
      → IsHeadWith
          (serve_version world catalog (head h) p t cache)
          (serve_version world catalog (full h) p t cache)
  unfolding serve_version
  serve_version-head p t cache =
      if-both IsHeadWith _ (both cache (refuse-head 400 (codes "invalid_version"))) (
        option-both IsHeadWith (find_release t.version p.versions)
          (both cache (refuse-head 404 (codes "release_not_found")))
          (λ r. serve_built-head t r (get world catalog r cache)))

  serve_below-head :
      (p : Package) (namespace name : Bytes) (rest : List Bytes) (cache : Cache)
      → IsHeadWith
          (serve_below world catalog (head h) p namespace name rest cache)
          (serve_below world catalog (full h) p namespace name rest cache)
  unfolding serve_below
  serve_below-head p namespace name [] cache = both _ (reply-head 200 _)
  serve_below-head p namespace name (version ∷ tail) cache =
      if-both IsHeadWith _ (both _ (reply-head 200 _)) (serve_version-head p _ cache)

  serve_package-head :
      (parts : List Bytes) (cache : Cache)
      → IsHeadWith
          (serve_package world catalog (head h) parts cache)
          (serve_package world catalog (full h) parts cache)
  unfolding serve_package
  serve_package-head (first ∷ second ∷ namespace ∷ name ∷ rest) cache =
      if-both IsHeadWith _ (both cache (refuse-head 404 (codes "not_found"))) (
        if-both IsHeadWith _ (both cache (refuse-head 400 (codes "invalid_package_identity"))) (
          option-both IsHeadWith (find (namespace ++ b'/' ∷ name) catalog.package_by_id)
            (both cache (refuse-head 404 (codes "package_not_found")))
            (λ p. serve_below-head p namespace name rest cache)))
  serve_package-head _ cache = both cache (refuse-head 404 (codes "not_found"))

  serve_route-head :
      (r : Request) (m m' : Bytes) (route : Route) (cache : Cache)
      → IsHeadWith
          (serve_route world catalog (head h) (record r { method = m }) route cache)
          (serve_route world catalog (full h) (record r { method = m' }) route cache)
  unfolding serve_route
  serve_route-head r m m' health_route cache = both cache (reply-head 200 _)
  serve_route-head r m m' status_route cache = both cache (reply-head 200 _)
  serve_route-head r m m' index_route cache = both _ (reply-head 200 _)
  serve_route-head r m m' packages_route cache = both _ (reply-head 200 _)
  serve_route-head r m m' search_route cache = serve_search-head r m m' cache
  serve_route-head r m m' advisories_route cache = both cache serve_advisories-head
  serve_route-head r m m' downloads_route cache = both cache (serve_static-head _ _)
  serve_route-head r m m' releases_route cache = both cache (serve_static-head _ _)
  serve_route-head r m m' (package_route parts) cache = serve_package-head parts cache

  serve_url-head :
      (r : Request) (m m' : Bytes) (cache : Cache)
      → IsHeadWith
          (serve_url world catalog (head h) (record r { method = m }) cache)
          (serve_url world catalog (full h) (record r { method = m' }) cache)
  unfolding serve_url
  serve_url-head r m m' cache =
      if-both IsHeadWith _ (both cache (refuse-head 414 (codes "uri_too_long"))) (
        if-both IsHeadWith _ (both cache (refuse-head 400 (codes "invalid_url")))
          (serve_route-head r m m' (read_route r.path) cache))

-- HEAD is answered with the code, the headers and so the length of the body that GET is answered
-- with, with no body, and the artifact cache is left as by GET.
pub serve_http-head :
    (world : World) (catalog : Catalog) (r : Request) (cache : Cache)
    → IsHeadWith
        (serve_http world catalog (record r { method = codes "HEAD" }) cache)
        (serve_http world catalog (record r { method = codes "GET" }) cache)
unfolding serve_http str_eq codes
serve_http-head world catalog r cache =
    serve_url-head world catalog base_headers r (codes "HEAD") (codes "GET") cache
