-- ===== src/Registry/Handler/Lasting.antt =====
-- What stays in the artifact cache while the server runs, and so what stays of a download.
use noqeri_registry.Prelude.{
  ℕ, not, ◌||◌, ◌&&◌, subst, ltb, length, ◌≡◌, refl, sym, ap, ◌∙◌, Bool, true, false, List, [], ◌∷◌,
  ◌++◌, Option, none, some, if◌then◌else◌,
}
use noqeri_registry.Prelude.Text.{Bytes, codes, str_eq, contains, contains_any}
use noqeri_registry.Prelude.Fallible.{ok, err, ok-injective}
use noqeri_registry.Registry.Pattern.{is_identity, is_version}
use noqeri_registry.Registry.Catalog.{Release, Package, Catalog, find}
use noqeri_registry.Registry.Archive.{Artifact, Building, Cache, cached, get_artifact}
use noqeri_registry.Registry.Archive.Cached.{get_artifact-Step, Step-keeps, Step-cached}
use noqeri_registry.Registry.Handler.{
  versions_page, Writer, Response, Request, World, find_release, nonnegative,
}
use noqeri_registry.Registry.Handler.Serve.{
  Route, health_route, status_route, index_route, packages_route, search_route, advisories_route,
  downloads_route, releases_route, package_route, read_route, get, listings, decorated,
  decorate_all, reply, refuse_with, base_headers, serve_page, serve_search,
}
use noqeri_registry.Registry.Handler.Http.{
  Target, is_last, serve_built, serve_version, serve_below, serve_package, serve_route, serve_url,
  serve_http,
}
use noqeri_registry.Registry.Handler.Download.{IsDownload, serve_http-IsDownload}

-- What one cache holds another one holds too.
abbrev pub Keeps : Cache → Cache → Type 0
Keeps cache later =
    (path : Bytes) (a : Artifact) → cached path cache ≡ some a → cached path later ≡ some a

-- An answer with such a cache.
record Leaves (cache : Cache) (x : Response × Cache) : Type 0 where
  keeps : Keeps cache x.1

unchanged : (cache : Cache) (x : Response) → Leaves cache (x, cache)
unchanged cache x = record { keeps = λ path a h. h }

leaving : (cache later : Cache) (x : Response) → Keeps cache later → Leaves cache (x, later)
leaving cache later x k = record { keeps = k }

if-Leaves :
    {x y : Response × Cache} (cache : Cache) (b : Bool)
    → Leaves cache x
    → Leaves cache y
    → Leaves cache (if b then x else y)
if-Leaves cache true h k = h
if-Leaves cache false h k = k

option-Leaves {ℓ} :
    {A : Type ℓ} {x : Response × Cache} {f : A → Response × Cache} (cache : Cache) (o : Option A)
    → Leaves cache x
    → ((a : A) → Leaves cache (f a))
    → Leaves cache (elim o [ none ↦ x | some a ↦ f a ])
option-Leaves cache none h k = h
option-Leaves cache (some a) h k = k a

module _ (world : World) (catalog : Catalog) where
  get-Keeps : (r : Release) (cache : Cache) → Keeps cache (get world catalog r cache).1
  unfolding get
  get-Keeps r cache path a h =
      Step-keeps world.packer world.trees catalog.root r cache _ path a
        (get_artifact-Step world.packer world.trees catalog.root r cache) h

  pub get-cached :
      (r : Release) (cache : Cache) (a : Artifact)
      → (get world catalog r cache).0 ≡ ok a
      → cached r.path (get world catalog r cache).1 ≡ some a
  unfolding get
  get-cached r cache a h =
      Step-cached world.packer world.trees catalog.root r cache _ a
        (get_artifact-Step world.packer world.trees catalog.root r cache) h

  get-hit :
      (r : Release) (cache : Cache) (a : Artifact)
      → cached r.path cache ≡ some a
      → (get world catalog r cache).0 ≡ ok a
  unfolding get get_artifact
  get-hit r cache a h = rw (h, get_artifact) refl

  listings-Keeps :
      (rs : List Release) (cache : Cache) → Keeps cache (listings world catalog rs cache).1
  unfolding listings
  listings-Keeps [] cache path a h = h
  listings-Keeps (r ∷ rs) cache path a h =
      listings-Keeps rs (get world catalog r cache).1 path a (get-Keeps r cache path a h)

  decorated-Keeps : (p : Package) (cache : Cache) → Keeps cache (decorated world catalog p cache).1
  unfolding decorated
  decorated-Keeps p cache = listings-Keeps p.versions cache

  decorate_all-Keeps :
      (ps : List Package) (cache : Cache) → Keeps cache (decorate_all world catalog ps cache).1
  unfolding decorate_all
  decorate_all-Keeps [] cache path a h = h
  decorate_all-Keeps (p ∷ ps) cache path a h =
      decorate_all-Keeps ps (decorated world catalog p cache).1 path a
        (decorated-Keeps p cache path a h)

  serve_page-Leaves :
      (w : Writer) (q : Bytes) (offset limit : ℕ) (cache : Cache)
      → Leaves cache (serve_page world catalog w q offset limit cache)
  unfolding serve_page
  serve_page-Leaves w q offset limit cache = leaving cache _ _ (decorate_all-Keeps _ cache)

  serve_search-Leaves :
      (w : Writer) (r : Request) (cache : Cache)
      → Leaves cache (serve_search world catalog w r cache)
  unfolding serve_search
  serve_search-Leaves w r cache =
      let refused =
        unchanged cache (refuse_with world catalog w 400 (codes "invalid_pagination")) in
      if-Leaves cache (ltb 128 (length (r.query (codes "q"))))
        (unchanged cache (refuse_with world catalog w 400 (codes "search_too_long")))
        (option-Leaves cache (nonnegative (r.query (codes "offset")) 0 99999999) refused (λ offset.
          option-Leaves cache (nonnegative (r.query (codes "limit")) 50 100) refused (λ limit.
            if-Leaves cache (ltb limit 1) refused
              (serve_page-Leaves w (r.query (codes "q")) offset limit cache))))

  serve_built-Leaves :
      (w : Writer) (t : Target) (r : Release) (cache : Cache) (b : Building Artifact × Cache)
      → Keeps cache b.1
      → Leaves cache (serve_built world catalog w t r b)
  unfolding serve_built
  serve_built-Leaves w t r cache (err e, later) k = leaving cache later _ k
  serve_built-Leaves w t r cache (ok b, later) k = leaving cache later _ k

  serve_version-Leaves :
      (w : Writer) (p : Package) (t : Target) (cache : Cache)
      → Leaves cache (serve_version world catalog w p t cache)
  unfolding serve_version
  serve_version-Leaves w p t cache =
      if-Leaves cache (not (is_version t.version))
        (unchanged cache (refuse_with world catalog w 400 (codes "invalid_version")))
        (option-Leaves cache (find_release t.version p.versions)
          (unchanged cache (refuse_with world catalog w 404 (codes "release_not_found")))
          (λ r. serve_built-Leaves w t r cache (get world catalog r cache) (get-Keeps r cache)))

  serve_below-Leaves :
      (w : Writer) (p : Package) (namespace name : Bytes) (rest : List Bytes) (cache : Cache)
      → Leaves cache (serve_below world catalog w p namespace name rest cache)
  unfolding serve_below
  serve_below-Leaves w p namespace name [] cache = leaving cache _ _ (decorated-Keeps p cache)
  serve_below-Leaves w p namespace name (version ∷ tail) cache =
      if-Leaves cache (str_eq version (codes "versions") && is_last tail)
        (leaving cache _
          (reply world catalog w 200
            (versions_page namespace name (decorated world catalog p cache).0.versions))
          (decorated-Keeps p cache))
        (serve_version-Leaves w p
          (record { namespace = namespace; name = name; version = version; tail = tail }) cache)

  serve_package-Leaves :
      (w : Writer) (parts : List Bytes) (cache : Cache)
      → Leaves cache (serve_package world catalog w parts cache)
  unfolding serve_package
  serve_package-Leaves w (first ∷ second ∷ namespace ∷ name ∷ rest) cache =
      if-Leaves cache
        (ltb 2 (length rest)
          || (not (str_eq first (codes "v1")) || not (str_eq second (codes "packages"))))
        (unchanged cache (refuse_with world catalog w 404 (codes "not_found")))
        (if-Leaves cache (not (is_identity namespace) || not (is_identity name))
          (unchanged cache (refuse_with world catalog w 400 (codes "invalid_package_identity")))
          (option-Leaves cache (find (namespace ++ b'/' ∷ name) catalog.package_by_id)
            (unchanged cache (refuse_with world catalog w 404 (codes "package_not_found")))
            (λ p. serve_below-Leaves w p namespace name rest cache)))
  serve_package-Leaves w _ cache = unchanged cache _

  serve_route-Leaves :
      (w : Writer) (r : Request) (route : Route) (cache : Cache)
      → Leaves cache (serve_route world catalog w r route cache)
  unfolding serve_route
  serve_route-Leaves w r health_route cache = unchanged cache _
  serve_route-Leaves w r status_route cache = unchanged cache _
  serve_route-Leaves w r index_route cache = leaving cache _ _ (decorate_all-Keeps _ cache)
  serve_route-Leaves w r packages_route cache = leaving cache _ _ (decorate_all-Keeps _ cache)
  serve_route-Leaves w r search_route cache = serve_search-Leaves w r cache
  serve_route-Leaves w r advisories_route cache = unchanged cache _
  serve_route-Leaves w r downloads_route cache = unchanged cache _
  serve_route-Leaves w r releases_route cache = unchanged cache _
  serve_route-Leaves w r (package_route parts) cache = serve_package-Leaves w parts cache

  serve_url-Leaves :
      (w : Writer) (r : Request) (cache : Cache) → Leaves cache (serve_url world catalog w r cache)
  unfolding serve_url
  serve_url-Leaves w r cache =
      if-Leaves cache (ltb 512 (length r.path) || ltb 2048 (length r.raw_query))
        (unchanged cache (refuse_with world catalog w 414 (codes "uri_too_long")))
        (if-Leaves cache
          (contains_any r.escaped_path (codes "%\\")
            || (contains r.path (codes "//") || contains r.path (codes "..")))
          (unchanged cache (refuse_with world catalog w 400 (codes "invalid_url")))
          (serve_route-Leaves w r (read_route r.path) cache))

  serve_http-Leaves :
      (r : Request) (cache : Cache) → Leaves cache (serve_http world catalog r cache)
  unfolding serve_http
  serve_http-Leaves r cache =
      let w : Writer = record { head_only = false; headers = base_headers } in
      let is_head = str_eq r.method (codes "HEAD") in
      if-Leaves cache (not (str_eq r.method (codes "GET")) && not is_head)
        (unchanged cache (refuse_with world catalog w 405 (codes "method_not_allowed")))
        (serve_url-Leaves (record w { head_only = is_head }) r cache)

-- A request, with the outside world at that time.
pub record Arrival : Type 0 where
  pub world : World
  pub request : Request

-- The cache after requests, in their order.
unfoldable pub serve_all : Catalog → List Arrival → Cache → Cache
serve_all catalog [] cache = cache
serve_all catalog (v ∷ arrivals) cache =
    serve_all catalog arrivals (serve_http v.world catalog v.request cache).1

serve_all-Keeps :
    (catalog : Catalog) (arrivals : List Arrival) (cache : Cache)
    → Keeps cache (serve_all catalog arrivals cache)
unfolding serve_all
serve_all-Keeps catalog [] cache path a h = h
serve_all-Keeps catalog (v ∷ arrivals) cache path a h =
    serve_all-Keeps catalog arrivals _ path a
      ((serve_http-Leaves v.world catalog v.request cache).keeps path a h)

-- Two downloads of a release, the second from a cache that holds what the first left, have one body.
same_body :
    (world later : World) (catalog : Catalog) (t : Target) (cache cache' : Cache)
    (x y : Response × Cache)
    → IsDownload world catalog t cache x
    → IsDownload later catalog t cache' y
    → Keeps x.1 cache'
    → y.0.body ≡ x.0.body
same_body world later catalog t cache cache' x y d e keeps =
    let same_package : d.p ≡ e.p = cc (d.listed, e.listed) in
    let released : find_release t.version e.p.versions ≡ some d.r =
      subst (λ (p : Package). find_release t.version p.versions ≡ some d.r) same_package
        d.released in
    let same_release : d.r ≡ e.r = cc (released, e.released) in
    let held : cached d.r.path cache' ≡ some d.a = keeps d.r.path d.a (
      subst (λ (c : Cache). cached d.r.path c ≡ some d.a) (sym d.stored)
        (get-cached world catalog d.r cache d.a d.built)) in
    let again : (get later catalog d.r cache').0 ≡ ok d.a =
      get-hit later catalog d.r cache' d.a held in
    let built : (get later catalog d.r cache').0 ≡ ok e.a =
      subst (λ (r : Release). (get later catalog r cache').0 ≡ ok e.a) (sym same_release) e.built in
    let same_artifact : d.a ≡ e.a = ok-injective d.a e.a (sym again ∙ built) in
    e.body ∙ ap (λ (a : Artifact). a.bytes) (sym same_artifact) ∙ sym d.body

-- While a server runs, two GET requests for one download that are both answered with 200 get the
-- same bytes, whatever requests come between them and whatever becomes of the files.
pub download_lasting :
    (catalog : Catalog) (cache : Cache) (now later : Arrival) (between : List Arrival)
    (first second namespace name version last : Bytes)
    → now.request.method ≡ codes "GET"
    → later.request.method ≡ codes "GET"
    → read_route now.request.path
      ≡ package_route (first ∷ second ∷ namespace ∷ name ∷ version ∷ last ∷ [])
    → later.request.path ≡ now.request.path
    → (serve_http now.world catalog now.request cache).0.code ≡ 200
    → (serve_http later.world catalog later.request
        (serve_all catalog between (serve_http now.world catalog now.request cache).1)).0.code
      ≡ 200
    → (serve_http later.world catalog later.request
        (serve_all catalog between (serve_http now.world catalog now.request cache).1)).0.body
      ≡ (serve_http now.world catalog now.request cache).0.body
download_lasting catalog cache now later between first second namespace name version last get_now
      get_later route same_path good good_later =
    let x = serve_http now.world catalog now.request cache in
    let d =
      serve_http-IsDownload now.world catalog now.request cache first second namespace name version
        last get_now route good in
    let e =
      serve_http-IsDownload later.world catalog later.request (serve_all catalog between x.1) first
        second namespace name version last get_later (ap read_route same_path ∙ route) good_later in
    same_body now.world later.world catalog _ cache (serve_all catalog between x.1) x _ d.1 e.1
      (serve_all-Keeps catalog between x.1)
