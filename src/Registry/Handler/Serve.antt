-- ===== src/Registry/Handler/Serve.antt =====
-- ServeHTTP of internal/registry/handler.go: its routes, and the state of the artifact cache that
-- they pass on.
use noqeri_registry.Prelude.{
  ℕ, ◌*◌, ◌^◌, Bool, not, ◌&&◌, ◌||◌, List, [], ◌∷◌, ◌++◌, Option, none, some, length, ltb, ◌==◌,
  if◌then◌else◌,
}
use noqeri_registry.Prelude.Text.{Bytes, codes, str_eq, contains, split, to_lower, trim_space}
use noqeri_registry.Registry.Catalog.{Release, Package, Catalog, join, package_id}
use noqeri_registry.Registry.Archive.{Artifact, Building, Cache, get_artifact}
use noqeri_registry.Registry.Handler.{
  Listing, Decorated, Document, problem, search, advisories, Headers, Writer, Response, Request,
  Static, World, with_header, reply_bytes, reply_encoded, nonnegative, page, listing,
}

-- The headers that every response starts with.
unfoldable pub base_headers : Headers
unfolding codes
base_headers =
    (codes "X-Content-Type-Options", codes "nosniff")
    ∷ (codes "Content-Security-Policy", codes "default-src 'none'")
    ∷ (codes "Access-Control-Allow-Origin", codes "*")
    ∷ (codes "Cache-Control", codes "no-store")
    ∷ []

-- `strings.TrimPrefix(path, "/")`
abbrev pub trim_slash : Bytes → Bytes
trim_slash [] = []
trim_slash (c ∷ s) = if c == b'/' then s else c ∷ s

-- The fixed routes of the switch, and the rest.
pub data Route : Type 0 where
  health_route status_route index_route packages_route search_route : Route
  advisories_route downloads_route releases_route : Route
  package_route : List Bytes → Route

unfoldable pub read_route : Bytes → Route
read_route path =
    if str_eq path (codes "/health")
    then health_route
    else if str_eq path (codes "/v1/status")
    then status_route
    else if str_eq path (codes "/v1/index")
    then index_route
    else if str_eq path (codes "/v1/packages")
    then packages_route
    else if str_eq path (codes "/v1/search")
    then search_route
    else if str_eq path (codes "/v1/advisories")
    then advisories_route
    else if str_eq path (codes "/downloads") || str_eq path (codes "/downloads/")
    then downloads_route
    else if str_eq path (codes "/v1/releases")
    then releases_route
    else package_route (split (trim_slash path) b'/')

module _ (world : World) (catalog : Catalog) where
  unfoldable pub reply : Writer → ℕ → Document → Response
  reply w code body =
      reply_encoded (with_header w (codes "Content-Type") (codes "application/json; charset=utf-8"))
        code (world.marshal body)

  -- The method problem.
  unfoldable pub refuse_with : Writer → ℕ → Bytes → Response
  refuse_with w code text = reply w code (problem text)

  unfoldable pub get : Release → Cache → Building Artifact × Cache
  get r cache = get_artifact world.packer world.trees catalog.root r cache

  -- decorated, and its loop over the releases
  unfoldable pub listings : List Release → Cache → List Listing × Cache
  listings [] cache = ([], cache)
  listings (r ∷ rs) cache =
      let (built, cache1) = get r cache in
      let (rest, cache2) = listings rs cache1 in (listing r built ∷ rest, cache2)

  unfoldable pub decorated : Package → Cache → Decorated × Cache
  decorated p cache =
      let (releases, cache') = listings p.versions cache in
      (
        record {
          namespace = p.namespace;
          name = p.name;
          description = p.description;
          versions = releases;
        },
        cache',
      )

  -- allPackages, and the loop over the results of a search
  unfoldable pub decorate_all : List Package → Cache → List Decorated × Cache
  decorate_all [] cache = ([], cache)
  decorate_all (p ∷ ps) cache =
      let (d, cache1) = decorated p cache in
      let (rest, cache2) = decorate_all ps cache1 in (d ∷ rest, cache2)

  -- The test of a package against the lowered search text.
  unfoldable pub is_hit : Bytes → Package → Bool
  is_hit lower p = contains (to_lower world.unicode (package_id p ++ b' ' ∷ p.description)) lower

  unfoldable pub hits : Bytes → List Package → List Package
  hits lower [] = []
  hits lower (p ∷ ps) = let rest = hits lower ps in if is_hit lower p then p ∷ rest else rest

  unfoldable pub serve_page : Writer → Bytes → ℕ → ℕ → Cache → Response × Cache
  serve_page w q offset limit cache =
      let lower = to_lower world.unicode (trim_space world.unicode q) in
      let (results, cache') = decorate_all (hits lower catalog.index.packages) cache in
      (reply w 200 (search (page offset limit results) (length results) offset limit), cache')

  unfoldable pub serve_search : Writer → Request → Cache → Response × Cache
  serve_search w r cache =
      if ltb 128 (length (r.query (codes "q")))
      then (refuse_with w 400 (codes "search_too_long"), cache)
      else elim (nonnegative (r.query (codes "offset")) 0 99999999) [
        | none ↦ (refuse_with w 400 (codes "invalid_pagination"), cache)
        | some offset ↦ elim (nonnegative (r.query (codes "limit")) 50 100) [
          | none ↦ (refuse_with w 400 (codes "invalid_pagination"), cache)
          | some limit ↦
              if ltb limit 1
              then (refuse_with w 400 (codes "invalid_pagination"), cache)
              else serve_page w (r.query (codes "q")) offset limit cache
        ]
      ]

  abbrev or_empty : Option (List Bytes) → List Bytes
  or_empty none = []
  or_empty (some list) = list

  unfoldable pub serve_advisories : Writer → Response
  serve_advisories w = elim (world.read_file (join catalog.root (codes "advisories/index.json"))) [
    | none ↦ refuse_with w 503 (codes "advisories_unavailable")
    | some raw ↦ elim (world.unmarshal_advisories raw) [
      | none ↦ refuse_with w 503 (codes "advisories_invalid")
      | some list ↦ reply w 200 (advisories (or_empty list))
    ]
  ]

  abbrev is_static : Static → Bool
  is_static s = s.regular && not (ltb (4 * 2 ^ 20) s.size)

  -- serveStatic
  unfoldable pub serve_static : Writer → Bytes → Bytes → Response
  serve_static w name content_type = elim (world.static name) [
    | none ↦ refuse_with w 503 (codes "static_catalog_unavailable")
    | some s ↦ elim (if is_static s then s.contents else none) [
      | none ↦ refuse_with w 503 (codes "static_catalog_unavailable")
      | some body ↦ reply_bytes w content_type body
    ]
  ]
