-- ===== src/Registry/Handler/Http.antt =====
-- The routes of a package and the whole of ServeHTTP, internal/registry/handler.go.
use noqeri_registry.Prelude.{
  Bool, true, false, not, ◌&&◌, ◌||◌, List, [], ◌∷◌, ◌++◌, none, some, length, ltb, if◌then◌else◌,
}
use noqeri_registry.Prelude.Text.{Bytes, codes, str_eq, contains, contains_any}
use noqeri_registry.Prelude.Fallible.{ok, err}
use noqeri_registry.Registry.Pattern.{is_identity, is_version}
use noqeri_registry.Registry.Catalog.{Release, Package, Catalog, join, find}
use noqeri_registry.Registry.Archive.{Artifact, Building, Cache, hex_encode}
use noqeri_registry.Registry.Handler.{
  health, status, index, packages, package_page, versions_page, release_page, Writer, Response,
  Request, World, with_header, reply_bytes, find_release, archived,
}
use noqeri_registry.Registry.Handler.Serve.{
  base_headers, Route, health_route, status_route, index_route, packages_route, search_route,
  advisories_route, downloads_route, releases_route, package_route, read_route, reply, refuse_with,
  get, decorated, decorate_all, serve_search, serve_advisories, serve_static,
}

-- `/namespace/name/version`, and the parts behind it
pub record Target : Type 0 where
  pub namespace : Bytes
  pub name : Bytes
  pub version : Bytes
  pub tail : List Bytes

abbrev pub is_last : List Bytes → Bool
is_last [] = true
is_last (_ ∷ _) = false

-- `fmt.Sprintf("attachment; filename=%q", …)` of a name with nothing to quote
unfoldable pub disposition : Target → Bytes
unfolding codes
disposition t =
    codes "attachment; filename=\""
    ++ (t.namespace ++ b'-' ∷ (t.name ++ b'-' ∷ (t.version ++ codes ".nqpkg\"")))

module _ (world : World) (catalog : Catalog) where
  -- The end of a download.
  unfoldable pub serve_download : Writer → Target → Artifact → Response
  serve_download w t a =
      if not (str_eq (hex_encode (world.packer.sha256 a.bytes)) a.digest)
      then refuse_with world catalog w 503 (codes "artifact_integrity_mismatch")
      else reply_bytes
          (with_header (with_header w (codes "X-Archive-SHA256") a.digest)
            (codes "Content-Disposition") (disposition t))
          (codes "application/vnd.noqeri.package+gzip") a.bytes

  unfoldable pub serve_artifact : Writer → Target → Release → Artifact → Response
  serve_artifact w t r a = elim t.tail [
    | [] ↦
        reply world catalog w 200 (release_page t.namespace t.name t.version r.yanked (archived a))
    | last ∷ _ ↦
        if not (str_eq last (codes "download"))
        then refuse_with world catalog w 404 (codes "not_found")
        else if r.yanked
        then refuse_with world catalog w 404 (codes "release_yanked")
        else serve_download w t a
  ]

  unfoldable pub serve_built :
      Writer → Target → Release → Building Artifact × Cache → Response × Cache
  serve_built w t r (err e, cache) =
      (refuse_with world catalog w 503 (codes "artifact_unavailable"), cache)
  serve_built w t r (ok a, cache) = (serve_artifact w t r a, cache)

  unfoldable pub serve_version : Writer → Package → Target → Cache → Response × Cache
  serve_version w p t cache =
      if not (is_version t.version)
      then (refuse_with world catalog w 400 (codes "invalid_version"), cache)
      else elim (find_release t.version p.versions) [
        | none ↦ (refuse_with world catalog w 404 (codes "release_not_found"), cache)
        | some r ↦ serve_built w t r (get world catalog r cache)
      ]

  -- The routes below a package that exists.
  unfoldable pub serve_below :
      Writer → Package → Bytes → Bytes → List Bytes → Cache → Response × Cache
  serve_below w p namespace name [] cache =
      let (d, cache') = decorated world catalog p cache in
      (reply world catalog w 200 (package_page d), cache')
  serve_below w p namespace name (version ∷ tail) cache =
      if str_eq version (codes "versions") && is_last tail
      then (let (d, cache') = decorated world catalog p cache in
          (reply world catalog w 200 (versions_page namespace name d.versions), cache'))
      else serve_version w p
          (record { namespace = namespace; name = name; version = version; tail = tail }) cache

  unfoldable pub serve_package : Writer → List Bytes → Cache → Response × Cache
  serve_package w (first ∷ second ∷ namespace ∷ name ∷ rest) cache =
      if ltb 2 (length rest)
        || (not (str_eq first (codes "v1")) || not (str_eq second (codes "packages")))
      then (refuse_with world catalog w 404 (codes "not_found"), cache)
      else if not (is_identity namespace) || not (is_identity name)
      then (refuse_with world catalog w 400 (codes "invalid_package_identity"), cache)
      else elim (find (namespace ++ b'/' ∷ name) catalog.package_by_id) [
        | none ↦ (refuse_with world catalog w 404 (codes "package_not_found"), cache)
        | some p ↦ serve_below w p namespace name rest cache
      ]
  serve_package w _ cache = (refuse_with world catalog w 404 (codes "not_found"), cache)

  unfoldable pub serve_route : Writer → Request → Route → Cache → Response × Cache
  serve_route w r health_route cache = (reply world catalog w 200 health, cache)
  serve_route w r status_route cache = (reply world catalog w 200 status, cache)
  serve_route w r index_route cache =
      let (all, cache') = decorate_all world catalog catalog.index.packages cache in
      (reply world catalog w 200 (index all), cache')
  serve_route w r packages_route cache =
      let (all, cache') = decorate_all world catalog catalog.index.packages cache in
      (reply world catalog w 200 (packages all), cache')
  serve_route w r search_route cache = serve_search world catalog w r cache
  serve_route w r advisories_route cache = (serve_advisories world catalog w, cache)
  serve_route w r downloads_route cache = (
    serve_static world catalog w (join catalog.root (codes "downloads/index.html"))
        (codes "text/html; charset=utf-8"),
    cache,
  )
  serve_route w r releases_route cache = (
    serve_static world catalog w (join catalog.root (codes "downloads/releases.json"))
        (codes "application/json; charset=utf-8"),
    cache,
  )
  serve_route w r (package_route parts) cache = serve_package w parts cache

  -- The checks of the URL, then the route.
  unfoldable pub serve_url : Writer → Request → Cache → Response × Cache
  serve_url w r cache =
      if ltb 512 (length r.path) || ltb 2048 (length r.raw_query)
      then (refuse_with world catalog w 414 (codes "uri_too_long"), cache)
      else if contains_any r.escaped_path (codes "%\\")
          || (contains r.path (codes "//") || contains r.path (codes ".."))
      then (refuse_with world catalog w 400 (codes "invalid_url"), cache)
      else serve_route w r (read_route r.path) cache

  -- ServeHTTP
  unfoldable pub serve_http : Request → Cache → Response × Cache
  serve_http r cache =
      let w : Writer = record { head_only = false; headers = base_headers } in
      let is_head = str_eq r.method (codes "HEAD") in
      if not (str_eq r.method (codes "GET")) && not is_head
      then (refuse_with world catalog w 405 (codes "method_not_allowed"), cache)
      else serve_url (record w { head_only = is_head }) r cache
