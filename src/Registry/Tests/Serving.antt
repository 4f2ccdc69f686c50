-- ===== src/Registry/Tests/Serving.antt =====
-- Requests of the tests.
use noqeri_registry.Prelude.{◌↔◌, some, none, ℕ, ◌≡◌, ◌≤◌, ◌+◌, refl, List, [], ◌∷◌, ◌++◌, length}
use noqeri_registry.Prelude.Text.{codes, contains}
use noqeri_registry.Prelude.Number.{format_nat, digits}
use noqeri_registry.Registry.Catalog.{find, release_path}
use noqeri_registry.Registry.Archive.{Artifact, cached}
use noqeri_registry.Registry.Handler.{
  World, listing, nonnegative, page, set_header, write, reply_bytes, http_error, reply_encoded,
  find_release, listing, archived,
}
use noqeri_registry.Registry.Handler.Serve.{
  base_headers, package_route, read_route, reply, refuse_with, get, listings, decorated,
  decorate_all,
}
use noqeri_registry.Registry.Handler.Http.{
  disposition, serve_download, serve_artifact, serve_built, serve_version, serve_below,
  serve_package, serve_route, serve_url, serve_http,
}
use noqeri_registry.Registry.Handler.Head.{IsHeadWith, serve_http-head}
use noqeri_registry.Registry.Handler.Digits.{IsCount, nonnegative_iff}
use noqeri_registry.Registry.Handler.Paging.{page_partition}
use noqeri_registry.Registry.Handler.Download.{IsDownload, serve_http-IsDownload}
use noqeri_registry.Registry.Handler.Lasting.{Arrival, serve_all, download_lasting}
use noqeri_registry.Registry.Handler.Placed.{download_placed}
use noqeri_registry.Registry.Tests.Archives.{caching}
use noqeri_registry.Registry.Tests.Versions.{patterns, opened}
use noqeri_registry.Registry.Tests.Fixtures.{
  storage, world, catalog, artifact, empty_tree, new_release, download_request,
}

serving : Unit {0}
unfolding caching patterns world find contains format_nat digits set_header write reply_bytes
    http_error reply_encoded find_release archived listing base_headers read_route reply refuse_with
    get listings decorated decorate_all disposition serve_download serve_artifact serve_built
    serve_version serve_below serve_package serve_route serve_url serve_http
serving = tt

routed :
    read_route download_request.path
    ≡ package_route (
        codes "v1"
        ∷ codes "packages"
        ∷ codes "noqeri"
        ∷ codes "demo"
        ∷ codes "0.10.0"
        ∷ codes "download"
        ∷ [])
unfolding serving
routed = refl

answered : (serve_http world catalog download_request []).0.code ≡ 200
unfolding serving
answered = refl

kept : (serve_http world catalog download_request []).1 ≡ (new_release.path, artifact) ∷ []
unfolding serving
kept = refl

serve_http-IsDownload_example :
    (codes "download" ≡ codes "download")
    × IsDownload world catalog
        (record {
          namespace = codes "noqeri";
          name = codes "demo";
          version = codes "0.10.0";
          tail = codes "download" ∷ [];
        })
        []
        (serve_http world catalog download_request [])
serve_http-IsDownload_example =
    serve_http-IsDownload world catalog download_request [] (codes "v1") (codes "packages")
      (codes "noqeri") (codes "demo") (codes "0.10.0") (codes "download") refl routed answered

serve_http-head_example :
    IsHeadWith
      (serve_http world catalog (record download_request { method = codes "HEAD" }) [])
      (serve_http world catalog (record download_request { method = codes "GET" }) [])
serve_http-head_example = serve_http-head world catalog download_request []

abbrev results : List ℕ
results = 5 ∷ 6 ∷ 7 ∷ 8 ∷ []

page_partition_example :
    (length (page 1 2 results) ≤ 2)
    × (page 1 2 results ++ page (1 + 2) 2 results ≡ page 1 (2 + 2) results)
    × (page 0 (length results) results ≡ results)
page_partition_example = page_partition 1 2 2 results

nonnegative_iff_example :
    (nonnegative (codes "007") 50 100 ≡ some 7) ↔ IsCount (codes "007") 50 100 7
nonnegative_iff_example = nonnegative_iff (codes "007") 50 100 7

counts :
    (nonnegative (codes "007") 50 100 ≡ some 7)
    × (nonnegative [] 50 100 ≡ some 50)
    × (nonnegative (codes "101") 50 100 ≡ none)
    × (nonnegative (codes "-1") 50 100 ≡ none)
unfolding codes nonnegative
counts = (refl, refl, refl, refl)

-- The files are gone.
unfoldable empty_world : World
unfolding world
empty_world = record world { trees = λ path. empty_tree }

abbrev now : Arrival
now = record { world = world; request = download_request }

abbrev later : Arrival
later = record { world = empty_world; request = download_request }

-- A look at the whole index, which asks for the archive of the yanked release too.
abbrev between : List Arrival
between =
    record {
      world = empty_world;
      request = record download_request {
        path = codes "/v1/packages";
        escaped_path = codes "/v1/packages";
      };
    }
    ∷ []

answered_later :
    (serve_http empty_world catalog download_request
      (serve_all catalog between (serve_http world catalog download_request []).1)).0.code
    ≡ 200
unfolding serving serve_all empty_world
answered_later = refl

download_lasting_example :
    (serve_http empty_world catalog download_request
      (serve_all catalog between (serve_http world catalog download_request []).1)).0.body
    ≡ (serve_http world catalog download_request []).0.body
download_lasting_example =
    download_lasting catalog [] now later between (codes "v1") (codes "packages") (codes "noqeri")
      (codes "demo") (codes "0.10.0") (codes "download") refl refl routed refl answered
      answered_later

download_placed_example :
    (a : Artifact) × (cached
        (release_path (codes "noqeri" ++ b'/' ∷ codes "demo") (codes "0.10.0"))
        (serve_http world catalog download_request []).1
      ≡ some a)
    × ((serve_http world catalog download_request []).0.body ≡ a.bytes)
download_placed_example =
    download_placed storage (codes "/srv") catalog world download_request [] (codes "v1")
      (codes "packages") (codes "noqeri") (codes "demo") (codes "0.10.0") (codes "download") opened
      refl routed answered
