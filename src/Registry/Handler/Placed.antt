-- ===== src/Registry/Handler/Placed.antt =====
-- Where the archive of a download comes from, when the catalog was opened.
use noqeri_registry.Prelude.{
  ◌≡◌, sym, ap, ◌∙◌, subst, Bool-cases, inl, inr, List, [], ◌∷◌, ◌++◌, some, All,
}
use noqeri_registry.Prelude.Text.{Bytes, codes, str_eq, str_eq_iff}
use noqeri_registry.Prelude.Fallible.{ok}
use noqeri_registry.Prelude.Strict.{All-mem}
use noqeri_registry.Registry.Catalog.{
  Release, Package, Catalog, Storage, package_id, release_path, open_catalog,
}
use noqeri_registry.Registry.Catalog.Versions.{IsRelease}
use noqeri_registry.Registry.Catalog.Filed.{IsFiled}
use noqeri_registry.Registry.Catalog.Opened.{open_catalog-IsCatalog}
use noqeri_registry.Registry.Archive.{Artifact, Cache, cached}
use noqeri_registry.Registry.Handler.{Request, World, find_release}
use noqeri_registry.Registry.Handler.Serve.{package_route, read_route}
use noqeri_registry.Registry.Handler.Http.{serve_http}
use noqeri_registry.Registry.Handler.Download.{serve_http-IsDownload}
use noqeri_registry.Registry.Handler.Lasting.{get-cached}

-- The releases of a version stand at the path of the package and the version.
abbrev ArePlaced : Bytes → Package → Type 0
ArePlaced version p =
    (r : Release)
    → find_release version p.versions ≡ some r
    → r.path ≡ release_path (package_id p) version

ArePlaced-prop : (version : Bytes) (p : Package) → IsProp (ArePlaced version p)
ArePlaced-prop version p = hlevel

find_release-path :
    (id version : Bytes) (rs : List Release) (r : Release)
    → All (IsRelease id) rs
    → find_release version rs ≡ some r
    → r.path ≡ release_path id version
unfolding find_release
find_release-path id version [] r h e = absurd (cc e)
find_release-path id version (q ∷ rs) r h e = elim (Bool-cases (str_eq q.version version)) [
  | inl here ↦
      let same_release : some q ≡ some r = rw here at e in
      let same_version : q.version ≡ version = (str_eq_iff q.version version).0 here in
      cc (h.0.path_good, same_release, same_version)
  | inr there ↦ find_release-path id version rs r h.1 (rw there at e)
]

IsFiled-ArePlaced :
    (c : Catalog) (version : Bytes) (ps : List Package)
    → All (IsFiled c.package_by_id) ps
    → All (ArePlaced version) ps
IsFiled-ArePlaced c version [] h = tt
IsFiled-ArePlaced c version (p ∷ ps) h = (
  λ r e. find_release-path (package_id p) version p.versions r h.0.releases e,
  IsFiled-ArePlaced c version ps h.1,
)

-- A download from a server whose catalog was opened, that GET is answered with 200 for, has the
-- bytes of the artifact that the cache holds afterwards under packages/ and the namespace, the
-- name and the version of the URL.
pub download_placed :
    (storage : Storage) (root : Bytes) (catalog : Catalog) (world : World) (r : Request)
    (cache : Cache) (first second namespace name version last : Bytes)
    → open_catalog storage root ≡ ok catalog
    → r.method ≡ codes "GET"
    → read_route r.path ≡ package_route (first ∷ second ∷ namespace ∷ name ∷ version ∷ last ∷ [])
    → (serve_http world catalog r cache).0.code ≡ 200
    → (a : Artifact) × (cached
          (release_path (namespace ++ b'/' ∷ name) version)
          (serve_http world catalog r cache).1
        ≡ some a)
      × ((serve_http world catalog r cache).0.body ≡ a.bytes)
download_placed storage root catalog world r cache first second namespace name version last opened
      get_method route good =
    let (index, reading, c) = open_catalog-IsCatalog storage root catalog opened in
    let d =
      (serve_http-IsDownload world catalog r cache first second namespace name version last
        get_method route good).1 in
    let (member, same_id) = c.covered (namespace ++ b'/' ∷ name) d.p d.listed in
    let placed : d.r.path ≡ release_path (namespace ++ b'/' ∷ name) version =
      All-mem (ArePlaced version) (ArePlaced-prop version) d.p catalog.index.packages
        (IsFiled-ArePlaced catalog version catalog.index.packages c.filed) member d.r d.released
      ∙ ap (λ (id : Bytes). release_path id version) (sym same_id) in
    let held : cached d.r.path (serve_http world catalog r cache).1 ≡ some d.a =
      subst (λ (s : Cache). cached d.r.path s ≡ some d.a) (sym d.stored)
        (get-cached world catalog d.r cache d.a d.built) in
    (
      d.a,
      subst (λ (path : Bytes). cached path (serve_http world catalog r cache).1 ≡ some d.a) placed
          held,
      d.body,
    )
