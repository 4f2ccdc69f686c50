-- ===== src/Registry/Handler/Download.antt =====
-- What a download is answered with.
use noqeri_registry.Prelude.{
  true, false, ◌||◌, [], ◌∷◌, ◌++◌, ◌≡◌, refl, ap, ◌∙◌, sym, some, length, ltb, arith,
}
use noqeri_registry.Prelude.Text.{Bytes, codes, str_eq, contains, contains_any}
use noqeri_registry.Prelude.Number.{format_nat}
use noqeri_registry.Prelude.Fallible.{ok}
use noqeri_registry.Registry.Catalog.{Release, Package, Catalog, find}
use noqeri_registry.Registry.Archive.{Artifact, Cache, hex_encode}
use noqeri_registry.Registry.Handler.{Writer, Response, Request, World, set_header, find_release}
use noqeri_registry.Registry.Handler.Serve.{
  base_headers, refuse_with, get, read_route, package_route, Route,
}
use noqeri_registry.Registry.Handler.Http.{Target, disposition, serve_route, serve_url, serve_http}
use noqeri_registry.Registry.Handler.Answered.{
  refusal-code, passes, sent_body, sent_headers, serve_package-Answered,
}

-- A download that is answered with 200: the release is in the catalog and not yanked, and the
-- bytes of its archive, whose SHA-256 is the digest of the artifact, are the body.
pub record IsDownload (world : World) (catalog : Catalog) (t : Target) (cache : Cache)
    (answer : Response × Cache) : Type 0 where
  pub p : Package
  pub r : Release
  pub a : Artifact
  pub listed : find (t.namespace ++ b'/' ∷ t.name) catalog.package_by_id ≡ some p
  pub released : find_release t.version p.versions ≡ some r
  pub not_yanked : r.yanked ≡ false
  pub built : (get world catalog r cache).0 ≡ ok a
  pub intact : hex_encode (world.packer.sha256 a.bytes) ≡ a.digest
  pub stored : answer.1 ≡ (get world catalog r cache).1
  pub body : answer.0.body ≡ a.bytes
  pub headers :
      answer.0.headers
      ≡ set_header (codes "Content-Length") (format_nat (length a.bytes)) (
          set_header (codes "Content-Type") (codes "application/vnd.noqeri.package+gzip") (
            set_header
              (codes "Content-Disposition")
              (disposition t)
              (set_header (codes "X-Archive-SHA256") a.digest base_headers)))

serve_http-get :
    (world : World) (catalog : Catalog) (r : Request) (cache : Cache)
    → r.method ≡ codes "GET"
    → serve_http world catalog r cache
      ≡ serve_url world catalog (record { head_only = false; headers = base_headers }) r cache
unfolding serve_http codes str_eq
serve_http-get world catalog r cache h =
    let is_get : str_eq r.method (codes "GET") ≡ true =
      ap (λ (m : Bytes). str_eq m (codes "GET")) h in
    let no_head : str_eq r.method (codes "HEAD") ≡ false =
      ap (λ (m : Bytes). str_eq m (codes "HEAD")) h in
    rw (is_get, no_head) refl

serve_url-passes :
    (world : World) (catalog : Catalog) (w : Writer) (r : Request) (cache : Cache)
    → (serve_url world catalog w r cache).0.code ≡ 200
    → serve_url world catalog w r cache ≡ serve_route world catalog w r (read_route r.path) cache
unfolding serve_url
serve_url-passes world catalog w r cache h =
    let (_, e1) =
      passes world catalog (ltb 512 (length r.path) || ltb 2048 (length r.raw_query))
        (refuse_with world catalog w 414 (codes "uri_too_long"), cache) _
        (refusal-code world catalog w 414 (codes "uri_too_long") (omega arith)) h in
    let (_, e2) =
      passes world catalog
        (contains_any r.escaped_path (codes "%\\")
          || (contains r.path (codes "//") || contains r.path (codes "..")))
        (refuse_with world catalog w 400 (codes "invalid_url"), cache) _
        (refusal-code world catalog w 400 (codes "invalid_url") (omega arith))
        (ap (λ (x : Response × Cache). x.0.code) (sym e1) ∙ h) in
    e1 ∙ e2

-- A download that GET is answered with 200 for is of a release in the catalog that is not yanked:
-- the body is the archive that the cache gives for it, and from then on holds, and the header X-Archive-SHA256 is its
-- digest, in hexadecimal the SHA-256 of the body.
pub serve_http-IsDownload :
    (world : World) (catalog : Catalog) (r : Request) (cache : Cache)
    (first second namespace name version last : Bytes)
    → r.method ≡ codes "GET"
    → read_route r.path ≡ package_route (first ∷ second ∷ namespace ∷ name ∷ version ∷ last ∷ [])
    → (serve_http world catalog r cache).0.code ≡ 200
    → (last ≡ codes "download")
      × IsDownload world catalog
          (record { namespace = namespace; name = name; version = version; tail = last ∷ [] })
          cache
          (serve_http world catalog r cache)
unfolding serve_route
serve_http-IsDownload world catalog r cache first second namespace name version last get_method
      route h =
    let w : Writer = record { head_only = false; headers = base_headers } in
    let to_url = serve_http-get world catalog r cache get_method in
    let code_of = λ (x : Response × Cache). x.0.code in
    let to_route = serve_url-passes world catalog w r cache (ap code_of (sym to_url) ∙ h) in
    let to_package = ap (λ (p : Route). serve_route world catalog w r p cache) route in
    let all_steps = to_url ∙ to_route ∙ to_package in
    let done =
      serve_package-Answered world catalog base_headers namespace name version last first second
        cache (ap code_of (sym all_steps) ∙ h) in
    let (named, fresh, intact, sent) = done.served.sent in
    let answered = ap (λ (x : Response × Cache). x.0) all_steps ∙ sent in
    (
      named,
      record {
        p = done.p;
        r = done.served.r;
        a = done.served.a;
        listed = done.listed;
        released = done.served.released;
        not_yanked = fresh;
        built = done.served.built;
        stored = ap (λ (x : Response × Cache). x.1) all_steps ∙ done.served.stored;
        intact = intact;
        body =
            ap (λ (x : Response). x.body) answered
            ∙ sent_body world catalog base_headers namespace name version last done.served.a;
        headers =
            ap (λ (x : Response). x.headers) answered
            ∙ sent_headers world catalog base_headers namespace name version last done.served.a;
      },
    )
