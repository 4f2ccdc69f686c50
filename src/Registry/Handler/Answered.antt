-- ===== src/Registry/Handler/Answered.antt =====
-- The steps behind an answer with 200 to the six parts of a path.
use noqeri_registry.Prelude.{
  not-true, Bool, true, false, not, ◌&&◌, ◌||◌, ℕ, [], ◌∷◌, ◌++◌, ◌≡◌, ◌≢◌, refl, ap, ◌∙◌, sym,
  subst, Option, none, some, length, if◌then◌else◌, arith, Option-cases, Bool-cases, inl, inr,
}
use noqeri_registry.Prelude.Text.{Bytes, codes, str_eq, str_eq_iff}
use noqeri_registry.Prelude.Number.{format_nat}
use noqeri_registry.Prelude.Fallible.{ok, err}
use noqeri_registry.Registry.Pattern.{is_identity, is_version}
use noqeri_registry.Registry.Catalog.{Release, Package, Catalog, find}
use noqeri_registry.Registry.Archive.{Artifact, Building, Cache, hex_encode}
use noqeri_registry.Registry.Handler.{
  Headers, Writer, Response, World, set_header, write, reply_bytes, http_error, reply_encoded,
  find_release, with_header, problem,
}
use noqeri_registry.Registry.Handler.Serve.{reply, refuse_with, get}
use noqeri_registry.Registry.Handler.Http.{
  Target, disposition, serve_download, serve_artifact, serve_built, serve_version, serve_below,
  serve_package,
}

module _ (world : World) (catalog : Catalog) where
  reply_encoded-code :
      (w : Writer) (code : ℕ) (out : Option Bytes)
      → code ≢ 200
      → (reply_encoded w code out).code ≢ 200
  unfolding reply_encoded http_error write
  reply_encoded-code w code none h = omega arith
  reply_encoded-code w code (some out) h = h

  -- A refusal is not answered with 200.
  pub refusal-code :
      (w : Writer) (code : ℕ) (text : Bytes)
      → code ≢ 200
      → (refuse_with world catalog w code text).code ≢ 200
  unfolding refuse_with reply
  refusal-code w code text h = reply_encoded-code _ code (world.marshal (problem text)) h

  -- The second branch of a test whose first branch is a refusal.
  pub passes :
      (b : Bool) (x y : Response × Cache)
      → x.0.code ≢ 200
      → (if b then x else y).0.code ≡ 200
      → (b ≡ false) × ((if b then x else y) ≡ y)
  passes true x y h e = absurd (h e)
  passes false x y h e = (refl, refl)

  passes_alone :
      (b : Bool) (x y : Response)
      → x.code ≢ 200
      → (if b then x else y).code ≡ 200
      → (b ≡ false) × ((if b then x else y) ≡ y)
  passes_alone true x y h e = absurd (h e)
  passes_alone false x y h e = (refl, refl)

  module _ (headers : Headers) (namespace name version last : Bytes) where
    abbrev pub target : Target
    target = record { namespace = namespace; name = name; version = version; tail = last ∷ [] }

    abbrev pub writer : Writer
    writer = record { head_only = false; headers = headers }

    abbrev pub answer : Artifact → Response
    answer a =
        reply_bytes
          (with_header (with_header writer (codes "X-Archive-SHA256") a.digest)
            (codes "Content-Disposition") (disposition target))
          (codes "application/vnd.noqeri.package+gzip") a.bytes

    pub sent_body : (a : Artifact) → (answer a).body ≡ a.bytes
    unfolding reply_bytes write
    sent_body a = refl

    pub sent_headers :
        (a : Artifact)
        → (answer a).headers
          ≡ set_header (codes "Content-Length") (format_nat (length a.bytes)) (
              set_header (codes "Content-Type") (codes "application/vnd.noqeri.package+gzip") (
                set_header
                  (codes "Content-Disposition")
                  (disposition target)
                  (set_header (codes "X-Archive-SHA256") a.digest headers)))
    unfolding reply_bytes write
    sent_headers a = refl

    -- What is known of an artifact that is sent.
    abbrev pub Sent : Release → Artifact → Response → Type 0
    Sent r a x =
        (last ≡ codes "download")
        × (r.yanked ≡ false)
        × (hex_encode (world.packer.sha256 a.bytes) ≡ a.digest)
        × (x ≡ answer a)

    serve_artifact-Sent :
        (r : Release) (a : Artifact)
        → (serve_artifact world catalog writer target r a).code ≡ 200
        → Sent r a (serve_artifact world catalog writer target r a)
    unfolding serve_artifact serve_download
    serve_artifact-Sent r a h =
        let (named, e1) =
          passes_alone (not (str_eq last (codes "download")))
            (refuse_with world catalog writer 404 (codes "not_found")) _
            (refusal-code writer 404 (codes "not_found") (omega arith)) h in
        let (fresh, e2) =
          passes_alone r.yanked (refuse_with world catalog writer 404 (codes "release_yanked")) _
            (refusal-code writer 404 (codes "release_yanked") (omega arith))
            (ap (λ (x : Response). x.code) (sym e1) ∙ h) in
        let (intact, e3) =
          passes_alone (not (str_eq (hex_encode (world.packer.sha256 a.bytes)) a.digest))
            (refuse_with world catalog writer 503 (codes "artifact_integrity_mismatch")) _
            (refusal-code writer 503 (codes "artifact_integrity_mismatch") (omega arith))
            (ap (λ (x : Response). x.code) (sym (e1 ∙ e2)) ∙ h) in
        (
          (str_eq_iff last (codes "download")).0 (not-true _ named),
          fresh,
          (str_eq_iff _ a.digest).0 (not-true _ intact),
          e1 ∙ e2 ∙ e3,
        )

    -- What is known of an answer with 200 below a package.
    pub record Served (p : Package) (cache : Cache) (x : Response × Cache) : Type 0 where
      pub r : Release
      pub a : Artifact
      pub released : find_release version p.versions ≡ some r
      pub built : (get world catalog r cache).0 ≡ ok a
      pub stored : x.1 ≡ (get world catalog r cache).1
      pub sent : Sent r a x.0

    serve_built-Served :
        (p : Package) (r : Release) (cache : Cache) (b : Building Artifact × Cache)
        → find_release version p.versions ≡ some r
        → get world catalog r cache ≡ b
        → (serve_built world catalog writer target r b).0.code ≡ 200
        → Served p cache (serve_built world catalog writer target r b)
    unfolding serve_built
    serve_built-Served p r cache (err e, cache') released built h =
        absurd (refusal-code writer 503 (codes "artifact_unavailable") (omega arith) h)
    serve_built-Served p r cache (ok a, cache') released built h = record {
      r = r;
      a = a;
      released = released;
      built = ap (λ (b : Building Artifact × Cache). b.0) built;
      stored = ap (λ (b : Building Artifact × Cache). b.1) (sym built);
      sent = serve_artifact-Sent r a h;
    }

    serve_version-Served :
        (p : Package) (cache : Cache)
        → (serve_version world catalog writer p target cache).0.code ≡ 200
        → Served p cache (serve_version world catalog writer p target cache)
    unfolding serve_version
    serve_version-Served p cache h = elim (Bool-cases (is_version version)) [
      | inr bad ↦
          let h' : (refuse_with world catalog writer 400 (codes "invalid_version")).code ≡ 200 =
            rw bad at h in
          absurd (refusal-code writer 400 (codes "invalid_version") (omega arith) h')
      | inl good ↦ elim (Option-cases (find_release version p.versions)) [
        | inl missing ↦
            let h' : (refuse_with world catalog writer 404 (codes "release_not_found")).code ≡ 200 =
              rw (good, missing, serve_version) at h in
            absurd (refusal-code writer 404 (codes "release_not_found") (omega arith) h')
        | inr (r, released) ↦
            let h' : (serve_built world catalog writer target r (get world catalog r cache)).0.code
                ≡ 200 =
              rw (good, released, serve_version) at h in
            rw (good, released, serve_version)
              (serve_built-Served p r cache (get world catalog r cache) released refl h')
      ]
    ]

    and-false : (b : Bool) → (b && false) ≡ false
    and-false true = refl
    and-false false = refl

    serve_below-Served :
        (p : Package) (cache : Cache)
        → (serve_below world catalog writer p namespace name (version ∷ last ∷ []) cache).0.code
          ≡ 200
        → Served p cache
            (serve_below world catalog writer p namespace name (version ∷ last ∷ []) cache)
    unfolding serve_below
    serve_below-Served p cache h =
        let no_list = and-false (str_eq version (codes "versions")) in
        rw no_list (serve_version-Served p cache (rw no_list at h))

    -- What is known of an answer with 200 to the six parts of a path.
    pub record Answered (cache : Cache) (x : Response × Cache) : Type 0 where
      pub p : Package
      pub listed : find (namespace ++ b'/' ∷ name) catalog.package_by_id ≡ some p
      pub served : Served p cache x

    abbrev package_answer : Cache → Response × Cache
    package_answer cache = elim (find (namespace ++ b'/' ∷ name) catalog.package_by_id) [
      | none ↦ (refuse_with world catalog writer 404 (codes "package_not_found"), cache)
      | some p ↦ serve_below world catalog writer p namespace name (version ∷ last ∷ []) cache
    ]

    package_answer-Answered :
        (cache : Cache)
        → (package_answer cache).0.code ≡ 200
        → Answered cache (package_answer cache)
    package_answer-Answered cache h =
        elim (Option-cases (find (namespace ++ b'/' ∷ name) catalog.package_by_id)) [
          | inl missing ↦
              let h' : (refuse_with world catalog writer 404 (codes "package_not_found")).code
                  ≡ 200 =
                rw (missing, package_answer) at h in
              absurd (refusal-code writer 404 (codes "package_not_found") (omega arith) h')
          | inr (p, listed) ↦
              let h' : (serve_below world catalog writer p namespace name (version ∷ last ∷ [])
                    cache).0.code
                  ≡ 200 =
                rw (listed, package_answer) at h in
              record {
                p = p;
                listed = listed;
                served = rw (listed, package_answer) (serve_below-Served p cache h');
              }
        ]

    pub serve_package-Answered :
        (first second : Bytes) (cache : Cache)
        → (serve_package world catalog writer
            (first ∷ second ∷ namespace ∷ name ∷ version ∷ last ∷ [])
            cache).0.code
          ≡ 200
        → Answered cache (
            serve_package world catalog writer
              (first ∷ second ∷ namespace ∷ name ∷ version ∷ last ∷ [])
              cache)
    unfolding serve_package
    serve_package-Answered first second cache h =
        let (routed, e1) =
          passes (not (str_eq first (codes "v1")) || not (str_eq second (codes "packages")))
            (refuse_with world catalog writer 404 (codes "not_found"), cache) _
            (refusal-code writer 404 (codes "not_found") (omega arith)) h in
        let (identified, e2) =
          passes (not (is_identity namespace) || not (is_identity name))
            (refuse_with world catalog writer 400 (codes "invalid_package_identity"), cache) _
            (refusal-code writer 400 (codes "invalid_package_identity") (omega arith))
            (ap (λ (x : Response × Cache). x.0.code) (sym e1) ∙ h) in
        let found : Answered cache (package_answer cache) =
          package_answer-Answered cache
            (ap (λ (x : Response × Cache). x.0.code) (sym (e1 ∙ e2)) ∙ h) in
        subst (Answered cache) (sym (e1 ∙ e2)) found
