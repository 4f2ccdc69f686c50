-- ===== src/Registry/Archive/Cached.antt =====
-- The artifact cache over a history of calls, while the files may change.
use mathlib.Core.List.{Memᴰ}
use noqeri_registry.Prelude.{
  both-true, ◌≡◌, refl, sym, ap, ◌∙◌, subst, Bool, true, false, not, ◌||◌, inl, inr, Bool-cases,
  Option-cases, List, [], ◌∷◌, none, some, All, if◌then◌else◌,
}
use noqeri_registry.Prelude.Text.{Bytes, codes, str_eq, str_eq_iff, has_prefix}
use noqeri_registry.Prelude.Fallible.{ok, err, Fallible-cases}
use noqeri_registry.Registry.Relative.{safe_relative}
use noqeri_registry.Registry.Catalog.{Release, join}
use noqeri_registry.Registry.Archive.{
  Artifact, ArchiveError, Building, Packer, Tree, Cache, unsafe_release_path, build_archive, cached,
  keep, get_artifact,
}

-- A call of Get with the files as they are at that time.
pub record Call : Type 0 where
  pub files : Bytes → Tree
  pub root : Bytes
  pub release : Release

-- An entry of the cache: the artifact that one of the calls built from its own files, at the path of
-- its release, which is a safe path of a package.
pub record IsBuilt (packer : Packer) (calls : List Call) (item : Bytes × Artifact) : Type 0 where
  pub call : Call
  pub listed : Memᴰ call calls
  pub asked : call.release.path ≡ item.0
  pub built : build_archive packer (call.files (join call.root item.0)) ≡ ok item.1
  pub safe : safe_relative item.0 ≡ true
  pub packaged : has_prefix item.0 (codes "packages/") ≡ true

-- The latest call first, in front of earlier ones.
abbrev pub reverse_onto : List Call → List Call → List Call
reverse_onto [] done = done
reverse_onto (c ∷ calls) done = reverse_onto calls (c ∷ done)

module _ (packer : Packer) where
  -- The cache after a history of calls, in their order.
  unfoldable pub run : List Call → Cache → Cache
  run [] cache = cache
  run (c ∷ calls) cache = run calls (get_artifact packer c.files c.root c.release cache).1

  get_artifact-hit :
      (files : Bytes → Tree) (root : Bytes) (r : Release) (cache : Cache) (a : Artifact)
      → cached r.path cache ≡ some a
      → get_artifact packer files root r cache ≡ (ok a, cache)
  unfolding get_artifact
  get_artifact-hit files root r cache a h = rw (h, get_artifact) refl

  abbrev pub is_refused : Bytes → Bool
  is_refused path = not (has_prefix path (codes "packages/")) || not (safe_relative path)

  get_artifact-miss :
      (files : Bytes → Tree) (root : Bytes) (r : Release) (cache : Cache)
      → cached r.path cache ≡ none
      → get_artifact packer files root r cache ≡ (
          if is_refused r.path
          then (err unsafe_release_path, cache)
          else keep r.path (build_archive packer (files (join root r.path))) cache)
  unfolding get_artifact
  get_artifact-miss files root r cache h = rw (h, get_artifact) refl

  -- Get leaves the cache, or adds an artifact that it built at a new path.
  pub data Step (files : Bytes → Tree) (root : Bytes) (r : Release) (cache : Cache)
      : Building Artifact × Cache → Type 0 where
    hit :
        (a : Artifact) (out : Building Artifact × Cache)
        → cached r.path cache ≡ some a
        → out ≡ (ok a, cache)
        → Step files root r cache out
    failed :
        (e : ArchiveError) (out : Building Artifact × Cache)
        → out ≡ (err e, cache)
        → Step files root r cache out
    added :
        (a : Artifact) (out : Building Artifact × Cache)
        → cached r.path cache ≡ none
        → build_archive packer (files (join root r.path)) ≡ ok a
        → is_refused r.path ≡ false
        → out ≡ (ok a, (r.path, a) ∷ cache)
        → Step files root r cache out

  pub get_artifact-Step :
      (files : Bytes → Tree) (root : Bytes) (r : Release) (cache : Cache)
      → Step files root r cache (get_artifact packer files root r cache)
  unfolding keep
  get_artifact-Step files root r cache = elim (Option-cases (cached r.path cache)) [
    | inr (a, there) ↦ hit a _ there (get_artifact-hit files root r cache a there)
    | inl missing ↦ elim (Bool-cases (is_refused r.path)) [
      | inl refused ↦
          failed unsafe_release_path _
            (get_artifact-miss files root r cache missing ∙ rw refused refl)
      | inr good ↦ elim (Fallible-cases (build_archive packer (files (join root r.path)))) [
        | inr (e, fails) ↦
            failed e _ (get_artifact-miss files root r cache missing ∙ rw (good, fails) refl)
        | inl (a, builds) ↦
            added a _ missing builds good
              (get_artifact-miss files root r cache missing ∙ rw (good, builds) refl)
      ]
    ]
  ]

  pub cached_self :
      (path : Bytes) (a : Artifact) (cache : Cache) → cached path ((path, a) ∷ cache) ≡ some a
  unfolding cached
  cached_self path a cache = rw ((str_eq_iff path path).1 refl) refl

  cached-other :
      (path other : Bytes) (a b : Artifact) (cache : Cache)
      → cached other cache ≡ none
      → cached path cache ≡ some a
      → cached path ((other, b) ∷ cache) ≡ some a
  unfolding cached
  cached-other path other a b cache new old = elim (Bool-cases (str_eq other path)) [
    | inl e ↦
        let clash : cached other cache ≡ some a =
          subst (λ p. cached p cache ≡ some a) (sym ((str_eq_iff other path).0 e)) old in
        absurd (cc (new, clash))
    | inr e ↦ rw e old
  ]

  -- An entry stays as it is.
  pub Step-keeps :
      (files : Bytes → Tree) (root : Bytes) (r : Release) (cache : Cache)
      (out : Building Artifact × Cache) (path : Bytes) (a : Artifact)
      → Step files root r cache out
      → cached path cache ≡ some a
      → cached path out.1 ≡ some a
  Step-keeps files root r cache out path a (hit b _ there e) h = rw e h
  Step-keeps files root r cache out path a (failed f _ e) h = rw e h
  Step-keeps files root r cache out path a (added b _ new builds good e) h =
      rw e (cached-other path r.path a b cache new h)

  -- An artifact that is returned is in the cache.
  pub Step-cached :
      (files : Bytes → Tree) (root : Bytes) (r : Release) (cache : Cache)
      (out : Building Artifact × Cache) (a : Artifact)
      → Step files root r cache out
      → out.0 ≡ ok a
      → cached r.path out.1 ≡ some a
  Step-cached files root r cache out a (hit b _ there e) k =
      let same : b ≡ a = cc (e, k) in rw e (there ∙ ap some same)
  Step-cached files root r cache out a (failed f _ e) k = absurd (cc (e, k))
  Step-cached files root r cache out a (added b _ new builds good e) k =
      let same : b ≡ a = cc (e, k) in rw e (cached_self r.path b cache ∙ ap some same)

  abbrev AreBuilt : List Call → Cache → Type 0
  AreBuilt calls cache = All (IsBuilt packer calls) cache

  IsBuilt-earlier :
      (c : Call) (calls : List Call) (cache : Cache)
      → AreBuilt calls cache
      → AreBuilt (c ∷ calls) cache
  IsBuilt-earlier c calls [] h = tt
  IsBuilt-earlier c calls (item ∷ cache) h = (
    record {
      call = h.0.call;
      listed = Memᴰ.tail h.0.listed;
      asked = h.0.asked;
      built = h.0.built;
      safe = h.0.safe;
      packaged = h.0.packaged;
    },
    IsBuilt-earlier c calls cache h.1,
  )

  -- One more call, the latest first.
  Step-IsBuilt :
      (c : Call) (calls : List Call) (cache : Cache) (out : Building Artifact × Cache)
      → Step c.files c.root c.release cache out
      → AreBuilt calls cache
      → AreBuilt (c ∷ calls) out.1
  Step-IsBuilt c calls cache out (hit b _ there e) h = rw e (IsBuilt-earlier c calls cache h)
  Step-IsBuilt c calls cache out (failed f _ e) h = rw e (IsBuilt-earlier c calls cache h)
  Step-IsBuilt c calls cache out (added b _ new builds good e) h = rw e (
    record {
      call = c;
      listed = Memᴰ.head refl;
      asked = refl;
      built = builds;
      safe = (both-true _ _ good).1;
      packaged = (both-true _ _ good).0;
    },
    IsBuilt-earlier c calls cache h,
  )

  cached-IsBuilt :
      (calls : List Call) (path : Bytes) (a : Artifact) (cache : Cache)
      → AreBuilt calls cache
      → cached path cache ≡ some a
      → IsBuilt packer calls (path, a)
  unfolding cached
  cached-IsBuilt calls path a [] h e = absurd (cc e)
  cached-IsBuilt calls path a ((p, b) ∷ cache) h e = elim (Bool-cases (str_eq p path)) [
    | inl here ↦
        let e' : some b ≡ some a = rw here at e in
        subst (λ (i : Bytes × Artifact). IsBuilt packer calls i)
          (cc ((str_eq_iff p path).0 here, e')) h.0
    | inr there ↦ cached-IsBuilt calls path a cache h.1 (rw there at e)
  ]

  run-keeps :
      (calls : List Call) (cache : Cache) (path : Bytes) (a : Artifact)
      → cached path cache ≡ some a
      → cached path (run calls cache) ≡ some a
  unfolding run
  run-keeps [] cache path a h = h
  run-keeps (c ∷ calls) cache path a h =
      run-keeps calls (get_artifact packer c.files c.root c.release cache).1 path a (
        Step-keeps c.files c.root c.release cache _ path a
          (get_artifact-Step c.files c.root c.release cache) h)

  -- `done` are the calls before, the latest first.
  run-IsBuilt :
      (done calls : List Call) (cache : Cache)
      → AreBuilt done cache
      → AreBuilt (reverse_onto calls done) (run calls cache)
  unfolding run
  run-IsBuilt done [] cache h = h
  run-IsBuilt done (c ∷ calls) cache h =
      run-IsBuilt (c ∷ done) calls (get_artifact packer c.files c.root c.release cache).1
        (Step-IsBuilt c done cache _ (get_artifact-Step c.files c.root c.release cache) h)

  -- After any history of calls from an empty cache, an artifact that Get returns is what BuildArchive
  -- made, in that call or in an earlier one for the same path, of the directory at that path under
  -- the root, which is a safe path below packages/; and once it is returned, each later Get of that
  -- path returns it again, whatever calls come between and whatever becomes of the files.
  pub get_artifact-IsBuilt :
      (before between : List Call) (now later : Call) (a : Artifact)
      → (get_artifact packer now.files now.root now.release (run before [])).0 ≡ ok a
      → later.release.path ≡ now.release.path
      → IsBuilt packer (now ∷ reverse_onto before []) (now.release.path, a)
        × ((get_artifact packer later.files later.root later.release (
              run between (get_artifact packer now.files now.root now.release (run before [])).1)).0
            ≡ ok a)
  get_artifact-IsBuilt before between now later a h same_path =
      let cache = run before [] in
      let out = get_artifact packer now.files now.root now.release cache in
      let step = get_artifact-Step now.files now.root now.release cache in
      let there = Step-cached now.files now.root now.release cache out a step h in
      let built =
        cached-IsBuilt (now ∷ reverse_onto before []) now.release.path a out.1
          (Step-IsBuilt now (reverse_onto before []) cache out step (run-IsBuilt [] before [] tt))
          there in
      let kept = run-keeps between out.1 now.release.path a there in
      (
        built,
        ap (λ (r : Building Artifact × Cache). r.0)
            (get_artifact-hit later.files later.root later.release (run between out.1) a
              (ap (λ (p : Bytes). cached p (run between out.1)) same_path ∙ kept)),
      )
