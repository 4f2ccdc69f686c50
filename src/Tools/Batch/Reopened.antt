-- ===== src/Tools/Batch/Reopened.antt =====
-- What Open says of a repository after a batch of releases.
use noqeri_registry.Prelude.{
  ◌≡◌, ◌≤◌, ◌*◌, ◌^◌, ap, ◌∙◌, true, List, [], ◌∷◌, ◌++◌, some, arith, All, length, ltb,
}
use noqeri_registry.Prelude.Text.{Bytes, Unicode, codes}
use noqeri_registry.Prelude.Fallible.{ok, >>-eq-ok, >>=-ok, >>-ok, >>=-next}
use noqeri_registry.Registry.Catalog.{
  Index, Catalog, Storage, absolute_path_failed, index_unreadable, index_too_large, index_invalid,
  or_error, join, catalog_of, open_catalog,
}
use noqeri_registry.Tools.Upgrade.{Files, read}
use noqeri_registry.Tools.Batch.Texts.{Spec}
use noqeri_registry.Tools.Batch.{Batch, Disk, release_batch}
use noqeri_registry.Tools.Batch.Released.{is_released, release_batch-Opens}

accepted_when :
    (storage : Storage) (root abs input : Bytes) (index : Index) (c : Catalog)
    → storage.absolute root ≡ some abs
    → storage.read_file (join abs (codes "registry/index.json")) ≡ some input
    → length input ≤ 4 * 2 ^ 20
    → storage.unmarshal_index input ≡ some index
    → catalog_of abs index ≡ ok c
    → open_catalog storage root ≡ ok c
unfolding open_catalog
accepted_when storage root abs input index c h0 h1 short h2 h3 =
    >>=-ok (or_error (storage.absolute root) absolute_path_failed) _ abs
      (ap (λ o. or_error o absolute_path_failed) h0)
      (>>=-ok
        (or_error (storage.read_file (join abs (codes "registry/index.json"))) index_unreadable) _
        input (ap (λ o. or_error o index_unreadable) h1)
        (>>-ok (ltb (4 * 2 ^ 20) (length input)) index_too_large _ (ground arith) (
          >>=-ok (or_error (storage.unmarshal_index input) index_invalid) _ index
            (ap (λ o. or_error o index_invalid) h2) h3)))

accepted_index :
    (storage : Storage) (root abs input : Bytes) (index : Index) (c : Catalog)
    → storage.absolute root ≡ some abs
    → storage.read_file (join abs (codes "registry/index.json")) ≡ some input
    → storage.unmarshal_index input ≡ some index
    → open_catalog storage root ≡ ok c
    → catalog_of abs index ≡ ok c
unfolding open_catalog
accepted_index storage root abs input index c h0 h1 h2 h =
    let k0 =
      >>=-next (or_error (storage.absolute root) absolute_path_failed) _ abs
        (ap (λ o. or_error o absolute_path_failed) h0) h in
    let k1 =
      >>=-next
        (or_error (storage.read_file (join abs (codes "registry/index.json"))) index_unreadable) _
        input (ap (λ o. or_error o index_unreadable) h1) k0 in
    let (_, k2) = >>-eq-ok (ltb (4 * 2 ^ 20) (length input)) index_too_large _ k1 in
    >>=-next (or_error (storage.unmarshal_index input) index_invalid) _ index
      (ap (λ o. or_error o index_invalid) h2) k2

-- A batch that ends well gives each package that it has a specification for a version 0.1.1 in the
-- index. If Open accepts the repository before, and reads there the index that the batch is given,
-- then Open accepts the repository afterwards, provided that the new text of the index has at most
-- 4 MiB and that the JSON reader reads back what the writer made of the index.
pub release_batch-IsReleased :
    (u : Unicode) (quote : Bytes → Bytes) (disk : Disk) (license : Bytes) (batch : Batch)
    (encode : Index → Bytes) (specs : List (Bytes × Spec)) (index index' : Index)
    (files files' : Files) (storage storage' : Storage) (root abs input : Bytes) (c : Catalog)
    → storage.absolute root ≡ some abs
    → storage.read_file (join abs (codes "registry/index.json")) ≡ some input
    → storage.unmarshal_index input ≡ some index
    → open_catalog storage root ≡ ok c
    → release_batch u quote disk license batch encode specs index files ≡ ok (files', index')
    → storage'.absolute root ≡ some abs
    → storage'.read_file (join abs (codes "registry/index.json"))
      ≡ read (codes "registry/index.json") files'
    → storage'.unmarshal_index (encode index' ++ b'\n' ∷ []) ≡ some index'
    → length (encode index' ++ b'\n' ∷ []) ≤ 4 * 2 ^ 20
    → All (λ x. is_released x.0 index'.packages ≡ true) specs
      × ((c' : Catalog) × (open_catalog storage' root ≡ ok c'))
release_batch-IsReleased u quote disk license batch encode specs index index' files files' storage
      storage' root abs input c h0 h1 h2 h run h0' h1' back short =
    let before = accepted_index storage root abs input index c h0 h1 h2 h in
    let (released, (c', accepted), held) =
      release_batch-Opens u quote disk license batch encode specs index index' files files' abs c
        before run in
    (
      released,
      (
        c',
        accepted_when storage' root abs (encode index' ++ b'\n' ∷ []) index' c' h0' (h1' ∙ held)
            short back accepted,
      ),
    )
