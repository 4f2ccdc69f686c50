-- ===== src/Tools/Upgrade/Stored.antt =====
-- What a write leaves of the files.
use noqeri_registry.Prelude.{
  ◌+◌, ◌≡◌, refl, sym, ap, ◌∙◌, Bool, true, false, Bool-cases, inl, inr, [], ◌∷◌, ◌++◌, Option,
  none, some, arith, if◌then◌else◌,
}
use noqeri_registry.Prelude.Text.{Bytes, codes, str_eq, str_eq_iff, has_prefix, Unicode}
use noqeri_registry.Registry.Catalog.{join}
use noqeri_registry.Prelude.Fallible.{ok, ok-injective, >>-eq-ok}
use noqeri_registry.Tools.Upgrade.{
  Files, Work, is_held, write, read, put, sources, is_below, is_there,
}

pub read-put :
    (p q body : Bytes) (files : Files)
    → read q (put p body files) ≡ (if str_eq p q then some body else read q files)
unfolding read put
read-put p q body [] = refl
read-put p q body ((name, old) ∷ files) = elim (Bool-cases (str_eq name p)) [
  | inl this ↦ let e = (str_eq_iff name p).0 this in rw (this, e) (hidden (str_eq p q))
  | inr other ↦ elim (Bool-cases (str_eq name q)) [
    | inl found ↦
        let apart : str_eq p q ≡ false =
          ground (arith, str_eq_iff name q, str_eq_iff name p, str_eq_iff p q) in
        rw (other, found, apart) refl
    | inr missed ↦ rw (other, missed) (read-put p q body files)
  ]
]
  where
    hidden :
        (test : Bool)
        → (if test then some body else read q files)
          ≡ (if test then some body else if test then some old else read q files)
    hidden true = refl
    hidden false = refl

pub sources-put :
    (dir p body : Bytes) (files : Files)
    → is_below dir p ≡ false
    → sources dir (put p body files) ≡ sources dir files
unfolding sources put
sources-put dir p body [] h = rw h refl
sources-put dir p body ((name, old) ∷ files) h = elim (Bool-cases (str_eq name p)) [
  | inl this ↦ let e = (str_eq_iff name p).0 this in rw (this, e, h) refl
  | inr other ↦ rw (other, sources-put dir p body files h) refl
]

pub is_there-put :
    (dir p body : Bytes) (files : Files)
    → is_below dir p ≡ false
    → is_there dir (put p body files) ≡ is_there dir files
unfolding put
is_there-put dir p body [] h = rw h refl
is_there-put dir p body ((name, old) ∷ files) h = elim (Bool-cases (str_eq name p)) [
  | inl this ↦ rw this refl
  | inr other ↦ rw (other, is_there-put dir p body files h) refl
]

-- Names below one directory are compared as the names are.
has_prefix-front : (front a b : Bytes) → has_prefix (front ++ a) (front ++ b) ≡ has_prefix a b
unfolding has_prefix
has_prefix-front [] a b = refl
has_prefix-front (c ∷ front) a b = ground (arith, has_prefix-front front a b)

str_eq-front : (front a b : Bytes) → str_eq (front ++ a) (front ++ b) ≡ str_eq a b
unfolding str_eq
str_eq-front [] a b = refl
str_eq-front (c ∷ front) a b = ground (arith, str_eq-front front a b)

pub has_prefix-join : (dir a b : Bytes) → has_prefix (join dir a) (join dir b) ≡ has_prefix a b
unfolding join has_prefix
has_prefix-join dir a b = elim (Bool-cases (str_eq dir (codes "/"))) [
  | inl top ↦ rw top (has_prefix-front dir a b)
  | inr below ↦ rw below (has_prefix-front dir (b'/' ∷ a) (b'/' ∷ b) ∙ refl)
]

pub str_eq-join : (dir a b : Bytes) → str_eq (join dir a) (join dir b) ≡ str_eq a b
unfolding join str_eq
str_eq-join dir a b = elim (Bool-cases (str_eq dir (codes "/"))) [
  | inl top ↦ rw top (str_eq-front dir a b)
  | inr below ↦ rw below (str_eq-front dir (b'/' ∷ a) (b'/' ∷ b) ∙ refl)
]

pub str_eq_sym : (a b : Bytes) → str_eq a b ≡ false → str_eq b a ≡ false
str_eq_sym a b h = ground (arith, str_eq_iff a b, str_eq_iff b a)

-- What a write leaves.
pub record IsWritten (path body : Bytes) (w w' : Work) : Type 0 where
  pub held : read path w'.files ≡ some body
  pub kept : (q : Bytes) → str_eq path q ≡ false → read q w'.files ≡ read q w.files
  pub same_sources :
      (dir : Bytes) → is_below dir path ≡ false → sources dir w'.files ≡ sources dir w.files
  pub same_place :
      (dir : Bytes) → is_below dir path ≡ false → is_there dir w'.files ≡ is_there dir w.files

pub is_held-eq : (o : Option Bytes) (body : Bytes) → is_held o body ≡ true → o ≡ some body
is_held-eq none body h = cc
is_held-eq (some old) body h = ap some ((str_eq_iff old body).0 h)

module _ (u : Unicode) (quote : Bytes → Bytes) (denied : Bytes → Bool) where
  pub write-IsWritten :
      (path body : Bytes) (w w' : Work)
      → write u quote denied false path body w ≡ ok w'
      → IsWritten path body w w'
  unfolding write
  write-IsWritten path body w w' h = elim (Bool-cases (is_held (read path w.files) body)) [
    | inl old ↦
        let e = ok-injective w w' (rw old at h) in
        record {
          held = rw (sym e) (is_held-eq (read path w.files) body old);
          kept = λ q apart. rw (sym e) refl;
          same_sources = λ dir apart. rw (sym e) refl;
          same_place = λ dir apart. rw (sym e) refl;
        }
    | inr new ↦
        let (_, more) = >>-eq-ok (denied path) _ _ (rw new at h) in
        let e =
          ok-injective (record w { files = put path body w.files; edited = w.edited + 1 }) w'
            more in
        record {
          held =
              rw (sym e)
                (read-put path path body w.files ∙ rw ((str_eq_iff path path).1 refl) refl);
          kept = λ q apart. rw (sym e) (read-put path q body w.files ∙ rw apart refl);
          same_sources = λ dir apart. rw (sym e) (sources-put dir path body w.files apart);
          same_place = λ dir apart. rw (sym e) (is_there-put dir path body w.files apart);
        }
  ]

  pub write_again :
      (check : Bool) (path body : Bytes) (w : Work)
      → read path w.files ≡ some body
      → write u quote denied check path body w ≡ ok w
  unfolding write
  write_again check path body w h = rw (h, (str_eq_iff body body).1 refl) refl
