-- ===== src/Registry/Relative/Confined.antt =====
-- Where a path leads that SafeRelative accepts.
use noqeri_registry.Prelude.{
  or-false, ◌+◌, ◌≤◌, ◌≡◌, ◌≢◌, ◌↔◌, refl, ap, ◌∙◌, Bool, true, false, not, List, [], ◌∷◌, arith,
  length, ltb, ltb-false, all, if◌then◌else◌,
}
use noqeri_registry.Prelude.Text.{Bytes, str_eq, str_eq_iff, split, contains_any}
use noqeri_registry.Prelude.Paths.{resolve}
use noqeri_registry.Registry.Relative.{is_dots, is_absolute, safe_relative}

-- Each part is entered.
unfoldable pub descend : List Bytes → List Bytes → List Bytes
descend dir [] = dir
descend dir (s ∷ parts) = descend (s ∷ dir) parts

-- A path of 1 to 100 bytes with no backslash and no NUL that is relative, and from every directory
-- leads down along its own parts.
pub record IsBelow (name : Bytes) : Type 0 where
  pub some_byte : name ≢ []
  pub short : length name ≤ 100
  pub plain : contains_any name (b'\\' ∷ 0 ∷ []) ≡ false
  pub relative : is_absolute name ≡ false
  pub below : (dir : List Bytes) → resolve dir (split name b'/') ≡ descend dir (split name b'/')

all-safe-descends :
    (dir parts : List Bytes)
    → all (λ s. not (is_dots s)) parts ≡ true
    → resolve dir parts ≡ descend dir parts
unfolding resolve descend is_dots
all-safe-descends dir [] h = refl
all-safe-descends [] (s ∷ parts) h = ground (arith, all-safe-descends (s ∷ []) parts)
all-safe-descends (d ∷ dir) (s ∷ parts) h = ground (arith, all-safe-descends (s ∷ d ∷ dir) parts)

length-descend : (dir parts : List Bytes) → length (descend dir parts) ≡ length dir + length parts
unfolding descend
length-descend dir [] = omega arith
length-descend dir (s ∷ parts) = omega (arith, length-descend (s ∷ dir) parts)

length-resolve-le :
    (dir parts : List Bytes) → length (resolve dir parts) ≤ length dir + length parts
unfolding resolve
length-resolve-le dir [] = omega arith
length-resolve-le [] (s ∷ parts) =
    ground (arith, length-resolve-le [] parts, length-resolve-le (s ∷ []) parts)
length-resolve-le (d ∷ dir) (s ∷ parts) = ground (
  arith,
  length-resolve-le (d ∷ dir) parts,
  length-resolve-le dir parts,
  length-resolve-le (s ∷ d ∷ dir) parts,
)

-- A path that enters as many names as it has parts has no part that does not enter one.
long-all-safe :
    (dir parts : List Bytes)
    → length (resolve dir parts) ≡ length dir + length parts
    → all (λ s. not (is_dots s)) parts ≡ true
unfolding resolve is_dots
long-all-safe dir [] h = refl
long-all-safe [] (s ∷ parts) h =
    ground (arith, length-resolve-le [] parts, long-all-safe (s ∷ []) parts)
long-all-safe (d ∷ dir) (s ∷ parts) h = ground (
  arith,
  length-resolve-le (d ∷ dir) parts,
  length-resolve-le dir parts,
  long-all-safe (s ∷ d ∷ dir) parts,
)

abbrev safe_parts : Bytes → Bool
safe_parts name = all (λ s. not (is_dots s)) (split name b'/')

if-true : (a b : Bool) → (if a then false else b) ≡ true → (a ≡ false) × (b ≡ true)
if-true a b h = ground arith

-- SafeRelative accepts exactly the relative paths of 1 to 100 bytes with no backslash and no NUL
-- that lead down from every directory, each part into a name.
pub safe_relative_iff : (name : Bytes) → (safe_relative name ≡ true) ↔ IsBelow name
unfolding safe_relative
safe_relative_iff name = (sound, complete)
  where
    sound : safe_relative name ≡ true → IsBelow name
    sound h =
        let (fine, parts) = if-true _ (safe_parts name) h in
        let (some_byte, fine1) = or-false (str_eq name []) _ fine in
        let (short, fine2) = or-false (ltb 100 (length name)) _ fine1 in
        let (plain, relative) = or-false _ (is_absolute name) fine2 in
        record {
          some_byte = λ e. cc (some_byte, (str_eq_iff name []).1 e);
          short = ltb-false 100 (length name) short;
          plain = plain;
          relative = relative;
          below = λ dir. all-safe-descends dir (split name b'/') parts;
        }

    complete : IsBelow name → safe_relative name ≡ true
    complete b =
        let parts : safe_parts name ≡ true =
          long-all-safe [] (split name b'/') (
            ap (λ (d : List Bytes). length d) (b.below []) ∙ length-descend [] (split name b'/')) in
        let some_byte : str_eq name [] ≡ false = ground (arith, str_eq_iff name [], b.some_byte) in
        let short : ltb 100 (length name) ≡ false = ground (arith, b.short) in
        rw (some_byte, short, b.plain, b.relative) parts
