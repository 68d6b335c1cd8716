-- ===== src/Storage.antt =====
-- The storage of input files: backend/app/services/input_storage.py. Strings are lists of code points.
-- The file system, the S3 client, the CSV reader and `fnmatch` are arguments or not modelled.
pub mod Previews
pub mod Pages
pub mod Paths
pub mod Below
pub mod Globs
use sf_bulk_loader.Prelude.{
  ℕ, zero, suc, ◌+◌, ◌-◌, ◌*◌, ◌/◌, ◌%◌, ◌≤◌, ◌<◌, min, max, ◌≡◌, ◌≢◌, ◌⊎◌, ◌↔◌, refl, sym, ap, ◌∙◌,
  inl, inr, Bool, true, false, not, ◌&&◌, ◌||◌, Option, none, some, List, [], ◌∷◌, ◌++◌, map, arith,
  ltb, leb, ◌==◌, if◌then◌else◌, Bool-cases, Option-cases, is_some, holds, length, All, select,
  count_by, any, and-true, ==_iff,
}

-- A string: its code points.
abbrev pub Str : Type 0
Str = List ℕ

unfoldable pub same_text : Str → Str → Bool
same_text [] [] = true
same_text (x ∷ xs) (y ∷ ys) = x == y && same_text xs ys
same_text _ _ = false

-- `x in xs`
unfoldable pub is_among : Str → List Str → Bool
unfolding same_text
is_among x xs = any (same_text x) xs

pub same_text_iff : (xs ys : Str) → (same_text xs ys ≡ true) ↔ (xs ≡ ys)
unfolding same_text
same_text_iff xs ys = (to xs ys, λ e. rw e (refl_of ys))
  where
    to : (xs ys : Str) → same_text xs ys ≡ true → xs ≡ ys
    to [] [] h = refl
    to [] (y ∷ ys) h = ground arith
    to (x ∷ xs) [] h = ground arith
    to (x ∷ xs) (y ∷ ys) h =
        let both = and-true (x == y) (same_text xs ys) h in
        rw ((==_iff x y).0 both.0) (rw (to xs ys both.1) refl)

    refl_of : (xs : Str) → same_text xs xs ≡ true
    refl_of [] = refl
    refl_of (x ∷ xs) = rw ((==_iff x x).1 refl) (refl_of xs)
