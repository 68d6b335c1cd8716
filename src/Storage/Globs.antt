-- ===== src/Storage/Globs.antt =====
-- Glob patterns over the keys of S3: `_matches_glob` and `discover_files` of
-- backend/app/services/input_storage.py. `fnmatchcase` is the standard library's, an argument.
use sf_bulk_loader.Prelude.{
  ◌≡◌, ◌≢◌, ◌↔◌, refl, inl, inr, Bool, true, false, not, ◌&&◌, ◌||◌, Option, none, some, List, [],
  ◌∷◌, map, arith, if◌then◌else◌, Bool-cases, select, any, and-true,
}
use sf_bulk_loader.Storage.{Str, same_text, same_text_iff}
use sf_bulk_loader.Storage.Paths.{split, slash, relative_key, validate_glob_pattern}

-- `**`
abbrev pub double_star : Str
double_star = 42 ∷ 42 ∷ []

-- `path_parts[i:]` for each `i`.
unfoldable pub suffixes : List Str → List (List Str)
suffixes [] = [] ∷ []
suffixes (x ∷ xs) = (x ∷ xs) ∷ suffixes xs

unfoldable pub is_empty : List Str → Bool
is_empty [] = true
is_empty (x ∷ xs) = false

unfoldable pub match_one : (Str → Str → Bool) → Str → (List Str → Bool) → List Str → Bool
match_one fnmatchcase head rest [] = false
match_one fnmatchcase head rest (x ∷ xs) = fnmatchcase x head && rest xs

-- `_glob_match_parts`, the pattern first.
unfoldable pub glob_match_parts : (Str → Str → Bool) → List Str → List Str → Bool
unfolding suffixes is_empty match_one same_text
glob_match_parts fnmatchcase [] path = is_empty path
glob_match_parts fnmatchcase (head ∷ rest) path =
    let matches_rest = glob_match_parts fnmatchcase rest in
    if same_text head double_star
    then any matches_rest (suffixes path)
    else match_one fnmatchcase head matches_rest path

-- What a pattern means: a part matches one name, and `**` any number of them.
pub data Matches (fnmatchcase : Str → Str → Bool) : List Str → List Str → Type 0 where
  ends : Matches fnmatchcase [] []
  names :
      {head x : Str} {rest xs : List Str}
      → (head ≢ double_star)
      → fnmatchcase x head ≡ true
      → Matches fnmatchcase rest xs
      → Matches fnmatchcase (head ∷ rest) (x ∷ xs)
  stops :
      {rest xs : List Str}
      → Matches fnmatchcase rest xs
      → Matches fnmatchcase (double_star ∷ rest) xs
  descends :
      {x : Str} {rest xs : List Str}
      → Matches fnmatchcase (double_star ∷ rest) xs
      → Matches fnmatchcase (double_star ∷ rest) (x ∷ xs)

-- Matches after some of the names.
suffixes-Matches :
    (f : Str → Str → Bool) (rest path : List Str)
    → ((xs : List Str) → glob_match_parts f rest xs ≡ true → Matches f rest xs)
    → any (glob_match_parts f rest) (suffixes path) ≡ true
    → Matches f (double_star ∷ rest) path
unfolding suffixes
suffixes-Matches f rest [] k h = stops (k [] (ground arith))
suffixes-Matches f rest (x ∷ xs) k h = elim (Bool-cases (glob_match_parts f rest (x ∷ xs))) [
  | inl e ↦ stops (k (x ∷ xs) e)
  | inr e ↦ descends (suffixes-Matches f rest xs k (rw e at h))
]

one-Matches :
    (f : Str → Str → Bool) (head : Str) (rest path : List Str)
    → head ≢ double_star
    → ((xs : List Str) → glob_match_parts f rest xs ≡ true → Matches f rest xs)
    → match_one f head (glob_match_parts f rest) path ≡ true
    → Matches f (head ∷ rest) path
unfolding match_one
one-Matches f head rest [] n k h = ground arith
one-Matches f head rest (x ∷ xs) n k h =
    let both = and-true (f x head) (glob_match_parts f rest xs) h in names n both.0 (k xs both.1)

differs : (head : Str) → same_text head double_star ≡ false → head ≢ double_star
differs head h e = let same = (same_text_iff head double_star).1 e in ground arith

is_other : (head : Str) → head ≢ double_star → same_text head double_star ≡ false
is_other head n = elim (Bool-cases (same_text head double_star)) [
  | inl e ↦ elim (n ((same_text_iff head double_star).0 e)) [ ]
  | inr e ↦ e
]

glob_match_parts_sound :
    (f : Str → Str → Bool) (pattern path : List Str)
    → glob_match_parts f pattern path ≡ true
    → Matches f pattern path
unfolding glob_match_parts is_empty match_one
glob_match_parts_sound f [] [] h = ends
glob_match_parts_sound f [] (x ∷ xs) h = ground arith
glob_match_parts_sound f (head ∷ rest) path h = elim (Bool-cases (same_text head double_star)) [
  | inl e ↦
      let same = (same_text_iff head double_star).0 e in
      rw same (
        suffixes-Matches f rest path (λ xs. glob_match_parts_sound f rest xs)
          (rw (e, glob_match_parts) at h))
  | inr e ↦
      one-Matches f head rest path (differs head e) (λ xs. glob_match_parts_sound f rest xs)
        (rw (e, glob_match_parts) at h)
]

suffixes-any :
    (f : Str → Str → Bool) (rest path : List Str)
    → glob_match_parts f rest path ≡ true
    → any (glob_match_parts f rest) (suffixes path) ≡ true
unfolding suffixes
suffixes-any f rest [] h = rw h refl
suffixes-any f rest (x ∷ xs) h = rw h refl

any-deeper : (a b : Bool) → b ≡ true → (a || b) ≡ true
any-deeper a b h = ground arith

glob_match_parts_complete :
    (f : Str → Str → Bool) {pattern path : List Str}
    → Matches f pattern path
    → glob_match_parts f pattern path ≡ true
unfolding glob_match_parts is_empty match_one suffixes
glob_match_parts_complete f ends = refl
glob_match_parts_complete f (names {head} {x} {rest} {xs} n h m) =
    rw (is_other head n) (rw h (glob_match_parts_complete f m))
glob_match_parts_complete f (stops {rest} {xs} m) =
    suffixes-any f rest xs (glob_match_parts_complete f m)
glob_match_parts_complete f (descends {x} {rest} {xs} m) =
    let deeper : any (glob_match_parts f rest) (suffixes xs) ≡ true =
      glob_match_parts_complete f m in
    any-deeper (glob_match_parts f rest (x ∷ xs)) (any (glob_match_parts f rest) (suffixes xs))
      deeper

-- A path matches a pattern, part by part, exactly when the search for the names that `**` takes succeeds.
pub glob_match_parts-Matches :
    (f : Str → Str → Bool) (pattern path : List Str)
    → (glob_match_parts f pattern path ≡ true) ↔ Matches f pattern path
glob_match_parts-Matches f pattern path =
    (glob_match_parts_sound f pattern path, glob_match_parts_complete f)

unfoldable pub nonempty_parts : Str → List Str
unfolding split same_text
nonempty_parts path = select (λ p. not (same_text p [])) (split path)

unfoldable pub matches_glob : (Str → Str → Bool) → Str → Str → Bool
unfolding nonempty_parts glob_match_parts
matches_glob fnmatchcase path glob_pattern =
    glob_match_parts fnmatchcase (nonempty_parts glob_pattern) (nonempty_parts path)

unfoldable pub ends_with : Str → Str → Bool
unfolding same_text
ends_with suffix [] = same_text suffix []
ends_with suffix (c ∷ cs) = same_text suffix (c ∷ cs) || ends_with suffix cs

-- `.csv`
abbrev pub csv_suffix : Str
csv_suffix = 46 ∷ 99 ∷ 115 ∷ 118 ∷ []

unfoldable pub is_discovered : (Str → Str) → (Str → Str → Bool) → Str → Str → Str → Bool
unfolding ends_with matches_glob relative_key same_text
is_discovered lower fnmatchcase root_prefix pattern key =
    not (same_text key [])
    && not (ends_with (slash ∷ []) key)
    && ends_with csv_suffix (lower (relative_key key root_prefix))
    && matches_glob fnmatchcase (relative_key key root_prefix) pattern

-- `S3InputStorage.discover_files`, of the keys that S3 lists, before they are sorted.
unfoldable pub discover_files :
    (Str → Str) → (Str → Str → Bool) → Str → List Str → Str → Option (List Str)
unfolding is_discovered relative_key validate_glob_pattern
discover_files lower fnmatchcase root_prefix keys glob_pattern =
    elim (validate_glob_pattern glob_pattern) [
      | none ↦ none
      | some pattern ↦ some (
          map (λ key. relative_key key root_prefix)
            (select (is_discovered lower fnmatchcase root_prefix pattern) keys))
    ]
