-- ===== src/Storage/Paths.antt =====
-- Paths below the root of a storage: backend/app/services/input_storage.py. `PurePosixPath` is the
-- standard library's: its parts are those between slashes that are neither empty nor a dot.
use sf_bulk_loader.Prelude.{
  ℕ, Bool, true, false, not, ◌&&◌, ◌||◌, Option, none, some, List, [], ◌∷◌, ◌++◌, map, ◌==◌,
  if◌then◌else◌, length, select, drop,
}
use sf_bulk_loader.Storage.{Str, same_text, is_among}

abbrev pub slash : ℕ
slash = 47

abbrev pub backslash : ℕ
backslash = 92

abbrev pub dot : Str
dot = 46 ∷ []

abbrev pub dot_dot : Str
dot_dot = 46 ∷ 46 ∷ []

-- `path.replace("\\", "/")`
unfoldable pub forward : Str → Str
forward path = map (λ c. if c == backslash then slash else c) path

unfoldable pub strip_left : Str → Str
strip_left [] = []
strip_left (c ∷ cs) = let rest = strip_left cs in if c == slash then rest else c ∷ cs

unfoldable pub strip_after : ℕ → Str → Str
strip_after c [] = if c == slash then [] else c ∷ []
strip_after c (d ∷ ds) = c ∷ d ∷ ds

unfoldable pub strip_right : Str → Str
unfolding strip_after
strip_right [] = []
strip_right (c ∷ cs) = strip_after c (strip_right cs)

unfoldable pub strip : Str → Str
unfolding strip_left strip_right
strip path = strip_right (strip_left path)

unfoldable pub put_first : ℕ → List Str → List Str
put_first c [] = (c ∷ []) ∷ []
put_first c (w ∷ ws) = (c ∷ w) ∷ ws

-- `path.split("/")`
unfoldable pub split : Str → List Str
unfolding put_first
split [] = [] ∷ []
split (c ∷ cs) = let rest = split cs in if c == slash then [] ∷ rest else put_first c rest

unfoldable pub is_part : Str → Bool
unfolding same_text
is_part w = not (same_text w []) && not (same_text w dot)

-- `PurePosixPath(path).parts`, where the path is relative.
unfoldable pub pure_parts : Str → List Str
unfolding is_part split
pure_parts path = select is_part (split path)

unfoldable pub join : List Str → Str
join [] = []
join (w ∷ []) = w
join (w ∷ v ∷ ws) = w ++ slash ∷ join (v ∷ ws)

-- `str(PurePosixPath(path))`
unfoldable pub pure_text : List Str → Str
unfolding join
pure_text [] = dot
pure_text (w ∷ ws) = join (w ∷ ws)

unfoldable pub is_absolute : Str → Bool
is_absolute [] = false
is_absolute (c ∷ cs) = c == slash

unfoldable pub normalise_stripped : Str → Option Str
unfolding is_absolute is_among pure_parts pure_text same_text
normalise_stripped path =
    if same_text path [] || same_text path dot
    then some []
    else if is_absolute path || is_among dot_dot (pure_parts path)
    then none
    else some (pure_text (pure_parts path))

-- `_normalise_relative_path`; `none` is an `InputStorageError`.
unfoldable pub normalise_relative_path : Str → Option Str
unfolding normalise_stripped forward strip
normalise_relative_path path = normalise_stripped (strip (forward path))

-- `_validate_glob_pattern`
unfoldable pub validate_glob_stripped : Str → Option Str
unfolding is_absolute is_among pure_parts pure_text
validate_glob_stripped pattern =
    if is_absolute pattern || is_among dot_dot (pure_parts pattern)
    then none
    else some (pure_text (pure_parts pattern))

unfoldable pub validate_glob_pattern : Str → Option Str
unfolding validate_glob_stripped forward strip
validate_glob_pattern pattern = validate_glob_stripped (strip (forward pattern))

-- `_normalise_root_prefix`
unfoldable pub slashed : Str → Str
slashed [] = []
slashed (c ∷ cs) = (c ∷ cs) ++ slash ∷ []

unfoldable pub normalise_root_prefix : Option Str → Str
unfolding slashed forward strip
normalise_root_prefix none = []
normalise_root_prefix (some prefix) = slashed (strip (forward prefix))

unfoldable pub has_prefix : Str → Str → Bool
has_prefix [] ys = true
has_prefix (x ∷ xs) [] = false
has_prefix (x ∷ xs) (y ∷ ys) = x == y && has_prefix xs ys

-- `_relative_key`
unfoldable pub relative_key : Str → Str → Str
unfolding has_prefix
relative_key key root_prefix =
    if has_prefix root_prefix key then drop (length root_prefix) key else key

-- `_join_s3_key`
unfoldable pub join_s3_key : Str → Str → Str
join_s3_key root_prefix [] = root_prefix
join_s3_key root_prefix (c ∷ cs) = root_prefix ++ c ∷ cs
