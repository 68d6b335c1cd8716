-- ===== src/Scenarios/Listings.antt =====
-- Input files: a page of a preview, a pattern, and a path.
use sf_bulk_loader.Prelude.{
  ◌≡◌, ◌↔◌, refl, Bool, true, false, ◌||◌, none, some, List, [], ◌∷◌, ◌==◌, length, select,
}
use sf_bulk_loader.Storage.{Str}
use sf_bulk_loader.Storage.Previews.{
  Filter, InputPreview, validate_filters, row_matches, active_filters, preview_file,
}
use sf_bulk_loader.Storage.Pages.{IsPage, preview_file-IsPage}
use sf_bulk_loader.Storage.Globs.{
  glob_match_parts, Matches, double_star, glob_match_parts-Matches, discover_files,
}
use sf_bulk_loader.Storage.Paths.{normalise_relative_path}
use sf_bulk_loader.Storage.Below.{IsBelow, normalise_relative_path-IsBelow}

abbrev record_of : Str → List (Str × Str)
record_of value = ((1 ∷ []), value) ∷ []

abbrev filter : Filter
filter = record { column = some (1 ∷ []); value = some (7 ∷ []); has_others = false }

abbrev rows : List (List (Str × Str))
rows =
    record_of (7 ∷ []) ∷ record_of (8 ∷ []) ∷ record_of (8 ∷ 7 ∷ []) ∷ record_of (7 ∷ 8 ∷ []) ∷ []

abbrev pairs : List (Str × Str)
pairs = ((1 ∷ []), (7 ∷ [])) ∷ []

one_pair : validate_filters ((1 ∷ []) ∷ []) (active_filters (filter ∷ [])) ≡ some pairs
unfolding validate_filters active_filters
one_pair = refl

-- The second of three rows that match, and one more.
second_page :
    preview_file (λ s. s) 1 1 (filter ∷ []) ((1 ∷ []) ∷ []) rows
    ≡ some (record {
      rows = record_of (8 ∷ 7 ∷ []) ∷ [];
      total_rows = some 4;
      filtered_rows = some 3;
      offset = 1;
      limit = 1;
      has_next = true;
    })
unfolding preview_file
second_page = refl

preview_file-IsPage_example :
    (p : InputPreview (List (Str × Str))) × (preview_file
        (λ s. s)
        1
        1
        (filter ∷ [])
        ((1 ∷ []) ∷ [])
        rows
      ≡ some p)
    × IsPage 1 1 (select (row_matches (λ s. s) pairs) rows) p
preview_file-IsPage_example =
    preview_file-IsPage (λ s. s) 1 1 (filter ∷ []) ((1 ∷ []) ∷ []) rows pairs one_pair

-- A matcher whose only wildcard is `*` for a whole name.
abbrev star_or_same : Str → Str → Bool
star_or_same name pattern = length pattern == 1 || length name == length pattern

abbrev deep : List Str
deep = (5 ∷ []) ∷ (6 ∷ []) ∷ (9 ∷ 9 ∷ 9 ∷ []) ∷ []

any_depth : glob_match_parts star_or_same (double_star ∷ (8 ∷ 8 ∷ 8 ∷ []) ∷ []) deep ≡ true
unfolding glob_match_parts
any_depth = refl

glob_match_parts-Matches_example :
    (glob_match_parts star_or_same (double_star ∷ (8 ∷ 8 ∷ 8 ∷ []) ∷ []) deep ≡ true)
    ↔ Matches star_or_same (double_star ∷ (8 ∷ 8 ∷ 8 ∷ []) ∷ []) deep
glob_match_parts-Matches_example =
    glob_match_parts-Matches star_or_same (double_star ∷ (8 ∷ 8 ∷ 8 ∷ []) ∷ []) deep

-- `\a/./b/` is `a/b`, `a/../b` is refused.
simple_path :
    normalise_relative_path (92 ∷ 97 ∷ 47 ∷ 46 ∷ 47 ∷ 98 ∷ 47 ∷ []) ≡ some (97 ∷ 47 ∷ 98 ∷ [])
unfolding normalise_relative_path
simple_path = refl

climbing_path : normalise_relative_path (97 ∷ 47 ∷ 46 ∷ 46 ∷ 47 ∷ 98 ∷ []) ≡ none
unfolding normalise_relative_path
climbing_path = refl

normalise_relative_path-IsBelow_example : IsBelow (97 ∷ 47 ∷ 98 ∷ [])
normalise_relative_path-IsBelow_example =
    normalise_relative_path-IsBelow (92 ∷ 97 ∷ 47 ∷ 46 ∷ 47 ∷ 98 ∷ 47 ∷ []) (97 ∷ 47 ∷ 98 ∷ [])
      simple_path

-- The key `a//.csv` is discovered, and its path is normalised to another key.
doubled :
    discover_files
      (λ s. s)
      star_or_same
      []
      ((97 ∷ 47 ∷ 47 ∷ 46 ∷ 99 ∷ 115 ∷ 118 ∷ []) ∷ [])
      (42 ∷ 42 ∷ 47 ∷ 42 ∷ [])
    ≡ some ((97 ∷ 47 ∷ 47 ∷ 46 ∷ 99 ∷ 115 ∷ 118 ∷ []) ∷ [])
unfolding discover_files
doubled = refl

elsewhere :
    normalise_relative_path (97 ∷ 47 ∷ 47 ∷ 46 ∷ 99 ∷ 115 ∷ 118 ∷ [])
    ≡ some (97 ∷ 47 ∷ 46 ∷ 99 ∷ 115 ∷ 118 ∷ [])
unfolding normalise_relative_path
elsewhere = refl
