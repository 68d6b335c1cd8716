-- ===== src/Storage/Previews.antt =====
-- `preview_file` of backend/app/services/input_storage.py, once the CSV reader has given the header and
-- the rows. `LocalInputStorage` and `S3InputStorage` have the same loops.
use sf_bulk_loader.Prelude.{
  ℕ, zero, suc, ◌+◌, Bool, true, false, not, ◌&&◌, ◌||◌, Option, none, some, List, [], ◌∷◌, ◌++◌,
  ltb, leb, ◌==◌, if◌then◌else◌, is_some, length, select, take,
}
use sf_bulk_loader.Storage.{Str, same_text, is_among}

-- The values of `f["column"]` and `f["value"]`, where the filter has the keys, and whether it has
-- others.
pub record Filter : Type 0 where
  pub column : Option Str
  pub value : Option Str
  pub has_others : Bool

pub record InputPreview {ℓ} (Row : Type ℓ) : Type ℓ where
  pub rows : List Row
  pub total_rows : Option ℕ
  pub filtered_rows : Option ℕ
  pub offset : ℕ
  pub limit : ℕ
  pub has_next : Bool

unfoldable pub keep_pair : Str × Str → Option (List (Str × Str)) → Option (List (Str × Str))
keep_pair p none = none
keep_pair p (some ps) = some (p ∷ ps)

-- One filter, of a column and a value; `none` is an `InputStorageError`.
unfoldable pub validate_one :
    List Str → List Str → Str → Str → Option (List (Str × Str)) → Option (List (Str × Str))
unfolding is_among keep_pair same_text
validate_one header seen column value rest =
    if same_text column []
    then none
    else if not (is_among column header)
    then none
    else if is_among column seen
    then none
    else keep_pair (column, value) rest

-- A filter without one of the keys is an error, whatever else it has.
unfoldable pub validate_from : List Str → List Str → List Filter → Option (List (Str × Str))
unfolding validate_one
validate_from header seen [] = some []
validate_from header seen (f ∷ fs) = elim f.column [
  | none ↦ none
  | some column ↦ elim f.value [
    | none ↦ none
    | some value ↦ validate_one header seen column value (validate_from header (column ∷ seen) fs)
  ]
]

unfoldable pub validate_filters : List Str → List Filter → Option (List (Str × Str))
unfolding validate_from
validate_filters header fs = validate_from header [] fs

unfoldable pub is_prefix : Str → Str → Bool
is_prefix [] ys = true
is_prefix (x ∷ xs) [] = false
is_prefix (x ∷ xs) (y ∷ ys) = x == y && is_prefix xs ys

-- `xs in ys`, of two strings.
unfoldable pub is_substring : Str → Str → Bool
unfolding is_prefix
is_substring xs [] = is_prefix xs []
is_substring xs (y ∷ ys) = is_prefix xs (y ∷ ys) || is_substring xs ys

-- `row.get(column) or ""`; a cell that is `None` is no entry.
unfoldable pub cell : Str → List (Str × Str) → Str
unfolding same_text
cell column [] = []
cell column ((name, value) ∷ cells) =
    let rest = cell column cells in if same_text name column then value else rest

-- `lower` is `str.lower`.
unfoldable pub row_matches : (Str → Str) → List (Str × Str) → List (Str × Str) → Bool
unfolding is_substring cell
row_matches lower [] row = true
row_matches lower ((column, value) ∷ fs) row =
    is_substring (lower value) (lower (cell column row)) && row_matches lower fs row

module _ {ℓ} {Row : Type ℓ} where
  -- The loop over the rows that match: how many there were, and the page so far.
  unfoldable pub filtered_loop : (Row → Bool) → ℕ → ℕ → List Row → ℕ → List Row → ℕ × List Row
  filtered_loop matches offset limit [] match_count page = (match_count, page)
  filtered_loop matches offset limit (row ∷ rows) match_count page =
      let is_taken = matches row && leb offset match_count && ltb (length page) limit in
      filtered_loop matches offset limit rows (if matches row then match_count + 1 else match_count)
        (if is_taken then page ++ row ∷ [] else page)

  unfoldable pub filtered_preview : (Row → Bool) → ℕ → ℕ → List Row → InputPreview Row
  unfolding filtered_loop
  filtered_preview matches offset limit rows =
      let (match_count, page) = filtered_loop matches offset limit rows 0 [] in
      record {
        rows = page;
        total_rows = some (length rows);
        filtered_rows = some match_count;
        offset = offset;
        limit = limit;
        has_next = ltb (offset + limit) match_count;
      }

  -- `for _ in zip(range(offset), reader)`
  unfoldable pub skip_rows : ℕ → List Row → List Row
  skip_rows zero rows = rows
  skip_rows (suc n) [] = []
  skip_rows (suc n) (row ∷ rows) = skip_rows n rows

  unfoldable pub buffer_loop : ℕ → List Row → List Row → List Row
  buffer_loop limit [] buffer = buffer
  buffer_loop limit (row ∷ rows) buffer =
      let rest = buffer_loop limit rows (buffer ++ row ∷ []) in
      if length (buffer ++ row ∷ []) == limit + 1 then buffer ++ row ∷ [] else rest

  unfoldable pub plain_preview : ℕ → ℕ → List Row → InputPreview Row
  unfolding skip_rows buffer_loop
  plain_preview offset limit rows =
      let buffer = buffer_loop limit (skip_rows offset rows) [] in
      record {
        rows = take limit buffer;
        total_rows = none;
        filtered_rows = none;
        offset = offset;
        limit = limit;
        has_next = ltb limit (length buffer);
      }

-- The filters that are no empty objects.
unfoldable pub active_filters : List Filter → List Filter
active_filters fs = select (λ f. is_some f.column || is_some f.value || f.has_others) fs

unfoldable pub preview_with :
    (Str → Str)
    → ℕ
    → ℕ
    → List Filter
    → List Str
    → List (List (Str × Str))
    → Option (InputPreview (List (Str × Str)))
unfolding validate_filters filtered_preview plain_preview row_matches
preview_with lower limit offset [] header rows = some (plain_preview offset limit rows)
preview_with lower limit offset (f ∷ fs) header rows = elim (validate_filters header (f ∷ fs)) [
  | none ↦ none
  | some pairs ↦ some (filtered_preview (row_matches lower pairs) offset limit rows)
]

-- The preview of a file; `none` is an `InputStorageError`.
unfoldable pub preview_file :
    (Str → Str)
    → ℕ
    → ℕ
    → List Filter
    → List Str
    → List (List (Str × Str))
    → Option (InputPreview (List (Str × Str)))
unfolding preview_with active_filters
preview_file lower limit offset filters header rows =
    preview_with lower limit offset (active_filters filters) header rows
