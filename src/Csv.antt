-- ===== src/Csv.antt =====
-- backend/app/services/csv_processor.py: splitting a CSV file into partitions. A file is what
-- `csv.reader` yields of it, row by row; a partition is its header and rows, which `_render_partition`
-- hands to `csv.writer`. A text is the list of its code points. Encodings are left out.
pub mod Chunks
pub mod Retry
pub mod Rows
pub mod Locating
pub mod Pooling
pub mod DefaultSize
use sf_bulk_loader.Prelude.{
  ℕ, zero, suc, ◌+◌, Bool, true, false, ◌&&◌, ◌||◌, Option, none, some, List, [], ◌∷◌, ◌++◌, map,
  length, ◌==◌, ltb, leb, if◌then◌else◌, any,
}

abbrev pub Text : Type 0
Text = List ℕ

abbrev pub Row : Type 0
Row = List Text

pub record Chunk : Type 0 where
  pub header : Row
  pub rows : List Row

-- A value, `CSVProcessorError`, or the exceptions of Python that a size other than a positive number
-- leads to.
pub data Csv (A : Type 0) : Type 0 where
  csv_processor_error : Csv A
  type_error : Csv A
  value_error : Csv A
  ok : A → Csv A

-- The code points of `str.isspace`.
unfoldable pub is_space : ℕ → Bool
is_space c =
    (leb 9 c && leb c 13)
    || (leb 28 c && leb c 32)
    || (leb 8192 c && leb c 8202)
    || any (λ d. d == c) (133 ∷ 160 ∷ 5760 ∷ 8232 ∷ 8233 ∷ 8239 ∷ 8287 ∷ 12288 ∷ [])

unfoldable pub lstrip : Text → Text
lstrip [] = []
lstrip (c ∷ cs) = let rest = lstrip cs in if is_space c then rest else c ∷ cs

unfoldable pub rstrip : Text → Text
rstrip [] = []
rstrip (c ∷ cs) = keep (rstrip cs)
  where
    keep : Text → Text
    keep [] = if is_space c then [] else c ∷ []
    keep (d ∷ ds) = c ∷ d ∷ ds

-- `[h.strip() for h in raw_headers]`
unfoldable pub strip_all : Row → Row
strip_all header = map (λ h. rstrip (lstrip h)) header

-- `if buf: yield _render_partition(header, buf)`
unfoldable pub last_partition : Row → List Row → List Chunk
last_partition header [] = []
last_partition header (r ∷ rs) = record { header = header; rows = r ∷ rs } ∷ []

-- `for row in reader`, with the rows gathered in `buf`.
unfoldable pub fill : ℕ → Row → List Row → List Row → List Chunk
unfolding last_partition
fill size header buf [] = last_partition header buf
fill size header buf (row ∷ reader) =
    let full = length (buf ++ row ∷ []) == size in
    let rest = fill size header (if full then [] else buf ++ row ∷ []) reader in
    if full then record { header = header; rows = buf ++ row ∷ [] } ∷ rest else rest

-- All that the generator yields; its errors come before the first partition.
unfoldable pub partition_csv : ℕ → List Row → Csv (List Chunk)
unfolding fill
partition_csv size [] = csv_processor_error
partition_csv size (raw_headers ∷ reader) =
    if ltb size 1 then csv_processor_error else ok (fill size (strip_all raw_headers) [] reader)
