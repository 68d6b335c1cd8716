-- ===== src/Csv/Rows.antt =====
-- What the partitions hold: every row, in order, and no partition too large or empty.
use sf_bulk_loader.Prelude.{
  ℕ, zero, suc, ◌+◌, ◌≤◌, ◌<◌, max, ◌≡◌, refl, sym, ap, ◌∙◌, List, [], ◌∷◌, ◌++◌, map, length, take,
  drop, arith, All, append_assoc, take-append-drop,
}
use sf_bulk_loader.Csv.{Row, Chunk, ok, strip_all, partition_csv}
use sf_bulk_loader.Csv.Chunks.{chunk, chunked, slices-chunked, partition_csv-slices}
use sf_bulk_loader.Csv.Retry.{slices}

-- The data rows of partitions, one after the other.
abbrev pub rows_of : List Chunk → List Row
rows_of [] = []
rows_of (c ∷ cs) = c.rows ++ rows_of cs

pub rows_of-append : (xs ys : List Chunk) → rows_of (xs ++ ys) ≡ rows_of xs ++ rows_of ys
rows_of-append [] ys = refl
rows_of-append (c ∷ cs) ys =
    ap (λ t. c.rows ++ t) (rows_of-append cs ys)
    ∙ sym (append_assoc c.rows (rows_of cs) (rows_of ys))

-- A partition under the header, neither empty nor above the size.
pub record IsSized (size : ℕ) (header : Row) (c : Chunk) : Type 0 where
  pub headed : c.header ≡ header
  pub some_rows : 0 < length c.rows
  pub bounded : length c.rows ≤ size

length-take :
    (n : ℕ) (rows : List Row)
    → 0 < n
    → 0 < length rows
    → (0 < length (take n rows)) × (length (take n rows) ≤ n)
length-take zero rows p q = ground arith
length-take (suc n) [] p q = ground arith
length-take (suc n) (r ∷ rows) p q = (omega arith, omega (arith, bound n rows))
  where
    bound : (n : ℕ) (rows : List Row) → length (take n rows) ≤ n
    bound zero rows = omega arith
    bound (suc n) [] = omega arith
    bound (suc n) (r ∷ rows) = omega (arith, bound n rows)

length-drop : (n : ℕ) (rows : List Row) → length (drop n rows) + n ≡ max (length rows) n
length-drop zero rows = omega arith
length-drop (suc n) [] = omega arith
length-drop (suc n) (r ∷ rows) = omega (arith, length-drop n rows)

chunked-IsSized :
    (fuel size : ℕ) (header : Row) (rows : List Row)
    → 0 < size
    → All (IsSized size header) (map (chunk header) (chunked fuel size rows))
unfolding chunked
chunked-IsSized zero size header rows p = tt
chunked-IsSized (suc fuel) size header [] p = tt
chunked-IsSized (suc fuel) size header (r ∷ rows) p =
    let (some_rows, bounded) = length-take size (r ∷ rows) p (omega arith) in
    (
      record { headed = refl; some_rows = some_rows; bounded = bounded },
      chunked-IsSized fuel size header (drop size (r ∷ rows)) p,
    )

chunked-rows_of :
    (fuel size : ℕ) (header : Row) (rows : List Row)
    → 0 < size
    → length rows ≤ fuel
    → rows_of (map (chunk header) (chunked fuel size rows)) ≡ rows
unfolding chunked
chunked-rows_of zero size header [] p h = refl
chunked-rows_of zero size header (r ∷ rows) p h = ground arith
chunked-rows_of (suc fuel) size header [] p h = refl
chunked-rows_of (suc fuel) size header (r ∷ rows) p h =
    let rest = drop size (r ∷ rows) in
    ap (λ t. take size (r ∷ rows) ++ t)
      (chunked-rows_of fuel size header rest p (omega (arith, length-drop size (r ∷ rows))))
    ∙ take-append-drop size (r ∷ rows)

-- For a positive size, the slices hold the rows in order, each row once; none is empty, none is above the size.
pub slices-keep :
    (size : ℕ) (header : Row) (rows : List Row)
    → 0 < size
    → (rows_of (slices size header rows) ≡ rows)
      × All (IsSized size header) (slices size header rows)
slices-keep size header rows p = rw (slices-chunked size header rows) (
  chunked-rows_of (length rows) size header rows p (omega arith),
  chunked-IsSized (length rows) size header rows p,
)

size-positive :
    (size : ℕ) (raw_headers : Row) (reader : List Row) (chunks : List Chunk)
    → partition_csv size (raw_headers ∷ reader) ≡ ok chunks
    → 0 < size
unfolding partition_csv
size-positive size raw_headers reader chunks e = ground arith

ok-injective : {xs ys : List Chunk} → ok xs ≡ ok ys → xs ≡ ys
ok-injective e = ground arith

-- Whenever `partition_csv` yields partitions of a file with a header row, their rows, one after the
-- other, are the data rows of the file, and each partition has the stripped header and at least one
-- row and at most as many as the size.
pub partition_csv-keeps :
    (size : ℕ) (raw_headers : Row) (reader : List Row) (chunks : List Chunk)
    → partition_csv size (raw_headers ∷ reader) ≡ ok chunks
    → (rows_of chunks ≡ reader) × All (IsSized size (strip_all raw_headers)) chunks
partition_csv-keeps size raw_headers reader chunks e =
    let p = size-positive size raw_headers reader chunks e in
    let same = ok-injective (sym (partition_csv-slices size raw_headers reader p) ∙ e) in
    rw (sym same) (slices-keep size (strip_all raw_headers) reader p)
