-- ===== src/Csv/Chunks.antt =====
-- The streaming split of a file against slicing.
use sf_bulk_loader.Prelude.{
  ℕ, zero, suc, ◌+◌, ◌≤◌, ◌<◌, ◌≡◌, refl, sym, ap, ap₂, ◌∙◌, inl, inr, List, [], ◌∷◌, ◌++◌, map,
  length, ◌==◌, ltb, take, drop, arith, Bool-cases, length-append, append_assoc, append-nil,
  take-length, drop-length, take_all, drop_all, drop-drop, drop-some, ==_iff,
}
use sf_bulk_loader.Csv.{Row, Chunk, ok, strip_all, last_partition, fill, partition_csv}
use sf_bulk_loader.Csv.Retry.{range, slices}

abbrev pub chunk : Row → List Row → Chunk
chunk header rows = record { header = header; rows = rows }

-- The reference: cut off the first rows until none are left.
unfoldable pub chunked : ℕ → ℕ → List Row → List (List Row)
chunked zero size rows = []
chunked (suc fuel) size [] = []
chunked (suc fuel) size (r ∷ rs) = take size (r ∷ rs) ∷ chunked fuel size (drop size (r ∷ rs))

chunked-nil : (fuel size : ℕ) → chunked fuel size [] ≡ []
unfolding chunked
chunked-nil zero size = refl
chunked-nil (suc fuel) size = refl

chunked-cons :
    (fuel size : ℕ) (rows : List Row)
    → 0 < length rows
    → chunked (suc fuel) size rows ≡ take size rows ∷ chunked fuel size (drop size rows)
unfolding chunked
chunked-cons fuel size [] h = ground arith
chunked-cons fuel size (r ∷ rows) h = refl

chunked-full :
    (fuel size : ℕ) (rows more : List Row)
    → 0 < size
    → length rows ≡ size
    → chunked (suc fuel) size (rows ++ more) ≡ rows ∷ chunked fuel size more
chunked-full fuel size rows more p h =
    chunked-cons fuel size (rows ++ more) (omega (arith, length-append rows more))
    ∙ rw (sym h) (
        ap₂ (λ xs ys. xs ∷ chunked fuel (length rows) ys) (take-length rows more)
          (drop-length rows more))

chunked-last :
    (fuel size : ℕ) (rows : List Row)
    → 0 < length rows
    → length rows ≤ size
    → chunked (suc fuel) size rows ≡ rows ∷ []
chunked-last fuel size rows p h =
    chunked-cons fuel size rows p
    ∙ rw (take_all size rows h, drop_all size rows h, chunked-nil fuel size) refl

range-chunked :
    (fuel i size : ℕ) (rows : List Row)
    → map (λ j. take size (drop j rows)) (range fuel i (length rows) size)
      ≡ chunked fuel size (drop i rows)
unfolding range chunked
range-chunked zero i size rows = refl
range-chunked (suc fuel) i size rows = elim (Bool-cases (ltb i (length rows))) [
  | inr e ↦ rw (e, drop_all i rows (ground arith), chunked-nil (suc fuel) size) refl
  | inl e ↦
      let (y, ys, d) = drop-some i rows (ground arith) in
      rw e (
        ap (λ t. take size (drop i rows) ∷ t)
          (range-chunked fuel (i + size) size rows
            ∙ ap (chunked fuel size) (sym (drop-drop size i rows)))
        ∙ sym (chunked-cons fuel size (drop i rows) (rw d (omega arith))))
]

last_partition-chunked :
    (fuel size : ℕ) (header : Row) (buf : List Row)
    → length buf < size
    → length buf ≤ fuel
    → last_partition header buf ≡ map (chunk header) (chunked fuel size buf)
unfolding last_partition
last_partition-chunked fuel size header [] h k = rw (chunked-nil fuel size) refl
last_partition-chunked zero size header (r ∷ rs) h k = ground arith
last_partition-chunked (suc fuel) size header (r ∷ rs) h k =
    rw (chunked-last fuel size (r ∷ rs) (omega arith) (omega arith)) refl

fill-chunked :
    (fuel size : ℕ) (header : Row) (buf reader : List Row)
    → length buf < size
    → length buf + length reader ≤ fuel
    → fill size header buf reader ≡ map (chunk header) (chunked fuel size (buf ++ reader))
unfolding fill
fill-chunked fuel size header buf [] h k =
    rw append-nil (last_partition-chunked fuel size header buf h (omega arith))
fill-chunked zero size header buf (row ∷ reader) h k = ground arith
fill-chunked (suc fuel) size header buf (row ∷ reader) h k =
    let grown = buf ++ row ∷ [] in
    let n = length-append buf (row ∷ []) in
    let move =
      ap (λ t. map (chunk header) (chunked (suc fuel) size t))
        (append_assoc buf (row ∷ []) reader) in
    elim (Bool-cases (length grown == size)) [
      | inl e ↦
          let full =
            chunked-full fuel size grown reader (omega arith) ((==_iff (length grown) size).0 e) in
          rw e (
            ap (λ t. chunk header grown ∷ t)
              (fill-chunked fuel size header [] reader (omega arith) (omega (arith, n)))
            ∙ sym (ap (map (chunk header)) full)
            ∙ move)
      | inr e ↦ rw e (
          fill-chunked (suc fuel) size header grown reader (ground (arith, n, e)) (omega (arith, n))
          ∙ move)
    ]

map-map :
    (f : List Row → Chunk) (g : ℕ → List Row) (is : List ℕ)
    → map f (map g is) ≡ map (λ i. f (g i)) is
map-map f g [] = refl
map-map f g (i ∷ is) = ap (λ t. f (g i) ∷ t) (map-map f g is)

pub slices-chunked :
    (size : ℕ) (header : Row) (rows : List Row)
    → slices size header rows ≡ map (chunk header) (chunked (length rows) size rows)
unfolding slices
slices-chunked size header rows =
    let starts = range (length rows) 0 (length rows) size in
    sym (map-map (chunk header) (λ i. take size (drop i rows)) starts)
    ∙ ap (map (chunk header)) (range-chunked (length rows) 0 size rows)

partition_csv-fill :
    (size : ℕ) (raw_headers : Row) (reader : List Row)
    → 0 < size
    → partition_csv size (raw_headers ∷ reader) ≡ ok (fill size (strip_all raw_headers) [] reader)
unfolding partition_csv
partition_csv-fill size raw_headers reader p = ground arith

-- For a positive size, the streaming split of a file with a header row yields the slices of its data
-- rows by `range(0, n, size)`, as the retry cuts its pooled rows, each under the stripped header.
pub partition_csv-slices :
    (size : ℕ) (raw_headers : Row) (reader : List Row)
    → 0 < size
    → partition_csv size (raw_headers ∷ reader) ≡ ok (slices size (strip_all raw_headers) reader)
partition_csv-slices size raw_headers reader p =
    let header = strip_all raw_headers in
    partition_csv-fill size raw_headers reader p
    ∙ ap ok (
        fill-chunked (length reader) size header [] reader p (omega arith)
        ∙ sym (slices-chunked size header reader))
