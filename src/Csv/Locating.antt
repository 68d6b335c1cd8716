-- ===== src/Csv/Locating.antt =====
-- Track B: the partition of a job is found again in the files of its step.
use sf_bulk_loader.Prelude.{
  ℕ, zero, suc, ◌+◌, ◌-◌, ◌≤◌, ◌≡◌, refl, sym, ap, ◌∙◌, inl, inr, none, some, List, [], ◌∷◌, ◌++◌,
  length, arith, Option-cases, get_elem?, add-zero, zero-add,
}
use sf_bulk_loader.Csv.{
  Row, Chunk, Csv, ok, csv_processor_error, type_error, value_error, partition_csv,
}
use sf_bulk_loader.Csv.Retry.{
  join_chunks, partition_files, partition_with, found, at_index, scan, locate, and_then,
  or_next_file,
}

get_elem?-none : (k : ℕ) (xs : List Chunk) → get_elem? xs k ≡ none → length xs ≤ k
get_elem?-none k [] h = omega arith
get_elem?-none zero (x ∷ xs) h = ground arith
get_elem?-none (suc k) (x ∷ xs) h = omega (arith, get_elem?-none k xs h)

get_elem?-front :
    (k : ℕ) (xs ys : List Chunk) (c : Chunk)
    → get_elem? xs k ≡ some c
    → get_elem? (xs ++ ys) k ≡ some c
get_elem?-front k [] ys c h = ground arith
get_elem?-front zero (x ∷ xs) ys c h = h
get_elem?-front (suc k) (x ∷ xs) ys c h = get_elem?-front k xs ys c h

get_elem?-back :
    (k m : ℕ) (xs ys : List Chunk) → m ≡ length xs + k → get_elem? (xs ++ ys) m ≡ get_elem? ys k
get_elem?-back k m [] ys h = ap (get_elem? ys) (h ∙ zero-add k)
get_elem?-back k zero (x ∷ xs) ys h = ground arith
get_elem?-back k (suc m) (x ∷ xs) ys h = get_elem?-back k m xs ys (omega arith)

-- The entry sought is `k` after the current index.
scan-found :
    (k n target : ℕ) (cs : List Chunk) (c : Chunk)
    → target ≡ n + k
    → get_elem? cs k ≡ some c
    → scan target n cs ≡ found c
unfolding scan
scan-found k n target [] c e h = ground arith
scan-found zero n target (x ∷ cs) c e h = ground arith
scan-found (suc k) n target (x ∷ cs) c e h =
    ground (arith, scan-found k (n + 1) target cs c (omega arith) h)

scan-past :
    (k n target : ℕ) (cs : List Chunk)
    → target ≡ n + k
    → length cs ≤ k
    → scan target n cs ≡ at_index (n + length cs)
unfolding scan
scan-past k n target [] e h = ap at_index (sym (add-zero n))
scan-past zero n target (x ∷ cs) e h = ground arith
scan-past (suc k) n target (x ∷ cs) e h =
    let step = scan-past k (n + 1) target cs (omega arith) (omega arith) in ground (arith, step)

-- The files of a step that was cut without an error.
pub joined :
    (a b : Csv (List Chunk)) (cs : List Chunk)
    → join_chunks a b ≡ ok cs
    → (xs : List Chunk) × (ys : List Chunk) × (a ≡ ok xs) × (b ≡ ok ys) × (cs ≡ xs ++ ys)
unfolding join_chunks
joined (ok xs) (ok ys) cs e = (xs, ys, refl, refl, ground arith)
joined (ok xs) csv_processor_error cs e = ground arith
joined (ok xs) type_error cs e = ground arith
joined (ok xs) value_error cs e = ground arith
joined csv_processor_error b cs e = ground arith
joined type_error b cs e = ground arith
joined value_error b cs e = ground arith

locate-get_elem?_from :
    (size k n target : ℕ) (files : List (List Row)) (cs : List Chunk)
    → target ≡ n + k
    → partition_files size files ≡ ok cs
    → locate (some size) target n files ≡ ok (get_elem? cs k)
unfolding partition_files locate partition_with and_then or_next_file
locate-get_elem?_from size k n target [] cs e p = ground arith
locate-get_elem?_from size k n target (file ∷ files) cs e p =
    let (xs, ys, here, there, both) =
      joined (partition_csv size file) (partition_files size files) cs p in
    elim (Option-cases (get_elem? xs k)) [
      | inr (c, g) ↦
          rw (here, scan-found k n target xs c e g, both, get_elem?-front k xs ys c g) refl
      | inl g ↦
          let past = get_elem?-none k xs g in
          let rest = k - length xs in
          rw (here, scan-past k n target xs e past, both, get_elem?-back rest k xs ys (omega arith))
            (locate-get_elem?_from size rest (n + length xs) target files ys (omega arith) there)
    ]

-- Where the files of a step are cut without an error, Track B finds, for every index, the partition
-- that has this index among those that the step was cut into, and none above the last.
pub locate-get_elem? :
    (size target_idx : ℕ) (files : List (List Row)) (chunks : List Chunk)
    → partition_files size files ≡ ok chunks
    → locate (some size) target_idx 0 files ≡ ok (get_elem? chunks target_idx)
locate-get_elem? size target_idx files chunks p =
    locate-get_elem?_from size target_idx 0 target_idx files chunks (omega arith) p
