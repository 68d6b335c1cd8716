-- ===== src/BulkQuery/Files.antt =====
-- The file of a query is one CSV file, and its rows are counted: backend/app/services/bulk_query_executor.py.
use sf_bulk_loader.Prelude.{
  ℕ, ◌+◌, ◌≤◌, ◌<◌, ◌≡◌, refl, sym, ap, ◌∙◌, true, false, Option, none, some, List, [], ◌∷◌, ◌++◌,
  arith, ◌==◌, length, All, any, All-append, append_assoc, ap₂, or-false,
}
use sf_bulk_loader.BulkQuery.{
  PageReply, line_feed, after_newline, flat, count_lines, rows_in, stream_results,
}
use sf_bulk_loader.BulkQuery.Streams.{Served, body, contribution, file_of, stream_results-Served}

-- Lines, each ended by a line feed.
unfoldable pub text_of : List (List ℕ) → List ℕ
text_of [] = []
text_of (l ∷ ls) = l ++ line_feed ∷ text_of ls

-- A line that is not empty and has no line feed.
abbrev pub IsLine : List ℕ → Type 0
IsLine l = (any (λ b. b == line_feed) l ≡ false) × (0 < length l)

text_of-append : (xs ys : List (List ℕ)) → text_of (xs ++ ys) ≡ text_of xs ++ text_of ys
unfolding text_of
text_of-append [] ys = refl
text_of-append (x ∷ xs) ys =
    ap (λ t. x ++ line_feed ∷ t) (text_of-append xs ys)
    ∙ sym (append_assoc x (line_feed ∷ text_of xs) (text_of ys))

after_newline-line :
    (l bytes : List ℕ)
    → any (λ b. b == line_feed) l ≡ false
    → after_newline (l ++ line_feed ∷ bytes) ≡ some bytes
unfolding after_newline
after_newline-line [] bytes h = refl
after_newline-line (b ∷ l) bytes h =
    let (head, tail) = or-false (b == line_feed) _ h in rw head (after_newline-line l bytes tail)

body-line :
    (l bytes : List ℕ) → any (λ b. b == line_feed) l ≡ false → body (l ++ line_feed ∷ bytes) ≡ bytes
unfolding body
body-line l bytes h = rw (after_newline-line l bytes h, body) refl

-- The first byte of a line opens it, and the line feed counts it.
count_lines-line :
    (l bytes : List ℕ)
    → any (λ b. b == line_feed) l ≡ false
    → count_lines true (l ++ line_feed ∷ bytes) ≡ 1 + count_lines false bytes
unfolding count_lines
count_lines-line [] bytes h = refl
count_lines-line (b ∷ l) bytes h =
    let (head, tail) = or-false (b == line_feed) _ h in rw head (count_lines-line l bytes tail)

count_lines-text : (ls : List (List ℕ)) → All IsLine ls → count_lines false (text_of ls) ≡ length ls
unfolding text_of count_lines
count_lines-text [] a = refl
count_lines-text ([] ∷ ls) a = ground (arith, a.0.1)
count_lines-text ((b ∷ l) ∷ ls) a =
    let (head, tail) = or-false (b == line_feed) _ a.0.0 in
    rw head (count_lines-line l (text_of ls) tail ∙ omega (arith, count_lines-text ls a.1))

-- Each page is the header and its own rows.
unfoldable pub ArePages : List ℕ → List (List (List ℕ)) → List (List (List ℕ)) → Type 0
unfolding text_of flat
ArePages header [] [] = Unit
ArePages header (p ∷ ps) (rows ∷ rest) =
    (flat p ≡ header ++ line_feed ∷ text_of rows) × ArePages header ps rest
ArePages header _ _ = ⊥

unfoldable pub all_rows : List (List (List ℕ)) → List (List ℕ)
all_rows [] = []
all_rows (rows ∷ rest) = rows ++ all_rows rest

file_of-rest :
    (header : List ℕ) (ps rows : List (List (List ℕ)))
    → any (λ b. b == line_feed) header ≡ false
    → ArePages header ps rows
    → file_of false ps ≡ text_of (all_rows rows)
unfolding file_of contribution ArePages all_rows text_of
file_of-rest header [] [] h k = refl
file_of-rest header [] (r ∷ rows) h k = ground arith
file_of-rest header (p ∷ ps) [] h k = ground arith
file_of-rest header (p ∷ ps) (r ∷ rows) h k =
    let first : body (flat p) ≡ text_of r = ap body k.0 ∙ body-line header (text_of r) h in
    ap₂ (λ x y. x ++ y) first (file_of-rest header ps rows h k.1)
    ∙ sym (text_of-append r (all_rows rows))

file_of-ArePages :
    (header : List ℕ) (p : List (List ℕ)) (ps : List (List (List ℕ))) (rows : List (List (List ℕ)))
    → any (λ b. b == line_feed) header ≡ false
    → ArePages header (p ∷ ps) rows
    → file_of true (p ∷ ps) ≡ text_of (header ∷ all_rows rows)
unfolding file_of contribution ArePages all_rows text_of
file_of-ArePages header p ps [] h k = ground arith
file_of-ArePages header p ps (r ∷ rows) h (k, rest) =
    ap₂ (λ x y. x ++ y) k (file_of-rest header ps rows h rest)
    ∙ append_assoc header (line_feed ∷ text_of r) (text_of (all_rows rows))
    ∙ ap (λ t. header ++ line_feed ∷ t) (sym (text_of-append r (all_rows rows)))

all_rows-All : (rows : List (List (List ℕ))) → All (All IsLine) rows → All IsLine (all_rows rows)
unfolding all_rows
all_rows-All [] a = tt
all_rows-All (r ∷ rows) a = All-append IsLine r (all_rows rows) a.0 (all_rows-All rows a.1)

-- A query whose pages are served, each with the same header and its own rows, none of which has a line
-- feed inside: the file is the header, once, and the rows of all pages in their order, wherever the
-- chunks are cut; and the count that is read back from it is that of the rows.
pub stream_results-IsFile :
    (pages : Option ℕ → ℕ → PageReply) (p : List (List ℕ)) (ps rows : List (List (List ℕ)))
    (fuel : ℕ) (header : List ℕ)
    → Served pages none (p ∷ ps)
    → length (p ∷ ps) ≤ fuel
    → IsLine header
    → All (All IsLine) rows
    → ArePages header (p ∷ ps) rows
    → stream_results pages fuel true
      ≡ some (record {
        row_count = length (all_rows rows);
        byte_count = length (text_of (header ∷ all_rows rows));
        page_count = length (p ∷ ps);
        content = text_of (header ∷ all_rows rows);
      })
unfolding rows_in
stream_results-IsFile pages p ps rows fuel header served f line lines k =
    let written = file_of-ArePages header p ps rows line.0 k in
    let counted = count_lines-text (header ∷ all_rows rows) (line, all_rows-All rows lines) in
    let fewer : rows_in (text_of (header ∷ all_rows rows)) ≡ length (all_rows rows) =
      omega (arith, counted) in
    rw (stream_results-Served pages (p ∷ ps) fuel true served f) (rw written (rw fewer refl))
