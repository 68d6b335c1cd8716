-- ===== src/Scenarios/Queries.antt =====
-- A query of two pages, the second of which comes at the second attempt and in small chunks.
use sf_bulk_loader.Prelude.{
  ℕ, zero, suc, ◌<◌, ◌≡◌, refl, true, ◌||◌, Option, none, some, List, [], ◌∷◌, arith, leb, ◌==◌,
  length, All,
}
use sf_bulk_loader.BulkQuery.{
  PageReply, page_reply, LocatorHeader, null_text, locator, stream_results, next_locator,
}
use sf_bulk_loader.BulkQuery.Streams.{answers, Served, last_page, page}
use sf_bulk_loader.BulkQuery.Files.{text_of, IsLine, ArePages, all_rows, stream_results-IsFile}

-- The header is `1 2`, the rows `3`, `4 5` and `6`.
abbrev first_chunks : List (List ℕ)
first_chunks = (1 ∷ 2 ∷ []) ∷ (10 ∷ 3 ∷ 10 ∷ []) ∷ []

abbrev second_chunks : List (List ℕ)
second_chunks = (1 ∷ []) ∷ [] ∷ (2 ∷ 10 ∷ 4 ∷ []) ∷ (5 ∷ 10 ∷ 6 ∷ []) ∷ (10 ∷ []) ∷ []

abbrev pages : Option ℕ → ℕ → PageReply
pages none n = page_reply 200 (locator 9) first_chunks
pages (some l) zero = page_reply 429 null_text []
pages (some l) (suc n) = page_reply 200 null_text second_chunks

abbrev header : List ℕ
header = 1 ∷ 2 ∷ []

abbrev rows : List (List (List ℕ))
rows = ((3 ∷ []) ∷ []) ∷ ((4 ∷ 5 ∷ []) ∷ (6 ∷ []) ∷ []) ∷ []

the_file :
    stream_results pages 2 true
    ≡ some (record {
      row_count = 3;
      byte_count = 10;
      page_count = 2;
      content = 1 ∷ 2 ∷ 10 ∷ 3 ∷ 10 ∷ 4 ∷ 5 ∷ 10 ∷ 6 ∷ 10 ∷ [];
    })
unfolding stream_results
the_file = refl

one_waits :
    (k : ℕ)
    → k < 1
    → (status : ℕ) × (h : LocatorHeader) × (cs : List (List ℕ)) × (pages (some 9) k
        ≡ page_reply status h cs)
      × ((status == 429 || leb 500 status) ≡ true)
one_waits zero l = (429, null_text, [], refl, refl)
one_waits (suc k) l = ground arith

served : Served pages none (first_chunks ∷ second_chunks ∷ [])
unfolding next_locator
served =
    page refl (answers 0 (omega arith) (λ k l. ground arith) refl)
      (last_page refl (answers 1 (omega arith) one_waits refl))

header-IsLine : IsLine header
header-IsLine = (refl, omega arith)

rows-IsLine : All (All IsLine) rows
rows-IsLine = (((refl, omega arith), tt), (((refl, omega arith), ((refl, omega arith), tt)), tt))

pages-ArePages : ArePages header (first_chunks ∷ second_chunks ∷ []) rows
unfolding ArePages
pages-ArePages = (refl, (refl, tt))

stream_results-IsFile_example :
    stream_results pages 2 true
    ≡ some (record {
      row_count = length (all_rows rows);
      byte_count = length (text_of (header ∷ all_rows rows));
      page_count = 2;
      content = text_of (header ∷ all_rows rows);
    })
stream_results-IsFile_example =
    stream_results-IsFile pages first_chunks (second_chunks ∷ []) rows 2 header served (omega arith)
      header-IsLine rows-IsLine pages-ArePages
