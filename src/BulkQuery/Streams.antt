-- ===== src/BulkQuery/Streams.antt =====
-- The pages of a query end up in the file one after the other, whatever the chunks they come in:
-- backend/app/services/bulk_query_executor.py.
use sf_bulk_loader.Prelude.{
  ℕ, zero, suc, ◌+◌, ◌≤◌, ◌<◌, ◌≡◌, refl, sym, ap, ◌∙◌, inl, inr, Bool, true, false, ◌||◌, Option,
  none, some, List, [], ◌∷◌, ◌++◌, arith, leb, ◌==◌, if◌then◌else◌, Bool-cases, Option-cases,
  length, ==_iff, append-nil, append_assoc, zero-add,
}
use sf_bulk_loader.Client.{max_retries}
use sf_bulk_loader.BulkQuery.{
  LocatorHeader, PageReply, page_reply, Fetched, fetched, line_feed, next_locator, is_filled,
  filled_chunks, after_newline, write_rest, strip_header, page_chunks, fetch_once, fetch_loop,
  fetch_results_page, Streamed, streamed, after_page, stream_loop, flat, rows_in, measured,
  stream_results,
}

flat-append : (xs ys : List (List ℕ)) → flat (xs ++ ys) ≡ flat xs ++ flat ys
unfolding flat
flat-append [] ys = refl
flat-append (x ∷ xs) ys =
    ap (λ t. x ++ t) (flat-append xs ys) ∙ sym (append_assoc x (flat xs) (flat ys))

flat-filled : (chunks : List (List ℕ)) → flat (filled_chunks chunks) ≡ flat chunks
unfolding flat filled_chunks is_filled
flat-filled [] = refl
flat-filled ([] ∷ chunks) = flat-filled chunks
flat-filled ((b ∷ bs) ∷ chunks) = ap (λ t. (b ∷ bs) ++ t) (flat-filled chunks)

flat-write_rest :
    (rest : List ℕ) (chunks : List (List ℕ)) → flat (write_rest rest chunks) ≡ rest ++ flat chunks
unfolding flat write_rest is_filled
flat-write_rest [] chunks = flat-filled chunks
flat-write_rest (b ∷ bs) chunks = ap (λ t. (b ∷ bs) ++ t) (flat-filled chunks)

-- A header that has ended stays so when more bytes come.
after_newline-append :
    (xs ys rest : List ℕ)
    → after_newline xs ≡ some rest
    → after_newline (xs ++ ys) ≡ some (rest ++ ys)
unfolding after_newline
after_newline-append [] ys rest h = ground arith
after_newline-append (x ∷ xs) ys rest h = elim (Bool-cases (x == line_feed)) [
  | inl e ↦
      let found : some xs ≡ some rest = rw e at h in
      let same : xs ≡ rest = cc in rw e (rw same refl)
  | inr e ↦ rw e (after_newline-append xs ys rest (rw e at h))
]

-- The bytes of a page after its header; none if the header does not end.
unfoldable pub body : List ℕ → List ℕ
unfolding after_newline
body bytes = elim (after_newline bytes) [ none ↦ [] | some rest ↦ rest ]

body-some : (bytes rest : List ℕ) → after_newline bytes ≡ some rest → body bytes ≡ rest
unfolding body
body-some bytes rest h = rw (h, body) refl

flat-strip_header :
    (leftover : List ℕ) (chunks : List (List ℕ))
    → after_newline leftover ≡ none
    → flat (strip_header leftover chunks) ≡ body (leftover ++ flat chunks)
unfolding flat strip_header body is_filled
flat-strip_header leftover [] h = rw (append-nil leftover) (rw (h, body) refl)
flat-strip_header leftover ([] ∷ chunks) h = flat-strip_header leftover chunks h
flat-strip_header leftover ((b ∷ bs) ∷ chunks) h =
    let assoc = append_assoc leftover (b ∷ bs) (flat chunks) in
    elim (Option-cases (after_newline (leftover ++ b ∷ bs))) [
      | inl n ↦ rw n (flat-strip_header (leftover ++ b ∷ bs) chunks n ∙ ap body assoc)
      | inr (rest, n) ↦
          let ended = after_newline-append (leftover ++ b ∷ bs) (flat chunks) rest n in
          rw n (
            flat-write_rest rest chunks
            ∙ sym (body-some ((leftover ++ b ∷ bs) ++ flat chunks) (rest ++ flat chunks) ended)
            ∙ ap body assoc)
    ]

-- What a page adds to the file.
unfoldable pub contribution : Bool → List (List ℕ) → List ℕ
unfolding body flat
contribution is_first_page chunks = if is_first_page then flat chunks else body (flat chunks)

flat-page_chunks :
    (is_first : Bool) (chunks : List (List ℕ))
    → flat (page_chunks is_first chunks) ≡ contribution is_first chunks
unfolding page_chunks contribution after_newline
flat-page_chunks true chunks = flat-filled chunks
flat-page_chunks false chunks = flat-strip_header [] chunks refl

-- The replies at one page: those before the last are 429 or a failure of the server.
pub data Answers (replies : ℕ → PageReply) : List (List ℕ) → LocatorHeader → Type 0 where
  answers :
      {header : LocatorHeader} {chunks : List (List ℕ)} (n : ℕ)
      → n ≤ max_retries
      → ((k : ℕ)
          → k < n
          → (status : ℕ) × (h : LocatorHeader) × (cs : List (List ℕ)) × (replies k
              ≡ page_reply status h cs)
            × ((status == 429 || leb 500 status) ≡ true))
      → replies n ≡ page_reply 200 header chunks
      → Answers replies chunks header

fetch_once-transient :
    (attempt : ℕ) (is_first : Bool) (status : ℕ) (h : LocatorHeader) (cs : List (List ℕ))
    (again : Fetched)
    → (status == 429 || leb 500 status) ≡ true
    → attempt < max_retries
    → fetch_once attempt is_first (page_reply status h cs) again ≡ again
unfolding fetch_once
fetch_once-transient attempt is_first status h cs again t l =
    let early : (attempt == max_retries) ≡ false = ground arith in rw t (rw early refl)

fetch_loop-answers :
    (replies : ℕ → PageReply) (is_first : Bool) (header : LocatorHeader) (chunks : List (List ℕ))
    (left attempt n : ℕ)
    → attempt ≤ n
    → n < attempt + left
    → n ≤ max_retries
    → ((k : ℕ)
        → k < n
        → (status : ℕ) × (h : LocatorHeader) × (cs : List (List ℕ)) × (replies k
            ≡ page_reply status h cs)
          × ((status == 429 || leb 500 status) ≡ true))
    → replies n ≡ page_reply 200 header chunks
    → fetch_loop replies is_first left attempt
      ≡ fetched (page_chunks is_first chunks) (next_locator header)
unfolding fetch_loop
fetch_loop-answers replies is_first header chunks zero attempt n a b c t h = ground arith
fetch_loop-answers replies is_first header chunks (suc left) attempt n a b c t h =
    elim (Bool-cases (attempt == n)) [
      | inl e ↦ let same : attempt ≡ n = (==_iff attempt n).0 e in rw same (rw h refl)
      | inr e ↦
          let early : attempt < n = ground arith in
          let (status, hd, cs, reply, transient) = t attempt early in
          let rest =
            fetch_loop-answers replies is_first header chunks left (attempt + 1) n (omega arith)
              (omega arith) c t h in
          rw reply
            (fetch_once-transient attempt is_first status hd cs _ transient (omega arith) ∙ rest)
    ]

-- The pages that Salesforce serves from a locator on, and that there is an end of them.
pub data Served (pages : Option ℕ → ℕ → PageReply) : Option ℕ → List (List (List ℕ)) → Type 0 where
  last_page :
      {l : Option ℕ} {chunks : List (List ℕ)} {header : LocatorHeader}
      → next_locator header ≡ none
      → Answers (pages l) chunks header
      → Served pages l (chunks ∷ [])
  page :
      {l : Option ℕ} {chunks : List (List ℕ)} {rest : List (List (List ℕ))} {header : LocatorHeader}
      {next : ℕ}
      → next_locator header ≡ some next
      → Answers (pages l) chunks header
      → Served pages (some next) rest
      → Served pages l (chunks ∷ rest)

-- The bytes of the file that the pages make; the first page keeps its header.
unfoldable pub file_of : Bool → List (List (List ℕ)) → List ℕ
unfolding contribution
file_of is_first [] = []
file_of is_first (chunks ∷ rest) = contribution is_first chunks ++ file_of false rest

fetch-answers :
    {replies : ℕ → PageReply} {chunks : List (List ℕ)} {header : LocatorHeader} (is_first : Bool)
    → Answers replies chunks header
    → fetch_results_page replies is_first
      ≡ fetched (page_chunks is_first chunks) (next_locator header)
unfolding fetch_results_page
fetch-answers {replies} {chunks} {header} is_first (answers n small transient h) =
    fetch_loop-answers replies is_first header chunks (max_retries + 1) 0 n (omega arith)
      (omega arith) small transient h

not_first : (n : ℕ) → (n + 1 == 0) ≡ false
not_first n = ground arith

-- The writer after the pages.
abbrev Wrote : Streamed → List ℕ → ℕ → Type 0
Wrote r bytes pages = (chunks : List (List ℕ)) × (r ≡ streamed chunks pages) × (flat chunks ≡ bytes)

stream_loop-Wrote :
    (pages : Option ℕ → ℕ → PageReply) (l : Option ℕ) (ps : List (List (List ℕ)))
    (page_number fuel : ℕ) (written : List (List ℕ))
    → Served pages l ps
    → length ps ≤ fuel
    → Wrote
        (stream_loop pages fuel l page_number written)
        (flat written ++ file_of (page_number == 0) ps)
        (page_number + length ps)
unfolding stream_loop after_page file_of
stream_loop-Wrote pages l ps page_number zero written (last_page {chunks} {header} e a) f =
    ground arith
stream_loop-Wrote pages l ps page_number zero written (page {chunks} {rest} {header} {next} e a s)
      f =
    ground arith
stream_loop-Wrote pages l ps page_number (suc fuel) written (last_page {chunks} {header} e a) f =
    let got = fetch-answers (page_number == 0) a in
    (
      written ++ page_chunks (page_number == 0) chunks,
      rw got (rw e refl),
      flat-append written (page_chunks (page_number == 0) chunks)
          ∙ ap (λ t. flat written ++ t)
              (flat-page_chunks (page_number == 0) chunks
                ∙ sym (append-nil (contribution (page_number == 0) chunks))),
    )
stream_loop-Wrote pages l ps page_number (suc fuel) written
      (page {chunks} {rest} {header} {next} e a s) f =
    let got = fetch-answers (page_number == 0) a in
    let written' = written ++ page_chunks (page_number == 0) chunks in
    let (all, ended, bytes) =
      stream_loop-Wrote pages (some next) rest (page_number + 1) fuel written' s (omega arith) in
    let later = not_first page_number in
    (
      all,
      rw got (rw e (ended ∙ ap (λ n. streamed all n) (omega arith))),
      bytes
          ∙ rw later (
              ap (λ t. t ++ file_of false rest)
                (flat-append written (page_chunks (page_number == 0) chunks)
                  ∙ ap (λ t. flat written ++ t) (flat-page_chunks (page_number == 0) chunks))
              ∙ append_assoc (flat written) (contribution (page_number == 0) chunks)
                  (file_of false rest)),
    )

-- Pages that are served, each after at most three replies that ask to wait or fail for the moment, end
-- up in the file: the first as it is, the others without their header, wherever the chunks are cut.
pub stream_results-Served :
    (pages : Option ℕ → ℕ → PageReply) (ps : List (List (List ℕ))) (fuel : ℕ) (readable : Bool)
    → Served pages none ps
    → length ps ≤ fuel
    → stream_results pages fuel readable
      ≡ some (record {
        row_count = if readable then rows_in (file_of true ps) else 0;
        byte_count = length (file_of true ps);
        page_count = length ps;
        content = file_of true ps;
      })
unfolding stream_results measured flat
stream_results-Served pages ps fuel readable s f =
    let (chunks, ended, bytes) = stream_loop-Wrote pages none ps 0 fuel [] s f in
    rw ended (rw bytes (rw (zero-add (length ps)) refl))
