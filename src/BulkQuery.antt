-- ===== src/BulkQuery.antt =====
-- backend/app/services/bulk_query_executor.py: a Bulk API 2.0 query job, from its creation to the file
-- of its results. Bytes are numbers, 10 is the line feed. What Salesforce and the clock answer is given.
pub mod Streams
pub mod Files
pub mod Polls
use sf_bulk_loader.Prelude.{
  ℕ, zero, suc, ◌+◌, ◌-◌, ◌*◌, ◌/◌, ◌%◌, ◌≤◌, ◌<◌, min, max, ◌≡◌, ◌≢◌, ◌⊎◌, ◌↔◌, refl, sym, ap, ◌∙◌,
  inl, inr, Bool, true, false, not, ◌&&◌, ◌||◌, Option, none, some, List, [], ◌∷◌, ◌++◌, map, arith,
  ltb, leb, ◌==◌, if◌then◌else◌, Bool-cases, Option-cases, is_some, holds, length, All, select,
  count_by, any,
}
use sf_bulk_loader.Client.{HttpReply, Outcome, returned, Result, request, max_retries}

-- The `Sforce-Locator` header: absent, empty, `null`, or the locator of the next page.
pub data LocatorHeader : Type 0 where
  absent empty null_text : LocatorHeader
  locator : ℕ → LocatorHeader

-- The answer to a request for a page: a status and the chunks of the body; or the HTTP client raises.
pub data PageReply : Type 0 where
  page_reply : (status : ℕ) → LocatorHeader → List (List ℕ) → PageReply
  client_error : PageReply

-- The chunks that were written and the locator of the next page; `BulkQueryError`; or the exception of
-- the HTTP client.
pub data Fetched : Type 0 where
  fetched : List (List ℕ) → Option ℕ → Fetched
  fetch_error : Fetched
  fetch_raised : Fetched

abbrev pub line_feed : ℕ
line_feed = 10

unfoldable pub next_locator : LocatorHeader → Option ℕ
next_locator (locator l) = some l
next_locator _ = none

unfoldable pub is_filled : List ℕ → Bool
is_filled [] = false
is_filled (b ∷ bs) = true

unfoldable pub filled_chunks : List (List ℕ) → List (List ℕ)
unfolding is_filled
filled_chunks chunks = select is_filled chunks

-- What comes after the first line feed.
unfoldable pub after_newline : List ℕ → Option (List ℕ)
after_newline [] = none
after_newline (b ∷ bs) = let rest = after_newline bs in if b == line_feed then some bs else rest

-- Once the header is stripped: the rest of its chunk, and the chunks after it.
unfoldable pub write_rest : List ℕ → List (List ℕ) → List (List ℕ)
unfolding is_filled filled_chunks
write_rest rest chunks =
    if is_filled rest then rest ∷ filled_chunks chunks else filled_chunks chunks

-- The chunks of a page without its header; `leftover` is what was read of the header.
unfoldable pub strip_header : List ℕ → List (List ℕ) → List (List ℕ)
unfolding after_newline write_rest is_filled
strip_header leftover [] = []
strip_header leftover (chunk ∷ chunks) =
    let same = strip_header leftover chunks in
    let more = strip_header (leftover ++ chunk) chunks in
    if not (is_filled chunk) then same else elim (after_newline (leftover ++ chunk)) [
      | none ↦ more
      | some rest ↦ write_rest rest chunks
    ]

unfoldable pub page_chunks : Bool → List (List ℕ) → List (List ℕ)
unfolding filled_chunks strip_header
page_chunks is_first_page chunks =
    if is_first_page then filled_chunks chunks else strip_header [] chunks

-- One attempt; `again` is the next one.
unfoldable pub fetch_once : ℕ → Bool → PageReply → Fetched → Fetched
unfolding page_chunks next_locator
fetch_once attempt is_first_page client_error again = fetch_raised
fetch_once attempt is_first_page (page_reply status header chunks) again =
    if status == 429 || leb 500 status
    then (if attempt == max_retries then fetch_error else again)
    else if not (status == 200)
    then fetch_error
    else fetched (page_chunks is_first_page chunks) (next_locator header)

-- `for attempt in range(_MAX_RETRIES + 1)`
unfoldable pub fetch_loop : (ℕ → PageReply) → Bool → ℕ → ℕ → Fetched
unfolding fetch_once
fetch_loop replies is_first_page zero attempt = fetch_error
fetch_loop replies is_first_page (suc left) attempt =
    fetch_once attempt is_first_page (replies attempt)
      (fetch_loop replies is_first_page left (attempt + 1))

unfoldable pub fetch_results_page : (ℕ → PageReply) → Bool → Fetched
unfolding fetch_loop
fetch_results_page replies is_first_page = fetch_loop replies is_first_page (max_retries + 1) 0

-- The chunks in the writer and the number of pages; or an exception; or more pages than `fuel`.
pub data Streamed : Type 0 where
  streamed : List (List ℕ) → ℕ → Streamed
  stream_error : Streamed
  stream_raised : Streamed
  out_of_pages : Streamed

-- After a page; `more` goes on with the next one.
unfoldable pub after_page : List (List ℕ) → ℕ → (ℕ → List (List ℕ) → Streamed) → Fetched → Streamed
after_page written page_number more (fetched chunks none) =
    streamed (written ++ chunks) (page_number + 1)
after_page written page_number more (fetched chunks (some l)) = more l (written ++ chunks)
after_page written page_number more fetch_error = stream_error
after_page written page_number more fetch_raised = stream_raised

-- `pages` answers the attempts at the page of a locator, the first page having none.
unfoldable pub stream_loop :
    (Option ℕ → ℕ → PageReply) → ℕ → Option ℕ → ℕ → List (List ℕ) → Streamed
unfolding after_page fetch_results_page
stream_loop pages zero l page_number written = out_of_pages
stream_loop pages (suc fuel) l page_number written =
    after_page written page_number
      (λ next written'. stream_loop pages fuel (some next) (page_number + 1) written')
      (fetch_results_page (pages l) (page_number == 0))

unfoldable pub flat : List (List ℕ) → List ℕ
flat [] = []
flat (c ∷ cs) = c ++ flat cs

-- The non-empty lines of `data.split(b"\n")`; `in_line` tells whether the current line has a byte.
unfoldable pub count_lines : Bool → List ℕ → ℕ
count_lines in_line [] = if in_line then 1 else 0
count_lines in_line (b ∷ bs) =
    let rest = count_lines (not (b == line_feed)) bs in
    if b == line_feed && in_line then 1 + rest else rest

unfoldable pub rows_in : List ℕ → ℕ
unfolding count_lines
rows_in bytes = count_lines false bytes - 1

pub record QueryResult : Type 0 where
  pub row_count : ℕ
  pub byte_count : ℕ
  pub page_count : ℕ
  pub content : List ℕ

-- `readable` tells whether the file can be read back.
unfoldable pub measured : Bool → Streamed → Option QueryResult
unfolding flat rows_in
measured readable (streamed chunks pages) = some (record {
  row_count = if readable then rows_in (flat chunks) else 0;
  byte_count = length (flat chunks);
  page_count = pages;
  content = flat chunks;
})
measured readable _ = none

unfoldable pub stream_results : (Option ℕ → ℕ → PageReply) → ℕ → Bool → Option QueryResult
unfolding stream_loop measured
stream_results pages fuel readable = measured readable (stream_loop pages fuel none 0 [])
