-- ===== src/Storage/Pages.antt =====
-- What a page of a preview holds: backend/app/services/input_storage.py.
use sf_bulk_loader.Prelude.{
  ℕ, zero, suc, ◌+◌, ◌-◌, ◌≤◌, ◌<◌, min, ◌≡◌, refl, sym, ap, ◌∙◌, inl, inr, Bool, some, List, [],
  ◌∷◌, ◌++◌, arith, ltb, leb, ◌==◌, Bool-cases, length, select, drop, take, zero-add, add-one,
  append-nil, drop_all, length-append, ==_iff, append_assoc, take_all, ap₂, leb→le, ltb→lt,
}
use sf_bulk_loader.Storage.{Str}
use sf_bulk_loader.Storage.Previews.{
  Filter, InputPreview, validate_from, validate_filters, row_matches, filtered_loop,
  filtered_preview, skip_rows, buffer_loop, plain_preview, active_filters, preview_with,
  preview_file,
}

minus_zero : (n : ℕ) → n - 0 ≡ n
minus_zero n = omega arith

module _ {ℓ} {Row : Type ℓ} where
  skip_rows-drop : (n : ℕ) (rows : List Row) → skip_rows n rows ≡ drop n rows
  unfolding skip_rows
  skip_rows-drop zero rows = refl
  skip_rows-drop (suc n) [] = refl
  skip_rows-drop (suc n) (row ∷ rows) = skip_rows-drop n rows

  -- A row that matches, seen from the rows after it: it opens the page or its rest, ...
  slice-taken :
      (offset limit n : ℕ) (row : Row) (rows page : List Row)
      → offset ≤ n
      → length page < limit
      → (page ++ row ∷ [])
          ++ take (limit - length (page ++ row ∷ [])) (drop (offset - (n + 1)) rows)
        ≡ page ++ take (limit - length page) (drop (offset - n) (row ∷ rows))
  slice-taken offset limit n row rows page o q =
      let longer = length-append page (row ∷ []) in
      let before : offset - n ≡ 0 = omega (arith, o) in
      let before' : offset - (n + 1) ≡ 0 = omega (arith, o) in
      let room : limit - length page ≡ suc (limit - length (page ++ row ∷ [])) =
        omega (arith, q, longer) in
      rw before (rw before' (rw room (append_assoc page (row ∷ []) _)))

  -- ... or the page is full, ...
  slice-full :
      (offset limit n : ℕ) (row : Row) (rows page : List Row)
      → limit ≤ length page
      → page ++ take (limit - length page) (drop (offset - (n + 1)) rows)
        ≡ page ++ take (limit - length page) (drop (offset - n) (row ∷ rows))
  slice-full offset limit n row rows page q =
      let room : limit - length page ≡ 0 = omega (arith, q) in rw room refl

  -- ... or it is before the page.
  slice-skipped :
      (offset limit n : ℕ) (row : Row) (rows page : List Row)
      → n < offset
      → page ++ take (limit - length page) (drop (offset - (n + 1)) rows)
        ≡ page ++ take (limit - length page) (drop (offset - n) (row ∷ rows))
  slice-skipped offset limit n row rows page o =
      let before : offset - n ≡ suc (offset - (n + 1)) = omega (arith, o) in rw before refl

  buffer_loop-take :
      (limit : ℕ) (rows buffer : List Row)
      → length buffer ≤ limit
      → buffer_loop limit rows buffer ≡ buffer ++ take (limit + 1 - length buffer) rows
  unfolding buffer_loop
  buffer_loop-take limit [] buffer h =
      let room : limit + 1 - length buffer ≡ suc (limit - length buffer) = omega (arith, h) in
      rw room (sym (append-nil buffer))
  buffer_loop-take limit (row ∷ rows) buffer h =
      let longer = length-append buffer (row ∷ []) in
      elim (Bool-cases (length (buffer ++ row ∷ []) == limit + 1)) [
        | inl e ↦
            let full = (==_iff (length (buffer ++ row ∷ [])) (limit + 1)).0 e in
            let room : limit + 1 - length buffer ≡ 1 = omega (arith, full, longer) in
            rw e (rw room refl)
        | inr e ↦
            let short : length (buffer ++ row ∷ []) ≤ limit = ground (arith, longer) in
            let room : limit + 1 - length buffer ≡ suc (limit + 1 - length (buffer ++ row ∷ [])) =
              omega (arith, short, longer, h) in
            rw e (
              buffer_loop-take limit rows (buffer ++ row ∷ []) short
              ∙ rw room (append_assoc buffer (row ∷ []) _))
      ]

  filtered_loop-slice :
      (matches : Row → Bool) (offset limit : ℕ) (rows : List Row) (n : ℕ) (page : List Row)
      → filtered_loop matches offset limit rows n page ≡ (
        n + length (select matches rows),
        page ++ take (limit - length page) (drop (offset - n) (select matches rows)),
      )
  unfolding filtered_loop
  filtered_loop-slice matches offset limit [] n page =
      let dropped = drop_all {A = Row} (offset - n) [] (omega arith) in
      let taken = take_all {A = Row} (limit - length page) [] (omega arith) in
      ap₂ (λ k p. (k, p)) (omega arith) (rw dropped (rw taken (sym (append-nil page))))
  filtered_loop-slice matches offset limit (row ∷ rows) n page =
      let rest = filtered_loop-slice matches offset limit rows in
      let chosen = select matches rows in
      let counted : n + 1 + length chosen ≡ n + suc (length chosen) = omega arith in
      elim (Bool-cases (matches row)) [
        | inr e ↦ rw e (rest n page)
        | inl e ↦ elim (Bool-cases (leb offset n)) [
          | inr o ↦
              let early : n < offset = ground arith in
              rw e (
                rw o (
                  rest (n + 1) page
                  ∙ ap₂ (λ k p. (k, p)) counted
                      (slice-skipped offset limit n row chosen page early)))
          | inl o ↦ elim (Bool-cases (ltb (length page) limit)) [
            | inl q ↦ rw e (
                rw o (
                  rw q (
                    rest (n + 1) (page ++ row ∷ [])
                    ∙ ap₂ (λ k p. (k, p)) counted
                        (slice-taken offset limit n row chosen page (leb→le offset n o)
                          (ltb→lt (length page) limit q)))))
            | inr q ↦
                let full : limit ≤ length page = ground arith in
                rw e (
                  rw o (
                    rw q (
                      rest (n + 1) page
                      ∙ ap₂ (λ k p. (k, p)) counted
                          (slice-full offset limit n row chosen page full))))
          ]
        ]
      ]

  length-take : (n : ℕ) (xs : List Row) → length (take n xs) ≡ min n (length xs)
  length-take zero xs = omega arith
  length-take (suc n) [] = omega arith
  length-take (suc n) (x ∷ xs) = omega (arith, length-take n xs)

  length-drop : (n : ℕ) (xs : List Row) → length (drop n xs) ≡ length xs - n
  length-drop zero xs = omega arith
  length-drop (suc n) [] = omega arith
  length-drop (suc n) (x ∷ xs) = omega (arith, length-drop n xs)

  take-take : (n : ℕ) (xs : List Row) → take n (take (n + 1) xs) ≡ take n xs
  take-take n xs = rw (add-one n) (go n xs)
    where
      go : (n : ℕ) (xs : List Row) → take n (take (suc n) xs) ≡ take n xs
      go zero [] = refl
      go zero (x ∷ xs) = refl
      go (suc n) [] = refl
      go (suc n) (x ∷ xs) = ap (λ t. x ∷ t) (go n xs)

  -- The page of the rows `xs`, and whether there are more.
  abbrev pub IsPage : ℕ → ℕ → List Row → InputPreview Row → Type ℓ
  IsPage offset limit xs p =
      (p.rows ≡ take limit (drop offset xs)) × (p.has_next ≡ ltb (offset + limit) (length xs))

  more_left :
      (offset limit : ℕ) (xs : List Row)
      → ltb limit (length (take (limit + 1) (drop offset xs))) ≡ ltb (offset + limit) (length xs)
  more_left offset limit xs =
      let taken = length-take (limit + 1) (drop offset xs) in
      let dropped = length-drop offset xs in rw taken (rw dropped (ground arith))

  plain-IsPage :
      (offset limit : ℕ) (xs : List Row) → IsPage offset limit xs (plain_preview offset limit xs)
  unfolding plain_preview
  plain-IsPage offset limit xs =
      let looped : buffer_loop limit (skip_rows offset xs) [] ≡ take (limit + 1) (drop offset xs) =
        rw (skip_rows-drop offset xs) (
          rw (minus_zero (limit + 1)) at
            (buffer_loop-take limit (drop offset xs) [] (omega arith))) in
      (
        ap (take limit) looped ∙ take-take limit (drop offset xs),
        ap (λ t. ltb limit (length t)) looped ∙ more_left offset limit xs,
      )

  filtered-IsPage :
      (matches : Row → Bool) (offset limit : ℕ) (xs : List Row)
      → IsPage offset limit (select matches xs) (filtered_preview matches offset limit xs)
  unfolding filtered_preview
  filtered-IsPage matches offset limit xs =
      let looped = filtered_loop-slice matches offset limit xs 0 [] in
      (
        ap (λ t. t.1) looped ∙ (rw (minus_zero limit) (rw (minus_zero offset) refl)),
        ap (λ t. ltb (offset + limit) t.0) looped ∙ rw (zero-add (length (select matches xs))) refl,
      )

select-unfiltered :
    (lower : Str → Str) (rows : List (List (Str × Str))) → select (row_matches lower []) rows ≡ rows
unfolding row_matches
select-unfiltered lower [] = refl
select-unfiltered lower (row ∷ rows) = ap (λ t. row ∷ t) (select-unfiltered lower rows)

with-IsPage :
    (lower : Str → Str) (limit offset : ℕ) (filters : List Filter) (header : List Str)
    (rows : List (List (Str × Str))) (pairs : List (Str × Str))
    → validate_filters header filters ≡ some pairs
    → (p : InputPreview (List (Str × Str))) × (preview_with lower limit offset filters header rows
        ≡ some p)
      × IsPage offset limit (select (row_matches lower pairs) rows) p
unfolding preview_with validate_filters validate_from
with-IsPage lower limit offset [] header rows pairs h =
    let none_given : pairs ≡ [] = (let none_left : some [] ≡ some pairs = h in cc) in
    (
      plain_preview offset limit rows,
      refl,
      rw none_given (rw (select-unfiltered lower rows) (plain-IsPage offset limit rows)),
    )
with-IsPage lower limit offset (f ∷ fs) header rows pairs h = (
  filtered_preview (row_matches lower pairs) offset limit rows,
  rw (h, preview_with) refl,
  filtered-IsPage (row_matches lower pairs) offset limit rows,
)

-- Filters that are accepted lead to a preview, and its page is the `limit` rows from `offset` on of those
-- that match all of the filters; it says there are more exactly when a row that matches is left. Where
-- no filter is active, all rows match, though the code does not read them to the end.
pub preview_file-IsPage :
    (lower : Str → Str) (limit offset : ℕ) (filters : List Filter) (header : List Str)
    (rows : List (List (Str × Str))) (pairs : List (Str × Str))
    → validate_filters header (active_filters filters) ≡ some pairs
    → (p : InputPreview (List (Str × Str))) × (preview_file lower limit offset filters header rows
        ≡ some p)
      × IsPage offset limit (select (row_matches lower pairs) rows) p
unfolding preview_file
preview_file-IsPage lower limit offset filters header rows pairs h =
    with-IsPage lower limit offset (active_filters filters) header rows pairs h
