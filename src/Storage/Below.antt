-- ===== src/Storage/Below.antt =====
-- A path that is accepted stays below the root: backend/app/services/input_storage.py.
use sf_bulk_loader.Prelude.{
  ℕ, ◌≡◌, refl, sym, ap, ◌∙◌, inl, inr, true, false, ◌||◌, some, List, [], ◌∷◌, ◌++◌, arith, ◌==◌,
  Bool-cases, All, any, ==_iff, All-selected, append-nil, drop-length, or-false, All-map,
}
use sf_bulk_loader.Storage.{Str, same_text, is_among}
use sf_bulk_loader.Storage.Paths.{
  slash, dot, dot_dot, put_first, split, is_part, pure_parts, join, pure_text, is_absolute,
  normalise_stripped, normalise_relative_path, has_prefix, relative_key, join_s3_key, strip,
  forward,
}

-- No character is a slash.
abbrev Free : Str → Type 0
Free w = any (λ c. c == slash) w ≡ false

put_first-Free :
    (c : ℕ) (ws : List Str) → (c == slash) ≡ false → All Free ws → All Free (put_first c ws)
unfolding put_first
put_first-Free c [] h a = (rw h refl, tt)
put_first-Free c (w ∷ ws) h a = (rw h a.0, a.1)

split-Free : (s : Str) → All Free (split s)
unfolding split
split-Free [] = (refl, tt)
split-Free (c ∷ cs) = elim (Bool-cases (c == slash)) [
  | inl e ↦ rw e (refl, split-Free cs)
  | inr e ↦ rw e (put_first-Free c (split cs) e (split-Free cs))
]

split-word : (w : Str) → Free w → split w ≡ w ∷ []
unfolding split put_first
split-word [] h = refl
split-word (c ∷ cs) h =
    let (head, tail) = or-false (c == slash) _ h in rw head (rw (split-word cs tail) refl)

split-slash : (w s : Str) → Free w → split (w ++ slash ∷ s) ≡ w ∷ split s
unfolding split put_first
split-slash [] s h = refl
split-slash (c ∷ cs) s h =
    let (head, tail) = or-false (c == slash) _ h in rw head (rw (split-slash cs s tail) refl)

split-join : (w : Str) (ws : List Str) → All Free (w ∷ ws) → split (join (w ∷ ws)) ≡ w ∷ ws
unfolding join
split-join w [] a = split-word w a.0
split-join w (v ∷ ws) a = split-slash w (join (v ∷ ws)) a.0 ∙ ap (λ t. w ∷ t) (split-join v ws a.1)

-- Nothing of the path is `..`, and it does not start at the root of the file system.
pub IsBelow : Str → Type 0
IsBelow q = (is_among dot_dot (split q) ≡ false) × (is_absolute q ≡ false)

join-relative :
    (w : Str) (ws : List Str) → Free w → is_part w ≡ true → is_absolute (join (w ∷ ws)) ≡ false
unfolding join is_absolute is_part
join-relative [] ws h k = ground arith
join-relative (c ∷ cs) [] h k = (or-false (c == slash) _ h).0
join-relative (c ∷ cs) (v ∷ ws) h k = (or-false (c == slash) _ h).0

text-IsBelow :
    (parts : List Str)
    → All Free parts
    → All (λ w. is_part w ≡ true) parts
    → is_among dot_dot parts ≡ false
    → IsBelow (pure_text parts)
unfolding IsBelow pure_text is_absolute split put_first is_among same_text
text-IsBelow [] a p h = (refl, refl)
text-IsBelow (w ∷ ws) a p h = (rw (split-join w ws a) h, join-relative w ws a.0 p.0)

parts-lem :
    (path : Str) → All Free (pure_parts path) × All (λ w. is_part w ≡ true) (pure_parts path)
unfolding pure_parts
parts-lem path =
    let both = All-selected Free is_part (split path) (split-Free path) in
    (
      All-map (λ w. Free w × (is_part w ≡ true)) Free (λ w h. h.0) (pure_parts path) both,
      All-map (λ w. Free w × (is_part w ≡ true)) (λ w. is_part w ≡ true) (λ w h. h.1)
          (pure_parts path) both,
    )

stripped-IsBelow : (path q : Str) → normalise_stripped path ≡ some q → IsBelow q
unfolding normalise_stripped IsBelow split put_first is_among same_text is_absolute
stripped-IsBelow path q h = elim (Bool-cases (same_text path [] || same_text path dot)) [
  | inl e ↦
      let found : some [] ≡ some q = rw e at h in let same : [] ≡ q = cc in rw (← same) (refl, refl)
  | inr e ↦ elim (Bool-cases (is_absolute path || is_among dot_dot (pure_parts path))) [
    | inl r ↦ ground arith
    | inr r ↦
        let found : some (pure_text (pure_parts path)) ≡ some q = rw r at (rw e at h) in
        let same : pure_text (pure_parts path) ≡ q = cc in
        let (free, parts) = parts-lem path in
        rw (← same) (text-IsBelow (pure_parts path) free parts (or-false (is_absolute path) _ r).1)
  ]
]

-- A path that is accepted, whatever it was written like, has no part `..`, and is not absolute.
pub normalise_relative_path-IsBelow :
    (path q : Str) → normalise_relative_path path ≡ some q → IsBelow q
unfolding normalise_relative_path
normalise_relative_path-IsBelow path q h = stripped-IsBelow (strip (forward path)) q h

has_prefix-append : (xs ys : Str) → has_prefix xs (xs ++ ys) ≡ true
unfolding has_prefix
has_prefix-append [] ys = refl
has_prefix-append (x ∷ xs) ys = rw ((==_iff x x).1 refl) (has_prefix-append xs ys)

join_s3_key-append : (root rel : Str) → join_s3_key root rel ≡ root ++ rel
unfolding join_s3_key
join_s3_key-append root [] = sym (append-nil root)
join_s3_key-append root (c ∷ cs) = refl

-- The key of an object in the bucket and its path below the root are two ways to name it.
pub relative_key-join_s3_key : (root rel : Str) → relative_key (join_s3_key root rel) root ≡ rel
unfolding relative_key
relative_key-join_s3_key root rel =
    rw (join_s3_key-append root rel) (rw (has_prefix-append root rel) (drop-length root rel))
