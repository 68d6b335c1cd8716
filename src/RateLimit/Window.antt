-- ===== src/RateLimit/Window.antt =====
-- The limiter against a specification that keeps every accepted hit for ever and counts those of the
-- window at each request.
use Prim.Native.String.{String}
use text.Mathlib.TextEquality.{eq_iff}
use text.Mathlib.TextPositions.{eq_refl}
use sf_bulk_loader.Prelude.{
  ℕ, ◌+◌, ◌≤◌, ◌≡◌, ◌≢◌, refl, ap₂, ◌∙◌, Bool, true, false, List, [], ◌∷◌, ◌++◌, arith, length, ltb,
  leb, if◌then◌else◌, count_by, count_by-append, Bool-cases, inl, inr,
}
use sf_bulk_loader.RateLimit.{Store, reap, put, check_and_record}

-- Whether a hit at `t` lies in the window that ends at `now`.
abbrev pub in_window : ℕ → ℕ → ℕ → Bool
in_window window now t = leb now (t + window)

-- The specification: `hist` holds every hit that was ever accepted.
unfoldable pub spec_allows : ℕ → ℕ → ℕ → List ℕ → Bool
spec_allows limit window now hist = ltb (count_by (in_window window now) hist) limit

unfoldable pub spec_run : ℕ → ℕ → List ℕ → List ℕ → List Bool
spec_run limit window hist [] = []
spec_run limit window hist (now ∷ rest) =
    let ok = spec_allows limit window now hist in
    ok ∷ spec_run limit window (if ok then hist ++ now ∷ [] else hist) rest

-- Requests for one key, one after the other, at the given times.
unfoldable pub run : String → ℕ → ℕ → Store → List ℕ → List Bool
run key limit window store [] = []
run key limit window store (now ∷ rest) =
    let (ok, store') = check_and_record now key limit window store in
    ok ∷ run key limit window store' rest

-- Times do not run backwards: each is at least the one before, the first at least `t`.
abbrev pub From : ℕ → List ℕ → Type 0
From t [] = Unit
From t (x ∷ xs) = (t ≤ x) × From x xs

abbrev Ascending : List ℕ → Type 0
Ascending [] = Unit
Ascending (t ∷ ts) = From t ts

abbrev AtMost : ℕ → List ℕ → Type 0
AtMost n [] = Unit
AtMost n (t ∷ ts) = (t ≤ n) × AtMost n ts

-- The deque stands for the history: from `now` on it has as many hits of each window.
record Tracks (window now : ℕ) (hist ts : List ℕ) : Type 0 where
  same : (q : ℕ) → now ≤ q → count_by (in_window window q) ts ≡ count_by (in_window window q) hist
  sorted : Ascending ts
  past : AtMost now ts

Ascending-tail : (t : ℕ) (ts : List ℕ) → From t ts → Ascending ts
Ascending-tail t [] f = tt
Ascending-tail t (u ∷ us) f = f.1

AtMost-le : (m n : ℕ) (ts : List ℕ) → m ≤ n → AtMost m ts → AtMost n ts
AtMost-le m n [] h a = tt
AtMost-le m n (t ∷ ts) h a = (omega arith, AtMost-le m n ts h a.1)

From-snoc : (t n : ℕ) (ts : List ℕ) → t ≤ n → From t ts → AtMost n ts → From t (ts ++ n ∷ [])
From-snoc t n [] h f a = (h, tt)
From-snoc t n (u ∷ us) h f a = (f.0, From-snoc u n us a.0 f.1 a.1)

Ascending-snoc : (n : ℕ) (ts : List ℕ) → Ascending ts → AtMost n ts → Ascending (ts ++ n ∷ [])
Ascending-snoc n [] s a = tt
Ascending-snoc n (u ∷ us) s a = From-snoc u n us a.0 s a.1

AtMost-snoc : (n : ℕ) (ts : List ℕ) → AtMost n ts → AtMost n (ts ++ n ∷ [])
AtMost-snoc n [] a = (omega arith, tt)
AtMost-snoc n (u ∷ us) a = (a.0, AtMost-snoc n us a.1)

Ascending-reap : (now window : ℕ) (ts : List ℕ) → Ascending ts → Ascending (reap now window ts)
unfolding reap
Ascending-reap now window [] a = tt
Ascending-reap now window (t ∷ ts) a = elim (Bool-cases (ltb (t + window) now)) [
  | inl e ↦ rw e (Ascending-reap now window ts (Ascending-tail t ts a))
  | inr e ↦ rw e a
]

AtMost-reap : (n now window : ℕ) (ts : List ℕ) → AtMost n ts → AtMost n (reap now window ts)
unfolding reap
AtMost-reap n now window [] a = tt
AtMost-reap n now window (t ∷ ts) a = elim (Bool-cases (ltb (t + window) now)) [
  | inl e ↦ rw e (AtMost-reap n now window ts a.1)
  | inr e ↦ rw e a
]

-- What is reaped at `now` is in no window that ends at `now` or later.
count-reap :
    (now window q : ℕ) (ts : List ℕ)
    → now ≤ q
    → count_by (in_window window q) (reap now window ts) ≡ count_by (in_window window q) ts
unfolding reap
count-reap now window q [] h = refl
count-reap now window q (t ∷ ts) h = ground (arith, count-reap now window q ts h)

count-From :
    (now window t : ℕ) (ts : List ℕ)
    → now ≤ t + window
    → From t ts
    → count_by (in_window window now) ts ≡ length ts
count-From now window t [] h f = refl
count-From now window t (u ∷ us) h f = ground (arith, count-From now window u us (omega arith) f.1)

-- What is left after reaping is all in the window.
count-reap_all :
    (now window : ℕ) (ts : List ℕ)
    → Ascending ts
    → count_by (in_window window now) (reap now window ts) ≡ length (reap now window ts)
unfolding reap
count-reap_all now window [] a = refl
count-reap_all now window (t ∷ ts) a = elim (Bool-cases (ltb (t + window) now)) [
  | inl e ↦ rw e (count-reap_all now window ts (Ascending-tail t ts a))
  | inr e ↦ rw e (ground (arith, count-From now window t ts (ground arith) a))
]

Tracks-reap :
    (window now now' : ℕ) (hist ts : List ℕ)
    → now ≤ now'
    → Tracks window now hist ts
    → Tracks window now' hist (reap now' window ts)
Tracks-reap window now now' hist ts h t = record {
  same = λ q g. count-reap now' window q ts g ∙ t.same q (omega arith);
  sorted = Ascending-reap now' window ts t.sorted;
  past = AtMost-reap now' now' window ts (AtMost-le now now' ts h t.past);
}

Tracks-snoc :
    (window now : ℕ) (hist ts : List ℕ)
    → Tracks window now hist ts
    → Tracks window now (hist ++ now ∷ []) (ts ++ now ∷ [])
Tracks-snoc window now hist ts t = record {
  same = λ q g. cc (
    count_by-append (in_window window q) hist (now ∷ []),
    count_by-append (in_window window q) ts (now ∷ []),
    t.same q g,
  );
  sorted = Ascending-snoc now ts t.sorted t.past;
  past = AtMost-snoc now ts t.past;
}

-- The length test of the code is the count of the specification.
test-eq-spec :
    (limit window now : ℕ) (hist ts : List ℕ)
    → Tracks window now hist (reap now window ts)
    → Ascending ts
    → leb limit (length (reap now window ts))
      ≡ (if spec_allows limit window now hist then false else true)
unfolding spec_allows
test-eq-spec limit window now hist ts t a =
    ground (arith, count-reap_all now window ts a, t.same now (omega arith))

-- One call decides as the specification, and leaves the key's deque reaped, with the hit if accepted.
check_and_record_step :
    (limit window now : ℕ) (key : String) (hist : List ℕ) (store : Store)
    → Tracks window now hist (reap now window (store key))
    → Ascending (store key)
    → ((check_and_record now key limit window store).0 ≡ spec_allows limit window now hist)
      × ((check_and_record now key limit window store).1 key ≡ (
          if spec_allows limit window now hist
          then reap now window (store key) ++ now ∷ []
          else reap now window (store key)))
unfolding check_and_record put
check_and_record_step limit window now key hist store t a =
    let test = test-eq-spec limit window now hist (store key) t a in
    elim (Bool-cases (spec_allows limit window now hist)) [
      | inl ok ↦ rw (test, ok, eq_refl key) (refl, refl)
      | inr full ↦ rw (test, full, eq_refl key) (refl, refl)
    ]

Tracks-next :
    (limit window now : ℕ) (key : String) (hist : List ℕ) (store : Store) (ok : Bool)
    → Tracks window now hist (reap now window (store key))
    → (check_and_record now key limit window store).1 key
      ≡ (if ok then reap now window (store key) ++ now ∷ [] else reap now window (store key))
    → Tracks window now
        (if ok then hist ++ now ∷ [] else hist)
        ((check_and_record now key limit window store).1 key)
Tracks-next limit window now key hist store true t e =
    rw e (Tracks-snoc window now hist (reap now window (store key)) t)
Tracks-next limit window now key hist store false t e = rw e t

run-Tracks :
    (key : String) (limit window now : ℕ) (hist : List ℕ) (store : Store) (times : List ℕ)
    → Tracks window now hist (store key)
    → From now times
    → run key limit window store times ≡ spec_run limit window hist times
unfolding run spec_run
run-Tracks key limit window now hist store [] t f = refl
run-Tracks key limit window now hist store (n ∷ rest) t f =
    let fresh = Tracks-reap window now n hist (store key) f.0 t in
    let (decides, leaves) = check_and_record_step limit window n key hist store fresh t.sorted in
    let ok = spec_allows limit window n hist in
    let next = Tracks-next limit window n key hist store ok fresh leaves in
    ap₂ (λ b l. b ∷ l) decides
      (run-Tracks key limit window n (if ok then hist ++ n ∷ [] else hist)
        (check_and_record n key limit window store).1 rest next f.1)

-- Requests for one key at times that never run backwards, from an empty deque: the limiter accepts
-- exactly those requests for which fewer than `limit` of all the hits that it has accepted so far
-- lie in the window that ends at the request.
pub run-eq-spec_run :
    (key : String) (limit window : ℕ) (store : Store) (times : List ℕ)
    → store key ≡ []
    → From 0 times
    → run key limit window store times ≡ spec_run limit window [] times
run-eq-spec_run key limit window store times e f =
    run-Tracks key limit window 0 [] store times
      (rw e (record { same = λ q g. refl; sorted = tt; past = tt })) f

-- A call for one key leaves the deque of every other key as it was.
pub check_and_record-other_key :
    (now limit window : ℕ) (key other : String) (store : Store)
    → key ≢ other
    → (check_and_record now key limit window store).1 other ≡ store other
unfolding check_and_record put
check_and_record-other_key now limit window key other store d = ground (arith, eq_iff key other)
