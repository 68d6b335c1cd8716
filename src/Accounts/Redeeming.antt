-- ===== src/Accounts/Redeeming.antt =====
-- A token of a password reset is used at most once, whatever the interleaving:
-- backend/app/api/auth_reset.py.
use sf_bulk_loader.Prelude.{
  ℕ, ◌+◌, ◌≤◌, ◌≡◌, refl, inl, inr, true, false, Option, none, some, List, [], ◌∷◌, ◌++◌, map,
  arith, ◌==◌, if◌then◌else◌, Bool-cases, Option-cases, count_by, count_by-append, count_by-cons,
  ==_iff, count_by-le-length,
}
use sf_bulk_loader.Accounts.{Token, Db, change_users}
use sf_bulk_loader.Accounts.Resets.{
  add_reset, is_unused, with_used, kept_before, consume, invalidate, reset, apply_reset,
}
use sf_bulk_loader.Accounts.Races.{
  Confirm, World, written, finish, has_id, Step, asks, reads, writes, moves, Steps, stays, steps,
}

-- The successes for a token, and whether it can still be used, are no more than the tokens there are.
abbrev Accounted : ℕ → World → Type 0
Accounted id w =
    (count_by (λ k. k == id) w.successes + count_by (is_unused id) w.db.resets
      ≤ count_by (has_id id) w.db.resets)
    × (count_by (has_id id) w.db.resets ≤ 1)

-- A token that `consume` meets first: it was unused, and has the identifier.
is_unused-used : (j now : ℕ) (t : Token) → is_unused j (with_used now t) ≡ false
unfolding is_unused with_used
is_unused-used j now t = ground arith

is_unused-same : (id j : ℕ) (t : Token) → is_unused id t ≡ true → is_unused j t ≡ (id == j)
unfolding is_unused
is_unused-same id j t h = ground arith

Consumed : ℕ → ℕ → List Token → List Token → Type 0
Consumed id j ts' ts =
    (count_by (is_unused j) ts' + (if id == j then 1 else 0) ≡ count_by (is_unused j) ts)
    × (count_by (has_id j) ts' ≡ count_by (has_id j) ts)

head-Consumed :
    (id j now : ℕ) (t : Token) (ts : List Token)
    → is_unused id t ≡ true
    → Consumed id j (with_used now t ∷ ts) (t ∷ ts)
unfolding Consumed has_id with_used
head-Consumed id j now t ts e =
    (rw (is_unused-used j now t) (rw (is_unused-same id j t e) (ground arith)), refl)

tail-Consumed :
    (id j : ℕ) (t : Token) (ts' ts : List Token)
    → Consumed id j ts' ts
    → Consumed id j (t ∷ ts') (t ∷ ts)
unfolding Consumed
tail-Consumed id j t ts' ts (a, b) = (
  omega (arith, a, count_by-cons (is_unused j) t ts, count_by-cons (is_unused j) t ts'),
  omega (arith, b, count_by-cons (has_id j) t ts, count_by-cons (has_id j) t ts'),
)

consume-Consumed :
    (id j now : ℕ) (ts ts' : List Token) → consume id now ts ≡ some ts' → Consumed id j ts' ts
unfolding consume kept_before
consume-Consumed id j now [] ts' h = ground arith
consume-Consumed id j now (t ∷ ts) ts' h = elim (Bool-cases (is_unused id t)) [
  | inl e ↦
      let found : some (with_used now t ∷ ts) ≡ some ts' = rw e at h in
      let same : with_used now t ∷ ts ≡ ts' = cc in rw (← same) (head-Consumed id j now t ts e)
  | inr e ↦ elim (Option-cases (consume id now ts)) [
    | inl n ↦ let failed : none ≡ some ts' = rw (n, kept_before) at (rw e at h) in ground arith
    | inr (us, n) ↦
        let found : some (t ∷ us) ≡ some ts' = rw (n, kept_before) at (rw e at h) in
        let same : t ∷ us ≡ ts' = cc in
        rw (← same) (tail-Consumed id j t us ts (consume-Consumed id j now ts us n))
  ]
]

invalidate-id : (user now : ℕ) (t : Token) → (invalidate user now t).id ≡ t.id
unfolding invalidate with_used
invalidate-id user now t = ground arith

invalidate-unused :
    (user now id : ℕ) (t : Token)
    → (if is_unused id (invalidate user now t) then 1 else 0) ≤ (if is_unused id t then 1 else 0)
unfolding invalidate is_unused with_used
invalidate-unused user now id t = ground arith

count-invalidate :
    (user now id : ℕ) (ts : List Token)
    → (count_by (is_unused id) (map (invalidate user now) ts) ≤ count_by (is_unused id) ts)
      × (count_by (has_id id) (map (invalidate user now) ts) ≡ count_by (has_id id) ts)
unfolding has_id
count-invalidate user now id [] = (ground arith, refl)
count-invalidate user now id (t ∷ ts) =
    let rest = count-invalidate user now id ts in
    (
      omega (
        arith,
        rest.0,
        count_by-cons (is_unused id) t ts,
        count_by-cons (is_unused id) (invalidate user now t) (map (invalidate user now) ts),
        invalidate-unused user now id t,
      ),
      rw (invalidate-id user now t) (rw rest.1 refl),
    )

Accounted-apply :
    (id : ℕ) (c : Confirm) (rest : List Confirm) (w : World) (r : Option Db)
    → apply_reset c.hash c.now (c.token, c.user) w.db ≡ r
    → Accounted id w
    → Accounted id (written c rest r w)
unfolding written apply_reset reset change_users Consumed
Accounted-apply id c rest w none h a = a
Accounted-apply id c rest w (some db) h a =
    elim (Option-cases (consume c.token.id c.now w.db.resets)) [
      | inl n ↦ let failed : none ≡ some db = rw (n, apply_reset) at h in ground arith
      | inr (ts, n) ↦
          let found : some (reset c.hash c.now c.user ts w.db) ≡ some db =
            rw (n, apply_reset) at h in
          let same : reset c.hash c.now c.user ts w.db ≡ db = cc in
          let used = consume-Consumed c.token.id id c.now w.db.resets ts n in
          let swept = count-invalidate c.user.id c.now id ts in
          rw (← same) (
            omega (
              arith,
              a.0,
              used.0,
              used.1,
              swept.0,
              swept.1,
              count_by-cons (λ k. k == id) c.token.id w.successes,
            ),
            omega (arith, a.1, used.1, swept.1),
          )
    ]

is_unused-le : (id : ℕ) (ts : List Token) → count_by (is_unused id) ts ≤ count_by (has_id id) ts
unfolding is_unused has_id
is_unused-le id [] = ground arith
is_unused-le id (t ∷ ts) = let rest = is_unused-le id ts in ground arith

-- A token with a new identifier.
added-Accounted :
    (id : ℕ) (t : Token) (ts : List Token) (n : ℕ)
    → count_by (has_id t.id) ts ≡ 0
    → n + count_by (is_unused id) ts ≤ count_by (has_id id) ts
    → count_by (has_id id) ts ≤ 1
    → (n + count_by (is_unused id) (ts ++ t ∷ []) ≤ count_by (has_id id) (ts ++ t ∷ []))
      × (count_by (has_id id) (ts ++ t ∷ []) ≤ 1)
unfolding has_id
added-Accounted id t ts n new a b =
    let unused = count_by-append (is_unused id) ts (t ∷ []) in
    let ids = count_by-append (has_id id) ts (t ∷ []) in
    let new' = is_unused-le id (t ∷ []) in
    elim (Bool-cases (t.id == id)) [
      | inl e ↦
          let same : t.id ≡ id = (==_iff t.id id).0 e in
          let none_yet : count_by (has_id id) ts ≡ 0 = rw same at new in
          let one : count_by (has_id id) (t ∷ []) ≤ 1 = count_by-le-length (has_id id) (t ∷ []) in
          (omega (arith, a, b, unused, ids, new'), omega (arith, none_yet, ids, one))
      | inr e ↦
          let other : count_by (has_id id) (t ∷ []) ≡ 0 = rw (e, has_id) refl in
          (omega (arith, a, b, unused, ids, new'), omega (arith, b, ids, other))
    ]

Step-Accounted : (id : ℕ) {w w' : World} → Step w w' → Accounted id w → Accounted id w'
unfolding add_reset finish
Step-Accounted id (asks w token_id token_hash ttl now u new) a =
    added-Accounted id _ w.db.resets (count_by (λ k. k == id) w.successes) new a.0 a.1
Step-Accounted id (reads w hash_password now token_hash password t u h) a = a
Step-Accounted id (writes w c before after h) a = Accounted-apply id c (before ++ after) w _ refl a
Step-Accounted id (moves w us) a = a

Steps-Accounted : (id : ℕ) {w w' : World} → Steps w w' → Accounted id w → Accounted id w'
Steps-Accounted id (stays w) a = a
Steps-Accounted id (steps s t) a = Steps-Accounted id t (Step-Accounted id s a)

-- However confirmations of password resets interleave with each other, with requests for new tokens
-- and with changes of the users: where identifiers of tokens are unique and no success has been
-- answered, at most one confirmation of each token succeeds.
pub Steps-once :
    {w w' : World}
    → Steps w w'
    → (id : ℕ) → count_by (has_id id) w.db.resets ≤ 1
    → w.successes ≡ []
    → count_by (λ k. k == id) w'.successes ≤ 1
Steps-once {w} {w'} t id unique new =
    let a : Accounted id w' =
      Steps-Accounted id t (rw new (omega (arith, is_unused-le id w.db.resets)), unique) in
    omega (arith, a.0, a.1)
