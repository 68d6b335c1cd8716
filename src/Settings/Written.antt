-- ===== src/Settings/Written.antt =====
-- Reads after a write: backend/app/services/settings/service.py.
use sf_bulk_loader.Prelude.{
  ℕ, ◌≡◌, refl, ap, ◌∙◌, inl, inr, Bool, true, false, Option, none, some, List, [], ◌∷◌, arith,
  Bool-cases, Option-cases, sym, ◌==◌, All, ltb, ◌+◌, ==_iff, not,
}
use sf_bulk_loader.Storage.{Str, same_text, is_among}
use sf_bulk_loader.Settings.{
  SettingType, int, float, bool, str, SettingMeta, Value, int_value, float_value, bool_value,
  str_value, Libraries, truthy, show_bool, given_number, coerce, text_of_value, Service, find_meta,
  raw_text, stored_text, read_value, keep_value, get_known, get, new_row, set_known, set,
  CacheEntry, coerce_read, find_entry, cache_ttl_seconds,
}
use sf_bulk_loader.Settings.Cache.{
  gets, sets, find_row-put_self, find_entry-drop_self, Op, answer, find_meta-key,
  find_row-put_other, find_entry-drop_other,
}

-- What the libraries promise: a number is read back from its text, `true` and `false` are the lower case
-- of `True` and `False`, and a secret is decrypted to what was encrypted.
pub record Documented (l : Libraries) : Type 0 where
  pub ints : (n : ℕ) → l.parse_int (l.show_int n) ≡ some n
  pub floats : (n : ℕ) → l.parse_float (l.show_float n) ≡ some n
  pub lower_true : l.lower (show_bool true) ≡ 116 ∷ 114 ∷ 117 ∷ 101 ∷ []
  pub lower_false : l.lower (show_bool false) ≡ 102 ∷ 97 ∷ 108 ∷ 115 ∷ 101 ∷ []
  pub secrets : (t : Str) → l.decrypt_secret (l.encrypt_secret t) ≡ some t

number-again :
    (wrap : ℕ → Value) (o : Option ℕ) (v : Value)
    → given_number wrap o ≡ some v
    → (n : ℕ) × (v ≡ wrap n)
unfolding given_number
number-again wrap none v h = ground arith
number-again wrap (some n) v h = (n, (let found : some (wrap n) ≡ some v = h in cc))

bool-again :
    (l : Libraries) (b : Bool) → Documented l → coerce l bool (show_bool b) ≡ some (bool_value b)
unfolding coerce is_among same_text
bool-again l true d = rw d.lower_true refl
bool-again l false d = rw d.lower_false refl

-- A value that came from a text is read back from its own.
coerce-again :
    (l : Libraries) (type_str : SettingType) (t : Str) (v : Value)
    → Documented l
    → coerce l type_str t ≡ some v
    → coerce l type_str (text_of_value l v) ≡ some v
unfolding coerce text_of_value given_number
coerce-again l int t v d h =
    let (n, same) = number-again int_value (l.parse_int t) v h in rw same (rw (d.ints n) refl)
coerce-again l float t v d h =
    let (n, same) = number-again float_value (l.parse_float t) v h in rw same (rw (d.floats n) refl)
coerce-again l bool t v d h =
    let found : some (bool_value (is_among (l.lower t) truthy)) ≡ some v = h in
    let same : v ≡ bool_value (is_among (l.lower t) truthy) = cc in
    rw same (bool-again l (is_among (l.lower t) truthy) d)
coerce-again l str t v d h =
    let found : some (str_value t) ≡ some v = h in let same : v ≡ str_value t = cc in rw same refl

new_row-stored :
    (l : Libraries) (m : SettingMeta) (v : Value)
    → Documented l
    → stored_text l m (some (new_row l m v)) ≡ some (text_of_value l v)
unfolding stored_text new_row raw_text
new_row-stored l m v d = elim (Bool-cases m.is_secret) [
  | inl e ↦ rw e (d.secrets (text_of_value l v))
  | inr e ↦ rw e refl
]

set_known-read :
    (l : Libraries) (m : SettingMeta) (t : Str) (v : Value) (s : Service)
    → Documented l
    → coerce l m.type_str t ≡ some v
    → read_value l m (set_known l m v s).rows ≡ some v
unfolding read_value set_known new_row coerce_read
set_known-read l m t v s d k =
    ap (λ r. coerce_read l m.type_str (stored_text l m r))
      (find_row-put_self (new_row l m v) s.rows)
    ∙ ap (coerce_read l m.type_str) (new_row-stored l m v d)
    ∙ coerce-again l m.type_str t v d k

-- Requests that leave a setting alone: all reads, and the writes of other settings.
abbrev pub leaves : ℕ → Op → Bool
leaves key (gets k now later) = true
leaves key (sets k text) = not (k == key)

unfoldable pub after : Libraries → List SettingMeta → List Op → Service → Service
unfolding answer
after l registry [] s = s
after l registry (op ∷ ops) s = after l registry ops (answer l registry op s).1

-- A setting has a value: it is read from the row, and cached, if anything is.
Holds : Libraries → SettingMeta → Value → Service → Type 0
Holds l m v s =
    (read_value l m s.rows ≡ some v)
    × ((e : CacheEntry) → find_entry m.key s.cache ≡ some e → e.value ≡ v)

keep-Holds :
    (l : Libraries) (m : SettingMeta) (v : Value) (key later : ℕ) (s : Service) (o : Option Value)
    → Holds l m v s
    → ((key == m.key) ≡ true → o ≡ some v)
    → Holds l m v (keep_value key later s o).1
unfolding keep_value Holds find_entry
keep-Holds l m v key later s none h own = h
keep-Holds l m v key later s (some x) (reading, cached) own = (
  reading,
  λ e n. elim (Bool-cases (key == m.key)) [
    | inl same ↦
        let kept : some (record { key = key; value = x; expires_at = later + cache_ttl_seconds })
            ≡ some e =
          rw same at n in
        let value : some x ≡ some v = own same in ground arith
    | inr other ↦ cached e (sym (find_entry-drop_other key m.key s.cache other) ∙ (rw other at n))
  ],
)

-- What a read of a setting answers and leaves to another, or to itself.
get_known-Holds :
    (l : Libraries) (n m : SettingMeta) (v : Value) (now later : ℕ) (s : Service)
    → Holds l m v s
    → ((n.key == m.key) ≡ true → n ≡ m)
    → Holds l m v (get_known l n now later s).1
unfolding get_known Holds
get_known-Holds l n m v now later s h one =
    let own = λ (e : (n.key == m.key) ≡ true). ap (λ x. read_value l x s.rows) (one e) ∙ h.0 in
    let kept = keep-Holds l m v n.key later s (read_value l n s.rows) h own in
    elim (Option-cases (find_entry n.key s.cache)) [
      | inl c ↦ rw (c, get_known) kept
      | inr (e, c) ↦ elim (Bool-cases (ltb now e.expires_at)) [
        | inl f ↦ rw (c, get_known) (rw f h)
        | inr f ↦ rw (c, get_known) (rw f kept)
      ]
    ]

get_known-value :
    (l : Libraries) (m : SettingMeta) (v : Value) (now later : ℕ) (s : Service)
    → Holds l m v s
    → (get_known l m now later s).0 ≡ some v
unfolding get_known Holds keep_value
get_known-value l m v now later s (reading, cached) =
    elim (Option-cases (find_entry m.key s.cache)) [
      | inl c ↦ rw (c, get_known) (rw reading refl)
      | inr (e, c) ↦ elim (Bool-cases (ltb now e.expires_at)) [
        | inl f ↦ rw (c, get_known) (rw f (ap some (cached e c)))
        | inr f ↦ rw (c, get_known) (rw f (rw reading refl))
      ]
    ]

set_known-Holds :
    (l : Libraries) (n m : SettingMeta) (v x : Value) (s : Service)
    → Holds l m v s
    → (n.key == m.key) ≡ false
    → Holds l m v (set_known l n x s)
unfolding Holds set_known read_value new_row
set_known-Holds l n m v x s (reading, cached) other = (
  ap (λ r. coerce_read l m.type_str (stored_text l m r))
        (find_row-put_other (new_row l n x) m.key s.rows other)
      ∙ reading,
  λ e c. cached e (sym (find_entry-drop_other n.key m.key s.cache other) ∙ c),
)

-- A key has one entry in the registry.
one_meta :
    (registry : List SettingMeta) (key k : ℕ) (m n : SettingMeta)
    → find_meta key registry ≡ some m
    → find_meta k registry ≡ some n
    → (n.key == m.key) ≡ true
    → n ≡ m
one_meta registry key k m n h j e =
    let keys : k ≡ key =
      sym (find_meta-key k n registry j)
      ∙ (==_iff n.key m.key).0 e
      ∙ find_meta-key key m registry h in
    let both : some n ≡ some m = sym j ∙ ap (λ x. find_meta x registry) keys ∙ h in ground arith

answer-Holds :
    (l : Libraries) (registry : List SettingMeta) (key : ℕ) (m : SettingMeta) (v : Value) (op : Op)
    (s : Service)
    → find_meta key registry ≡ some m
    → Holds l m v s
    → leaves key op ≡ true
    → Holds l m v (answer l registry op s).1
unfolding answer get set
answer-Holds l registry key m v (gets k now later) s h held free =
    elim (Option-cases (find_meta k registry)) [
      | inl j ↦ rw (j, get) held
      | inr (n, j) ↦
          rw (j, get) (get_known-Holds l n m v now later s held (one_meta registry key k m n h j))
    ]
answer-Holds l registry key m v (sets k text) s h held free =
    elim (Option-cases (find_meta k registry)) [
      | inl j ↦ rw (j, set) held
      | inr (n, j) ↦ elim (Option-cases (coerce l n.type_str text)) [
        | inl c ↦ rw (j, set) (rw c held)
        | inr (x, c) ↦
            let other : (n.key == m.key) ≡ false =
              rw (find_meta-key k n registry j, find_meta-key key m registry h) (ground arith) in
            rw (j, set) (rw c (set_known-Holds l n m v x s held other))
      ]
    ]

after-Holds :
    (l : Libraries) (registry : List SettingMeta) (key : ℕ) (m : SettingMeta) (v : Value)
    (ops : List Op) (s : Service)
    → find_meta key registry ≡ some m
    → Holds l m v s
    → All (λ op. leaves key op ≡ true) ops
    → Holds l m v (after l registry ops s)
unfolding after
after-Holds l registry key m v [] s h held free = held
after-Holds l registry key m v (op ∷ ops) s h held (free, frees) =
    after-Holds l registry key m v ops _ h (answer-Holds l registry key m v op s h held free) frees

set-Holds :
    (l : Libraries) (m : SettingMeta) (t : Str) (v : Value) (s : Service)
    → Documented l
    → coerce l m.type_str t ≡ some v
    → Holds l m v (set_known l m v s)
unfolding Holds set_known
set-Holds l m t v s d k = (
  set_known-read l m t v s d k,
  λ e n.
      let none_left : none ≡ some e = sym (find_entry-drop_self m.key s.cache) ∙ n in ground arith,
)

-- A text that can be read as the type of a setting is stored, whatever was stored or cached before. Then,
-- after any further requests, one after the other and at any times, none of which sets this setting
-- again, a read of it answers the value that the text was read as, be it a secret or not.
pub set-get :
    (l : Libraries) (registry : List SettingMeta) (ops : List Op) (key now later : ℕ) (t : Str)
    (m : SettingMeta) (v : Value) (s : Service)
    → Documented l
    → find_meta key registry ≡ some m
    → coerce l m.type_str t ≡ some v
    → All (λ op. leaves key op ≡ true) ops
    → ((set l registry key t s).0 ≡ true)
      × ((get l registry key now later (after l registry ops (set l registry key t s).1)).0
          ≡ some v)
unfolding set get
set-get l registry ops key now later t m v s d h k free =
    let held = after-Holds l registry key m v ops _ h (set-Holds l m t v s d k) free in
    rw (h, set) (rw k (refl, rw (h, get) (get_known-value l m v now later _ held)))
