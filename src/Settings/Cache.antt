-- ===== src/Settings/Cache.antt =====
-- The cache of settings does not show, request after request: backend/app/services/settings/service.py.
use sf_bulk_loader.Prelude.{
  ℕ, ◌+◌, ◌≡◌, refl, sym, ap, ◌∙◌, inl, inr, Bool, true, false, Option, none, some, List, [], ◌∷◌,
  arith, ltb, ◌==◌, Bool-cases, Option-cases, ==_iff, ap₂,
}
use sf_bulk_loader.Storage.{Str}
use sf_bulk_loader.Settings.{
  SettingMeta, AppSetting, Value, Libraries, coerce, coerce_read, CacheEntry, Service,
  cache_ttl_seconds, find_meta, find_row, put_row, find_entry, drop_entry, stored_text, read_value,
  keep_value, get_known, get, new_row, set_known, set,
}

pub find_row-put_self :
    (row : AppSetting) (rows : List AppSetting) → find_row row.key (put_row row rows) ≡ some row
unfolding find_row put_row
find_row-put_self row [] = rw ((==_iff row.key row.key).1 refl) refl
find_row-put_self row (r ∷ rs) = elim (Bool-cases (r.key == row.key)) [
  | inl e ↦ rw e (rw ((==_iff row.key row.key).1 refl) refl)
  | inr e ↦ rw e (rw e (find_row-put_self row rs))
]

pub find_row-put_other :
    (row : AppSetting) (key : ℕ) (rows : List AppSetting)
    → (row.key == key) ≡ false
    → find_row key (put_row row rows) ≡ find_row key rows
unfolding find_row put_row
find_row-put_other row key [] h = rw h refl
find_row-put_other row key (r ∷ rs) h = elim (Bool-cases (r.key == row.key)) [
  | inl e ↦
      let other : (r.key == key) ≡ false = rw ((==_iff r.key row.key).0 e) h in
      rw e (rw h (rw other refl))
  | inr e ↦ rw e (rw (find_row-put_other row key rs h) refl)
]

pub find_entry-drop_self :
    (key : ℕ) (es : List CacheEntry) → find_entry key (drop_entry key es) ≡ none
unfolding find_entry drop_entry
find_entry-drop_self key [] = refl
find_entry-drop_self key (e ∷ es) = elim (Bool-cases (e.key == key)) [
  | inl h ↦ rw h (find_entry-drop_self key es)
  | inr h ↦ rw h (rw h (find_entry-drop_self key es))
]

pub find_entry-drop_other :
    (key k : ℕ) (es : List CacheEntry)
    → (key == k) ≡ false
    → find_entry k (drop_entry key es) ≡ find_entry k es
unfolding find_entry drop_entry
find_entry-drop_other key k [] h = refl
find_entry-drop_other key k (e ∷ es) h = elim (Bool-cases (e.key == key)) [
  | inl g ↦
      let other : (e.key == k) ≡ false = rw ((==_iff e.key key).0 g) h in
      rw g (rw other (find_entry-drop_other key k es h))
  | inr g ↦ rw g (rw (find_entry-drop_other key k es h) refl)
]

pub find_meta-key :
    (key : ℕ) (m : SettingMeta) (ms : List SettingMeta) → find_meta key ms ≡ some m → m.key ≡ key
unfolding find_meta
find_meta-key key m [] h = ground arith
find_meta-key key m (x ∷ ms) h = elim (Bool-cases (x.key == key)) [
  | inl e ↦
      let found : some x ≡ some m = rw e at h in
      let same : x ≡ m = cc in rw (← same) ((==_iff x.key key).0 e)
  | inr e ↦ find_meta-key key m ms (rw e at h)
]

-- What is cached is what would be read.
unfoldable pub IsCoherent : Libraries → List SettingMeta → Service → Type 0
IsCoherent c registry s =
    (key : ℕ) (m : SettingMeta) (e : CacheEntry)
    → find_meta key registry ≡ some m
    → find_entry key s.cache ≡ some e
    → read_value c m s.rows ≡ some e.value

pub data Op : Type 0 where
  gets : (key now later : ℕ) → Op
  sets : (key : ℕ) → Str → Op

pub data Answer : Type 0 where
  given : Option Value → Answer
  stored : Bool → Answer

unfoldable pub answer : Libraries → List SettingMeta → Op → Service → Answer × Service
unfolding get set
answer c registry (gets key now later) s =
    let (v, s') = get c registry key now later s in (given v, s')
answer c registry (sets key text) s = let (b, s') = set c registry key text s in (stored b, s')

unfoldable pub answers : Libraries → List SettingMeta → List Op → Service → List Answer
unfolding answer
answers c registry [] s = []
answers c registry (op ∷ ops) s =
    let (a, s') = answer c registry op s in a ∷ answers c registry ops s'

-- The same requests, of a service without a cache.
unfoldable pub direct :
    Libraries → List SettingMeta → Op → List AppSetting → Answer × List AppSetting
unfolding find_meta read_value coerce new_row put_row
direct c registry (gets key now later) rows = elim (find_meta key registry) [
  | none ↦ (given none, rows)
  | some m ↦ (given (read_value c m rows), rows)
]
direct c registry (sets key text) rows = elim (find_meta key registry) [
  | none ↦ (stored false, rows)
  | some m ↦ elim (coerce c m.type_str text) [
    | none ↦ (stored false, rows)
    | some v ↦ (stored true, put_row (new_row c m v) rows)
  ]
]

unfoldable pub all_direct : Libraries → List SettingMeta → List Op → List AppSetting → List Answer
unfolding direct
all_direct c registry [] rows = []
all_direct c registry (op ∷ ops) rows =
    let (a, rows') = direct c registry op rows in a ∷ all_direct c registry ops rows'

-- One request: the answer and the rows are those without the cache, and the cache stays coherent.
abbrev Agrees : Libraries → List SettingMeta → Answer × Service → Answer × List AppSetting → Type 0
Agrees c registry r d = (r.0 ≡ d.0) × (r.1.rows ≡ d.1) × IsCoherent c registry r.1

keep-Agrees :
    (c : Libraries) (registry : List SettingMeta) (key later : ℕ) (m : SettingMeta) (s : Service)
    (v : Option Value)
    → find_meta key registry ≡ some m
    → read_value c m s.rows ≡ v
    → IsCoherent c registry s
    → (let r = keep_value m.key later s v in
        (r.0 ≡ v) × (r.1.rows ≡ s.rows) × IsCoherent c registry r.1)
unfolding keep_value IsCoherent find_entry
keep-Agrees c registry key later m s none h k a = (refl, refl, a)
keep-Agrees c registry key later m s (some v) h k a = (
  refl,
  refl,
  λ j n e meta entry. elim (Bool-cases (m.key == j)) [
    | inl same ↦
        let here : j ≡ key = sym ((==_iff m.key j).0 same) ∙ find_meta-key key m registry h in
        let both : some m ≡ some n = sym h ∙ (rw here at meta) in
        let one_meta : m ≡ n = cc in
        let kept : some (record { key = m.key; value = v; expires_at = later + cache_ttl_seconds })
            ≡ some e =
          rw same at entry in
        let one_entry : record { key = m.key; value = v; expires_at = later + cache_ttl_seconds }
            ≡ e =
          cc in
        rw (← one_meta) (k ∙ ap (λ x. some x.value) one_entry)
    | inr other ↦
        a j n e meta (sym (find_entry-drop_other m.key j s.cache other) ∙ (rw other at entry))
  ],
)

get_known-Agrees :
    (c : Libraries) (registry : List SettingMeta) (key now later : ℕ) (m : SettingMeta)
    (s : Service)
    → find_meta key registry ≡ some m
    → IsCoherent c registry s
    → (let r = get_known c m now later s in
        (r.0 ≡ read_value c m s.rows) × (r.1.rows ≡ s.rows) × IsCoherent c registry r.1)
unfolding get_known IsCoherent
get_known-Agrees c registry key now later m s h a =
    let fresh = keep-Agrees c registry key later m s (read_value c m s.rows) h refl a in
    elim (Option-cases (find_entry m.key s.cache)) [
      | inl n ↦ rw (n, get_known) fresh
      | inr (e, n) ↦ elim (Bool-cases (ltb now e.expires_at)) [
        | inl l ↦
            let cached =
              a m.key m e (ap (λ k. find_meta k registry) (find_meta-key key m registry h) ∙ h) n in
            rw (n, get_known) (rw l (sym cached, refl, a))
        | inr l ↦ rw (n, get_known) (rw l fresh)
      ]
    ]

set_known-IsCoherent :
    (c : Libraries) (registry : List SettingMeta) (key : ℕ) (m : SettingMeta) (v : Value)
    (s : Service)
    → find_meta key registry ≡ some m
    → IsCoherent c registry s
    → IsCoherent c registry (set_known c m v s)
unfolding set_known IsCoherent read_value new_row
set_known-IsCoherent c registry key m v s h a = λ j n e meta entry. elim (Bool-cases (m.key == j)) [
  | inl same ↦
      let here = (==_iff m.key j).0 same in
      let gone : none ≡ some e = sym (find_entry-drop_self j s.cache) ∙ (rw here at entry) in
      ground arith
  | inr other ↦
      let old = a j n e meta (sym (find_entry-drop_other m.key j s.cache other) ∙ entry) in
      let elsewhere : (m.key == n.key) ≡ false = rw (find_meta-key j n registry meta) other in
      ap (λ r. coerce_read c n.type_str (stored_text c n r))
        (find_row-put_other (new_row c m v) n.key s.rows elsewhere)
      ∙ old
]

answer-Agrees :
    (c : Libraries) (registry : List SettingMeta) (op : Op) (s : Service)
    → IsCoherent c registry s
    → Agrees c registry (answer c registry op s) (direct c registry op s.rows)
unfolding answer direct get set set_known
answer-Agrees c registry (gets key now later) s a = elim (Option-cases (find_meta key registry)) [
  | inl n ↦ rw (n, get) (rw (n, direct) (refl, refl, a))
  | inr (m, n) ↦
      let (v, rows, coherent) = get_known-Agrees c registry key now later m s n a in
      rw (n, get) (rw (n, direct) (ap given v, rows, coherent))
]
answer-Agrees c registry (sets key text) s a = elim (Option-cases (find_meta key registry)) [
  | inl n ↦ rw (n, set) (rw (n, direct) (refl, refl, a))
  | inr (m, n) ↦ elim (Option-cases (coerce c m.type_str text)) [
    | inl e ↦ rw (n, set) (rw (n, direct) (rw e (refl, refl, a)))
    | inr (v, e) ↦
        rw (n, set)
          (rw (n, direct) (rw e (refl, refl, set_known-IsCoherent c registry key m v s n a)))
  ]
]

-- A service whose cache holds only what would be read answers any requests, one after the other and at
-- any times, as it would without a cache.
pub answers-all_direct :
    (c : Libraries) (registry : List SettingMeta) (ops : List Op) (s : Service)
    → IsCoherent c registry s
    → answers c registry ops s ≡ all_direct c registry ops s.rows
unfolding answers all_direct
answers-all_direct c registry [] s a = refl
answers-all_direct c registry (op ∷ ops) s a =
    let (same, rows, coherent) = answer-Agrees c registry op s a in
    let rest = answers-all_direct c registry ops (answer c registry op s).1 coherent in
    ap₂ (λ x y. x ∷ y) same (rest ∙ ap (all_direct c registry ops) rows)
