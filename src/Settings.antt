-- ===== src/Settings.antt =====
-- backend/app/services/settings/service.py: `SettingsService.get`, `set` and `seed_from_env` over the rows
-- of `app_settings` and the cache. Keys and names of environment
-- variables are numbers. The encryption and the conversions of numbers are the libraries'.
pub mod Cache
pub mod Written
use sf_bulk_loader.Storage.{Str, is_among}
use sf_bulk_loader.Prelude.{
  ℕ, zero, suc, ◌+◌, ◌-◌, ◌*◌, ◌/◌, ◌%◌, ◌≤◌, ◌<◌, min, max, ◌≡◌, ◌≢◌, ◌⊎◌, ◌↔◌, refl, sym, ap, ◌∙◌,
  inl, inr, Bool, true, false, not, ◌&&◌, ◌||◌, Option, none, some, List, [], ◌∷◌, ◌++◌, map, arith,
  ltb, leb, ◌==◌, if◌then◌else◌, Bool-cases, Option-cases, is_some, holds, length, All, select,
  count_by, any,
}

pub data SettingType : Type 0 where
  int float bool str : SettingType

-- An entry of the registry; `default` is the text of its default.
pub record SettingMeta : Type 0 where
  pub key : ℕ
  pub type_str : SettingType
  pub default : Str
  pub env_var : Option ℕ
  pub is_secret : Bool

-- `AppSetting`; a value that is null is none.
pub record AppSetting : Type 0 where
  pub key : ℕ
  pub value : Option Str
  pub is_encrypted : Bool

-- A typed value; integers and floats are given by numbers that stand for them.
pub data Value : Type 0 where
  int_value float_value : ℕ → Value
  bool_value : Bool → Value
  str_value : Str → Value

-- Python's `int` and `float` of a text, `str` of a number, `str.lower`, and the encryption.
pub record Libraries : Type 0 where
  pub parse_int : Str → Option ℕ
  pub parse_float : Str → Option ℕ
  pub show_int : ℕ → Str
  pub show_float : ℕ → Str
  pub lower : Str → Str
  pub encrypt_secret : Str → Str
  -- `none` is an `EncryptionError`.
  pub decrypt_secret : Str → Option Str

-- `1`, `true`, `yes`, `on`
abbrev pub truthy : List Str
truthy = (49 ∷ []) ∷ (116 ∷ 114 ∷ 117 ∷ 101 ∷ []) ∷ (121 ∷ 101 ∷ 115 ∷ []) ∷ (111 ∷ 110 ∷ []) ∷ []

-- `True` and `False`
unfoldable pub show_bool : Bool → Str
show_bool true = 84 ∷ 114 ∷ 117 ∷ 101 ∷ []
show_bool false = 70 ∷ 97 ∷ 108 ∷ 115 ∷ 101 ∷ []

unfoldable pub given_number : (ℕ → Value) → Option ℕ → Option Value
given_number wrap none = none
given_number wrap (some n) = some (wrap n)

-- `_coerce` of a text; `none` is its exception.
unfoldable pub coerce : Libraries → SettingType → Str → Option Value
unfolding given_number is_among
coerce l int t = given_number int_value (l.parse_int t)
coerce l float t = given_number float_value (l.parse_float t)
coerce l bool t = some (bool_value (is_among (l.lower t) truthy))
coerce l str t = some (str_value t)

-- `str(coerced)`
unfoldable pub text_of_value : Libraries → Value → Str
unfolding show_bool
text_of_value l (int_value n) = l.show_int n
text_of_value l (float_value n) = l.show_float n
text_of_value l (bool_value b) = show_bool b
text_of_value l (str_value t) = t

pub record CacheEntry : Type 0 where
  pub key : ℕ
  pub value : Value
  pub expires_at : ℕ

pub record Service : Type 0 where
  pub rows : List AppSetting
  pub cache : List CacheEntry

abbrev pub cache_ttl_seconds : ℕ
cache_ttl_seconds = 60

-- `SETTINGS_REGISTRY[key]`
unfoldable pub find_meta : ℕ → List SettingMeta → Option SettingMeta
find_meta key [] = none
find_meta key (m ∷ ms) = let rest = find_meta key ms in if m.key == key then some m else rest

unfoldable pub find_row : ℕ → List AppSetting → Option AppSetting
find_row key [] = none
find_row key (r ∷ rs) = let rest = find_row key rs in if r.key == key then some r else rest

-- The update of the row, or a new one.
unfoldable pub put_row : AppSetting → List AppSetting → List AppSetting
put_row row [] = row ∷ []
put_row row (r ∷ rs) = let rest = put_row row rs in if r.key == row.key then row ∷ rs else r ∷ rest

unfoldable pub find_entry : ℕ → List CacheEntry → Option CacheEntry
find_entry key [] = none
find_entry key (e ∷ es) = let rest = find_entry key es in if e.key == key then some e else rest

-- `self._cache.pop(key, None)`
unfoldable pub drop_entry : ℕ → List CacheEntry → List CacheEntry
drop_entry key es = select (λ e. not (e.key == key)) es

unfoldable pub raw_text : Libraries → AppSetting → Str → Option Str
raw_text c row stored = if row.is_encrypted then c.decrypt_secret stored else some stored

-- The text of the row, or the default.
unfoldable pub stored_text : Libraries → SettingMeta → Option AppSetting → Option Str
unfolding raw_text
stored_text c meta none = some meta.default
stored_text c meta (some row) = elim row.value [
  | none ↦ some meta.default
  | some v ↦ raw_text c row v
]

unfoldable pub coerce_read : Libraries → SettingType → Option Str → Option Value
unfolding coerce
coerce_read c type_str none = none
coerce_read c type_str (some raw) = coerce c type_str raw

-- The value without the cache; `none` is an exception of the decryption or of the conversion.
unfoldable pub read_value : Libraries → SettingMeta → List AppSetting → Option Value
unfolding stored_text find_row coerce_read
read_value c meta rows = coerce_read c meta.type_str (stored_text c meta (find_row meta.key rows))

unfoldable pub keep_value : ℕ → ℕ → Service → Option Value → Option Value × Service
unfolding drop_entry
keep_value key now s none = (none, s)
keep_value key now s (some v) = (
  some v,
  record s {
    cache =
        record { key = key; value = v; expires_at = now + cache_ttl_seconds }
        ∷ drop_entry key s.cache;
  },
)

-- `get`, once the key is known; `now` is the clock at the test of the cache, `later` after the read.
unfoldable pub get_known : Libraries → SettingMeta → ℕ → ℕ → Service → Option Value × Service
unfolding find_entry keep_value read_value
get_known c meta now later s = elim (find_entry meta.key s.cache) [
  | none ↦ keep_value meta.key later s (read_value c meta s.rows)
  | some e ↦
      if ltb now e.expires_at
      then (some e.value, s)
      else keep_value meta.key later s (read_value c meta s.rows)
]

-- `none` is a `KeyError` or an exception of the read.
unfoldable pub get : Libraries → List SettingMeta → ℕ → ℕ → ℕ → Service → Option Value × Service
unfolding find_meta get_known
get c registry key now later s = elim (find_meta key registry) [
  | none ↦ (none, s)
  | some meta ↦ get_known c meta now later s
]

unfoldable pub new_row : Libraries → SettingMeta → Value → AppSetting
unfolding text_of_value
new_row c meta v = record {
  key = meta.key;
  value = some (if meta.is_secret then c.encrypt_secret (text_of_value c v) else text_of_value c v);
  is_encrypted = meta.is_secret;
}

unfoldable pub set_known : Libraries → SettingMeta → Value → Service → Service
unfolding new_row put_row drop_entry
set_known c meta v s = record {
  rows = put_row (new_row c meta v) s.rows;
  cache = drop_entry meta.key s.cache;
}

-- `set` of a text; the answer tells whether it went through.
unfoldable pub set : Libraries → List SettingMeta → ℕ → Str → Service → Bool × Service
unfolding find_meta set_known coerce
set c registry key text s = elim (find_meta key registry) [
  | none ↦ (false, s)
  | some meta ↦ elim (coerce c meta.type_str text) [
    | none ↦ (false, s)
    | some v ↦ (true, set_known c meta v s)
  ]
]

-- `os.environ.get(env_var, "")`, with `none` for the empty text.
unfoldable pub seed_text : (ℕ → Option Str) → SettingMeta → Str
seed_text environ meta = elim meta.env_var [
  | none ↦ meta.default
  | some name ↦ elim (environ name) [ none ↦ meta.default | some text ↦ text ]
]

unfoldable pub seed_row : Libraries → (ℕ → Option Str) → SettingMeta → AppSetting
unfolding seed_text
seed_row c environ meta = record {
  key = meta.key;
  value = some (
      if meta.is_secret then c.encrypt_secret (seed_text environ meta) else seed_text environ meta);
  is_encrypted = meta.is_secret;
}

unfoldable pub seed_from_env :
    Libraries → (ℕ → Option Str) → List SettingMeta → List AppSetting → List AppSetting
unfolding find_row seed_row
seed_from_env c environ [] rows = rows
seed_from_env c environ (meta ∷ metas) rows =
    seed_from_env c environ metas
      (if is_some (find_row meta.key rows) then rows else rows ++ seed_row c environ meta ∷ [])
