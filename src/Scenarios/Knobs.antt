-- ===== src/Scenarios/Knobs.antt =====
-- Settings: a secret and a flag, set and read through the cache.
use sf_bulk_loader.Prelude.{
  ℕ, ◌≡◌, refl, true, false, Option, none, some, List, [], ◌∷◌, map, arith, ◌==◌, if◌then◌else◌,
  All,
}
use sf_bulk_loader.Storage.{Str}
use sf_bulk_loader.Settings.{
  int, str, SettingMeta, int_value, str_value, Libraries, coerce, Service, find_meta, find_entry,
  get, set, show_bool,
}
use sf_bulk_loader.Settings.Cache.{
  IsCoherent, Op, gets, sets, given, stored, answers, all_direct, answers-all_direct,
}
use sf_bulk_loader.Settings.Written.{Documented, leaves, after, set-get}

abbrev lowered : ℕ → ℕ
lowered c = if c == 84 then 116 else if c == 70 then 102 else c

abbrev one_number : Str → Option ℕ
one_number (n ∷ []) = some n
one_number _ = none

abbrev unlocked : Str → Option Str
unlocked [] = none
unlocked (c ∷ cs) = some cs

-- A number is written as itself; a secret has one more character in front.
abbrev plain : Libraries
plain = record {
  parse_int = one_number;
  parse_float = one_number;
  show_int = λ n. n ∷ [];
  show_float = λ n. n ∷ [];
  lower = λ t. map lowered t;
  encrypt_secret = λ t. 0 ∷ t;
  decrypt_secret = unlocked;
}

plain-Documented : Documented plain
unfolding show_bool
plain-Documented = record {
  ints = λ n. refl;
  floats = λ n. refl;
  lower_true = refl;
  lower_false = refl;
  secrets = λ t. refl;
}

abbrev limit : SettingMeta
limit = record { key = 1; type_str = int; default = 20 ∷ []; env_var = none; is_secret = false }

abbrev smtp_password : SettingMeta
smtp_password = record { key = 2; type_str = str; default = []; env_var = none; is_secret = true }

abbrev registry : List SettingMeta
registry = limit ∷ smtp_password ∷ []

abbrev fresh : Service
fresh = record { rows = []; cache = [] }

fresh-IsCoherent : IsCoherent plain registry fresh
unfolding IsCoherent find_entry
fresh-IsCoherent key m e h k = ground arith

-- The default, the default from the cache, a new value, an unknown key, and a text that is no number.
abbrev ops : List Op
ops =
    gets 1 100 101
    ∷ gets 1 120 121
    ∷ sets 1 (7 ∷ [])
    ∷ gets 1 130 131
    ∷ gets 9 130 131
    ∷ sets 1 []
    ∷ []

seven :
    answers plain registry ops fresh
    ≡ given (some (int_value 20))
      ∷ given (some (int_value 20))
      ∷ stored true
      ∷ given (some (int_value 7))
      ∷ given none
      ∷ stored false
      ∷ []
unfolding answers
seven = refl

answers-all_direct_example :
    answers plain registry ops fresh ≡ all_direct plain registry ops fresh.rows
answers-all_direct_example = answers-all_direct plain registry ops fresh fresh-IsCoherent

-- The password is read, the limit is set and read, and the password is read again from the cache.
abbrev others : List Op
others = gets 2 90 91 ∷ sets 1 (7 ∷ []) ∷ gets 1 92 93 ∷ gets 2 94 95 ∷ []

others-leave : All (λ op. leaves 2 op ≡ true) others
others-leave = (refl, (refl, (refl, (refl, tt))))

set-get_example :
    ((set plain registry 2 (5 ∷ 6 ∷ []) fresh).0 ≡ true)
    × ((get plain registry 2 100 101
          (after plain registry others (set plain registry 2 (5 ∷ 6 ∷ []) fresh).1)).0
        ≡ some (str_value (5 ∷ 6 ∷ [])))
unfolding find_meta coerce
set-get_example =
    set-get plain registry others 2 100 101 (5 ∷ 6 ∷ []) smtp_password (str_value (5 ∷ 6 ∷ []))
      fresh plain-Documented refl refl others-leave
