-- ===== src/Settings.antt =====
-- src/huntloop/db/repository.py, `SettingsRepository`, over src/huntloop/db/upsert.py and the
-- session's `get` and `delete` by primary key.
pub mod Laws
use huntloop.Base.{
  String, Bool, true, false, Option, none, some, List, [], ◌∷◌, if◌then◌else◌, str_eq, ◌<>◌,
}
use huntloop.Models.{Json, null, Setting}

pub data Error : Type 0 where
  value_error : String → Error

pub data Result {ι} (X : Type ι) : Type ι where
  raise : Error → Result X
  ok : X → Result X

-- What follows a statement that may have raised.
infixl 5 ◌>>=◌
abbrev pub ◌>>=◌ {ι ν} : {X : Type ι} {Y : Type ν} → Result X → (X → Result Y) → Result Y
raise error >>= rest = raise error
ok x >>= rest = rest x

-- `session.get(Setting, key)`
unfoldable pub get : String → List Setting → Option Setting
get key [] = none
get key (s ∷ rest) = let later = get key rest in if str_eq s.key key then some s else later

-- `session.delete` of the row with that key, if there is one
unfoldable pub delete : String → List Setting → List Setting
delete key [] = []
delete key (s ∷ rest) = let later = delete key rest in if str_eq s.key key then later else s ∷ later

-- INSERT .. ON CONFLICT (key) DO UPDATE SET value, is_secret
unfoldable pub upsert : Setting → List Setting → List Setting
upsert row [] = row ∷ []
upsert row (s ∷ rest) =
    let later = upsert row rest in if str_eq s.key row.key then row ∷ rest else s ∷ later

abbrev secret_key_error : String → Error
secret_key_error key =
    value_error (key <> " is marked is_secret; write it through CredentialStore, not settings")

abbrev is_secret_row : Option Setting → Bool
is_secret_row none = false
is_secret_row (some s) = s.is_secret

unfoldable pub set_value : String → Json → List Setting → Result (List Setting)
set_value key value settings =
    if is_secret_row (get key settings)
    then raise (secret_key_error key)
    else ok (upsert (record { key = key; value = value; is_secret = false }) settings)

unfoldable pub set_secret_metadata : String → List Setting → List Setting
set_secret_metadata key settings =
    upsert (record { key = key; value = null; is_secret = true }) settings

-- `None` both for an absent row and for a stored null
abbrev value_of : Option Setting → Json
value_of none = null
value_of (some s) = s.value

unfoldable pub get_value : String → List Setting → Json
get_value key settings = value_of (get key settings)

unfoldable pub is_secret : String → List Setting → Bool
is_secret key settings = is_secret_row (get key settings)
