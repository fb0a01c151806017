-- ===== src/Settings/Laws.antt =====
-- What a reader of the settings table sees after each write.
use huntloop.Base.{
  String, ◌≡◌, refl, true, false, none, some, List, [], ◌∷◌, if◌then◌else◌, str_eq, eq_iff, eq_refl,
  arith,
}
use huntloop.Models.{Json, Setting, null}
use huntloop.Settings.{
  Result, ok, raise, get, delete, upsert, set_value, set_secret_metadata, get_value, is_secret,
  secret_key_error, ◌>>=◌,
}

pub get-delete :
    (k j : String) (l : List Setting) → get j (delete k l) ≡ (if str_eq k j then none else get j l)
unfolding get delete
get-delete k j [] = ground arith
get-delete k j (s ∷ l) =
    ground (arith, get-delete k j l, eq_iff s.key k, eq_iff s.key j, eq_iff k j)

pub get-upsert :
    (row : Setting) (j : String) (l : List Setting)
    → get j (upsert row l) ≡ (if str_eq row.key j then some row else get j l)
unfolding get upsert
get-upsert row j [] = refl
get-upsert row j (s ∷ l) =
    ground (arith, get-upsert row j l, eq_iff s.key row.key, eq_iff s.key j, eq_iff row.key j)

pub get_value-delete :
    (k j : String) (l : List Setting)
    → get_value j (delete k l) ≡ (if str_eq k j then null else get_value j l)
unfolding get_value
get_value-delete k j l = ground (arith, get-delete k j l)

-- After a write that is accepted, the key reads back what was written and is plain, and every
-- other key reads as before.
pub set_value-reads :
    (k j : String) (v : Json) (l l' : List Setting)
    → set_value k v l ≡ ok l'
    → (get_value j l' ≡ (if str_eq k j then v else get_value j l))
      × (is_secret j l' ≡ (if str_eq k j then false else is_secret j l))
unfolding set_value is_secret get_value
set_value-reads k j v l l' h =
    let row : Setting = record { key = k; value = v; is_secret = false } in
    (ground (arith, get-upsert row j l), ground (arith, get-upsert row j l))

-- A key that is not secret accepts every write.
pub set_value_plain :
    (k : String) (v : Json) (l : List Setting)
    → is_secret k l ≡ false
    → (l' : List Setting) × (set_value k v l ≡ ok l')
unfolding set_value is_secret
set_value_plain k v l h =
    (upsert (record { key = k; value = v; is_secret = false }) l, ground arith)

-- A key recorded as secret holds no value, and refuses every later plain write.
pub set_secret_metadata-seals :
    (k : String) (v : Json) (l : List Setting)
    → (get_value k (set_secret_metadata k l) ≡ null)
      × (set_value k v (set_secret_metadata k l) ≡ raise (secret_key_error k))
unfolding set_value get_value set_secret_metadata
set_secret_metadata-seals k v l =
    let row : Setting = record { key = k; value = null; is_secret = true } in
    (ground (arith, get-upsert row k l, eq_refl k), ground (arith, get-upsert row k l, eq_refl k))

-- A chain of writes that went through went through at each step.
pub >>=-eq-ok {ι ν} :
    {X : Type ι} {Y : Type ν} (first : Result X) (rest : X → Result Y) {end : Y}
    → (first >>= rest) ≡ ok end
    → (x : X) × (first ≡ ok x) × (rest x ≡ ok end)
>>=-eq-ok (raise error) rest went_through = cc
>>=-eq-ok (ok x) rest went_through = (x, refl, went_through)
