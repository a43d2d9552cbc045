-- ===== src/Database/Laws.antt =====
-- Reading what was written.

use mathlib.Core.Path.{subst}
use cabinet.Base.{
  Bytes, Option, [], ap, arith, codes, eq_of_same_bytes, if◌then◌else◌, none, ok, refl, same_bytes,
  same_bytes_refl, some, sym, true, ◌↔◌, ◌∷◌, ◌≡◌, ◌≢◌,
}
use cabinet.Client.{Client}
use cabinet.Database.{
  DataBase, Effect, ValueObj, answer, del_command, delete_found, delete_key, delete_value,
  erase_key, get_command, get_value, insert_found, insert_key, plain_obj, put_value, set_command,
  set_value, string_obj,
}

same_bytes_iff : (s t : Bytes) → (same_bytes s t ≡ true) ↔ (s ≡ t)
same_bytes_iff s t =
    (eq_of_same_bytes s t, λ e. subst (λ (u : Bytes). same_bytes s u ≡ true) e (same_bytes_refl s))

get_value-put_value :
    (key other : Bytes) (value : ValueObj) (db : DataBase)
    → get_value other (put_value key value db)
      ≡ (if same_bytes key other then some value else get_value other db)
unfolding get_value put_value
get_value-put_value key other value [] = refl
get_value-put_value key other value ((k, v) ∷ db) = ground (
  arith,
  same_bytes_iff key other,
  same_bytes_iff k key,
  same_bytes_iff k other,
  get_value-put_value key other value db,
)

get_value-erase_key :
    (key other : Bytes) (db : DataBase)
    → get_value other (erase_key key db)
      ≡ (if same_bytes key other then none else get_value other db)
unfolding get_value erase_key
get_value-erase_key key other [] = ground arith
get_value-erase_key key other ((k, v) ∷ db) = ground (
  arith,
  same_bytes_iff key other,
  same_bytes_iff k key,
  same_bytes_iff k other,
  get_value-erase_key key other db,
)

-- The key has no object of the base class.
abbrev pub IsText : Bytes → DataBase → Type 0
IsText key db = get_value key db ≢ some plain_obj

-- What a `del` answers, where the key had this value.
abbrev pub deletion_text : Option ValueObj → Bytes
deletion_text none = codes "Pardon?"
deletion_text (some v) = codes "OK"

module _ (client : Client) (name key value : Bytes) (db : DataBase) where
  inserted :
      get_value key db ≡ none
      → insert_key key (string_obj value) db ≡ (ok, put_value key (string_obj value) db)
  inserted free = unfold insert_key in ap (insert_found key (string_obj value) db) free

  set_value-put_value :
      (o : Option ValueObj)
      → get_value key db ≡ o
      → o ≢ some plain_obj
      → set_value client key value db o
        ≡ (ok, put_value key (string_obj value) db, answer client (codes "ok"))
  set_value-put_value none free text = rw (inserted free) refl
  set_value-put_value (some plain_obj) found text = absurd (text refl)
  set_value-put_value (some (string_obj old)) found text = refl

  pub set_command_lem :
      IsText key db
      → set_command client (name ∷ key ∷ value ∷ []) db
        ≡ (ok, put_value key (string_obj value) db, answer client (codes "ok"))
  set_command_lem text = unfold set_command in set_value-put_value (get_value key db) refl text

  -- A `set` of a key that has no value yet, or a string, succeeds. The key then has the new value,
  -- and every other key what it had; a `get` of the key answers the new value.
  set_command-get :
      (other : Bytes)
      → IsText key db
      → (let done = set_command client (name ∷ key ∷ value ∷ []) db in
          (done.0 ≡ ok)
          × (get_value other done.1
              ≡ (if same_bytes key other then some (string_obj value) else get_value other db))
          × (get_command client (name ∷ key ∷ []) done.1 ≡ (ok, done.1, answer client value)))
  set_command-get other text = rw (set_command_lem text) (
    refl,
    get_value-put_value key other (string_obj value) db,
    unfold get_command in
        rw (get_value-put_value key key (string_obj value) db, same_bytes_refl) refl,
  )

  deleted : {v : ValueObj} → get_value key db ≡ some v → delete_key key db ≡ (ok, erase_key key db)
  deleted found = unfold delete_key in ap (delete_found key db) found

  del_value :
      (o : Option ValueObj) (other : Bytes)
      → get_value key db ≡ o
      → (let done : Effect = elim o [
        | none ↦ (ok, db, answer client (codes "Pardon?"))
        | some v ↦ delete_value client (delete_key key db)
      ] in
          (done.0 ≡ ok)
          × (done.2 ≡ answer client (deletion_text (get_value key db)))
          × (get_value other done.1 ≡ (if same_bytes key other then none else get_value other db)))
  del_value none other free = (
    refl,
    ap (λ o. answer client (deletion_text o)) (sym free),
    ground (arith, same_bytes_iff key other),
  )
  del_value (some v) other found = rw (deleted found) (
    refl,
    ap (λ o. answer client (deletion_text o)) (sym found),
    get_value-erase_key key other db,
  )

  -- A `del` returns `CABINET_OK`; the key then has no value, and every other key what it had.
  del_command-get :
      (other : Bytes)
      → (let done = del_command client (name ∷ key ∷ []) db in
          (done.0 ≡ ok)
          × (done.2 ≡ answer client (deletion_text (get_value key db)))
          × (get_value other done.1 ≡ (if same_bytes key other then none else get_value other db)))
  del_command-get other = unfold del_command in del_value (get_value key db) other refl

  -- A `set` of a key that has no value yet, or a string, succeeds. The key then has the new value,
  -- and every other key what it had; a `get` of the key answers the new value. A `del` of the key
  -- returns `CABINET_OK`, also where it has no value; it answers "Pardon?" there and "OK" elsewhere. The
  -- key then has no value, and every other key what it had.
  pub set_del_command-get :
      (other : Bytes)
      → IsText key db
      → (let done = set_command client (name ∷ key ∷ value ∷ []) db in
          (done.0 ≡ ok)
          × (get_value other done.1
              ≡ (if same_bytes key other then some (string_obj value) else get_value other db))
          × (get_command client (name ∷ key ∷ []) done.1 ≡ (ok, done.1, answer client value)))
        × (let done = del_command client (name ∷ key ∷ []) db in
            (done.0 ≡ ok)
            × (done.2 ≡ answer client (deletion_text (get_value key db)))
            × (get_value other done.1
                ≡ (if same_bytes key other then none else get_value other db)))
  set_del_command-get other text = (set_command-get other text, del_command-get other)
