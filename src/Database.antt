-- ===== src/Database.antt =====
-- src/DataBase.cpp, src/ValueObj.h, src/StringObj.h and the commands of the server
-- (src/SetCommand.cpp, src/GetCommand.cpp, src/DelCommand.cpp, src/NoMatchCommand.cpp).
pub mod Laws
use cabinet.Base.{
  Bool, Bytes, Code, List, Option, [], codes, err, false, if◌then◌else◌, none, ok, pos, same_bytes,
  some, true, ◌∷◌,
}
use cabinet.Client.{Client, Sent, reply_untyped}

-- An object of the base class, which the code never makes, or a `StringObj`.
pub data ValueObj : Type 0 where
  plain_obj : ValueObj
  string_obj : Bytes → ValueObj

-- `dataSpace`, one entry for each key
abbrev pub DataBase : Type 0
DataBase = List (Bytes × ValueObj)

-- `getValue`; `none` is the null pointer
unfoldable pub get_value : Bytes → DataBase → Option ValueObj
get_value key [] = none
get_value key ((k, v) ∷ db) = if same_bytes k key then some v else get_value key db

-- `dataSpace.erase(key)`
unfoldable pub erase_key : Bytes → DataBase → DataBase
erase_key key [] = []
erase_key key ((k, v) ∷ db) =
    let rest = erase_key key db in if same_bytes k key then rest else (k, v) ∷ rest

-- The object that a key leads to is another one, or has another value, from now on.
unfoldable pub put_value : Bytes → ValueObj → DataBase → DataBase
put_value key value [] = (key, value) ∷ []
put_value key value ((k, v) ∷ db) =
    let rest = put_value key value db in if same_bytes k key then (k, value) ∷ db else (k, v) ∷ rest

-- `deleteKey` and `insertKey`, on what `find` has found
abbrev pub delete_found : Bytes → DataBase → Option ValueObj → Code × DataBase
delete_found key db none = (err, db)
delete_found key db (some v) = (ok, erase_key key db)

unfoldable pub delete_key : Bytes → DataBase → Code × DataBase
unfolding get_value erase_key
delete_key key db = delete_found key db (get_value key db)

abbrev pub insert_found : Bytes → ValueObj → DataBase → Option ValueObj → Code × DataBase
insert_found key value db none = (ok, put_value key value db)
insert_found key value db (some v) = (err, db)

unfoldable pub insert_key : Bytes → ValueObj → DataBase → Code × DataBase
unfolding get_value put_value
insert_key key value db = insert_found key value db (get_value key db)

-- What a command returns, the database after it, and what was sent.
abbrev pub Effect : Type 0
Effect = Code × DataBase × List Sent

abbrev pub answer : Client → Bytes → List Sent
answer client text = reply_untyped client (pos 1) (text ∷ [])

-- `SetCommand::operator()` on a key and the value that it has
abbrev pub set_value : Client → Bytes → Bytes → DataBase → Option ValueObj → Effect
set_value client key value db (some plain_obj) =
    (ok, db, answer client (codes "I'm not string type."))
set_value client key value db (some (string_obj old)) =
    (ok, put_value key (string_obj value) db, answer client (codes "ok"))
set_value client key value db none =
    let (code, db') = insert_key key (string_obj value) db in
    (code, db', answer client (elim code [ ok ↦ codes "ok" | err ↦ codes "Set Error" ]))

-- `SetCommand::operator()`
unfoldable pub set_command : Client → List Bytes → DataBase → Effect
unfolding get_value put_value insert_key reply_untyped
set_command client (name ∷ key ∷ value ∷ []) db = set_value client key value db (get_value key db)
set_command client argv db = (err, db, answer client (codes "set no complete yet"))

-- `GetCommand::operator()`
abbrev pub show_value : Client → Option ValueObj → List Sent
show_value client none = answer client (codes "Pardon?")
show_value client (some plain_obj) = answer client (codes "I'm not string type.")
show_value client (some (string_obj value)) = answer client value

unfoldable pub get_command : Client → List Bytes → DataBase → Effect
unfolding get_value reply_untyped
get_command client (name ∷ key ∷ []) db = (ok, db, show_value client (get_value key db))
get_command client argv db = (err, db, answer client (codes "get no complete yet"))

-- `DelCommand::operator()`; it has no answer to a wrong number of arguments.
abbrev pub delete_value : Client → Code × DataBase → Effect
delete_value client (err, db) = (err, db, answer client (codes "Delete Key Error"))
delete_value client (ok, db) = (ok, db, answer client (codes "OK"))

unfoldable pub del_command : Client → List Bytes → DataBase → Effect
unfolding get_value delete_key reply_untyped
del_command client (name ∷ key ∷ []) db = elim (get_value key db) [
  | none ↦ (ok, db, answer client (codes "Pardon?"))
  | some v ↦ delete_value client (delete_key key db)
]
del_command client argv db = (err, db, [])

-- The commands that `createServerCommandMap` makes.
pub data ServerCommand : Type 0 where
  get_it set_it del_it no_match : ServerCommand

-- `selectCommand` on that map
unfoldable pub select_command : Bytes → ServerCommand
unfolding same_bytes
select_command name =
    if same_bytes name (codes "get")
    then get_it
    else if same_bytes name (codes "set")
    then set_it
    else if same_bytes name (codes "del")
    then del_it
    else no_match

-- `needPF`
abbrev pub need_pf : ServerCommand → Bool
need_pf get_it = false
need_pf set_it = true
need_pf del_it = true
need_pf no_match = false

unfoldable pub run_command : ServerCommand → Client → List Bytes → DataBase → Effect
unfolding set_command get_command del_command reply_untyped
run_command get_it client argv db = get_command client argv db
run_command set_it client argv db = set_command client argv db
run_command del_it client argv db = del_command client argv db
run_command no_match client argv db = (ok, db, answer client (codes "no match command"))
