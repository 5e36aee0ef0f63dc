-- ===== src/Examples/Accounts.antt =====
-- Users in a table in memory, which keeps what SQLite promises, and the theorems on users at concrete inputs.
use scuttled.Prelude.{
  ℕ, Bool, true, ◌≡◌, refl, sym, ◌∙◌, ap, Option, none, some, List, [], ◌∷◌, ◌++◌, map, arith,
  if◌then◌else◌, ◌==◌, list_key, nat_key, list_beq, is_some, list_beq_iff, nat_eq, HashMap, get,
  insert, remove, get-insert, get-remove,
}
use scuttled.Text.{Text, text, contains_text}
use scuttled.Types.{DateTime}
use scuttled.Error.{Error, ok}
use scuttled.Mailstore.{FilePath}
use scuttled.Users.{authenticate}
use scuttled.Users.Sqlite.{
  Answer, fine, failed, Statement, Query, Database, create_user, sqlite_user_store, list_users,
  update_password, delete_user, collect,
}
use scuttled.Users.Sqlite.Table.{Entry, with_hash, found, IsSelected, IsLawful}
use scuttled.Users.Sqlite.Accounts.{Call, after}
use scuttled.Users.Sqlite.Logins.{authenticate-create_user}

abbrev pub Table : Type 0
Table = HashMap Text Entry

abbrev taken_message : Text
taken_message = text "UNIQUE constraint failed: users.username"

abbrev with_row : Text → Entry → Option Entry → Table → Answer ℕ × Table
with_row name e none s = (fine 1, insert s name e)
with_row name e (some old) s = (failed taken_message, s)

abbrev with_new_hash : (hash name : Text) → Option Entry → Table → Table
with_new_hash hash name none s = s
with_new_hash hash name (some e) s = insert s name (record e { password_hash = hash })

abbrev executed : Statement → Table → Answer ℕ × Table
executed Statement.create_table s = (fine 0, s)
executed (Statement.insert_user name hash created) s =
    with_row name (record { password_hash = hash; created_at = created }) (get s name) s
executed (Statement.update_password_hash hash name) s =
    (fine (found (get s name)), with_new_hash hash name (get s name) s)
executed (Statement.delete_named name) s = (fine (found (get s name)), remove s name)

abbrev row_of : Text → Option Entry → List (Answer (Text × Entry))
row_of name none = []
row_of name (some e) = fine (name, e) ∷ []

abbrev answered : Query → Table → Answer (List (Answer (Text × Entry)))
answered (Query.user_named name) s = fine (row_of name (get s name))
answered Query.usernames s = fine (map fine s)

abbrev column_of : Text × Entry → ℕ → Answer Text
column_of (name, e) n =
    if nat_eq n 0
    then fine name
    else if nat_eq n 1
    then fine e.password_hash
    else if nat_eq n 2
    then fine e.created_at
    else failed (text "Invalid column index")

abbrev pub memory_database : Database Table (Text × Entry)
memory_database = record {
  connect = λ path s. (fine tt, s);
  execute = λ path c s. executed c s;
  query = λ path q s. answered q s;
  column = column_of;
}

abbrev pub entry_of : Table → Text → Option Entry
entry_of s name = get s name

value_of : {A : Type 0} → A → Answer A → A
value_of d (fine a) = a
value_of d (failed m) = d

fine_value : {A : Type 0} {a b : A} → fine a ≡ fine b → a ≡ b
unfolding value_of
fine_value {A} {a} {b} h = ap (value_of a) h

beq_sym : (a b : Text) → (a == b) ≡ (b == a)
beq_sym a b = ground (arith, list_beq_iff a b, list_beq_iff b a)

with_row_failed :
    (name m u : Text) (e : Entry) (o : Option Entry) (s : Table)
    → (with_row name e o s).0 ≡ failed m
    → get (with_row name e o s).1 u ≡ get s u
with_row_failed name m u e none s h = ground (arith, h)
with_row_failed name m u e (some old) s h = refl

with_row_fine :
    (name u : Text) (e : Entry) (o : Option Entry) (s : Table) (k : ℕ)
    → (with_row name e o s).0 ≡ fine k
    → get (with_row name e o s).1 u ≡ (if u == name then some e else get s u)
with_row_fine name u e none s k h =
    ground (arith, get-insert s name u e, list_beq_iff name u, list_beq_iff u name)
with_row_fine name u e (some old) s k h = ground (arith, h)

with_row_taken :
    (name : Text) (e : Entry) (o : Option Entry) (s : Table)
    → is_some o ≡ true
    → (m : Text) × ((with_row name e o s).0 ≡ failed m)
      × (contains_text m (text "UNIQUE constraint failed") ≡ true)
unfolding contains_text text
with_row_taken name e none s h = ground (arith, h)
with_row_taken name e (some old) s h = (taken_message, refl, refl)

with_new_hash-get :
    (hash name u : Text) (o : Option Entry) (s : Table)
    → get s name ≡ o
    → get (with_new_hash hash name o s) u ≡ (if u == name then with_hash hash o else get s u)
with_new_hash-get hash name u none s h = ground (arith, h, list_beq_iff u name)
with_new_hash-get hash name u (some e) s h = ground (
  arith,
  get-insert s name u (record e { password_hash = hash }),
  list_beq_iff name u,
  list_beq_iff u name,
)

failed_statement :
    (c : Statement) (s : Table) (m u : Text)
    → (executed c s).0 ≡ failed m
    → get (executed c s).1 u ≡ get s u
failed_statement Statement.create_table s m u h = refl
failed_statement (Statement.insert_user name hash created) s m u h =
    with_row_failed name m u (record { password_hash = hash; created_at = created }) (get s name) s
      h
failed_statement (Statement.update_password_hash hash name) s m u h = ground (arith, h)
failed_statement (Statement.delete_named name) s m u h = ground (arith, h)

row_of-IsSelected :
    (path : FilePath) (name : Text) (o : Option Entry) (rows : List (Answer (Text × Entry)))
    → fine (row_of name o) ≡ fine rows
    → IsSelected memory_database path entry_of name o rows
row_of-IsSelected path name none rows h = sym (fine_value h)
row_of-IsSelected path name (some e) rows h = ((name, e), sym (fine_value h), refl, refl, refl)

pub memory_database-IsLawful : (path : FilePath) → IsLawful memory_database path entry_of
memory_database-IsLawful path = record {
  connect_keeps = λ s u. refl;
  failed_keeps = λ c s m u h. failed_statement c s m u h;
  taken = λ name hash created s h.
      with_row_taken name (record { password_hash = hash; created_at = created }) (get s name) s h;
  inserted = λ name hash created s k u h.
      with_row_fine name u (record { password_hash = hash; created_at = created }) (get s name) s k
        h;
  updated =
      λ name hash s k u h. (sym (fine_value h), with_new_hash-get hash name u (get s name) s refl);
  deleted = λ name s k u h. (sym (fine_value h), get-remove s name u ∙ rw (beq_sym u name) refl);
  selected = λ name s rows h. row_of-IsSelected path name (get s name) rows h;
}

abbrev pub marked : Text → Answer Text
marked password = fine (text "#" ++ password)

abbrev pub verifies : (password hash : Text) → Answer Bool
verifies password hash = fine (text "#" ++ password == hash)

abbrev pub some_date : Text → Answer DateTime
some_date created_at = fine 7

abbrev pub today : Text
today = text "2024-05-01"

abbrev pub secret : Text
secret = text "secret"

abbrev pub alice : Text
alice = text "alice"

abbrev bob : Text
bob = text "bob"

abbrev pub others : List Call
others =
    Call.create marked today bob (text "b")
    ∷ Call.update marked bob (text "c")
    ∷ Call.delete (text "carol")
    ∷ []

abbrev pub lawful : IsLawful memory_database [] entry_of
lawful = memory_database-IsLawful []

users :
    (list_users memory_database [] (after memory_database [] entry_of lawful others [])).0
    ≡ ok (bob ∷ [])
unfolding list_users collect create_user update_password delete_user contains_text text list_beq get
    insert remove
users = refl

authenticate-create_user_example :
    (authenticate
      (sqlite_user_store memory_database [] some_date verifies marked today)
      (record { username = alice; password = secret })
      (after memory_database [] entry_of lawful others
        (create_user memory_database [] marked today alice secret []).1)).0
    ≡ ok true
unfolding create_user update_password delete_user text list_beq get insert remove
authenticate-create_user_example =
    authenticate-create_user memory_database [] entry_of lawful some_date verifies marked today
      alice secret secret (text "#" ++ secret) 7 true others [] marked today refl refl
      (assumption refl) (assumption refl) (assumption refl)
      (record {
        connects = refl;
        rows = fine (alice, record { password_hash = text "#" ++ secret; created_at = today }) ∷ [];
        answers = refl;
      })

abbrev with_bob : Table
with_bob = (bob, record { password_hash = text "#b"; created_at = today }) ∷ []
