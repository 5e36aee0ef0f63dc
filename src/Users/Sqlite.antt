-- ===== src/Users/Sqlite.antt =====
-- userstore/impl/sqlite.rs: users in an SQLite table. The rusqlite and bcrypt crates and the reading of dates
-- are arguments; the blocking tasks are taken to come to their end.
pub mod Table
pub mod Accounts
pub mod Logins
pub mod Refusals
use scuttled.Prelude.{
  ℕ, Bool, true, false, Option, none, some, List, [], ◌∷◌, ◌++◌, if◌then◌else◌, nat_eq,
}
use scuttled.Text.{Text, text, contains_text, decimal}
use scuttled.Types.{User, DateTime}
use scuttled.Error.{Error, Result, ok, err}
use scuttled.Mailstore.{FilePath}
use scuttled.Files.{Action, ◌>>=◌, ◌>>◌, pure, fail, path_of}
use scuttled.Users.{UserStore}

-- What a call of another crate returns: a value, or the text of an error.
pub data Answer (A : Type 0) : Type 0 where
  fine : A → Answer A
  failed : Text → Answer A

-- The SQL that is executed, with its parameters in the order of `params!`:
--   CREATE TABLE IF NOT EXISTS users (username TEXT PRIMARY KEY, password_hash TEXT NOT NULL,
--     created_at TEXT NOT NULL)
--   INSERT INTO users (username, password_hash, created_at) VALUES (?1, ?2, ?3)
--   UPDATE users SET password_hash = ?1 WHERE username = ?2
--   DELETE FROM users WHERE username = ?1
pub data Statement : Type 0 where
  create_table : Statement
  insert_user : (username password_hash created_at : Text) → Statement
  update_password_hash : (password_hash username : Text) → Statement
  delete_named : (username : Text) → Statement

-- The SQL that is queried:
--   SELECT username, password_hash, created_at FROM users WHERE username = ?1
--   SELECT username FROM users
pub data Query : Type 0 where
  user_named : (username : Text) → Query
  usernames : Query

-- The rusqlite crate over the state of the databases, each known by its path: a statement tells how many
-- rows it has changed, a query yields rows, whose columns are read one by one.
pub record Database (S Row : Type 0) : Type 0 where
  pub connect : FilePath → S → Answer (Unit {0}) × S
  pub execute : FilePath → Statement → S → Answer ℕ × S
  pub query : FilePath → Query → S → Answer (List (Answer Row))
  pub column : Row → ℕ → Answer Text

-- The operator `?` on an error of rusqlite.
abbrev pub or_database : {A : Type 0} → Answer A → Result A
or_database (fine a) = ok a
or_database (failed m) = err (Error.database m)

-- `map_err(|e| Error::Internal(format!("…: {}", e)))?`
abbrev pub or_internal : {A : Type 0} → Text → Answer A → Result A
or_internal what (fine a) = ok a
or_internal what (failed m) = err (Error.internal (what ++ m))

abbrev pub returned : {S A : Type 0} → Result A → Action S A
returned r s = (r, s)

abbrev pub changed : {S A : Type 0} → Answer A × S → Result A × S
changed (a, s) = (or_database a, s)

-- The reply to INSERT.
abbrev pub inserted : {S : Type 0} → (username : Text) → Answer ℕ × S → Result (Unit {0}) × S
inserted username (fine n, s) = (ok tt, s)
inserted username (failed m, s) = (
  if contains_text m (text "UNIQUE constraint failed")
      then err (Error.already_exists (text "User already exists: " ++ username))
      else err (Error.database m),
  s,
)

-- `if affected == 0 { return Err(…); }`
abbrev pub some_affected : {S : Type 0} → (username : Text) → ℕ → Action S (Unit {0})
some_affected username affected =
    if nat_eq affected 0
    then fail (Error.not_found (text "User not found: " ++ username))
    else pure tt

module _ {S Row : Type 0} (db : Database S Row) where
  abbrev pub connected : FilePath → Action S (Unit {0})
  connected path s = changed (db.connect path s)

  abbrev pub execute : FilePath → Statement → Action S ℕ
  execute path statement s = changed (db.execute path statement s)

  unfoldable pub new : FilePath → Action S FilePath
  new db_path = do connected db_path; changes ← execute db_path Statement.create_table; pure db_path

  -- The identifier comes from a counter that all stores share.
  unfoldable pub in_memory : (id : ℕ) → Action S FilePath
  unfolding new decimal path_of
  in_memory id = new (path_of (text "file:memdb" ++ decimal id ++ text "?mode=memory&cache=shared"))

  module _ (db_path : FilePath) where
    -- `hash` is bcrypt::hash with the salt that it draws in this call.
    unfoldable pub create_user :
        (hash : Text → Answer Text) → (created_at username password : Text) → Action S (Unit {0})
    unfolding contains_text
    create_user hash created_at username password = do
      password_hash ← returned (or_internal (text "Failed to hash password: ") (hash password))
      connected db_path
      λ s.
          inserted username
            (db.execute db_path (Statement.insert_user username password_hash created_at) s)

    abbrev pub user_of : (parse_date : Text → Answer DateTime) → Row → Action S (Option User)
    user_of parse_date row = do
      username ← returned (or_database (db.column row 0))
      password_hash ← returned (or_database (db.column row 1))
      created_at ← returned (or_database (db.column row 2))
      date ← returned (or_internal (text "Failed to parse date: ") (parse_date created_at))
      pure (some (record { username = username; password_hash = password_hash; created_at = date }))

    -- `if let Some(row) = rows.next()?`
    abbrev pub first_user :
        (parse_date : Text → Answer DateTime) → List (Answer Row) → Action S (Option User)
    first_user parse_date [] = pure none
    first_user parse_date (failed m ∷ rows) = fail (Error.database m)
    first_user parse_date (fine row ∷ rows) = user_of parse_date row

    abbrev pub rows_of : Query → Action S (List (Answer Row))
    rows_of q s = (or_database (db.query db_path q s), s)

    unfoldable pub get_user :
        (parse_date : Text → Answer DateTime) → (username : Text) → Action S (Option User)
    get_user parse_date username = do
      connected db_path
      rows ← rows_of (Query.user_named username)
      first_user parse_date rows

    unfoldable pub update_password :
        (hash : Text → Answer Text) → (username new_password : Text) → Action S (Unit {0})
    update_password hash username new_password = do
      password_hash ← returned (or_internal (text "Failed to hash password: ") (hash new_password))
      connected db_path
      affected ← execute db_path (Statement.update_password_hash password_hash username)
      some_affected username affected

    unfoldable pub delete_user : (username : Text) → Action S (Unit {0})
    delete_user username = do
      connected db_path
      affected ← execute db_path (Statement.delete_named username)
      some_affected username affected

    -- `collect::<Result<Vec<String>, _>>()?`
    unfoldable pub collect : List (Answer Row) → Action S (List Text)
    collect [] = pure []
    collect (failed m ∷ rows) = fail (Error.database m)
    collect (fine row ∷ rows) = do
      username ← returned (or_database (db.column row 0))
      users ← collect rows
      pure (username ∷ users)

    unfoldable pub list_users : Action S (List Text)
    unfolding collect
    list_users = do connected db_path; rows ← rows_of Query.usernames; collect rows

    module _ (parse_date : Text → Answer DateTime)
        (verify : (password hash : Text) → Answer Bool) where
      abbrev pub verified : (password : Text) → Option User → Action S Bool
      verified password none = pure false
      verified password (some user) =
          returned
            (or_internal (text "Failed to verify password: ") (verify password user.password_hash))

      unfoldable pub verify_password : (username password : Text) → Action S Bool
      unfolding get_user
      verify_password username password = do
        user ← get_user parse_date username
        verified password user

      -- `impl UserStore for SQLiteUserStore`
      abbrev pub sqlite_user_store : (hash : Text → Answer Text) → (created_at : Text) → UserStore S
      sqlite_user_store hash created_at = record {
        create_user = create_user hash created_at;
        get_user = get_user parse_date;
        update_password = update_password hash;
        delete_user = delete_user;
        list_users = list_users;
        verify_password = verify_password;
      }
