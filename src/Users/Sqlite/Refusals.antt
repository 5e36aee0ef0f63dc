-- ===== src/Users/Sqlite/Refusals.antt =====
-- userstore/impl/sqlite.rs: the calls that the table rules out, a second creation of a user, and a change of a
-- user who is not there.
use scuttled.Prelude.{ℕ, Bool, true, false, ◌≡◌, Option, ◌++◌, list_key, nat_key}
use scuttled.Text.{Text, text}
use scuttled.Error.{Error}
use scuttled.Mailstore.{FilePath}
use scuttled.Users.Sqlite.{fine, Statement, Database}
use scuttled.Users.Sqlite.Table.{Entry, IsLawful}
use scuttled.Users.Sqlite.Accounts.{Call}

-- The error of the call.
abbrev pub reason : Call → Error
reason (Call.create hash created_at username password) =
    Error.already_exists (text "User already exists: " ++ username)
reason (Call.update hash username new_password) =
    Error.not_found (text "User not found: " ++ username)
reason (Call.delete username) = Error.not_found (text "User not found: " ++ username)

abbrev pub IsRuledOut : Call → (is_there : Bool) → Type 0
IsRuledOut (Call.create hash created_at username password) is_there = is_there ≡ true
IsRuledOut _ is_there = is_there ≡ false

-- What bcrypt makes of the password of the call.
abbrev pub IsHashed : Call → (h : Text) → Type 0
IsHashed (Call.create hash created_at username password) h = hash password ≡ fine h
IsHashed (Call.update hash username new_password) h = hash new_password ≡ fine h
IsHashed (Call.delete username) h = Unit

module _ {S Row : Type 0} (db : Database S Row) (path : FilePath) (entry : S → Text → Option Entry)
    (lawful : IsLawful db path entry) where
  -- The database executes the statement of a change.
  abbrev pub IsExecuted : Call → (h : Text) → S → Type 0
  IsExecuted (Call.create hash created_at username password) h s = Unit
  IsExecuted (Call.update hash username new_password) h s =
      (k : ℕ) × ((db.execute path (Statement.update_password_hash h username) s).0 ≡ fine k)
  IsExecuted (Call.delete username) h s =
      (k : ℕ) × ((db.execute path (Statement.delete_named username) s).0 ≡ fine k)
