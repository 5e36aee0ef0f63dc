-- ===== src/Users/Sqlite/Table.antt =====
-- What SQLite promises about the table of userstore/impl/sqlite.rs: a row for each user name, which a statement
-- changes as a whole or not at all.
use scuttled.Prelude.{
  ℕ, true, ◌≡◌, Option, none, some, List, [], ◌∷◌, if◌then◌else◌, ◌==◌, list_key, nat_key, is_some,
}
use scuttled.Text.{Text, text, contains_text}
use scuttled.Mailstore.{FilePath}
use scuttled.Users.Sqlite.{Answer, fine, failed, Statement, Query, Database}

-- The columns next to the user name.
pub record Entry : Type 0 where
  pub password_hash : Text
  pub created_at : Text

abbrev pub with_hash : Text → Option Entry → Option Entry
with_hash hash none = none
with_hash hash (some e) = some (record e { password_hash = hash })

abbrev pub found : Option Entry → ℕ
found none = 0
found (some e) = 1

module _ {S Row : Type 0} (db : Database S Row) (path : FilePath)
    (entry : S → Text → Option Entry) where
  -- What a query for a user yields: no row, or one with these columns.
  abbrev pub IsSelected : (username : Text) → Option Entry → List (Answer Row) → Type 0
  IsSelected username none rows = rows ≡ []
  IsSelected username (some e) rows =
      (row : Row) × (rows ≡ fine row ∷ [])
      × (db.column row 0 ≡ fine username)
      × (db.column row 1 ≡ fine e.password_hash)
      × (db.column row 2 ≡ fine e.created_at)

  pub record IsLawful : Type 0 where
    -- To connect changes no row.
    pub connect_keeps : (s : S) (u : Text) → entry (db.connect path s).1 u ≡ entry s u
    -- Nor does a statement that fails.
    pub failed_keeps :
        (c : Statement) (s : S) (m u : Text)
        → (db.execute path c s).0 ≡ failed m
        → entry (db.execute path c s).1 u ≡ entry s u
    pub taken :
        (name hash created : Text) (s : S)
        → is_some (entry s name) ≡ true
        → (m : Text) × ((db.execute path (Statement.insert_user name hash created) s).0 ≡ failed m)
          × (contains_text m (text "UNIQUE constraint failed") ≡ true)
    pub inserted :
        (name hash created : Text) (s : S) (k : ℕ) (u : Text)
        → (db.execute path (Statement.insert_user name hash created) s).0 ≡ fine k
        → entry (db.execute path (Statement.insert_user name hash created) s).1 u ≡ (
            if u == name
            then some (record { password_hash = hash; created_at = created })
            else entry s u)
    pub updated :
        (name hash : Text) (s : S) (k : ℕ) (u : Text)
        → (db.execute path (Statement.update_password_hash hash name) s).0 ≡ fine k
        → (k ≡ found (entry s name))
          × (entry (db.execute path (Statement.update_password_hash hash name) s).1 u
              ≡ (if u == name then with_hash hash (entry s name) else entry s u))
    pub deleted :
        (name : Text) (s : S) (k : ℕ) (u : Text)
        → (db.execute path (Statement.delete_named name) s).0 ≡ fine k
        → (k ≡ found (entry s name))
          × (entry (db.execute path (Statement.delete_named name) s).1 u
              ≡ (if u == name then none else entry s u))
    pub selected :
        (name : Text) (s : S) (rows : List (Answer Row))
        → db.query path (Query.user_named name) s ≡ fine rows
        → IsSelected name (entry s name) rows
