-- ===== src/Users/Sqlite/Logins.antt =====
-- userstore/impl/sqlite.rs under authenticator/impl/basic.rs: who was created can log in.
use scuttled.Prelude.{
  ℕ, Bool, true, false, ◌≡◌, refl, ◌∙◌, ap, Option, some, List, All, arith, if◌then◌else◌, ◌++◌,
  ◌==◌, list_key, nat_key, beq_refl, subst,
}
use scuttled.Text.{Text, text, contains_text}
use scuttled.Types.{DateTime}
use scuttled.Error.{Error, Result, ok, err, is_ok}
use scuttled.Mailstore.{FilePath}
use scuttled.Files.{Action, continue, ◌>>=◌}
use scuttled.Users.{authenticate}
use scuttled.Users.Sqlite.{
  Answer, fine, failed, Statement, Query, Database, or_internal, inserted, connected, create_user,
  get_user, verify_password, sqlite_user_store,
}
use scuttled.Users.Sqlite.Table.{Entry, IsSelected, IsLawful}
use scuttled.Users.Sqlite.Accounts.{
  Call, user_called, insertion, inserted-state, after, after-others,
}

refused : (b : Bool) (e f : Error) → is_ok {A = Unit {0}} (if b then err e else err f) ≡ false
refused true e f = refl
refused false e f = refl

ok_inserted :
    {S : Type 0} (name : Text) (a : Answer ℕ) (s : S)
    → is_ok (inserted name (a, s)).0 ≡ true
    → (k : ℕ) × (a ≡ fine k)
ok_inserted name (fine k) s h = (k, refl)
ok_inserted name (failed m) s h = ground (
  arith,
  h,
  refused (contains_text m (text "UNIQUE constraint failed"))
      (Error.already_exists (text "User already exists: " ++ name)) (Error.database m),
)

module _ {S Row : Type 0} (db : Database S Row) (path : FilePath) (entry : S → Text → Option Entry)
    (lawful : IsLawful db path entry) where
  ok_continued :
      {A B : Type 0} (p : Result A × S) (next : A → Action S B)
      → is_ok (continue p next).0 ≡ true
      → (a : A) × (continue p next ≡ next a p.1)
  ok_continued (ok a, s) next h = (a, refl)
  ok_continued (err e, s) next h = ground (arith, h)

  inserted-entry :
      (name hash created : Text) (s : S)
      → is_ok (inserted name (db.execute path (Statement.insert_user name hash created) s)).0 ≡ true
      → entry (inserted name (db.execute path (Statement.insert_user name hash created) s)).1 name
        ≡ some (record { password_hash = hash; created_at = created })
  inserted-entry name hash created s h =
      let (a, t) = db.execute path (Statement.insert_user name hash created) s in
      let (k, e) = ok_inserted name a t h in
      ap (λ v. entry v name) (inserted-state name a t)
      ∙ lawful.inserted name hash created s k name e
      ∙ rw (beq_refl name) refl

  create_user-entry :
      (hash : Text → Answer Text) (created_at username password h : Text) (s : S)
      → hash password ≡ fine h
      → is_ok (create_user db path hash created_at username password s).0 ≡ true
      → entry (create_user db path hash created_at username password s).1 username
        ≡ some (record { password_hash = h; created_at = created_at })
  unfolding create_user
  create_user-entry hash created_at username password h s e success =
      let next = insertion db path entry lawful username h created_at in
      let went : is_ok (continue (connected db path s) next).0 ≡ true =
        subst
          (λ a.
            is_ok
              (continue (or_internal (text "Failed to hash password: ") a, s)
                (λ g. connected db path >>= insertion db path entry lawful username g created_at)).0
            ≡ true)
          e success in
      let (a, same) = ok_continued (connected db path s) next went in
      rw (e, same)
        (inserted-entry username h created_at (connected db path s).1
          (subst (λ p. is_ok p.0 ≡ true) same went))

  module _ (parse_date : Text → Answer DateTime)
      (verify : (password hash : Text) → Answer Bool) where
    -- The database answers a look-up of this user.
    pub record IsReadable (username : Text) (s : S) : Type 0 where
      pub connects : (db.connect path s).0 ≡ fine tt
      pub rows : List (Answer Row)
      pub answers : db.query path (Query.user_named username) (db.connect path s).1 ≡ fine rows

    verify_password-entry :
        (username password : Text) (e : Entry) (date : DateTime) (b : Bool) (s : S)
        → entry s username ≡ some e
        → parse_date e.created_at ≡ fine date
        → verify password e.password_hash ≡ fine b
        → IsReadable username s
        → (verify_password db path parse_date verify username password s).0 ≡ ok b
    unfolding verify_password get_user
    verify_password-entry username password e date b s there dated v readable =
        let t = (db.connect path s).1 in
        let (row, one, c0, c1, c2) =
          subst (λ o. IsSelected db path entry username o readable.rows)
            (lawful.connect_keeps s username ∙ there)
            (lawful.selected username t readable.rows readable.answers) in
        rw (readable.connects, readable.answers, one, c0, c1, c2, dated, v) refl

    -- Over a table that keeps SQLite's promises: after a create_user that succeeds, and any calls about other
    -- users, whether they succeed or not, authentication with the user name and any password answers what
    -- bcrypt says of that password and the hash of the one that the user was created with; if the
    -- database answers the look-up, and the stored date can be read.
    pub authenticate-create_user :
        (hash : Text → Answer Text) (created_at username password attempt h : Text)
        (date : DateTime) (b : Bool) (cs : List Call) (s : S) (later : Text → Answer Text)
        (now : Text)
        → hash password ≡ fine h
        → parse_date created_at ≡ fine date
        → verify attempt h ≡ fine b
        → is_ok (create_user db path hash created_at username password s).0 ≡ true
        → All (λ c. (username == user_called c) ≡ false) cs
        → IsReadable username (
            after db path entry lawful cs
              (create_user db path hash created_at username password s).1)
        → (authenticate
            (sqlite_user_store db path parse_date verify later now)
            (record { username = username; password = attempt })
            (after db path entry lawful cs
              (create_user db path hash created_at username password s).1)).0
          ≡ ok b
    unfolding authenticate
    authenticate-create_user hash created_at username password attempt h date b cs s later now
          hashed dated v created others readable =
        let t = (create_user db path hash created_at username password s).1 in
        verify_password-entry username attempt
          (record { password_hash = h; created_at = created_at }) date b
          (after db path entry lawful cs t)
          (after-others db path entry lawful username cs t others
            ∙ create_user-entry hash created_at username password h s hashed created)
          dated v readable
