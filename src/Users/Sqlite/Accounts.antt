-- ===== src/Users/Sqlite/Accounts.antt =====
-- Calls of userstore/impl/sqlite.rs: what they leave of the users that they are not about.
use scuttled.Prelude.{
  ℕ, false, ◌≡◌, refl, ◌∙◌, ap, Option, List, [], ◌∷◌, All, arith, ◌==◌, list_key, nat_key,
}
use scuttled.Text.{Text, text}
use scuttled.Error.{Result, ok, err}
use scuttled.Mailstore.{FilePath}
use scuttled.Files.{Action, continue, ◌>>=◌, ◌>>◌}
use scuttled.Users.Sqlite.{
  Answer, fine, failed, Statement, Database, or_internal, inserted, connected, execute, returned,
  some_affected, create_user, update_password, delete_user,
}
use scuttled.Users.Sqlite.Table.{Entry, IsLawful}

-- A call of the store, with what bcrypt makes of the password this time.
pub data Call : Type 0 where
  create : (hash : Text → Answer Text) → (created_at username password : Text) → Call
  update : (hash : Text → Answer Text) → (username new_password : Text) → Call
  delete : (username : Text) → Call

abbrev pub user_called : Call → Text
user_called (Call.create hash created_at username password) = username
user_called (Call.update hash username new_password) = username
user_called (Call.delete username) = username

pub inserted-state :
    {S : Type 0} (name : Text) (a : Answer ℕ) (s : S) → (inserted name (a, s)).1 ≡ s
inserted-state name (fine k) s = refl
inserted-state name (failed m) s = refl

module _ {S Row : Type 0} (db : Database S Row) (path : FilePath) (entry : S → Text → Option Entry)
    (lawful : IsLawful db path entry) where
  abbrev pub perform : Call → Action S (Unit {0})
  perform (Call.create hash created_at username password) =
      create_user db path hash created_at username password
  perform (Call.update hash username new_password) =
      update_password db path hash username new_password
  perform (Call.delete username) = delete_user db path username

  abbrev pub after : List Call → S → S
  after [] s = s
  after (c ∷ cs) s = after cs (perform c s).1

  abbrev pub insertion : (name hash created : Text) → Unit {0} → Action S (Unit {0})
  insertion name hash created x s =
      inserted name (db.execute path (Statement.insert_user name hash created) s)

  module _ (u : Text) where
    abbrev pub Keeps : {A : Type 0} → Action S A → Type 0
    Keeps action = (s : S) → entry (action s).1 u ≡ entry s u

    continue-Keeps :
        {A B : Type 0} (p : Result A × S) (next : A → Action S B) (s : S)
        → entry p.1 u ≡ entry s u
        → ((a : A) → Keeps (next a))
        → entry (continue p next).1 u ≡ entry s u
    continue-Keeps (ok a, t) next s h k = k a t ∙ h
    continue-Keeps (err e, t) next s h k = h

    returned-Keeps :
        {A B : Type 0} (r : Result A) (next : A → Action S B)
        → ((a : A) → Keeps (next a))
        → Keeps (returned r >>= next)
    returned-Keeps r next k s = continue-Keeps (r, s) next s refl k

    connected-Keeps :
        {B : Type 0} (next : Unit {0} → Action S B)
        → ((x : Unit {0}) → Keeps (next x))
        → Keeps (connected db path >>= next)
    connected-Keeps next k s =
        continue-Keeps (connected db path s) next s (lawful.connect_keeps s u) k

    statement_keeps :
        (statement : Statement) (s : S) (a : Answer ℕ)
        → (db.execute path statement s).0 ≡ a
        → ((k : ℕ)
            → (db.execute path statement s).0 ≡ fine k
            → entry (db.execute path statement s).1 u ≡ entry s u)
        → entry (db.execute path statement s).1 u ≡ entry s u
    statement_keeps statement s (fine k) h law = law k h
    statement_keeps statement s (failed m) h law = lawful.failed_keeps statement s m u h

    some_affected-Keeps : (name : Text) (k : ℕ) → Keeps (some_affected name k)
    some_affected-Keeps name k s = ground arith

    executed-Keeps :
        (statement : Statement) (name : Text)
        → ((s : S) (k : ℕ)
            → (db.execute path statement s).0 ≡ fine k
            → entry (db.execute path statement s).1 u ≡ entry s u)
        → Keeps (execute db path statement >>= some_affected name)
    executed-Keeps statement name law s =
        continue-Keeps (execute db path statement s) (some_affected name) s
          (statement_keeps statement s (db.execute path statement s).0 refl (law s))
          (some_affected-Keeps name)

    perform-Keeps : (c : Call) → (u == user_called c) ≡ false → Keeps (perform c)
    unfolding create_user update_password delete_user
    perform-Keeps (Call.create hash created_at username password) other =
        returned-Keeps (or_internal (text "Failed to hash password: ") (hash password))
          (λ h. connected db path >>= insertion username h created_at)
          (λ h. connected-Keeps (insertion username h created_at) (λ x s.
            ap (λ t. entry t u)
              (inserted-state username
                (db.execute path (Statement.insert_user username h created_at) s).0
                (db.execute path (Statement.insert_user username h created_at) s).1)
            ∙ statement_keeps (Statement.insert_user username h created_at) s
                (db.execute path (Statement.insert_user username h created_at) s).0 refl
                (λ k e. lawful.inserted username h created_at s k u e ∙ rw other refl)))
    perform-Keeps (Call.update hash username new_password) other =
        returned-Keeps (or_internal (text "Failed to hash password: ") (hash new_password))
          (λ h.
            connected db path
            >> (execute db path (Statement.update_password_hash h username)
                >>= some_affected username))
          (λ h.
            connected-Keeps
              (λ x.
                execute db path (Statement.update_password_hash h username)
                >>= some_affected username)
              (λ x.
                executed-Keeps (Statement.update_password_hash h username) username
                  (λ s k e. (lawful.updated username h s k u e).1 ∙ rw other refl)))
    perform-Keeps (Call.delete username) other =
        connected-Keeps
          (λ x. execute db path (Statement.delete_named username) >>= some_affected username)
          (λ x.
            executed-Keeps (Statement.delete_named username) username
              (λ s k e. (lawful.deleted username s k u e).1 ∙ rw other refl))

    pub after-others :
        (cs : List Call) (s : S)
        → All (λ c. (u == user_called c) ≡ false) cs
        → entry (after cs s) u ≡ entry s u
    after-others [] s h = refl
    after-others (c ∷ cs) s h = after-others cs (perform c s).1 h.1 ∙ perform-Keeps c h.0 s
