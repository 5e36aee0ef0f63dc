-- ===== src/Users.antt =====
-- userstore/mod.rs, authenticator/mod.rs and authenticator/impl/basic.rs: the traits of user stores and of
-- authenticators, and the authenticator that asks a user store.
pub mod Sqlite
use scuttled.Prelude.{Bool, Option, none, some, List}
use scuttled.Text.{Text}
use scuttled.Types.{User, Credentials}
use scuttled.Files.{Action, pure}

pub record UserStore (S : Type 0) : Type 0 where
  pub create_user : (username password : Text) → Action S (Unit {0})
  pub get_user : (username : Text) → Action S (Option User)
  pub update_password : (username new_password : Text) → Action S (Unit {0})
  pub delete_user : (username : Text) → Action S (Unit {0})
  pub list_users : Action S (List Text)
  pub verify_password : (username password : Text) → Action S Bool

pub record Authenticator (S : Type 0) : Type 0 where
  pub authenticate : Credentials → Action S Bool
  pub validate_token : Text → Action S (Option Text)

module _ {S : Type 0} (user_store : UserStore S) where
  unfoldable pub authenticate : Credentials → Action S Bool
  authenticate credentials = user_store.verify_password credentials.username credentials.password

  unfoldable pub validate_token : Text → Action S (Option Text)
  validate_token token = pure none

  -- `impl Authenticator for BasicAuthenticator`
  abbrev pub basic_authenticator : Authenticator S
  basic_authenticator = record { authenticate = authenticate; validate_token = validate_token }
