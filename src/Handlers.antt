-- ===== src/Handlers.antt =====
-- session_context.rs, command_handler.rs and command_handlers.rs: the session's state, a command
-- handler as a record, and the registry that checks what a handler requires before it runs.
pub mod Account
pub mod Cells
pub mod Folders
pub mod Patterns
pub mod Listing
pub mod BuiltIn
pub mod Registered
pub mod Answering
pub mod Guarding
pub mod Confining
use scuttled.Prelude.{
  ℕ, Bool, true, false, not, ◌&&◌, Option, none, some, List, [], ◌∷◌, ◌++◌, if◌then◌else◌, is_empty,
  nat_key, list_key, HashMap, get, contains_key, insert, map,
}
use scuttled.Text.{Text, text, to_uppercase}
use scuttled.Types.{Credentials}
use scuttled.Error.{Error, Result, ok, err, error_message}
use scuttled.Protocol.Responses.{Response}
use scuttled.Connection.{Connection, write_response}
use scuttled.Mailboxes.{Mailboxes}

pub data SessionState : Type 0 where
  not_authenticated logout : SessionState
  authenticated : (username : Text) → SessionState
  selected : (username mailbox : Text) → SessionState

-- The `match` with which handlers find the user.
abbrev pub username_of : SessionState → Option Text
username_of (SessionState.authenticated username) = some username
username_of (SessionState.selected username mailbox) = some username
username_of _ = none

-- What a handler reaches through the context: the registry of mailboxes and the authenticator, over
-- the store `S` that they share.
pub record SessionContext (S : Type 0) : Type 0 where
  pub mailboxes : Mailboxes S
  pub authenticate : S → Credentials → Result Bool

pub record World (S : Type 0) : Type 0 where
  pub connection : Connection
  pub store : S

module _ {S : Type 0} where
  -- `connection.write_response(&response).await`
  unfoldable pub write : Response → World S → Result (Unit {0}) × World S
  unfolding write_response
  write response w =
      let (result, c) = write_response w.connection response in
      (result, record w { connection = c })

  -- The operator `?`.
  abbrev pub attempt {ℓ} :
      {A : Type ℓ} {B : Type 0}
      → Result A × World S
      → (A → World S → Result B × World S)
      → Result B × World S
  attempt (ok a, w) next = next a w
  attempt (err e, w) next = (err e, w)

  -- `write_response(&response).await?; Ok(next)`
  unfoldable pub answer :
      Response → Option SessionState → World S → Result (Option SessionState) × World S
  unfolding write
  answer response next w = attempt (write response w) (λ _ v. (ok next, v))

-- The trait.
pub record CommandHandler (S : Type 0) : Type 0 where
  pub command_name : Text
  pub requires_auth : Bool
  pub requires_selected_mailbox : Bool
  pub handle : (tag args : Text) → SessionState → World S → Result (Option SessionState) × World S

abbrev pub CommandHandlers : Type 0 → Type 0
CommandHandlers S = HashMap Text (CommandHandler S)

abbrev pub is_authenticated : SessionState → Bool
is_authenticated SessionState.not_authenticated = false
is_authenticated _ = true

abbrev pub is_selected : SessionState → Bool
is_selected (SessionState.selected username mailbox) = true
is_selected _ = false

module _ {S : Type 0} where
  unfoldable pub list_commands : CommandHandlers S → List Text
  list_commands handlers = map (λ entry. entry.0) handlers

  -- `let _ = connection.write_response(&response).await; return None;`
  unfoldable pub refuse : Response → World S → Option SessionState × World S
  unfolding write
  refuse response w = (none, (write response w).1)

  -- An error of the handler is written as a BAD response.
  unfoldable pub conclude :
      Text → Result (Option SessionState) × World S → Option SessionState × World S
  unfolding refuse
  conclude tag (ok next, w) = (next, w)
  conclude tag (err e, w) =
      refuse (Response.bad (some tag) (text "Handler error: " ++ error_message e)) w

  -- The handler is run where the session's state is what it requires.
  unfoldable pub run :
      CommandHandler S → (tag args : Text) → SessionState → World S → Option SessionState × World S
  unfolding refuse conclude
  run handler tag args current w =
      if handler.requires_auth && not (is_authenticated current)
      then refuse (Response.no (some tag) (text "Command requires authentication")) w
      else if handler.requires_selected_mailbox && not (is_selected current)
      then refuse (Response.no (some tag) (text "Command requires a selected mailbox")) w
      else conclude tag (handler.handle tag args current w)

module _ {S : Type 0} (upper : ℕ → Text) where
  unfoldable pub register :
      CommandHandlers S → CommandHandler S → Result (Unit {0}) × CommandHandlers S
  unfolding to_uppercase contains_key insert
  register handlers handler =
      let name = to_uppercase upper handler.command_name in
      if contains_key handlers name
      then (err (Error.internal (text "Command handler already registered: " ++ name)), handlers)
      else (ok tt, insert handlers name handler)

  unfoldable pub find : CommandHandlers S → Text → Option (CommandHandler S)
  unfolding to_uppercase get
  find handlers name = get handlers (to_uppercase upper name)

  unfoldable pub has_command : CommandHandlers S → Text → Bool
  unfolding to_uppercase contains_key
  has_command handlers name = contains_key handlers (to_uppercase upper name)

  -- `CommandHandlers::handle`
  unfoldable pub dispatch :
      CommandHandlers S
      → (name tag args : Text) → SessionState
      → World S
      → Option SessionState × World S
  unfolding find run refuse
  dispatch handlers name tag args current w = elim (find handlers name) [
    | none ↦ refuse (Response.bad (some tag) (text "Unknown command: " ++ name)) w
    | some handler ↦ run handler tag args current w
  ]
