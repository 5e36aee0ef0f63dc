-- ===== src/Session/Commands.antt =====
-- `Session::handle_command_static` of session.rs: the name and the arguments with which a parsed
-- command is given to the registry of handlers.
use scuttled.Prelude.{ℕ, Option, none, some, [], ◌∷◌, ◌++◌}
use scuttled.Text.{Text, text, space}
use scuttled.Protocol.{Command}
use scuttled.Protocol.Responses.{Response}
use scuttled.Handlers.{SessionState, World, CommandHandlers, refuse, dispatch}

-- The `match` on the command; nothing where it is answered at once.
unfoldable pub name_and_args : Command → Option (Text × Text)
name_and_args Command.capability = some (text "CAPABILITY", [])
name_and_args Command.noop = some (text "NOOP", [])
name_and_args Command.logout = some (text "LOGOUT", [])
name_and_args (Command.login username password) = some (text "LOGIN", username ++ space ∷ password)
name_and_args (Command.select mailbox) = some (text "SELECT", mailbox)
name_and_args (Command.create mailbox) = some (text "CREATE", mailbox)
name_and_args (Command.delete mailbox) = some (text "DELETE", mailbox)
name_and_args (Command.list reference pattern) = some (text "LIST", reference ++ space ∷ pattern)
name_and_args (Command.custom name args) = some (name, args)
name_and_args _ = none

unfoldable pub no_handler : Command → Text
no_handler Command.starttls = text "STARTTLS handling error"
no_handler _ = text "Command not yet implemented"

unfoldable pub handle_command :
    {S : Type 0}
    → (ℕ → Text)
    → CommandHandlers S
    → (tag : Text) → Command
    → SessionState
    → World S
    → Option SessionState × World S
unfolding name_and_args no_handler refuse dispatch
handle_command upper handlers tag command current w = elim (name_and_args command) [
  | none ↦ refuse (Response.bad (some tag) (no_handler command)) w
  | some (name, args) ↦ dispatch upper handlers name tag args current w
]
