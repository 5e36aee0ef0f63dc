-- ===== src/Session/Logins.antt =====
-- How the arguments of LOGIN travel from the line through protocol.rs and session.rs to handlers/login.rs:
-- the session joins the parsed words again, and the handler splits them again.
use scuttled.Prelude.{ℕ, ◌≡◌, refl, none, some, [], ◌∷◌, ◌++◌}
use scuttled.Text.{Text, text, space, is_whitespace, split_whitespace, join}
use scuttled.Text.Words.{IsWord, split_whitespace-append, split_whitespace_word}
use scuttled.Error.{ok}
use scuttled.Protocol.{Command, parse_command}
use scuttled.Protocol.Responses.{Response}
use scuttled.Protocol.RoundTrip.{IsArg, spell, parse_command-spell}
use scuttled.Handlers.{SessionState, SessionContext, World, answer}
use scuttled.Handlers.Account.{login_args, conclude_login, login}
use scuttled.Session.Commands.{name_and_args}

login_args_pair : (u p : Text) → IsWord u → IsWord p → login_args (u ++ space ∷ p) ≡ some (u, p)
unfolding login_args is_whitespace
login_args_pair u p h k = rw (split_whitespace-append u space p h refl, split_whitespace_word p k)

login_args_blank : (u : Text) → IsWord u → login_args (u ++ space ∷ []) ≡ none
unfolding login_args is_whitespace split_whitespace
login_args_blank u h = rw (split_whitespace-append u space [] h refl)

-- A LOGIN line with a quoted user name and password, both not empty and without white space and
-- quotes, asks the authenticator about exactly that name and password.
pub login-spell :
    {S : Type 0} (context : SessionContext S) (upper : ℕ → Text) (tag u p : Text)
    (current : SessionState) (w : World S)
    → IsArg u
    → IsArg p
    → IsWord u
    → IsWord p
    → (c : Command) × (args : Text) × (parse_command upper tag
          (join (space ∷ []) (spell (Command.login u p)))
        ≡ ok c)
      × (name_and_args c ≡ some (text "LOGIN", args))
      × (login context tag args current w
          ≡ conclude_login tag u
              (context.authenticate w.store (record { username = u; password = p }))
              w)
unfolding name_and_args login
login-spell context upper tag u p current w a b h k = (
  Command.login u p,
  u ++ space ∷ p,
  parse_command-spell upper tag (Command.login u p) (a, b),
  refl,
  rw (login, login_args_pair u p h k),
)

-- With an empty password the line is parsed all the same, but the handler answers BAD and does not ask
-- the authenticator.
pub login_empty_password :
    {S : Type 0} (context : SessionContext S) (upper : ℕ → Text) (tag u : Text)
    (current : SessionState) (w : World S)
    → IsArg u
    → IsWord u
    → (c : Command) × (args : Text) × (parse_command upper tag
          (join (space ∷ []) (spell (Command.login u [])))
        ≡ ok c)
      × (name_and_args c ≡ some (text "LOGIN", args))
      × (login context tag args current w
          ≡ answer (Response.bad (some tag) (text "Invalid LOGIN syntax")) none w)
unfolding name_and_args login
login_empty_password context upper tag u current w a h = (
  Command.login u [],
  u ++ space ∷ [],
  parse_command-spell upper tag (Command.login u []) (a, (tt, tt)),
  refl,
  rw (login, login_args_blank u h),
)
