-- ===== src/Session/Server.antt =====
-- Sessions of session.rs with the handlers that server.rs registers.
use scuttled.Prelude.{true, ◌≡◌, ◌≢◌, refl, none, some, List}
use scuttled.Text.{Text, text}
use scuttled.Types.{Credentials}
use scuttled.Error.{Result, ok, err}
use scuttled.Protocol.Responses.{Response}
use scuttled.Handlers.{SessionState, SessionContext, World, write}
use scuttled.Handlers.Answering.{IsReliable}
use scuttled.Handlers.Answering.BuiltIn.{built_in-IsAnswering}
use scuttled.Handlers.Guarding.{built_in-IsGuarded}
use scuttled.Handlers.BuiltIn.{built_in}
use scuttled.Session.Lines.{tag_and_command}
use scuttled.Session.Turns.{Turn, Setup, Session, finished, opened, turn, run, on_line, handle}
use scuttled.Session.Answers
use scuttled.Session.Answers.{IsAnswered, session_of}
use scuttled.Session.Access.{IsShut, IsOutside, turn-IsShut, run-IsOutside}

module _ {S : Type 0} (context : SessionContext S) (setup : Setup S) where
  abbrev pub IsBuiltIn : Type 0
  IsBuiltIn = setup.command_handlers ≡ built_in context setup.upper

  -- Whatever the state of the session, a line that begins with a tag is answered: untagged responses
  -- first, and then one with that tag, as long as the socket takes what is written.
  pub on_line-IsAnswered :
      (t : Turn) (line tag command_line : Text) (s : Session S)
      → IsBuiltIn
      → tag_and_command line ≡ some (tag, command_line)
      → IsReliable s.world.connection
      → IsAnswered tag s (on_line setup t line s)
  on_line-IsAnswered t line tag command_line s b e h =
      Answers.on_line-IsAnswered setup t tag line command_line s e h
        (rw b (built_in-IsAnswering context setup.upper))

  -- One turn of a session without a user, whatever the client sends, leaves the store as it is. The
  -- state becomes a user's only if the authenticator accepts credentials of that user.
  pub turn_entered :
      (t : Turn) (s : Session S)
      → IsBuiltIn
      → s.state ≡ SessionState.not_authenticated
      → IsShut context s.world.store (turn setup t s)
  turn_entered t s b h =
      turn-IsShut context setup t s.world.store (rw b (built_in-IsGuarded context setup.upper)) s
        (refl, h)

  handle_after :
      (turns : List Turn) (w : World S) (p : Result (Unit {0}) × World S)
      → IsBuiltIn
      → ((c : Credentials) → context.authenticate w.store c ≢ ok true)
      → p.1.store ≡ w.store
      → IsOutside context w.store (
          session_of (elim p.0 [
            | ok _ ↦ run setup turns (opened setup p.1)
            | err e ↦ finished (err e) (opened setup p.1)
          ]))
  handle_after turns w (ok _, v) b nobody h =
      run-IsOutside context setup w.store (rw b (built_in-IsGuarded context setup.upper)) nobody
        turns (opened setup v) (h, refl)
  handle_after turns w (err e, v) b nobody h = (h, refl)

  -- A session in which the authenticator accepts no credentials, whatever lines and events come in any
  -- number and whichever writes fail, ends or stands without a user and with the store that it began with.
  pub handle-IsOutside :
      (turns : List Turn) (w : World S)
      → IsBuiltIn
      → ((c : Credentials) → context.authenticate w.store c ≢ ok true)
      → IsOutside context w.store (session_of (handle setup turns w))
  unfolding handle write
  handle-IsOutside turns w b nobody =
      handle_after turns w (write (Response.ok none (text "IMAP server ready")) w) b nobody refl
