-- ===== src/Examples/Sessions.antt =====
-- session.rs with the handlers of server.rs over an in-memory registry: a client logs in, creates a
-- mailbox and leaves.
use scuttled.Prelude.{
  ℕ, Bool, true, false, ◌≡◌, refl, Option, none, some, List, [], ◌∷◌, list_beq, ◌==◌, list_key,
  nat_key, pair_key, get, ◌≤◌, arith, length,
}
use scuttled.Text.{Text, text, space, is_whitespace, split_whitespace, join, to_uppercase}
use scuttled.Types.{Credentials}
use scuttled.Error.{Result, ok}
use scuttled.Channel.{Loop}
use scuttled.Protocol.{Command, parse_command}
use scuttled.Protocol.Responses.{Response}
use scuttled.Mailboxes.Memory
use scuttled.Mailboxes.Memory.{MailboxState}
use scuttled.Mailboxes.Memory.Handle.{in_memory_mailboxes}
use scuttled.Handlers.{SessionState, SessionContext, World}
use scuttled.Handlers.BuiltIn.{built_in}
use scuttled.Protocol.RoundTrip.{spell}
use scuttled.Handlers.{answer}
use scuttled.Handlers.Account.{login, logout}
use scuttled.Handlers.Folders.{create}
use scuttled.Mailboxes.Memory.Handle
use scuttled.Session.Commands.{name_and_args}
use scuttled.Session.Logins.{login_empty_password}
use scuttled.Session.Tags
use scuttled.Session.Tags.History.{accepted, AreFresh, accepted-AreFresh}
use scuttled.Session.Turns.{Event, Turn, Setup, Session, opened, turn, run, handle, on_line}
use scuttled.Session.Lines.{tag_and_command}
use scuttled.Session.Answers.{IsAnswered, session_of}
use scuttled.Session.Access.{IsShut, IsOutside}
use scuttled.Session.Server.{on_line-IsAnswered, turn_entered, handle-IsOutside}
use scuttled.Session.OtherUsers.{context_of, turn-other_user}

abbrev pub same_case : ℕ → Text
same_case c = c ∷ []

abbrev pub no_regex : Text → Option (Text → Bool)
no_regex pattern = none

-- Everybody's password is `secret`.
abbrev authenticate : MailboxState → Credentials → Result Bool
authenticate s c = ok (c.password == text "secret")

abbrev pub context : SessionContext MailboxState
context = context_of no_regex Loop.running authenticate

-- Nobody gets in.
abbrev pub closed : SessionContext MailboxState
closed = context_of no_regex Loop.running (λ s c. ok false)

abbrev setup_of : SessionContext MailboxState → Setup MailboxState
setup_of c = record {
  session_started = 0;
  max_session_duration = 1000;
  max_idle_duration = 100;
  has_tls_acceptor = true;
  upper = same_case;
  command_handlers = built_in c same_case;
}

abbrev pub plain : World MailboxState
plain = record {
  connection = record { sent = []; attempts = 0; fault = λ n. none; is_tls = false };
  store = Memory.new;
}

abbrev client : Session MailboxState
client = opened (setup_of context) plain

abbrev pub says : Text → Turn
says l = record {
  begun = 1;
  duration_checked = 1;
  idle_checked = 1;
  event = Event.line l;
  handshake = ok tt;
}

abbrev pub login_line : Text
login_line = text "a1 LOGIN alice secret"

abbrev login_command : Text
login_command = text "LOGIN alice secret"

on_line-IsAnswered_example :
    IsAnswered (text "a1") client (on_line (setup_of context) (says login_line) login_line client)
unfolding text tag_and_command
on_line-IsAnswered_example =
    on_line-IsAnswered context (setup_of context) (says login_line) login_line (text "a1")
      login_command client refl refl (λ n. refl)

turn_entered_example : IsShut context Memory.new (turn (setup_of context) (says login_line) client)
turn_entered_example = turn_entered context (setup_of context) (says login_line) client refl refl

abbrev attack : List Turn
attack = says login_line ∷ says (text "a2 CREATE Stolen") ∷ says (text "a3 DELETE Drafts") ∷ []

handle-IsOutside_example :
    IsOutside closed Memory.new (session_of (handle (setup_of closed) attack plain))
handle-IsOutside_example = handle-IsOutside closed (setup_of closed) attack plain refl (λ c e. cc)

abbrev alice_session : Session MailboxState
alice_session = record client { state = SessionState.authenticated (text "alice") }

turn-other_user_example :
    get
      (session_of (
        turn
          (setup_of context)
          (says (text "a2 CREATE INBOX"))
          alice_session)).world.store.mailboxes
      (text "bob", text "INBOX")
    ≡ get alice_session.world.store.mailboxes (text "bob", text "INBOX")
unfolding text list_beq
turn-other_user_example =
    turn-other_user no_regex Loop.running authenticate (setup_of context)
      (says (text "a2 CREATE INBOX")) alice_session (text "alice") (text "bob") (text "INBOX") refl
      refl refl

-- A whole session: what the client reads.
abbrev visit : List Turn
visit = says login_line ∷ says (text "a2 CREATE Sent") ∷ says (text "a3 LOGOUT") ∷ []

visit_sent :
    (session_of (run (setup_of context) visit client)).world.connection.sent
    ≡ Response.ok (some (text "a1")) (text "LOGIN completed")
      ∷ Response.ok (some (text "a2")) (text "CREATE completed for Sent")
      ∷ Response.bye (text "Logging out")
      ∷ Response.ok (some (text "a3")) (text "LOGOUT completed")
      ∷ []
unfolding run turn text list_beq built_in to_uppercase Tags.new split_whitespace is_whitespace login
    create Handle.create_mailbox Memory.new logout
visit_sent = refl

login_empty_password_example :
    (c : Command) × (args : Text) × (parse_command same_case
        (text "a1")
        (join (space ∷ []) (spell (Command.login (text "alice") [])))
      ≡ ok c)
    × (name_and_args c ≡ some (text "LOGIN", args))
    × (login context (text "a1") args SessionState.not_authenticated plain
        ≡ answer (Response.bad (some (text "a1")) (text "Invalid LOGIN syntax")) none plain)
unfolding text is_whitespace
login_empty_password_example =
    login_empty_password context same_case (text "a1") (text "alice") SessionState.not_authenticated
      plain (assumption refl, assumption refl) (assumption refl)

accepted-AreFresh_example :
    AreFresh [] (accepted (Tags.new 2) (text "a" ∷ text "a" ∷ text "b" ∷ text "c" ∷ []))
    × (length (accepted (Tags.new 2) (text "a" ∷ text "a" ∷ text "b" ∷ text "c" ∷ [])) ≤ 2)
unfolding Tags.new Tags.register list_beq text
accepted-AreFresh_example =
    accepted-AreFresh (text "a" ∷ text "a" ∷ text "b" ∷ text "c" ∷ []) (Tags.new 2) (omega arith)
