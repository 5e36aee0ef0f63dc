-- ===== src/Session/Turns.antt =====
-- The loop of `Session::handle` of session.rs.
use scuttled.Prelude.{
  ℕ, ◌-◌, Bool, true, false, Option, none, some, List, [], ◌∷◌, ◌++◌, if◌then◌else◌, ltb,
}
use scuttled.Text.{Text, text}
use scuttled.Error.{Error, Result, ok, err, error_message}
use scuttled.Protocol.{Command, parse_command}
use scuttled.Protocol.Responses.{Response}
use scuttled.Handlers.{SessionState, World, CommandHandlers, write}
use scuttled.Session.Tags
use scuttled.Session.Tags.{TagHistory}
use scuttled.Session.Lines.{tag_and_command}
use scuttled.Session.Commands.{handle_command}

-- What the three futures of `select!` yield.
pub data Event : Type 0 where
  untagged : Option Response → Event
  line : Text → Event
  eof read_error shutdown : Event

-- One turn: the instants at which the loop begins, and at which it reads the clock for its two checks,
-- what happens then, and how a TLS handshake would end.
pub record Turn : Type 0 where
  pub begun : ℕ
  pub duration_checked : ℕ
  pub idle_checked : ℕ
  pub event : Event
  pub handshake : Result (Unit {0})

-- What does not change during a session.
pub record Setup (S : Type 0) : Type 0 where
  pub session_started : ℕ
  pub max_session_duration : ℕ
  pub max_idle_duration : ℕ
  pub has_tls_acceptor : Bool
  pub upper : ℕ → Text
  pub command_handlers : CommandHandlers S

pub record Session (S : Type 0) : Type 0 where
  pub state : SessionState
  pub tag_history : TagHistory
  pub world : World S

-- The loop goes on, or the session ends.
pub data Outcome (S : Type 0) : Type 0 where
  running : Session S → Outcome S
  finished : Result (Unit {0}) → Session S → Outcome S

module _ {S : Type 0} where
  -- `let _ = connection.write_response(…).await;`
  unfoldable pub say : Response → Session S → Session S
  unfolding write
  say response s = record s { world = (write response s.world).1 }

  -- A write whose failure ends the session quietly.
  abbrev pub go_on : (Session S → Outcome S) → Session S → Result (Unit {0}) × World S → Outcome S
  go_on next s (ok _, w) = next (record s { world = w })
  go_on next s (err _, w) = finished (ok tt) (record s { world = w })

  unfoldable pub say_or_end : Response → Session S → (Session S → Outcome S) → Outcome S
  say_or_end response s next = go_on next s (write response s.world)

  abbrev pub secured : World S → World S
  secured w = record w { connection = record w.connection { is_tls = true } }

  -- `state_update`
  unfoldable pub update_state : Session S → Option SessionState × World S → Outcome S
  update_state s (none, w) = running (record s { world = w })
  update_state s (some SessionState.logout, w) = finished (ok tt) (record s { world = w })
  update_state s (some state, w) = running (record s { state = state; world = w })

  -- The end of the handshake; its error ends the session.
  unfoldable pub upgrade : Session S → Result (Unit {0}) → Outcome S
  upgrade s (ok _) = running (record s { world = secured s.world })
  upgrade s (err e) = finished (err e) s

module _ {S : Type 0} (t : Turn) where
  -- The answer to STARTTLS, by whether the connection is secured and there is an acceptor.
  unfoldable pub answer_starttls : (is_tls has_tls_acceptor : Bool) → Text → Session S → Outcome S
  unfolding say_or_end upgrade
  answer_starttls true has_tls_acceptor tag s =
      say_or_end (Response.bad (some tag) (text "Already using TLS")) s running
  answer_starttls false false tag s =
      say_or_end (Response.bad (some tag) (text "STARTTLS not available")) s running
  answer_starttls false true tag s =
      say_or_end (Response.ok (some tag) (text "Ready for TLS handshake")) s
        (λ v. upgrade v t.handshake)

module _ {S : Type 0} (setup : Setup S) (t : Turn) where
  unfoldable pub starttls : Text → Session S → Outcome S
  unfolding answer_starttls
  starttls tag s = answer_starttls t s.world.connection.is_tls setup.has_tls_acceptor tag s

  unfoldable pub on_command : Text → Session S → Command → Outcome S
  unfolding starttls update_state handle_command
  on_command tag s Command.starttls = starttls tag s
  on_command tag s command =
      update_state s (handle_command setup.upper setup.command_handlers tag command s.state s.world)

  unfoldable pub on_parsed : Text → Session S → Result Command → Outcome S
  unfolding say on_command
  on_parsed tag s (ok command) = on_command tag s command
  on_parsed tag s (err e) =
      running (say (Response.bad (some tag) (text "Parse error: " ++ error_message e)) s)

  unfoldable pub on_registered :
      (tag command_line : Text) → Session S → Result (Unit {0}) × TagHistory → Outcome S
  unfolding say on_parsed parse_command
  on_registered tag command_line s (ok _, history) =
      on_parsed tag (record s { tag_history = history })
        (parse_command setup.upper tag command_line)
  on_registered tag command_line s (err e, history) =
      running (say (Response.bad (some tag) (text "Tag error: " ++ error_message e)) s)

  unfoldable pub on_line : Text → Session S → Outcome S
  unfolding tag_and_command say on_registered Tags.register
  on_line l s = elim (tag_and_command l) [
    | none ↦ running (say (Response.bad none (text "Invalid command format")) s)
    | some (tag, command_line) ↦ on_registered tag command_line s (Tags.register s.tag_history tag)
  ]

  unfoldable pub on_event : Event → Session S → Outcome S
  unfolding say_or_end say on_line
  on_event (Event.untagged none) s = running s
  on_event (Event.untagged (some response)) s = say_or_end response s running
  on_event (Event.line l) s = on_line l s
  on_event Event.eof s = finished (ok tt) s
  on_event Event.read_error s = finished (ok tt) s
  on_event Event.shutdown s = finished (ok tt) (say (Response.bye (text "Server shutdown")) s)

  -- `last_client_interaction` is set at the beginning of the turn, before the checks.
  unfoldable pub turn : Session S → Outcome S
  unfolding say on_event
  turn s =
      if ltb setup.max_session_duration (t.duration_checked - setup.session_started)
      then finished (err (Error.protocol_error (text "Session duration exceeded")))
          (say (Response.bye (text "Session duration exceeded")) s)
      else if ltb setup.max_idle_duration (t.idle_checked - t.begun)
      then finished (err (Error.protocol_error (text "Session idle timeout")))
          (say (Response.bye (text "Session idle timeout")) s)
      else on_event t.event s

module _ {S : Type 0} (setup : Setup S) where
  abbrev pub proceed : Outcome S → (Session S → Outcome S) → Outcome S
  proceed (running s) next = next s
  proceed (finished result s) next = finished result s

  -- The turns up to the end of the session.
  unfoldable pub run : List Turn → Session S → Outcome S
  run [] s = running s
  run (t ∷ ts) s = proceed (turn setup t s) (run ts)

  -- The session behind the greeting, without a user.
  abbrev pub opened : World S → Session S
  opened w = record {
    state = SessionState.not_authenticated;
    tag_history = Tags.with_default_max;
    world = w;
  }

  -- `Session::handle`: the greeting, whose failure ends the session, and then the loop.
  unfoldable pub handle : List Turn → World S → Outcome S
  unfolding write run Tags.new
  handle turns w =
      let (result, v) = write (Response.ok none (text "IMAP server ready")) w in
      elim result [ ok _ ↦ run turns (opened v) | err e ↦ finished (err e) (opened v) ]
