-- ===== src/Server.antt =====
-- server.rs: the server's settings, and its accept loops with the sessions that they spawn over one store.
pub mod Runs
pub mod Outside
pub mod Others
pub mod Handshakes
use scuttled.Prelude.{
  ℕ, zero, suc, ◌*◌, Bool, true, false, Option, none, some, List, [], ◌∷◌, ◌++◌, if◌then◌else◌, ◌⊎◌,
  inl, inr,
}
use scuttled.Text.{Text, text}
use scuttled.Error.{Error, Result, ok, err}
use scuttled.Files.{Bytes}
use scuttled.Connection.{Connection}
use scuttled.Handlers.{SessionState, SessionContext, CommandHandler, CommandHandlers, register}
use scuttled.Handlers.BuiltIn.{built_in}
use scuttled.Session.Tags.{TagHistory}
use scuttled.Session.Turns.{Turn, Setup, Session, Outcome, running, finished, turn, handle}

-- A Duration is a number of nanoseconds.
abbrev from_secs : ℕ → ℕ
from_secs n = n * 1000000000

abbrev pub default_max_session_duration : ℕ
default_max_session_duration = from_secs 3600

abbrev pub default_max_idle_duration : ℕ
default_max_idle_duration = from_secs 1800

-- The stores, which only the handlers use, come with the context of `built_in`.
pub record ImapServer (S : Type 0) : Type 0 where
  pub command_handlers : CommandHandlers S
  pub max_session_duration : ℕ
  pub max_idle_duration : ℕ
  pub has_tls_acceptor : Bool

-- A spawned session: all of it but the store, and whether it has ended.
pub record Client (S : Type 0) : Type 0 where
  pub setup : Setup S
  pub state : SessionState
  pub tag_history : TagHistory
  pub connection : Connection
  pub is_over : Bool

-- The store that the sessions share, the sessions in the order of their connections, and the error with
-- which the accept loop has ended, if it has.
pub record Serving (S : Type 0) : Type 0 where
  pub store : S
  pub clients : List (Client S)
  pub ended : Option Error

-- What a turn of the accept loop meets: `accept` fails; the connection is of no use, since it has no peer or
-- its TLS handshake fails; or a session can begin, at this instant.
pub data Accept : Type 0 where
  failed : Error → Accept
  unusable : Text → Accept
  usable : Connection → (now : ℕ) → Accept

-- The accept loop or the session with this number goes one turn further.
pub data Happening : Type 0 where
  accept : Accept → Happening
  turn_of : ℕ → Turn → Happening

module _ {S : Type 0} where
  unfoldable pub new : SessionContext S → (upper : ℕ → Text) → ImapServer S
  unfolding built_in
  new context upper = record {
    command_handlers = built_in context upper;
    max_session_duration = default_max_session_duration;
    max_idle_duration = default_max_idle_duration;
    has_tls_acceptor = false;
  }

  unfoldable pub with_max_session_duration : ℕ → ImapServer S → ImapServer S
  with_max_session_duration duration server = record server { max_session_duration = duration }

  unfoldable pub with_max_idle_duration : ℕ → ImapServer S → ImapServer S
  with_max_idle_duration duration server = record server { max_idle_duration = duration }

  -- The native_tls crate makes acceptors of identities, or says why it does not.
  module _ {Identity : Type 0} (acceptor_error : Identity → Option Text) where
    unfoldable pub with_tls_identity : Identity → ImapServer S → Result (ImapServer S)
    with_tls_identity identity server = elim (acceptor_error identity) [
      | none ↦ ok (record server { has_tls_acceptor = true })
      | some m ↦ err (Error.tls_error (text "Failed to create TLS acceptor: " ++ m))
    ]

    unfoldable pub with_tls_pem :
        (from_pkcs8 : (cert_pem key_pem : Bytes) → Identity ⊎ Text)
        → (cert_pem key_pem : Bytes) → ImapServer S
        → Result (ImapServer S)
    unfolding with_tls_identity
    with_tls_pem from_pkcs8 cert_pem key_pem server = elim (from_pkcs8 cert_pem key_pem) [
      | inl identity ↦ with_tls_identity identity server
      | inr m ↦ err (Error.tls_error (text "Failed to create identity from PEM: " ++ m))
    ]

  unfoldable pub register_handler :
      (upper : ℕ → Text) → CommandHandler S → ImapServer S → Result (Unit {0}) × ImapServer S
  unfolding register
  register_handler upper handler server =
      let (result, handlers) = register upper server.command_handlers handler in
      (result, record server { command_handlers = handlers })

  -- What a session takes from the server: `Session::new` and the acceptor.
  unfoldable pub new_session : ImapServer S → (upper : ℕ → Text) → (now : ℕ) → Setup S
  new_session server upper now = record {
    session_started = now;
    max_session_duration = server.max_session_duration;
    max_idle_duration = server.max_idle_duration;
    has_tls_acceptor = server.has_tls_acceptor;
    upper = upper;
    command_handlers = server.command_handlers;
  }

  abbrev pub parted : Setup S → Session S → (is_over : Bool) → Client S × S
  parted setup s is_over = (
    record {
      setup = setup;
      state = s.state;
      tag_history = s.tag_history;
      connection = s.world.connection;
      is_over = is_over;
    },
    s.world.store,
  )

  -- A session between two turns.
  abbrev pub suspended : Setup S → Outcome S → Client S × S
  suspended setup (running s) = parted setup s false
  suspended setup (finished result s) = parted setup s true

  abbrev pub resumed : Client S → S → Session S
  resumed c store = record {
    state = c.state;
    tag_history = c.tag_history;
    world = record { connection = c.connection; store = store };
  }

  -- `tokio::spawn`: the session greets its client, and waits for the first turn.
  unfoldable pub spawn : Setup S → Connection → Serving S → Serving S
  unfolding handle
  spawn setup connection s =
      let (c, store) =
        suspended setup (handle setup [] (record { connection = connection; store = s.store })) in
      record s { store = store; clients = s.clients ++ c ∷ [] }

  unfoldable pub client_turn : Turn → Client S → S → Client S × S
  unfolding turn
  client_turn t c store =
      if c.is_over then (c, store) else suspended c.setup (turn c.setup t (resumed c store))

  unfoldable pub turn_at : ℕ → Turn → List (Client S) → S → List (Client S) × S
  unfolding client_turn
  turn_at i t [] store = ([], store)
  turn_at zero t (c ∷ cs) store = let (d, v) = client_turn t c store in (d ∷ cs, v)
  turn_at (suc i) t (c ∷ cs) store = let (ds, v) = turn_at i t cs store in (c ∷ ds, v)

module _ {S : Type 0} (server : ImapServer S) (upper : ℕ → Text) where
  -- One turn of the loop of listen_on: a connection that is of no use is skipped.
  unfoldable pub accept_plain : Accept → Serving S → Serving S
  unfolding new_session spawn
  accept_plain (Accept.failed e) s = record s { ended = some e }
  accept_plain (Accept.unusable m) s = s
  accept_plain (Accept.usable connection now) s =
      spawn (new_session server upper now) (record connection { is_tls = false }) s

  -- One turn of the loop of listen_on_tls: the error of a handshake ends it.
  unfoldable pub accept_tls : Accept → Serving S → Serving S
  unfolding new_session spawn
  accept_tls (Accept.failed e) s = record s { ended = some e }
  accept_tls (Accept.unusable m) s = record s {
    ended = some (Error.tls_error (text "TLS handshake failed: " ++ m));
  }
  accept_tls (Accept.usable connection now) s =
      spawn (new_session server upper now) (record connection { is_tls = true }) s

  -- A loop that has ended accepts nothing; the sessions go on.
  abbrev pub unless_ended : (Serving S → Serving S) → Option Error → Serving S → Serving S
  unless_ended step none s = step s
  unless_ended step (some e) s = s

  abbrev pub happen : (Accept → Serving S → Serving S) → Happening → Serving S → Serving S
  happen step (Happening.accept a) s = unless_ended (step a) s.ended s
  happen step (Happening.turn_of i t) s =
      let (clients, store) = turn_at i t s.clients s.store in
      record s { clients = clients; store = store }

  abbrev pub serve : (Accept → Serving S → Serving S) → List Happening → Serving S → Serving S
  serve step [] s = s
  serve step (h ∷ hs) s = serve step hs (happen step h s)

  unfoldable pub listen_on : List Happening → Serving S → Serving S
  unfolding accept_plain turn_at
  listen_on hs s = serve accept_plain hs s

  unfoldable pub listen_on_tls : List Happening → Serving S → Serving S
  unfolding accept_tls turn_at
  listen_on_tls hs s = if server.has_tls_acceptor then serve accept_tls hs s else record s {
    ended = some (
        Error.tls_error
          (text "TLS not configured. Call with_tls_identity() or with_tls_pem() first."));
  }

  -- `TcpListener::bind(addr).await?`
  abbrev pub when_bound : Result (Unit {0}) → (Serving S → Serving S) → Serving S → Serving S
  when_bound (ok _) next s = next s
  when_bound (err e) next s = record s { ended = some e }

  unfoldable pub listen : (bound : Result (Unit {0})) → List Happening → Serving S → Serving S
  unfolding listen_on
  listen bound hs s = when_bound bound (listen_on hs) s

  -- The acceptor is looked for before the address is bound.
  unfoldable pub listen_tls : (bound : Result (Unit {0})) → List Happening → Serving S → Serving S
  unfolding listen_on_tls
  listen_tls bound hs s =
      if server.has_tls_acceptor then when_bound bound (listen_on_tls hs) s else listen_on_tls hs s
