-- ===== src/Server/Outside.antt =====
-- server.rs with session.rs: many clients at once, as long as the authenticator accepts nobody.
use scuttled.Prelude.{ℕ, ◌≡◌, ◌≢◌, refl, true, sym, ◌∙◌, subst, List, [], All}
use scuttled.Text.{Text}
use scuttled.Types.{Credentials}
use scuttled.Error.{ok}
use scuttled.Handlers.{SessionState, SessionContext}
use scuttled.Handlers.BuiltIn.{built_in}
use scuttled.Handlers.Guarding.{IsEntered}
use scuttled.Session.Turns.{Turn, Setup, Session, turn}
use scuttled.Session.Answers.{session_of}
use scuttled.Session.Access.{IsOutside, still_outside}
use scuttled.Session.Server.{IsBuiltIn, turn_entered}
use scuttled.Server.{Client, Serving, ImapServer, Happening, listen_on, listen_on_tls}
use scuttled.Server.Runs.{listen-IsKept}

module _ {S : Type 0} (context : SessionContext S) where
  -- A session with the built-in handlers and without a user.
  abbrev pub IsStranger : Client S → Type 0
  IsStranger c = IsBuiltIn context c.setup × (c.state ≡ SessionState.not_authenticated)

  -- The store is `kept`, and no client is a user.
  abbrev pub IsClosed : (kept : S) → Serving S → Type 0
  IsClosed kept s = (s.store ≡ kept) × All IsStranger s.clients

module _ {S : Type 0} (context : SessionContext S) (upper : ℕ → Text) (server : ImapServer S)
    (kept : S) (nobody : (c : Credentials) → context.authenticate kept c ≢ ok true) where
  turn-IsOutside :
      (setup : Setup S) (t : Turn) (v : Session S)
      → IsBuiltIn context setup
      → IsOutside context kept v
      → IsOutside context kept (session_of (turn setup t v))
  turn-IsOutside setup t v b h =
      let (same, entered) = turn_entered context setup t v b h.1 in
      (
        same ∙ h.0,
        still_outside context kept nobody (session_of (turn setup t v)).state
            (subst (λ k. IsEntered context k (session_of (turn setup t v)).state) h.0 entered),
      )

  -- Many clients at once: however the connections, the turns of the sessions and the failures come, on a
  -- plain or on a TLS listener, as long as the authenticator accepts no credentials, the store stays
  -- what it was and no session belongs to a user; for a server with the built-in handlers and without
  -- sessions at the beginning.
  pub listen-IsClosed :
      (hs : List Happening) (s : Serving S)
      → server.command_handlers ≡ built_in context upper
      → s.store ≡ kept
      → s.clients ≡ []
      → IsClosed context kept (listen_on server upper hs s)
        × IsClosed context kept (listen_on_tls server upper hs s)
  listen-IsClosed hs s built same nobody_yet =
      listen-IsKept context upper server (λ store. store ≡ kept)
        (λ state. state ≡ SessionState.not_authenticated) refl turn-IsOutside built hs s
        (same, subst (All (IsStranger context)) (sym nobody_yet) tt)
