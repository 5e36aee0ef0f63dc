-- ===== src/Server/Others.antt =====
-- server.rs over the registry of mailboxes/impl/memory.rs: a user whom the authenticator never lets in.
use scuttled.Prelude.{
  ℕ, Bool, true, false, ◌≡◌, ◌≢◌, refl, sym, ap, subst, Option, some, List, [], All, Bool-cases,
  inl, inr, ◌==◌, list_key, nat_key, pair_key, list_beq_iff, get,
}
use scuttled.Text.{Text}
use scuttled.Types.{Credentials}
use scuttled.Error.{Result, ok}
use scuttled.Channel.{Loop}
use scuttled.Mailboxes.{MailboxInfo}
use scuttled.Mailboxes.Memory.{MailboxState}
use scuttled.Handlers.{SessionState, username_of}
use scuttled.Handlers.BuiltIn.{built_in}
use scuttled.Handlers.Confining.{built_in-IsConfined}
use scuttled.Handlers.Guarding.{IsEntered}
use scuttled.Session.Turns.{Turn, Setup, Session, turn}
use scuttled.Session.Answers.{session_of}
use scuttled.Session.Server.{IsBuiltIn, turn_entered}
use scuttled.Session.OtherUsers.{context_of, Has, context_of-IsStable}
use scuttled.Session.Isolation.{turn-IsKept}
use scuttled.Server.{Serving, ImapServer, Happening, listen_on, listen_on_tls}
use scuttled.Server.Runs.{IsClient, IsKept, IsIn, listen-IsKept}

-- States of a session that goes on and does not belong to `v`.
abbrev pub IsOthers : (v : Text) → SessionState → Type 0
IsOthers v SessionState.not_authenticated = Unit
IsOthers v SessionState.logout = ⊥
IsOthers v (SessionState.authenticated u) = (u == v) ≡ false
IsOthers v (SessionState.selected u m) = (u == v) ≡ false

module _ (compile : Text → Option (Text → Bool)) (loop : Loop)
    (authenticate : MailboxState → Credentials → Result Bool) (v : Text)
    (never : (s : MailboxState) (p : Text)
      → authenticate s (record { username = v; password = p }) ≢ ok true)
    (m : Text) (info : Option MailboxInfo) where
  accepted_other :
      (s : MailboxState) (u p : Text)
      → authenticate s (record { username = u; password = p }) ≡ ok true
      → (u == v) ≡ false
  accepted_other s u p granted = elim (Bool-cases (u == v)) [
    | inl e ↦ absurd (
        never s p (
          subst (λ n. authenticate s (record { username = n; password = p }) ≡ ok true)
            ((list_beq_iff u v).0 e) granted))
    | inr e ↦ e
  ]

  entered-IsOthers :
      (s : MailboxState) (state : SessionState)
      → IsEntered (context_of compile loop authenticate) s state
      → IsOthers v state
  entered-IsOthers s SessionState.not_authenticated h = tt
  entered-IsOthers s (SessionState.authenticated u) (p, granted) = accepted_other s u p granted
  entered-IsOthers s SessionState.logout h = h
  entered-IsOthers s (SessionState.selected u n) h = absurd h

  turn_of_user :
      (setup : Setup MailboxState) (t : Turn) (s : Session MailboxState) (u : Text)
      → IsBuiltIn (context_of compile loop authenticate) setup
      → username_of s.state ≡ some u
      → (u == v) ≡ false
      → IsIn (context_of compile loop authenticate) (Has v m info) (IsOthers v) s
      → IsIn
          (context_of compile loop authenticate)
          (Has v m info)
          (IsOthers v)
          (session_of (turn setup t s))
  turn_of_user setup t s u b user other h =
      turn-IsKept u (Has v m info) (IsOthers v) setup t
        (rw b (
          built_in-IsConfined u (Has v m info) (IsOthers v) (context_of compile loop authenticate)
            (context_of-IsStable compile loop authenticate u v m info other)
            (accepted_other, (λ n. other)) setup.upper))
        s user h

  turn_of_state :
      (setup : Setup MailboxState) (t : Turn) (s : Session MailboxState) (state : SessionState)
      → IsBuiltIn (context_of compile loop authenticate) setup
      → s.state ≡ state
      → IsOthers v state
      → IsIn (context_of compile loop authenticate) (Has v m info) (IsOthers v) s
      → IsIn
          (context_of compile loop authenticate)
          (Has v m info)
          (IsOthers v)
          (session_of (turn setup t s))
  turn_of_state setup t s SessionState.not_authenticated b e o h =
      let (same, entered) = turn_entered (context_of compile loop authenticate) setup t s b e in
      (
        subst (Has v m info) (sym same) h.0,
        entered-IsOthers s.world.store (session_of (turn setup t s)).state entered,
      )
  turn_of_state setup t s SessionState.logout b e o h = absurd o
  turn_of_state setup t s (SessionState.authenticated u) b e o h =
      turn_of_user setup t s u b (ap username_of e) o h
  turn_of_state setup t s (SessionState.selected u n) b e o h =
      turn_of_user setup t s u b (ap username_of e) o h

  -- Many clients at once, of any number of users: however the connections, the turns of the sessions and the
  -- failures come, on a plain or on a TLS listener, a mailbox of a user whom the authenticator never
  -- accepts is neither created, deleted nor changed, and no session comes to belong to that user; for a server
  -- with the built-in handlers and without sessions at the beginning.
  pub listen-other_user :
      (upper : ℕ → Text) (server : ImapServer MailboxState) (hs : List Happening)
      (s : Serving MailboxState)
      → server.command_handlers ≡ built_in (context_of compile loop authenticate) upper
      → get s.store.mailboxes (v, m) ≡ info
      → s.clients ≡ []
      → IsKept
          (context_of compile loop authenticate)
          (Has v m info)
          (IsOthers v)
          (listen_on server upper hs s)
        × IsKept
            (context_of compile loop authenticate)
            (Has v m info)
            (IsOthers v)
            (listen_on_tls server upper hs s)
  listen-other_user upper server hs s built there nobody_yet =
      listen-IsKept (context_of compile loop authenticate) upper server (Has v m info) (IsOthers v)
        tt (λ setup t x b h. turn_of_state setup t x x.state b refl h.1 h) built hs s
        (
          there,
          subst (All (IsClient (context_of compile loop authenticate) (Has v m info) (IsOthers v)))
              (sym nobody_yet) tt,
        )
