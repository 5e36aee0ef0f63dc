-- ===== src/Server/Runs.antt =====
-- server.rs: what one turn of a session keeps, the server keeps, however the turns of many sessions and the
-- connections are interleaved.
use scuttled.Prelude.{
  ℕ, zero, suc, Bool, true, false, Option, none, some, List, [], ◌∷◌, ◌++◌, All, if◌then◌else◌,
  Bool-cases, inl, inr, ◌≡◌,
}
use scuttled.Text.{Text, text}
use scuttled.Error.{Error, Result, ok, err}
use scuttled.Protocol.Responses.{Response}
use scuttled.Connection.{Connection}
use scuttled.Handlers.{SessionState, SessionContext, World, write}
use scuttled.Handlers.BuiltIn.{built_in}
use scuttled.Session.Turns.{
  Turn, Setup, Session, Outcome, running, finished, opened, turn, run, handle,
}
use scuttled.Session.Answers.{session_of}
use scuttled.Session.Server.{IsBuiltIn}
use scuttled.Server.{
  Client, Serving, ImapServer, Accept, Happening, suspended, resumed, spawn, client_turn, turn_at,
  new_session, accept_plain, accept_tls, unless_ended, happen, serve, listen_on, listen_on_tls,
}

module _ {S : Type 0} (context : SessionContext S) (P : S → Type 0)
    (A : SessionState → Type 0) where
  -- A session with the built-in handlers, and a state in `A`.
  abbrev pub IsClient : Client S → Type 0
  IsClient c = IsBuiltIn context c.setup × A c.state

  -- The store has `P`, and every session is such.
  abbrev pub IsKept : Serving S → Type 0
  IsKept s = P s.store × All IsClient s.clients

  abbrev pub IsIn : Session S → Type 0
  IsIn v = P v.world.store × A v.state

module _ {S : Type 0} (context : SessionContext S) (upper : ℕ → Text) (server : ImapServer S)
    (P : S → Type 0) (A : SessionState → Type 0) (first : A SessionState.not_authenticated)
    (keeps : (setup : Setup S) (t : Turn) (v : Session S)
      → IsBuiltIn context setup
      → IsIn context P A v
      → IsIn context P A (session_of (turn setup t v))) where
  suspended-IsClient :
      (setup : Setup S) (out : Outcome S)
      → IsBuiltIn context setup
      → IsIn context P A (session_of out)
      → P (suspended setup out).1 × IsClient context P A (suspended setup out).0
  suspended-IsClient setup (running s) b h = (h.0, (b, h.1))
  suspended-IsClient setup (finished r s) b h = (h.0, (b, h.1))

  client_turn-IsClient :
      (t : Turn) (c : Client S) (store : S)
      → P store
      → IsClient context P A c
      → P (client_turn t c store).1 × IsClient context P A (client_turn t c store).0
  client_turn-IsClient t c store e h = elim (Bool-cases c.is_over) [
    | inl over ↦ unfold client_turn in rw (over, client_turn) (e, h)
    | inr over ↦
        unfold client_turn in
        rw (over, client_turn)
          (suspended-IsClient c.setup (turn c.setup t (resumed c store)) h.0
            (keeps c.setup t (resumed c store) h.0 (e, h.1)))
  ]

  turn_at-IsClient :
      (i : ℕ) (t : Turn) (cs : List (Client S)) (store : S)
      → P store
      → All (IsClient context P A) cs
      → P (turn_at i t cs store).1 × All (IsClient context P A) (turn_at i t cs store).0
  unfolding turn_at
  turn_at-IsClient i t [] store e h = (e, tt)
  turn_at-IsClient zero t (c ∷ cs) store e h =
      let (k, client) = client_turn-IsClient t c store e h.0 in (k, (client, h.1))
  turn_at-IsClient (suc i) t (c ∷ cs) store e h =
      let (k, clients) = turn_at-IsClient i t cs store e h.1 in (k, (h.0, clients))

  clients-append :
      (cs : List (Client S)) (c : Client S)
      → All (IsClient context P A) cs
      → IsClient context P A c
      → All (IsClient context P A) (cs ++ c ∷ [])
  clients-append [] c h k = (k, tt)
  clients-append (d ∷ cs) c h k = (h.0, clients-append cs c h.1 k)

  -- The greeting.
  greeted :
      (setup : Setup S) (p : Result (Unit {0}) × World S)
      → P p.1.store
      → IsIn context P A (
          session_of (elim p.0 [
            | ok _ ↦ run setup [] (opened setup p.1)
            | err e ↦ finished (err e) (opened setup p.1)
          ]))
  unfolding run
  greeted setup (ok _, v) h = (h, first)
  greeted setup (err e, v) h = (h, first)

  spawn-IsKept :
      (setup : Setup S) (connection : Connection) (s : Serving S)
      → IsBuiltIn context setup
      → IsKept context P A s
      → IsKept context P A (spawn setup connection s)
  unfolding spawn handle write
  spawn-IsKept setup connection s b h =
      let w : World S = record { connection = connection; store = s.store } in
      let (k, client) =
        suspended-IsClient setup (handle setup [] w) b
          (greeted setup (write (Response.ok none (text "IMAP server ready")) w) h.0) in
      (k, clients-append s.clients (suspended setup (handle setup [] w)).0 h.1 client)

  either-IsKept :
      (b : Bool) (v w : Serving S)
      → IsKept context P A v
      → IsKept context P A w
      → IsKept context P A (if b then v else w)
  either-IsKept true v w h k = h
  either-IsKept false v w h k = k

  unless_ended-IsKept :
      (step : Serving S → Serving S) (o : Option Error) (s : Serving S)
      → IsKept context P A s
      → IsKept context P A (step s)
      → IsKept context P A (unless_ended server upper step o s)
  unless_ended-IsKept step none s h k = k
  unless_ended-IsKept step (some e) s h k = h

  serve-IsKept :
      (step : Accept → Serving S → Serving S) (hs : List Happening) (s : Serving S)
      → ((a : Accept) (v : Serving S) → IsKept context P A v → IsKept context P A (step a v))
      → IsKept context P A s
      → IsKept context P A (serve server upper step hs s)
  serve-IsKept step [] s f k = k
  serve-IsKept step (Happening.accept a ∷ hs) s f k =
      serve-IsKept step hs (happen server upper step (Happening.accept a) s) f
        (unless_ended-IsKept (step a) s.ended s k (f a s k))
  serve-IsKept step (Happening.turn_of i t ∷ hs) s f k =
      serve-IsKept step hs (happen server upper step (Happening.turn_of i t) s) f
        (turn_at-IsClient i t s.clients s.store k.0 k.1)

  module _ (built : server.command_handlers ≡ built_in context upper) where
    accept_plain-IsKept :
        (a : Accept) (s : Serving S)
        → IsKept context P A s
        → IsKept context P A (accept_plain server upper a s)
    unfolding accept_plain new_session
    accept_plain-IsKept (Accept.failed e) s h = h
    accept_plain-IsKept (Accept.unusable m) s h = h
    accept_plain-IsKept (Accept.usable connection now) s h =
        spawn-IsKept (new_session server upper now) (record connection { is_tls = false }) s built h

    accept_tls-IsKept :
        (a : Accept) (s : Serving S)
        → IsKept context P A s
        → IsKept context P A (accept_tls server upper a s)
    unfolding accept_tls new_session
    accept_tls-IsKept (Accept.failed e) s h = h
    accept_tls-IsKept (Accept.unusable m) s h = h
    accept_tls-IsKept (Accept.usable connection now) s h =
        spawn-IsKept (new_session server upper now) (record connection { is_tls = true }) s built h

    pub listen-IsKept :
        (hs : List Happening) (s : Serving S)
        → IsKept context P A s
        → IsKept context P A (listen_on server upper hs s)
          × IsKept context P A (listen_on_tls server upper hs s)
    unfolding listen_on listen_on_tls
    listen-IsKept hs s k = (
      serve-IsKept (accept_plain server upper) hs s accept_plain-IsKept k,
      either-IsKept server.has_tls_acceptor (serve server upper (accept_tls server upper) hs s) _
          (serve-IsKept (accept_tls server upper) hs s accept_tls-IsKept k) k,
    )
