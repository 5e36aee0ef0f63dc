-- ===== src/Session/Access.antt =====
-- A session of session.rs without a user: until the authenticator accepts somebody's credentials, no
-- turn changes the store or leaves the state without a user.
use scuttled.Prelude.{
  ℕ, ◌-◌, Bool, true, false, ◌≡◌, ◌≢◌, refl, subst, Option, none, some, List, [], ◌∷◌, Bool-cases,
  Option-cases, inl, inr, ltb,
}
use scuttled.Text.{Text}
use scuttled.Types.{Credentials}
use scuttled.Error.{Result, ok, err}
use scuttled.Protocol.{Command, parse_command}
use scuttled.Protocol.Responses.{Response}
use scuttled.Handlers.{
  SessionState, SessionContext, World, CommandHandler, CommandHandlers, is_authenticated,
  is_selected, write, find, refuse, conclude, dispatch,
}
use scuttled.Handlers
use scuttled.Handlers.Registered.{Holds, find-Holds}
use scuttled.Handlers.Guarding.{IsEntered, IsGranted, IsSafe, IsGuarded}
use scuttled.Session.Tags
use scuttled.Session.Tags.{TagHistory}
use scuttled.Session.Lines.{tag_and_command}
use scuttled.Session.Commands.{name_and_args, handle_command}
use scuttled.Session.Turns.{
  Event, Turn, Setup, Session, Outcome, running, finished, go_on, say_or_end, update_state, upgrade,
  answer_starttls, starttls, on_command, on_parsed, on_registered, on_line, on_event, turn, run,
  proceed,
}
use scuttled.Session.Answers.{session_of}

module _ {S : Type 0} (context : SessionContext S) where
  IsSafePair : S → Option SessionState × World S → Type 0
  IsSafePair s p = (p.1.store ≡ s) × IsGranted context s p.0

  conclude-IsSafe :
      (tag : Text) (s : S) (out : Result (Option SessionState) × World S)
      → IsSafe context s out
      → IsSafePair s (conclude tag out)
  unfolding conclude IsSafePair write
  conclude-IsSafe tag s (ok next, v) h = h
  conclude-IsSafe tag s (err e, v) h = (h, tt)

  -- Without a user the registry runs only handlers that require none.
  run-IsSafe :
      (x : CommandHandler S) (tag args : Text) (w : World S)
      → IsGuarded context x
      → IsSafePair w.store (Handlers.run x tag args SessionState.not_authenticated w)
  run-IsSafe x tag args w g = elim (Bool-cases x.requires_auth) [
    | inl e ↦ unfold Handlers.run IsSafePair write in rw (e, Handlers.run) (refl, tt)
    | inr e ↦ elim (Bool-cases x.requires_selected_mailbox) [
      | inl f ↦ unfold Handlers.run IsSafePair write in rw (e, f, Handlers.run) (refl, tt)
      | inr f ↦
          unfold Handlers.run in
          rw (e, f, Handlers.run)
            (conclude-IsSafe tag w.store (x.handle tag args SessionState.not_authenticated w)
              (g e tag args SessionState.not_authenticated w))
    ]
  ]

  module _ (upper : ℕ → Text) (m : CommandHandlers S) (g : Holds (IsGuarded context) m) where
    dispatch-IsSafe :
        (name tag args : Text) (w : World S)
        → IsSafePair w.store (dispatch upper m name tag args SessionState.not_authenticated w)
    dispatch-IsSafe name tag args w = elim (Option-cases (find upper m name)) [
      | inl e ↦ unfold dispatch IsSafePair write in rw (e, dispatch) (refl, tt)
      | inr (x, e) ↦
          unfold dispatch in
          rw (e, dispatch)
            (run-IsSafe x tag args w (find-Holds (IsGuarded context) upper m name x g e))
    ]

    handle_command-IsSafe :
        (tag : Text) (command : Command) (w : World S)
        → IsSafePair w.store (handle_command upper m tag command SessionState.not_authenticated w)
    handle_command-IsSafe tag command w = elim (Option-cases (name_and_args command)) [
      | inl e ↦ unfold handle_command IsSafePair write in rw (e, handle_command) (refl, tt)
      | inr ((name, args), e) ↦
          unfold handle_command in rw (e, handle_command) (dispatch-IsSafe name tag args w)
    ]

  -- The store is the same, and the state is one that a client without a user may come to.
  abbrev pub IsShut : S → Outcome S → Type 0
  IsShut s out = ((session_of out).world.store ≡ s) × IsEntered context s (session_of out).state

  -- Nobody has entered: the store is `s` and the state is without a user.
  abbrev pub IsOutside : S → Session S → Type 0
  IsOutside s v = (v.world.store ≡ s) × (v.state ≡ SessionState.not_authenticated)

  outside-IsShut : (s : S) (v : Session S) → IsOutside s v → IsShut s (running v)
  outside-IsShut s v h = (h.0, rw h.1 tt)

module _ {S : Type 0} (context : SessionContext S) (s : S) where
  go_on-IsShut :
      (v : Session S) (p : Result (Unit {0}) × World S) (next : Session S → Outcome S)
      → p.1.store ≡ s
      → v.state ≡ SessionState.not_authenticated
      → ((u : Session S) → IsOutside context s u → IsShut context s (next u))
      → IsShut context s (go_on next v p)
  go_on-IsShut v (ok _, w) next h k f = f (record v { world = w }) (h, k)
  go_on-IsShut v (err e, w) next h k f = outside-IsShut context s (record v { world = w }) (h, k)

  say_or_end-IsShut :
      (r : Response) (v : Session S) (next : Session S → Outcome S)
      → IsOutside context s v
      → ((u : Session S) → IsOutside context s u → IsShut context s (next u))
      → IsShut context s (say_or_end r v next)
  unfolding say_or_end write
  say_or_end-IsShut r v next h f = go_on-IsShut v (write r v.world) next h.0 h.1 f

  upgrade-IsShut :
      (v : Session S) (result : Result (Unit {0}))
      → IsOutside context s v
      → IsShut context s (upgrade v result)
  unfolding upgrade
  upgrade-IsShut v (ok _) h = outside-IsShut context s v h
  upgrade-IsShut v (err e) h = outside-IsShut context s v h

  answer_starttls-IsShut :
      (t : Turn) (is_tls has : Bool) (tag : Text) (v : Session S)
      → IsOutside context s v
      → IsShut context s (answer_starttls t is_tls has tag v)
  unfolding answer_starttls
  answer_starttls-IsShut t true has tag v h =
      say_or_end-IsShut _ v running h (outside-IsShut context s)
  answer_starttls-IsShut t false false tag v h =
      say_or_end-IsShut _ v running h (outside-IsShut context s)
  answer_starttls-IsShut t false true tag v h =
      say_or_end-IsShut _ v (λ u. upgrade u t.handshake) h (λ u k. upgrade-IsShut u t.handshake k)

  update_state-IsShut :
      (v : Session S) (p : Option SessionState × World S)
      → v.state ≡ SessionState.not_authenticated
      → IsSafePair context s p
      → IsShut context s (update_state v p)
  unfolding update_state IsSafePair
  update_state-IsShut v (none, w) k h = (h.0, rw k tt)
  update_state-IsShut v (some SessionState.logout, w) k h = (h.0, rw k tt)
  update_state-IsShut v (some SessionState.not_authenticated, w) k h = h
  update_state-IsShut v (some (SessionState.authenticated u), w) k h = h
  update_state-IsShut v (some (SessionState.selected u m), w) k h = h

module _ {S : Type 0} (context : SessionContext S) (setup : Setup S) (t : Turn) (s : S) where
  module _ (g : Holds (IsGuarded context) setup.command_handlers) where
    command-IsSafe :
        (tag : Text) (c : Command) (v : Session S)
        → IsOutside context s v
        → IsSafePair context s
            (handle_command setup.upper setup.command_handlers tag c v.state v.world)
    command-IsSafe tag c v h = rw h.1 (
        subst
          (λ st. IsSafePair context st (
            handle_command setup.upper setup.command_handlers tag c SessionState.not_authenticated
              v.world))
          h.0 (handle_command-IsSafe context setup.upper setup.command_handlers g tag c v.world))

    on_parsed-IsShut :
        (tag : Text) (v : Session S) (result : Result Command)
        → IsOutside context s v
        → IsShut context s (on_parsed setup t tag v result)
    unfolding on_parsed on_command starttls
    on_parsed-IsShut tag v (err e) h = outside-IsShut context s v h
    on_parsed-IsShut tag v (ok Command.starttls) h = answer_starttls-IsShut context s t _ _ tag v h
    on_parsed-IsShut tag v (ok c) h =
        update_state-IsShut context s v
          (handle_command setup.upper setup.command_handlers tag c v.state v.world) h.1
          (command-IsSafe tag c v h)

    on_registered-IsShut :
        (tag command_line : Text) (v : Session S) (p : Result (Unit {0}) × TagHistory)
        → IsOutside context s v
        → IsShut context s (on_registered setup t tag command_line v p)
    unfolding on_registered
    on_registered-IsShut tag command_line v (err e, history) h = outside-IsShut context s v h
    on_registered-IsShut tag command_line v (ok _, history) h =
        on_parsed-IsShut tag (record v { tag_history = history })
          (parse_command setup.upper tag command_line) h

    on_line-IsShut :
        (line : Text) (v : Session S)
        → IsOutside context s v
        → IsShut context s (on_line setup t line v)
    on_line-IsShut line v h = elim (Option-cases (tag_and_command line)) [
      | inl e ↦ unfold on_line in rw (e, on_line) (outside-IsShut context s v h)
      | inr ((tag, command_line), e) ↦
          unfold on_line in
          rw (e, on_line)
            (on_registered-IsShut tag command_line v (Tags.register v.tag_history tag) h)
    ]

    on_event-IsShut :
        (event : Event) (v : Session S)
        → IsOutside context s v
        → IsShut context s (on_event setup t event v)
    unfolding on_event
    on_event-IsShut (Event.untagged none) v h = outside-IsShut context s v h
    on_event-IsShut (Event.untagged (some r)) v h =
        say_or_end-IsShut context s r v running h (outside-IsShut context s)
    on_event-IsShut (Event.line l) v h = on_line-IsShut l v h
    on_event-IsShut Event.eof v h = outside-IsShut context s v h
    on_event-IsShut Event.read_error v h = outside-IsShut context s v h
    on_event-IsShut Event.shutdown v h = outside-IsShut context s v h

    -- From a session without a user, one turn leaves the store as it is, and leads to a user's state
    -- only if the authenticator accepts credentials of that user. The registered handlers that do not
    -- require authentication must be guarded.
    pub turn-IsShut : (v : Session S) → IsOutside context s v → IsShut context s (turn setup t v)
    turn-IsShut v h =
        elim (Bool-cases
          (ltb setup.max_session_duration (t.duration_checked - setup.session_started))) [
            | inl e ↦ unfold turn in rw (e, turn) (outside-IsShut context s v h)
            | inr e ↦ elim (Bool-cases (ltb setup.max_idle_duration (t.idle_checked - t.begun))) [
              | inl f ↦ unfold turn in rw (e, f, turn) (outside-IsShut context s v h)
              | inr f ↦ unfold turn in rw (e, f, turn) (on_event-IsShut t.event v h)
            ]
          ]

module _ {S : Type 0} (context : SessionContext S) (s : S)
    (nobody : (c : Credentials) → context.authenticate s c ≢ ok true) where
  pub still_outside :
      (state : SessionState) → IsEntered context s state → state ≡ SessionState.not_authenticated
  still_outside SessionState.not_authenticated h = refl
  still_outside (SessionState.authenticated u) (p, e) = absurd (nobody _ e)
  still_outside SessionState.logout h = absurd h
  still_outside (SessionState.selected u m) h = absurd h

module _ {S : Type 0} (context : SessionContext S) (setup : Setup S) (s : S) where
  module _ (g : Holds (IsGuarded context) setup.command_handlers)
      (nobody : (c : Credentials) → context.authenticate s c ≢ ok true) where
    proceed-IsOutside :
        (out : Outcome S) (next : Session S → Outcome S)
        → IsShut context s out
        → ((v : Session S) → IsOutside context s v → IsOutside context s (session_of (next v)))
        → IsOutside context s (session_of (proceed setup out next))
    proceed-IsOutside (running v) next h f = f v (h.0, still_outside context s nobody v.state h.1)
    proceed-IsOutside (finished r v) next h f = (h.0, still_outside context s nobody v.state h.1)

    -- While no credentials are right, no lines, events and failing writes change the store or let
    -- anybody in. The registered handlers that do not require authentication must be guarded.
    pub run-IsOutside :
        (turns : List Turn) (v : Session S)
        → IsOutside context s v
        → IsOutside context s (session_of (run setup turns v))
    unfolding run
    run-IsOutside [] v h = h
    run-IsOutside (t ∷ turns) v h =
        proceed-IsOutside (turn setup t v) (run setup turns) (turn-IsShut context setup t s g v h)
          (run-IsOutside turns)
