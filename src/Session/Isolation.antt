-- ===== src/Session/Isolation.antt =====
-- A session of session.rs that belongs to a user leaves the mailboxes of the other users alone.
use scuttled.Prelude.{
  ℕ, ◌-◌, Bool, true, false, ◌&&◌, not, ◌≡◌, Option, none, some, list_key, nat_key, pair_key,
  Bool-cases, Option-cases, inl, inr, ltb,
}
use scuttled.Text.{Text}
use scuttled.Error.{Result, ok, err}
use scuttled.Protocol.{Command, parse_command}
use scuttled.Handlers.{
  SessionState, SessionContext, World, CommandHandler, CommandHandlers, username_of,
  is_authenticated, is_selected, write, find, refuse, conclude, dispatch,
}
use scuttled.Handlers
use scuttled.Handlers.Registered.{Holds, find-Holds}
use scuttled.Handlers.Confining.{IsNext, IsGood, IsConfined}
use scuttled.Session.Tags
use scuttled.Session.Tags.{TagHistory}
use scuttled.Session.Lines.{tag_and_command}
use scuttled.Session.Commands.{name_and_args, handle_command}
use scuttled.Session.Turns.{
  Event, Turn, Setup, Session, Outcome, running, go_on, update_state, upgrade, answer_starttls,
  starttls, on_command, on_parsed, on_registered, on_line, on_event, turn,
}
use scuttled.Session.Answers.{session_of}

module _ {S : Type 0} (u : Text) (P : S → Type 0) (A : SessionState → Type 0) where
  IsGoodPair : Option SessionState × World S → Type 0
  IsGoodPair p = P p.1.store × IsNext u P A p.0

  conclude-IsGoodPair :
      (tag : Text) (out : Result (Option SessionState) × World S)
      → IsGood u P A out
      → IsGoodPair (conclude tag out)
  unfolding conclude write IsGoodPair
  conclude-IsGoodPair tag (ok next, v) h = h
  conclude-IsGoodPair tag (err e, v) h = h

  run-IsGoodPair :
      (x : CommandHandler S) (tag args : Text) (current : SessionState) (w : World S)
      → IsConfined u P A x
      → username_of current ≡ some u
      → P w.store
      → IsGoodPair (Handlers.run x tag args current w)
  run-IsGoodPair x tag args current w c e h =
      elim (Bool-cases (x.requires_auth && not (is_authenticated current))) [
        | inl a ↦ unfold Handlers.run write IsGoodPair in rw (a, Handlers.run) (h, tt)
        | inr a ↦ elim (Bool-cases (x.requires_selected_mailbox && not (is_selected current))) [
          | inl f ↦ unfold Handlers.run write IsGoodPair in rw (a, f, Handlers.run) (h, tt)
          | inr f ↦
              unfold Handlers.run in
              rw (a, f, Handlers.run)
                (conclude-IsGoodPair tag (x.handle tag args current w) (c tag args current w e h))
        ]
      ]

  handle_command-IsGoodPair :
      (upper : ℕ → Text) (m : CommandHandlers S) (tag : Text) (command : Command)
      (current : SessionState) (w : World S)
      → Holds (IsConfined u P A) m
      → username_of current ≡ some u
      → P w.store
      → IsGoodPair (handle_command upper m tag command current w)
  handle_command-IsGoodPair upper m tag command current w c e h =
      elim (Option-cases (name_and_args command)) [
        | inl n ↦ unfold handle_command write IsGoodPair in rw (n, handle_command) (h, tt)
        | inr ((name, args), n) ↦ elim (Option-cases (find upper m name)) [
          | inl k ↦
              unfold handle_command dispatch write IsGoodPair in
              rw (n, k, handle_command, dispatch) (h, tt)
          | inr (x, k) ↦
              unfold handle_command dispatch in
              rw (n, k, handle_command, dispatch)
                (run-IsGoodPair x tag args current w
                  (find-Holds (IsConfined u P A) upper m name x c k) e h)
        ]
      ]

  -- The store has `P`, and the state is in `A`.
  abbrev pub IsIn : Session S → Type 0
  IsIn v = P v.world.store × A v.state

  abbrev IsKept : Outcome S → Type 0
  IsKept out = IsIn (session_of out)

  go_on-IsKept :
      (v : Session S) (p : Result (Unit {0}) × World S) (next : Session S → Outcome S)
      → P p.1.store
      → A v.state
      → ((x : Session S) → IsIn x → IsKept (next x))
      → IsKept (go_on next v p)
  go_on-IsKept v (ok _, w) next h a f = f (record v { world = w }) (h, a)
  go_on-IsKept v (err e, w) next h a f = (h, a)

  upgrade-IsKept : (v : Session S) (result : Result (Unit {0})) → IsIn v → IsKept (upgrade v result)
  unfolding upgrade
  upgrade-IsKept v (ok _) h = h
  upgrade-IsKept v (err e) h = h

  answer_starttls-IsKept :
      (t : Turn) (is_tls has : Bool) (tag : Text) (v : Session S)
      → IsIn v
      → IsKept (answer_starttls t is_tls has tag v)
  unfolding answer_starttls write
  answer_starttls-IsKept t true has tag v h =
      go_on-IsKept v (write _ v.world) running h.0 h.1 (λ x k. k)
  answer_starttls-IsKept t false false tag v h =
      go_on-IsKept v (write _ v.world) running h.0 h.1 (λ x k. k)
  answer_starttls-IsKept t false true tag v h =
      go_on-IsKept v (write _ v.world) (λ x. upgrade x t.handshake) h.0 h.1
        (λ x k. upgrade-IsKept x t.handshake k)

  update_state-IsKept :
      (v : Session S) (p : Option SessionState × World S)
      → A v.state
      → IsGoodPair p
      → IsKept (update_state v p)
  unfolding update_state IsGoodPair
  update_state-IsKept v (none, w) a h = (h.0, a)
  update_state-IsKept v (some SessionState.logout, w) a h = (h.0, a)
  update_state-IsKept v (some SessionState.not_authenticated, w) a h = h
  update_state-IsKept v (some (SessionState.authenticated x), w) a h = h
  update_state-IsKept v (some (SessionState.selected x m), w) a h = h

  module _ (setup : Setup S) (t : Turn) (c : Holds (IsConfined u P A) setup.command_handlers) where
    on_parsed-IsKept :
        (tag : Text) (v : Session S) (result : Result Command)
        → username_of v.state ≡ some u
        → IsIn v
        → IsKept (on_parsed setup t tag v result)
    unfolding on_parsed on_command starttls
    on_parsed-IsKept tag v (err m) e h = h
    on_parsed-IsKept tag v (ok Command.starttls) e h = answer_starttls-IsKept t _ _ tag v h
    on_parsed-IsKept tag v (ok command) e h =
        update_state-IsKept v
          (handle_command setup.upper setup.command_handlers tag command v.state v.world) h.1
          (handle_command-IsGoodPair setup.upper setup.command_handlers tag command v.state v.world
            c e h.0)

    on_registered-IsKept :
        (tag command_line : Text) (v : Session S) (p : Result (Unit {0}) × TagHistory)
        → username_of v.state ≡ some u
        → IsIn v
        → IsKept (on_registered setup t tag command_line v p)
    unfolding on_registered
    on_registered-IsKept tag command_line v (err m, history) e h = h
    on_registered-IsKept tag command_line v (ok _, history) e h =
        on_parsed-IsKept tag (record v { tag_history = history })
          (parse_command setup.upper tag command_line) e h

    on_event-IsKept :
        (event : Event) (v : Session S)
        → username_of v.state ≡ some u
        → IsIn v
        → IsKept (on_event setup t event v)
    unfolding on_event
    on_event-IsKept (Event.untagged none) v e h = h
    on_event-IsKept (Event.untagged (some r)) v e h =
        go_on-IsKept v (write r v.world) running h.0 h.1 (λ x k. k)
    on_event-IsKept (Event.line l) v e h = elim (Option-cases (tag_and_command l)) [
      | inl n ↦ unfold on_line in rw (n, on_line) h
      | inr ((tag, command_line), n) ↦
          unfold on_line in
          rw (n, on_line)
            (on_registered-IsKept tag command_line v (Tags.register v.tag_history tag) e h)
    ]
    on_event-IsKept Event.eof v e h = h
    on_event-IsKept Event.read_error v e h = h
    on_event-IsKept Event.shutdown v e h = h

    -- One turn of a session that belongs to the user `u` keeps whatever the registered handlers keep
    -- when they run for `u`, and leads to a state that they lead to.
    pub turn-IsKept :
        (v : Session S) → username_of v.state ≡ some u → IsIn v → IsIn (session_of (turn setup t v))
    turn-IsKept v e h =
        elim (Bool-cases
          (ltb setup.max_session_duration (t.duration_checked - setup.session_started))) [
            | inl a ↦ unfold turn in rw (a, turn) h
            | inr a ↦ elim (Bool-cases (ltb setup.max_idle_duration (t.idle_checked - t.begun))) [
              | inl f ↦ unfold turn in rw (a, f, turn) h
              | inr f ↦ unfold turn in rw (a, f, turn) (on_event-IsKept t.event v e h)
            ]
          ]
