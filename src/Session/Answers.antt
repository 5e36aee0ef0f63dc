-- ===== src/Session/Answers.antt =====
-- Every tagged line of a session of session.rs is answered: untagged responses, and one with its tag.
use scuttled.Prelude.{
  ℕ, Bool, true, false, ◌&&◌, not, ◌≡◌, refl, sym, subst, Option, none, some, Bool-cases,
  Option-cases, inl, inr,
}
use scuttled.Text.{Text}
use scuttled.Error.{Result, ok, err}
use scuttled.Protocol.{Command, parse_command}
use scuttled.Protocol.Responses.{Response}
use scuttled.Handlers.{
  SessionState, World, CommandHandler, CommandHandlers, is_authenticated, is_selected, write, find,
  refuse, conclude, dispatch,
}
use scuttled.Handlers
use scuttled.Handlers.Registered.{Holds, find-Holds}
use scuttled.Handlers.Answering.{
  IsReliable, IsFinal, IsAnswering, Answers, tag_of, said, write_reliable, after-Answers,
}
use scuttled.Session.Tags
use scuttled.Session.Tags.{TagHistory}
use scuttled.Session.Lines.{tag_and_command}
use scuttled.Session.Commands.{name_and_args, handle_command}
use scuttled.Session.Turns.{
  Turn, Setup, Session, Outcome, running, finished, say, go_on, say_or_end, update_state, upgrade,
  answer_starttls, starttls, on_command, on_parsed, on_registered, on_line,
}

module _ {S : Type 0} (tag : Text) where
  refuse-Answers :
      (r : Response) (w : World S)
      → IsReliable w.connection
      → tag_of r ≡ some tag
      → Answers tag w.connection (refuse r w).1.connection
  unfolding refuse
  refuse-Answers r w h t =
      subst (λ p. Answers tag w.connection p.1.connection) (sym (write_reliable r w h))
        (after-Answers tag w.connection r t)

  conclude-Answers :
      (w : World S) (out : Result (Option SessionState) × World S)
      → IsReliable w.connection
      → IsFinal tag w out
      → Answers tag w.connection (conclude tag out).1.connection
  unfolding conclude
  conclude-Answers w (ok next, v) h f = f
  conclude-Answers w (err e, v) h f =
      subst (λ c. Answers tag c (conclude tag (err e, v)).1.connection) f
        (refuse-Answers _ v (subst IsReliable (sym f) h) refl)

  run-Answers :
      (x : CommandHandler S) (args : Text) (current : SessionState) (w : World S)
      → IsReliable w.connection
      → IsAnswering x
      → Answers tag w.connection (Handlers.run x tag args current w).1.connection
  run-Answers x args current w h a =
      elim (Bool-cases (x.requires_auth && not (is_authenticated current))) [
        | inl e ↦ unfold Handlers.run in rw (e, Handlers.run) (refuse-Answers _ w h refl)
        | inr e ↦ elim (Bool-cases (x.requires_selected_mailbox && not (is_selected current))) [
          | inl f ↦ unfold Handlers.run in rw (e, f, Handlers.run) (refuse-Answers _ w h refl)
          | inr f ↦
              unfold Handlers.run in
              rw (e, f, Handlers.run)
                (conclude-Answers w (x.handle tag args current w) h (a tag args current w h))
        ]
      ]

  module _ (upper : ℕ → Text) (m : CommandHandlers S) (a : Holds IsAnswering m) where
    dispatch-Answers :
        (name args : Text) (current : SessionState) (w : World S)
        → IsReliable w.connection
        → Answers tag w.connection (dispatch upper m name tag args current w).1.connection
    dispatch-Answers name args current w h = elim (Option-cases (find upper m name)) [
      | inl e ↦ unfold dispatch in rw (e, dispatch) (refuse-Answers _ w h refl)
      | inr (x, e) ↦
          unfold dispatch in
          rw (e, dispatch)
            (run-Answers x args current w h (find-Holds IsAnswering upper m name x a e))
    ]

    handle_command-Answers :
        (command : Command) (current : SessionState) (w : World S)
        → IsReliable w.connection
        → Answers tag w.connection (handle_command upper m tag command current w).1.connection
    handle_command-Answers command current w h = elim (Option-cases (name_and_args command)) [
      | inl e ↦ unfold handle_command in rw (e, handle_command) (refuse-Answers _ w h refl)
      | inr ((name, args), e) ↦
          unfold handle_command in rw (e, handle_command) (dispatch-Answers name args current w h)
    ]

-- The session behind an outcome.
abbrev pub session_of : {S : Type 0} → Outcome S → Session S
session_of (running s) = s
session_of (finished result s) = s

-- The command with the tag is answered between a session and an outcome.
abbrev pub IsAnswered : {S : Type 0} → Text → Session S → Outcome S → Type 0
IsAnswered tag s out = Answers tag s.world.connection (session_of out).world.connection

module _ {S : Type 0} (tag : Text) (s : Session S) where
  upgrade-IsAnswered :
      (v : Session S) (result : Result (Unit {0}))
      → Answers tag s.world.connection v.world.connection
      → IsAnswered tag s (upgrade v result)
  unfolding upgrade
  upgrade-IsAnswered v (err e) a = a
  upgrade-IsAnswered v (ok _) a = record {
    untagged = a.untagged;
    last = a.last;
    written = a.written;
    all_untagged = a.all_untagged;
    tagged = a.tagged;
    same_fault = a.same_fault;
  }

module _ {S : Type 0} (tag : Text) (s : Session S) (h : IsReliable s.world.connection) where
  say-IsAnswered : (r : Response) → tag_of r ≡ some tag → IsAnswered tag s (running (say r s))
  say-IsAnswered r t =
      unfold say in
      subst (λ p. Answers tag s.world.connection p.1.connection) (sym (write_reliable r s.world h))
        (after-Answers tag s.world.connection r t)

  say_or_end-IsAnswered :
      (r : Response) (next : Session S → Outcome S)
      → IsAnswered tag s (next (record s { world = said s.world r }))
      → IsAnswered tag s (say_or_end r s next)
  say_or_end-IsAnswered r next a =
      unfold say_or_end in
      subst (λ p. IsAnswered tag s (go_on next s p)) (sym (write_reliable r s.world h)) a

  update_state-IsAnswered :
      (p : Option SessionState × World S)
      → Answers tag s.world.connection p.1.connection
      → IsAnswered tag s (update_state s p)
  unfolding update_state
  update_state-IsAnswered (none, w) a = a
  update_state-IsAnswered (some SessionState.logout, w) a = a
  update_state-IsAnswered (some SessionState.not_authenticated, w) a = a
  update_state-IsAnswered (some (SessionState.authenticated u), w) a = a
  update_state-IsAnswered (some (SessionState.selected u m), w) a = a

  answer_starttls-IsAnswered :
      (t : Turn) (is_tls has : Bool) → IsAnswered tag s (answer_starttls t is_tls has tag s)
  unfolding answer_starttls
  answer_starttls-IsAnswered t true has =
      say_or_end-IsAnswered _ running (after-Answers tag _ _ refl)
  answer_starttls-IsAnswered t false false =
      say_or_end-IsAnswered _ running (after-Answers tag _ _ refl)
  answer_starttls-IsAnswered t false true =
      say_or_end-IsAnswered _ (λ v. upgrade v t.handshake)
        (upgrade-IsAnswered tag s _ t.handshake (after-Answers tag _ _ refl))

module _ {S : Type 0} (setup : Setup S) (t : Turn) (tag : Text) where
  on_parsed-IsAnswered :
      (s : Session S) (result : Result Command)
      → IsReliable s.world.connection
      → Holds IsAnswering setup.command_handlers
      → IsAnswered tag s (on_parsed setup t tag s result)
  unfolding on_parsed on_command starttls
  on_parsed-IsAnswered s (err e) h a = say-IsAnswered tag s h _ refl
  on_parsed-IsAnswered s (ok Command.starttls) h a = answer_starttls-IsAnswered tag s h t _ _
  on_parsed-IsAnswered s (ok c) h a =
      update_state-IsAnswered tag s h
        (handle_command setup.upper setup.command_handlers tag c s.state s.world)
        (handle_command-Answers tag setup.upper setup.command_handlers a c s.state s.world h)

  on_registered-IsAnswered :
      (command_line : Text) (s : Session S) (p : Result (Unit {0}) × TagHistory)
      → IsReliable s.world.connection
      → Holds IsAnswering setup.command_handlers
      → IsAnswered tag s (on_registered setup t tag command_line s p)
  unfolding on_registered
  on_registered-IsAnswered command_line s (err e, history) h a = say-IsAnswered tag s h _ refl
  on_registered-IsAnswered command_line s (ok _, history) h a =
      on_parsed-IsAnswered (record s { tag_history = history })
        (parse_command setup.upper tag command_line) h a

  -- A line that begins with a tag, whatever stands behind it and whatever the session's state, is
  -- answered: untagged responses are written first, and then one with that tag. The socket must take
  -- what is written, and every registered handler must answer.
  pub on_line-IsAnswered :
      (line command_line : Text) (s : Session S)
      → tag_and_command line ≡ some (tag, command_line)
      → IsReliable s.world.connection
      → Holds IsAnswering setup.command_handlers
      → IsAnswered tag s (on_line setup t line s)
  unfolding on_line
  on_line-IsAnswered line command_line s e h a =
      rw (e, on_line)
        (on_registered-IsAnswered command_line s (Tags.register s.tag_history tag) h a)
