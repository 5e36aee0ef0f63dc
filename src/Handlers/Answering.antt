-- ===== src/Handlers/Answering.antt =====
-- Every built-in handler answers its command: untagged responses first, and one with the tag at the
-- end, as long as the socket takes what is written.
pub mod Folders
pub mod Listing
pub mod BuiltIn
use scuttled.Prelude.{
  ℕ, ◌+◌, Bool, true, false, ◌≡◌, refl, ◌∙◌, ap, Option, none, some, List, [], ◌∷◌, ◌++◌,
  if◌then◌else◌, All, arith, append_assoc, is_empty, subst, sym, Option-cases, Bool-cases, inl, inr,
}
use scuttled.Text.{Text, text, trim, eq_ignore_ascii_case}
use scuttled.Error.{Error, Result, ok, err}
use scuttled.Protocol.Responses.{Response}
use scuttled.Connection.{Connection, write_response}
use scuttled.Mailboxes.{Mailboxes, MailboxInfo, MailboxFilter}
use scuttled.Handlers.Patterns.{pattern_to_filter}
use scuttled.Handlers.{
  SessionState, SessionContext, World, CommandHandler, username_of, write, attempt, answer,
}
use scuttled.Handlers.Account.{login, login_args, conclude_login, logout, noop, capability}
use scuttled.Handlers.Folders.{
  with_user, select, select_named, conclude_select, create, create_named, delete, delete_named,
  conclude_change,
}
use scuttled.Handlers.Listing.{
  list, list_args, effective_pattern, list_line, send_all, conclude_list,
}
use scuttled.Handlers.BuiltIn.{handlers}

-- No write fails.
abbrev pub IsReliable : Connection → Type 0
IsReliable c = (n : ℕ) → c.fault n ≡ none

abbrev pub tag_of : Response → Option Text
tag_of (Response.ok tag message) = tag
tag_of (Response.no tag message) = tag
tag_of (Response.bad tag message) = tag
tag_of _ = none

-- What is written between two states of a connection: untagged responses, and one with the tag.
pub record Answers (tag : Text) (c d : Connection) : Type 0 where
  pub untagged : List Response
  pub last : Response
  pub written : d.sent ≡ c.sent ++ (untagged ++ last ∷ [])
  pub all_untagged : All (λ r. tag_of r ≡ none) untagged
  pub tagged : tag_of last ≡ some tag
  pub same_fault : d.fault ≡ c.fault

abbrev pub after : Connection → Response → Connection
after c r = record c { sent = c.sent ++ r ∷ []; attempts = c.attempts + 1 }

module _ {S : Type 0} where
  abbrev pub said : World S → Response → World S
  said w r = record w { connection = after w.connection r }

  pub write_reliable :
      (r : Response) (w : World S) → IsReliable w.connection → write r w ≡ (ok tt, said w r)
  unfolding write write_response
  write_reliable r w h = ground (arith, h w.connection.attempts)

  pub answer_reliable :
      (r : Response) (next : Option SessionState) (w : World S)
      → IsReliable w.connection
      → answer r next w ≡ (ok next, said w r)
  unfolding answer
  answer_reliable r next w h = rw (write_reliable r w h)

  -- A handler that returns without an error has answered; one that fails has written nothing, and the
  -- registry answers for it.
  abbrev pub IsFinal : Text → World S → Result (Option SessionState) × World S → Type 0
  IsFinal tag w (ok next, v) = Answers tag w.connection v.connection
  IsFinal tag w (err e, v) = v.connection ≡ w.connection

module _ (tag : Text) (c : Connection) where
  pub after-Answers : (r : Response) → tag_of r ≡ some tag → Answers tag c (after c r)
  after-Answers r h = record {
    untagged = [];
    last = r;
    written = refl;
    all_untagged = tt;
    tagged = h;
    same_fault = refl;
  }

  pub Answers-cons :
      (r : Response) (d : Connection)
      → tag_of r ≡ none
      → Answers tag (after c r) d
      → Answers tag c d
  Answers-cons r d h a = record {
    untagged = r ∷ a.untagged;
    last = a.last;
    written = a.written ∙ append_assoc c.sent (r ∷ []) (a.untagged ++ a.last ∷ []);
    all_untagged = (h, a.all_untagged);
    tagged = a.tagged;
    same_fault = a.same_fault;
  }

module _ {S : Type 0} (tag : Text) where
  module _ (w : World S) (h : IsReliable w.connection) where
    pub answer-IsFinal :
        (r : Response) (next : Option SessionState)
        → tag_of r ≡ some tag
        → IsFinal tag w (answer r next w)
    unfolding answer
    answer-IsFinal r next t = rw (write_reliable r w h) (after-Answers tag w.connection r t)

    conclude_login-IsFinal :
        (username : Text) (result : Result Bool)
        → IsFinal tag w (conclude_login tag username result w)
    unfolding conclude_login
    conclude_login-IsFinal username (ok true) = answer-IsFinal _ _ refl
    conclude_login-IsFinal username (ok false) = answer-IsFinal _ _ refl
    conclude_login-IsFinal username (err e) = answer-IsFinal _ _ refl

    pub login-IsFinal :
        (context : SessionContext S) (args : Text) (current : SessionState)
        → IsFinal tag w (login context tag args current w)
    login-IsFinal context args current = elim (Option-cases (login_args args)) [
      | inl e ↦ unfold login in rw (e, login) (answer-IsFinal _ _ refl)
      | inr ((u, p), e) ↦
          unfold login in
          rw (e, login)
            (conclude_login-IsFinal u
              (context.authenticate w.store (record { username = u; password = p })))
    ]

    pub logout-IsFinal :
        (args : Text) (current : SessionState) → IsFinal tag w (logout tag args current w)
    unfolding logout
    logout-IsFinal args current =
        let bye = Response.bye (text "Logging out") in
        rw (write_reliable bye w h, answer_reliable _ _ (said w bye) h)
          (Answers-cons tag w.connection bye _ refl
            (after-Answers tag (after w.connection bye) _ refl))

-- What a handler must do to be given a command by the registry.
abbrev pub IsAnswering : {S : Type 0} → CommandHandler S → Type 0
IsAnswering {S} x =
    (tag args : Text) (current : SessionState) (w : World S)
    → IsReliable w.connection
    → IsFinal tag w (x.handle tag args current w)
