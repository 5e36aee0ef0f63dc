-- ===== src/Handlers/Confining.antt =====
-- The built-in handlers work on the mailboxes of the session's user only: what creating and deleting
-- that user's mailboxes leaves true of the store, every handler leaves true.
use scuttled.Prelude.{
  Bool, true, false, ◌≡◌, refl, Option, none, some, List, [], ◌∷◌, All, Bool-cases, Option-cases,
  inl, inr, is_empty, ℕ,
}
use scuttled.Text.{Text, text, trim, eq_ignore_ascii_case}
use scuttled.Error.{Result, ok, err}
use scuttled.Protocol.Responses.{Response}
use scuttled.Mailboxes.{MailboxInfo}
use scuttled.Handlers.{
  SessionState, SessionContext, World, CommandHandler, username_of, write, attempt, answer,
}
use scuttled.Handlers.Account.{login, login_args, conclude_login, logout, noop, capability}
use scuttled.Handlers.Folders.{
  with_user, select, select_named, conclude_select, create, create_named, delete, delete_named,
  conclude_change,
}
use scuttled.Handlers.Patterns.{pattern_to_filter}
use scuttled.Handlers.Listing.{
  list, list_args, effective_pattern, list_line, send_all, conclude_list,
}
use scuttled.Handlers.BuiltIn.{
  handlers, built_in, select_handler, create_handler, delete_handler, list_handler,
}
use scuttled.Handlers.Registered.{Holds, register_all-Holds}

module _ {S : Type 0} (u : Text) (P : S → Type 0) (A : SessionState → Type 0) where
  -- Creating and deleting mailboxes of the user `u` keeps `P`.
  abbrev pub IsStable : SessionContext S → Type 0
  IsStable context =
      (s : S) (name : Text)
      → P s
      → P (context.mailboxes.create_mailbox s u name).1
        × P (context.mailboxes.delete_mailbox s u name).1

  -- The states that a handler can lead `u` to are in `A`: a user whom the authenticator accepts, and a
  -- selected mailbox of `u`.
  abbrev pub IsAllowing : SessionContext S → Type 0
  IsAllowing context =
      ((s : S) (v p : Text)
        → context.authenticate s (record { username = v; password = p }) ≡ ok true
        → A (SessionState.authenticated v))
      × ((m : Text) → A (SessionState.selected u m))

  abbrev pub IsNext : Option SessionState → Type 0
  IsNext none = Unit
  IsNext (some SessionState.logout) = Unit
  IsNext (some state) = A state

  -- The store has `P`, and the new state, if there is one and it does not end the session, is in `A`.
  abbrev pub IsGood : Result (Option SessionState) × World S → Type 0
  IsGood (ok next, w) = P w.store × IsNext next
  IsGood (err e, w) = P w.store × Unit

  -- Run for the user `u`, the handler keeps `P` and leads to states in `A`.
  abbrev pub IsConfined : CommandHandler S → Type 0
  IsConfined x =
      (tag args : Text) (current : SessionState) (w : World S)
      → username_of current ≡ some u
      → P w.store
      → IsGood (x.handle tag args current w)

  attempt-IsGood {ℓ} :
      {B : Type ℓ} (p : Result B × World S)
      (next : B → World S → Result (Option SessionState) × World S)
      → P p.1.store
      → ((b : B) (v : World S) → P v.store → IsGood (next b v))
      → IsGood (attempt p next)
  attempt-IsGood (ok b, v) next h f = f b v h
  attempt-IsGood (err e, v) next h f = (h, tt)

  answer-IsGood :
      (r : Response) (next : Option SessionState) (w : World S)
      → P w.store
      → IsNext next
      → IsGood (answer r next w)
  unfolding answer write
  answer-IsGood r next w h g = attempt-IsGood (write r w) _ h (λ b v k. (k, g))

  module _ (context : SessionContext S) (allowing : IsAllowing context) (tag : Text) (w : World S)
      (h : P w.store) where
    conclude_login-IsGood :
        (v p : Text) (result : Result Bool)
        → context.authenticate w.store (record { username = v; password = p }) ≡ result
        → IsGood (conclude_login tag v result w)
    unfolding conclude_login
    conclude_login-IsGood v p (ok true) e = answer-IsGood _ _ w h (allowing.0 w.store v p e)
    conclude_login-IsGood v p (ok false) e = answer-IsGood _ _ w h tt
    conclude_login-IsGood v p (err m) e = answer-IsGood _ _ w h tt

    login-IsGood :
        (args : Text) (current : SessionState) → IsGood (login context tag args current w)
    login-IsGood args current = elim (Option-cases (login_args args)) [
      | inl e ↦ unfold login in rw (e, login) (answer-IsGood _ _ w h tt)
      | inr ((v, p), e) ↦
          unfold login in
          rw (e, login)
            (conclude_login-IsGood v p
              (context.authenticate w.store (record { username = v; password = p })) refl)
    ]

    logout-IsGood : (args : Text) (current : SessionState) → IsGood (logout tag args current w)
    unfolding logout write
    logout-IsGood args current =
        attempt-IsGood (write (Response.bye (text "Logging out")) w) _ h
          (λ b v k. answer-IsGood _ _ v k tt)

    conclude_select-IsGood :
        (name : Text) (result : Result (Option MailboxInfo))
        → IsGood (conclude_select context tag u name result w)
    unfolding conclude_select
    conclude_select-IsGood name (err e) = (h, tt)
    conclude_select-IsGood name (ok none) = answer-IsGood _ _ w h tt
    conclude_select-IsGood name (ok (some info)) = answer-IsGood _ _ w h (allowing.1 name)

    conclude_change-IsGood {ℓ} :
        {B : Type ℓ} (command name : Text) (p : Result B × S)
        → P p.1
        → IsGood (conclude_change context tag command name p w)
    unfolding conclude_change
    conclude_change-IsGood command name (ok b, s) k =
        answer-IsGood _ _ (record w { store = s }) k tt
    conclude_change-IsGood command name (err e, s) k =
        answer-IsGood _ _ (record w { store = s }) k tt

  sent-keeps :
      (p : Result (Unit {0}) × World S) (next : Unit {0} → World S → Result (Unit {0}) × World S)
      → P p.1.store
      → ((v : World S) → P v.store → P (next tt v).1.store)
      → P (attempt p next).1.store
  sent-keeps (ok _, v) next h f = f v h
  sent-keeps (err e, v) next h f = h

  send_all-keeps :
      (infos : List MailboxInfo) (w : World S) → P w.store → P (send_all infos w).1.store
  unfolding send_all write
  send_all-keeps [] w h = h
  send_all-keeps (info ∷ infos) w h =
      sent-keeps (write (list_line info) w) _ h (λ v k. send_all-keeps infos v k)

  conclude_list-IsGood :
      (tag : Text) (w : World S) (result : Result (List MailboxInfo))
      → P w.store
      → IsGood (conclude_list tag result w)
  unfolding conclude_list
  conclude_list-IsGood tag w (err e) h = answer-IsGood _ _ w h tt
  conclude_list-IsGood tag w (ok infos) h =
      attempt-IsGood (send_all infos w) _ (send_all-keeps infos w h)
        (λ b v k. answer-IsGood _ _ v k tt)

  module _ (context : SessionContext S) (stable : IsStable context)
      (allowing : IsAllowing context) where
    select-IsConfined : IsConfined (select_handler context)
    select-IsConfined tag args current w e h = elim (Bool-cases (is_empty (trim args))) [
      | inl b ↦ unfold select in rw (b, select) (answer-IsGood _ _ w h tt)
      | inr b ↦
          unfold select select_named in
          rw (b, select, e, with_user)
            ((conclude_select-IsGood context allowing tag w h (trim args)
              (context.mailboxes.get_mailbox w.store u (trim args))))
    ]

    create-IsConfined : IsConfined (create_handler context)
    create-IsConfined tag args current w e h = elim (Bool-cases (is_empty (trim args))) [
      | inl b ↦ unfold create in rw (b, create) (answer-IsGood _ _ w h tt)
      | inr b ↦
          unfold create create_named in
          rw (b, create, e, with_user)
            ((conclude_change-IsGood context allowing tag w h (text "CREATE") (trim args)
              (context.mailboxes.create_mailbox w.store u (trim args))
              (stable w.store (trim args) h).0))
    ]

    delete-IsConfined : IsConfined (delete_handler context)
    delete-IsConfined tag args current w e h = elim (Bool-cases (is_empty (trim args))) [
      | inl b ↦ unfold delete in rw (b, delete) (answer-IsGood _ _ w h tt)
      | inr b ↦ elim (Bool-cases (eq_ignore_ascii_case (trim args) (text "INBOX"))) [
        | inl i ↦ unfold delete in rw (b, i, delete) (answer-IsGood _ _ w h tt)
        | inr i ↦
            unfold delete delete_named in
            rw (b, i, delete, e, with_user)
              ((conclude_change-IsGood context allowing tag w h (text "DELETE") (trim args)
                (context.mailboxes.delete_mailbox w.store u (trim args))
                (stable w.store (trim args) h).1))
      ]
    ]

    list-IsConfined : IsConfined (list_handler context)
    list-IsConfined tag args current w e h = elim (Option-cases (list_args args)) [
      | inl n ↦ unfold list in rw (n, list) (answer-IsGood _ _ w h tt)
      | inr ((r, p), n) ↦
          unfold list in
          rw (n, list, e, with_user)
            ((conclude_list-IsGood tag w
              (context.mailboxes.list_mailboxes w.store u
                (pattern_to_filter (effective_pattern r p)))
              h))
    ]

    handlers-IsConfined : All IsConfined (handlers context)
    unfolding noop capability
    handlers-IsConfined = (
      (λ tag args s w e h. answer-IsGood _ _ w h tt),
      (
        (λ tag args s w e h. answer-IsGood _ _ w h tt),
        (
          (λ tag args s w e h. logout-IsGood context allowing tag w h args s),
          (
            (λ tag args s w e h. login-IsGood context allowing tag w h args s),
            (select-IsConfined, (create-IsConfined, (delete-IsConfined, (list-IsConfined, tt)))),
          ),
        ),
      ),
    )

    pub built_in-IsConfined : (upper : ℕ → Text) → Holds IsConfined (built_in context upper)
    unfolding built_in
    built_in-IsConfined upper =
        register_all-Holds IsConfined upper (handlers context) [] handlers-IsConfined tt
