-- ===== src/Handlers/Answering/Folders.antt =====
-- SELECT, CREATE and DELETE answer with the tag.
use scuttled.Prelude.{refl, Option, none, some, is_empty, Bool-cases, inl, inr}
use scuttled.Text.{Text, text, trim, eq_ignore_ascii_case}
use scuttled.Error.{Result, ok, err}
use scuttled.Mailboxes.{MailboxInfo}
use scuttled.Handlers.{SessionState, SessionContext, World}
use scuttled.Handlers.Folders.{
  select, select_named, conclude_select, create, create_named, delete, delete_named,
  conclude_change,
}
use scuttled.Handlers.Answering.{IsReliable, IsFinal, answer-IsFinal}

module _ {S : Type 0} (tag : Text) where
  module _ (context : SessionContext S) (w : World S) (h : IsReliable w.connection) where
    conclude_select-IsFinal :
        (username name : Text) (result : Result (Option MailboxInfo))
        → IsFinal tag w (conclude_select context tag username name result w)
    unfolding conclude_select
    conclude_select-IsFinal username name (err e) = refl
    conclude_select-IsFinal username name (ok none) = answer-IsFinal tag w h _ _ refl
    conclude_select-IsFinal username name (ok (some info)) = answer-IsFinal tag w h _ _ refl

    conclude_change-IsFinal {ℓ} :
        {A : Type ℓ} (command name : Text) (result : Result A × S)
        → IsFinal tag w (conclude_change context tag command name result w)
    unfolding conclude_change
    conclude_change-IsFinal command name (ok a, s) =
        answer-IsFinal tag (record w { store = s }) h _ _ refl
    conclude_change-IsFinal command name (err e, s) =
        answer-IsFinal tag (record w { store = s }) h _ _ refl

    select_named-IsFinal :
        (name : Text) (current : SessionState)
        → IsFinal tag w (select_named context tag name current w)
    unfolding select_named
    select_named-IsFinal name SessionState.not_authenticated = answer-IsFinal tag w h _ _ refl
    select_named-IsFinal name SessionState.logout = answer-IsFinal tag w h _ _ refl
    select_named-IsFinal name (SessionState.authenticated u) =
        conclude_select-IsFinal u name (context.mailboxes.get_mailbox w.store u name)
    select_named-IsFinal name (SessionState.selected u m) =
        conclude_select-IsFinal u name (context.mailboxes.get_mailbox w.store u name)

    pub select-IsFinal :
        (args : Text) (current : SessionState) → IsFinal tag w (select context tag args current w)
    select-IsFinal args current = elim (Bool-cases (is_empty (trim args))) [
      | inl e ↦ unfold select in rw (e, select) (answer-IsFinal tag w h _ _ refl)
      | inr e ↦ unfold select in rw (e, select) (select_named-IsFinal (trim args) current)
    ]

    create_named-IsFinal :
        (name : Text) (current : SessionState)
        → IsFinal tag w (create_named context tag name current w)
    unfolding create_named
    create_named-IsFinal name SessionState.not_authenticated = answer-IsFinal tag w h _ _ refl
    create_named-IsFinal name SessionState.logout = answer-IsFinal tag w h _ _ refl
    create_named-IsFinal name (SessionState.authenticated u) =
        conclude_change-IsFinal (text "CREATE") name
          (context.mailboxes.create_mailbox w.store u name)
    create_named-IsFinal name (SessionState.selected u m) =
        conclude_change-IsFinal (text "CREATE") name
          (context.mailboxes.create_mailbox w.store u name)

    pub create-IsFinal :
        (args : Text) (current : SessionState) → IsFinal tag w (create context tag args current w)
    create-IsFinal args current = elim (Bool-cases (is_empty (trim args))) [
      | inl e ↦ unfold create in rw (e, create) (answer-IsFinal tag w h _ _ refl)
      | inr e ↦ unfold create in rw (e, create) (create_named-IsFinal (trim args) current)
    ]

    delete_named-IsFinal :
        (name : Text) (current : SessionState)
        → IsFinal tag w (delete_named context tag name current w)
    unfolding delete_named
    delete_named-IsFinal name SessionState.not_authenticated = answer-IsFinal tag w h _ _ refl
    delete_named-IsFinal name SessionState.logout = answer-IsFinal tag w h _ _ refl
    delete_named-IsFinal name (SessionState.authenticated u) =
        conclude_change-IsFinal (text "DELETE") name
          (context.mailboxes.delete_mailbox w.store u name)
    delete_named-IsFinal name (SessionState.selected u m) =
        conclude_change-IsFinal (text "DELETE") name
          (context.mailboxes.delete_mailbox w.store u name)

    pub delete-IsFinal :
        (args : Text) (current : SessionState) → IsFinal tag w (delete context tag args current w)
    delete-IsFinal args current = elim (Bool-cases (is_empty (trim args))) [
      | inl e ↦ unfold delete in rw (e, delete) (answer-IsFinal tag w h _ _ refl)
      | inr e ↦ elim (Bool-cases (eq_ignore_ascii_case (trim args) (text "INBOX"))) [
        | inl i ↦ unfold delete in rw (e, i, delete) (answer-IsFinal tag w h _ _ refl)
        | inr i ↦ unfold delete in rw (e, i, delete) (delete_named-IsFinal (trim args) current)
      ]
    ]
