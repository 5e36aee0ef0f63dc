-- ===== src/Handlers/Folders.antt =====
-- handlers/select.rs, create.rs and delete.rs.
use scuttled.Prelude.{Option, none, some, ◌++◌, if◌then◌else◌, is_empty}
use scuttled.Text.{Text, text, trim, eq_ignore_ascii_case}
use scuttled.Error.{Result, ok, err, error_message}
use scuttled.Protocol.Responses.{Response}
use scuttled.Mailboxes.{MailboxInfo}
use scuttled.Handlers.{SessionState, SessionContext, World, username_of, answer}

module _ {S : Type 0} where
  -- The user's name, or the answer that there is none.
  abbrev pub with_user :
      (tag : Text)
      → SessionState
      → (Text → World S → Result (Option SessionState) × World S)
      → World S
      → Result (Option SessionState) × World S
  with_user tag current next w = elim (username_of current) [
    | none ↦ answer (Response.no (some tag) (text "Not authenticated")) none w
    | some username ↦ next username w
  ]

module _ {S : Type 0} (context : SessionContext S) (tag : Text) where
  unfoldable pub conclude_select :
      (username name : Text)
      → Result (Option MailboxInfo)
      → World S
      → Result (Option SessionState) × World S
  unfolding answer
  conclude_select username name (err e) w = (err e, w)
  conclude_select username name (ok none) w =
      answer (Response.no (some tag) (text "Mailbox does not exist: " ++ name)) none w
  conclude_select username name (ok (some info)) w =
      answer (Response.ok (some tag) (text "SELECT completed for " ++ name))
        (some (SessionState.selected username name)) w

  -- Behind the guard on an empty name.
  unfoldable pub select_named :
      (name : Text) → SessionState → World S → Result (Option SessionState) × World S
  unfolding answer conclude_select
  select_named name current w =
      with_user tag current
        (λ username v.
          conclude_select username name (context.mailboxes.get_mailbox v.store username name) v)
        w

  unfoldable pub select :
      (args : Text) → SessionState → World S → Result (Option SessionState) × World S
  unfolding trim answer select_named
  select args current w =
      if is_empty (trim args)
      then answer (Response.bad (some tag) (text "SELECT requires a mailbox name")) none w
      else select_named (trim args) current w

  -- The `match` on the outcome of a creation or deletion, with the state behind it.
  unfoldable pub conclude_change {ℓ} :
      {A : Type ℓ}
      → (command name : Text) → Result A × S
      → World S
      → Result (Option SessionState) × World S
  unfolding answer
  conclude_change command name (ok a, s) w =
      answer (Response.ok (some tag) (command ++ text " completed for " ++ name)) none
        (record w { store = s })
  conclude_change command name (err e, s) w =
      answer (Response.no (some tag) (command ++ text " failed: " ++ error_message e)) none
        (record w { store = s })

  unfoldable pub create_named :
      (name : Text) → SessionState → World S → Result (Option SessionState) × World S
  unfolding answer conclude_change
  create_named name current w =
      with_user tag current
        (λ username v.
          conclude_change (text "CREATE") name
            (context.mailboxes.create_mailbox v.store username name) v)
        w

  unfoldable pub create :
      (args : Text) → SessionState → World S → Result (Option SessionState) × World S
  unfolding trim answer create_named
  create args current w =
      if is_empty (trim args)
      then answer (Response.bad (some tag) (text "CREATE requires a mailbox name")) none w
      else create_named (trim args) current w

  unfoldable pub delete_named :
      (name : Text) → SessionState → World S → Result (Option SessionState) × World S
  unfolding answer conclude_change
  delete_named name current w =
      with_user tag current
        (λ username v.
          conclude_change (text "DELETE") name
            (context.mailboxes.delete_mailbox v.store username name) v)
        w

  unfoldable pub delete :
      (args : Text) → SessionState → World S → Result (Option SessionState) × World S
  unfolding trim answer eq_ignore_ascii_case delete_named
  delete args current w =
      if is_empty (trim args)
      then answer (Response.bad (some tag) (text "DELETE requires a mailbox name")) none w
      else if eq_ignore_ascii_case (trim args) (text "INBOX")
      then answer (Response.no (some tag) (text "Cannot delete INBOX")) none w
      else delete_named (trim args) current w
