-- ===== src/Examples/Entering.antt =====
-- A client logs in as a user of the table in Examples/Accounts.
use scuttled.Prelude.{none, []}
use scuttled.Text.{Text}
use scuttled.Error.{Error, ok, err}
use scuttled.Mailboxes.{Mailboxes}
use scuttled.Handlers.{World}
use scuttled.Users.Sqlite.{create_user}
use scuttled.Users.Sqlite.Accounts.{after}
use scuttled.Examples.Sessions.{plain}
use scuttled.Examples.Accounts.{
  Table, memory_database, entry_of, marked, today, secret, alice, others, lawful,
}

-- A registry without mailboxes.
abbrev no_mailboxes : Mailboxes Table
no_mailboxes = record {
  create_mailbox = λ s u n. (err (Error.internal []), s);
  get_mailbox = λ s u n. ok none;
  delete_mailbox = λ s u n. (err (Error.internal []), s);
  list_mailboxes = λ s u f. ok [];
}

abbrev users : Table
users =
    after memory_database [] entry_of lawful others
      (create_user memory_database [] marked today alice secret []).1

abbrev world : World Table
world = record { connection = plain.connection; store = users }
