-- ===== src/Mailboxes/Memory/Handle.antt =====
-- The handle `InMemoryMailboxes` of mailboxes/impl/memory.rs: each method that writes sends one command
-- and waits for its reply; reads go to the state directly.
use scuttled.Prelude.{ℕ, Bool, Option, ◌++◌, get, pair_key, list_key, nat_key}
use scuttled.Text.{Text, text}
use scuttled.Types.{MailboxId, Uid}
use scuttled.Error.{Error, Result, ok, err}
use scuttled.Channel.{Loop, request}
use scuttled.Mailboxes.{Mailboxes, MailboxInfo}
use scuttled.Mailboxes.Memory
use scuttled.Mailboxes.Memory.{MailboxState}
use scuttled.Mailboxes.Memory.Listing.{list_mailboxes}

abbrev send_failed : Text → Error
send_failed what = Error.internal (text "Failed to send " ++ what ++ text " command")

abbrev reply_dropped : Text → Error
reply_dropped what = Error.internal (text "Failed to receive " ++ what ++ text " response")

-- The methods of the handle, at a loop that runs, drains or has stopped.
module _ (loop : Loop) where
  unfoldable pub create_mailbox : MailboxState → Text → Text → Result MailboxInfo × MailboxState
  unfolding Memory.create_mailbox
  create_mailbox s username name =
      request loop (send_failed (text "create")) (reply_dropped (text "create"))
        (λ t. Memory.create_mailbox t username name) s

  unfoldable pub delete_mailbox : MailboxState → Text → Text → Result (Unit {0}) × MailboxState
  unfolding Memory.delete_mailbox
  delete_mailbox s username name =
      request loop (send_failed (text "delete")) (reply_dropped (text "delete"))
        (λ t. Memory.delete_mailbox t username name) s

  unfoldable pub get_next_uid : MailboxState → Text → Text → Result Uid × MailboxState
  unfolding Memory.get_next_uid
  get_next_uid s username mailbox =
      request loop (send_failed (text "get next UID")) (reply_dropped (text "get next UID"))
        (λ t. Memory.get_next_uid t username mailbox) s

  unfoldable pub update_next_uid : MailboxState → MailboxId → Uid → Result (Unit {0}) × MailboxState
  unfolding Memory.update_next_uid
  update_next_uid s id next_uid =
      request loop (send_failed (text "update next UID")) (reply_dropped (text "update next UID"))
        (λ t. Memory.update_next_uid t id next_uid) s

  unfoldable pub update_uid_validity :
      MailboxState → MailboxId → ℕ → Result (Unit {0}) × MailboxState
  unfolding Memory.update_uid_validity
  update_uid_validity s id uid_validity =
      request loop (send_failed (text "update UID validity"))
        (reply_dropped (text "update UID validity"))
        (λ t. Memory.update_uid_validity t id uid_validity) s

  unfoldable pub update_counts :
      MailboxState → MailboxId → (messages unseen recent : ℕ) → Result (Unit {0}) × MailboxState
  unfolding Memory.update_counts
  update_counts s id messages unseen recent =
      request loop (send_failed (text "update counts")) (reply_dropped (text "update counts"))
        (λ t. Memory.update_counts t id messages unseen recent) s

-- The loop ends at the command, which it answers.
unfoldable pub shutdown : Loop → Result (Unit {0}) × Loop
shutdown Loop.running = (ok tt, Loop.stopped)
shutdown Loop.draining = (err (reply_dropped (text "shutdown")), Loop.stopped)
shutdown Loop.stopped = (err (send_failed (text "shutdown")), Loop.stopped)

-- A read takes the lock and skips the channel.
unfoldable pub get_mailbox : MailboxState → Text → Text → Result (Option MailboxInfo)
unfolding get
get_mailbox s username name = ok (get s.mailboxes (username, name))

-- `impl Mailboxes for InMemoryMailboxes`
abbrev pub in_memory_mailboxes : (Text → Option (Text → Bool)) → Loop → Mailboxes MailboxState
in_memory_mailboxes compile loop = record {
  create_mailbox = create_mailbox loop;
  get_mailbox = get_mailbox;
  delete_mailbox = delete_mailbox loop;
  list_mailboxes = list_mailboxes compile;
}
