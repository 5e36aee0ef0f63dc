-- ===== src/Mailboxes/Memory/Writer.antt =====
-- The writer loop of mailboxes/impl/memory.rs.
use scuttled.Prelude.{ℕ, List, [], ◌∷◌}
use scuttled.Text.{Text}
use scuttled.Types.{MailboxId, Uid}
use scuttled.Error.{Result}
use scuttled.Mailboxes.{MailboxInfo}
use scuttled.Mailboxes.Memory
use scuttled.Mailboxes.Memory.{MailboxState}

pub data WriteCommand : Type 0 where
  create delete get_next_uid : (username name : Text) → WriteCommand
  update_next_uid : MailboxId → Uid → WriteCommand
  update_uid_validity : MailboxId → ℕ → WriteCommand
  update_counts : MailboxId → (messages unseen recent : ℕ) → WriteCommand
  shutdown : WriteCommand

-- What the loop sends back.
pub data Reply : Type 0 where
  info : Result MailboxInfo → Reply
  done : Result (Unit {0}) → Reply
  uid : Result Uid → Reply
  closed : Reply

-- One turn of the loop: the reply and the state.
unfoldable pub write : MailboxState → WriteCommand → Reply × MailboxState
unfolding Memory.create_mailbox Memory.delete_mailbox Memory.get_next_uid Memory.update_next_uid
    Memory.update_uid_validity Memory.update_counts
write s (WriteCommand.create u n) = let (r, s') = Memory.create_mailbox s u n in (Reply.info r, s')
write s (WriteCommand.delete u n) = let (r, s') = Memory.delete_mailbox s u n in (Reply.done r, s')
write s (WriteCommand.get_next_uid u n) =
    let (r, s') = Memory.get_next_uid s u n in (Reply.uid r, s')
write s (WriteCommand.update_next_uid id n) =
    let (r, s') = Memory.update_next_uid s id n in (Reply.done r, s')
write s (WriteCommand.update_uid_validity id v) =
    let (r, s') = Memory.update_uid_validity s id v in (Reply.done r, s')
write s (WriteCommand.update_counts id m u r) =
    let (res, s') = Memory.update_counts s id m u r in (Reply.done res, s')
write s WriteCommand.shutdown = (Reply.closed, s)

-- The loop over the commands that the channel yields. It ends at a `Shutdown`; the commands behind
-- that get no reply.
unfoldable pub writer_loop : MailboxState → List WriteCommand → List Reply × MailboxState
writer_loop s [] = ([], s)
writer_loop s (WriteCommand.shutdown ∷ cs) = (Reply.closed ∷ [], s)
writer_loop s (c ∷ cs) =
    let (reply, s') = write s c in let (replies, t) = writer_loop s' cs in (reply ∷ replies, t)
