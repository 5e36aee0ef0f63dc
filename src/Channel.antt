-- ===== src/Channel.antt =====
-- A request to a writer loop: the handles of mailboxes/impl/memory.rs, mailbox.rs, index/indexer.rs,
-- queue/impl/channel.rs and storage.rs send a command with a oneshot sender and wait for the reply.
-- The loop runs one command at a time, so a request is one transition of the state it owns.
use scuttled.Error.{Error, Result, err}

-- The loop runs; or a `Shutdown` stands before this command in the channel, which is then dropped
-- together with its reply sender; or the loop has ended and the channel is closed.
pub data Loop : Type 0 where
  running draining stopped : Loop

-- `send(command).await.map_err(…)?` and `rx.await.map_err(…)?`.
abbrev pub request {ℓ} :
    {S A : Type ℓ} → Loop → Error → Error → (S → Result A × S) → S → Result A × S
request Loop.running send_failed reply_dropped op s = op s
request Loop.draining send_failed reply_dropped op s = (err reply_dropped, s)
request Loop.stopped send_failed reply_dropped op s = (err send_failed, s)
