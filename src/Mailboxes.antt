-- ===== src/Mailboxes.antt =====
-- mailboxes/mod.rs: the registry of mailboxes as an interface, with the laws that the command
-- handlers rely on. Mailboxes/Memory is the in-memory implementation of mailboxes/impl/memory.rs.
pub mod Memory
use scuttled.Prelude.{
  ℕ, Bool, true, false, ◌≡◌, Option, none, some, List, ◌↔◌, ◌&&◌, ◌==◌, Eq, list_key, nat_key,
  list_beq_iff, arith, ◌⊎◌,
}
use scuttled.Text.{Text}
use scuttled.Types.{MailboxId, Uid}
use scuttled.Error.{Result, ok, err}

pub data MailboxFilter : Type 0 where
  all : MailboxFilter
  exact prefix suffix regex : Text → MailboxFilter

pub record MailboxInfo : Type 0 where
  pub id : MailboxId
  pub uid_validity : ℕ
  pub next_uid : Uid
  pub root_path : Text
  pub message_count : ℕ
  pub unseen_count : ℕ
  pub recent_count : ℕ

-- The trait, over the state `S` that an implementation keeps. Each operation returns its result and
-- the state behind it.
pub record Mailboxes (S : Type 0) : Type 0 where
  pub create_mailbox : S → (username name : Text) → Result MailboxInfo × S
  pub get_mailbox : S → (username name : Text) → Result (Option MailboxInfo)
  pub delete_mailbox : S → (username name : Text) → Result (Unit {0}) × S
  pub list_mailboxes : S → (username : Text) → MailboxFilter → Result (List MailboxInfo)
