-- ===== src/Types.antt =====
-- types.rs: identifiers, message flags with their IMAP names, credentials and search queries
-- (Types/Query).
-- A `Uuid` and a `DateTime` are numbers that the program only stores and compares.
pub mod Flags
pub mod Query
use scuttled.Prelude.{
  ℕ, Bool, true, false, ◌&&◌, ◌≡◌, ◌↔◌, List, if◌then◌else◌, arith, Eq, ◌==◌, list_key, nat_key,
  list_beq, ◌^◌,
}
use scuttled.Text.{Text, text}

-- A `u32` wraps in a release build.
abbrev pub u32_mod : ℕ
u32_mod = 2 ^ 32

abbrev pub MessageId : Type 0
MessageId = ℕ

abbrev pub Uid : Type 0
Uid = ℕ

abbrev pub DateTime : Type 0
DateTime = ℕ

pub record MailboxId : Type 0 where
  pub username : Text
  pub name : Text

pub data MessageFlag : Type 0 where
  seen answered flagged deleted draft recent : MessageFlag
  custom : Text → MessageFlag

unfoldable pub to_imap_string : MessageFlag → Text
to_imap_string MessageFlag.seen = text "\\Seen"
to_imap_string MessageFlag.answered = text "\\Answered"
to_imap_string MessageFlag.flagged = text "\\Flagged"
to_imap_string MessageFlag.deleted = text "\\Deleted"
to_imap_string MessageFlag.draft = text "\\Draft"
to_imap_string MessageFlag.recent = text "\\Recent"
to_imap_string (MessageFlag.custom s) = s

unfoldable pub from_imap_string : Text → MessageFlag
unfolding list_beq
from_imap_string s =
    if s == text "\\Seen"
    then MessageFlag.seen
    else if s == text "\\Answered"
    then MessageFlag.answered
    else if s == text "\\Flagged"
    then MessageFlag.flagged
    else if s == text "\\Deleted"
    then MessageFlag.deleted
    else if s == text "\\Draft"
    then MessageFlag.draft
    else if s == text "\\Recent"
    then MessageFlag.recent
    else MessageFlag.custom s

pub record Credentials : Type 0 where
  pub username : Text
  pub password : Text

pub record User : Type 0 where
  pub username : Text
  pub password_hash : Text
  pub created_at : DateTime
