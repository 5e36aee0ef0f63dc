-- ===== src/Index/Tantivy.antt =====
-- index/impl/tantivy.rs: the index over the tantivy crate. Its writer loop keeps the mailboxes itself and gives
-- the messages to tantivy as documents.
pub mod Reads
pub mod Handle
pub mod Own
use scuttled.Prelude.{
  ℕ, ◌+◌, ◌%◌, ◌^◌, Bool, true, false, not, Option, none, some, List, [], ◌∷◌, ◌++◌, if◌then◌else◌,
  map, list_key, nat_key, HashMap, get, contains_key, insert, remove, modify, contains, is_some,
}
use scuttled.Text.{Text, text, join}
use scuttled.Types.{MessageId, Uid, MessageFlag, u32_mod}
use scuttled.Types.Flags.{flag_key}
use scuttled.Error.{Error, Result, ok, err}
use scuttled.Index.{IndexedMessage}

-- `Mailbox` of types.rs.
pub record Mailbox : Type 0 where
  pub name : Text
  pub uid_validity : ℕ
  pub uid_next : Uid
  pub flags : List MessageFlag
  pub permanent_flags : List MessageFlag
  pub message_count : ℕ
  pub recent_count : ℕ
  pub unseen_count : ℕ

pub record MailboxState : Type 0 where
  pub info : Mailbox
  pub uid_counter : Uid

-- The fields of the schema, and the document that the loop makes of a message.
pub data Field : Type 0 where
  message_id_field uid_field username_field mailbox_field from_field : Field
  to_field subject_field body_field flags_field path_field : Field

pub record Document : Type 0 where
  pub message_id : Text
  pub uid : ℕ
  pub username : Text
  pub mailbox : Text
  pub from : Text
  pub to : Text
  pub subject : Text
  pub body : Text
  pub flags : Text
  pub path : Text

-- The writer of tantivy over the state `W` of an index: each call may fail, with a message.
pub record IndexWriter (W : Type 0) : Type 0 where
  pub add_document : Document → W → Option Text × W
  pub commit : W → Option Text × W

-- What the loop owns.
pub record Writing (W : Type 0) : Type 0 where
  pub mailboxes : HashMap Text MailboxState
  pub index : W

pub data WriteCommand : Type 0 where
  create : (username name : Text) → WriteCommand
  delete : (username name : Text) → WriteCommand
  rename : (username old_name new_name : Text) → WriteCommand
  add : (username mailbox : Text) → IndexedMessage → WriteCommand
  update_flags : MessageId → List MessageFlag → WriteCommand
  delete_message : MessageId → WriteCommand
  next_uid : (username mailbox : Text) → WriteCommand
  shutdown : WriteCommand

-- What the loop sends back.
pub data Reply : Type 0 where
  done : Result (Unit {0}) → Reply
  added : Result Text → Reply
  numbered : Result Uid → Reply
  closed : Reply

-- `format!("{}:{}", username, name)`
abbrev pub mailbox_key : (username name : Text) → Text
mailbox_key username name = username ++ text ":" ++ name

abbrev pub mailbox_not_found : Text → Error
mailbox_not_found name = Error.not_found (text "Mailbox " ++ name ++ text " not found")

abbrev pub fresh_mailbox : Text → MailboxState
fresh_mailbox name = record {
  info = record {
    name = name;
    uid_validity = 1;
    uid_next = 1;
    flags = [];
    permanent_flags =
        MessageFlag.seen ∷ MessageFlag.answered ∷ MessageFlag.flagged ∷ MessageFlag.deleted
        ∷ MessageFlag.draft ∷ [];
    message_count = 0;
    recent_count = 0;
    unseen_count = 0;
  };
  uid_counter = 1;
}

abbrev pub renamed : Text → MailboxState → MailboxState
renamed name state = record state { info = record state.info { name = name } }

-- A `usize` has 64 bits.
abbrev pub increment : ℕ → ℕ
increment n = (n + 1) % 2 ^ 64

abbrev pub counted : (seen : Bool) → MailboxState → MailboxState
counted seen state = record state {
  info = record state.info {
    message_count = increment state.info.message_count;
    unseen_count = if seen then state.info.unseen_count else increment state.info.unseen_count;
  };
}

abbrev pub bumped : MailboxState → MailboxState
bumped state = record state { uid_counter = (state.uid_counter + 1) % u32_mod }

module _ {W : Type 0} where
  unfoldable pub create_mailbox : (username name : Text) → Writing W → Result (Unit {0}) × Writing W
  unfolding contains_key insert
  create_mailbox username name s =
      if contains_key s.mailboxes (mailbox_key username name)
      then (err (Error.already_exists (text "Mailbox " ++ name ++ text " already exists")), s)
      else (
        ok tt,
        record s {
          mailboxes = insert s.mailboxes (mailbox_key username name) (fresh_mailbox name);
        },
      )

  unfoldable pub delete_mailbox : (username name : Text) → Writing W → Result (Unit {0}) × Writing W
  unfolding contains_key remove
  delete_mailbox username name s =
      if contains_key s.mailboxes (mailbox_key username name)
      then (ok tt, record s { mailboxes = remove s.mailboxes (mailbox_key username name) })
      else (err (mailbox_not_found name), s)

  unfoldable pub rename_mailbox :
      (username old_name new_name : Text) → Writing W → Result (Unit {0}) × Writing W
  unfolding get remove insert
  rename_mailbox username old_name new_name s =
      elim (get s.mailboxes (mailbox_key username old_name)) [
        | none ↦ (err (mailbox_not_found old_name), s)
        | some state ↦ (
          ok tt,
          record s {
            mailboxes =
                insert (remove s.mailboxes (mailbox_key username old_name))
                  (mailbox_key username new_name) (renamed new_name state);
          },
        )
      ]

  unfoldable pub get_next_uid : (username mailbox : Text) → Writing W → Result Uid × Writing W
  unfolding get modify
  get_next_uid username mailbox s = elim (get s.mailboxes (mailbox_key username mailbox)) [
    | none ↦ (err (mailbox_not_found mailbox), s)
    | some state ↦ (
      ok state.uid_counter,
      record s { mailboxes = modify s.mailboxes (mailbox_key username mailbox) bumped },
    )
  ]

  module _ (writer : IndexWriter W) (display : MessageId → Text) (debug : MessageFlag → Text) where
    unfoldable pub make_message_path : (username mailbox : Text) → MessageId → Text
    make_message_path username mailbox id =
        username ++ text "/" ++ mailbox ++ text "/" ++ display id ++ text ".eml"

    unfoldable pub document_of : (username mailbox : Text) → IndexedMessage → Document
    unfolding join make_message_path
    document_of username mailbox message = record {
      message_id = display message.id;
      uid = message.uid;
      username = username;
      mailbox = mailbox;
      from = message.from;
      to = message.to;
      subject = message.subject;
      body = message.body_preview;
      flags = join (text ",") (map debug message.flags);
      path = make_message_path username mailbox message.id;
    }

    -- The reply, and the counts of the mailbox, once the commit has returned.
    abbrev pub committed :
        (username mailbox : Text)
        → IndexedMessage
        → HashMap Text MailboxState
        → Option Text × W
        → Result Text × Writing W
    committed username mailbox message mailboxes (some m, w) = (
      err (Error.index (text "Failed to commit: " ++ m)),
      record { mailboxes = mailboxes; index = w },
    )
    committed username mailbox message mailboxes (none, w) = (
      ok (make_message_path username mailbox message.id),
      record {
        mailboxes =
            modify mailboxes (mailbox_key username mailbox)
              (counted (contains message.flags MessageFlag.seen));
        index = w;
      },
    )

    abbrev pub document_added :
        (username mailbox : Text)
        → IndexedMessage
        → HashMap Text MailboxState
        → Option Text × W
        → Result Text × Writing W
    document_added username mailbox message mailboxes (some m, w) = (
      err (Error.index (text "Failed to add document: " ++ m)),
      record { mailboxes = mailboxes; index = w },
    )
    document_added username mailbox message mailboxes (none, w) =
        committed username mailbox message mailboxes (writer.commit w)

    unfoldable pub add_message :
        (username mailbox : Text) → IndexedMessage → Writing W → Result Text × Writing W
    unfolding contains_key modify document_of make_message_path
    add_message username mailbox message s =
        if contains_key s.mailboxes (mailbox_key username mailbox)
        then document_added username mailbox message s.mailboxes
            (writer.add_document (document_of username mailbox message) s.index)
        else (err (mailbox_not_found mailbox), s)

    abbrev pub replied {ℓ} : {A : Type ℓ} → (A → Reply) → A × Writing W → Reply × Writing W
    replied reply (a, s) = (reply a, s)

    -- One turn of the loop. Flags are not updated and messages not deleted: both are answered Ok.
    unfoldable pub write : WriteCommand → Writing W → Reply × Writing W
    unfolding create_mailbox delete_mailbox rename_mailbox add_message get_next_uid
    write (WriteCommand.create u n) s = replied Reply.done (create_mailbox u n s)
    write (WriteCommand.delete u n) s = replied Reply.done (delete_mailbox u n s)
    write (WriteCommand.rename u o n) s = replied Reply.done (rename_mailbox u o n s)
    write (WriteCommand.add u m message) s = replied Reply.added (add_message u m message s)
    write (WriteCommand.update_flags id flags) s = (Reply.done (ok tt), s)
    write (WriteCommand.delete_message id) s = (Reply.done (ok tt), s)
    write (WriteCommand.next_uid u m) s = replied Reply.numbered (get_next_uid u m s)
    write WriteCommand.shutdown s = (Reply.closed, s)

    unfoldable pub writer_loop : List WriteCommand → Writing W → List Reply × Writing W
    unfolding write
    writer_loop [] s = ([], s)
    writer_loop (WriteCommand.shutdown ∷ cs) s = (Reply.closed ∷ [], s)
    writer_loop (c ∷ cs) s =
        let (reply, t) = write c s in
        let (replies, end) = writer_loop cs t in (reply ∷ replies, end)
