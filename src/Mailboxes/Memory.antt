-- ===== src/Mailboxes/Memory.antt =====
-- mailboxes/impl/memory.rs: the state of the in-memory registry, its operations, the writer loop and
-- the handle `InMemoryMailboxes`.
pub mod Listing
pub mod Writer
pub mod Handle
pub mod Consistency
pub mod Uids
pub mod Listed
pub mod Updates
pub mod Validity
use scuttled.Prelude.{
  ℕ, ◌+◌, ◌%◌, Bool, true, false, ◌&&◌, Option, none, some, List, [], ◌∷◌, ◌++◌, map, ◌≡◌, ◌↔◌,
  arith, if◌then◌else◌, Eq, ◌==◌, nat_key, list_key, pair_key, list_beq, list_beq_iff, HashMap, get,
  contains_key, insert, remove, modify, keep,
}
use scuttled.Text.{Text, text, starts_with, ends_with, eq_ignore_ascii_case}
use scuttled.Types.{MailboxId, Uid, u32_mod}
use scuttled.Error.{Error, Result, ok, err}
use scuttled.Channel.{Loop, request}
use scuttled.Mailboxes.{MailboxFilter, MailboxInfo}

abbrev pub Key : Type 0
Key = Text × Text

abbrev pub key_eq : Key → Key → Bool
key_eq j k = j == k

abbrev pub id_beq : MailboxId → MailboxId → Bool
id_beq i j = i.username == j.username && i.name == j.name

pub id_beq_iff : (i j : MailboxId) → (id_beq i j ≡ true) ↔ (i ≡ j)
id_beq_iff i j = ground (arith, list_beq_iff i.username j.username, list_beq_iff i.name j.name)

instance abbrev pub id_key : Eq MailboxId
id_key = record { same = id_beq; same_iff = id_beq_iff }

pub record MailboxState : Type 0 where
  pub mailboxes : HashMap Key MailboxInfo
  pub id_to_key : HashMap MailboxId Key
  pub next_uid_validity : ℕ

unfoldable pub new : MailboxState
new = record { mailboxes = []; id_to_key = []; next_uid_validity = 1 }

unfoldable pub fresh_mailbox : Text → Text → ℕ → MailboxInfo
fresh_mailbox username name uid_validity = record {
  id = record { username = username; name = name };
  uid_validity = uid_validity;
  next_uid = 1;
  root_path = username ++ text "/" ++ name;
  message_count = 0;
  unseen_count = 0;
  recent_count = 0;
}

unfoldable pub create_mailbox : MailboxState → Text → Text → Result MailboxInfo × MailboxState
unfolding fresh_mailbox
create_mailbox s username name =
    let info = fresh_mailbox username name s.next_uid_validity in
    if contains_key s.mailboxes (username, name) then (err (Error.mailbox_exists name), s) else (
      ok info,
      record {
        mailboxes = insert s.mailboxes (username, name) info;
        id_to_key = insert s.id_to_key info.id (username, name);
        next_uid_validity = (s.next_uid_validity + 1) % u32_mod;
      },
    )

unfoldable pub delete_mailbox : MailboxState → Text → Text → Result (Unit {0}) × MailboxState
delete_mailbox s username name = elim (get s.mailboxes (username, name)) [
  | none ↦ (err (Error.mailbox_not_found name), s)
  | some info ↦ (
    ok tt,
    record s {
      mailboxes = remove s.mailboxes (username, name);
      id_to_key = remove s.id_to_key info.id;
    },
  )
]

-- `mailbox_info.next_uid += 1`
abbrev pub bump_next_uid : MailboxInfo → MailboxInfo
bump_next_uid info = record info { next_uid = (info.next_uid + 1) % u32_mod }

unfoldable pub get_next_uid : MailboxState → Text → Text → Result Uid × MailboxState
get_next_uid s username name = elim (get s.mailboxes (username, name)) [
  | none ↦ (err (Error.mailbox_not_found name), s)
  | some info ↦
      (ok info.next_uid, record s { mailboxes = modify s.mailboxes (username, name) bump_next_uid })
]

-- The three updates through `id_to_key`: both look-ups must succeed.
unfoldable pub update_by_id :
    MailboxState → MailboxId → (MailboxInfo → MailboxInfo) → Result (Unit {0}) × MailboxState
update_by_id s id write = elim (get s.id_to_key id) [
  | none ↦ (err (Error.mailbox_not_found id.name), s)
  | some key ↦
      if contains_key s.mailboxes key
      then (ok tt, record s { mailboxes = modify s.mailboxes key write })
      else (err (Error.mailbox_not_found id.name), s)
]

unfoldable pub update_next_uid : MailboxState → MailboxId → Uid → Result (Unit {0}) × MailboxState
unfolding update_by_id
update_next_uid s id next_uid = update_by_id s id (λ info. record info { next_uid = next_uid })

unfoldable pub update_uid_validity : MailboxState → MailboxId → ℕ → Result (Unit {0}) × MailboxState
unfolding update_by_id
update_uid_validity s id uid_validity =
    update_by_id s id (λ info. record info { uid_validity = uid_validity })

unfoldable pub update_counts :
    MailboxState → MailboxId → (messages unseen recent : ℕ) → Result (Unit {0}) × MailboxState
unfolding update_by_id
update_counts s id messages unseen recent =
    update_by_id s id (λ info. record info {
      message_count = messages;
      unseen_count = unseen;
      recent_count = recent;
    })
