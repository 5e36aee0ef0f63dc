-- ===== src/Mailboxes/Memory/Updates.antt =====
-- The three updates of mailboxes/impl/memory.rs that go through `id_to_key` refine a write to the one
-- map from users and names to mailboxes.
use scuttled.Prelude.{
  ◌≡◌, arith, if◌then◌else◌, Option-cases, inl, inr, pair_key, list_key, nat_key, get, contains_key,
  modify,
}
use scuttled.Types.{MailboxId}
use scuttled.Error.{Error, ok, err}
use scuttled.Mailboxes.{MailboxInfo}
use scuttled.Mailboxes.Memory.{MailboxState, id_key, update_by_id}
use scuttled.Mailboxes.Memory.Consistency.{IsConsistent, key_of_id}

-- In a consistent state an update succeeds exactly if the identifier's user and name have a mailbox,
-- and then writes to that mailbox; otherwise the state stays as it was.
pub update_by_id_lem :
    (s : MailboxState) (id : MailboxId) (f : MailboxInfo → MailboxInfo)
    → IsConsistent s
    → update_by_id s id f ≡ (
        if contains_key s.mailboxes (id.username, id.name)
        then (ok tt, record s { mailboxes = modify s.mailboxes (id.username, id.name) f })
        else (err (Error.mailbox_not_found id.name), s))
update_by_id_lem s id f c = elim (Option-cases (get s.id_to_key id)) [
  | inl missing ↦
      unfold update_by_id contains_key in ground (arith, missing, c.linked id.username id.name)
  | inr (key, there) ↦
      let (own, stored) = key_of_id s id key c there in
      unfold update_by_id in ground (arith, there, own, stored)
]
