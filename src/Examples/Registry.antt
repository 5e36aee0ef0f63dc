-- ===== src/Examples/Registry.antt =====
-- mailboxes/impl/memory.rs at a registry with one mailbox.
use scuttled.Prelude.{
  Bool, true, ◌≡◌, refl, Option, none, List, [], ◌∷◌, arith, list_beq, get, contains_key, insert,
  pair_key, list_key, nat_key,
}
use scuttled.Text.{Text, text}
use scuttled.Types.{MailboxId}
use scuttled.Error.{Error, err}
use scuttled.Mailboxes.{MailboxFilter}
use scuttled.Mailboxes.Memory
use scuttled.Mailboxes.Memory.{Key, MailboxState, new, update_by_id, bump_next_uid}
use scuttled.Mailboxes.Memory.Listing.{matches_filter, list_mailboxes}
use scuttled.Mailboxes.Memory.Writer.{WriteCommand, write, writer_loop}
use scuttled.Mailboxes.Memory.Consistency.{IsConsistent, writer_loop-IsConsistent}
use scuttled.Mailboxes.Memory.Uids.{handed_out, handed_out-consecutive}
use scuttled.Mailboxes.Memory.Listed.{includes, of_result, list_mailboxes-includes}
use scuttled.Mailboxes.Memory.Updates.{update_by_id_lem}

abbrev alice : Text
alice = text "alice"

abbrev inbox : Text
inbox = text "INBOX"

abbrev creation : List WriteCommand
creation = WriteCommand.create alice inbox ∷ []

abbrev registry : MailboxState
registry = (writer_loop new creation).1

registry-IsConsistent : IsConsistent registry
registry-IsConsistent = writer_loop-IsConsistent creation

writer_loop-IsConsistent_example : IsConsistent registry
writer_loop-IsConsistent_example = writer_loop-IsConsistent creation

abbrev traffic : List WriteCommand
traffic =
    WriteCommand.get_next_uid alice inbox
    ∷ WriteCommand.create alice (text "Sent")
    ∷ WriteCommand.get_next_uid alice (text "Sent")
    ∷ WriteCommand.get_next_uid alice inbox
    ∷ []

handed_out-consecutive_example :
    handed_out (alice, inbox) traffic (writer_loop registry traffic).0 ≡ 1 ∷ 2 ∷ []
unfolding text list_beq get new writer_loop write insert contains_key
handed_out-consecutive_example =
    handed_out-consecutive (alice, inbox) traffic registry 1 registry-IsConsistent
      (refl, (refl, (refl, (refl, tt)))) refl (omega arith)

abbrev no_regex : Text → Option (Text → Bool)
no_regex pattern = none

abbrev inbox_id : MailboxId
inbox_id = record { username = alice; name = inbox }

list_mailboxes-includes_example :
    includes
      (of_result (list_mailboxes no_regex registry alice (MailboxFilter.prefix (text "IN"))))
      inbox_id
    ≡ true
unfolding text list_beq contains_key new matches_filter writer_loop write insert
list_mailboxes-includes_example =
    list_mailboxes-includes no_regex registry alice (MailboxFilter.prefix (text "IN")) inbox_id
      registry-IsConsistent

abbrev sent_id : MailboxId
sent_id = record { username = alice; name = text "Sent" }

update_by_id_example :
    update_by_id registry sent_id bump_next_uid
    ≡ (err (Error.mailbox_not_found (text "Sent")), registry)
unfolding text list_beq contains_key new writer_loop write insert
update_by_id_example = update_by_id_lem registry sent_id bump_next_uid registry-IsConsistent

abbrev removal : List WriteCommand
removal = WriteCommand.delete alice inbox ∷ []
