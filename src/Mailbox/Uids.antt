-- ===== src/Mailbox/Uids.antt =====
-- The UIDs that a mailbox of mailbox.rs assigns.
use scuttled.Prelude.{
  suc, ◌+◌, ◌<◌, Bool, true, false, ◌≡◌, refl, ap, some, List, [], ◌∷◌, arith, if◌then◌else◌,
  length, nat_key, list_key, list_beq_iff, get, contains_key, get-insert, consecutive,
}
use scuttled.Text.{Text}
use scuttled.Types.{Uid, u32_mod}
use scuttled.Error.{ok, is_ok}
use scuttled.Mailbox.{
  InternalMailboxState, MailboxCommand, Reply, assign, handle, mailbox_state_loop,
}

-- A path without a UID gets the next one, and each leads to the other; a path that has one is refused
-- and nothing changes.
assign_lem :
    (s : InternalMailboxState) (p : Text)
    → if contains_key s.path_to_uid p
      then (is_ok (assign s p).0 ≡ false) × ((assign s p).1 ≡ s)
      else ((assign s p).0 ≡ ok s.uid_next)
        × (get (assign s p).1.uid_to_path s.uid_next ≡ some p)
        × (get (assign s p).1.path_to_uid p ≡ some s.uid_next)
unfolding assign
assign_lem s p = ground (
  arith,
  list_beq_iff p p,
  get-insert s.uid_to_path s.uid_next s.uid_next p,
  get-insert s.path_to_uid p p s.uid_next,
)

-- The UIDs among the replies.
abbrev pub assigned : List Reply → List Uid
assigned [] = []
assigned (Reply.uid (ok u) ∷ rs) = u ∷ assigned rs
assigned (r ∷ rs) = assigned rs

abbrev assigns : Reply → Bool
assigns (Reply.uid (ok u)) = true
assigns _ = false

-- A command moves the counter, by one, exactly if it assigns a UID, which is the counter's value.
handle-uid_next :
    (s : InternalMailboxState) (c : MailboxCommand)
    → s.uid_next + 1 < u32_mod
    → (handle s c).1.uid_next ≡ (if assigns (handle s c).0 then suc s.uid_next else s.uid_next)
unfolding handle
handle-uid_next s (MailboxCommand.assign_uid p) room = ground arith
handle-uid_next s _ room = ground arith

assigned-handle :
    (s : InternalMailboxState) (c : MailboxCommand) (rs : List Reply)
    → assigned ((handle s c).0 ∷ rs)
      ≡ (if assigns (handle s c).0 then s.uid_next ∷ assigned rs else assigned rs)
unfolding handle
assigned-handle s (MailboxCommand.assign_uid p) rs = ground arith
assigned-handle s _ rs = ground arith

assigned_step :
    (b : Bool) (k : Uid) (us : List Uid)
    → us ≡ consecutive (if b then suc k else k) (length us)
    → (if b then k ∷ us else us) ≡ consecutive k (length (if b then k ∷ us else us))
assigned_step true k us h = ap (◌∷◌ k) h
assigned_step false k us h = h

-- The loop assigns consecutive UIDs from its counter on, whatever is removed or moved in between, so
-- no UID is used twice. The counter must stay below 2^32.
pub assigned-consecutive :
    (cs : List MailboxCommand) (s : InternalMailboxState)
    → s.uid_next + length cs < u32_mod
    → assigned (mailbox_state_loop s cs).0
      ≡ consecutive s.uid_next (length (assigned (mailbox_state_loop s cs).0))
unfolding mailbox_state_loop
assigned-consecutive [] s room = refl
assigned-consecutive (MailboxCommand.shutdown ∷ cs) s room = refl
assigned-consecutive (c ∷ cs) s room =
    let moved = handle-uid_next s c (omega arith) in
    rw (assigned-handle s c (mailbox_state_loop (handle s c).1 cs).0) (
      assigned_step (assigns (handle s c).0) s.uid_next
        (assigned (mailbox_state_loop (handle s c).1 cs).0)
        (rw moved at (assigned-consecutive cs (handle s c).1 (ground arith))))
