-- ===== src/Mailbox/Mapping.antt =====
-- The two maps of a mailbox of mailbox.rs invert each other, and UIDs are given out in order.
use scuttled.Prelude.{
  ℕ, ◌+◌, ◌<◌, ◌≡◌, ◌≢◌, some, List, [], ◌∷◌, arith, Option-cases, inl, inr, nat_key, list_key,
  list_beq_iff, get, contains_key, remove, get-insert, get-remove,
}
use scuttled.Text.{Text}
use scuttled.Types.{Uid, u32_mod}
use scuttled.Error.{ok}
use scuttled.Mailbox.{
  InternalMailboxState, MailboxCommand, new, assign, remove_uid, move_uid, handle,
  mailbox_state_loop,
}

pub record IsPaired (s : InternalMailboxState) : Type 0 where
  pub path_back : (u : Uid) (p : Text) → get s.uid_to_path u ≡ some p → get s.path_to_uid p ≡ some u
  pub uid_back : (p : Text) (u : Uid) → get s.path_to_uid p ≡ some u → get s.uid_to_path u ≡ some p
  pub below : (u : Uid) (p : Text) → get s.uid_to_path u ≡ some p → u < s.uid_next

pub new-IsPaired : (username name : Text) (v : ℕ) → IsPaired (new username name v)
unfolding new get
new-IsPaired username name v = record {
  path_back = λ u p h. cc;
  uid_back = λ p u h. cc;
  below = λ u p h. cc;
}

module _ (s : InternalMailboxState) (c : IsPaired s) where
  assign-IsPaired : (p : Text) → s.uid_next + 1 < u32_mod → IsPaired (assign s p).1
  unfolding assign contains_key
  assign-IsPaired p room = record {
    path_back = λ v q. ground (
      arith,
      c.path_back v q,
      c.below v q,
      list_beq_iff p q,
      get-insert s.uid_to_path s.uid_next v p,
      get-insert s.path_to_uid p q s.uid_next,
    );
    uid_back = λ q v. ground (
      arith,
      c.uid_back q v,
      c.below v q,
      list_beq_iff p q,
      get-insert s.uid_to_path s.uid_next v p,
      get-insert s.path_to_uid p q s.uid_next,
    );
    below = λ v q. ground (arith, c.below v q, get-insert s.uid_to_path s.uid_next v p);
  }

  remove_uid-IsPaired : (u : Uid) → IsPaired (remove_uid s u).1
  remove_uid-IsPaired u = elim (Option-cases (get s.uid_to_path u)) [
    | inl missing ↦ unfold remove_uid in rw (missing, remove_uid) c
    | inr (p, found) ↦
        unfold remove_uid in
        rw (found, remove_uid)
          (record {
            path_back = λ v q. ground (
              arith,
              c.path_back v q,
              c.path_back u p,
              list_beq_iff p q,
              get-remove s.uid_to_path u v,
              get-remove s.path_to_uid p q,
            );
            uid_back = λ q v. ground (
              arith,
              c.uid_back q v,
              c.path_back u p,
              list_beq_iff p q,
              get-remove s.uid_to_path u v,
              get-remove s.path_to_uid p q,
            );
            below = λ v q. ground (arith, c.below v q, get-remove s.uid_to_path u v);
          })
  ]

  -- The new path must be free, or the message's own.
  move_uid-IsPaired :
      (u : Uid) (p : Text)
      → ((v : Uid) → get s.path_to_uid p ≡ some v → v ≡ u)
      → IsPaired (move_uid s u p).1
  move_uid-IsPaired u p free = elim (Option-cases (get s.uid_to_path u)) [
    | inl missing ↦ unfold move_uid in rw (missing, move_uid) c
    | inr (old, found) ↦
        unfold move_uid in
        rw (found, move_uid)
          (record {
            path_back = λ v q. ground (
              arith,
              c.path_back v q,
              c.path_back u old,
              free v,
              list_beq_iff p q,
              list_beq_iff old q,
              get-insert s.uid_to_path u v p,
              get-insert (remove s.path_to_uid old) p q u,
              get-remove s.path_to_uid old q,
            );
            uid_back = λ q v. ground (
              arith,
              c.uid_back q v,
              c.path_back u old,
              list_beq_iff p q,
              list_beq_iff old q,
              get-insert s.uid_to_path u v p,
              get-insert (remove s.path_to_uid old) p q u,
              get-remove s.path_to_uid old q,
            );
            below =
                λ v q. ground (arith, c.below v q, c.below u old, get-insert s.uid_to_path u v p);
          })
  ]

-- What keeps the maps paired: room for one more UID, and a new path that no other message has.
abbrev pub IsAllowed : InternalMailboxState → MailboxCommand → Type 0
IsAllowed s (MailboxCommand.assign_uid p) = s.uid_next + 1 < u32_mod
IsAllowed s (MailboxCommand.update_path u p) = (v : Uid) → get s.path_to_uid p ≡ some v → v ≡ u
IsAllowed s _ = Unit

abbrev pub AreAllowed : InternalMailboxState → List MailboxCommand → Type 0
AreAllowed s [] = Unit
AreAllowed s (c ∷ cs) = IsAllowed s c × AreAllowed (handle s c).1 cs

handle-IsPaired :
    (s : InternalMailboxState) (c : MailboxCommand)
    → IsAllowed s c
    → IsPaired s
    → IsPaired (handle s c).1
unfolding handle
handle-IsPaired s (MailboxCommand.assign_uid p) a h = assign-IsPaired s h p a
handle-IsPaired s (MailboxCommand.remove_message u) a h = remove_uid-IsPaired s h u
handle-IsPaired s (MailboxCommand.update_path u p) a h = move_uid-IsPaired s h u p a
handle-IsPaired s (MailboxCommand.get_path u) a h = h
handle-IsPaired s (MailboxCommand.get_uid p) a h = h
handle-IsPaired s MailboxCommand.get_state a h = h
handle-IsPaired s MailboxCommand.subscribe a h = record {
  path_back = h.path_back;
  uid_back = h.uid_back;
  below = h.below;
}
handle-IsPaired s (MailboxCommand.notify n) a h = record {
  path_back = h.path_back;
  uid_back = h.uid_back;
  below = h.below;
}
handle-IsPaired s MailboxCommand.shutdown a h = h

-- Over any commands of which no `assign_uid` finds the counter at its limit and no `update_path`
-- takes a path that another message has, the two maps stay inverse to each other and every UID in
-- use stays below the counter.
pub mailbox_state_loop-IsPaired :
    (cs : List MailboxCommand) (s : InternalMailboxState)
    → AreAllowed s cs
    → IsPaired s
    → IsPaired (mailbox_state_loop s cs).1
unfolding mailbox_state_loop
mailbox_state_loop-IsPaired [] s a h = h
mailbox_state_loop-IsPaired (MailboxCommand.shutdown ∷ cs) s a h = h
mailbox_state_loop-IsPaired (c ∷ cs) s a h =
    mailbox_state_loop-IsPaired cs (handle s c).1 a.1 (handle-IsPaired s c a.0 h)

-- A message that is moved to the path of another message succeeds, and leaves maps that are not
-- inverse to each other: both UIDs lead to the path, and the path leads to one of them.
pub move_uid-clash :
    (s : InternalMailboxState) (u v : Uid) (old p : Text)
    → IsPaired s
    → get s.uid_to_path u ≡ some old
    → get s.path_to_uid p ≡ some v
    → v ≢ u
    → ((move_uid s u p).0 ≡ ok tt)
      × (get (move_uid s u p).1.uid_to_path u ≡ some p)
      × (get (move_uid s u p).1.uid_to_path v ≡ some p)
      × (get (move_uid s u p).1.path_to_uid p ≡ some u)
unfolding move_uid
move_uid-clash s u v old p c found taken other = ground (
  arith,
  c.uid_back p v,
  list_beq_iff p p,
  get-insert s.uid_to_path u v p,
  get-insert s.uid_to_path u u p,
  get-insert (remove s.path_to_uid old) p p u,
)
