-- ===== src/Mailboxes/Memory/Validity.antt =====
-- UID validity values of mailboxes/impl/memory.rs: a mailbox that is created gets a value above every
-- value in use, also where it replaces a deleted mailbox of that name.
use mathlib.Core.Option
use scuttled.Prelude.{
  ℕ, ◌+◌, ◌≤◌, ◌<◌, Bool, true, false, ◌≡◌, refl, Option, none, some, List, [], ◌∷◌, arith,
  Option-cases, Bool-cases, inl, inr, All, length, list_beq_iff, pair_key, list_key, nat_key, get,
  contains_key, modify, get-insert, get-remove, get-modify,
}
use scuttled.Text.{Text}
use scuttled.Types.{MailboxId, u32_mod}
use scuttled.Error.{ok}
use scuttled.Mailboxes.{MailboxInfo}
use scuttled.Mailboxes.Memory.{
  Key, key_eq, MailboxState, id_key, new, fresh_mailbox, create_mailbox, delete_mailbox,
  get_next_uid, update_by_id, bump_next_uid,
}
use scuttled.Mailboxes.Memory.Writer.{WriteCommand, write, writer_loop}

abbrev pub IsBelow : ℕ → Option MailboxInfo → Type 0
IsBelow k none = Unit
IsBelow k (some info) = info.uid_validity < k

-- Every value in use is below the counter.
pub record IsBounded (s : MailboxState) : Type 0 where
  pub below : (u n : Text) → IsBelow s.next_uid_validity (get s.mailboxes (u, n))

new-IsBounded : IsBounded new
unfolding new get
new-IsBounded = record { below = λ u n. tt }

-- A new mailbox gets a value above every value in use.
pub create_mailbox-uid_validity :
    (s s' : MailboxState) (u n v m : Text) (info old : MailboxInfo)
    → IsBounded s
    → create_mailbox s u n ≡ (ok info, s')
    → get s.mailboxes (v, m) ≡ some old
    → old.uid_validity < info.uid_validity
unfolding create_mailbox
create_mailbox-uid_validity s s' u n v m info old b e h = ground (arith, b.below v m)

create_mailbox-IsBounded :
    (s : MailboxState) (u n : Text)
    → s.next_uid_validity + 1 < u32_mod
    → IsBounded s
    → IsBounded (create_mailbox s u n).1
unfolding create_mailbox
create_mailbox-IsBounded s u n room b = record {
  below = λ v m. ground (
    arith,
    b.below v m,
    list_beq_iff u v,
    list_beq_iff n m,
    get-insert s.mailboxes (u, n) (v, m) (fresh_mailbox u n s.next_uid_validity),
  );
}

delete_mailbox-IsBounded :
    (s : MailboxState) (u n : Text) → IsBounded s → IsBounded (delete_mailbox s u n).1
unfolding delete_mailbox
delete_mailbox-IsBounded s u n b = record {
  below = λ v m. ground (arith, b.below v m, get-remove s.mailboxes (u, n) (v, m));
}

IsBelow-map :
    (k : ℕ) (f : MailboxInfo → MailboxInfo) (o : Option MailboxInfo)
    → ((info : MailboxInfo) → (f info).uid_validity ≡ info.uid_validity)
    → IsBelow k o
    → IsBelow k (Option.map f o)
IsBelow-map k f none keeps h = h
IsBelow-map k f (some info) keeps h = omega (arith, keeps info)

modify-IsBounded :
    (s : MailboxState) (key : Key) (f : MailboxInfo → MailboxInfo)
    → ((info : MailboxInfo) → (f info).uid_validity ≡ info.uid_validity)
    → IsBounded s
    → IsBounded (record s { mailboxes = modify s.mailboxes key f })
modify-IsBounded s key f keeps b = record {
  below = λ v m. rw (get-modify s.mailboxes key (v, m) f) (elim (Bool-cases (key_eq key (v, m))) [
    | inl e ↦ rw e (IsBelow-map _ f _ keeps (b.below v m))
    | inr e ↦ rw e (b.below v m)
  ]);
}

get_next_uid-IsBounded :
    (s : MailboxState) (u n : Text) → IsBounded s → IsBounded (get_next_uid s u n).1
get_next_uid-IsBounded s u n b = elim (Option-cases (get s.mailboxes (u, n))) [
  | inl missing ↦ unfold get_next_uid in rw (missing, get_next_uid) b
  | inr (info, found) ↦
      unfold get_next_uid in
      rw (found, get_next_uid) (modify-IsBounded s (u, n) bump_next_uid (λ i. refl) b)
]

update_by_id-IsBounded :
    (s : MailboxState) (id : MailboxId) (f : MailboxInfo → MailboxInfo)
    → ((info : MailboxInfo) → (f info).uid_validity ≡ info.uid_validity)
    → IsBounded s
    → IsBounded (update_by_id s id f).1
update_by_id-IsBounded s id f keeps b = elim (Option-cases (get s.id_to_key id)) [
  | inl missing ↦ unfold update_by_id in rw (missing, update_by_id) b
  | inr (key, found) ↦ elim (Bool-cases (contains_key s.mailboxes key)) [
    | inl e ↦ unfold update_by_id in rw (found, e, update_by_id) (modify-IsBounded s key f keeps b)
    | inr e ↦ unfold update_by_id in rw (found, e, update_by_id) b
  ]
]

abbrev pub sets_uid_validity : WriteCommand → Bool
sets_uid_validity (WriteCommand.update_uid_validity id v) = true
sets_uid_validity _ = false

write-IsBounded :
    (s : MailboxState) (c : WriteCommand)
    → sets_uid_validity c ≡ false
    → s.next_uid_validity + 1 < u32_mod
    → IsBounded s
    → IsBounded (write s c).1
unfolding write
write-IsBounded s (WriteCommand.create u n) k room b = create_mailbox-IsBounded s u n room b
write-IsBounded s (WriteCommand.delete u n) k room b = delete_mailbox-IsBounded s u n b
write-IsBounded s (WriteCommand.get_next_uid u n) k room b = get_next_uid-IsBounded s u n b
write-IsBounded s (WriteCommand.update_next_uid id n) k room b =
    update_by_id-IsBounded s id _ (λ i. refl) b
write-IsBounded s (WriteCommand.update_uid_validity id n) k room b = cc
write-IsBounded s (WriteCommand.update_counts id x y z) k room b =
    update_by_id-IsBounded s id _ (λ i. refl) b
write-IsBounded s WriteCommand.shutdown k room b = b

-- One command moves the counter up by one at most, and never down.
write-next_uid_validity :
    (s : MailboxState) (c : WriteCommand)
    → s.next_uid_validity + 1 < u32_mod
    → (s.next_uid_validity ≤ (write s c).1.next_uid_validity)
      × ((write s c).1.next_uid_validity ≤ s.next_uid_validity + 1)
unfolding write
write-next_uid_validity s (WriteCommand.create u n) room = ground arith
write-next_uid_validity s _ room = ground arith

-- The values in use stay below the counter, from a bounded state and over commands that set no value.
pub writer_loop-IsBounded :
    (cs : List WriteCommand) (s : MailboxState)
    → All (λ c. sets_uid_validity c ≡ false) cs
    → s.next_uid_validity + length cs < u32_mod
    → IsBounded s
    → IsBounded (writer_loop s cs).1
unfolding writer_loop
writer_loop-IsBounded [] s k room b = b
writer_loop-IsBounded (WriteCommand.shutdown ∷ cs) s k room b = b
writer_loop-IsBounded (c ∷ cs) s k room b =
    let step = write-next_uid_validity s c (omega arith) in
    writer_loop-IsBounded cs (write s c).1 k.1 (omega arith)
      (write-IsBounded s c k.0 (omega arith) b)
