-- ===== src/Mailboxes/Memory/Consistency.antt =====
-- The two maps of the registry of mailboxes/impl/memory.rs agree: a mailbox is stored under its own
-- identifier, and `id_to_key` has exactly the identifiers of stored mailboxes. Every command of the
-- writer loop keeps that.
use mathlib.Core.Option
use scuttled.Prelude.{
  true, ◌≡◌, refl, ◌∙◌, Option, none, some, List, [], ◌∷◌, arith, Option-cases, Bool-cases, ◌==◌,
  inl, inr, list_beq_iff, pair_key, list_key, nat_key, get, contains_key, modify, get-insert,
  get-remove, get-modify, UniqueKeys, insert-UniqueKeys, remove-UniqueKeys, modify-UniqueKeys,
}
use scuttled.Text.{Text}
use scuttled.Types.{MailboxId}
use scuttled.Mailboxes.{MailboxInfo}
use scuttled.Mailboxes.Memory.{
  Key, MailboxState, id_key, new, fresh_mailbox, create_mailbox, delete_mailbox, get_next_uid,
  update_by_id, bump_next_uid,
}
use scuttled.Mailboxes.Memory.Writer.{WriteCommand, write, writer_loop}

-- What the two maps hold at one user and name.
abbrev pub Linked : Text → Text → Option MailboxInfo → Option Key → Type 0
Linked u n none none = Unit
Linked u n (some info) (some key) = (info.id ≡ record { username = u; name = n }) × (key ≡ (u, n))
Linked u n _ _ = ⊥

pub record IsConsistent (s : MailboxState) : Type 0 where
  pub linked :
      (u n : Text)
      → Linked u n (get s.mailboxes (u, n)) (get s.id_to_key (record { username = u; name = n }))
  pub unique : UniqueKeys s.mailboxes

-- The key behind an identifier is the identifier's own, and leads to a mailbox.
pub key_of_id :
    (s : MailboxState) (id : MailboxId) (key : Key)
    → IsConsistent s
    → get s.id_to_key id ≡ some key
    → (key ≡ (id.username, id.name)) × (contains_key s.mailboxes key ≡ true)
unfolding contains_key
key_of_id s id key c found = ground (arith, c.linked id.username id.name)

new-IsConsistent : IsConsistent new
unfolding new get
new-IsConsistent = record { linked = λ u n. tt; unique = tt }

create_mailbox-IsConsistent :
    (s : MailboxState) (u n : Text) → IsConsistent s → IsConsistent (create_mailbox s u n).1
unfolding create_mailbox
create_mailbox-IsConsistent s u n c = record {
  linked = λ v m. ground (
    arith,
    c.linked v m,
    list_beq_iff u v,
    list_beq_iff n m,
    get-insert s.mailboxes (u, n) (v, m) (fresh_mailbox u n s.next_uid_validity),
    get-insert s.id_to_key (record { username = u; name = n }) (record { username = v; name = m })
        (u, n),
  );
  unique = ground (
    arith,
    c.unique,
    insert-UniqueKeys s.mailboxes (u, n) (fresh_mailbox u n s.next_uid_validity) c.unique,
  );
}

delete_mailbox-IsConsistent :
    (s : MailboxState) (u n : Text) → IsConsistent s → IsConsistent (delete_mailbox s u n).1
unfolding delete_mailbox
delete_mailbox-IsConsistent s u n c = elim (Option-cases (get s.mailboxes (u, n))) [
  | inl missing ↦ rw (missing, delete_mailbox) c
  | inr (info, found) ↦
      rw (found, delete_mailbox)
        (record {
          linked = λ v m. ground (
            arith,
            c.linked v m,
            c.linked u n,
            list_beq_iff u v,
            list_beq_iff n m,
            get-remove s.mailboxes (u, n) (v, m),
            get-remove s.id_to_key info.id (record { username = v; name = m }),
          );
          unique = remove-UniqueKeys s.mailboxes (u, n) c.unique;
        })
]

-- A write that leaves the identifier alone.
abbrev pub KeepsId : (MailboxInfo → MailboxInfo) → Type 0
KeepsId f = (info : MailboxInfo) → (f info).id ≡ info.id

Linked-map :
    (f : MailboxInfo → MailboxInfo) (u n : Text) (o : Option MailboxInfo) (k : Option Key)
    → KeepsId f
    → Linked u n o k
    → Linked u n (Option.map f o) k
Linked-map f u n none k keeps h = h
Linked-map f u n (some info) none keeps h = h
Linked-map f u n (some info) (some key) keeps h = (keeps info ∙ h.0, h.1)

pub modify-IsConsistent :
    (s : MailboxState) (key : Key) (f : MailboxInfo → MailboxInfo)
    → KeepsId f
    → IsConsistent s
    → IsConsistent (record s { mailboxes = modify s.mailboxes key f })
modify-IsConsistent s key f keeps c = record {
  linked = λ v m. rw (get-modify s.mailboxes key (v, m) f) (elim (Bool-cases (key == (v, m))) [
    | inl e ↦ rw e (Linked-map f v m _ _ keeps (c.linked v m))
    | inr e ↦ rw e (c.linked v m)
  ]);
  unique = modify-UniqueKeys s.mailboxes key f c.unique;
}

get_next_uid-IsConsistent :
    (s : MailboxState) (u n : Text) → IsConsistent s → IsConsistent (get_next_uid s u n).1
get_next_uid-IsConsistent s u n c = elim (Option-cases (get s.mailboxes (u, n))) [
  | inl missing ↦ unfold get_next_uid in rw (missing, get_next_uid) c
  | inr (info, found) ↦
      unfold get_next_uid in
      rw (found, get_next_uid) (modify-IsConsistent s (u, n) bump_next_uid (λ i. refl) c)
]

update_by_id-IsConsistent :
    (s : MailboxState) (id : MailboxId) (f : MailboxInfo → MailboxInfo)
    → KeepsId f
    → IsConsistent s
    → IsConsistent (update_by_id s id f).1
update_by_id-IsConsistent s id f keeps c = elim (Option-cases (get s.id_to_key id)) [
  | inl missing ↦ unfold update_by_id in rw (missing, update_by_id) c
  | inr (key, found) ↦ elim (Bool-cases (contains_key s.mailboxes key)) [
    | inl e ↦
        unfold update_by_id in rw (found, e, update_by_id) (modify-IsConsistent s key f keeps c)
    | inr e ↦ unfold update_by_id in rw (found, e, update_by_id) c
  ]
]

-- Every command of the writer loop keeps the two maps consistent.
pub write-IsConsistent :
    (s : MailboxState) (c : WriteCommand) → IsConsistent s → IsConsistent (write s c).1
unfolding write
write-IsConsistent s (WriteCommand.create u n) h = create_mailbox-IsConsistent s u n h
write-IsConsistent s (WriteCommand.delete u n) h = delete_mailbox-IsConsistent s u n h
write-IsConsistent s (WriteCommand.get_next_uid u n) h = get_next_uid-IsConsistent s u n h
write-IsConsistent s (WriteCommand.update_next_uid id n) h =
    update_by_id-IsConsistent s id _ (λ i. refl) h
write-IsConsistent s (WriteCommand.update_uid_validity id v) h =
    update_by_id-IsConsistent s id _ (λ i. refl) h
write-IsConsistent s (WriteCommand.update_counts id a b c) h =
    update_by_id-IsConsistent s id _ (λ i. refl) h
write-IsConsistent s WriteCommand.shutdown h = h

writer_loop-IsConsistent_from :
    (s : MailboxState) (cs : List WriteCommand) → IsConsistent s → IsConsistent (writer_loop s cs).1
unfolding writer_loop
writer_loop-IsConsistent_from s [] h = h
writer_loop-IsConsistent_from s (WriteCommand.shutdown ∷ cs) h = h
writer_loop-IsConsistent_from s (c ∷ cs) h =
    writer_loop-IsConsistent_from (write s c).1 cs (write-IsConsistent s c h)

-- So they are consistent after any commands that a new registry is sent.
pub writer_loop-IsConsistent : (cs : List WriteCommand) → IsConsistent (writer_loop new cs).1
writer_loop-IsConsistent cs = writer_loop-IsConsistent_from new cs new-IsConsistent
