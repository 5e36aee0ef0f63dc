-- ===== src/Mailboxes/Memory/Uids.antt =====
-- The UIDs that the registry of mailboxes/impl/memory.rs hands out: over any run of the writer loop
-- that neither deletes the mailbox nor sets its counter they are consecutive, whatever other commands
-- are interleaved.
use mathlib.Core.Option
use scuttled.Prelude.{
  ℕ, suc, ◌+◌, ◌%◌, ◌<◌, Bool, true, false, ◌≡◌, refl, ap, ◌∙◌, Option, none, some, List, [], ◌∷◌,
  arith, if◌then◌else◌, Option-cases, Bool-cases, inl, inr, All, length, consecutive, list_beq_iff,
  pair_key, list_key, nat_key, get, contains_key, get-insert, get-remove, get-modify,
}
use scuttled.Text.{Text}
use scuttled.Types.{MailboxId, Uid, u32_mod}
use scuttled.Error.{ok}
use scuttled.Mailboxes.{MailboxInfo}
use scuttled.Mailboxes.Memory.{
  Key, key_eq, MailboxState, id_key, fresh_mailbox, create_mailbox, delete_mailbox, get_next_uid,
  update_by_id, bump_next_uid,
}
use scuttled.Mailboxes.Memory.Writer.{WriteCommand, Reply, write, writer_loop}
use scuttled.Mailboxes.Memory.Consistency.{IsConsistent, key_of_id, write-IsConsistent}

-- The counter of one mailbox.
abbrev pub counter : MailboxState → Key → Option ℕ
counter s key = Option.map (λ info. info.next_uid) (get s.mailboxes key)

-- Is this a request for a UID of the mailbox?
abbrev pub takes_uid : Key → WriteCommand → Bool
takes_uid key (WriteCommand.get_next_uid u n) = key_eq (u, n) key
takes_uid key _ = false

-- Does the command delete the mailbox or set its counter?
abbrev pub disturbs : Key → WriteCommand → Bool
disturbs key (WriteCommand.delete u n) = key_eq (u, n) key
disturbs key (WriteCommand.update_next_uid id n) = key_eq (id.username, id.name) key
disturbs key _ = false

map_keeps :
    (f : MailboxInfo → MailboxInfo) (o : Option MailboxInfo) {k : ℕ}
    → ((info : MailboxInfo) → (f info).next_uid ≡ info.next_uid)
    → Option.map (λ info. info.next_uid) o ≡ some k
    → Option.map (λ info. info.next_uid) (Option.map f o) ≡ some k
map_keeps f none keeps h = h
map_keeps f (some info) keeps h = ap some (keeps info) ∙ h

module _ (s : MailboxState) (u n : Text) (k : ℕ) (found : counter s (u, n) ≡ some k) where
  create_mailbox-counter : (v m : Text) → counter (create_mailbox s v m).1 (u, n) ≡ some k
  unfolding create_mailbox contains_key
  create_mailbox-counter v m = ground (
    arith,
    list_beq_iff v u,
    list_beq_iff m n,
    get-insert s.mailboxes (v, m) (u, n) (fresh_mailbox v m s.next_uid_validity),
  )

  delete_mailbox-counter :
      (v m : Text) → key_eq (v, m) (u, n) ≡ false → counter (delete_mailbox s v m).1 (u, n) ≡ some k
  unfolding delete_mailbox
  delete_mailbox-counter v m other = ground (arith, get-remove s.mailboxes (v, m) (u, n))

  get_next_uid-counter :
      (v m : Text)
      → counter (get_next_uid s v m).1 (u, n)
        ≡ some (if key_eq (v, m) (u, n) then (k + 1) % u32_mod else k)
  unfolding get_next_uid
  get_next_uid-counter v m = ground (
    arith,
    list_beq_iff v u,
    list_beq_iff m n,
    get-modify s.mailboxes (v, m) (u, n) bump_next_uid,
  )

  update_by_id-counter :
      (id : MailboxId) (f : MailboxInfo → MailboxInfo)
      → IsConsistent s
      → (key_eq (id.username, id.name) (u, n) ≡ true
          → (info : MailboxInfo) → (f info).next_uid ≡ info.next_uid)
      → counter (update_by_id s id f).1 (u, n) ≡ some k
  update_by_id-counter id f c keeps = elim (Option-cases (get s.id_to_key id)) [
    | inl missing ↦ unfold update_by_id in rw (missing, update_by_id) found
    | inr (key, there) ↦
        let (own, stored) = key_of_id s id key c there in
        unfold update_by_id in
        rw (there, stored, update_by_id, get-modify s.mailboxes key (u, n) f, own)
          (elim (Bool-cases (key_eq (id.username, id.name) (u, n))) [
            | inl e ↦ rw e (map_keeps f (get s.mailboxes (u, n)) (keeps e) found)
            | inr e ↦ rw e found
          ])
  ]

write-counter :
    (s : MailboxState) (key : Key) (k : ℕ) (c : WriteCommand)
    → IsConsistent s
    → disturbs key c ≡ false
    → counter s key ≡ some k
    → counter (write s c).1 key ≡ some (if takes_uid key c then (k + 1) % u32_mod else k)
unfolding write
write-counter s (u, n) k (WriteCommand.create v m) c d e = create_mailbox-counter s u n k e v m
write-counter s (u, n) k (WriteCommand.delete v m) c d e = delete_mailbox-counter s u n k e v m d
write-counter s (u, n) k (WriteCommand.get_next_uid v m) c d e = get_next_uid-counter s u n k e v m
write-counter s (u, n) k (WriteCommand.update_next_uid id x) c d e =
    update_by_id-counter s u n k e id _ c (λ h. cc)
write-counter s (u, n) k (WriteCommand.update_uid_validity id x) c d e =
    update_by_id-counter s u n k e id _ c (λ h i. refl)
write-counter s (u, n) k (WriteCommand.update_counts id x y z) c d e =
    update_by_id-counter s u n k e id _ c (λ h i. refl)
write-counter s (u, n) k WriteCommand.shutdown c d e = e

-- The UIDs among the replies for one mailbox.
abbrev pub handed_out : Key → List WriteCommand → List Reply → List Uid
handed_out key (WriteCommand.get_next_uid u n ∷ cs) (Reply.uid (ok x) ∷ rs) =
    let rest = handed_out key cs rs in if key_eq (u, n) key then x ∷ rest else rest
handed_out key (c ∷ cs) (r ∷ rs) = handed_out key cs rs
handed_out key _ _ = []

handed_out_unanswered : (key : Key) (cs : List WriteCommand) → handed_out key cs [] ≡ []
handed_out_unanswered key [] = refl
handed_out_unanswered key (WriteCommand.get_next_uid u n ∷ cs) = refl
handed_out_unanswered key (_ ∷ cs) = refl

-- The requests for a UID that the loop answers: those before a `Shutdown`.
abbrev pub requests : Key → List WriteCommand → ℕ
requests key [] = 0
requests key (WriteCommand.shutdown ∷ cs) = 0
requests key (c ∷ cs) = let rest = requests key cs in if takes_uid key c then suc rest else rest

handed_out-cons :
    (key : Key) (s : MailboxState) (k : ℕ) (c : WriteCommand) (cs : List WriteCommand)
    (rs : List Reply)
    → counter s key ≡ some k
    → handed_out key (c ∷ cs) ((write s c).0 ∷ rs)
      ≡ (if takes_uid key c then k ∷ handed_out key cs rs else handed_out key cs rs)
unfolding write
handed_out-cons (v, m) s k (WriteCommand.get_next_uid u n) cs rs e =
    ground (arith, list_beq_iff u v, list_beq_iff n m)
handed_out-cons key s k _ cs rs e = refl

module _ (key : Key) (c : WriteCommand) (cs : List WriteCommand) (s : MailboxState) (k : ℕ) where
  abbrev Later : Type 0
  Later =
      (j : ℕ)
      → counter (write s c).1 key ≡ some j
      → j + length cs < u32_mod
      → handed_out key cs (writer_loop (write s c).1 cs).0 ≡ consecutive j (requests key cs)

  handed_out-write :
      Later
      → IsConsistent s
      → disturbs key c ≡ false
      → counter s key ≡ some k
      → k + suc (length cs) < u32_mod
      → handed_out key (c ∷ cs) ((write s c).0 ∷ (writer_loop (write s c).1 cs).0)
        ≡ consecutive k (if takes_uid key c then suc (requests key cs) else requests key cs)
  handed_out-write later con d e room =
      rw (handed_out-cons key s k c cs (writer_loop (write s c).1 cs).0 e)
        (elim (Bool-cases (takes_uid key c)) [
          | inl t ↦ rw t (ap (◌∷◌ k) (later (suc k) (taken t) (omega arith)))
          | inr t ↦ rw t (later k (left t) (omega arith))
        ])
    where
      step : counter (write s c).1 key ≡ some (if takes_uid key c then (k + 1) % u32_mod else k)
      step = write-counter s key k c con d e

      taken : takes_uid key c ≡ true → counter (write s c).1 key ≡ some (suc k)
      taken t = step ∙ rw t (ap some (omega arith))

      left : takes_uid key c ≡ false → counter (write s c).1 key ≡ some k
      left t = step ∙ rw t refl

-- From a consistent state in which a mailbox has the counter `k`, the loop answers the requests for a
-- UID of that mailbox with k, k + 1, k + 2 and so on, as long as no command deletes the mailbox or
-- sets its counter and the counter stays below 2^32.
pub handed_out-consecutive :
    (key : Key) (cs : List WriteCommand) (s : MailboxState) (k : ℕ)
    → IsConsistent s
    → All (λ c. disturbs key c ≡ false) cs
    → counter s key ≡ some k
    → k + length cs < u32_mod
    → handed_out key cs (writer_loop s cs).0 ≡ consecutive k (requests key cs)
unfolding writer_loop
handed_out-consecutive key [] s k con d e room = refl
handed_out-consecutive key (WriteCommand.shutdown ∷ cs) s k con d e room =
    handed_out_unanswered key cs
handed_out-consecutive key (c ∷ cs) s k con d e room =
    handed_out-write key c cs s k
      (λ j. handed_out-consecutive key cs (write s c).1 j (write-IsConsistent s c con) d.1) con d.0
      e room
