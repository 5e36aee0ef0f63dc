-- ===== src/Index/Indexer/Listener/Creating.antt =====
-- A message that is created and deleted again, as event_listener of index/indexer.rs follows it.
use scuttled.Prelude.{
  ℕ, Bool, ◌≡◌, refl, ◌∙◌, ap, Option, none, some, List, HashMap, get, insert, remove, get-insert,
  get-remove, arith, Eq, ◌==◌, list_key, nat_key, if◌then◌else◌, nat_eq_iff, beq_refl,
}
use scuttled.Text.{Text}
use scuttled.Types.{MessageId, Uid, MessageFlag, DateTime}
use scuttled.Error.{Result, ok}
use scuttled.Channel.{Loop}
use scuttled.Events.{Event}
use scuttled.Index.{IndexedMessage}
use scuttled.Index.Memory.Contents.{delete_message-get}
use scuttled.Index.Memory.{MessageEntry, Messages, in_memory_backend, add_message, delete_message}
use scuttled.Index.Indexer.Listener.{
  Listening, unique_id_key, assigned, add_indexed, deleted, listen,
}

module _ {ℓ κ} {K : Type ℓ} {V : Type κ} ⦃e : Eq K⦄ (m : HashMap K V) (k : K) (v : V) where
  get-insert_same : get (insert m k v) k ≡ some v
  get-insert_same = get-insert m k k v ∙ rw (beq_refl k) refl

  get-remove-insert : (j : K) → get (remove (insert m k v) k) j ≡ (if k == j then none else get m j)
  get-remove-insert j = ground (arith, get-remove (insert m k v) k j, get-insert m k j v)

module _ {M : Type 0} (display debug : MessageId → Text)
    (get_next_uid : Option (M → (username mailbox : Text) → Result Uid × M))
    (s : Listening Messages M) where
  assigned_ok :
      (next : Uid → Listening Messages M → Listening Messages M) (r : Result Uid × M) (uid : Uid)
      → r.0 ≡ ok uid
      → assigned (in_memory_backend display debug) Loop.running get_next_uid next s r
        ≡ next uid (record s { mailboxes = r.1 })
  assigned_ok next (r, m) uid h = rw h refl

  deleted_found :
      (key : Text) (id : MessageId)
      → get s.unique_id_mapping key ≡ some id
      → deleted (in_memory_backend display debug) Loop.running get_next_uid key s ≡ record s {
        unique_id_mapping = remove s.unique_id_mapping key;
        index = (delete_message display debug s.index id).1;
      }
  unfolding deleted scuttled.Index.Indexer.Handle.delete_message
  deleted_found key id found = rw (found, deleted) refl

-- The index: what is added under a fresh identifier and deleted again.
delete_message-insert :
    (display debug : MessageId → Text) (s : Messages) (id j : MessageId) (x : MessageEntry)
    → get s id ≡ none
    → get (delete_message display debug (insert s id x) id).1 j ≡ get s j
delete_message-insert display debug s id j x fresh =
    delete_message-get display debug (insert s id x) id j
    ∙ ground (arith, get-insert s id j x, nat_eq_iff id j)

module _ {M : Type 0} (display debug : MessageId → Text)
    (next_uid : M → (username mailbox : Text) → Result Uid × M) (id other : MessageId)
    (username mailbox unique_id : Text) (flags : List MessageFlag) (is_new : Bool)
    (from to subject body_preview : Text) (size : ℕ) (internal_date : DateTime)
    (s : Listening Messages M) where
  -- While the writer loop runs and the registry assigns a UID, a message that is created at the path of its
  -- unique id under a fresh identifier, and is then deleted, leaves the in-memory index at every
  -- identifier as it was, and of the mapping it takes out at most the entry of that unique id. What
  -- remains of it is the UID that the registry has given away.
  pub listen_created_deleted :
      (uid : Uid)
      → (next_uid s.mailboxes username mailbox).0 ≡ ok uid
      → get s.index id ≡ none
      → ((j : MessageId)
          → get
              (listen
                (in_memory_backend display debug)
                Loop.running
                (some next_uid)
                other
                (Event.message_deleted username mailbox unique_id)
                (listen
                  (in_memory_backend display debug)
                  Loop.running
                  (some next_uid)
                  id
                  (Event.message_created username mailbox unique_id
                    (unique_id_key username mailbox unique_id)
                    flags
                    is_new
                    from
                    to
                    subject
                    body_preview
                    size
                    internal_date)
                  s)).index
              j
            ≡ get s.index j)
        × (((key : Text)
              → get
                  (listen
                    (in_memory_backend display debug)
                    Loop.running
                    (some next_uid)
                    other
                    (Event.message_deleted username mailbox unique_id)
                    (listen
                      (in_memory_backend display debug)
                      Loop.running
                      (some next_uid)
                      id
                      (Event.message_created username mailbox unique_id
                        (unique_id_key username mailbox unique_id)
                        flags
                        is_new
                        from
                        to
                        subject
                        body_preview
                        size
                        internal_date)
                      s)).unique_id_mapping
                  key
                ≡ (if unique_id_key username mailbox unique_id == key
                    then none
                    else get s.unique_id_mapping key))
            × ((listen
                  (in_memory_backend display debug)
                  Loop.running
                  (some next_uid)
                  other
                  (Event.message_deleted username mailbox unique_id)
                  (listen
                    (in_memory_backend display debug)
                    Loop.running
                    (some next_uid)
                    id
                    (Event.message_created username mailbox unique_id
                      (unique_id_key username mailbox unique_id)
                      flags
                      is_new
                      from
                      to
                      subject
                      body_preview
                      size
                      internal_date)
                    s)).mailboxes
                ≡ (next_uid s.mailboxes username mailbox).1))
  unfolding listen add_indexed scuttled.Index.Indexer.Handle.add_message add_message
  listen_created_deleted uid assigned_uid fresh =
      let key = unique_id_key username mailbox unique_id in
      let message : Uid → IndexedMessage = λ v. record {
        id = id;
        uid = v;
        mailbox = mailbox;
        flags = flags;
        internal_date = internal_date;
        size = size;
        from = from;
        to = to;
        subject = subject;
        body_preview = body_preview;
      } in
      let t : Listening Messages M = record s {
        index = (add_message display debug s.index username mailbox (message uid)).1;
        unique_id_mapping = insert s.unique_id_mapping key id;
        mailboxes = (next_uid s.mailboxes username mailbox).1;
      } in
      let e =
        ap (deleted (in_memory_backend display debug) Loop.running (some next_uid) key) (
          assigned_ok display debug (some next_uid) s
            (λ v.
              add_indexed (in_memory_backend display debug) Loop.running (some next_uid) username
                key (message v))
            (next_uid s.mailboxes username mailbox) uid assigned_uid)
        ∙ deleted_found display debug (some next_uid) t key id
            (get-insert_same s.unique_id_mapping key id) in
      (
        λ j. ap (λ r. get r.index j) e ∙ delete_message-insert display debug s.index id j _ fresh,
        (
          λ k.
              ap (λ r. get r.unique_id_mapping k) e
              ∙ get-remove-insert s.unique_id_mapping key id k,
          ap (λ r. r.mailboxes) e,
        ),
      )
