-- ===== src/Index/Indexer/Listener/Deleting.antt =====
-- The deletion of a mailbox and of a message, as event_listener of index/indexer.rs follows them.
use scuttled.Prelude.{
  Bool, true, not, ◌≡◌, refl, ◌∙◌, Option, none, [], ◌∷◌, ◌++◌, append_assoc, HashMap, get, keep,
  arith, Eq, list_key, nat_key, if◌then◌else◌, nat_eq_iff,
}
use scuttled.Text.{Text, text, starts_with}
use scuttled.Types.{MessageId, Uid}
use scuttled.Error.{Result}
use scuttled.Channel.{Loop}
use scuttled.Events.{Event}
use scuttled.Index.{IndexedMessage, IndexBackend}
use scuttled.Index.Memory.{Messages, in_memory_backend}
use scuttled.Index.Indexer.Listener.{
  Listening, mailbox_prefix, unique_id_key, mailbox_gone, deleted, listen,
}

starts_with-append : (p q : Text) → starts_with (p ++ q) p ≡ true
unfolding starts_with
starts_with-append [] q = refl
starts_with-append (c ∷ p) q = ground (arith, starts_with-append p q, nat_eq_iff c c)

module _ {ℓ κ} {K : Type ℓ} {V : Type κ} ⦃e : Eq K⦄ (p : K → Bool) where
  get-keep :
      (m : HashMap K V) (k : K)
      → get (keep (λ x. not (p x.0)) m) k ≡ (if p k then none else get m k)
  unfolding get
  get-keep [] k = ground arith
  get-keep ((j, v) ∷ m) k = ground (arith, get-keep m k, e.same_iff j k)

-- A mailbox inside another: the key of its messages has the prefix of the outer one.
unique_id_key-append :
    (username mailbox inner unique_id : Text)
    → unique_id_key username (mailbox ++ (text "/" ++ inner)) unique_id
      ≡ mailbox_prefix username mailbox ++ (inner ++ (text "/" ++ unique_id))
unique_id_key-append username mailbox inner unique_id = simp (append_assoc)

module _ {M : Type 0} (display debug : MessageId → Text)
    (get_next_uid : Option (M → (username mailbox : Text) → Result Uid × M)) (id : MessageId)
    (username mailbox inner unique_id : Text) (s : Listening Messages M) where
  deleted_missing :
      (key : Text) (t : Listening Messages M)
      → get t.unique_id_mapping key ≡ none
      → deleted (in_memory_backend display debug) Loop.running get_next_uid key t ≡ t
  unfolding deleted
  deleted_missing key t missing = rw (missing, deleted) refl

  mailbox_gone-get :
      (key : Text)
      → starts_with key (mailbox_prefix username mailbox) ≡ true
      → get
          (mailbox_gone
            (in_memory_backend display debug)
            Loop.running
            get_next_uid
            username
            mailbox
            s).unique_id_mapping
          key
        ≡ none
  unfolding mailbox_gone
  mailbox_gone-get key h =
      get-keep (λ k. starts_with k (mailbox_prefix username mailbox)) s.unique_id_mapping key
      ∙ rw h refl

  -- After the deletion of a mailbox, the deletion of a message in a mailbox inside it (`mailbox/inner`) is
  -- without effect: its mapping is gone with the outer mailbox's, so the message stays in the index.
  pub listen_inner :
      listen
        (in_memory_backend display debug)
        Loop.running
        get_next_uid
        id
        (Event.message_deleted username (mailbox ++ (text "/" ++ inner)) unique_id)
        (listen
          (in_memory_backend display debug)
          Loop.running
          get_next_uid
          id
          (Event.mailbox_deleted username mailbox)
          s)
      ≡ listen
          (in_memory_backend display debug)
          Loop.running
          get_next_uid
          id
          (Event.mailbox_deleted username mailbox)
          s
  unfolding listen
  listen_inner =
      deleted_missing _
        (mailbox_gone (in_memory_backend display debug) Loop.running get_next_uid username mailbox
          s)
        (mailbox_gone-get (unique_id_key username (mailbox ++ (text "/" ++ inner)) unique_id) (
          rw (unique_id_key-append username mailbox inner unique_id) (
            starts_with-append (mailbox_prefix username mailbox)
              (inner ++ (text "/" ++ unique_id)))))
