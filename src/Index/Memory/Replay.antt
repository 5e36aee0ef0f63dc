-- ===== src/Index/Memory/Replay.antt =====
-- The writer loop of index/indexer.rs over the in-memory backend implements the commands on the contents.
use scuttled.Prelude.{◌≡◌, refl, ◌∙◌, List, [], ◌∷◌, get, UniqueKeys, nat_key}
use scuttled.Text.{Text}
use scuttled.Types.{MessageId}
use scuttled.Index.Memory.{Messages, in_memory_backend}
use scuttled.Index.Memory.Contents.{
  Contents, specified, specified_loop, write-get, write-UniqueKeys,
}
use scuttled.Index.Indexer.{WriteCommand, write, writer_loop}

-- The specification looks at the contents one identifier at a time.
module _ (display debug : MessageId → Text) (c d : Contents)
    (same : (id : MessageId) → c id ≡ d id) where
  specified-same :
      (x : WriteCommand) (id : MessageId)
      → specified display debug c x id ≡ specified display debug d x id
  specified-same (WriteCommand.add_message username mailbox m) id = rw (same id) refl
  specified-same (WriteCommand.update_flags j flags) id = rw (same id) refl
  specified-same (WriteCommand.delete_message j) id = rw (same id) refl
  specified-same (WriteCommand.remove_messages_for_mailbox username mailbox) id = rw (same id) refl
  specified-same WriteCommand.shutdown id = same id

module _ (display debug : MessageId → Text) where
  specified_loop-same :
      (cs : List WriteCommand) (c d : Contents)
      → ((id : MessageId) → c id ≡ d id)
      → (id : MessageId)
      → specified_loop display debug c cs id ≡ specified_loop display debug d cs id
  specified_loop-same [] c d same id = same id
  specified_loop-same (WriteCommand.shutdown ∷ cs) c d same id = same id
  specified_loop-same (WriteCommand.add_message username mailbox m ∷ cs) c d same id =
      specified_loop-same cs
        (specified display debug c (WriteCommand.add_message username mailbox m))
        (specified display debug d (WriteCommand.add_message username mailbox m))
        (specified-same display debug c d same (WriteCommand.add_message username mailbox m)) id
  specified_loop-same (WriteCommand.update_flags j flags ∷ cs) c d same id =
      specified_loop-same cs (specified display debug c (WriteCommand.update_flags j flags))
        (specified display debug d (WriteCommand.update_flags j flags))
        (specified-same display debug c d same (WriteCommand.update_flags j flags)) id
  specified_loop-same (WriteCommand.delete_message j ∷ cs) c d same id =
      specified_loop-same cs (specified display debug c (WriteCommand.delete_message j))
        (specified display debug d (WriteCommand.delete_message j))
        (specified-same display debug c d same (WriteCommand.delete_message j)) id
  specified_loop-same (WriteCommand.remove_messages_for_mailbox username mailbox ∷ cs) c d same id =
      specified_loop-same cs
        (specified display debug c (WriteCommand.remove_messages_for_mailbox username mailbox))
        (specified display debug d (WriteCommand.remove_messages_for_mailbox username mailbox))
        (specified-same display debug c d same
          (WriteCommand.remove_messages_for_mailbox username mailbox))
        id

module _ (display debug : MessageId → Text) where
  -- The loop from `s` follows the specification at `id`.
  abbrev Follows : Messages → List WriteCommand → MessageId → Type 0
  Follows s cs id =
      (get (writer_loop (in_memory_backend display debug) s cs).1 id
        ≡ specified_loop display debug (get s) cs id)
      × UniqueKeys (writer_loop (in_memory_backend display debug) s cs).1

  -- A turn, and then the loop.
  after :
      (s : Messages) (c : WriteCommand) (cs : List WriteCommand) (id : MessageId)
      → UniqueKeys s
      → ((t : Messages) → UniqueKeys t → Follows t cs id)
      → (get
            (writer_loop
              (in_memory_backend display debug)
              (write (in_memory_backend display debug) s c).1
              cs).1
            id
          ≡ specified_loop display debug (specified display debug (get s) c) cs id)
        × UniqueKeys
            (writer_loop
              (in_memory_backend display debug)
              (write (in_memory_backend display debug) s c).1
              cs).1
  after s c cs id u rest =
      let later = rest _ (write-UniqueKeys display debug s c u) in
      (
        later.0
            ∙ specified_loop-same display debug cs _ _ (λ j. write-get display debug s c j u) id,
        later.1,
      )

module _ (display debug : MessageId → Text) where
  -- Over the in-memory backend, and from a map whose keys are unique, any sequence of commands up to a
  -- shutdown leaves in the map, at every identifier, what the commands as changes of a function from
  -- identifiers to entries leave there; and the keys stay unique.
  pub writer_loop-get :
      (cs : List WriteCommand) (s : Messages) (id : MessageId)
      → UniqueKeys s
      → (get (writer_loop (in_memory_backend display debug) s cs).1 id
          ≡ specified_loop display debug (get s) cs id)
        × UniqueKeys (writer_loop (in_memory_backend display debug) s cs).1
  unfolding writer_loop
  writer_loop-get [] s id u = (refl, u)
  writer_loop-get (WriteCommand.shutdown ∷ cs) s id u = (refl, u)
  writer_loop-get (WriteCommand.add_message username mailbox m ∷ cs) s id u =
      after display debug s (WriteCommand.add_message username mailbox m) cs id u
        (λ t. writer_loop-get cs t id)
  writer_loop-get (WriteCommand.update_flags j flags ∷ cs) s id u =
      after display debug s (WriteCommand.update_flags j flags) cs id u
        (λ t. writer_loop-get cs t id)
  writer_loop-get (WriteCommand.delete_message j ∷ cs) s id u =
      after display debug s (WriteCommand.delete_message j) cs id u (λ t. writer_loop-get cs t id)
  writer_loop-get (WriteCommand.remove_messages_for_mailbox username mailbox ∷ cs) s id u =
      after display debug s (WriteCommand.remove_messages_for_mailbox username mailbox) cs id u
        (λ t. writer_loop-get cs t id)
