-- ===== src/Index/Memory/Contents.antt =====
-- The in-memory backend of index/impl/inmemory.rs implements a function from identifiers to entries.
use mathlib.Core.Option
use scuttled.Prelude.{
  Bool, true, false, not, ◌≡◌, refl, ◌∙◌, Option, none, some, List, [], ◌∷◌, arith, if◌then◌else◌,
  nat_key, nat_eq, nat_eq_iff, get, contains_key, keep, get-insert, get-remove, get-modify,
  UniqueKeys, insert-UniqueKeys, remove-UniqueKeys, modify-UniqueKeys,
}
use scuttled.Text.{Text}
use scuttled.Types.{MessageId, MessageFlag}
use scuttled.Index.Memory.{
  MessageEntry, Messages, is_in, with_flags, make_message_path, add_message, update_flags,
  delete_message, remove_messages_for_mailbox, in_memory_backend,
}
use scuttled.Index.Indexer.{WriteCommand, write}

-- What the backend promises: at most one entry for an identifier.
abbrev pub Contents : Type 0
Contents = MessageId → Option MessageEntry

abbrev pub unless : Bool → Option MessageEntry → Option MessageEntry
unless true entry = none
unless false entry = entry

-- An entry outside the mailbox stays.
abbrev pub outside : Text → Text → Option MessageEntry → Option MessageEntry
outside username mailbox none = none
outside username mailbox (some e) = unless (is_in username mailbox e) (some e)

module _ (display debug : MessageId → Text) where
  -- Each command as a change of the contents.
  abbrev pub specified : Contents → WriteCommand → Contents
  specified c (WriteCommand.add_message username mailbox m) id =
      if nat_eq m.id id
      then some (record {
        metadata = m;
        path = make_message_path display debug username mailbox m.id;
        username = username;
      })
      else c id
  specified c (WriteCommand.update_flags j flags) id =
      if nat_eq j id then Option.map (with_flags flags) (c id) else c id
  specified c (WriteCommand.delete_message j) id = if nat_eq j id then none else c id
  specified c (WriteCommand.remove_messages_for_mailbox username mailbox) id =
      outside username mailbox (c id)
  specified c WriteCommand.shutdown id = c id

  -- Commands that arrive after a shutdown have no effect.
  abbrev pub specified_loop : Contents → List WriteCommand → Contents
  specified_loop c [] = c
  specified_loop c (WriteCommand.shutdown ∷ cs) = c
  specified_loop c (x ∷ cs) = specified_loop (specified c x) cs

keep_missing :
    (p : MessageId × MessageEntry → Bool) (s : Messages) (id : MessageId)
    → get s id ≡ none
    → get (keep p s) id ≡ none
unfolding get
keep_missing p [] id h = refl
keep_missing p ((k, e) ∷ s) id h = ground (arith, keep_missing p s id)

get-keep :
    (p : MessageEntry → Bool) (s : Messages) (id : MessageId)
    → UniqueKeys s
    → get (keep (λ e. p e.1) s) id
      ≡ elim (get s id) [ none ↦ none | some e ↦ unless (not (p e)) (some e) ]
unfolding get
get-keep p [] id u = refl
get-keep p ((k, e) ∷ s) id u =
    ground (arith, get-keep p s id u.1, u.0, keep_missing (λ e. p e.1) s id)

keep-UniqueKeys :
    (p : MessageId × MessageEntry → Bool) (s : Messages) → UniqueKeys s → UniqueKeys (keep p s)
keep-UniqueKeys p [] u = tt
keep-UniqueKeys p ((k, e) ∷ s) u = ground (arith, keep-UniqueKeys p s u.1, keep_missing p s k u.0)

module _ (display debug : MessageId → Text) (s : Messages) where
  update_flags-get :
      (j id : MessageId) (flags : List MessageFlag)
      → get (update_flags display debug s j flags).1 id
        ≡ (if nat_eq j id then Option.map (with_flags flags) (get s id) else get s id)
  unfolding update_flags contains_key
  update_flags-get j id flags =
      ground (arith, get-modify s j id (with_flags flags), nat_eq_iff j id)

  pub delete_message-get :
      (j id : MessageId)
      → get (delete_message display debug s j).1 id ≡ (if nat_eq j id then none else get s id)
  unfolding delete_message contains_key
  delete_message-get j id = ground (arith, get-remove s j id, nat_eq_iff j id)

  outside_lem :
      (username mailbox : Text) (entry : Option MessageEntry)
      → elim entry [ none ↦ none | some e ↦ unless (not (not (is_in username mailbox e))) (some e) ]
        ≡ outside username mailbox entry
  outside_lem username mailbox none = refl
  outside_lem username mailbox (some e) = ground arith

  pub write-get :
      (c : WriteCommand) (id : MessageId)
      → UniqueKeys s
      → get (write (in_memory_backend display debug) s c).1 id
        ≡ specified display debug (get s) c id
  unfolding write add_message remove_messages_for_mailbox
  write-get (WriteCommand.add_message username mailbox m) id u = get-insert s m.id id _
  write-get (WriteCommand.update_flags j flags) id u = update_flags-get j id flags
  write-get (WriteCommand.delete_message j) id u = delete_message-get j id
  write-get (WriteCommand.remove_messages_for_mailbox username mailbox) id u =
      get-keep (λ e. not (is_in username mailbox e)) s id u
      ∙ outside_lem username mailbox (get s id)
  write-get WriteCommand.shutdown id u = refl

  pub write-UniqueKeys :
      (c : WriteCommand) → UniqueKeys s → UniqueKeys (write (in_memory_backend display debug) s c).1
  unfolding write add_message remove_messages_for_mailbox update_flags delete_message
  write-UniqueKeys (WriteCommand.add_message username mailbox m) u = insert-UniqueKeys s m.id _ u
  write-UniqueKeys (WriteCommand.update_flags j flags) u =
      ground (arith, modify-UniqueKeys s j (with_flags flags) u)
  write-UniqueKeys (WriteCommand.delete_message j) u = ground (arith, remove-UniqueKeys s j u)
  write-UniqueKeys (WriteCommand.remove_messages_for_mailbox username mailbox) u =
      keep-UniqueKeys (λ e. not (is_in username mailbox e.1)) s u
  write-UniqueKeys WriteCommand.shutdown u = u
