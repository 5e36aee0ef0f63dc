-- ===== src/Examples/Documents.antt =====
-- index/impl/tantivy.rs over an index that is a list of documents and whose searches find all of them.
use scuttled.Prelude.{
  ℕ, zero, suc, ◌≡◌, refl, Option, none, some, List, [], ◌∷◌, ◌++◌, ◌⊎◌, inl, inr, contains_key,
  insert, list_beq, nat_key, list_key,
}
use scuttled.Text.{Text, text}
use scuttled.Types.{MessageId, MessageFlag}
use scuttled.Types.Query.{SearchQuery}
use scuttled.Error.{Error, ok, err}
use scuttled.Index.Tantivy.{
  Field, Document, IndexWriter, WriteCommand, Reply, writer_loop, create_mailbox,
}
use scuttled.Index.Tantivy.Reads.{IndexReader, search}
use scuttled.Index.Tantivy.Own.{AreStored, search-AreStored}

abbrev Documents : Type 0
Documents = List Document

abbrev writer : IndexWriter Documents
writer = record { add_document = λ d w. (none, w ++ d ∷ []); commit = λ w. (none, w) }

abbrev at : ℕ → Documents → Text ⊎ Document
at n [] = inl (text "no such document")
at zero (d ∷ w) = inr d
at (suc n) (d ∷ w) = at n w

abbrev addresses : ℕ → Documents → List ℕ
addresses n [] = []
addresses n (d ∷ w) = n ∷ addresses (suc n) w

abbrev field_of : Document → Field → Option Text
field_of d Field.username_field = some d.username
field_of d Field.mailbox_field = some d.mailbox
field_of d Field.path_field = some d.path
field_of d _ = none

abbrev reader : IndexReader Documents ℕ Document Text
reader = record {
  find = λ w query limit. inr (addresses 0 w);
  doc = λ w n. at n w;
  text_of = field_of;
  parse_query = λ fields s. inr s;
}

abbrev note : (username path : Text) → Document
note username path = record {
  message_id = [];
  uid = 1;
  username = username;
  mailbox = text "INBOX";
  from = [];
  to = [];
  subject = [];
  body = [];
  flags = [];
  path = path;
}

abbrev notes : Documents
notes =
    note (text "alice") (text "a1")
    ∷ note (text "bob") (text "b1")
    ∷ note (text "alice") (text "a2")
    ∷ []

alice_only :
    search reader notes (text "alice") (text "INBOX") (SearchQuery.text (text "username:bob"))
    ≡ ok (text "a1" ∷ text "a2" ∷ [])
unfolding search text list_beq
alice_only = refl

search-AreStored_example :
    AreStored reader notes
      (text "alice")
      (text "INBOX")
      (search reader notes (text "alice") (text "INBOX") (SearchQuery.text (text "username:bob")))
search-AreStored_example =
    search-AreStored reader notes (text "alice") (text "INBOX")
      (SearchQuery.text (text "username:bob"))

abbrev shown : MessageId → Text
shown id = []

abbrev flag_shown : MessageFlag → Text
flag_shown flag = []

-- The key of a mailbox joins two texts with a colon, which either of them may have.
one_key :
    (writer_loop writer shown flag_shown
      (WriteCommand.create (text "a") (text "b:c")
        ∷ WriteCommand.create (text "a:b") (text "c")
        ∷ [])
      (record { mailboxes = []; index = [] })).0
    ≡ Reply.done (ok tt)
      ∷ Reply.done (err (Error.already_exists (text "Mailbox c already exists")))
      ∷ []
unfolding writer_loop create_mailbox contains_key insert text list_beq
one_key = refl
