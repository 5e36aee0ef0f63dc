-- ===== src/Index/Tantivy/Reads.antt =====
-- index/impl/tantivy.rs: what TantivyBackedIndex reads from the tantivy crate.
use scuttled.Prelude.{
  ℕ, Bool, false, ◌&&◌, Option, none, some, List, [], ◌∷◌, ◌++◌, if◌then◌else◌, ◌==◌, list_key,
  nat_key, list_beq, ◌⊎◌, inl, inr,
}
use scuttled.Text.{Text, text}
use scuttled.Types.{MessageId, Uid}
use scuttled.Types.Query.{SearchQuery}
use scuttled.Error.{Error, Result, ok, err, ◌>>=◌}
use scuttled.Index.{IndexedMessage}
use scuttled.Index.Tantivy.{Field, Mailbox}

pub data Term : Type 0 where
  text_term : Field → Text → Term
  u64_term : Field → ℕ → Term

-- A TermQuery, a BooleanQuery whose parts must all hold, or what the query parser makes of a text.
pub data Query (Parsed : Type 0) : Type 0 where
  one : Term → Query Parsed
  must : List Term → Query Parsed
  parsed : Parsed → Query Parsed

-- The reading side of tantivy: each call fails with a message, or yields a value. `text_of` is
-- `get_first(field).and_then(as_str)`.
pub record IndexReader (W Address Doc Parsed : Type 0) : Type 0 where
  pub find : W → Query Parsed → (limit : ℕ) → Text ⊎ List Address
  pub doc : W → Address → Text ⊎ Doc
  pub text_of : Doc → Field → Option Text
  pub parse_query : List Field → Text → Text ⊎ Parsed

-- `map_err(|e| Error::Index(format!("…: {}", e)))?`
abbrev pub or_index : {A : Type 0} → Text → Text ⊎ A → Result A
or_index what (inl m) = err (Error.index (what ++ m))
or_index what (inr a) = ok a

abbrev pub with_path : Option Text → List Text → List Text
with_path none paths = paths
with_path (some path) paths = path ∷ paths

-- The stored user and mailbox are there and are these.
abbrev pub is_own : (username mailbox : Text) → Option Text → Option Text → Bool
is_own username mailbox (some u) (some m) = u == username && m == mailbox
is_own username mailbox _ _ = false

module _ {W Address Doc Parsed : Type 0} (reader : IndexReader W Address Doc Parsed) where
  abbrev pub find : W → Query Parsed → (limit : ℕ) → Result (List Address)
  find w query limit = or_index (text "Search failed: ") (reader.find w query limit)

  abbrev pub doc : W → Address → Result Doc
  doc w address = or_index (text "Failed to retrieve document: ") (reader.doc w address)

  abbrev pub first_path : W → List Address → Result (Option Text)
  first_path w [] = ok none
  first_path w (address ∷ addresses) = doc w address >>= λ d. ok (reader.text_of d Field.path_field)

  abbrev pub paths_of : W → List Address → Result (List Text)
  paths_of w [] = ok []
  paths_of w (address ∷ addresses) = doc w address >>= λ d.
      paths_of w addresses >>= λ paths. ok (with_path (reader.text_of d Field.path_field) paths)

  -- The path of a document that is in the right mailbox.
  abbrev pub own_path : (username mailbox : Text) → Doc → Option Text
  own_path username mailbox d =
      if is_own username mailbox (reader.text_of d Field.username_field)
        (reader.text_of d Field.mailbox_field)
      then reader.text_of d Field.path_field
      else none

  abbrev pub own_paths : W → (username mailbox : Text) → List Address → Result (List Text)
  own_paths w username mailbox [] = ok []
  own_paths w username mailbox (address ∷ addresses) = doc w address >>= λ d.
      own_paths w username mailbox addresses >>= λ paths.
      ok (with_path (own_path username mailbox d) paths)

  abbrev pub parsed_query : List Field → Text → Result (Query Parsed)
  parsed_query fields s =
      or_index (text "Query parse error: ") (reader.parse_query fields s) >>= λ q.
      ok (Query.parsed q)

  abbrev pub in_mailbox : (username mailbox : Text) → List Term
  in_mailbox username mailbox =
      Term.text_term Field.username_field username ∷ Term.text_term Field.mailbox_field mailbox ∷ []

  -- The query for tantivy; other kinds of query are answered with nothing.
  abbrev pub query_for : (username mailbox : Text) → SearchQuery → Option (Result (Query Parsed))
  query_for username mailbox SearchQuery.all = some (ok (Query.must (in_mailbox username mailbox)))
  query_for username mailbox (SearchQuery.from s) = some (parsed_query (Field.from_field ∷ []) s)
  query_for username mailbox (SearchQuery.subject s) =
      some (parsed_query (Field.subject_field ∷ []) s)
  query_for username mailbox (SearchQuery.text s) = some (
      parsed_query (Field.from_field ∷ Field.to_field ∷ Field.subject_field ∷ Field.body_field ∷ [])
        s)
  query_for username mailbox _ = none

  abbrev pub searched :
      W → (username mailbox : Text) → Option (Result (Query Parsed)) → Result (List Text)
  searched w username mailbox none = ok []
  searched w username mailbox (some query) =
      query >>= λ q. find w q 1000 >>= own_paths w username mailbox

  unfoldable pub search : W → (username mailbox : Text) → SearchQuery → Result (List Text)
  unfolding list_beq
  search w username mailbox query = searched w username mailbox (query_for username mailbox query)

  unfoldable pub list_message_paths : W → (username mailbox : Text) → Result (List Text)
  list_message_paths w username mailbox =
      find w (Query.must (in_mailbox username mailbox)) 10000 >>= paths_of w

  unfoldable pub get_message_path_by_uid :
      W → (username mailbox : Text) → Uid → Result (Option Text)
  get_message_path_by_uid w username mailbox uid =
      find w (Query.must (in_mailbox username mailbox ++ Term.u64_term Field.uid_field uid ∷ [])) 1
      >>= first_path w

  unfoldable pub get_message_path :
      (display : MessageId → Text) → W → MessageId → Result (Option Text)
  get_message_path display w id =
      find w (Query.one (Term.text_term Field.message_id_field (display id))) 1 >>= first_path w

-- These three are not implemented.
unfoldable pub list_mailboxes : (username : Text) → Result (List Mailbox)
list_mailboxes username = ok []

unfoldable pub get_mailbox : (username name : Text) → Result (Option Mailbox)
get_mailbox username name = ok none

unfoldable pub get_message_metadata : MessageId → Result (Option IndexedMessage)
get_message_metadata id = ok none
