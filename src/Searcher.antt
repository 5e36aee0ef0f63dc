-- ===== src/Searcher.antt =====
-- searcher.rs: the trait of search backends, and the searcher that passes each query on to its backend.
use scuttled.Prelude.{ℕ, Bool, List}
use scuttled.Text.{Text}
use scuttled.Types.Query.{SearchQuery}
use scuttled.Error.{Result}

-- Over the state of the backend, which a query does not change.
pub record SearchBackend (S : Type 0) : Type 0 where
  pub search : S → (username mailbox : Text) → SearchQuery → Result (List Text)
  pub list_mailboxes : S → (username : Text) → Result (List Text)
  pub message_count : S → (username mailbox : Text) → Result ℕ
  pub mailbox_exists : S → (username mailbox : Text) → Result Bool

module _ {S : Type 0} (backend : SearchBackend S) (s : S) where
  unfoldable pub search : (username mailbox : Text) → SearchQuery → Result (List Text)
  search username mailbox query = backend.search s username mailbox query

  unfoldable pub list_mailboxes : (username : Text) → Result (List Text)
  list_mailboxes username = backend.list_mailboxes s username

  unfoldable pub message_count : (username mailbox : Text) → Result ℕ
  message_count username mailbox = backend.message_count s username mailbox

  unfoldable pub mailbox_exists : (username mailbox : Text) → Result Bool
  mailbox_exists username mailbox = backend.mailbox_exists s username mailbox
