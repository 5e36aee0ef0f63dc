-- ===== src/Handlers/Cells.antt =====
-- session_context.rs: the two cells of a SessionContext and its methods on them. The session loop keeps its state
-- itself, and no handler uses these.
use scuttled.Prelude.{Bool, Option, none, is_some}
use scuttled.Text.{Text}
use scuttled.Handlers
use scuttled.Handlers.{SessionState, username_of}

pub record Cells : Type 0 where
  pub state : SessionState
  pub selected_mailbox : Option Text

abbrev pub new : Cells
new = record { state = SessionState.not_authenticated; selected_mailbox = none }

unfoldable pub get_state : Cells → SessionState
get_state c = c.state

unfoldable pub set_state : SessionState → Cells → Cells
set_state state c = record c { state = state }

unfoldable pub get_selected_mailbox : Cells → Option Text
get_selected_mailbox c = c.selected_mailbox

unfoldable pub set_selected_mailbox : Option Text → Cells → Cells
set_selected_mailbox mailbox c = record c { selected_mailbox = mailbox }

unfoldable pub get_username : Cells → Option Text
unfolding get_state
get_username c = username_of (get_state c)

unfoldable pub is_authenticated : Cells → Bool
unfolding get_state
is_authenticated c = Handlers.is_authenticated (get_state c)

unfoldable pub has_selected_mailbox : Cells → Bool
unfolding get_selected_mailbox
has_selected_mailbox c = is_some (get_selected_mailbox c)
