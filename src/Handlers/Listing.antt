-- ===== src/Handlers/Listing.antt =====
-- The handler of handlers/list.rs.
use scuttled.Prelude.{Option, none, some, List, [], ◌∷◌, ◌++◌}
use scuttled.Text.{Text, text, double_quote, split_whitespace, trim_matches}
use scuttled.Error.{Result, ok, err, error_message}
use scuttled.Protocol.Responses.{Response}
use scuttled.Mailboxes.{MailboxInfo}
use scuttled.Handlers.{SessionState, SessionContext, World, write, attempt, answer}
use scuttled.Handlers.Folders.{with_user}
use scuttled.Handlers.Patterns.{pattern_to_filter}

-- `ListHandler::parse_args`, on the words of the arguments: words behind the second are ignored.
abbrev pub reference_and_pattern : List Text → Option (Text × Text)
reference_and_pattern [] = none
reference_and_pattern (pattern ∷ []) = some ([], pattern)
reference_and_pattern (reference ∷ pattern ∷ rest) = some (reference, pattern)

unfoldable pub list_args : Text → Option (Text × Text)
unfolding split_whitespace
list_args args = reference_and_pattern (split_whitespace args)

unfoldable pub effective_pattern : (reference pattern : Text) → Text
unfolding trim_matches
effective_pattern reference pattern =
    trim_matches double_quote reference ++ trim_matches double_quote pattern

abbrev pub list_line : MailboxInfo → Response
list_line info = Response.untagged (text "LIST () \"/\" \"" ++ info.id.name ++ text "\"")

module _ {S : Type 0} where
  unfoldable pub send_all : List MailboxInfo → World S → Result (Unit {0}) × World S
  unfolding write
  send_all [] w = (ok tt, w)
  send_all (info ∷ infos) w = attempt (write (list_line info) w) (λ _ v. send_all infos v)

  unfoldable pub conclude_list :
      (tag : Text) → Result (List MailboxInfo) → World S → Result (Option SessionState) × World S
  unfolding answer send_all
  conclude_list tag (ok infos) w =
      attempt (send_all infos w)
        (λ _ v. answer (Response.ok (some tag) (text "LIST completed")) none v)
  conclude_list tag (err e) w =
      answer (Response.no (some tag) (text "LIST failed: " ++ error_message e)) none w

  unfoldable pub list :
      SessionContext S
      → (tag args : Text) → SessionState
      → World S
      → Result (Option SessionState) × World S
  unfolding list_args answer effective_pattern pattern_to_filter conclude_list
  list context tag args current w = elim (list_args args) [
    | none ↦ answer (Response.bad (some tag) (text "Invalid LIST syntax")) none w
    | some (reference, pattern) ↦
        with_user tag current
          (λ username v.
            conclude_list tag
              (context.mailboxes.list_mailboxes v.store username
                (pattern_to_filter (effective_pattern reference pattern)))
              v)
          w
  ]
