-- ===== src/Handlers/Account.antt =====
-- handlers/login.rs, logout.rs, noop.rs and capability.rs.
use scuttled.Prelude.{Bool, true, false, Option, none, some, List, [], ◌∷◌, ◌++◌, if◌then◌else◌}
use scuttled.Text.{Text, text, space, split_whitespace, join}
use scuttled.Error.{Result, ok, err, error_message}
use scuttled.Protocol.Responses.{Response}
use scuttled.Handlers.{SessionState, SessionContext, World, write, attempt, answer}

-- `LoginHandler::parse_args`, on the words of the arguments: exactly two.
abbrev pub two_words : List Text → Option (Text × Text)
two_words (username ∷ password ∷ []) = some (username, password)
two_words _ = none

unfoldable pub login_args : Text → Option (Text × Text)
unfolding split_whitespace
login_args args = two_words (split_whitespace args)

module _ {S : Type 0} where
  -- The `match` on the authenticator's answer.
  unfoldable pub conclude_login :
      (tag username : Text) → Result Bool → World S → Result (Option SessionState) × World S
  unfolding answer
  conclude_login tag username (ok true) w =
      answer (Response.ok (some tag) (text "LOGIN completed"))
        (some (SessionState.authenticated username)) w
  conclude_login tag username (ok false) w =
      answer (Response.no (some tag) (text "LOGIN failed: invalid credentials")) none w
  conclude_login tag username (err e) w =
      answer (Response.no (some tag) (text "LOGIN failed: " ++ error_message e)) none w

  unfoldable pub login :
      SessionContext S
      → (tag args : Text) → SessionState
      → World S
      → Result (Option SessionState) × World S
  unfolding login_args answer conclude_login
  login context tag args current w = elim (login_args args) [
    | none ↦ answer (Response.bad (some tag) (text "Invalid LOGIN syntax")) none w
    | some (username, password) ↦
        conclude_login tag username
          (context.authenticate w.store (record { username = username; password = password })) w
  ]

  unfoldable pub logout :
      (tag args : Text) → SessionState → World S → Result (Option SessionState) × World S
  unfolding write answer
  logout tag args current w = attempt (write (Response.bye (text "Logging out")) w) (λ _ v.
      answer (Response.ok (some tag) (text "LOGOUT completed")) (some SessionState.logout) v)

  unfoldable pub noop :
      (tag args : Text) → SessionState → World S → Result (Option SessionState) × World S
  unfolding answer
  noop tag args current w = answer (Response.ok (some tag) (text "NOOP completed")) none w

  -- STARTTLS is advertised where the handler was made for a plain connection.
  unfoldable pub capability :
      (is_tls : Bool)
      → (tag args : Text) → SessionState
      → World S
      → Result (Option SessionState) × World S
  unfolding answer join
  capability is_tls tag args current w =
      let capabilities = text "IMAP4rev1" ∷ (if is_tls then [] else text "STARTTLS" ∷ []) in
      answer (Response.ok (some tag) (text "CAPABILITY " ++ join (space ∷ []) capabilities)) none w
