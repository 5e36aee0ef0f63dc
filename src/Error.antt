-- ===== src/Error.antt =====
-- error.rs: the error type, its `Display`, and results as values. The wrapped `std::io::Error` of
-- `Io` is its message.
use scuttled.Prelude.{◌++◌, Bool, true, false}
use scuttled.Text.{Text, text}

pub data Error : Type 0 where
  io database index authentication_failed authorization_failed : Text → Error
  invalid_mailbox mailbox_exists mailbox_not_found invalid_message : Text → Error
  protocol_error not_found already_exists invalid_state : Text → Error
  queue_error tls_error internal : Text → Error

-- The `#[error("…")]` formats.
unfoldable pub error_message : Error → Text
error_message (Error.io m) = text "IO error: " ++ m
error_message (Error.database m) = text "Database error: " ++ m
error_message (Error.index m) = text "Index error: " ++ m
error_message (Error.authentication_failed m) = text "Authentication failed: " ++ m
error_message (Error.authorization_failed m) = text "Authorization failed: " ++ m
error_message (Error.invalid_mailbox m) = text "Invalid mailbox: " ++ m
error_message (Error.mailbox_exists m) = text "Mailbox already exists: " ++ m
error_message (Error.mailbox_not_found m) = text "Mailbox not found: " ++ m
error_message (Error.invalid_message m) = text "Invalid message: " ++ m
error_message (Error.protocol_error m) = text "Protocol error: " ++ m
error_message (Error.not_found m) = text "Not found: " ++ m
error_message (Error.already_exists m) = text "Already exists: " ++ m
error_message (Error.invalid_state m) = text "Invalid state: " ++ m
error_message (Error.queue_error m) = text "Queue error: " ++ m
error_message (Error.tls_error m) = text "TLS error: " ++ m
error_message (Error.internal m) = text "Internal error: " ++ m

pub data Result {ℓ} (A : Type ℓ) : Type ℓ where
  ok : A → Result A
  err : Error → Result A

infixl 5 ◌>>=◌
abbrev pub ◌>>=◌ {ℓ κ} : {A : Type ℓ} {B : Type κ} → Result A → (A → Result B) → Result B
ok a >>= f = f a
err e >>= f = err e

abbrev pub is_ok {ℓ} : {A : Type ℓ} → Result A → Bool
is_ok (ok a) = true
is_ok (err e) = false
