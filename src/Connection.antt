-- ===== src/Connection.antt =====
-- The writing side of connection.rs. Whether a write to the socket fails is the environment's choice:
-- `fault` says it for the n-th write. `sent` is what was written in full.
use scuttled.Prelude.{ℕ, ◌+◌, Bool, Option, none, some, List, [], ◌∷◌, ◌++◌}
use scuttled.Error.{Error, Result, ok, err}
use scuttled.Protocol.Responses.{Response}

pub record Connection : Type 0 where
  pub sent : List Response
  pub attempts : ℕ
  pub fault : ℕ → Option Error
  pub is_tls : Bool

unfoldable pub write_response : Connection → Response → Result (Unit {0}) × Connection
write_response c response = elim (c.fault c.attempts) [
  | none ↦ (ok tt, record c { sent = c.sent ++ response ∷ []; attempts = c.attempts + 1 })
  | some e ↦ (err e, record c { attempts = c.attempts + 1 })
]
