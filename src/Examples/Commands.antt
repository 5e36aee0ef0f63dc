-- ===== src/Examples/Commands.antt =====
-- protocol.rs and types.rs at concrete command lines.
use scuttled.Prelude.{ℕ, true, ◌≡◌, refl, [], ◌∷◌, list_beq}
use scuttled.Text.{Text, text, space, is_whitespace, split_whitespace, join, to_uppercase}
use scuttled.Error.{ok, is_ok}
use scuttled.Protocol.{Command, parse_command}
use scuttled.Protocol.RoundTrip.{spell, parse_command-spell}
use scuttled.Protocol.Arity.{parse_command_succeeds}

-- Beyond ASCII a character stands for itself.
abbrev same_case : ℕ → Text
same_case c = c ∷ []

abbrev tag : Text
tag = text "a1"

abbrev login_alice : Command
login_alice = Command.login (text "alice") (text "secret")

parse_login : parse_command same_case tag (text "login alice \"secret\"") ≡ ok login_alice
unfolding text parse_command split_whitespace is_whitespace to_uppercase list_beq
parse_login = refl

parse_command-spell_example :
    parse_command same_case tag (join (space ∷ []) (spell login_alice)) ≡ ok login_alice
unfolding text is_whitespace
parse_command-spell_example =
    parse_command-spell same_case tag login_alice
      ((assumption refl, assumption refl), (assumption refl, assumption refl))

parse_command_succeeds_example : is_ok (parse_command same_case tag (text "SELECT INBOX")) ≡ true
unfolding text split_whitespace is_whitespace to_uppercase list_beq
parse_command_succeeds_example = parse_command_succeeds same_case tag (text "SELECT INBOX")
