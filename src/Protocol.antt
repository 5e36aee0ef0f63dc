-- ===== src/Protocol.antt =====
-- protocol.rs: commands, the parser of one command line, and the responses (Protocol/Responses).
pub mod Responses
pub mod Parsing
pub mod RoundTrip
pub mod Arity
use scuttled.Prelude.{
  ℕ, Bool, true, false, Option, none, some, List, [], ◌∷◌, if◌then◌else◌, ◌==◌, list_key, nat_key,
  list_beq,
}
use scuttled.Text.{
  Text, text, space, double_quote, split_whitespace, trim_matches, join, to_uppercase,
}
use scuttled.Error.{Error, Result, ok, err}

pub data StatusItem : Type 0 where
  messages recent uidnext uidvalidity unseen : StatusItem

pub data FetchItem : Type 0 where
  uid flags internal_date rfc822_size envelope body body_structure : FetchItem
  body_section : Text → FetchItem
  fast all full : FetchItem

pub data Command : Type 0 where
  capability noop logout starttls : Command
  login : (username password : Text) → Command
  select examine create delete : (mailbox : Text) → Command
  rename : (from to : Text) → Command
  list lsub : (reference pattern : Text) → Command
  status : (mailbox : Text) (items : List StatusItem) → Command
  append : (mailbox : Text) (flags : List Text) (date : Option Text) (message : List ℕ) → Command
  check close expunge : Command
  search : (query : Text) → Command
  fetch : (sequence : Text) (items : List FetchItem) → Command
  store : (sequence : Text) (flags : List Text) (add : Bool) → Command
  copy : (sequence mailbox : Text) → Command
  uid : Command → Command
  custom : (name args : Text) → Command

-- `parts[i].trim_matches('"')`
unfoldable pub unquote : Text → Text
unfolding trim_matches
unquote part = trim_matches double_quote part

-- The tests `parts.len() < 2` and `parts.len() < 3`, on the parts behind the command's name.
unfoldable pub one_arg : Text → (Text → Command) → List Text → Result Command
unfolding unquote
one_arg missing make [] = err (Error.protocol_error missing)
one_arg missing make (a ∷ rest) = ok (make (unquote a))

unfoldable pub two_args : Text → (Text → Text → Command) → List Text → Result Command
unfolding unquote
two_args missing make (a ∷ b ∷ rest) = ok (make (unquote a) (unquote b))
two_args missing make _ = err (Error.protocol_error missing)

-- The `match` on the upper case name.
unfoldable pub dispatch : Text → List Text → Result Command
unfolding one_arg two_args join
dispatch cmd args =
    if cmd == text "CAPABILITY"
    then ok Command.capability
    else if cmd == text "NOOP"
    then ok Command.noop
    else if cmd == text "LOGOUT"
    then ok Command.logout
    else if cmd == text "STARTTLS"
    then ok Command.starttls
    else if cmd == text "LOGIN"
    then two_args (text "LOGIN requires username and password") Command.login args
    else if cmd == text "SELECT"
    then one_arg (text "SELECT requires mailbox name") Command.select args
    else if cmd == text "EXAMINE"
    then one_arg (text "EXAMINE requires mailbox name") Command.examine args
    else if cmd == text "CREATE"
    then one_arg (text "CREATE requires mailbox name") Command.create args
    else if cmd == text "DELETE"
    then one_arg (text "DELETE requires mailbox name") Command.delete args
    else if cmd == text "LIST"
    then two_args (text "LIST requires reference and pattern") Command.list args
    else if cmd == text "CLOSE"
    then ok Command.close
    else if cmd == text "EXPUNGE"
    then ok Command.expunge
    else ok (Command.custom cmd (join (space ∷ []) args))

unfoldable pub parse_words : (ℕ → Text) → List Text → Result Command
unfolding dispatch
parse_words upper [] = err (Error.protocol_error (text "Empty command"))
parse_words upper (name ∷ args) = dispatch (to_uppercase upper name) args

unfoldable pub parse_command : (ℕ → Text) → Text → Text → Result Command
unfolding parse_words
parse_command upper tag line = parse_words upper (split_whitespace line)
