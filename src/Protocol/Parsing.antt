-- ===== src/Protocol/Parsing.antt =====
-- What the parser of protocol.rs accepts: each command is read back from a line that spells it, its
-- name is the line's first word in upper case, and it fails on an empty line or a missing argument.
use scuttled.Prelude.{
  ℕ, ◌≡◌, refl, sym, Bool-cases, inl, inr, List, [], ◌∷◌, arith, if◌then◌else◌, ◌==◌, list_key,
  nat_key, list_beq_iff, ◌∙◌,
}
use scuttled.Text.{Text, text, space, split_whitespace, join, to_uppercase}
use scuttled.Error.{Result, ok}
use scuttled.Protocol.{Command, one_arg, two_args, dispatch, parse_words, parse_command}

-- The name under which a session dispatches a command.
abbrev name_of : Command → Text
name_of Command.capability = text "CAPABILITY"
name_of Command.noop = text "NOOP"
name_of Command.logout = text "LOGOUT"
name_of Command.starttls = text "STARTTLS"
name_of (Command.login u p) = text "LOGIN"
name_of (Command.select m) = text "SELECT"
name_of (Command.examine m) = text "EXAMINE"
name_of (Command.create m) = text "CREATE"
name_of (Command.delete m) = text "DELETE"
name_of (Command.list r p) = text "LIST"
name_of Command.close = text "CLOSE"
name_of Command.expunge = text "EXPUNGE"
name_of (Command.custom name args) = name
name_of _ = []

-- Whatever command a result holds, it is dispatched under `cmd`.
abbrev IsNamed : Text → Result Command → Type 0
IsNamed cmd r = (c : Command) → r ≡ ok c → name_of c ≡ cmd

by_keyword :
    (cmd keyword : Text) (r s : Result Command)
    → (cmd ≡ keyword → IsNamed cmd r)
    → IsNamed cmd s
    → IsNamed cmd (if cmd == keyword then r else s)
by_keyword cmd keyword r s hit miss = elim (Bool-cases (cmd == keyword)) [
  | inl e ↦ rw e (hit ((list_beq_iff cmd keyword).0 e))
  | inr e ↦ rw e miss
]

ok-IsNamed : (cmd : Text) (c : Command) → name_of c ≡ cmd → IsNamed cmd (ok c)
ok-IsNamed cmd c h d e = ground arith

module _ (cmd missing : Text) where
  one_arg-IsNamed :
      (make : Text → Command) (args : List Text)
      → ((m : Text) → name_of (make m) ≡ cmd)
      → IsNamed cmd (one_arg missing make args)
  unfolding one_arg
  one_arg-IsNamed make [] h c e = cc
  one_arg-IsNamed make (a ∷ args) h c e = ok-IsNamed cmd _ (h _) c e

  two_args-IsNamed :
      (make : Text → Text → Command) (args : List Text)
      → ((a b : Text) → name_of (make a b) ≡ cmd)
      → IsNamed cmd (two_args missing make args)
  unfolding two_args
  two_args-IsNamed make [] h c e = cc
  two_args-IsNamed make (a ∷ []) h c e = cc
  two_args-IsNamed make (a ∷ b ∷ args) h c e = ok-IsNamed cmd _ (h _ _) c e

module _ (cmd keyword : Text) (rest : Result Command) (later : IsNamed cmd rest) where
  plain : (c : Command) → name_of c ≡ keyword → IsNamed cmd (if cmd == keyword then ok c else rest)
  plain c h = by_keyword cmd keyword (ok c) rest (λ e. ok-IsNamed cmd c (h ∙ sym e)) later

  unary :
      (missing : Text) (make : Text → Command) (args : List Text)
      → ((a : Text) → name_of (make a) ≡ keyword)
      → IsNamed cmd (if cmd == keyword then one_arg missing make args else rest)
  unary missing make args h =
      by_keyword cmd keyword _ rest (λ e. one_arg-IsNamed cmd missing make args (λ a. h a ∙ sym e))
        later

  binary :
      (missing : Text) (make : Text → Text → Command) (args : List Text)
      → ((a b : Text) → name_of (make a b) ≡ keyword)
      → IsNamed cmd (if cmd == keyword then two_args missing make args else rest)
  binary missing make args h =
      by_keyword cmd keyword _ rest
        (λ e. two_args-IsNamed cmd missing make args (λ a b. h a b ∙ sym e)) later

dispatch-IsNamed : (cmd : Text) (args : List Text) → IsNamed cmd (dispatch cmd args)
unfolding dispatch
dispatch-IsNamed cmd args =
    let custom = ok-IsNamed cmd (Command.custom cmd (join (space ∷ []) args)) refl in
    let expunge = plain cmd (text "EXPUNGE") _ custom Command.expunge refl in
    let close = plain cmd (text "CLOSE") _ expunge Command.close refl in
    let list = binary cmd (text "LIST") _ close _ Command.list args (λ a b. refl) in
    let delete = unary cmd (text "DELETE") _ list _ Command.delete args (λ a. refl) in
    let create = unary cmd (text "CREATE") _ delete _ Command.create args (λ a. refl) in
    let examine = unary cmd (text "EXAMINE") _ create _ Command.examine args (λ a. refl) in
    let select = unary cmd (text "SELECT") _ examine _ Command.select args (λ a. refl) in
    let login = binary cmd (text "LOGIN") _ select _ Command.login args (λ a b. refl) in
    let starttls = plain cmd (text "STARTTLS") _ login Command.starttls refl in
    let logout = plain cmd (text "LOGOUT") _ starttls Command.logout refl in
    let noop = plain cmd (text "NOOP") _ logout Command.noop refl in
    plain cmd (text "CAPABILITY") _ noop Command.capability refl

-- A command is dispatched under the first word of its line, in upper case.
parse_command-name :
    (upper : ℕ → Text) (tag line name : Text) (args : List Text) (c : Command)
    → split_whitespace line ≡ name ∷ args
    → parse_command upper tag line ≡ ok c
    → name_of c ≡ to_uppercase upper name
unfolding parse_command
parse_command-name upper tag line name args c e h =
    dispatch-IsNamed (to_uppercase upper name) args c (rw (e, parse_words) at h)
