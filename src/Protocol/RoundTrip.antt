-- ===== src/Protocol/RoundTrip.antt =====
-- A client's spelling of a command, with quoted arguments, is read back by the parser of protocol.rs.
use scuttled.Prelude.{ℕ, ◌≡◌, refl, List, [], ◌∷◌, ◌++◌, All, arith, nat_eq, list_beq}
use scuttled.Text.{Text, text, space, double_quote, is_whitespace, join, to_uppercase}
use scuttled.Text.Words.{IsWord, HasNoSpace, split_whitespace-join}
use scuttled.Text.Trim.{HasNone, trim_matches_quoted}
use scuttled.Error.{ok}
use scuttled.Protocol.{Command, parse_words, parse_command}

abbrev pub quote : Text → Text
quote a = double_quote ∷ a ++ double_quote ∷ []

-- The words of a command line.
abbrev pub spell : Command → List Text
spell Command.capability = text "CAPABILITY" ∷ []
spell Command.noop = text "NOOP" ∷ []
spell Command.logout = text "LOGOUT" ∷ []
spell Command.starttls = text "STARTTLS" ∷ []
spell (Command.login u p) = text "LOGIN" ∷ quote u ∷ quote p ∷ []
spell (Command.select m) = text "SELECT" ∷ quote m ∷ []
spell (Command.examine m) = text "EXAMINE" ∷ quote m ∷ []
spell (Command.create m) = text "CREATE" ∷ quote m ∷ []
spell (Command.delete m) = text "DELETE" ∷ quote m ∷ []
spell (Command.list r p) = text "LIST" ∷ quote r ∷ quote p ∷ []
spell Command.close = text "CLOSE" ∷ []
spell Command.expunge = text "EXPUNGE" ∷ []
spell _ = []

-- The parser splits at white space, so an argument holds none, nor a quote.
abbrev pub IsArg : Text → Type 0
IsArg a = HasNoSpace a × HasNone (nat_eq double_quote) a

-- The commands that the parser knows by name, with arguments that can be quoted.
abbrev pub IsSendable : Command → Type 0
IsSendable Command.capability = Unit
IsSendable Command.noop = Unit
IsSendable Command.logout = Unit
IsSendable Command.starttls = Unit
IsSendable (Command.login u p) = IsArg u × IsArg p
IsSendable (Command.select m) = IsArg m
IsSendable (Command.examine m) = IsArg m
IsSendable (Command.create m) = IsArg m
IsSendable (Command.delete m) = IsArg m
IsSendable (Command.list r p) = IsArg r × IsArg p
IsSendable Command.close = Unit
IsSendable Command.expunge = Unit
IsSendable _ = ⊥

HasNoSpace-append : (s t : Text) → HasNoSpace s → HasNoSpace t → HasNoSpace (s ++ t)
HasNoSpace-append [] t h k = k
HasNoSpace-append (c ∷ s) t h k = (h.0, HasNoSpace-append s t h.1 k)

quote-IsWord : (a : Text) → IsArg a → IsWord (quote a)
unfolding is_whitespace
quote-IsWord a h = (refl, HasNoSpace-append a (double_quote ∷ []) h.0 (refl, tt))

spell-IsWord : (c : Command) → IsSendable c → All IsWord (spell c)
unfolding text is_whitespace
spell-IsWord (Command.login u p) h =
    ((assumption refl), (quote-IsWord u h.0, (quote-IsWord p h.1, tt)))
spell-IsWord (Command.list u p) h =
    ((assumption refl), (quote-IsWord u h.0, (quote-IsWord p h.1, tt)))
spell-IsWord (Command.select m) h = ((assumption refl), (quote-IsWord m h, tt))
spell-IsWord (Command.examine m) h = ((assumption refl), (quote-IsWord m h, tt))
spell-IsWord (Command.create m) h = ((assumption refl), (quote-IsWord m h, tt))
spell-IsWord (Command.delete m) h = ((assumption refl), (quote-IsWord m h, tt))
spell-IsWord _ h = ground arith

parse_words-spell :
    (upper : ℕ → Text) (c : Command) → IsSendable c → parse_words upper (spell c) ≡ ok c
unfolding parse_words to_uppercase text list_beq
parse_words-spell upper (Command.login u p) h =
    rw (trim_matches_quoted double_quote u h.0.1, trim_matches_quoted double_quote p h.1.1)
parse_words-spell upper (Command.list u p) h =
    rw (trim_matches_quoted double_quote u h.0.1, trim_matches_quoted double_quote p h.1.1)
parse_words-spell upper (Command.select m) h = rw (trim_matches_quoted double_quote m h.1)
parse_words-spell upper (Command.examine m) h = rw (trim_matches_quoted double_quote m h.1)
parse_words-spell upper (Command.create m) h = rw (trim_matches_quoted double_quote m h.1)
parse_words-spell upper (Command.delete m) h = rw (trim_matches_quoted double_quote m h.1)
parse_words-spell upper _ h = ground arith

-- A command spelled with quoted arguments, none of which holds white space or a quote, is read back.
pub parse_command-spell :
    (upper : ℕ → Text) (tag : Text) (c : Command)
    → IsSendable c
    → parse_command upper tag (join (space ∷ []) (spell c)) ≡ ok c
unfolding parse_command
parse_command-spell upper tag c h =
    rw (split_whitespace-join (spell c) (spell-IsWord c h)) (parse_words-spell upper c h)
