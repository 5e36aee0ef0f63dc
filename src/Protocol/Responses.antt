-- ===== src/Protocol/Responses.antt =====
-- `Response` of protocol.rs, with its wire form.
use scuttled.Prelude.{Option, none, some, [], ◌∷◌, ◌++◌}
use scuttled.Text.{Text, text, carriage_return, newline}

pub data Response : Type 0 where
  ok no bad : (tag : Option Text) (message : Text) → Response
  bye untagged continuation : (message : Text) → Response

abbrev pub crlf : Text
crlf = carriage_return ∷ newline ∷ []

abbrev tag_or_star : Option Text → Text
tag_or_star (some tag) = tag
tag_or_star none = text "*"

-- `Display` of a response.
unfoldable pub response_text : Response → Text
response_text (Response.ok tag message) = tag_or_star tag ++ text " OK " ++ message ++ crlf
response_text (Response.no tag message) = tag_or_star tag ++ text " NO " ++ message ++ crlf
response_text (Response.bad tag message) = tag_or_star tag ++ text " BAD " ++ message ++ crlf
response_text (Response.bye message) = text "* BYE " ++ message ++ crlf
response_text (Response.untagged message) = text "* " ++ message ++ crlf
response_text (Response.continuation message) = text "+ " ++ message ++ crlf
