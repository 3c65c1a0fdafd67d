-- ===== src/Extraction/Mime.antt =====
-- extraction/mime_parser.py. The message that `message_from_bytes` of the standard library makes
-- is the record `Message`, whose fields are what the code asks of it; `decode_header` with
-- `make_header` is the parameter `decode_header`, none where it raises.
use email_budget_api.Common.{Bool, true, false, Option, none, some, List, [], ◌∷◌, if◌then◌else◌}
use email_budget_api.Common.Text.{Text, codes, text_eq, lower}
use email_budget_api.Extraction.Models.{ParsedEmail}
use email_budget_api.Strings.{is_blank, contains, is_in}

-- `content` is none where `get_content` raises.
pub record Part : Type 0 where
  pub is_multipart : Bool
  pub content_disposition : Text
  pub content_type : Text
  pub content : Option Text

-- `parts` is what `walk` goes through; `itself` the message as a part.
pub record Message : Type 0 where
  pub items : List (Text × Text)
  pub subject : Text
  pub from_header : Text
  pub dkim_signatures : List Text
  pub itself : Part
  pub parts : List Part

-- The first text part and the first HTML part so far.
pub record Bodies : Type 0 where
  pub text : Text
  pub html : Text

-- What the loop of `_bodies` does with the content of a part.
unfoldable pub take_content : Text → Text → Bodies → Bodies
take_content ctype content b =
    if (if text_eq ctype (codes "text/plain") then is_blank b.text else false)
    then record b { text = content }
    else if (if text_eq ctype (codes "text/html") then is_blank b.html else false)
    then record b { html = content }
    else b

unfoldable pub take_part : Part → Bodies → Bodies
unfolding take_content
take_part part b =
    if part.is_multipart
    then b
    else if contains (codes "attachment") (lower part.content_disposition)
    then b
    else elim part.content [ none ↦ b | some content ↦ take_content part.content_type content b ]

unfoldable pub take_parts : List Part → Bodies → Bodies
unfolding take_part
take_parts [] b = b
take_parts (part ∷ rest) b = take_parts rest (take_part part b)

unfoldable pub single_part : Part → Bodies
single_part part =
    let content : Text = elim part.content [ none ↦ [] | some c ↦ c ] in
    if text_eq part.content_type (codes "text/html")
    then record { text = []; html = content }
    else record { text = content; html = [] }

-- `_bodies`
unfoldable pub bodies : Message → Bodies
unfolding take_parts single_part
bodies msg =
    if msg.itself.is_multipart
    then take_parts msg.parts (record { text = []; html = [] })
    else single_part msg.itself

-- `headers.setdefault(k.lower(), v)`, in the order of the items
unfoldable pub set_defaults : List Text → List (Text × Text) → List (Text × Text)
unfolding is_in
set_defaults keys [] = []
set_defaults keys ((k, v) ∷ rest) = elim (is_in (lower k) keys) [
  | true ↦ set_defaults keys rest
  | false ↦ (lower k, v) ∷ set_defaults (lower k ∷ keys) rest
]

-- `_decode`; an absent header is empty.
unfoldable pub decode : (Text → Option Text) → Text → Text
decode decode_header [] = []
decode decode_header (c ∷ value) = elim (decode_header (c ∷ value)) [
  | none ↦ c ∷ value
  | some t ↦ t
]

unfoldable pub parse : (Text → Option Text) → Message → ParsedEmail
unfolding bodies set_defaults decode
parse decode_header msg =
    let b = bodies msg in
    record {
      subject = decode decode_header msg.subject;
      from_header = decode decode_header msg.from_header;
      dkim_signatures = msg.dkim_signatures;
      headers = set_defaults [] msg.items;
      text_body = b.text;
      html_body = b.html;
    }
