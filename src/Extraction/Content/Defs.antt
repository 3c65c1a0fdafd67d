-- ===== src/Extraction/Content/Defs.antt =====
-- extraction/content_preparer.py. html2text's `handle` is the parameter `html_to_text`.
use email_budget_api.Common.{
  ℕ, Bool, true, false, not, ◌&&◌, ◌||◌, List, [], ◌∷◌, ◌++◌, ◌==◌, if◌then◌else◌, ltb, length,
  take, any, is_some,
}
use email_budget_api.Common.Text.{Text, codes, lower}
use email_budget_api.Extraction.Models.{ParsedEmail}
use email_budget_api.Regex.{
  Regex, char, either, search, match, is_space, one_of, newline, seq, alts, star, maybe, plus,
  at_least, text, text_i, boundary, line_start, text_start, text_end,
}
use email_budget_api.Strings.{strip, is_blank, contains, split, splitlines, join, sub}

abbrev pub max_chars : ℕ
max_chars = 8000

-- `_FOOTER_MARKERS`
abbrev pub footer_markers : List Text
footer_markers =
    codes "unsubscribe"
    ∷ codes "receiving this alert"
    ∷ codes "receiving this email"
    ∷ codes "manage alerts"
    ∷ codes "manage your preferences"
    ∷ codes "this email was sent to"
    ∷ codes "privacy policy"
    ∷ codes "all rights reserved"
    ∷ []

-- `_FWD_MARKER`: `forwarded message|original message`
abbrev pub fwd_marker : Regex
fwd_marker = either (text_i (codes "forwarded message")) (text_i (codes "original message"))

-- `_FWD_HEADER`: `^[ \t>*]*\*?(from|date|to|subject|reply-to|cc|bcc|sent)\b\s*:?`
abbrev pub fwd_header : Regex
fwd_header = seq (
    text_start
    ∷ star (char (one_of (32 ∷ 9 ∷ b'>' ∷ b'*' ∷ [])))
    ∷ maybe (text (codes "*"))
    ∷ alts (text_i (codes "from")) (
        text_i (codes "date")
        ∷ text_i (codes "to")
        ∷ text_i (codes "subject")
        ∷ text_i (codes "reply-to")
        ∷ text_i (codes "cc")
        ∷ text_i (codes "bcc")
        ∷ text_i (codes "sent")
        ∷ [])
    ∷ boundary
    ∷ star (char is_space)
    ∷ maybe (text (codes ":"))
    ∷ [])

-- `_TABLE_SEP`: `^[\s|:\-]+$`
abbrev pub table_sep : Regex
table_sep =
    seq (text_start ∷ plus (char (λ c. is_space c || one_of (codes "|:-") c)) ∷ text_end ∷ [])

-- `(?m)^[ \t]*(?:>[ \t]?)+`
abbrev pub quote_marker : Regex
quote_marker = seq (
    line_start
    ∷ star (char (one_of (32 ∷ 9 ∷ [])))
    ∷ plus (seq (text (codes ">") ∷ maybe (char (one_of (32 ∷ 9 ∷ []))) ∷ []))
    ∷ [])

-- `"\n".join(lines)`
unfoldable pub unlines : List Text → Text
unlines = join (newline ∷ [])

-- A header or blank line of the block behind a marker.
unfoldable pub is_forward_header : Text → Bool
is_forward_header line = is_blank (strip line) || is_some (match fwd_header line)

-- The loop of `_strip_forward_headers`, with whether it is skipping the lines behind a marker.
unfoldable pub drop_headers : (skipping : Bool) → List Text → List Text
unfolding is_forward_header
drop_headers skipping [] = []
drop_headers skipping (line ∷ rest) = elim (skipping && is_forward_header line) [
  | true ↦ drop_headers true rest
  | false ↦ line ∷ drop_headers (is_some (search fwd_marker line)) rest
]

unfoldable pub strip_forward_headers : Text → Text
unfolding drop_headers unlines
strip_forward_headers text = unlines (drop_headers false (splitlines text))

unfoldable pub filled_cells : List Text → List Text
filled_cells [] = []
filled_cells (c ∷ cs) =
    let rest = filled_cells cs in if is_blank (strip c) then rest else strip c ∷ rest

-- The lines that a line becomes.
unfoldable pub table_row : Text → List Text
unfolding filled_cells
table_row line =
    if contains (codes "|") line
    then (if is_some (match table_sep line)
        then []
        else let cells = filled_cells (split b'|' line) in
          if length cells == 2 then cells else line ∷ [])
    else line ∷ []

unfoldable pub table_rows : List Text → List Text
unfolding table_row
table_rows [] = []
table_rows (line ∷ rest) = table_row line ++ table_rows rest

unfoldable pub normalize_pipe_tables : Text → Text
unfolding table_rows unlines
normalize_pipe_tables text = unlines (table_rows (splitlines text))

unfoldable pub is_footer : Text → Bool
is_footer line = any (λ mark. contains mark (lower line)) footer_markers

unfoldable pub drop_footer : List Text → List Text
unfolding is_footer
drop_footer [] = []
drop_footer (line ∷ rest) =
    let kept = drop_footer rest in if is_footer line then kept else line ∷ kept

unfoldable pub strip_footer : Text → Text
unfolding drop_footer unlines
strip_footer text = unlines (drop_footer (splitlines text))

-- The text part, unless it is a stub and the HTML part says more.
unfoldable pub source_text : (Text → Text) → ParsedEmail → Text
source_text html_to_text parsed =
    let text = strip parsed.text_body in
    if ltb (length text) 200 && not (is_blank (strip parsed.html_body))
    then (let html_text = strip (html_to_text parsed.html_body) in
        if ltb (length text) (length html_text) then html_text else text)
    else text

unfoldable pub clean : Text → Text
unfolding normalize_pipe_tables strip_forward_headers strip_footer
clean text =
    let unquoted = sub quote_marker [] (normalize_pipe_tables text) in
    let kept = strip_footer (strip_forward_headers unquoted) in
    let one_space = sub (plus (char (one_of (32 ∷ 9 ∷ [])))) (32 ∷ []) kept in
    sub (at_least 3 (char (λ c. c == newline))) (newline ∷ newline ∷ []) one_space

unfoldable pub prepare : (Text → Text) → ParsedEmail → Text
unfolding source_text clean
prepare html_to_text parsed = take max_chars (strip (clean (source_text html_to_text parsed)))
