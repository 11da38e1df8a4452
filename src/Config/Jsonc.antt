-- ===== src/Config/Jsonc.antt =====
-- crates/jux-core/src/config/mod.rs: comments in a JSONC text.
use jux.Base.{
  ℕ, Bool, true, false, ◌&&◌, ◌==◌, Text, codes, [], ◌∷◌, ◌++◌, Option, none, some, Result, ok, err,
  if◌then◌else◌,
}

-- Where the scanner stands: outside of strings and comments, in a string (behind a backslash or
-- not), before the second character of a comment's start, or in a comment.
pub data Scan : Type 0 where
  outside line_start line block_start : Scan
  quoted : Bool → Scan
  -- The character before.
  block : ℕ → Scan

abbrev pub quote : ℕ
quote = b'"'

abbrev pub backslash : ℕ
backslash = 92

abbrev pub slash : ℕ
slash = b'/'

abbrev pub star : ℕ
star = b'*'

abbrev pub line_end : ℕ
line_end = 10

abbrev is_next : ℕ → Option ℕ → Bool
is_next c none = false
is_next c (some d) = c == d

abbrev pub peek : Text → Option ℕ
peek [] = none
peek (c ∷ rest) = some c

-- `push_json_string_char`
abbrev pub behind_quoted : Bool → ℕ → Scan
behind_quoted escaped c =
    if escaped
    then quoted false
    else if c == backslash
    then quoted true
    else if c == quote
    then outside
    else quoted false

-- What a character puts out, given the one after it, and where the scanner is then.
abbrev pub strip_jsonc_char : Scan → ℕ → Option ℕ → Text × Scan
strip_jsonc_char outside c next =
    if c == quote
    then (c ∷ [], quoted false)
    else if c == slash && is_next slash next
    then ([], line_start)
    else if c == slash && is_next star next
    then ([], block_start)
    else (c ∷ [], outside)
strip_jsonc_char (quoted escaped) c next = (c ∷ [], behind_quoted escaped c)
strip_jsonc_char line_start c next = ([], line)
strip_jsonc_char line c next = if c == line_end then (c ∷ [], outside) else ([], line)
strip_jsonc_char block_start c next = ([], block 0)
strip_jsonc_char (block previous) c next =
    if previous == star && c == slash then ([], outside) else ([], block c)

-- The end of a text.
abbrev pub strip_end : Scan → Result Text Text
strip_end block_start = err (codes "unterminated JSONC block comment")
strip_end (block previous) = err (codes "unterminated JSONC block comment")
strip_end _ = ok []

abbrev pub put_before : Text → Result Text Text → Result Text Text
put_before output (ok rest) = ok (output ++ rest)
put_before output (err e) = err e

unfoldable pub strip_from : Scan → Text → Result Text Text
strip_from scan [] = strip_end scan
strip_from scan (c ∷ rest) =
    let step = strip_jsonc_char scan c (peek rest) in put_before step.0 (strip_from step.1 rest)

unfoldable pub strip_jsonc_comments : Text → Result Text Text
unfolding strip_from
strip_jsonc_comments input = strip_from outside input
