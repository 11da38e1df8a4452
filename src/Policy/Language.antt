-- ===== src/Policy/Language.antt =====
-- What the header of crates/jux-core/src/policy/match_pattern.rs says of wildcards: a pattern is a
-- row of pieces, and each piece stands for a set of strings.
use jux.Base.{ℕ, ◌≢◌, Text, Option, none, some, List, [], ◌∷◌, ◌==◌, if◌then◌else◌}

-- `one_of_segment` is `?`, `segment` is `*`, `all` is `**`, and `directories` is `**/`.
pub data Piece : Type 0 where
  char : ℕ → Piece
  one_of_segment segment all directories : Piece

abbrev pub newline : ℕ
newline = 10

-- `all` and `directories` are read as the regexes `.*` and `(?:.*/)?`, whose dot stands for any
-- character but a newline.
pub data Matches : List Piece → Text → Type 0 where
  finish : Matches [] []
  same : {c : ℕ} {p : List Piece} {s : Text} → Matches p s → Matches (char c ∷ p) (c ∷ s)
  one :
      {c : ℕ} {p : List Piece} {s : Text}
      → c ≢ b'/'
      → Matches p s
      → Matches (one_of_segment ∷ p) (c ∷ s)
  segment_leave : {p : List Piece} {s : Text} → Matches p s → Matches (segment ∷ p) s
  segment_take :
      {c : ℕ} {p : List Piece} {s : Text}
      → c ≢ b'/'
      → Matches (segment ∷ p) s
      → Matches (segment ∷ p) (c ∷ s)
  all_leave : {p : List Piece} {s : Text} → Matches p s → Matches (all ∷ p) s
  all_take :
      {c : ℕ} {p : List Piece} {s : Text}
      → c ≢ newline
      → Matches (all ∷ p) s
      → Matches (all ∷ p) (c ∷ s)
  no_directory : {p : List Piece} {s : Text} → Matches p s → Matches (directories ∷ p) s
  some_directory :
      {p : List Piece} {s : Text} → Matches (all ∷ char b'/' ∷ p) s → Matches (directories ∷ p) s

abbrev pub cons_piece : Piece → Option (List Piece) → Option (List Piece)
cons_piece p none = none
cons_piece p (some ps) = some (p ∷ ps)

-- How a pattern is read, from the left; `none` for a pattern that ends in an escape.
unfoldable pub pieces : Text → Option (List Piece)
pieces [] = some []
pieces (c ∷ []) =
    if c == b'\\'
    then none
    else some ((if c == b'*' then segment else if c == b'?' then one_of_segment else char c) ∷ [])
pieces (c ∷ d ∷ []) =
    let next = pieces (d ∷ []) in
    if c == b'\\'
    then some (char d ∷ [])
    else if c == b'*'
    then if d == b'*' then some (all ∷ []) else cons_piece segment next
    else if c == b'?'
    then cons_piece one_of_segment next
    else cons_piece (char c) next
pieces (c ∷ d ∷ e ∷ rest) =
    let next = pieces (d ∷ e ∷ rest) in
    let second = pieces (e ∷ rest) in
    let third = pieces rest in
    if c == b'\\'
    then cons_piece (char d) second
    else if c == b'*'
    then if d == b'*'
      then if e == b'/' then cons_piece directories third else cons_piece all second
      else cons_piece segment next
    else if c == b'?'
    then cons_piece one_of_segment next
    else cons_piece (char c) next
