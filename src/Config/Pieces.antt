-- ===== src/Config/Pieces.antt =====
-- crates/jux-core/src/config/mod.rs: a JSONC text as pieces, and what is left of each.
use jux.Base.{
  ℕ, false, ◌==◌, Text, List, [], ◌∷◌, ◌++◌, All, Result, ok, err, ◌≡◌, ◌≢◌, refl, sym, ap, ◌∙◌,
  append_assoc, arith,
}
use jux.Config.Jsonc.{
  outside, line, quoted, block, quote, backslash, slash, star, line_end, put_before, strip_from,
  strip_jsonc_comments,
}

-- A piece of a JSONC text: a character outside of strings and comments, a string, a comment to the
-- end of its line, and a comment between `/*` and `*/`.
pub data Piece : Type 0 where
  plain : ℕ → Piece
  quoted_text line_comment block_comment : Text → Piece

abbrev pub IsPiece : Piece → Type 0
IsPiece (plain c) = (c ≢ quote) × (c ≢ slash)
IsPiece (quoted_text text) = All (λ c. (c ≢ quote) × (c ≢ backslash)) text
IsPiece (line_comment text) = All (λ c. c ≢ line_end) text
IsPiece (block_comment text) = All (λ c. c ≢ star) text

abbrev pub source : Piece → Text
source (plain c) = c ∷ []
source (quoted_text text) = quote ∷ text ++ quote ∷ []
source (line_comment text) = slash ∷ slash ∷ text ++ line_end ∷ []
source (block_comment text) = slash ∷ star ∷ text ++ star ∷ slash ∷ []

abbrev pub kept : Piece → Text
kept (plain c) = c ∷ []
kept (quoted_text text) = quote ∷ text ++ quote ∷ []
kept (line_comment text) = line_end ∷ []
kept (block_comment text) = []

abbrev pub sources : List Piece → Text
sources [] = []
sources (piece ∷ pieces) = source piece ++ sources pieces

abbrev pub kept_of : List Piece → Text
kept_of [] = []
kept_of (piece ∷ pieces) = kept piece ++ kept_of pieces

put_before-append :
    (a b : Text) (r : Result Text Text) → put_before a (put_before b r) ≡ put_before (a ++ b) r
put_before-append a b (ok rest) = ap ok (sym (append_assoc a b rest))
put_before-append a b (err e) = refl

put_before-none : (r : Result Text Text) → put_before [] r ≡ r
put_before-none (ok rest) = refl
put_before-none (err e) = refl

strip_from-quoted :
    (text rest : Text)
    → All (λ c. (c ≢ quote) × (c ≢ backslash)) text
    → strip_from (quoted false) (text ++ quote ∷ rest)
      ≡ put_before (text ++ quote ∷ []) (strip_from outside rest)
unfolding strip_from
strip_from-quoted [] rest h = refl
strip_from-quoted (c ∷ text) rest h =
    let no_end : (c == quote) ≡ false = ground arith in
    let no_escape : (c == backslash) ≡ false = ground arith in
    rw (no_escape, no_end, strip_from-quoted text rest h.1)
      (put_before-append (c ∷ []) (text ++ quote ∷ []) (strip_from outside rest))

strip_from-line :
    (text rest : Text)
    → All (λ c. c ≢ line_end) text
    → strip_from line (text ++ line_end ∷ rest)
      ≡ put_before (line_end ∷ []) (strip_from outside rest)
unfolding strip_from
strip_from-line [] rest h = refl
strip_from-line (c ∷ text) rest h =
    let no_end : (c == line_end) ≡ false = ground arith in
    rw no_end (put_before-none _ ∙ strip_from-line text rest h.1)

strip_from-block :
    (previous : ℕ) (text rest : Text)
    → previous ≢ star
    → All (λ c. c ≢ star) text
    → strip_from (block previous) (text ++ star ∷ slash ∷ rest) ≡ strip_from outside rest
unfolding strip_from
strip_from-block previous [] rest behind h =
    let no_end : (previous == star) ≡ false = ground arith in
    rw no_end (put_before-none _ ∙ put_before-none _)
strip_from-block previous (c ∷ text) rest behind h =
    let no_end : (previous == star) ≡ false = ground arith in
    rw no_end (put_before-none _ ∙ strip_from-block c text rest h.0 h.1)

strip_from-piece :
    (piece : Piece) (rest : Text)
    → IsPiece piece
    → strip_from outside (source piece ++ rest) ≡ put_before (kept piece) (strip_from outside rest)
unfolding strip_from
strip_from-piece (plain c) rest h =
    let no_string : (c == quote) ≡ false = ground arith in
    let no_comment : (c == slash) ≡ false = ground arith in rw (no_string, no_comment) refl
strip_from-piece (quoted_text text) rest h =
    ap (λ l. put_before (quote ∷ []) (strip_from (quoted false) l))
      (append_assoc text (quote ∷ []) rest)
    ∙ (ap (put_before (quote ∷ [])) (strip_from-quoted text rest h)
        ∙ put_before-append (quote ∷ []) (text ++ quote ∷ []) (strip_from outside rest))
strip_from-piece (line_comment text) rest h =
    put_before-none _
    ∙ (put_before-none _
        ∙ (ap (strip_from line) (append_assoc text (line_end ∷ []) rest)
            ∙ strip_from-line text rest h))
strip_from-piece (block_comment text) rest h =
    put_before-none _
    ∙ (put_before-none _
        ∙ (ap (strip_from (block 0)) (append_assoc text (star ∷ slash ∷ []) rest)
            ∙ (strip_from-block 0 text rest (ground arith) h ∙ sym (put_before-none _))))

-- A JSONC text of strings without quotes and backslashes inside, comments to the end of a line,
-- comments without a `*` inside, and other characters that are neither a quote nor a slash, is
-- stripped of its comments: each string and each other character stays, and the end of the line of
-- a comment does.
pub strip_jsonc_comments-pieces :
    (pieces : List Piece)
    → All IsPiece pieces
    → strip_jsonc_comments (sources pieces) ≡ ok (kept_of pieces)
unfolding strip_jsonc_comments strip_from
strip_jsonc_comments-pieces [] h = refl
strip_jsonc_comments-pieces (piece ∷ pieces) h =
    strip_from-piece piece (sources pieces) h.0
    ∙ ap (put_before (kept piece)) (strip_jsonc_comments-pieces pieces h.1)
