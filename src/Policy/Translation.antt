-- ===== src/Policy/Translation.antt =====
-- `wildcard_to_regex` of crates/jux-core/src/policy/match_pattern.rs writes a pattern's pieces as regexes, one after the other.
use jux.Base.{
  ◌≡◌, refl, ap, sym, Text, codes, Option, none, some, List, [], ◌∷◌, ◌++◌, Result, ok, err, arith,
  append_assoc, append-nil,
}
use jux.Policy.Language.{Piece, char, one_of_segment, segment, all, directories, pieces, cons_piece}
use jux.Policy.Pattern.{RegexCrate, trailing_escape, translate, push_escaped_char}

module _ (crate : RegexCrate) where
  abbrev pub regex_of_piece : Piece → Text
  regex_of_piece (char c) = crate.escape (c ∷ [])
  regex_of_piece one_of_segment = codes "[^/]"
  regex_of_piece segment = codes "[^/]*"
  regex_of_piece all = codes ".*"
  regex_of_piece directories = codes "(?:.*/)?"

  abbrev pub regex_of_pieces : List Piece → Text
  regex_of_pieces [] = []
  regex_of_pieces (p ∷ ps) = regex_of_piece p ++ regex_of_pieces ps

  abbrev pub appended : Text → Option (List Piece) → Result Text Text
  appended out none = err trailing_escape
  appended out (some ps) = ok (out ++ regex_of_pieces ps)

  appended-cons :
      (out : Text) (p : Piece) (o : Option (List Piece))
      → appended out (cons_piece p o) ≡ appended (out ++ regex_of_piece p) o
  appended-cons out p none = refl
  appended-cons out p (some ps) =
      ap ok (sym (append_assoc out (regex_of_piece p) (regex_of_pieces ps)))

  appended-last :
      (out : Text) (p : Piece) → appended out (some (p ∷ [])) ≡ ok (out ++ regex_of_piece p)
  appended-last out p = rw append-nil

  pub translate-pieces : (out p : Text) → translate crate out p ≡ appended out (pieces p)
  unfolding translate pieces push_escaped_char
  translate-pieces out [] = ground (arith, append-nil out)
  translate-pieces out (c ∷ []) = ground (
    arith,
    appended-last out segment,
    appended-last out one_of_segment,
    appended-last out (char c),
  )
  translate-pieces out (c ∷ d ∷ []) =
      let next = pieces (d ∷ []) in
      ground (
        arith,
        appended-last out all,
        appended-last out (char d),
        appended-cons out segment next,
        appended-cons out one_of_segment next,
        appended-cons out (char c) next,
        translate-pieces (out ++ codes "[^/]*") (d ∷ []),
        translate-pieces (out ++ codes "[^/]") (d ∷ []),
        translate-pieces (out ++ crate.escape (c ∷ [])) (d ∷ []),
      )
  translate-pieces out (c ∷ d ∷ e ∷ rest) =
      let next = pieces (d ∷ e ∷ rest) in
      let second = pieces (e ∷ rest) in
      ground (
        arith,
        appended-cons out (char d) second,
        appended-cons out all second,
        appended-cons out directories (pieces rest),
        appended-cons out segment next,
        appended-cons out one_of_segment next,
        appended-cons out (char c) next,
        translate-pieces (out ++ codes "(?:.*/)?") rest,
        translate-pieces (out ++ codes ".*") (e ∷ rest),
        translate-pieces (out ++ crate.escape (d ∷ [])) (e ∷ rest),
        translate-pieces (out ++ codes "[^/]*") (d ∷ e ∷ rest),
        translate-pieces (out ++ codes "[^/]") (d ∷ e ∷ rest),
        translate-pieces (out ++ crate.escape (c ∷ [])) (d ∷ e ∷ rest),
      )
