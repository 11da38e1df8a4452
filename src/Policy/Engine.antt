-- ===== src/Policy/Engine.antt =====
-- A small regex engine for the regexes that wildcards become, in the place of the `regex` crate.
use jux.Base.{
  ℕ, zero, suc, ◌≡◌, refl, ap, Bool, true, false, not, ◌&&◌, ◌||◌, Text, codes, Option, none, some,
  List, [], ◌∷◌, ◌++◌, ◌==◌, ok, if◌then◌else◌, is_empty, get_elem?, arith, Bool-cases, inl, inr,
}
use jux.Policy.Language.{
  Piece, char, one_of_segment, segment, all, directories, newline, Matches, finish, same, one,
  segment_leave, segment_take, all_leave, all_take, no_directory, some_directory,
}
use jux.Policy.Pattern.{RegexCrate}
use jux.Policy.Translation.{regex_of_pieces}
use jux.Policy.Wildcard.{RegexLaws}

abbrev on_head : (ℕ → Bool) → (Text → Bool) → Text → Bool
on_head test next [] = false
on_head test next (c ∷ s) = test c && next s

abbrev repeat : (ℕ → Bool) → (Text → Bool) → Text → Bool
repeat test next [] = next []
repeat test next (c ∷ s) = next (c ∷ s) || (test c && repeat test next s)

abbrev in_segment : ℕ → Bool
in_segment c = not (c == b'/')

abbrev in_line : ℕ → Bool
in_line c = not (c == newline)

abbrev is_slash : ℕ → Bool
is_slash c = c == b'/'

unfoldable pub accepts : List Piece → Text → Bool
accepts [] s = is_empty s
accepts (char c ∷ p) s = on_head (λ d. d == c) (accepts p) s
accepts (one_of_segment ∷ p) s = on_head in_segment (accepts p) s
accepts (segment ∷ p) s = repeat in_segment (accepts p) s
accepts (all ∷ p) s = repeat in_line (accepts p) s
accepts (directories ∷ p) s = accepts p s || repeat in_line (on_head is_slash (accepts p)) s

accepts-segment :
    (p : List Piece) (next : Text → Bool)
    → ((s : Text) → next s ≡ true → Matches p s)
    → (s : Text) → repeat in_segment next s ≡ true
    → Matches (segment ∷ p) s
accepts-segment p next sound [] h = segment_leave (sound [] h)
accepts-segment p next sound (c ∷ s) h = elim (Bool-cases (next (c ∷ s))) [
  | inl now ↦ segment_leave (sound (c ∷ s) now)
  | inr later ↦ segment_take (ground arith) (accepts-segment p next sound s (ground (arith, later)))
]

accepts-all :
    (p : List Piece) (next : Text → Bool)
    → ((s : Text) → next s ≡ true → Matches p s)
    → (s : Text) → repeat in_line next s ≡ true
    → Matches (all ∷ p) s
accepts-all p next sound [] h = all_leave (sound [] h)
accepts-all p next sound (c ∷ s) h = elim (Bool-cases (next (c ∷ s))) [
  | inl now ↦ all_leave (sound (c ∷ s) now)
  | inr later ↦ all_take (ground arith) (accepts-all p next sound s (ground (arith, later)))
]

accepts-char :
    (k : ℕ) (p : List Piece) (next : Text → Bool)
    → ((s : Text) → next s ≡ true → Matches p s)
    → (s : Text) → on_head (λ d. d == k) next s ≡ true
    → Matches (char k ∷ p) s
accepts-char k p next sound [] h = cc
accepts-char k p next sound (c ∷ s) h =
    let e : c ≡ k = ground arith in rw e (same (sound s (ground arith)))

accepts→Matches : (p : List Piece) (s : Text) → accepts p s ≡ true → Matches p s
unfolding accepts
accepts→Matches [] [] h = finish
accepts→Matches [] (c ∷ s) h = cc
accepts→Matches (char k ∷ p) s h = accepts-char k p (accepts p) (accepts→Matches p) s h
accepts→Matches (one_of_segment ∷ p) [] h = cc
accepts→Matches (one_of_segment ∷ p) (c ∷ s) h =
    one (ground arith) (accepts→Matches p s (ground arith))
accepts→Matches (segment ∷ p) s h = accepts-segment p (accepts p) (accepts→Matches p) s h
accepts→Matches (all ∷ p) s h = accepts-all p (accepts p) (accepts→Matches p) s h
accepts→Matches (directories ∷ p) s h = elim (Bool-cases (accepts p s)) [
  | inl none_there ↦ no_directory (accepts→Matches p s none_there)
  | inr some_there ↦ some_directory (
      accepts-all (char b'/' ∷ p) (on_head is_slash (accepts p))
        (accepts-char b'/' p (accepts p) (accepts→Matches p)) s (ground (arith, some_there)))
]

repeat-now :
    (test : ℕ → Bool) (next : Text → Bool) (s : Text) → next s ≡ true → repeat test next s ≡ true
repeat-now test next [] h = h
repeat-now test next (c ∷ s) h = rw h

Matches→accepts : {p : List Piece} {s : Text} → Matches p s → accepts p s ≡ true
unfolding accepts
Matches→accepts finish = refl
Matches→accepts (same {c} {p} {s} d) = ground (arith, Matches→accepts d)
Matches→accepts (one {c} {p} {s} n d) = ground (arith, Matches→accepts d)
Matches→accepts (segment_leave {p} {s} d) = repeat-now in_segment (accepts p) s (Matches→accepts d)
Matches→accepts (segment_take {c} {p} {s} n d) = ground (arith, Matches→accepts d)
Matches→accepts (all_leave {p} {s} d) = repeat-now in_line (accepts p) s (Matches→accepts d)
Matches→accepts (all_take {c} {p} {s} n d) = ground (arith, Matches→accepts d)
Matches→accepts (no_directory d) = rw (Matches→accepts d)
Matches→accepts (some_directory {p} {s} d) = ground (arith, Matches→accepts d)

abbrev prepend : Piece → Option (List Piece) → Option (List Piece)
prepend p none = none
prepend p (some ps) = some (p ∷ ps)

abbrev literal_then : Text → Option (List Piece) → Option (List Piece)
literal_then [] rest = none
literal_then (c ∷ t) rest = prepend (char c) rest

abbrev is_star : Option ℕ → Bool
is_star none = false
is_star (some c) = c == b'*'

-- Reads a row of the regexes; the first argument counts characters to pass over.
unfoldable pub parse : ℕ → Text → Option (List Piece)
parse skip [] = none
parse (suc skip) (c ∷ t) = parse skip t
parse zero (c ∷ t) =
    let escaped = literal_then t (parse 1 t) in
    let dots = prepend all (parse 1 t) in
    let group = prepend directories (parse 7 t) in
    let star = prepend segment (parse 4 t) in
    let single = prepend one_of_segment (parse 3 t) in
    if c == b'$'
    then some []
    else if c == b'\\'
    then escaped
    else if c == b'.'
    then dots
    else if c == b'('
    then group
    else if is_star (get_elem? t 3)
    then star
    else single

abbrev escape_text : Text → Text
escape_text [] = []
escape_text (c ∷ s) = b'\\' ∷ c ∷ escape_text s

abbrev asked : Option (List Piece) → Text → Bool
asked none s = false
asked (some ps) s = accepts ps s

abbrev match_text : Text → Text → Bool
match_text [] s = false
match_text (c ∷ t) s = asked (parse 0 t) s

abbrev pub engine : RegexCrate
engine = record { Regex = Text; new = λ t. ok t; is_match = match_text; escape = escape_text }

parse-regex_of_pieces :
    (ps : List Piece) → parse 0 (regex_of_pieces engine ps ++ codes "$") ≡ some ps
unfolding parse
parse-regex_of_pieces [] = refl
parse-regex_of_pieces (char c ∷ ps) = ap (prepend (char c)) (parse-regex_of_pieces ps)
parse-regex_of_pieces (one_of_segment ∷ []) = refl
parse-regex_of_pieces (one_of_segment ∷ char c ∷ ps) =
    ap (prepend one_of_segment) (parse-regex_of_pieces (char c ∷ ps))
parse-regex_of_pieces (one_of_segment ∷ one_of_segment ∷ ps) =
    ap (prepend one_of_segment) (parse-regex_of_pieces (one_of_segment ∷ ps))
parse-regex_of_pieces (one_of_segment ∷ segment ∷ ps) =
    ap (prepend one_of_segment) (parse-regex_of_pieces (segment ∷ ps))
parse-regex_of_pieces (one_of_segment ∷ all ∷ ps) =
    ap (prepend one_of_segment) (parse-regex_of_pieces (all ∷ ps))
parse-regex_of_pieces (one_of_segment ∷ directories ∷ ps) =
    ap (prepend one_of_segment) (parse-regex_of_pieces (directories ∷ ps))
parse-regex_of_pieces (segment ∷ ps) = ap (prepend segment) (parse-regex_of_pieces ps)
parse-regex_of_pieces (all ∷ ps) = ap (prepend all) (parse-regex_of_pieces ps)
parse-regex_of_pieces (directories ∷ ps) = ap (prepend directories) (parse-regex_of_pieces ps)

pub engine_laws : RegexLaws engine
engine_laws = record {
  meaning = λ ps s. (
    codes "^" ++ regex_of_pieces engine ps ++ codes "$",
    refl,
    rw parse-regex_of_pieces (accepts→Matches ps s, λ d. Matches→accepts d),
  );
}
