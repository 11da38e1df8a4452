-- ===== src/Policy/Pattern.antt =====
-- crates/jux-core/src/policy/match_pattern.rs: literal, regex and wildcard patterns.
-- The `regex` crate is a parameter.
use jux.Base.{
  ℕ, Bool, Option, none, some, Text, codes, text_eq, [], ◌∷◌, ◌++◌, ◌==◌, if◌then◌else◌, Result, ok,
  err, ◌>>=◌, map_err,
}

-- What the code calls of the `regex` crate: `Regex::new` (its error as displayed text),
-- `Regex::is_match` and `regex::escape`.
pub record RegexCrate : Type 1 where
  pub Regex : Type 0
  pub new : Text → Result Text Regex
  pub is_match : Regex → Text → Bool
  pub escape : Text → Text

pub data MatchPatternKind : Type 0 where
  literal wildcard regex : MatchPatternKind

pub record MatchPattern : Type 0 where
  pub kind : MatchPatternKind
  pub value : Text

abbrev pub trailing_escape : Text
trailing_escape = codes "match wildcard pattern cannot end with an escape"

module _ (crate : RegexCrate) where
  open crate use {new, is_match, escape}

  unfoldable pub push_escaped_char : Text → Option ℕ → Result Text Text
  push_escaped_char out none = err trailing_escape
  push_escaped_char out (some c) = ok (out ++ escape (c ∷ []))

  -- The `while let` loop: the text built so far, and the characters that are left.
  unfoldable pub translate : Text → Text → Result Text Text
  translate out [] = ok out
  translate out (c ∷ []) =
      if c == b'*'
      then ok (out ++ codes "[^/]*")
      else if c == b'?'
      then ok (out ++ codes "[^/]")
      else if c == b'\\'
      then push_escaped_char out none
      else ok (out ++ escape (c ∷ []))
  translate out (c ∷ d ∷ []) =
      let segment = translate (out ++ codes "[^/]*") (d ∷ []) in
      let one = translate (out ++ codes "[^/]") (d ∷ []) in
      let plain = translate (out ++ escape (c ∷ [])) (d ∷ []) in
      if c == b'*'
      then if d == b'*' then ok (out ++ codes ".*") else segment
      else if c == b'?'
      then one
      else if c == b'\\'
      then push_escaped_char out (some d)
      else plain
  translate out (c ∷ d ∷ e ∷ rest) =
      let segments = translate (out ++ codes "(?:.*/)?") rest in
      let all = translate (out ++ codes ".*") (e ∷ rest) in
      let segment = translate (out ++ codes "[^/]*") (d ∷ e ∷ rest) in
      let one = translate (out ++ codes "[^/]") (d ∷ e ∷ rest) in
      let escaped = push_escaped_char out (some d) >>= λ r. translate r (e ∷ rest) in
      let plain = translate (out ++ escape (c ∷ [])) (d ∷ e ∷ rest) in
      if c == b'*'
      then if d == b'*' then if e == b'/' then segments else all else segment
      else if c == b'?'
      then one
      else if c == b'\\'
      then escaped
      else plain

  unfoldable pub wildcard_to_regex : Text → Result Text Text
  wildcard_to_regex pattern = do out ← translate (codes "^") pattern; ok (out ++ codes "$")

  unfoldable pub wildcard_matches : Text → Text → Result Text Bool
  wildcard_matches pattern input = do
    out ← wildcard_to_regex pattern
    map_err (λ error. codes "invalid generated match wildcard pattern: " ++ error)
        (new out >>= λ compiled. ok (is_match compiled input))

  unfoldable pub regex_matches : Text → Text → Result Text Bool
  regex_matches pattern input =
      map_err (λ error. codes "invalid match regex pattern: " ++ error)
        (new (codes "^(?:" ++ pattern ++ codes ")$") >>= λ compiled. ok (is_match compiled input))

  abbrev pub matches_kind : MatchPatternKind → Text → Text → Result Text Bool
  matches_kind MatchPatternKind.literal value input = ok (text_eq value input)
  matches_kind MatchPatternKind.wildcard value input = wildcard_matches value input
  matches_kind MatchPatternKind.regex value input = regex_matches value input

  -- `MatchPattern::matches`
  unfoldable pub matches : MatchPattern → Text → Result Text Bool
  matches pattern input = matches_kind pattern.kind pattern.value input
