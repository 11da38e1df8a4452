-- ===== src/Policy/Wildcard.antt =====
-- What `wildcard_matches` of crates/jux-core/src/policy/match_pattern.rs answers, given what the
-- `regex` crate documents.
use jux.Base.{
  ◌≡◌, ◌↔◌, refl, true, false, Bool, Text, codes, Option, none, some, List, ◌++◌, Result, ok, err,
  ◌>>=◌, map_err,
}
use jux.Policy.Language.{Piece, Matches, pieces}
use jux.Policy.Pattern.{RegexCrate, trailing_escape, wildcard_to_regex, wildcard_matches}
use jux.Policy.Translation.{regex_of_pieces, appended, translate-pieces}

-- The documented meaning of the regexes that a wildcard becomes: `Regex::new` accepts an anchored
-- row of them, and `is_match` accepts the strings that can be cut into one part for each.
pub record RegexLaws (crate : RegexCrate) : Type 0 where
  pub meaning :
      (ps : List Piece) (s : Text)
      → (r : crate.Regex) × (crate.new (codes "^" ++ regex_of_pieces crate ps ++ codes "$") ≡ ok r)
        × ((crate.is_match r s ≡ true) ↔ Matches ps s)

-- The answer to a question about `G`: an error only if the pattern cannot be read.
abbrev pub Answers : Type 0 → Result Text Bool → Type 0
Answers G (ok true) = G
Answers G (ok false) = ¬ G
Answers G (err e) = ⊥

abbrev pub AnswersPieces : Option (List Piece) → Text → Result Text Bool → Type 0
AnswersPieces none s r = r ≡ err trailing_escape
AnswersPieces (some ps) s r = Answers (Matches ps s) r

Answers-iff : {G : Type 0} (r : Result Text Bool) → Answers G r → (r ≡ ok true) ↔ G
Answers-iff (ok true) h = (λ _. h, λ _. refl)
Answers-iff (ok false) h = (λ e. cc, λ g. absurd (h g))
Answers-iff (err e) h = absurd h

module _ (crate : RegexCrate) (laws : RegexLaws crate) where
  Answers-ok : {G : Type 0} (b : Bool) → (b ≡ true) ↔ G → Answers G (ok b)
  Answers-ok true e = e.0 refl
  Answers-ok false e = λ g. cc (e.1 g)

  accepted :
      (ps : List Piece) (s : Text) (f : Text → Text)
      → Answers (Matches ps s) (
          map_err f (
            crate.new (codes "^" ++ regex_of_pieces crate ps ++ codes "$") >>= λ compiled.
            ok (crate.is_match compiled s)))
  accepted ps s f = let (r, built, match) = laws.meaning ps s in rw built (Answers-ok _ match)

  -- Once the pattern is read: the anchored regex is built, and asked.
  answered :
      (o : Option (List Piece)) (s : Text) (f : Text → Text)
      → AnswersPieces o s (
          (appended crate (codes "^") o >>= λ out. ok (out ++ codes "$")) >>= λ regex.
          map_err f (crate.new regex >>= λ compiled. ok (crate.is_match compiled s)))
  answered none s f = refl
  answered (some ps) s f = accepted ps s f

  -- With a regex engine that keeps the laws, a wildcard pattern gives an error exactly if it ends
  -- in an escape; otherwise it gives an answer, and that is whether the text belongs to the
  -- pattern's language.
  pub wildcard_matches-Answers :
      (p s : Text) → AnswersPieces (pieces p) s (wildcard_matches crate p s)
  unfolding wildcard_matches wildcard_to_regex
  wildcard_matches-Answers p s = rw translate-pieces (answered (pieces p) s _)

  pub wildcard_matches_iff :
      (p s : Text) {ps : List Piece}
      → pieces p ≡ some ps
      → (wildcard_matches crate p s ≡ ok true) ↔ Matches ps s
  wildcard_matches_iff p s {ps} e =
      Answers-iff (wildcard_matches crate p s) (rw e at (wildcard_matches-Answers p s))
