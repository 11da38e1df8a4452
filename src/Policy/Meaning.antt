-- ===== src/Policy/Meaning.antt =====
-- The wildcards that the header of crates/jux-core/src/policy/match_pattern.rs describes.
use jux.Base.{
  ℕ, ◌+◌, ◌≡◌, ◌≢◌, ◌↔◌, refl, ap, err, Result, ◌⊎◌, true, false, Bool, Text, codes, Option, none,
  some, List, [], ◌∷◌, ◌==◌, ok, arith, if◌then◌else◌, ◌&&◌, not, map, All, inl, inr, ◌∙◌,
  Option-cases,
}
use jux.Policy.Language.{
  Piece, char, one_of_segment, segment, all, directories, Matches, finish, same, one, segment_leave,
  segment_take, all_leave, all_take, no_directory, some_directory, pieces, newline, cons_piece,
}
use jux.Policy.Pattern.{RegexCrate, wildcard_matches}
use jux.Policy.Wildcard.{RegexLaws, Answers, wildcard_matches-Answers, wildcard_matches_iff}

-- Every character escaped.
pub escape_all : Text → Text
escape_all [] = []
escape_all (c ∷ s) = b'\\' ∷ c ∷ escape_all s

pieces-escape_all : (s : Text) → pieces (escape_all s) ≡ some (map char s)
unfolding pieces escape_all
pieces-escape_all [] = refl
pieces-escape_all (c ∷ []) = refl
pieces-escape_all (c ∷ d ∷ s) = rw (pieces-escape_all (d ∷ s)) refl

Matches-char_self : (s : Text) → Matches (map char s) s
Matches-char_self [] = finish
Matches-char_self (c ∷ s) = same (Matches-char_self s)

Matches-char_only : (s : Text) {t : Text} → Matches (map char s) t → t ≡ s
Matches-char_only [] finish = refl
Matches-char_only (c ∷ s) (same d) = ap (◌∷◌ c) (Matches-char_only s d)

pieces-all : pieces (codes "**") ≡ some (all ∷ [])
unfolding pieces
pieces-all = refl

abbrev pub HasNoNewline : Text → Type 0
HasNoNewline s = All (λ c. c ≢ newline) s

Matches-all : (s : Text) → HasNoNewline s → Matches (all ∷ []) s
Matches-all [] h = all_leave finish
Matches-all (c ∷ s) h = all_take h.0 (Matches-all s h.1)

Matches-all_only : {s : Text} → Matches (all ∷ []) s → HasNoNewline s
Matches-all_only (all_leave finish) = tt
Matches-all_only (all_take h d) = (h, Matches-all_only d)

-- The number of `/` in a text.
pub separators : Text → ℕ
separators [] = 0
separators (c ∷ s) = (if c == b'/' then 1 else 0) + separators s

-- No escape and no `**`.
unfoldable pub stays_in_segments : Text → Bool
stays_in_segments [] = true
stays_in_segments (c ∷ []) = not (c == b'\\')
stays_in_segments (c ∷ d ∷ p) =
    not (c == b'\\') && not (c == b'*' && d == b'*') && stays_in_segments (d ∷ p)

abbrev IsFlat : List Piece → Type 0
IsFlat [] = Unit
IsFlat (all ∷ ps) = ⊥
IsFlat (directories ∷ ps) = ⊥
IsFlat (_ ∷ ps) = IsFlat ps

abbrev piece_separators : List Piece → ℕ
piece_separators [] = 0
piece_separators (char c ∷ ps) = (if c == b'/' then 1 else 0) + piece_separators ps
piece_separators (_ ∷ ps) = piece_separators ps

abbrev IsFlatWith : ℕ → Option (List Piece) → Type 0
IsFlatWith n none = ⊥
IsFlatWith n (some ps) = IsFlat ps × (piece_separators ps ≡ n)

abbrev simple_piece : ℕ → Piece
simple_piece c = if c == b'*' then segment else if c == b'?' then one_of_segment else char c

IsFlatWith-cons :
    (c n : ℕ) (o : Option (List Piece))
    → IsFlatWith n o
    → IsFlatWith ((if c == b'/' then 1 else 0) + n) (cons_piece (simple_piece c) o)
IsFlatWith-cons c n (some ps) (h, e) = ground arith
IsFlatWith-cons c n none h = absurd h

cons_piece_if :
    (c : ℕ) (o : Option (List Piece))
    → (if c == b'*'
        then cons_piece segment o
        else if c == b'?'
        then cons_piece one_of_segment o
        else cons_piece (char c) o)
      ≡ cons_piece (simple_piece c) o
cons_piece_if c o = ground arith

pieces-cons :
    (c d : ℕ) (p : Text)
    → (c == b'\\') ≡ false
    → (c == b'*' && d == b'*') ≡ false
    → pieces (c ∷ d ∷ p) ≡ cons_piece (simple_piece c) (pieces (d ∷ p))
unfolding pieces
pieces-cons c d [] h k = rw h (ground (arith, cons_piece_if c (pieces (d ∷ []))))
pieces-cons c d (e ∷ p) h k = rw h (ground (arith, cons_piece_if c (pieces (d ∷ e ∷ p))))

pieces-IsFlatWith : (p : Text) → stays_in_segments p ≡ true → IsFlatWith (separators p) (pieces p)
unfolding separators stays_in_segments
pieces-IsFlatWith [] h = unfold pieces in (tt, refl)
pieces-IsFlatWith (c ∷ []) h = unfold pieces in ground arith
pieces-IsFlatWith (c ∷ d ∷ p) h =
    let e = pieces-cons c d p (ground arith) (ground arith) in
    rw e (IsFlatWith-cons c _ _ (pieces-IsFlatWith (d ∷ p) (ground arith)))

separators-Matches :
    {ps : List Piece} {s : Text} → Matches ps s → IsFlat ps → separators s ≡ piece_separators ps
unfolding separators
separators-Matches finish h = refl
separators-Matches (same d) h = ground (arith, separators-Matches d h)
separators-Matches (one n d) h = ground (arith, separators-Matches d h)
separators-Matches (segment_leave d) h = separators-Matches d h
separators-Matches (segment_take n d) h = ground (arith, separators-Matches d h)
separators-Matches (all_leave d) h = absurd h
separators-Matches (all_take n d) h = absurd h
separators-Matches (no_directory d) h = absurd h
separators-Matches (some_directory d) h = absurd h

module _ (crate : RegexCrate) (laws : RegexLaws crate) where
  -- With a regex engine that keeps the laws, a text with every character escaped is a pattern that
  -- matches that text and no other.
  pub wildcard_matches-escape_all :
      (s t : Text) → (wildcard_matches crate (escape_all s) t ≡ ok true) ↔ (t ≡ s)
  wildcard_matches-escape_all s t =
      let (to, from) = wildcard_matches_iff crate laws (escape_all s) t (pieces-escape_all s) in
      (λ m. Matches-char_only s (to m), λ e. from (rw e (Matches-char_self s)))

  -- With a regex engine that keeps the laws, the pattern `**` matches a text exactly if there is
  -- no newline in it.
  pub wildcard_matches-all :
      (s : Text) → (wildcard_matches crate (codes "**") s ≡ ok true) ↔ HasNoNewline s
  wildcard_matches-all s =
      let (to, from) = wildcard_matches_iff crate laws (codes "**") s pieces-all in
      (λ m. Matches-all_only (to m), λ h. from (Matches-all s h))

  -- With a regex engine that keeps the laws, a pattern without `**` and escapes matches only texts
  -- with as many `/` as it has itself: neither `*` nor `?` crosses a segment boundary.
  pub separators-wildcard_matches :
      (p s : Text)
      → stays_in_segments p ≡ true
      → wildcard_matches crate p s ≡ ok true
      → separators s ≡ separators p
  separators-wildcard_matches p s flat m = elim (Option-cases (pieces p)) [
    | inl e ↦ absurd (rw e at (pieces-IsFlatWith p flat))
    | inr (ps, e) ↦
        let d = (wildcard_matches_iff crate laws p s e).0 m in
        let (f, n) = rw e at (pieces-IsFlatWith p flat) in separators-Matches d f ∙ n
  ]

  -- The pattern `**` always has an answer.
  pub wildcard_matches-all_total :
      (s : Text)
      → ((wildcard_matches crate (codes "**") s ≡ ok true) × HasNoNewline s)
        ⊎ ((wildcard_matches crate (codes "**") s ≡ ok false) × ¬ HasNoNewline s)
  wildcard_matches-all_total s =
      split (wildcard_matches crate (codes "**") s)
        (rw pieces-all at (wildcard_matches-Answers crate laws (codes "**") s))
    where
      split :
          (r : Result Text Bool)
          → Answers (Matches (all ∷ []) s) r
          → ((r ≡ ok true) × HasNoNewline s) ⊎ ((r ≡ ok false) × ¬ HasNoNewline s)
      split (ok true) d = inl (refl, Matches-all_only d)
      split (ok false) n = inr (refl, λ h. n (Matches-all s h))
      split (err e) d = absurd d
