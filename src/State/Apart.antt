-- ===== src/State/Apart.antt =====
-- The ids below one session are not below another (crates/jux-core/src/state/store.rs asks for them
-- by `like`).
use jux.Base.{
  ℕ, ◌<◌, ◌^◌, ◌≡◌, ◌≢◌, refl, ap, ap₂, sym, ◌∙◌, true, false, Text, codes, [], ◌∷◌, ◌++◌,
  append_assoc, length, ◌==◌, some, All, arith, Bool-cases, inl, inr,
}
use mathlib.Core.List.{append_cancel_left}
use jux.State.Decimal.{padded, length-fixed, padded-fixed, parse_u64}
use jux.State.Digits.{IsDigit, padded-IsDigit, parse_u64-padded}
use jux.State.Ids.{WorkspaceId, new_session_id, dash}
use jux.State.Sql.{like, children_of}

-- A text has no wildcard of `like`.
abbrev pub IsPlain : Text → Type 0
IsPlain text = All (λ c. (c ≢ b'%') × (c ≢ b'_')) text

-- Two patterns with a common beginning match what their rests match.
like-rests :
    (p q r t : Text)
    → IsPlain p
    → like (p ++ q) t ≡ true
    → like (p ++ r) t ≡ true
    → (rest : Text) × (like q rest ≡ true) × (like r rest ≡ true)
unfolding like
like-rests [] q r t plain h k = (t, h, k)
like-rests (c ∷ p) q r [] plain h k =
    let percent : (c == b'%') ≡ false = ground (arith, plain.0) in absurd (ground (arith, percent))
like-rests (c ∷ p) q r (d ∷ t) plain h k =
    let percent : (c == b'%') ≡ false = ground (arith, plain.0) in
    like-rests p q r t plain.1 (ground (arith, percent, h)) (ground (arith, percent, k))

-- Two rows of as many digits, of which patterns begin that match one text, are the same.
like-digits :
    (p q s t : Text)
    → All IsDigit p
    → All IsDigit q
    → length p ≡ length q
    → like (p ++ s) t ≡ true
    → like (q ++ s) t ≡ true
    → p ≡ q
unfolding like
like-digits [] [] s t d e l h k = refl
like-digits [] (c ∷ q) s t d e l h k = absurd (omega arith)
like-digits (c ∷ p) [] s t d e l h k = absurd (omega arith)
like-digits (b ∷ p) (c ∷ q) s [] d e l h k =
    let percent : (b == b'%') ≡ false = ground (arith, d.0) in absurd (ground (arith, percent))
like-digits (b ∷ p) (c ∷ q) s (x ∷ t) d e l h k =
    let percent : (b == b'%') ≡ false = ground (arith, d.0) in
    let percent' : (c == b'%') ≡ false = ground (arith, e.0) in
    let same : b ≡ c = ground (arith, d.0, e.0, h, k) in
    ap₂ (λ u v. u ∷ v) same
      (like-digits p q s t d.1 e.1 (omega arith) (ground (arith, percent, h))
        (ground (arith, percent', k)))

length-padded : (w n : ℕ) → 0 < w → n < 10 ^ w → length (padded w n) ≡ w
length-padded w n p h = rw (padded-fixed w n p h) (length-fixed w n)

padded-inj : (m n : ℕ) → m < 10 ^ 4 → n < 10 ^ 4 → padded 4 m ≡ padded 4 n → m ≡ n
padded-inj m n h k e =
    let at_m = parse_u64-padded 4 m (omega arith) h (omega arith) in
    let at_n = parse_u64-padded 4 n (omega arith) k (omega arith) in
    let same : some m ≡ some n = sym at_m ∙ (ap parse_u64 e ∙ at_n) in cc

-- What is below one session of a workspace is not below another.
pub like-other_session :
    (w : WorkspaceId) (m n : ℕ) (id : Text)
    → IsPlain w
    → m < 10 ^ 4
    → n < 10 ^ 4
    → n ≢ m
    → like (children_of (new_session_id w n)) id ≡ true
    → like (children_of (new_session_id w m)) id ≡ false
unfolding new_session_id
like-other_session w m n id plain h k apart below =
    elim (Bool-cases (like (children_of (new_session_id w m)) id)) [
      | inl both ↦
          let tail = codes "-%" in
          let (rest, at_n, at_m) =
            like-rests (w ++ dash ∷ []) (padded 4 n ++ tail) (padded 4 m ++ tail) id
              (plain_dash w plain)
              (rw (append_assoc w (dash ∷ []) (padded 4 n ++ tail))
                (rw (append_assoc w (dash ∷ padded 4 n) tail) at below))
              (rw (append_assoc w (dash ∷ []) (padded 4 m ++ tail))
                (rw (append_assoc w (dash ∷ padded 4 m) tail) at both)) in
          let same =
            like-digits (padded 4 n) (padded 4 m) tail rest (padded-IsDigit 4 n)
              (padded-IsDigit 4 m)
              (length-padded 4 n (omega arith) k ∙ sym (length-padded 4 m (omega arith) h)) at_n
              at_m in
          absurd (apart (padded-inj n m k h same))
      | inr other ↦ other
    ]
  where
    plain_dash : (u : Text) → IsPlain u → IsPlain (u ++ dash ∷ [])
    plain_dash [] p = ((ground arith, ground arith), tt)
    plain_dash (c ∷ u) p = (p.0, plain_dash u p.1)

-- Two sessions of a workspace have different ids.
pub new_session_id-ne_of :
    (w : WorkspaceId) (m n : ℕ)
    → m < 10 ^ 4
    → n < 10 ^ 4
    → n ≢ m
    → new_session_id w n ≢ new_session_id w m
unfolding new_session_id
new_session_id-ne_of w m n h k apart e =
    let behind = append_cancel_left (w ++ dash ∷ []) (padded 4 n) (padded 4 m) (
      append_assoc w (dash ∷ []) (padded 4 n)
      ∙ (e ∙ sym (append_assoc w (dash ∷ []) (padded 4 m)))) in
    absurd (apart (padded-inj n m k h behind))
