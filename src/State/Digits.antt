-- ===== src/State/Digits.antt =====
-- Decimal numbers in ids (crates/jux-core/src/state/ids.rs): reading them, and their order as texts.
use jux.Base.{
  ℕ, zero, suc, ◌+◌, ◌-◌, ◌*◌, ◌/◌, ◌%◌, ◌^◌, ◌<◌, ◌≡◌, refl, ap, Bool, true, false, not, ◌||◌,
  ◌&&◌, Text, some, [], ◌∷◌, ◌++◌, ltb, leb, ◌==◌, if◌then◌else◌, length, arith, Bool-cases, inl,
  inr, sym, ◌∙◌, All, ltb_iff, ==_refl, All-append,
}
use native.Mathlib.Nat.{pow-suc}
use jux.State.Decimal.{
  digits, zeros, padded, digit, digits_value, is_digit, in_u64, parse_u64, fixed, length-fixed,
  padded-fixed,
}

abbrev pub IsDigit : ℕ → Type 0
IsDigit c = is_digit c ≡ true

digit-IsDigit : (d : ℕ) → d < 10 → IsDigit (digit d)
digit-IsDigit d h = ground arith

zeros-IsDigit : (w : ℕ) → All IsDigit (zeros w)
zeros-IsDigit zero = tt
zeros-IsDigit (suc w) = (refl, zeros-IsDigit w)

digits-IsDigit : (fuel n : ℕ) → All IsDigit (digits fuel n)
unfolding digits
digits-IsDigit zero n = tt
digits-IsDigit (suc fuel) n = elim (Bool-cases (n / 10 == 0)) [
  | inl small ↦ rw small (digit-IsDigit (n % 10) (omega arith), tt)
  | inr large ↦ rw large (
      All-append IsDigit _ _ (digits-IsDigit fuel (n / 10))
        (digit-IsDigit (n % 10) (omega arith), tt))
]

-- A padded number is written with digits alone.
pub padded-IsDigit : (w n : ℕ) → All IsDigit (padded w n)
unfolding padded
padded-IsDigit w n = All-append IsDigit _ _ (zeros-IsDigit _) (digits-IsDigit (suc n) n)

digits_value-snoc :
    (v : ℕ) (t : Text) {u d : ℕ}
    → digits_value v t ≡ some u
    → d < 10
    → digits_value v (t ++ digit d ∷ []) ≡ some (u * 10 + d)
unfolding digits_value
digits_value-snoc v [] {u} {d} e h = ground arith
digits_value-snoc v (c ∷ t) {u} {d} e h =
    ground (arith, digits_value-snoc (v * 10 + (c - b'0')) t {u = u} {d = d})

digits_value-fixed : (w n : ℕ) → n < 10 ^ w → digits_value 0 (fixed w n) ≡ some n
unfolding fixed
digits_value-fixed zero n h = unfold digits_value in ground arith
digits_value-fixed (suc w) n h =
    digits_value-snoc 0 (fixed w (n / 10))
      (digits_value-fixed w (n / 10) (omega (arith, pow-suc 10 w))) (omega arith)
    ∙ ap some (omega arith)

in_u64-lt : (n : ℕ) → n < 2 ^ 64 → in_u64 (some n) ≡ some n
in_u64-lt n h = rw ((ltb_iff n (2 ^ 64)).1 h)

not_plus : (c : ℕ) → IsDigit c → (c == b'+') ≡ false
not_plus c h = ground arith

parse_u64-digits :
    (t : Text) {n : ℕ}
    → 0 < length t
    → All IsDigit t
    → digits_value 0 t ≡ some n
    → n < 2 ^ 64
    → parse_u64 t ≡ some n
unfolding parse_u64
parse_u64-digits [] p h e k = absurd (omega arith)
parse_u64-digits (c ∷ []) {n} p h e k = ap in_u64 e ∙ in_u64-lt n k
parse_u64-digits (c ∷ d ∷ t) {n} p h e k = rw (not_plus c h.0) (ap in_u64 e ∙ in_u64-lt n k)

-- A padded number that fits its width is read back.
pub parse_u64-padded : (w n : ℕ) → 0 < w → n < 10 ^ w → n < 2 ^ 64 → parse_u64 (padded w n) ≡ some n
parse_u64-padded w n p h k = rw (padded-fixed w n p h) (
    parse_u64-digits (fixed w n) (omega (arith, length-fixed w n))
      (rw (← padded-fixed w n p h) (padded-IsDigit w n)) (digits_value-fixed w n h) k)

-- Texts as SQLite orders them: byte by byte.
unfoldable pub text_leb : Text → Text → Bool
text_leb [] t = true
text_leb (c ∷ s) [] = false
text_leb (c ∷ s) (d ∷ t) = let rest = text_leb s t in if c == d then rest else ltb c d

pub text_leb-append : (p s t : Text) → text_leb (p ++ s) (p ++ t) ≡ text_leb s t
unfolding text_leb
text_leb-append [] s t = refl
text_leb-append (c ∷ p) s t = rw (==_refl c) (text_leb-append p s t)

text_leb-snoc :
    (s t : Text) (x y : ℕ)
    → length s ≡ length t
    → text_leb (s ++ x ∷ []) (t ++ y ∷ []) ≡ (text_leb s t && (not (text_leb t s) || leb x y))
unfolding text_leb
text_leb-snoc [] [] x y e = ground arith
text_leb-snoc [] (d ∷ t) x y e = absurd (omega arith)
text_leb-snoc (c ∷ s) [] x y e = absurd (omega arith)
text_leb-snoc (c ∷ s) (d ∷ t) x y e = ground (arith, text_leb-snoc s t x y (omega arith))

text_leb-fixed : (w m n : ℕ) → m < 10 ^ w → n < 10 ^ w → text_leb (fixed w m) (fixed w n) ≡ leb m n
unfolding fixed
text_leb-fixed zero m n h k = unfold text_leb in ground arith
text_leb-fixed (suc w) m n h k =
    let below =
      text_leb-fixed w (m / 10) (n / 10) (omega (arith, pow-suc 10 w))
        (omega (arith, pow-suc 10 w)) in
    let above =
      text_leb-fixed w (n / 10) (m / 10) (omega (arith, pow-suc 10 w))
        (omega (arith, pow-suc 10 w)) in
    text_leb-snoc (fixed w (m / 10)) (fixed w (n / 10)) (digit (m % 10)) (digit (n % 10))
      (length-fixed w (m / 10) ∙ sym (length-fixed w (n / 10)))
    ∙ rw (below, above) (ground arith)

-- Numbers that fit one width are ordered as texts as they are as numbers.
pub text_leb-padded :
    (w m n : ℕ) → 0 < w → m < 10 ^ w → n < 10 ^ w → text_leb (padded w m) (padded w n) ≡ leb m n
text_leb-padded w m n p h k =
    rw (padded-fixed w m p h, padded-fixed w n p k) (text_leb-fixed w m n h k)
