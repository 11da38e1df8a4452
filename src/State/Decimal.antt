-- ===== src/State/Decimal.antt =====
-- Decimal numbers of Rust's standard library: `{n}`, `{n:0w}` and `str::parse::<u64>`.
use jux.Base.{
  ℕ, zero, suc, ◌+◌, ◌-◌, ◌*◌, ◌/◌, ◌%◌, ◌^◌, ◌<◌, ◌≡◌, refl, ap, Bool, false, ◌&&◌, Text, Option,
  none, some, [], ◌∷◌, ◌++◌, ltb, leb, ◌==◌, if◌then◌else◌, length, length-append, arith,
  append_assoc, Bool-cases, inl, inr, sym, ◌∙◌,
}
use native.Mathlib.Nat.{pow-suc}

abbrev pub zeros : ℕ → Text
zeros zero = []
zeros (suc n) = b'0' ∷ zeros n

abbrev pub digit : ℕ → ℕ
digit d = b'0' + d

-- The digits of a number behind each other; the first argument bounds their count.
unfoldable pub digits : ℕ → ℕ → Text
digits zero n = []
digits (suc fuel) n =
    let rest = digits fuel (n / 10) in
    if n / 10 == 0 then digit (n % 10) ∷ [] else rest ++ digit (n % 10) ∷ []

-- `{n}`
unfoldable pub decimal : ℕ → Text
unfolding digits
decimal n = digits (suc n) n

-- `{n:0width}`
unfoldable pub padded : ℕ → ℕ → Text
unfolding decimal
padded width n = zeros (width - length (decimal n)) ++ decimal n

abbrev pub is_digit : ℕ → Bool
is_digit c = leb b'0' c && leb c b'9'

-- The value of a row of digits, behind digits of a given value.
unfoldable pub digits_value : ℕ → Text → Option ℕ
digits_value value [] = some value
digits_value value (c ∷ text) =
    let rest = digits_value (value * 10 + (c - b'0')) text in if is_digit c then rest else none

abbrev pub in_u64 : Option ℕ → Option ℕ
in_u64 none = none
in_u64 (some n) = if ltb n (2 ^ 64) then some n else none

-- `str::parse::<u64>`: an optional `+`, at least one digit, and no overflow.
unfoldable pub parse_u64 : Text → Option ℕ
unfolding digits_value
parse_u64 [] = none
parse_u64 (c ∷ []) = in_u64 (digits_value 0 (c ∷ []))
parse_u64 (c ∷ d ∷ text) =
    in_u64 (if c == b'+' then digits_value 0 (d ∷ text) else digits_value 0 (c ∷ d ∷ text))

-- Exactly `width` digits.
unfoldable pub fixed : ℕ → ℕ → Text
fixed zero n = []
fixed (suc width) n = fixed width (n / 10) ++ digit (n % 10) ∷ []

pub length-fixed : (width n : ℕ) → length (fixed width n) ≡ width
unfolding fixed
length-fixed zero n = refl
length-fixed (suc width) n =
    omega (
      arith,
      length-append (fixed width (n / 10)) (digit (n % 10) ∷ []),
      length-fixed width (n / 10),
    )

zeros-snoc : (width : ℕ) → zeros width ++ b'0' ∷ [] ≡ zeros (suc width)
zeros-snoc zero = refl
zeros-snoc (suc width) = ap (◌∷◌ b'0') (zeros-snoc width)

fixed-zero : (width : ℕ) → fixed width 0 ≡ zeros width
unfolding fixed
fixed-zero zero = refl
fixed-zero (suc width) = ap (λ t. t ++ b'0' ∷ []) (fixed-zero width) ∙ zeros-snoc width

tenth-lt : (n w : ℕ) → n < 10 ^ suc w → n / 10 < 10 ^ w
tenth-lt n w h = omega (arith, pow-suc 10 w)

width-pos : (n w : ℕ) → n < 10 ^ suc w → (n / 10 == 0) ≡ false → 0 < w
width-pos n zero h large = absurd (ground arith)
width-pos n (suc w) h large = omega arith

-- A number with at most `width` digits, padded to `width`, is its last `width` digits.
digits-fixed :
    (fuel width n : ℕ)
    → n < fuel
    → n < 10 ^ width
    → 0 < width
    → zeros (width - length (digits fuel n)) ++ digits fuel n ≡ fixed width n
unfolding digits fixed
digits-fixed zero width n h k p = absurd (omega arith)
digits-fixed (suc fuel) zero n h k p = absurd (omega arith)
digits-fixed (suc fuel) (suc width) n h k p = elim (Bool-cases (n / 10 == 0)) [
  | inl small ↦
      let none_left : n / 10 ≡ 0 = ground arith in
      let one : suc width - 1 ≡ width = omega arith in
      rw small (rw none_left (rw one (ap (λ t. t ++ digit (n % 10) ∷ []) (sym (fixed-zero width)))))
  | inr large ↦
      let rest = digits fuel (n / 10) in
      let last = digit (n % 10) ∷ [] in
      let count : suc width - length (rest ++ last) ≡ width - length rest =
        omega (arith, length-append rest last) in
      rw large (
        rw count (
          sym (append_assoc (zeros (width - length rest)) rest last)
          ∙ ap (λ t. t ++ last)
              (digits-fixed fuel width (n / 10) (ground arith) (tenth-lt n width k)
                (width-pos n width k large))))
]

pub padded-fixed : (width n : ℕ) → 0 < width → n < 10 ^ width → padded width n ≡ fixed width n
unfolding padded
padded-fixed width n p h = digits-fixed (suc n) width n (omega arith) h p
