-- ===== src/State/Order.antt =====
-- Queries of crates/jux-core/src/state/store.rs over a table that grows at its end.
use jux.Base.{
  ◌≡◌, refl, ap, ◌∙◌, Bool, true, false, Text, codes, text_eq, text_eq_iff, List, [], ◌∷◌, ◌++◌,
  map, ◌==◌, ==_refl, any, keep, is_empty, Result, ok, err, arith, All, Bool-cases, inl, inr,
}
use jux.State.Ids.{dash}
use jux.State.Model.{StoreError}
use jux.State.Sql.{
  fold_case, some_suffix, like, children_of, insert_sorted, order_by, collect, mapped,
}

some_suffix_self : (test : Text → Bool) (t : Text) → test t ≡ true → some_suffix test t ≡ true
some_suffix_self test [] h = h
some_suffix_self test (c ∷ t) h = rw h

-- A common beginning makes no difference to a pattern that matches.
like-append : (p q t : Text) → like q t ≡ true → like (p ++ q) (p ++ t) ≡ true
unfolding like
like-append [] q t h = h
like-append (c ∷ p) q t h =
    let ih = like-append p q t h in
    elim (Bool-cases (c == b'%')) [
      | inl percent ↦ rw percent (ground (arith, ih, some_suffix_self (like (p ++ q)) (p ++ t) ih))
      | inr plain ↦ rw plain (ground (arith, ih, ==_refl (fold_case c)))
    ]

like-percent : (t : Text) → some_suffix is_empty t ≡ true
like-percent [] = refl
like-percent (c ∷ t) = like-percent t

pub like-children_of : (id t : Text) → like (children_of id) (id ++ dash ∷ t) ≡ true
like-children_of id t = like-append id (codes "-%") (dash ∷ t) (unfold like in like-percent t)

module _ {A B : Type 0} where
  pub map-keep :
      (f : A → B) (test : B → Bool) (xs : List A)
      → map f (keep (λ x. test (f x)) xs) ≡ keep test (map f xs)
  map-keep f test [] = refl
  map-keep f test (x ∷ xs) = ground (arith, map-keep f test xs)

  pub All-map_of :
      (P : B → Type 0) (f : A → B) (xs : List A) → All P (map f xs) → All (λ x. P (f x)) xs
  All-map_of P f [] h = tt
  All-map_of P f (x ∷ xs) h = (h.0, All-map_of P f xs h.1)

  pub map-All :
      (P : B → Type 0) (f : A → B) (xs : List A) → All (λ x. P (f x)) xs → All P (map f xs)
  map-All P f [] h = tt
  map-All P f (x ∷ xs) h = (h.0, map-All P f xs h.1)

module _ {A : Type 0} where
  pub keep-append :
      (test : A → Bool) (xs ys : List A) → keep test (xs ++ ys) ≡ keep test xs ++ keep test ys
  keep-append test [] ys = refl
  keep-append test (x ∷ xs) ys = ground (arith, keep-append test xs ys)

  insert_sorted-snoc :
      (before : A → A → Bool) (x : A) (ys : List A) (last : A)
      → before x last ≡ true
      → insert_sorted before x (ys ++ last ∷ []) ≡ insert_sorted before x ys ++ last ∷ []
  insert_sorted-snoc before x [] last h = rw h
  insert_sorted-snoc before x (y ∷ ys) last h =
      ground (arith, insert_sorted-snoc before x ys last h)

  -- A row that no row comes after is the last in order.
  pub order_by-snoc :
      (before : A → A → Bool) (xs : List A) (last : A)
      → All (λ x. before x last ≡ true) xs
      → order_by before (xs ++ last ∷ []) ≡ order_by before xs ++ last ∷ []
  unfolding order_by
  order_by-snoc before [] last h = refl
  order_by-snoc before (x ∷ xs) last h =
      ap (insert_sorted before x) (order_by-snoc before xs last h.1)
      ∙ insert_sorted-snoc before x (order_by before xs) last h.0

-- One more row at the end of what was read.
abbrev pub then_row : {B : Type 0} → Result StoreError (List B) → B → Result StoreError (List B)
then_row (ok bs) b = ok (bs ++ b ∷ [])
then_row (err e) b = err e

pub collect-snoc :
    {A B : Type 0} (read : A → Result StoreError B) (xs : List A) (x : A) {b : B}
    → read x ≡ ok b
    → collect read (xs ++ x ∷ []) ≡ then_row (collect read xs) b
unfolding collect
collect-snoc read [] x h = rw h
collect-snoc read (y ∷ ys) x {b} h =
    rw (collect-snoc read ys x h) (swap (collect read ys) (read y) b)
  where
    swap :
        {B : Type 0} (rest : Result StoreError (List B)) (first : Result StoreError B) (b : B)
        → mapped (then_row rest b) first ≡ then_row (mapped rest first) b
    swap (ok bs) (ok a) b = refl
    swap (ok bs) (err e) b = refl
    swap (err e) (ok a) b = refl
    swap (err e) (err f) b = refl

-- A text that is not among the matching ids is not among the ids, if it matches itself.
pub any-keep :
    (test : Text → Bool) (t : Text) (ids : List Text)
    → test t ≡ true
    → any (text_eq t) (keep test ids) ≡ false
    → any (text_eq t) ids ≡ false
any-keep test t [] h k = refl
any-keep test t (x ∷ ids) h k = elim (Bool-cases (text_eq t x)) [
  | inl same ↦
      let e : t ≡ x = (text_eq_iff t x).0 same in
      let m : test x ≡ true = rw e at h in ground (arith, m, same)
  | inr other ↦ rw other (any-keep test t ids h (ground (arith, other)))
]
