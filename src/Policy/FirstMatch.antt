-- ===== src/Policy/FirstMatch.antt =====
-- Ordered rules, as the loops over rules of crates/jux-core/src/policy/wasm try them.
use jux.Base.{
  ◌≡◌, ◌≢◌, ◌↔◌, refl, sym, ap, ◌∙◌, if◌then◌else◌, ◌>>=◌, err, Bool, true, false, Text, List, [],
  ◌∷◌, Result, ok,
}

-- The first rule that matches has the property `P`, and the test of none before it failed.
pub data FirstMatch {R : Type 0} (test : R → Result Text Bool) (P : R → Type 0)
    : List R → Type 0 where
  here : {r : R} {rules : List R} → test r ≡ ok true → P r → FirstMatch test P (r ∷ rules)
  later :
      {r : R} {rules : List R}
      → test r ≡ ok false
      → FirstMatch test P rules
      → FirstMatch test P (r ∷ rules)

-- Some element has the property.
pub data Some {A : Type 0} (P : A → Type 0) : List A → Type 0 where
  head : {a : A} {as' : List A} → P a → Some P (a ∷ as')
  tail : {a : A} {as' : List A} → Some P as' → Some P (a ∷ as')

module _ {R : Type 0} {test : R → Result Text Bool} {P : R → Type 0} where
  -- Of a first match: some rule matches, and has the property.
  pub FirstMatch-Some :
      {rules : List R} → FirstMatch test P rules → Some (λ r. (test r ≡ ok true) × P r) rules
  FirstMatch-Some (here m p) = head (m, p)
  FirstMatch-Some (later m d) = tail (FirstMatch-Some d)

-- A loop over rules: the answer `miss` after the last one, and `answer r` at the first match.
module _ {R D : Type 0} (test : R → Result Text Bool) (answer : R → D) (miss : D)
    (run : List R → Result Text D) (run_end : run [] ≡ ok miss)
    (run_step : (r : R) (rules : List R)
      → run (r ∷ rules)
        ≡ (test r >>= λ matched. if matched then ok (answer r) else run rules)) where
  ok-injective : {a b : D} → ◌≡◌ {A = Result Text D} (ok a) (ok b) → a ≡ b
  ok-injective e = cc

  run→FirstMatch :
      (d : D)
      → miss ≢ d
      → (rules : List R) → run rules ≡ ok d
      → FirstMatch test (λ r. answer r ≡ d) rules
  run→FirstMatch d n [] h = absurd (n (ok-injective (sym run_end ∙ h)))
  run→FirstMatch d n (r ∷ rules) h =
      split (test r) refl (sym (run_step r rules) ∙ h) (run→FirstMatch d n rules)
    where
      split :
          (t : Result Text Bool)
          → test r ≡ t
          → (t >>= λ matched. if matched then ok (answer r) else run rules) ≡ ok d
          → (run rules ≡ ok d → FirstMatch test (λ q. answer q ≡ d) rules)
          → FirstMatch test (λ q. answer q ≡ d) (r ∷ rules)
      split (ok true) e k ih = here e (ok-injective k)
      split (ok false) e k ih = later e (ih k)
      split (err m) e k ih = cc

  FirstMatch→run :
      (d : D) {rules : List R} → FirstMatch test (λ r. answer r ≡ d) rules → run rules ≡ ok d
  FirstMatch→run d (here {r} {rules} m p) = run_step r rules ∙ rw m (ap ok p)
  FirstMatch→run d (later {r} {rules} m h) = run_step r rules ∙ rw m (FirstMatch→run d h)

  -- The loop gives any answer but `miss` exactly if the first match gives it.
  pub run_iff :
      (d : D)
      → miss ≢ d
      → (rules : List R) → (run rules ≡ ok d) ↔ FirstMatch test (λ r. answer r ≡ d) rules
  run_iff d n rules = (run→FirstMatch d n rules, FirstMatch→run d)
