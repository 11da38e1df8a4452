-- ===== src/Policy/Normal.antt =====
-- What `normalize_path` of crates/jux-core/src/policy/wasm/filesystem.rs gives.
use jux.Base.{
  Text, ◌≡◌, refl, [], ◌∷◌, ◌++◌, All, arith, append_assoc, ap, some, ◌↔◌, text_eq_iff, true, sym,
  ◌∙◌, append-nil,
}
use jux.Policy.Paths.{
  Component, root_dir, cur_dir, parent_dir, normal, FilePath, push, pop, normalize_from,
  normalize_path, strip_prefix, component_eq,
}

-- A name: neither `/`, `.` nor `..`.
abbrev pub IsName : Component → Type 0
IsName (normal name) = Unit
IsName _ = ⊥

-- Names alone, behind a root or none.
abbrev pub IsNormal : FilePath → Type 0
IsNormal [] = Unit
IsNormal (root_dir ∷ p) = All IsName p
IsNormal p = All IsName p

pop-All : (p : FilePath) → All IsName p → All IsName (pop p)
unfolding pop
pop-All [] h = tt
pop-All (normal n ∷ []) h = tt
pop-All (root_dir ∷ []) h = absurd h.0
pop-All (cur_dir ∷ []) h = absurd h.0
pop-All (parent_dir ∷ []) h = absurd h.0
pop-All (c ∷ d ∷ p) h = (h.0, pop-All (d ∷ p) h.1)

All-IsNormal : (p : FilePath) → All IsName p → IsNormal p
All-IsNormal [] h = tt
All-IsNormal (root_dir ∷ p) h = absurd h.0
All-IsNormal (cur_dir ∷ p) h = h
All-IsNormal (parent_dir ∷ p) h = h
All-IsNormal (normal n ∷ p) h = h

pop-IsNormal : (p : FilePath) → IsNormal p → IsNormal (pop p)
pop-IsNormal [] h = unfold pop in tt
pop-IsNormal (root_dir ∷ []) h = unfold pop in tt
pop-IsNormal (root_dir ∷ d ∷ p) h = unfold pop in pop-All (d ∷ p) h
pop-IsNormal (normal n ∷ p) h = All-IsNormal _ (pop-All (normal n ∷ p) h)
pop-IsNormal (cur_dir ∷ p) h = absurd h.0
pop-IsNormal (parent_dir ∷ p) h = absurd h.0

push-All : (p : FilePath) (c : Component) → All IsName p → IsName c → All IsName (p ++ c ∷ [])
push-All [] c h k = (k, tt)
push-All (d ∷ p) c h k = (h.0, push-All p c h.1 k)

push-IsNormal : (p : FilePath) (name : Text) → IsNormal p → IsNormal (push p (normal name))
push-IsNormal [] name h = (tt, tt)
push-IsNormal (root_dir ∷ p) name h = push-All p (normal name) h tt
push-IsNormal (normal n ∷ p) name h = (tt, push-All p (normal name) h.1 tt)
push-IsNormal (cur_dir ∷ p) name h = absurd h.0
push-IsNormal (parent_dir ∷ p) name h = absurd h.0

normalize_from-IsNormal : (n p : FilePath) → IsNormal n → IsNormal (normalize_from n p)
unfolding normalize_from
normalize_from-IsNormal n [] h = h
normalize_from-IsNormal n (cur_dir ∷ p) h = normalize_from-IsNormal n p h
normalize_from-IsNormal n (parent_dir ∷ p) h = normalize_from-IsNormal (pop n) p (pop-IsNormal n h)
normalize_from-IsNormal n (normal name ∷ p) h =
    normalize_from-IsNormal (push n (normal name)) p (push-IsNormal n name h)
normalize_from-IsNormal n (root_dir ∷ p) h = normalize_from-IsNormal (root_dir ∷ []) p tt

-- A normalized path has no `.` and no `..`, and no root behind its first component.
pub normalize_path-IsNormal : (p : FilePath) → IsNormal (normalize_path p)
unfolding normalize_path
normalize_path-IsNormal p = normalize_from-IsNormal [] p tt

-- Names are pushed, one after the other.
normalize_from-names : (n p : FilePath) → All IsName p → normalize_from n p ≡ n ++ p
unfolding normalize_from
normalize_from-names n [] h = sym (append-nil n)
normalize_from-names n (normal name ∷ p) h =
    normalize_from-names (n ++ normal name ∷ []) p h.1 ∙ append_assoc n (normal name ∷ []) p
normalize_from-names n (root_dir ∷ p) h = absurd h.0
normalize_from-names n (cur_dir ∷ p) h = absurd h.0
normalize_from-names n (parent_dir ∷ p) h = absurd h.0

normalize_path-IsNormal_self : (p : FilePath) → IsNormal p → normalize_path p ≡ p
unfolding normalize_path
normalize_path-IsNormal_self [] h = refl
normalize_path-IsNormal_self (root_dir ∷ p) h = normalize_from-names (root_dir ∷ []) p h
normalize_path-IsNormal_self (normal n ∷ p) h = normalize_from-names [] (normal n ∷ p) h
normalize_path-IsNormal_self (cur_dir ∷ p) h = absurd h.0
normalize_path-IsNormal_self (parent_dir ∷ p) h = absurd h.0

-- Normalizing a path twice gives what normalizing it once gives.
pub normalize_path_idem : (p : FilePath) → normalize_path (normalize_path p) ≡ normalize_path p
normalize_path_idem p = normalize_path-IsNormal_self _ (normalize_path-IsNormal p)

normalize_from-append :
    (n p q : FilePath) → normalize_from n (p ++ q) ≡ normalize_from (normalize_from n p) q
unfolding normalize_from
normalize_from-append n [] q = refl
normalize_from-append n (cur_dir ∷ p) q = normalize_from-append n p q
normalize_from-append n (parent_dir ∷ p) q = normalize_from-append (pop n) p q
normalize_from-append n (normal name ∷ p) q = normalize_from-append (push n (normal name)) p q
normalize_from-append n (root_dir ∷ p) q = normalize_from-append (root_dir ∷ []) p q

-- A name, and `..` back out of it, lead nowhere.
pop-push_name : (n : FilePath) (name : Text) → pop (n ++ normal name ∷ []) ≡ n
unfolding pop
pop-push_name [] name = refl
pop-push_name (root_dir ∷ []) name = refl
pop-push_name (cur_dir ∷ []) name = refl
pop-push_name (parent_dir ∷ []) name = refl
pop-push_name (normal m ∷ []) name = refl
pop-push_name (root_dir ∷ d ∷ n) name = ap (◌∷◌ root_dir) (pop-push_name (d ∷ n) name)
pop-push_name (c ∷ d ∷ n) name = ap (◌∷◌ c) (pop-push_name (d ∷ n) name)

-- A directory entered and left again by `..` does not change what a path normalizes to, wherever
-- it stands.
normalize_path-parent :
    (p q : FilePath) (name : Text)
    → normalize_path (p ++ normal name ∷ parent_dir ∷ q) ≡ normalize_path (p ++ q)
unfolding normalize_path
normalize_path-parent p q name =
    rw (normalize_from-append [] p, normalize_from-append [] p)
      (unfold normalize_from in ap (λ n. normalize_from n q) (pop-push_name _ name))

component_eq_iff : (c d : Component) → (component_eq c d ≡ true) ↔ (c ≡ d)
component_eq_iff (normal s) (normal t) = ground (arith, text_eq_iff s t)
component_eq_iff root_dir root_dir = (λ _. refl, λ _. refl)
component_eq_iff cur_dir cur_dir = (λ _. refl, λ _. refl)
component_eq_iff parent_dir parent_dir = (λ _. refl, λ _. refl)
component_eq_iff _ _ = (λ e. cc, λ e. cc)

pub strip_prefix-some :
    (p base : FilePath) {r : FilePath} → strip_prefix p base ≡ some r → p ≡ base ++ r
unfolding strip_prefix
strip_prefix-some p [] e = cc
strip_prefix-some [] (c ∷ base) e = cc
strip_prefix-some (d ∷ p) (c ∷ base) {r} e =
    ground (arith, component_eq_iff d c, strip_prefix-some p base {r = r})

pub strip_prefix-append : (base r : FilePath) → strip_prefix (base ++ r) base ≡ some r
unfolding strip_prefix
strip_prefix-append [] r = refl
strip_prefix-append (c ∷ base) r = rw ((component_eq_iff c c).1 refl) (strip_prefix-append base r)
