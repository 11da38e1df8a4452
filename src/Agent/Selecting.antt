-- ===== src/Agent/Selecting.antt =====
-- crates/jux-core/src/skills/mod.rs: which skills are selected.
use jux.Base.{
  Bool, true, false, Text, text_eq, text_eq_refl, text_eq_iff, List, [], ◌∷◌, ◌++◌, any, find, All,
  some, ok, err, ◌≡◌, refl, sym, inl, inr, Bool-cases, Option-cases, arith, ◌||◌,
}
use mathlib.Core.Path.{subst}
use jux.Agent.Skills.{SkillDefinition, add_selected, select_from, select_explicit_skills}

abbrev pub has_skill : Text → List SkillDefinition → Bool
has_skill name skills = any (λ s. text_eq s.name name) skills

-- No two skills have one name.
abbrev pub IsDistinct : List SkillDefinition → Type 0
IsDistinct [] = Unit
IsDistinct (skill ∷ skills) = (has_skill skill.name skills ≡ false) × IsDistinct skills

text_eq_sym : (s t : Text) → text_eq s t ≡ text_eq t s
text_eq_sym s t = ground (arith, text_eq_iff s t, text_eq_iff t s)

has_skill-append :
    (name : Text) (xs ys : List SkillDefinition)
    → has_skill name (xs ++ ys) ≡ (has_skill name xs || has_skill name ys)
has_skill-append name [] ys = refl
has_skill-append name (x ∷ xs) ys = rw (has_skill-append name xs ys) (ground arith)

IsDistinct-append :
    (skills : List SkillDefinition) (skill : SkillDefinition)
    → IsDistinct skills
    → has_skill skill.name skills ≡ false
    → IsDistinct (skills ++ skill ∷ [])
IsDistinct-append [] skill h k = (refl, tt)
IsDistinct-append (s ∷ skills) skill h k =
    let other : text_eq s.name skill.name ≡ false = ground arith in
    let rest : has_skill skill.name skills ≡ false = ground arith in
    let same = text_eq_sym s.name skill.name in
    let old = h.0 in
    (
      rw (has_skill-append s.name skills (skill ∷ [])) (ground arith),
      IsDistinct-append skills skill h.1 rest,
    )

add_selected-IsDistinct :
    (skill : SkillDefinition) (skills : List SkillDefinition)
    → IsDistinct skills
    → IsDistinct (add_selected skill skills)
add_selected-IsDistinct skill skills h = elim (Bool-cases (has_skill skill.name skills)) [
  | inl there ↦ rw there h
  | inr fresh ↦ rw fresh (IsDistinct-append skills skill h fresh)
]

-- Selecting adds a name, and loses none.
add_selected-has :
    (skill : SkillDefinition) (skills : List SkillDefinition)
    → has_skill skill.name (add_selected skill skills) ≡ true
add_selected-has skill skills = elim (Bool-cases (has_skill skill.name skills)) [
  | inl there ↦ rw there there
  | inr fresh ↦
      rw (fresh, has_skill-append skill.name skills (skill ∷ []), text_eq_refl skill.name)
        (ground arith)
]

add_selected-keeps :
    (name : Text) (skill : SkillDefinition) (skills : List SkillDefinition)
    → has_skill name skills ≡ true
    → has_skill name (add_selected skill skills) ≡ true
add_selected-keeps name skill skills h = elim (Bool-cases (has_skill skill.name skills)) [
  | inl there ↦ rw there h
  | inr fresh ↦ rw (fresh, has_skill-append name skills (skill ∷ []), h) refl
]

find-name :
    (name : Text) (skills : List SkillDefinition) {skill : SkillDefinition}
    → find (λ s. text_eq s.name name) skills ≡ some skill
    → skill.name ≡ name
find-name name [] h = cc
find-name name (s ∷ skills) {skill} h = elim (Bool-cases (text_eq s.name name)) [
  | inl same ↦
      let first : some s ≡ some skill = rw same at h in
      let eq : s.name ≡ name = (text_eq_iff s.name name).0 same in cc
  | inr other ↦ find-name name skills (rw other at h)
]

abbrev Selects : List Text → List SkillDefinition → List SkillDefinition → Type 0
Selects names before chosen =
    IsDistinct chosen
    × ((name : Text) → has_skill name before ≡ true → has_skill name chosen ≡ true)
    × All (λ name. has_skill name chosen ≡ true) names

select_from-Selects :
    (skills selected : List SkillDefinition) (names : List Text) {chosen : List SkillDefinition}
    → IsDistinct selected
    → select_from skills selected names ≡ ok chosen
    → Selects names selected chosen
unfolding select_from
select_from-Selects skills selected [] {chosen} d h =
    let same : selected ≡ chosen = cc in
    subst (λ c. Selects [] selected c) same (d, (λ name k. k), tt)
select_from-Selects skills selected (name ∷ names) {chosen} d h =
    elim (Option-cases (find (λ s. text_eq s.name name) skills)) [
      | inl missing ↦ let no : err _ ≡ ok chosen = rw missing at h in cc
      | inr (skill, found) ↦
          let (distinct, keeps, all) =
            select_from-Selects skills (add_selected skill selected) names
              (add_selected-IsDistinct skill selected d) (rw found at h) in
          (
            distinct,
            (λ n k. keeps n (add_selected-keeps n skill selected k)),
            (
              keeps name (rw (sym (find-name name skills found)) (add_selected-has skill selected)),
              all,
            ),
          )
    ]

-- If explicitly requested skills are selected, no two of them have one name, and each name that
-- was asked for is among them.
pub select_explicit_skills-IsDistinct :
    (skills : List SkillDefinition) (names : List Text) {chosen : List SkillDefinition}
    → select_explicit_skills skills names ≡ ok chosen
    → IsDistinct chosen × All (λ name. has_skill name chosen ≡ true) names
unfolding select_explicit_skills
select_explicit_skills-IsDistinct skills names h =
    let (distinct, keeps, all) = select_from-Selects skills [] names tt h in (distinct, all)
