-- ===== src/Agent/Discovered.antt =====
-- crates/jux-core/src/skills/mod.rs: what holds of every skill that is discovered.
use jux.Base.{
  ◌≡◌, refl, Text, codes, text_eq, text_eq_iff, List, [], ◌∷◌, ◌++◌, is_empty, All, All-append,
  bind-ok, map_err, Option, none, some, Result, ok, Bool-cases, inl, inr,
}
use mathlib.Core.Path.{subst}
use jux.Policy.Paths.{FilePath, normal}
use jux.State.Digits.{text_leb}
use jux.Agent.Skills.{SkillScope, SkillDefinition, SkillOverride, SkillCatalog}
use jux.Agent.Discovery.{
  SkillFiles, Directory, not_found, unreadable, entries, file_name, has_name, insert_sorted_skill,
  with_override, add_skill, parse_skill_file, insert_named, insert_skill, insert_skills,
  discover_in, discover_skills, skills_directory, resolve_catalog,
}
use jux.Agent.SkillFile.{IsSound, parse_skill_file-IsSound}

module _ (files : SkillFiles) where
  -- Both skills of an override have its name.
  abbrev pub IsSoundOverride : SkillOverride → Type 0
  IsSoundOverride o =
      (o.active.name ≡ o.name)
      × (o.overridden.name ≡ o.name)
      × IsSound files o.active
      × IsSound files o.overridden

  abbrev pub IsSoundCatalog : SkillCatalog → Type 0
  IsSoundCatalog catalog =
      All (IsSound files) catalog.skills × All IsSoundOverride catalog.overrides

  insert_sorted_skill-All :
      (skill : SkillDefinition) (skills : List SkillDefinition)
      → IsSound files skill
      → All (IsSound files) skills
      → All (IsSound files) (insert_sorted_skill skill skills).0
        × ((old : SkillDefinition)
            → (insert_sorted_skill skill skills).1 ≡ some old
            → IsSound files old × (old.name ≡ skill.name))
  unfolding insert_sorted_skill
  insert_sorted_skill-All skill [] sound all = ((sound, tt), λ old e. cc)
  insert_sorted_skill-All skill (s ∷ skills) sound all =
      elim (Bool-cases (text_eq s.name skill.name)) [
        | inl same ↦
            let eq : s.name ≡ skill.name = (text_eq_iff s.name skill.name).0 same in
            (
              rw same (sound, all.1),
              λ old e.
                  let replaced : some s ≡ some old = rw same at e in
                  let is_old : s ≡ old = cc in
                  subst (λ o. IsSound files o × (o.name ≡ skill.name)) is_old (all.0, eq),
            )
        | inr other ↦ elim (Bool-cases (text_leb skill.name s.name)) [
          | inl before ↦ (
            rw (other, before) (sound, (all.0, all.1)),
            λ old e. let no : none ≡ some old = rw (other, before) at e in cc,
          )
          | inr behind ↦
              let (rest, replaced) = insert_sorted_skill-All skill skills sound all.1 in
              (rw (other, behind) (all.0, rest), λ old e. replaced old (rw (other, behind) at e))
        ]
      ]

  add_skill-IsSound :
      (skill : SkillDefinition) (catalog : SkillCatalog)
      → IsSound files skill
      → IsSoundCatalog catalog
      → IsSoundCatalog (add_skill skill catalog)
  unfolding add_skill
  add_skill-IsSound skill catalog sound h =
      let (all, replaced) = insert_sorted_skill-All skill catalog.skills sound h.0 in
      go (insert_sorted_skill skill catalog.skills) all replaced
    where
      go :
          (r : List SkillDefinition × Option SkillDefinition)
          → All (IsSound files) r.0
          → ((old : SkillDefinition) → r.1 ≡ some old → IsSound files old × (old.name ≡ skill.name))
          → IsSoundCatalog (with_override skill catalog.overrides r)
      go (skills, none) all replaced = (all, h.1)
      go (skills, some old) all replaced =
          let (was_sound, same) = replaced old refl in
          (
            all,
            All-append IsSoundOverride catalog.overrides (_ ∷ []) h.1
                ((refl, same, sound, was_sound), tt),
          )

  insert_skill-IsSound :
      (scope : SkillScope) (path : FilePath) (catalog : SkillCatalog) {after : SkillCatalog}
      → IsSoundCatalog catalog
      → insert_skill files scope path catalog ≡ ok after
      → IsSoundCatalog after
  unfolding insert_skill
  insert_skill-IsSound scope path catalog {after} h e = go (file_name path) refl e
    where
      unchanged : ◌≡◌ {A = Result Text SkillCatalog} (ok catalog) (ok after) → IsSoundCatalog after
      unchanged k = let same : catalog ≡ after = cc in subst IsSoundCatalog same h

      go :
          (o : Option Text)
          → file_name path ≡ o
          → insert_named files (has_name o) scope path catalog ≡ ok after
          → IsSoundCatalog after
      go none named k = unchanged k
      go (some name) named k = elim (Bool-cases (is_empty name)) [
        | inl blank ↦ unchanged (rw blank at k)
        | inr filled ↦ elim (Bool-cases (files.is_file (path ++ normal (codes "SKILL.md") ∷ []))) [
          | inl is_there ↦
              let (skill, parsed, added) =
                bind-ok (parse_skill_file files name scope (path ++ normal (codes "SKILL.md") ∷ []))
                  _ (rw (filled, is_there) at k) in
              let same : add_skill skill catalog ≡ after = cc in
              subst IsSoundCatalog same (
                add_skill-IsSound skill catalog
                  (parse_skill_file-IsSound files scope path name named parsed) h)
          | inr missing ↦ unchanged (rw (filled, missing) at k)
        ]
      ]

  insert_skills-IsSound :
      (scope : SkillScope) (directory : FilePath) (found : List (Result Text FilePath))
      (catalog : SkillCatalog) {after : SkillCatalog}
      → IsSoundCatalog catalog
      → insert_skills files scope directory found catalog ≡ ok after
      → IsSoundCatalog after
  unfolding insert_skills
  insert_skills-IsSound scope directory [] catalog {after} h e =
      let same : catalog ≡ after = cc in subst IsSoundCatalog same h
  insert_skills-IsSound scope directory (entry ∷ rest) catalog h e =
      let (path, read, e1) = bind-ok (map_err _ entry) _ e in
      let (inserted, one, e2) = bind-ok (insert_skill files scope path catalog) _ e1 in
      insert_skills-IsSound scope directory rest inserted
        (insert_skill-IsSound scope path catalog h one) e2

  discover_skills-IsSound :
      (scope : SkillScope) (directory : FilePath) (catalog : SkillCatalog) {after : SkillCatalog}
      → IsSoundCatalog catalog
      → discover_skills files scope directory catalog ≡ ok after
      → IsSoundCatalog after
  unfolding discover_skills
  discover_skills-IsSound scope directory catalog {after} h e = go (files.read_dir directory) e
    where
      go :
          (d : Directory)
          → discover_in files scope directory d catalog ≡ ok after
          → IsSoundCatalog after
      go not_found k = let same : catalog ≡ after = cc in subst IsSoundCatalog same h
      go (unreadable problem) k = cc
      go (entries found) k = insert_skills-IsSound scope directory found catalog h k

  -- Each skill of a resolved catalog has a name and a description that are not blank, and comes
  -- from a file of at most 65536 bytes, which is `SKILL.md` in a directory of its name; and the
  -- two skills of each override have the override's name and are such skills too.
  pub resolve_catalog-IsSound :
      (user_home : Option FilePath) (workspace_root : FilePath) {catalog : SkillCatalog}
      → resolve_catalog files user_home workspace_root ≡ ok catalog
      → All (IsSound files) catalog.skills × All IsSoundOverride catalog.overrides
  unfolding resolve_catalog
  resolve_catalog-IsSound none workspace_root e =
      discover_skills-IsSound SkillScope.project (skills_directory files workspace_root) _ (tt, tt)
        e
  resolve_catalog-IsSound (some home) workspace_root e =
      let (users, first, second) =
        bind-ok (discover_skills files SkillScope.user (skills_directory files home) _) _ e in
      discover_skills-IsSound SkillScope.project (skills_directory files workspace_root) users
        (discover_skills-IsSound SkillScope.user (skills_directory files home) _ (tt, tt) first)
        second
