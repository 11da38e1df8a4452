-- ===== src/Agent/SkillFile.antt =====
-- crates/jux-core/src/skills/mod.rs: what holds of a skill that is read from a file.
use jux.Base.{
  ℕ, ◌≤◌, ◌≡◌, refl, false, Text, codes, text_eq, text_eq_iff, [], ◌∷◌, ◌++◌, is_empty, ltb,
  bind-ok, map_err-ok, if◌then◌else◌, map_err, Option, some, ok, err, arith, Bool-cases, inl, inr,
}
use mathlib.Core.Path.{subst}
use jux.Policy.Paths.{FilePath, normal}
use jux.Agent.Skills.{SkillScope, SkillDefinition}
use jux.Agent.Discovery.{
  SkillFiles, trim, split_skill_file, required_field, or_empty, file_name, max_skill_file_bytes,
  reject_empty, reject_oversized_skill_file, parse_skill_file,
}

required_field-ok :
    (value : Option Text) (field : Text) (path : FilePath) {t : Text}
    → required_field value field path ≡ ok t
    → is_empty (trim t) ≡ false
unfolding required_field
required_field-ok value field path {t} h = elim (Bool-cases (is_empty (trim (or_empty value)))) [
  | inl blank ↦ let no : err _ ≡ ok t = rw blank at h in cc
  | inr filled ↦ let same : ok (or_empty value) ≡ ok t = rw filled at h in cc
]

module _ (files : SkillFiles) where
  -- A skill has a name and a description that are not blank, its file had an allowed size, and it
  -- is the file `SKILL.md` in a directory of its name.
  pub record IsSound (skill : SkillDefinition) : Type 0 where
    pub named : is_empty (trim skill.name) ≡ false
    pub described : is_empty (trim skill.description) ≡ false
    pub size : ℕ
    pub has_size : files.size skill.path ≡ ok size
    pub small : size ≤ 65536
    pub directory : FilePath
    pub has_its_name : file_name directory ≡ some skill.name
    pub in_directory : skill.path ≡ directory ++ normal (codes "SKILL.md") ∷ []

  reject_oversized_skill_file-ok :
      (path : FilePath)
      → reject_oversized_skill_file files path ≡ ok tt
      → (n : ℕ) × (files.size path ≡ ok n) × (n ≤ 65536)
  unfolding reject_oversized_skill_file
  reject_oversized_skill_file-ok path h =
      let (n, measured, rest) = bind-ok (map_err _ (files.size path)) _ h in
      (
        n,
        map_err-ok _ (files.size path) measured,
        (elim (Bool-cases (ltb max_skill_file_bytes n)) [
          | inl large ↦ let no : err _ ≡ ok tt = rw large at rest in cc
          | inr fits ↦ ground (arith, fits)
        ]),
      )

  made-IsSound :
      (scope : SkillScope) (directory : FilePath) (expected name description content : Text) (n : ℕ)
      (mismatch : Text) {skill : SkillDefinition}
      → file_name directory ≡ some expected
      → is_empty (trim name) ≡ false
      → is_empty (trim description) ≡ false
      → files.size (directory ++ normal (codes "SKILL.md") ∷ []) ≡ ok n
      → n ≤ 65536
      → (if text_eq name expected
          then ok (record {
            name = name;
            description = description;
            content = content;
            scope = scope;
            path = directory ++ normal (codes "SKILL.md") ∷ [];
          })
          else err mismatch)
        ≡ ok skill
      → IsSound skill
  made-IsSound scope directory expected name description content n mismatch {skill} there named
        described measured small h =
      elim (Bool-cases (text_eq name expected)) [
        | inl same ↦
            let eq : name ≡ expected = (text_eq_iff name expected).0 same in
            let made : SkillDefinition = record {
              name = name;
              description = description;
              content = content;
              scope = scope;
              path = directory ++ normal (codes "SKILL.md") ∷ [];
            } in
            let built : ok made ≡ ok skill = rw same at h in
            let is_made : made ≡ skill = cc in
            let sound : IsSound made = record {
              named = named;
              described = described;
              size = n;
              has_size = measured;
              small = small;
              directory = directory;
              has_its_name = rw eq there;
              in_directory = refl;
            } in
            subst IsSound is_made sound
        | inr other ↦ let no : err _ ≡ ok skill = rw other at h in cc
      ]

  pub parse_skill_file-IsSound :
      (scope : SkillScope) (directory : FilePath) (expected : Text) {skill : SkillDefinition}
      → file_name directory ≡ some expected
      → parse_skill_file files expected scope (directory ++ normal (codes "SKILL.md") ∷ [])
        ≡ ok skill
      → IsSound skill
  unfolding parse_skill_file
  parse_skill_file-IsSound scope directory expected {skill} there h =
      let path = directory ++ normal (codes "SKILL.md") ∷ [] in
      let (_, fits, h1) = bind-ok (reject_oversized_skill_file files path) _ h in
      let (raw, read, h2) = bind-ok (map_err _ (files.read_to_string path)) _ h1 in
      let (_, filled, h3) = bind-ok (reject_empty raw path) _ h2 in
      let (parts, split, h4) = bind-ok (split_skill_file raw path) _ h3 in
      let (metadata, parsed, h5) = bind-ok (map_err _ (files.parse_frontmatter parts.0)) _ h4 in
      let (name, named, h6) = bind-ok (required_field metadata.name (codes "name") path) _ h5 in
      let (description, described, h7) =
        bind-ok (required_field metadata.description (codes "description") path) _ h6 in
      let (n, measured, small) = reject_oversized_skill_file-ok path fits in
      made-IsSound scope directory expected name description (trim parts.1) n _ there
        (required_field-ok metadata.name (codes "name") path named)
        (required_field-ok metadata.description (codes "description") path described) measured small
        h7
