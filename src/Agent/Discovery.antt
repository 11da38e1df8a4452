-- ===== src/Agent/Discovery.antt =====
-- crates/jux-core/src/skills/mod.rs: finding and reading skill files.
-- The file system and `serde_yaml` are parameters, and so is the debug form of a text.
use jux.Base.{
  ℕ, ◌*◌, Bool, ◌||◌, ◌&&◌, ◌==◌, Text, codes, text_eq, List, [], ◌∷◌, ◌++◌, Option, none, some,
  is_empty, ltb, leb, if◌then◌else◌, Result, ok, err, ◌>>=◌, ◌>>◌, map_err,
}
use jux.Policy.Paths.{FilePath, normal, path_text}
use jux.State.Digits.{text_leb}
use jux.Agent.Skills.{SkillScope, user, project, SkillDefinition, SkillOverride, SkillCatalog}

-- What reading a directory gives; an entry is its path, or an error.
pub data Directory : Type 0 where
  not_found : Directory
  unreadable : Text → Directory
  entries : List (Result Text FilePath) → Directory

pub record SkillFrontmatter : Type 0 where
  pub name : Option Text
  pub description : Option Text

pub record SkillFiles : Type 0 where
  pub read_dir : FilePath → Directory
  pub is_file : FilePath → Bool
  pub size : FilePath → Result Text ℕ
  pub read_to_string : FilePath → Result Text Text
  -- `serde_yaml::from_str`
  pub parse_frontmatter : Text → Result Text SkillFrontmatter
  -- `{:?}`
  pub debug : Text → Text

-- `char::is_whitespace`
abbrev pub is_whitespace : ℕ → Bool
is_whitespace c =
    (leb 9 c && leb c 13)
    || c == 32
    || c == 133
    || c == 160
    || c == 5760
    || (leb 8192 c && leb c 8202)
    || c == 8232
    || c == 8233
    || c == 8239
    || c == 8287
    || c == 12288

-- `str::trim_start_matches` of characters with a test
unfoldable pub trim_start : (ℕ → Bool) → Text → Text
trim_start test [] = []
trim_start test (c ∷ text) = let rest = trim_start test text in if test c then rest else c ∷ text

abbrev pub cons_trimmed : (ℕ → Bool) → ℕ → Text → Text
cons_trimmed test c [] = if test c then [] else c ∷ []
cons_trimmed test c (d ∷ text) = c ∷ d ∷ text

unfoldable pub trim_end : (ℕ → Bool) → Text → Text
trim_end test [] = []
trim_end test (c ∷ text) = cons_trimmed test c (trim_end test text)

-- `str::trim`
unfoldable pub trim : Text → Text
unfolding trim_start trim_end
trim text = trim_end is_whitespace (trim_start is_whitespace text)

-- `str::strip_prefix`
unfoldable pub strip_text : Text → Text → Option Text
strip_text [] text = some text
strip_text (c ∷ prefix) [] = none
strip_text (c ∷ prefix) (d ∷ text) =
    let rest = strip_text prefix text in if c == d then rest else none

abbrev pub split_here : ℕ → Option Text → Option (Text × Text) → Option (Text × Text)
split_here c (some after) later = some ([], after)
split_here c none (some (before, after)) = some (c ∷ before, after)
split_here c none none = none

-- `str::split_once`, of a separator that is not empty
unfoldable pub split_once : Text → Text → Option (Text × Text)
unfolding strip_text
split_once separator [] = none
split_once separator (c ∷ text) =
    split_here c (strip_text separator (c ∷ text)) (split_once separator text)

abbrev is_line_end : ℕ → Bool
is_line_end c = c == 13 || c == 10

abbrev split_rest : FilePath → Option (Text × Text) → Result Text (Text × Text)
split_rest path none =
    err (codes "skill file " ++ (path_text path ++ codes " has unterminated frontmatter"))
split_rest path (some (frontmatter, content)) = ok (frontmatter, trim_start is_line_end content)

abbrev split_stripped : FilePath → Option Text → Result Text (Text × Text)
split_stripped path none =
    err (codes "skill file " ++ (path_text path ++ codes " is missing frontmatter"))
split_stripped path (some rest) = split_rest path (split_once (10 ∷ codes "---") rest)

unfoldable pub split_skill_file : Text → FilePath → Result Text (Text × Text)
unfolding strip_text split_once trim_start
split_skill_file raw path = split_stripped path (strip_text (codes "---") raw)

abbrev pub or_empty : Option Text → Text
or_empty none = []
or_empty (some t) = t

unfoldable pub required_field : Option Text → Text → FilePath → Result Text Text
unfolding trim
required_field value field path =
    if is_empty (trim (or_empty value))
    then err (codes "skill file " ++ (path_text path ++ (codes " is missing " ++ field)))
    else ok (or_empty value)

abbrev pub max_skill_file_bytes : ℕ
max_skill_file_bytes = 64 * 1024

-- The name of a path's last component.
abbrev pub file_name : FilePath → Option Text
file_name [] = none
file_name (normal name ∷ []) = some name
file_name (c ∷ []) = none
file_name (c ∷ d ∷ path) = file_name (d ∷ path)

abbrev pub has_name : Option Text → Option Text
has_name none = none
has_name (some name) = if is_empty name then none else some name

-- `BTreeMap::insert`: the map with the skill, and the skill that had its name.
unfoldable pub insert_sorted_skill :
    SkillDefinition → List SkillDefinition → List SkillDefinition × Option SkillDefinition
insert_sorted_skill skill [] = (skill ∷ [], none)
insert_sorted_skill skill (s ∷ skills) =
    let (rest, replaced) = insert_sorted_skill skill skills in
    if text_eq s.name skill.name
    then (skill ∷ skills, some s)
    else if text_leb skill.name s.name
    then (skill ∷ s ∷ skills, none)
    else (s ∷ rest, replaced)

abbrev pub with_override :
    SkillDefinition
    → List SkillOverride
    → List SkillDefinition × Option SkillDefinition
    → SkillCatalog
with_override skill overrides (skills, none) = record { skills = skills; overrides = overrides }
with_override skill overrides (skills, some overridden) = record {
  skills = skills;
  overrides =
      overrides ++ record { name = skill.name; overridden = overridden; active = skill } ∷ [];
}

unfoldable pub add_skill : SkillDefinition → SkillCatalog → SkillCatalog
unfolding insert_sorted_skill
add_skill skill catalog =
    with_override skill catalog.overrides (insert_sorted_skill skill catalog.skills)

abbrev pub reject_empty : Text → FilePath → Result Text (Unit {0})
reject_empty raw path =
    if is_empty (trim raw) then err (codes "empty skill file " ++ path_text path) else ok tt

module _ (files : SkillFiles) where
  unfoldable pub reject_oversized_skill_file : FilePath → Result Text (Unit {0})
  reject_oversized_skill_file path = do
    size ←
        map_err
          (λ error.
            codes "failed to read skill file metadata "
            ++ (path_text path ++ (codes ": " ++ error)))
          (files.size path)
    if ltb max_skill_file_bytes size
        then err (
            codes "skill file "
            ++ (path_text path ++ codes " exceeds maximum skill file size of 65536 bytes"))
        else ok tt

  unfoldable pub parse_skill_file : Text → SkillScope → FilePath → Result Text SkillDefinition
  unfolding reject_oversized_skill_file split_skill_file required_field trim
  parse_skill_file expected_name scope path = do
    reject_oversized_skill_file path
    raw ←
        map_err
          (λ error. codes "failed to read skill file " ++ (path_text path ++ (codes ": " ++ error)))
          (files.read_to_string path)
    reject_empty raw path
    (frontmatter, content) ← split_skill_file raw path
    metadata ←
        map_err
          (λ error.
            codes "failed to parse skill frontmatter " ++ (path_text path ++ (codes ": " ++ error)))
          (files.parse_frontmatter frontmatter)
    name ← required_field metadata.name (codes "name") path
    description ← required_field metadata.description (codes "description") path
    if text_eq name expected_name
        then ok (record {
          name = name;
          description = description;
          content = trim content;
          scope = scope;
          path = path;
        })
        else err (
            codes "skill name "
            ++ (files.debug name
                ++ (codes " does not match directory name " ++ files.debug expected_name)))

  abbrev pub insert_named :
      Option Text → SkillScope → FilePath → SkillCatalog → Result Text SkillCatalog
  insert_named none scope path catalog = ok catalog
  insert_named (some name) scope path catalog =
      let skill_file = path ++ normal (codes "SKILL.md") ∷ [] in
      if files.is_file skill_file
      then (parse_skill_file name scope skill_file >>= λ skill. ok (add_skill skill catalog))
      else ok catalog

  unfoldable pub insert_skill : SkillScope → FilePath → SkillCatalog → Result Text SkillCatalog
  unfolding parse_skill_file add_skill
  insert_skill scope path catalog = insert_named (has_name (file_name path)) scope path catalog

  -- The loop over the entries of a directory.
  unfoldable pub insert_skills :
      SkillScope → FilePath → List (Result Text FilePath) → SkillCatalog → Result Text SkillCatalog
  unfolding insert_skill
  insert_skills scope directory [] catalog = ok catalog
  insert_skills scope directory (entry ∷ rest) catalog = do
    path ←
        map_err
          (λ error.
            codes "failed to read skills directory entry "
            ++ (path_text directory ++ (codes ": " ++ error)))
          entry
    inserted ← insert_skill scope path catalog
    insert_skills scope directory rest inserted

  abbrev pub discover_in :
      SkillScope → FilePath → Directory → SkillCatalog → Result Text SkillCatalog
  discover_in scope directory not_found catalog = ok catalog
  discover_in scope directory (unreadable error) catalog =
      err
        (codes "failed to read skills directory " ++ (path_text directory ++ (codes ": " ++ error)))
  discover_in scope directory (entries found) catalog = insert_skills scope directory found catalog

  unfoldable pub discover_skills : SkillScope → FilePath → SkillCatalog → Result Text SkillCatalog
  unfolding insert_skills
  discover_skills scope directory catalog =
      discover_in scope directory (files.read_dir directory) catalog

  abbrev pub skills_directory : FilePath → FilePath
  skills_directory root = root ++ normal (codes ".jux") ∷ normal (codes "skills") ∷ []

  abbrev discover_user : Option FilePath → SkillCatalog → Result Text SkillCatalog
  discover_user none catalog = ok catalog
  discover_user (some home) catalog = discover_skills user (skills_directory home) catalog

  -- `SkillResolver::resolve_catalog`, of an optional home and a workspace root
  unfoldable pub resolve_catalog : Option FilePath → FilePath → Result Text SkillCatalog
  unfolding discover_skills
  resolve_catalog user_home workspace_root = do
    catalog ← discover_user user_home (record { skills = []; overrides = [] })
    discover_skills project (skills_directory workspace_root) catalog

  -- `SkillResolver::resolve`
  unfoldable pub resolve_skills : Option FilePath → FilePath → Result Text (List SkillDefinition)
  resolve_skills user_home workspace_root = do
    catalog ← resolve_catalog user_home workspace_root
    ok catalog.skills
