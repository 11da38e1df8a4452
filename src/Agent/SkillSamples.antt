-- ===== src/Agent/SkillSamples.antt =====
-- The theorem on discovered skills at a concrete file system.
use jux.Base.{codes, [], ◌∷◌, ◌++◌, some, ok, All, ◌≡◌, refl, true}
use jux.Policy.Paths.{FilePath, root_dir, normal}
use jux.Agent.Skills.{SkillDefinition, SkillCatalog, SkillScope, newline}
use jux.Agent.Discovery.{
  SkillFiles, Directory, entries, trim, trim_start, trim_end, strip_text, split_once,
  split_skill_file, required_field, insert_sorted_skill, add_skill, reject_oversized_skill_file,
  parse_skill_file, insert_skill, insert_skills, discover_skills, resolve_catalog,
}
use jux.Agent.SkillFile.{IsSound}
use jux.Agent.Discovered.{IsSoundOverride, resolve_catalog-IsSound}

abbrev home : FilePath
home = root_dir ∷ normal (codes "home") ∷ []

abbrev workspace : FilePath
workspace = root_dir ∷ normal (codes "w") ∷ []

abbrev review_of : FilePath → FilePath
review_of root =
    root ++ normal (codes ".jux") ∷ normal (codes "skills") ∷ normal (codes "review") ∷ []

-- Each `.jux/skills` has one directory, `review`, with one file.
abbrev only_review : FilePath → Directory
only_review directory = entries (ok (directory ++ normal (codes "review") ∷ []) ∷ [])

abbrev disk : SkillFiles
disk = record {
  read_dir = only_review;
  is_file = λ path. true;
  size = λ path. ok 20;
  read_to_string = λ path. ok (
      codes "---"
      ++ newline ∷ codes "review"
      ++ newline ∷ codes "---"
      ++ newline ∷ codes "Read it.");
  parse_frontmatter =
      λ text. ok (record { name = some (codes "review"); description = some (codes "Reviews") });
  debug = λ text. text;
}

abbrev review_skill : SkillScope → FilePath → SkillDefinition
review_skill scope root = record {
  name = codes "review";
  description = codes "Reviews";
  content = codes "Read it.";
  scope = scope;
  path = review_of root ++ normal (codes "SKILL.md") ∷ [];
}

abbrev found_catalog : SkillCatalog
found_catalog = record {
  skills = review_skill SkillScope.project workspace ∷ [];
  overrides =
      record {
        name = codes "review";
        overridden = review_skill SkillScope.user home;
        active = review_skill SkillScope.project workspace;
      }
      ∷ [];
}

-- The skill of the project takes the place of the user's.
disk_is_resolved : resolve_catalog disk (some home) workspace ≡ ok found_catalog
unfolding resolve_catalog discover_skills insert_skills insert_skill parse_skill_file
    reject_oversized_skill_file required_field split_skill_file split_once strip_text trim
    trim_start trim_end add_skill insert_sorted_skill
disk_is_resolved = refl

resolve_catalog-IsSound_example :
    All (IsSound disk) found_catalog.skills × All (IsSoundOverride disk) found_catalog.overrides
resolve_catalog-IsSound_example =
    resolve_catalog-IsSound disk (some home) workspace disk_is_resolved
