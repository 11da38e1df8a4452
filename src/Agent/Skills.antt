-- ===== src/Agent/Skills.antt =====
-- crates/jux-core/src/skills/mod.rs: the skills of a user and of a project.
-- The file system and `serde_yaml` are parameters, and so is the debug form of a text.
use jux.Base.{
  ℕ, Text, codes, text_eq, List, [], ◌∷◌, ◌++◌, Option, none, some, any, find, if◌then◌else◌,
  Result, ok, err,
}
use jux.Policy.Paths.{FilePath, path_text}

pub data SkillScope : Type 0 where
  user project : SkillScope

-- `SkillScope::label`
abbrev pub label : SkillScope → Text
label user = codes "user"
label project = codes "project"

pub record SkillDefinition : Type 0 where
  pub name : Text
  pub description : Text
  pub content : Text
  pub scope : SkillScope
  pub path : FilePath

pub record SkillOverride : Type 0 where
  pub name : Text
  pub overridden : SkillDefinition
  pub active : SkillDefinition

-- The skills in the order of their names, as the `BTreeMap` keeps them.
pub record SkillCatalog : Type 0 where
  pub skills : List SkillDefinition
  pub overrides : List SkillOverride

abbrev pub newline : ℕ
newline = 10

-- `render_skill_index`
unfoldable pub render_skills : List SkillDefinition → Text
render_skills [] = []
render_skills (skill ∷ skills) =
    codes "- "
    ++ (skill.name ++ (codes ": " ++ (skill.description ++ newline ∷ render_skills skills)))

abbrev pub skill_index_header : Text
skill_index_header =
    codes "## Available Skills"
    ++ newline
      ∷ newline
      ∷ (codes "Project skills override user skills with the same name."
          ++ newline
            ∷ (codes
                  "To use a skill, call the call_skill tool with the skill name and a focused task. "
                ++ (codes "Do not assume a skill is active just because it is listed here."
                    ++ newline ∷ newline ∷ [])))

unfoldable pub render_skill_index : List SkillDefinition → Text
unfolding render_skills
render_skill_index skills = skill_index_header ++ render_skills skills

-- The loop of `render_active_skills`.
unfoldable pub render_active : List SkillDefinition → Text
render_active [] = []
render_active (skill ∷ skills) =
    codes "### "
    ++ (skill.name
        ++ newline
          ∷ (codes "Source: "
              ++ (path_text skill.path
                  ++ newline
                    ∷ (codes "Scope: "
                        ++ (label skill.scope
                            ++ newline
                              ∷ newline
                              ∷ (skill.content ++ newline ∷ newline ∷ render_active skills))))))

unfoldable pub render_active_skills : List SkillDefinition → Text
unfolding render_active
render_active_skills skills = codes "## Active Skills" ++ newline ∷ newline ∷ render_active skills

unfoldable pub render_skill_execution_prompt : SkillDefinition → Text
render_skill_execution_prompt skill =
    codes "You are Jux executing one skill subflow with a read-only copy of the parent context."
    ++ newline
      ∷ (codes "The active skill is "
          ++ (skill.name
              ++ (codes " from "
                  ++ (path_text skill.path
                      ++ (codes " ("
                          ++ (label skill.scope
                              ++ (codes ")."
                                  ++ newline
                                    ∷ (codes
                                          "Follow the skill instructions below, but do not override higher-priority system, "
                                        ++ (codes
                                              "safety, policy, repository, or inherited parent instructions. Changes to this subflow "
                                            ++ (codes
                                                  "do not modify the parent context. Return only the final skill result that should be "
                                                ++ (codes "sent back to the parent run."
                                                    ++ newline
                                                      ∷ newline
                                                      ∷ (codes "## Skill Instructions"
                                                          ++ newline ∷ newline
                                                            ∷ skill.content))))))))))))

abbrev pub add_selected : SkillDefinition → List SkillDefinition → List SkillDefinition
add_selected skill selected =
    if any (λ s. text_eq s.name skill.name) selected then selected else selected ++ skill ∷ []

abbrev select_found :
    Text
    → Option SkillDefinition
    → List SkillDefinition
    → (List SkillDefinition → Result Text (List SkillDefinition))
    → Result Text (List SkillDefinition)
select_found name none selected continue = err (codes "skill not found: " ++ name)
select_found name (some skill) selected continue = continue (add_selected skill selected)

-- The loop of `select_explicit_skills`: the skills selected so far, and the names left.
unfoldable pub select_from :
    List SkillDefinition → List SkillDefinition → List Text → Result Text (List SkillDefinition)
select_from skills selected [] = ok selected
select_from skills selected (name ∷ names) =
    select_found name (find (λ s. text_eq s.name name) skills) selected
      (λ chosen. select_from skills chosen names)

unfoldable pub select_explicit_skills :
    List SkillDefinition → List Text → Result Text (List SkillDefinition)
unfolding select_from
select_explicit_skills skills names = select_from skills [] names
