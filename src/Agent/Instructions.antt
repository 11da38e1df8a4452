-- ===== src/Agent/Instructions.antt =====
-- crates/jux-core/src/instructions/mod.rs: instruction documents of a user and of a project.
use jux.Base.{
  Bool, Text, codes, List, [], ◌∷◌, ◌++◌, Option, none, some, find, is_empty, if◌then◌else◌, Result,
  ok, ◌>>=◌, map_err,
}
use jux.Policy.Paths.{FilePath, normal, path_text}
use jux.Agent.Skills.{SkillScope, user, project, newline}
use jux.Agent.Discovery.{trim}

-- `InstructionScope` has the same two values as `SkillScope`.
abbrev pub InstructionScope : Type 0
InstructionScope = SkillScope

-- `InstructionScope::title`
abbrev pub title : InstructionScope → Text
title user = codes "User"
title project = codes "Project"

pub record InstructionDocument : Type 0 where
  pub scope : InstructionScope
  pub path : FilePath
  pub content : Text

pub record InstructionFiles : Type 0 where
  pub is_file : FilePath → Bool
  pub read_to_string : FilePath → Result Text Text

abbrev render_instruction_document : InstructionDocument → Text
render_instruction_document document =
    newline
    ∷ (codes "### "
        ++ (title document.scope
            ++ (codes " Instructions"
                ++ newline
                  ∷ (codes "Source: "
                      ++ (path_text document.path
                          ++ newline ∷ newline ∷ (document.content ++ newline ∷ []))))))

abbrev render_each : List InstructionDocument → Text
render_each [] = []
render_each (document ∷ documents) = render_instruction_document document ++ render_each documents

unfoldable pub render_instruction_documents : List InstructionDocument → Text
render_instruction_documents documents =
    codes "## Jux Instruction Documents"
    ++ newline
      ∷ newline
      ∷ (codes "The following instruction documents are loaded for this run."
          ++ newline
            ∷ newline
            ∷ (codes "Priority rule:"
                ++ newline
                  ∷ (codes "- Project instructions have higher priority than user instructions."
                      ++ newline
                        ∷ (codes "- If instructions conflict, follow project instructions."
                            ++ newline ∷ render_each documents))))

module _ (files : InstructionFiles) where
  unfoldable pub first_instruction_path : FilePath → Option FilePath
  first_instruction_path directory = find files.is_file (
      (directory ++ normal (codes "AGENTS.md") ∷ [])
      ∷ (directory ++ normal (codes "agents.md") ∷ [])
      ∷ [])

  abbrev push_found :
      Option FilePath
      → InstructionScope
      → List InstructionDocument
      → Result Text (List InstructionDocument)
  push_found none scope documents = ok documents
  push_found (some path) scope documents = do
    content ←
        map_err
          (λ error.
            codes "failed to read instruction document "
            ++ (path_text path ++ (codes ": " ++ error)))
          (files.read_to_string path)
    if is_empty (trim content)
        then ok documents
        else ok (documents ++ record { scope = scope; path = path; content = content } ∷ [])

  unfoldable pub push_document :
      List InstructionDocument
      → InstructionScope
      → FilePath
      → Result Text (List InstructionDocument)
  unfolding first_instruction_path
  push_document documents scope directory =
      push_found (first_instruction_path directory) scope documents

  abbrev push_user : Option FilePath → Result Text (List InstructionDocument)
  push_user none = ok []
  push_user (some home) = push_document [] user (home ++ normal (codes ".jux") ∷ [])

  -- `InstructionResolver::resolve`
  unfoldable pub resolve : Option FilePath → FilePath → Result Text (List InstructionDocument)
  unfolding push_document
  resolve user_home workspace_root = do
    documents ← push_user user_home
    push_document documents project (workspace_root ++ normal (codes ".jux") ∷ [])
