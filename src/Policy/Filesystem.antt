-- ===== src/Policy/Filesystem.antt =====
-- crates/jux-core/src/policy/wasm/filesystem.rs: ordered rules that decide path accesses.
use jux.Base.{
  Bool, true, false, ◌&&◌, not, Text, codes, List, [], ◌∷◌, map, Option, none, some, Result, ok,
  ◌>>=◌, if◌then◌else◌, is_empty,
}
use jux.Policy.Pattern.{RegexCrate, MatchPattern, MatchPatternKind, wildcard, matches}
use jux.Policy.Paths.{
  FilePath, is_absolute, join, strip_prefix, normalize_path, path_to_match_string,
}

pub data WasmFilesystemAccess : Type 0 where
  read write read_write : WasmFilesystemAccess

pub data WasmFilesystemDecision : Type 0 where
  allow deny : WasmFilesystemDecision

-- `From<bool>`
abbrev pub decision_from : Bool → WasmFilesystemDecision
decision_from allowed = if allowed then allow else deny

pub record WasmFilesystemPermissions : Type 0 where
  pub read : Bool
  pub write : Bool

abbrev pub no_permissions : WasmFilesystemPermissions
no_permissions = record { read = false; write = false }

abbrev pub read_permissions : WasmFilesystemPermissions
read_permissions = record { read = true; write = false }

abbrev pub write_permissions : WasmFilesystemPermissions
write_permissions = record { read = false; write = true }

abbrev pub read_write_permissions : WasmFilesystemPermissions
read_write_permissions = record { read = true; write = true }

-- `WasmFilesystemPermissions::allows`
abbrev pub allows : WasmFilesystemPermissions → WasmFilesystemAccess → Bool
allows p WasmFilesystemAccess.read = p.read
allows p WasmFilesystemAccess.write = p.write
allows p read_write = p.read && p.write

pub data WasmFilesystemRuleBase : Type 0 where
  workdir absolute : WasmFilesystemRuleBase

pub record WasmFilesystemRule : Type 0 where
  pub base : WasmFilesystemRuleBase
  pub pattern : MatchPattern
  pub permissions : WasmFilesystemPermissions

abbrev pub with_pattern :
    WasmFilesystemRuleBase
    → MatchPatternKind
    → Text
    → WasmFilesystemPermissions
    → WasmFilesystemRule
with_pattern base kind pattern permissions = record {
  base = base;
  pattern = record { kind = kind; value = pattern };
  permissions = permissions;
}

abbrev pub workdir_wildcard : Text → WasmFilesystemPermissions → WasmFilesystemRule
workdir_wildcard = with_pattern workdir wildcard

abbrev pub absolute_wildcard : Text → WasmFilesystemPermissions → WasmFilesystemRule
absolute_wildcard = with_pattern absolute wildcard

abbrev pub deny_rule : Text → WasmFilesystemRule
deny_rule pattern = workdir_wildcard pattern no_permissions

abbrev pub allow_read : Text → WasmFilesystemRule
allow_read pattern = workdir_wildcard pattern read_permissions

abbrev pub allow_write : Text → WasmFilesystemRule
allow_write pattern = workdir_wildcard pattern write_permissions

abbrev pub allow_read_write : Text → WasmFilesystemRule
allow_read_write pattern = workdir_wildcard pattern read_write_permissions

abbrev pub deny_absolute : Text → WasmFilesystemRule
deny_absolute pattern = absolute_wildcard pattern no_permissions

abbrev pub allow_read_absolute : Text → WasmFilesystemRule
allow_read_absolute pattern = absolute_wildcard pattern read_permissions

abbrev pub allow_write_absolute : Text → WasmFilesystemRule
allow_write_absolute pattern = absolute_wildcard pattern write_permissions

abbrev pub allow_read_write_absolute : Text → WasmFilesystemRule
allow_read_write_absolute pattern = absolute_wildcard pattern read_write_permissions

abbrev pub workdir_literal : Text → WasmFilesystemPermissions → WasmFilesystemRule
workdir_literal = with_pattern workdir MatchPatternKind.literal

abbrev pub workdir_regex : Text → WasmFilesystemPermissions → WasmFilesystemRule
workdir_regex = with_pattern workdir MatchPatternKind.regex

abbrev pub absolute_literal : Text → WasmFilesystemPermissions → WasmFilesystemRule
absolute_literal = with_pattern absolute MatchPatternKind.literal

abbrev pub absolute_regex : Text → WasmFilesystemPermissions → WasmFilesystemRule
absolute_regex = with_pattern absolute MatchPatternKind.regex

pub record WasmFilesystemPolicy : Type 0 where
  pub workdirs : List FilePath
  pub rules : List WasmFilesystemRule

abbrev pub disabled : WasmFilesystemPolicy
disabled = record { workdirs = []; rules = [] }

abbrev pub read_write_workdir : FilePath → WasmFilesystemPolicy
read_write_workdir dir = record { workdirs = dir ∷ []; rules = allow_read_write (codes "**") ∷ [] }

abbrev pub read_only_workdir : FilePath → WasmFilesystemPolicy
read_only_workdir dir = record { workdirs = dir ∷ []; rules = allow_read (codes "**") ∷ [] }

-- `WasmFilesystemPolicy::has_rules`
abbrev pub has_rules : WasmFilesystemPolicy → Bool
has_rules policy = not (is_empty policy.rules)

-- `requested_paths`: a relative path is looked for in every working directory.
unfoldable pub requested_paths : List FilePath → FilePath → List FilePath
requested_paths workdirs path =
    if is_absolute path
    then normalize_path path ∷ []
    else map (λ dir. normalize_path (join dir path)) workdirs

module _ (crate : RegexCrate) where
  -- The test of one working directory: no match where the path lies outside of it.
  abbrev pub matches_relative : MatchPattern → Option FilePath → Result Text Bool
  matches_relative pattern none = ok false
  matches_relative pattern (some relative) = matches crate pattern (path_to_match_string relative)

  unfoldable pub matches_workdir_path : MatchPattern → FilePath → List FilePath → Result Text Bool
  matches_workdir_path pattern path [] = ok false
  matches_workdir_path pattern path (dir ∷ workdirs) = do
    let rest = matches_workdir_path pattern path workdirs
    matched ← matches_relative pattern (strip_prefix path (normalize_path dir))
    if matched then ok true else rest

  abbrev pub matches_base :
      WasmFilesystemRuleBase → MatchPattern → FilePath → List FilePath → Result Text Bool
  matches_base absolute pattern path workdirs = matches crate pattern (path_to_match_string path)
  matches_base workdir pattern path workdirs = matches_workdir_path pattern path workdirs

  unfoldable pub matches_path : WasmFilesystemRule → FilePath → List FilePath → Result Text Bool
  matches_path rule path workdirs = matches_base rule.base rule.pattern path workdirs

  unfoldable pub matches_any : WasmFilesystemRule → List FilePath → List FilePath → Result Text Bool
  matches_any rule [] workdirs = ok false
  matches_any rule (path ∷ paths) workdirs = do
    let rest = matches_any rule paths workdirs
    matched ← matches_path rule path workdirs
    if matched then ok true else rest

  -- The loop over the rules.
  unfoldable pub decide_rules :
      List WasmFilesystemRule
      → List FilePath
      → List FilePath
      → WasmFilesystemAccess
      → Result Text WasmFilesystemDecision
  decide_rules [] paths workdirs access = ok deny
  decide_rules (rule ∷ rules) paths workdirs access = do
    let rest = decide_rules rules paths workdirs access
    matched ← matches_any rule paths workdirs
    if matched then ok (decision_from (allows rule.permissions access)) else rest

  unfoldable pub decide_path_access :
      WasmFilesystemPolicy → FilePath → WasmFilesystemAccess → Result Text WasmFilesystemDecision
  decide_path_access policy path access =
      decide_rules policy.rules (requested_paths policy.workdirs path) policy.workdirs access
