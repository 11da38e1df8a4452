-- ===== src/Config/Denying.antt =====
-- crates/jux-core/src/config/mod.rs: what a rule that denies means for accesses that it does not name.
use jux.Base.{true, false, List, ◌∷◌, any, ok, ◌≡◌}
use jux.Policy.Paths.{FilePath}
use jux.Policy.Pattern.{RegexCrate}
use jux.Policy.Filesystem.{
  WasmFilesystemAccess, WasmFilesystemDecision, requested_paths, matches_any, decide_rules,
  decide_path_access,
}
use jux.Config.Settings.{RuleEffect, FilesystemRuleConfig}
use jux.Config.Resolve.{
  is_write, rule_permissions, into_filesystem_rule, resolve_workdirs, into_filesystem_policy,
}

-- If the first rule of the settings denies, does not name `write`, and matches a path, then the
-- policy they give allows to write there.
pub into_filesystem_policy-deny :
    (crate : RegexCrate) (root path : FilePath) (workdirs : List FilePath)
    (rule : FilesystemRuleConfig) (rules : List FilesystemRuleConfig)
    → rule.effect ≡ RuleEffect.deny
    → any is_write rule.permissions ≡ false
    → matches_any crate
        (into_filesystem_rule rule)
        (requested_paths (resolve_workdirs root workdirs) path)
        (resolve_workdirs root workdirs)
      ≡ ok true
    → decide_path_access crate
        (into_filesystem_policy root (record { workdirs = workdirs; rules = rule ∷ rules }))
        path
        WasmFilesystemAccess.write
      ≡ ok WasmFilesystemDecision.allow
unfolding into_filesystem_policy decide_path_access decide_rules rule_permissions
into_filesystem_policy-deny crate root path workdirs rule rules deny no_write matched =
    rw (matched, deny, no_write)
