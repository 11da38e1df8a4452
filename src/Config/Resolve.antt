-- ===== src/Config/Resolve.antt =====
-- crates/jux-core/src/config/mod.rs: `JuxConfig::resolve`.
use jux.Base.{
  Bool, true, false, not, ◌&&◌, Text, codes, List, [], ◌∷◌, map, any, is_empty, leb, some, Result,
  ok, err, if◌then◌else◌,
}
use jux.Policy.Paths.{FilePath, cur_dir, is_absolute, join}
use jux.Policy.Pattern.{MatchPatternKind}
use jux.Policy.Filesystem.{
  WasmFilesystemPermissions, WasmFilesystemRuleBase, WasmFilesystemRule, WasmFilesystemPolicy,
}
use jux.Policy.Network.{
  WasmHttpMethod, WasmHttpMatchKind, WasmHttpRuleEffect, WasmHttpRule, WasmNetworkPolicy,
}
use jux.Policy.Sandbox.{WasmPackageRule, builtin, isolated, RuntimePolicy, NativeCommandPolicy}
use jux.Config.Settings.{
  ModelConfig, AgentConfig, LoggingConfig, TuiConfig, RuleEffect, MatchKindConfig,
  FilesystemRuleBaseConfig, FilesystemPermissionConfig, HttpMethodConfig, FilesystemRuleConfig,
  FilesystemConfig, HttpRuleConfig, NetworkConfig, NativeConfig, SandboxConfig, JuxConfig,
}

-- The conversions `From<...>` of the settings.
abbrev pub effect_of : RuleEffect → WasmHttpRuleEffect
effect_of RuleEffect.allow = WasmHttpRuleEffect.allow
effect_of RuleEffect.deny = WasmHttpRuleEffect.deny

abbrev pub pattern_kind_of : MatchKindConfig → MatchPatternKind
pattern_kind_of MatchKindConfig.literal = MatchPatternKind.literal
pattern_kind_of MatchKindConfig.regex = MatchPatternKind.regex
pattern_kind_of MatchKindConfig.wildcard = MatchPatternKind.wildcard

abbrev pub http_kind_of : MatchKindConfig → WasmHttpMatchKind
http_kind_of MatchKindConfig.literal = WasmHttpMatchKind.literal
http_kind_of MatchKindConfig.regex = WasmHttpMatchKind.regex
http_kind_of MatchKindConfig.wildcard = WasmHttpMatchKind.wildcard

abbrev pub base_of : FilesystemRuleBaseConfig → WasmFilesystemRuleBase
base_of FilesystemRuleBaseConfig.workdir = WasmFilesystemRuleBase.workdir
base_of FilesystemRuleBaseConfig.absolute = WasmFilesystemRuleBase.absolute

abbrev pub method_of : HttpMethodConfig → WasmHttpMethod
method_of HttpMethodConfig.get = WasmHttpMethod.get
method_of HttpMethodConfig.post = WasmHttpMethod.post
method_of HttpMethodConfig.put = WasmHttpMethod.put
method_of HttpMethodConfig.patch = WasmHttpMethod.patch
method_of HttpMethodConfig.delete = WasmHttpMethod.delete
method_of HttpMethodConfig.head = WasmHttpMethod.head
method_of HttpMethodConfig.options = WasmHttpMethod.options

abbrev pub is_read : FilesystemPermissionConfig → Bool
is_read FilesystemPermissionConfig.read = true
is_read FilesystemPermissionConfig.write = false

abbrev pub is_write : FilesystemPermissionConfig → Bool
is_write FilesystemPermissionConfig.read = false
is_write FilesystemPermissionConfig.write = true

abbrev pub filesystem_permissions : Bool → Bool → WasmFilesystemPermissions
filesystem_permissions read write = record { read = read; write = write }

abbrev with_effect : RuleEffect → Bool → Bool → WasmFilesystemPermissions
with_effect RuleEffect.allow read write = filesystem_permissions read write
with_effect RuleEffect.deny read write = filesystem_permissions (not read) (not write)

-- `FilesystemRuleConfig::permissions`
unfoldable pub rule_permissions : FilesystemRuleConfig → WasmFilesystemPermissions
rule_permissions rule =
    with_effect rule.effect (any is_read rule.permissions) (any is_write rule.permissions)

-- `FilesystemRuleConfig::into_rule`, which always succeeds.
abbrev pub into_filesystem_rule : FilesystemRuleConfig → WasmFilesystemRule
into_filesystem_rule rule = record {
  base = base_of rule.base;
  pattern = record { kind = pattern_kind_of rule.match_kind; value = rule.path };
  permissions = rule_permissions rule;
}

abbrev is_dot : FilePath → Bool
is_dot (cur_dir ∷ []) = true
is_dot _ = false

abbrev resolve_workdir : FilePath → FilePath → FilePath
resolve_workdir workspace_root dir =
    if is_absolute dir then dir else if is_dot dir then workspace_root else join workspace_root dir

unfoldable pub resolve_workdirs : FilePath → List FilePath → List FilePath
resolve_workdirs workspace_root workdirs = map (resolve_workdir workspace_root) workdirs

unfoldable pub into_filesystem_policy : FilePath → FilesystemConfig → WasmFilesystemPolicy
unfolding resolve_workdirs
into_filesystem_policy workspace_root config = record {
  workdirs = resolve_workdirs workspace_root config.workdirs;
  rules = map into_filesystem_rule config.rules;
}

abbrev pub into_http_rule : HttpRuleConfig → WasmHttpRule
into_http_rule rule = record {
  effect = effect_of rule.effect;
  method = method_of rule.method;
  match_kind = http_kind_of rule.match_kind;
  pattern = rule.pattern;
}

abbrev pub into_network_policy : NetworkConfig → WasmNetworkPolicy
into_network_policy config = record { http_rules = map into_http_rule config.http.rules }

abbrev pub into_native_policy : NativeConfig → NativeCommandPolicy
into_native_policy config = record {
  enabled = not (is_empty config.commands);
  allowed_commands = config.commands;
}

abbrev pub builtin_wasm_packages : List WasmPackageRule
builtin_wasm_packages =
    record {
      package_name = codes "wasmer/coreutils";
      version = some (codes "1.0.25");
      source = builtin;
    }
    ∷ []

unfoldable pub into_runtime_policy : FilePath → SandboxConfig → RuntimePolicy
unfolding into_filesystem_policy
into_runtime_policy workspace_root config = record {
  workspace_root = workspace_root;
  wasm = record {
    filesystem = into_filesystem_policy workspace_root config.filesystem;
    environment = isolated;
    network = into_network_policy config.network;
    packages = builtin_wasm_packages;
  };
  native = into_native_policy config.native;
}

pub record ResolvedConfig : Type 0 where
  pub model : ModelConfig
  pub agent : AgentConfig
  pub logging : LoggingConfig
  pub tui : TuiConfig
  pub runtime_policy : RuntimePolicy

unfoldable pub resolve_config : FilePath → JuxConfig → Result Text ResolvedConfig
unfolding into_runtime_policy
resolve_config workspace_root config =
    if not (leb 1 config.tui.scroll_lines && leb config.tui.scroll_lines 100)
    then err (codes "tui.scroll_lines must be between 1 and 100")
    else ok (record {
      model = config.model;
      agent = config.agent;
      logging = config.logging;
      tui = config.tui;
      runtime_policy = into_runtime_policy workspace_root config.sandbox;
    })
